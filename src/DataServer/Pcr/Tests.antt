-- ===== src/DataServer/Pcr/Tests.antt =====
-- The theorems on the commands to the reconstructor at concrete inputs.
use Prim.Native.Nat.{ℕ}
use mmtao_old.Base.{◌≤◌, ◌≡◌, refl, false, some, List, [], ◌∷◌, ◌++◌, arith, leb, if◌then◌else◌}
use mmtao_old.Base.Text.{codes}
use mmtao_old.Topbox.Sample.{no_answer, ready, test_env}
use mmtao_old.Topbox.Link.{Env, Link, SysResult, count, Chunk, incoming}
use mmtao_old.Topbox.Socket.{write_loop, delivered, string_write}
use mmtao_old.DataServer.Pcr.Vectors.{write_vector}
use mmtao_old.DataServer.Pcr.Session.{read_byte, c_string, string_loop, judge, send_cmd}
use mmtao_old.DataServer.Pcr.Session.Judged.{request_line, send_cmd-judges}
use mmtao_old.DataServer.Pcr.Vectors.Laws.{write_vector-split}

-- A reconstructor that answers "OK" to every line.
abbrev ok_line : List Chunk
ok_line = incoming 79 (codes "K" ++ 10 ∷ []) ∷ []

abbrev recon_env : Env
recon_env = record test_env { answer = λ n line. ok_line }

-- A late reply to the request before: "error".
abbrev late_line : List Chunk
late_line = incoming 101 (codes "rror" ++ 10 ∷ []) ∷ []

abbrev late : Link
late = record ready { inbox = late_line }

send_cmd-judges_example :
    (t : Link) × (send_cmd recon_env (λ n. no_answer) (codes "loop_open") late
      ≡ some (judge (codes "error"), t))
    × (t.sent ≡ late.sent ++ request_line (codes "loop_open") ∷ [])
    × (t.inbox ≡ ok_line)
    × (t.locked ≡ false)
unfolding string_write write_loop delivered string_loop read_byte c_string
send_cmd-judges_example =
    send_cmd-judges recon_env (λ n. no_answer) (codes "loop_open") (codes "error") ok_line late
      (omega arith) refl refl refl refl

-- A kernel that takes two bytes at most.
abbrev two_at_most : ℕ → SysResult
two_at_most k = count (if leb k 2 then k else 2)

two_accept_le : (k m : ℕ) → two_at_most k ≡ count m → m ≤ k
two_accept_le k m h = grind arith

abbrev two_env : Env
two_env = record recon_env {
  accept = λ n k. two_at_most k;
  accept_le = λ n k m h. two_accept_le k m h;
}

write_vector-split_example :
    (t : Link) × (write_vector two_env (1 ∷ 2 ∷ 3 ∷ []) ready ≡ some (false, t))
    × (t.sent ≡ ready.sent ++ (1 ∷ 2 ∷ 3 ∷ []) ∷ [])
write_vector-split_example =
    write_vector-split two_env (1 ∷ 2 ∷ 3 ∷ []) 1 0 ready refl refl refl refl
