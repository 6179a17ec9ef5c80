-- ===== src/Topbox/Smart/Tests.antt =====
-- The theorems on the Smart motors at concrete inputs.
use mathlib.Core.Option
use mmtao_old.Base.{◌++◌, some, ℕ, ◌≡◌, true, refl, [], ◌∷◌}
use mmtao_old.Base.Int.{ℤ, pos}
use mmtao_old.Base.Text.{Bytes, codes, print_int}
use mmtao_old.Topbox.Link.{Env, Link, incoming}
use mmtao_old.Topbox.Sample.{test_env, ready, no_answer}
use mmtao_old.Topbox.Socket.{string_write}
use mmtao_old.Topbox.Smart.{smart_write_step}
use mmtao_old.Topbox.Smart.Reads.{brief}
use mmtao_old.Topbox.Smart.Setup.{smart_init}
use mmtao_old.Topbox.Smart.Looper.{Motors, smart_looper}
use mmtao_old.Topbox.Smart.Kept.{StaysReady, smart_looper-StaysReady}
use mmtao_old.Topbox.Smart.Moves.{
  rotation, Goes, smart_move_absolute, smart_move_relative, smart_moves-Goes,
}
use mmtao_old.Topbox.Smart.Transcript.{IsSetUp, smart_init-IsSetUp}

-- A controller that acknowledges every line.
abbrev acknowledging : Env
acknowledging = record test_env { answer = λ n line. incoming 10 (48 ∷ 10 ∷ []) ∷ [] }

acknowledges_briefly : (n : ℕ) (line : Bytes) → brief (acknowledging.answer n line) ≡ true
unfolding brief
acknowledges_briefly n line = refl

smart_init-IsSetUp_example : IsSetUp acknowledging ready (smart_init acknowledging ready)
unfolding brief
smart_init-IsSetUp_example = smart_init-IsSetUp acknowledging acknowledges_briefly ready refl refl

abbrev motors : Motors
motors = record { link = ready; rotation = ready.device }

smart_looper-StaysReady_example :
    StaysReady (smart_looper acknowledging no_answer (no_answer ∷ no_answer ∷ []) motors)
unfolding brief
smart_looper-StaysReady_example =
    smart_looper-StaysReady acknowledging acknowledges_briefly no_answer
      (no_answer ∷ no_answer ∷ []) motors refl refl

abbrev homed_motor : Link
homed_motor = record ready {
  device = record ready.device { name = codes "Rotation"; home = pos 1 };
}

smart_moves-Goes_example :
    Goes acknowledging 130 homed_motor
      (codes "P=" ++ print_int (pos 3))
      (smart_move_absolute acknowledging 3 homed_motor)
    × Goes acknowledging 130 homed_motor
        (codes "D=" ++ print_int (pos 3))
        (smart_move_relative acknowledging 3 homed_motor)
smart_moves-Goes_example = smart_moves-Goes acknowledging rotation 3 homed_motor refl refl

-- The set-up succeeds.
test_success : Option.map (λ (r : ℤ × Link). r.0) (smart_init acknowledging ready) ≡ some (pos 0)
unfolding smart_init smart_write_step string_write
test_success = refl
