-- ===== src/DataServer/Pcr/Session/Judged.antt =====
-- Which line PCR_SendCmd takes for the reply to its request.
use mmtao_old.Base.{
  ℕ, ◌<◌, ◌≡◌, refl, true, false, Option, some, List, [], ◌∷◌, ◌++◌, arith, length, ap, ◌∙◌,
  length-append,
}
use mmtao_old.Base.Text.{Bytes}
use mmtao_old.Base.Int.{pos}
use mmtao_old.Topbox.Link.{lock, unlock, release, Env, Link, Chunk}
use mmtao_old.Topbox.Socket.{string_write}
use mmtao_old.Topbox.Socket.Connect.{Attempt}
use mmtao_old.DataServer.Pcr.Session.{
  read_byte, c_string, string_loop, is_ready, judge, conclude, await_reply, write_line, ensure,
  exchange, send_cmd, ◌>>=◌, line_length,
}
use mmtao_old.Topbox.Socket.Laws.{string_write_frame, string_write_sent}
use mmtao_old.DataServer.Pcr.Session.Laws.{await_reply-loop}

is_ready-loop :
    (s : Link) (inbox : List Chunk) (out : Option Bytes × List Chunk)
    → s.inbox ≡ inbox
    → string_loop line_length inbox ≡ some out
    → is_ready s ≡ true
unfolding string_loop read_byte
is_ready-loop s [] out e h = absurd (ground (arith, h))
is_ready-loop s (c ∷ cs) out e h = rw e refl

-- The request and its newline.
abbrev pub request_line : Bytes → Bytes
request_line request = request ++ 10 ∷ []

await_reply-judges :
    (s : Link) (reply : Bytes) (rest : List Chunk)
    → s.locked ≡ true
    → string_loop line_length s.inbox ≡ some (some reply, rest)
    → await_reply s ≡ some (judge (c_string reply), record s { inbox = rest; locked = false })
unfolding conclude release unlock
await_reply-judges s reply rest l h =
    await_reply-loop s (some reply) rest (is_ready-loop s s.inbox _ refl h) h ∙ rw l refl

module _ (env : Env) where
  write_line-all :
      (request : Bytes) (s : Link)
      → length request < 119
      → (string_write env (request_line request) s).0 ≡ pos (length (request_line request))
      → write_line env request s ≡ some (true, (string_write env (request_line request) s).1)
  unfolding write_line
  write_line-all request s b w = ground (arith, w)

  exchange-judges :
      (request reply : Bytes) (rest : List Chunk) (s u : Link)
      → s.locked ≡ false
      → write_line env request (record s { locked = true }) ≡ some (true, u)
      → await_reply u ≡ some (judge reply, record u { inbox = rest; locked = false })
      → exchange env request s ≡ some (judge reply, record u { inbox = rest; locked = false })
  unfolding exchange lock
  exchange-judges request reply rest s u f w a = rw (f, w, a, ◌>>=◌) refl

  send_cmd-connected :
      (attempt : ℕ → Attempt) (request : Bytes) (s : Link)
      → s.connected ≡ true
      → send_cmd env attempt request s ≡ exchange env request s
  unfolding send_cmd ensure
  send_cmd-connected attempt request s c = rw (c, ◌>>=◌) refl

  -- What waits once the request is on the line.
  abbrev pub arrived : Bytes → Link → List Chunk
  arrived request s = s.inbox ++ env.answer s.calls (request_line request)

  -- On a connection that takes the whole request, PCR_SendCmd judges the first line that waits. A line
  -- that waited before the request was sent, such as a late reply to the request before, is judged in
  -- place of the reply, which is left for the next request. The mutex is free again.
  pub send_cmd-judges :
      (attempt : ℕ → Attempt) (request reply : Bytes) (rest : List Chunk) (s : Link)
      → length request < 119
      → s.connected ≡ true
      → s.locked ≡ false
      → (string_write env (request_line request) (record s { locked = true })).0
        ≡ pos (length (request_line request))
      → string_loop line_length (arrived request s) ≡ some (some reply, rest)
      → (t : Link) × (send_cmd env attempt request s ≡ some (judge (c_string reply), t))
        × (t.sent ≡ s.sent ++ request_line request ∷ [])
        × (t.inbox ≡ rest)
        × (t.locked ≡ false)
  send_cmd-judges attempt request reply rest s b c f w h =
      let line = request_line request in
      let v = record s { locked = true } in
      let u = (string_write env line v).1 in
      let (_, sent, inbox) =
        string_write_sent env line v (ground (arith, length-append request (10 ∷ []))) w in
      (
        record u { inbox = rest; locked = false },
        send_cmd-connected attempt request s c
            ∙ exchange-judges request (c_string reply) rest s u f (write_line-all request v b w) (
                await_reply-judges u reply rest (ground (arith, string_write_frame env line v))
                  (ap (string_loop line_length) inbox ∙ h)),
        sent,
        refl,
        refl,
      )
