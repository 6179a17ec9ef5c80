-- ===== src/Topbox/Mvp/Wire/Laws.antt =====
-- What MVP_Write and MVP_Read change.
use mmtao_old.Topbox.Link.{Env, Link}
use mmtao_old.Topbox.Socket.{flush}
use mmtao_old.Base.{◌≡◌, true, false, [], ◌∷◌, ◌++◌, arith, length-append}
use mmtao_old.Base.Text.{Bytes}
use mmtao_old.Base.Int.{is_set}
use mmtao_old.Topbox.Socket.Laws.{
  string_write_frame, string_write_sent, flush-IsDrained, string_write-Short, Short,
}
use mmtao_old.Topbox.Mvp.Wire.{mvp_write_step, mvp_read_step, read_end}

module _ (env : Env) where
  -- MVP_Write changes what waits, what was sent and the number of calls, and nothing else.
  pub write_frame :
      (request : Bytes) (s : Link)
      → let t = (mvp_write_step env request s).1 in
        t ≡ record s { inbox = t.inbox; sent = t.sent; calls = t.calls }
  unfolding mvp_write_step flush
  write_frame request s = string_write_frame env (request ++ 13 ∷ []) (flush s)

  -- If MVP_Write returns 0, the descriptor is open, the whole line went out with its carriage return,
  -- and behind what the flush left waits only what the device answers to it.
  pub write_sent :
      (request : Bytes) (s : Link)
      → is_set (mvp_write_step env request s).0 ≡ false
      → (s.is_open ≡ true)
        × ((mvp_write_step env request s).1.sent ≡ s.sent ++ (request ++ 13 ∷ []) ∷ [])
        × ((mvp_write_step env request s).1.inbox
            ≡ (flush s).inbox ++ env.answer s.calls (request ++ 13 ∷ []))
  unfolding mvp_write_step flush
  write_sent request s h =
      ground (
        arith,
        string_write_sent env (request ++ 13 ∷ []) (flush s),
        length-append request (13 ∷ []),
      )

  -- MVP_Read changes what waits and the error flag, and nothing else.
  pub read_frame :
      (s : Link)
      → let t = (mvp_read_step env s).1 in t ≡ record s { inbox = t.inbox; error = t.error }
  unfolding mvp_read_step read_end
  read_frame s = ground arith

  pub write_open :
      (request : Bytes) (s : Link)
      → is_set (mvp_write_step env request s).0 ≡ false
      → s.is_open ≡ true
  write_open request s h = (write_sent request s h).0

pub flush_frame : (s : Link) → flush s ≡ record s { inbox = (flush s).inbox }
flush_frame s = (flush-IsDrained s).1

module _ (env : Env) where
  -- A write that fails sends nothing, or a proper part of its line.
  pub write-Short :
      (request : Bytes) (s : Link)
      → is_set (mvp_write_step env request s).0 ≡ true
      → Short env (request ++ 13 ∷ []) s (mvp_write_step env request s).1
  unfolding mvp_write_step flush
  write-Short request s h =
      string_write-Short env (request ++ 13 ∷ []) (flush s) (λ e. ground (arith, e))
