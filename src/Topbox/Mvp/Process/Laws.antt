-- ===== src/Topbox/Mvp/Process/Laws.antt =====
-- What a request line does to the command thread of a device.
use mathlib.Core.Option
use mmtao_old.Topbox.Mvp.Process.{
  Request, Session, perform, process, parse_request, newest, begin_home, act, Command,
}
use mmtao_old.Base.{
  ◌≡◌, suc, true, false, Option, none, some, ◌∷◌, arith, ◌≢◌, refl, ap, Bool, not, if◌then◌else◌,
}
use mmtao_old.Base.Text.{Bytes}
use mmtao_old.Base.Int.{pos, negsuc, ℤ}
use mmtao_old.Topbox.Link.{Env, Link}
use mmtao_old.Topbox.Mvp.Settles.{Settles, IsSettled}
use mmtao_old.Topbox.Mvp.Mutex.{perform-Settles}

-- The mutex is free, and a device without connection is closed and shows no state.
abbrev pub StaysSettled : Option (ℤ × Session) → Type 0
StaysSettled none = ⊥
StaysSettled (some (status, x)) = IsSettled x.link

pub StaysSettled-map :
    (x : Session) (o : Option (ℤ × Link))
    → Settles o
    → StaysSettled (Option.map (λ (r : ℤ × Link). (pos 0, record x { link = r.1 })) o)
StaysSettled-map x none h = h
StaysSettled-map x (some (status, t)) h = h

pub choice_settled :
    (b : Bool) (o p : Option (ℤ × Session))
    → StaysSettled o
    → StaysSettled p
    → StaysSettled (if b then o else p)
choice_settled true o p h k = h
choice_settled false o p h k = k

module _ (env : Env) where
  act-StaysSettled :
      (r : Request) (x : Session)
      → r ≢ Request.command Command.reset
      → IsSettled x.link
      → StaysSettled (act env r x)
  unfolding act
  act-StaysSettled Request.incomplete x n h = h
  act-StaysSettled Request.help x n h = h
  act-StaysSettled Request.unknown x n h = h
  act-StaysSettled Request.home x n h = ground (arith, h)
  act-StaysSettled (Request.debug none) x n h = h
  act-StaysSettled (Request.debug (some on)) x n h = h
  act-StaysSettled (Request.command c) x n h =
      StaysSettled-map x (perform env c x.link)
        (perform-Settles env c x.link (λ is_reset. n (ap Request.command is_reset)) h)

  -- Where the mutex is free, and the device, if it has no connection, is closed and without state,
  -- MVP_Process returns on every line that does not ask for a reset, whatever the device and the
  -- kernel do, and this still holds when it returns.
  pub process-StaysSettled :
      (line : Bytes) (x : Session)
      → parse_request env.floats line ≢ Request.command Command.reset
      → IsSettled x.link
      → StaysSettled (process env line x)
  unfolding process
  process-StaysSettled line x n h =
      choice_settled (not x.link.connected)
        (some (negsuc 0, record x { running = pos 0 ∷ x.running }))
        (act env (parse_request env.floats line) (record x { running = pos 0 ∷ x.running })) h
        (act-StaysSettled (parse_request env.floats line) (record x { running = pos 0 ∷ x.running })
          n h)

  -- A homing thread sets the flag that was allocated for it, and the next request looks at a new
  -- one: a second "home" on a connected device starts a second thread while the first one runs.
  pub process-home :
      (line : Bytes) (x y : Session)
      → x.link.connected ≡ true
      → parse_request env.floats line ≡ Request.home
      → y ≡ record x { running = pos 0 ∷ x.running; homing = suc x.homing }
      → (process env line x ≡ some (pos 0, y))
        × (process env line (begin_home y)
            ≡ some (
              pos 0,
              record x { running = pos 0 ∷ pos 1 ∷ x.running; homing = suc (suc x.homing) },
            ))
  unfolding process act newest begin_home
  process-home line x y up home e = rw (e, up, home) (refl, refl)
