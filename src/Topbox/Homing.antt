-- ===== src/Topbox/Homing.antt =====
-- The threads that home a device, beside the thread that polls it: between any two steps of the
-- homing the polling thread has its turn, in which it makes any number of rounds.
pub mod Ends
use mmtao_old.Topbox.Link.{DeviceData, M}
use mmtao_old.Topbox.Mvp.Looper.{Poll}
use mmtao_old.Base.{ℕ, zero, suc, Bool, Option, none, some, if◌then◌else◌}
use mmtao_old.Base.Int.{is_set, ℤ, pos, negsuc}

pub record HomingState : Type 0 where
  pub poll : Poll
  pub running : ℤ  -- the flag that Info->running points at
  pub turns : ℕ  -- turns of the polling thread
  pub sleeps : ℕ  -- calls of usleep

-- `none` is a thread that waits for ever, `some (none, x)` one that has returned -1.
abbrev pub H : Type 0 → Type 0
H A = HomingState → Option (Option A × HomingState)

module _ {A : Type 0} where
  unfoldable pub ret : A → H A
  ret a x = some (some a, x)

  -- `*running = 0; return -1`
  unfoldable pub quit : H A
  quit x = some (none, record x { running = pos 0 })

module _ {A B : Type 0} where
  unfoldable pub continue :
      (A → H B) → Option (Option A × HomingState) → Option (Option B × HomingState)
  continue f none = none
  continue f (some (none, x)) = some (none, x)
  continue f (some (some a, x)) = f a x

  infixl 5 ◌>>=◌ ◌>>◌
  unfoldable pub ◌>>=◌ : H A → (A → H B) → H B
  unfolding continue
  ◌>>=◌ m f x = continue f (m x)

  abbrev pub ◌>>◌ : H A → H B → H B
  m >> n = m >>= λ _. n

module _ (thread : ℕ → Poll → Option Poll) where
  -- The polling thread has its turn, and then a step of the homing is made.
  unfoldable pub after_turn : {A : Type 0} → H A → H A
  after_turn m x = elim (thread x.turns x.poll) [
    | none ↦ none
    | some p ↦ m (record x { poll = p; turns = suc x.turns })
  ]

  unfoldable pub on_link : M ℤ → H ℤ
  on_link m x = elim (m x.poll.link) [
    | none ↦ none
    | some (status, s) ↦ some (some status, record x { poll = record x.poll { link = s } })
  ]

  -- A routine of the device.
  unfoldable pub call : M ℤ → H ℤ
  unfolding after_turn on_link
  call m = after_turn (on_link m)

  -- What the device's data shows.
  unfoldable pub look : {A : Type 0} → (DeviceData → A) → H A
  unfolding after_turn
  look f = after_turn λ x. some (some (f x.poll.link.device), x)

  unfoldable pub sleep : H (Unit {0})
  unfolding after_turn
  sleep = after_turn λ x. some (some tt, record x { sleeps = suc x.sleeps })

  -- A routine whose failure ends the homing, after `cleanup`.
  unfoldable pub must_or : H (Unit {0}) → M ℤ → H (Unit {0})
  must_or cleanup m = do status ← call m; if is_set status then (do cleanup; quit) else ret tt

  abbrev pub must : M ℤ → H (Unit {0})
  must = must_or (ret tt)

  -- The `do` loop that sleeps until `reached`, with `tries` for `tries - count`.
  unfoldable pub wait : (DeviceData → Bool) → (DeviceData → Bool) → H (Unit {0}) → ℕ → H (Unit {0})
  wait broken reached cleanup zero = do look broken; cleanup; quit
  wait broken reached cleanup (suc tries) = do
    bad ← look broken
    if bad then (do cleanup; quit) else (do
      sleep
      stop ← look reached
      if stop then ret tt else wait broken reached cleanup tries)

  -- The `do` loop that jogs a device off its limit, with `steps` for what is left of ten.
  unfoldable pub jogs : H (Unit {0}) → ℕ → H (Unit {0})
  jogs jog zero = ret tt
  jogs jog (suc steps) = do
    jog
    at_limit ← look λ d. is_set d.negative
    if at_limit then jogs jog steps else ret tt

unfoldable pub homing_end : Option (Option (Unit {0}) × HomingState) → Option (ℤ × HomingState)
homing_end none = none
homing_end (some (none, y)) = some (negsuc 0, y)
homing_end (some (some done, y)) = some (pos 0, record y { running = pos 0 })

-- A homing thread: the flag is set at its start, and cleared at its end.
unfoldable pub run_homing : H (Unit {0}) → HomingState → Option (ℤ × HomingState)
unfolding homing_end
run_homing body x = homing_end (body (record x { running = pos 1 }))
