-- ===== src/Topbox/Mvp/Frees.antt =====
-- Each routine of MVP_Home, and each round of MVP_Looper, returns and leaves the mutex free.
use mmtao_old.Topbox.Link.{Env, Link, Float, drop_connection}
use mmtao_old.Topbox.Mvp.Wire.Laws.{write_frame, read_frame, flush_frame}
use mmtao_old.Topbox.Mvp.Commands
use mmtao_old.Topbox.Mvp.Moves
use mmtao_old.Topbox.Mvp.Queries
use mmtao_old.Topbox.Homing.Ends.{Frees, FreesAt, FreePoll}
use mmtao_old.Base.{
  ◌≡◌, Bool, false, arith, ℕ, inl, inr, Option, none, some, List, [], ◌∷◌, Option-cases,
}
use mmtao_old.Base.Int.{ℤ}
use mmtao_old.Topbox.Socket.Connect.{open_client, Attempt}
use mmtao_old.Topbox.Mvp.Looper.{poll, round, or_lose, ask_home, ask_status, ask_position, Poll}

module _ (env : Env) where
  pub abort-Frees : Frees (Commands.abort env)
  unfolding Commands.abort
  abort-Frees = record { at = λ s free. grind (arith, write_frame) }

  pub set_zero-Frees : Frees (Commands.set_zero env)
  unfolding Commands.set_zero
  set_zero-Frees = record { at = λ s free. grind (arith, write_frame) }

  pub set_speed-Frees : (v : ℤ) → Frees (Commands.set_speed env v)
  unfolding Commands.set_speed
  set_speed-Frees v = record { at = λ s free. grind (arith, write_frame, read_frame) }

  pub set_accel-Frees : (v : ℤ) → Frees (Commands.set_accel env v)
  unfolding Commands.set_accel
  set_accel-Frees v = record { at = λ s free. grind (arith, write_frame, read_frame) }

  pub set_home_flag-Frees : (v : ℤ) → Frees (Commands.set_home_flag env v)
  unfolding Commands.set_home_flag
  set_home_flag-Frees v = record { at = λ s free. grind (arith, write_frame, read_frame) }

  pub hard_stop-Frees : Frees (Commands.hard_stop env)
  unfolding Commands.hard_stop
  hard_stop-Frees = record { at = λ s free. grind (arith, write_frame) }

  pub set_home_trigger-Frees : (v : ℤ) → Frees (Commands.set_home_trigger env v)
  unfolding Commands.set_home_trigger
  set_home_trigger-Frees v = record { at = λ s free. grind (arith, write_frame) }

  pub move_relative-Frees : (d : Float) → Frees (Moves.move_relative env d)
  unfolding Moves.move_relative
  move_relative-Frees d = record { at = λ s free. grind (arith, write_frame, read_frame) }

  pub get_status-Frees : Frees (Queries.get_status env)
  unfolding Queries.get_status
  get_status-Frees = record { at = λ s free. grind (arith, write_frame, read_frame) }

  get_position-Frees : Frees (Queries.get_position env)
  unfolding Queries.get_position
  get_position-Frees = record { at = λ s free. grind (arith, write_frame, read_frame) }

  get_home_flag-Frees : Frees (Queries.get_home_flag env)
  unfolding Queries.get_home_flag
  get_home_flag-Frees = record { at = λ s free. grind (arith, write_frame, read_frame) }

  confirm-FreesAt :
      (s : Link) (wanted : Bool) → s.locked ≡ false → FreesAt (Queries.confirm env wanted s)
  unfolding Queries.confirm drop_connection
  confirm-FreesAt s wanted free = let h = get_status-Frees.at s free in grind arith

  pub enable_request-Frees : Frees (Queries.enable_request env)
  unfolding Queries.enable_request
  enable_request-Frees = record { at = λ s free. grind (arith, write_frame) }

  pub confirm-Frees : (wanted : Bool) → Frees (Queries.confirm env wanted)
  confirm-Frees wanted = record { at = λ s free. confirm-FreesAt s wanted free }

  pub enable-Frees : Frees (Queries.enable env)
  unfolding Queries.enable
  enable-Frees = record { at = λ s free. grind (arith, write_frame, flush_frame, confirm-FreesAt) }

pub ruleset mvp_frees = (
  abort-Frees, set_zero-Frees, set_speed-Frees, set_accel-Frees, set_home_flag-Frees,
  hard_stop-Frees, set_home_trigger-Frees, move_relative-Frees, get_status-Frees, enable-Frees,
  enable_request-Frees, confirm-Frees,
)

or_lose-FreePoll :
    (loops : ℕ) (rest : Link → Option Poll) (o : Option (ℤ × Link))
    → FreesAt o
    → ((t : Link) → t.locked ≡ false → FreePoll (rest t))
    → FreePoll (or_lose loops rest o)
unfolding or_lose drop_connection
or_lose-FreePoll loops rest none h k = h
or_lose-FreePoll loops rest (some (status, t)) h k = ground (arith, k t h)

module _ (env : Env) where
  ask_home-FreePoll : (loops : ℕ) (s : Link) → s.locked ≡ false → FreePoll (ask_home env loops s)
  unfolding ask_home
  ask_home-FreePoll loops s free =
      let flag =
        or_lose-FreePoll 0 (λ t. some (record { link = t; loops = 1 })) _
          ((get_home_flag-Frees env).at s free) (λ t h. h) in
      ground arith

  ask_status-FreePoll :
      (loops : ℕ) (s : Link) → s.locked ≡ false → FreePoll (ask_status env loops s)
  unfolding ask_status
  ask_status-FreePoll loops s free =
      or_lose-FreePoll loops _ _ ((get_status-Frees env).at s free) (ask_home-FreePoll loops)

  round-FreePoll : (a : Attempt) (p : Poll) → p.link.locked ≡ false → FreePoll (round env a p)
  unfolding round ask_position open_client
  round-FreePoll a p free =
      let h =
        or_lose-FreePoll p.loops _ _ ((get_position-Frees env).at p.link free)
          (ask_status-FreePoll p.loops) in
      ground arith

  -- However the polling thread's rounds go, it leaves the mutex free.
  pub poll-FreePoll :
      (attempts : List Attempt) (p : Poll) → p.link.locked ≡ false → FreePoll (poll env attempts p)
  unfolding poll
  poll-FreePoll [] p free = free
  poll-FreePoll (a ∷ rest) p free = elim (Option-cases (round env a p)) [
    | inl blocked ↦ absurd (rw blocked at (round-FreePoll a p free))
    | inr (q, e) ↦ rw (poll, e) (poll-FreePoll rest q (rw e at (round-FreePoll a p free)))
  ]
