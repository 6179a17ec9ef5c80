-- ===== src/Topbox/Mvp/Confirmed.antt =====
-- When the routines that set a value return 0.
mod Tests
use mmtao_old.Topbox.Mvp.Commands
use mmtao_old.Base.{ℕ, ◌≤◌, ◌≡◌, ◌⊎◌, ◌++◌, ◌∷◌, false, Option, none, some, arith, length, true}
use mmtao_old.Base.Text.{Bytes, codes, print_int}
use mmtao_old.Base.Int.{ℤ, pos, negsuc, is_set, eq_ℤ}
use mmtao_old.Topbox.Link.{Env, Link}
use mmtao_old.Topbox.Mvp.Wire.{mvp_write_step, mvp_read_step, scan_reply}
use mmtao_old.Topbox.Mvp.Wire.Laws.{write_frame, read_frame}
use mmtao_old.Topbox.Mvp.Echo.{echo_of}
use mmtao_old.DataServer.Pcr.FindSof.{second}

module _ (env : Env) where
  -- Both requests go out, a reply of nine characters comes, and it holds the value.
  abbrev pub IsConfirmed : Bytes → ℤ → Link → Type 0
  IsConfirmed name value s =
      let first = mvp_write_step env (name ++ 32 ∷ print_int value) (record s { locked = true }) in
      let ((status, reply), t) = echo_of env name value s in
      (is_set first.0 ≡ false)
      × (is_set (mvp_write_step env name first.1).0 ≡ false)
      × (is_set status ≡ false)
      × (9 ≤ length reply)
      × (eq_ℤ value (scan_reply env reply t) ≡ true)

-- The routine returns 0 under the condition, and -1 otherwise.
abbrev pub SucceedsIf : Type 0 → Option (ℤ × Link) → Type 0
SucceedsIf Condition none = ⊥
SucceedsIf Condition (some (status, t)) =
    (status ≡ pos 0) × Condition ⊎ (status ≡ negsuc 0) × (Condition → ⊥)

module _ (env : Env) where
  -- MVP_SetSpeed returns 0 exactly if both of its requests go out and the reply holds the speed.
  pub set_speed-SucceedsIf :
      (v : ℤ) (s : Link)
      → s.locked ≡ false
      → SucceedsIf (IsConfirmed env (codes "0 SP") v s) (Commands.set_speed env v s)
  unfolding Commands.set_speed
  set_speed-SucceedsIf v s free =
      let held = record s { locked = true } in
      let first = (mvp_write_step env (codes "0 SP " ++ print_int v) held).1 in
      let second = (mvp_write_step env (codes "0 SP") first).1 in
      ground (
        arith,
        free,
        write_frame env (codes "0 SP " ++ print_int v) held,
        write_frame env (codes "0 SP") first,
        read_frame env second,
      )

  -- MVP_SetAccel returns 0 exactly if both of its requests go out and the reply holds the acceleration.
  pub set_accel-SucceedsIf :
      (v : ℤ) (s : Link)
      → s.locked ≡ false
      → SucceedsIf (IsConfirmed env (codes "0 AC") v s) (Commands.set_accel env v s)
  unfolding Commands.set_accel
  set_accel-SucceedsIf v s free =
      let held = record s { locked = true } in
      let first = (mvp_write_step env (codes "0 AC " ++ print_int v) held).1 in
      let second = (mvp_write_step env (codes "0 AC") first).1 in
      ground (
        arith,
        free,
        write_frame env (codes "0 AC " ++ print_int v) held,
        write_frame env (codes "0 AC") first,
        read_frame env second,
      )

  -- MVP_SetHomeFlag returns 0 exactly if both of its requests go out and the reply holds the flag.
  pub set_home_flag-SucceedsIf :
      (v : ℤ) (s : Link)
      → s.locked ≡ false
      → SucceedsIf (IsConfirmed env (codes "0 ANO") v s) (Commands.set_home_flag env v s)
  unfolding Commands.set_home_flag
  set_home_flag-SucceedsIf v s free =
      let held = record s { locked = true } in
      let first = (mvp_write_step env (codes "0 ANO " ++ print_int v) held).1 in
      let second = (mvp_write_step env (codes "0 ANO") first).1 in
      ground (
        arith,
        free,
        write_frame env (codes "0 ANO " ++ print_int v) held,
        write_frame env (codes "0 ANO") first,
        read_frame env second,
      )

  -- Called with the mutex free, MVP_SetSpeed, MVP_SetAccel and MVP_SetHomeFlag return 0 exactly if
  -- both of their requests go out, MVP_Read succeeds behind them, what it made of its buffer has
  -- nine characters at least, and it is read as the value that was to be set; where it is not a
  -- number, the uninitialised variable that it was to be read into happened to hold that value.
  -- They return -1 otherwise.
  pub setters-SucceedIf :
      (v : ℤ) (s : Link)
      → s.locked ≡ false
      → SucceedsIf (IsConfirmed env (codes "0 SP") v s) (Commands.set_speed env v s)
        × SucceedsIf (IsConfirmed env (codes "0 AC") v s) (Commands.set_accel env v s)
        × SucceedsIf (IsConfirmed env (codes "0 ANO") v s) (Commands.set_home_flag env v s)
  setters-SucceedIf v s free = (
    set_speed-SucceedsIf v s free,
    set_accel-SucceedsIf v s free,
    set_home_flag-SucceedsIf v s free,
  )
