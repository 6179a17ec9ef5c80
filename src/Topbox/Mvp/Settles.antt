-- ===== src/Topbox/Mvp/Settles.antt =====
-- Every routine of the MVP controllers runs to its end, gives the mutex back and clears the
-- flags of a device that it lost, save MVP_ResetNode.
use mmtao_old.Topbox.Link.{Env, Link, IsZeroed, Float, drop_connection}
use mmtao_old.Topbox.Mvp.Wire.Laws.{write_frame, read_frame, write_open, flush_frame}
use mmtao_old.Topbox.Mvp.Commands
use mmtao_old.Topbox.Mvp.Moves
use mmtao_old.Topbox.Mvp.Queries
use mmtao_old.Base.{◌≡◌, false, Option, none, some, arith, Bool}
use mmtao_old.Base.Int.{ℤ}
use mathlib.Core.Option.{Option}

-- The mutex is free, and a device that is not connected has a closed descriptor and shows no state.
pub record IsSettled (s : Link) : Type 0 where
  pub free : s.locked ≡ false
  pub closed : s.connected ≡ false → s.is_open ≡ false
  pub cleared : s.connected ≡ false → IsZeroed s.device

abbrev pub Settles : Option (ℤ × Link) → Type 0
Settles none = ⊥
Settles (some (status, t)) = IsSettled t

module _ (env : Env) (s : Link) (settled : IsSettled s) where
  pub abort-Settles : Settles (Commands.abort env s)
  unfolding Commands.abort
  abort-Settles = grind (arith, write_frame, write_open)

  pub set_zero-Settles : Settles (Commands.set_zero env s)
  unfolding Commands.set_zero
  set_zero-Settles = grind (arith, write_frame, write_open)

  pub set_speed-Settles : (v : ℤ) → Settles (Commands.set_speed env v s)
  unfolding Commands.set_speed
  set_speed-Settles v = grind (arith, write_frame, write_open, read_frame)

  pub set_accel-Settles : (v : ℤ) → Settles (Commands.set_accel env v s)
  unfolding Commands.set_accel
  set_accel-Settles v = grind (arith, write_frame, write_open, read_frame)

  pub set_home_flag-Settles : (v : ℤ) → Settles (Commands.set_home_flag env v s)
  unfolding Commands.set_home_flag
  set_home_flag-Settles v = grind (arith, write_frame, write_open, read_frame)

  pub hard_stop-Settles : Settles (Commands.hard_stop env s)
  unfolding Commands.hard_stop
  hard_stop-Settles = grind (arith, write_frame, write_open)

  pub set_home_trigger-Settles : (v : ℤ) → Settles (Commands.set_home_trigger env v s)
  unfolding Commands.set_home_trigger
  set_home_trigger-Settles v = grind (arith, write_frame, write_open)

  pub move_absolute-Settles : (d : Float) → Settles (Moves.move_absolute env d s)
  unfolding Moves.move_absolute
  move_absolute-Settles d = grind (arith, write_frame, write_open, read_frame)

  pub move_relative-Settles : (d : Float) → Settles (Moves.move_relative env d s)
  unfolding Moves.move_relative
  move_relative-Settles d = grind (arith, write_frame, write_open, read_frame)

  pub get_status-Settles : Settles (Queries.get_status env s)
  unfolding Queries.get_status
  get_status-Settles = grind (arith, write_frame, write_open, read_frame)

  pub get_position-Settles : Settles (Queries.get_position env s)
  unfolding Queries.get_position
  get_position-Settles = grind (arith, write_frame, write_open, read_frame)

  pub get_home_flag-Settles : Settles (Queries.get_home_flag env s)
  unfolding Queries.get_home_flag
  get_home_flag-Settles = grind (arith, write_frame, write_open, read_frame)

module _ (env : Env) where
  confirm-Settles :
      (s : Link) (wanted : Bool) → IsSettled s → Settles (Queries.confirm env wanted s)
  unfolding Queries.confirm drop_connection
  confirm-Settles s wanted h = grind (arith, get_status-Settles env s h)

  pub enable-Settles : (s : Link) → IsSettled s → Settles (Queries.enable env s)
  unfolding Queries.enable
  enable-Settles s h = grind (arith, write_frame, write_open, flush_frame, confirm-Settles)

  pub disable-Settles : (s : Link) → IsSettled s → Settles (Queries.disable env s)
  unfolding Queries.disable
  disable-Settles s h = grind (arith, write_frame, write_open, flush_frame, confirm-Settles)
