-- ===== src/Topbox/Mvp/Mutex.antt =====
-- The mutex of a device over the requests of MVP_Process.
use mmtao_old.Topbox.Mvp.Commands
use mmtao_old.Topbox.Mvp.Queries
use mmtao_old.Topbox.Mvp.Moves
use mmtao_old.Topbox.Mvp.Process.{Command, perform, enable_unless, disable_unless}
use mmtao_old.Base.{◌≡◌, refl, ◌≢◌, Bool, true, false, not, ◌&&◌, Option, none, some, arith}
use mmtao_old.Base.Text.{codes}
use mmtao_old.Base.Int.{is_set, ℤ}
use mmtao_old.Topbox.Link.{Env, Link}
use mmtao_old.Topbox.Mvp.Settles.{
  Settles, abort-Settles, set_zero-Settles, set_speed-Settles, set_accel-Settles,
  set_home_flag-Settles, move_absolute-Settles, move_relative-Settles, get_position-Settles,
  get_home_flag-Settles, enable-Settles, disable-Settles, IsSettled,
}
use mmtao_old.Topbox.Mvp.Wire.{has_input, mvp_write_step}
use mmtao_old.Topbox.Mvp.Wire.Laws.{write_frame, read_frame}

-- Whether the mutex is held when MVP_ResetNode has returned.
abbrev pub Leaves : Bool → Option (ℤ × Link) → Type 0
Leaves held none = ⊥
Leaves held (some (status, t)) = t.locked ≡ held

module _ (env : Env) where
  enable_unless-Settles : (b : Bool) (s : Link) → IsSettled s → Settles (enable_unless env b s)
  unfolding enable_unless
  enable_unless-Settles true s h = h
  enable_unless-Settles false s h =
      grind (arith, move_relative-Settles env s h 0, enable-Settles env)

  disable_unless-Settles : (b : Bool) (s : Link) → IsSettled s → Settles (disable_unless env b s)
  unfolding disable_unless
  disable_unless-Settles true s h = h
  disable_unless-Settles false s h = disable-Settles env s h

  -- Every command but `reset`, started with the mutex free, returns with the mutex free, for every
  -- behaviour of the device and the kernel; a connection that it lost is closed, with the flags of
  -- the device cleared.
  pub perform-Settles :
      (c : Command) (s : Link) → c ≢ Command.reset → IsSettled s → Settles (perform env c s)
  unfolding perform
  perform-Settles Command.abort s n h = abort-Settles env s h
  perform-Settles Command.reset s n h = absurd (n refl)
  perform-Settles Command.enable s n h = enable_unless-Settles (is_set s.device.enabled) s h
  perform-Settles Command.disable s n h = disable_unless-Settles (not (is_set s.device.enabled)) s h
  perform-Settles Command.position s n h = get_position-Settles env s h
  perform-Settles Command.zero_here s n h = set_zero-Settles env s h
  perform-Settles Command.get_hflag s n h = get_home_flag-Settles env s h
  perform-Settles (Command.relative d) s n h = move_relative-Settles env s h d
  perform-Settles (Command.absolute d) s n h = move_absolute-Settles env s h d
  perform-Settles (Command.speed v) s n h = set_speed-Settles env s h v
  perform-Settles (Command.accel v) s n h = set_accel-Settles env s h v
  perform-Settles (Command.hflag v) s n h = set_home_flag-Settles env s h v

  -- MVP_ResetNode returns with the mutex held exactly when its request went out and no input
  -- comes within its ten seconds.
  pub reset_node-Leaves :
      (s : Link)
      → s.locked ≡ false
      → let w = mvp_write_step env (codes "0 RN") (record s { locked = true }) in
        Leaves (not (is_set w.0) && not (has_input w.1)) (Commands.reset_node env s)
  unfolding Commands.reset_node
  reset_node-Leaves s free = grind (arith, write_frame, read_frame)

  -- Nothing can be done with a device whose mutex was left held: every command that would talk to
  -- it, which are all but enabling an enabled motor and disabling a disabled one, waits for ever.
  pub perform-held :
      (c : Command) (s : Link)
      → s.locked ≡ true
      → (c ≡ Command.enable → is_set s.device.enabled ≡ false)
      → (c ≡ Command.disable → is_set s.device.enabled ≡ true)
      → perform env c s ≡ none
  unfolding perform enable_unless disable_unless Commands.abort Commands.reset_node
      Commands.set_zero Commands.set_speed Commands.set_accel Commands.set_home_flag
      Moves.move_relative Moves.move_absolute Queries.disable Queries.get_position
      Queries.get_home_flag
  perform-held Command.abort s h e d = rw h
  perform-held Command.reset s h e d = rw h
  perform-held Command.enable s h e d = rw (e refl) (rw h)
  perform-held Command.disable s h e d = rw (d refl) (rw h)
  perform-held Command.position s h e d = rw h
  perform-held Command.zero_here s h e d = rw h
  perform-held Command.get_hflag s h e d = rw h
  perform-held (Command.relative x) s h e d = rw h
  perform-held (Command.absolute x) s h e d = rw h
  perform-held (Command.speed v) s h e d = rw h
  perform-held (Command.accel v) s h e d = rw h
  perform-held (Command.hflag v) s h e d = rw h
