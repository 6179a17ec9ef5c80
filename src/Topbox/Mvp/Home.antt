-- ===== src/Topbox/Mvp/Home.antt =====
-- MVP_Home: the thread that homes a motor. Debug output is left out.
pub mod Laws
mod Tests
use mmtao_old.Topbox.Link.{DeviceData, Env, Float}
use mmtao_old.Topbox.Mvp.Looper.{Poll, poll}
use mmtao_old.Topbox.Mvp.Commands
use mmtao_old.Topbox.Mvp.Moves
use mmtao_old.Topbox.Mvp.Queries
use mmtao_old.Topbox.Socket.Connect.{Attempt}
use mmtao_old.Topbox.Homing.{
  HomingState, H, ret, quit, ◌>>=◌, ◌>>◌, call, look, sleep, must_or, must, wait, jogs, run_homing,
}
use mmtao_old.Base.{ℕ, Bool, true, Option, List, not, ◌||◌, if◌then◌else◌}
use mmtao_old.Base.Text.{Bytes, codes, contains}
use mmtao_old.Base.Int.{ℤ, pos, is_set}

-- `Data->error || !Data->enabled`
abbrev pub is_broken : DeviceData → Bool
is_broken d = is_set d.error || not (is_set d.enabled)

abbrev pub is_negative_limit : DeviceData → Bool
is_negative_limit d = is_set d.negative

abbrev pub is_at_rest : DeviceData → Bool
is_at_rest d = not (is_set d.moving)

abbrev pub is_at_event : DeviceData → Bool
is_at_event d = is_set d.event_2

abbrev pub is_past_event : DeviceData → Bool
is_past_event d = not (is_set d.event_2)

-- `tries` of an FSM and of an OAP: 1000000/MVP_LOOPER_WAIT rounds in a second.
abbrev pub fsm_tries : ℕ
fsm_tries = 1000

abbrev pub oap_tries : ℕ
oap_tries = 3000

module _ (env : Env) where
  -- The rounds that the polling thread makes, with what each attempt to connect meets.
  abbrev pub mvp_thread : (ℕ → List Attempt) → ℕ → Poll → Option Poll
  mvp_thread attempts n = poll env (attempts n)

  module _ (thread : ℕ → Poll → Option Poll) where
    unfoldable pub start_home : H (Unit {0})
    start_home = do
      must thread (Commands.set_home_flag env (pos 0))
      must thread (Moves.move_relative env 0)
      must thread (Queries.enable_request env)
      sleep thread
      must thread (Queries.confirm env true)

    unfoldable pub set_device_speed : H ℤ
    set_device_speed = do
      speed ← look thread λ d. d.speed
      call thread (Commands.set_speed env speed)

    -- The speed is set back, whatever comes of it.
    unfoldable pub restore_speed : H (Unit {0})
    unfolding set_device_speed
    restore_speed = do set_device_speed; ret tt

    -- The floats -250.0, 5.0 and -50.0 have the patterns below.
    unfoldable pub fsm_approach : H (Unit {0})
    fsm_approach = do
      must thread (Commands.set_accel env (pos 100))
      at_limit ← look thread is_negative_limit
      (if at_limit then ret tt else (do
        must thread (Commands.set_speed env (pos 2000))
        must thread (Moves.move_relative env 0xc37a0000)))
      call thread (Queries.get_status env)
      wait thread is_broken is_negative_limit (ret tt) fsm_tries

    unfoldable pub fsm_jog : H (Unit {0})
    fsm_jog = do
      must thread (Moves.move_relative env 0x40a00000)
      call thread (Queries.get_status env)
      wait thread is_broken is_at_rest (ret tt) fsm_tries

    unfoldable pub fsm_leave_limit : H (Unit {0})
    unfolding fsm_jog
    fsm_leave_limit = do must thread (Commands.set_speed env (pos 2000)); jogs thread fsm_jog 10

    unfoldable pub fsm_creep : H (Unit {0})
    fsm_creep = do
      must thread (Commands.set_speed env (pos 100))
      must thread (Commands.set_accel env (pos 10))
      must thread (Moves.move_relative env 0xc2480000)
      call thread (Queries.get_status env)
      wait thread is_broken is_negative_limit (ret tt) fsm_tries

    -- The move to the home position, by the axis in the name of the device.
    unfoldable pub move_axis : H (Unit {0}) → Bytes → Float → Float → H (Unit {0})
    move_axis cleanup name tip tilt =
        if contains name (codes "Tip")
        then must thread (Moves.move_relative env tip)
        else if contains name (codes "Tilt")
        then must thread (Moves.move_relative env tilt)
        else (do cleanup; quit)

    -- The floats 112.5 and 93.0.
    unfoldable pub fsm_go_home : Bytes → H (Unit {0})
    unfolding move_axis
    fsm_go_home name = do
      must thread (Commands.set_zero env)
      must thread (Commands.set_speed env (pos 1000))
      must thread (Commands.set_accel env (pos 100))
      move_axis (ret tt) name 0x42e10000 0x42ba0000
      call thread (Queries.get_status env)
      wait thread is_broken is_at_rest (ret tt) fsm_tries

    unfoldable pub fsm_finish : H (Unit {0})
    fsm_finish = do
      must thread (Commands.set_zero env)
      must thread (Commands.set_home_flag env (pos 1))

    -- The float -200.0.
    unfoldable pub oap_approach : H (Unit {0})
    unfolding restore_speed
    oap_approach = do
      must thread (Commands.set_accel env (pos 100))
      short ← look thread is_at_event
      (if short
          then (do
            must thread (Commands.set_speed env (pos 4000))
            must_or thread restore_speed (Moves.move_relative env 0xc3480000))
          else ret tt)
      call thread (Queries.get_status env)
      wait thread is_broken is_past_event restore_speed oap_tries

    -- The float 200.0.
    unfoldable pub oap_seek_event : H (Unit {0})
    unfolding restore_speed set_device_speed
    oap_seek_event = do
      must_or thread restore_speed (Commands.abort env)
      status ← set_device_speed
      (if is_set status then (do restore_speed; quit) else ret tt)
      must thread (Commands.set_home_trigger env (pos 1))
      must thread (Commands.hard_stop env)
      must thread (Moves.move_relative env 0x43480000)
      call thread (Queries.get_status env)
      wait thread is_broken is_at_event (ret tt) oap_tries

    -- The floats -155.0 and -147.5. A move that fails leaves the fast speed.
    unfoldable pub oap_go_home : Bytes → H (Unit {0})
    unfolding restore_speed move_axis
    oap_go_home name = do
      must_or thread restore_speed (Commands.set_home_trigger env (pos 0))
      must_or thread restore_speed (Commands.set_zero env)
      must_or thread restore_speed (Commands.set_speed env (pos 4000))
      move_axis restore_speed name 0xc31b0000 0xc3138000
      call thread (Queries.get_status env)
      wait thread is_broken is_at_rest restore_speed oap_tries

    unfoldable pub oap_finish : H (Unit {0})
    unfolding restore_speed
    oap_finish = do
      must_or thread restore_speed (Commands.set_zero env)
      must_or thread restore_speed (Commands.set_home_flag env (pos 1))

    unfoldable pub fsm_home : Bytes → H (Unit {0})
    unfolding fsm_approach fsm_leave_limit fsm_creep fsm_go_home fsm_finish
    fsm_home name = do fsm_approach; fsm_leave_limit; fsm_creep; fsm_go_home name; fsm_finish

    unfoldable pub oap_home : Bytes → H (Unit {0})
    unfolding oap_approach oap_seek_event oap_go_home oap_finish
    oap_home name = do oap_approach; oap_seek_event; oap_go_home name; oap_finish

    unfoldable pub mvp_home_body : Bytes → H (Unit {0})
    unfolding start_home fsm_home oap_home set_device_speed
    mvp_home_body name = do
      start_home
      (if contains name (codes "FSM")
          then fsm_home name
          else if contains name (codes "OAP")
          then oap_home name
          else quit)
      status ← set_device_speed
      if is_set status then quit else ret tt

  -- `name` is Socket->name. 0 or -1.
  unfoldable pub mvp_home : Bytes → (ℕ → List Attempt) → HomingState → Option (ℤ × HomingState)
  unfolding mvp_home_body run_homing
  mvp_home name attempts = run_homing (mvp_home_body (mvp_thread attempts) name)
