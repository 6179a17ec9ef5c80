-- ===== src/Topbox/Stage/Home.antt =====
-- Stage_Home: the thread that homes a stage. Debug output is left out.
use mmtao_old.Topbox.Link.{DeviceData, Env, Float}
use mmtao_old.Topbox.Mvp.Looper.{Poll}
use mmtao_old.Topbox.Mvp.Home.{is_negative_limit, is_at_rest}
use mmtao_old.Topbox.Stage
use mmtao_old.Topbox.Stage.Frees.{stage_frees, stage_thread, stage_thread-FreePoll}
use mmtao_old.Topbox.Socket.Connect.{Attempt}
use mmtao_old.Topbox.Homing.{
  HomingState, H, ret, ◌>>=◌, ◌>>◌, call, look, must, wait, jogs, run_homing,
}
use mmtao_old.Topbox.Homing.Ends.{
  Ends, ends_rules, Ends-bind, Ends-jogs, HomesWithin, run_homing-HomesWithin, FreePoll,
}
use mmtao_old.Base.{ℕ, Bool, ◌≡◌, false, Option, List, arith, if◌then◌else◌}
use mmtao_old.Base.Int.{is_set, ℤ}

-- The loops of Stage_Home do not look at `Data->enabled`.
abbrev has_error : DeviceData → Bool
has_error d = is_set d.error

-- 1000000/STAGE_LOOPER_WAIT * STAGE_NEGATIVE_WAIT
abbrev stage_tries : ℕ
stage_tries = 1000

module _ (env : Env) (thread : ℕ → Poll → Option Poll) where
  -- Data->speed, as a double.
  abbrev device_speed : DeviceData → Float
  device_speed d = env.floats.double_of_int d.speed

  -- A move, and the loop that waits for its end.
  unfoldable pub move_until : (DeviceData → Bool) → Float → H (Unit {0})
  move_until reached distance = do
    must thread (Stage.stage_move_relative env distance)
    call thread (Stage.stage_status env)
    wait thread has_error reached (ret tt) stage_tries

  -- The doubles -300.0 and 5.0.
  unfoldable pub stage_approach : H (Unit {0})
  stage_approach = do
    call thread (Stage.stage_set_home_var env 0)
    call thread (Stage.stage_enable env)
    speed ← look thread device_speed
    must thread (Stage.stage_set_speed env speed)
    at_limit ← look thread is_negative_limit
    (if at_limit then ret tt else must thread (Stage.stage_move_relative env 0xc072c00000000000))
    call thread (Stage.stage_status env)
    wait thread has_error is_negative_limit (ret tt) stage_tries

  unfoldable pub stage_leave_limit : H (Unit {0})
  unfolding move_until
  stage_leave_limit = jogs thread (move_until is_at_rest 0x4014000000000000) 10

  -- A tenth of the speed, and the doubles 10.0 and -50.0.
  unfoldable pub stage_creep : H (Unit {0})
  unfolding move_until
  stage_creep = do
    speed ← look thread device_speed
    must thread (Stage.stage_set_speed env (env.floats.div_double speed 0x4024000000000000))
    move_until is_negative_limit 0xc049000000000000

  -- The double 2.0.
  unfoldable pub stage_go_home : H (Unit {0})
  unfolding move_until
  stage_go_home = do
    must thread (Stage.stage_set_zero env)
    speed ← look thread device_speed
    must thread (Stage.stage_set_speed env speed)
    move_until is_at_rest 0x4000000000000000

  -- The double 1.0.
  unfoldable pub stage_finish : H (Unit {0})
  stage_finish = do
    call thread (Stage.stage_set_home_var env 0x3ff0000000000000)
    call thread (Stage.stage_disable env)
    ret tt

  unfoldable pub stage_home_body : H (Unit {0})
  unfolding stage_approach stage_leave_limit stage_creep stage_go_home stage_finish
  stage_home_body = do stage_approach; stage_leave_limit; stage_creep; stage_go_home; stage_finish

-- 0 or -1.
unfoldable pub stage_home : Env → (ℕ → List Attempt) → HomingState → Option (ℤ × HomingState)
unfolding stage_home_body run_homing
stage_home env attempts = run_homing (stage_home_body env (stage_thread env attempts))

module _ (env : Env) (thread : ℕ → Poll → Option Poll)
    (thread-Frees : (n : ℕ) (p : Poll) → p.link.locked ≡ false → FreePoll (thread n p)) where
  stage_approach-Ends : Ends 1000 (stage_approach env thread)
  unfolding stage_approach
  stage_approach-Ends = search (ends_rules, stage_frees) depth 14

  move_until-Ends :
      (reached : DeviceData → Bool) (distance : Float)
      → Ends 1000 (move_until env thread reached distance)
  unfolding move_until
  move_until-Ends reached distance = search (ends_rules, stage_frees) depth 12

  stage_leave_limit-Ends : Ends 10000 (stage_leave_limit env thread)
  unfolding stage_leave_limit
  stage_leave_limit-Ends = Ends-jogs thread thread-Frees _ 1000 10 (move_until-Ends is_at_rest _)

  stage_creep-Ends : Ends 1000 (stage_creep env thread)
  unfolding stage_creep
  stage_creep-Ends = search (ends_rules, stage_frees, move_until-Ends) depth 12

  stage_go_home-Ends : Ends 1000 (stage_go_home env thread)
  unfolding stage_go_home
  stage_go_home-Ends = search (ends_rules, stage_frees, move_until-Ends) depth 12

  stage_finish-Ends : Ends 0 (stage_finish env thread)
  unfolding stage_finish
  stage_finish-Ends = search (ends_rules, stage_frees) depth 12

  stage_home_body-Ends : Ends 13000 (stage_home_body env thread)
  unfolding stage_home_body
  stage_home_body-Ends = Ends-bind 1000 12000 13000 _ _ (omega arith) stage_approach-Ends λ _.
      Ends-bind 10000 2000 12000 _ _ (omega arith) stage_leave_limit-Ends λ _.
        Ends-bind 1000 1000 2000 _ _ (omega arith) stage_creep-Ends
          λ _. Ends-bind 1000 0 1000 _ _ (omega arith) stage_go_home-Ends λ _. stage_finish-Ends

module _ (env : Env) where
  -- With the mutex free, Stage_Home returns, however the stage and the kernel behave and whatever
  -- rounds the polling thread makes between its steps. It has then slept at most 13000 times, the
  -- mutex is free and its running flag is cleared.
  pub stage_home-HomesWithin :
      (attempts : ℕ → List Attempt) (x : HomingState)
      → x.poll.link.locked ≡ false
      → HomesWithin 13000 x (stage_home env attempts x)
  unfolding stage_home
  stage_home-HomesWithin attempts x free =
      run_homing-HomesWithin 13000 _ x
        (stage_home_body-Ends env (stage_thread env attempts) (stage_thread-FreePoll env attempts))
        free
