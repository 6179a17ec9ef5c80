-- ===== src/Topbox/Mvp/Home/Laws.antt =====
-- How MVP_Home ends.
use mmtao_old.Topbox.Link.{Env, Float}
use mmtao_old.Topbox.Mvp.Looper.{Poll}
use mmtao_old.Topbox.Mvp.Home.{
  start_home, restore_speed, set_device_speed, fsm_approach, fsm_jog, fsm_leave_limit, fsm_creep,
  move_axis, fsm_go_home, fsm_finish, oap_approach, oap_seek_event, oap_go_home, oap_finish,
  fsm_home, oap_home, mvp_home_body, mvp_home, mvp_thread,
}
use mmtao_old.Topbox.Mvp.Frees.{mvp_frees, poll-FreePoll}
use mmtao_old.Topbox.Homing.Ends.{
  Ends, ends_rules, FreePoll, Ends-quit, Ends-if, Ends-bind, Ends-then, Ends-jogs, Ends-sleep,
  HomesWithin, run_homing-HomesWithin,
}
use mmtao_old.Base.{ℕ, ◌≡◌, false, Option, List, arith}
use mmtao_old.Base.Text.{Bytes}
use mmtao_old.Topbox.Homing.{H, HomingState}
use mmtao_old.Topbox.Socket.Connect.{Attempt}

module _ (env : Env) (thread : ℕ → Poll → Option Poll)
    (thread-Frees : (n : ℕ) (p : Poll) → p.link.locked ≡ false → FreePoll (thread n p)) where
  start_home-Ends : Ends 1 (start_home env thread)
  unfolding start_home
  start_home-Ends = Ends-then _ _ _ (search (ends_rules, mvp_frees)) λ _.
      Ends-then _ _ _ (search (ends_rules, mvp_frees)) λ _.
        Ends-then _ _ _ (search (ends_rules, mvp_frees)) λ _.
          Ends-bind 1 0 1 _ _ (omega arith) (Ends-sleep thread thread-Frees)
            λ _. search (ends_rules, mvp_frees)

  restore_speed-Ends : Ends 0 (restore_speed env thread)
  unfolding restore_speed set_device_speed
  restore_speed-Ends = search (ends_rules, mvp_frees)

  set_device_speed-Ends : Ends 0 (set_device_speed env thread)
  unfolding set_device_speed
  set_device_speed-Ends = search (ends_rules, mvp_frees)

  fsm_approach-Ends : Ends 1000 (fsm_approach env thread)
  unfolding fsm_approach
  fsm_approach-Ends = search (ends_rules, mvp_frees) depth 12

  fsm_jog-Ends : Ends 1000 (fsm_jog env thread)
  unfolding fsm_jog
  fsm_jog-Ends = search (ends_rules, mvp_frees) depth 12

  fsm_leave_limit-Ends : Ends 10000 (fsm_leave_limit env thread)
  unfolding fsm_leave_limit
  fsm_leave_limit-Ends =
      let jogs_end = Ends-jogs thread thread-Frees (fsm_jog env thread) 1000 10 fsm_jog-Ends in
      search (ends_rules, mvp_frees) depth 12

  fsm_creep-Ends : Ends 1000 (fsm_creep env thread)
  unfolding fsm_creep
  fsm_creep-Ends = search (ends_rules, mvp_frees) depth 12

  move_axis-Ends :
      (cleanup : H (Unit {0})) (name : Bytes) (tip tilt : Float)
      → Ends 0 cleanup
      → Ends 0 (move_axis env thread cleanup name tip tilt)
  unfolding move_axis
  move_axis-Ends cleanup name tip tilt h = search (ends_rules, mvp_frees) depth 12

  fsm_go_home-Ends : (name : Bytes) → Ends 1000 (fsm_go_home env thread name)
  unfolding fsm_go_home
  fsm_go_home-Ends name = search (ends_rules, mvp_frees, move_axis-Ends) depth 12

  fsm_finish-Ends : Ends 0 (fsm_finish env thread)
  unfolding fsm_finish
  fsm_finish-Ends = search (ends_rules, mvp_frees)

  oap_approach-Ends : Ends 3000 (oap_approach env thread)
  unfolding oap_approach
  oap_approach-Ends = search (ends_rules, mvp_frees, restore_speed-Ends) depth 12

  oap_seek_event-Ends : Ends 3000 (oap_seek_event env thread)
  unfolding oap_seek_event
  oap_seek_event-Ends =
      search (ends_rules, mvp_frees, restore_speed-Ends, set_device_speed-Ends) depth 14

  oap_go_home-Ends : (name : Bytes) → Ends 3000 (oap_go_home env thread name)
  unfolding oap_go_home
  oap_go_home-Ends name =
      search (ends_rules, mvp_frees, restore_speed-Ends, move_axis-Ends) depth 14

  oap_finish-Ends : Ends 0 (oap_finish env thread)
  unfolding oap_finish
  oap_finish-Ends = search (ends_rules, mvp_frees, restore_speed-Ends)

  fsm_home-Ends : (name : Bytes) → Ends 13000 (fsm_home env thread name)
  unfolding fsm_home
  fsm_home-Ends name = Ends-bind 1000 12000 13000 _ _ (omega arith) fsm_approach-Ends λ _.
      Ends-bind 10000 2000 12000 _ _ (omega arith) fsm_leave_limit-Ends λ _.
        Ends-bind 1000 1000 2000 _ _ (omega arith) fsm_creep-Ends
          λ _. Ends-bind 1000 0 1000 _ _ (omega arith) (fsm_go_home-Ends name) λ _. fsm_finish-Ends

  oap_home-Ends : (name : Bytes) → Ends 13000 (oap_home env thread name)
  unfolding oap_home
  oap_home-Ends name = Ends-bind 3000 10000 13000 _ _ (omega arith) oap_approach-Ends λ _.
      Ends-bind 3000 7000 10000 _ _ (omega arith) oap_seek_event-Ends
        λ _. Ends-bind 3000 0 7000 _ _ (omega arith) (oap_go_home-Ends name) λ _. oap_finish-Ends

  mvp_home_body-Ends : (name : Bytes) → Ends 13001 (mvp_home_body env thread name)
  unfolding mvp_home_body
  mvp_home_body-Ends name = Ends-bind 1 13000 13001 _ _ (omega arith) start_home-Ends λ _.
      Ends-bind 13000 0 13000 _ _ (omega arith)
        (search (Ends-if, Ends-quit, fsm_home-Ends, oap_home-Ends))
        λ _. search (ends_rules, set_device_speed-Ends)

module _ (env : Env) where
  -- With the mutex free, MVP_Home returns, however the motor and the kernel behave and whatever
  -- rounds the polling thread makes between its steps. It has then slept at most 13001 times, the
  -- mutex is free and its running flag is cleared.
  pub mvp_home-HomesWithin :
      (name : Bytes) (attempts : ℕ → List Attempt) (x : HomingState)
      → x.poll.link.locked ≡ false
      → HomesWithin 13001 x (mvp_home env name attempts x)
  unfolding mvp_home
  mvp_home-HomesWithin name attempts x free =
      run_homing-HomesWithin 13001 _ x
        (mvp_home_body-Ends env (mvp_thread env attempts) (λ n. poll-FreePoll env (attempts n))
          name)
        free
