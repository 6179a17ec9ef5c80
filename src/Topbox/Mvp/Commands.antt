-- ===== src/Topbox/Mvp/Commands.antt =====
-- The routines that send one request and expect no reply, and the two that set a value and
-- read it back. Debug output is left out, and so are the waits by `usleep`.
use mmtao_old.Base.{◌++◌, if◌then◌else◌, length, ltb, not}
use mmtao_old.Base.Int.{ℤ, pos, negsuc, is_set, eq_ℤ}
use mmtao_old.Base.Text.{Bytes, codes, print_int}
use mmtao_old.Topbox.Link.{Env, M, pure, gets, ◌>>=◌, ◌>>◌, lock, release, give_up, unlock}
use mmtao_old.Topbox.Mvp.Wire.{mvp_write, mvp_read, scan_reply, has_input}

module _ (env : Env) where
  unfoldable pub abort : M ℤ
  unfolding lock release
  abort = do
    lock
    failed ← mvp_write env (codes "0 AB")
    if is_set failed then release (negsuc 0) else release (pos 0)

  unfoldable pub hard_stop : M ℤ
  unfolding lock release
  hard_stop = do
    lock
    failed ← mvp_write env (codes "0 HF 1")
    if is_set failed then release (negsuc 0) else release (pos 0)

  unfoldable pub set_home_trigger : ℤ → M ℤ
  unfolding lock release
  set_home_trigger trigger = do
    lock
    failed ← mvp_write env (codes "0 HA " ++ print_int trigger)
    if is_set failed then release (negsuc 0) else release (pos 0)

  unfoldable pub set_zero : M ℤ
  unfolding lock release give_up
  set_zero = do
    lock
    failed ← mvp_write env (codes "0 HO")
    if is_set failed then give_up else release (pos 0)

  -- `select` reports no input while the inbox is empty. This return keeps the mutex.
  unfoldable pub reset_node : M ℤ
  unfolding lock release
  reset_node = do
    lock
    failed ← mvp_write env (codes "0 RN")
    if is_set failed then release (negsuc 0) else (do
      ready ← gets has_input
      if not ready then pure (negsuc 0) else (do (status, reply) ← mvp_read env; release (pos 0)))

  -- What MVP_SetSpeed, MVP_SetAccel and MVP_SetHomeFlag do with the value read back.
  check_echo : ℤ → ℤ × Bytes → M ℤ
  unfolding scan_reply
  check_echo value (status, reply) =
      if is_set status
      then pure (negsuc 0)
      else if ltb (length reply) 9
      then pure (negsuc 0)
      else (do
        echo ← gets (scan_reply env reply)
        pure (if not (eq_ℤ value echo) then negsuc 0 else pos 0))

  unfoldable pub set_speed : ℤ → M ℤ
  unfolding lock unlock give_up check_echo
  set_speed speed = do
    lock
    failed ← mvp_write env (codes "0 SP " ++ print_int speed)
    if is_set failed then give_up else (do
      failed_again ← mvp_write env (codes "0 SP")
      if is_set failed_again
          then give_up
          else (do read ← mvp_read env; unlock; check_echo speed read))

  unfoldable pub set_accel : ℤ → M ℤ
  unfolding lock unlock give_up check_echo
  set_accel accel = do
    lock
    failed ← mvp_write env (codes "0 AC " ++ print_int accel)
    if is_set failed then give_up else (do
      failed_again ← mvp_write env (codes "0 AC")
      if is_set failed_again
          then give_up
          else (do read ← mvp_read env; unlock; check_echo accel read))

  unfoldable pub set_home_flag : ℤ → M ℤ
  unfolding lock unlock give_up check_echo
  set_home_flag home = do
    lock
    failed ← mvp_write env (codes "0 ANO " ++ print_int home)
    if is_set failed then give_up else (do
      failed_again ← mvp_write env (codes "0 ANO")
      if is_set failed_again
          then give_up
          else (do read ← mvp_read env; unlock; check_echo home read))
