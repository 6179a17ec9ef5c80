-- ===== src/Topbox/Mvp/Moves.antt =====
-- MVP_MoveAbsolute and MVP_MoveRelative: the distance is sent and read back, and the motor is
-- started only if it holds the right one.
use mmtao_old.Base.{◌++◌, if◌then◌else◌, length, ltb, not}
use mmtao_old.Base.Int.{ℤ, pos, negsuc, is_set, eq_ℤ}
use mmtao_old.Base.Text.{codes, print_int}
use mmtao_old.Topbox.Link.{Env, Float, Link, M, gets, ◌>>=◌, ◌>>◌, lock, release, give_up}
use mmtao_old.Topbox.Mvp.Wire.{mvp_write, mvp_read, scan_reply}

module _ (env : Env) where
  -- `(int) (distance * Data->gain)`
  abbrev pub counts_of : Float → Link → ℤ
  counts_of distance s = env.floats.trunc_float (env.floats.mul_float distance s.device.gain)

  unfoldable pub move_absolute : Float → M ℤ
  unfolding lock release give_up scan_reply
  move_absolute distance = do
    lock
    value ← gets (counts_of distance)
    failed ← mvp_write env (codes "0 LA " ++ print_int value)
    if is_set failed then give_up else (do
      failed_again ← mvp_write env (codes "0 LA")
      if is_set failed_again then give_up else (do
        (status, reply) ← mvp_read env
        if is_set status
            then release (negsuc 0)
            else if ltb (length reply) 12
            then release (negsuc 0)
            else (do
              temp ← gets (scan_reply env reply)
              if not (eq_ℤ value temp) then release (negsuc 0) else (do
                failed_start ← mvp_write env (codes "0 M")
                if is_set failed_start then give_up else release (pos 0)))))

  unfoldable pub move_relative : Float → M ℤ
  unfolding lock release give_up scan_reply
  move_relative distance = do
    lock
    value ← gets (counts_of distance)
    failed ← mvp_write env (codes "0 LR " ++ print_int value)
    if is_set failed then give_up else (do
      failed_again ← mvp_write env (codes "0 LR")
      if is_set failed_again then give_up else (do
        (status, reply) ← mvp_read env
        if is_set status
            then release (negsuc 0)
            else if ltb (length reply) 12
            then release (negsuc 0)
            else (do
              temp ← gets (scan_reply env reply)
              if not (eq_ℤ value temp) then release (negsuc 0) else (do
                failed_start ← mvp_write env (codes "0 M")
                if is_set failed_start then give_up else release (pos 0)))))
