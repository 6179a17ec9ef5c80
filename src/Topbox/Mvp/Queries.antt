-- ===== src/Topbox/Mvp/Queries.antt =====
-- The routines that read the controller's status, position and home flag, and the two that
-- enable and disable a motor and look at its status afterwards.
pub mod Decode
use mmtao_old.Base.{ℕ, ◌-◌, ◌/◌, ◌%◌, ◌^◌, Bool, if◌then◌else◌, length, ltb, not, true, false}
use mmtao_old.Base.Int.{ℤ, pos, negsuc, is_set, eq_ℤ}
use mmtao_old.Base.Text.{codes}
use mmtao_old.Topbox.Link.{
  Env, Float, Floats, DeviceData, Link, M, pure, gets, modify, ◌>>=◌, ◌>>◌, lock, unlock, release,
  give_up, drop_connection,
}
use mmtao_old.Topbox.Socket.{flush}
use mmtao_old.Topbox.Mvp.Wire.{mvp_write, mvp_read, scan_reply}

-- `(short) i`, as the 16 bits that it keeps.
unfoldable pub short_bits : ℤ → ℕ
short_bits (pos n) = n % 65536
short_bits (negsuc n) = 65535 - n % 65536

-- `(status & (1 << k)) ? 1 : 0`.
abbrev pub flag : ℕ → ℕ → ℤ
flag k word = pos (word / 2 ^ k % 2)

-- The flags of MVP.h by their bit: MOVE_IN_PROGRESS 0, IN_POSITION 1, ERROR 4, NOT_ENABLED 8,
-- POSITIVE_LIMIT 13, EXTERNAL_EVENT_2 14, NEGATIVE_LIMIT 15.
unfoldable pub decode_status : ℕ → DeviceData → DeviceData
decode_status word d = record d {
  moving = flag 0 word;
  in_position = flag 1 word;
  error = flag 4 word;
  enabled = if is_set (flag 8 word) then pos 0 else pos 1;
  positive = flag 13 word;
  negative = flag 15 word;
  event_2 = flag 14 word;
}

-- Thousandths of a user unit, cut off, in float precision.
unfoldable pub user_position : Floats → ℤ → Float → Float
user_position fl n gain =
    let thousand = fl.double_of_int (pos 1000) in
    let scaled =
      fl.mul_double (fl.div_double (fl.double_of_int n) (fl.double_of_float gain)) thousand in
    let temp = fl.float_of_int (fl.trunc_double scaled) in
    fl.float_of_double (fl.div_double (fl.double_of_float temp) thousand)

abbrev pub set_device : (DeviceData → DeviceData) → Link → Link
set_device f s = record s { device = f s.device }

module _ (env : Env) where
  unfoldable pub get_status : M ℤ
  unfolding lock unlock release give_up scan_reply short_bits decode_status
  get_status = do
    lock
    failed ← mvp_write env (codes "0 ST")
    if is_set failed then give_up else (do
      (status, reply) ← mvp_read env
      if is_set status then release (negsuc 0) else (do
        unlock
        if ltb (length reply) 9 then pure (negsuc 0) else (do
          word ← gets (scan_reply env reply)
          modify (set_device (decode_status (short_bits word)))
          pure (pos 0))))

  unfoldable pub get_position : M ℤ
  unfolding lock unlock give_up scan_reply user_position
  get_position = do
    lock
    failed ← mvp_write env (codes "0 POS")
    if is_set failed then give_up else (do
      (status, reply) ← mvp_read env
      unlock
      if is_set status
          then pure (negsuc 0)
          else if ltb (length reply) 13
          then pure (negsuc 0)
          else (do
            position ← gets (scan_reply env reply)
            modify
                (set_device λ d. record d { position = user_position env.floats position d.gain })
            pure (pos 0)))

  unfoldable pub get_home_flag : M ℤ
  unfolding lock unlock give_up scan_reply
  get_home_flag = do
    lock
    failed ← mvp_write env (codes "0 ANO")
    if is_set failed then give_up else (do
      (status, reply) ← mvp_read env
      unlock
      if is_set status
          then pure (negsuc 0)
          else if ltb (length reply) 9
          then pure (negsuc 0)
          else (do
            home ← gets (scan_reply env reply)
            modify (set_device λ d. record d { home = if eq_ℤ home (pos 1) then pos 1 else pos 0 })
            pure (pos 0)))

  -- The end of MVP_Enable and MVP_Disable. The connection is given up outside the mutex.
  unfoldable pub confirm : Bool → M ℤ
  unfolding drop_connection
  confirm wanted = do
    status ← get_status
    if is_set status then (do drop_connection; pure (negsuc 0)) else (do
      enabled ← gets λ s. is_set s.device.enabled
      pure (
          if wanted
          then (if not enabled then negsuc 0 else pos 0)
          else if enabled
          then negsuc 0
          else pos 0))

  unfoldable pub enable : M ℤ
  unfolding lock unlock release
  enable = do
    lock
    failed ← mvp_write env (codes "0 EN")
    if is_set failed then release (negsuc 0) else (do unlock; confirm true)

  -- MVP_Enable up to its usleep, behind which `confirm true` follows.
  unfoldable pub enable_request : M ℤ
  unfolding lock unlock release
  enable_request = do
    lock
    failed ← mvp_write env (codes "0 EN")
    if is_set failed then release (negsuc 0) else release (pos 0)

  -- The reply to the request is thrown away unread.
  unfoldable pub disable : M ℤ
  unfolding lock unlock release flush
  disable = do
    lock
    failed ← mvp_write env (codes "0 DI")
    if is_set failed then release (negsuc 0) else (do modify flush; unlock; confirm false)
