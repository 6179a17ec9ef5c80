-- ===== src/Topbox/Smart.antt =====
-- topbox_server/Smart: the focus and the rotation motor, two Smart motors on one connection. Debug
-- output is left out. `none` is also the NUL behind a read that filled the whole buffer.
pub mod Setup
pub mod Reads
pub mod Settles
pub mod Ready
pub mod Kept
pub mod Transcript
pub mod Moves
pub mod Looper
mod Tests
use mathlib.Core.Option
use mmtao_old.Base.{
  ◌&&◌, Option, none, some, ℕ, zero, suc, ◌<◌, ltb, ◌||◌, Bool, true, false, List, [], ◌∷◌, ◌++◌,
  if◌then◌else◌, ◌==◌, length, take,
}
use mmtao_old.Base.Int.{ℤ, pos, negsuc, is_set, eq_ℤ}
use mmtao_old.Base.Text.{Bytes, codes, parse_int, print_int, has_prefix}
use mmtao_old.Topbox.Link.{
  SysResult, count, Chunk, Env, Float, Link, M, pure, gets, modify, lift, DeviceData, ◌>>=◌, ◌>>◌,
  lock, unlock, release, give_up, drop_connection,
}
use mmtao_old.Topbox.Socket.{receive, string_write, waiting}
use mmtao_old.Topbox.Mvp.Wire.{string_length}
use mmtao_old.Topbox.Mvp.Queries.{set_device}

-- BROADCAST_ID, FOCUS_ID and ROTATION_ID.
abbrev pub broadcast_id : ℕ
broadcast_id = 0x80

abbrev pub focus_id : ℕ
focus_id = 0x81

abbrev pub rotation_id : ℕ
rotation_id = 0x82

-- The loop of Smart_Flush_common: a read while `select` reports input and the last read got some.
unfoldable pub smart_flush_loop : ℕ → List Chunk → List Chunk
smart_flush_loop zero inbox = inbox
smart_flush_loop (suc fuel) [] = []
smart_flush_loop (suc fuel) (c ∷ cs) =
    let rest = (receive string_length c cs).2 in
    elim (receive string_length c cs).0 [ count (suc n) ↦ smart_flush_loop fuel rest | _ ↦ rest ]

unfoldable pub smart_flush : Link → Link
unfolding smart_flush_loop
smart_flush s = record s { inbox = smart_flush_loop (suc (waiting s.inbox)) s.inbox }

-- The echo of the request, up to its newline.
skip_echo : Bytes → Bytes
skip_echo [] = []
skip_echo (c ∷ cs) = if c == 0 then [] else if c == 10 then cs else skip_echo cs

-- Up to a NUL, a newline, a carriage return or a form feed.
until_end : Bytes → Bytes
until_end [] = []
until_end (c ∷ cs) = if c == 0 || c == 10 || c == 13 || c == 12 then [] else c ∷ until_end cs

-- Smart_fixbuf.
unfoldable pub fix_reply : Bytes → Bytes
unfolding skip_echo until_end
fix_reply buf = until_end (skip_echo buf)

-- The buffer of Smart_Write: snprintf() leaves room for the NUL.
abbrev pub smart_line : ℕ → Bytes → Bytes
smart_line id request = take 119 (id ∷ request ++ 10 ∷ [])

-- FOCUS_ID unless the device is the rotation motor.
unfoldable pub motor_id : Link → ℕ
motor_id s =
    if has_prefix s.device.name (codes "Rotation") && length s.device.name == 8
    then rotation_id
    else focus_id

module _ (env : Env) where
  -- Smart_Write.
  unfoldable pub smart_write_step : ℕ → Bytes → Link → ℤ × Link
  unfolding smart_flush
  smart_write_step id request s =
      let (n, t) = string_write env (smart_line id request) (smart_flush s) in
      (if eq_ℤ n (pos (length (smart_line id request))) then pos 0 else negsuc 0, t)

  abbrev pub smart_write : ℕ → Bytes → M ℤ
  smart_write id request = lift (smart_write_step id request)

  -- Behind the read() of Smart_Read.
  unfoldable pub smart_read_end : SysResult × Bytes × List Chunk → M (ℤ × Bytes)
  unfolding fix_reply smart_flush
  smart_read_end (count (suc n), got, rest) s =
      if ltb (suc n) string_length
      then some ((pos 0, fix_reply got), smart_flush (record s { inbox = rest }))
      else none
  smart_read_end (_, got, rest) s = some ((negsuc 0, []), record s { inbox = rest })

  -- Smart_Read: 1 if nothing comes in time, -1 if the connection died.
  unfoldable pub smart_read : M (ℤ × Bytes)
  unfolding smart_read_end
  smart_read s = elim s.inbox [
    | [] ↦ some ((pos 1, []), record s { error = true })
    | c ∷ cs ↦ smart_read_end (receive string_length c cs) s
  ]

  -- Smart_Cmd_int.
  unfoldable pub smart_exchange : ℕ → Bytes → M (ℤ × Bytes)
  unfolding smart_read
  smart_exchange id request = do
    failed ← smart_write id request
    if is_set failed then pure (negsuc 0, []) else (do
      (status, reply) ← smart_read
      pure (if is_set status then negsuc 0 else pos 0, reply))

  unfoldable pub smart_cmd : Bytes → M (ℤ × Bytes)
  unfolding smart_exchange lock unlock give_up motor_id
  smart_cmd request = do
    id ← gets motor_id
    lock
    (failed, reply) ← smart_exchange id request
    if is_set failed
        then (do status ← give_up; pure (status, []))
        else (do unlock; pure (pos 0, reply))

  -- Smart_Cmdw: a request whose reply is not awaited.
  unfoldable pub smart_cmdw : Bytes → M ℤ
  unfolding lock release give_up motor_id
  smart_cmdw request = do
    id ← gets motor_id
    lock
    failed ← smart_write id request
    if is_set failed then give_up else release (pos 0)

  -- A field of the device is set from each reply; the first failure ends the routine.
  unfoldable pub smart_ask : Bytes → (Bytes → DeviceData → DeviceData) → M ℤ → M ℤ
  unfolding smart_cmd
  smart_ask request store rest = do
    (status, reply) ← smart_cmd request
    if is_set status then pure (negsuc 0) else (do modify (set_device (store reply)); rest)

  -- `atof(reply) / Data->gain`
  abbrev position_of : Bytes → Float → Float
  position_of reply gain =
      env.floats.float_of_double
        (env.floats.div_double (env.floats.parse_double reply) (env.floats.double_of_float gain))

  unfoldable pub smart_status : M ℤ
  unfolding smart_ask parse_int
  smart_status =
      smart_ask (codes "RP") (λ reply d. record d { position = position_of reply d.gain })
        (smart_ask (codes "RBt") (λ reply d. record d { moving = parse_int reply })
          (smart_ask (codes "RBm") (λ reply d. record d { negative = parse_int reply })
            (smart_ask (codes "RBp") (λ reply d. record d { positive = parse_int reply })
              (smart_ask (codes "Rh") (λ reply d. record d { home = parse_int reply })
                (pure (pos 0))))))
