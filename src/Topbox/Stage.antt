-- ===== src/Topbox/Stage.antt =====
-- topbox_server/Stage: the controllers of the two linear stages. Debug output is left out.
pub mod Settles
pub mod Looper
pub mod Process
pub mod Frees
pub mod Home
mod Tests
use mathlib.Core.Option
use mmtao_old.Base.{
  ℕ, zero, suc, ◌-◌, ◌||◌, Bool, true, false, not, List, [], ◌∷◌, ◌++◌, if◌then◌else◌, ◌==◌, length,
  take, drop,
}
use mmtao_old.Base.Int.{ℤ, pos, negsuc, is_set, is_negative}
use mmtao_old.Base.Text.{Bytes, codes, has_prefix, contains, parse_int}
use mmtao_old.Topbox.Link.{
  SysResult, count, Chunk, Env, Float, Link, M, pure, gets, modify, lift, DeviceData, ◌>>=◌, ◌>>◌,
  lock, unlock, release, give_up,
}
use mmtao_old.Topbox.Socket.{receive, flush}
use mmtao_old.Topbox.Mvp.Wire.{string_length, mvp_write_step}
use mmtao_old.Topbox.Mvp.Queries.{set_device}

-- What stands before the first newline is skipped; `rounds` counts the positions that are left.
skip_prompt : ℕ → Bytes → ℕ × Bytes
skip_prompt zero buf = (0, drop 1 buf)
skip_prompt (suc rounds) [] = (0, [])
skip_prompt (suc rounds) (c ∷ cs) = if c == 10 then (rounds, cs) else skip_prompt rounds cs

-- Up to a NUL, a form feed, a newline or a carriage return.
read_answer : ℕ → Bytes → Bytes
read_answer zero buf = []
read_answer (suc rounds) [] = []
read_answer (suc rounds) (c ∷ cs) =
    if c == 0 || c == 12 || c == 10 || c == 13 then [] else c ∷ read_answer rounds cs

stage_reply : Bytes → Bytes
unfolding skip_prompt read_answer
stage_reply buff =
    let (rounds, rest) = skip_prompt (string_length - 1) buff in read_answer rounds rest

module _ (env : Env) where
  -- Stage_Write does what MVP_Write does.
  abbrev pub stage_write : Bytes → M ℤ
  stage_write request = lift (mvp_write_step env request)

  unfoldable pub stage_read_end : SysResult × Bytes × List Chunk → Link → (ℤ × Bytes) × Link
  unfolding stage_reply
  stage_read_end (count (suc n), got, rest) s = (
    (pos 0, stage_reply (take string_length (got ++ drop (length got) (env.stale_bytes s.calls)))),
    record s { inbox = rest },
  )
  stage_read_end (_, got, rest) s = ((negsuc 0, []), record s { inbox = rest })

  -- Stage_Read: 1 if nothing comes in time, -1 if the connection died.
  unfoldable pub stage_read_step : Link → (ℤ × Bytes) × Link
  unfolding stage_read_end
  stage_read_step s = elim s.inbox [
    | [] ↦ ((pos 1, []), record s { error = true })
    | c ∷ cs ↦ stage_read_end (receive string_length c cs) s
  ]

  abbrev pub stage_read : M (ℤ × Bytes)
  stage_read = lift stage_read_step

  -- A request whose failure gives the connection up.
  unfoldable pub stage_command : Bytes → M ℤ
  unfolding lock release give_up
  stage_command request = do
    lock
    failed ← stage_write request
    if is_set failed then give_up else release (pos 0)

  -- A request whose failure is only reported.
  unfoldable pub stage_request : Bytes → M ℤ
  unfolding lock release
  stage_request request = do
    lock
    failed ← stage_write request
    if is_set failed then release (negsuc 0) else release (pos 0)

  abbrev pub stage_abort : M ℤ
  stage_abort = stage_request (codes "abort")

  abbrev pub stage_enable : M ℤ
  stage_enable = stage_request (codes "DRVEN=1")

  abbrev pub stage_disable : M ℤ
  stage_disable = stage_request (codes "DRVEN=0")

  abbrev pub stage_set_zero : M ℤ
  stage_set_zero = stage_command (codes "POS=0.00")

  abbrev pub stage_set_speed : Float → M ℤ
  stage_set_speed speed = stage_command (codes "VM=" ++ env.floats.print_fixed 2 speed)

  -- `distance * Data->gain`
  abbrev pub stage_distance : Float → Link → Float
  stage_distance distance s =
      env.floats.mul_double distance (env.floats.double_of_float s.device.gain)

  unfoldable pub stage_move_absolute : Float → M ℤ
  unfolding stage_command
  stage_move_absolute distance = do
    steps ← gets (stage_distance distance)
    stage_command (codes "mova " ++ env.floats.print_fixed 6 steps)

  unfoldable pub stage_move_relative : Float → M ℤ
  unfolding stage_command
  stage_move_relative distance = do
    steps ← gets (stage_distance distance)
    stage_command (codes "MOVR " ++ env.floats.print_fixed 2 steps)

  -- The doubles 0.0 and 1.0 have the patterns 0 and 0x3ff0000000000000. The line is sent twice.
  unfoldable pub stage_set_home_var : Float → M ℤ
  unfolding lock release
  stage_set_home_var flag_value =
      if env.floats.equal_double flag_value 0
        || env.floats.equal_double flag_value 0x3ff0000000000000
      then (do
        lock
        failed ← stage_write (codes "HOME=" ++ env.floats.print_fixed 1 flag_value)
        if is_negative failed then release (negsuc 0) else (do
          failed_again ← stage_write (codes "HOME=" ++ env.floats.print_fixed 1 flag_value)
          if is_negative failed_again then release (negsuc 0) else release (pos 0)))
      else pure (negsuc 0)

  unfoldable pub stage_position : M ℤ
  unfolding lock unlock give_up
  stage_position = do
    lock
    failed ← stage_write (codes "PRINT POS")
    if is_set failed then give_up else (do
      (status, reply) ← stage_read
      unlock
      if is_set status then pure (negsuc 0) else (do
        modify (
            set_device λ d. record d {
              position = env.floats.float_of_double (
                  env.floats.div_double (env.floats.parse_double reply)
                    (env.floats.double_of_float d.gain));
            })
        pure (pos 0)))

  -- get_thing: a request and its reply.
  unfoldable pub get_thing : Bytes → M (ℤ × Bytes)
  unfolding lock unlock give_up release
  get_thing request = do
    lock
    failed ← stage_write request
    if is_set failed then (do status ← give_up; pure (status, [])) else (do
      (status, reply) ← stage_read
      unlock
      pure (if is_set status then negsuc 0 else pos 0, reply))

  -- `strncmp(reply, "TRUE", 4) ? 0 : 1`
  abbrev is_true : Bytes → ℤ
  is_true reply = if has_prefix reply (codes "TRUE") then pos 1 else pos 0

  -- A field of the device is set from each reply; the first failure ends the routine.
  unfoldable pub ask : Bytes → (Bytes → DeviceData → DeviceData) → M ℤ → M ℤ
  unfolding get_thing
  ask request store rest = do
    (status, reply) ← get_thing request
    if is_negative status then pure (negsuc 0) else (do modify (set_device (store reply)); rest)

  unfoldable pub stage_status : M ℤ
  unfolding ask flush parse_int contains has_prefix
  stage_status =
      ask (codes "PRINT DRVEN") (λ reply d. record d { enabled = is_true reply })
        (ask (codes "PRINT MVG") (λ reply d. record d { moving = is_true reply })
          (ask (codes "PRINT IO 25") (λ reply d. record d { negative = parse_int reply })
            (ask (codes "PRINT IO 26") (λ reply d. record d { positive = parse_int reply })
              (ask (codes "PRINT UVARS")
                (λ reply d. record d {
                  home = if contains reply (codes "1.0") then pos 1 else pos 0;
                })
                (do modify flush; pure (pos 0))))))
