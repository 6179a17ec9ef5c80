-- ===== src/Topbox/Fwheel.antt =====
-- topbox_server/Fwheel: the filter wheel, which only turns forward and knows its place from the home
-- switch alone. These routines do not lock the mutex. `none` is a read outside the table
-- of names, or a write behind the buffer of Fwheel_CheckHome.
pub mod Turns
pub mod Looper
pub mod Process
pub mod Laws
pub mod Homing
mod Tests
use mmtao_old.Base.{
  ℕ, zero, suc, ◌+◌, ◌*◌, ◌%◌, ◌/◌, Bool, true, false, not, none, some, List, [], ◌∷◌, ◌++◌, ◌==◌,
  if◌then◌else◌, length, take, get_elem?, ltb,
}
use mmtao_old.Base.Text.{Bytes, codes, parse_int}
use mmtao_old.Base.Int.{ℤ, pos, negsuc, is_set, eq_ℤ}
use mmtao_old.Topbox.Link.{
  Env, Float, Link, M, pure, gets, modify, lift, ◌>>=◌, ◌>>◌, SysResult, count, Chunk, zero_flags,
}
use mmtao_old.Topbox.Socket.{receive, string_write, flush}
use mmtao_old.Topbox.Mvp.Wire.{string_length}
use mmtao_old.Topbox.Mvp.Queries.{set_device}
use mmtao_old.Topbox.Fwheel.Turns.{leb_ℤ, excess, lower, forward}

abbrev filter_names : List Bytes
filter_names =
    codes "ND-2.0"
    ∷ codes "ND-1.5"
    ∷ codes "ND-1.0"
    ∷ codes "ND-0.5"
    ∷ codes "Clear"
    ∷ codes "Z-Band"
    ∷ codes "ND-3.0"
    ∷ codes "ND-2.5"
    ∷ []

-- The bit FW_HOMEBIT of an int.
abbrev home_bit : ℤ → Bool
home_bit (pos n) = n % 2 == 1
home_bit (negsuc n) = n % 2 == 0

module _ (env : Env) where
  -- Fwheel_Send and Fwheel_Write: two buffers of FW_MAXLINE.
  fwheel_send : Bytes → Link → ℤ × Link
  fwheel_send request s =
      let line = take 31 (take 31 request ++ 13 ∷ []) in
      let (n, t) = string_write env line s in
      (if eq_ℤ n (pos (length line)) then pos 0 else negsuc 0, t)

  fwheel_step : Link → ℤ × Link
  unfolding fwheel_send
  fwheel_step s =
      let (first, t) = fwheel_send (codes "0") s in
      let (second, u) = fwheel_send (codes "2") t in
      if is_set first then (negsuc 0, t) else if is_set second then (negsuc 0, u) else (pos 0, u)

  -- The loop of Fwheel_MoveCount.
  step_times : ℕ → Link → Link
  unfolding fwheel_step
  step_times zero s = s
  step_times (suc n) s = step_times n (fwheel_step s).1

  unfoldable pub move_count : ℕ → M ℤ
  unfolding step_times
  move_count n = do
    modify (set_device λ d. record d { moving = pos 1 })
    modify (step_times n)
    modify (set_device λ d. record d { moving = pos 0 })
    pure (pos 0)

  -- Behind the read() of Fwheel_Read into the buffer of Fwheel_CheckHome, which has FW_MAXLINE places;
  -- `none` is a write behind it.
  unfoldable pub read_home : SysResult × Bytes × List Chunk → M Bytes
  read_home (count (suc n), got, rest) s =
      if ltb (suc n) 32 then some (got, record s { inbox = rest }) else none
  read_home (_, got, rest) s = some ([], record s { inbox = rest })

  -- What Fwheel_Read leaves in the buffer: if nothing comes in time, what it held.
  unfoldable pub fwheel_read : M Bytes
  unfolding read_home
  fwheel_read s = elim s.inbox [
    | [] ↦ some (env.stale_bytes s.calls, record s { error = true })
    | c ∷ cs ↦ read_home (receive string_length c cs) s
  ]

  unfoldable pub check_home : M Bool
  unfolding fwheel_send fwheel_read parse_int
  check_home = do
    asked ← lift (fwheel_send (codes "?"))
    reply ← fwheel_read
    pure (home_bit (parse_int reply))

  -- The loop of Fwheel_SeekHome, for a limit of one at least.
  unfoldable pub seek_loop : ℕ → M Bool
  unfolding fwheel_step check_home
  seek_loop zero = pure false
  seek_loop (suc tries) = do
    stepped ← lift fwheel_step
    at_home ← check_home
    if at_home then pure true else seek_loop tries

  pub seek_home : ℕ → M Bool
  unfolding fwheel_send seek_loop
  seek_home limit = do
    on ← lift (fwheel_send (codes "0"))
    modify (set_device λ d. record d { moving = pos 1 })
    at_home ← seek_loop limit
    modify (set_device λ d. record d { moving = pos 0 })
    off ← lift (fwheel_send (codes "1"))
    pure at_home

  -- Fwheel_FilterSetPos: "bogus" is overwritten at once.
  unfoldable pub filter_set_pos : ℤ → M (Unit {0})
  filter_set_pos (pos (suc n)) s = elim (get_elem? filter_names n) [
    | none ↦ none
    | some name ↦ some (
      tt,
      set_device (λ d. record d { position = env.floats.float_of_int (pos (suc n)); filter = name })
          s,
    )
  ]
  filter_set_pos _ s = none

  -- The end of a move that has found the home switch.
  from_home : ℤ → M ℤ
  unfolding move_count filter_set_pos
  from_home target = do
    stale ← gets λ s. env.stale_int s.calls
    if leb_ℤ target (pos 1)
        then (do filter_set_pos target; pure stale)
        else (do rv ← move_count (excess target (pos 1) * 33); filter_set_pos target; pure rv)

  -- Behind the home switch: the first filter, and on.
  found_home : ℤ → M ℤ
  unfolding move_count from_home
  found_home new = do
    offset ← move_count 17
    from_home (lower (suc (excess new (pos 1))) (pos 1) new)

  lost_home : M ℤ
  unfolding filter_set_pos
  lost_home = do
    filter_set_pos (pos 0)
    modify (set_device λ d. record d { home = pos 0 })
    pure (negsuc 0)

  -- To the last filter.
  to_last : ℤ → M ℤ
  unfolding move_count
  to_last cur = if leb_ℤ (pos 8) cur then pure (pos 0) else move_count (excess (pos 8) cur * 33)

  -- The part of Fwheel_MoveAbsolute that goes over the home switch.
  over_home : ℤ → ℤ → M ℤ
  unfolding to_last seek_home found_home lost_home
  over_home cur new = do
    rv ← to_last cur
    at_home ← seek_home 33
    if at_home then found_home new else lost_home

  move_homed : ℤ → ℤ → M ℤ
  unfolding move_count filter_set_pos over_home
  move_homed cur new =
      if eq_ℤ new cur
      then pure (pos 0)
      else if leb_ℤ new (pos 8)
      then (do rv ← move_count (excess new cur * 33); filter_set_pos new; pure rv)
      else over_home cur new

  -- Fwheel_MoveAbsolute; the position is a double.
  pub fwheel_move_absolute : Float → M ℤ
  unfolding move_homed
  fwheel_move_absolute position = do
    homed ← gets λ s. is_set s.device.home
    cur ← gets λ s. env.floats.trunc_float s.device.position
    if homed
        then move_homed cur (forward cur (env.floats.trunc_double position))
        else pure (negsuc 0)

  -- Fwheel_MoveRelative
  unfoldable pub fwheel_move_relative : Float → M ℤ
  fwheel_move_relative delta = do
    position ← gets λ s. s.device.position
    fwheel_move_absolute (env.floats.add_double (env.floats.double_of_float position) delta)

  -- Fwheel_MoveThird
  pub fwheel_move_third : M ℤ
  unfolding move_count
  fwheel_move_third = move_count (33 / 3)

  -- The part of Fwheel_Home behind the search: `none` is "bogus" again.
  homed : Bool → M ℤ
  unfolding move_count filter_set_pos
  homed true = do
    modify (set_device λ d. record d { home = pos 1 })
    offset ← move_count 17
    filter_set_pos (pos 1)
    pure (pos 0)
  homed false = do filter_set_pos (pos 0); pure (negsuc 0)

  -- Fwheel_Home, but for the flag `running`.
  pub fwheel_home : M ℤ
  unfolding zero_flags flush seek_home homed
  fwheel_home = do
    modify (set_device zero_flags)
    modify flush
    at_home ← seek_home 500
    homed at_home
