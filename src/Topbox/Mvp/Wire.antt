-- ===== src/Topbox/Mvp/Wire.antt =====
-- MVP_Write and MVP_Read, and what the routines do with a reply.
pub mod Laws
pub mod Reply
use mathlib.Core.Option
use mmtao_old.Base.{
  ℕ, zero, suc, ◌-◌, ◌||◌, List, [], ◌∷◌, ◌++◌, if◌then◌else◌, ◌==◌, length, take, drop, true, Bool,
  false,
}
use mmtao_old.Base.Int.{ℤ, pos, negsuc, eq_ℤ}
use mmtao_old.Base.Text.{Bytes, scan_hex}
use mmtao_old.Topbox.Link.{SysResult, count, Chunk, Env, Link, M, lift}
use mmtao_old.Topbox.Socket.{receive, flush, string_write}

-- STRING_LENGTH
abbrev pub string_length : ℕ
string_length = 120

-- From the first newline on; `rounds` counts the positions that are left before the last byte.
skip_line : ℕ → Bytes → ℕ × Bytes
skip_line zero buf = (0, drop 1 buf)
skip_line (suc rounds) [] = (0, [])
skip_line (suc rounds) (c ∷ cs) = if c == 10 then (rounds, cs) else skip_line rounds cs

-- Up to a NUL, a newline or a carriage return.
read_line : ℕ → Bytes → Bytes
read_line zero buf = []
read_line (suc rounds) [] = []
read_line (suc rounds) (c ∷ cs) =
    if c == 0 || c == 10 || c == 13 then [] else c ∷ read_line rounds cs

-- The reply in the buffer `buff` of MVP_Read.
unfoldable pub mvp_reply : Bytes → Bytes
unfolding skip_line read_line
mvp_reply buff = let (rounds, rest) = skip_line (string_length - 1) buff in read_line rounds rest

-- What `select` on the descriptor reports.
abbrev pub has_input : Link → Bool
has_input s = elim s.inbox [ [] ↦ false | _ ↦ true ]

module _ (env : Env) where
  -- MVP_Write: flush, then send the request and a carriage return. 0 or -1.
  unfoldable pub mvp_write_step : Bytes → Link → ℤ × Link
  mvp_write_step request s =
      let line = request ++ 13 ∷ [] in
      let (n, t) = string_write env line (flush s) in
      (if eq_ℤ n (pos (length line)) then pos 0 else negsuc 0, t)

  -- The buffer behind the bytes read is not initialised.
  abbrev buffer : ℕ → Bytes → Bytes
  buffer call got = take string_length (got ++ drop (length got) (env.stale_bytes call))

  read_end : SysResult × Bytes × List Chunk → Link → (ℤ × Bytes) × Link
  read_end (count (suc n), got, rest) s =
      ((pos 0, mvp_reply (buffer s.calls got)), record s { inbox = rest })
  read_end (_, got, rest) s = ((negsuc 0, []), record s { inbox = rest })

  -- MVP_Read: 1 if nothing comes in time, -1 if the connection died. Only under 0 is there a reply.
  unfoldable pub mvp_read_step : Link → (ℤ × Bytes) × Link
  unfolding read_end
  mvp_read_step s = elim s.inbox [
    | [] ↦ ((pos 1, []), record s { error = true })
    | c ∷ cs ↦ read_end (receive string_length c cs) s
  ]

  abbrev pub mvp_write : Bytes → M ℤ
  mvp_write request = lift (mvp_write_step request)

  abbrev pub mvp_read : M (ℤ × Bytes)
  mvp_read = lift mvp_read_step

  -- `sscanf(reply + 5, "%x", &value)`, its result not looked at: without a digit `value` keeps
  -- what the stack held.
  unfoldable pub scan_reply : Bytes → Link → ℤ
  scan_reply reply s = Option.get_or (scan_hex (drop 5 reply)) (env.stale_int s.calls)
