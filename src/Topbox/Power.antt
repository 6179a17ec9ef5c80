-- ===== src/Topbox/Power.antt =====
-- topbox_server/Power: the controller of the eight power relays, and the thread that polls it.
pub mod Looper
pub mod Process
mod Tests
use mmtao_old.Base.{
  ℕ, zero, suc, true, none, some, List, [], ◌∷◌, ◌++◌, if◌then◌else◌, ltb, length, set, take,
}
use mmtao_old.Base.Text.{Bytes, codes, print_int, has_prefix, scan_int}
use mmtao_old.Base.Int.{is_negative, eq_ℤ, ℤ, pos, negsuc}
use mmtao_old.Topbox.Link.{
  M, pure, gets, modify, lift, lock, unlock, Env, Link, SysResult, count, Chunk, ◌>>=◌, ◌>>◌,
}
use mmtao_old.Topbox.Socket.{receive, string_write}
use mmtao_old.Topbox.Mvp.Wire.{string_length}
use mmtao_old.Topbox.Mvp.Queries.{set_device}

module _ (env : Env) where
  -- Power_Write: without a flush, inside the mutex.
  unfoldable pub power_write : Bytes → M ℤ
  unfolding lock unlock
  power_write request = do
    lock
    n ← lift (string_write env (take 15 (request ++ 13 ∷ [])))
    unlock
    pure (if eq_ℤ n (pos (length (take 15 (request ++ 13 ∷ [])))) then pos 0 else negsuc 0)

  unfoldable pub power_on : ℕ → M ℤ
  unfolding power_write
  power_on relay = power_write (codes "SK" ++ print_int (pos relay))

  unfoldable pub power_off : ℕ → M ℤ
  unfolding power_write
  power_off relay = power_write (codes "RK" ++ print_int (pos relay))

  -- Power_Relay: everything but "on" switches off.
  unfoldable pub power_relay : ℕ → Bytes → M ℤ
  unfolding power_on power_off
  power_relay relay what = if has_prefix what (codes "on") then power_on relay else power_off relay

  -- read() into the reply; `none` is a NUL behind its 120 places.
  read_text : SysResult × Bytes × List Chunk → M (ℤ × Bytes)
  read_text (count (suc n), got, rest) s =
      if ltb n 119 then some ((pos 0, got), record s { inbox = rest }) else none
  read_text (_, got, rest) s = some ((negsuc 0, []), record s { inbox = rest })

  -- The part of Power_Read inside the mutex. Without input the reply is what the stack held.
  unfoldable pub power_read_step : M (ℤ × Bytes)
  unfolding read_text
  power_read_step s = elim s.inbox [
    | [] ↦ some ((pos 1, env.stale_bytes s.calls), record s { error = true })
    | c ∷ cs ↦ read_text (receive string_length c cs) s
  ]

  unfoldable pub power_read : M (ℤ × Bytes)
  unfolding lock unlock power_read_step
  power_read = do lock; read ← power_read_step; unlock; pure read

  unfoldable pub power_info : M (ℤ × Bytes)
  unfolding power_write power_read
  power_info = do
    status ← power_write (codes "RPK")
    stale ← gets λ s. env.stale_bytes s.calls
    if is_negative status then pure (negsuc 0, stale) else power_read

-- `sscanf` of up to eight numbers, from relay 7 down to relay 0; it stops at the first that fails.
unfoldable pub scan_relays : ℕ → Bytes → List ℤ → List ℤ
unfolding scan_int
scan_relays zero reply relays = relays
scan_relays (suc relay) reply relays = elim (scan_int reply) [
  | none ↦ relays
  | some (value, rest) ↦ scan_relays relay rest (set relays relay value)
]

module _ (env : Env) where
  -- Power_Status: a time-out of the read is not below 0.
  unfoldable pub power_status : M ℤ
  unfolding power_info scan_relays
  power_status = do
    (status, reply) ← power_info env
    if is_negative status then pure (negsuc 0) else (do
      modify (set_device λ d. record d { relays = scan_relays 8 reply d.relays })
      pure (pos 0))
