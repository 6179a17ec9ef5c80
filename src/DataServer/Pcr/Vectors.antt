-- ===== src/DataServer/Pcr/Vectors.antt =====
-- Vectors that a client sends on to the reconstructor: PCR_SendFloatVector, PCR_SendShortVector and
-- PCR_SendSlopeOffsets, with Socket_Read and Socket_Write. `none` is also a write to storage that
-- malloc did not give.
pub mod Laws
use mmtao_old.Base.{
  ℕ, zero, suc, ◌-◌, ◌*◌, Bool, not, Option, none, some, List, [], ◌∷◌, ◌++◌, leb, ◌==◌,
  if◌then◌else◌, length, ◌^◌, true, false,
}
use mmtao_old.Base.Text.{Bytes, codes, print_int, has_prefix, parse_int}
use mmtao_old.Base.Int.{is_set, eq_ℤ, ℤ, pos, negsuc, int32, is_negative}
use mmtao_old.Topbox.Link.{M, pure, ◌>>=◌, lock, release, Env, Link, count, failed, Chunk, ◌>>◌}
use mmtao_old.Topbox.Socket.{delivered, string_write, WriteEnd}
use mmtao_old.DataServer.Pcr.Session.{
  read_byte, and_byte, string_read, is_ready, judge, byte, no_byte, blocked,
}
use mmtao_old.DataServer.Pcr.Requests.{cam_bg_set, slope_offset_set, mod_offset_set, mod_rate_set}

-- Socket_Read of so many bytes: `none` if the connection ends before them.
unfoldable pub read_loop : ℕ → List Chunk → Option (Option Bytes × List Chunk)
unfolding read_byte
read_loop zero inbox = some (some [], inbox)
read_loop (suc n) inbox = elim (read_byte inbox) [
  | blocked ↦ none
  | no_byte rest ↦ some (none, rest)
  | byte c rest ↦ elim (read_loop n rest) [
    | none ↦ none
    | some (bytes, left) ↦ some (and_byte c bytes, left)
  ]
]

-- The number of bytes of a vector, as the `int` that Socket_Read is given.
unfoldable pub byte_count : ℤ → ℕ → ℤ
byte_count (pos n) size = int32 (n * size)
byte_count (negsuc n) size = int32 (2 ^ 64 - suc n * size)

-- Socket_Read of so many bytes to the storage of a vector: none at all below 0, which counts as an
-- error. malloc of a negative length gives no storage to write to.
unfoldable pub read_vector : ℤ → ℕ → M (Option Bytes)
unfolding read_loop byte_count
read_vector n size s = elim (byte_count n size) [
  | negsuc k ↦ some (none, s)
  | pos zero ↦ some (some [], s)
  | pos (suc k) ↦ elim (is_negative n) [
    | true ↦ none
    | false ↦ elim (read_loop (suc k) s.inbox) [
      | none ↦ none
      | some (bytes, rest) ↦ some (bytes, record s { inbox = rest })
    ]
  ]
]

-- The length that a client announces; `stale` is what `request` holds if no line is read.
unfoldable pub read_length : Bytes → M ℤ
unfolding string_read
read_length stale = do
  line ← string_read
  pure (parse_int (elim line [ none ↦ stale | some text ↦ text ]))

-- What Socket_StringRead leaves of a reply. Unlike PCR_SendCmd, these keep the connection open.
unfoldable pub conclude_vector : (ℤ → ℤ) → Option Bytes → M ℤ
unfolding release judge
conclude_vector report none = release (negsuc 0)
conclude_vector report (some reply) =
    if leb (length reply) 1 then release (negsuc 0) else release (report (judge reply))

-- The reply to a vector, and what is returned for it.
unfoldable pub await_vector : (ℤ → ℤ) → M ℤ
unfolding release
await_vector report s =
    if is_ready s then (string_read >>= conclude_vector report) s else release (report (negsuc 0)) s

module _ (env : Env) where
  -- The loop of Socket_Write: what it returns is about the last write alone.
  unfoldable pub last_loop : ℕ → ℕ → ℕ → ℕ → ℤ → Option WriteEnd
  last_loop fuel nbytes call zero last = some (record { returned = last; left = 0; calls = call })
  last_loop zero nbytes call (suc nleft) last = none
  last_loop (suc fuel) nbytes call (suc nleft) last = elim (env.accept call (suc nleft)) [
    | failed ↦ some (record { returned = negsuc 0; left = suc nleft; calls = suc call })
    | count zero ↦ some (record { returned = pos 0; left = suc nleft; calls = suc call })
    | count (suc n) ↦
        last_loop fuel nbytes (suc call) (suc nleft - suc n)
          (if suc n == nbytes then pos 0 else negsuc (nbytes - suc n - 1))
  ]

  -- Socket_Write; without bytes it returns what the stack holds.
  unfoldable pub socket_write : Bytes → Link → ℤ × Link
  unfolding last_loop delivered
  socket_write bytes s =
      if s.is_open
      then delivered env bytes s
          (last_loop (length bytes) (length bytes) s.calls (length bytes) (env.stale_int s.calls))
      else (if leb (length bytes) 0 then env.stale_int s.calls else negsuc 0, s)

  unfoldable pub write_request : Bytes → M Bool
  write_request line s =
      some (let (n, t) = string_write env line s in (eq_ℤ n (pos (length line)), t))

  unfoldable pub write_vector : Bytes → M Bool
  unfolding socket_write
  write_vector bytes s = some (let (n, t) = socket_write bytes s in (not (is_set n), t))

  -- The write of the vector and its reply, with the mutex held.
  unfoldable pub deliver : (ℤ → ℤ) → Bytes → M ℤ
  unfolding write_vector await_vector release
  deliver report bytes = do
    sent ← write_vector bytes
    if sent then await_vector report else release (negsuc 0)

  -- A request line in front of the vector.
  unfoldable pub announce : Bytes → M ℤ → M ℤ
  unfolding write_request release
  announce line next = do sent ← write_request line; if sent then next else release (negsuc 0)

  -- The part of PCR_SendFloatVector with the mutex. It returns 0 whatever the reply, and keeps the
  -- mutex if it does not know the name.
  unfoldable pub float_vector : Bytes → ℤ → Bytes → M ℤ
  unfolding announce deliver
  float_vector name vec_length bytes = do
    lock
    let send : M ℤ = deliver (λ _. pos 0) bytes
    if has_prefix name (codes "slope_offset_set")
        then announce (codes "slope_offset_set" ++ 10 ∷ []) send
        else if has_prefix name (codes "mod_offset_set")
        then announce (codes "mod_offset_set" ++ 10 ∷ []) send
        else if has_prefix name (codes "mod_rate_set")
        then announce (codes "mod_rate_set" ++ 10 ∷ [])
            (announce (print_int vec_length ++ 10 ∷ []) send)
        else pure (negsuc 0)

  -- The part of PCR_SendShortVector with the mutex.
  unfoldable pub short_vector : Bytes → Bytes → M ℤ
  unfolding announce deliver
  short_vector name bytes = do
    lock
    if has_prefix name (codes "cam_bg_set")
        then announce (codes "cam_bg_set" ++ 10 ∷ []) (deliver (λ status. status) bytes)
        else if has_prefix name (codes "cmd_offset_set")
        then announce (codes "cmd_offset_set" ++ 10 ∷ []) (deliver (λ status. status) bytes)
        else release (negsuc 0)

  -- The part of PCR_SendSlopeOffsets with the mutex.
  unfoldable pub slope_offsets : Bytes → M ℤ
  unfolding announce deliver
  slope_offsets bytes = do
    lock
    announce (codes "slope_offset_set" ++ 10 ∷ []) (deliver (λ status. status) bytes)
