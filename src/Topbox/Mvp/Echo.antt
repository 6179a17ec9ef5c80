-- ===== src/Topbox/Mvp/Echo.antt =====
-- A motor is started only with the distance that was asked for.
use mmtao_old.Topbox.Mvp.Moves
use Prim.Native.Nat.{ℕ}
use mmtao_old.Base.{
  ℕ, zero, suc, ◌+◌, ◌<◌, ◌≡◌, refl, Bool, true, false, ◌&&◌, List, [], ◌∷◌, ◌++◌, arith, ◌==◌,
  if◌then◌else◌, take, Bool-cases, inl, inr, Option, ◌≤◌, ◌⊎◌, none, some, length,
}
use mmtao_old.Base.Text.{Bytes, codes, print_int}
use mmtao_old.Base.Int.{is_set, ℤ, eq_ℤ, pos, negsuc}
use mmtao_old.Topbox.Link.{Env, Link, Float}
use mmtao_old.Topbox.Mvp.Wire.{mvp_write_step, mvp_read_step, scan_reply}
use mmtao_old.Topbox.Mvp.Wire.Laws.{write_sent, write-Short, write_frame, read_frame}
use mmtao_old.Topbox.Mvp.Moves.{counts_of}

equal : Bytes → Bytes → Bool
equal [] [] = true
equal (x ∷ xs) (y ∷ ys) = x == y && equal xs ys
equal _ _ = false

-- "0 M" and a carriage return.
abbrev start_line : Bytes
start_line = codes "0 M" ++ 13 ∷ []

-- How many start commands have gone out in full.
pub starts : List Bytes → ℕ
unfolding equal
starts [] = 0
starts (line ∷ rest) = (if equal start_line line then 1 else 0) + starts rest

starts-concat :
    (xs : List Bytes) (line : Bytes)
    → starts (xs ++ line ∷ []) ≡ starts xs + (if equal start_line line then 1 else 0)
unfolding starts
starts-concat [] line = omega arith
starts-concat (x ∷ xs) line = omega (arith, starts-concat xs line)

-- No part of a request that begins "0 L" is a start command.
not_start : (k : ℕ) (rest : Bytes) → equal start_line (take k (48 ∷ 32 ∷ 76 ∷ rest)) ≡ false
unfolding equal
not_start zero rest = refl
not_start (suc zero) rest = refl
not_start (suc (suc zero)) rest = refl
not_start (suc (suc (suc k))) rest = refl

not_start_whole : (rest : Bytes) → equal start_line (48 ∷ 32 ∷ 76 ∷ rest) ≡ false
unfolding equal
not_start_whole rest = refl

not_start_short : (k : ℕ) → k < 4 → equal start_line (take k start_line) ≡ false
unfolding equal
not_start_short zero h = refl
not_start_short (suc zero) h = refl
not_start_short (suc (suc zero)) h = refl
not_start_short (suc (suc (suc zero))) h = refl
not_start_short (suc (suc (suc (suc k)))) h = absurd (omega arith)

module _ (env : Env) where
  -- Sending a distance starts nothing, whatever of it goes out.
  distance_starts :
      (rest : Bytes) (s : Link)
      → starts (mvp_write_step env (48 ∷ 32 ∷ 76 ∷ rest) s).1.sent ≡ starts s.sent
  distance_starts rest s =
      elim (Bool-cases (is_set (mvp_write_step env (48 ∷ 32 ∷ 76 ∷ rest) s).0)) [
        | inl short ↦ elim (write-Short env (48 ∷ 32 ∷ 76 ∷ rest) s short) [
          | inl same ↦ rw same
          | inr (k, lt, e) ↦ ground (
            arith,
            e,
            starts-concat s.sent (take k (48 ∷ 32 ∷ 76 ∷ (rest ++ 13 ∷ []))),
            not_start k (rest ++ 13 ∷ []),
          )
        ]
        | inr whole ↦ ground (
          arith,
          write_sent env (48 ∷ 32 ∷ 76 ∷ rest) s whole,
          starts-concat s.sent (48 ∷ 32 ∷ 76 ∷ (rest ++ 13 ∷ [])),
          not_start_whole (rest ++ 13 ∷ []),
        )
      ]

  -- A start command starts the motor if it goes out in full, and not otherwise.
  start_starts :
      (s : Link)
      → starts (mvp_write_step env (codes "0 M") s).1.sent
        ≡ starts s.sent + (if is_set (mvp_write_step env (codes "0 M") s).0 then 0 else 1)
  unfolding equal
  start_starts s = elim (Bool-cases (is_set (mvp_write_step env (codes "0 M") s).0)) [
    | inl short ↦ elim (write-Short env (codes "0 M") s short) [
      | inl same ↦ rw (short, same) (omega arith)
      | inr (k, lt, e) ↦
          ground (arith, short, e, starts-concat s.sent (take k start_line), not_start_short k lt)
    ]
    | inr whole ↦
        ground (arith, write_sent env (codes "0 M") s whole, starts-concat s.sent start_line)
  ]

  -- The state in which a move looks at the echo: behind both writes and the read.
  abbrev pub echo_of : Bytes → ℤ → Link → (ℤ × Bytes) × Link
  echo_of axis value s =
      mvp_read_step env
        (mvp_write_step env axis
          (mvp_write_step env (axis ++ 32 ∷ print_int value) (record s { locked = true })).1).1

  -- The controller was sent the distance and has read back the same number of counts.
  abbrev pub IsEchoed : Bytes → ℤ → Link → Type 0
  IsEchoed axis value s =
      let ((status, reply), t) = echo_of axis value s in
      (status ≡ pos 0) × (12 ≤ length reply) × (eq_ℤ value (scan_reply env reply t) ≡ true)

  -- A move ends in one of two ways.
  abbrev pub StartsIf : Type 0 → Link → Option (ℤ × Link) → Type 0
  StartsIf Echoed s none = ⊥
  StartsIf Echoed s (some (status, t)) =
      (status ≡ pos 0) × (starts t.sent ≡ suc (starts s.sent)) × Echoed
      ⊎ (status ≡ negsuc 0) × (starts t.sent ≡ starts s.sent)

  move_absolute-StartsIf :
      (s : Link) (d : Float)
      → s.locked ≡ false
      → StartsIf (IsEchoed (codes "0 LA") (counts_of env d s) s) s (Moves.move_absolute env d s)
  unfolding Moves.move_absolute
  move_absolute-StartsIf s d free =
      let v = counts_of env d s in
      let held = record s { locked = true } in
      let first = (mvp_write_step env (codes "0 LA " ++ print_int v) held).1 in
      let second = (mvp_write_step env (codes "0 LA") first).1 in
      let read = (mvp_read_step env second).1 in
      ground (
        arith,
        distance_starts (65 ∷ 32 ∷ print_int v) held,
        distance_starts (65 ∷ []) first,
        start_starts read,
        write_frame env (codes "0 LA " ++ print_int v) held,
        write_frame env (codes "0 LA") first,
        read_frame env second,
        write_frame env (codes "0 M") read,
      )

  move_relative-StartsIf :
      (s : Link) (d : Float)
      → s.locked ≡ false
      → StartsIf (IsEchoed (codes "0 LR") (counts_of env d s) s) s (Moves.move_relative env d s)
  unfolding Moves.move_relative
  move_relative-StartsIf s d free =
      let v = counts_of env d s in
      let held = record s { locked = true } in
      let first = (mvp_write_step env (codes "0 LR " ++ print_int v) held).1 in
      let second = (mvp_write_step env (codes "0 LR") first).1 in
      let read = (mvp_read_step env second).1 in
      ground (
        arith,
        distance_starts (82 ∷ 32 ∷ print_int v) held,
        distance_starts (82 ∷ []) first,
        start_starts read,
        write_frame env (codes "0 LR " ++ print_int v) held,
        write_frame env (codes "0 LR") first,
        read_frame env second,
        write_frame env (codes "0 M") read,
      )

  -- A move, absolute or relative, that is called with the mutex free either returns 0 and sends the
  -- start command once, or returns -1 and sends no start command. It starts the motor only if
  -- MVP_Read succeeded behind its two requests and what that made of its buffer has twelve
  -- characters at least and is read as the counts that were asked for; where it is not a number,
  -- the uninitialised variable that it was to be read into happened to hold them.
  pub moves-StartsIf :
      (s : Link) (d : Float)
      → s.locked ≡ false
      → StartsIf (IsEchoed (codes "0 LA") (counts_of env d s) s) s (Moves.move_absolute env d s)
        × StartsIf (IsEchoed (codes "0 LR") (counts_of env d s) s) s (Moves.move_relative env d s)
  moves-StartsIf s d free = (move_absolute-StartsIf s d free, move_relative-StartsIf s d free)
