-- ===== src/DataServer/Pcr/FindSof.antt =====
-- data_server/PCR/PCR_FindSOF.c: the search for the letters "SOF" that begin a frame.
use Prim.Native.Nat.{ℕ}
use mmtao_old.Base.{
  ℕ, zero, suc, ◌+◌, ◌≡◌, refl, ◌∙◌, ◌≢◌, true, false, Option, none, some, [], ◌∷◌, ◌++◌, arith,
  ◌==◌, if◌then◌else◌, replicate,
}
use mmtao_old.Base.Text.{Bytes}

-- The letter that the next byte is read for.
pub data Phase : Type 0 where
  seeking second : Phase
  third : ℕ → Phase

-- The last three bytes that were read, the place of the last one in `reply`, and the input behind it.
pub record Sof : Type 0 where
  pub letters : Bytes
  pub last : ℕ
  pub rest : Bytes

-- The bytes are read one by one; `none` is the end of the input. `first` is what `reply[0]` holds
-- and `index` the place in `reply` that is read into.
unfoldable pub scan : Phase → ℕ → ℕ → Bytes → Option Sof
scan phase first index [] = none
scan seeking first index (c ∷ cs) =
    let first' = if index == 0 then c else first in
    elim (c == b'S') [
      | true ↦ scan second first' (index + 1) cs
      | false ↦ scan seeking first' index cs
    ]
scan second first index (c ∷ cs) = elim (c == b'S') [
  | true ↦ scan second first (index + 1) cs
  | false ↦ scan (third c) first (index + 1) cs
]
scan (third b) first index (c ∷ cs) = elim (first == b'F') [
  | true ↦ elim (c == b'S') [
    | true ↦ scan second first (index + 1) cs
    | false ↦ scan seeking first index cs
  ]
  | false ↦ some (record { letters = b'S' ∷ b ∷ c ∷ []; last = index; rest = cs })
]

-- PCR_FindSOF on what the socket gives; `none` is -1.
unfoldable pub find_sof : Bytes → Option Sof
unfolding scan
find_sof = scan seeking 0 0

-- No byte is an S.
abbrev pub HasNoS : Bytes → Type 0
HasNoS [] = Unit {0}
HasNoS (c ∷ cs) = (c ≢ b'S') × HasNoS cs

scan-noise :
    (noise : Bytes) (first : ℕ) (more : Bytes)
    → HasNoS noise
    → scan seeking first 0 (noise ++ b'S' ∷ more) ≡ scan second b'S' 1 more
unfolding scan
scan-noise [] first more h = refl
scan-noise (c ∷ cs) first more h = ground (arith, scan-noise cs c more h.1)

scan-run :
    (n index x y : ℕ) (rest : Bytes)
    → x ≢ b'S'
    → scan second b'S' index (replicate n b'S' ++ x ∷ y ∷ rest)
      ≡ some (record { letters = b'S' ∷ x ∷ y ∷ []; last = index + n + 1; rest = rest })
unfolding scan
scan-run zero index x y rest h = ground arith
scan-run (suc n) index x y rest h = ground (arith, scan-run n (index + 1) x y rest h)

-- The search stops behind the first S that is followed by another letter and one byte more, and
-- takes the three bytes for the start of a frame whatever the other two are. Each S of a run is
-- stored in the next place of `reply`, so that with 119 of them the last byte lies outside it.
pub find_sof_accepts :
    (noise : Bytes) (n x y : ℕ) (rest : Bytes)
    → HasNoS noise
    → x ≢ b'S'
    → find_sof (noise ++ b'S' ∷ (replicate n b'S' ++ x ∷ y ∷ rest))
      ≡ some (record { letters = b'S' ∷ x ∷ y ∷ []; last = n + 2; rest = rest })
unfolding find_sof
find_sof_accepts noise n x y rest h k =
    scan-noise noise 0 (replicate n b'S' ++ x ∷ y ∷ rest) h ∙ scan-run n 1 x y rest k ∙ ground arith
