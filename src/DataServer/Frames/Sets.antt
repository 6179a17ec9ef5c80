-- ===== src/DataServer/Frames/Sets.antt =====
-- The data sets that a client asks for by name: the chains of `strstr` in DServ_GetSingle and
-- DServ_Stream.
use mmtao_old.DataServer.Frames.{Section, Layout}
use mmtao_old.Base.{
  ℕ, suc, ◌+◌, ◌≡◌, ◌≤◌, List, [], ◌∷◌, ◌++◌, if◌then◌else◌, length, arith, inl, inr, Bool-cases,
  length-append, true, refl,
}
use mmtao_old.Base.Text.{Bytes, codes, contains}
use Prim.Native.String.{String}
use mmtao_old.DataServer.Frames.Linked.{IsPacked}

-- `offset` and `bytes` up to `sets`, and `nBytes`.
pub record Selection : Type 0 where
  pub sets : List Section
  pub nbytes : ℕ

abbrev pub add_set : Section → Selection → Selection
add_set s sel = record { sets = sel.sets ++ s ∷ []; nbytes = sel.nbytes + s.bytes }

-- An `if` of the chain.
unfoldable pub when_named : Bytes → String → Section → Selection → Selection
when_named request name s sel = if contains request (codes name) then add_set s sel else sel

abbrev pub nothing_yet : Selection
nothing_yet = record { sets = []; nbytes = 0 }

-- The sets of the DM frames, in both routines.
unfoldable pub name_sets : Layout → Bytes → Selection → Selection
name_sets l request sel = when_named request "pos" l.pos (
    when_named request "cur" l.cur (
      when_named request "cmd" l.cmd
        (when_named request "rtr" l.rtr (when_named request "slope" l.slope sel))))

-- The last `if` of the chain.
unfoldable pub or_all : Layout → Bytes → Selection → Selection
or_all l request sel =
    if contains request (codes "all")
    then record { sets = l.all ∷ []; nbytes = l.all.bytes }
    else sel

-- The chain of DServ_GetSingle.
unfoldable pub single_sets : Layout → Bytes → Selection
single_sets l request =
    or_all l request (name_sets l request (when_named request "wfsc" l.wfsc nothing_yet))

-- The chain of DServ_Stream before "all": `wfsc` is the section of the WFSC ring, and "spots" stands
-- for that of the DM ring.
unfoldable pub stream_names : Layout → Section → Bytes → Selection
stream_names l wfsc request =
    name_sets l request
      (when_named request "spots" l.wfsc (when_named request "wfsc" wfsc nothing_yet))

unfoldable pub stream_sets : Layout → Section → Bytes → Selection
stream_sets l wfsc request = or_all l request (stream_names l wfsc request)

abbrev pub total_of : List Section → ℕ
total_of [] = 0
total_of (s ∷ ss) = s.bytes + total_of ss

-- The section lies behind the header and in the frame.
abbrev pub IsInside : Layout → Section → Type 0
IsInside l s = (l.header_bytes ≤ s.offset) × (s.offset + s.bytes ≤ l.total_bytes)

abbrev pub AllInside : Layout → List Section → Type 0
AllInside l [] = Unit {0}
AllInside l (s ∷ ss) = IsInside l s × AllInside l ss

-- What is announced is what the sets hold, at most `n` of them, and each lies in the frame.
pub record IsSound (n : ℕ) (l : Layout) (sel : Selection) : Type 0 where
  pub announced : sel.nbytes ≡ total_of sel.sets
  pub few : length sel.sets ≤ n
  pub inside : AllInside l sel.sets

pub total_of-append : (xs ys : List Section) → total_of (xs ++ ys) ≡ total_of xs + total_of ys
total_of-append [] ys = omega arith
total_of-append (s ∷ xs) ys = omega (arith, total_of-append xs ys)

AllInside-append :
    (l : Layout) (xs : List Section) (s : Section)
    → AllInside l xs
    → IsInside l s
    → AllInside l (xs ++ s ∷ [])
AllInside-append l [] s h k = (k, tt)
AllInside-append l (x ∷ xs) s h k = (h.0, AllInside-append l xs s h.1 k)

when_named-IsSound :
    (n : ℕ) (l : Layout) (request : Bytes) (name : String) (s : Section) (sel : Selection)
    → IsInside l s
    → IsSound n l sel
    → IsSound (suc n) l (when_named request name s sel)
unfolding when_named
when_named-IsSound n l request name s sel k h = elim (Bool-cases (contains request (codes name))) [
  | inl named ↦ rw named (record {
    announced = omega (arith, h.announced, total_of-append sel.sets (s ∷ []));
    few = omega (arith, h.few, length-append sel.sets (s ∷ []));
    inside = AllInside-append l sel.sets s h.inside k;
  })
  | inr absent ↦
      rw absent (record { announced = h.announced; few = omega (arith, h.few); inside = h.inside })
]

sections-IsInside :
    (l : Layout)
    → IsPacked l
    → IsInside l l.wfsc
      × IsInside l l.slope
      × IsInside l l.rtr
      × IsInside l l.cmd
      × IsInside l l.cur
      × IsInside l l.pos
sections-IsInside l packed =
    let wfsc = packed.wfsc in
    let slope = packed.slope in
    let rtr = packed.rtr in
    let cmd = packed.cmd in
    let cur = packed.cur in
    let pos = packed.pos in
    let end = packed.end in
    (
      (omega arith, omega arith),
      (omega arith, omega arith),
      (omega arith, omega arith),
      (omega arith, omega arith),
      (omega arith, omega arith),
      (omega arith, omega arith),
    )

module _ (l : Layout) (packed : IsPacked l) (request : Bytes) where
  name_sets-IsSound :
      (n : ℕ) (sel : Selection)
      → IsSound n l sel
      → IsSound (suc (suc (suc (suc (suc n))))) l (name_sets l request sel)
  unfolding name_sets
  name_sets-IsSound n sel h =
      let (wfsc, slope, rtr, cmd, cur, pos) = sections-IsInside l packed in
      when_named-IsSound _ l request "pos" l.pos _ pos (
        when_named-IsSound _ l request "cur" l.cur _ cur (
          when_named-IsSound _ l request "cmd" l.cmd _ cmd (
            when_named-IsSound _ l request "rtr" l.rtr _ rtr
              (when_named-IsSound n l request "slope" l.slope sel slope h))))

  or_all-IsSound :
      (n : ℕ) (sel : Selection) → 1 ≤ n → IsSound n l sel → IsSound n l (or_all l request sel)
  unfolding or_all
  or_all-IsSound n sel some_set h = elim (Bool-cases (contains request (codes "all"))) [
    | inl named ↦ rw named (record {
      announced = omega arith;
      few = some_set;
      inside = (
        (omega (arith, packed.all_offset), omega (arith, packed.all_offset, packed.all_bytes)),
        tt,
      );
    })
    | inr absent ↦ rw absent h
  ]

  -- Whatever a client asks of DServ_GetSingle, at most six sets are noted, the number of bytes that
  -- is announced is the number of bytes in them, and each of them lies behind the header and within
  -- the frame. The sections of the frame are taken to lie one behind the other.
  pub single_sets-IsSound : IsSound 6 l (single_sets l request)
  unfolding single_sets
  single_sets-IsSound = or_all-IsSound 6 _ (omega arith) (
      name_sets-IsSound 1 _ (
        when_named-IsSound 0 l request "wfsc" l.wfsc nothing_yet (sections-IsInside l packed).0
          (record { announced = refl; few = omega arith; inside = tt })))

-- DServ_Stream notes seven sets in arrays of six for a request that holds the names of all seven.
stream_names-overrun :
    (l : Layout) (wfsc : Section) (request : Bytes)
    → contains request (codes "wfsc") ≡ true
    → contains request (codes "spots") ≡ true
    → contains request (codes "slope") ≡ true
    → contains request (codes "rtr") ≡ true
    → contains request (codes "cmd") ≡ true
    → contains request (codes "cur") ≡ true
    → contains request (codes "pos") ≡ true
    → length (stream_names l wfsc request).sets ≡ 7
unfolding stream_names name_sets when_named
stream_names-overrun l wfsc request h1 h2 h3 h4 h5 h6 h7 = rw (h1, h2, h3, h4, h5, h6, h7) refl
