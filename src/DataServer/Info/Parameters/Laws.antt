-- ===== src/DataServer/Info/Parameters/Laws.antt =====
-- Which entry a request finds, and what a client can change.
use mmtao_old.Base.{
  ℕ, zero, suc, ◌≡◌, ◌↔◌, true, false, some, List, [], ◌∷◌, arith, get_elem?, Option, refl, ◌⊎◌,
  none, Bool-cases, Option-cases, ◌≢◌, inl, inr, ◌==◌, ==_iff, get_elem?-set_self, get_elem?-set_ne,
  get_elem?-lt,
}
use mmtao_old.Base.Text.{Bytes, has_prefix, codes}
use mmtao_old.DataServer.Info.Parameters.{
  find_parameter, InfoEntry, store_string, set_value, store_and_note, InfoState, Outside,
  note_value,
}

-- The name at `i` is a prefix of the request and no earlier name is.
abbrev IsFirst : List InfoEntry → Bytes → ℕ → Type 0
IsFirst [] request i = ⊥
IsFirst (e ∷ es) request zero = has_prefix request e.name ≡ true
IsFirst (e ∷ es) request (suc i) = (has_prefix request e.name ≡ false) × IsFirst es request i

found_later :
    (e : InfoEntry) (es : List InfoEntry) (request : Bytes) (i : ℕ)
    → (find_parameter es request ≡ some i → IsFirst es request i)
    → find_parameter (e ∷ es) request ≡ some (suc i)
    → (has_prefix request e.name ≡ false) × IsFirst es request i
unfolding find_parameter
found_later e es request i there h = ground (arith, there)

-- Info_FindParameter returns `i` exactly if the name at `i` is a prefix of the request and no
-- earlier name is.
find_parameter_iff :
    (es : List InfoEntry) (request : Bytes) (i : ℕ)
    → (find_parameter es request ≡ some i) ↔ IsFirst es request i
unfolding find_parameter
find_parameter_iff [] request i = (λ h. cc, λ h. absurd h)
find_parameter_iff (e ∷ es) request zero = (λ h. ground arith, λ h. rw h)
find_parameter_iff (e ∷ es) request (suc i) =
    let (there, back) = find_parameter_iff es request i in
    (λ h. found_later e es request i there h, λ h. rw (h.0, back h.1))

IsFirst-entry :
    (es : List InfoEntry) (request : Bytes) (i : ℕ)
    → IsFirst es request i
    → (e : InfoEntry) × (get_elem? es i ≡ some e)
IsFirst-entry [] request i h = absurd h
IsFirst-entry (e ∷ es) request zero h = (e, refl)
IsFirst-entry (e ∷ es) request (suc i) h = IsFirst-entry es request i h.1

-- What a "set" may do to the entry at `j`: nothing, or, if it is the string parameter that the
-- request found, give it the new value.
abbrev pub MayBecome : List InfoEntry → Bytes → Bytes → ℕ → InfoEntry → Option InfoEntry → Type 0
MayBecome list request value j e none = ⊥
MayBecome list request value j e (some e') =
    (e' ≡ e)
    ⊎ (IsFirst list request j)
      × (has_prefix (codes "s") e.type ≡ true)
      × (e' ≡ record e { s_value = value })

store_string-MayBecome :
    (list : List InfoEntry) (request value : Bytes) (i j : ℕ) (e : InfoEntry)
    → IsFirst list request i
    → get_elem? list j ≡ some e
    → MayBecome list request value j e (get_elem? (store_string value list i) j)
unfolding store_string
store_string-MayBecome list request value i j e first at_j = elim (Bool-cases (i == j)) [
  | inl same ↦
      let i_is_j = (==_iff i j).0 same in
      let at_i : get_elem? list i ≡ some e = rw i_is_j at_j in
      let inside = get_elem?-lt list i at_i in
      elim (Bool-cases (has_prefix (codes "s") e.type)) [
        | inl text ↦ rw (← i_is_j) (
            ground
              (arith, at_i, text, get_elem?-set_self list i (record e { s_value = value }) inside))
        | inr other ↦ rw (← i_is_j) (ground (arith, at_i, other))
      ]
  | inr differ ↦
      let i_ne_j : i ≢ j = ground arith in
      let (f, at_i) = IsFirst-entry list request i first in
      ground (
        arith,
        at_i,
        at_j,
        get_elem?-set_ne list {i = i} {j = j} (record f { s_value = value }) i_ne_j,
      )
]

note_value-list :
    (outside : Outside) (value : Bytes) (k : ℕ) (s t : InfoState)
    → note_value outside value k s ≡ some t
    → t.list ≡ s.list
unfolding note_value
note_value-list outside value k s t h = ground arith

set_value_stored :
    (outside : Outside) (request value : Bytes) (s t : InfoState)
    → set_value outside request value s ≡ some t
    → store_and_note outside request value s ≡ some t
unfolding set_value
set_value_stored outside request value s t done = ground (arith, done)

-- A "set" request never changes a parameter that is not a string, nor any but the one it names:
-- afterwards the entry at every place is as before, save that the string parameter which the
-- request finds holds the value.
pub set_value_frame :
    (outside : Outside) (request value : Bytes) (s t : InfoState) (j : ℕ) (e : InfoEntry)
    → set_value outside request value s ≡ some t
    → get_elem? s.list j ≡ some e
    → MayBecome s.list request value j e (get_elem? t.list j)
unfolding store_and_note
set_value_frame outside request value s t j e set at_j =
    let done = set_value_stored outside request value s t set in
    elim (Option-cases (find_parameter s.list request)) [
      | inl missing ↦
          let same =
            note_value-list outside value outside.stale_position s t
              (rw (missing, store_and_note) at done) in
          ground (arith, same, at_j)
      | inr (i, found) ↦
          let stored = note_value-list outside value i _ t (rw (found, store_and_note) at done) in
          rw stored (
            store_string-MayBecome s.list request value i j e
              ((find_parameter_iff s.list request i).0 found) at_j)
    ]
