-- ===== src/DataServer/Info/Parameters.antt =====
-- The parameter list: Info_FindParameter, and Info_SetParameter, by which clients change parameters.
pub mod Laws
use mathlib.Core.Option
use mathlib.Core.Option.{Option}
use mmtao_old.Base.{
  ℕ, suc, ◌+◌, ◌||◌, Option, none, some, List, [], ◌∷◌, ◌==◌, if◌then◌else◌, get_elem?, set, length,
  ltb,
}
use mmtao_old.Base.Text.{Bytes, codes, has_prefix}
use mmtao_old.Base.Int.{ℤ, pos, negsuc}
use mmtao_old.DataServer.Info.Ring.{Double, add_sample, InfoArray, Sample}

-- An int or float that a parameter points at is named by the number of its cell.
pub record InfoEntry : Type 0 where
  pub name : Bytes
  pub type : Bytes
  pub i_value : ℤ
  pub i_cell : ℕ
  pub f_value : Double
  pub f_cell : ℕ
  pub s_value : Bytes

-- Info_FindParameter: the first entry whose name is a prefix of the request. `none` is -1, after
-- which `*position` has not been written.
unfoldable pub find_parameter : List InfoEntry → Bytes → Option ℕ
find_parameter [] request = none
find_parameter (e ∷ es) request =
    if has_prefix request e.name then some 0 else Option.map suc (find_parameter es request)

-- Socket_StringTrim cuts at the first newline, form feed or carriage return.
unfoldable pub string_trim : Bytes → Bytes
string_trim [] = []
string_trim (c ∷ cs) = if c == 10 || c == 12 || c == 13 then [] else c ∷ string_trim cs

pub record InfoState : Type 0 where
  pub list : List InfoEntry
  pub seeing : InfoArray
  pub strehl : InfoArray

-- What is not the program's: `atof`, the clock, and the value of the uninitialised `position`.
pub record Outside : Type 0 where
  pub parse_double : Bytes → Double
  pub time_string : Bytes
  pub stale_position : ℕ

-- `strcpy(List[position].s_value, value)`, for string parameters alone.
unfoldable pub store_string : Bytes → List InfoEntry → ℕ → List InfoEntry
store_string value list position = elim (get_elem? list position) [
  | none ↦ list
  | some e ↦
      if has_prefix (codes "s") e.type
      then set list position (record e { s_value = value })
      else list
]

-- The length of the text that Info_SetParameter puts into `reply`.
unfoldable pub reply_length : Bytes → Bytes → List InfoEntry → Option ℕ → ℕ
reply_length request value list none =
    length (codes "Error: Parameter ")
    + length request
    + length (codes " not found in parameter list")
    + 1
reply_length request value list (some i) = elim (get_elem? list i) [
  | none ↦ 0
  | some e ↦
      if has_prefix (codes "s") e.type
      then length e.name + 1 + length value + 1
      else length (codes "Error: Clients are not allowed to set ")
        + length e.name
        + length (codes " parameter")
        + 1
]

module _ (outside : Outside) where
  -- Behind the setting: the entry at `position` decides whether a circular array grows. There need
  -- not be one where `position` was never written; `none` is such a read outside the list.
  unfoldable pub note_value : Bytes → ℕ → InfoState → Option InfoState
  note_value value position s =
      let x : Sample = record { time = outside.time_string; value = outside.parse_double value } in
      elim (get_elem? s.list position) [
        | none ↦ none
        | some e ↦
            if has_prefix (codes "Seeing_Value") e.name
            then some (record s { seeing = add_sample x s.seeing })
            else if has_prefix (codes "Strehl_Value") e.name
            then some (record s { strehl = add_sample x s.strehl })
            else some s
      ]

  -- What is set, behind the two reads.
  unfoldable pub store_and_note : Bytes → Bytes → InfoState → Option InfoState
  unfolding store_string note_value find_parameter
  store_and_note request value s = elim (find_parameter s.list request) [
    | none ↦ note_value value outside.stale_position s
    | some i ↦ note_value value i (record s { list = store_string value s.list i })
  ]

  -- The part of Info_SetParameter behind the two reads; `none` is also a write behind `reply`.
  unfoldable pub set_value : Bytes → Bytes → InfoState → Option InfoState
  unfolding reply_length store_and_note find_parameter
  set_value request value s =
      if ltb (reply_length request value s.list (find_parameter s.list request)) 120
      then store_and_note request value s
      else none

  -- Info_SetParameter on what Socket_StringRead gives for the name and the value.
  unfoldable pub set_parameter : Option Bytes → Option Bytes → InfoState → Option (ℤ × InfoState)
  unfolding set_value string_trim
  set_parameter none value s = some (negsuc 0, s)
  set_parameter (some request) none s = some (negsuc 0, s)
  set_parameter (some request) (some value) s =
      Option.map (λ t. (pos 0, t)) (set_value (string_trim request) (string_trim value) s)
