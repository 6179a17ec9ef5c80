-- ===== src/DataServer/Info/Reports.antt =====
-- What the parameter server sends to a client: Info_SendAll, Info_SeeingPositions, Info_SendSeeing,
-- Info_SendHelp, and the lines of Info_SeeingArray. `none` is a write behind the end of `reply`, or an
-- access outside the list.
pub mod Laws
use mathlib.Core.Option
use mmtao_old.Base.{
  ℕ, suc, ◌==◌, ltb, Bool, true, false, Option, none, some, List, [], ◌∷◌, ◌++◌, map, if◌then◌else◌,
  length, get_elem?,
}
use mmtao_old.Base.Text.{Bytes, codes, print_int}
use mmtao_old.Base.Int.{ℤ, pos, negsuc}
use mmtao_old.Topbox.Link.{M, pure, gets, ◌>>=◌, Env, Float}
use mmtao_old.DataServer.Info.Parameters.{InfoEntry, find_parameter}
use mmtao_old.DataServer.Info.Ring.{InfoArray, Sample, rows}
use mmtao_old.DataServer.Pcr.Session.{line_length}
use mmtao_old.DataServer.Pcr.Vectors.{write_request}

-- The ints and floats of other threads that parameters point at, after so many calls.
pub record Cells : Type 0 where
  pub int_at : ℕ → ℕ → ℤ
  pub float_at : ℕ → ℕ → Float

abbrev pub name_and : InfoEntry → Bytes → Bytes
name_and e value = e.name ++ 32 ∷ (value ++ 10 ∷ [])

abbrev pub end_line : Bytes
end_line = codes "EOF" ++ 10 ∷ []

module _ (env : Env) (cells : Cells) where
  -- `%f` of a float
  abbrev pub print_float : Float → Bytes
  print_float value = env.floats.print_fixed 6 (env.floats.double_of_float value)

  -- The reply with a parameter; one of another type leaves the reply that was there.
  unfoldable pub entry_line : ℕ → Bytes → InfoEntry → Bytes
  unfolding print_int
  entry_line calls reply e = elim e.type [
    | [] ↦ reply
    | c ∷ _ ↦
        if c == b'i'
        then name_and e (print_int e.i_value)
        else if c == b'I'
        then name_and e (print_int (cells.int_at calls e.i_cell))
        else if c == b'f'
        then name_and e (print_float e.f_value)
        else if c == b'F'
        then name_and e (print_float (cells.float_at calls e.f_cell))
        else if c == b's'
        then name_and e e.s_value
        else reply
  ]

  -- sprintf into `reply`, and Socket_StringWrite with its check.
  unfoldable pub put_line : Bytes → M Bool
  put_line line s = if ltb (length line) line_length then write_request env line s else none

  -- 0, or -1 if the line was not taken in full.
  unfoldable pub put_end : M ℤ
  put_end = do sent ← put_line end_line; pure (if sent then pos 0 else negsuc 0)

  -- The loop of Info_SendAll.
  unfoldable pub send_entries : Bytes → List InfoEntry → M ℤ
  send_entries reply [] = put_end
  send_entries reply (e ∷ es) = do
    line ← gets λ s. entry_line s.calls reply e
    sent ← put_line line
    if sent then send_entries line es else pure (negsuc 0)

  unfoldable pub send_all : List InfoEntry → M ℤ
  send_all list = do reply ← gets λ s. env.stale_bytes s.calls; send_entries reply list

  -- The loop of Info_SendSeeing; a position of -1 is `none`.
  unfoldable pub send_places : List InfoEntry → Bytes → List (Option ℕ) → M ℤ
  send_places list reply [] = put_end
  send_places list reply (none ∷ places) = λ s. none
  send_places list reply (some i ∷ places) = elim (get_elem? list i) [
    | none ↦ λ s. none
    | some e ↦ do
      line ← gets λ s. entry_line s.calls reply e
      sent ← put_line line
      if sent then send_places list line places else pure (negsuc 0)
  ]

  unfoldable pub send_seeing : List InfoEntry → List (Option ℕ) → M ℤ
  send_seeing list places = do
    reply ← gets λ s. env.stale_bytes s.calls
    send_places list reply places

  -- The lines of Info_SeeingArray.
  unfoldable pub send_samples : List Sample → M ℤ
  send_samples [] = put_end
  send_samples (x ∷ xs) = do
    sent ← put_line (x.time ++ 32 ∷ (env.floats.print_fixed 6 x.value ++ 10 ∷ []))
    if sent then send_samples xs else pure (negsuc 0)

  unfoldable pub send_array : InfoArray → M ℤ
  send_array a = send_samples (rows a)

  unfoldable pub put_lines : List Bytes → M ℤ
  put_lines [] = pure (pos 0)
  put_lines (line ∷ lines) = do
    sent ← put_line line
    if sent then put_lines lines else pure (negsuc 0)

-- Seeing_List
abbrev pub seeing_list : List Bytes
seeing_list =
    codes "WFSC_Period"
    ∷ codes "WFSC_Frequency"
    ∷ codes "Seeing_Modulating"
    ∷ codes "Seeing_Mode_File"
    ∷ codes "Seeing_Total_Modes"
    ∷ codes "Seeing_Mode"
    ∷ codes "Seeing_Scale_Factor"
    ∷ codes "Seeing_Period"
    ∷ codes "Seeing_Frequency"
    ∷ codes "Seeing_Gain_Change"
    ∷ codes "Seeing_Value"
    ∷ codes "Science_Observing"
    ∷ codes "Background_Dynamic"
    ∷ codes "Background_Static"
    ∷ codes "Background_File"
    ∷ codes "Loop_Running"
    ∷ codes "Loop_Gain"
    ∷ codes "Loop_Save_Data"
    ∷ []

-- Info_SeeingPositions: the first entry whose name is a prefix, as in Info_FindParameter.
unfoldable pub seeing_positions : List InfoEntry → List (Option ℕ)
seeing_positions list = map (find_parameter list) seeing_list

-- Lines, each with its newline.
abbrev text : List Bytes → Bytes
text [] = []
text (line ∷ lines) = line ++ 10 ∷ text lines

-- The replies of Info_SendHelp.
unfoldable pub info_help : List Bytes
info_help =
    text (codes "Possible Info requests:" ∷ [])
    ∷ text (codes "  debug\\n" ∷ codes "    0/1\\n" ∷ [])
    ∷ text (codes "  set\\n" ∷ codes "    'parameter'\\n" ∷ codes "    'value'\\n" ∷ [])
    ∷ text (codes "  get\\n" ∷ codes "    'parameter'\\n" ∷ [])
    ∷ text (codes "      => returns 'parameter' 'value'\\n" ∷ [])
    ∷ text (codes "  all\\n" ∷ [])
    ∷ text (codes "      => returns 'parameter' 'value'\\n" ∷ [])
    ∷ text (codes "      =>         'parameter' 'value'\\n" ∷ [])
    ∷ text (codes "      =>         ...\\n" ∷ [])
    ∷ text (codes "      =>         EOF\\n" ∷ [])
    ∷ text (codes "  ?\\n -or- h\\n -or- help\\n" ∷ [])
    ∷ text (codes "      => returns this help menu" ∷ [])
    ∷ text (codes "  quit\\n" ∷ [])
    ∷ text (codes "      => closes this client connection (server continues running)" ∷ [])
    ∷ []
