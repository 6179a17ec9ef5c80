-- ===== src/DataServer/Info/Table.antt =====
-- data_server/include/InfoList.h: the names and types of the parameters. The descriptions are left
-- out: no routine reads them.
use Prim.Native.String.{String}
use mmtao_old.Base.{
  List, [], ◌∷◌, map, ℕ, zero, suc, ◌+◌, ◌≡◌, refl, ap, ◌∙◌, Bool, true, false, ◌&&◌, none, some,
  arith, ◌==◌, get_elem?,
}
use mmtao_old.Base.Text.{Bytes, codes, has_prefix}
use mmtao_old.Base.Int.{pos}
use mmtao_old.DataServer.Info.Parameters.{InfoEntry, find_parameter}

abbrev row : String → String → Bytes × Bytes
row name type = (codes name, codes type)

unfoldable pub info_rows : List (Bytes × Bytes)
info_rows =
    row "MMTAO_Home" "s"
    ∷ row "CAAO_Home" "s"
    ∷ row "PCR_Home" "s"
    ∷ row "Setup_Dir" "s"
    ∷ row "PCR_Client_Running" "I"
    ∷ row "PCR_CMD_Connected" "I"
    ∷ row "PCR_CMD_Error" "I"
    ∷ row "PCR_WFSC_Connected" "I"
    ∷ row "PCR_WFSC_Error" "I"
    ∷ row "PCR_WFSC_Receiving_Data" "I"
    ∷ row "PCR_WFSC_Rate" "I"
    ∷ row "PCR_DDS_Connected" "I"
    ∷ row "PCR_DDS_Error" "I"
    ∷ row "PCR_DDS_Receiving_Data" "I"
    ∷ row "PCR_DDS_Rate" "I"
    ∷ row "PCR_ERROR_Connected" "I"
    ∷ row "PCR_ERROR_Error" "I"
    ∷ row "Recon_Name" "s"
    ∷ row "Recon_List" "s"
    ∷ row "DServ_WFSC_Running" "I"
    ∷ row "DServ_DDS_Running" "I"
    ∷ row "Info_Running" "I"
    ∷ row "WFSC_Initialized" "i"
    ∷ row "WFSC_Running" "i"
    ∷ row "WFSC_Period" "f"
    ∷ row "WFSC_Frequency" "i"
    ∷ row "WFSC_Size" "s"
    ∷ row "WFSC_Source" "s"
    ∷ row "WFSC_Bias_0" "i"
    ∷ row "WFSC_Bias_1" "i"
    ∷ row "WFSC_Bias_2" "i"
    ∷ row "WFSC_Bias_3" "i"
    ∷ row "WFSC_Maximum_Pixel" "s"
    ∷ row "WFSC_Average_Counts" "s"
    ∷ row "WFSC_Temp_1" "s"
    ∷ row "WFSC_Temp_2" "s"
    ∷ row "WFSC_Pupil_Tip" "s"
    ∷ row "WFSC_Pupil_Tilt" "s"
    ∷ row "WFSC_Tip" "s"
    ∷ row "WFSC_Tilt" "s"
    ∷ row "WFSC_Focus" "s"
    ∷ row "WFSC_Astig_0" "s"
    ∷ row "WFSC_Astig_45" "s"
    ∷ row "WFSC_Coma_X" "s"
    ∷ row "WFSC_Coma_Y" "s"
    ∷ row "WFSC_Trefoil_0" "s"
    ∷ row "WFSC_Trefoil_30" "s"
    ∷ row "WFSC_Spherical" "s"
    ∷ row "DM_Running" "s"
    ∷ row "DM_Tip" "s"
    ∷ row "DM_Tilt" "s"
    ∷ row "DM_Focus" "s"
    ∷ row "DM_Astig_0" "s"
    ∷ row "DM_Astig_45" "s"
    ∷ row "DM_Coma_X" "s"
    ∷ row "DM_Coma_Y" "s"
    ∷ row "DM_Trefoil_0" "s"
    ∷ row "DM_Trefoil_30" "s"
    ∷ row "DM_Spherical" "s"
    ∷ row "Static_Running" "i"
    ∷ row "Static_Astig_45" "i"
    ∷ row "Static_Astig_0" "i"
    ∷ row "Static_Coma_y" "i"
    ∷ row "Static_Coma_x" "i"
    ∷ row "Static_Trefoil_30" "i"
    ∷ row "Static_Trefoil_0" "i"
    ∷ row "Static_Spherical" "i"
    ∷ row "Modulation_Running" "i"
    ∷ row "Seeing_Running" "s"
    ∷ row "Seeing_Modulating" "s"
    ∷ row "Seeing_Mode_File" "s"
    ∷ row "Seeing_Total_Modes" "s"
    ∷ row "Seeing_Mode" "s"
    ∷ row "Seeing_Scale_Factor" "s"
    ∷ row "Seeing_Period" "s"
    ∷ row "Seeing_Frequency" "s"
    ∷ row "Seeing_Gain_Change" "s"
    ∷ row "Seeing_Value" "s"
    ∷ row "Strehl_Value" "s"
    ∷ row "Science_Observing" "s"
    ∷ row "Background_Dynamic" "i"
    ∷ row "Background_Static" "i"
    ∷ row "Background_File" "s"
    ∷ row "Loop_Running" "i"
    ∷ row "Loop_Gain" "f"
    ∷ row "Loop_Save_Data" "i"
    ∷ row "P_Gain" "f"
    ∷ row "I_Gain" "f"
    ∷ row "D_Gain" "f"
    ∷ row "Delta_gain" "f"
    ∷ row "Previous_gain" "f"
    ∷ []

-- An entry of the static array: what has no initialiser is zero.
abbrev blank_entry : Bytes × Bytes → InfoEntry
blank_entry (name, type) = record {
  name = name;
  type = type;
  i_value = pos 0;
  i_cell = 0;
  f_value = 0;
  f_cell = 0;
  s_value = [];
}

unfoldable pub info_list : List InfoEntry
unfolding info_rows
info_list = map blank_entry info_rows

-- Whether the rest of the list, from position `i` on, is found at its own positions.
own_positions : List InfoEntry → ℕ → List InfoEntry → Bool
own_positions whole i [] = true
own_positions whole i (e ∷ es) =
    elim (find_parameter whole e.name) [ none ↦ false | some k ↦ k == i ]
    && own_positions whole (suc i) es

own_positions_sound :
    (whole es : List InfoEntry) (i j : ℕ) (e : InfoEntry)
    → own_positions whole i es ≡ true
    → get_elem? es j ≡ some e
    → find_parameter whole e.name ≡ some (i + j)
unfolding own_positions
own_positions_sound whole [] i j e h at_j = absurd (ground arith)
own_positions_sound whole (x ∷ es) i zero e h at_j = ground arith
own_positions_sound whole (x ∷ es) i (suc j) e h at_j =
    ground (arith, own_positions_sound whole es (suc i) j e)

info_list_table : own_positions info_list 0 info_list ≡ true
unfolding own_positions info_list find_parameter has_prefix
info_list_table = refl

-- No name of the list hides another: a request for a parameter by its name finds that parameter,
-- although a name is only compared as a prefix of the request.
info_list_found :
    (j : ℕ) (e : InfoEntry)
    → get_elem? info_list j ≡ some e
    → find_parameter info_list e.name ≡ some j
info_list_found j e at_j =
    own_positions_sound info_list info_list 0 j e info_list_table at_j ∙ ap some (omega arith)
