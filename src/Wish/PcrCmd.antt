-- ===== src/Wish/PcrCmd.antt =====
-- wish/PCR/PCR_Cmd.c: the lines that the user's command about the reconstructor sends to PCR_Process.
pub mod Agree
mod Tests
use Prim.Native.Nat.{ℕ}
use mmtao_old.Base.{
  zero, suc, Bool, not, Option, none, some, List, [], ◌∷◌, ◌++◌, map, leb, if◌then◌else◌, length,
}
use mmtao_old.Base.Text.{Bytes, codes, has_prefix, contains}
use mmtao_old.DataServer.Pcr.Requests.{
  connect, begins_word, cam_bias_set, cam_rate_set, recon_set, loop_close, loop_open, loop_gain,
  loop_pgain, loop_igain, loop_dgain, set_pid_off, set_pid_on, set_delta_gain, set_previous_gain,
  set_tap_gains_off, set_tap_gains_on, slope_offset_on, slope_offset_off, mod_offset_on,
  mod_offset_off, dm_cmd,
}
use mmtao_old.Topbox.Stage.Process.{debug}
use mmtao_old.Topbox.Mvp.Queries.{flag}
use mmtao_old.DataServer.Frames.Single.{lower_case}

-- SERVER_LENGTH
abbrev server_length : ℕ
server_length = 80

-- What a branch sends.
pub data Saying : Type 0 where
  fixed : List Bytes → Saying
  typed : ℕ → Saying  -- the request as typed, and so many arguments
  debugging : Saying
  passed_on : Saying
  dm_line : Saying
  user_gain : Saying

-- The words of the else-if chain, in its order.
unfoldable pub first_words : List (Bytes × Saying)
first_words =
    (codes "pcr_connect", fixed [])
    ∷ (codes "debug", debugging)
    ∷ (codes "cmd", passed_on)
    ∷ (codes "dm_cmd", dm_line)
    ∷ (codes "user_gain", user_gain)
    ∷ (codes "cam_temp_get", fixed (codes "cam_temp_get" ∷ []))
    ∷ (codes "cam_bg_send", fixed (codes "cam_bg_send" ∷ []))
    ∷ (codes "slope_offset_send", fixed (codes "slope_offset_send" ∷ []))
    ∷ []

unfoldable pub setting_words : List (Bytes × Saying)
setting_words =
    (codes "cam_bias_set", typed 2)
    ∷ (codes "cam_rate_set", typed 1)
    ∷ (codes "recon_set", typed 1)
    ∷ []

unfoldable pub connect_words : List (Bytes × Saying)
connect_words =
    (codes "pcr_cmd_connect", fixed (codes "connect" ∷ codes "cmd" ∷ []))
    ∷ (codes "pcr_wfsc_connect", fixed (codes "connect" ∷ codes "wfsc" ∷ []))
    ∷ (codes "pcr_dds_connect", fixed (codes "connect" ∷ codes "dm" ∷ []))
    ∷ (codes "pcr_error_connect", fixed (codes "connect" ∷ codes "error" ∷ []))
    ∷ []

unfoldable pub camera_words : List (Bytes × Saying)
camera_words =
    (codes "camera_start", fixed (codes "Cam_Start" ∷ []))
    ∷ (codes "camera_stop", fixed (codes "Cam_Stop" ∷ []))
    ∷ (codes "loop_close", fixed (codes "Loop_Close" ∷ []))
    ∷ (codes "loop_open", fixed (codes "Loop_Open" ∷ []))
    ∷ []

unfoldable pub gain_words : List (Bytes × Saying)
gain_words =
    (codes "loop_gain", typed 1)
    ∷ (codes "loop_pgain", typed 1)
    ∷ (codes "loop_igain", typed 1)
    ∷ (codes "loop_dgain", typed 1)
    ∷ []

unfoldable pub pid_words : List (Bytes × Saying)
pid_words =
    (codes "set_pid_off", typed 0)
    ∷ (codes "set_pid_on", typed 0)
    ∷ (codes "set_delta_gain", typed 1)
    ∷ (codes "set_previous_gain", typed 1)
    ∷ (codes "set_tap_gains_off", typed 0)
    ∷ (codes "set_tap_gains_on", typed 0)
    ∷ []

unfoldable pub port_words : List (Bytes × Saying)
port_words =
    (codes "dm_stop", fixed (codes "stop" ∷ codes "dm" ∷ []))
    ∷ (codes "wfsc_reset", fixed (codes "reset" ∷ codes "wfsc" ∷ []))
    ∷ (codes "dm_reset", fixed (codes "reset" ∷ codes "dm" ∷ []))
    ∷ []

-- The last of these words closes the connection.
unfoldable pub offset_words : List (Bytes × Saying)
offset_words =
    (codes "slope_offset_on", typed 0)
    ∷ (codes "slope_offset_off", typed 0)
    ∷ (codes "mod_offset_on", typed 0)
    ∷ (codes "mod_offset_off", typed 0)
    ∷ (codes "close", fixed [])
    ∷ []

unfoldable pub client_words : List (Bytes × Saying)
unfolding first_words setting_words connect_words camera_words gain_words pid_words port_words
    offset_words
client_words =
    first_words
    ++ (setting_words
        ++ (connect_words
            ++ (camera_words ++ (gain_words ++ (pid_words ++ (port_words ++ (offset_words)))))))

-- The first branch whose word the request begins: its word, and what it sends.
unfoldable pub first_word : List (Bytes × Saying) → Bytes → Option (Bytes × Saying)
first_word [] request = none
first_word ((word, saying) ∷ rest) request =
    if begins_word request word then some (word, saying) else first_word rest request

-- The next argument, in a buffer of SERVER_LENGTH; `none` is an argument that is missing or too long.
unfoldable pub argument : List Bytes → Option Bytes
argument [] = none
argument (a ∷ rest) = if leb server_length (length a) then none else some a

-- The arguments as lines, as far as the program comes.
unfoldable pub arguments : ℕ → List Bytes → List (Option Bytes)
unfolding argument
arguments zero args = []
arguments (suc n) [] = none ∷ []
arguments (suc n) (a ∷ rest) = argument (a ∷ []) ∷ arguments n rest

-- "cmd": a request that is sent on, around one that stops the camera.
unfoldable pub pass_on : Bytes → List (Option Bytes)
unfolding lower_case
pass_on request =
    (if has_prefix (lower_case request) (codes "set_cam")
      then some (codes "cmd")
        ∷ some (codes "stop_WFSC")
        ∷ some (codes "reset")
        ∷ some (codes "wfsc")
        ∷ []
      else [])
    ++ some request
      ∷ (if begins_word (lower_case request) (codes "stop_wfsc")
          then some (codes "reset") ∷ some (codes "wfsc") ∷ []
          else [])

-- A text that is given to sprintf as its format.
unfoldable pub as_format : Bytes → Option Bytes
as_format text = if contains text (37 ∷ []) then none else some text

-- The lines of a branch in their order; at `none` the program reads or writes out of bounds.
unfoldable pub lines_of : Saying → Bytes → List Bytes → List (Option Bytes)
unfolding arguments argument pass_on as_format
lines_of (fixed lines) request args = map some lines
lines_of (typed n) request args = some request ∷ arguments n args
lines_of debugging request [] = some (codes "debug") ∷ none ∷ []
lines_of debugging request (type ∷ []) = some (codes "debug") ∷ none ∷ []
lines_of debugging request (type ∷ flag ∷ args) =
    some (codes "debug") ∷ (if leb server_length (length type) then none ∷ [] else [])
lines_of passed_on request args = elim (argument args) [ none ↦ none ∷ [] | some a ↦ pass_on a ]
lines_of dm_line request args =
    some (codes "dm_cmd") ∷ elim (argument args) [ none ↦ none | some a ↦ as_format a ] ∷ []
lines_of user_gain request args =
    some (codes "cmd")
    ∷ elim args [ [] ↦ none | a ∷ _ ↦ argument ((codes "user_gain " ++ a) ∷ []) ]
    ∷ []

-- TCL_OK, TCL_ERROR, the -1 for a short request, or a crash.
pub data TclEnd : Type 0 where
  tcl_ok tcl_error too_short crash : TclEnd

-- The lines, one by one, while PCR_Request succeeds; `budget` is how often it does.
unfoldable pub say : ℕ → List (Option Bytes) → List Bytes × TclEnd
say budget [] = ([], tcl_ok)
say budget (none ∷ lines) = ([], crash)
say zero (some line ∷ lines) = ([], tcl_error)
say (suc budget) (some line ∷ lines) = let (sent, e) = say budget lines in (line ∷ sent, e)

-- PCR_Cmd on its arguments: the lines that the server gets. `connects` is whether PCR_Connect
-- succeeds, where it is called.
unfoldable pub pcr_cmd : Bool → ℕ → List Bytes → List Bytes × TclEnd
unfolding say lines_of first_word client_words lower_case
pcr_cmd connects budget [] = ([], tcl_error)
pcr_cmd connects budget (name ∷ args) =
    if leb server_length (length name)
    then ([], crash)
    else if leb (length name) 1
    then ([], too_short)
    else if not connects
    then ([], tcl_error)
    else elim (first_word client_words (lower_case name)) [
      | none ↦ ([], tcl_error)
      | some (_, saying) ↦ say budget (lines_of saying (lower_case name) args)
    ]
