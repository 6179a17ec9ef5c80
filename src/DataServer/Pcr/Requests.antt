-- ===== src/DataServer/Pcr/Requests.antt =====
-- The requests that PCR_Process knows. A request is compared over its own length: any beginning of a
-- word stands for it, and the first branch whose word it begins_word is taken.
pub mod Laws
use Prim.Native.String.{String}
use mmtao_old.Base.{Bool, Option, none, some, List, [], ◌∷◌, if◌then◌else◌}
use mmtao_old.Base.Text.{Bytes, codes, has_prefix}

pub data PcrRequest : Type 0 where
  help cam_test cam_image cam_full cam_bin cam_bias_set cam_rate_set recon_set : PcrRequest
  cam_start cam_stop loop_close loop_open loop_gain loop_pgain loop_igain loop_dgain : PcrRequest
  set_pid_off set_pid_on set_delta_gain set_previous_gain : PcrRequest
  set_tap_gains_off set_tap_gains_on : PcrRequest
  slope_offset_on slope_offset_off mod_offset_on mod_offset_off : PcrRequest
  cam_bg_set cam_bg_on cam_bg_off cam_dynamic_on cam_dynamic_off : PcrRequest
  slope_offset_set mod_offset_set mod_rate_set dm_cmd : PcrRequest
  connect stop reset quit exit : PcrRequest

abbrev option : String → PcrRequest → Bytes × PcrRequest
option word r = (codes word, r)

-- The words in the order of the else-if chain, behind those that ask for help.
unfoldable pub request_words : List (Bytes × PcrRequest)
request_words =
    option "?" help
    ∷ option "h" help
    ∷ option "help" help
    ∷ option "cam_test" cam_test
    ∷ option "cam_image" cam_image
    ∷ option "cam_full" cam_full
    ∷ option "cam_bin" cam_bin
    ∷ option "cam_bias_set" cam_bias_set
    ∷ option "cam_rate_set" cam_rate_set
    ∷ option "recon_set" recon_set
    ∷ option "cam_start" cam_start
    ∷ option "cam_stop" cam_stop
    ∷ option "loop_close" loop_close
    ∷ option "loop_open" loop_open
    ∷ option "loop_gain" loop_gain
    ∷ option "loop_pgain" loop_pgain
    ∷ option "loop_igain" loop_igain
    ∷ option "loop_dgain" loop_dgain
    ∷ option "set_pid_off" set_pid_off
    ∷ option "set_pid_on" set_pid_on
    ∷ option "set_delta_gain" set_delta_gain
    ∷ option "set_previous_gain" set_previous_gain
    ∷ option "set_tap_gains_off" set_tap_gains_off
    ∷ option "set_tap_gains_on" set_tap_gains_on
    ∷ option "slope_offset_on" slope_offset_on
    ∷ option "slope_offset_off" slope_offset_off
    ∷ option "mod_offset_on" mod_offset_on
    ∷ option "mod_offset_off" mod_offset_off
    ∷ option "cam_bg_set" cam_bg_set
    ∷ option "cam_bg_on" cam_bg_on
    ∷ option "cam_bg_off" cam_bg_off
    ∷ option "cam_dynamic_on" cam_dynamic_on
    ∷ option "cam_dynamic_off" cam_dynamic_off
    ∷ option "slope_offset_set" slope_offset_set
    ∷ option "mod_offset_set" mod_offset_set
    ∷ option "mod_rate_set" mod_rate_set
    ∷ option "dm_cmd" dm_cmd
    ∷ option "connect" connect
    ∷ option "stop" stop
    ∷ option "reset" reset
    ∷ option "quit" quit
    ∷ option "exit" exit
    ∷ []

-- `strncmp( request, word, strlen(request)) == 0`
abbrev pub begins_word : Bytes → Bytes → Bool
begins_word request word = has_prefix word request

unfoldable pub first_request : List (Bytes × PcrRequest) → Bytes → Option PcrRequest
first_request [] request = none
first_request ((word, r) ∷ rest) request =
    if begins_word request word then some r else first_request rest request

-- The else-if chain on a request in lower case; `none` is an unknown request.
unfoldable pub parse_pcr_request : Bytes → Option PcrRequest
unfolding first_request request_words
parse_pcr_request = first_request request_words
