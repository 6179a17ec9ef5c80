-- ===== src/Wish/PcrCmd/Tests.antt =====
-- PCR_Cmd and PCR_Process at concrete requests.
use mmtao_old.Base.{◌≡◌, refl, none, some, arith}
use mmtao_old.Base.Text.{codes, has_prefix}
use mmtao_old.DataServer.Pcr.Requests.{
  request_words, first_request, parse_pcr_request, PcrRequest, cam_bin,
}
use mmtao_old.Wish.PcrCmd.{
  first_words, setting_words, connect_words, camera_words, gain_words, pid_words, port_words,
  offset_words, client_words, first_word, typed,
}
use mmtao_old.Wish.PcrCmd.Agree.{Row, typed-parse_pcr_request}

typed-parse_pcr_request_example :
    (r : PcrRequest) × (parse_pcr_request (codes "loop_g") ≡ some r)
    × Row (codes "loop_gain") r request_words
unfolding client_words first_words setting_words connect_words camera_words gain_words pid_words
    port_words offset_words first_word has_prefix
typed-parse_pcr_request_example =
    typed-parse_pcr_request (codes "loop_g") (codes "loop_gain") 1 refl (λ e. ground (arith, e))

-- A request of PCR_Cmd that is abbreviated too far reaches another branch of PCR_Process.
cam_bi_mistaken :
    (first_word client_words (codes "cam_bi") ≡ some (codes "cam_bias_set", typed 2))
    × (parse_pcr_request (codes "cam_bi") ≡ some cam_bin)
unfolding client_words first_words setting_words connect_words camera_words gain_words pid_words
    port_words offset_words first_word has_prefix parse_pcr_request first_request request_words
cam_bi_mistaken = (refl, refl)

-- A camera parameter of PCR_Cmd reaches no branch of PCR_Process.
unknown_to_server :
    (parse_pcr_request (codes "cmd") ≡ none)
    × (parse_pcr_request (codes "user_gain 0.5") ≡ none)
    × (parse_pcr_request (codes "cam_temp_get") ≡ none)
    × (parse_pcr_request (codes "cam_bg_send") ≡ none)
    × (parse_pcr_request (codes "slope_offset_send") ≡ none)
    × (parse_pcr_request (codes "debug") ≡ none)
unfolding has_prefix parse_pcr_request first_request request_words
unknown_to_server = (refl, refl, refl, refl, refl, refl)
