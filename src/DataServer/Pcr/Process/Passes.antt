-- ===== src/DataServer/Pcr/Process/Passes.antt =====
-- The passes of PCR_Process.
use mathlib.Core.Option
use mmtao_old.DataServer.Pcr.Requests.{
  PcrRequest, help, cam_test, cam_image, cam_full, cam_bin, cam_bias_set, cam_rate_set, recon_set,
  cam_start, cam_stop, loop_close, loop_open, loop_gain, loop_pgain, loop_igain, loop_dgain,
  set_pid_off, set_pid_on, set_delta_gain, set_previous_gain, set_tap_gains_off, set_tap_gains_on,
  slope_offset_on, slope_offset_off, mod_offset_on, mod_offset_off, cam_bg_set, cam_bg_on,
  cam_bg_off, cam_dynamic_on, cam_dynamic_off, slope_offset_set, mod_offset_set, mod_rate_set,
  dm_cmd, connect, stop, reset, quit, exit,
}
use mmtao_old.Base.{
  ℕ, ◌≡◌, refl, true, arith, ltb, length, Option, none, some, leb, if◌then◌else◌, Option-cases, inl,
  inr, List,
}
use mmtao_old.Base.Text.{Bytes, codes}
use mmtao_old.Base.Int.{pos}
use mmtao_old.DataServer.Frames.Single.{lower_case}
use mmtao_old.DataServer.Pcr.Positions.{Positions, find_positions}
use mmtao_old.DataServer.Pcr.Process.{pcr_perform, answer_request, serve, parse_pcr_request}
use mmtao_old.DataServer.Pcr.Commands.{proceed, one_point_zero, ten_point_zero, nine_tenths}
use mmtao_old.DataServer.Pcr.Help.{help_lines, send_help}
use mmtao_old.DataServer.Pcr.Forward.{connect_port}
use mmtao_old.DataServer.Pcr.Server.{on_client, World, Server}
use mmtao_old.DataServer.Pcr.Session.Laws.{Returns, AnswersLines, string_read-loop}
use mmtao_old.DataServer.Pcr.Process.Serves.{
  send_help-Closes, rate_set-Keeps, tune-Keeps, save_data-Keeps, connect_port-Keeps,
  stop_port-Keeps, reset_port-Keeps, with_name-Keeps,
}
use mmtao_old.DataServer.Pcr.Process.Sound.{
  is_bounded, plain-Keeps, pcr_switch-Keeps, test_source-Keeps, image_source-Keeps, gain_is-Keeps,
  close_loop-Keeps, open_loop-Keeps, stop_camera-Keeps, PrintsShort,
}
use mmtao_old.DataServer.Pcr.Process.Steps.{
  done-Keeps, bind-Keeps, at_entry-Keeps, change-Keeps, on_client-Keeps, pcr_command-Keeps, Keeps,
  IsSound, unless-Keeps, string_loop-Closes, on_client-read, bind-some,
}
use mmtao_old.DataServer.Pcr.Session.{string_read, c_string, line_length}
use mmtao_old.DataServer.Pcr.Requests.Laws.{parse_pcr_request-short}
use mmtao_old.DataServer.Info.Parameters.{InfoEntry}
use mmtao_old.DataServer.Pcr.Positions.Laws.{find_positions-IsListed, IsListed}

-- The request that the next pass reads, if it reads one.
unfoldable pub request_of : Option Bytes → Option PcrRequest
request_of none = none
request_of (some line) = if leb (length line) 1 then none else parse_pcr_request (lower_case line)

abbrev pub awaited : Server → Option PcrRequest
awaited s = elim (string_read s.client) [ none ↦ none | some (line, _) ↦ request_of line ]

module _ (w : World) (p : Positions) (n : ℕ) (answers : AnswersLines w.cmd) (listed : IsListed p n)
    (short : PrintsShort w) where
  pcr_perform-Keeps :
      (r : PcrRequest) (text : Bytes)
      → is_bounded r ≡ true
      → ltb (length text) 119 ≡ true
      → Keeps n (pcr_perform w p r text)
  unfolding pcr_perform is_bounded
  pcr_perform-Keeps help text ok b =
      bind-Keeps n (on_client (send_help w.client help_lines)) _
        (on_client-Keeps n (send_help w.client help_lines) (send_help-Closes w.client help_lines))
        (λ _. done-Keeps n tt)
  pcr_perform-Keeps cam_test text ok b = test_source-Keeps w p n answers listed text b
  pcr_perform-Keeps cam_image text ok b = image_source-Keeps w p n answers listed text b
  pcr_perform-Keeps cam_full text ok b =
      pcr_command-Keeps w p answers n text proceed _ b (done-Keeps n tt)
        (at_entry-Keeps n p.size _ listed.size)
  pcr_perform-Keeps cam_bin text ok b =
      pcr_command-Keeps w p answers n text proceed _ b (done-Keeps n tt)
        (at_entry-Keeps n p.size _ listed.size)
  pcr_perform-Keeps cam_bias_set text ok b = absurd (ground arith)
  pcr_perform-Keeps cam_rate_set text ok b = rate_set-Keeps w p n answers listed
  pcr_perform-Keeps recon_set text ok b = absurd (ground arith)
  pcr_perform-Keeps cam_start text ok b =
      pcr_switch-Keeps w p n answers listed "wfsc_start" p.wfsc_running (pos 1) refl
        listed.wfsc_running
  pcr_perform-Keeps cam_stop text ok b = stop_camera-Keeps w p n answers listed
  pcr_perform-Keeps loop_close text ok b = close_loop-Keeps w p n answers listed text b
  pcr_perform-Keeps loop_open text ok b = open_loop-Keeps w p n answers listed text b
  pcr_perform-Keeps loop_gain text ok b =
      tune-Keeps w p n answers listed short "loop_gain " one_point_zero _ refl
        (gain_is-Keeps w p n answers listed)
  pcr_perform-Keeps loop_pgain text ok b =
      tune-Keeps w p n answers listed short "set_proportional_gain " ten_point_zero (λ _. proceed)
        refl (λ _. done-Keeps n tt)
  pcr_perform-Keeps loop_igain text ok b =
      tune-Keeps w p n answers listed short "set_integral_gain " ten_point_zero (λ _. proceed) refl
        (λ _. done-Keeps n tt)
  pcr_perform-Keeps loop_dgain text ok b =
      tune-Keeps w p n answers listed short "set_derivative_gain " ten_point_zero (λ _. proceed)
        refl (λ _. done-Keeps n tt)
  pcr_perform-Keeps set_pid_off text ok b =
      plain-Keeps w p n answers listed (codes "set_pid_off") refl
  pcr_perform-Keeps set_pid_on text ok b =
      plain-Keeps w p n answers listed (codes "set_pid_on") refl
  pcr_perform-Keeps set_delta_gain text ok b =
      tune-Keeps w p n answers listed short "set_delta_gain " nine_tenths (λ _. proceed) refl
        (λ _. done-Keeps n tt)
  pcr_perform-Keeps set_previous_gain text ok b =
      tune-Keeps w p n answers listed short "set_previous_gain " nine_tenths (λ _. proceed) refl
        (λ _. done-Keeps n tt)
  pcr_perform-Keeps set_tap_gains_off text ok b =
      plain-Keeps w p n answers listed (codes "set_tap_gains_off") refl
  pcr_perform-Keeps set_tap_gains_on text ok b =
      plain-Keeps w p n answers listed (codes "set_tap_gains_on") refl
  pcr_perform-Keeps slope_offset_on text ok b =
      plain-Keeps w p n answers listed (codes "slope_offset_on") refl
  pcr_perform-Keeps slope_offset_off text ok b =
      plain-Keeps w p n answers listed (codes "slope_offset_off") refl
  pcr_perform-Keeps mod_offset_on text ok b =
      plain-Keeps w p n answers listed (codes "mod_offset_on") refl
  pcr_perform-Keeps mod_offset_off text ok b =
      plain-Keeps w p n answers listed (codes "mod_offset_off") refl
  pcr_perform-Keeps cam_bg_set text ok b = absurd (ground arith)
  pcr_perform-Keeps cam_bg_on text ok b =
      pcr_switch-Keeps w p n answers listed "cam_bg_on" p.background_static (pos 1) refl
        listed.background_static
  pcr_perform-Keeps cam_bg_off text ok b =
      pcr_switch-Keeps w p n answers listed "cam_bg_off" p.background_static (pos 0) refl
        listed.background_static
  pcr_perform-Keeps cam_dynamic_on text ok b =
      pcr_switch-Keeps w p n answers listed "cam_dynamic_on" p.background_dynamic (pos 1) refl
        listed.background_dynamic
  pcr_perform-Keeps cam_dynamic_off text ok b =
      pcr_switch-Keeps w p n answers listed "cam_dynamic_off" p.background_dynamic (pos 0) refl
        listed.background_dynamic
  pcr_perform-Keeps slope_offset_set text ok b = absurd (ground arith)
  pcr_perform-Keeps mod_offset_set text ok b = absurd (ground arith)
  pcr_perform-Keeps mod_rate_set text ok b = absurd (ground arith)
  pcr_perform-Keeps dm_cmd text ok b = save_data-Keeps w p n answers listed
  pcr_perform-Keeps connect text ok b =
      with_name-Keeps w p n answers listed (connect_port w p)
        (connect_port-Keeps w p n answers listed)
  pcr_perform-Keeps stop text ok b =
      with_name-Keeps w p n answers listed _
        (λ port. stop_port-Keeps w p n answers listed (lower_case port))
  pcr_perform-Keeps reset text ok b =
      with_name-Keeps w p n answers listed _
        (λ port. reset_port-Keeps w p n answers listed (lower_case port))
  pcr_perform-Keeps quit text ok b =
      change-Keeps n _ (λ s h. record { client = h.client; cmd = h.cmd; size = h.size })
  pcr_perform-Keeps exit text ok b =
      change-Keeps n _ (λ s h. record { client = h.client; cmd = h.cmd; size = h.size })

  -- What a pass does with the line that it read.
  answer-Keeps :
      (line : Option Bytes)
      → ((r : PcrRequest) → request_of line ≡ some r → is_bounded r ≡ true)
      → Keeps n (answer_request w p line)
  unfolding answer_request request_of
  answer-Keeps none ok =
      change-Keeps n _ (λ s h. record { client = h.client; cmd = h.cmd; size = h.size })
  answer-Keeps (some request) ok =
      unless-Keeps n (leb (length request) 1) proceed _ (done-Keeps n tt) λ e.
        elim (Option-cases (parse_pcr_request (lower_case request))) [
          | inl f ↦ rw f (done-Keeps n tt)
          | inr (r, f) ↦ rw f (
              pcr_perform-Keeps r (lower_case request) (ok r (rw e f))
                (ground (arith, parse_pcr_request-short (lower_case request) r f)))
        ]

  serve-Keeps :
      (s : Server)
      → ((r : PcrRequest) → awaited s ≡ some r → is_bounded r ≡ true)
      → IsSound n s
      → Returns (IsSound n) (serve w p s)
  unfolding serve
  serve-Keeps s ok h =
      let (line, rest, loop, k) = string_loop-Closes line_length s.client.inbox h.client in
      let read = string_read-loop s.client line rest loop in
      rw
        (bind-some (on_client string_read) (answer_request w p) s _ _
          (on_client-read string_read s _ _ read))
        ((answer-Keeps (Option.map c_string line) (λ r q. ok r (rw (read, awaited) q))).at
          (record s { client = record s.client { inbox = rest } })
          (record { client = k; cmd = h.cmd; size = h.size }))

-- With the positions that PCR_Process found in its list at the start, and a reconstructor that answers
-- in whole lines, a pass of the loop returns, whatever connections are lost or replies fail to come:
-- PCR_CMD_Lock is free again, and the list has as many entries. This is for a client that hangs up in
-- the end, gains in range whose print is short, and every request but cam_bias_set, recon_set and the
-- four that pass on a vector.
pub serve-Returns :
    (w : World) (list : List InfoEntry) (p : Positions)
    → find_positions list ≡ some p
    → AnswersLines w.cmd
    → PrintsShort w
    → (s : Server) → ((r : PcrRequest) → awaited s ≡ some r → is_bounded r ≡ true)
    → IsSound (length list) s
    → Returns (IsSound (length list)) (serve w p s)
serve-Returns w list p found answers short =
    serve-Keeps w p (length list) answers (find_positions-IsListed list p found) short
