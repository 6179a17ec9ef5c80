-- ===== src/DataServer/Pcr/Process.antt =====
-- PCR_Process: a client's requests about the reconstructor, one after the other.
pub mod Steps
pub mod Sound
pub mod Serves
pub mod Passes
mod Tests
use mmtao_old.DataServer.Pcr.Requests.{PcrRequest, stop, reset, quit}
use mmtao_old.Base.{ℕ, zero, suc, false, none, some, leb, if◌then◌else◌, length, Option}
use mmtao_old.Base.Text.{Bytes, codes}
use mmtao_old.Base.Int.{pos}
use mmtao_old.Topbox.Link.{close_socket}
use mmtao_old.DataServer.Pcr.Requests.{
  connect, help, PcrRequest, cam_test, cam_image, cam_full, cam_bin, cam_bias_set, cam_rate_set,
  recon_set, cam_start, cam_stop, loop_close, loop_open, loop_gain, loop_pgain, loop_igain,
  loop_dgain, set_pid_off, set_pid_on, set_delta_gain, set_previous_gain, set_tap_gains_off,
  set_tap_gains_on, slope_offset_on, slope_offset_off, mod_offset_on, mod_offset_off, cam_bg_set,
  cam_bg_on, cam_bg_off, cam_dynamic_on, cam_dynamic_off, slope_offset_set, mod_offset_set,
  mod_rate_set, dm_cmd, exit, parse_pcr_request,
}
use mmtao_old.DataServer.Frames.Single.{lower_case}
use mmtao_old.DataServer.Pcr.Positions.{find_positions, Positions}
use mmtao_old.DataServer.Pcr.Session.{string_read}
use mmtao_old.DataServer.Pcr.Commands.{
  with_name, one_point_zero, ten_point_zero, nine_tenths, plain, pcr_switch, test_source,
  image_source, bias_set, rate_set, recon_mode, stop_camera, gain_is, close_loop, open_loop, tune,
  proceed, pcr_command,
}
use mmtao_old.DataServer.Pcr.Forward.{
  send_float_vector, send_short_vector, send_slope_offsets, save_data, connect_port, stop_port,
  reset_port,
}
use mmtao_old.DataServer.Pcr.Server.{P, change, on_client, at_entry, set_text, World, ◌>>=◌, ◌>>◌}
use mmtao_old.DataServer.Pcr.Help.{help_lines, send_help}

module _ (w : World) (p : Positions) where
  -- The branch of a request, which is the text in lower case.
  unfoldable pub pcr_perform : PcrRequest → Bytes → P (Unit {0})
  pcr_perform help text = do _ ← on_client (send_help w.client help_lines); proceed
  pcr_perform cam_test text = test_source w p text
  pcr_perform cam_image text = image_source w p text
  pcr_perform cam_full text =
      pcr_command w p text proceed (at_entry p.size (set_text (codes "Full")))
  pcr_perform cam_bin text = pcr_command w p text proceed (at_entry p.size (set_text (codes "Bin")))
  pcr_perform cam_bias_set text = bias_set w p
  pcr_perform cam_rate_set text = rate_set w p
  pcr_perform recon_set text = recon_mode w p
  pcr_perform cam_start text = pcr_switch w p "wfsc_start" p.wfsc_running (pos 1)
  pcr_perform cam_stop text = stop_camera w p
  pcr_perform loop_close text = close_loop w p text
  pcr_perform loop_open text = open_loop w p text
  pcr_perform loop_gain text = tune w p "loop_gain " one_point_zero (gain_is w p)
  pcr_perform loop_pgain text = tune w p "set_proportional_gain " ten_point_zero (λ _. proceed)
  pcr_perform loop_igain text = tune w p "set_integral_gain " ten_point_zero (λ _. proceed)
  pcr_perform loop_dgain text = tune w p "set_derivative_gain " ten_point_zero (λ _. proceed)
  pcr_perform set_pid_off text = plain w p (codes "set_pid_off")
  pcr_perform set_pid_on text = plain w p (codes "set_pid_on")
  pcr_perform set_delta_gain text = tune w p "set_delta_gain " nine_tenths (λ _. proceed)
  pcr_perform set_previous_gain text = tune w p "set_previous_gain " nine_tenths (λ _. proceed)
  pcr_perform set_tap_gains_off text = plain w p (codes "set_tap_gains_off")
  pcr_perform set_tap_gains_on text = plain w p (codes "set_tap_gains_on")
  pcr_perform slope_offset_on text = plain w p (codes "slope_offset_on")
  pcr_perform slope_offset_off text = plain w p (codes "slope_offset_off")
  pcr_perform mod_offset_on text = plain w p (codes "mod_offset_on")
  pcr_perform mod_offset_off text = plain w p (codes "mod_offset_off")
  pcr_perform cam_bg_set text = do
    _ ← send_short_vector w p "cam_bg_set"
    pcr_switch w p "cam_bg_on" p.background_static (pos 1)
  pcr_perform cam_bg_on text = pcr_switch w p "cam_bg_on" p.background_static (pos 1)
  pcr_perform cam_bg_off text = pcr_switch w p "cam_bg_off" p.background_static (pos 0)
  pcr_perform cam_dynamic_on text = pcr_switch w p "cam_dynamic_on" p.background_dynamic (pos 1)
  pcr_perform cam_dynamic_off text = pcr_switch w p "cam_dynamic_off" p.background_dynamic (pos 0)
  pcr_perform slope_offset_set text = do _ ← send_slope_offsets w p; proceed
  pcr_perform mod_offset_set text = do _ ← send_float_vector w p "mod_offset_set"; proceed
  pcr_perform mod_rate_set text = do _ ← send_float_vector w p "mod_rate_set"; proceed
  pcr_perform dm_cmd text = save_data w p
  pcr_perform connect text = with_name (connect_port w p)
  pcr_perform stop text = with_name λ port. stop_port w p (lower_case port)
  pcr_perform reset text = with_name λ port. reset_port w p (lower_case port)
  pcr_perform quit text = change λ s. record s { running = false }
  pcr_perform exit text = change λ s. record s { server_running = false }

  -- What a pass of the loop does with a request, `none` if it could not be read.
  unfoldable pub answer_request : Option Bytes → P (Unit {0})
  unfolding pcr_perform
  answer_request none = change λ s. record s { running = false }
  answer_request (some request) =
      if leb (length request) 1 then proceed else elim (parse_pcr_request (lower_case request)) [
        | none ↦ proceed
        | some r ↦ pcr_perform r (lower_case request)
      ]

  -- A pass of the loop.
  unfoldable pub serve : P (Unit {0})
  unfolding answer_request
  serve = on_client string_read >>= answer_request

  -- So many passes, fewer if the loop ends.
  unfoldable pub serve_all : ℕ → P (Unit {0})
  unfolding serve
  serve_all zero s = some (tt, s)
  serve_all (suc n) s = if s.running then (serve >> serve_all n) s else some (tt, s)

-- PCR_Process, over so many requests; it ends with the connection closed.
unfoldable pub pcr_process : World → ℕ → P (Unit {0})
unfolding serve_all find_positions close_socket
pcr_process w n s = elim (find_positions s.list) [
  | none ↦ some (tt, record s { client = close_socket s.client })
  | some p ↦ elim (serve_all w p n s) [
    | none ↦ none
    | some (_, t) ↦ some (tt, if t.running then t else record t { client = close_socket t.client })
  ]
]
