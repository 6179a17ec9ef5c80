-- ===== src/DataServer/Pcr/Process/Sound.antt =====
-- PCR_Process returns from requests, with its connections and its list in order.
use mmtao_old.Base.{ℕ, ◌<◌, ◌≡◌, Bool, true, false, length, ltb, refl}
use mmtao_old.Base.Text.{Bytes, codes}
use mmtao_old.Base.Int.{ℤ}
use mmtao_old.Topbox.Link.{Float}
use mmtao_old.DataServer.Pcr.Positions.{Positions}
use mmtao_old.DataServer.Pcr.Requests.{
  PcrRequest, cam_bias_set, recon_set, cam_bg_set, slope_offset_set, mod_offset_set, mod_rate_set,
}
use mmtao_old.DataServer.Pcr.Commands.{
  plain, pcr_switch, bin, test_source, set_rate, image_source, gain_is, zero_gain, close_loop,
  open_loop, stop_camera,
}
use mmtao_old.DataServer.Pcr.Server.{World, change}
use mmtao_old.DataServer.Pcr.Session.Laws.{AnswersLines}
use mmtao_old.DataServer.Pcr.Process.Steps.{Keeps, keeps_rules}
use Prim.Native.String.{String}
use mmtao_old.DataServer.Pcr.Positions.Laws.{IsListed}

-- A gain in range, or one that is not a number, takes few bytes in print.
pub record PrintsShort (w : World) : Type 0 where
  pub at :
      (limit value : Float)
      → w.less value 0 ≡ false
      → w.less limit value ≡ false
      → length (w.floats.print_fixed 3 value) < 60

-- The requests whose parameters the code neither checks nor bounds.
unfoldable pub is_bounded : PcrRequest → Bool
is_bounded cam_bias_set = false
is_bounded recon_set = false
is_bounded cam_bg_set = false
is_bounded slope_offset_set = false
is_bounded mod_offset_set = false
is_bounded mod_rate_set = false
is_bounded _ = true

module _ (w : World) (p : Positions) (n : ℕ) (answers : AnswersLines w.cmd)
    (listed : IsListed p n) where
  pub plain-Keeps : (line : Bytes) → ltb (length line) 119 ≡ true → Keeps n (plain w p line)
  unfolding plain
  plain-Keeps line b = search (keeps_rules, b)

  pub pcr_switch-Keeps :
      (word : String) (i : ℕ) (value : ℤ)
      → ltb (length (codes word)) 119 ≡ true
      → i < n
      → Keeps n (pcr_switch w p word i value)
  unfolding pcr_switch
  pcr_switch-Keeps word i value b l = search (keeps_rules, answers, b, l)

  pub bin-Keeps : Keeps n (bin w p)
  unfolding bin
  bin-Keeps = search (keeps_rules, refl, answers, listed.size)

  pub test_source-Keeps :
      (request : Bytes) → ltb (length request) 119 ≡ true → Keeps n (test_source w p request)
  unfolding test_source
  test_source-Keeps request b =
      search (keeps_rules, bin-Keeps, answers, listed.size, listed.source, listed.initialized, b)
        depth 12

  pub set_rate-Keeps : (rate : ℤ) → Keeps n (set_rate w p rate)
  unfolding set_rate
  set_rate-Keeps rate = search (keeps_rules, listed.frequency, listed.period)

  pub image_source-Keeps :
      (request : Bytes) → ltb (length request) 119 ≡ true → Keeps n (image_source w p request)
  unfolding image_source
  image_source-Keeps request b =
      search
        (
          keeps_rules, bin-Keeps, set_rate-Keeps, answers, listed.size, listed.source,
          listed.initialized, b, refl,
        )
        depth 14

  pub gain_is-Keeps : (gain : Float) → Keeps n (gain_is w p gain)
  unfolding gain_is
  gain_is-Keeps gain = search (keeps_rules, listed.gain, listed.gain_change)

  pub zero_gain-Keeps : Keeps n (zero_gain w p)
  unfolding zero_gain
  zero_gain-Keeps = search (keeps_rules, gain_is-Keeps, answers, refl)

  pub close_loop-Keeps :
      (request : Bytes) → ltb (length request) 119 ≡ true → Keeps n (close_loop w p request)
  unfolding close_loop
  close_loop-Keeps request b =
      search (keeps_rules, zero_gain-Keeps, answers, listed.loop_running, b)

  pub reset_wfsc-Keeps :
      Keeps n (change λ s. record s { wfsc_thread = record s.wfsc_thread { reset = true } })
  reset_wfsc-Keeps = record { at = λ s h. record { client = h.client; cmd = h.cmd; size = h.size } }

  pub reset_dm-Keeps :
      Keeps n (change λ s. record s { dm_thread = record s.dm_thread { reset = true } })
  reset_dm-Keeps = record { at = λ s h. record { client = h.client; cmd = h.cmd; size = h.size } }

  pub open_loop-Keeps :
      (request : Bytes) → ltb (length request) 119 ≡ true → Keeps n (open_loop w p request)
  unfolding open_loop
  open_loop-Keeps request b =
      search (keeps_rules, zero_gain-Keeps, reset_dm-Keeps, answers, listed.loop_running, b)

  pub stop_camera-Keeps : Keeps n (stop_camera w p)
  unfolding stop_camera
  stop_camera-Keeps = search (
    keeps_rules, pcr_switch-Keeps, reset_wfsc-Keeps, listed.loop_running, listed.wfsc_running, refl,
  )
