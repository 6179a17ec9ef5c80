-- ===== src/DataServer/Pcr/Commands.antt =====
-- The branches of PCR_Process that send commands to the reconstructor, and what the parameters show
-- of them.
use Prim.Native.Nat.{ℕ}
use mmtao_old.Base.{
  suc, ◌+◌, ◌-◌, true, ◌||◌, Option, none, some, ◌∷◌, ◌++◌, ltb, leb, if◌then◌else◌, length,
  get_elem?,
}
use mmtao_old.Base.Text.{Bytes, codes, print_int, has_prefix, parse_int}
use mmtao_old.Base.Int.{is_set, ℤ, pos, negsuc}
use mmtao_old.Topbox.Link.{Float}
use mmtao_old.Topbox.Mvp.Queries.{flag}
use mmtao_old.DataServer.Info.Parameters.{InfoEntry}
use mmtao_old.DataServer.Pcr.Positions.{Positions}
use mmtao_old.DataServer.Pcr.Session.{string_read, send_cmd}
use mmtao_old.DataServer.Pcr.Server.{
  P, done, change, on_client, on_cmd, at_entry, set_int, set_float, set_text, Receiving, World,
  ◌>>=◌, ◌>>◌,
}
use Prim.Native.String.{String}

abbrev pub proceed : P (Unit {0})
proceed = done tt

unfoldable pub entry_at : ℕ → P InfoEntry
entry_at i s = elim (get_elem? s.list i) [ none ↦ none | some e ↦ some (e, s) ]

-- `List[base + shift]`, which C does not check.
unfoldable pub shifted : ℕ → ℤ → Option ℕ
shifted base (pos n) = some (base + n)
shifted base (negsuc n) = if ltb n base then some (base - suc n) else none

-- A line that a request has for a parameter. If it cannot be read the request is over.
unfoldable pub with_line : (Bytes → P (Unit {0})) → P (Unit {0})
unfolding on_client string_read
with_line f = do line ← on_client string_read; elim line [ none ↦ proceed | some text ↦ f text ]

-- The name of a port.
unfoldable pub with_name : (Bytes → P (Unit {0})) → P (Unit {0})
unfolding with_line
with_name f = with_line λ port. if leb (length port) 1 then proceed else f port

unfoldable pub start_thread : ℤ → Receiving → Receiving
start_thread flag t = if t.running then t else record t { running = true; continue_running = flag }

-- The bit patterns of doubles.
abbrev pub one_point_zero : Float
one_point_zero = 4607182418800017408

abbrev pub ten_point_zero : Float
ten_point_zero = 4621819117588971520

abbrev pub nine_tenths : Float
nine_tenths = 4606281698874543309

abbrev pub thousand : Float
thousand = 4652007308841189376

module _ (w : World) (p : Positions) where
  unfoldable pub pcr_send : Bytes → P ℤ
  unfolding on_cmd send_cmd
  pcr_send line = on_cmd (send_cmd w.cmd w.attempt line)

  -- A command to the reconstructor, and what follows its failure and its success.
  unfoldable pub pcr_command : Bytes → P (Unit {0}) → P (Unit {0}) → P (Unit {0})
  unfolding pcr_send
  pcr_command line failure success = do
    status ← pcr_send line
    if is_set status then failure else success

  -- A command that no parameter follows.
  unfoldable pub plain : Bytes → P (Unit {0})
  unfolding pcr_command
  plain line = pcr_command line proceed proceed

  -- A command whose parameter is set to a number.
  unfoldable pub pcr_switch : String → ℕ → ℤ → P (Unit {0})
  unfolding pcr_command at_entry
  pcr_switch word i value = pcr_command (codes word) proceed (at_entry i (set_int value))

  unfoldable pub bin : P (Unit {0})
  unfolding pcr_command at_entry
  bin = pcr_command (codes "cam_bin") proceed (at_entry p.size (set_text (codes "Bin")))

  unfoldable pub test_source : Bytes → P (Unit {0})
  unfolding pcr_command at_entry entry_at bin
  test_source request = pcr_command request (at_entry p.initialized (set_int (pos 0))) do
    at_entry p.source (set_text (codes "Test"))
    at_entry p.initialized (set_int (pos 1))
    e ← entry_at p.size
    if has_prefix e.s_value (codes "--") then bin else proceed

  -- The frequency, and the period in milliseconds.
  unfoldable pub set_rate : ℤ → P (Unit {0})
  unfolding at_entry
  set_rate rate = do
    at_entry p.frequency (set_int rate)
    at_entry p.period (
        set_float (
          w.floats.float_of_double
            (w.floats.div_double thousand (w.floats.double_of_float (w.floats.float_of_int rate)))))

  unfoldable pub image_source : Bytes → P (Unit {0})
  unfolding pcr_command at_entry entry_at bin set_rate
  image_source request = pcr_command request (at_entry p.initialized (set_int (pos 0))) do
    at_entry p.source (set_text (codes "Camera"))
    at_entry p.initialized (set_int (pos 1))
    e ← entry_at p.size
    if has_prefix e.s_value (codes "Full") || has_prefix e.s_value (codes "Bin")
        then proceed
        else do bin; pcr_command (codes "cam_rate_set 550") proceed (set_rate (pos 550))

  unfoldable pub bias_set : P (Unit {0})
  unfolding with_line pcr_command shifted at_entry
  bias_set = with_line λ quad. with_line λ value.
      pcr_command
        (codes "cam_offset_set " ++ print_int (parse_int quad) ++ 32 ∷ print_int (parse_int value))
        proceed
        (elim (shifted p.bias (parse_int quad)) [
          | none ↦ λ _. none
          | some i ↦ at_entry i (set_int (parse_int value))
        ])

  unfoldable pub rate_set : P (Unit {0})
  unfolding with_line pcr_command set_rate
  rate_set = with_line λ rate.
      pcr_command (codes "cam_rate_set " ++ print_int (parse_int rate)) proceed
        (set_rate (parse_int rate))

  unfoldable pub recon_mode : P (Unit {0})
  unfolding with_line pcr_command at_entry
  recon_mode = with_line λ name.
      pcr_command (codes "recon_mode " ++ name) proceed (at_entry p.recon_name (set_text name))

  unfoldable pub stop_camera : P (Unit {0})
  unfolding entry_at pcr_switch
  stop_camera = do
    e ← entry_at p.loop_running
    (if is_set e.i_value then pcr_switch "loop_open" p.loop_running (pos 0) else proceed)
    pcr_switch "wfsc_stop" p.wfsc_running (pos 0)
    change λ s. record s { wfsc_thread = record s.wfsc_thread { reset = true } }

  -- What the parameters show of a new gain.
  unfoldable pub gain_is : Float → P (Unit {0})
  unfolding at_entry
  gain_is gain = do at_entry p.gain (set_float gain); at_entry p.gain_change (set_text (codes "1"))

  unfoldable pub zero_gain : P (Unit {0})
  unfolding pcr_command gain_is
  zero_gain = pcr_command (codes "loop_gain 0.0") proceed (gain_is 0)

  unfoldable pub close_loop : Bytes → P (Unit {0})
  unfolding zero_gain pcr_command at_entry
  close_loop request = do
    zero_gain
    pcr_command request proceed (at_entry p.loop_running (set_int (pos 1)))

  unfoldable pub open_loop : Bytes → P (Unit {0})
  unfolding zero_gain pcr_command at_entry
  open_loop request = do
    pcr_command request proceed (do at_entry p.loop_running (set_int (pos 0)); zero_gain)
    change λ s. record s { dm_thread = record s.dm_thread { reset = true } }

  -- A gain from 0.0 to a limit, which is sent with three digits.
  unfoldable pub tune : String → Float → (Float → P (Unit {0})) → P (Unit {0})
  unfolding with_line pcr_command
  tune word limit follow = with_line λ text.
      let gain = w.floats.parse_float text in
      let value = w.floats.double_of_float gain in
      if w.less value 0 || w.less limit value
      then proceed
      else pcr_command (codes word ++ w.floats.print_fixed 3 value) proceed (follow gain)
