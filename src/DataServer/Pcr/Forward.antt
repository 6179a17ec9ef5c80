-- ===== src/DataServer/Pcr/Forward.antt =====
-- The branches of PCR_Process that pass a vector on, with the routines that send it, and those about
-- the other ports of the reconstructor.
use mathlib.Core.Option
use mmtao_old.Base.{ℕ, zero, suc, Bool, true, not, Option, none, some, List, [], ◌∷◌, if◌then◌else◌}
use mmtao_old.Base.Text.{Bytes, codes, parse_int}
use mmtao_old.Base.Int.{is_set, eq_ℤ, ℤ, pos, negsuc}
use mmtao_old.DataServer.Pcr.Positions.{Positions}
use mmtao_old.DataServer.Pcr.Vectors.{
  read_vector, read_length, float_vector, short_vector, slope_offsets,
}
use mmtao_old.DataServer.Pcr.Session.{string_read, ensure, send_no_reply}
use mmtao_old.DataServer.Pcr.Commands.{with_line, start_thread, proceed}
use mmtao_old.DataServer.Pcr.Server.{
  P, done, change, on_client, on_cmd, on_dm, on_error, at_entry, set_int, World, ◌>>=◌, ◌>>◌,
}
use Prim.Native.String.{String}
use mmtao_old.DataServer.Pcr.Requests.{begins_word}

module _ (w : World) (p : Positions) where
  unfoldable pub vector_length : P ℤ
  unfolding on_client read_length
  vector_length s = on_client (read_length (w.client.stale_bytes s.client.calls)) s

  unfoldable pub pcr_connected : P Bool
  unfolding on_cmd ensure
  pcr_connected = on_cmd (ensure w.cmd w.attempt)

  -- PCR_SendFloatVector
  unfoldable pub send_float_vector : String → P ℤ
  unfolding vector_length on_client read_vector pcr_connected on_cmd float_vector
  send_float_vector name = do
    n ← vector_length
    vector ← on_client (read_vector n 4)
    elim vector [
      | none ↦ done (negsuc 0)
      | some v ↦ do
        up ← pcr_connected
        if up then on_cmd (float_vector w.cmd (codes name) n v) else done (negsuc 0)
    ]

  -- PCR_SendShortVector
  unfoldable pub send_short_vector : String → P ℤ
  unfolding vector_length on_client read_vector pcr_connected on_cmd short_vector
  send_short_vector name = do
    n ← vector_length
    vector ← on_client (read_vector n 2)
    elim vector [
      | none ↦ done (negsuc 0)
      | some v ↦ if not (eq_ℤ n (pos 576)) then done (negsuc 0) else do
        up ← pcr_connected
        if up then on_cmd (short_vector w.cmd (codes name) v) else done (negsuc 0)
    ]

  -- The static modes that come before the slope offsets; `none` is a line that cannot be read.
  unfoldable pub read_modes : ℕ → P (Option (List ℤ))
  unfolding on_client string_read
  read_modes zero = done (some [])
  read_modes (suc n) = do
    line ← on_client string_read
    elim line [
      | none ↦ done none
      | some text ↦ do modes ← read_modes n; done (Option.map (λ ms. parse_int text ∷ ms) modes)
    ]

  unfoldable pub set_modes : ℕ → List ℤ → P (Unit {0})
  unfolding at_entry
  set_modes i [] = proceed
  set_modes i (m ∷ ms) = do at_entry i (set_int m); set_modes (suc i) ms

  -- PCR_SendSlopeOffsets
  unfoldable pub send_slope_offsets : P ℤ
  unfolding read_modes set_modes on_client read_vector pcr_connected on_cmd slope_offsets
  send_slope_offsets = do
    modes ← read_modes 7
    elim modes [
      | none ↦ done (negsuc 0)
      | some ms ↦ do
        vector ← on_client (read_vector (pos 288) 4)
        elim vector [
          | none ↦ done (negsuc 0)
          | some v ↦ do
            up ← pcr_connected
            if up
                then (do
                  status ← on_cmd (slope_offsets w.cmd v)
                  (if is_set status then proceed else set_modes p.static ms)
                  done status)
                else done (negsuc 0)
        ]
    ]

  unfoldable pub saving : Bytes → ℤ → P (Unit {0})
  unfolding on_dm send_no_reply at_entry
  saving line value = do
    status ← on_dm (send_no_reply w.dm w.attempt line)
    if is_set status then proceed else at_entry p.save_data (set_int value)

  -- The frames are to be saved or not: a line that begins_word one of two words, as it is written.
  unfoldable pub save_data : P (Unit {0})
  unfolding with_line saving
  save_data = with_line λ line.
      if begins_word line (codes "Save_Data_On")
      then saving line (pos 1)
      else if begins_word line (codes "Save_Data_Off")
      then saving line (pos 0)
      else proceed

  -- A thread counts as running once it is asked for, even if pthread_create fails.
  unfoldable pub connect_port : Bytes → P (Unit {0})
  unfolding on_cmd on_error ensure start_thread
  connect_port port =
      if begins_word port (codes "cmd")
      then (do _ ← on_cmd (ensure w.cmd w.attempt); proceed)
      else if begins_word port (codes "wfsc")
      then change (λ s. record s { wfsc_thread = start_thread (pos 2) s.wfsc_thread })
      else if begins_word port (codes "dm")
      then change (λ s. record s { dm_thread = start_thread (pos 1) s.dm_thread })
      else if begins_word port (codes "error")
      then (do _ ← on_error (ensure w.cmd w.attempt); proceed)
      else proceed

  unfoldable pub stop_port : Bytes → P (Unit {0})
  stop_port port =
      if begins_word port (codes "wfsc")
      then change
          (λ s. record s { wfsc_thread = record s.wfsc_thread { continue_running = pos 0 } })
      else if begins_word port (codes "dm")
      then change (λ s. record s { dm_thread = record s.dm_thread { continue_running = pos 0 } })
      else proceed

  unfoldable pub reset_port : Bytes → P (Unit {0})
  reset_port port =
      if begins_word port (codes "wfsc")
      then change (λ s. record s { wfsc_thread = record s.wfsc_thread { reset = true } })
      else if begins_word port (codes "dm")
      then change (λ s. record s { dm_thread = record s.dm_thread { reset = true } })
      else proceed
