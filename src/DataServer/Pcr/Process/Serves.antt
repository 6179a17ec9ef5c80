-- ===== src/DataServer/Pcr/Process/Serves.antt =====
-- PCR_Process returns from the requests that have a line for a parameter.
use mmtao_old.Base.{
  ℕ, ◌≡◌, true, ◌||◌, ◌++◌, arith, ltb, length, length-append, List, [], ◌∷◌, leb, inl, inr,
  Bool-cases, Option-cases,
}
use mmtao_old.Base.Printed.{length-print_int, parse_int-IsInt}
use mmtao_old.Base.Text.{Bytes, codes, print_int, parse_int}
use mmtao_old.Base.Int.{is_set, ℤ, pos, eq_ℤ}
use mmtao_old.Topbox.Link.{Float, Link, Env}
use mmtao_old.DataServer.Pcr.Positions.{Positions}
use mmtao_old.DataServer.Pcr.Requests.{begins_word}
use mmtao_old.DataServer.Pcr.Session.{ensure, send_no_reply}
use mmtao_old.DataServer.Pcr.Commands.{proceed, set_rate, rate_set, tune, with_name}
use mmtao_old.DataServer.Pcr.Forward.{saving, save_data, connect_port, stop_port, reset_port}
use mmtao_old.DataServer.Pcr.Server.{P, on_cmd, on_dm, on_error, set_int, World, ◌>>=◌}
use mmtao_old.DataServer.Pcr.Session.Laws.{
  Returns, ensure-IsClear, ensure-Goes, send_no_reply-Goes, AnswersLines,
}
use mmtao_old.DataServer.Pcr.Process.Sound.{set_rate-Keeps, PrintsShort}
use mmtao_old.DataServer.Pcr.Process.Steps.{
  done-Keeps, bind-Keeps, if-Keeps, unless-Keeps, whenever-Keeps, at_entry-Keeps, with_line-Keeps,
  change-Keeps, on_dm-Keeps, on_error-Keeps, on_cmd-Keeps, pcr_command-Keeps, Keeps, Closes,
  Closes-append,
}
use mmtao_old.DataServer.Pcr.Requests.Laws.{length-has_prefix}
use Prim.Native.String.{String}
use mmtao_old.DataServer.Pcr.Help.{send_help}
use mmtao_old.Topbox.Socket.{write_loop, delivered, string_write}
use mmtao_old.DataServer.Pcr.Vectors.{write_request}
use mmtao_old.DataServer.Pcr.Positions.Laws.{IsListed}

module _ (env : Env) where
  string_write-Closes :
      (line : Bytes) (s : Link) → Closes s.inbox → Closes (string_write env line s).1.inbox
  unfolding string_write delivered
  string_write-Closes line s h = elim (Bool-cases s.is_open) [
    | inl e ↦
        elim (Option-cases (write_loop env (length line) (length line) s.calls (length line))) [
          | inl f ↦ rw (e, f) h
          | inr (x, f) ↦ rw (e, f) (Closes-append s.inbox _ h)
        ]
    | inr e ↦ rw e h
  ]

  pub send_help-Closes :
      (lines : List Bytes) (s : Link)
      → Closes s.inbox
      → Returns (λ t. Closes t.inbox) (send_help env lines s)
  unfolding send_help write_request
  send_help-Closes [] s h = h
  send_help-Closes (line ∷ lines) s h =
      elim (Bool-cases (eq_ℤ (string_write env line s).0 (pos (length line)))) [
        | inl e ↦
            rw e (send_help-Closes lines (string_write env line s).1 (string_write-Closes line s h))
        | inr e ↦ rw e (string_write-Closes line s h)
      ]

module _ (w : World) (p : Positions) (n : ℕ) (answers : AnswersLines w.cmd)
    (listed : IsListed p n) where
  pub rate_set-Keeps : Keeps n (rate_set w p)
  unfolding rate_set
  rate_set-Keeps = with_line-Keeps n _ λ rate.
      pcr_command-Keeps w p answers n (codes "cam_rate_set " ++ print_int (parse_int rate)) proceed
        (set_rate w p (parse_int rate))
        (ground (
          arith,
          length-append (codes "cam_rate_set ") (print_int (parse_int rate)),
          length-print_int (parse_int rate) (parse_int-IsInt rate),
        ))
        (done-Keeps n tt) (set_rate-Keeps w p n answers listed (parse_int rate))

  pub tune-Keeps :
      PrintsShort w
      → (word : String) (limit : Float) (follow : Float → P (Unit {0}))
      → ltb (length (codes word)) 50 ≡ true
      → ((gain : Float) → Keeps n (follow gain))
      → Keeps n (tune w p word limit follow)
  unfolding tune
  tune-Keeps short word limit follow b k = with_line-Keeps n _ λ text.
      let gain = w.floats.parse_float text in
      let value = w.floats.double_of_float gain in
      unless-Keeps n (w.less value 0 || w.less limit value) proceed _ (done-Keeps n tt) λ e.
        pcr_command-Keeps w p answers n (codes word ++ w.floats.print_fixed 3 value) proceed
          (follow gain)
          (ground (
            arith,
            e,
            b,
            length-append (codes word) (w.floats.print_fixed 3 value),
            short.at limit value (ground (arith, e)) (ground (arith, e)),
          ))
          (done-Keeps n tt) (k gain)

  pub saving-Keeps :
      (line : Bytes) (value : ℤ) → ltb (length line) 119 ≡ true → Keeps n (saving w p line value)
  unfolding saving
  saving-Keeps line value b =
      bind-Keeps n (on_dm (send_no_reply w.dm w.attempt line)) _
        (on_dm-Keeps n (send_no_reply w.dm w.attempt line)
          (λ s. send_no_reply-Goes w.dm w.attempt line s (ground (arith, b))))
        λ status.
          if-Keeps n (is_set status) proceed _ (done-Keeps n tt)
            (at_entry-Keeps n p.save_data (set_int value) listed.save_data)

  pub save_data-Keeps : Keeps n (save_data w p)
  unfolding save_data
  save_data-Keeps = with_line-Keeps n _ λ line.
      whenever-Keeps n (begins_word line (codes "Save_Data_On")) (saving w p line (pos 1)) _
        (λ e.
          saving-Keeps line (pos 1)
            (ground (arith, length-has_prefix (codes "Save_Data_On") line e)))
        (whenever-Keeps n (begins_word line (codes "Save_Data_Off")) (saving w p line (pos 0))
          proceed
          (λ e.
            saving-Keeps line (pos 0)
              (ground (arith, length-has_prefix (codes "Save_Data_Off") line e)))
          (done-Keeps n tt))

  pub connect_port-Keeps : (port : Bytes) → Keeps n (connect_port w p port)
  unfolding connect_port
  connect_port-Keeps port =
      if-Keeps n (begins_word port (codes "cmd")) (on_cmd (ensure w.cmd w.attempt) >>= λ _. proceed)
        _
        (bind-Keeps n (on_cmd (ensure w.cmd w.attempt)) _
          (on_cmd-Keeps n (ensure w.cmd w.attempt) (ensure-IsClear w.cmd answers w.attempt))
          (λ _. done-Keeps n tt))
        (if-Keeps n (begins_word port (codes "wfsc")) _ _
          (change-Keeps n _ (λ s h. record { client = h.client; cmd = h.cmd; size = h.size }))
          (if-Keeps n (begins_word port (codes "dm")) _ _
            (change-Keeps n _ (λ s h. record { client = h.client; cmd = h.cmd; size = h.size }))
            (if-Keeps n (begins_word port (codes "error"))
              (on_error (ensure w.cmd w.attempt) >>= λ _. proceed) proceed
              (bind-Keeps n (on_error (ensure w.cmd w.attempt)) _
                (on_error-Keeps n (ensure w.cmd w.attempt) (ensure-Goes w.cmd w.attempt))
                (λ _. done-Keeps n tt))
              (done-Keeps n tt))))

  pub stop_port-Keeps : (port : Bytes) → Keeps n (stop_port w p port)
  unfolding stop_port
  stop_port-Keeps port =
      if-Keeps n (begins_word port (codes "wfsc")) _ _
        (change-Keeps n _ (λ s h. record { client = h.client; cmd = h.cmd; size = h.size }))
        (if-Keeps n (begins_word port (codes "dm")) _ proceed
          (change-Keeps n _ (λ s h. record { client = h.client; cmd = h.cmd; size = h.size }))
          (done-Keeps n tt))

  pub reset_port-Keeps : (port : Bytes) → Keeps n (reset_port w p port)
  unfolding reset_port
  reset_port-Keeps port =
      if-Keeps n (begins_word port (codes "wfsc")) _ _
        (change-Keeps n _ (λ s h. record { client = h.client; cmd = h.cmd; size = h.size }))
        (if-Keeps n (begins_word port (codes "dm")) _ proceed
          (change-Keeps n _ (λ s h. record { client = h.client; cmd = h.cmd; size = h.size }))
          (done-Keeps n tt))

  pub with_name-Keeps :
      (f : Bytes → P (Unit {0})) → ((port : Bytes) → Keeps n (f port)) → Keeps n (with_name f)
  unfolding with_name
  with_name-Keeps f k =
      with_line-Keeps n _
        λ port. if-Keeps n (leb (length port) 1) proceed (f port) (done-Keeps n tt) (k port)
