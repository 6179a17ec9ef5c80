-- ===== src/Topbox/Stage/Frees.antt =====
-- Each routine of Stage_Home, and each round of Stage_Looper, returns and leaves the mutex free.
use mathlib.Core.Option
use mmtao_old.Topbox.Link.{Env, Link, Float, M, DeviceData, drop_connection, ◌>>◌, pure, modify}
use mmtao_old.Topbox.Mvp.Looper.{Poll}
use mmtao_old.Topbox.Mvp.Wire.Laws.{write_frame, flush_frame}
use mmtao_old.Topbox.Stage
use mmtao_old.Topbox.Stage.Looper.{or_drop, stage_queries, stage_round, stage_poll}
use mmtao_old.Topbox.Stage.Settles.{stage_read_frame}
use mmtao_old.Topbox.Homing.Ends.{Frees, FreesAt, FreePoll}
use mmtao_old.Base.{◌≡◌, inl, inr, false, Option, none, some, [], ◌∷◌, arith, Option-cases, List, ℕ}
use mmtao_old.Base.Int.{ℤ, pos}
use mmtao_old.Topbox.Socket.{flush}
use mmtao_old.Topbox.Socket.Connect.{open_client, Attempt}
use mmtao_old.Base.Text.{Bytes}

module _ (env : Env) where
  pub stage_command-Frees : (request : Bytes) → Frees (Stage.stage_command env request)
  unfolding Stage.stage_command
  stage_command-Frees request = record { at = λ s free. grind (arith, write_frame) }

  pub stage_request-Frees : (request : Bytes) → Frees (Stage.stage_request env request)
  unfolding Stage.stage_request
  stage_request-Frees request = record { at = λ s free. grind (arith, write_frame) }

  pub stage_set_home_var-Frees : (v : Float) → Frees (Stage.stage_set_home_var env v)
  unfolding Stage.stage_set_home_var
  stage_set_home_var-Frees v = record { at = λ s free. grind (arith, write_frame) }

  pub stage_move_relative-Frees : (d : Float) → Frees (Stage.stage_move_relative env d)
  unfolding Stage.stage_move_relative
  stage_move_relative-Frees d = record { at = λ s free. (stage_command-Frees _).at s free }

  stage_position-Frees : Frees (Stage.stage_position env)
  unfolding Stage.stage_position
  stage_position-Frees = record { at = λ s free. grind (arith, write_frame, stage_read_frame) }

  ThingFrees : Option ((ℤ × Bytes) × Link) → Type 0
  ThingFrees none = ⊥
  ThingFrees (some (reply, t)) = t.locked ≡ false

  get_thing-Frees :
      (request : Bytes) (s : Link) → s.locked ≡ false → ThingFrees (Stage.get_thing env request s)
  unfolding Stage.get_thing ThingFrees
  get_thing-Frees request s free = grind (arith, write_frame, stage_read_frame)

  ask-Frees :
      (request : Bytes) (store : Bytes → DeviceData → DeviceData) (rest : M ℤ)
      → Frees rest
      → Frees (Stage.ask env request store rest)
  unfolding Stage.ask ThingFrees
  ask-Frees request store rest h = record {
    at = λ s free. let thing = get_thing-Frees request s free in grind (arith, h.at);
  }

  end_status-Frees : Frees (do modify flush; pure (pos 0))
  end_status-Frees = record { at = λ s free. grind (arith, flush_frame) }

  pub stage_status-Frees : Frees (Stage.stage_status env)
  unfolding Stage.stage_status
  stage_status-Frees = search (ask-Frees, end_status-Frees) depth 8

pub ruleset stage_frees = (
  stage_command-Frees, stage_request-Frees, stage_set_home_var-Frees, stage_move_relative-Frees,
  stage_status-Frees,
)

abbrev FreeLink : Option Link → Type 0
FreeLink none = ⊥
FreeLink (some t) = t.locked ≡ false

or_drop-FreeLink :
    (rest : Link → Option Link) (o : Option (ℤ × Link))
    → FreesAt o
    → ((t : Link) → t.locked ≡ false → FreeLink (rest t))
    → FreeLink (or_drop rest o)
unfolding or_drop drop_connection
or_drop-FreeLink rest none h k = h
or_drop-FreeLink rest (some (status, t)) h k = ground (arith, k t h)

module _ (env : Env) where
  stage_round-FreeLink :
      (a : Attempt) (s : Link) → s.locked ≡ false → FreeLink (stage_round env a s)
  unfolding stage_round stage_queries open_client
  stage_round-FreeLink a s free =
      let h =
        or_drop-FreeLink (λ t. or_drop some (Stage.stage_status env t)) _
          ((stage_position-Frees env).at s free)
          λ t k. or_drop-FreeLink some _ ((stage_status-Frees env).at t k) λ u q. q in
      ground arith

  stage_poll-FreeLink :
      (attempts : List Attempt) (s : Link) → s.locked ≡ false → FreeLink (stage_poll env attempts s)
  unfolding stage_poll
  stage_poll-FreeLink [] s free = free
  stage_poll-FreeLink (a ∷ rest) s free = elim (Option-cases (stage_round env a s)) [
    | inl blocked ↦ absurd (rw blocked at (stage_round-FreeLink a s free))
    | inr (t, e) ↦
        rw (stage_poll, e) (stage_poll-FreeLink rest t (rw e at (stage_round-FreeLink a s free)))
  ]

  -- The polling thread of a stage, with nothing of a Poll but its connection.
  abbrev pub stage_thread : (ℕ → List Attempt) → ℕ → Poll → Option Poll
  stage_thread attempts n p =
      Option.map (λ (s : Link). record p { link = s }) (stage_poll env (attempts n) p.link)

  pub stage_thread-FreePoll :
      (attempts : ℕ → List Attempt) (n : ℕ) (p : Poll)
      → p.link.locked ≡ false
      → FreePoll (stage_thread attempts n p)
  stage_thread-FreePoll attempts n p free =
      let h = stage_poll-FreeLink (attempts n) p.link free in ground arith
