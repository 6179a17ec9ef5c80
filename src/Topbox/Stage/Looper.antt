-- ===== src/Topbox/Stage/Looper.antt =====
-- Stage_Looper: the thread that polls a stage.
use mmtao_old.Topbox.Link.{Env, Link, IsZeroed, drop_connection}
use mmtao_old.Topbox.Stage.{stage_position, stage_status}
use mmtao_old.Base.{
  ◌≡◌, inl, inr, false, Option, none, some, List, [], ◌∷◌, arith, if◌then◌else◌, Bool-cases,
  Option-cases,
}
use mmtao_old.Base.Int.{is_set, ℤ}
use mmtao_old.Topbox.Socket.Connect.{open_client, Attempt}
use mmtao_old.Topbox.Mvp.Settles.{Settles, IsSettled}
use mmtao_old.Topbox.Stage.Settles.{stage_position-Settles, stage_status-Settles}

-- Socket_Close and Status_ZeroFlags, as at each `continue`.
abbrev pub drop_link : Link → Option Link
drop_link s = elim (drop_connection s) [ none ↦ none | some (_, t) ↦ some t ]

-- A query, and then either the rest of the round or the `continue` on its failure.
unfoldable pub or_drop : (Link → Option Link) → Option (ℤ × Link) → Option Link
or_drop rest none = none
or_drop rest (some (status, t)) = if is_set status then drop_link t else rest t

module _ (env : Env) where
  unfoldable pub stage_queries : Link → Option Link
  unfolding or_drop
  stage_queries s = or_drop (λ t. or_drop some (stage_status env t)) (stage_position env s)

  -- One round; while there is no connection it tries to open one.
  unfoldable pub stage_round : Attempt → Link → Option Link
  unfolding stage_queries
  stage_round a s = if s.connected then stage_queries s else some ((open_client a s).1)

  unfoldable pub stage_poll : List Attempt → Link → Option Link
  stage_poll [] s = some s
  stage_poll (a ∷ rest) s = elim (stage_round a s) [ none ↦ none | some t ↦ stage_poll rest t ]

  -- Stage_Looper: one attempt to connect, and then the rounds until `continueRunning` is cleared.
  pub stage_looper : Attempt → List Attempt → Link → Option Link
  unfolding stage_poll
  stage_looper a attempts s = stage_poll attempts (if s.connected then s else (open_client a s).1)

-- Between two rounds the mutex is free, and a device without connection shows no state.
pub record IsQuiet (s : Link) : Type 0 where
  pub free : s.locked ≡ false
  pub cleared : s.connected ≡ false → IsZeroed s.device

abbrev pub StaysQuiet : Option Link → Type 0
StaysQuiet none = ⊥
StaysQuiet (some t) = IsQuiet t

or_drop-StaysQuiet :
    (rest : Link → Option Link) (o : Option (ℤ × Link))
    → ((t : Link) → IsSettled t → StaysQuiet (rest t))
    → Settles o
    → StaysQuiet (or_drop rest o)
unfolding or_drop drop_connection
or_drop-StaysQuiet rest none k h = h
or_drop-StaysQuiet rest (some (status, t)) k h = ground (arith, k t h)

module _ (env : Env) where
  stage_queries-StaysQuiet : (s : Link) → IsSettled s → StaysQuiet (stage_queries env s)
  unfolding stage_queries
  stage_queries-StaysQuiet s h =
      or_drop-StaysQuiet _ (stage_position env s)
        (λ t k.
          or_drop-StaysQuiet some (stage_status env t) (λ u q. ground (arith, q))
            (stage_status-Settles env t k))
        (stage_position-Settles env s h)

  stage_round-StaysQuiet : (a : Attempt) (s : Link) → IsQuiet s → StaysQuiet (stage_round env a s)
  unfolding stage_round open_client
  stage_round-StaysQuiet a s h = elim (Bool-cases s.connected) [
    | inl up ↦ ground (
      arith,
      up,
      stage_queries-StaysQuiet s
          (record { free = h.free; closed = λ down. cc; cleared = h.cleared }),
    )
    | inr down ↦ ground (arith, down)
  ]

  connect-IsQuiet :
      (a : Attempt) (s : Link)
      → IsQuiet s
      → IsQuiet (if s.connected then s else (open_client a s).1)
  unfolding open_client
  connect-IsQuiet a s h = elim (Bool-cases s.connected) [
    | inl up ↦ ground (arith, up, h.free)
    | inr down ↦ ground (arith, down, h.free, h.cleared down)
  ]

  stage_poll-StaysQuiet :
      (attempts : List Attempt) (s : Link) → IsQuiet s → StaysQuiet (stage_poll env attempts s)
  unfolding stage_poll
  stage_poll-StaysQuiet [] s h = h
  stage_poll-StaysQuiet (a ∷ rest) s h = elim (Option-cases (stage_round env a s)) [
    | inl blocked ↦ absurd (rw blocked at (stage_round-StaysQuiet a s h))
    | inr (t, e) ↦
        rw (stage_poll, e) (stage_poll-StaysQuiet rest t (rw e at (stage_round-StaysQuiet a s h)))
  ]

  -- However the stage, the kernel and the attempts to connect behave, Stage_Looper never blocks. If
  -- it starts with the mutex free, and with a device that shows no state unless it is connected,
  -- this holds again after any number of rounds.
  pub stage_looper-StaysQuiet :
      (a : Attempt) (attempts : List Attempt) (s : Link)
      → IsQuiet s
      → StaysQuiet (stage_looper env a attempts s)
  unfolding stage_looper
  stage_looper-StaysQuiet a attempts s h = stage_poll-StaysQuiet attempts _ (connect-IsQuiet a s h)
