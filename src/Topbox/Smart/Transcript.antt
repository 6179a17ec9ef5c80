-- ===== src/Topbox/Smart/Transcript.antt =====
-- What the Smart motors are told when Smart_Init succeeds.
use mmtao_old.Base.{
  ℕ, zero, suc, ◌≡◌, ◌⊎◌, not, Bool, true, false, Option, none, some, List, [], ◌∷◌, ◌++◌,
  append-nil, append_assoc, arith, Bool-cases, inl, inr, ◌∙◌, refl, ap, if◌then◌else◌, ltb,
}
use mmtao_old.Base.Int.{ℤ, pos, negsuc, is_set}
use mmtao_old.Base.Text.{Bytes}
use mmtao_old.Topbox.Mvp.Wire.{string_length}
use mmtao_old.Topbox.Socket.{receive}
use mmtao_old.Topbox.Link.{
  SysResult, count, failed, Chunk, Env, Link, M, pure, ◌>>=◌, ◌>>◌, lock, unlock,
}
use mmtao_old.Topbox.Socket.Laws.{string_write_sent}
use mathlib.Core.Path.{subst, sym}
use mmtao_old.Topbox.Smart
use mmtao_old.Topbox.Smart.Reads.{brief, Reads}
use mmtao_old.Topbox.Smart.Ready.{init_tries-Reads}
use mmtao_old.Topbox.Smart.Setup

-- The lines of the calls, in their order.
lines : List Setup.Exchange → List Bytes
lines [] = []
lines (Setup.tell id request ∷ rest) = Smart.smart_line id request ∷ lines rest
lines (Setup.ask id request ∷ rest) = Smart.smart_line id request ∷ lines rest

module _ (env : Env) where
  pub write_sent :
      (id : ℕ) (request : Bytes) (s : Link)
      → is_set (Smart.smart_write_step env id request s).0 ≡ false
      → (Smart.smart_write_step env id request s).1.sent
        ≡ s.sent ++ Smart.smart_line id request ∷ []
  unfolding Smart.smart_write_step Smart.smart_flush
  write_sent id request s h = ground (
    arith,
    string_write_sent env (Smart.smart_line id request) (Smart.smart_flush s) (omega arith),
  )

  -- What a routine that succeeds has sent.
  Sends : {A : Type 0} → (A → ℤ) → List Bytes → Option (A × Link) → Type 0
  Sends status all none = Unit {0}
  Sends status all (some (a, t)) = is_set (status a) ≡ false → t.sent ≡ all

  read_end-Sends :
      (r : SysResult × Bytes × List Chunk) (s : Link)
      → Sends (λ (a : ℤ × Bytes). a.0) s.sent (Smart.smart_read_end env r s)
  unfolding Smart.smart_read_end Smart.smart_flush Sends
  read_end-Sends (count zero, got, rest) s = λ h. refl
  read_end-Sends (count (suc n), got, rest) s = elim (Bool-cases (ltb (suc n) string_length)) [
    | inl short ↦ rw short (λ h. refl)
    | inr long ↦ rw long tt
  ]
  read_end-Sends (failed, got, rest) s = λ h. refl

  from_inbox-Sends :
      (inbox : List Chunk) (s : Link)
      → Sends
          (λ (a : ℤ × Bytes). a.0)
          s.sent
          (elim inbox [
            | [] ↦ some ((pos 1, []), record s { error = true })
            | c ∷ cs ↦ Smart.smart_read_end env (receive string_length c cs) s
          ])
  unfolding Sends
  from_inbox-Sends [] s = λ h. refl
  from_inbox-Sends (c ∷ cs) s = read_end-Sends (receive string_length c cs) s

  behind_read :
      (all : List Bytes) (s : Link) (o : Option ((ℤ × Bytes) × Link))
      → s.sent ≡ all
      → Sends (λ (a : ℤ × Bytes). a.0) s.sent o
      → Sends
          (λ (a : ℤ × Bytes). a.0)
          all
          (elim o [
            | none ↦ none
            | some (a, t) ↦ some ((if is_set a.0 then negsuc 0 else pos 0, a.1), t)
          ])
  unfolding Sends
  behind_read all s none e h = tt
  behind_read all s (some ((status, reply), t)) e h = ground (arith, e, h)

  exchange-Sends :
      (id : ℕ) (request : Bytes) (s : Link)
      → Sends
          (λ (a : ℤ × Bytes). a.0)
          (s.sent ++ Smart.smart_line id request ∷ [])
          (Smart.smart_exchange env id request s)
  unfolding Smart.smart_exchange Smart.smart_read Sends
  exchange-Sends id request s =
      let t = (Smart.smart_write_step env id request s).1 in
      elim (Bool-cases (is_set (Smart.smart_write_step env id request s).0)) [
        | inl bad ↦ rw bad (λ k. absurd (cc))
        | inr good ↦
            rw good (behind_read _ t _ (write_sent id request s good) (from_inbox-Sends t.inbox t))
      ]

  abbrev Succeeds : List Bytes → Option (ℤ × Link) → Type 0
  Succeeds all o = Sends (λ (status : ℤ). status) all o

  behind_call :
      (n : ℕ) (line : Bytes) (more : List Bytes) (s : Link) (rest : M ℤ)
      (o : Option ((ℤ × Bytes) × Link))
      → ((t : Link) → Succeeds (t.sent ++ more) (rest t))
      → Sends (λ (a : ℤ × Bytes). a.0) (s.sent ++ line ∷ []) o
      → Succeeds
          (s.sent ++ line ∷ more)
          (((λ t. o) >>= λ a. if is_set a.0 then pure (negsuc n) else rest) s)
  unfolding Sends
  behind_call n line more s rest none all h = tt
  behind_call n line more s rest (some ((status, reply), t)) all h =
      elim (Bool-cases (is_set status)) [
        | inl bad ↦ rw bad (λ k. absurd (cc))
        | inr good ↦ rw good (
            subst (λ (l : List Bytes). Succeeds l (rest t))
              (ap (λ l. l ++ more) (h good) ∙ append_assoc s.sent (line ∷ []) more) (all t))
      ]

  exchanges-Succeeds :
      (n : ℕ) (calls : List Setup.Exchange) (s : Link)
      → Succeeds (s.sent ++ lines calls) (Setup.exchanges env n calls s)
  unfolding Setup.exchanges Sends lines
  exchanges-Succeeds n [] s = λ h. sym (append-nil s.sent)
  exchanges-Succeeds n (Setup.tell id request ∷ rest) s =
      let t = (Smart.smart_write_step env id request s).1 in
      elim (Bool-cases (is_set (Smart.smart_write_step env id request s).0)) [
        | inl bad ↦ rw bad (λ k. absurd (cc))
        | inr good ↦ rw good (
            subst (λ (l : List Bytes). Succeeds l (Setup.exchanges env (suc n) rest t))
              (ap (λ l. l ++ lines rest) (write_sent id request s good)
                ∙ append_assoc s.sent (Smart.smart_line id request ∷ []) (lines rest))
              (exchanges-Succeeds (suc n) rest t))
      ]
  exchanges-Succeeds n (Setup.ask id request ∷ rest) s =
      behind_call n (Smart.smart_line id request) (lines rest) s (Setup.exchanges env (suc n) rest)
        (Smart.smart_exchange env id request s) (exchanges-Succeeds (suc n) rest)
        (exchange-Sends id request s)

  -- A success has just sent these lines.
  pub HasJustSent : List Bytes → Option (ℤ × Link) → Type 0
  HasJustSent all none = Unit {0}
  HasJustSent all (some (status, t)) =
      is_set status ≡ false → (earlier : List Bytes) × (t.sent ≡ earlier ++ all)

  behind_try :
      (all earlier : List Bytes) (s : Link) (rest : M ℤ) (o : Option (ℤ × Link))
      → ((t : Link) → HasJustSent all (rest t))
      → Succeeds (earlier ++ all) o
      → HasJustSent all (((λ t. o) >>= λ rv. do unlock; if is_set rv then rest else pure (pos 0)) s)
  unfolding Sends HasJustSent unlock
  behind_try all earlier s rest none again h = tt
  behind_try all earlier s rest (some (status, t)) again h = elim (Bool-cases t.locked) [
    | inl held ↦ elim (Bool-cases (is_set status)) [
      | inl bad ↦ rw (held, bad) (again (record t { locked = false }))
      | inr good ↦ rw (held, good) (λ k. (earlier, h good))
    ]
    | inr free ↦ rw free tt
  ]

  lock-cases : (s : Link) → (lock s ≡ none) ⊎ (lock s ≡ some (tt, record s { locked = true }))
  unfolding lock
  lock-cases s = elim (Bool-cases s.locked) [
    | inl held ↦ inl (rw held refl)
    | inr free ↦ inr (rw free refl)
  ]

  behind_lock :
      (all : List Bytes) (k : M ℤ) (s : Link)
      → HasJustSent all (k (record s { locked = true }))
      → HasJustSent all ((lock >> k) s)
  unfolding HasJustSent
  behind_lock all k s h = elim (lock-cases s) [
    | inl stuck ↦
        subst
          (λ (o : Option (Unit {0} × Link)).
            HasJustSent all (elim o [ none ↦ none | some (x, t) ↦ k t ]))
          (sym stuck) tt
    | inr taken ↦
        subst
          (λ (o : Option (Unit {0} × Link)).
            HasJustSent all (elim o [ none ↦ none | some (x, t) ↦ k t ]))
          (sym taken) h
  ]

  unless_closed :
      (all : List Bytes) (up : Bool) (s : Link) (o : Option (ℤ × Link))
      → HasJustSent all o
      → HasJustSent all (if not up then some (negsuc 0, s) else o)
  unfolding HasJustSent
  unless_closed all true s o h = h
  unless_closed all false s o h = λ k. absurd (cc)

  init_tries-HasJustSent :
      (tries : ℕ) (s : Link) → HasJustSent (lines Setup.setup) (Setup.init_tries env tries s)
  unfolding Setup.init_tries Setup.init_common HasJustSent
  init_tries-HasJustSent zero s = λ h. absurd (cc)
  init_tries-HasJustSent (suc tries) s =
      let held = record s { locked = true } in
      unless_closed (lines Setup.setup) s.connected s _ (
        behind_lock (lines Setup.setup) _ s (
          behind_try (lines Setup.setup) s.sent s (Setup.init_tries env tries)
            (Setup.exchanges env 0 Setup.setup held) (init_tries-HasJustSent tries)
            (exchanges-Succeeds 0 Setup.setup held)))

  -- What Smart_Init leaves, if it ends.
  pub IsSetUp : Link → Option (ℤ × Link) → Type 0
  IsSetUp s none = ⊥
  IsSetUp s (some (status, t)) =
      (t.locked ≡ false)
      × (t.connected ≡ s.connected)
      × (t.device ≡ s.device)
      × (is_set status ≡ false → (earlier : List Bytes) × (t.sent ≡ earlier ++ lines Setup.setup))

  both_hold :
      (briefly : (n : ℕ) (line : Bytes) → brief (env.answer n line) ≡ true) (s : Link)
      (o : Option (ℤ × Link))
      → s.locked ≡ false
      → Reads env briefly s o
      → HasJustSent (lines Setup.setup) o
      → IsSetUp s o
  unfolding Reads HasJustSent IsSetUp
  both_hold briefly s none free h k = h
  both_hold briefly s (some (status, t)) free h k =
      (ground (arith, h.0, free), ground (arith, h.0), ground (arith, h.0), k)

  -- If the controller never sends 120 bytes at once, Smart_Init called with the mutex free returns,
  -- and the mutex is free again and the connection and the device as they were. If it returns 0, the
  -- last seventeen lines that went out are those of Smart_Init_common, whole and in their order.
  pub smart_init-IsSetUp :
      (briefly : (n : ℕ) (line : Bytes) → brief (env.answer n line) ≡ true) (s : Link)
      → s.locked ≡ false
      → brief s.inbox ≡ true
      → IsSetUp s (Setup.smart_init env s)
  unfolding Setup.smart_init
  smart_init-IsSetUp briefly s free h =
      both_hold briefly s (Setup.init_tries env 13 s) free
        (init_tries-Reads env briefly 13 s free h) (init_tries-HasJustSent 13 s)
