-- ===== src/Topbox/Smart/Settles.antt =====
-- What the queries of the Smart motors leave behind.
use mmtao_old.Base.{
  ℕ, ◌≡◌, true, false, Option, none, some, [], if◌then◌else◌, Bool-cases, inl, inr, ◌∙◌, arith,
  refl,
}
use mmtao_old.Base.Int.{ℤ, pos, negsuc, is_set}
use mmtao_old.Base.Text.{Bytes}
use mmtao_old.Topbox.Link.{
  Env, Link, IsZeroed, DeviceData, M, ◌>>=◌, ◌>>◌, give_up, lock, unlock, pure, modify,
}
use mmtao_old.Topbox.Mvp.Queries.{set_device}
use mmtao_old.Topbox.Smart
use mathlib.Core.Path.{subst, sym}
use mmtao_old.Topbox.Smart.Reads.{brief, Reads, smart_exchange-Reads}

module _ (env : Env) (briefly : (n : ℕ) (line : Bytes) → brief (env.answer n line) ≡ true) where
  -- After a routine on one motor: the mutex is free, a failure has closed the connection and cleared
  -- the flags of the motor, and otherwise the connection stands and the motor keeps its `enabled`.
  pub record IsAsked (s : Link) (status : ℤ) (t : Link) : Type 0 where
    pub free : t.locked ≡ false
    pub waits : brief t.inbox ≡ true
    pub lost : is_set status ≡ true → (t.connected ≡ false) × IsZeroed t.device
    pub kept :
        is_set status ≡ false → (t.connected ≡ s.connected) × (t.device.enabled ≡ s.device.enabled)

  Answers : Link → Option ((ℤ × Bytes) × Link) → Type 0
  Answers s none = ⊥
  Answers s (some ((status, reply), t)) = IsAsked s status t

  unfoldable pub Asks : Link → Option (ℤ × Link) → Type 0
  Asks s none = ⊥
  Asks s (some (status, t)) = IsAsked s status t

  behind_exchange :
      (s : Link) (o : Option ((ℤ × Bytes) × Link))
      → Reads env briefly (record s { locked = true }) o
      → Answers s (
          ((λ t. o) >>= λ a.
          if is_set a.0
          then (do status ← give_up; pure (status, []))
          else (do unlock; pure (pos 0, a.1)))
            s)
  unfolding give_up Answers Reads brief
  behind_exchange s none r = r
  behind_exchange s (some ((status, reply), t)) r = ground (arith, r)

  pub lock-free : (s : Link) → s.locked ≡ false → lock s ≡ some (tt, record s { locked = true })
  unfolding lock
  lock-free s free = rw free refl

  lock-Answers :
      (k : M (ℤ × Bytes)) (s : Link)
      → s.locked ≡ false
      → Answers s (k (record s { locked = true }))
      → Answers s ((lock >> k) s)
  lock-Answers k s free h =
      subst
        (λ (o : Option (Unit {0} × Link)). Answers s (elim o [ none ↦ none | some (x, t) ↦ k t ]))
        (sym (lock-free s free)) h

  smart_cmd-Answers :
      (request : Bytes) (s : Link)
      → s.locked ≡ false
      → brief s.inbox ≡ true
      → Answers s (Smart.smart_cmd env request s)
  unfolding Smart.smart_cmd
  smart_cmd-Answers request s free h = lock-Answers _ s free (
      behind_exchange s
        (Smart.smart_exchange env (Smart.motor_id s) request (record s { locked = true }))
        (smart_exchange-Reads env briefly (Smart.motor_id s) request (record s { locked = true })
          h))

  Asks-trans :
      (s t : Link) (o : Option (ℤ × Link))
      → (t.connected ≡ s.connected) × (t.device.enabled ≡ s.device.enabled)
      → Asks t o
      → Asks s o
  unfolding Asks
  Asks-trans s t none same h = h
  Asks-trans s t (some (status, u)) same h = record {
    free = h.free;
    waits = h.waits;
    lost = h.lost;
    kept = λ k. let q = h.kept k in (cc, cc);
  }

  -- The storing of a reply leaves `enabled` as it is.
  abbrev KeepsEnabled : (Bytes → DeviceData → DeviceData) → Type 0
  KeepsEnabled store = (reply : Bytes) (d : DeviceData) → (store reply d).enabled ≡ d.enabled

  abbrev AsksAll : M ℤ → Type 0
  AsksAll rest = (t : Link) → t.locked ≡ false → brief t.inbox ≡ true → Asks t (rest t)

  behind_cmd :
      (s : Link) (o : Option ((ℤ × Bytes) × Link)) (store : Bytes → DeviceData → DeviceData)
      (rest : M ℤ)
      → KeepsEnabled store
      → AsksAll rest
      → Answers s o
      → Asks s (
          ((λ t. o) >>= λ a.
          if is_set a.0 then pure (negsuc 0) else (do modify (set_device (store a.1)); rest))
            s)
  unfolding Answers Asks
  behind_cmd s none store rest keeps all h = h
  behind_cmd s (some ((status, reply), t)) store rest keeps all h =
      elim (Bool-cases (is_set status)) [
        | inl bad ↦ rw bad (record {
          free = h.free;
          waits = h.waits;
          lost = λ k. h.lost bad;
          kept = λ k. absurd (cc);
        })
        | inr good ↦
            let u = set_device (store reply) t in
            let same = h.kept good in
            rw good (
              Asks-trans s u (rest u) (same.0, keeps reply t.device ∙ same.1)
                (all u h.free h.waits))
      ]

  smart_ask-Asks :
      (request : Bytes) (store : Bytes → DeviceData → DeviceData) (rest : M ℤ)
      → KeepsEnabled store
      → AsksAll rest
      → AsksAll (Smart.smart_ask env request store rest)
  unfolding Smart.smart_ask
  smart_ask-Asks request store rest keeps all s free h =
      behind_cmd s (Smart.smart_cmd env request s) store rest keeps all
        (smart_cmd-Answers request s free h)

  end-AsksAll : AsksAll (pure (pos 0))
  unfolding Asks
  end-AsksAll t free h = record {
    free = free;
    waits = h;
    lost = λ k. absurd (cc);
    kept = λ k. (refl, refl);
  }

  pub smart_status-Asks : AsksAll (Smart.smart_status env)
  unfolding Smart.smart_status
  smart_status-Asks =
      smart_ask-Asks _ _ _ (λ reply d. refl)
        (smart_ask-Asks _ _ _ (λ reply d. refl)
          (smart_ask-Asks _ _ _ (λ reply d. refl)
            (smart_ask-Asks _ _ _ (λ reply d. refl)
              (smart_ask-Asks _ _ _ (λ reply d. refl) end-AsksAll))))
