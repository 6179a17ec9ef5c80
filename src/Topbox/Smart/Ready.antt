-- ===== src/Topbox/Smart/Ready.antt =====
-- What Smart_Init, Smart_Reconnect and Smart_Looper leave behind.
use mmtao_old.Base.{
  ℕ, zero, suc, ◌≡◌, Bool, true, false, not, Option, none, some, List, [], ◌∷◌, if◌then◌else◌,
  arith, Bool-cases, inl, inr, refl,
}
use mmtao_old.Base.Int.{ℤ, pos, negsuc, is_set}
use mmtao_old.Base.Text.{Bytes}
use mmtao_old.Topbox.Link.{Env, Link, M, close_socket, ◌>>=◌, ◌>>◌, lock, unlock, pure}
use mmtao_old.Topbox.Socket.Connect.{open_client, Attempt, connect}
use mmtao_old.Topbox.Smart
use mmtao_old.Topbox.Smart.Setup
use mmtao_old.Topbox.Smart.Reads.{brief, Reads, smart_exchange-Reads, write_frame, write-brief}
use mmtao_old.Topbox.Smart.Settles.{lock-free}
use mathlib.Core.Path.{subst, sym}

module _ (env : Env) (briefly : (n : ℕ) (line : Bytes) → brief (env.answer n line) ≡ true) where
  Reads-trans :
      (s t : Link) (o : Option (ℤ × Link))
      → t ≡ record s { inbox = t.inbox; sent = t.sent; calls = t.calls; error = t.error }
      → Reads env briefly t o
      → Reads env briefly s o
  unfolding Reads
  Reads-trans s t none e h = h
  Reads-trans s t (some (status, u)) e h = (ground (arith, e, h.0), h.1)

  framed :
      (id : ℕ) (request : Bytes) (s : Link)
      → let t = (Smart.smart_write_step env id request s).1 in
        t ≡ record s { inbox = t.inbox; sent = t.sent; calls = t.calls; error = t.error }
  framed id request s = let w = write_frame env id request s in ground (arith, w)

  behind_call :
      (n : ℕ) (s : Link) (rest : M ℤ) (o : Option ((ℤ × Bytes) × Link))
      → ((t : Link) → brief t.inbox ≡ true → Reads env briefly t (rest t))
      → Reads env briefly s o
      → Reads env briefly s (((λ t. o) >>= λ a. if is_set a.0 then pure (negsuc n) else rest) s)
  unfolding Reads
  behind_call n s rest none all h = h
  behind_call n s rest (some ((status, reply), t)) all h = elim (Bool-cases (is_set status)) [
    | inl bad ↦ rw bad h
    | inr good ↦ rw good (Reads-trans s t (rest t) h.0 (all t h.1))
  ]

  exchanges-Reads :
      (n : ℕ) (calls : List Setup.Exchange) (s : Link)
      → brief s.inbox ≡ true
      → Reads env briefly s (Setup.exchanges env n calls s)
  unfolding Setup.exchanges Reads
  exchanges-Reads n [] s h = (refl, h)
  exchanges-Reads n (Setup.tell id request ∷ rest) s h =
      let t = (Smart.smart_write_step env id request s).1 in
      let kept = write-brief env briefly id request s h in
      elim (Bool-cases (is_set (Smart.smart_write_step env id request s).0)) [
        | inl bad ↦ rw bad (framed id request s, kept)
        | inr good ↦ rw good (
            Reads-trans s t (Setup.exchanges env (suc n) rest t) (framed id request s)
              (exchanges-Reads (suc n) rest t kept))
      ]
  exchanges-Reads n (Setup.ask id request ∷ rest) s h =
      behind_call n s (Setup.exchanges env (suc n) rest) (Smart.smart_exchange env id request s)
        (exchanges-Reads (suc n) rest) (smart_exchange-Reads env briefly id request s h)

  behind_lock :
      (s : Link) (rest : M ℤ) (o : Option (ℤ × Link))
      → s.locked ≡ false
      → ((t : Link) → t.locked ≡ false → brief t.inbox ≡ true → Reads env briefly t (rest t))
      → Reads env briefly (record s { locked = true }) o
      → Reads env briefly s
          (((λ t. o) >>= λ rv. do unlock; if is_set rv then rest else pure (pos 0)) s)
  unfolding Reads unlock
  behind_lock s rest none free all h = h
  behind_lock s rest (some (status, t)) free all h =
      let u = record t { locked = false } in
      let held : t.locked ≡ true = ground (arith, h.0) in
      let e : u ≡ record s { inbox = u.inbox; sent = u.sent; calls = u.calls; error = u.error } =
        ground (arith, h.0, free) in
      elim (Bool-cases (is_set status)) [
        | inl bad ↦ rw (held, bad) (Reads-trans s u (rest u) e (all u refl h.1))
        | inr good ↦ rw (held, good) (e, h.1)
      ]

  lock-Reads :
      (k : M ℤ) (s : Link)
      → s.locked ≡ false
      → Reads env briefly s (k (record s { locked = true }))
      → Reads env briefly s ((lock >> k) s)
  lock-Reads k s free h =
      subst
        (λ (o : Option (Unit {0} × Link)).
          Reads env briefly s (elim o [ none ↦ none | some (x, t) ↦ k t ]))
        (sym (lock-free env briefly s free)) h

  unless_closed :
      (up : Bool) (s : Link) (o : Option (ℤ × Link))
      → brief s.inbox ≡ true
      → Reads env briefly s o
      → Reads env briefly s (if not up then some (negsuc 0, s) else o)
  unfolding Reads
  unless_closed true s o h k = k
  unless_closed false s o h k = (refl, h)

  pub init_tries-Reads :
      (tries : ℕ) (s : Link)
      → s.locked ≡ false
      → brief s.inbox ≡ true
      → Reads env briefly s (Setup.init_tries env tries s)
  unfolding Setup.init_tries Setup.init_common Reads
  init_tries-Reads zero s free h = (refl, h)
  init_tries-Reads (suc tries) s free h = unless_closed s.connected s _ h (
      lock-Reads _ s free (
        behind_lock s (Setup.init_tries env tries)
          (Setup.exchanges env 0 Setup.setup (record s { locked = true })) free
          (init_tries-Reads tries) (exchanges-Reads 0 Setup.setup (record s { locked = true }) h)))

  opened :
      (a : Attempt) (s : Link)
      → s.locked ≡ false
      → s.connected ≡ false
      → brief s.inbox ≡ true
      → let (status, t) = open_client a s in
        (t.locked ≡ false)
        × (brief t.inbox ≡ true)
        × (is_set status ≡ true → t.connected ≡ false)
        × (is_set status ≡ false → t.connected ≡ true)
  unfolding open_client connect brief
  opened a s free down h = ground (arith, free, down, h)

  -- A new connection, or none.
  unfoldable pub Reconnects : Option (Bool × Link) → Type 0
  Reconnects none = ⊥
  Reconnects (some (up, t)) = (t.locked ≡ false) × (brief t.inbox ≡ true) × (t.connected ≡ up)

  behind_init :
      (s : Link) (o : Option (ℤ × Link))
      → s.locked ≡ false
      → s.connected ≡ true
      → Reads env briefly s o
      → Reconnects (elim o [
        | none ↦ none
        | some (failed, u) ↦ if is_set failed then some (false, close_socket u) else some (true, u)
      ])
  unfolding Reads Reconnects close_socket brief
  behind_init s none free up h = h
  behind_init s (some (status, t)) free up h = ground (arith, h, free, up)

  pub smart_reconnect-Reconnects :
      (a : Attempt) (s : Link)
      → s.locked ≡ false
      → s.connected ≡ false
      → brief s.inbox ≡ true
      → Reconnects (Setup.smart_reconnect env a s)
  unfolding Setup.smart_reconnect Setup.smart_init Reconnects
  smart_reconnect-Reconnects a s free down h =
      let t = (open_client a s).1 in
      let q = opened a s free down h in
      elim (Bool-cases (is_set (open_client a s).0)) [
        | inl bad ↦ rw bad (q.0, q.1, q.2 bad)
        | inr good ↦ rw good (
            behind_init t (Setup.init_tries env 13 t) q.0 (q.3 good)
              (init_tries-Reads 13 t q.0 q.1))
      ]
