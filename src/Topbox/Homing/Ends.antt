-- ===== src/Topbox/Homing/Ends.antt =====
-- How homing ends: with the mutex free, the flag cleared and a bound on its sleeps. One rule for
-- each way to build a homing.
use mmtao_old.Topbox.Link.{DeviceData, Link, M}
use mmtao_old.Topbox.Mvp.Looper.{Poll}
use mmtao_old.Topbox.Homing.{
  HomingState, continue, H, ret, quit, ◌>>=◌, call, look, sleep, must_or, wait, jogs, run_homing,
  after_turn, on_link, homing_end,
}
use mmtao_old.Base.{
  ℕ, ◌+◌, ◌≤◌, ◌≡◌, refl, Bool, true, false, Option, none, some, arith, if◌then◌else◌, suc, ◌*◌,
  zero, inl, inr, Option-cases,
}
use mmtao_old.Base.Int.{ℤ, pos}

abbrev pub FreesAt : Option (ℤ × Link) → Type 0
FreesAt none = ⊥
FreesAt (some (status, t)) = t.locked ≡ false

-- With the mutex free, the routine returns and leaves it free.
pub record Frees (m : M ℤ) : Type 0 where
  pub at : (s : Link) → s.locked ≡ false → FreesAt (m s)

abbrev pub FreePoll : Option Poll → Type 0
FreePoll none = ⊥
FreePoll (some p) = p.link.locked ≡ false

abbrev pub EndsAt : {A : Type 0} → ℕ → HomingState → Option (Option A × HomingState) → Type 0
EndsAt n x none = ⊥
EndsAt n x (some (none, y)) =
    (y.poll.link.locked ≡ false) × (y.running ≡ pos 0) × (y.sleeps ≤ x.sleeps + n)
EndsAt n x (some (some a, y)) =
    (y.poll.link.locked ≡ false) × (y.running ≡ pos 1) × (y.sleeps ≤ x.sleeps + n)

-- The homing returns or goes on after at most `n` sleeps, with the mutex free.
pub record Ends {A : Type 0} (n : ℕ) (m : H A) : Type 0 where
  pub at : (x : HomingState) → x.poll.link.locked ≡ false → x.running ≡ pos 1 → EndsAt n x (m x)

module _ {A : Type 0} where
  pub Ends-ret : (n : ℕ) (a : A) → Ends n (ret a)
  unfolding ret
  Ends-ret n a = record { at = λ x free up. (free, up, omega arith) }

  pub Ends-quit : (n : ℕ) → Ends n (quit {A = A})
  unfolding quit
  Ends-quit n = record { at = λ x free up. (free, refl, omega arith) }

  pub Ends-if : (n : ℕ) (b : Bool) (m k : H A) → Ends n m → Ends n k → Ends n (if b then m else k)
  Ends-if n true m k h q = h
  Ends-if n false m k h q = q

-- A bound from an earlier state.
EndsAt-from :
    {A : Type 0} (i j n : ℕ) (x y : HomingState) (o : Option (Option A × HomingState))
    → i + j ≤ n
    → y.sleeps ≤ x.sleeps + i
    → EndsAt j y o
    → EndsAt n x o
EndsAt-from i j n x y none s b h = h
EndsAt-from i j n x y (some (none, z)) s b h = (h.0, h.1, omega arith)
EndsAt-from i j n x y (some (some a, z)) s b h = (h.0, h.1, omega arith)

module _ {A B : Type 0} where
  continue-EndsAt :
      (i j n : ℕ) (x : HomingState) (o : Option (Option A × HomingState)) (f : A → H B)
      → i + j ≤ n
      → EndsAt i x o
      → ((a : A) → Ends j (f a))
      → EndsAt n x (continue f o)
  unfolding continue
  continue-EndsAt i j n x none f s h k = h
  continue-EndsAt i j n x (some (none, y)) f s h k = (h.0, h.1, omega arith)
  continue-EndsAt i j n x (some (some a, y)) f s h k =
      EndsAt-from i j n x y (f a y) s h.2 ((k a).at y h.0 h.1)

  pub Ends-bind :
      (i j n : ℕ) (m : H A) (f : A → H B)
      → i + j ≤ n
      → Ends i m
      → ((a : A) → Ends j (f a))
      → Ends n (m >>= f)
  unfolding ◌>>=◌
  Ends-bind i j n m f s h k = record {
    at = λ x free up. continue-EndsAt i j n x (m x) f s (h.at x free up) k;
  }

  -- A first step without a sleep.
  pub Ends-then :
      (j : ℕ) (m : H A) (f : A → H B) → Ends 0 m → ((a : A) → Ends j (f a)) → Ends j (m >>= f)
  Ends-then j m f h k = Ends-bind 0 j j m f (omega arith) h k

module _ (thread : ℕ → Poll → Option Poll)
    (thread-Frees : (n : ℕ) (p : Poll) → p.link.locked ≡ false → FreePoll (thread n p)) where
  pub after_turn-Ends : {A : Type 0} (n : ℕ) (m : H A) → Ends n m → Ends n (after_turn thread m)
  unfolding after_turn
  after_turn-Ends n m h = record {
    at = λ x free up. elim (Option-cases (thread x.turns x.poll)) [
      | inl blocked ↦ absurd (rw blocked at (thread-Frees x.turns x.poll free))
      | inr (p, e) ↦ rw (after_turn, e) (h.at _ (rw e at (thread-Frees x.turns x.poll free)) up)
    ];
  }

  on_link-Ends : (m : M ℤ) → Frees m → Ends 0 (on_link thread m)
  unfolding on_link
  on_link-Ends m h = record {
    at = λ x free up. elim (Option-cases (m x.poll.link)) [
      | inl blocked ↦ absurd (rw blocked at (h.at x.poll.link free))
      | inr (r, e) ↦ rw (on_link, e) (rw e at (h.at x.poll.link free), up, omega arith)
    ];
  }

  pub Ends-call : (m : M ℤ) → Frees m → Ends 0 (call thread m)
  unfolding call
  Ends-call m h = after_turn-Ends 0 _ (on_link-Ends m h)

  pub Ends-look : {A : Type 0} (f : DeviceData → A) → Ends 0 (look thread f)
  unfolding look
  Ends-look f =
      after_turn-Ends 0 (λ x. some (some (f x.poll.link.device), x))
        (record { at = λ x free up. (free, up, omega arith) })

  pub Ends-sleep : Ends 1 (sleep thread)
  unfolding sleep
  Ends-sleep =
      after_turn-Ends 1 (λ x. some (some tt, record x { sleeps = suc x.sleeps }))
        (record { at = λ x free up. (free, up, omega arith) })

  pub Ends-must_or :
      (cleanup : H (Unit {0})) (m : M ℤ)
      → Ends 0 cleanup
      → Frees m
      → Ends 0 (must_or thread cleanup m)
  unfolding must_or
  Ends-must_or cleanup m h k = search (Ends-then, Ends-call, Ends-if, Ends-quit, Ends-ret)

  pub Ends-wait :
      (broken reached : DeviceData → Bool) (cleanup : H (Unit {0})) (tries : ℕ)
      → Ends 0 cleanup
      → Ends tries (wait thread broken reached cleanup tries)
  unfolding wait
  Ends-wait broken reached cleanup zero h = search (Ends-then, Ends-look, Ends-quit)
  Ends-wait broken reached cleanup (suc tries) h =
      let rest = Ends-wait broken reached cleanup tries h in
      Ends-then _ _ _ (Ends-look broken) λ bad. Ends-if _ bad _ _ (search (Ends-then, Ends-quit)) (
        Ends-bind 1 tries (suc tries) _ _ (omega arith) Ends-sleep
          λ _. search (Ends-then, Ends-look, Ends-if, Ends-ret))

  pub Ends-jogs :
      (jog : H (Unit {0})) (n steps : ℕ) → Ends n jog → Ends (steps * n) (jogs thread jog steps)
  unfolding jogs
  Ends-jogs jog n zero h = Ends-ret _ tt
  Ends-jogs jog n (suc steps) h =
      let rest = Ends-jogs jog n steps h in
      Ends-bind n (steps * n) (suc steps * n) _ _ (omega arith) h
        λ _. search (Ends-then, Ends-look, Ends-if, Ends-ret)

pub ruleset ends_rules =
    (Ends-then, Ends-if, Ends-ret, Ends-quit, Ends-call, Ends-look, Ends-must_or, Ends-wait)

-- How a homing thread ends: the mutex is free, the flag is cleared, and there were at most `n` sleeps.
abbrev pub HomesWithin : ℕ → HomingState → Option (ℤ × HomingState) → Type 0
HomesWithin n x none = ⊥
HomesWithin n x (some (status, y)) =
    (y.poll.link.locked ≡ false) × (y.running ≡ pos 0) × (y.sleeps ≤ x.sleeps + n)

end-HomesWithin :
    (n : ℕ) (x : HomingState) (o : Option (Option (Unit {0}) × HomingState))
    → EndsAt n x o
    → HomesWithin n x (homing_end o)
unfolding homing_end
end-HomesWithin n x none h = h
end-HomesWithin n x (some (none, y)) h = h
end-HomesWithin n x (some (some done, y)) h = (h.0, refl, h.2)

pub run_homing-HomesWithin :
    (n : ℕ) (body : H (Unit {0})) (x : HomingState)
    → Ends n body
    → x.poll.link.locked ≡ false
    → HomesWithin n x (run_homing body x)
unfolding run_homing
run_homing-HomesWithin n body x h free =
    end-HomesWithin n (record x { running = pos 1 }) (body (record x { running = pos 1 }))
      (h.at (record x { running = pos 1 }) free refl)
