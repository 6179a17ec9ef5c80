-- ===== src/Topbox/Fwheel/Laws.antt =====
-- Where a move of the filter wheel ends.
use mmtao_old.Topbox.Fwheel.{
  filter_names, filter_set_pos, move_count, from_home, over_home, seek_home, found_home, lost_home,
  move_homed, fwheel_move_absolute, to_last,
}
use mmtao_old.Topbox.Fwheel.Turns.{
  leb_ℤ, excess, place, forward, lower, IsAhead, lower-near, forward-IsAhead,
}
use mmtao_old.Base.{
  ℕ, zero, suc, ◌≤◌, ◌<◌, ◌%◌, ◌≡◌, true, false, Option, none, some, arith, get_elem?, refl, Bool,
  ◌*◌, if◌then◌else◌, ◌∙◌,
}
use mmtao_old.Base.Text.{Bytes}
use mmtao_old.Base.Int.{ℤ, pos, negsuc, eq_ℤ, is_set}
use mmtao_old.Topbox.Link.{Env, Link, M, pure, ◌>>=◌, ◌>>◌, Float}

positive_cases : (r : ℤ) → leb_ℤ (pos 1) r ≡ true → (k : ℕ) × (r ≡ pos (suc k))
positive_cases (pos zero) h = absurd (ground arith)
positive_cases (pos (suc k)) h = (k, refl)
positive_cases (negsuc n) h = absurd (ground arith)

has_name : (n : ℕ) → n < 8 → (name : Bytes) × (get_elem? filter_names n ≡ some name)
has_name zero h = (_, refl)
has_name (suc zero) h = (_, refl)
has_name (suc (suc zero)) h = (_, refl)
has_name (suc (suc (suc zero))) h = (_, refl)
has_name (suc (suc (suc (suc zero)))) h = (_, refl)
has_name (suc (suc (suc (suc (suc zero))))) h = (_, refl)
has_name (suc (suc (suc (suc (suc (suc zero)))))) h = (_, refl)
has_name (suc (suc (suc (suc (suc (suc (suc zero))))))) h = (_, refl)
has_name (suc (suc (suc (suc (suc (suc (suc (suc n)))))))) h = absurd (omega arith)

module _ (env : Env) where
  -- The wheel is recorded at position `p`, which is one of the eight and the place asked for.
  pub record IsAt (p : ℕ) (asked : ℤ) (t : Link) : Type 0 where
    pub first : 1 ≤ p
    pub last : p ≤ 8
    pub same : p % 8 ≡ place asked
    pub position : t.device.position ≡ env.floats.float_of_int (pos p)

  -- The move ended at the place asked for; or it went over the home switch, and read outside the
  -- table of names or wrote behind the buffer of a reply.
  abbrev pub Lands : ℤ → ℤ → Option (ℤ × Link) → Type 0
  Lands cur asked none = leb_ℤ (forward cur asked) (pos 8) ≡ false
  Lands cur asked (some (status, t)) = (p : ℕ) × IsAt p asked t

  choice-some :
      (b : Bool) (n : ℕ) (s : Link)
      → (rv : ℤ) × (t : Link) × ((if b then pure (pos 0) else move_count env n) s ≡ some (rv, t))
  unfolding move_count
  choice-some true n s = (_, _, refl)
  choice-some false n s = (_, _, refl)

  to_last-some : (cur : ℤ) (s : Link) → (rv : ℤ) × (t : Link) × (to_last env cur s ≡ some (rv, t))
  unfolding to_last
  to_last-some cur s = choice-some (leb_ℤ (pos 8) cur) (excess (pos 8) cur * 33) s

  module _ (cur asked : ℤ) where
    bind-Lands :
        {A : Type 0} (m : M A) (s : Link) (a : A) (t : Link) (k : A → M ℤ)
        → m s ≡ some (a, t)
        → Lands cur asked (k a t)
        → Lands cur asked ((m >>= k) s)
    bind-Lands m s a t k e h = rw (e, Lands) h

    choice-Lands :
        (b : Bool) (f g : M ℤ) (s : Link)
        → Lands cur asked (f s)
        → Lands cur asked (g s)
        → Lands cur asked ((if b then f else g) s)
    choice-Lands true f g s h k = h
    choice-Lands false f g s h k = k

    cases-Lands :
        (b : Bool) (f g : M ℤ) (s : Link)
        → (b ≡ true → Lands cur asked (f s))
        → (b ≡ false → Lands cur asked (g s))
        → Lands cur asked ((if b then f else g) s)
    cases-Lands true f g s h k = h refl
    cases-Lands false f g s h k = k refl

    set_then-Lands :
        (n : ℕ) (status : ℤ) (s : Link)
        → n < 8
        → place (pos (suc n)) ≡ place asked
        → Lands cur asked ((filter_set_pos env (pos (suc n)) >> pure status) s)
    unfolding filter_set_pos
    set_then-Lands n status s h same =
        let (name, e) = has_name n h in
        rw e
          (suc n, record { first = omega arith; last = omega arith; same = same; position = refl })

    counted-Lands :
        (steps n : ℕ) (s : Link)
        → n < 8
        → place (pos (suc n)) ≡ place asked
        → Lands cur asked
            ((move_count env steps >>= λ rv. filter_set_pos env (pos (suc n)) >> pure rv) s)
    unfolding move_count
    counted-Lands steps n s h same = set_then-Lands n (pos 0) _ h same

    from_home-Lands :
        (n : ℕ) (s : Link)
        → n < 8
        → place (pos (suc n)) ≡ place asked
        → Lands cur asked (from_home env (pos (suc n)) s)
    unfolding from_home
    from_home-Lands n s h same =
        choice-Lands (leb_ℤ (pos (suc n)) (pos 1)) _ _ s
          (set_then-Lands n (env.stale_int s.calls) s h same)
          (counted-Lands (excess (pos (suc n)) (pos 1) * 33) n s h same)

    found_home-Lands :
        (new : ℤ) (n : ℕ) (s : Link)
        → lower (suc (excess new (pos 1))) (pos 1) new ≡ pos (suc n)
        → n < 8
        → place (pos (suc n)) ≡ place asked
        → Lands cur asked (found_home env new s)
    unfolding found_home move_count
    found_home-Lands new n s target h same = rw target (from_home-Lands n _ h same)

    behind_search :
        (new : ℤ) (n : ℕ) (o : Option (Bool × Link))
        → lower (suc (excess new (pos 1))) (pos 1) new ≡ pos (suc n)
        → n < 8
        → place (pos (suc n)) ≡ place asked
        → leb_ℤ (forward cur asked) (pos 8) ≡ false
        → Lands cur asked (elim o [
          | none ↦ none
          | some (at_home, u) ↦ (if at_home then found_home env new else lost_home env) u
        ])
    unfolding lost_home filter_set_pos
    behind_search new n none target h same far = far
    behind_search new n (some (b, u)) target h same far =
        choice-Lands b (found_home env new) (lost_home env) u
          (found_home-Lands new n u target h same) far

    over_home-Lands :
        (now new : ℤ) (n : ℕ) (s : Link)
        → lower (suc (excess new (pos 1))) (pos 1) new ≡ pos (suc n)
        → n < 8
        → place (pos (suc n)) ≡ place asked
        → leb_ℤ (forward cur asked) (pos 8) ≡ false
        → Lands cur asked (over_home env now new s)
    unfolding over_home lost_home filter_set_pos
    over_home-Lands now new n s target h same far =
        let (rv, t, moved) = to_last-some now s in
        bind-Lands (to_last env now) s rv t
          (λ rv.
            seek_home env 33 >>= λ at_home. if at_home then found_home env new else lost_home env)
          moved (behind_search new n (seek_home env 33 t) target h same far)

    stays-Lands :
        (c : ℕ) (s : Link)
        → c < 8
        → place (pos (suc c)) ≡ place asked
        → s.device.position ≡ env.floats.float_of_int (pos (suc c))
        → Lands cur asked (pure (pos 0) s)
    stays-Lands c s h same at =
        (suc c, record { first = omega arith; last = omega arith; same = same; position = at })

    move_homed-Lands :
        (c m : ℕ) (s : Link)
        → forward cur asked ≡ pos (suc m)
        → c < 8
        → IsAhead (pos (suc c)) asked (pos (suc m))
        → s.device.position ≡ env.floats.float_of_int (pos (suc c))
        → Lands cur asked (move_homed env (pos (suc c)) (pos (suc m)) s)
    unfolding move_homed
    move_homed-Lands c m s ahead h a at =
        cases-Lands (eq_ℤ (pos (suc m)) (pos (suc c))) (pure (pos 0)) _ s
          (λ here. stays-Lands c s h (ground (arith, a.same)) at)
          (λ away.
            cases-Lands (leb_ℤ (pos (suc m)) (pos 8)) _ (over_home env (pos (suc c)) (pos (suc m)))
              s
              (λ short.
                counted-Lands (excess (pos (suc m)) (pos (suc c)) * 33) m s (ground arith) a.same)
              (λ far.
                let (above, near, same) =
                  lower-near (suc (excess (pos (suc m)) (pos 1))) (pos 1) (pos (suc m))
                    (ground arith) (omega arith) in
                let (k, e) = positive_cases _ above in
                over_home-Lands (pos (suc c)) (pos (suc m)) k s e
                  (let near_k = rw e at near in omega arith) ((rw e at same) ∙ a.same)
                  (rw ahead far)))

  ahead-Lands :
      (c : ℕ) (asked new : ℤ) (s : Link)
      → forward (pos (suc c)) asked ≡ new
      → c < 8
      → IsAhead (pos (suc c)) asked new
      → s.device.position ≡ env.floats.float_of_int (pos (suc c))
      → Lands (pos (suc c)) asked (move_homed env (pos (suc c)) new s)
  ahead-Lands c asked (negsuc n) s e h a at = absurd (ground (arith, a.reached))
  ahead-Lands c asked (pos zero) s e h a at = absurd (ground (arith, a.reached))
  ahead-Lands c asked (pos (suc m)) s e h a at = move_homed-Lands (pos (suc c)) asked c m s e h a at

  -- From one of the eight positions, with the home flag set, Fwheel_MoveAbsolute returns, and the
  -- wheel is recorded at the one of the eight positions that is the place asked for, whatever number
  -- was asked for; unless the move goes over the home switch, where it may also read outside the
  -- table of names, or write behind a buffer.
  pub fwheel_move_absolute-Lands :
      (position : Float) (c : ℕ) (s : Link)
      → c < 8
      → is_set s.device.home ≡ true
      → env.floats.trunc_float s.device.position ≡ pos (suc c)
      → s.device.position ≡ env.floats.float_of_int (pos (suc c))
      → Lands (pos (suc c)) (env.floats.trunc_double position) (fwheel_move_absolute env position s)
  unfolding fwheel_move_absolute
  fwheel_move_absolute-Lands position c s h homed here at =
      rw (homed, here)
        (ahead-Lands c (env.floats.trunc_double position) _ s refl h (forward-IsAhead _ _) at)
