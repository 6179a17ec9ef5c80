-- ===== src/DataServer/Info/Ring/Rotations.antt =====
-- What a list looks like from a place in it round.
use mmtao_old.Base.{
  ℕ, zero, suc, ◌<◌, ◌≡◌, refl, List, [], ◌∷◌, ◌++◌, arith, length, set, take, drop, ap, sym,
  append-nil, ◌+◌, append_assoc, take_all, drop_all, ◌∙◌,
}

module _ {ℓ} {A : Type ℓ} where
  abbrev pub tail : List A → List A
  tail [] = []
  tail (x ∷ xs) = xs

  pub drop-set : (s : List A) (p : ℕ) (x : A) → drop (suc p) (set s p x) ≡ tail (drop p s)
  drop-set [] zero x = refl
  drop-set (y ∷ s) zero x = refl
  drop-set [] (suc p) x = refl
  drop-set (y ∷ s) (suc p) x = drop-set s p x

  pub take-set :
      (s : List A) (p : ℕ) (x : A) → p < length s → take (suc p) (set s p x) ≡ take p s ++ x ∷ []
  take-set [] p x h = elim h [ ]
  take-set (y ∷ s) zero x h = refl
  take-set (y ∷ s) (suc p) x h = ap (◌∷◌ y) (take-set s p x (omega arith))

  pub tail-append :
      (s ys : List A) (p : ℕ) → p < length s → tail (drop p s ++ ys) ≡ tail (drop p s) ++ ys
  tail-append [] ys p h = elim h [ ]
  tail-append (y ∷ s) ys zero h = refl
  tail-append (y ∷ s) ys (suc p) h = tail-append s ys p (omega arith)

  -- Writing at the seam of the two halves drops the oldest entry and appends the new one.
  pub rotate-set :
      (s : List A) (p : ℕ) (x : A)
      → p < length s
      → drop (suc p) (set s p x) ++ take (suc p) (set s p x) ≡ tail (drop p s ++ take p s) ++ x ∷ []
  rotate-set s p x h =
      rw (drop-set s p x, take-set s p x h, tail-append s (take p s) p h)
        (sym (append_assoc (tail (drop p s)) (take p s) (x ∷ [])))

  pub tail-drop :
      (n : ℕ) (l : List A) (x : A)
      → n < length l
      → tail (drop n l) ++ x ∷ [] ≡ drop (suc n) (l ++ x ∷ [])
  tail-drop zero [] x h = elim h [ ]
  tail-drop zero (y ∷ l) x h = refl
  tail-drop (suc n) [] x h = elim h [ ]
  tail-drop (suc n) (y ∷ l) x h = tail-drop n l x (omega arith)

  -- Once the write position wraps, the array as it stands is its own rotation.
  pub rotate_wrapped : (s : List A) → length s ≡ 10 → s ++ [] ≡ drop 10 s ++ take 10 s
  rotate_wrapped s h = rw (append-nil, drop_all 10 s (omega arith), take_all 10 s (omega arith))

  pub drop-nil : (m : ℕ) → drop {A = A} m [] ≡ []
  drop-nil zero = refl
  drop-nil (suc m) = refl

  pub drop-append_length : (xs ys : List A) (n : ℕ) → n ≡ length xs → drop n (xs ++ ys) ≡ ys
  drop-append_length [] ys n e = rw e
  drop-append_length (x ∷ xs) ys n e = rw e (drop-append_length xs ys (length xs) refl)

  pub drop-drop : (m n k : ℕ) (l : List A) → n + m ≡ k → drop m (drop n l) ≡ drop k l
  drop-drop m zero k l e = let e' : m ≡ k = omega arith in rw e'
  drop-drop m (suc n) k [] e = drop-nil m ∙ sym (drop-nil k)
  drop-drop m (suc n) zero (x ∷ l) e = absurd (omega arith)
  drop-drop m (suc n) (suc k) (x ∷ l) e = drop-drop m n k l (omega arith)
