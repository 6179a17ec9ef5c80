-- ===== src/DataServer/Frames/Single/Laws.antt =====
-- What DServ_GetSingle sends.
use mmtao_old.DataServer.Frames.Single.{
  Moment, frame_number, set_data, fetch, host_word, network_int, send, send_sets, send_frame,
  answer_with, answer_from, announcement, negated, get_single, lower_case,
}
use mmtao_old.DataServer.Frames.{Section, Layout}
use mmtao_old.DataServer.Frames.Sets.{single_sets, total_of, single_sets-IsSound}
use mmtao_old.Topbox.Link.{Env, Link}
use mmtao_old.Topbox.Socket.{string_write}
use mmtao_old.Topbox.Socket.Laws.{string_write_sent}
use mmtao_old.Base.{
  ℕ, zero, suc, ◌+◌, ◌≡◌, true, some, List, [], ◌∷◌, ◌++◌, length, leb, refl, arith, ap, sym, ◌∙◌,
  inl, inr, append-nil, append_assoc, Bool-cases, ==_iff,
}
use mmtao_old.Base.Int.{ℤ, pos, negsuc, eq_ℤ}
use mmtao_old.Base.Text.{Bytes}
use mmtao_old.DataServer.Frames.Linked.{IsPacked}

-- An announced size is `-n`; `negsuc m` is -(m + 1).
abbrev pub IsMinus : ℕ → ℤ → Type 0
IsMinus n (pos m) = (n ≡ 0) × (m ≡ 0)
IsMinus n (negsuc m) = n ≡ suc m

-- The size that is announced: `-n` for the frame of the last time, and else `n`.
abbrev pub IsAnnounced : ℕ → ℕ → ℕ → ℤ → Type 0
IsAnnounced number old n announced =
    (number ≡ old → IsMinus n announced) × (¬ (number ≡ old) → announced ≡ pos n)

negated-IsMinus : (n : ℕ) → IsMinus n (negated n)
negated-IsMinus zero = (refl, refl)
negated-IsMinus (suc n) = refl

-- The data of the sets.
unfoldable pub payload : (ℕ → Moment) → List Section → List Bytes
payload later [] = []
payload later (x ∷ xs) = set_data (later 0) x ∷ payload (λ i. later (suc i)) xs

abbrev pub total_length : List Bytes → ℕ
total_length [] = 0
total_length (line ∷ lines) = length line + total_length lines

length-fetch : (n : ℕ) (memory : ℕ → ℕ) (p : ℕ) → length (fetch n memory p) ≡ n
unfolding fetch
length-fetch zero memory p = refl
length-fetch (suc n) memory p = ap suc (length-fetch n memory (suc p))

pub total_length-payload :
    (later : ℕ → Moment) (sets : List Section) → total_length (payload later sets) ≡ total_of sets
unfolding payload
total_length-payload later [] = refl
total_length-payload later (x ∷ xs) = omega (
  arith,
  length-fetch x.bytes (later 0).memory ((later 0).newest + x.offset),
  total_length-payload (λ i. later (suc i)) xs,
)

eq_ℤ-sound : (a b : ℤ) → eq_ℤ a b ≡ true → a ≡ b
eq_ℤ-sound (pos a) (pos b) h = ap pos ((==_iff a b).0 h)
eq_ℤ-sound (negsuc a) (negsuc b) h = ap negsuc ((==_iff a b).0 h)
eq_ℤ-sound (pos a) (negsuc b) h = ground (arith, h)
eq_ℤ-sound (negsuc a) (pos b) h = ground (arith, h)

module _ (env : Env) where
  nothing_sent : (s : Link) → (send env [] s).0 ≡ true → (send env [] s).1.sent ≡ s.sent ++ [] ∷ []
  unfolding send string_write
  nothing_sent s h = ground (arith, h)

  pub send_sent :
      (line : Bytes) (s : Link)
      → (send env line s).0 ≡ true
      → (send env line s).1.sent ≡ s.sent ++ line ∷ []
  unfolding send
  send_sent [] s h = nothing_sent s h
  send_sent (c ∷ cs) s h = (string_write_sent env (c ∷ cs) s (omega arith) (eq_ℤ-sound _ _ h)).1

  send_sets_sent :
      (later : ℕ → Moment) (sets : List Section) (s : Link)
      → (send_sets env later sets s).0 ≡ true
      → (send_sets env later sets s).1.sent ≡ s.sent ++ payload later sets
  unfolding send_sets payload
  send_sets_sent later [] s h = sym (append-nil s.sent)
  send_sets_sent later (x ∷ xs) s h = elim (Bool-cases (send env (set_data (later 0) x) s).0) [
    | inl went ↦
        let rest =
          send_sets_sent (λ i. later (suc i)) xs (send env (set_data (later 0) x) s).1
            (rw went at h) in
        rw went (
          rest
          ∙ ap (λ ls. ls ++ payload (λ i. later (suc i)) xs) (send_sent _ s went)
          ∙ append_assoc s.sent (set_data (later 0) x ∷ []) (payload (λ i. later (suc i)) xs))
    | inr short ↦ absurd (ground (arith, short, h))
  ]

  send_frame_all :
      (announced : ℤ) (number : Bytes) (later : ℕ → Moment) (sets : List Section) (s : Link)
      → let t = (send env (network_int announced) s).1 in
        let u = (send env number t).1 in
        (send_frame env announced number later sets s).0 ≡ pos 0
        → ((send env (network_int announced) s).0 ≡ true)
          × ((send env number t).0 ≡ true)
          × ((send_sets env later sets u).0 ≡ true)
          × ((send_frame env announced number later sets s).1 ≡ (send_sets env later sets u).1)
  unfolding send_frame
  send_frame_all announced number later sets s h = ground (arith, h)

  pub send_frame_sent :
      (announced : ℤ) (number : Bytes) (later : ℕ → Moment) (sets : List Section) (s : Link)
      → (send_frame env announced number later sets s).0 ≡ pos 0
      → (send_frame env announced number later sets s).1.sent
        ≡ s.sent ++ network_int announced ∷ number ∷ payload later sets
  send_frame_sent announced number later sets s h =
      let (one, two, three, end) = send_frame_all announced number later sets s h in
      ap (λ v. v.sent) end
      ∙ send_sets_sent later sets _ three
      ∙ ap (λ ls. ls ++ payload later sets) (send_sent number _ two)
      ∙ ap (λ ls. ls ++ number ∷ [] ++ payload later sets) (send_sent (network_int announced) s one)
      ∙ ap (λ ls. ls ++ payload later sets)
          (append_assoc s.sent (network_int announced ∷ []) (number ∷ []))
      ∙ append_assoc s.sent (network_int announced ∷ number ∷ []) (payload later sets)

  answer_with_sent :
      (sets : List Section) (announced : ℤ) (number : Bytes) (later : ℕ → Moment) (s : Link)
      → (answer_with env sets announced number later s).0 ≡ pos 0
      → ((answer_with env sets announced number later s).1 ≡ host_word number)
        × ((answer_with env sets announced number later s).2.sent
            ≡ s.sent ++ network_int announced ∷ number ∷ payload later sets)
  unfolding answer_with
  answer_with_sent [] announced number later s h = ground (arith, h)
  answer_with_sent (x ∷ xs) announced number later s h =
      (refl, send_frame_sent announced number later (x ∷ xs) s h)

  announcement-IsAnnounced :
      (l : Layout) (request : Bytes) (old : ℕ) (now : Moment)
      → IsAnnounced
          (host_word (frame_number now))
          old
          (single_sets l request).nbytes
          (announcement env l request old now)
  announcement-IsAnnounced l request old now =
      let minus = negated-IsMinus (single_sets l request).nbytes in ground (arith, minus)

  -- If DServ_GetSingle returns 0, it sent the number of bytes, negative if the number of the frame
  -- is the one of the last time, the number of the frame, and then the data of the sets that the
  -- request names, each from the frame that is newest when it is sent. The number announced is the
  -- number of bytes of the data, and the number of the frame is kept for the next time.
  pub get_single-sent :
      (l : Layout) (line : Bytes) (old : ℕ) (now : Moment) (later : ℕ → Moment) (s : Link)
      → IsPacked l
      → (get_single env l (some line) old (some now) later s).0 ≡ pos 0
      → let end = get_single env l (some line) old (some now) later s in
        let sel = single_sets l (lower_case line) in
        (end.1 ≡ host_word (frame_number now))
        × ((announced : ℤ) × IsAnnounced (host_word (frame_number now)) old sel.nbytes announced
            × (end.2.sent
                ≡ s.sent ++ network_int announced ∷ frame_number now ∷ payload later sel.sets))
        × (total_length (payload later sel.sets) ≡ sel.nbytes)
  unfolding get_single answer_from
  get_single-sent l line old now later s packed h =
      let sel = single_sets l (lower_case line) in
      let sound = single_sets-IsSound l packed (lower_case line) in
      let sent =
        answer_with_sent sel.sets (announcement env l (lower_case line) old now) (frame_number now)
          later s in
      let size = total_length-payload later sel.sets in
      elim (Bool-cases (leb (length line) 1)) [
        | inl short ↦ absurd (ground (arith, short, h))
        | inr long ↦
            let (kept, went) = sent (rw long at h) in
            rw long (
              kept,
              (
                announcement env l (lower_case line) old now,
                announcement-IsAnnounced l (lower_case line) old now,
                went,
              ),
              omega (arith, size, sound.announced),
            )
      ]
