-- ===== src/DataServer/Frames/Receive/Laws.antt =====
-- What a pass of PCR_GetDM does to the ring.
use mmtao_old.DataServer.Frames.{FrameData, assign}
use mmtao_old.DataServer.Frames.Linked.{IsRing}
use mmtao_old.DataServer.Frames.Receive.{
  break_off, is_start_of, advance, Turn, store, read_part, skip, get_data, get_number,
  resynchronise, get_sof, get_frame, Receiver, is_start_of,
}
use mmtao_old.Base.{
  ℕ, ◌≡◌, ◌<◌, arith, zero, suc, ◌+◌, refl, ap, ◌∙◌, inl, inr, true, [], ◌∷◌, ◌++◌, Option-cases,
  length, take, drop, length-append, Bool, false, if◌then◌else◌,
}
use mmtao_old.Base.Int.{pos}
use mmtao_old.Base.Text.{Bytes, codes}
use mmtao_old.DataServer.Pcr.FindSof.{find_sof}
use mmtao_old.Base.Text.{codes}

-- The active frame is one of the ring, and the frame filled last is the one before it, if any.
pub record IsInStep (width : ℕ) (d : FrameData) : Type 0 where
  pub ring : IsRing d.num_frames width d.links
  pub active : d.active < d.num_frames
  pub follows : (j : ℕ) → d.last ≡ pos j → (j < d.num_frames) × (d.active ≡ d.links.next_frame j)

pub advance-IsInStep : (width : ℕ) (d : FrameData) → IsInStep width d → IsInStep width (advance d)
unfolding advance
advance-IsInStep width d h =
    let leads = h.ring.leads d.active h.active in
    record {
      ring = h.ring;
      active = let inside = h.active in grind arith;
      follows = λ j e. let inside = h.active in grind arith;
    }

choice-IsInStep :
    (width : ℕ) (b : Bool) (r s : Receiver)
    → IsInStep width r.frames
    → IsInStep width s.frames
    → IsInStep width (if b then r else s).frames
choice-IsInStep width true r s h k = h
choice-IsInStep width false r s h k = k

module _ (width : ℕ) (t : Turn) where
  skip-IsInStep :
      (n : ℕ) (r : Receiver) → IsInStep width r.frames → IsInStep width (skip n r).frames
  skip-IsInStep n r h = record { ring = h.ring; active = h.active; follows = h.follows }

  get_data-IsInStep :
      (r : Receiver) → IsInStep width r.frames → IsInStep width (get_data t r).frames
  unfolding get_data read_part break_off
  get_data-IsInStep r h = let moved = advance-IsInStep width r.frames h in ground arith

  get_number-IsInStep :
      (r : Receiver) → IsInStep width r.frames → IsInStep width (get_number t r).frames
  unfolding get_number read_part break_off
  get_number-IsInStep r h =
      let s = skip 4 (read_part 4 r).1 in
      let rest = get_data-IsInStep s (skip-IsInStep 4 r h) in ground arith

  resynchronise-IsInStep :
      (r : Receiver) → IsInStep width r.frames → IsInStep width (resynchronise t r).frames
  unfolding resynchronise break_off
  resynchronise-IsInStep r h = elim (Option-cases (find_sof r.input)) [
    | inl lost ↦ rw (resynchronise, lost) h
    | inr (f, e) ↦ rw (resynchronise, e) (get_number-IsInStep _ (skip-IsInStep 3 r h))
  ]

  get_sof-IsInStep : (r : Receiver) → IsInStep width r.frames → IsInStep width (get_sof t r).frames
  unfolding get_sof read_part break_off
  get_sof-IsInStep r h =
      let s = (read_part 3 r).1 in
      choice-IsInStep width _ _ _ h (
        choice-IsInStep width (is_start_of s.memory s.frames.data_ptr (codes "SOF")) _ _
          (get_number-IsInStep (skip 3 s) (skip-IsInStep 3 r h)) (resynchronise-IsInStep s h))

  -- Whatever arrives, and whatever PCR_GetDM reads of it before the connection breaks, a pass of its
  -- loop leaves the active frame within the ring, and the frame filled last, if there is one, is the
  -- one before it.
  get_frame-IsInStep :
      (r : Receiver) → IsInStep width r.frames → IsInStep width (get_frame t r).frames
  unfolding get_frame
  get_frame-IsInStep r h =
      choice-IsInStep width t.sof_ready _ _ (get_sof-IsInStep (record r { receiving = true }) h) h

pub store-append :
    (memory : ℕ → ℕ) (p : ℕ) (xs ys : Bytes)
    → store memory p (xs ++ ys) ≡ store (store memory p xs) (p + length xs) ys
unfolding store
store-append memory p [] ys = ap (λ q. store memory q ys) (omega arith)
store-append memory p (c ∷ xs) ys =
    store-append (assign memory p c) (suc p) xs ys
    ∙ ap (λ q. store (store (assign memory p c) (suc p) xs) q ys) (omega arith)

pub take-append : (xs ys : Bytes) (n : ℕ) → length xs ≡ n → take n (xs ++ ys) ≡ xs
take-append [] ys zero h = refl
take-append [] ys (suc n) h = absurd (omega arith)
take-append (c ∷ xs) ys zero h = absurd (omega arith)
take-append (c ∷ xs) ys (suc n) h = ap (◌∷◌ c) (take-append xs ys n (omega arith))

pub drop-append : (xs ys : Bytes) (n : ℕ) → length xs ≡ n → drop n (xs ++ ys) ≡ ys
drop-append [] ys zero h = refl
drop-append [] ys (suc n) h = absurd (omega arith)
drop-append (c ∷ xs) ys zero h = absurd (omega arith)
drop-append (c ∷ xs) ys (suc n) h = drop-append xs ys n (omega arith)

pub read_part-append :
    (n : ℕ) (xs ys : Bytes) (r : Receiver)
    → r.input ≡ xs ++ ys
    → length xs ≡ n
    → read_part n r ≡ (true, record r { memory = store r.memory r.frames.data_ptr xs; input = ys })
unfolding read_part
read_part-append n xs ys r e h =
    rw (e, take-append xs ys n h, drop-append xs ys n h)
      (let long = length-append xs ys in grind arith)
