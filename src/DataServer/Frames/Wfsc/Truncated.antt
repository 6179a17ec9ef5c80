-- ===== src/DataServer/Frames/Wfsc/Truncated.antt =====
-- A frame without edges whose connection breaks within the image.
use mmtao_old.DataServer.Frames.Wfsc.{
  Geometry, WfscThread, read_row, read_rows, take_frame, wfsc_data, wfsc_number, wfsc_sof,
  wfsc_frame,
}
use mmtao_old.DataServer.Frames.Wfsc.Stored.{
  IsFit, in_time, letters_found, missing_none, check_frame-taken, behind_header,
}
use mmtao_old.DataServer.Frames.Receive.{Receiver, store, advance, read_part}
use mmtao_old.DataServer.Frames.Receive.Laws.{read_part-append}
use mmtao_old.DataServer.Frames.Receive.Stored.{stepped}
use mmtao_old.DataServer.Frames.{assign}
use mmtao_old.Base.{
  ℕ, zero, suc, ◌+◌, ◌*◌, ◌≡◌, ◌≤◌, Bool, true, [], ◌∷◌, ◌++◌, length, refl, arith, ap, ◌∙◌, take,
  drop, take_all, drop_all, inl, inr, ◌⊎◌,
}
use mmtao_old.Base.Int.{pos}
use mmtao_old.Base.Text.{Bytes, codes}

-- An image of `d` x `d` pixels without edges.
abbrev pub without_edges : ℕ → Geometry
without_edges d = record { dimension = d; row_bytes = 0; edge_bytes = 0 }

pub store_outside :
    (memory : ℕ → ℕ) (p : ℕ) (xs : Bytes) (q : ℕ)
    → p + length xs ≤ q
    → store memory p xs q ≡ memory q
unfolding store
store_outside memory p [] q h = refl
store_outside memory p (c ∷ xs) q h =
    store_outside (assign memory p c) (suc p) xs q (omega arith) ∙ ground arith

-- The address lies behind all that is still to come.
abbrev IsBehind : ℕ → Receiver → Type 0
IsBehind q r = (r.input ≡ []) ⊎ (r.frames.data_ptr + length r.input ≤ q)

length-take-le : (n : ℕ) (xs : Bytes) → length (take n xs) ≤ length xs
length-take-le zero xs = omega arith
length-take-le (suc n) [] = omega arith
length-take-le (suc n) (c ∷ xs) = let k = length-take-le n xs in omega arith

drop_left : (n : ℕ) (xs : Bytes) → (drop n xs ≡ []) ⊎ (length (drop n xs) + n ≡ length xs)
drop_left zero xs = inr (omega arith)
drop_left (suc n) [] = inl refl
drop_left (suc n) (c ∷ xs) = elim (drop_left n xs) [ inl e ↦ inl e | inr e ↦ inr (omega arith) ]

take_none : (n : ℕ) (xs : Bytes) → xs ≡ [] → take n xs ≡ []
take_none n xs e = ap (take n) e ∙ take_all n [] (omega arith)

drop_none : (n : ℕ) (xs : Bytes) → xs ≡ [] → drop n xs ≡ []
drop_none n xs e = ap (drop n) e ∙ drop_all n [] (omega arith)

module _ (d q : ℕ) where
  read_row-IsBehind : (r : Receiver) → IsBehind q r → IsBehind q (read_row (without_edges d) r)
  unfolding read_row read_part
  read_row-IsBehind r (inl e) = inl (drop_none (d * 2) r.input e)
  read_row-IsBehind r (inr h) = elim (drop_left (d * 2) r.input) [
    | inl e ↦ inl e
    | inr e ↦ inr (omega (arith, e, h))
  ]

  read_row_kept :
      (r : Receiver) → IsBehind q r → (read_row (without_edges d) r).memory q ≡ r.memory q
  unfolding read_row read_part store
  read_row_kept r (inl e) =
      ap (λ xs. store r.memory r.frames.data_ptr xs q) (take_none (d * 2) r.input e)
  read_row_kept r (inr h) =
      store_outside r.memory r.frames.data_ptr (take (d * 2) r.input) q
        (let k = length-take-le (d * 2) r.input in omega arith)

  read_rows_kept :
      (k : ℕ) (r : Receiver)
      → IsBehind q r
      → (read_rows k (without_edges d) r).memory q ≡ r.memory q
  unfolding read_rows
  read_rows_kept zero r h = refl
  read_rows_kept (suc k) r h =
      read_rows_kept k (read_row (without_edges d) r) (read_row-IsBehind r h) ∙ read_row_kept r h

-- The loop changes nothing else.
abbrev moved : Receiver → Receiver → Receiver
moved r s = record r {
  memory = s.memory;
  frames = record r.frames { data_ptr = s.frames.data_ptr };
  input = s.input;
}

read_rows-moved :
    (d k : ℕ) (r : Receiver)
    → read_rows k (without_edges d) r ≡ moved r (read_rows k (without_edges d) r)
unfolding read_rows read_row read_part
read_rows-moved d zero r = refl
read_rows-moved d (suc k) r = read_rows-moved d k (read_row (without_edges d) r)

module _ (d : ℕ) (stale : Bytes) (first last : Bool) where
  -- The image counts as read in full, whatever came of it.
  take_frame-broken :
      (r : Receiver) (w : WfscThread)
      → IsFit r.frames.layout (without_edges d)
      → take_frame (pos 0) (in_time stale first last) r (record w { geometry = without_edges d })
        ≡ record w {
          receiver = record (moved r (read_rows d (without_edges d) r)) {
            frames = stepped r.frames;
          };
          geometry = without_edges d;
        }
  unfolding take_frame advance
  take_frame-broken r w fit =
      let s = moved r (read_rows d (without_edges d) r) in
      rw
        (
          read_rows-moved d d r,
          missing_none first 0 r.input (omega arith),
          missing_none last 0 s.input (omega arith),
        )
        (check_frame-taken (pos 0) s (record w { geometry = without_edges d }) fit)

  module _ (w : WfscThread) (number part : Bytes) where
    -- The state in which the image is read.
    abbrev at_image : Receiver
    at_image = record (behind_header number w.receiver) { input = part }

    frame-broken :
        w.receiver.input ≡ codes "SOF" ++ (number ++ part)
        → length number ≡ 4
        → IsFit w.receiver.frames.layout (without_edges d)
        → wfsc_frame (pos 0) (in_time stale first last) (record w { geometry = without_edges d })
          ≡ record w {
            receiver = record (moved at_image (read_rows d (without_edges d) at_image)) {
              frames = stepped w.receiver.frames;
            };
            geometry = without_edges d;
          }
    unfolding wfsc_frame wfsc_sof wfsc_number wfsc_data advance
    frame-broken e four fit =
        rw
          (
            read_part-append 3 (codes "SOF") (number ++ part)
                (record w.receiver { receiving = true }) e refl,
            letters_found w.receiver.memory w.receiver.frames.data_ptr,
            read_part-append 4 number part
                (record w.receiver {
                  memory = store w.receiver.memory w.receiver.frames.data_ptr (codes "SOF");
                  frames = record w.receiver.frames { data_ptr = w.receiver.frames.data_ptr + 3 };
                  receiving = true;
                  input = number ++ part;
                })
                refl four,
          )
          (take_frame-broken at_image w fit)

    kept :
        (q : ℕ)
        → length number ≡ 4
        → w.receiver.frames.data_ptr + 3 + 4 + length part ≤ q
        → (read_rows d (without_edges d) at_image).memory q ≡ w.receiver.memory q
    kept q four h =
        read_rows_kept d q d at_image (inr h)
        ∙ store_outside _ (w.receiver.frames.data_ptr + 3) number q (omega arith)
        ∙ store_outside w.receiver.memory w.receiver.frames.data_ptr (codes "SOF") q (omega arith)

    -- However little comes of an image that is sent without edges before the connection breaks,
    -- PCR_GetWFSC makes the frame the one filled last, if `nvalues` is 0, and goes on, neither
    -- stopped nor reset: the place of the pixels that did not come holds what it held before. The
    -- number of the frame has come.
    pub wfsc_frame-broken :
        w.receiver.input ≡ codes "SOF" ++ (number ++ part)
        → length number ≡ 4
        → IsFit w.receiver.frames.layout (without_edges d)
        → (memory : ℕ → ℕ) × (left : Bytes) × (wfsc_frame
              (pos 0)
              (in_time stale first last)
              (record w { geometry = without_edges d })
            ≡ record w {
              receiver = record w.receiver {
                memory = memory;
                receiving = true;
                input = left;
                frames = stepped w.receiver.frames;
              };
              geometry = without_edges d;
            })
          × ((q : ℕ)
              → w.receiver.frames.data_ptr + 7 + length part ≤ q
              → memory q ≡ w.receiver.memory q)
    wfsc_frame-broken e four fit = (_, _, frame-broken e four fit, λ q h. kept q four (omega arith))
