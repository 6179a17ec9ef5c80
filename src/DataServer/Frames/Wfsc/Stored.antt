-- ===== src/DataServer/Frames/Wfsc/Stored.antt =====
-- Which frames PCR_GetWFSC takes, and what it stores of them.
use mmtao_old.DataServer.Frames.{Layout}
use mmtao_old.DataServer.Frames.Wfsc.{
  Geometry, WfscThread, Pass, missing, save_bytes, stop, bytes_read, check_frame, take_frame,
  wfsc_data, wfsc_number, wfsc_sof, wfsc_frame, has_letters,
}
use mmtao_old.DataServer.Frames.Wfsc.Rows.{
  ImageRow, HaveWidth, sent_rows, pixels, stored, read_rows-stored,
}
use mmtao_old.DataServer.Frames.Receive.{Receiver, store, skip, advance}
use mmtao_old.DataServer.Frames.Receive.Laws.{read_part-append, drop-append}
use mmtao_old.DataServer.Frames.Receive.Stored.{stepped}
use mmtao_old.Base.{
  ℕ, ◌+◌, ◌*◌, ◌≡◌, ◌≤◌, Bool, true, List, ◌++◌, if◌then◌else◌, length, length-append, refl, arith,
}
use mmtao_old.Base.Int.{ℤ, pos, negsuc, eq_ℤ}
use mmtao_old.Base.Text.{Bytes, codes}

-- The parts of a frame that are announced make up the image with its edges.
pub record IsFit (l : Layout) (g : Geometry) : Type 0 where
  pub total :
      l.total_bytes
      ≡ l.header_bytes
        + g.row_bytes
        + (g.dimension * (g.edge_bytes + g.edge_bytes) + g.dimension * save_bytes g)
        + g.row_bytes
  pub saved : l.wfsc.bytes ≡ g.dimension * save_bytes g

pub letters_found :
    (memory : ℕ → ℕ) (p : ℕ) → has_letters (store memory p (codes "SOF")) p (codes "SOF") ≡ true
unfolding store has_letters
letters_found memory p = grind arith

pub missing_none :
    (fails : Bool) (n : ℕ) (input : Bytes) → n ≤ length input → missing fails n input ≡ pos 0
unfolding missing
missing_none fails n input h = ground arith

-- A frame as the reconstructor sends it.
pub record Sending : Type 0 where
  pub number : Bytes
  pub top : Bytes
  pub grid : List ImageRow
  pub bottom : Bytes

abbrev pub image_part : Sending → Bytes → Bytes
image_part f more = f.top ++ (sent_rows f.grid ++ (f.bottom ++ more))

pub record IsWhole (g : Geometry) (f : Sending) : Type 0 where
  pub number : length f.number ≡ 4
  pub top : length f.top ≡ g.row_bytes
  pub rows : length f.grid ≡ g.dimension
  pub width : HaveWidth g f.grid
  pub bottom : length f.bottom ≡ g.row_bytes

-- All parts of a frame come in time.
abbrev pub in_time : Bytes → Bool → Bool → Pass
in_time stale first last = record {
  sof_ready = true;
  number_ready = true;
  data_ready = true;
  stale = stale;
  first_fails = first;
  last_fails = last;
}

-- The letters and the number of a frame have been stored.
abbrev pub behind_header : Bytes → Receiver → Receiver
behind_header number r =
    let p = r.frames.data_ptr in
    record r {
      memory = store (store r.memory p (codes "SOF")) (p + 3) number;
      receiving = true;
      frames = record r.frames { data_ptr = p + 3 + 4 };
    }

missing_front :
    (fails : Bool) (n : ℕ) (xs ys : Bytes) → length xs ≡ n → missing fails n (xs ++ ys) ≡ pos 0
missing_front fails n xs ys h =
    missing_none fails n (xs ++ ys) (let long = length-append xs ys in omega arith)

module _ (nvalues : ℤ) where
  bytes_read_whole :
      (l : Layout) (g : Geometry)
      → IsFit l g
      → eq_ℤ (bytes_read nvalues g l.header_bytes (pos 0) (pos 0)) (pos l.total_bytes)
        ≡ eq_ℤ nvalues (pos 0)
  unfolding bytes_read
  bytes_read_whole l g h = elim nvalues [
    | pos n ↦ let e = h.total in ground arith
    | negsuc n ↦ let e = h.total in ground arith
  ]

  -- Behind a whole frame: the step to the next one, unless `nvalues` is not 0 by chance.
  abbrev pub taken : Receiver → WfscThread → WfscThread
  taken r w =
      if eq_ℤ nvalues (pos 0)
      then record w { receiver = record r { frames = stepped r.frames } }
      else stop r w

  pub check_frame-taken :
      (r : Receiver) (w : WfscThread)
      → IsFit r.frames.layout w.geometry
      → check_frame (bytes_read nvalues w.geometry r.frames.layout.header_bytes (pos 0) (pos 0)) r w
        ≡ taken r w
  unfolding check_frame advance
  check_frame-taken r w h =
      rw (bytes_read_whole r.frames.layout w.geometry h) (ground (arith, h.saved))

  module _ (stale : Bytes) (first last : Bool) (f : Sending) (more : Bytes) where
    take_frame-taken :
        (r : Receiver) (w : WfscThread)
        → r.input ≡ image_part f more
        → IsFit r.frames.layout w.geometry
        → IsWhole w.geometry f
        → take_frame nvalues (in_time stale first last) r w
          ≡ taken (stored r (pixels f.grid) more) w
    unfolding take_frame
    take_frame-taken r w e fit h =
        rw
          (
            e,
            missing_front first w.geometry.row_bytes f.top (sent_rows f.grid ++ (f.bottom ++ more))
                h.top,
            drop-append f.top (sent_rows f.grid ++ (f.bottom ++ more)) w.geometry.row_bytes h.top,
            read_rows-stored w.geometry w.geometry.dimension f.grid (f.bottom ++ more)
                (record r { input = sent_rows f.grid ++ (f.bottom ++ more) }) refl h.width h.rows,
            missing_front last w.geometry.row_bytes f.bottom more h.bottom,
            drop-append f.bottom more w.geometry.row_bytes h.bottom,
          )
          (check_frame-taken (stored r (pixels f.grid) more) w fit)

    wfsc_number-taken :
        (r : Receiver) (w : WfscThread)
        → r.input ≡ f.number ++ image_part f more
        → IsFit r.frames.layout w.geometry
        → IsWhole w.geometry f
        → wfsc_number nvalues (in_time stale first last) r w
          ≡ taken
              (stored
                (skip 4 (record r { memory = store r.memory r.frames.data_ptr f.number }))
                (pixels f.grid)
                more)
              w
    unfolding wfsc_number wfsc_data
    wfsc_number-taken r w e fit h =
        rw (read_part-append 4 f.number (image_part f more) r e h.number) (
          take_frame-taken
            (skip 4 (record r {
              memory = store r.memory r.frames.data_ptr f.number;
              input = image_part f more;
            }))
            w refl fit h)

    wfsc_sof-taken :
        (r : Receiver) (w : WfscThread)
        → r.input ≡ codes "SOF" ++ (f.number ++ image_part f more)
        → IsFit r.frames.layout w.geometry
        → IsWhole w.geometry f
        → wfsc_sof nvalues (in_time stale first last) (record r { receiving = true }) w
          ≡ taken (stored (behind_header f.number r) (pixels f.grid) more) w
    unfolding wfsc_sof
    wfsc_sof-taken r w e fit h =
        rw
          (
            read_part-append 3 (codes "SOF") (f.number ++ image_part f more)
                (record r { receiving = true }) e refl,
            letters_found r.memory r.frames.data_ptr,
          )
          (wfsc_number-taken _ w refl fit h)

  -- If all parts of a frame come in time, with as many rows and edges as its size announces,
  -- then PCR_GetWFSC stores the header and, behind it, the
  -- pixels between the edges, row by row, and takes just this frame from the connection. If the
  -- variable `nvalues`, which is never set, is 0, the frame becomes the one filled last, and the next
  -- one is to be filled; if it is not, the thread is told to stop.
  pub wfsc_frame-taken :
      (stale : Bytes) (first last : Bool) (f : Sending) (more : Bytes) (w : WfscThread)
      → w.receiver.input ≡ codes "SOF" ++ (f.number ++ image_part f more)
      → IsFit w.receiver.frames.layout w.geometry
      → IsWhole w.geometry f
      → wfsc_frame nvalues (in_time stale first last) w
        ≡ taken (stored (behind_header f.number w.receiver) (pixels f.grid) more) w
  unfolding wfsc_frame
  wfsc_frame-taken stale first last f more w e fit h =
      wfsc_sof-taken stale first last f more w.receiver w e fit h
