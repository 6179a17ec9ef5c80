-- ===== src/DataServer/Frames/Wfsc/Ring.antt =====
-- What PCR_GetWFSC does to the ring.
use mmtao_old.DataServer.Frames.Wfsc.{
  Geometry, WfscThread, Pass, WfscRound, has_letters, wfsc_finish, leave, wfsc_receive, wfsc_found,
  search_overruns, read_row, read_rows, check_frame, take_frame, wfsc_data, wfsc_number,
  wfsc_search, wfsc_sof, wfsc_frame, wfsc_frames, set_size, wfsc_connect, wfsc_begin, wfsc_end,
  wfsc_round, discard, image, save_bytes, get_wfsc, wfsc_shutdown,
}
use mmtao_old.DataServer.Frames.Receive.{Receiver, read_part, break_off, skip}
use mmtao_old.DataServer.Frames.Receive.Laws.{IsInStep, advance-IsInStep}
use mmtao_old.DataServer.Frames.{FrameData}
use mmtao_old.DataServer.Pcr.FindSof.{find_sof}
use mmtao_old.Base.{
  ℕ, zero, suc, ◌==◌, ◌&&◌, Bool, Option, none, some, true, false, not, ◌⊎◌, ◌≢◌, List, [], ◌∷◌,
  length, inl, inr, if◌then◌else◌, ltb, Option-cases, ◌*◌, ◌≡◌, refl,
}
use mmtao_old.Base.Int.{ℤ, eq_ℤ, pos}
use mmtao_old.Base.Text.{Bytes, codes}

-- The same ring, whatever the place in the frame and the size of the image are.
abbrev elsewhere : FrameData → FrameData → FrameData
elsewhere d e = record d { data_ptr = e.data_ptr; layout = e.layout }

-- The thread's ring is in step.
pub record IsOnRing (width : ℕ) (w : WfscThread) : Type 0 where
  pub ring : IsInStep width w.receiver.frames

module _ (width : ℕ) where
  on_ring : (w : WfscThread) → IsInStep width w.receiver.frames → IsOnRing width w
  on_ring w h = record { ring = h }

  elsewhere-IsInStep : (d e : FrameData) → IsInStep width d → IsInStep width (elsewhere d e)
  elsewhere-IsInStep d e h = record { ring = h.ring; active = h.active; follows = h.follows }

  choice-IsOnRing :
      (b : Bool) (v w : WfscThread)
      → IsOnRing width v
      → IsOnRing width w
      → IsOnRing width (if b then v else w)
  choice-IsOnRing true v w h k = h
  choice-IsOnRing false v w h k = k

  read_rows-IsInStep :
      (k : ℕ) (g : Geometry) (r : Receiver)
      → IsInStep width r.frames
      → IsInStep width (read_rows k g r).frames
  unfolding read_rows read_row read_part
  read_rows-IsInStep zero g r h = h
  read_rows-IsInStep (suc k) g r h =
      read_rows-IsInStep k g (read_row g r) (elsewhere-IsInStep r.frames (read_row g r).frames h)

  check_frame-IsOnRing :
      (nread : ℤ) (r : Receiver) (w : WfscThread)
      → IsInStep width r.frames
      → IsOnRing width (check_frame nread r w)
  unfolding check_frame
  check_frame-IsOnRing nread r w h =
      choice-IsOnRing (not (eq_ℤ nread (pos r.frames.layout.total_bytes))) _ _ (on_ring _ h) (
        choice-IsOnRing
          (not (w.geometry.dimension * save_bytes w.geometry == r.frames.layout.wfsc.bytes)) _ _
          (on_ring _ h) (on_ring _ (advance-IsInStep width r.frames h)))

  module _ (nvalues : ℤ) where
    wfsc_data-IsOnRing :
        (t : Pass) (r : Receiver) (w : WfscThread)
        → IsInStep width r.frames
        → IsOnRing width (wfsc_data nvalues t r w)
    unfolding wfsc_data take_frame break_off
    wfsc_data-IsOnRing t r w h =
        choice-IsOnRing t.data_ready _ _
          (check_frame-IsOnRing _ _ w
            (read_rows-IsInStep w.geometry.dimension w.geometry (discard w.geometry.row_bytes r) h))
          (on_ring _ h)

    wfsc_number-IsOnRing :
        (t : Pass) (r : Receiver) (w : WfscThread)
        → IsInStep width r.frames
        → IsOnRing width (wfsc_number nvalues t r w)
    unfolding wfsc_number read_part break_off
    wfsc_number-IsOnRing t r w h =
        let s = skip 4 (read_part 4 r).1 in
        choice-IsOnRing (not t.number_ready) _ _ (on_ring _ h) (
          choice-IsOnRing ((read_part 4 r).0) _ _
            (wfsc_data-IsOnRing t s w (elsewhere-IsInStep r.frames s.frames h)) (on_ring _ h))

    wfsc_found-IsOnRing :
        (t : Pass) (r : Receiver) (w : WfscThread)
        → IsInStep width r.frames
        → IsOnRing width (wfsc_found nvalues t r w)
    unfolding wfsc_found
    wfsc_found-IsOnRing t r w h = elim (Option-cases (find_sof r.input)) [
      | inl gone ↦ rw (wfsc_found, gone) (on_ring _ h)
      | inr (f, e) ↦
          rw (wfsc_found, e)
            (wfsc_number-IsOnRing t _ w (elsewhere-IsInStep r.frames (skip 3 r).frames h))
    ]

    wfsc_search-IsOnRing :
        (t : Pass) (r : Receiver) (w : WfscThread)
        → IsInStep width r.frames
        → IsOnRing width (wfsc_search nvalues t r w)
    unfolding wfsc_search
    wfsc_search-IsOnRing t r w h =
        choice-IsOnRing (search_overruns r.input) _ _ (on_ring _ h) (wfsc_found-IsOnRing t r w h)

    wfsc_frame-IsOnRing :
        (t : Pass) (w : WfscThread) → IsOnRing width w → IsOnRing width (wfsc_frame nvalues t w)
    unfolding wfsc_frame wfsc_sof read_part break_off
    wfsc_frame-IsOnRing t w h =
        let s = (read_part 3 (record w.receiver { receiving = true })).1 in
        choice-IsOnRing t.sof_ready _ _
          (choice-IsOnRing (not (read_part 3 (record w.receiver { receiving = true })).0) _ _
            (on_ring _ h.ring)
            (choice-IsOnRing (has_letters s.memory s.frames.data_ptr (codes "SOF")) _ _
              (wfsc_number-IsOnRing t (skip 3 s) w
                (elsewhere-IsInStep s.frames (skip 3 s).frames h.ring))
              (wfsc_search-IsOnRing t s w h.ring)))
          (on_ring _ h.ring)

    wfsc_frames-IsOnRing :
        (ts : List Pass) (w : WfscThread)
        → IsOnRing width w
        → IsOnRing width (wfsc_frames nvalues ts w)
    unfolding wfsc_frames
    wfsc_frames-IsOnRing [] w h = h
    wfsc_frames-IsOnRing (t ∷ ts) w h =
        choice-IsOnRing (w.intact && w.receiver.running && not w.reset) _ _
          (wfsc_frames-IsOnRing ts _ (wfsc_frame-IsOnRing t w h)) h

  set_size-IsOnRing : (n : ℕ) (w : WfscThread) → IsOnRing width w → IsOnRing width (set_size n w)
  unfolding set_size
  set_size-IsOnRing n w h =
      choice-IsOnRing (n == 1159) _ _
        (on_ring _ (elsewhere-IsInStep w.receiver.frames (image n 24 0 0 w).receiver.frames h.ring))
        (choice-IsOnRing (n == 1359) _ _
          (on_ring _
            (elsewhere-IsInStep w.receiver.frames (image n 24 52 2 w).receiver.frames h.ring))
          (choice-IsOnRing (n == 10375) _ _
            (on_ring _
              (elsewhere-IsInStep w.receiver.frames (image n 72 0 0 w).receiver.frames h.ring))
            (choice-IsOnRing (n == 12807) _ _
              (on_ring _
                (elsewhere-IsInStep w.receiver.frames (image n 72 640 8 w).receiver.frames h.ring))
              (on_ring _ h.ring))))

  wfsc_begin-IsOnRing : (w : WfscThread) → IsOnRing width w → IsOnRing width (wfsc_begin w)
  unfolding wfsc_begin break_off
  wfsc_begin-IsOnRing w h =
      choice-IsOnRing (ltb (length w.receiver.input) 4) _ _ (on_ring _ h.ring)
        (set_size-IsOnRing _ _ (on_ring _ h.ring))

  wfsc_connect-IsOnRing :
      (input : Bytes) (w : WfscThread) → IsOnRing width w → IsOnRing width (wfsc_connect input w)
  unfolding wfsc_connect
  wfsc_connect-IsOnRing input w h = choice-IsOnRing w.receiver.connected _ _ h (on_ring _ h.ring)

  module _ (nvalues : ℤ) where
    wfsc_receive-IsOnRing :
        (o : WfscRound) (c : WfscThread)
        → IsOnRing width c
        → IsOnRing width (wfsc_receive nvalues o c)
    unfolding wfsc_receive wfsc_end
    wfsc_receive-IsOnRing o c h =
        let b = wfsc_begin-IsOnRing c h in
        let v = wfsc_frames-IsOnRing nvalues o.passes (wfsc_begin c) b in
        choice-IsOnRing (not o.ready) _ _ h (
          choice-IsOnRing ((wfsc_begin c).receiver.connected && (wfsc_begin c).receiver.running) _ _
            (choice-IsOnRing ((wfsc_frames nvalues o.passes (wfsc_begin c)).intact) _ _
              (on_ring _ v.ring) v)
            b)

    wfsc_round-IsOnRing :
        (o : WfscRound) (w : WfscThread)
        → IsOnRing width w
        → IsOnRing width (wfsc_round nvalues o w)
    unfolding wfsc_round
    wfsc_round-IsOnRing o w h =
        wfsc_receive-IsOnRing o (wfsc_connect o.input w) (wfsc_connect-IsOnRing o.input w h)

-- In one of the rounds the thread is told to stop while it tries to connect.
abbrev pub IsLeft : List WfscRound → Type 0
IsLeft [] = ⊥
IsLeft (o ∷ rest) = (o.quits ≢ none) ⊎ IsLeft rest

-- The thread has ended.
pub record IsShut (width : ℕ) (rounds : List WfscRound) (w : WfscThread) : Type 0 where
  pub ring : IsInStep width w.receiver.frames
  pub ended : w.alive ≡ false
  pub closed : ((w.receiver.connected ≡ false) × (w.receiver.receiving ≡ false)) ⊎ IsLeft rounds

module _ (width : ℕ) where
  Shuts : List WfscRound → WfscThread → Type 0
  Shuts rounds w = (w.intact ≡ false) ⊎ IsShut width rounds w

  closed_unless :
      (up : Bool) (r : Receiver)
      → r.connected ≡ up
      → IsInStep width r.frames
      → let q = if up then break_off r else r in IsInStep width q.frames × (q.connected ≡ false)
  unfolding break_off
  closed_unless true r e h = (h, refl)
  closed_unless false r e h = (h, e)

  wfsc_shutdown-IsShut :
      (rounds : List WfscRound) (w : WfscThread)
      → IsOnRing width w
      → IsShut width rounds (wfsc_shutdown w)
  unfolding wfsc_shutdown
  wfsc_shutdown-IsShut rounds w h =
      let q = closed_unless w.receiver.connected w.receiver refl h.ring in
      record { ring = q.0; ended = refl; closed = inl (q.1, refl) }

  finish_when :
      (whole : Bool) (rounds : List WfscRound) (w : WfscThread)
      → w.intact ≡ whole
      → IsOnRing width w
      → Shuts rounds (if whole then wfsc_shutdown w else w)
  unfolding Shuts
  finish_when true rounds w e h = inr (wfsc_shutdown-IsShut rounds w h)
  finish_when false rounds w e h = inl e

  wfsc_finish-Shuts :
      (rounds : List WfscRound) (w : WfscThread) → IsOnRing width w → Shuts rounds (wfsc_finish w)
  unfolding wfsc_finish
  wfsc_finish-Shuts rounds w h = finish_when w.intact rounds w refl h

  choice-Shuts :
      (b : Bool) (rounds : List WfscRound) (v w : WfscThread)
      → Shuts rounds v
      → Shuts rounds w
      → Shuts rounds (if b then v else w)
  choice-Shuts true rounds v w h k = h
  choice-Shuts false rounds v w h k = k

  later-Shuts :
      (o : WfscRound) (rounds : List WfscRound) (w : WfscThread)
      → Shuts rounds w
      → Shuts (o ∷ rounds) w
  unfolding Shuts
  later-Shuts o rounds w (inl broken) = inl broken
  later-Shuts o rounds w (inr h) = inr (record {
    ring = h.ring;
    ended = h.ended;
    closed = elim h.closed [ inl shut ↦ inl shut | inr gone ↦ inr (inr gone) ];
  })

  quits-Shuts :
      (q : Option Bool) (o : WfscRound) (rounds : List WfscRound) (v w : WfscThread)
      → o.quits ≡ q
      → IsOnRing width w
      → Shuts (o ∷ rounds) v
      → Shuts (o ∷ rounds) (elim q [ some opened ↦ leave opened o.input w | none ↦ v ])
  unfolding Shuts
  quits-Shuts none o rounds v w e h k = k
  quits-Shuts (some opened) o rounds v w e h k =
      inr (record { ring = h.ring; ended = refl; closed = inr (inl (λ same. absurd (cc))) })

  get_wfsc-Shuts :
      (nvalues : ℤ) (rounds : List WfscRound) (w : WfscThread)
      → IsOnRing width w
      → Shuts rounds (get_wfsc nvalues rounds w)
  unfolding get_wfsc
  get_wfsc-Shuts nvalues [] w h = wfsc_finish-Shuts [] w h
  get_wfsc-Shuts nvalues (o ∷ rest) w h =
      let v = get_wfsc nvalues rest (wfsc_round nvalues o w) in
      let later = later-Shuts o rest v (
        get_wfsc-Shuts nvalues rest (wfsc_round nvalues o w)
          (wfsc_round-IsOnRing width nvalues o w h)) in
      choice-Shuts (not (w.intact && w.receiver.running)) (o ∷ rest) _ _
        (wfsc_finish-Shuts (o ∷ rest) w h)
        (choice-Shuts w.receiver.connected (o ∷ rest) _ _ later
          (quits-Shuts o.quits o rest v w refl h later))

-- Whatever arrives over whatever connections, and whatever PCR_GetWFSC reads of it, when the thread has
-- ended, `running` is cleared and the ring is in step: the active frame is within the ring, and the
-- frame filled last, if there is one, is the one before it. The connection is then closed, and
-- `receiving_data` cleared, unless the thread was told to stop in the loop that connects. Nothing is
-- said of a thread in which PCR_FindSOF has written behind its buffer.
pub get_wfsc-IsShut :
    (width : ℕ) (nvalues : ℤ) (rounds : List WfscRound) (w : WfscThread)
    → IsInStep width w.receiver.frames
    → ((get_wfsc nvalues rounds w).intact ≡ false) ⊎ IsShut width rounds (get_wfsc nvalues rounds w)
unfolding Shuts
get_wfsc-IsShut width nvalues rounds w h =
    get_wfsc-Shuts width nvalues rounds w (record { ring = h })
