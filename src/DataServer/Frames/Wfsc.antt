-- ===== src/DataServer/Frames/Wfsc.antt =====
-- PCR_GetWFSC: how the frames of the wavefront camera come into the ring of the WFSC data. Their
-- size is said at the begin of each start_WFSC; edges of the image are read and thrown away. The
-- rates and the debug output are left out.
pub mod Ring
pub mod Rows
pub mod Sizes
pub mod Stored
pub mod Truncated
mod Tests
use mmtao_old.DataServer.Frames.{Layout, Section}
use mmtao_old.DataServer.Frames.Receive.{
  Receiver, read_part, break_off, skip, store, advance, network_word,
}
use mmtao_old.DataServer.Pcr.FindSof.{find_sof}
use mmtao_old.Base.{
  ℕ, zero, suc, ◌+◌, ◌-◌, ◌*◌, ◌==◌, Bool, true, false, not, ◌&&◌, Option, none, some, List, [],
  ◌∷◌, ◌++◌, if◌then◌else◌, length, take, drop, ltb,
}
use mmtao_old.Base.Int.{ℤ, pos, negsuc, eq_ℤ}
use mmtao_old.Base.Text.{Bytes, codes}

-- What the size of a frame says of the image.
pub record Geometry : Type 0 where
  pub dimension : ℕ
  pub row_bytes : ℕ  -- extra_row_bytes
  pub edge_bytes : ℕ  -- extra_edge_bytes

pub record WfscThread : Type 0 where
  pub receiver : Receiver
  pub geometry : Geometry
  pub reset : Bool
  pub alive : Bool  -- the flag `running`
  pub intact : Bool  -- until PCR_FindSOF has written behind its buffer

-- What `select` reports before each part of a frame, what the stack holds behind the letters that
-- PCR_FindSOF copies, and whether a broken connection is an error to the two calls of Socket_Read
-- for the rows that are thrown away, or the end of the stream.
pub record Pass : Type 0 where
  pub sof_ready : Bool
  pub number_ready : Bool
  pub data_ready : Bool
  pub stale : Bytes
  pub first_fails : Bool
  pub last_fails : Bool

abbrev pub plus : ℤ → ℕ → ℤ
plus (pos a) k = pos (a + k)
plus (negsuc a) k = if ltb a k then pos (k - a - 1) else negsuc (a - k)

abbrev pub minus : ℤ → ℤ → ℤ
minus (pos a) (pos b) = if ltb a b then negsuc (b - a - 1) else pos (a - b)
minus (pos a) (negsuc b) = pos (a + suc b)
minus (negsuc a) (pos b) = negsuc (a + b)
minus (negsuc a) (negsuc b) = if ltb b a then negsuc (a - b - 1) else pos (b - a)

-- What Socket_Read of `n` bytes returns: what is missing, or -1.
unfoldable pub missing : Bool → ℕ → Bytes → ℤ
missing fails n input =
    if ltb (length input) n then if fails then negsuc 0 else pos (n - length input) else pos 0

-- Socket_Read to `skipPtr`.
abbrev pub discard : ℕ → Receiver → Receiver
discard n r = record r { input = drop n r.input }

-- save_bytes
abbrev pub save_bytes : Geometry → ℕ
save_bytes g = g.dimension * 2

unfoldable pub read_row : Geometry → Receiver → Receiver
read_row g r =
    let s = (read_part (save_bytes g) (discard g.edge_bytes r)).1 in
    discard g.edge_bytes (skip (save_bytes g) s)

-- The loop over the rows; what Socket_Read returns there goes to `nerror`, which nothing reads.
unfoldable pub read_rows : ℕ → Geometry → Receiver → Receiver
read_rows zero g r = r
read_rows (suc rounds) g r = read_rows rounds g (read_row g r)

-- `strncmp( p, s, strlen(s)) == 0`
unfoldable pub has_letters : (ℕ → ℕ) → ℕ → Bytes → Bool
has_letters memory p [] = true
has_letters memory p (c ∷ cs) =
    let rest = has_letters memory (suc p) cs in if memory p == c then rest else false

-- PCR_FindSOF behind its first S: each S more moves the place that is read into, and two bytes are
-- read behind the last S. The 120 places of `reply` may not be enough.
s_overruns : ℕ → Bytes → Bool
s_overruns index [] = false
s_overruns index (c ∷ cs) =
    let later = s_overruns (suc index) cs in
    if not (ltb index 120)
    then true
    else if c == b'S'
    then later
    else ltb 0 (length cs) && not (ltb (suc index) 120)

unfoldable pub search_overruns : Bytes → Bool
unfolding s_overruns
search_overruns [] = false
search_overruns (c ∷ cs) =
    let later = search_overruns cs in if c == b'S' then s_overruns 1 cs else later

abbrev pub close_and_reset : Receiver → WfscThread → WfscThread
close_and_reset r w = record w { receiver = break_off r; reset = true }

-- continueRunning is cleared.
abbrev pub stop : Receiver → WfscThread → WfscThread
stop r w = record w { receiver = record r { running = false } }

-- The two checks behind a frame, and the step to the next one.
unfoldable pub check_frame : ℤ → Receiver → WfscThread → WfscThread
check_frame nread r w =
    if not (eq_ℤ nread (pos r.frames.layout.total_bytes))
    then stop r w
    else if not (w.geometry.dimension * save_bytes w.geometry == r.frames.layout.wfsc.bytes)
    then stop r w
    else record w { receiver = record r { frames = advance r.frames } }

-- `nvalues` is an int that is never set. The sums are not cut to 32 bits: what is summed up besides
-- it is far below 2 ^ 31, so that no sum is a multiple of 2 ^ 32 away from the one that is expected.
module _ (nvalues : ℤ) where
  -- nread at the check
  unfoldable pub bytes_read : Geometry → ℕ → ℤ → ℤ → ℤ
  bytes_read g header first last =
      let skipped = minus (pos (header + g.row_bytes)) first in
      let rows = g.dimension * (g.edge_bytes + g.edge_bytes) + g.dimension * save_bytes g in
      minus (plus (minus (plus skipped rows) nvalues) g.row_bytes) last

  unfoldable pub take_frame : Pass → Receiver → WfscThread → WfscThread
  take_frame t r w =
      let g = w.geometry in
      let s = read_rows g.dimension g (discard g.row_bytes r) in
      let first = missing t.first_fails g.row_bytes r.input in
      let last = missing t.last_fails g.row_bytes s.input in
      check_frame (bytes_read g r.frames.layout.header_bytes first last) (discard g.row_bytes s) w

  unfoldable pub wfsc_data : Pass → Receiver → WfscThread → WfscThread
  wfsc_data t r w = if t.data_ready then take_frame t r w else close_and_reset r w

  unfoldable pub wfsc_number : Pass → Receiver → WfscThread → WfscThread
  wfsc_number t r w =
      let (whole, s) = read_part 4 r in
      if not t.number_ready
      then close_and_reset r w
      else if whole
      then wfsc_data t (skip 4 s) w
      else close_and_reset s w

  -- PCR_FindSOF; a connection that it finds broken is not closed.
  wfsc_found : Pass → Receiver → WfscThread → WfscThread
  wfsc_found t r w = elim (find_sof r.input) [
    | none ↦ record w { receiver = record r { input = [] }; reset = true }
    | some f ↦
        wfsc_number t
          (skip 3 (record r {
            memory = store r.memory r.frames.data_ptr (f.letters ++ t.stale ++ 0 ∷ []);
            input = f.rest;
          }))
          w
  ]

  unfoldable pub wfsc_search : Pass → Receiver → WfscThread → WfscThread
  unfolding wfsc_found search_overruns
  wfsc_search t r w =
      if search_overruns r.input
      then record w { receiver = r; intact = false }
      else wfsc_found t r w

  unfoldable pub wfsc_sof : Pass → Receiver → WfscThread → WfscThread
  wfsc_sof t r w =
      let (whole, s) = read_part 3 r in
      if not whole
      then close_and_reset s w
      else if has_letters s.memory s.frames.data_ptr (codes "SOF")
      then wfsc_number t (skip 3 s) w
      else wfsc_search t s w

  -- A pass of the loop over the frames.
  unfoldable pub wfsc_frame : Pass → WfscThread → WfscThread
  wfsc_frame t w =
      if t.sof_ready
      then wfsc_sof t (record w.receiver { receiving = true }) w
      else record w { receiver = record w.receiver { receiving = false } }

  -- The loop over the frames; at the end of the list another thread ends it or asks for a reset.
  unfoldable pub wfsc_frames : List Pass → WfscThread → WfscThread
  wfsc_frames [] w = w
  wfsc_frames (t ∷ rest) w =
      let later = wfsc_frames rest (wfsc_frame t w) in
      if w.intact && w.receiver.running && not w.reset then later else w

-- The sizes of a frame that are expected: 24 x 24 or 72 x 72, without and with the edges.
abbrev pub image : ℕ → ℕ → ℕ → ℕ → WfscThread → WfscThread
image nbytes dimension row edge w =
    let r = w.receiver in
    let l = r.frames.layout in
    record w {
      receiver = record r {
        frames = record r.frames {
          layout = record l {
            wfsc = record l.wfsc { bytes = dimension * dimension * 2 };
            total_bytes = nbytes;
          };
        };
      };
      geometry = record { dimension = dimension; row_bytes = row; edge_bytes = edge };
    }

unfoldable pub set_size : ℕ → WfscThread → WfscThread
set_size nbytes w =
    if nbytes == 1159
    then image nbytes 24 0 0 w
    else if nbytes == 1359
    then image nbytes 24 (26 * 2) (1 * 2) w
    else if nbytes == 10375
    then image nbytes 72 0 0 w
    else if nbytes == 12807
    then image nbytes 72 (4 * 80 * 2) (4 * 2) w
    else stop w.receiver w

-- A connection on which start_WFSC was sent; one that is open stays.
unfoldable pub wfsc_connect : Bytes → WfscThread → WfscThread
wfsc_connect input w =
    if w.receiver.connected
    then w
    else record w { receiver = record w.receiver { connected = true; input = input } }

-- The size of the frames, once input waits.
unfoldable pub wfsc_begin : WfscThread → WfscThread
wfsc_begin w =
    let r = w.receiver in
    if ltb (length r.input) 4
    then record w { receiver = break_off r; reset = false }
    else set_size (network_word (take 4 r.input))
        (record w { receiver = record r { input = drop 4 r.input }; reset = false })

-- Behind the loop over the frames: what has arrived is flushed.
unfoldable pub wfsc_end : ℕ → WfscThread → WfscThread
wfsc_end arrived w =
    let r = w.receiver in
    record w {
      receiver = record r {
        receiving = false;
        input = if r.connected then drop arrived r.input else r.input;
      };
    }

-- The end of the thread.
unfoldable pub wfsc_shutdown : WfscThread → WfscThread
wfsc_shutdown w =
    let r = w.receiver in
    record w {
      receiver = record (if r.connected then break_off r else r) { receiving = false };
      alive = false;
    }

-- What happens in a pass of the outer loop: whether `continueRunning` is found cleared after one of
-- the attempts to connect, and whether that attempt was a success; else what the new connection
-- brings, whether `select` reports
-- input, the passes of the inner loop, and how much has arrived at the flush.
pub record WfscRound : Type 0 where
  pub quits : Option Bool
  pub input : Bytes
  pub ready : Bool
  pub passes : List Pass
  pub arrived : ℕ

-- The return from the loop that connects.
abbrev pub leave : Bool → Bytes → WfscThread → WfscThread
leave opened input w = record w {
  receiver = record w.receiver {
    connected = opened;
    running = false;
    input = if opened then input else [];
  };
  alive = false;
}

-- Behind the connection.
unfoldable pub wfsc_receive : ℤ → WfscRound → WfscThread → WfscThread
wfsc_receive nvalues o c =
    let b = wfsc_begin c in
    let v = wfsc_frames nvalues o.passes b in
    if not o.ready
    then c
    else if b.receiver.connected && b.receiver.running
    then if v.intact then wfsc_end o.arrived v else v
    else b

unfoldable pub wfsc_round : ℤ → WfscRound → WfscThread → WfscThread
unfolding wfsc_receive
wfsc_round nvalues o w = wfsc_receive nvalues o (wfsc_connect o.input w)

-- The end of the thread, if nothing has gone wrong.
unfoldable pub wfsc_finish : WfscThread → WfscThread
unfolding wfsc_shutdown
wfsc_finish w = if w.intact then wfsc_shutdown w else w

-- PCR_GetWFSC; at the end of the list another thread clears continueRunning.
unfoldable pub get_wfsc : ℤ → List WfscRound → WfscThread → WfscThread
unfolding wfsc_finish wfsc_round
get_wfsc nvalues [] w = wfsc_finish w
get_wfsc nvalues (o ∷ rest) w =
    let later = get_wfsc nvalues rest (wfsc_round nvalues o w) in
    if not (w.intact && w.receiver.running)
    then wfsc_finish w
    else if w.receiver.connected
    then later
    else elim o.quits [ some opened ↦ leave opened o.input w | none ↦ later ]
