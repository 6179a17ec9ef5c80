-- ===== src/DataServer/Frames.antt =====
-- The rings of frames in which the data server keeps what the reconstructor sends: DServ_Data
-- (data_server/include/DServ.h), DServ_InitDM, DServ_InitWFSC and DServ_InitSlopes. An address is
-- the distance from the beginning of `buffer`; a `char` has one byte, a `short` two, an `int` four.
pub mod Images
pub mod Linked
pub mod Receive
pub mod Sets
pub mod Single
pub mod Stream
pub mod Wfsc
mod Tests
use mmtao_old.Base.{ℕ, zero, suc, ◌+◌, ◌-◌, ◌*◌, ◌==◌, if◌then◌else◌}
use mmtao_old.Base.Int.{ℤ, pos, negsuc}

-- Where a part of a frame begins, and its length.
pub record Section : Type 0 where
  pub offset : ℕ
  pub bytes : ℕ

pub record Layout : Type 0 where
  pub header_bytes : ℕ
  pub wfsc : Section
  pub slope : Section
  pub rtr : Section
  pub cmd : Section
  pub cur : Section
  pub pos : Section
  pub all : Section
  pub total_bytes : ℕ

-- The arrays `framePtr` and `nextFrame`.
pub record Links : Type 0 where
  pub frame_ptr : ℕ → ℕ
  pub next_frame : ℕ → ℕ

pub record FrameData : Type 0 where
  pub num_frames : ℕ
  pub layout : Layout
  pub links : Links
  pub active : ℕ
  pub data_ptr : ℕ
  pub last : ℤ

-- An array after an assignment to one of its places.
abbrev pub assign : (ℕ → ℕ) → ℕ → ℕ → ℕ → ℕ
assign a i v j = if j == i then v else a j

-- The loop that links the frames, with `i` for the `i - 1` of the source and `rounds` for what is
-- left of it; `width` lies between two frames.
unfoldable pub link_frames : ℕ → ℕ → ℕ → Links → Links
link_frames width zero i a = record a { next_frame = assign a.next_frame i 0 }
link_frames width (suc rounds) i a = link_frames width rounds (suc i) (record a {
  next_frame = assign a.next_frame i (suc i);
  frame_ptr = assign a.frame_ptr (suc i) (a.frame_ptr i + width);
})

-- The arrays as `malloc` gave them, with the first frame set.
unfoldable pub make_links : ℕ → ℕ → Links → Links
unfolding link_frames
make_links n width a = link_frames width (n - 1) 0 (record a { frame_ptr = assign a.frame_ptr 0 0 })

abbrev pub number_of_frames : ℕ
number_of_frames = 1000

-- HEADER_BYTES: "SOF" and the number of the frame.
abbrev pub frame_header : ℕ
frame_header = 3 + 4

-- TOTAL_WFSC_BYTES
abbrev pub total_wfsc_bytes : ℕ
total_wfsc_bytes = frame_header + 72 * 72 * 2

abbrev pub dm_layout : Layout
dm_layout = record {
  header_bytes = frame_header;
  wfsc = record { offset = frame_header; bytes = 24 * 24 * 2 };
  slope = record { offset = frame_header + 1152; bytes = 2 * 12 * 12 * 2 };
  rtr = record { offset = frame_header + 1152 + 576; bytes = 336 * 2 };
  cmd = record { offset = frame_header + 1152 + 576 + 672; bytes = 336 * 2 };
  cur = record { offset = frame_header + 1152 + 576 + 672 * 2; bytes = 336 * 2 };
  pos = record { offset = frame_header + 1152 + 576 + 672 * 3; bytes = 336 * 2 };
  all = record { offset = frame_header; bytes = 1152 + 576 + 672 * 4 };
  total_bytes = frame_header + 1152 + 576 + 672 * 4;
}

-- DServ_InitDM; `a` is what the arrays hold before.
unfoldable pub init_dm : Links → FrameData
unfolding make_links
init_dm a =
    let linked = make_links number_of_frames dm_layout.total_bytes a in
    record {
      num_frames = number_of_frames;
      layout = dm_layout;
      links = linked;
      active = 0;
      data_ptr = linked.frame_ptr 0;
      last = negsuc 0;
    }

-- DServ_InitWFSC; `old` is what the storage holds before.
unfoldable pub init_wfsc : Layout → Links → FrameData
unfolding make_links
init_wfsc old a =
    let linked = make_links number_of_frames total_wfsc_bytes a in
    record {
      num_frames = number_of_frames;
      layout = record old {
        header_bytes = frame_header;
        wfsc = record { offset = frame_header; bytes = 0 };
        total_bytes = 0;
      };
      links = linked;
      active = 0;
      data_ptr = linked.frame_ptr 0;
      last = negsuc 0;
    }

-- DServ_InitSlopes; `old` is what the storage holds before.
unfoldable pub init_slopes : Layout → Links → FrameData
unfolding make_links
init_slopes old a =
    let linked = make_links number_of_frames (frame_header + 576) a in
    record {
      num_frames = number_of_frames;
      layout = record old {
        header_bytes = frame_header;
        slope = record { offset = frame_header; bytes = 576 };
        total_bytes = frame_header + 576;
      };
      links = linked;
      active = 0;
      data_ptr = linked.frame_ptr 0;
      last = negsuc 0;
    }
