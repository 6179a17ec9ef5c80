-- ===== src/DataServer/Frames/Wfsc/Tests.antt =====
-- The theorems on the frames of the wavefront camera at concrete inputs.
use mmtao_old.Topbox.Sample.{ready}
use mmtao_old.DataServer.Frames.{Section, FrameData}
use mmtao_old.DataServer.Frames.Wfsc.{
  Geometry, WfscThread, WfscRound, set_size, wfsc_frame, wfsc_begin, get_wfsc,
}
use mmtao_old.DataServer.Frames.Wfsc.Rows.{pixels, stored}
use mmtao_old.DataServer.Frames.Wfsc.Stored.{
  Sending, in_time, image_part, taken, behind_header, wfsc_frame-taken,
}
use mmtao_old.DataServer.Frames.Wfsc.Truncated.{without_edges, wfsc_frame-broken}
use mmtao_old.DataServer.Frames.Wfsc.Sizes.{HasRoom, wfsc_begin-HasRoom}
use mmtao_old.DataServer.Frames.Wfsc.Ring.{IsShut, get_wfsc-IsShut}
use mmtao_old.DataServer.Frames.Receive.{network_word, word_from}
use mmtao_old.DataServer.Frames.Receive.Stored.{stepped}
use mmtao_old.DataServer.Frames.Receive.Laws.{IsInStep}
use mmtao_old.Base.{
  ℕ, ◌+◌, ◌*◌, ◌≡◌, ◌≤◌, ◌==◌, [], ◌∷◌, ◌++◌, suc, true, false, refl, arith, if◌then◌else◌, none,
  ◌⊎◌,
}
use mmtao_old.Base.Int.{pos, negsuc}
use mmtao_old.Base.Text.{Bytes, codes}
use mmtao_old.DataServer.Frames.Images.{view_of, View}

abbrev empty : Section
empty = record { offset = 7; bytes = 0 }

-- Two frames of the ring, for images of 2 x 2 pixels.
abbrev two_frames : ℕ → FrameData
two_frames total = record {
  num_frames = 2;
  layout = record {
    header_bytes = 7;
    wfsc = record { offset = 7; bytes = 8 };
    slope = empty;
    rtr = empty;
    cmd = empty;
    cur = empty;
    pos = empty;
    all = empty;
    total_bytes = total;
  };
  links = record { frame_ptr = λ j. j * 20; next_frame = λ j. if suc j == 2 then 0 else suc j };
  active = 0;
  data_ptr = 0;
  last = negsuc 0;
}

abbrev thread : ℕ → Geometry → Bytes → WfscThread
thread total g input = record {
  receiver = record {
    frames = two_frames total;
    memory = λ p. 0;
    connected = true;
    receiving = false;
    running = true;
    input = input;
  };
  geometry = g;
  reset = false;
  alive = true;
  intact = true;
}

two_frames-IsInStep : (total : ℕ) → IsInStep 20 (two_frames total)
two_frames-IsInStep total = record {
  ring = record { begins = λ j b. refl; leads = λ j b. refl };
  active = omega arith;
  follows = λ j e. absurd (ground (arith, e));
}

-- A row above and below of three bytes, and a byte to the left and right of each row.
abbrev edged : Geometry
edged = record { dimension = 2; row_bytes = 3; edge_bytes = 1 }

abbrev small_frame : Sending
small_frame = record {
  number = 0 ∷ 0 ∷ 0 ∷ 1 ∷ [];
  top = 9 ∷ 9 ∷ 9 ∷ [];
  grid =
      record { left = 9 ∷ []; middle = 1 ∷ 2 ∷ 3 ∷ 4 ∷ []; right = 9 ∷ [] }
      ∷ record { left = 9 ∷ []; middle = 5 ∷ 6 ∷ 7 ∷ 8 ∷ []; right = 9 ∷ [] }
      ∷ [];
  bottom = 9 ∷ 9 ∷ 9 ∷ [];
}

abbrev arriving : Bytes
arriving = codes "SOF" ++ (small_frame.number ++ image_part small_frame [])

wfsc_frame-taken_example :
    wfsc_frame (pos 0) (in_time [] false false) (thread 25 edged arriving)
    ≡ taken
        (pos 0)
        (stored
          (behind_header small_frame.number (thread 25 edged arriving).receiver)
          (pixels small_frame.grid)
          [])
        (thread 25 edged arriving)
wfsc_frame-taken_example =
    wfsc_frame-taken (pos 0) [] false false small_frame [] (thread 25 edged arriving) refl
      (record { total = refl; saved = refl })
      (record {
        number = refl;
        top = refl;
        rows = refl;
        width = ((refl, refl, refl), ((refl, refl, refl), tt));
        bottom = refl;
      })

-- Two of eight bytes come.
abbrev cut_short : WfscThread
cut_short = thread 15 (without_edges 2) (codes "SOF" ++ ((0 ∷ 0 ∷ 0 ∷ 1 ∷ []) ++ (5 ∷ 6 ∷ [])))

wfsc_frame-broken_example :
    (memory : ℕ → ℕ) × (left : Bytes) × (wfsc_frame (pos 0) (in_time [] false false) cut_short
      ≡ record cut_short {
        receiver = record cut_short.receiver {
          memory = memory;
          receiving = true;
          input = left;
          frames = stepped (two_frames 15);
        };
      })
    × ((q : ℕ) → 0 + 7 + 2 ≤ q → memory q ≡ 0)
wfsc_frame-broken_example =
    wfsc_frame-broken 2 [] false false cut_short (0 ∷ 0 ∷ 0 ∷ 1 ∷ []) (5 ∷ 6 ∷ []) refl refl
      (record { total = refl; saved = refl })

-- The size 12807.
abbrev announced : WfscThread
announced = thread 0 edged (0 ∷ 0 ∷ 50 ∷ 7 ∷ [])

wfsc_begin-HasRoom_example : HasRoom (wfsc_begin announced)
unfolding wfsc_begin set_size network_word word_from
wfsc_begin-HasRoom_example = wfsc_begin-HasRoom announced refl refl refl

abbrev a_round : WfscRound
a_round = record {
  quits = none;
  input = (0 ∷ 0 ∷ 4 ∷ 135 ∷ []) ++ arriving;
  ready = true;
  passes = in_time [] false false ∷ [];
  arrived = 0;
}

get_wfsc-IsShut_example :
    ((get_wfsc (pos 0) (a_round ∷ []) (thread 25 edged (0 ∷ 0 ∷ 4 ∷ 135 ∷ []))).intact ≡ false)
    ⊎ IsShut 20
        (a_round ∷ [])
        (get_wfsc (pos 0) (a_round ∷ []) (thread 25 edged (0 ∷ 0 ∷ 4 ∷ 135 ∷ [])))
get_wfsc-IsShut_example =
    get_wfsc-IsShut 20 (pos 0) (a_round ∷ []) (thread 25 edged (0 ∷ 0 ∷ 4 ∷ 135 ∷ []))
      (two_frames-IsInStep 25)

-- The ring behind the small frame.
abbrev taken_image : View
taken_image = view_of (wfsc_frame (pos 0) (in_time [] false false) (thread 25 edged arriving))
