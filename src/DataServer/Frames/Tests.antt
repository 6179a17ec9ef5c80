-- ===== src/DataServer/Frames/Tests.antt =====
-- The theorems on the rings of frames at concrete inputs.
use mmtao_old.DataServer.Frames.{
  Section, Layout, Links, FrameData, dm_layout, number_of_frames, frame_header, total_wfsc_bytes,
  init_dm, init_wfsc, init_slopes,
}
use mmtao_old.DataServer.Frames.Linked.{IsFresh, IsPacked, init-IsFresh}
use mmtao_old.DataServer.Frames.Receive.{
  Receiver, store, get_frame, reconnect, network_word, word_from,
}
use mmtao_old.DataServer.Frames.Receive.Laws.{IsInStep}
use mmtao_old.DataServer.Frames.Receive.Stored.{
  stepped, prompt, late, filled, get_frame-stored, get_frame-shifted,
}
use mmtao_old.Base.{
  ◌≡◌, [], ◌∷◌, ◌++◌, true, false, refl, arith, suc, ◌+◌, ◌*◌, ◌==◌, if◌then◌else◌,
}
use mmtao_old.Base.Int.{negsuc}
use mmtao_old.Base.Text.{codes, Bytes}

-- What `malloc` gave.
abbrev blank : Links
blank = record { frame_ptr = λ j. 0; next_frame = λ j. 0 }

init-IsFresh_example :
    IsFresh (number_of_frames * dm_layout.total_bytes) dm_layout.total_bytes (init_dm blank)
    × IsPacked (init_dm blank).layout
    × IsFresh (number_of_frames * total_wfsc_bytes) total_wfsc_bytes (init_wfsc dm_layout blank)
    × IsFresh
        (number_of_frames * (frame_header + 576))
        (frame_header + 576)
        (init_slopes dm_layout blank)
init-IsFresh_example = init-IsFresh dm_layout blank

-- A ring of two frames, of two bytes each behind the header.
abbrev none_of_it : Section
none_of_it = record { offset = 9; bytes = 0 }

abbrev small_layout : Layout
small_layout = record {
  header_bytes = 7;
  wfsc = record { offset = 7; bytes = 2 };
  slope = none_of_it;
  rtr = none_of_it;
  cmd = none_of_it;
  cur = none_of_it;
  pos = none_of_it;
  all = record { offset = 7; bytes = 2 };
  total_bytes = 9;
}

abbrev small_ring : FrameData
small_ring = record {
  num_frames = 2;
  layout = small_layout;
  links = record { frame_ptr = λ j. j * 9; next_frame = λ j. if suc j == 2 then 0 else suc j };
  active = 0;
  data_ptr = 0;
  last = negsuc 0;
}

abbrev waiting_for : Bytes → Receiver
waiting_for input = record {
  frames = small_ring;
  memory = λ p. 0;
  connected = true;
  receiving = false;
  running = true;
  input = input;
}

-- Frame 1 with the data 5 6, and the begin of another one.
abbrev arriving : Bytes
arriving = codes "SOF" ++ ((0 ∷ 0 ∷ 0 ∷ 1 ∷ []) ++ ((5 ∷ 6 ∷ []) ++ codes "SO"))

small_ring-IsInStep : IsInStep 9 small_ring
small_ring-IsInStep = record {
  ring = record { begins = λ j b. refl; leads = λ j b. refl };
  active = omega arith;
  follows = λ j e. absurd (ground (arith, e));
}

get_frame-stored_example :
    get_frame (prompt []) (waiting_for arriving) ≡ record (waiting_for arriving) {
      memory = filled (λ p. 0) 0 (0 ∷ 0 ∷ 0 ∷ 1 ∷ []) (5 ∷ 6 ∷ []);
      receiving = true;
      input = codes "SO";
      frames = stepped small_ring;
    }
get_frame-stored_example =
    get_frame-stored [] (waiting_for arriving) (0 ∷ 0 ∷ 0 ∷ 1 ∷ []) (5 ∷ 6 ∷ []) (codes "SO") refl
      refl refl refl

nine : network_word (0 ∷ 0 ∷ 0 ∷ 9 ∷ []) ≡ 9
unfolding network_word word_from
nine = refl

get_frame-shifted_example :
    get_frame (prompt []) (
      reconnect
        ((0 ∷ 0 ∷ 0 ∷ 9 ∷ []) ++ arriving)
        (get_frame (late []) (waiting_for (codes "SOF"))))
    ≡ record (waiting_for (codes "SOF")) {
      memory = filled (store (λ p. 0) 0 (codes "SOF")) 3 (0 ∷ 0 ∷ 0 ∷ 1 ∷ []) (5 ∷ 6 ∷ []);
      connected = true;
      receiving = true;
      input = codes "SO";
      frames = stepped small_ring;
    }
get_frame-shifted_example =
    get_frame-shifted [] (waiting_for (codes "SOF")) [] (0 ∷ 0 ∷ 0 ∷ 9 ∷ []) (0 ∷ 0 ∷ 0 ∷ 1 ∷ [])
      (5 ∷ 6 ∷ []) (codes "SO") refl refl refl refl nine refl refl

abbrev everything : Bytes
everything = codes "wfsc spots slope rtr cmd cur pos"
