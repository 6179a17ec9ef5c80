-- ===== src/DataServer/Frames/Receive/Stored.antt =====
-- Where PCR_GetDM stores a frame.
use mmtao_old.DataServer.Frames.Receive.{
  Receiver, Turn, store, is_start_of, advance, get_data, get_number, get_sof, get_frame, reconnect,
  break_off, network_word,
}
use mmtao_old.DataServer.Frames.Receive.Laws.{read_part-append, take-append, drop-append}
use mmtao_old.DataServer.Frames.{FrameData}
use mmtao_old.Base.Int.{pos}
use mmtao_old.Base.{
  ℕ, ◌+◌, ◌-◌, ◌≡◌, true, ◌++◌, length, refl, arith, ap, ◌∙◌, false, [], length-append,
}
use mmtao_old.Base.Text.{Bytes, codes}

-- All parts of a frame come in time.
abbrev pub prompt : Bytes → Turn
prompt stale = record { sof_ready = true; number_ready = true; data_ready = true; stale = stale }

pub sof_accepted :
    (memory : ℕ → ℕ) (p : ℕ)
    → memory (p + 3) ≡ 0
    → is_start_of (store memory p (codes "SOF")) p (codes "SOF") ≡ true
unfolding store is_start_of
sof_accepted memory p h = grind arith

-- What the buffer holds after a frame that began at `p`.
abbrev pub filled : (ℕ → ℕ) → ℕ → Bytes → Bytes → ℕ → ℕ
filled memory p number frame =
    store (store (store memory p (codes "SOF")) (p + 3) number) (p + 7) frame

after_letters :
    (memory : ℕ → ℕ) (p : ℕ) → memory (p + 6) ≡ 0 → store memory p (codes "SOF") (p + 3 + 3) ≡ 0
unfolding store
after_letters memory p h =
    let six : p + 6 ≡ p + 3 + 3 = omega arith in let behind = rw six at h in grind arith

-- The active frame is the one filled last, and the next one of the ring is to be filled.
abbrev pub stepped : FrameData → FrameData
stepped d = record d {
  last = pos d.active;
  active = d.links.next_frame d.active;
  data_ptr = d.links.frame_ptr (d.links.next_frame d.active);
}

module _ (stale : Bytes) where
  get_data-stored :
      (r : Receiver) (frame more : Bytes)
      → r.input ≡ frame ++ more
      → length frame ≡ r.frames.layout.total_bytes - r.frames.layout.header_bytes
      → get_data (prompt stale) r ≡ record r {
        memory = store r.memory r.frames.data_ptr frame;
        input = more;
        frames = stepped r.frames;
      }
  unfolding get_data advance
  get_data-stored r frame more e n = rw (read_part-append _ frame more r e n) refl

  get_number-stored :
      (r : Receiver) (number frame more : Bytes)
      → r.input ≡ number ++ (frame ++ more)
      → length number ≡ 4
      → length frame ≡ r.frames.layout.total_bytes - r.frames.layout.header_bytes
      → get_number (prompt stale) r ≡ record r {
        memory = store (store r.memory r.frames.data_ptr number) (r.frames.data_ptr + 4) frame;
        input = more;
        frames = stepped r.frames;
      }
  unfolding get_number advance
  get_number-stored r number frame more e four n =
      rw (read_part-append 4 number (frame ++ more) r e four) (get_data-stored _ frame more refl n)

  get_sof-stored :
      (r : Receiver) (number frame more : Bytes)
      → r.input ≡ codes "SOF" ++ (number ++ (frame ++ more))
      → length number ≡ 4
      → length frame ≡ r.frames.layout.total_bytes - r.frames.layout.header_bytes
      → r.memory (r.frames.data_ptr + 3) ≡ 0
      → get_sof (prompt stale) r ≡ record r {
        memory = filled r.memory r.frames.data_ptr number frame;
        input = more;
        frames = stepped r.frames;
      }
  unfolding get_sof advance
  get_sof-stored r number frame more e four n behind =
      rw
        (
          read_part-append 3 (codes "SOF") (number ++ (frame ++ more)) r e refl,
          sof_accepted r.memory r.frames.data_ptr behind,
        )
        (get_number-stored _ number frame more refl four n
          ∙ ap
              (λ q. record r {
                memory =
                    store
                      (store (store r.memory r.frames.data_ptr (codes "SOF"))
                        (r.frames.data_ptr + 3) number)
                      q frame;
                input = more;
                frames = stepped r.frames;
              })
              (omega arith))

  -- If all parts of a frame come in time, and a NUL lies behind its three letters in the buffer, then
  -- PCR_GetDM stores its header and its data from `data_ptr` on, takes just these bytes from the
  -- connection, makes it the frame filled last, and goes on at the beginning of the next one.
  pub get_frame-stored :
      (r : Receiver) (number frame more : Bytes)
      → r.input ≡ codes "SOF" ++ (number ++ (frame ++ more))
      → length number ≡ 4
      → length frame ≡ r.frames.layout.total_bytes - r.frames.layout.header_bytes
      → r.memory (r.frames.data_ptr + 3) ≡ 0
      → get_frame (prompt stale) r ≡ record r {
        memory = filled r.memory r.frames.data_ptr number frame;
        receiving = true;
        input = more;
        frames = stepped r.frames;
      }
  unfolding get_frame
  get_frame-stored r number frame more e four n behind =
      get_sof-stored (record r { receiving = true }) number frame more e four n behind

-- The number of a frame does not come in time.
abbrev pub late : Bytes → Turn
late stale = record { sof_ready = true; number_ready = false; data_ready = true; stale = stale }

get_frame-late :
    (stale : Bytes) (r : Receiver) (more : Bytes)
    → r.input ≡ codes "SOF" ++ more
    → r.memory (r.frames.data_ptr + 3) ≡ 0
    → get_frame (late stale) r ≡ record r {
      frames = record r.frames { data_ptr = r.frames.data_ptr + 3 };
      memory = store r.memory r.frames.data_ptr (codes "SOF");
      connected = false;
      receiving = true;
      input = [];
    }
unfolding get_frame get_sof get_number break_off
get_frame-late stale r more e behind =
    rw
      (
        read_part-append 3 (codes "SOF") more (record r { receiving = true }) e refl,
        sof_accepted r.memory r.frames.data_ptr behind,
      )
      refl

reconnect-ready :
    (word more : Bytes) (r : Receiver)
    → length word ≡ 4
    → network_word word ≡ r.frames.layout.total_bytes
    → reconnect (word ++ more) r ≡ record r { connected = true; input = more }
unfolding reconnect
reconnect-ready word more r four size =
    rw (take-append word more 4 four, drop-append word more 4 four, size)
      (let long = length-append word more in grind arith)

-- If the number of a frame does not come in time, PCR_GetDM leaves `data_ptr` three bytes further,
-- and the next frame, over the next connection, is stored from there, three bytes behind where
-- `data_ptr` was, and then made the frame filled last. The size that the connection begins with is
-- the expected one, and the bytes behind the letters of both frames are taken to be NUL.
pub get_frame-shifted :
    (stale : Bytes) (r : Receiver) (more word number frame rest : Bytes)
    → r.input ≡ codes "SOF" ++ more
    → r.memory (r.frames.data_ptr + 3) ≡ 0
    → r.memory (r.frames.data_ptr + 6) ≡ 0
    → length word ≡ 4
    → network_word word ≡ r.frames.layout.total_bytes
    → length number ≡ 4
    → length frame ≡ r.frames.layout.total_bytes - r.frames.layout.header_bytes
    → get_frame (prompt stale) (
        reconnect (word ++ (codes "SOF" ++ (number ++ (frame ++ rest)))) (get_frame (late stale) r))
      ≡ record r {
        memory =
            filled
              (store r.memory r.frames.data_ptr (codes "SOF"))
              (r.frames.data_ptr + 3)
              number
              frame;
        connected = true;
        receiving = true;
        input = rest;
        frames = stepped r.frames;
      }
unfolding advance
get_frame-shifted stale r more word number frame rest e behind further size expected four n =
    rw
      (
        get_frame-late stale r more e behind,
        reconnect-ready word (codes "SOF" ++ (number ++ (frame ++ rest)))
            (record r {
              frames = record r.frames { data_ptr = r.frames.data_ptr + 3 };
              memory = store r.memory r.frames.data_ptr (codes "SOF");
              connected = false;
              receiving = true;
              input = [];
            })
            size expected,
      )
      (get_frame-stored stale _ number frame rest refl four n
        (after_letters r.memory r.frames.data_ptr further))
