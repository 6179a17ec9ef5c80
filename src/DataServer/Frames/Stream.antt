-- ===== src/DataServer/Frames/Stream.antt =====
-- DServ_Stream: a client is sent one frame after the other until it says "stop". What the client
-- asks is read while the next frame is awaited.
pub mod Transcript
pub mod Laws
pub mod Whole
mod Tests
use mmtao_old.DataServer.Frames.{Section, Layout, FrameData}
use mmtao_old.DataServer.Frames.Sets.{Selection, stream_names, stream_sets}
use mmtao_old.DataServer.Frames.Single.{
  Moment, frame_number, network_int, send, send_frame, lower_case,
}
use mmtao_old.Topbox.Link.{Env, Link}
use mmtao_old.Base.{
  ℕ, zero, suc, ◌+◌, Bool, true, false, Option, none, some, List, [], ◌∷◌, if◌then◌else◌, length,
  leb, ◌||◌,
}
use mmtao_old.Base.Int.{ℤ, pos, negsuc}
use mmtao_old.Base.Text.{Bytes, codes, has_prefix, contains}

-- What a pass of a waiting loop meets: a request of the client, `some none` being one that cannot be
-- read, and the number that the awaited frame bears.
pub record Glance : Type 0 where
  pub asked : Option (Option Bytes)
  pub number : ℕ

-- What the client's request leads to.
pub data Reply : Type 0 where
  go_on stop lost : Reply

-- How the wait for a frame ends.
pub data Wait : Type 0 where
  arrived : ℕ → Wait
  over broken : Wait

module _ (env : Env) where
  -- A request is compared over its own length, so an empty one stops the stream.
  unfoldable pub obey : Bytes → Link → Reply × Link
  obey request s =
      if has_prefix (codes "stop") request
      then (stop, s)
      else if has_prefix (codes "status") request
      then (let (sent, t) = send env (network_int (negsuc 1)) s in
          (if sent then go_on else lost, t))
      else (go_on, s)

  unfoldable pub attend : Option (Option Bytes) → Link → Reply × Link
  attend none s = (go_on, s)
  attend (some none) s = (lost, s)
  attend (some (some line)) s = obey (lower_case line) s

  -- The end of a wait of too many tries.
  unfoldable pub time_out : Link → Wait × Link
  time_out s =
      let (sent, t) = send env (network_int (negsuc 2)) s in (if sent then over else broken, t)

  -- Behind the client's request: the frame has come, or the wait goes on as `rest`.
  unfoldable pub look_at : ℕ → ℕ → (Link → Wait × Link) → Reply × Link → Wait × Link
  look_at next number rest (stop, s) = (over, s)
  look_at next number rest (lost, s) = (broken, s)
  look_at next number rest (go_on, s) =
      let waited = rest s in if leb next number then (arrived number, s) else waited

  -- The loop that awaits a frame whose number is at least `next`; `tries` is number_tries - count.
  unfoldable pub await : ℕ → (ℕ → Glance) → ℕ → Link → Wait × Link
  await zero glance next s = look_at next (glance 0).number time_out (attend (glance 0).asked s)
  await (suc tries) glance next s =
      look_at next (glance 0).number (await tries (λ i. glance (suc i)) next)
        (attend (glance 0).asked s)

-- number_tries
abbrev pub number_tries : ℕ
number_tries = 10000000

-- What a pass of the loop over the frames meets: the frame's memory when its number and its sets are
-- sent, and then the glances of the wait.
pub record Round : Type 0 where
  pub memory : ℕ → ℕ → ℕ
  pub glances : ℕ → Glance

-- How the stream stands after some rounds.
pub data Standing : Type 0 where
  running : Standing
  returned : ℤ → Standing
  overrun : Standing  -- a seventh set was noted in arrays of six

module _ (env : Env) (frame_ptr next_frame : ℕ → ℕ) (sel : Selection) where
  abbrev pub moment : Round → ℕ → ℕ → Moment
  moment r place i = record { newest = frame_ptr place; memory = r.memory i }

  -- A frame: the number of bytes, the number of the frame and the sets.
  unfoldable pub send_round : Round → ℕ → Link → ℤ × Link
  send_round r place s =
      send_frame env (pos sel.nbytes) (frame_number (moment r place 0))
        (λ i. moment r place (suc i)) sel.sets s

  -- Behind a wait; `rest` are the rounds from the next frame, which bears the number that arrived.
  unfoldable pub after_wait : (ℕ → Link → Standing × Link) → Wait × Link → Standing × Link
  after_wait rest (arrived number, s) = rest number s
  after_wait rest (over, s) = (returned (pos 0), s)
  after_wait rest (broken, s) = (returned (negsuc 0), s)

  unfoldable pub after_send : (Link → Standing × Link) → ℤ × Link → Standing × Link
  after_send rest (pos n, s) = rest s
  after_send rest (negsuc n, s) = (returned (negsuc 0), s)

  -- The loop over the frames, from the frame at `place`, which bears `number`; `running` is the end
  -- of the rounds that are given.
  unfoldable pub stream_rounds : List Round → ℕ → ℕ → Link → Standing × Link
  stream_rounds [] place number s = (running, s)
  stream_rounds (r ∷ rs) place number s =
      after_send
        (λ t.
          after_wait (stream_rounds rs (next_frame place))
            (await env number_tries r.glances (number + 1) t))
        (send_round r place s)

-- The frame behind the newest one; the bound is that of the DM ring, whatever the ring.
unfoldable pub first_place : ℤ → ℕ
first_place (pos n) = if leb 999 n then 0 else n + 1
first_place (negsuc n) = 0

-- The ring of the set that is named last: the DM ring, unless only the WFSC set is named.
unfoldable pub names_dm : Bytes → Bool
names_dm request =
    contains request (codes "spots")
    || contains request (codes "slope")
    || contains request (codes "rtr")
    || contains request (codes "cmd")
    || contains request (codes "cur")
    || contains request (codes "pos")
    || contains request (codes "all")

module _ (env : Env) where
  unfoldable pub attend_first : Option (Option Bytes) → Link → Reply × Link
  attend_first none s = (go_on, s)
  attend_first (some none) s = (lost, s)
  attend_first (some (some line)) s =
      if leb (length line) 1 then (lost, s) else obey env (lower_case line) s

  unfoldable pub unless_over : (Link → Reply × Link) → Reply × Link → Reply × Link
  unless_over rest (go_on, s) = rest s
  unless_over rest (stop, s) = (stop, s)
  unless_over rest (lost, s) = (lost, s)

  -- The loop before the first frame; the list ends when a new frame has come.
  unfoldable pub await_first : List (Option (Option Bytes)) → Link → Reply × Link
  await_first [] s = (go_on, s)
  await_first (asked ∷ more) s = unless_over (await_first more) (attend_first asked s)

  unfoldable pub after_first : (Link → Standing × Link) → Reply × Link → Standing × Link
  after_first rest (go_on, s) = rest s
  after_first rest (stop, s) = (returned (pos 0), s)
  after_first rest (lost, s) = (returned (negsuc 0), s)

  -- DServ_Stream on what Socket_StringRead gives. `newest` is the place filled last when it begins,
  -- and `number` what the frame behind it bears when the loop over the frames begins.
  unfoldable pub dserv_stream :
      FrameData
      → FrameData
      → Option Bytes
      → ℤ
      → List (Option (Option Bytes))
      → ℕ
      → List Round
      → Link
      → Standing × Link
  dserv_stream wfsc dm none newest asked number rounds s = (returned (negsuc 0), s)
  dserv_stream wfsc dm (some line) newest asked number rounds s =
      let request = lower_case line in
      let ring = if names_dm request then dm.links else wfsc.links in
      let sel = stream_sets dm.layout wfsc.layout.wfsc request in
      if leb (length line) 1
      then (returned (negsuc 0), s)
      else if leb 7 (length (stream_names dm.layout wfsc.layout.wfsc request).sets)
      then (overrun, s)
      else if leb (length sel.sets) 0
      then (returned (negsuc 0), s)
      else after_first
          (stream_rounds env ring.frame_ptr ring.next_frame sel rounds (first_place newest) number)
          (await_first asked s)
