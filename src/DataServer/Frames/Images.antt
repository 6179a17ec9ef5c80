-- ===== src/DataServer/Frames/Images.antt =====
-- WFSC_GetSingle and WFSC_Process: a client asks for the newest image of the wavefront camera.
pub mod Delivered
use mmtao_old.DataServer.Frames.Single.{
  Moment, frame_number, fetch, host_word, network_int, negated, send, lower_case,
}
use mmtao_old.DataServer.Frames.Wfsc.{WfscThread}
use mmtao_old.DataServer.Info.Parameters.{string_trim}
use mmtao_old.DataServer.Pcr.Session.{string_read}
use mmtao_old.Topbox.Link.{Env, Link, M, close_socket}
use mmtao_old.Base.{
  ℕ, zero, suc, ◌+◌, ◌==◌, ◌||◌, Bool, true, false, Option, none, some, List, [], ◌∷◌, ◌++◌,
  if◌then◌else◌, length, leb, map,
}
use mmtao_old.Base.Int.{ℤ, pos, negsuc, is_negative}
use mmtao_old.Base.Text.{Bytes, codes, has_prefix, parse_int}

-- What is found in the ring, which another thread fills: the frame filled last and the size of the
-- image at the first look, and the memory and the size when the image is sent.
pub record View : Type 0 where
  pub found : Option Moment
  pub announced : ℕ
  pub memory : ℕ → ℕ
  pub bytes : ℕ

-- The ring while PCR_GetWFSC does nothing.
unfoldable pub view_of : WfscThread → View
view_of w =
    let r = w.receiver in
    record {
      found = elim r.frames.last [
        | pos j ↦ some (record { newest = r.frames.links.frame_ptr j; memory = r.memory })
        | negsuc _ ↦ none
      ];
      announced = r.frames.layout.wfsc.bytes;
      memory = r.memory;
      bytes = r.frames.layout.wfsc.bytes;
    }

-- The size, negative if the number of the frame is the one of the last time.
abbrev pub image_size : ℕ → View → Moment → ℤ
image_size old v m =
    if host_word (frame_number m) == old then negated v.announced else pos v.announced

-- The beginning of the image in its frame.
abbrev pub image_data : View → Moment → Bytes
image_data v m = fetch v.bytes v.memory (m.newest + 7)

module _ (env : Env) where
  unfoldable pub send_image : ℕ → View → Moment → Link → ℤ × ℕ × Link
  send_image old v m s =
      let number = frame_number m in
      let (size_sent, t) = send env (network_int (image_size old v m)) s in
      let (number_sent, u) = send env number t in
      let (image_sent, x) = send env (image_data v m) u in
      if size_sent
      then if number_sent
        then (if image_sent then image_size old v m else negsuc 0, host_word number, x)
        else (negsuc 0, host_word number, u)
      else (negsuc 0, host_word number, t)

  -- WFSC_GetSingle: its result, the number of the frame that is kept, and the connection.
  unfoldable pub get_image : ℕ → View → Link → ℤ × ℕ × Link
  get_image old v s = elim v.found [
    | none ↦ (negsuc 0, old, (send env (network_int (negsuc 1)) s).1)
    | some m ↦ send_image old v m s
  ]

-- A client of WFSC_Process; `number` is that of the frame sent last, to any client.
pub record ImageSession : Type 0 where
  pub client : Link
  pub number : ℕ
  pub debug : ℤ
  pub running : Bool  -- continueRunning, which the routine sets to a null pointer

-- The branches of WFSC_Process.
pub data ImageRequest : Type 0 where
  debug size single stream help quit : ImageRequest

abbrev shortens : Bytes → Bytes → Bool
shortens request word = has_prefix word request

unfoldable pub image_request : Bytes → Option ImageRequest
image_request request =
    if shortens request (codes "debug")
    then some debug
    else if shortens request (codes "size")
    then some size
    else if shortens request (codes "single")
    then some single
    else if shortens request (codes "stream")
    then some stream
    else if shortens request (codes "help")
        || shortens request (codes "h")
        || shortens request (codes "?")
    then some help
    else if shortens request (codes "quit")
    then some quit
    else none

abbrev ended : Bytes → Bytes
ended line = line ++ 92 ∷ 110 ∷ 10 ∷ []

-- The replies to "help"; `\n` is written out in all but the first.
abbrev image_help : List Bytes
image_help =
    (codes "Possible requests:" ++ 10 ∷ [])
    ∷ ended (codes "  re_init")
    ∷ (codes "  debug" ++ 92 ∷ 110 ∷ codes "<0/1>" ++ 92 ∷ 110 ∷ 10 ∷ [])
    ∷ ended (codes "  size")
    ∷ ended (codes "  single")
    ∷ ended (codes "  stream")
    ∷ ended (codes "  help")
    ∷ ended (codes "  h")
    ∷ ended (codes "  ?")
    ∷ ended (codes "  quit")
    ∷ []

-- Lines are sent until one is not taken in full.
unfoldable pub send_texts : Env → List Bytes → Link → Bool × Link
send_texts env [] s = (true, s)
send_texts env (line ∷ lines) s =
    let (sent, t) = send env line s in
    let rest = send_texts env lines t in if sent then rest else (false, t)

module _ (env : Env) where
  abbrev and_go_on : ImageSession → Bool × Link → ImageSession
  and_go_on x (sent, t) = record x { client = t; running = if sent then x.running else false }

  -- The debug flag. A line that cannot be read changes nothing.
  unfoldable pub image_debug : Option Bytes → ImageSession → ImageSession
  image_debug none x = x
  image_debug (some line) x = record x { debug = parse_int (string_trim line) }

  -- The branch of a request; `none` waits for ever for the rest of a line.
  unfoldable pub image_perform : View → ImageRequest → ImageSession → Option ImageSession
  image_perform v debug x = elim (string_read x.client) [
    | none ↦ none
    | some (line, t) ↦ some (image_debug line (record x { client = t }))
  ]
  image_perform v size x = some (and_go_on x (send env (network_int (pos v.announced)) x.client))
  image_perform v single x =
      let (status, number, t) = get_image env x.number v x.client in
      some (record x { client = t; number = number })
  image_perform v stream x = some (record x { running = false })
  image_perform v help x = some (and_go_on x (send_texts env image_help x.client))
  image_perform v quit x = some (record x { running = false })

  unfoldable pub image_answer : View → Option Bytes → ImageSession → Option ImageSession
  image_answer v none x = some (record x { running = false })
  image_answer v (some line) x =
      if leb (length line) 1
      then some x
      else elim (image_request (lower_case line)) [ none ↦ some x | some r ↦ image_perform v r x ]

  -- A pass of the loop.
  unfoldable pub image_pass : View → ImageSession → Option ImageSession
  image_pass v x = elim (string_read x.client) [
    | none ↦ none
    | some (line, t) ↦ image_answer v line (record x { client = t })
  ]

  -- The loop, over so many passes at most, each with what it finds in the ring.
  unfoldable pub image_passes : List View → ImageSession → Option ImageSession
  image_passes [] x = some x
  image_passes (v ∷ rest) x = elim (image_pass v x) [
    | none ↦ none
    | some y ↦ let later = image_passes rest y in if y.running then later else some y
  ]

  -- WFSC_Process; it ends with the connection closed, once it is over.
  unfoldable pub image_process : List View → ImageSession → Option ImageSession
  image_process views x = elim (image_passes views x) [
    | none ↦ none
    | some y ↦ some (if y.running then y else record y { client = close_socket y.client })
  ]
