-- ===== src/DataServer/Frames/Receive.antt =====
-- PCR_GetDM: how the frames of the reconstructor come into the ring of the DM data. The rates and
-- the debug output are left out.
pub mod Laws
pub mod Stored
use mmtao_old.DataServer.Frames.{FrameData, assign}
use mmtao_old.DataServer.Pcr.FindSof.{find_sof}
use mmtao_old.Base.{
  ℕ, zero, suc, ◌+◌, ◌-◌, Bool, true, false, not, Option, none, some, [], ◌∷◌, ◌++◌, ◌==◌,
  if◌then◌else◌, length, take, drop, ltb, ◌*◌, ◌^◌,
}
use mmtao_old.Base.Int.{ℤ, pos}
use mmtao_old.Base.Text.{Bytes, codes}

-- The thread's connection and ring. `input` is what the reconstructor sends until the connection
-- breaks; `memory` is the byte at each address.
pub record Receiver : Type 0 where
  pub frames : FrameData
  pub memory : ℕ → ℕ
  pub connected : Bool
  pub receiving : Bool
  pub running : Bool  -- continueRunning
  pub input : Bytes

-- What `select` reports before each of the three parts of a frame, and what the stack holds behind
-- the letters that PCR_FindSOF copies, up to a NUL.
pub record Turn : Type 0 where
  pub sof_ready : Bool
  pub number_ready : Bool
  pub data_ready : Bool
  pub stale : Bytes

-- Bytes stored at an address.
unfoldable pub store : (ℕ → ℕ) → ℕ → Bytes → ℕ → ℕ
store memory p [] = memory
store memory p (c ∷ cs) = store (assign memory p c) (suc p) cs

-- `strncmp( p, s, strlen(p)) == 0`
unfoldable pub is_start_of : (ℕ → ℕ) → ℕ → Bytes → Bool
is_start_of memory p [] = memory p == 0
is_start_of memory p (c ∷ cs) =
    let rest = is_start_of memory (suc p) cs in
    if memory p == 0 then true else if memory p == c then rest else false

-- Socket_Read of `n` bytes to `data_ptr`; false if the connection breaks before them.
unfoldable pub read_part : ℕ → Receiver → Bool × Receiver
read_part n r = (
  not (ltb (length r.input) n),
  record r { memory = store r.memory r.frames.data_ptr (take n r.input); input = drop n r.input },
)

-- Socket_Close
unfoldable pub break_off : Receiver → Receiver
break_off r = record r { connected = false; input = [] }

abbrev pub skip : ℕ → Receiver → Receiver
skip n r = record r { frames = record r.frames { data_ptr = r.frames.data_ptr + n } }

-- A filled frame, and the next one to fill.
unfoldable pub advance : FrameData → FrameData
advance d =
    let next = d.links.next_frame d.active in
    record d { last = pos d.active; active = next; data_ptr = d.links.frame_ptr next }

unfoldable pub get_data : Turn → Receiver → Receiver
get_data t r =
    let (whole, s) = read_part (r.frames.layout.total_bytes - r.frames.layout.header_bytes) r in
    if not t.data_ready
    then break_off r
    else if whole
    then record s { frames = advance s.frames }
    else break_off s

unfoldable pub get_number : Turn → Receiver → Receiver
get_number t r =
    let (whole, s) = read_part 4 r in
    if not t.number_ready then break_off r else if whole then get_data t (skip 4 s) else break_off s

-- PCR_FindSOF, when the three bytes that were read are not the letters of a frame.
unfoldable pub resynchronise : Turn → Receiver → Receiver
resynchronise t r = elim (find_sof r.input) [
  | none ↦ break_off r
  | some f ↦ get_number t (
      skip 3 (record r {
        memory = store r.memory r.frames.data_ptr (f.letters ++ t.stale ++ 0 ∷ []);
        input = f.rest;
      }))
]

unfoldable pub get_sof : Turn → Receiver → Receiver
get_sof t r =
    let (whole, s) = read_part 3 r in
    if not whole
    then break_off s
    else if is_start_of s.memory s.frames.data_ptr (codes "SOF")
    then get_number t (skip 3 s)
    else resynchronise t s

-- A pass of the loop over the frames.
unfoldable pub get_frame : Turn → Receiver → Receiver
get_frame t r =
    if t.sof_ready
    then get_sof t (record r { receiving = true })
    else record r { receiving = false }

unfoldable pub word_from : ℕ → Bytes → ℕ
word_from w [] = w
word_from w (c ∷ cs) = word_from (w * 2 ^ 8 + c) cs

-- ntohl of the bytes of an `int`.
unfoldable pub network_word : Bytes → ℕ
network_word word = word_from 0 word

-- A connection that was opened, and on which start_DM was sent: the size of the frames comes first,
-- and the thread ends unless it is the one that is expected. The place in the ring stays as it was.
unfoldable pub reconnect : Bytes → Receiver → Receiver
reconnect input r =
    if ltb (length input) 4 then record r { connected = true; input = [] } else record r {
      connected = true;
      running =
          if network_word (take 4 input) == r.frames.layout.total_bytes then r.running else false;
      input = drop 4 input;
    }
