-- ===== src/DataServer/Frames/Single.antt =====
-- DServ_GetSingle: a client asks for data sets of the newest frame.
pub mod Laws
mod Tests
use mmtao_old.DataServer.Frames.{Section, Layout}
use mmtao_old.DataServer.Frames.Sets.{single_sets, total_of, single_sets-IsSound}
use mmtao_old.Topbox.Link.{Env, Link}
use mmtao_old.Topbox.Socket.{string_write}
use mmtao_old.Topbox.Socket.Laws.{string_write_sent}
use mmtao_old.Base.{
  ℕ, zero, suc, ◌+◌, ◌-◌, ◌*◌, ◌/◌, ◌%◌, ◌^◌, ◌≡◌, ◌||◌, ◌&&◌, ◌==◌, Bool, true, false, Option,
  none, some, List, [], ◌∷◌, ◌++◌, if◌then◌else◌, length, leb, refl, arith, ap, sym, ◌∙◌, inl, inr,
  append-nil, append_assoc, Bool-cases, ==_iff,
}
use mmtao_old.Base.Int.{ℤ, pos, negsuc, eq_ℤ}
use mmtao_old.Base.Text.{Bytes}
use mmtao_old.DataServer.Frames.Linked.{IsPacked}

-- Socket_StringLowerCase: the text ends before a newline, a form feed or a carriage return.
unfoldable pub lower_case : Bytes → Bytes
lower_case [] = []
lower_case (c ∷ cs) =
    let rest = lower_case cs in
    let low = if leb 65 c && leb c 90 then c + 32 else c in
    if low == 10 || low == 12 || low == 13 then [] else low ∷ rest

-- The bytes of a word, the most significant one first.
abbrev big_endian : ℕ → Bytes
big_endian w = w / 2 ^ 24 ∷ w / 2 ^ 16 % 2 ^ 8 ∷ w / 2 ^ 8 % 2 ^ 8 ∷ w % 2 ^ 8 ∷ []

-- htonl
unfoldable pub network_int : ℤ → Bytes
network_int (pos n) = big_endian (n % 2 ^ 32)
network_int (negsuc n) = big_endian (2 ^ 32 - 1 - n % 2 ^ 32)

abbrev pub negated : ℕ → ℤ
negated zero = pos 0
negated (suc n) = negsuc n

-- The bytes at an address.
unfoldable pub fetch : ℕ → (ℕ → ℕ) → ℕ → Bytes
fetch zero memory p = []
fetch (suc n) memory p = memory p ∷ fetch n memory (suc p)

-- An `int` in memory, as the host reads it.
abbrev pub host_word : Bytes → ℕ
host_word [] = 0
host_word (c ∷ cs) = c + 2 ^ 8 * host_word cs

-- What the routine finds at one of its looks at the ring, which another thread fills: where the frame
-- filled last begins, and the memory.
pub record Moment : Type 0 where
  pub newest : ℕ
  pub memory : ℕ → ℕ

abbrev pub frame_number : Moment → Bytes
frame_number m = fetch 4 m.memory (m.newest + 3)

abbrev pub set_data : Moment → Section → Bytes
set_data m s = fetch s.bytes m.memory (m.newest + s.offset)

module _ (env : Env) where
  -- Socket_StringWrite, and whether it took all.
  unfoldable pub send : Bytes → Link → Bool × Link
  send line s = let (n, t) = string_write env line s in (eq_ℤ n (pos (length line)), t)

  -- The loop over the sets; `later i` is what it finds when it sends the set number `i`.
  unfoldable pub send_sets : (ℕ → Moment) → List Section → Link → Bool × Link
  send_sets later [] s = (true, s)
  send_sets later (x ∷ xs) s =
      let (sent, t) = send (set_data (later 0) x) s in
      let rest = send_sets (λ i. later (suc i)) xs t in if sent then rest else (false, t)

  -- The header, the number of the frame and the sets. 0 or -1.
  unfoldable pub send_frame : ℤ → Bytes → (ℕ → Moment) → List Section → Link → ℤ × Link
  send_frame announced number later sets s =
      let (header_sent, t) = send (network_int announced) s in
      let (number_sent, u) = send number t in
      let (sets_sent, v) = send_sets later sets u in
      if header_sent
      then if number_sent then (if sets_sent then pos 0 else negsuc 0, v) else (negsuc 0, u)
      else (negsuc 0, t)

  -- What follows the choice of the sets.
  unfoldable pub answer_with : List Section → ℤ → Bytes → (ℕ → Moment) → Link → ℤ × ℕ × Link
  answer_with [] announced number later s = (negsuc 0, host_word number, s)
  answer_with (x ∷ xs) announced number later s =
      let (status, t) = send_frame announced number later (x ∷ xs) s in
      (status, host_word number, t)

  -- The number of bytes that is announced, negative if the frame is the old one.
  abbrev pub announcement : Layout → Bytes → ℕ → Moment → ℤ
  announcement l request old now =
      let sel = single_sets l request in
      if host_word (frame_number now) == old then negated sel.nbytes else pos sel.nbytes

  -- The answer from the ring as it is `now`, with the number of the frame in place of the old one.
  unfoldable pub answer_from : Layout → Bytes → ℕ → Moment → (ℕ → Moment) → Link → ℤ × ℕ × Link
  answer_from l request old now later s =
      answer_with (single_sets l request).sets (announcement l request old now) (frame_number now)
        later s

  -- DServ_GetSingle on what Socket_StringRead gives; `now` is none while no frame is filled.
  unfoldable pub get_single :
      Layout → Option Bytes → ℕ → Option Moment → (ℕ → Moment) → Link → ℤ × ℕ × Link
  get_single l none old now later s = (negsuc 0, old, s)
  get_single l (some line) old now later s =
      if leb (length line) 1 then (negsuc 0, old, s) else elim now [
        | none ↦ (negsuc 1, old, s)
        | some m ↦ answer_from l (lower_case line) old m later s
      ]
