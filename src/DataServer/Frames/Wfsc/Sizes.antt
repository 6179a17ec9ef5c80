-- ===== src/DataServer/Frames/Wfsc/Sizes.antt =====
-- The sizes of frames that PCR_GetWFSC expects.
use mmtao_old.DataServer.Frames.{frame_header, total_wfsc_bytes}
use mmtao_old.DataServer.Frames.Wfsc.{WfscThread, image, set_size, wfsc_begin}
use mmtao_old.DataServer.Frames.Wfsc.Stored.{IsFit}
use mmtao_old.DataServer.Frames.Receive.{break_off}
use mmtao_old.Base.{
  ℕ, ◌+◌, ◌*◌, ◌≡◌, ◌≤◌, ◌==◌, true, false, length, refl, arith, ltb, ==_iff, Bool, if◌then◌else◌,
  ◌∙◌,
}

-- The image fits into its frame of the ring, and the rows that are thrown away into `skipPtr`.
pub record HasRoom (w : WfscThread) : Type 0 where
  pub fit : IsFit w.receiver.frames.layout w.geometry
  pub room :
      w.receiver.frames.layout.header_bytes + w.receiver.frames.layout.wfsc.bytes ≤ total_wfsc_bytes
  pub rows : w.geometry.row_bytes ≤ 640
  pub edge : w.geometry.edge_bytes ≤ 640

abbrev IsSize : ℕ → ℕ → ℕ → ℕ → Type 0
IsSize n d row edge =
    (n ≡ frame_header + row + (d * (edge + edge) + d * (d * 2)) + row)
    × (d * d * 2 ≡ d * (d * 2))
    × (d * d * 2 ≤ 72 * 72 * 2)
    × (row ≤ 640)
    × (edge ≤ 640)

image-HasRoom :
    (n d row edge nbytes : ℕ) (w : WfscThread)
    → w.receiver.frames.layout.header_bytes ≡ frame_header
    → IsSize n d row edge
    → nbytes == n ≡ true
    → HasRoom (image nbytes d row edge w)
image-HasRoom n d row edge nbytes w h (total, saved, room, rows, edges) e = record {
  fit = record { total = (==_iff nbytes n).0 e ∙ rw h total; saved = saved };
  room = rw h (omega arith);
  rows = rows;
  edge = edges;
}

-- As long as the thread goes on.
abbrev pub GoesOn : WfscThread → Type 0
GoesOn w = w.receiver.running ≡ true → HasRoom w

choice-GoesOn :
    (b : Bool) (x y : WfscThread) → (b ≡ true → HasRoom x) → GoesOn y → GoesOn (if b then x else y)
choice-GoesOn true x y h k run = h refl
choice-GoesOn false x y h k run = k run

set_size-GoesOn :
    (nbytes : ℕ) (w : WfscThread)
    → w.receiver.frames.layout.header_bytes ≡ frame_header
    → GoesOn (set_size nbytes w)
unfolding set_size
set_size-GoesOn nbytes w h =
    choice-GoesOn (nbytes == 1159) _ _ (image-HasRoom 1159 24 0 0 nbytes w h (omega arith)) (
      choice-GoesOn (nbytes == 1359) _ _ (image-HasRoom 1359 24 52 2 nbytes w h (omega arith)) (
        choice-GoesOn (nbytes == 10375) _ _ (image-HasRoom 10375 72 0 0 nbytes w h (omega arith)) (
          choice-GoesOn (nbytes == 12807) _ _
            (image-HasRoom 12807 72 640 8 nbytes w h (omega arith)) (λ run. absurd (cc)))))

abbrev Enters : WfscThread → Type 0
Enters w = w.receiver.connected ≡ true → GoesOn w

choice-Enters : (b : Bool) (x y : WfscThread) → Enters x → Enters y → Enters (if b then x else y)
choice-Enters true x y h k = h
choice-Enters false x y h k = k

-- With a header of seven bytes, PCR_GetWFSC goes from the size of the frames to the loop over them
-- only if the image with its edges makes up that size, fits into a frame of the ring behind the
-- header, and has neither rows nor edges that are longer than the 640 bytes of `skipPtr`.
pub wfsc_begin-HasRoom :
    (w : WfscThread)
    → w.receiver.frames.layout.header_bytes ≡ frame_header
    → (wfsc_begin w).receiver.connected ≡ true
    → (wfsc_begin w).receiver.running ≡ true
    → HasRoom (wfsc_begin w)
unfolding wfsc_begin break_off
wfsc_begin-HasRoom w h =
    choice-Enters (ltb (length w.receiver.input) 4) _ _ (λ up run. absurd (cc))
      (λ up. set_size-GoesOn _ _ h)
