-- ===== src/DataServer/Frames/Linked.antt =====
-- The frames of a ring lie one behind the other in the buffer, and each leads to the next.
use mmtao_old.DataServer.Frames.{
  Layout, Links, FrameData, link_frames, make_links, dm_layout, assign, number_of_frames, init_dm,
  frame_header, total_wfsc_bytes, init_wfsc, init_slopes,
}
use native.Mathlib.Nat.{mul-le-mul_left, mul_comm}
use mmtao_old.Base.{
  ℕ, zero, suc, ◌+◌, ◌-◌, ◌*◌, ◌==◌, if◌then◌else◌, ◌≡◌, ◌≤◌, ◌<◌, refl, arith, inl, inr, ==_iff,
  Bool-cases,
}
use mmtao_old.Base.Int.{negsuc}

-- Frame `j` of `n` begins at `j * width`, and leads to the next one, the last to the first.
pub record IsRing (n width : ℕ) (a : Links) : Type 0 where
  pub begins : (j : ℕ) → j < n → a.frame_ptr j ≡ j * width
  pub leads : (j : ℕ) → j < n → a.next_frame j ≡ (if suc j == n then 0 else suc j)

assign-scaled :
    (a : ℕ → ℕ) (i width j : ℕ)
    → ((k : ℕ) → k ≤ i → a k ≡ k * width)
    → j ≤ suc i
    → assign a (suc i) (a i + width) j ≡ j * width
assign-scaled a i width j h b = elim (Bool-cases (j == suc i)) [
  | inl e ↦ rw ((==_iff j (suc i)).0 e) (let here = h i (omega arith) in grind arith)
  | inr e ↦ let there = h j in grind (arith, e)
]

link_frames-IsRing :
    (width n rounds i : ℕ) (a : Links)
    → n ≡ suc (rounds + i)
    → ((j : ℕ) → j ≤ i → a.frame_ptr j ≡ j * width)
    → ((j : ℕ) → j < i → a.next_frame j ≡ suc j)
    → IsRing n width (link_frames width rounds i a)
unfolding link_frames
link_frames-IsRing width n zero i a e h k = record {
  begins = λ j b. h j (omega arith);
  leads = λ j b. let next = k j in grind arith;
}
link_frames-IsRing width n (suc rounds) i a e h k =
    link_frames-IsRing width n rounds (suc i) _ (omega arith)
      (λ j b. assign-scaled a.frame_ptr i width j h b) (λ j b. let next = k j in grind arith)

assign-zero : (a : ℕ → ℕ) (width j : ℕ) → j ≤ 0 → assign a 0 0 j ≡ j * width
assign-zero a width zero b = omega arith
assign-zero a width (suc j) b = absurd (omega arith)

pub make_links-IsRing : (n width : ℕ) (a : Links) → 0 < n → IsRing n width (make_links n width a)
unfolding make_links
make_links-IsRing n width a some_frame =
    link_frames-IsRing width n (n - 1) 0 _ (omega arith) (assign-zero a.frame_ptr width)
      (λ j b. absurd (omega arith))

-- The sections lie one behind the other, between the header and the end of the frame.
pub record IsPacked (l : Layout) : Type 0 where
  pub wfsc : l.wfsc.offset ≡ l.header_bytes
  pub slope : l.slope.offset ≡ l.wfsc.offset + l.wfsc.bytes
  pub rtr : l.rtr.offset ≡ l.slope.offset + l.slope.bytes
  pub cmd : l.cmd.offset ≡ l.rtr.offset + l.rtr.bytes
  pub cur : l.cur.offset ≡ l.cmd.offset + l.cmd.bytes
  pub pos : l.pos.offset ≡ l.cur.offset + l.cur.bytes
  pub end : l.total_bytes ≡ l.pos.offset + l.pos.bytes
  pub all_offset : l.all.offset ≡ l.header_bytes
  pub all_bytes : l.header_bytes + l.all.bytes ≡ l.total_bytes

pub dm_layout-IsPacked : IsPacked dm_layout
dm_layout-IsPacked = record {
  wfsc = refl;
  slope = refl;
  rtr = refl;
  cmd = refl;
  cur = refl;
  pos = refl;
  end = refl;
  all_offset = refl;
  all_bytes = refl;
}

-- A ring as it is before the first frame: all of its frames lie in `size` bytes, `width` apart.
pub record IsFresh (size width : ℕ) (d : FrameData) : Type 0 where
  pub ring : IsRing d.num_frames width d.links
  pub inside : (j : ℕ) → j < d.num_frames → d.links.frame_ptr j + width ≤ size
  pub active : d.active ≡ 0
  pub data_ptr : d.data_ptr ≡ d.links.frame_ptr d.active
  pub last : d.last ≡ negsuc 0

module _ (n width : ℕ) (a : Links) (h : IsRing n width a) where
  pub ring_inside : (j : ℕ) → j < n → a.frame_ptr j + width ≤ n * width
  ring_inside j b =
      let room = mul-le-mul_left width b in rw (h.begins j b) (omega (arith, room, mul_comm))

fresh :
    (l : Layout) (width : ℕ) (a : Links)
    → let linked = make_links number_of_frames width a in
      IsFresh (number_of_frames * width) width (record {
        num_frames = number_of_frames;
        layout = l;
        links = linked;
        active = 0;
        data_ptr = linked.frame_ptr 0;
        last = negsuc 0;
      })
fresh l width a =
    let ring = make_links-IsRing number_of_frames width a (omega arith) in
    record {
      ring = ring;
      inside = ring_inside number_of_frames width _ ring;
      active = refl;
      data_ptr = refl;
      last = refl;
    }

-- After DServ_InitDM each of the 1000 frames lies in the allocated buffer and no two overlap, each
-- leads to the next, the first one is active and none is filled, and the sections of a frame lie
-- one behind the other from its header to its end. After DServ_InitWFSC and DServ_InitSlopes the
-- same holds of the frames.
pub init-IsFresh :
    (old : Layout) (a : Links)
    → IsFresh (number_of_frames * dm_layout.total_bytes) dm_layout.total_bytes (init_dm a)
      × IsPacked (init_dm a).layout
      × IsFresh (number_of_frames * total_wfsc_bytes) total_wfsc_bytes (init_wfsc old a)
      × IsFresh (number_of_frames * (frame_header + 576)) (frame_header + 576) (init_slopes old a)
unfolding init_dm init_wfsc init_slopes
init-IsFresh old a = (
  fresh dm_layout dm_layout.total_bytes a,
  dm_layout-IsPacked,
  fresh _ total_wfsc_bytes a,
  fresh _ (frame_header + 576) a,
)
