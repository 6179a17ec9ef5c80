-- ===== src/Topbox/Mvp/Queries/Decode.antt =====
-- The status word of an MVP controller.
use mmtao_old.Base.{ℕ, ◌+◌, ◌-◌, ◌*◌, ◌<◌, ◌%◌, ◌≡◌, refl, arith, ◌/◌, if◌then◌else◌}
use mmtao_old.Base.Int.{pos, int32, is_set}
use mmtao_old.Topbox.Link.{DeviceData}
use mmtao_old.Topbox.Mvp.Queries.{short_bits, decode_status}

-- The `short` keeps the low 16 bits of the 32-bit word that was scanned.
pub short_bits-int32 : (w : ℕ) → short_bits (int32 w) ≡ w % 65536
unfolding short_bits
short_bits-int32 w = ground arith

-- The bits of a status word that MVP_Status looks at, and those between them.
pub record StatusBits : Type 0 where
  pub b15 : ℕ
  pub b14 : ℕ
  pub b13 : ℕ
  pub middle : ℕ
  pub b8 : ℕ
  pub high : ℕ
  pub b4 : ℕ
  pub low : ℕ
  pub b1 : ℕ
  pub b0 : ℕ

-- Each field fits into its place.
pub record IsBits (w : StatusBits) : Type 0 where
  pub b15 : w.b15 < 2
  pub b14 : w.b14 < 2
  pub b13 : w.b13 < 2
  pub middle : w.middle < 16
  pub b8 : w.b8 < 2
  pub high : w.high < 8
  pub b4 : w.b4 < 2
  pub low : w.low < 4
  pub b1 : w.b1 < 2
  pub b0 : w.b0 < 2

abbrev pub word_of : StatusBits → ℕ
word_of w =
    w.b15 * 32768
    + w.b14 * 16384
    + w.b13 * 8192
    + w.middle * 512
    + w.b8 * 256
    + w.high * 32
    + w.b4 * 16
    + w.low * 4
    + w.b1 * 2
    + w.b0

low_word : (w : StatusBits) (above : ℕ) → IsBits w → (above * 65536 + word_of w) % 65536 ≡ word_of w
low_word w above h =
    omega (arith, h.b15, h.b14, h.b13, h.middle, h.b8, h.high, h.b4, h.low, h.b1, h.b0)

module _ (w : StatusBits) (h : IsBits w) where
  bit_15 : word_of w / 32768 % 2 ≡ w.b15
  bit_15 = omega (arith, h.b15, h.b14, h.b13, h.middle, h.b8, h.high, h.b4, h.low, h.b1, h.b0)

  bit_14 : word_of w / 16384 % 2 ≡ w.b14
  bit_14 = omega (arith, h.b15, h.b14, h.b13, h.middle, h.b8, h.high, h.b4, h.low, h.b1, h.b0)

  bit_13 : word_of w / 8192 % 2 ≡ w.b13
  bit_13 = omega (arith, h.b15, h.b14, h.b13, h.middle, h.b8, h.high, h.b4, h.low, h.b1, h.b0)

  bit_8 : word_of w / 256 % 2 ≡ w.b8
  bit_8 = omega (arith, h.b15, h.b14, h.b13, h.middle, h.b8, h.high, h.b4, h.low, h.b1, h.b0)

  bit_4 : word_of w / 16 % 2 ≡ w.b4
  bit_4 = omega (arith, h.b15, h.b14, h.b13, h.middle, h.b8, h.high, h.b4, h.low, h.b1, h.b0)

  bit_1 : word_of w / 2 % 2 ≡ w.b1
  bit_1 = omega (arith, h.b15, h.b14, h.b13, h.middle, h.b8, h.high, h.b4, h.low, h.b1, h.b0)

  bit_0 : word_of w / 1 % 2 ≡ w.b0
  bit_0 = omega (arith, h.b15, h.b14, h.b13, h.middle, h.b8, h.high, h.b4, h.low, h.b1, h.b0)

  enabled_of : (if is_set (pos w.b8) then pos 0 else pos 1) ≡ pos (1 - w.b8)
  enabled_of = ground (arith, h.b8)

-- The status word sets each flag of the device from its own bit, whatever the other bits are and
-- whatever stands above the low sixteen; `enabled` is the opposite of bit 8.
pub decode_status-word_of :
    (w : StatusBits) (above : ℕ) (d : DeviceData)
    → IsBits w
    → decode_status (short_bits (int32 (above * 65536 + word_of w))) d ≡ record d {
      moving = pos w.b0;
      in_position = pos w.b1;
      error = pos w.b4;
      enabled = pos (1 - w.b8);
      positive = pos w.b13;
      negative = pos w.b15;
      event_2 = pos w.b14;
    }
unfolding decode_status
decode_status-word_of w above d h =
    rw
      (
        short_bits-int32 (above * 65536 + word_of w),
        low_word w above h,
        bit_15 w h,
        bit_14 w h,
        bit_13 w h,
        bit_8 w h,
        bit_4 w h,
        bit_1 w h,
        bit_0 w h,
        enabled_of w h,
      )
      refl
