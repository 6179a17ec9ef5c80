-- ===== src/Topbox/Fwheel/Turns.antt =====
-- The positions of the filter wheel as ints: the two loops of Fwheel_MoveAbsolute that bring the
-- requested position within one turn ahead of the current one.
use mmtao_old.Base.{
  ℕ, zero, suc, ◌+◌, ◌-◌, ◌%◌, ◌<◌, ◌≡◌, Bool, true, false, leb, ltb, if◌then◌else◌, arith, ◌∙◌,
}
use mmtao_old.Base.Int.{ℤ, pos, negsuc}

abbrev pub leb_ℤ : ℤ → ℤ → Bool
leb_ℤ (pos a) (pos b) = leb a b
leb_ℤ (pos a) (negsuc b) = false
leb_ℤ (negsuc a) (pos b) = true
leb_ℤ (negsuc a) (negsuc b) = leb b a

-- a - b, or 0 if that is negative.
abbrev pub excess : ℤ → ℤ → ℕ
excess (pos a) (pos b) = a - b
excess (pos a) (negsuc b) = a + b + 1
excess (negsuc a) (pos b) = 0
excess (negsuc a) (negsuc b) = b - a

abbrev turn_on : ℤ → ℤ
turn_on (pos a) = pos (a + 8)
turn_on (negsuc a) = if ltb a 8 then pos (7 - a) else negsuc (a - 8)

abbrev turn_back : ℤ → ℤ
turn_back (pos a) = if ltb a 8 then negsuc (7 - a) else pos (a - 8)
turn_back (negsuc a) = negsuc (a + 8)

-- `while (new_pos < cur_pos) new_pos += FW_NFILTERS`
unfoldable pub raise : ℕ → ℤ → ℤ → ℤ
raise zero cur new = new
raise (suc fuel) cur new =
    let rest = raise fuel cur (turn_on new) in if leb_ℤ cur new then new else rest

-- `while (new_pos - FW_NFILTERS >= cur_pos) new_pos -= FW_NFILTERS`
unfoldable pub lower : ℕ → ℤ → ℤ → ℤ
lower zero cur new = new
lower (suc fuel) cur new =
    let rest = lower fuel cur (turn_back new) in if leb_ℤ cur (turn_back new) then rest else new

unfoldable pub forward : ℤ → ℤ → ℤ
unfolding raise lower
forward cur asked =
    let new = raise (suc (excess cur asked)) cur asked in lower (suc (excess new cur)) cur new

-- The place on the wheel, with 0 for 8.
abbrev pub place : ℤ → ℕ
place (pos n) = n % 8
place (negsuc n) = 7 - n % 8

-- Within one turn ahead, at the same place.
pub record IsAhead (cur asked new : ℤ) : Type 0 where
  pub reached : leb_ℤ cur new ≡ true
  pub near : excess new cur < 8
  pub same : place new ≡ place asked

raise-leb :
    (fuel : ℕ) (cur new : ℤ)
    → excess cur new < fuel
    → (leb_ℤ cur (raise fuel cur new) ≡ true) × (place (raise fuel cur new) ≡ place new)
unfolding raise
raise-leb zero cur new h = absurd (omega arith)
raise-leb (suc fuel) (pos c) (pos a) h = ground (arith, raise-leb fuel (pos c) (pos (a + 8)))
raise-leb (suc fuel) (pos c) (negsuc a) h =
    ground (arith, raise-leb fuel (pos c) (pos (7 - a)), raise-leb fuel (pos c) (negsuc (a - 8)))
raise-leb (suc fuel) (negsuc c) (pos a) h = ground arith
raise-leb (suc fuel) (negsuc c) (negsuc a) h =
    ground
      (arith, raise-leb fuel (negsuc c) (pos (7 - a)), raise-leb fuel (negsuc c) (negsuc (a - 8)))

pub lower-near :
    (fuel : ℕ) (cur new : ℤ)
    → leb_ℤ cur new ≡ true
    → excess new cur < fuel
    → (leb_ℤ cur (lower fuel cur new) ≡ true)
      × (excess (lower fuel cur new) cur < 8)
      × (place (lower fuel cur new) ≡ place new)
unfolding lower
lower-near zero cur new le h = absurd (omega arith)
lower-near (suc fuel) (pos c) (pos a) le h = ground (arith, lower-near fuel (pos c) (pos (a - 8)))
lower-near (suc fuel) (pos c) (negsuc a) le h = absurd (ground arith)
lower-near (suc fuel) (negsuc c) (pos a) le h =
    ground
      (arith, lower-near fuel (negsuc c) (pos (a - 8)), lower-near fuel (negsuc c) (negsuc (7 - a)))
lower-near (suc fuel) (negsuc c) (negsuc a) le h =
    ground (arith, lower-near fuel (negsuc c) (negsuc (a + 8)))

-- Whatever position is asked for, and also if it is negative, the two loops end with the one that
-- lies at the same place of the wheel and within one turn ahead of the current position.
pub forward-IsAhead : (cur asked : ℤ) → IsAhead cur asked (forward cur asked)
unfolding forward
forward-IsAhead cur asked =
    let new = raise (suc (excess cur asked)) cur asked in
    let (reached, same) = raise-leb (suc (excess cur asked)) cur asked (omega arith) in
    let (above, near, still) = lower-near (suc (excess new cur)) cur new reached (omega arith) in
    record { reached = above; near = near; same = still ∙ same }
