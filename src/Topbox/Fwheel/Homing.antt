-- ===== src/Topbox/Fwheel/Homing.antt =====
-- How Fwheel_Home ends.
use mmtao_old.Base.{◌≡◌, true, false, Bool, Option, none, some}
use mmtao_old.Base.Int.{ℤ, pos}
use mmtao_old.Base.Text.{codes}
use mmtao_old.Topbox.Link.{Env, Link, zero_flags}
use mmtao_old.Topbox.Socket.{flush}
use mmtao_old.Topbox.Mvp.Queries.{set_device}

-- The connection when the search begins.
abbrev pub before_search : Link → Link
before_search s = flush (set_device zero_flags s)

module _ (env : Env) where
  -- The end of the homing by whether the search found the switch.
  abbrev pub IsHomed : Option (Bool × Link) → Option (ℤ × Link) → Type 0
  IsHomed none o = o ≡ none
  IsHomed (some (true, u)) none = ⊥
  IsHomed (some (true, u)) (some (status, t)) =
      (status ≡ pos 0)
      × (t.device.home ≡ pos 1)
      × (t.device.moving ≡ pos 0)
      × (t.device.position ≡ env.floats.float_of_int (pos 1))
      × (t.device.filter ≡ codes "ND-2.0")
  IsHomed (some (false, u)) o = o ≡ none
