-- ===== src/Topbox/Smart/Looper.antt =====
-- Smart_Looper: the thread that polls both motors.

use mmtao_old.Base.{Option, none, some, List, [], ◌∷◌, if◌then◌else◌}
use mmtao_old.Base.Int.{ℤ, pos, is_set}
use mmtao_old.Topbox.Link.{Env, Link, DeviceData, zero_flags}
use mmtao_old.Topbox.Socket.Connect.{Attempt}
use mmtao_old.Topbox.Smart.{smart_status}
use mmtao_old.Topbox.Smart.Setup.{smart_reconnect}

-- The connection with the focus motor, `data`, and the rotation motor, `data2`.
pub record Motors : Type 0 where
  pub link : Link
  pub rotation : DeviceData

unfoldable pub enable_motor : DeviceData → DeviceData
enable_motor d = record d { enabled = pos 1 }

-- What is done to both motors.
abbrev pub both : (DeviceData → DeviceData) → Motors → Motors
both f m = record { link = record m.link { device = f m.link.device }; rotation = f m.rotation }

-- A routine on `data2`.
abbrev pub exchanged : Motors → Motors
exchanged m = record { link = record m.link { device = m.rotation }; rotation = m.link.device }

-- The motors with what a routine on the focus motor leaves.
unfoldable pub with_link : Motors → Option (ℤ × Link) → Option (ℤ × Motors)
with_link m none = none
with_link m (some (status, t)) = some (status, record m { link = t })

-- The end of a round, with the status of the rotation motor.
unfoldable pub end_round : Option (ℤ × Motors) → Option Motors
end_round none = none
end_round (some (status, m)) = some (exchanged m)

module _ (env : Env) where
  unfoldable pub poll_rotation : Motors → Option Motors
  unfolding smart_status with_link end_round
  poll_rotation m = end_round (with_link (exchanged m) (smart_status env (exchanged m).link))

  -- Behind the status of the focus motor, whose failure ends the round.
  unfoldable pub behind_focus : Option (ℤ × Motors) → Option Motors
  unfolding poll_rotation
  behind_focus none = none
  behind_focus (some (status, m)) = if is_set status then some m else poll_rotation m

  -- A new connection; the gui asks for `enabled`.
  unfoldable pub reconnect_motors : Attempt → Motors → Option Motors
  unfolding smart_reconnect enable_motor zero_flags
  reconnect_motors a m = elim (smart_reconnect env a m.link) [
    | none ↦ none
    | some (up, t) ↦ some (
        if up
        then both enable_motor (record m { link = t })
        else both zero_flags (record m { link = t }))
  ]

  -- The motors one after the other.
  unfoldable pub poll_motors : Motors → Option Motors
  unfolding smart_status with_link behind_focus
  poll_motors m = behind_focus (with_link m (smart_status env m.link))

  unfoldable pub motors_round : Attempt → Motors → Option Motors
  unfolding poll_motors reconnect_motors
  motors_round a m = if m.link.connected then poll_motors m else reconnect_motors a m

  unfoldable pub motors_rounds : List Attempt → Motors → Option Motors
  unfolding motors_round
  motors_rounds [] m = some m
  motors_rounds (a ∷ rest) m = elim (motors_round a m) [
    | none ↦ none
    | some t ↦ motors_rounds rest t
  ]

  -- Smart_Looper: one attempt to connect, and then the rounds until `continueRunning` is cleared.
  unfoldable pub smart_looper : Attempt → List Attempt → Motors → Option Motors
  unfolding motors_rounds reconnect_motors enable_motor
  smart_looper a attempts m =
      let started = both enable_motor m in
      if m.link.connected
      then motors_rounds attempts started
      else elim (reconnect_motors a started) [ none ↦ none | some t ↦ motors_rounds attempts t ]
