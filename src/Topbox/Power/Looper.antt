-- ===== src/Topbox/Power/Looper.antt =====
-- Power_Looper.
use mmtao_old.Topbox.Power
use mmtao_old.Topbox.Power.{Env, Link}
use mmtao_old.Base.{
  ◌≡◌, refl, false, Option, none, some, List, [], ◌∷◌, arith, if◌then◌else◌, Option-cases, inl, inr,
}
use mmtao_old.Base.Int.{is_set}
use mmtao_old.Topbox.Link.{M, pure, gets, modify, lift, drop_connection, Env, Link, ◌>>=◌, ◌>>◌}
use mmtao_old.Topbox.Socket.{flush}
use mmtao_old.Topbox.Socket.Connect.{open_client, Attempt}

-- Power_Status and the two calls that follow its failure.
status_or_lose : Env → M (Unit {0})
unfolding drop_connection
status_or_lose env = do
  status ← Power.power_status env
  if is_set status then drop_connection else pure tt

-- Before the loop, one attempt to connect.
pub start : Env → Attempt → M (Unit {0})
unfolding status_or_lose open_client
start env attempt = do
  connected ← gets λ s. s.connected
  if connected then pure tt else (do
    status ← lift (open_client attempt)
    opened ← gets λ s. s.connected
    if opened then (do modify flush; status_or_lose env) else pure tt)

-- One round. Behind the attempt to connect, `connected` is set to 0.
unfoldable pub round : Env → Attempt → M (Unit {0})
unfolding status_or_lose open_client
round env attempt = do
  connected ← gets λ s. s.connected
  if connected then status_or_lose env else (do
    status ← lift (open_client attempt)
    modify λ s. record s { connected = false }
    opened ← gets λ s. s.connected
    if opened then (do modify flush; status_or_lose env) else pure tt)

pub poll : Env → List Attempt → M (Unit {0})
poll env [] = pure tt
poll env (attempt ∷ attempts) = do round env attempt; poll env attempts

-- The thread until `continueRunning` is cleared.
pub power_looper : Env → Attempt → List Attempt → M (Unit {0})
unfolding start poll
power_looper env first attempts = do start env first; poll env attempts

-- What remains of a link that is not connected: it stays so, nothing is sent to the controller, and
-- the relays keep what was last read.
abbrev pub IsLost : Link → Option (Unit {0} × Link) → Type 0
IsLost s none = ⊥
IsLost s (some (_, t)) =
    (t.connected ≡ false) × (t.sent ≡ s.sent) × (t.device ≡ s.device) × (t.locked ≡ s.locked)

round-IsLost :
    (env : Env) (attempt : Attempt) (s : Link)
    → s.connected ≡ false
    → IsLost s (round env attempt s)
unfolding round
round-IsLost env attempt s h = ground arith

-- Once the power controller is not connected, the polling thread never gets it back, even if every
-- attempt to connect succeeds.
pub poll-IsLost :
    (env : Env) (attempts : List Attempt) (s : Link)
    → s.connected ≡ false
    → IsLost s (poll env attempts s)
unfolding poll
poll-IsLost env [] s h = (h, refl, refl, refl)
poll-IsLost env (attempt ∷ attempts) s h = elim (Option-cases (round env attempt s)) [
  | inl stuck ↦ absurd (rw stuck at (round-IsLost env attempt s h))
  | inr ((u, t), e) ↦
      let lost = rw e at (round-IsLost env attempt s h) in
      ground (arith, e, poll-IsLost env attempts t lost.0)
]
