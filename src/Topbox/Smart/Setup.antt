-- ===== src/Topbox/Smart/Setup.antt =====
-- Smart_Init: the two motors get their addresses, their speeds and their limits.

use mmtao_old.Base.{none, some, ℕ, zero, suc, Bool, true, false, not, List, [], ◌∷◌, if◌then◌else◌}
use mmtao_old.Base.Int.{ℤ, pos, negsuc, is_set}
use mmtao_old.Base.Text.{Bytes, codes}
use mmtao_old.Topbox.Link.{Env, M, pure, ◌>>=◌, ◌>>◌, lock, unlock, close_socket}
use mmtao_old.Topbox.Socket.Connect.{open_client, Attempt}
use mmtao_old.Topbox.Smart.{broadcast_id, focus_id, rotation_id, smart_write, smart_exchange}

-- A call of Smart_Write, or of Smart_Cmd_int.
pub data Exchange : Type 0 where
  tell ask : ℕ → Bytes → Exchange

-- The calls of Smart_Init_common.
abbrev pub setup : List Exchange
setup =
    tell broadcast_id (codes "ECHO_OFF")
    ∷ tell broadcast_id (codes "SADDR1")
    ∷ tell focus_id (codes "ECHO")
    ∷ tell focus_id (codes "SLEEP")
    ∷ tell broadcast_id (codes "SADDR2")
    ∷ tell rotation_id (codes "ECHO")
    ∷ ask focus_id (codes "WAKE")
    ∷ ask focus_id (codes "A=100")
    ∷ ask focus_id (codes "V=100000")
    ∷ tell focus_id (codes "LIMD")
    ∷ ask focus_id (codes "Rh")
    ∷ ask rotation_id (codes "A=100")
    ∷ ask rotation_id (codes "V=30000")
    ∷ tell rotation_id (codes "KP=300")
    ∷ tell rotation_id (codes "F")
    ∷ tell rotation_id (codes "LIMD")
    ∷ ask rotation_id (codes "Rh")
    ∷ []

module _ (env : Env) where
  -- The calls one by one; the call that fails, counted from 1, gives the negative status.
  unfoldable pub exchanges : ℕ → List Exchange → M ℤ
  unfolding smart_exchange
  exchanges n [] = pure (pos 0)
  exchanges n (tell id request ∷ rest) = do
    failed ← smart_write env id request
    if is_set failed then pure (negsuc n) else exchanges (suc n) rest
  exchanges n (ask id request ∷ rest) = do
    (failed, reply) ← smart_exchange env id request
    if is_set failed then pure (negsuc n) else exchanges (suc n) rest

  -- Smart_Init_common.
  unfoldable pub init_common : M ℤ
  unfolding exchanges
  init_common = exchanges 0 setup

  -- The tries of Smart_Init.
  unfoldable pub init_tries : ℕ → M ℤ
  unfolding init_common lock unlock
  init_tries zero s = some (negsuc 0, s)
  init_tries (suc tries) s =
      if not s.connected
      then some (negsuc 0, s)
      else (do lock; rv ← init_common; unlock; if is_set rv then init_tries tries else pure (pos 0))
          s

  -- MAX_INIT_TRIES is 13.
  unfoldable pub smart_init : M ℤ
  unfolding init_tries
  smart_init = init_tries 13

  -- Smart_Reconnect.
  unfoldable pub smart_reconnect : Attempt → M Bool
  unfolding smart_init
  smart_reconnect a s =
      let (status, t) = open_client a s in
      if is_set status then some (false, t) else elim (smart_init t) [
        | none ↦ none
        | some (failed, u) ↦ if is_set failed then some (false, close_socket u) else some (true, u)
      ]
