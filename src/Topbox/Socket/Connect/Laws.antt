-- ===== src/Topbox/Socket/Connect/Laws.antt =====
-- When Socket_OpenClient reports success.
use mmtao_old.Topbox.Socket.Connect.{Attempt, connect, open_client}
use mmtao_old.Base.{◌≡◌, ◌↔◌, true, false, arith, []}
use mmtao_old.Base.Int.{pos, is_negative}
use mmtao_old.Topbox.Link.{Link}

-- Every call but `select` succeeds; `select` does not fail, and the socket has no error to report.
pub record IsReached (a : Attempt) : Type 0 where
  pub resolves : a.resolves ≡ true
  pub has_address : a.has_address ≡ true
  pub socket_made : a.socket_made ≡ true
  pub flags_read : a.flags_read ≡ true
  pub non_blocking : a.non_blocking ≡ true
  pub flags_restored : a.flags_restored ≡ true
  pub no_failure : is_negative a.ready ≡ false
  pub option_read : a.option_read ≡ true
  pub no_error : a.so_error ≡ pos 0

open_client_reaches : (a : Attempt) (s : Link) → (open_client a s).0 ≡ pos 0 → IsReached a
unfolding open_client connect
open_client_reaches a s done = record {
  resolves = ground arith;
  has_address = ground arith;
  socket_made = ground arith;
  flags_read = ground arith;
  non_blocking = ground arith;
  flags_restored = ground arith;
  no_failure = ground arith;
  option_read = ground arith;
  no_error = ground arith;
}

-- Socket_OpenClient returns 0 exactly if every call succeeds and `select` does not fail, the time-out
-- of `select` included.
pub open_client_iff : (a : Attempt) (s : Link) → ((open_client a s).0 ≡ pos 0) ↔ IsReached a
unfolding open_client connect
open_client_iff a s = (open_client_reaches a s, λ r. ground (arith, r))

-- When Socket_OpenClient returns 0, the device is connected, without error, with nothing to read,
-- and with its mutex and its state as they were.
pub open_client-connected :
    (a : Attempt) (s : Link)
    → (open_client a s).0 ≡ pos 0
    → (open_client a s).1 ≡ record s { is_open = true; connected = true; error = false; inbox = [] }
unfolding open_client connect
open_client-connected a s done = let r = open_client_reaches a s done in ground (arith, r)
