-- ===== src/Topbox/Socket/Tests.antt =====
-- Flushing, writing and connecting on a sample connection.
use mmtao_old.Base.{◌≡◌, refl, true}
use mmtao_old.Base.Int.{pos}
use mmtao_old.Topbox.Sample.{unreached}
use mmtao_old.Topbox.Socket.Connect.{Attempt, open_client}

-- The time for the connection is up, and no error is pending.
abbrev timed_out : Attempt
timed_out = record {
  resolves = true;
  has_address = true;
  socket_made = true;
  flags_read = true;
  non_blocking = true;
  flags_restored = true;
  ready = pos 0;
  option_read = true;
  so_error = pos 0;
}

timed_out_returns : (open_client timed_out unreached).0 ≡ pos 0
unfolding open_client
timed_out_returns = refl
