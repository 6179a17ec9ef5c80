-- ===== src/Topbox/Power/Tests.antt =====
-- The power controller on a sample connection.
use mmtao_old.Base.{refl, true, [], ◌∷◌, ◌≡◌, false, some}
use mmtao_old.Base.Int.{pos}
use mmtao_old.Topbox.Sample.{test_env, unreached, ready}
use mmtao_old.Topbox.Socket.Connect.{Attempt}
use mmtao_old.Topbox.Power.Looper.{poll, IsLost, poll-IsLost}
use mmtao_old.Base.Text.{codes, words}
use mmtao_old.Topbox.Socket.{string_write}
use mmtao_old.Topbox.Power.Process.{power_process, PowerSession}
use mmtao_old.Topbox.Power.Process.Laws.{relay_line, power_process-relay_line}

-- Every call succeeds.
abbrev reached : Attempt
reached = record {
  resolves = true;
  has_address = true;
  socket_made = true;
  flags_read = true;
  non_blocking = true;
  flags_restored = true;
  ready = pos 1;
  option_read = true;
  so_error = pos 0;
}

poll-IsLost_example : IsLost unreached (poll test_env (reached ∷ reached ∷ []) unreached)
poll-IsLost_example = poll-IsLost test_env (reached ∷ reached ∷ []) unreached refl

-- A request to switch the alignment laser on.
abbrev console : PowerSession
console = record { link = ready; debugging = false }

laser_words :
    words (codes "power alignment_laser on")
    ≡ codes "power" ∷ codes "alignment_laser" ∷ codes "on" ∷ []
unfolding words
laser_words = refl

power_process-relay_line_example :
    power_process test_env (codes "power alignment_laser on") console
    ≡ some (
      pos 0,
      record console {
        link =
            record (string_write test_env
              (relay_line 3 (codes "on"))
              (record ready { locked = true })).1 { locked = false };
      },
    )
power_process-relay_line_example =
    power_process-relay_line test_env (codes "power alignment_laser on") (codes "power")
      (codes "alignment_laser") (codes "on") [] 3 console laser_words refl refl refl
