-- ===== src/Topbox/Mvp/Confirmed/Tests.antt =====
-- The routines that set a value, on the sample device.
use mmtao_old.Topbox.Mvp.Commands
use mmtao_old.Base.{refl}
use mmtao_old.Base.Text.{codes}
use mmtao_old.Base.Int.{pos}
use mmtao_old.Topbox.Sample.{test_env, ready}
use mmtao_old.Topbox.Mvp.Confirmed.{IsConfirmed, SucceedsIf, setters-SucceedIf}

setters-SucceedIf_example :
    SucceedsIf
      (IsConfirmed test_env (codes "0 SP") (pos 5) ready)
      (Commands.set_speed test_env (pos 5) ready)
    × SucceedsIf
        (IsConfirmed test_env (codes "0 AC") (pos 5) ready)
        (Commands.set_accel test_env (pos 5) ready)
    × SucceedsIf
        (IsConfirmed test_env (codes "0 ANO") (pos 5) ready)
        (Commands.set_home_flag test_env (pos 5) ready)
setters-SucceedIf_example = setters-SucceedIf test_env (pos 5) ready refl
