-- ===== src/Topbox/Fwheel/Tests.antt =====
-- The filter wheel on a sample connection.
use mmtao_old.Base.{refl, ◌≡◌, arith, false, [], some}
use mmtao_old.Base.Text.{codes, words, has_prefix}
use mmtao_old.Topbox.Mvp.Process.{Session, begins}
use mmtao_old.Topbox.Fwheel.Process.{
  FwheelMove, FwheelRequest, fwheel_words, fwheel_action, aim, LandsAt, fwheel_process,
  fwheel_process-LandsAt,
}
use mmtao_old.Base.Int.{pos, negsuc}
use mmtao_old.Topbox.Link.{Link}
use mmtao_old.Topbox.Sample.{test_env, ready, motor, whole_numbers}
use mmtao_old.Topbox.Fwheel.Turns.{forward}

-- The wheel is homed, at its second filter.
abbrev at_second : Link
at_second = record ready { device = record motor { home = pos 1; position = 2 } }

forward_back : forward (pos 5) (negsuc 9) ≡ pos 6
unfolding forward
forward_back = refl

abbrev session : Session
session = record { link = at_second; debugging = false; running = []; homing = 0 }

to_seventh :
    fwheel_words whole_numbers (words (codes "F abs 7"))
    ≡ FwheelRequest.move (FwheelMove.absolute 7)
unfolding fwheel_words fwheel_action begins has_prefix words
to_seventh = refl

aimed : aim test_env (FwheelMove.absolute 7) at_second ≡ some 7
unfolding aim
aimed = refl

fwheel_process-LandsAt_example :
    LandsAt test_env (pos 2) (pos 7) (fwheel_process test_env (codes "F abs 7") session)
fwheel_process-LandsAt_example =
    fwheel_process-LandsAt test_env (codes "F abs 7") (FwheelMove.absolute 7) 7 1 session refl
      to_seventh aimed (omega arith) refl refl refl
