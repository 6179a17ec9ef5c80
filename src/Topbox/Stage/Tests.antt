-- ===== src/Topbox/Stage/Tests.antt =====
-- The theorems on the stages at concrete inputs.
use mmtao_old.Topbox.Sample.{test_env, ready, unreached, motor-IsZeroed, no_answer}
use mmtao_old.Topbox.Stage.Looper.{stage_looper, StaysQuiet, stage_looper-StaysQuiet}
use mmtao_old.Topbox.Stage.Home.{stage_home, stage_home-HomesWithin}
use mmtao_old.Topbox.Homing.{HomingState}
use mmtao_old.Topbox.Homing.Ends.{HomesWithin}
use mmtao_old.Base.{refl, [], ◌∷◌}
use mmtao_old.Base.Int.{pos}

stage_looper-StaysQuiet_example :
    StaysQuiet (stage_looper test_env no_answer (no_answer ∷ no_answer ∷ []) unreached)
stage_looper-StaysQuiet_example =
    stage_looper-StaysQuiet test_env no_answer (no_answer ∷ no_answer ∷ []) unreached
      (record { free = refl; cleared = λ down. motor-IsZeroed })

abbrev idle : HomingState
idle = record { poll = record { link = ready; loops = 0 }; running = pos 0; turns = 0; sleeps = 0 }

stage_home-HomesWithin_example :
    HomesWithin 13000 idle (stage_home test_env (λ n. no_answer ∷ []) idle)
stage_home-HomesWithin_example = stage_home-HomesWithin test_env (λ n. no_answer ∷ []) idle refl
