-- ===== src/Topbox/Mvp/Home/Tests.antt =====
-- The theorems on MVP_Home at concrete inputs.
use mmtao_old.Topbox.Sample.{test_env, ready, no_answer}
use mmtao_old.Topbox.Mvp.Home.{mvp_home}
use mmtao_old.Topbox.Mvp.Home.Laws.{mvp_home-HomesWithin}
use mmtao_old.Topbox.Homing.{HomingState}
use mmtao_old.Topbox.Homing.Ends.{HomesWithin}
use mmtao_old.Base.{refl, List, [], ◌∷◌, ℕ}
use mmtao_old.Topbox.Socket.Connect.{Attempt}
use mmtao_old.Base.Int.{pos}
use mmtao_old.Base.Text.{codes}

abbrev idle : HomingState
idle = record { poll = record { link = ready; loops = 0 }; running = pos 0; turns = 0; sleeps = 0 }

-- The polling thread makes one round in each of its turns.
abbrev one_round : ℕ → List Attempt
one_round n = no_answer ∷ []

mvp_home-HomesWithin_example :
    HomesWithin 13001 idle (mvp_home test_env (codes "FSM_Tip") one_round idle)
mvp_home-HomesWithin_example = mvp_home-HomesWithin test_env (codes "FSM_Tip") one_round idle refl
