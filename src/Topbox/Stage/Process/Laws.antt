-- ===== src/Topbox/Stage/Process/Laws.antt =====
-- What a request line does to a stage's connection.
use mmtao_old.Topbox.Stage.Process.{
  StageRequest, StageCommand, stage_perform, stage_act, stage_process, stage_words,
}
use mmtao_old.Topbox.Stage.Settles.{
  stage_request-Settles, stage_command-Settles, stage_position-Settles, stage_set_home_var-Settles,
  stage_move_absolute-Settles, stage_move_relative-Settles,
}
use mmtao_old.Topbox.Link.{Env, Link}
use mmtao_old.Topbox.Mvp.Process.{Session}
use mmtao_old.Topbox.Mvp.Process.Laws.{StaysSettled, StaysSettled-map, choice_settled}
use mmtao_old.Topbox.Mvp.Settles.{IsSettled, Settles}
use mmtao_old.Base.{not, some, ◌∷◌, arith}
use mmtao_old.Base.Text.{Bytes, words}
use mmtao_old.Base.Int.{pos, negsuc}

module _ (env : Env) where
  pub stage_perform-Settles :
      (c : StageCommand) (s : Link) → IsSettled s → Settles (stage_perform env c s)
  unfolding stage_perform
  stage_perform-Settles StageCommand.enable s h = stage_request-Settles env s h _
  stage_perform-Settles StageCommand.disable s h = stage_request-Settles env s h _
  stage_perform-Settles StageCommand.position s h = stage_position-Settles env s h
  stage_perform-Settles StageCommand.zero_here s h = stage_command-Settles env s h _
  stage_perform-Settles (StageCommand.set_home v) s h = stage_set_home_var-Settles env s h v
  stage_perform-Settles (StageCommand.relative d) s h = stage_move_relative-Settles env d s h
  stage_perform-Settles (StageCommand.absolute d) s h = stage_move_absolute-Settles env d s h
  stage_perform-Settles (StageCommand.speed v) s h = stage_command-Settles env s h _

  stage_act-StaysSettled :
      (r : StageRequest) (x : Session) → IsSettled x.link → StaysSettled (stage_act env r x)
  unfolding stage_act
  stage_act-StaysSettled StageRequest.incomplete x h = h
  stage_act-StaysSettled StageRequest.unchanged x h = h
  stage_act-StaysSettled StageRequest.home x h = ground (arith, h)
  stage_act-StaysSettled (StageRequest.debug on) x h = h
  stage_act-StaysSettled (StageRequest.command c) x h =
      StaysSettled-map x (stage_perform env c x.link) (stage_perform-Settles c x.link h)

  -- Stage_Process returns on every line, whatever the stage and the kernel do. It leaves the mutex
  -- free, and a stage without connection closed and without state.
  stage_process-StaysSettled :
      (line : Bytes) (x : Session) → IsSettled x.link → StaysSettled (stage_process env line x)
  unfolding stage_process
  stage_process-StaysSettled line x h =
      choice_settled (not x.link.connected)
        (some (negsuc 0, record x { running = pos 0 ∷ x.running }))
        (stage_act env (stage_words env.floats (words line))
          (record x { running = pos 0 ∷ x.running }))
        h
        (stage_act-StaysSettled (stage_words env.floats (words line))
          (record x { running = pos 0 ∷ x.running }) h)
