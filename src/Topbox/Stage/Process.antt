-- ===== src/Topbox/Stage/Process.antt =====
-- Stage_Process: a request line is split into words, and the second word selects the routine.
pub mod Laws
use mathlib.Core.Option
use mmtao_old.Topbox.Stage
use mmtao_old.Topbox.Link.{Float, M, Floats, Env, Link}
use mmtao_old.Topbox.Mvp.Process.{begins, Session, newest}
use mathlib.Core.Option.{Option}
use mmtao_old.Base.{suc, Bool, true, false, not, ◌||◌, Option, some, List, [], ◌∷◌, if◌then◌else◌}
use mmtao_old.Base.Text.{Bytes, codes, has_prefix, words}
use mmtao_old.Base.Int.{is_set, ℤ, pos, negsuc}
use Prim.Native.String.{String}

-- The routines that a request can call.
pub data StageCommand : Type 0 where
  enable disable position zero_here : StageCommand
  set_home relative absolute speed : Float → StageCommand

-- What a request line asks for. `incomplete` is a missing word.
pub data StageRequest : Type 0 where
  incomplete unchanged home : StageRequest
  debug : Bool → StageRequest
  command : StageCommand → StageRequest

-- The third word; without it the request is refused.
third : (Bytes → StageRequest) → List Bytes → StageRequest
third f [] = incomplete
third f (parameter ∷ _) = f parameter

switch_debug : Bytes → StageRequest
unfolding begins
switch_debug parameter =
    if begins parameter "on"
    then debug true
    else if begins parameter "off"
    then debug false
    else unchanged

module _ (env : Env) where
  unfoldable pub stage_perform : StageCommand → M ℤ
  stage_perform enable = Stage.stage_enable env
  stage_perform disable = Stage.stage_disable env
  stage_perform position = Stage.stage_position env
  stage_perform zero_here = Stage.stage_set_zero env
  stage_perform (set_home value) = Stage.stage_set_home_var env value
  stage_perform (relative distance) = Stage.stage_move_relative env distance
  stage_perform (absolute distance) = Stage.stage_move_absolute env distance
  stage_perform (speed value) = Stage.stage_set_speed env value

module _ (fl : Floats) where
  -- (float) atof(s), passed as a double
  single : Bytes → Float
  single s = fl.double_of_float (fl.parse_float s)

  -- (int) atof(s), passed as a double
  whole : Bytes → Float
  whole s = fl.double_of_int (fl.trunc_double (fl.parse_double s))

  -- The `else if` chain over the action; what is compared is a prefix of the action. An abort
  -- disables the stage.
  unfoldable pub stage_action : Bytes → List Bytes → StageRequest
  unfolding begins switch_debug third single whole
  stage_action action rest =
      if begins action "?" || begins action "help"
      then unchanged
      else if begins action "debug"
      then third switch_debug rest
      else if begins action "en"
      then command enable
      else if begins action "di" || begins action "abort"
      then command disable
      else if begins action "home"
      then home
      else if begins action "pos"
      then command position
      else if begins action "sta"
      then unchanged
      else if begins action "zero"
      then command zero_here
      else if begins action "sethome"
      then third (λ p. command (set_home (single p))) rest
      else if begins action "rel"
      then third (λ p. command (relative (single p))) rest
      else if begins action "abs"
      then third (λ p. command (absolute (single p))) rest
      else if begins action "speed"
      then third (λ p. command (speed (whole p))) rest
      else unchanged

  pub stage_words : List Bytes → StageRequest
  unfolding stage_action
  stage_words (device ∷ action ∷ rest) = stage_action action rest
  stage_words _ = incomplete

module _ (env : Env) where
  -- The action, with the flag allocated. Stage_Process does not look at the routine's status.
  unfoldable pub stage_act : StageRequest → Session → Option (ℤ × Session)
  unfolding newest
  stage_act incomplete x = some (negsuc 0, x)
  stage_act unchanged x = some (pos 0, x)
  stage_act home x =
      some (pos 0, if is_set (newest x.running) then x else record x { homing = suc x.homing })
  stage_act (debug on) x = some (pos 0, record x { debugging = on })
  stage_act (command c) x =
      Option.map (λ (r : ℤ × Link). (pos 0, record x { link = r.1 })) (stage_perform env c x.link)

  unfoldable pub stage_process : Bytes → Session → Option (ℤ × Session)
  unfolding stage_act stage_words words
  stage_process line x =
      let y = record x { running = pos 0 ∷ x.running } in
      if not x.link.connected
      then some (negsuc 0, y)
      else stage_act (stage_words env.floats (words line)) y
