-- ===== src/Topbox/Mvp/Process.antt =====
-- MVP_Process: a request line is split into words, and the second word selects the routine.
pub mod Laws
use mathlib.Core.Option
use mmtao_old.Topbox.Mvp.Commands
use mmtao_old.Topbox.Mvp.Moves
use mmtao_old.Topbox.Mvp.Queries
use mathlib.Core.Option.{Option}
use mmtao_old.Base.{
  ℕ, suc, Bool, true, false, not, ◌||◌, Option, none, some, List, [], ◌∷◌, if◌then◌else◌,
}
use mmtao_old.Base.Text.{Bytes, codes, has_prefix, words, parse_int}
use mmtao_old.Base.Int.{is_set, ℤ, pos, negsuc}
use mmtao_old.Topbox.Link.{Float, M, pure, gets, Floats, Env, Link, ◌>>=◌}
use mmtao_old.Topbox.Mvp.Moves.{move_absolute, move_relative}
use mmtao_old.Topbox.Mvp.Commands.{set_zero, reset_node, set_speed, set_accel, set_home_flag}
use mmtao_old.Topbox.Mvp.Queries.{flag, get_position, get_home_flag}
use Prim.Native.String.{String}

-- The routines that a request can call.
pub data Command : Type 0 where
  abort reset enable disable position zero_here get_hflag : Command
  relative absolute : Float → Command
  speed accel hflag : ℤ → Command

module _ (env : Env) where
  -- Enabling an idle motor first requests a move of 0.0.
  unfoldable pub enable_unless : Bool → M ℤ
  enable_unless true = pure (pos 0)
  enable_unless false = do moved ← Moves.move_relative env 0; Queries.enable env

  unfoldable pub disable_unless : Bool → M ℤ
  disable_unless true = pure (pos 0)
  disable_unless false = Queries.disable env

  unfoldable pub perform : Command → M ℤ
  perform abort = Commands.abort env
  perform reset = Commands.reset_node env
  perform enable = do enabled ← gets λ s. is_set s.device.enabled; enable_unless enabled
  perform disable = do enabled ← gets λ s. is_set s.device.enabled; disable_unless (not enabled)
  perform position = Queries.get_position env
  perform zero_here = Commands.set_zero env
  perform get_hflag = Queries.get_home_flag env
  perform (relative distance) = Moves.move_relative env distance
  perform (absolute distance) = Moves.move_absolute env distance
  perform (speed value) = Commands.set_speed env value
  perform (accel value) = Commands.set_accel env value
  perform (hflag value) = Commands.set_home_flag env value

-- What a request line asks for. `incomplete` is a missing word.
pub data Request : Type 0 where
  incomplete help unknown home : Request
  debug : Option Bool → Request
  command : Command → Request

unfoldable pub begins : Bytes → String → Bool
unfolding has_prefix
begins action word = has_prefix action (codes word)

-- "on", "off" and anything else.
debug_value : Bytes → Option Bool
unfolding begins
debug_value parameter =
    if begins parameter "on" then some true else if begins parameter "off" then some false else none

with_parameter : (Bytes → Request) → List Bytes → Request
with_parameter f [] = incomplete
with_parameter f (parameter ∷ _) = f parameter

-- The `else if` chain over the action; what is compared is a prefix of the action.
module _ (fl : Floats) where
  unfoldable pub select_action : Bytes → List Bytes → Request
  unfolding begins debug_value with_parameter parse_int
  select_action action rest =
      if begins action "?" || begins action "help"
      then help
      else if begins action "debug"
      then with_parameter (λ p. debug (debug_value p)) rest
      else if begins action "abort"
      then command abort
      else if begins action "reset"
      then command reset
      else if begins action "home"
      then home
      else if begins action "en"
      then command enable
      else if begins action "di"
      then command disable
      else if begins action "pos"
      then command position
      else if begins action "zero"
      then command zero_here
      else if begins action "rel"
      then with_parameter (λ p. command (relative (fl.parse_float p))) rest
      else if begins action "abs"
      then with_parameter (λ p. command (absolute (fl.parse_float p))) rest
      else if begins action "speed"
      then with_parameter (λ p. command (speed (parse_int p))) rest
      else if begins action "accel"
      then with_parameter (λ p. command (accel (parse_int p))) rest
      else if begins action "hflag"
      then with_parameter (λ p. command (hflag (parse_int p))) rest
      else if begins action "get"
      then command get_hflag
      else unknown

  parse_words : List Bytes → Request
  unfolding select_action
  parse_words (device ∷ action ∷ rest) = select_action action rest
  parse_words _ = incomplete

  unfoldable pub parse_request : Bytes → Request
  unfolding parse_words words
  parse_request line = parse_words (words line)

-- The command thread of one device. Every call allocates a `running` flag and points the static
-- Local_Info at it; a homing thread uses the flag that Local_Info points at.
pub record Session : Type 0 where
  pub link : Link
  pub debugging : Bool
  pub running : List ℤ  -- the flags allocated so far, the newest first
  pub homing : ℕ  -- homing threads started

unfoldable pub newest : List ℤ → ℤ
newest [] = pos 0
newest (flag ∷ _) = flag

module _ (env : Env) where
  -- The action, with the flag allocated. MVP_Process does not look at the routine's status.
  unfoldable pub act : Request → Session → Option (ℤ × Session)
  unfolding newest
  act incomplete x = some (negsuc 0, x)
  act help x = some (pos 0, x)
  act unknown x = some (pos 0, x)
  act home x =
      some (pos 0, if is_set (newest x.running) then x else record x { homing = suc x.homing })
  act (debug none) x = some (pos 0, x)
  act (debug (some on)) x = some (pos 0, record x { debugging = on })
  act (command c) x =
      Option.map (λ (r : ℤ × Link). (pos 0, record x { link = r.1 })) (perform env c x.link)

  unfoldable pub process : Bytes → Session → Option (ℤ × Session)
  unfolding act parse_request
  process line x =
      let y = record x { running = pos 0 ∷ x.running } in
      if not x.link.connected then some (negsuc 0, y) else act (parse_request env.floats line) y

-- The first step of MVP_Home: `*running = 1`.
unfoldable pub begin_home : Session → Session
begin_home x = elim x.running [ [] ↦ x | _ ∷ older ↦ record x { running = pos 1 ∷ older } ]
