-- ===== src/Topbox/Power/Process.antt =====
-- Power_Process: the request line of the power controller, and Power_Relay behind its names.
pub mod Laws
use mmtao_old.Topbox.Power
use mmtao_old.Base.{
  ℕ, Bool, true, false, not, ◌||◌, Option, none, some, List, [], ◌∷◌, if◌then◌else◌,
}
use mmtao_old.Base.Text.{Bytes, codes, has_prefix, words}
use mmtao_old.Base.Int.{ℤ, pos, negsuc}
use mmtao_old.Topbox.Link.{Env, Link}
use Prim.Native.String.{String}

-- The command thread of the controller.
pub record PowerSession : Type 0 where
  pub link : Link
  pub debugging : Bool

starts_with : Bytes → String → Bool
unfolding has_prefix
starts_with action word = has_prefix action (codes word)

-- The relay behind a name: the `else if` chain from "wfsc" to "spare2".
unfoldable pub select_relay : Bytes → Option ℕ
unfolding starts_with
select_relay action =
    if starts_with action "wfsc"
    then some 0
    else if starts_with action "peltier"
    then some 1
    else if starts_with action "stella"
    then some 2
    else if starts_with action "alignment_laser"
    then some 3
    else if starts_with action "f15_laser"
    then some 4
    else if starts_with action "indigo"
    then some 5
    else if starts_with action "spare1"
    then some 6
    else if starts_with action "spare2"
    then some 7
    else none

set_debug : Bytes → PowerSession → PowerSession
unfolding starts_with
set_debug parameter x =
    if starts_with parameter "on"
    then record x { debugging = true }
    else if starts_with parameter "off"
    then record x { debugging = false }
    else x

module _ (env : Env) where
  -- Power_Relay on the parameter; `none` is a call that does not return, which a missing parameter
  -- makes of the comparison with "on".
  switch : ℕ → Option Bytes → PowerSession → Option (ℤ × PowerSession)
  switch relay none x = none
  switch relay (some what) x = elim (Power.power_relay env relay what x.link) [
    | none ↦ none
    | some (status, t) ↦ some (pos 0, record x { link = t })
  ]

  switch_if : Option ℕ → Option Bytes → PowerSession → Option (ℤ × PowerSession)
  unfolding switch
  switch_if none parameter x = some (pos 0, x)
  switch_if (some relay) parameter x = switch relay parameter x

  debug_if : Option Bytes → PowerSession → Option (ℤ × PowerSession)
  unfolding set_debug
  debug_if none x = some (negsuc 0, x)
  debug_if (some parameter) x = some (pos 0, set_debug parameter x)

  -- The action; "status" only prints.
  power_act : Bytes → Option Bytes → PowerSession → Option (ℤ × PowerSession)
  unfolding starts_with switch_if debug_if select_relay
  power_act action parameter x =
      if starts_with action "?" || starts_with action "help"
      then some (pos 0, x)
      else if starts_with action "debug"
      then debug_if parameter x
      else switch_if (select_relay action) parameter x

  power_words : List Bytes → PowerSession → Option (ℤ × PowerSession)
  unfolding power_act
  power_words (device ∷ action ∷ parameter ∷ more) x = power_act action (some parameter) x
  power_words (device ∷ action ∷ []) x = power_act action none x
  power_words _ x = some (negsuc 0, x)

  unfoldable pub power_process : Bytes → PowerSession → Option (ℤ × PowerSession)
  unfolding power_words words
  power_process line x =
      if not x.link.connected then some (negsuc 0, x) else power_words (words line) x
