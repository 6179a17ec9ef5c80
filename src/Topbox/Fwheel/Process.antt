-- ===== src/Topbox/Fwheel/Process.antt =====
-- Fwheel_Process: a request line is split into words, and the second word selects the routine.
use mathlib.Core.Option
use mathlib.Core.Path.{subst}
use mmtao_old.Topbox.Fwheel.{fwheel_move_absolute, fwheel_move_relative, fwheel_move_third}
use mmtao_old.Topbox.Fwheel.Laws.{Lands, fwheel_move_absolute-Lands}
use mmtao_old.Topbox.Link.{Float, M, Floats, Env, Link}
use mmtao_old.Topbox.Mvp.Process.{begins, Session, newest}
use mmtao_old.Base.{
  ℕ, suc, ◌<◌, ◌≡◌, Bool, true, false, not, ◌||◌, Option, none, some, List, [], ◌∷◌, if◌then◌else◌,
  refl,
}
use mmtao_old.Base.Text.{Bytes, words}
use mmtao_old.Base.Int.{is_set, ℤ, pos, negsuc}

-- The moves that a request can call.
pub data FwheelMove : Type 0 where
  relative absolute : Float → FwheelMove
  a_third : FwheelMove

-- What a request line asks for. `incomplete` is a missing word.
pub data FwheelRequest : Type 0 where
  incomplete unchanged home : FwheelRequest
  debug : Bool → FwheelRequest
  move : FwheelMove → FwheelRequest

-- The parameter; without it the request is refused.
with_word : (Bytes → FwheelRequest) → List Bytes → FwheelRequest
with_word f [] = incomplete
with_word f (parameter ∷ _) = f parameter

debug_word : Bytes → FwheelRequest
unfolding begins
debug_word parameter =
    if begins parameter "on"
    then debug true
    else if begins parameter "off"
    then debug false
    else unchanged

module _ (fl : Floats) where
  -- distance, a float that is passed as a double
  distance : Bytes → Float
  distance s = fl.double_of_float (fl.parse_float s)

  -- The `else if` chain over the action; help, the position, the status and the speed change nothing.
  unfoldable pub fwheel_action : Bytes → List Bytes → FwheelRequest
  unfolding begins with_word debug_word distance
  fwheel_action action rest =
      if begins action "?" || begins action "help"
      then unchanged
      else if begins action "debug"
      then with_word debug_word rest
      else if begins action "home"
      then home
      else if begins action "pos" || begins action "sta"
      then unchanged
      else if begins action "rel"
      then with_word (λ p. move (relative (distance p))) rest
      else if begins action "abs"
      then with_word (λ p. move (absolute (distance p))) rest
      else if begins action "th"
      then move a_third
      else unchanged

  unfoldable pub fwheel_words : List Bytes → FwheelRequest
  unfolding fwheel_action
  fwheel_words (device ∷ action ∷ rest) = fwheel_action action rest
  fwheel_words _ = incomplete

module _ (env : Env) where
  unfoldable pub fwheel_move : FwheelMove → M ℤ
  unfolding fwheel_move_relative
  fwheel_move (relative delta) = fwheel_move_relative env delta
  fwheel_move (absolute position) = fwheel_move_absolute env position
  fwheel_move a_third = fwheel_move_third env

  -- The action, with the flag allocated. Fwheel_Process does not look at the routine's status.
  unfoldable pub fwheel_act : FwheelRequest → Session → Option (ℤ × Session)
  unfolding fwheel_move newest
  fwheel_act incomplete x = some (negsuc 0, x)
  fwheel_act unchanged x = some (pos 0, x)
  fwheel_act home x =
      some (pos 0, if is_set (newest x.running) then x else record x { homing = suc x.homing })
  fwheel_act (debug on) x = some (pos 0, record x { debugging = on })
  fwheel_act (move m) x =
      Option.map (λ (r : ℤ × Link). (pos 0, record x { link = r.1 })) (fwheel_move m x.link)

  unfoldable pub fwheel_process : Bytes → Session → Option (ℤ × Session)
  unfolding fwheel_act fwheel_words words
  fwheel_process line x =
      let y = record x { running = pos 0 ∷ x.running } in
      if not x.link.connected
      then some (negsuc 0, y)
      else fwheel_act (fwheel_words env.floats (words line)) y

  -- The position that a move asks for, a double.
  unfoldable pub aim : FwheelMove → Link → Option Float
  aim (relative delta) s =
      some (env.floats.add_double (env.floats.double_of_float s.device.position) delta)
  aim (absolute position) s = some position
  aim a_third s = none

  -- Where the wheel is after a request.
  abbrev pub LandsAt : ℤ → ℤ → Option (ℤ × Session) → Type 0
  LandsAt cur asked none = Lands env cur asked none
  LandsAt cur asked (some (status, x)) =
      (status ≡ pos 0) × Lands env cur asked (some (status, x.link))

  map-LandsAt :
      (cur asked : ℤ) (x : Session) (o : Option (ℤ × Link))
      → Lands env cur asked o
      → LandsAt cur asked (Option.map (λ (r : ℤ × Link). (pos 0, record x { link = r.1 })) o)
  map-LandsAt cur asked x none h = h
  map-LandsAt cur asked x (some (status, t)) h = (refl, h)

  unless-LandsAt :
      (cur asked : ℤ) (up : Bool) (o p : Option (ℤ × Session))
      → up ≡ true
      → LandsAt cur asked p
      → LandsAt cur asked (if not up then o else p)
  unless-LandsAt cur asked true o p e h = h
  unless-LandsAt cur asked false o p e h = absurd (cc)

  fwheel_move-Lands :
      (m : FwheelMove) (position : Float) (c : ℕ) (s : Link)
      → aim m s ≡ some position
      → c < 8
      → is_set s.device.home ≡ true
      → env.floats.trunc_float s.device.position ≡ pos (suc c)
      → s.device.position ≡ env.floats.float_of_int (pos (suc c))
      → Lands env (pos (suc c)) (env.floats.trunc_double position) (fwheel_move m s)
  unfolding aim fwheel_move fwheel_move_relative
  fwheel_move-Lands (relative delta) position c s e b homed here at =
      let asked = env.floats.add_double (env.floats.double_of_float s.device.position) delta in
      let same : asked ≡ position = cc in
      subst
        (λ d.
          Lands env (pos (suc c)) (env.floats.trunc_double d) (fwheel_move_absolute env asked s))
        (same) (fwheel_move_absolute-Lands env asked c s b homed here at)
  fwheel_move-Lands (absolute asked) position c s e b homed here at =
      let same : asked ≡ position = cc in
      subst
        (λ d.
          Lands env (pos (suc c)) (env.floats.trunc_double d) (fwheel_move_absolute env asked s))
        (same) (fwheel_move_absolute-Lands env asked c s b homed here at)
  fwheel_move-Lands a_third position c s e b homed here at = absurd (cc)

  -- If the wheel is connected, at one of the eight positions and with the home flag set, then a
  -- request for an absolute or a relative move returns 0, and the wheel is recorded at the one of the
  -- eight positions that is the place asked for, whatever number was asked for, or whatever distance
  -- from the recorded position; unless the move goes over the home switch, where it may also read
  -- outside the table of names, or write behind the buffer of Fwheel_CheckHome.
  pub fwheel_process-LandsAt :
      (line : Bytes) (m : FwheelMove) (position : Float) (c : ℕ) (x : Session)
      → x.link.connected ≡ true
      → fwheel_words env.floats (words line) ≡ move m
      → aim m x.link ≡ some position
      → c < 8
      → is_set x.link.device.home ≡ true
      → env.floats.trunc_float x.link.device.position ≡ pos (suc c)
      → x.link.device.position ≡ env.floats.float_of_int (pos (suc c))
      → LandsAt (pos (suc c)) (env.floats.trunc_double position) (fwheel_process line x)
  unfolding fwheel_process fwheel_act
  fwheel_process-LandsAt line m position c x up asks e b homed here at =
      let y = record x { running = pos 0 ∷ x.running } in
      unless-LandsAt (pos (suc c)) (env.floats.trunc_double position) x.link.connected _ _ up (
        rw asks (
          map-LandsAt (pos (suc c)) (env.floats.trunc_double position) y (fwheel_move m x.link)
            (fwheel_move-Lands m position c x.link e b homed here at)))
