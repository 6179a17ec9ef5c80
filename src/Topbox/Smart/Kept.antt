-- ===== src/Topbox/Smart/Kept.antt =====
-- The state between two rounds of Smart_Looper.
use mmtao_old.Base.{
  ℕ, ◌≡◌, ◌⊎◌, Bool, true, false, Option, none, some, List, [], ◌∷◌, if◌then◌else◌, Bool-cases,
  Option-cases, inl, inr, ◌∙◌, refl,
}
use mmtao_old.Base.Int.{ℤ, pos, is_set}
use mmtao_old.Base.Text.{Bytes}
use mmtao_old.Topbox.Link.{Env, Link, IsZeroed, DeviceData, zero_flags}
use mmtao_old.Topbox.Socket.Connect.{Attempt}
use mmtao_old.Topbox.Smart
use mmtao_old.Topbox.Smart.Setup
use mmtao_old.Topbox.Smart.Looper
use mmtao_old.Topbox.Smart.Reads.{brief}
use mmtao_old.Topbox.Smart.Settles.{Asks, smart_status-Asks}
use mmtao_old.Topbox.Smart.Ready.{Reconnects, smart_reconnect-Reconnects}

-- The mutex is free. Over a connection both motors are enabled; without one, at least one of them
-- shows no state.
pub record IsReady (m : Looper.Motors) : Type 0 where
  pub free : m.link.locked ≡ false
  pub waits : brief m.link.inbox ≡ true
  pub enabled :
      m.link.connected ≡ true → (m.link.device.enabled ≡ pos 1) × (m.rotation.enabled ≡ pos 1)
  pub cleared : m.link.connected ≡ false → IsZeroed m.link.device ⊎ IsZeroed m.rotation

abbrev pub StaysReady : Option Looper.Motors → Type 0
StaysReady none = ⊥
StaysReady (some m) = IsReady m

zero_flags-IsZeroed : (d : DeviceData) → IsZeroed (zero_flags d)
unfolding zero_flags
zero_flags-IsZeroed d = record {
  home = refl;
  position = refl;
  moving = refl;
  in_position = refl;
  error = refl;
  enabled = refl;
  negative = refl;
  positive = refl;
  event_2 = refl;
}

either_way :
    (up : Bool) (o p : Option Looper.Motors)
    → (up ≡ true → StaysReady o)
    → (up ≡ false → StaysReady p)
    → StaysReady (if up then o else p)
either_way true o p there gone = there refl
either_way false o p there gone = gone refl

module _ (env : Env) (briefly : (n : ℕ) (line : Bytes) → brief (env.answer n line) ≡ true) where
  behind_reconnect :
      (m : Looper.Motors) (o : Option (Bool × Link))
      → Reconnects env briefly o
      → StaysReady (elim o [
        | none ↦ none
        | some (up, t) ↦ some (
            if up
            then Looper.both Looper.enable_motor (record m { link = t })
            else Looper.both zero_flags (record m { link = t }))
      ])
  unfolding Reconnects Looper.enable_motor
  behind_reconnect m none h = h
  behind_reconnect m (some (true, t)) h = record {
    free = h.0;
    waits = h.1;
    enabled = λ up. (refl, refl);
    cleared = λ down. absurd (cc);
  }
  behind_reconnect m (some (false, t)) h = record {
    free = h.0;
    waits = h.1;
    enabled = λ up. absurd (cc);
    cleared = λ down. inl (zero_flags-IsZeroed t.device);
  }

  reconnect-StaysReady :
      (a : Attempt) (m : Looper.Motors)
      → m.link.locked ≡ false
      → m.link.connected ≡ false
      → brief m.link.inbox ≡ true
      → StaysReady (Looper.reconnect_motors env a m)
  unfolding Looper.reconnect_motors
  reconnect-StaysReady a m free down h =
      behind_reconnect m (Setup.smart_reconnect env a m.link)
        (smart_reconnect-Reconnects env briefly a m.link free down h)

  end_round-StaysReady :
      (m : Looper.Motors) (o : Option (ℤ × Link))
      → m.link.connected ≡ true
      → m.link.device.enabled ≡ pos 1
      → m.rotation.enabled ≡ pos 1
      → Asks env briefly (Looper.exchanged m).link o
      → StaysReady (Looper.end_round (Looper.with_link (Looper.exchanged m) o))
  unfolding Asks Looper.end_round Looper.with_link
  end_round-StaysReady m none up focus rotation h = h
  end_round-StaysReady m (some (status, t)) up focus rotation h =
      elim (Bool-cases (is_set status)) [
        | inl bad ↦
            let q = h.lost bad in
            record {
              free = h.free;
              waits = h.waits;
              enabled = λ there. absurd (cc);
              cleared = λ down. inr (q.1);
            }
        | inr good ↦
            let q = h.kept good in
            record {
              free = h.free;
              waits = h.waits;
              enabled = λ there. (focus, q.1 ∙ rotation);
              cleared = λ down. absurd (cc);
            }
      ]

  behind_focus-StaysReady :
      (m : Looper.Motors) (o : Option (ℤ × Link))
      → IsReady m
      → m.link.connected ≡ true
      → Asks env briefly m.link o
      → StaysReady (Looper.behind_focus env (Looper.with_link m o))
  unfolding Asks Looper.behind_focus Looper.with_link Looper.poll_rotation
  behind_focus-StaysReady m none r up h = h
  behind_focus-StaysReady m (some (status, t)) r up h = elim (Bool-cases (is_set status)) [
    | inl bad ↦
        let q = h.lost bad in
        rw bad (record {
          free = h.free;
          waits = h.waits;
          enabled = λ there. absurd (cc);
          cleared = λ down. inl (q.1);
        })
    | inr good ↦
        let q = h.kept good in
        let n = record m { link = t } in
        rw good (
          end_round-StaysReady n (Smart.smart_status env (Looper.exchanged n).link) (q.0 ∙ up)
            (q.1 ∙ (r.enabled up).0) (r.enabled up).1
            (smart_status-Asks env briefly (Looper.exchanged n).link h.free h.waits))
  ]

  motors_round-StaysReady :
      (a : Attempt) (m : Looper.Motors) → IsReady m → StaysReady (Looper.motors_round env a m)
  unfolding Looper.motors_round Looper.poll_motors
  motors_round-StaysReady a m r =
      either_way m.link.connected (Looper.poll_motors env m) (Looper.reconnect_motors env a m)
        (λ up.
          behind_focus-StaysReady m (Smart.smart_status env m.link) r up
            (smart_status-Asks env briefly m.link r.free r.waits))
        (λ down. reconnect-StaysReady a m r.free down r.waits)

  motors_rounds-StaysReady :
      (attempts : List Attempt) (m : Looper.Motors)
      → IsReady m
      → StaysReady (Looper.motors_rounds env attempts m)
  unfolding Looper.motors_rounds
  motors_rounds-StaysReady [] m r = r
  motors_rounds-StaysReady (a ∷ rest) m r = elim (Option-cases (Looper.motors_round env a m)) [
    | inl blocked ↦ absurd (rw blocked at (motors_round-StaysReady a m r))
    | inr (t, e) ↦
        rw (Looper.motors_rounds, e)
          (motors_rounds-StaysReady rest t (rw e at (motors_round-StaysReady a m r)))
  ]

  behind_start :
      (attempts : List Attempt) (o : Option Looper.Motors)
      → StaysReady o
      → StaysReady (elim o [ none ↦ none | some t ↦ Looper.motors_rounds env attempts t ])
  behind_start attempts none h = h
  behind_start attempts (some t) h = motors_rounds-StaysReady attempts t h

  -- If the mutex is free when Smart_Looper starts, and the controller never sends 120 bytes at once,
  -- the thread never blocks, however the kernel and the attempts to connect behave. After its first
  -- attempt and any number of rounds the mutex is free again, both motors are enabled over a
  -- connection, and without one the focus motor or the rotation motor shows no state.
  pub smart_looper-StaysReady :
      (a : Attempt) (attempts : List Attempt) (m : Looper.Motors)
      → m.link.locked ≡ false
      → brief m.link.inbox ≡ true
      → StaysReady (Looper.smart_looper env a attempts m)
  unfolding Looper.smart_looper Looper.enable_motor
  smart_looper-StaysReady a attempts m free h =
      let started = Looper.both Looper.enable_motor m in
      either_way m.link.connected _ _
        (λ up. motors_rounds-StaysReady attempts started (record {
          free = free;
          waits = h;
          enabled = λ there. (refl, refl);
          cleared = λ down. absurd (cc);
        }))
        (λ down. behind_start attempts _ (reconnect-StaysReady a started free down h))
