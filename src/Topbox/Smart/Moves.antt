-- ===== src/Topbox/Smart/Moves.antt =====
-- Smart_Move.c and Smart_SetSpeed.
use mmtao_old.Base.{
  ◌≡◌, ℕ, Bool, true, false, not, Option, none, some, [], ◌∷◌, ◌++◌, if◌then◌else◌, Bool-cases, inl,
  inr, arith, refl, ap, append_assoc, ◌∙◌,
}
use mmtao_old.Base.Int.{ℤ, pos, negsuc, is_set}
use mmtao_old.Base.Text.{Bytes, codes, print_int, has_prefix}
use mmtao_old.Topbox.Link.{
  DeviceData, Env, Float, Link, M, pure, gets, ◌>>=◌, lock, give_up, release,
}
use mmtao_old.Topbox.Smart.{smart_cmdw, smart_line, motor_id}
use mmtao_old.Topbox.Smart.Reads.{write_frame}
use mmtao_old.Topbox.Smart.Transcript.{write_sent}

-- The two motors on the line, by the names of their devices and the addresses they answer to.
pub data Motor : Type 0 where
  focus : Motor
  rotation : Motor

abbrev pub name_of : Motor → Bytes
name_of focus = codes "Focus"
name_of rotation = codes "Rotation"

abbrev pub address_of : Motor → ℕ
address_of focus = 129
address_of rotation = 130

motor_id-named :
    (motor : Motor) (s : Link) → s.device.name ≡ name_of motor → motor_id s ≡ address_of motor
unfolding motor_id has_prefix
motor_id-named focus s named = rw named refl
motor_id-named rotation s named = rw named refl

module _ (env : Env) where
  -- `raw_pos * Data->gain`
  abbrev smart_steps : Float → Link → Float
  smart_steps raw s = env.floats.mul_double raw (env.floats.double_of_float s.device.gain)

  -- A line, and `G`, on which the motor starts, for a motor that is homed.
  unfoldable pub smart_go : (Link → Bytes) → M ℤ
  unfolding smart_cmdw
  smart_go line = do
    home ← gets (λ s. s.device.home)
    if not (is_set home) then pure (negsuc 0) else (do
      request ← gets line
      failed ← smart_cmdw env request
      if is_set failed then pure (negsuc 0) else (do
        failed_start ← smart_cmdw env (codes "G")
        if is_set failed_start then pure (negsuc 0) else pure (pos 0)))

  unfoldable pub smart_move_absolute : Float → M ℤ
  unfolding smart_go
  smart_move_absolute raw =
      smart_go (λ s. codes "P=" ++ print_int (env.floats.trunc_double (smart_steps raw s)))

  unfoldable pub smart_move_relative : Float → M ℤ
  unfolding smart_go
  smart_move_relative raw =
      smart_go (λ s. codes "D=" ++ print_int (env.floats.trunc_double (smart_steps raw s)))

  -- After Smart_Cmdw: with status 0, the line has gone to the motor.
  Told : Link → Bytes → Option (ℤ × Link) → Type 0
  Told s request none = ⊥
  Told s request (some (status, t)) =
      (t.locked ≡ false)
      × (is_set status ≡ false
          → (t.sent ≡ s.sent ++ smart_line (motor_id s) request ∷ []) × (t.device ≡ s.device))

  cmdw-Told :
      (request : Bytes) (s : Link) → s.locked ≡ false → Told s request (smart_cmdw env request s)
  unfolding smart_cmdw Told lock give_up release
  cmdw-Told request s free =
      let held = record s { locked = true } in
      ground (
        arith,
        free,
        write_frame env (motor_id s) request held,
        write_sent env (motor_id s) request held,
      )

  -- After a move of the motor at an address: it succeeds only for a motor that is homed, and the
  -- last two lines are then the position or the distance, and the start, both to that address.
  pub Goes : ℕ → Link → Bytes → Option (ℤ × Link) → Type 0
  Goes id s request none = ⊥
  Goes id s request (some (status, t)) =
      (t.locked ≡ false)
      × (is_set s.device.home ≡ false → (status ≡ negsuc 0) × (t ≡ s))
      × (is_set status ≡ false
          → t.sent ≡ s.sent ++ smart_line id request ∷ smart_line id (codes "G") ∷ [])

  behind_start :
      (s t : Link) (request : Bytes) (o : Option (ℤ × Link))
      → is_set s.device.home ≡ true
      → t.sent ≡ s.sent ++ smart_line (motor_id s) request ∷ []
      → t.device ≡ s.device
      → Told t (codes "G") o
      → Goes
          (motor_id s)
          s
          request
          (((λ u. o) >>= λ failed. if is_set failed then pure (negsuc 0) else pure (pos 0)) t)
  unfolding Told Goes motor_id
  behind_start s t request none homed e same h = h
  behind_start s t request (some (status, u)) homed e same h = elim (Bool-cases (is_set status)) [
    | inl bad ↦ rw bad (h.0, λ k. absurd (cc), λ k. absurd (cc))
    | inr good ↦ rw good (
      h.0,
      λ k. absurd (cc),
      λ k.
          (h.1 good).0
          ∙ ap (λ l. l ++ smart_line (motor_id t) (codes "G") ∷ []) e
          ∙ ap
              (λ (d : DeviceData).
                (s.sent ++ smart_line (motor_id s) request ∷ [])
                ++ smart_line (motor_id (record s { device = d })) (codes "G") ∷ [])
              same
          ∙ append_assoc s.sent (smart_line (motor_id s) request ∷ [])
              (smart_line (motor_id s) (codes "G") ∷ []),
    )
  ]

  behind_line :
      (s : Link) (request : Bytes) (o : Option (ℤ × Link))
      → is_set s.device.home ≡ true
      → Told s request o
      → Goes (motor_id s) s request (
          ((λ t. o) >>= λ failed. if is_set failed then pure (negsuc 0) else (do
            failed_start ← smart_cmdw env (codes "G")
            if is_set failed_start then pure (negsuc 0) else pure (pos 0)))
            s)
  unfolding Told Goes
  behind_line s request none homed h = h
  behind_line s request (some (status, t)) homed h = elim (Bool-cases (is_set status)) [
    | inl bad ↦ rw bad (h.0, λ k. absurd (cc), λ k. absurd (cc))
    | inr good ↦ rw good (
        behind_start s t request (smart_cmdw env (codes "G") t) homed (h.1 good).0 (h.1 good).1
          (cmdw-Told (codes "G") t h.0))
  ]

  if_homed :
      (homed : Bool) (s : Link) (request : Bytes) (k : M ℤ)
      → is_set s.device.home ≡ homed
      → s.locked ≡ false
      → (is_set s.device.home ≡ true → Goes (motor_id s) s request (k s))
      → Goes (motor_id s) s request ((if not homed then pure (negsuc 0) else k) s)
  unfolding Goes
  if_homed true s request k e free goes = goes e
  if_homed false s request k e free goes = (free, λ u. (refl, refl), λ u. absurd (cc))

  smart_go-Goes :
      (line : Link → Bytes) (s : Link)
      → s.locked ≡ false
      → Goes (motor_id s) s (line s) (smart_go line s)
  unfolding smart_go
  smart_go-Goes line s free = if_homed (is_set s.device.home) s (line s) _ refl free (λ homed.
      behind_line s (line s) (smart_cmdw env (line s) s) homed (cmdw-Told (line s) s free))

  -- Called with the mutex free, Smart_MoveAbsolute and Smart_MoveRelative return, and the mutex is
  -- free again. For a motor that is not homed they return -1 and send nothing. If they return 0,
  -- two lines went out, whole and to the address of the motor that the device is named after, 0x81
  -- for Focus and 0x82 for Rotation: the position or the distance in steps, and the line that
  -- starts the motor.
  pub smart_moves-Goes :
      (motor : Motor) (raw : Float) (s : Link)
      → s.device.name ≡ name_of motor
      → s.locked ≡ false
      → Goes
          (address_of motor)
          s
          (codes "P=" ++ print_int (env.floats.trunc_double (smart_steps raw s)))
          (smart_move_absolute raw s)
        × Goes
            (address_of motor)
            s
            (codes "D=" ++ print_int (env.floats.trunc_double (smart_steps raw s)))
            (smart_move_relative raw s)
  unfolding smart_move_absolute smart_move_relative
  smart_moves-Goes motor raw s named free =
      let steps = λ (u : Link). print_int (env.floats.trunc_double (smart_steps raw u)) in
      let e = motor_id-named motor s named in
      (
        rw e at (smart_go-Goes (λ u. codes "P=" ++ steps u) s free),
        rw e at (smart_go-Goes (λ u. codes "D=" ++ steps u) s free),
      )
