-- ===== src/Topbox/Power/Process/Laws.antt =====
-- What a request to the power controller sends.
use mmtao_old.Topbox.Power
use mmtao_old.Topbox.Power.Process.{
  PowerSession, power_process, power_words, power_act, switch, switch_if, select_relay, starts_with,
}
use mmtao_old.Base.{
  ℕ, zero, suc, ◌+◌, ◌≡◌, true, false, some, List, [], ◌∷◌, ◌++◌, arith, get_elem?, if◌then◌else◌,
  ◌<◌, length, suc, refl, inl, inr, Bool-cases, length-append, take_all, get_elem?-lt, ◌∙◌, ap,
}
use mmtao_old.Base.Text.{Bytes, codes, has_prefix, words, print_int}
use mmtao_old.Base.Int.{pos, eq_ℤ, negsuc, ℤ}
use mmtao_old.Topbox.Link.{Env, Link}
use mmtao_old.Topbox.Socket.{string_write}
use mmtao_old.Topbox.Socket.Laws.{string_write_frame}

-- The names of the relays, from relay 0 to relay 7.
abbrev pub relay_names : List Bytes
relay_names =
    codes "wfsc"
    ∷ codes "peltier"
    ∷ codes "stella"
    ∷ codes "alignment_laser"
    ∷ codes "f15_laser"
    ∷ codes "indigo"
    ∷ codes "spare1"
    ∷ codes "spare2"
    ∷ []

-- The line that sets or resets a relay.
abbrev pub relay_line : ℕ → Bytes → Bytes
relay_line relay what =
    if has_prefix what (codes "on")
    then codes "SK" ++ (b'0' + relay) ∷ 13 ∷ []
    else codes "RK" ++ (b'0' + relay) ∷ 13 ∷ []

some_injective : {x y : Bytes} → some x ≡ some y → x ≡ y
some_injective h = ground arith

module _ (env : Env) (what : Bytes) (x : PowerSession) where
  -- Each name reaches its relay.
  name_switches :
      (relay : ℕ) (name : Bytes)
      → get_elem? relay_names relay ≡ some name
      → power_act env name (some what) x ≡ switch env relay (some what) x
  unfolding power_act switch_if select_relay has_prefix starts_with
  name_switches zero name h = rw (← some_injective h) refl
  name_switches (suc zero) name h = rw (← some_injective h) refl
  name_switches (suc (suc zero)) name h = rw (← some_injective h) refl
  name_switches (suc (suc (suc zero))) name h = rw (← some_injective h) refl
  name_switches (suc (suc (suc (suc zero)))) name h = rw (← some_injective h) refl
  name_switches (suc (suc (suc (suc (suc zero))))) name h = rw (← some_injective h) refl
  name_switches (suc (suc (suc (suc (suc (suc zero)))))) name h = rw (← some_injective h) refl
  name_switches (suc (suc (suc (suc (suc (suc (suc zero))))))) name h = rw (← some_injective h) refl
  name_switches (suc (suc (suc (suc (suc (suc (suc (suc n)))))))) name h = absurd (ground arith)

digit : (relay : ℕ) → relay < 10 → print_int (pos relay) ≡ (b'0' + relay) ∷ []
unfolding print_int
digit relay h = ground arith

name-lt : (relay : ℕ) (name : Bytes) → get_elem? relay_names relay ≡ some name → relay < 8
name-lt relay name h = get_elem?-lt relay_names relay h

module _ (env : Env) where
  -- Power_Write on a request that fits its buffer.
  power_write-string_write :
      (request : Bytes) (s : Link)
      → length request < 15
      → s.locked ≡ false
      → let (n, t) = string_write env (request ++ 13 ∷ []) (record s { locked = true }) in
        Power.power_write env request s
        ≡ some (
          if eq_ℤ n (pos (length (request ++ 13 ∷ []))) then pos 0 else negsuc 0,
          record t { locked = false },
        )
  unfolding Power.power_write
  power_write-string_write request s small free =
      rw (take_all 15 (request ++ 13 ∷ []) (omega (arith, length-append request (13 ∷ [])))) (
        ground
          (arith, free, string_write_frame env (request ++ 13 ∷ []) (record s { locked = true })))

  on_line :
      (relay : ℕ) (s : Link)
      → relay < 8
      → s.locked ≡ false
      → (n : ℤ) × (Power.power_on env relay s
          ≡ some (
            n,
            record (string_write env
                (codes "SK" ++ (b'0' + relay) ∷ 13 ∷ [])
                (record s { locked = true })).1 { locked = false },
          ))
  unfolding Power.power_on
  on_line relay s small free = (
    _,
    ap (λ d. Power.power_write env (codes "SK" ++ d) s) (digit relay (omega arith))
        ∙ power_write-string_write (codes "SK" ++ (b'0' + relay) ∷ []) s (omega arith) free,
  )

  off_line :
      (relay : ℕ) (s : Link)
      → relay < 8
      → s.locked ≡ false
      → (n : ℤ) × (Power.power_off env relay s
          ≡ some (
            n,
            record (string_write env
                (codes "RK" ++ (b'0' + relay) ∷ 13 ∷ [])
                (record s { locked = true })).1 { locked = false },
          ))
  unfolding Power.power_off
  off_line relay s small free = (
    _,
    ap (λ d. Power.power_write env (codes "RK" ++ d) s) (digit relay (omega arith))
        ∙ power_write-string_write (codes "RK" ++ (b'0' + relay) ∷ []) s (omega arith) free,
  )

  switch-relay_line :
      (relay : ℕ) (what : Bytes) (x : PowerSession)
      → relay < 8
      → x.link.locked ≡ false
      → switch env relay (some what) x
        ≡ some (
          pos 0,
          record x {
            link =
                record (string_write env
                  (relay_line relay what)
                  (record x.link { locked = true })).1 { locked = false };
          },
        )
  unfolding switch Power.power_relay
  switch-relay_line relay what x small free = elim (Bool-cases (has_prefix what (codes "on"))) [
    | inl on ↦ ground (arith, on, on_line relay x.link small free)
    | inr off ↦ ground (arith, off, off_line relay x.link small free)
  ]

  -- A request with the name of a relay sends the line that sets this relay, if the parameter begins
  -- with "on", and else the line that resets it: "SK" or "RK", the number, a carriage return. The
  -- controller has to be connected and its mutex free, which it is afterwards.
  pub power_process-relay_line :
      (line device name what : Bytes) (more : List Bytes) (relay : ℕ) (x : PowerSession)
      → words line ≡ device ∷ name ∷ what ∷ more
      → get_elem? relay_names relay ≡ some name
      → x.link.connected ≡ true
      → x.link.locked ≡ false
      → power_process env line x
        ≡ some (
          pos 0,
          record x {
            link =
                record (string_write env
                  (relay_line relay what)
                  (record x.link { locked = true })).1 { locked = false };
          },
        )
  unfolding power_process power_words
  power_process-relay_line line device name what more relay x split named up free =
      ground (arith, up)
      ∙ ap (λ ws. power_words env ws x) split
      ∙ name_switches env what x relay name named
      ∙ switch-relay_line relay what x (name-lt relay name named) free
