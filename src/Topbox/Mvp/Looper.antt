-- ===== src/Topbox/Mvp/Looper.antt =====
-- MVP_Looper: one round of the thread that polls a device, and its rounds one after another.
use mmtao_old.Topbox.Mvp.Queries
use Prim.Native.Nat.{ℕ}
use mmtao_old.Base.{
  ℕ, suc, ◌≤◌, ◌≡◌, false, Option, none, some, List, [], ◌∷◌, leb, if◌then◌else◌, arith, Bool-cases,
  Option-cases, inl, inr,
}
use mmtao_old.Base.Int.{is_set, ℤ}
use mmtao_old.Topbox.Link.{drop_connection, Env, Link, IsZeroed}
use mmtao_old.Topbox.Socket.Connect.{open_client, Attempt}
use mmtao_old.Topbox.Mvp.Settles.{
  get_status-Settles, get_position-Settles, get_home_flag-Settles, IsSettled, Settles,
}

-- The device's connection and the rounds since the home flag was last asked for.
pub record Poll : Type 0 where
  pub link : Link
  pub loops : ℕ

-- Socket_Close and Status_ZeroFlags, as at each `continue`.
abbrev pub lose : ℕ → Link → Option Poll
lose loops s = elim (drop_connection s) [
  | none ↦ none
  | some (_, t) ↦ some (record { link = t; loops = loops })
]

-- A query, and then either the rest of the round or the `continue` on its failure.
unfoldable pub or_lose : ℕ → (Link → Option Poll) → Option (ℤ × Link) → Option Poll
or_lose loops rest none = none
or_lose loops rest (some (status, t)) = if is_set status then lose loops t else rest t

module _ (env : Env) where
  -- The home flag is asked for in every fifth round.
  unfoldable pub ask_home : ℕ → Link → Option Poll
  unfolding or_lose
  ask_home loops s =
      if leb 4 loops
      then or_lose 0 (λ t. some (record { link = t; loops = 1 })) (Queries.get_home_flag env s)
      else some (record { link = s; loops = suc loops })

  unfoldable pub ask_status : ℕ → Link → Option Poll
  unfolding or_lose ask_home
  ask_status loops s = or_lose loops (ask_home loops) (Queries.get_status env s)

  unfoldable pub ask_position : ℕ → Link → Option Poll
  unfolding or_lose ask_status
  ask_position loops s = or_lose loops (ask_status loops) (Queries.get_position env s)

  -- One round; while there is no connection it tries to open one.
  unfoldable pub round : Attempt → Poll → Option Poll
  unfolding ask_position
  round a p =
      if p.link.connected
      then ask_position p.loops p.link
      else some (record p { link = (open_client a p.link).1 })

  -- The rounds of the thread, with what each attempt to connect meets.
  unfoldable pub poll : List Attempt → Poll → Option Poll
  poll [] p = some p
  poll (a ∷ rest) p = elim (round a p) [ none ↦ none | some q ↦ poll rest q ]

  -- MVP_Looper: one attempt to connect, and then the rounds until `continueRunning` is cleared.
  pub mvp_looper : Attempt → List Attempt → Link → Option Poll
  unfolding poll
  mvp_looper first attempts s =
      poll attempts
        (record { link = if s.connected then s else (open_client first s).1; loops = 0 })

-- Between two rounds the mutex is free, and a device without connection shows no state.
pub record IsIdle (p : Poll) : Type 0 where
  pub free : p.link.locked ≡ false
  pub cleared : p.link.connected ≡ false → IsZeroed p.link.device

abbrev pub StaysIdle : Option Poll → Type 0
StaysIdle none = ⊥
StaysIdle (some q) = IsIdle q × (q.loops ≤ 4)

or_lose-StaysIdle :
    (loops : ℕ) (rest : Link → Option Poll) (o : Option (ℤ × Link))
    → loops ≤ 4
    → ((t : Link) → IsSettled t → StaysIdle (rest t))
    → Settles o
    → StaysIdle (or_lose loops rest o)
unfolding or_lose drop_connection
or_lose-StaysIdle loops rest none n k h = h
or_lose-StaysIdle loops rest (some (status, t)) n k h = ground (arith, k t h)

module _ (env : Env) where
  ask_home-StaysIdle :
      (loops : ℕ) (s : Link) → loops ≤ 4 → IsSettled s → StaysIdle (ask_home env loops s)
  unfolding ask_home
  ask_home-StaysIdle loops s n h = elim (Bool-cases (leb 4 loops)) [
    | inl due ↦ rw due (
        or_lose-StaysIdle 0 _ (Queries.get_home_flag env s) (omega arith) (λ t k. ground arith)
          (get_home_flag-Settles env s h))
    | inr early ↦ ground arith
  ]

  ask_status-StaysIdle :
      (loops : ℕ) (s : Link) → loops ≤ 4 → IsSettled s → StaysIdle (ask_status env loops s)
  unfolding ask_status
  ask_status-StaysIdle loops s n h =
      or_lose-StaysIdle loops (ask_home env loops) (Queries.get_status env s) n
        (λ t k. ask_home-StaysIdle loops t n k) (get_status-Settles env s h)

  ask_position-StaysIdle :
      (loops : ℕ) (s : Link) → loops ≤ 4 → IsSettled s → StaysIdle (ask_position env loops s)
  unfolding ask_position
  ask_position-StaysIdle loops s n h =
      or_lose-StaysIdle loops (ask_status env loops) (Queries.get_position env s) n
        (λ t k. ask_status-StaysIdle loops t n k) (get_position-Settles env s h)

  round-StaysIdle : (a : Attempt) (p : Poll) → IsIdle p → p.loops ≤ 4 → StaysIdle (round env a p)
  unfolding round open_client
  round-StaysIdle a p h n = elim (Bool-cases p.link.connected) [
    | inl up ↦ ground (
      arith,
      up,
      ask_position-StaysIdle p.loops p.link n
          (record { free = h.free; closed = λ down. cc; cleared = h.cleared }),
    )
    | inr down ↦ ground (arith, down)
  ]

  first_link-IsIdle :
      (first : Attempt) (s : Link)
      → s.locked ≡ false
      → (s.connected ≡ false → IsZeroed s.device)
      → IsIdle (record { link = if s.connected then s else (open_client first s).1; loops = 0 })
  unfolding open_client
  first_link-IsIdle first s free cleared = elim (Bool-cases s.connected) [
    | inl up ↦ ground (arith, up, free)
    | inr down ↦ ground (arith, down, free, cleared down)
  ]

  poll-StaysIdle :
      (attempts : List Attempt) (p : Poll)
      → IsIdle p
      → p.loops ≤ 4
      → StaysIdle (poll env attempts p)
  unfolding poll
  poll-StaysIdle [] p h n = (h, n)
  poll-StaysIdle (a ∷ rest) p h n = elim (Option-cases (round env a p)) [
    | inl none_left ↦ absurd (rw none_left at (round-StaysIdle a p h n))
    | inr (q, e) ↦
        let k = rw e at (round-StaysIdle a p h n) in
        ground (arith, e, poll-StaysIdle rest q k.0 k.1)
  ]

  -- However the device, the kernel and the attempts to connect behave, MVP_Looper never blocks. It
  -- starts with the mutex free, and with a device that shows no state unless it is connected; after
  -- any number of rounds this holds again, and the counter of rounds since the home flag was asked
  -- for is at most 4.
  pub mvp_looper-StaysIdle :
      (first : Attempt) (attempts : List Attempt) (s : Link)
      → s.locked ≡ false
      → (s.connected ≡ false → IsZeroed s.device)
      → StaysIdle (mvp_looper env first attempts s)
  unfolding mvp_looper
  mvp_looper-StaysIdle first attempts s free cleared =
      poll-StaysIdle attempts _ (first_link-IsIdle first s free cleared) (omega arith)
