-- ===== src/DataServer/Pcr/Vectors/Laws.antt =====
-- Vectors for the reconstructor: the mutex, and the writes.
use mmtao_old.Base.{
  ◌<◌, ◌≡◌, true, false, some, arith, length, ℕ, suc, ◌+◌, ◌-◌, [], ◌∷◌, ◌++◌, take_all, zero, ◌==◌,
  if◌then◌else◌,
}
use mmtao_old.Base.Text.{Bytes}
use mmtao_old.Base.Int.{ℤ, pos, negsuc}
use mmtao_old.Topbox.Link.{Env, Link, count}
use mmtao_old.Topbox.Socket.{delivered}
use mmtao_old.DataServer.Pcr.Vectors.{last_loop, socket_write, write_vector}

module _ (env : Env) where
  last_loop-end :
      (fuel nbytes call left m : ℕ) (last : ℤ)
      → 0 < fuel
      → left ≡ suc m
      → env.accept call (suc m) ≡ count (suc m)
      → last_loop env fuel nbytes call left last
        ≡ some (record {
          returned = if suc m == nbytes then pos 0 else negsuc (nbytes - suc m - 1);
          left = 0;
          calls = suc call;
        })
  unfolding last_loop
  last_loop-end zero nbytes call left m last p e a = absurd (omega arith)
  last_loop-end (suc fuel) nbytes call zero m last p e a = absurd (omega arith)
  last_loop-end (suc fuel) nbytes call (suc left) m last p e a = ground (arith, e, a)

  last_loop-split :
      (n k m call : ℕ) (last : ℤ)
      → n ≡ suc k + suc m
      → env.accept call n ≡ count (suc k)
      → env.accept (suc call) (suc m) ≡ count (suc m)
      → last_loop env n n call n last
        ≡ some (record { returned = negsuc (n - suc m - 1); left = 0; calls = suc (suc call) })
  unfolding last_loop
  last_loop-split zero k m call last l a b = absurd (omega arith)
  last_loop-split (suc n) k m call last l a b = ground (
    arith,
    a,
    last_loop-end n (suc n) (suc call) (suc n - suc k) m
        (if suc k == suc n then pos 0 else negsuc (suc n - suc k - 1)) (omega arith) (omega arith)
        b,
  )

  -- When the kernel takes a vector in two writes, all of it is on the line and Socket_Write reports a
  -- failure: what it returns is about the last write alone.
  pub write_vector-split :
      (bytes : Bytes) (k m : ℕ) (s : Link)
      → s.is_open ≡ true
      → length bytes ≡ suc k + suc m
      → env.accept s.calls (length bytes) ≡ count (suc k)
      → env.accept (suc s.calls) (suc m) ≡ count (suc m)
      → (t : Link) × (write_vector env bytes s ≡ some (false, t)) × (t.sent ≡ s.sent ++ bytes ∷ [])
  unfolding write_vector socket_write delivered
  write_vector-split bytes k m s o l a b =
      let loop = last_loop-split (length bytes) k m s.calls (env.stale_int s.calls) l a b in
      (
        (socket_write env bytes s).1,
        ground (arith, o, loop),
        ground (arith, o, loop, take_all (length bytes) bytes (omega arith)),
      )
