-- ===== src/Topbox/Socket/Laws.antt =====
-- The loops of topbox_server/Socket end, and what they leave behind.
use mmtao_old.Base.{
  ℕ, zero, suc, ◌+◌, ◌-◌, ◌≤◌, ◌<◌, ◌≡◌, refl, ◌⊎◌, inl, inr, Option, none, some, List, [], ◌∷◌,
  ◌++◌, arith, length, length-drop, take_all, drop, false, true, ◌≢◌, take, Bool, if◌then◌else◌,
}
use mmtao_old.Base.Int.{pos, negsuc}
use mmtao_old.Base.Text.{Bytes}
use mmtao_old.Topbox.Link.{SysResult, count, failed, Chunk, incoming, hangup, fault, Env, Link}
use mmtao_old.Topbox.Socket.{
  put_back, waiting, flush_loop, flush, WriteEnd, write_loop, delivered, string_write,
}

-- Nothing waits that a `read` would return.
abbrev pub IsDrained : List Chunk → Type 0
IsDrained [] = Unit {0}
IsDrained (incoming b bs ∷ rest) = ⊥
IsDrained (_ ∷ rest) = Unit {0}

waiting-put_back :
    (bs : Bytes) (rest : List Chunk) → waiting (put_back bs rest) ≡ length bs + waiting rest
waiting-put_back [] rest = omega arith
waiting-put_back (b ∷ bs) rest = omega arith

flush_loop-IsDrained :
    (fuel : ℕ) (inbox : List Chunk) → waiting inbox < fuel → IsDrained (flush_loop fuel inbox)
unfolding flush_loop
flush_loop-IsDrained zero inbox h = absurd (omega arith)
flush_loop-IsDrained (suc fuel) [] h = tt
flush_loop-IsDrained (suc fuel) (incoming b bs ∷ rest) h =
    flush_loop-IsDrained fuel _
      (omega (arith, waiting-put_back (drop 511 bs) rest, length-drop 511 bs))
flush_loop-IsDrained (suc fuel) (hangup ∷ rest) h = tt
flush_loop-IsDrained (suc fuel) (fault ∷ rest) h = tt

-- A flush ends with no input waiting, however much there was and in whatever pieces it came,
-- and touches nothing but the input.
pub flush-IsDrained :
    (s : Link) → IsDrained (flush s).inbox × (flush s ≡ record s { inbox = (flush s).inbox })
unfolding flush
flush-IsDrained s = (flush_loop-IsDrained (suc (waiting s.inbox)) s.inbox (omega arith), refl)

SysResult-cases : (r : SysResult) → ((n : ℕ) × (r ≡ count (suc n))) ⊎ ((r ≡ count 0) ⊎ (r ≡ failed))
SysResult-cases (count zero) = inr (inl refl)
SysResult-cases (count (suc n)) = inl (n, refl)
SysResult-cases failed = inr (inr refl)

-- The loop ended: either it returned the number of bytes and left none, or 0 or -1 and left some.
abbrev pub Ends : ℕ → ℕ → Option WriteEnd → Type 0
Ends nbytes nleft none = ⊥
Ends nbytes nleft (some e) =
    (e.left ≤ nleft)
    × ((e.returned ≡ pos nbytes) × (e.left ≡ 0)
        ⊎ ((e.returned ≡ pos 0) ⊎ (e.returned ≡ negsuc 0)) × (0 < e.left))

module _ (env : Env) where
  -- The loop of Socket_StringWrite ends after as many calls as there are bytes, however few the
  -- kernel takes at a time: it returns the number of bytes and leaves none, or 0 or -1 and leaves some.
  pub write_loop-Ends :
      (fuel nbytes call nleft : ℕ)
      → nleft ≤ fuel
      → Ends nbytes nleft (write_loop env fuel nbytes call nleft)
  unfolding write_loop
  write_loop-Ends fuel nbytes call zero h = (omega arith, inl (refl, refl))
  write_loop-Ends zero nbytes call (suc nleft) h = absurd (omega arith)
  write_loop-Ends (suc fuel) nbytes call (suc nleft) h =
      elim (SysResult-cases (env.accept call (suc nleft))) [
        | inl (n, e) ↦ ground (
          arith,
          e,
          env.accept_le call (suc nleft) (suc n) e,
          write_loop-Ends fuel nbytes (suc call) (nleft - n) (omega arith),
        )
        | inr other ↦ ground arith
      ]

  pub string_write-closed :
      (request : Bytes) (s : Link) → s.is_open ≡ false → string_write env request s ≡ (negsuc 0, s)
  unfolding string_write
  string_write-closed request s o = rw o

  -- Socket_StringWrite changes what waits, what was sent and the number of calls, and nothing else.
  pub string_write_frame :
      (request : Bytes) (s : Link)
      → let t = (string_write env request s).1 in
        t ≡ record s { inbox = t.inbox; sent = t.sent; calls = t.calls }
  unfolding string_write delivered
  string_write_frame request s = ground (
    arith,
    write_loop-Ends (length request) (length request) s.calls (length request) (omega arith),
  )

  -- If Socket_StringWrite returns the length of its string, which is not empty, then the descriptor
  -- is open, the whole string went out, and what the device answers to it waits behind the input.
  pub string_write_sent :
      (request : Bytes) (s : Link)
      → 0 < length request
      → (string_write env request s).0 ≡ pos (length request)
      → (s.is_open ≡ true)
        × ((string_write env request s).1.sent ≡ s.sent ++ request ∷ [])
        × ((string_write env request s).1.inbox ≡ s.inbox ++ env.answer s.calls request)
  unfolding string_write delivered
  string_write_sent request s p h = ground (
    arith,
    write_loop-Ends (length request) (length request) s.calls (length request) (omega arith),
    take_all (length request) request (omega arith),
  )

  -- Nothing went out, or a proper part of the string did.
  abbrev pub Short : Bytes → Link → Link → Type 0
  Short request s t =
      (t.sent ≡ s.sent)
      ⊎ ((k : ℕ) × (k < length request) × (t.sent ≡ s.sent ++ take k request ∷ []))

  choice-Short :
      (request : Bytes) (s : Link) (b : Bool) (o : Option WriteEnd)
      → Ends (length request) (length request) o
      → (if b then delivered env request s o else (negsuc 0, s)).0 ≢ pos (length request)
      → Short request s (if b then delivered env request s o else (negsuc 0, s)).1
  unfolding delivered
  choice-Short request s false o e n = inl refl
  choice-Short request s true none e n = absurd e
  choice-Short request s true (some e) (le, inl (all, _)) n = absurd (n all)
  choice-Short request s true (some e) (le, inr (_, p)) n =
      inr (length request - e.left, omega arith, refl)

  -- If it returns anything else, nothing went out, or a proper part of the string did.
  pub string_write-Short :
      (request : Bytes) (s : Link)
      → (string_write env request s).0 ≢ pos (length request)
      → Short request s (string_write env request s).1
  unfolding string_write
  string_write-Short request s =
      choice-Short request s s.is_open _
        (write_loop-Ends (length request) (length request) s.calls (length request) (omega arith))
