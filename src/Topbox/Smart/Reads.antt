-- ===== src/Topbox/Smart/Reads.antt =====
-- Smart_Write, Smart_Read and Smart_Cmd_int change nothing but the line, as long as no reply fills the
-- buffer of Smart_Read.
use mmtao_old.Base.{
  ℕ, zero, suc, ◌≡◌, ◌<◌, ltb, Bool, true, Option, none, some, List, [], ◌∷◌, ◌++◌, ◌-◌, arith,
  length, take, refl, drop_all, take_all, ◌&&◌,
}
use mmtao_old.Base.Int.{ℤ, pos}
use mmtao_old.Base.Text.{Bytes}
use mmtao_old.Topbox.Link.{count, Chunk, incoming, hangup, fault, Env, Link}
use mmtao_old.Topbox.Socket.{receive, string_write, write_loop, delivered, waiting, WriteEnd}
use mmtao_old.Topbox.Socket.Laws.{string_write_frame}
use mmtao_old.Topbox.Mvp.Wire.{string_length}
use mmtao_old.Topbox.Smart

-- No chunk fills the buffer.
unfoldable pub brief : List Chunk → Bool
brief [] = true
brief (incoming b bs ∷ rest) = ltb (suc (length bs)) string_length && brief rest
brief (_ ∷ rest) = brief rest

brief-append : (cs ds : List Chunk) → brief cs ≡ true → brief ds ≡ true → brief (cs ++ ds) ≡ true
unfolding brief
brief-append [] ds h k = k
brief-append (incoming b bs ∷ rest) ds h k = let q = brief-append rest ds in ground (arith, q)
brief-append (hangup ∷ rest) ds h k = brief-append rest ds h k
brief-append (fault ∷ rest) ds h k = brief-append rest ds h k

brief-receive :
    (c : Chunk) (cs : List Chunk)
    → brief (c ∷ cs) ≡ true
    → brief (receive string_length c cs).2 ≡ true
unfolding brief
brief-receive (incoming b bs) cs h =
    let short : length bs < 119 = grind arith in
    let all = drop_all 119 bs (omega (arith, short)) in rw all (grind arith)
brief-receive hangup cs h = h
brief-receive fault cs h = h

brief-flush :
    (fuel : ℕ) (cs : List Chunk) → brief cs ≡ true → brief (Smart.smart_flush_loop fuel cs) ≡ true
unfolding Smart.smart_flush_loop brief
brief-flush zero cs h = h
brief-flush (suc fuel) [] h = refl
brief-flush (suc fuel) (c ∷ cs) h =
    let q = brief-receive c cs h in
    let r = brief-flush fuel (receive string_length c cs).2 q in ground arith

module _ (env : Env) where
  pub write_frame :
      (id : ℕ) (request : Bytes) (s : Link)
      → let t = (Smart.smart_write_step env id request s).1 in
        t ≡ record s { inbox = t.inbox; sent = t.sent; calls = t.calls }
  unfolding Smart.smart_write_step Smart.smart_flush
  write_frame id request s =
      string_write_frame env (Smart.smart_line id request) (Smart.smart_flush s)

module _ (env : Env) (briefly : (n : ℕ) (line : Bytes) → brief (env.answer n line) ≡ true) where
  delivered-brief :
      (line : Bytes) (s : Link) (o : Option WriteEnd)
      → brief s.inbox ≡ true
      → brief (delivered env line s o).1.inbox ≡ true
  unfolding delivered
  delivered-brief line s none h = h
  delivered-brief line s (some e) h =
      brief-append s.inbox (env.answer s.calls (take (length line - e.left) line)) h
        (briefly s.calls (take (length line - e.left) line))

  string_write-brief :
      (line : Bytes) (s : Link)
      → brief s.inbox ≡ true
      → brief (string_write env line s).1.inbox ≡ true
  unfolding string_write
  string_write-brief line s h =
      let q =
        delivered-brief line s (write_loop env (length line) (length line) s.calls (length line))
          h in
      ground (arith, q)

  pub write-brief :
      (id : ℕ) (request : Bytes) (s : Link)
      → brief s.inbox ≡ true
      → brief (Smart.smart_write_step env id request s).1.inbox ≡ true
  unfolding Smart.smart_write_step Smart.smart_flush
  write-brief id request s h =
      string_write-brief (Smart.smart_line id request) (Smart.smart_flush s)
        (brief-flush (suc (waiting s.inbox)) s.inbox h)

  -- A reply, or none; the routine changes nothing but the line.
  unfoldable pub Reads : {A : Type 0} → Link → Option (A × Link) → Type 0
  Reads s none = ⊥
  Reads s (some (_, t)) =
      (t ≡ record s { inbox = t.inbox; sent = t.sent; calls = t.calls; error = t.error })
      × (brief t.inbox ≡ true)

  read_count-Reads :
      (n : ℕ) (got : Bytes) (rest : List Chunk) (s : Link)
      → ltb (suc n) string_length ≡ true
      → brief rest ≡ true
      → Reads s (Smart.smart_read_end env (count (suc n), got, rest) s)
  unfolding Smart.smart_read_end Smart.smart_flush Reads
  read_count-Reads n got rest s short h = rw short (refl, brief-flush (suc (waiting rest)) rest h)

  read_end-Reads :
      (c : Chunk) (cs : List Chunk) (s : Link)
      → brief (c ∷ cs) ≡ true
      → Reads s (Smart.smart_read_end env (receive string_length c cs) s)
  unfolding Smart.smart_read_end brief Reads
  read_end-Reads (incoming b bs) cs s h =
      let short : length bs < 119 = grind arith in
      let got = take_all 119 bs (omega (arith, short)) in
      read_count-Reads (length (take 119 bs)) (b ∷ take 119 bs)
        (receive string_length (incoming b bs) cs).2 s (rw got (grind arith))
        (brief-receive (incoming b bs) cs h)
  read_end-Reads hangup cs s h = (refl, h)
  read_end-Reads fault cs s h = (refl, h)

  from_inbox-Reads :
      (inbox : List Chunk) (s : Link)
      → inbox ≡ s.inbox
      → brief s.inbox ≡ true
      → Reads {A = ℤ × Bytes} s (elim inbox [
        | [] ↦ some ((pos 1, []), record s { error = true })
        | c ∷ cs ↦ Smart.smart_read_end env (receive string_length c cs) s
      ])
  unfolding Reads
  from_inbox-Reads [] s e h = (refl, h)
  from_inbox-Reads (c ∷ cs) s e h = read_end-Reads c cs s (rw e h)

  smart_read-Reads : (s : Link) → brief s.inbox ≡ true → Reads s (Smart.smart_read env s)
  unfolding Smart.smart_read
  smart_read-Reads s h = from_inbox-Reads s.inbox s refl h

  pub smart_exchange-Reads :
      (id : ℕ) (request : Bytes) (s : Link)
      → brief s.inbox ≡ true
      → Reads s (Smart.smart_exchange env id request s)
  unfolding Smart.smart_exchange Reads
  smart_exchange-Reads id request s h =
      let t = (Smart.smart_write_step env id request s).1 in
      let w = write_frame env id request s in
      let b = write-brief id request s h in let r = smart_read-Reads t b in ground (arith, w, b, r)
