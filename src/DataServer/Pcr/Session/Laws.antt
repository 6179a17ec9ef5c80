-- ===== src/DataServer/Pcr/Session/Laws.antt =====
-- Commands to the reconstructor: the mutex, the replies, and that the calls return.
use Prim.Native.Nat.{ℕ}
use mmtao_old.Base.{
  zero, suc, ◌≡◌, refl, inl, inr, Bool, true, false, Option, none, some, List, [], ◌∷◌, ◌++◌, arith,
  ◌==◌, Bool-cases, ◌<◌, Option-cases, length, take, ◌-◌, if◌then◌else◌, ap, ◌∙◌,
}
use mmtao_old.Base.Text.{Bytes}
use mmtao_old.Topbox.Link.{
  Env, Link, Chunk, incoming, hangup, fault, lock, unlock, close_socket, release, ◌>>=◌,
}
use mmtao_old.DataServer.Pcr.Session.{
  read_byte, string_loop, string_read, await_reply, Attempt, ensure, write_line, send_cmd, conclude,
  c_string, M, exchange, pure, is_ready, send_no_reply, line_length,
}
use mmtao_old.Topbox.Socket.{delivered, write_loop, string_write}
use mmtao_old.Topbox.Socket.Connect.{connect, open_client}
use mmtao_old.Topbox.Socket.Laws.{string_write_frame}
use mathlib.Core.Option
use mmtao_old.Base.Int.{negsuc, pos}
use mmtao_old.DataServer.Pcr.Server.{P}

unfoldable pub null : Bytes → Bool
null [] = true
null (_ ∷ _) = false

-- One line with its newline, for which there is room.
unfoldable pub is_line : ℕ → Bytes → Bool
unfolding null
is_line zero cs = false
is_line (suc room) [] = false
is_line (suc room) (c ∷ cs) = elim (c == 10) [ true ↦ null cs | false ↦ is_line room cs ]

-- What waits came line by line, each with its newline and short enough to be read at once.
abbrev pub WholeLines : List Chunk → Type 0
WholeLines [] = Unit {0}
WholeLines (incoming b bs ∷ rest) = (is_line line_length (b ∷ bs) ≡ true) × WholeLines rest
WholeLines (_ ∷ rest) = WholeLines rest

-- The mutex is free, and what waits on the connection is whole lines.
pub record IsClear (s : Link) : Type 0 where
  pub free : s.locked ≡ false
  pub lines : WholeLines s.inbox

-- The connection while the mutex is held.
pub record IsHeld (s : Link) : Type 0 where
  pub held : s.locked ≡ true
  pub lines : WholeLines s.inbox

-- The reconstructor answers in whole lines, as many as it likes.
pub record AnswersLines (env : Env) : Type 0 where
  pub at : (n : ℕ) (line : Bytes) → WholeLines (env.answer n line)

-- It returned, and P holds of the state.
abbrev pub Returns : {A S : Type 0} → (S → Type 0) → Option (A × S) → Type 0
Returns P none = ⊥
Returns P (some (a, t)) = P t

string_loop-line :
    (room b : ℕ) (bs : Bytes) (rest : List Chunk)
    → is_line room (b ∷ bs) ≡ true
    → (line : Bytes) × (string_loop room (incoming b bs ∷ rest) ≡ some (some line, rest))
unfolding string_loop is_line read_byte null
string_loop-line zero b bs rest h = absurd (ground arith)
string_loop-line (suc room) b [] rest h = elim (Bool-cases (b == 10)) [
  | inl e ↦ ([], ground (arith, e))
  | inr e ↦
      elim room
          as (λ r.
            (is_line (suc r) (b ∷ []) ≡ true)
            → (line : Bytes) × (string_loop (suc r) (incoming b [] ∷ rest)
                ≡ some (some line, rest))) [
                  | zero ↦ λ k. absurd (ground (arith, e))
                  | suc r ↦ λ k. absurd (ground (arith, e))
                ]
        h
]
string_loop-line (suc room) b (c ∷ bs) rest h = elim (Bool-cases (b == 10)) [
  | inl e ↦ absurd (ground (arith, e))
  | inr e ↦ elim (Bool-cases (room == 0)) [
    | inl z ↦ absurd (ground (arith, e, z, is_line))
    | inr z ↦
        let (line, loop) = string_loop-line room c bs rest (ground (arith, e)) in
        (b ∷ line, ground (arith, e, z, loop))
  ]
]

WholeLines-append : (cs ds : List Chunk) → WholeLines cs → WholeLines ds → WholeLines (cs ++ ds)
WholeLines-append [] ds hc hd = hd
WholeLines-append (incoming b bs ∷ cs) ds hc hd = (hc.0, WholeLines-append cs ds hc.1 hd)
WholeLines-append (hangup ∷ cs) ds hc hd = WholeLines-append cs ds hc hd
WholeLines-append (fault ∷ cs) ds hc hd = WholeLines-append cs ds hc hd

-- The line that a read finds among whole lines, and that whole lines are left.
string_loop-whole :
    (c : Chunk) (cs : List Chunk)
    → WholeLines (c ∷ cs)
    → (line : Option Bytes) × (rest : List Chunk) × (string_loop line_length (c ∷ cs)
        ≡ some (line, rest))
      × WholeLines rest
unfolding string_loop read_byte
string_loop-whole (incoming b bs) cs h =
    let (line, loop) = string_loop-line line_length b bs cs h.0 in (some line, cs, loop, h.1)
string_loop-whole hangup cs h = (none, hangup ∷ cs, refl, h)
string_loop-whole fault cs h = (none, fault ∷ cs, refl, h)

conclude-IsClear :
    (answer : Option Bytes) (s : Link)
    → s.locked ≡ true
    → WholeLines s.inbox
    → Returns IsClear (conclude answer s)
unfolding conclude release unlock close_socket
conclude-IsClear none s l w = rw l (record { free = refl; lines = tt })
conclude-IsClear (some reply) s l w = rw l (record { free = refl; lines = w })

pub string_read-loop :
    (s : Link) (line : Option Bytes) (rest : List Chunk)
    → string_loop line_length s.inbox ≡ some (line, rest)
    → string_read s ≡ some (Option.map c_string line, record s { inbox = rest })
unfolding string_read
string_read-loop s line rest h = rw (string_read, h) refl

-- With input that makes a line, PCR_SendCmd takes that line for the reply.
pub await_reply-loop :
    (s : Link) (line : Option Bytes) (rest : List Chunk)
    → is_ready s ≡ true
    → string_loop line_length s.inbox ≡ some (line, rest)
    → await_reply s ≡ conclude (Option.map c_string line) (record s { inbox = rest })
unfolding await_reply
await_reply-loop s line rest r h = ground (arith, r, string_read-loop s line rest h)

await_reply-IsClear :
    (s : Link) (inbox : List Chunk)
    → s.inbox ≡ inbox
    → s.locked ≡ true
    → WholeLines inbox
    → Returns IsClear (await_reply s)
unfolding await_reply release unlock
await_reply-IsClear s [] e l w = rw (e, l) (record { free = refl; lines = w })
await_reply-IsClear s (c ∷ cs) e l w =
    let (line, rest, loop, whole) = string_loop-whole c cs w in
    rw (await_reply-loop s line rest (rw e refl) (ap (string_loop line_length) e ∙ loop))
      (conclude-IsClear (Option.map c_string line) (record s { inbox = rest }) l whole)

pub Returns-then :
    {A B S T : Type 0} (P : S → Type 0) (Q : T → Type 0) (o : Option (A × S))
    (f : A → S → Option (B × T))
    → Returns P o
    → ((a : A) (s : S) → P s → Returns Q (f a s))
    → Returns Q (elim o [ none ↦ none | some (a, s) ↦ f a s ])
Returns-then P Q none f r k = absurd r
Returns-then P Q (some (a, s)) f r k = k a s r

pub Returns-bind :
    {A B : Type 0} (P Q : Link → Type 0) (m : M A) (f : A → M B) (s : Link)
    → Returns P (m s)
    → ((a : A) (t : Link) → P t → Returns Q (f a t))
    → Returns Q ((m >>= f) s)
Returns-bind P Q m f s = Returns-then P Q (m s) f

after_write-IsClear :
    (sent : Bool) (s : Link)
    → IsHeld s
    → Returns IsClear ((if sent then await_reply else release (negsuc 0)) s)
unfolding release unlock
after_write-IsClear true s h = await_reply-IsClear s s.inbox refl h.held h.lines
after_write-IsClear false s h = rw h.held (record { free = refl; lines = h.lines })

module _ (env : Env) (answers : AnswersLines env) where
  string_write-whole :
      (line : Bytes) (s : Link) → WholeLines s.inbox → WholeLines (string_write env line s).1.inbox
  unfolding string_write delivered
  string_write-whole line s w = elim (Bool-cases s.is_open) [
    | inl e ↦
        elim (Option-cases (write_loop env (length line) (length line) s.calls (length line))) [
          | inl f ↦ rw (e, f) w
          | inr (x, f) ↦
              rw (e, f)
                (WholeLines-append s.inbox _ w
                  (answers.at s.calls (take (length line - x.left) line)))
        ]
    | inr e ↦ rw e w
  ]

  pub string_write-IsHeld :
      (line : Bytes) (s : Link) → IsHeld s → IsHeld (string_write env line s).1
  string_write-IsHeld line s h = record {
    held = ground (arith, string_write_frame env line s, h.held);
    lines = string_write-whole line s h.lines;
  }

  write_line-IsHeld :
      (request : Bytes) (s : Link)
      → length request < 119
      → IsHeld s
      → Returns IsHeld (write_line env request s)
  unfolding write_line
  write_line-IsHeld request s b h = ground (arith, b, string_write-IsHeld (request ++ 10 ∷ []) s h)

  module _ (attempt : ℕ → Attempt) where
    connect-IsClear : (a : Attempt) (s : Link) → IsClear s → IsClear (open_client a s).1
    unfolding open_client connect
    connect-IsClear a s c = ground arith

    pub ensure-IsClear : (s : Link) → IsClear s → Returns IsClear (ensure env attempt s)
    unfolding ensure
    ensure-IsClear s c = ground (
      arith,
      c.free,
      c.lines,
      connect-IsClear (attempt s.calls) (record s { calls = suc s.calls })
          (record { free = c.free; lines = c.lines }),
    )

    exchange-IsClear :
        (request : Bytes) (s : Link)
        → length request < 119
        → IsClear s
        → Returns IsClear (exchange env request s)
    unfolding exchange lock
    exchange-IsClear request s b c = rw c.free (
        Returns-bind IsHeld IsClear (write_line env request) _ (record s { locked = true })
          (write_line-IsHeld request (record s { locked = true }) b
            (record { held = refl; lines = c.lines }))
          after_write-IsClear)

    -- PCR_SendCmd
    pub send_cmd-IsClear :
        (request : Bytes) (s : Link)
        → length request < 119
        → IsClear s
        → Returns IsClear (send_cmd env attempt request s)
    unfolding send_cmd
    send_cmd-IsClear request s b c =
        Returns-bind IsClear IsClear (ensure env attempt) _ s (ensure-IsClear s c) (λ up t k.
          elim up
            as (λ x. Returns IsClear ((if x then exchange env request else pure (negsuc 0)) t)) [
              | true ↦ exchange-IsClear request t b k
              | false ↦ k
            ])

-- Whatever holds of the connection, it returns.
abbrev pub Goes : {A S : Type 0} → Option (A × S) → Type 0
Goes o = Returns (λ _. Unit {0}) o

module _ (env : Env) (attempt : ℕ → Attempt) where
  pub ensure-Goes : (s : Link) → Goes (ensure env attempt s)
  unfolding ensure
  ensure-Goes s = elim (Bool-cases s.connected) [ inl e ↦ rw e tt | inr e ↦ rw e tt ]

  write_line-Goes :
      (request : Bytes) (s : Link) → length request < 119 → Goes (write_line env request s)
  unfolding write_line
  write_line-Goes request s b = ground (arith, b)

  pub send_no_reply-Goes :
      (request : Bytes) (s : Link)
      → length request < 119
      → Goes (send_no_reply env attempt request s)
  unfolding send_no_reply
  send_no_reply-Goes request s b =
      Returns-bind (λ _. Unit {0}) (λ _. Unit {0}) (ensure env attempt) _ s (ensure-Goes s)
        λ up t _.
          elim up
            as (λ x. Goes (
              (if x
                  then (write_line env request >>= λ sent. pure (if sent then pos 0 else negsuc 0))
                  else pure (negsuc 0))
                t)) [
                  | true ↦
                      Returns-bind (λ _. Unit {0}) (λ _. Unit {0}) (write_line env request) _ t
                        (write_line-Goes request t b) (λ sent u _. tt)
                  | false ↦ tt
                ]
