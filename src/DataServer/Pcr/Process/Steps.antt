-- ===== src/DataServer/Pcr/Process/Steps.antt =====
-- Steps of PCR_Process that return and keep its connections and its list in order.
use Prim.Native.Nat.{ℕ}
use mmtao_old.Base.{
  zero, suc, ◌<◌, ◌≡◌, refl, inl, inr, Bool, true, false, ◌||◌, Option, none, some, List, [], ◌∷◌,
  ◌++◌, arith, ◌==◌, if◌then◌else◌, Bool-cases, length, get_elem?-found, ◌∙◌, length-set, ltb,
}
use mmtao_old.Base.Text.{Bytes}
use mmtao_old.Topbox.Link.{Chunk, incoming, hangup, fault, M, Link}
use mmtao_old.Topbox.Socket.{put_back}
use mmtao_old.DataServer.Info.Parameters.{InfoEntry}
use mmtao_old.DataServer.Pcr.Session.{
  line_length, read_byte, and_byte, string_loop, string_read, send_cmd,
}
use mmtao_old.DataServer.Pcr.Server.{
  P, ◌>>=◌, done, on_client, at_entry, Server, World, on_cmd, change, on_dm, on_error,
}
use mmtao_old.DataServer.Pcr.Session.Laws.{
  Returns, string_read-loop, Returns-then, IsClear, send_cmd-IsClear, AnswersLines,
}
use mmtao_old.Base.Int.{is_set}
use mmtao_old.DataServer.Pcr.Positions.{Positions}
use mmtao_old.DataServer.Pcr.Commands.{entry_at, with_line, pcr_send, pcr_command}

-- What waits ends with the end of the stream, or an error.
abbrev pub Closes : List Chunk → Type 0
Closes [] = ⊥
Closes (incoming b bs ∷ rest) = Closes rest
Closes (_ ∷ rest) = Unit {0}

-- The client will hang up, PCR_CMD_Lock is free, what waits from the reconstructor is whole lines, and
-- the list has so many entries.
pub record IsSound (n : ℕ) (s : Server) : Type 0 where
  pub client : Closes s.client.inbox
  pub cmd : IsClear s.cmd
  pub size : length s.list ≡ n

pub record Keeps {A : Type 0} (n : ℕ) (m : P A) : Type 0 where
  pub at : (s : Server) → IsSound n s → Returns (IsSound n) (m s)

pub done-Keeps : {A : Type 0} (n : ℕ) (a : A) → Keeps n (done a)
done-Keeps n a = record { at = λ s h. h }

pub bind-Keeps :
    {A B : Type 0} (n : ℕ) (m : P A) (f : A → P B)
    → Keeps n m
    → ((a : A) → Keeps n (f a))
    → Keeps n (m >>= f)
bind-Keeps n m f k l = record {
  at = λ s h. Returns-then (IsSound n) (IsSound n) (m s) f (k.at s h) (λ a t. (l a).at t);
}

pub if-Keeps :
    {A : Type 0} (n : ℕ) (b : Bool) (m m' : P A)
    → Keeps n m
    → Keeps n m'
    → Keeps n (if b then m else m')
if-Keeps n true m m' k l = k
if-Keeps n false m m' k l = l

pub unless-Keeps :
    {A : Type 0} (n : ℕ) (b : Bool) (m m' : P A)
    → Keeps n m
    → (b ≡ false → Keeps n m')
    → Keeps n (if b then m else m')
unless-Keeps n true m m' k l = k
unless-Keeps n false m m' k l = l refl

pub whenever-Keeps :
    {A : Type 0} (n : ℕ) (b : Bool) (m m' : P A)
    → (b ≡ true → Keeps n m)
    → Keeps n m'
    → Keeps n (if b then m else m')
whenever-Keeps n true m m' k l = k refl
whenever-Keeps n false m m' k l = l

pub at_entry-Keeps : (n i : ℕ) (f : InfoEntry → InfoEntry) → i < n → Keeps n (at_entry i f)
unfolding at_entry
at_entry-Keeps n i f b = record {
  at = λ s h.
      let (e, found) = get_elem?-found s.list i (omega (arith, h.size)) in
      rw (found, at_entry)
        (record { client = h.client; cmd = h.cmd; size = length-set s.list i (f e) ∙ h.size });
}

pub entry_at-Keeps : (n i : ℕ) → i < n → Keeps n (entry_at i)
unfolding entry_at
entry_at-Keeps n i b = record {
  at = λ s h.
      let (e, found) = get_elem?-found s.list i (omega (arith, h.size)) in rw (found, entry_at) h;
}

Closes-put_back : (bs : Bytes) (rest : List Chunk) → Closes rest → Closes (put_back bs rest)
Closes-put_back [] rest h = h
Closes-put_back (b ∷ bs) rest h = h

pub Closes-append : (cs ds : List Chunk) → Closes cs → Closes (cs ++ ds)
Closes-append [] ds h = absurd h
Closes-append (incoming b bs ∷ cs) ds h = Closes-append cs ds h
Closes-append (hangup ∷ cs) ds h = tt
Closes-append (fault ∷ cs) ds h = tt

pub string_loop-Closes :
    (room : ℕ) (inbox : List Chunk)
    → Closes inbox
    → (line : Option Bytes) × (rest : List Chunk) × (string_loop room inbox ≡ some (line, rest))
      × Closes rest
unfolding string_loop read_byte
string_loop-Closes zero inbox h = (some [], inbox, refl, h)
string_loop-Closes (suc room) [] h = absurd h
string_loop-Closes (suc room) (incoming b bs ∷ rest) h = elim (Bool-cases (b == 10 || room == 0)) [
  | inl e ↦ (some [], put_back bs rest, ground (arith, e), Closes-put_back bs rest h)
  | inr e ↦
      let (line, left, loop, k) =
        string_loop-Closes room (put_back bs rest) (Closes-put_back bs rest h) in
      (and_byte b line, left, ground (arith, e, loop), k)
]
string_loop-Closes (suc room) (hangup ∷ rest) h = (none, hangup ∷ rest, refl, tt)
string_loop-Closes (suc room) (fault ∷ rest) h = (none, fault ∷ rest, refl, tt)

pub bind-some :
    {A B : Type 0} (m : P A) (f : A → P B) (s t : Server) (a : A)
    → m s ≡ some (a, t)
    → (m >>= f) s ≡ f a t
bind-some m f s t a e = rw (e, ◌>>=◌) refl

pub on_client-read :
    {A : Type 0} (m : M A) (s : Server) (a : A) (t : Link)
    → m s.client ≡ some (a, t)
    → on_client m s ≡ some (a, record s { client = t })
unfolding on_client
on_client-read m s a t e = rw (e, on_client) refl

pub client_line-Keeps : (n : ℕ) → Keeps n (on_client string_read)
unfolding on_client
client_line-Keeps n = record {
  at = λ s h.
      let (line, rest, loop, k) = string_loop-Closes line_length s.client.inbox h.client in
      rw (string_read-loop s.client line rest loop, on_client)
        (record { client = k; cmd = h.cmd; size = h.size });
}

pub with_line-Keeps :
    (n : ℕ) (f : Bytes → P (Unit {0})) → ((line : Bytes) → Keeps n (f line)) → Keeps n (with_line f)
unfolding with_line
with_line-Keeps n f k =
    bind-Keeps n (on_client string_read) _ (client_line-Keeps n)
      elim [ none ↦ done-Keeps n tt | some line ↦ k line ]

pub change-Keeps :
    (n : ℕ) (f : Server → Server)
    → ((s : Server) → IsSound n s → IsSound n (f s))
    → Keeps n (change f)
change-Keeps n f k = record { at = k }

pub on_dm-Keeps :
    {A : Type 0} (n : ℕ) (m : M A)
    → ((s : Link) → Returns (λ _. Unit {0}) (m s))
    → Keeps n (on_dm m)
unfolding on_dm
on_dm-Keeps n m k = record {
  at = λ s h.
      Returns-then (λ _. Unit {0}) (IsSound n) (m s.dm) _ (k s.dm)
        λ a t _. record { client = h.client; cmd = h.cmd; size = h.size };
}

pub on_error-Keeps :
    {A : Type 0} (n : ℕ) (m : M A)
    → ((s : Link) → Returns (λ _. Unit {0}) (m s))
    → Keeps n (on_error m)
unfolding on_error
on_error-Keeps n m k = record {
  at = λ s h.
      Returns-then (λ _. Unit {0}) (IsSound n) (m s.error) _ (k s.error)
        λ a t _. record { client = h.client; cmd = h.cmd; size = h.size };
}

pub on_cmd-Keeps :
    {A : Type 0} (n : ℕ) (m : M A)
    → ((s : Link) → IsClear s → Returns IsClear (m s))
    → Keeps n (on_cmd m)
unfolding on_cmd
on_cmd-Keeps n m k = record {
  at = λ s h.
      Returns-then IsClear (IsSound n) (m s.cmd) _ (k s.cmd h.cmd)
        λ a t c. record { client = h.client; cmd = c; size = h.size };
}

pub on_client-Keeps :
    {A : Type 0} (n : ℕ) (m : M A)
    → ((s : Link) → Closes s.inbox → Returns (λ t. Closes t.inbox) (m s))
    → Keeps n (on_client m)
unfolding on_client
on_client-Keeps n m k = record {
  at = λ s h.
      Returns-then (λ t. Closes t.inbox) (IsSound n) (m s.client) _ (k s.client h.client)
        λ a t c. record { client = c; cmd = h.cmd; size = h.size };
}

module _ (w : World) (p : Positions) (answers : AnswersLines w.cmd) (n : ℕ) where
  pub pcr_send-Keeps : (line : Bytes) → length line < 119 → Keeps n (pcr_send w p line)
  unfolding pcr_send
  pcr_send-Keeps line b =
      on_cmd-Keeps n (send_cmd w.cmd w.attempt line)
        λ s c. send_cmd-IsClear w.cmd answers w.attempt line s b c

  pub pcr_command-Keeps :
      (line : Bytes) (failure success : P (Unit {0}))
      → ltb (length line) 119 ≡ true
      → Keeps n failure
      → Keeps n success
      → Keeps n (pcr_command w p line failure success)
  unfolding pcr_command
  pcr_command-Keeps line failure success b k l =
      bind-Keeps n (pcr_send w p line) _ (pcr_send-Keeps line (ground (arith, b)))
        λ status. if-Keeps n (is_set status) failure success k l

pub ruleset keeps_rules =
    (pcr_command-Keeps, bind-Keeps, if-Keeps, done-Keeps, at_entry-Keeps, entry_at-Keeps)
