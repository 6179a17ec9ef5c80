-- ===== src/Topbox/Socket.antt =====
-- topbox_server/Socket: reading, flushing and writing a descriptor.
pub mod Connect
pub mod Laws
mod Tests
use mmtao_old.Base.{
  ℕ, zero, suc, ◌+◌, ◌-◌, Bool, Option, none, some, List, [], ◌∷◌, ◌++◌, if◌then◌else◌, length,
  take, drop,
}
use mmtao_old.Base.Int.{ℤ, pos, negsuc}
use mmtao_old.Base.Text.{Bytes}
use mmtao_old.Topbox.Link.{SysResult, count, failed, Chunk, incoming, hangup, fault, Env, Link}

-- SOCKET_MAXLINE
abbrev pub max_line : ℕ
max_line = 512

abbrev pub put_back : Bytes → List Chunk → List Chunk
put_back [] rest = rest
put_back (b ∷ bs) rest = incoming b bs ∷ rest

-- `read(fd, buffer, size)` when something waits: its result, the bytes, and what still waits.
abbrev pub receive : ℕ → Chunk → List Chunk → SysResult × Bytes × List Chunk
receive size (incoming b bs) rest =
    let got = take size (b ∷ bs) in (count (length got), got, put_back (drop size (b ∷ bs)) rest)
receive size hangup rest = (count 0, [], hangup ∷ rest)
receive size fault rest = (failed, [], fault ∷ rest)

-- The number of bytes that wait.
abbrev pub waiting : List Chunk → ℕ
waiting [] = 0
waiting (incoming b bs ∷ rest) = suc (length bs) + waiting rest
waiting (_ ∷ rest) = waiting rest

-- The loop of Socket_Flush: read while `select` reports input and `read` returns some.
flush_loop : ℕ → List Chunk → List Chunk
flush_loop zero inbox = inbox
flush_loop (suc fuel) [] = []
flush_loop (suc fuel) (c ∷ cs) =
    let rest = (receive max_line c cs).2 in
    elim (receive max_line c cs).0 [
      | count zero ↦ rest
      | count (suc n) ↦ flush_loop fuel rest
      | failed ↦ rest
    ]

-- Socket_Flush.
unfoldable pub flush : Link → Link
unfolding flush_loop
flush s = record s { inbox = flush_loop (suc (waiting s.inbox)) s.inbox }

-- How the loop of Socket_StringWrite ends: what the routine returns, the bytes not yet taken by
-- the kernel, and the calls made.
pub record WriteEnd : Type 0 where
  pub returned : ℤ
  pub left : ℕ
  pub calls : ℕ

module _ (env : Env) where
  -- The loop of Socket_StringWrite over `nleft`; `none` is fuel that ran out.
  unfoldable pub write_loop : ℕ → ℕ → ℕ → ℕ → Option WriteEnd
  write_loop fuel nbytes call zero = some (record { returned = pos nbytes; left = 0; calls = call })
  write_loop zero nbytes call (suc nleft) = none
  write_loop (suc fuel) nbytes call (suc nleft) = elim (env.accept call (suc nleft)) [
    | failed ↦ some (record { returned = negsuc 0; left = suc nleft; calls = suc call })
    | count zero ↦ some (record { returned = pos 0; left = suc nleft; calls = suc call })
    | count (suc n) ↦ write_loop fuel nbytes (suc call) (suc nleft - suc n)
  ]

  -- What a finished loop leaves behind: the bytes taken are on the line, and the device answers.
  unfoldable pub delivered : Bytes → Link → Option WriteEnd → ℤ × Link
  delivered request s none = (negsuc 0, s)
  delivered request s (some e) =
      let line = take (length request - e.left) request in
      (
        e.returned,
        record s {
          inbox = s.inbox ++ env.answer s.calls line;
          sent = s.sent ++ line ∷ [];
          calls = e.calls;
        },
      )

  -- Socket_StringWrite; a `write` to the descriptor -1 fails.
  unfoldable pub string_write : Bytes → Link → ℤ × Link
  unfolding delivered write_loop
  string_write request s =
      if s.is_open
      then delivered request s
          (write_loop (length request) (length request) s.calls (length request))
      else (negsuc 0, s)
