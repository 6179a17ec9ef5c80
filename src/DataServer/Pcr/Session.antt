-- ===== src/DataServer/Pcr/Session.antt =====
-- The commands to the reconstructor: Socket_StringRead, PCR_SendCmd, PCR_SendCmd_NoReply and
-- PCR_SendCmd_DM of the data server. The mutex of the connection is PCR_CMD_Lock; `none` is also a
-- thread that waits for ever for the rest of a line, or writes behind the end of a string.
pub mod Judged
pub mod Laws
use Prim.Native.Nat.{ℕ}
use mmtao_old.Base.{
  zero, suc, ◌-◌, Bool, true, false, ◌||◌, Option, none, some, List, [], ◌∷◌, ◌++◌, leb, ◌==◌,
  if◌then◌else◌, length, not,
}
use mmtao_old.Base.Text.{Bytes, codes, has_prefix}
use mmtao_old.Base.Int.{is_set, eq_ℤ, ℤ, pos, negsuc}
use mathlib.Core.Option
use mmtao_old.Topbox.Link.{
  M, pure, gets, ◌>>=◌, lock, close_socket, release, Env, Link, Chunk, incoming, hangup, fault,
  ◌>>◌,
}
use mmtao_old.Topbox.Socket.{put_back, string_write}
use mmtao_old.Topbox.Socket.Connect.{open_client, Attempt}
use mmtao_old.DataServer.Frames.Single.{lower_case}

-- STRING_LENGTH
abbrev pub line_length : ℕ
line_length = 120

-- What read() of one byte comes to.
pub data Byte : Type 0 where
  byte : ℕ → List Chunk → Byte
  no_byte : List Chunk → Byte
  blocked : Byte

unfoldable pub read_byte : List Chunk → Byte
read_byte [] = blocked
read_byte (incoming b bs ∷ rest) = byte b (put_back bs rest)
read_byte (hangup ∷ rest) = no_byte (hangup ∷ rest)
read_byte (fault ∷ rest) = no_byte (fault ∷ rest)

-- The bytes before a NUL: a C string.
unfoldable pub c_string : Bytes → Bytes
c_string [] = []
c_string (c ∷ cs) = if c == 0 then [] else c ∷ c_string cs

abbrev pub and_byte : ℕ → Option Bytes → Option Bytes
and_byte c none = none
and_byte c (some line) = some (c ∷ line)

-- The loop of Socket_StringRead with room for so many bytes more: what was read before the last
-- byte, `none` if no byte came, and what still waits. The outer `none` waits for ever.
unfoldable pub string_loop : ℕ → List Chunk → Option (Option Bytes × List Chunk)
unfolding read_byte
string_loop zero inbox = some (some [], inbox)
string_loop (suc room) inbox = elim (read_byte inbox) [
  | blocked ↦ none
  | no_byte rest ↦ some (none, rest)
  | byte c rest ↦ elim (c == 10 || room == 0) [
    | true ↦ some (some [], rest)
    | false ↦ elim (string_loop room rest) [
      | none ↦ none
      | some (line, left) ↦ some (and_byte c line, left)
    ]
  ]
]

-- Socket_StringRead: `none` is -1.
unfoldable pub string_read : M (Option Bytes)
unfolding string_loop c_string
string_read s = elim (string_loop line_length s.inbox) [
  | none ↦ none
  | some (line, rest) ↦ some (Option.map c_string line, record s { inbox = rest })
]

-- Whether select() reports input before its time is up.
abbrev pub is_ready : Link → Bool
is_ready s = elim s.inbox [ [] ↦ false | _ ∷ _ ↦ true ]

-- Socket_Close of the data server keeps what is known of the device.
abbrev close : M (Unit {0})
close s = pure tt (close_socket s)

-- The reply of the reconstructor, as read: 0 if it begins with "ok", in any case of letters.
unfoldable pub judge : Bytes → ℤ
unfolding lower_case has_prefix
judge reply =
    if leb (length reply) 1
    then negsuc 0
    else if has_prefix (lower_case reply) (codes "ok")
    then pos 0
    else negsuc 0

-- What PCR_SendCmd does with the line that it read.
unfoldable pub conclude : Option Bytes → M ℤ
unfolding release judge
conclude none = do close; release (negsuc 0)
conclude (some reply) = release (judge reply)

-- The end of PCR_SendCmd, behind a successful write.
unfoldable pub await_reply : M ℤ
unfolding release
await_reply s = if is_ready s then (string_read >>= conclude) s else release (negsuc 0) s

module _ (env : Env) where
  -- strcat( request, "\n") to a string of STRING_LENGTH bytes, and its write; whether all was taken.
  unfoldable pub write_line : Bytes → M Bool
  write_line request s =
      if leb (line_length - 1) (length request)
      then none
      else some (
          let line = request ++ 10 ∷ [] in
          let (n, t) = string_write env line s in (eq_ℤ n (pos (length line)), t))

  -- PCR_SendCmd_DM on what Socket_StringRead gives for the request.
  unfoldable pub send_cmd_dm : Option Bytes → M ℤ
  unfolding write_line
  send_cmd_dm none s = some (negsuc 0, s)
  send_cmd_dm (some request) s =
      if leb (length request) 1
      then some (negsuc 0, s)
      else if s.connected
      then (write_line request >>= λ _. pure (negsuc 0)) s
      else some (negsuc 1, s)

  -- PCR_SendCmd on a connection.
  unfoldable pub exchange : Bytes → M ℤ
  unfolding await_reply release write_line
  exchange request = do
    lock
    sent ← write_line request
    if sent then await_reply else release (negsuc 0)

module _ (env : Env) (attempt : ℕ → Attempt) where
  -- Socket_OpenClient, unless the connection stands; whether it does now.
  unfoldable pub ensure : M Bool
  ensure s =
      if s.connected
      then some (true, s)
      else (let (status, t) = open_client (attempt s.calls) (record s { calls = suc s.calls }) in
          some (not (is_set status), t))

  -- PCR_SendCmd.
  unfoldable pub send_cmd : Bytes → M ℤ
  unfolding ensure exchange
  send_cmd request = do
    connected ← ensure
    if connected then exchange env request else pure (negsuc 0)

  -- PCR_SendCmd_NoReply, which does not lock.
  unfoldable pub send_no_reply : Bytes → M ℤ
  unfolding ensure write_line
  send_no_reply request = do
    connected ← ensure
    if connected
        then (do sent ← write_line env request; pure (if sent then pos 0 else negsuc 0))
        else pure (negsuc 0)
