-- ===== src/Topbox/Link.antt =====
-- One device connection of the top box: `Socket_Info` and `Device_Data` (topbox_server/include),
-- the bytes that wait on the socket, and what was sent. A routine that holds the mutex
-- `Socket->lock` at its end has not released it.
use mmtao_old.Base.{ℕ, ◌≤◌, ◌≡◌, Bool, true, false, Option, none, some, List, []}
use mmtao_old.Base.Int.{ℤ, pos, negsuc}
use mmtao_old.Base.Text.{Bytes}

-- The bit pattern of a C `float` or `double`; 0.0 has the pattern 0.
abbrev pub Float : Type 0
Float = ℕ

-- What a `read` or `write` returns: a count, or -1.
pub data SysResult : Type 0 where
  count : ℕ → SysResult
  failed : SysResult

-- What waits to be read: at least one byte, the end of the stream, or an error.
pub data Chunk : Type 0 where
  incoming : ℕ → Bytes → Chunk
  hangup : Chunk
  fault : Chunk

-- The C arithmetic that the routines use.
pub record Floats : Type 0 where
  pub mul_float : Float → Float → Float
  pub trunc_float : Float → ℤ  -- (int) of a float
  pub double_of_int : ℤ → Float
  pub double_of_float : Float → Float
  pub float_of_int : ℤ → Float
  pub float_of_double : Float → Float
  pub mul_double : Float → Float → Float
  pub div_double : Float → Float → Float
  pub trunc_double : Float → ℤ  -- (int) of a double
  pub parse_float : Bytes → Float  -- (float) atof(s)
  pub parse_double : Bytes → Float  -- atof(s)
  pub add_double : Float → Float → Float
  pub equal_double : Float → Float → Bool
  pub print_fixed : ℕ → Float → Bytes  -- "%.nf" of a double

-- The kernel, the device at the other end of the line, and what uninitialised storage holds.
-- A call is numbered by the calls made before it.
pub record Env : Type 0 where
  pub floats : Floats
  pub accept : ℕ → ℕ → SysResult  -- write() of so many bytes
  pub accept_le : (n k m : ℕ) → accept n k ≡ count m → m ≤ k
  pub answer : ℕ → Bytes → List Chunk  -- what arrives once these bytes are on the line
  pub stale_bytes : ℕ → Bytes  -- an uninitialised char array
  pub stale_int : ℕ → ℤ  -- an uninitialised int

pub record DeviceData : Type 0 where
  pub name : Bytes
  pub gain : Float
  pub speed : ℤ
  pub accel : ℤ
  pub home : ℤ
  pub position : Float
  pub filter : Bytes
  pub moving : ℤ
  pub in_position : ℤ
  pub error : ℤ
  pub enabled : ℤ
  pub negative : ℤ
  pub positive : ℤ
  pub event_2 : ℤ
  pub relays : List ℤ

pub record Link : Type 0 where
  pub is_open : Bool  -- sockfd is a descriptor, not -1
  pub connected : Bool
  pub error : Bool
  pub locked : Bool
  pub device : DeviceData
  pub inbox : List Chunk
  pub sent : List Bytes  -- of each write, the bytes that the kernel took
  pub calls : ℕ

-- `none` is a thread that waits for ever on a mutex that it holds, or unlocks a free one.
abbrev pub M : Type 0 → Type 0
M A = Link → Option (A × Link)

abbrev pub pure : {A : Type 0} → A → M A
pure a s = some (a, s)

abbrev pub gets : {A : Type 0} → (Link → A) → M A
gets f s = some (f s, s)

abbrev pub modify : (Link → Link) → M (Unit {0})
modify f s = some (tt, f s)

-- A step that can neither block nor fault.
abbrev pub lift : {A : Type 0} → (Link → A × Link) → M A
lift f s = some (f s)

infixl 5 ◌>>=◌ ◌>>◌
abbrev pub ◌>>=◌ : {A B : Type 0} → M A → (A → M B) → M B
◌>>=◌ m f s = elim (m s) [ none ↦ none | some (a, s') ↦ f a s' ]

abbrev pub ◌>>◌ : {B : Type 0} → M (Unit {0}) → M B → M B
m >> k = m >>= λ _. k

-- pthread_mutex_lock and pthread_mutex_unlock on a default mutex.
unfoldable pub lock : M (Unit {0})
lock s = elim s.locked [ true ↦ none | false ↦ some (tt, record s { locked = true }) ]

unfoldable pub unlock : M (Unit {0})
unlock s = elim s.locked [ true ↦ some (tt, record s { locked = false }) | false ↦ none ]

-- Status_ZeroFlags.
unfoldable pub zero_flags : DeviceData → DeviceData
zero_flags d = record d {
  home = pos 0;
  position = 0;
  moving = pos 0;
  in_position = pos 0;
  error = pos 0;
  enabled = pos 0;
  negative = pos 0;
  positive = pos 0;
  event_2 = pos 0;
}

-- Socket_Close: what was waiting on the descriptor is lost.
unfoldable pub close_socket : Link → Link
close_socket s = record s { is_open = false; connected = false; error = false; inbox = [] }

-- The pair of calls with which a routine gives a connection up.
unfoldable pub drop_connection : M (Unit {0})
unfolding close_socket zero_flags
drop_connection s = let t = close_socket s in some (tt, record t { device = zero_flags t.device })

-- What most routines do when a write fails.
unfoldable pub give_up : M ℤ
unfolding drop_connection unlock
give_up = do drop_connection; unlock; pure (negsuc 0)

-- The return without further ado, after the mutex is released.
unfoldable pub release : ℤ → M ℤ
unfolding unlock
release status = do unlock; pure status

-- The flags that `zero_flags` clears.
pub record IsZeroed (d : DeviceData) : Type 0 where
  pub home : d.home ≡ pos 0
  pub position : d.position ≡ 0
  pub moving : d.moving ≡ pos 0
  pub in_position : d.in_position ≡ pos 0
  pub error : d.error ≡ pos 0
  pub enabled : d.enabled ≡ pos 0
  pub negative : d.negative ≡ pos 0
  pub positive : d.positive ≡ pos 0
  pub event_2 : d.event_2 ≡ pos 0
