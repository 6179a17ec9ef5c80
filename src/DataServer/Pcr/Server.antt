-- ===== src/DataServer/Pcr/Server.antt =====
-- The state of a client of the reconstructor's server: PCR_Thread_Info, and what surrounds it.
use Prim.Native.Nat.{ℕ}
use mmtao_old.Base.{Bool, Option, none, some, List, get_elem?, set}
use mmtao_old.Base.Text.{Bytes}
use mmtao_old.Base.Int.{ℤ}
use mmtao_old.Topbox.Link.{Float, M, Floats, Env, Link}
use mmtao_old.Topbox.Socket.Connect.{Attempt}
use mmtao_old.DataServer.Info.Parameters.{InfoEntry}

-- A thread that receives frames, as PCR_Process starts and stops it.
pub record Receiving : Type 0 where
  pub running : Bool
  pub continue_running : ℤ
  pub reset : Bool

pub record Server : Type 0 where
  pub list : List InfoEntry
  pub client : Link  -- sockfd
  pub cmd : Link
  pub dm : Link
  pub error : Link
  pub wfsc_thread : Receiving
  pub dm_thread : Receiving
  pub running : Bool  -- continueRunning
  pub server_running : Bool  -- *DServ_continueRunning

-- What surrounds it: the kernel and the other end of each connection, how each call of
-- Socket_OpenClient turns out, and the arithmetic.
pub record World : Type 0 where
  pub client : Env
  pub cmd : Env
  pub dm : Env
  pub attempt : ℕ → Attempt
  pub floats : Floats
  pub less : Float → Float → Bool  -- < on double

-- `none` is as for a connection, or an access outside the list.
abbrev pub P : Type 0 → Type 0
P A = Server → Option (A × Server)

abbrev pub done : {A : Type 0} → A → P A
done a s = some (a, s)

infixl 5 ◌>>=◌ ◌>>◌
abbrev pub ◌>>=◌ : {A B : Type 0} → P A → (A → P B) → P B
◌>>=◌ m f s = elim (m s) [ none ↦ none | some (a, t) ↦ f a t ]

abbrev pub ◌>>◌ : {B : Type 0} → P (Unit {0}) → P B → P B
m >> k = m >>= λ _. k

abbrev pub change : (Server → Server) → P (Unit {0})
change f s = some (tt, f s)

unfoldable pub on_client : {A : Type 0} → M A → P A
on_client m s = elim (m s.client) [ none ↦ none | some (a, t) ↦ some (a, record s { client = t }) ]

unfoldable pub on_cmd : {A : Type 0} → M A → P A
on_cmd m s = elim (m s.cmd) [ none ↦ none | some (a, t) ↦ some (a, record s { cmd = t }) ]

unfoldable pub on_dm : {A : Type 0} → M A → P A
on_dm m s = elim (m s.dm) [ none ↦ none | some (a, t) ↦ some (a, record s { dm = t }) ]

unfoldable pub on_error : {A : Type 0} → M A → P A
on_error m s = elim (m s.error) [ none ↦ none | some (a, t) ↦ some (a, record s { error = t }) ]

-- `List[position].i_value = value`, and the like: an entry is changed.
unfoldable pub at_entry : ℕ → (InfoEntry → InfoEntry) → P (Unit {0})
at_entry position f s = elim (get_elem? s.list position) [
  | none ↦ none
  | some e ↦ some (tt, record s { list = set s.list position (f e) })
]

abbrev pub set_int : ℤ → InfoEntry → InfoEntry
set_int value e = record e { i_value = value }

abbrev pub set_float : Float → InfoEntry → InfoEntry
set_float value e = record e { f_value = value }

abbrev pub set_text : Bytes → InfoEntry → InfoEntry
set_text value e = record e { s_value = value }
