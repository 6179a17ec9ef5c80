-- ===== src/DataServer/Info/Service.antt =====
-- Info_Process: a client's requests to the parameter server, one after the other.
pub mod Kept
mod Tests
use mathlib.Core.Option
use mmtao_old.Base.{
  ℕ, suc, Bool, true, false, not, ◌||◌, Option, none, some, List, [], ◌∷◌, ◌++◌, if◌then◌else◌,
  length, leb,
}
use mmtao_old.Base.Text.{Bytes, codes, has_prefix, parse_int}
use mmtao_old.Base.Int.{ℤ, pos, negsuc, is_set}
use mmtao_old.Topbox.Link.{M, Env, Link, close_socket}
use mmtao_old.DataServer.Frames.Single.{lower_case}
use mmtao_old.DataServer.Info.Parameters.{InfoState, Outside, set_parameter, string_trim}
use mmtao_old.DataServer.Info.Ring.{reset_array}
use mmtao_old.DataServer.Info.Reports.{
  Cells, send_all, send_seeing, send_array, put_lines, info_help, seeing_positions,
}
use mmtao_old.DataServer.Pcr.Session.{string_read}

-- The parameters, which all clients share, and this client.
pub record InfoSession : Type 0 where
  pub info : InfoState
  pub client : Link  -- sockfd
  pub debug : ℤ
  pub running : Bool  -- continueRunning, which the routine sets to a null pointer

abbrev pub I : Type 0 → Type 0
I A = InfoSession → Option (A × InfoSession)

infixl 5 ◌>>=◌
abbrev pub ◌>>=◌ : {A B : Type 0} → I A → (A → I B) → I B
◌>>=◌ m f s = elim (m s) [ none ↦ none | some (a, t) ↦ f a t ]

abbrev pub to_client : {A : Type 0} → M A → I A
to_client m s = elim (m s.client) [ none ↦ none | some (a, t) ↦ some (a, record s { client = t }) ]

abbrev pub change : (InfoSession → InfoSession) → I (Unit {0})
change f s = some (tt, f s)

abbrev pub hang_up : I (Unit {0})
hang_up = change λ s. record s { running = false }

-- The branches of Info_Process.
pub data InfoRequest : Type 0 where
  debug set get all seeing see_vals strehl_vals reset_seeing reset_strehl help quit : InfoRequest

-- `strncmp( request, word, strlen(request)) == 0`
abbrev abbreviates : Bytes → Bytes → Bool
abbreviates request word = has_prefix word request

-- The `else if` chain over the request in lower case. Some words are only compared in full, others
-- may be abbreviated, down to nothing.
unfoldable pub info_request : Bytes → Option InfoRequest
info_request request =
    if abbreviates request (codes "debug")
    then some debug
    else if has_prefix request (codes "set")
    then some set
    else if has_prefix request (codes "get")
    then some get
    else if has_prefix request (codes "all")
    then some all
    else if has_prefix request (codes "seeing")
    then some seeing
    else if has_prefix request (codes "see_vals")
    then some see_vals
    else if has_prefix request (codes "strehl_vals")
    then some strehl_vals
    else if has_prefix request (codes "reset_seeing")
    then some reset_seeing
    else if has_prefix request (codes "reset_strehl")
    then some reset_strehl
    else if abbreviates request (codes "help")
        || abbreviates request (codes "h")
        || abbreviates request (codes "?")
    then some help
    else if abbreviates request (codes "quit")
    then some quit
    else none

-- A failure to send ends the loop.
abbrev pub or_hang_up : ℤ → I (Unit {0})
or_hang_up status = if is_set status then hang_up else change λ s. s

unfoldable pub store_value : Outside → Option Bytes → Option Bytes → I ℤ
store_value outside name value s =
    Option.map (λ (r : ℤ × InfoState). (r.0, record s { info = r.1 }))
      (set_parameter outside name value s.info)

-- Info_SetParameter, with its two reads; the second is not made if the first fails.
unfoldable pub read_value : Outside → Option Bytes → I ℤ
read_value outside none = store_value outside none none
read_value outside (some name) =
    to_client string_read >>= λ value. store_value outside (some name) value

unfoldable pub set_from_client : Outside → I ℤ
set_from_client outside = to_client string_read >>= read_value outside

-- The debug flag; the loop ends if it cannot be read.
unfoldable pub debug_flag : Option Bytes → I (Unit {0})
debug_flag none = hang_up
debug_flag (some line) = change λ s. record s { debug = parse_int (string_trim line) }

module _ (env : Env) (cells : Cells) (places : List (Option ℕ)) where
  unfoldable pub info_perform : Outside → InfoRequest → I (Unit {0})
  info_perform outside debug = to_client string_read >>= debug_flag
  info_perform outside set = set_from_client outside >>= or_hang_up
  info_perform outside get = change λ s. s
  info_perform outside all = λ s. (to_client (send_all env cells s.info.list) >>= or_hang_up) s
  info_perform outside seeing =
      λ s. (to_client (send_seeing env cells s.info.list places) >>= or_hang_up) s
  info_perform outside see_vals =
      λ s. (to_client (send_array env cells s.info.seeing) >>= λ _. change λ t. t) s
  info_perform outside strehl_vals =
      λ s. (to_client (send_array env cells s.info.strehl) >>= λ _. change λ t. t) s
  info_perform outside reset_seeing =
      change λ s. record s { info = record s.info { seeing = reset_array s.info.seeing } }
  info_perform outside reset_strehl =
      change λ s. record s { info = record s.info { strehl = reset_array s.info.strehl } }
  info_perform outside help = to_client (put_lines env cells info_help) >>= or_hang_up
  info_perform outside quit = hang_up

  -- What a pass of the loop does with what was read; a line of one byte ends the loop.
  unfoldable pub info_answer : Outside → Option Bytes → I (Unit {0})
  info_answer outside none = hang_up
  info_answer outside (some line) =
      if leb (length line) 1 then hang_up else elim (info_request (lower_case line)) [
        | none ↦ change λ s. s
        | some r ↦ info_perform outside r
      ]

  unfoldable pub info_pass : Outside → I (Unit {0})
  info_pass outside = to_client string_read >>= info_answer outside

  -- The loop, over so many passes at most. Before each of them other threads change the parameters,
  -- as `others` says.
  unfoldable pub info_passes : List (Outside × (InfoState → InfoState)) → I (Unit {0})
  info_passes [] s = some (tt, s)
  info_passes ((outside, others) ∷ rest) s =
      if s.running
      then (info_pass outside >>= λ _. info_passes rest) (record s { info = others s.info })
      else some (tt, s)

-- Info_Process; it ends with the connection closed, once it is over.
unfoldable pub info_process : Env → Cells → List (Outside × (InfoState → InfoState)) → I (Unit {0})
info_process env cells passes s =
    elim (info_passes env cells (seeing_positions s.info.list) passes s) [
      | none ↦ none
      | some (_, t) ↦
          some (tt, if t.running then t else record t { client = close_socket t.client })
    ]
