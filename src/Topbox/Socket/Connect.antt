-- ===== src/Topbox/Socket/Connect.antt =====
-- topbox_server/Socket/Socket_OpenClient.c: the calls that open a connection, in their order.
pub mod Laws
use mmtao_old.Base.{Bool, true, false, not, ◌||◌, [], if◌then◌else◌}
use mmtao_old.Base.Int.{is_set, is_negative, ℤ, pos, negsuc}
use mmtao_old.Topbox.Link.{Link}

-- How each call to the system turns out.
pub record Attempt : Type 0 where
  pub resolves : Bool  -- gethostbyname_r returns 0
  pub has_address : Bool  -- h_err is 0 and there is a result
  pub socket_made : Bool
  pub flags_read : Bool
  pub non_blocking : Bool
  pub flags_restored : Bool
  pub ready : ℤ  -- what select returns: below 0 an error, 0 when the time is up
  pub option_read : Bool
  pub so_error : ℤ

-- The connection that was there is closed first; the descriptor is then set to 0, not to -1.
abbrev close_old : Link → Link
close_old s =
    if s.connected || s.is_open
    then record s { is_open = true; connected = false; error = true; inbox = [] }
    else s

abbrev not_connected : Bool → Link → ℤ × Link
not_connected error s = (negsuc 0, record s { connected = false; error = error })

-- The calls from `socket` on. A connection in the time-out of `select` has no error to report.
unfoldable pub connect : Attempt → Link → ℤ × Link
connect a s =
    if not a.socket_made
    then not_connected true s
    else if not a.flags_read
    then not_connected true s
    else if not a.non_blocking
    then not_connected true s
    else if not a.flags_restored
    then not_connected true s
    else if is_negative a.ready
    then not_connected false s
    else if not a.option_read
    then not_connected true s
    else if is_set a.so_error
    then not_connected false s
    else (pos 0, record s { is_open = true; connected = true; error = false; inbox = [] })

unfoldable pub open_client : Attempt → Link → ℤ × Link
unfolding connect
open_client a s =
    if not a.resolves
    then (negsuc 0, record s { error = true })
    else if not a.has_address
    then (negsuc 0, record s { error = true })
    else connect a (close_old s)
