-- ===== src/DataServer/Info/Service/Tests.antt =====
-- The parameter server on a sample client.
use mmtao_old.Base.{◌≡◌, refl, some, [], ◌∷◌, ◌++◌, replicate, true}
use mmtao_old.Base.Text.{Bytes, codes, has_prefix}
use mmtao_old.Base.Int.{pos}
use mmtao_old.Topbox.Link.{incoming, hangup}
use mmtao_old.Topbox.Sample.{test_env, ready}
use mmtao_old.DataServer.Info.Parameters.{InfoEntry, InfoState, Outside}
use mmtao_old.DataServer.Info.Ring.{InfoArray}
use mmtao_old.DataServer.Info.Reports.{Cells, send_all}
use mmtao_old.DataServer.Info.Reports.Laws.{HasSent, send_all-HasSent}
use mmtao_old.DataServer.Info.Service.{InfoSession, info_request, info_process, debug}
use mmtao_old.DataServer.Info.Service.Kept.{Ensures, Kept-refl, info_process-Ensures}

abbrev home : InfoEntry
home = record {
  name = codes "MMTAO_Home";
  type = codes "s";
  i_value = pos 0;
  i_cell = 0;
  f_value = 0;
  f_cell = 0;
  s_value = codes "/mmt";
}

abbrev rate : InfoEntry
rate = record home { name = codes "WFSC_Rate"; type = codes "I" }

abbrev empty : InfoArray
empty = record {
  array_size = 10;
  total_number = 0;
  position = 0;
  slots = replicate 10 (record { time = []; value = 0 });
}

abbrev sample : InfoState
sample = record { list = home ∷ rate ∷ []; seeing = empty; strehl = empty }

abbrev cells : Cells
cells = record { int_at = λ n k. pos 30; float_at = λ n k. 0 }

send_all-HasSent_example :
    HasSent test_env cells []
      (home ∷ rate ∷ [])
      []
      (send_all test_env cells (home ∷ rate ∷ []) ready)
send_all-HasSent_example = send_all-HasSent test_env cells (home ∷ rate ∷ []) ready

abbrev line : Bytes → Bytes
line text = text ++ 10 ∷ []

-- A client that changes a parameter, asks for all of them, and hangs up.
abbrev session : InfoSession
session = record {
  info = sample;
  client = record ready {
    inbox =
        incoming 115 (line (codes "et"))
        ∷ incoming 77 (line (codes "MTAO_Home"))
        ∷ incoming 47 (line (codes "home"))
        ∷ incoming 97 (line (codes "ll"))
        ∷ hangup
        ∷ [];
  };
  debug = pos 0;
  running = true;
}

abbrev outside : Outside
outside = record { parse_double = λ s. 7; time_string = []; stale_position = 0 }

info_process-Ensures_example : Ensures sample.list (
    info_process test_env cells
      ((outside, λ s. s) ∷ (outside, λ s. s) ∷ (outside, λ s. s) ∷ [])
      session)
info_process-Ensures_example =
    info_process-Ensures test_env cells
      ((outside, λ s. s) ∷ (outside, λ s. s) ∷ (outside, λ s. s) ∷ []) session
      ((λ s. Kept-refl s.list), ((λ s. Kept-refl s.list), ((λ s. Kept-refl s.list), tt)))

-- A line of a carriage return alone is empty in lower case, and asks for the debug flag.
blank_line : info_request [] ≡ some debug
unfolding info_request has_prefix
blank_line = refl
