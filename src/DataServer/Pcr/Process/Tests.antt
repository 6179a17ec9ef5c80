-- ===== src/DataServer/Pcr/Process/Tests.antt =====
-- PCR_Process at concrete inputs.
use Prim.Native.Nat.{ℕ}
use mmtao_old.Base.{
  zero, suc, ◌≡◌, refl, true, false, some, List, [], ◌∷◌, ◌++◌, arith, ltb, length,
}
use mmtao_old.Base.Text.{codes, has_prefix}
use mmtao_old.Base.Int.{pos}
use mmtao_old.Topbox.Sample.{ready, whole_numbers, test_env, no_answer}
use mmtao_old.Topbox.Link.{Env, Chunk, incoming, hangup}
use mmtao_old.DataServer.Info.Table.{info_rows, info_list}
use mmtao_old.DataServer.Info.Parameters.{find_parameter}
use mmtao_old.DataServer.Pcr.Process.Steps.{IsSound}
use mmtao_old.DataServer.Frames.Single.{lower_case}
use mmtao_old.DataServer.Pcr.Positions.{find_positions, Positions}
use mmtao_old.DataServer.Pcr.Process.{serve}
use mmtao_old.DataServer.Pcr.Requests.{request_words, first_request, parse_pcr_request, PcrRequest}
use mmtao_old.DataServer.Pcr.Session.{read_byte, c_string, string_loop, string_read}
use mmtao_old.DataServer.Pcr.Server.{Receiving, Server, World}
use mmtao_old.DataServer.Pcr.Session.Laws.{Returns, null, is_line, WholeLines, AnswersLines}
use mmtao_old.DataServer.Pcr.Process.Passes.{request_of, awaited, serve-Returns}
use mmtao_old.DataServer.Pcr.Process.Sound.{is_bounded, PrintsShort}

-- The reply "OK".
abbrev ok_line : List Chunk
ok_line = incoming 79 (codes "K" ++ 10 ∷ []) ∷ []

abbrev test_positions : Positions
test_positions = record {
  static = 60;
  initialized = 22;
  wfsc_running = 23;
  size = 26;
  source = 27;
  bias = 28;
  frequency = 25;
  period = 24;
  background_static = 81;
  background_dynamic = 80;
  gain_change = 76;
  loop_running = 83;
  gain = 84;
  save_data = 85;
  recon_name = 17;
}

test_positions_found : find_positions info_list ≡ some test_positions
unfolding find_positions info_list info_rows find_parameter has_prefix
test_positions_found = refl

-- A reconstructor that refuses the first command, and a client that asks to close the loop.
abbrev error_line : List Chunk
error_line = incoming 69 (codes "rror" ++ 10 ∷ []) ∷ []

abbrev first_error : ℕ → List Chunk
first_error zero = error_line
first_error (suc n) = ok_line

abbrev reluctant : Env
reluctant = record test_env { answer = λ n line. first_error n }

abbrev test_world : World
test_world = record {
  client = test_env;
  cmd = reluctant;
  dm = test_env;
  attempt = λ n. no_answer;
  floats = record whole_numbers { print_fixed = λ n x. [] };
  less = λ a b. ltb a b;
}

abbrev idle_thread : Receiving
idle_thread = record { running = false; continue_running = pos 0; reset = false }

abbrev test_server : Server
test_server = record {
  list = info_list;
  client = record ready { inbox = incoming 108 (codes "oop_close" ++ 10 ∷ []) ∷ hangup ∷ [] };
  cmd = ready;
  dm = ready;
  error = ready;
  wfsc_thread = idle_thread;
  dm_thread = idle_thread;
  running = true;
  server_running = true;
}

first_error-WholeLines : (n : ℕ) → WholeLines (first_error n)
unfolding is_line null
first_error-WholeLines zero = (refl, tt)
first_error-WholeLines (suc n) = (refl, tt)

reluctant-AnswersLines : AnswersLines reluctant
reluctant-AnswersLines = record { at = λ n line. first_error-WholeLines n }

test_world-PrintsShort : PrintsShort test_world
test_world-PrintsShort = record { at = λ limit value a b. omega arith }

test_server-IsSound : IsSound (length info_list) test_server
unfolding info_list info_rows is_line null
test_server-IsSound = record { client = tt; cmd = record { free = refl; lines = tt }; size = refl }

close_awaited : (r : PcrRequest) → awaited test_server ≡ some r → is_bounded r ≡ true
unfolding string_loop read_byte c_string string_read request_of parse_pcr_request first_request
    request_words has_prefix lower_case is_bounded
close_awaited r h = ground (arith, h)

serve-Returns_example :
    Returns (IsSound (length info_list)) (serve test_world test_positions test_server)
serve-Returns_example =
    serve-Returns test_world info_list test_positions test_positions_found reluctant-AnswersLines
      test_world-PrintsShort test_server close_awaited test_server-IsSound
