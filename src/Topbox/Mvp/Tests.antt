-- ===== src/Topbox/Mvp/Tests.antt =====
-- The routines of the motor controllers on a sample device.
use mathlib.Core.Option
use mmtao_old.Topbox.Mvp.Commands
use mmtao_old.Topbox.Mvp.Moves
use mmtao_old.Base.{
  ◌≡◌, refl, false, not, ◌&&◌, some, [], ◌∷◌, ◌++◌, arith, true, ◌+◌, ◌*◌, ◌≢◌, sym, ◌∙◌, length,
  Bool, ℕ,
}
use mmtao_old.Base.Text.{codes, print_int, scan_hex, has_prefix}
use mmtao_old.Base.Int.{pos, is_set, int32, ℤ, negsuc}
use mmtao_old.Topbox.Link.{Link}
use mmtao_old.Topbox.Sample.{test_env, ready, unreached, motor, motor-IsZeroed, no_answer}
use mmtao_old.Topbox.Socket.{string_write, flush, write_loop}
use mmtao_old.Topbox.Mvp.Wire.{mvp_write_step, mvp_reply, has_input, mvp_read_step}
use mmtao_old.Topbox.Mvp.Wire.Reply.{mvp_reply-append}
use mmtao_old.Topbox.Mvp.Moves.{counts_of}
use mmtao_old.Topbox.Mvp.Echo.{IsEchoed, StartsIf, moves-StartsIf}
use mmtao_old.Topbox.Mvp.Settles.{IsSettled}
use mmtao_old.Topbox.Mvp.Process.{Command, Request, Session, process, parse_request, begin_home}
use mmtao_old.Topbox.Mvp.Process.Laws.{StaysSettled, process-StaysSettled, process-home}
use mmtao_old.Topbox.Mvp.Mutex.{Leaves, reset_node-Leaves}
use mmtao_old.Topbox.Mvp.Looper.{StaysIdle, mvp_looper, mvp_looper-StaysIdle}
use mmtao_old.Topbox.Mvp.Queries.{decode_status, short_bits}
use mmtao_old.Topbox.Mvp.Queries.Decode.{StatusBits, word_of, decode_status-word_of}

ready-IsSettled : IsSettled ready
ready-IsSettled = record {
  free = refl;
  closed = λ down. ground arith;
  cleared = λ down. motor-IsZeroed;
}

moves-StartsIf_example :
    StartsIf test_env
      (IsEchoed test_env (codes "0 LA") (counts_of test_env 7 ready) ready)
      ready
      (Moves.move_absolute test_env 7 ready)
    × StartsIf test_env
        (IsEchoed test_env (codes "0 LR") (counts_of test_env 7 ready) ready)
        ready
        (Moves.move_relative test_env 7 ready)
moves-StartsIf_example = moves-StartsIf test_env ready 7 refl

abbrev session : Session
session = record { link = ready; debugging = false; running = []; homing = 0 }

abbrev started : Session
started = record { link = ready; debugging = false; running = pos 0 ∷ []; homing = 1 }

enables : parse_request test_env.floats (codes "1 en") ≡ Request.command Command.enable
unfolding parse_request
enables = refl

en_is_no_reset : Request.command Command.enable ≢ Request.command Command.reset
en_is_no_reset e = ground arith

asks_home : parse_request test_env.floats (codes "1 home") ≡ Request.home
unfolding parse_request
asks_home = refl

process-StaysSettled_example : StaysSettled (process test_env (codes "1 en") session)
process-StaysSettled_example =
    process-StaysSettled test_env (codes "1 en") session (λ e. en_is_no_reset (sym enables ∙ e))
      ready-IsSettled

process-home_example :
    (process test_env (codes "1 home") session ≡ some (pos 0, started))
    × (process test_env (codes "1 home") (begin_home started)
        ≡ some (pos 0, record session { running = pos 0 ∷ pos 1 ∷ []; homing = 2 }))
process-home_example = process-home test_env (codes "1 home") session started refl asks_home refl

reset_node-Leaves_example :
    let w = mvp_write_step test_env (codes "0 RN") (record ready { locked = true }) in
    Leaves (not (is_set w.0) && not (has_input w.1)) (Commands.reset_node test_env ready)
reset_node-Leaves_example = reset_node-Leaves test_env ready refl

mvp_looper-StaysIdle_example :
    StaysIdle (mvp_looper test_env no_answer (no_answer ∷ no_answer ∷ []) unreached)
mvp_looper-StaysIdle_example =
    mvp_looper-StaysIdle test_env no_answer (no_answer ∷ no_answer ∷ []) unreached refl
      (λ down. motor-IsZeroed)

mvp_reply-append_example :
    mvp_reply (codes "0 POS" ++ 10 ∷ (codes "0001 0000002A" ++ 13 ∷ 10 ∷ []))
    ≡ codes "0001 0000002A"
mvp_reply-append_example =
    mvp_reply-append (codes "0 POS") (codes "0001 0000002A") (10 ∷ []) (ground arith) (ground arith)
      (omega arith)

-- In position, enabled, with the second external event.
abbrev bits : StatusBits
bits = record {
  b15 = 0;
  b14 = 1;
  b13 = 0;
  middle = 0;
  b8 = 0;
  high = 5;
  b4 = 0;
  low = 3;
  b1 = 1;
  b0 = 0;
}

decode_status-word_of_example :
    decode_status (short_bits (int32 (1 * 65536 + word_of bits))) motor ≡ record motor {
      moving = pos 0;
      in_position = pos 1;
      error = pos 0;
      enabled = pos 1;
      positive = pos 0;
      negative = pos 0;
      event_2 = pos 1;
    }
decode_status-word_of_example = decode_status-word_of bits 1 motor (record {
  b15 = omega arith;
  b14 = omega arith;
  b13 = omega arith;
  middle = omega arith;
  b8 = omega arith;
  high = omega arith;
  b4 = omega arith;
  low = omega arith;
  b1 = omega arith;
  b0 = omega arith;
})

-- The sample controller echoes 7: the motor is started, and not for another distance.
move_7 :
    Option.map {B = ℤ × Bool × ℕ}
      (λ (r : ℤ × Link). (r.0, r.1.locked, length r.1.sent))
      (Moves.move_absolute test_env 7 ready)
    ≡ some (pos 0, false, 3)
unfolding Moves.move_absolute mvp_write_step mvp_read_step mvp_reply string_write write_loop flush
    print_int scan_hex has_prefix
move_7 = refl

move_8 :
    Option.map {B = ℤ × Bool × ℕ}
      (λ (r : ℤ × Link). (r.0, r.1.locked, length r.1.sent))
      (Moves.move_absolute test_env 8 ready)
    ≡ some (negsuc 0, false, 2)
unfolding Moves.move_absolute mvp_write_step mvp_read_step mvp_reply string_write write_loop flush
    print_int scan_hex has_prefix
move_8 = refl
