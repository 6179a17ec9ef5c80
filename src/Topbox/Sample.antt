-- ===== src/Topbox/Sample.antt =====
-- A kernel that takes every byte, and a motor controller that holds the distance 7, for the tests.
use mmtao_old.Base.{
  ℕ, ◌*◌, ◌/◌, List, [], ◌∷◌, ◌++◌, true, false, if◌then◌else◌, arith, ◌≡◌, ◌≤◌, ◌+◌, ◌==◌, refl,
}
use mmtao_old.Base.Text.{Bytes, codes, has_prefix, decimal}
use mmtao_old.Base.Int.{ℤ, pos, negsuc}
use mmtao_old.Topbox.Link.{Floats, Env, DeviceData, Link, count, Chunk, incoming, IsZeroed}
use mmtao_old.Topbox.Socket.Connect.{Attempt}

-- The numbers are whole.
abbrev magnitude : ℤ → ℕ
magnitude (pos n) = n
magnitude (negsuc n) = n

abbrev pub whole_numbers : Floats
whole_numbers = record {
  mul_float = λ a b. a * b;
  trunc_float = λ a. pos a;
  double_of_int = magnitude;
  double_of_float = λ a. a;
  float_of_int = magnitude;
  float_of_double = λ a. a;
  mul_double = λ a b. a * b;
  div_double = λ a b. a / b;
  trunc_double = λ a. pos a;
  parse_float = λ s. 7;
  parse_double = λ s. 7;
  add_double = λ a b. a + b;
  equal_double = λ a b. a == b;
  print_fixed = λ n a. decimal a;
}

-- Only the two requests that read a distance back are answered.
abbrev answers : Bytes → List Chunk
answers line =
    if has_prefix line (codes "0 LA" ++ 13 ∷ [])
    then incoming 10 (codes "0 LA 0000007" ++ 13 ∷ []) ∷ []
    else if has_prefix line (codes "0 LR" ++ 13 ∷ [])
    then incoming 10 (codes "0 LR 0000007" ++ 13 ∷ []) ∷ []
    else []

pub takes_all : (k m : ℕ) → count k ≡ count m → m ≤ k
takes_all k m h = grind arith

abbrev pub test_env : Env
test_env = record {
  floats = whole_numbers;
  accept = λ n k. count k;
  accept_le = λ n k m h. takes_all k m h;
  answer = λ n line. answers line;
  stale_bytes = λ n. [];
  stale_int = λ n. pos 0;
}

abbrev pub motor : DeviceData
motor = record {
  name = codes "1";
  gain = 1;
  speed = pos 0;
  accel = pos 0;
  home = pos 0;
  position = 0;
  filter = [];
  moving = pos 0;
  in_position = pos 0;
  error = pos 0;
  enabled = pos 0;
  negative = pos 0;
  positive = pos 0;
  event_2 = pos 0;
  relays = [];
}

pub motor-IsZeroed : IsZeroed motor
motor-IsZeroed = record {
  home = refl;
  position = refl;
  moving = refl;
  in_position = refl;
  error = refl;
  enabled = refl;
  negative = refl;
  positive = refl;
  event_2 = refl;
}

abbrev pub ready : Link
ready = record {
  is_open = true;
  connected = true;
  error = false;
  locked = false;
  device = motor;
  inbox = [];
  sent = [];
  calls = 0;
}

-- A device that was never reached.
abbrev pub unreached : Link
unreached = record ready { is_open = false; connected = false }

-- An attempt that gets no answer in time.
abbrev pub no_answer : Attempt
no_answer = record {
  resolves = true;
  has_address = true;
  socket_made = true;
  flags_read = true;
  non_blocking = true;
  flags_restored = true;
  ready = pos 0;
  option_read = true;
  so_error = pos 0;
}
