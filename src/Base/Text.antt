-- ===== src/Base/Text.antt =====
-- Text as lists of byte values, and what the programs use of <stdio.h> and <string.h> on it.
use Prim.Native.Nat.{ℕ, zero, suc, ◌+◌, ◌-◌, ◌*◌, ◌/◌, ◌%◌, ◌^◌}
use Prim.Native.Char.{code}
use Prim.Native.String.{String}
use mathlib.Core.Bool.{Bool, true, false, ◌&&◌, ◌||◌}
use mathlib.Core.List.{List, [], ◌∷◌}
use mathlib.Core.Option
use mathlib.Core.Option.{Option, none, some}
use mmtao_old.Base.Tests.{ltb, leb, ◌==◌, if◌then◌else◌}
use mmtao_old.Base.Int.{ℤ, pos, negsuc, int32}

abbrev pub Bytes : Type 0
Bytes = List ℕ

-- The code points of a text: its bytes, if it is ASCII.
abbrev pub codes : String → Bytes
codes String.[] = []
codes (String.◌∷◌ c s) = code c ∷ codes s

-- `%d` of a number, most significant digit first; the fuel bounds the number of digits.
unfoldable pub decimal_onto : ℕ → ℕ → Bytes → Bytes
decimal_onto zero n out = out
decimal_onto (suc fuel) n out =
    let rest = decimal_onto fuel (n / 10) ((b'0' + n % 10) ∷ out) in
    if ltb n 10 then (b'0' + n) ∷ out else rest

unfoldable pub decimal : ℕ → Bytes
unfolding decimal_onto
decimal n = decimal_onto (suc n) n []

-- `sprintf("%d", z)`.
unfoldable pub print_int : ℤ → Bytes
unfolding decimal
print_int (pos n) = decimal n
print_int (negsuc n) = b'-' ∷ decimal (suc n)

-- `strncmp(s, prefix, strlen(prefix)) == 0`: `prefix` is a prefix of `s`.
unfoldable pub has_prefix : Bytes → Bytes → Bool
has_prefix s [] = true
has_prefix [] (p ∷ ps) = false
has_prefix (c ∷ s) (p ∷ ps) = c == p && has_prefix s ps

abbrev pub is_space : ℕ → Bool
is_space c = c == b' ' || (leb 9 c && leb c 13)

abbrev pub hex_value : ℕ → Option ℕ
hex_value c =
    if leb b'0' c && leb c b'9'
    then some (c - b'0')
    else if leb b'a' c && leb c b'f'
    then some (c - b'a' + 10)
    else if leb b'A' c && leb c b'F'
    then some (c - b'A' + 10)
    else none

-- The digits up to the first byte that is none.
unfoldable pub hex_digits : ℕ → Bytes → ℕ
hex_digits acc [] = acc
hex_digits acc (c ∷ cs) = elim (hex_value c) [ none ↦ acc | some d ↦ hex_digits (acc * 16 + d) cs ]

-- A conversion needs one digit at least.
hex_number : Bytes → Option ℕ
unfolding hex_digits
hex_number [] = none
hex_number (c ∷ cs) = elim (hex_value c) [ none ↦ none | some d ↦ some (hex_digits d cs) ]

-- Behind an optional "0x", which counts only if a digit follows it.
hex_prefixed : Bytes → Option ℕ
unfolding hex_number
hex_prefixed (z ∷ x ∷ cs) =
    if z == b'0' && (x == b'x' || x == b'X')
    then elim (hex_number cs) [ none ↦ some 0 | some n ↦ some n ]
    else hex_number (z ∷ x ∷ cs)
hex_prefixed cs = hex_number cs

-- Values past `unsigned long` saturate, and the low 32 bits are stored as an `int`.
abbrev saturate : ℕ → ℕ
saturate n = if ltb n (2 ^ 64) then n else 2 ^ 64 - 1

hex_signed : Bytes → Option ℤ
unfolding hex_prefixed
hex_signed [] = none
hex_signed (c ∷ cs) =
    if c == b'-'
    then Option.map (λ n. int32 (2 ^ 64 - saturate n)) (hex_prefixed cs)
    else if c == b'+'
    then Option.map (λ n. int32 (saturate n)) (hex_prefixed cs)
    else Option.map (λ n. int32 (saturate n)) (hex_prefixed (c ∷ cs))

-- `sscanf(s, "%x", &i)`; `none` is a failed conversion, which leaves `i` alone.
unfoldable pub scan_hex : Bytes → Option ℤ
unfolding hex_signed
scan_hex [] = none
scan_hex (c ∷ cs) = let rest = scan_hex cs in if is_space c then rest else hex_signed (c ∷ cs)

-- `strtok_r(s, " ", …)` until it returns NULL: the runs of bytes between spaces.
attach : ℕ → Bytes → List Bytes → List Bytes
attach c (d ∷ _) (w ∷ ws) = if d == b' ' then (c ∷ []) ∷ w ∷ ws else (c ∷ w) ∷ ws
attach c _ ws = (c ∷ []) ∷ ws

unfoldable pub words : Bytes → List Bytes
unfolding attach
words [] = []
words (c ∷ cs) = let rest = words cs in if c == b' ' then rest else attach c cs rest

dec_digits : ℕ → Bytes → ℕ
dec_digits acc [] = acc
dec_digits acc (c ∷ cs) =
    let rest = dec_digits (acc * 10 + (c - b'0')) cs in
    if leb b'0' c && leb c b'9' then rest else acc

-- `strtol` saturates at the ends of a 64-bit long.
unfoldable pub dec_signed : Bytes → ℤ
unfolding dec_digits
dec_signed [] = pos 0
dec_signed (c ∷ cs) =
    let below = if ltb (dec_digits 0 cs) (2 ^ 63) then dec_digits 0 cs else 2 ^ 63 in
    let above = if ltb (dec_digits 0 cs) (2 ^ 63) then dec_digits 0 cs else 2 ^ 63 - 1 in
    if c == b'-'
    then int32 (2 ^ 64 - below)
    else if c == b'+'
    then int32 above
    else int32 (if ltb (dec_digits 0 (c ∷ cs)) (2 ^ 63) then dec_digits 0 (c ∷ cs) else 2 ^ 63 - 1)

-- `atoi(s)`.
unfoldable pub parse_int : Bytes → ℤ
unfolding dec_signed
parse_int [] = pos 0
parse_int (c ∷ cs) = let rest = parse_int cs in if is_space c then rest else dec_signed (c ∷ cs)

is_digit : ℕ → Bool
is_digit c = leb b'0' c && leb c b'9'

-- The end of a number: its value and what stands behind it.
dec_split : ℕ → Bytes → ℕ × Bytes
unfolding is_digit
dec_split acc [] = (acc, [])
dec_split acc (c ∷ cs) =
    let rest = dec_split (acc * 10 + (c - b'0')) cs in if is_digit c then rest else (acc, c ∷ cs)

-- One "%d" at a byte that is no space; `none` is a failed conversion.
dec_unsigned : Bool → Bytes → Option (ℤ × Bytes)
unfolding dec_split is_digit
dec_unsigned minus [] = none
dec_unsigned minus (c ∷ cs) =
    let (n, rest) = dec_split 0 (c ∷ cs) in
    let value =
      if minus
      then int32 (2 ^ 64 - (if ltb n (2 ^ 63) then n else 2 ^ 63))
      else int32 (if ltb n (2 ^ 63) then n else 2 ^ 63 - 1) in
    if is_digit c then some (value, rest) else none

-- `sscanf(s, " %d", &i)`: the number and the rest of the text.
unfoldable pub scan_int : Bytes → Option (ℤ × Bytes)
unfolding dec_unsigned
scan_int [] = none
scan_int (c ∷ cs) =
    let later = scan_int cs in
    if is_space c
    then later
    else if c == b'-'
    then dec_unsigned true cs
    else if c == b'+'
    then dec_unsigned false cs
    else dec_unsigned false (c ∷ cs)

-- `strstr(s, word) != NULL`.
unfoldable pub contains : Bytes → Bytes → Bool
unfolding has_prefix
contains [] word = has_prefix [] word
contains (c ∷ s) word = has_prefix (c ∷ s) word || contains s word
