-- ===== src/Topbox/Mvp/Wire/Reply.antt =====
-- What MVP_Read makes of the bytes that it received.
use mmtao_old.Base.{ℕ, zero, suc, ◌+◌, ◌-◌, ◌≤◌, ◌≡◌, ◌≢◌, refl, [], ◌∷◌, ◌++◌, arith, length, ◌<◌}
use mmtao_old.Base.Text.{Bytes}
use mmtao_old.Topbox.Mvp.Wire.{mvp_reply, skip_line, read_line}

-- No newline.
abbrev pub HasNoNewline : Bytes → Type 0
HasNoNewline [] = Unit {0}
HasNoNewline (c ∷ cs) = (c ≢ 10) × HasNoNewline cs

-- No NUL, newline or carriage return.
abbrev pub IsText : Bytes → Type 0
IsText [] = Unit {0}
IsText (c ∷ cs) = (c ≢ 0) × (c ≢ 10) × (c ≢ 13) × IsText cs

skip_line-append :
    (rounds : ℕ) (echo more : Bytes)
    → HasNoNewline echo
    → length echo < rounds
    → skip_line rounds (echo ++ 10 ∷ more) ≡ (rounds - (length echo + 1), more)
unfolding skip_line
skip_line-append zero echo more h n = absurd (omega arith)
skip_line-append (suc rounds) [] more h n = grind arith
skip_line-append (suc rounds) (c ∷ cs) more h n =
    ground (arith, h.0, skip_line-append rounds cs more h.1 (omega arith))

read_line-append :
    (rounds : ℕ) (text rest : Bytes)
    → IsText text
    → length text ≤ rounds
    → read_line rounds (text ++ 13 ∷ rest) ≡ text
unfolding read_line
read_line-append zero [] rest h n = refl
read_line-append zero (c ∷ cs) rest h n = absurd (omega arith)
read_line-append (suc rounds) [] rest h n = refl
read_line-append (suc rounds) (c ∷ cs) rest h n =
    ground (arith, h.0, h.1, read_line-append rounds cs rest h.3 (omega arith))

-- The reply is the text between the first newline and the carriage return behind it: the echo of
-- the request before it and all bytes after it are skipped, provided that the two lines fit into
-- the buffer.
pub mvp_reply-append :
    (echo text rest : Bytes)
    → HasNoNewline echo
    → IsText text
    → length echo + length text ≤ 118
    → mvp_reply (echo ++ 10 ∷ (text ++ 13 ∷ rest)) ≡ text
unfolding mvp_reply
mvp_reply-append echo text rest h k n =
    rw (skip_line-append 119 echo (text ++ 13 ∷ rest) h (omega arith))
      (read_line-append (119 - (length echo + 1)) text rest k (omega arith))
