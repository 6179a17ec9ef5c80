-- ===== src/DataServer/Pcr/Requests/Laws.antt =====
-- How long a request is that a word stands for.
use Prim.Native.Nat.{ℕ}
use mmtao_old.Base.{
  ◌≤◌, ◌≡◌, refl, inl, inr, Bool, true, ◌&&◌, some, List, [], ◌∷◌, arith, leb, Bool-cases, length,
}
use mmtao_old.Base.Text.{Bytes, has_prefix}
use mmtao_old.DataServer.Pcr.Requests.{
  request_words, begins_word, first_request, PcrRequest, parse_pcr_request,
}

pub length-has_prefix :
    (word request : Bytes) → has_prefix word request ≡ true → length request ≤ length word
unfolding has_prefix
length-has_prefix word [] h = omega arith
length-has_prefix [] (c ∷ cs) h = absurd (ground arith)
length-has_prefix (d ∷ ds) (c ∷ cs) h = ground (arith, length-has_prefix ds cs)

-- Whether every word has so many letters at most.
all_short : ℕ → List (Bytes × PcrRequest) → Bool
all_short n [] = true
all_short n ((word, r) ∷ rest) = leb (length word) n && all_short n rest

first_request-short :
    (n : ℕ) (words : List (Bytes × PcrRequest)) (request : Bytes) (r : PcrRequest)
    → all_short n words ≡ true
    → first_request words request ≡ some r
    → length request ≤ n
unfolding first_request all_short
first_request-short n [] request r a h = absurd (ground arith)
first_request-short n ((word, q) ∷ rest) request r a h =
    elim (Bool-cases (begins_word request word)) [
      | inl e ↦ ground (arith, a, length-has_prefix word request e)
      | inr e ↦ first_request-short n rest request r (ground (arith, a)) (ground (arith, e, h))
    ]

pub parse_pcr_request-short :
    (request : Bytes) (r : PcrRequest) → parse_pcr_request request ≡ some r → length request ≤ 17
unfolding parse_pcr_request request_words all_short
parse_pcr_request-short request r h = first_request-short 17 request_words request r refl h
