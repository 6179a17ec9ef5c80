-- ===== src/Wish/PcrCmd/Agree.antt =====
-- A request that PCR_Cmd sends as it was typed, and the branch that PCR_Process takes for it.
use mmtao_old.Base.{
  ◌≡◌, refl, Bool, true, false, ◌&&◌, Option, none, some, List, [], ◌∷◌, arith, ◌==◌, if◌then◌else◌,
  ℕ, ◌||◌, Bool-cases, ap, ◌≢◌, inl, inr, ◌⊎◌,
}
use mmtao_old.Base.Text.{Bytes, has_prefix, codes}
use mmtao_old.DataServer.Pcr.Requests.{
  begins_word, PcrRequest, request_words, first_request, parse_pcr_request,
}
use mmtao_old.DataServer.Pcr.Server.{P}
use mmtao_old.Wish.PcrCmd.{
  client_words, first_word, Saying, typed, first_words, setting_words, connect_words, camera_words,
  gain_words, pid_words, port_words, offset_words,
}

-- The word of the server's branch.
server_word_in : List (Bytes × PcrRequest) → Bytes → Option Bytes
server_word_in [] request = none
server_word_in ((word, r) ∷ rest) request =
    if begins_word request word then some word else server_word_in rest request

eq_bytes : Bytes → Bytes → Bool
eq_bytes [] [] = true
eq_bytes [] (d ∷ ds) = false
eq_bytes (c ∷ cs) [] = false
eq_bytes (c ∷ cs) (d ∷ ds) = c == d && eq_bytes cs ds

eq_bytes_sound : (s t : Bytes) → eq_bytes s t ≡ true → s ≡ t
unfolding eq_bytes
eq_bytes_sound [] [] h = refl
eq_bytes_sound [] (d ∷ ds) h = absurd (ground arith)
eq_bytes_sound (c ∷ cs) [] h = absurd (ground arith)
eq_bytes_sound (c ∷ cs) (d ∷ ds) h = ground (arith, eq_bytes_sound cs ds)

-- Whether P holds of every beginning of a word.
every_prefix : (Bytes → Bool) → Bytes → Bool
every_prefix P [] = P []
every_prefix P (c ∷ cs) = P [] && every_prefix (λ s. P (c ∷ s)) cs

cd_eq : (c d : ℕ) → (c == d) ≡ true → d ≡ c
cd_eq c d h = ground (arith, h)

every_prefix_sound :
    (P : Bytes → Bool) (word s : Bytes)
    → every_prefix P word ≡ true
    → has_prefix word s ≡ true
    → P s ≡ true
unfolding every_prefix has_prefix
every_prefix_sound P [] [] h k = h
every_prefix_sound P [] (d ∷ ds) h k = absurd (ground arith)
every_prefix_sound P (c ∷ cs) [] h k = ground (arith, h)
every_prefix_sound P (c ∷ cs) (d ∷ ds) h k =
    rw (cd_eq c d (ground (arith, k)))
      (every_prefix_sound (λ s. P (c ∷ s)) cs ds (ground (arith, h)) (ground (arith, k)))

server_word : Bytes → Option Bytes
server_word = server_word_in request_words

server_is : Bytes → Bytes → Bool
server_is request word = elim (server_word request) [ none ↦ false | some v ↦ eq_bytes v word ]

is_cam_bi : Bytes → Bool
is_cam_bi request = eq_bytes request (codes "cam_bi")

agree_on : Bytes → Option (Bytes × Saying) → Bool
agree_on request none = true
agree_on request (some (word, typed n)) = is_cam_bi request || server_is request word
agree_on request (some (word, _)) = true

agree : Bytes → Bool
agree request = agree_on request (first_word client_words request)

all_agree : List (Bytes × Saying) → Bool
all_agree [] = true
all_agree ((word, saying) ∷ rest) = every_prefix agree word && all_agree rest

all_agree_sound :
    (rows : List (Bytes × Saying)) (request : Bytes) (out : Bytes × Saying)
    → all_agree rows ≡ true
    → first_word rows request ≡ some out
    → agree request ≡ true
unfolding all_agree first_word
all_agree_sound [] request out a h = absurd (ground arith)
all_agree_sound ((word, saying) ∷ rest) request out a h =
    elim (Bool-cases (begins_word request word)) [
      | inl e ↦ every_prefix_sound agree word request (ground (arith, a)) e
      | inr e ↦ all_agree_sound rest request out (ground (arith, a)) (ground (arith, e, h))
    ]

client_words_agree : all_agree client_words ≡ true
unfolding all_agree agree agree_on server_is server_word server_word_in is_cam_bi eq_bytes
    every_prefix client_words first_words setting_words connect_words camera_words gain_words
    pid_words port_words offset_words first_word request_words has_prefix
client_words_agree = refl

agree_on-typed :
    (request word : Bytes) (n : ℕ) (o : Option Bytes)
    → server_word request ≡ o
    → agree_on request (some (word, typed n)) ≡ true
    → is_cam_bi request ≡ false
    → o ≡ some word
unfolding agree_on server_is
agree_on-typed request word n none e a h = absurd (ground (arith, e, a, h))
agree_on-typed request word n (some v) e a h =
    ap some (eq_bytes_sound v word (ground (arith, e, a, h)))

typed-server_word :
    (request word : Bytes) (n : ℕ)
    → first_word client_words request ≡ some (word, typed n)
    → request ≢ codes "cam_bi"
    → server_word request ≡ some word
unfolding agree is_cam_bi
typed-server_word request word n h other =
    agree_on-typed request word n (server_word request) refl
      (rw⁻¹ h (all_agree_sound client_words request (word, typed n) client_words_agree h))
      (elim (Bool-cases (eq_bytes request (codes "cam_bi"))) [
        | inl e ↦ absurd (other (eq_bytes_sound request (codes "cam_bi") e))
        | inr e ↦ e
      ])

-- The word and the request stand in one row of a table.
abbrev pub Row : Bytes → PcrRequest → List (Bytes × PcrRequest) → Type 0
Row word r [] = ⊥
Row word r ((v, q) ∷ rest) = (word ≡ v) × (r ≡ q) ⊎ Row word r rest

server_word_in-Row :
    (rows : List (Bytes × PcrRequest)) (request word : Bytes)
    → server_word_in rows request ≡ some word
    → (r : PcrRequest) × (first_request rows request ≡ some r) × Row word r rows
unfolding server_word_in first_request
server_word_in-Row [] request word h = absurd (ground arith)
server_word_in-Row ((v, q) ∷ rest) request word h = elim (Bool-cases (begins_word request v)) [
  | inl e ↦ (q, ground (arith, e), inl (ground (arith, e, h), refl))
  | inr e ↦
      let (r, found, row) = server_word_in-Row rest request word (ground (arith, e, h)) in
      (r, ground (arith, e, found), inr row)
]

-- A request that PCR_Cmd sends as it was typed, abbreviated at will, but for "cam_bi", takes in
-- PCR_Process the branch of the word for which PCR_Cmd took it.
pub typed-parse_pcr_request :
    (request word : Bytes) (n : ℕ)
    → first_word client_words request ≡ some (word, typed n)
    → request ≢ codes "cam_bi"
    → (r : PcrRequest) × (parse_pcr_request request ≡ some r) × Row word r request_words
unfolding parse_pcr_request server_word
typed-parse_pcr_request request word n h other =
    server_word_in-Row request_words request word (typed-server_word request word n h other)
