-- ===== src/DataServer/Frames/Stream/Transcript.antt =====
-- The words of a stream of frames.
use mmtao_old.DataServer.Frames.Single.{network_int}
use mmtao_old.DataServer.Frames.Single.Laws.{total_length}
use mmtao_old.Topbox.Link.{Link}
use mmtao_old.Base.{ℕ, ◌≡◌, List, [], ◌∷◌, ◌++◌, append_assoc, append-nil, sym, ◌∙◌, ap}
use mmtao_old.Base.Int.{pos, negsuc}
use mmtao_old.Base.Text.{Bytes}

-- What a client reads that was told of frames of `n` bytes: -2 while it waits, and for each frame
-- its number of bytes, its number, and the bytes; -3 when no frame comes.
pub data Transcript (n : ℕ) : List Bytes → Type 0 where
  silence : Transcript n []
  frame :
      (number : Bytes) (lines rest : List Bytes)
      → total_length lines ≡ n
      → Transcript n rest
      → Transcript n (network_int (pos n) ∷ number ∷ (lines ++ rest))
  waiting : (rest : List Bytes) → Transcript n rest → Transcript n (network_int (negsuc 1) ∷ rest)
  no_frame : (rest : List Bytes) → Transcript n rest → Transcript n (network_int (negsuc 2) ∷ rest)

-- What was sent between two states of a connection is such a transcript.
pub record Speaks (n : ℕ) (s t : Link) : Type 0 where
  pub words : List Bytes
  pub transcript : Transcript n words
  pub sent : t.sent ≡ s.sent ++ words

Transcript-append :
    (n : ℕ) (xs ys : List Bytes) → Transcript n xs → Transcript n ys → Transcript n (xs ++ ys)
Transcript-append n xs ys silence k = k
Transcript-append n xs ys (frame number lines rest e h) k =
    rw (append_assoc lines rest ys)
      (frame number lines (rest ++ ys) e (Transcript-append n rest ys h k))
Transcript-append n xs ys (waiting rest h) k =
    waiting (rest ++ ys) (Transcript-append n rest ys h k)
Transcript-append n xs ys (no_frame rest h) k =
    no_frame (rest ++ ys) (Transcript-append n rest ys h k)

pub Speaks-refl : (n : ℕ) (s : Link) → Speaks n s s
Speaks-refl n s = record { words = []; transcript = silence; sent = sym (append-nil s.sent) }

pub Speaks-trans : (n : ℕ) (s t u : Link) → Speaks n s t → Speaks n t u → Speaks n s u
Speaks-trans n s t u h k = record {
  words = h.words ++ k.words;
  transcript = Transcript-append n h.words k.words h.transcript k.transcript;
  sent = k.sent ∙ ap (λ ls. ls ++ k.words) h.sent ∙ append_assoc s.sent h.words k.words;
}
