-- ===== src/DataServer/Frames/Stream/Laws.antt =====
-- The words that DServ_Stream sends: what a client has to read.
use mmtao_old.DataServer.Frames.Stream.Transcript.{
  silence, frame, waiting, no_frame, Speaks, Speaks-refl, Speaks-trans,
}
use mmtao_old.DataServer.Frames.Sets.{Selection, total_of}
use mmtao_old.DataServer.Frames.Single.{
  Moment, frame_number, network_int, send, send_frame, lower_case,
}
use mmtao_old.DataServer.Frames.Single.Laws.{
  payload, total_length-payload, send_sent, send_frame_sent,
}
use mmtao_old.DataServer.Frames.Stream.{
  Glance, Reply, Wait, obey, attend, time_out, look_at, await, Round, Standing, moment, send_round,
  after_wait, after_send, stream_rounds, number_tries, arrived, returned, overrun, go_on, stop,
  lost, over, broken, running, Section,
}
use mmtao_old.Topbox.Link.{Env, Link}
use mmtao_old.Base.{
  ℕ, zero, suc, ◌≡◌, List, [], ◌∷◌, ◌++◌, append-nil, arith, sym, ◌∙◌, Bool-cases, Option, inl, inr,
  none, some, leb, ◌⊎◌, ◌+◌, refl,
}
use mmtao_old.Base.Int.{ℤ, pos, negsuc}
use mmtao_old.Base.Text.{Bytes, codes, has_prefix}

abbrev pub ReplySpeaks : ℕ → Link → Reply × Link → Type 0
ReplySpeaks n s (go_on, t) = Speaks n s t
ReplySpeaks n s (stop, t) = Speaks n s t
ReplySpeaks n s (lost, t) = Unit

abbrev WaitSpeaks : ℕ → Link → Wait × Link → Type 0
WaitSpeaks n s (arrived number, t) = Speaks n s t
WaitSpeaks n s (over, t) = Speaks n s t
WaitSpeaks n s (broken, t) = Unit

-- Unless a write or a read failed, what was sent is a transcript.
abbrev pub StandingSpeaks : ℕ → Link → Standing × Link → Type 0
StandingSpeaks n s (running, t) = Speaks n s t
StandingSpeaks n s (returned (pos k), t) = Speaks n s t
StandingSpeaks n s (returned (negsuc k), t) = Unit
StandingSpeaks n s (overrun, t) = Unit

WaitSpeaks-trans :
    (n : ℕ) (s t : Link) (w : Wait × Link) → Speaks n s t → WaitSpeaks n t w → WaitSpeaks n s w
WaitSpeaks-trans n s t (arrived number, u) h k = Speaks-trans n s t u h k
WaitSpeaks-trans n s t (over, u) h k = Speaks-trans n s t u h k
WaitSpeaks-trans n s t (broken, u) h k = tt

pub StandingSpeaks-trans :
    (n : ℕ) (s t : Link) (x : Standing × Link)
    → Speaks n s t
    → StandingSpeaks n t x
    → StandingSpeaks n s x
StandingSpeaks-trans n s t (running, u) h k = Speaks-trans n s t u h k
StandingSpeaks-trans n s t (returned (pos i), u) h k = Speaks-trans n s t u h k
StandingSpeaks-trans n s t (returned (negsuc i), u) h k = tt
StandingSpeaks-trans n s t (overrun, u) h k = tt

module _ (env : Env) (n : ℕ) where
  pub obey-ReplySpeaks : (request : Bytes) (s : Link) → ReplySpeaks n s (obey env request s)
  unfolding obey
  obey-ReplySpeaks request s = elim (Bool-cases (has_prefix (codes "stop") request)) [
    | inl stops ↦ rw stops (Speaks-refl n s)
    | inr other ↦ elim (Bool-cases (has_prefix (codes "status") request)) [
      | inr unknown ↦ rw (other, unknown) (Speaks-refl n s)
      | inl asks ↦ elim (Bool-cases (send env (network_int (negsuc 1)) s).0) [
        | inl sent ↦
            rw (other, asks, sent)
              (record {
                words = network_int (negsuc 1) ∷ [];
                transcript = waiting [] silence;
                sent = send_sent env (network_int (negsuc 1)) s sent;
              })
        | inr short ↦ rw (other, asks, short) tt
      ]
    ]
  ]

  attend-ReplySpeaks :
      (asked : Option (Option Bytes)) (s : Link) → ReplySpeaks n s (attend env asked s)
  unfolding attend
  attend-ReplySpeaks none s = Speaks-refl n s
  attend-ReplySpeaks (some none) s = tt
  attend-ReplySpeaks (some (some line)) s = obey-ReplySpeaks (lower_case line) s

  time_out-WaitSpeaks : (s : Link) → WaitSpeaks n s (time_out env s)
  unfolding time_out
  time_out-WaitSpeaks s = elim (Bool-cases (send env (network_int (negsuc 2)) s).0) [
    | inl sent ↦ rw sent (record {
      words = network_int (negsuc 2) ∷ [];
      transcript = no_frame [] silence;
      sent = send_sent env (network_int (negsuc 2)) s sent;
    })
    | inr short ↦ rw short tt
  ]

  look_at-WaitSpeaks :
      (next number : ℕ) (rest : Link → Wait × Link) (s : Link) (x : Reply × Link)
      → ((t : Link) → WaitSpeaks n t (rest t))
      → ReplySpeaks n s x
      → WaitSpeaks n s (look_at env next number rest x)
  unfolding look_at
  look_at-WaitSpeaks next number rest s (stop, t) k h = h
  look_at-WaitSpeaks next number rest s (lost, t) k h = tt
  look_at-WaitSpeaks next number rest s (go_on, t) k h = elim (Bool-cases (leb next number)) [
    | inl come ↦ rw come h
    | inr missing ↦ rw missing (WaitSpeaks-trans n s t (rest t) h (k t))
  ]

  await-WaitSpeaks :
      (tries : ℕ) (glances : ℕ → Glance) (next : ℕ) (s : Link)
      → WaitSpeaks n s (await env tries glances next s)
  unfolding await
  await-WaitSpeaks zero glances next s =
      look_at-WaitSpeaks next (glances 0).number (time_out env) s _ time_out-WaitSpeaks
        (attend-ReplySpeaks (glances 0).asked s)
  await-WaitSpeaks (suc tries) glances next s =
      look_at-WaitSpeaks next (glances 0).number (await env tries (λ i. glances (suc i)) next) s _
        (await-WaitSpeaks tries (λ i. glances (suc i)) next)
        (attend-ReplySpeaks (glances 0).asked s)

send_frame_status :
    (env : Env) (announced : ℤ) (number : Bytes) (later : ℕ → Moment) (sets : List Section)
    (s : Link)
    → ((send_frame env announced number later sets s).0 ≡ pos 0)
      ⊎ ((send_frame env announced number later sets s).0 ≡ negsuc 0)
unfolding send_frame
send_frame_status env announced number later sets s = ground arith

module _ (env : Env) (frame_ptr next_frame : ℕ → ℕ) (sel : Selection) where
  -- A status and what was sent when it is 0.
  RoundSpeaks : Link → ℤ × Link → Type 0
  RoundSpeaks s (pos k, t) = Speaks sel.nbytes s t
  RoundSpeaks s (negsuc k, t) = Unit

  after_wait-StandingSpeaks :
      (rest : ℕ → Link → Standing × Link) (s : Link) (w : Wait × Link)
      → ((number : ℕ) (t : Link) → StandingSpeaks sel.nbytes t (rest number t))
      → WaitSpeaks sel.nbytes s w
      → StandingSpeaks sel.nbytes s (after_wait env frame_ptr next_frame sel rest w)
  unfolding after_wait
  after_wait-StandingSpeaks rest s (arrived number, t) k h =
      StandingSpeaks-trans sel.nbytes s t (rest number t) h (k number t)
  after_wait-StandingSpeaks rest s (over, t) k h = h
  after_wait-StandingSpeaks rest s (broken, t) k h = tt

  after_send-StandingSpeaks :
      (rest : Link → Standing × Link) (s : Link) (x : ℤ × Link)
      → ((t : Link) → StandingSpeaks sel.nbytes t (rest t))
      → RoundSpeaks s x
      → StandingSpeaks sel.nbytes s (after_send env frame_ptr next_frame sel rest x)
  unfolding after_send RoundSpeaks
  after_send-StandingSpeaks rest s (pos i, t) k h =
      StandingSpeaks-trans sel.nbytes s t (rest t) h (k t)
  after_send-StandingSpeaks rest s (negsuc i, t) k h = tt

  by_status :
      (x : ℤ × Link) (s : Link)
      → (x.0 ≡ pos 0) ⊎ (x.0 ≡ negsuc 0)
      → (x.0 ≡ pos 0 → Speaks sel.nbytes s x.1)
      → RoundSpeaks s x
  unfolding RoundSpeaks
  by_status (pos zero, t) s e k = k refl
  by_status (pos (suc i), t) s e k = absurd (ground (arith, e))
  by_status (negsuc i, t) s e k = tt

  send_round-RoundSpeaks :
      (r : Round) (place : ℕ) (s : Link)
      → sel.nbytes ≡ total_of sel.sets
      → RoundSpeaks s (send_round env frame_ptr next_frame sel r place s)
  unfolding send_round
  send_round-RoundSpeaks r place s announced =
      let m = moment env frame_ptr next_frame sel r place in
      let number = frame_number (m 0) in
      let later : ℕ → Moment = λ i. m (suc i) in
      by_status _ s (send_frame_status env (pos sel.nbytes) number later sel.sets s) λ e. record {
        words = network_int (pos sel.nbytes) ∷ number ∷ (payload later sel.sets ++ []);
        transcript =
            frame number (payload later sel.sets) []
              (total_length-payload later sel.sets ∙ sym announced) silence;
        sent =
            rw (append-nil (payload later sel.sets))
              (send_frame_sent env (pos sel.nbytes) number later sel.sets s e);
      }

  pub stream_rounds-StandingSpeaks :
      (rounds : List Round) (place number : ℕ) (s : Link)
      → sel.nbytes ≡ total_of sel.sets
      → StandingSpeaks sel.nbytes s
          (stream_rounds env frame_ptr next_frame sel rounds place number s)
  unfolding stream_rounds
  stream_rounds-StandingSpeaks [] place number s announced = Speaks-refl sel.nbytes s
  stream_rounds-StandingSpeaks (r ∷ rs) place number s announced =
      after_send-StandingSpeaks _ s _
        (λ t.
          after_wait-StandingSpeaks _ t _
            (λ n u. stream_rounds-StandingSpeaks rs (next_frame place) n u announced)
            (await-WaitSpeaks env sel.nbytes number_tries r.glances (number + 1) t))
        (send_round-RoundSpeaks r place s announced)
