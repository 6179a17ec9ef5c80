-- ===== src/DataServer/Info/Service/Kept.antt =====
-- What a client of the parameter server can change.
use mmtao_old.Base.{
  ℕ, ◌≡◌, refl, ap, ◌∙◌, sym, Bool, true, false, Option, none, some, List, [], ◌∷◌, if◌then◌else◌,
  get_elem?, length, leb, inl, inr, Option-cases, Bool-cases, ◌⊎◌,
}
use mmtao_old.Base.Text.{Bytes, codes, has_prefix}
use mmtao_old.Base.Int.{ℤ, is_set}
use mmtao_old.Topbox.Link.{M, Env, Link, close_socket}
use mmtao_old.DataServer.Frames.Single.{lower_case}
use mmtao_old.DataServer.Info.Parameters.{
  InfoEntry, InfoState, Outside, set_parameter, string_trim, set_value,
}
use mmtao_old.DataServer.Info.Parameters.Laws.{MayBecome, set_value_frame}
use mmtao_old.DataServer.Info.Reports.{
  Cells, send_all, send_seeing, send_array, put_lines, info_help, seeing_positions,
}
use mmtao_old.DataServer.Info.Service.{
  InfoSession, I, ◌>>=◌, to_client, change, hang_up, InfoRequest, info_request, or_hang_up,
  store_value, read_value, set_from_client, debug_flag, info_perform, info_answer, info_pass,
  info_passes, info_process, debug, set, get, all, seeing, see_vals, strehl_vals, reset_seeing,
  reset_strehl, help, quit,
}
use mmtao_old.DataServer.Pcr.Session.{string_read}

abbrev pub with_text : Bytes → InfoEntry → InfoEntry
with_text value e = record e { s_value = value }

-- An entry after some requests: at most the text of a string parameter differs.
abbrev pub IsKept : InfoEntry → InfoEntry → Type 0
IsKept e f =
    (f ≡ e) ⊎ (has_prefix (codes "s") e.type ≡ true) × (value : Bytes) × (f ≡ with_text value e)

-- Each entry is kept at its place.
abbrev pub Kept : List InfoEntry → List InfoEntry → Type 0
Kept before after =
    (j : ℕ) (e : InfoEntry)
    → get_elem? before j ≡ some e
    → (f : InfoEntry) × (get_elem? after j ≡ some f) × IsKept e f

pub Kept-refl : (list : List InfoEntry) → Kept list list
Kept-refl list j e h = (e, h, inl refl)

IsKept-trans : (e f g : InfoEntry) → IsKept e f → IsKept f g → IsKept e g
IsKept-trans e f g (inl p) (inl q) = inl (q ∙ p)
IsKept-trans e f g (inl p) (inr (text, value, q)) =
    inr (ap (λ x. has_prefix (codes "s") x.type) (sym p) ∙ text, value, q ∙ ap (with_text value) p)
IsKept-trans e f g (inr (text, value, p)) (inl q) = inr (text, value, q ∙ p)
IsKept-trans e f g (inr (text, value, p)) (inr (_, again, q)) =
    inr (text, again, q ∙ ap (with_text again) p)

Kept-trans : (a b c : List InfoEntry) → Kept a b → Kept b c → Kept a c
Kept-trans a b c h k j e at_j =
    let (f, at_f, first) = h j e at_j in
    let (g, at_g, second) = k j f at_f in (g, at_g, IsKept-trans e f g first second)

MayBecome-IsKept :
    (list : List InfoEntry) (request value : Bytes) (j : ℕ) (e : InfoEntry) (o : Option InfoEntry)
    → MayBecome list request value j e o
    → (f : InfoEntry) × (o ≡ some f) × IsKept e f
MayBecome-IsKept list request value j e none h = absurd h
MayBecome-IsKept list request value j e (some f) (inl same) = (f, refl, inl same)
MayBecome-IsKept list request value j e (some f) (inr (_, text, same)) =
    (f, refl, inr (text, value, same))

-- If it returns, the parameters are kept.
abbrev pub Ensures : {A : Type 0} → List InfoEntry → Option (A × InfoSession) → Type 0
Ensures before none = Unit
Ensures before (some (_, t)) = Kept before t.info.list

record Keeps {A : Type 0} (m : I A) : Type 0 where
  at : (s : InfoSession) → Ensures s.info.list (m s)

Ensures-from :
    {A : Type 0} (before after : List InfoEntry) (o : Option (A × InfoSession))
    → Kept before after
    → Ensures after o
    → Ensures before o
Ensures-from before after none h k = tt
Ensures-from before after (some (a, t)) h k = Kept-trans before after t.info.list h k

Ensures-then :
    {A B : Type 0} (before : List InfoEntry) (o : Option (A × InfoSession)) (f : A → I B)
    → Ensures before o
    → ((a : A) → Keeps (f a))
    → Ensures before (elim o [ none ↦ none | some (a, t) ↦ f a t ])
Ensures-then before none f h k = tt
Ensures-then before (some (a, t)) f h k = Ensures-from before t.info.list (f a t) h ((k a).at t)

bind-Keeps :
    {A B : Type 0} (m : I A) (f : A → I B) → Keeps m → ((a : A) → Keeps (f a)) → Keeps (m >>= f)
bind-Keeps m f h k = record { at = λ s. Ensures-then s.info.list (m s) f (h.at s) k }

to_client-Keeps : {A : Type 0} (m : M A) → Keeps (to_client m)
to_client-Keeps {A} m = record { at = λ s. go s (m s.client) }
  where
    go :
        (s : InfoSession) (o : Option (A × Link))
        → Ensures s.info.list
            (elim o [ none ↦ none | some (a, t) ↦ some (a, record s { client = t }) ])
    go s none = tt
    go s (some (a, t)) = Kept-refl s.info.list

change-Keeps :
    (f : InfoSession → InfoSession)
    → ((s : InfoSession) → (f s).info.list ≡ s.info.list)
    → Keeps (change f)
change-Keeps f h = record { at = λ s. rw (h s) (Kept-refl s.info.list) }

if-Keeps : {A : Type 0} (b : Bool) (m n : I A) → Keeps m → Keeps n → Keeps (if b then m else n)
if-Keeps true m n h k = h
if-Keeps false m n h k = k

hang_up-Keeps : Keeps hang_up
hang_up-Keeps = change-Keeps (λ s. record s { running = false }) (λ s. refl)

nothing-Keeps : Keeps (change λ s. s)
nothing-Keeps = change-Keeps (λ s. s) (λ s. refl)

or_hang_up-Keeps : (status : ℤ) → Keeps (or_hang_up status)
or_hang_up-Keeps status = if-Keeps (is_set status) _ _ hang_up-Keeps nothing-Keeps

set_value-Kept :
    (outside : Outside) (request value : Bytes) (s t : InfoState)
    → set_value outside request value s ≡ some t
    → Kept s.list t.list
set_value-Kept outside request value s t e j x at_j =
    MayBecome-IsKept s.list request value j x (get_elem? t.list j)
      (set_value_frame outside request value s t j x e at_j)

store_value-Keeps :
    (outside : Outside) (name value : Option Bytes) → Keeps (store_value outside name value)
unfolding store_value set_parameter
store_value-Keeps outside none value = record { at = λ s. Kept-refl s.info.list }
store_value-Keeps outside (some name) none = record { at = λ s. Kept-refl s.info.list }
store_value-Keeps outside (some name) (some value) = record {
  at = λ s. elim (Option-cases (set_value outside (string_trim name) (string_trim value) s.info)) [
    | inl e ↦ rw e tt
    | inr (t, e) ↦ rw e (set_value-Kept outside (string_trim name) (string_trim value) s.info t e)
  ];
}

read_value-Keeps : (outside : Outside) (name : Option Bytes) → Keeps (read_value outside name)
unfolding read_value
read_value-Keeps outside none = store_value-Keeps outside none none
read_value-Keeps outside (some name) =
    bind-Keeps (to_client string_read) _ (to_client-Keeps string_read)
      (λ value. store_value-Keeps outside (some name) value)

set_from_client-Keeps : (outside : Outside) → Keeps (set_from_client outside)
unfolding set_from_client
set_from_client-Keeps outside =
    bind-Keeps (to_client string_read) (read_value outside) (to_client-Keeps string_read)
      (read_value-Keeps outside)

debug_flag-Keeps : (line : Option Bytes) → Keeps (debug_flag line)
unfolding debug_flag
debug_flag-Keeps none = hang_up-Keeps
debug_flag-Keeps (some line) = change-Keeps _ (λ s. refl)

module _ (env : Env) (cells : Cells) (places : List (Option ℕ)) where
  -- A branch whose lines depend on the parameters.
  at_once :
      (m : InfoSession → I (Unit {0})) → ((s : InfoSession) → Keeps (m s)) → Keeps (λ s. m s s)
  at_once m h = record { at = λ s. (h s).at s }

  answer-Keeps : (m : M ℤ) → Keeps (to_client m >>= or_hang_up)
  answer-Keeps m = bind-Keeps (to_client m) or_hang_up (to_client-Keeps m) or_hang_up-Keeps

  array-Keeps : (m : M ℤ) → Keeps (to_client m >>= λ _. change λ s. s)
  array-Keeps m = bind-Keeps (to_client m) _ (to_client-Keeps m) (λ _. nothing-Keeps)

  info_perform-Keeps :
      (outside : Outside) (r : InfoRequest) → Keeps (info_perform env cells places outside r)
  unfolding info_perform
  info_perform-Keeps outside debug =
      bind-Keeps (to_client string_read) debug_flag (to_client-Keeps string_read) debug_flag-Keeps
  info_perform-Keeps outside set =
      bind-Keeps (set_from_client outside) or_hang_up (set_from_client-Keeps outside)
        or_hang_up-Keeps
  info_perform-Keeps outside get = nothing-Keeps
  info_perform-Keeps outside all = at_once _ (λ s. answer-Keeps (send_all env cells s.info.list))
  info_perform-Keeps outside seeing =
      at_once _ (λ s. answer-Keeps (send_seeing env cells s.info.list places))
  info_perform-Keeps outside see_vals =
      at_once _ (λ s. array-Keeps (send_array env cells s.info.seeing))
  info_perform-Keeps outside strehl_vals =
      at_once _ (λ s. array-Keeps (send_array env cells s.info.strehl))
  info_perform-Keeps outside reset_seeing = change-Keeps _ (λ s. refl)
  info_perform-Keeps outside reset_strehl = change-Keeps _ (λ s. refl)
  info_perform-Keeps outside help = answer-Keeps (put_lines env cells info_help)
  info_perform-Keeps outside quit = hang_up-Keeps

  info_answer-Keeps :
      (outside : Outside) (line : Option Bytes) → Keeps (info_answer env cells places outside line)
  unfolding info_answer
  info_answer-Keeps outside none = hang_up-Keeps
  info_answer-Keeps outside (some line) =
      if-Keeps (leb (length line) 1) _ _ hang_up-Keeps
        (elim (info_request (lower_case line))
          as (λ o.
            Keeps {A = Unit {0}} (elim o [
              | none ↦ change λ s. s
              | some r ↦ info_perform env cells places outside r
            ])) [ none ↦ nothing-Keeps | some r ↦ info_perform-Keeps outside r ])

  info_pass-Keeps : (outside : Outside) → Keeps (info_pass env cells places outside)
  unfolding info_pass
  info_pass-Keeps outside =
      bind-Keeps (to_client string_read) (info_answer env cells places outside)
        (to_client-Keeps string_read) (info_answer-Keeps outside)

-- What other threads do before each pass keeps the parameters too.
abbrev pub OthersKeep : List (Outside × (InfoState → InfoState)) → Type 0
OthersKeep [] = Unit {0}
OthersKeep ((_, others) ∷ rest) = ((s : InfoState) → Kept s.list (others s).list) × OthersKeep rest

after_others :
    (others : InfoState → InfoState) (m : I (Unit {0}))
    → Keeps m
    → ((s : InfoState) → Kept s.list (others s).list)
    → (s : InfoSession) (b : Bool)
    → Ensures s.info.list (if b then m (record s { info = others s.info }) else some (tt, s))
after_others others m k h s true =
    Ensures-from s.info.list (others s.info).list _ (h s.info)
      (k.at (record s { info = others s.info }))
after_others others m k h s false = Kept-refl s.info.list

module _ (env : Env) (cells : Cells) (places : List (Option ℕ)) where
  info_passes-Keeps :
      (passes : List (Outside × (InfoState → InfoState)))
      → OthersKeep passes
      → Keeps (info_passes env cells places passes)
  unfolding info_passes
  info_passes-Keeps [] h = record { at = λ s. Kept-refl s.info.list }
  info_passes-Keeps ((outside, others) ∷ rest) (h, hs) =
      let pass =
        bind-Keeps (info_pass env cells places outside) (λ _. info_passes env cells places rest)
          (info_pass-Keeps env cells places outside) (λ _. info_passes-Keeps rest hs) in
      record { at = λ s. after_others others _ pass h s s.running }

-- Whatever a client asks of Info_Process, and whatever the kernel does, if it returns, without
-- having written or read outside its storage on the way, then every parameter is at its place with the same name, type and numbers, and has the same text too unless
-- it is a string. What other threads do to the parameters meanwhile is taken to keep them so.
pub info_process-Ensures :
    (env : Env) (cells : Cells) (passes : List (Outside × (InfoState → InfoState)))
    (s : InfoSession)
    → OthersKeep passes
    → Ensures s.info.list (info_process env cells passes s)
unfolding info_process
info_process-Ensures env cells passes s h =
    let places = seeing_positions s.info.list in
    ends (info_passes env cells places passes s)
      ((info_passes-Keeps env cells places passes h).at s)
  where
    ends :
        (o : Option (Unit {0} × InfoSession))
        → Ensures s.info.list o
        → Ensures s.info.list (elim o [
          | none ↦ none
          | some (_, t) ↦
              some (tt, if t.running then t else record t { client = close_socket t.client })
        ])
    ends none k = tt
    ends (some (_, t)) k = elim (Bool-cases t.running) [ inl up ↦ rw up k | inr down ↦ rw down k ]
