-- ===== src/DataServer/Info/Reports/Laws.antt =====
-- What Info_SendAll has sent when it returns 0.
use mmtao_old.Base.{
  ℕ, ◌≡◌, refl, ap, ◌∙◌, Bool, true, false, Option, none, some, List, [], ◌∷◌, ◌++◌, if◌then◌else◌,
  length, ltb, ◌==◌, arith, inl, inr, Bool-cases, append_assoc,
}
use mmtao_old.Base.Text.{Bytes, print_int}
use mmtao_old.Base.Int.{ℤ, pos, negsuc}
use mmtao_old.Topbox.Link.{Env, Float, Link}
use mmtao_old.DataServer.Info.Parameters.{InfoEntry}
use mmtao_old.DataServer.Info.Reports.{
  Cells, entry_line, put_line, put_end, send_entries, send_all, end_line,
}
use mmtao_old.DataServer.Pcr.Session.{line_length}
use mmtao_old.DataServer.Pcr.Vectors.{write_request}
use mmtao_old.DataServer.Frames.Single.{send}
use mmtao_old.DataServer.Frames.Single.Laws.{send_sent}

-- The line of a parameter, by its type: `name value`, and a line feed. A parameter of a type that is
-- none of i, I, f, F and s has the line that was there before.
abbrev pub StandsFor : Env → Cells → ℕ → Bytes → InfoEntry → Bytes → Type 0
StandsFor env cells calls reply e line = elim e.type [
  | [] ↦ line ≡ reply
  | c ∷ _ ↦
      let is = λ (value : Bytes). line ≡ e.name ++ 32 ∷ (value ++ 10 ∷ []) in
      let printed = λ (x : Float). env.floats.print_fixed 6 (env.floats.double_of_float x) in
      (c ≡ 105 → is (print_int e.i_value))
      × (c ≡ 73 → is (print_int (cells.int_at calls e.i_cell)))
      × (c ≡ 102 → is (printed e.f_value))
      × (c ≡ 70 → is (printed (cells.float_at calls e.f_cell)))
      × (c ≡ 115 → is e.s_value)
      × (¬ (c ≡ 105) → ¬ (c ≡ 73) → ¬ (c ≡ 102) → ¬ (c ≡ 70) → ¬ (c ≡ 115) → line ≡ reply)
]

branches :
    (c : ℕ) (i i_cell f f_cell s other : Bytes)
    → let line =
        if c == 105
        then i
        else if c == 73
        then i_cell
        else if c == 102
        then f
        else if c == 70
        then f_cell
        else if c == 115
        then s
        else other in
      (c ≡ 105 → line ≡ i)
      × (c ≡ 73 → line ≡ i_cell)
      × (c ≡ 102 → line ≡ f)
      × (c ≡ 70 → line ≡ f_cell)
      × (c ≡ 115 → line ≡ s)
      × (¬ (c ≡ 105) → ¬ (c ≡ 73) → ¬ (c ≡ 102) → ¬ (c ≡ 70) → ¬ (c ≡ 115) → line ≡ other)
branches c i i_cell f f_cell s other = ground arith

-- The lines of the parameters, in their order; each with the value that the parameter, or the cell
-- that it points at, had after some number of calls.
abbrev pub Reports : Env → Cells → Bytes → List InfoEntry → List Bytes → Type 0
Reports env cells reply [] [] = Unit {0}
Reports env cells reply [] (_ ∷ _) = ⊥
Reports env cells reply (e ∷ es) [] = ⊥
Reports env cells reply (e ∷ es) (line ∷ lines) =
    ((calls : ℕ) × (StandsFor env cells calls reply e line)) × Reports env cells line es lines

-- If 0 was returned, these lines and the end were sent.
abbrev pub HasSent : Env → Cells → Bytes → List InfoEntry → List Bytes → Option (ℤ × Link) → Type 0
HasSent env cells reply es before none = Unit {0}
HasSent env cells reply es before (some (negsuc _, t)) = Unit {0}
HasSent env cells reply es before (some (pos _, t)) =
    (lines : List Bytes) × Reports env cells reply es lines
    × (t.sent ≡ before ++ (lines ++ end_line ∷ []))

module _ (env : Env) (cells : Cells) where
  entry_line-StandsFor :
      (calls : ℕ) (reply : Bytes) (e : InfoEntry) (type : Bytes)
      → let typed = record e { type = type } in
        StandsFor env cells calls reply typed (entry_line env cells calls reply typed)
  unfolding entry_line
  entry_line-StandsFor calls reply e [] = refl
  entry_line-StandsFor calls reply e (c ∷ cs) = branches c _ _ _ _ _ reply

  -- A line that was taken in full stands behind those sent before.
  abbrev Puts : Bytes → List Bytes → Option (Bool × Link) → Type 0
  Puts line before none = Unit {0}
  Puts line before (some (b, t)) = b ≡ true → t.sent ≡ before ++ line ∷ []

  put_line-Puts : (line : Bytes) (s : Link) → Puts line s.sent (put_line env cells line s)
  unfolding put_line write_request send
  put_line-Puts line s = elim (Bool-cases (ltb (length line) line_length)) [
    | inl short ↦ rw short (send_sent env line s)
    | inr long ↦ rw long tt
  ]

  ends-HasSent :
      (reply : Bytes) (before : List Bytes) (o : Option (Bool × Link))
      → Puts end_line before o
      → HasSent env cells reply [] before
          (elim o [ none ↦ none | some (b, t) ↦ some (if b then pos 0 else negsuc 0, t) ])
  ends-HasSent reply before none h = tt
  ends-HasSent reply before (some (true, t)) h = ([], tt, h refl)
  ends-HasSent reply before (some (false, t)) h = tt

  goes-HasSent :
      (reply line : Bytes) (e : InfoEntry) (es : List InfoEntry) (calls : ℕ) (before : List Bytes)
      → StandsFor env cells calls reply e line
      → (t : Link) → t.sent ≡ before ++ line ∷ []
      → (o : Option (ℤ × Link)) → HasSent env cells line es t.sent o
      → HasSent env cells reply (e ∷ es) before o
  goes-HasSent reply line e es calls before l t sent none h = tt
  goes-HasSent reply line e es calls before l t sent (some (negsuc n, u)) h = tt
  goes-HasSent reply line e es calls before l t sent (some (pos n, u)) (lines, r, k) = (
    line ∷ lines,
    ((calls, l), r),
    k
        ∙ ap (λ ls. ls ++ (lines ++ end_line ∷ [])) sent
        ∙ append_assoc before (line ∷ []) (lines ++ end_line ∷ []),
  )

  put-HasSent :
      (reply line : Bytes) (e : InfoEntry) (es : List InfoEntry) (calls : ℕ) (before : List Bytes)
      → StandsFor env cells calls reply e line
      → ((t : Link) → HasSent env cells line es t.sent (send_entries env cells line es t))
      → (o : Option (Bool × Link)) → Puts line before o
      → HasSent env cells reply (e ∷ es) before (elim o [
        | none ↦ none
        | some (b, t) ↦ (if b then send_entries env cells line es else λ s. some (negsuc 0, s)) t
      ])
  put-HasSent reply line e es calls before l k none h = tt
  put-HasSent reply line e es calls before l k (some (true, t)) h =
      goes-HasSent reply line e es calls before l t (h refl) _ (k t)
  put-HasSent reply line e es calls before l k (some (false, t)) h = tt

  send_entries-HasSent :
      (reply : Bytes) (es : List InfoEntry) (s : Link)
      → HasSent env cells reply es s.sent (send_entries env cells reply es s)
  unfolding send_entries put_end
  send_entries-HasSent reply [] s = ends-HasSent reply s.sent _ (put_line-Puts end_line s)
  send_entries-HasSent reply (e ∷ es) s =
      let line = entry_line env cells s.calls reply e in
      put-HasSent reply line e es s.calls s.sent (entry_line-StandsFor s.calls reply e e.type)
        (send_entries-HasSent line es) (put_line env cells line s) (put_line-Puts line s)

  -- If Info_SendAll returns 0, it sent one line for each parameter of the list, in its order, and
  -- then the line that ends them. The line has the name and the value of the parameter, which for one
  -- that points at another thread's variable is the value that this had after some number of calls;
  -- for a type that the code does not know, the line before it is sent again.
  pub send_all-HasSent :
      (list : List InfoEntry) (s : Link)
      → HasSent env cells (env.stale_bytes s.calls) list s.sent (send_all env cells list s)
  unfolding send_all
  send_all-HasSent list s = send_entries-HasSent (env.stale_bytes s.calls) list s
