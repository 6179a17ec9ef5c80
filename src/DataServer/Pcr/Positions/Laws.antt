-- ===== src/DataServer/Pcr/Positions/Laws.antt =====
-- Where the parameters are found that follow the reconstructor.
-- The positions lie in the list, each at the parameter of its name.
use mathlib.Core.Path.{subst}
use mmtao_old.Base.{
  refl, ℕ, ◌<◌, ◌≡◌, inl, inr, Option, some, List, [], ◌∷◌, arith, Bool-cases, Option-cases, length,
  none,
}
use mmtao_old.Base.Text.{Bytes, codes, has_prefix}
use mmtao_old.DataServer.Info.Parameters.{find_parameter, InfoEntry}
use mmtao_old.DataServer.Pcr.Positions.{then_find, find_positions, Positions, String}

pub record IsListed (p : Positions) (n : ℕ) : Type 0 where
  pub static : p.static < n
  pub initialized : p.initialized < n
  pub wfsc_running : p.wfsc_running < n
  pub size : p.size < n
  pub source : p.source < n
  pub bias : p.bias < n
  pub frequency : p.frequency < n
  pub period : p.period < n
  pub background_static : p.background_static < n
  pub background_dynamic : p.background_dynamic < n
  pub gain_change : p.gain_change < n
  pub loop_running : p.loop_running < n
  pub gain : p.gain < n
  pub save_data : p.save_data < n
  pub recon_name : p.recon_name < n

find_parameter-lt :
    (list : List InfoEntry) (request : Bytes) (i : ℕ)
    → find_parameter list request ≡ some i
    → i < length list
unfolding find_parameter
find_parameter-lt [] request i h = absurd (ground arith)
find_parameter-lt (e ∷ es) request i h = elim (Bool-cases (has_prefix request e.name)) [
  | inl f ↦ ground (arith, f, h)
  | inr f ↦ elim (Option-cases (find_parameter es request)) [
    | inl g ↦ absurd (ground (arith, f, g, h))
    | inr (k, g) ↦ ground (arith, f, g, h, find_parameter-lt es request k g)
  ]
]

-- What comes of a search: nothing, or something that holds if the position lies in the list.
abbrev Has : (Positions → Type 0) → Option Positions → Type 0
Has Q none = Unit {0}
Has Q (some p) = Q p

then-Has :
    (o : Option ℕ) (f : ℕ → Option Positions) (Q : Positions → Type 0)
    → ((i : ℕ) → o ≡ some i → Has Q (f i))
    → Has Q (elim o [ none ↦ none | some i ↦ f i ])
then-Has none f Q k = tt
then-Has (some i) f Q k = k i refl

then_find-Has :
    (list : List InfoEntry) (parameter : String) (f : ℕ → Option Positions) (Q : Positions → Type 0)
    → ((i : ℕ) → i < length list → Has Q (f i))
    → Has Q (then_find list parameter f)
then_find-Has list parameter f Q k =
    then-Has (find_parameter list (codes parameter)) f Q
      λ i e. k i (find_parameter-lt list (codes parameter) i e)

find_positions-Has :
    (list : List InfoEntry) → Has (λ p. IsListed p (length list)) (find_positions list)
unfolding find_positions
find_positions-Has list =
    let step : (parameter : String) (f : ℕ → Option Positions)
        → ((i : ℕ) → i < length list → Has (λ p. IsListed p (length list)) (f i))
        → Has (λ p. IsListed p (length list)) (then_find list parameter f) =
      λ parameter f. then_find-Has list parameter f (λ p. IsListed p (length list)) in
    step "Static_Astig_45" _ λ i0 b0. step "WFSC_Initialized" _ λ i1 b1.
      step "WFSC_Running" _ λ i2 b2. step "WFSC_Size" _ λ i3 b3. step "WFSC_Source" _ λ i4 b4.
        step "WFSC_Bias_0" _ λ i5 b5. step "WFSC_Frequency" _ λ i6 b6. step "WFSC_Period" _ λ i7 b7.
          step "Background_Static" _ λ i8 b8. step "Background_Dynamic" _ λ i9 b9.
            step "Seeing_Gain_Change" _ λ i10 b10. step "Loop_Running" _ λ i11 b11.
              step "Loop_Gain" _ λ i12 b12. step "Loop_Save_Data" _ λ i13 b13.
                step "Recon_Name" _ λ i14 b14. record {
                  static = b0;
                  initialized = b1;
                  wfsc_running = b2;
                  size = b3;
                  source = b4;
                  bias = b5;
                  frequency = b6;
                  period = b7;
                  background_static = b8;
                  background_dynamic = b9;
                  gain_change = b10;
                  loop_running = b11;
                  gain = b12;
                  save_data = b13;
                  recon_name = b14;
                }

pub find_positions-IsListed :
    (list : List InfoEntry) (p : Positions)
    → find_positions list ≡ some p
    → IsListed p (length list)
find_positions-IsListed list p h =
    subst (Has (λ q. IsListed q (length list))) h (find_positions-Has list)
