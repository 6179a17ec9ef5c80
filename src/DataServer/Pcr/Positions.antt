-- ===== src/DataServer/Pcr/Positions.antt =====
-- Where PCR_Process finds the parameters that follow the reconstructor.
-- The positions of the parameters that Info_FindParameter finds at the start.
pub mod Laws
use Prim.Native.Nat.{ℕ}
use mmtao_old.Base.{Option, none, some, List}
use mmtao_old.Base.Text.{codes}
use mmtao_old.DataServer.Info.Parameters.{find_parameter, InfoEntry}
use Prim.Native.String.{String}

pub record Positions : Type 0 where
  pub static : ℕ
  pub initialized : ℕ
  pub wfsc_running : ℕ
  pub size : ℕ
  pub source : ℕ
  pub bias : ℕ
  pub frequency : ℕ
  pub period : ℕ
  pub background_static : ℕ
  pub background_dynamic : ℕ
  pub gain_change : ℕ
  pub loop_running : ℕ
  pub gain : ℕ
  pub save_data : ℕ
  pub recon_name : ℕ

abbrev pub then_find : List InfoEntry → String → (ℕ → Option Positions) → Option Positions
then_find list parameter f = elim (find_parameter list (codes parameter)) [
  | none ↦ none
  | some i ↦ f i
]

-- `none` is a parameter that is missing, with which the loop over the requests is not entered.
unfoldable pub find_positions : List InfoEntry → Option Positions
find_positions list = then_find list "Static_Astig_45" λ static.
    then_find list "WFSC_Initialized" λ initialized. then_find list "WFSC_Running" λ wfsc_running.
      then_find list "WFSC_Size" λ size. then_find list "WFSC_Source" λ source.
        then_find list "WFSC_Bias_0" λ bias. then_find list "WFSC_Frequency" λ frequency.
          then_find list "WFSC_Period" λ period.
            then_find list "Background_Static" λ background_static.
              then_find list "Background_Dynamic" λ background_dynamic.
                then_find list "Seeing_Gain_Change" λ gain_change.
                  then_find list "Loop_Running" λ loop_running. then_find list "Loop_Gain" λ gain.
                    then_find list "Loop_Save_Data" λ save_data.
                      then_find list "Recon_Name" λ recon_name. some (record {
                        static = static;
                        initialized = initialized;
                        wfsc_running = wfsc_running;
                        size = size;
                        source = source;
                        bias = bias;
                        frequency = frequency;
                        period = period;
                        background_static = background_static;
                        background_dynamic = background_dynamic;
                        gain_change = gain_change;
                        loop_running = loop_running;
                        gain = gain;
                        save_data = save_data;
                        recon_name = recon_name;
                      })
