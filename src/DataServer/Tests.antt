-- ===== src/DataServer/Tests.antt =====
-- The parameter server and the search for a frame on sample data.
use mmtao_old.Base.{ℕ, ◌≡◌, refl, some, List, [], ◌∷◌, map, replicate, arith, get_elem?}
use mmtao_old.Base.Text.{codes, has_prefix}
use mmtao_old.Base.Int.{pos}
use mmtao_old.DataServer.Info.Ring.{Sample, InfoArray}
use mmtao_old.DataServer.Info.Parameters.{InfoEntry, InfoState, Outside, set_value}
use mmtao_old.DataServer.Info.Table.{info_list}
use mmtao_old.DataServer.Pcr.FindSof.{find_sof, find_sof_accepts}

abbrev sample_of : ℕ → Sample
sample_of n = record { time = []; value = n }

abbrev full_array : InfoArray
full_array = record {
  array_size = 10;
  total_number = 3;
  position = 3;
  slots = replicate 10 (sample_of 0);
}

abbrev values : List Sample
values = map sample_of (1 ∷ 2 ∷ 3 ∷ 4 ∷ 5 ∷ 6 ∷ 7 ∷ 8 ∷ 9 ∷ 10 ∷ 11 ∷ 12 ∷ [])

-- A string parameter and an int.
abbrev home : InfoEntry
home = record {
  name = codes "MMTAO_Home";
  type = codes "s";
  i_value = pos 0;
  i_cell = 0;
  f_value = 0;
  f_cell = 0;
  s_value = [];
}

abbrev period : InfoEntry
period = record home { name = codes "Seeing_Value"; type = codes "f" }

abbrev sample_state : InfoState
sample_state = record { list = home ∷ period ∷ []; seeing = full_array; strehl = full_array }

abbrev outside : Outside
outside = record { parse_double = λ s. 7; time_string = []; stale_position = 1 }

set_value_at_home :
    set_value outside (codes "MMTAO_Home") (codes "/mmt") sample_state
    ≡ some (record sample_state { list = record home { s_value = codes "/mmt" } ∷ period ∷ [] })
unfolding set_value has_prefix
set_value_at_home = refl

recon_list_at_18 :
    get_elem? info_list 18
    ≡ some (record {
      name = codes "Recon_List";
      type = codes "s";
      i_value = pos 0;
      i_cell = 0;
      f_value = 0;
      f_cell = 0;
      s_value = [];
    })
unfolding info_list
recon_list_at_18 = refl

find_sof_accepts_example :
    find_sof (codes "xSSSabc") ≡ some (record { letters = codes "Sab"; last = 4; rest = codes "c" })
find_sof_accepts_example =
    find_sof_accepts (codes "x") 2 b'a' b'b' (codes "c") ((λ e. ground arith), tt)
      (λ e. ground arith)
