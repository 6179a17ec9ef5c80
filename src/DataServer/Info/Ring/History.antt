-- ===== src/DataServer/Info/Ring/History.antt =====
-- The circular arrays keep the last ten values, the oldest first.
use mmtao_old.Base.{◌<◌, ◌≡◌, List, [], ◌∷◌, ◌++◌, length, take, drop}
use mmtao_old.DataServer.Info.Ring.{add_sample, Sample, InfoArray}

-- The values come one after another.
pub add_samples : List Sample → InfoArray → InfoArray
add_samples [] a = a
add_samples (x ∷ xs) a = add_samples xs (add_sample x a)

-- Seen from its write position round, the array is what is left of the old slots and the history.
record IsRotated (init hist : List Sample) (a : InfoArray) : Type 0 where
  size : a.array_size ≡ 10
  width : length a.slots ≡ 10
  inside : a.position < 10
  total : a.total_number ≡ length hist
  phase : length hist < 10 → a.position ≡ length hist
  wraps : length hist ≡ 10 → a.position ≡ 0
  view : drop a.position a.slots ++ take a.position a.slots ≡ drop (length hist) (init ++ hist)
