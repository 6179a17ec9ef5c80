-- ===== src/DataServer/Info/Ring.antt =====
-- The circular arrays of seeing and Strehl values: Info_Array, the code of Info_SetParameter that
-- adds a value, and Info_SeeingArray, which sends them.
pub mod History
mod Rotations
use Prim.Native.Nat.{ℕ}
use mmtao_old.Base.{
  ℕ, zero, suc, ◌+◌, ◌%◌, ◌^◌, ◌||◌, List, [], ◌∷◌, ◌++◌, map, leb, ◌==◌, if◌then◌else◌, set, take,
  drop,
}
use mmtao_old.Base.Text.{Bytes}
use mmtao_old.Base.Int.{ℤ, pos, negsuc}

-- SEEING_VALUES
abbrev pub seeing_values : ℕ
seeing_values = 10

-- The bit pattern of a C double.
abbrev pub Double : Type 0
Double = ℕ

-- A value with the time at which it came.
pub record Sample : Type 0 where
  pub time : Bytes
  pub value : Double

-- `total_number` is the bit pattern of an int.
pub record InfoArray : Type 0 where
  pub array_size : ℕ
  pub total_number : ℕ
  pub position : ℕ
  pub slots : List Sample

-- A value is stored at `position`, and both pointers are incremented; the array has room for
-- SEEING_VALUES.
unfoldable pub add_sample : Sample → InfoArray → InfoArray
add_sample x a =
    let position = a.position + 1 in
    record a {
      slots = set a.slots a.position x;
      position = if leb seeing_values position then 0 else position;
      total_number = (a.total_number + 1) % 2 ^ 32;
    }

-- "reset_seeing" and "reset_strehl".
unfoldable pub reset_array : InfoArray → InfoArray
reset_array a = record a { position = 0; total_number = 0 }

-- The samples that Info_SeeingArray sends, in its order. As an int, `total_number` is positive below 2 ^ 31.
unfoldable pub rows : InfoArray → List Sample
rows a =
    if a.total_number == 0 || leb (2 ^ 31) a.total_number
    then []
    else if leb a.total_number a.array_size
    then take a.total_number a.slots
    else drop a.position (take a.array_size a.slots) ++ take a.position a.slots

pub data Line : Type 0 where
  sample : Sample → Line
  end_of_file : Line

-- Lines are sent one by one until the socket fails to take one in full; `budget` is how many it takes.
unfoldable pub send_lines : ℕ → List Line → ℤ × List Line
send_lines budget [] = (pos 0, [])
send_lines zero (line ∷ lines) = (negsuc 0, [])
send_lines (suc budget) (line ∷ lines) =
    let (status, out) = send_lines budget lines in (status, line ∷ out)

-- Info_SeeingArray.
unfoldable pub seeing_array : ℕ → InfoArray → ℤ × List Line
unfolding rows send_lines
seeing_array budget a = send_lines budget (map sample (rows a) ++ end_of_file ∷ [])
