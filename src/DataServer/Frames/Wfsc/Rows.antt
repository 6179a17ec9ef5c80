-- ===== src/DataServer/Frames/Wfsc/Rows.antt =====
-- What the loop over the rows of an image stores.
use mmtao_old.DataServer.Frames.Wfsc.{Geometry, save_bytes, read_row, read_rows}
use mmtao_old.DataServer.Frames.Receive.{Receiver, store}
use mmtao_old.DataServer.Frames.Receive.Laws.{read_part-append, store-append, drop-append}
use mmtao_old.Base.{
  ℕ, zero, suc, ◌+◌, ◌≡◌, List, [], ◌∷◌, ◌++◌, length, length-append, refl, sym, arith, ◌∙◌,
  append_assoc,
}
use mmtao_old.Base.Text.{Bytes}

-- A row as it is sent: the pixels between two edges.
pub record ImageRow : Type 0 where
  pub left : Bytes
  pub middle : Bytes
  pub right : Bytes

abbrev pub HasWidth : Geometry → ImageRow → Type 0
HasWidth g o =
    (length o.left ≡ g.edge_bytes)
    × (length o.middle ≡ save_bytes g)
    × (length o.right ≡ g.edge_bytes)

abbrev pub HaveWidth : Geometry → List ImageRow → Type 0
HaveWidth g [] = Unit
HaveWidth g (o ∷ os) = HasWidth g o × HaveWidth g os

unfoldable pub sent_rows : List ImageRow → Bytes
sent_rows [] = []
sent_rows (o ∷ os) = o.left ++ (o.middle ++ (o.right ++ sent_rows os))

unfoldable pub pixels : List ImageRow → Bytes
pixels [] = []
pixels (o ∷ os) = o.middle ++ pixels os

abbrev pub stored : Receiver → Bytes → Bytes → Receiver
stored r bytes rest = record r {
  memory = store r.memory r.frames.data_ptr bytes;
  frames = record r.frames { data_ptr = r.frames.data_ptr + length bytes };
  input = rest;
}

read_row-stored :
    (g : Geometry) (o : ImageRow) (rest : Bytes) (r : Receiver)
    → r.input ≡ o.left ++ (o.middle ++ (o.right ++ rest))
    → HasWidth g o
    → read_row g r ≡ stored r o.middle rest
unfolding read_row
read_row-stored g o rest r e (l, m, n) =
    rw
      (
        e,
        drop-append o.left (o.middle ++ (o.right ++ rest)) g.edge_bytes l,
        read_part-append (save_bytes g) o.middle (o.right ++ rest)
            (record r { input = o.middle ++ (o.right ++ rest) }) refl m,
        drop-append o.right rest g.edge_bytes n,
        m,
      )
      refl

stored-append :
    (r : Receiver) (xs ys rest more : Bytes)
    → stored (stored r xs rest) ys more ≡ stored r (xs ++ ys) more
stored-append r xs ys rest more = λ i. record r {
  memory = sym (store-append r.memory r.frames.data_ptr xs ys) i;
  frames = record r.frames { data_ptr = places i };
  input = more;
}
  where
    places : r.frames.data_ptr + length xs + length ys ≡ r.frames.data_ptr + length (xs ++ ys)
    places = let long = length-append xs ys in omega arith

pub read_rows-stored :
    (g : Geometry) (k : ℕ) (grid : List ImageRow) (rest : Bytes) (r : Receiver)
    → r.input ≡ sent_rows grid ++ rest
    → HaveWidth g grid
    → length grid ≡ k
    → read_rows k g r ≡ stored r (pixels grid) rest
unfolding read_rows sent_rows pixels store
read_rows-stored g zero [] rest r e h n =
    let place : r.frames.data_ptr ≡ r.frames.data_ptr + 0 = omega arith in
    λ i. record r { frames = record r.frames { data_ptr = place i }; input = e i }
read_rows-stored g zero (o ∷ os) rest r e h n = absurd (omega arith)
read_rows-stored g (suc k) [] rest r e h n = absurd (omega arith)
read_rows-stored g (suc k) (o ∷ os) rest r e (h, hs) n =
    let again : r.input ≡ o.left ++ (o.middle ++ (o.right ++ (sent_rows os ++ rest))) =
      e ∙ simp append_assoc in
    rw (read_row-stored g o (sent_rows os ++ rest) r again h) (
      read_rows-stored g k os rest (stored r o.middle (sent_rows os ++ rest)) refl hs (omega arith)
      ∙ stored-append r o.middle (pixels os) (sent_rows os ++ rest) rest)
