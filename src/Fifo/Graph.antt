-- ===== src/Fifo/Graph.antt =====
-- The drawing of the byte queue, `print_graph` of src/data_fifo.c, and `fifo_free`. A picture is its
-- rows; `none` is a read past the end of the buffer.
use uart.Base.{
  ℕ, zero, suc, ◌+◌, ◌-◌, ◌/◌, Option, none, some, List, [], ◌∷◌, get_elem?, ◌==◌, if◌then◌else◌,
  ◌>>=◌,
}
use uart.Fifo.{Fifo}

abbrev pub horizon : ℕ
horizon = 64

-- `cells` of a line from the count `i` on: the sign where the count is `at`, and blanks.
unfoldable pub marks : (sign at : ℕ) → (cells i : ℕ) → List ℕ
marks sign at zero i = []
marks sign at (suc k) i = (if i == at then sign else b' ') ∷ marks sign at k (i + 1)

unfoldable pub row_cells : (linedata : List ℕ) → (cells i : ℕ) → Option (List ℕ)
row_cells linedata zero i = some []
row_cells linedata (suc k) i = do
  c ← get_elem? linedata i
  cs ← row_cells linedata k (i + 1)
  some (c ∷ cs)

-- The lines of a row, less the two rules.
pub record Row : Type 0 where
  pub in_bars : List ℕ
  pub in_zeros : List ℕ
  pub cells : List ℕ
  pub out_bars : List ℕ
  pub out_zeros : List ℕ

abbrev pub row : Fifo → (i : ℕ) → (cells : List ℕ) → Row
row f i cells = record {
  in_bars = marks b'|' f.head horizon i;
  in_zeros = marks b'0' f.head horizon i;
  cells = cells;
  out_bars = marks b'|' f.tail horizon i;
  out_zeros = marks b'0' f.tail horizon i;
}

-- The loop from `i` on; each count is then `i`.
unfoldable pub print_rows : (rounds : ℕ) → Fifo → (i : ℕ) → Option (List Row)
print_rows zero f i = some []
print_rows (suc k) f i = do
  cells ← row_cells f.buffer horizon i
  rows ← print_rows k f (i + horizon)
  some (row f i cells ∷ rows)

-- The rounds of a loop that goes on while `i < len` and adds 64 to `i`.
abbrev pub rows_for : (len : ℕ) → ℕ
rows_for len = (len + (horizon - 1)) / horizon

unfoldable pub print_graph : Fifo → Option (List Row)
print_graph f = print_rows (rows_for f.buf_size) f 0

-- The calls of `free`: the buffer's, then the queue's; nothing for a null pointer.
pub data Block : Type 0 where
  buffer_block : Block
  fifo_block : Block

unfoldable pub fifo_free : Option Fifo → List Block
fifo_free none = []
fifo_free (some f) = buffer_block ∷ fifo_block ∷ []
