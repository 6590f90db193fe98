-- ===== src/Fifo/Rows.antt =====
-- What `print_graph` of src/data_fifo.c reads.
use native.Mathlib.Decide.{ℕ_discrete}
use uart.Base.{
  ℕ, zero, suc, ◌+◌, ◌*◌, ◌%◌, ◌<◌, ◌≤◌, ◌≡◌, ◌≢◌, ◌⊎◌, inl, inr, refl, sym, ap, ◌∙◌, Option-cases,
  none, some, List, [], ◌∷◌, ◌++◌, arith, get_elem?, get_elem?-get_or, length, take, drop,
  length-append, length-take, length-drop, append_assoc, take-append-drop, ap₂,
}
use native.Mathlib.Decide.{dec_lt}
use uart.Fifo.{Fifo}
use uart.Fifo.Inv.{IsValid}
use uart.Fifo.Graph.{horizon, row_cells, Row, row, print_rows, rows_for, print_graph}

get_elem?-behind : (pre rest : List ℕ) (x : ℕ) → get_elem? (pre ++ x ∷ rest) (length pre) ≡ some x
get_elem?-behind [] rest x = refl
get_elem?-behind (_ ∷ pre) rest x = get_elem?-behind pre rest x

get_elem?-over : (xs : List ℕ) (i : ℕ) → length xs ≤ i → get_elem? xs i ≡ none
get_elem?-over [] i h = refl
get_elem?-over (x ∷ xs) zero h = absurd (omega arith)
get_elem?-over (x ∷ xs) (suc i) h = get_elem?-over xs i (omega arith)

row_cells-mid :
    (pre mid post : List ℕ) → row_cells (pre ++ (mid ++ post)) (length mid) (length pre) ≡ some mid
unfolding row_cells
row_cells-mid pre [] post = refl
row_cells-mid pre (c ∷ mid) post =
    let others = row_cells-mid (pre ++ c ∷ []) mid post in
    let next : row_cells (pre ++ (c ∷ mid ++ post)) (length mid) (length pre + 1) ≡ some mid =
      rw (sym (length-append pre (c ∷ [])))
        (rw (sym (append_assoc pre (c ∷ []) (mid ++ post))) others) in
    rw (get_elem?-behind pre (mid ++ post) c, next)

row_cells-over :
    (xs : List ℕ) (k i : ℕ) → i ≤ length xs → length xs < i + k → row_cells xs k i ≡ none
unfolding row_cells
row_cells-over xs zero i h o = absurd (omega (arith, h, o))
row_cells-over xs (suc k) i h o = elim (dec_lt i (length xs)) [
  | yes inside ↦
      rw (get_elem?-get_or xs i 0 inside, row_cells-over xs k (i + 1) (omega arith) (omega arith))
  | no outside ↦ rw (get_elem?-over xs i (omega arith))
]

abbrev pub all_cells : List Row → List ℕ
all_cells [] = []
all_cells (r ∷ rows) = r.cells ++ all_cells rows

-- The rows show `rest`, which is what the buffer has from `i` on.
print_rows-exact :
    (k : ℕ) (f : Fifo) (pre rest : List ℕ)
    → f.buffer ≡ pre ++ rest
    → length rest ≡ horizon * k
    → (rows : List Row) × (print_rows k f (length pre) ≡ some rows)
      × (all_cells rows ≡ rest)
      × (length rows ≡ k)
unfolding print_rows
print_rows-exact zero f pre [] e h = ([], refl, refl, refl)
print_rows-exact zero f pre (_ ∷ rest) e h = absurd (omega arith)
print_rows-exact (suc k) f pre rest e h =
    let cells = take horizon rest in
    let left = drop horizon rest in
    let size : length cells ≡ horizon = omega (arith, length-take horizon rest, h) in
    let whole = e ∙ ap (λ r. pre ++ r) (sym (take-append-drop horizon rest)) in
    let read : row_cells f.buffer horizon (length pre) ≡ some cells =
      ap₂ (λ b n. row_cells b n (length pre)) whole (sym size) ∙ row_cells-mid pre cells left in
    let (rows, shown, all, count) =
      print_rows-exact k f (pre ++ cells) left (whole ∙ sym (append_assoc pre cells left))
        (omega (arith, length-drop horizon rest, h)) in
    let at : length (pre ++ cells) ≡ length pre + horizon =
      length-append pre cells ∙ ap (λ n. length pre + n) size in
    (
      row f (length pre) cells ∷ rows,
      rw (read, sym at, shown),
      ap (λ r. cells ++ r) all ∙ take-append-drop horizon rest,
      ap suc count,
    )

print_rows-over :
    (k : ℕ) (f : Fifo) (i : ℕ)
    → i ≤ length f.buffer
    → length f.buffer < i + horizon * k
    → print_rows k f i ≡ none
unfolding print_rows
print_rows-over zero f i h o = absurd (omega (arith, h, o))
print_rows-over (suc k) f i h o = elim (dec_lt (length f.buffer) (i + horizon)) [
  | yes last ↦ rw (row_cells-over f.buffer horizon i h last)
  | no more ↦ elim (Option-cases (row_cells f.buffer horizon i)) [
    | inl e ↦ rw e
    | inr (cells, e) ↦ rw (e, print_rows-over k f (i + horizon) (omega arith) (omega arith))
  ]
]

-- A valid queue is drawn exactly where its size is a multiple of 64: then the rows show the
-- buffer's bytes, all of them and in order, 64 in a row. For any other size bytes behind the buffer
-- are read.
pub print_graph-rows :
    (f : Fifo)
    → IsValid f
    → ((f.buf_size % horizon ≡ 0)
        × ((rows : List Row) × (print_graph f ≡ some rows)
            × (all_cells rows ≡ f.buffer)
            × (length rows * horizon ≡ f.buf_size)))
      ⊎ ((f.buf_size % horizon ≢ 0) × (print_graph f ≡ none))
unfolding print_graph
print_graph-rows f v = elim (ℕ_discrete (f.buf_size % horizon) 0) [
  | yes whole ↦
      let (rows, shown, all, count) =
        print_rows-exact (rows_for f.buf_size) f [] f.buffer refl (omega (arith, v.sized, whole)) in
      inl (whole, (rows, shown, all, omega (arith, count, whole)))
  | no part ↦
      inr (
        part,
        print_rows-over (rows_for f.buf_size) f 0 (omega arith) (omega (arith, v.sized, part)),
      )
]
