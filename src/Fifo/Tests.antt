-- ===== src/Fifo/Tests.antt =====
-- The byte queue on concrete inputs.
use uart.Base.{
  ◌≡◌, refl, true, some, List, [], ◌∷◌, ◌++◌, arith, pos, negsuc, none, false, ◌%◌, ◌*◌, ◌≢◌, ◌⊎◌,
  length,
}
use uart.Fifo.{Fifo, put_byte, pop_byte, init_data_fifo, fifo_put, fifo_pop, is_fifo_full}
use uart.Fifo.Inv.{IsValid}
use uart.Fifo.Refine.{contents}
use uart.Fifo.Graph.{marks, Row, buffer_block, fifo_block, fifo_free, print_graph}
use uart.Fifo.Rows.{all_cells, print_graph-rows}
use uart.Fifo.Session.{
  Op, put, pop, Reply, sent, got, call, run, spec_run, delivered, accepted, run_refines, run_fifo,
}

-- Three bytes of room, with 8 and 9 stored round the end of the buffer.
abbrev wrapped : Fifo
wrapped = record { buffer = 9 ∷ 7 ∷ 8 ∷ []; buf_size = 3; head = 1; tail = 2; data_len = 2 }

abbrev drained : Fifo
drained = record { buffer = 9 ∷ 1 ∷ 8 ∷ []; buf_size = 3; head = 2; tail = 2; data_len = 0 }

abbrev fresh : Fifo
fresh = record { buffer = 0 ∷ 0 ∷ []; buf_size = 2; head = 0; tail = 0; data_len = 0 }

abbrev script : List Op
script = put (1 ∷ 2 ∷ []) ∷ pop 2 ∷ pop 5 ∷ []

abbrev replies : List Reply
replies = sent 1 ∷ got (8 ∷ 9 ∷ []) ∷ got (1 ∷ []) ∷ []

wrapped-IsValid : IsValid wrapped
wrapped-IsValid = omega arith

run_test : run wrapped script ≡ some (replies, drained)
unfolding run call fifo_put fifo_pop put_byte pop_byte
run_test = refl

alloc_test : (init_data_fifo true false 4).1 ≡ none
unfolding init_data_fifo
alloc_test = refl

full_test : (is_fifo_full none ≡ negsuc 0) × (is_fifo_full (some wrapped) ≡ pos 0)
unfolding is_fifo_full
full_test = (refl, refl)

run_refines_example :
    (f' : Fifo) × (run wrapped script ≡ some ((spec_run 3 (8 ∷ 9 ∷ []) script).0, f'))
    × (contents f' ≡ (spec_run 3 (8 ∷ 9 ∷ []) script).1)
    × IsValid f'
run_refines_example = run_refines script wrapped-IsValid

run_fifo_example : delivered replies ++ contents drained ≡ (8 ∷ 9 ∷ []) ++ accepted script replies
run_fifo_example = run_fifo script wrapped-IsValid run_test

row_test : marks b'|' 2 4 0 ≡ b' ' ∷ b' ' ∷ b'|' ∷ b' ' ∷ []
unfolding marks
row_test = refl

free_test : fifo_free (some wrapped) ≡ buffer_block ∷ fifo_block ∷ []
unfolding fifo_free
free_test = refl

print_graph-rows_example :
    ((3 % 64 ≡ 0)
      × ((rows : List Row) × (print_graph wrapped ≡ some rows)
          × (all_cells rows ≡ wrapped.buffer)
          × (length rows * 64 ≡ 3)))
    ⊎ ((3 % 64 ≢ 0) × (print_graph wrapped ≡ none))
print_graph-rows_example = print_graph-rows wrapped wrapped-IsValid
