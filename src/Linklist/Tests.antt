-- ===== src/Linklist/Tests.antt =====
-- The message queue on a concrete heap.
use uart.Base.{take, ◌≡◌, true, none, [], ◌∷◌, arith}
use uart.Heap.{◌>>◌, null, node, Holds, fault}
use uart.Heap.Ends.{Ends}
use uart.Heap.Places.{SameOutside}
use uart.Linklist.{
  add_data_to_linklist, singlelinklist_insert_node, singlelinklist_pop_node, destory_singlelinklist,
  init_singlelinklist,
}
use uart.Linklist.Shape.{Cell, IsQueue, messages}
use uart.Linklist.Alloc.{init_singlelinklist-IsQueue}
use uart.Linklist.Destroy.{destroy_empty-leaks}
use uart.Linklist.Insert.{insert-appends}
use uart.Linklist.Pop.{IsDest, filled}
use uart.Linklist.Add.{copy_of, add_data-appends, add_then_pop}
use uart.Linklist.Clear.{destroy-Freed}
use uart.Heap.Freed.{Freed}
use uart.Linklist.Examples.{
  nothing, queued, reader, wide, start, empty, start-IsQueue, empty-IsQueue, reader-IsDest,
  spare-IsLoose, addresses, posted, posted-IsQueue, posted-IsDest, usb_inf, posted-inf, posted-buf,
  addresses-IsFresh,
}
use uart.Daemon.{pop_node}
use uart.Daemon.Refine.{Simulates, reader_of, pop_node-Simulates}
use uart.Linklist.Dequeue.{Popped, pop-Popped, pop-overflow}

insert-appends_example :
    Ends
      (λ _ g.
        IsQueue g 1 2 6 (queued ∷ reader wide ∷ [])
        × SameOutside (3 ∷ 1 ∷ 6 ∷ []) (start (reader wide)) g)
      (singlelinklist_insert_node 1 6 (start (reader wide)))
insert-appends_example =
    insert-appends (start (reader wide)) 1 2 3 (queued ∷ []) (reader wide) (start-IsQueue wide)
      spare-IsLoose (omega arith)

pop-Popped_example :
    Ends
      (λ _ g. Popped (start (reader wide)) g 1 2 3 queued [] (reader wide))
      (singlelinklist_pop_node 1 6 (start (reader wide)))
pop-Popped_example =
    pop-Popped (start (reader wide)) 1 2 3 queued [] (reader wide) (start-IsQueue wide)
      (reader-IsDest wide) (omega arith) (omega arith)

pop_node-Simulates_example :
    Simulates 1 2
      (pop_node (messages (queued ∷ [])) (reader_of (reader wide)))
      (singlelinklist_pop_node 1 6 (start (reader wide)))
pop_node-Simulates_example =
    pop_node-Simulates (start (reader wide)) 1 2 3 (queued ∷ []) (reader wide) (start-IsQueue wide)
      (reader-IsDest wide) (omega arith)

pop-overflow_example : singlelinklist_pop_node 1 6 (start (reader (0 ∷ []))) ≡ fault
pop-overflow_example =
    pop-overflow (start (reader (0 ∷ []))) 1 2 3 queued [] (reader (0 ∷ []))
      (start-IsQueue (0 ∷ [])) (reader-IsDest (0 ∷ [])) (omega arith)

sentinel_is_left :
    Ends
      (λ _ g. (g 1 ≡ none) × Holds g 2 (node (record { next = 2; inf = null })))
      (destory_singlelinklist 1 1 empty)
sentinel_is_left = destroy_empty-leaks empty 1 2 2 0 empty-IsQueue

init_singlelinklist-IsQueue_example :
    Ends
      (λ p g. (p ≡ 1) × IsQueue g 1 2 2 [] × SameOutside (2 ∷ 1 ∷ []) nothing g)
      (init_singlelinklist 2 1 true nothing)
init_singlelinklist-IsQueue_example =
    init_singlelinklist-IsQueue nothing 2 1 (omega arith) (omega arith) (omega arith)

abbrev usb_copy : Cell
usb_copy = copy_of (addresses 5) usb_inf (b'u' ∷ b's' ∷ b'b' ∷ [])

add_data-appends_example :
    Ends
      (λ r g.
        (r ≡ true)
        × IsQueue g 1 2 3 (usb_copy ∷ [])
        × SameOutside (2 ∷ 1 ∷ 3 ∷ 4 ∷ 5 ∷ []) posted g)
      (add_data_to_linklist (addresses 5) 1 20 posted)
add_data-appends_example =
    add_data-appends posted 1 2 2 [] (addresses 5) 20 usb_inf (b'u' ∷ b's' ∷ b'b' ∷ [])
      posted-IsQueue addresses-IsFresh (omega arith) (omega arith) posted-inf posted-buf
      (omega arith)

add_then_pop_example :
    Ends
      (λ _ g.
        IsQueue g 1 2 2 []
        × IsDest g (filled (reader wide) usb_copy)
        × (take 3 (filled (reader wide) usb_copy).bytes ≡ b'u' ∷ b's' ∷ b'b' ∷ []))
      ((add_data_to_linklist (addresses 5) 1 20 >> singlelinklist_pop_node 1 6) posted)
add_then_pop_example =
    add_then_pop posted 1 2 2 (addresses 5) 20 usb_inf (b'u' ∷ b's' ∷ b'b' ∷ []) (reader wide)
      posted-IsQueue addresses-IsFresh (omega arith) (omega arith) posted-inf posted-buf
      (omega arith) posted-IsDest (omega arith) (omega arith)

destroy-Freed_example :
    Ends
      (λ _ g.
        Freed g (1 ∷ 2 ∷ 3 ∷ 4 ∷ 5 ∷ [])
        × SameOutside (1 ∷ 2 ∷ 3 ∷ 4 ∷ 5 ∷ []) (start (reader wide)) g)
      (destory_singlelinklist 2 1 (start (reader wide)))
destroy-Freed_example =
    destroy-Freed 2 (start (reader wide)) 1 2 3 queued [] (omega arith) (start-IsQueue wide)
