-- ===== src/Daemon/HeapTests.antt =====
-- The receiving handlers on a concrete memory.
use uart.Base.{refl, true, [], ◌∷◌, arith, pos}
use uart.Heap.Ends.{Ends}
use uart.Linklist.Examples.{addresses, posted, posted-IsQueue, posted-buf, addresses-IsFresh}
use uart.Daemon.{Daemon}
use uart.Daemon.Receive.{queue_received}
use uart.Daemon.Produce.{queue_buffer, Queued, queue_buffer-Queued}

abbrev waiting : Daemon
waiting = record {
  uart_fd = pos 4;
  pipe_fd = pos 5;
  recv_list = [];
  send_list = [];
  uart_handle_analy = 0 ∷ [];
  pipe_handle_analy = 0 ∷ [];
  uart_watched = true;
}

queue_buffer-Queued_example :
    Ends
      (λ _ g. Queued 1 2 (queue_received true (pos 4) (b'u' ∷ b's' ∷ b'b' ∷ []) 3 waiting) g)
      (queue_buffer (addresses 5) 1 21 (pos 4) 3 posted)
queue_buffer-Queued_example =
    queue_buffer-Queued posted 1 2 2 [] (addresses 5) 21 (b'u' ∷ b's' ∷ b'b' ∷ []) (pos 4) 3 waiting
      posted-IsQueue refl addresses-IsFresh (omega arith) (omega arith) posted-buf (omega arith)
