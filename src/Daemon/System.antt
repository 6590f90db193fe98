-- ===== src/Daemon/System.antt =====
-- The daemon's threads together, in any order, with the waits of `data_process` and
-- `send_out_handler` of src/uart_start.c and the signals of the receiving handlers and of
-- `ready_send_data`. What a thread does to the messages is in Traffic, and the places of a round are
-- those of Wakeup.
use uart.Base.{ℕ, ◌+◌, ◌-◌, ◌<◌, ◌≡◌, Bool, true, List, length, ℤ}
use uart.Linklist.Shape.{Message}
use uart.Daemon.Wakeup.{Place, starts, found_empty, asleep, pops, after_test, signalled}
use uart.Daemon.Traffic.{Traffic, Reads, Processes, Sends, begun}

pub record System : Type 0 where
  pub traffic : Traffic
  -- where `data_process` and `send_out_handler` are in their rounds
  pub processor_place : Place
  pub sender_place : Place
  -- messages that are in the queue and whose `pthread_cond_signal` is still to come
  pub recv_to_signal : ℕ
  pub send_to_signal : ℕ

-- What a run may have: waits that return unasked, and signals that come between a thread's test and
-- its wait.
pub record Rules : Type 0 where
  pub unasked : Bool
  pub between : Bool

-- The messages that a step adds to a queue.
abbrev pub added : (before after : List Message) → ℕ
added before after = length after - length before

-- A step of one thread. Every message that is put into a queue is signalled later on, by the thread
-- that put it there: the workers may do anything in between, while `data_process`, which alone puts
-- messages into the send queue, signals before its next round.
pub data Step (rules : Rules) (s u : System) : Type 0 where
  handler_reads :
      (t : Traffic)
      → Reads s.traffic t
      → u ≡ record s {
        traffic = t;
        recv_to_signal = s.recv_to_signal + added s.traffic.daemon.recv_list t.daemon.recv_list;
      }
      → Step rules s u
  recv_signal :
      0 < s.recv_to_signal
      → (s.processor_place ≡ found_empty → rules.between ≡ true)
      → u ≡ record s {
        recv_to_signal = s.recv_to_signal - 1;
        processor_place = signalled s.processor_place;
      }
      → Step rules s u
  processor_tests :
      s.send_to_signal ≡ 0
      → s.processor_place ≡ starts
      → u ≡ record s { processor_place = after_test s.traffic.daemon.recv_list }
      → Step rules s u
  processor_sleeps :
      s.processor_place ≡ found_empty → u ≡ record s { processor_place = asleep } → Step rules s u
  processor_wakes :
      rules.unasked ≡ true
      → s.processor_place ≡ asleep
      → u ≡ record s { processor_place = pops }
      → Step rules s u
  processor_round :
      (t : Traffic)
      → s.processor_place ≡ pops
      → Processes s.traffic t
      → u ≡ record s {
        traffic = t;
        processor_place = starts;
        send_to_signal = s.send_to_signal + added s.traffic.daemon.send_list t.daemon.send_list;
      }
      → Step rules s u
  send_signal :
      0 < s.send_to_signal
      → (s.sender_place ≡ found_empty → rules.between ≡ true)
      → u ≡ record s {
        send_to_signal = s.send_to_signal - 1;
        sender_place = signalled s.sender_place;
      }
      → Step rules s u
  sender_tests :
      s.sender_place ≡ starts
      → u ≡ record s { sender_place = after_test s.traffic.daemon.send_list }
      → Step rules s u
  sender_sleeps :
      s.sender_place ≡ found_empty → u ≡ record s { sender_place = asleep } → Step rules s u
  sender_wakes :
      rules.unasked ≡ true
      → s.sender_place ≡ asleep
      → u ≡ record s { sender_place = pops }
      → Step rules s u
  sender_round :
      (t : Traffic)
      → s.sender_place ≡ pops
      → Sends s.traffic t
      → u ≡ record s { traffic = t; sender_place = starts }
      → Step rules s u

pub data Reach (rules : Rules) (s : System) : System → Type 0 where
  here : Reach rules s s
  next : {t u : System} → Reach rules s t → Step rules t u → Reach rules s u

-- Both threads before their first round.
abbrev pub started : (uart_fd pipe_fd : ℤ) → System
started uart_fd pipe_fd = record {
  traffic = begun uart_fd pipe_fd;
  processor_place = starts;
  sender_place = starts;
  recv_to_signal = 0;
  send_to_signal = 0;
}
