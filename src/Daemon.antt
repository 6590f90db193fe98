-- ===== src/Daemon.antt =====
-- The daemon of src/uart_start.c and src/uart_protocol.c: its two message queues, its message
-- handlers, and the rounds of its threads. A queue is the list of its messages, which is what
-- Linklist/Dequeue.antt and Linklist/Insert.antt show of the linked list; `none` is a fault.
pub mod Read
pub mod Text
pub mod Reply
pub mod Parse
pub mod Receive
pub mod Rounds
pub mod Pipeline
pub mod System
pub mod Traffic
pub mod Ready
pub mod Delivery
pub mod Awake
pub mod Drain
pub mod Wakeup
pub mod Start
pub mod Line
pub mod Pipe
pub mod Exclusive
pub mod Refine
pub mod Produce
pub mod Send
pub mod Store
pub mod Stored
pub mod Takes
pub mod Kept
pub mod Both
mod Tests
mod LineTests
mod HeapTests
mod BothTests
mod SystemTests
use uart.Base.{
  ℕ, suc, ◌+◌, ◌≤◌, zero, Bool, true, false, Option, none, some, List, [], ◌∷◌, ◌++◌, length, take,
  drop, replicate, ◌==◌, leb, if◌then◌else◌, ◌>>=◌, ℤ, pos, negsuc,
}
use uart.Linklist.Shape.{Message}

-- What the threads share: the descriptors, the queues, and the handlers' counters.
pub record Daemon : Type 0 where
  pub uart_fd : ℤ
  pub pipe_fd : ℤ
  pub recv_list : List Message
  pub send_list : List Message
  pub uart_handle_analy : List ℕ
  pub pipe_handle_analy : List ℕ
  -- whether epoll watches the serial line
  pub uart_watched : Bool

-- The node that a consumer thread pops into. `pdata` has `capacity` bytes.
pub record Reader : Type 0 where
  pub pdata : List ℕ
  pub data_len : ℕ
  pub recv_fd : ℤ
  pub send_to : ℕ

abbrev pub capacity : ℕ
capacity = 1024

-- The node as `singlelinklist_init_node(1024)` makes it.
abbrev pub new_reader : Reader
new_reader = record { pdata = replicate capacity 0; data_len = 0; recv_fd = pos 0; send_to = 0 }

-- `singlelinklist_pop_node` on the messages: an empty queue leaves the node as it is, and a message
-- longer than the buffer is a fault.
unfoldable pub pop_node : List Message → Reader → Option (List Message × Reader)
pop_node [] r = some ([], r)
pop_node (m ∷ ms) r =
    if leb (length m.bytes) (length r.pdata)
    then some (
      ms,
      record {
        pdata = m.bytes ++ drop (length m.bytes) r.pdata;
        data_len = length m.bytes;
        recv_fd = m.recv_fd;
        send_to = m.send_to;
      },
    )
    else none

abbrev pub message : List ℕ → ℤ → ℕ → Message
message bytes fd port = record { bytes = bytes; recv_fd = fd; send_to = port }

-- The part of `ready_send_data` behind its guard. `got` says whether the node can be allocated,
-- which the code does not test; `src` is read up to `len`.
send_bytes : (got : Bool) → (port : ℕ) → (src : List ℕ) → (len : ℕ) → Daemon → Option (ℤ × Daemon)
send_bytes false port src len s = none
send_bytes true port src len s =
    if leb len (length src)
    then some
        (pos 0, record s { send_list = s.send_list ++ message (take len src) (pos 0) port ∷ [] })
    else none

-- The result is that of the call. `none` for `src` is the null pointer.
unfoldable pub ready_send_data :
    (got : Bool) → (port : ℕ) → (src : Option (List ℕ)) → (len : ℤ) → Daemon → Option (ℤ × Daemon)
unfolding send_bytes
ready_send_data got port none len s = some (negsuc 0, s)
ready_send_data got port (some src) (negsuc n) s = some (negsuc 0, s)
ready_send_data got port (some src) (pos zero) s = some (negsuc 0, s)
ready_send_data got port (some src) (pos (suc n)) s = send_bytes got port src (suc n) s
