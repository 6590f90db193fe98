-- ===== src/Daemon/Receive.antt =====
-- The receiving handlers of src/uart_start.c.
use native.Mathlib.Nat.{zero-add}
use uart.Base.{
  ℕ, zero, suc, ◌+◌, ◌<◌, ◌≡◌, refl, Bool, true, false, Option, none, some, List, [], ◌∷◌, ◌++◌,
  arith, length, take, drop, replicate, leb, if◌then◌else◌, ◌>>=◌, ℤ, append-nil, length-replicate,
  length-append, take-append_length,
}
use uart.Linklist.Shape.{Message}
use uart.Daemon.{Daemon, capacity, message}
use uart.Daemon.Read.{whole_read, kept, whole_read_lem}

-- Puts the first `n` bytes of `recv_buf` into the receive queue, unless `n` is 0 or the node cannot
-- be allocated.
unfoldable pub queue_received :
    (got : Bool) → (fd : ℤ) → (recv_buf : List ℕ) → (n : ℕ) → Daemon → Option Daemon
queue_received got fd recv_buf zero s = some s
queue_received false fd recv_buf (suc n) s = some s
queue_received true fd recv_buf (suc n) s =
    if leb (suc n) (length recv_buf)
    then some (record s { recv_list = s.recv_list ++ message (take (suc n) recv_buf) fd 0 ∷ [] })
    else none

-- `uart_connect_handler` behind the call of `whole_read`, on that call's result.
after_read :
    (got : Bool) → Daemon → Option (ℕ × List ℕ × List (List ℕ)) → Option (List (List ℕ) × Daemon)
unfolding queue_received
after_read got s out = do
  (n, recv_buf, unread) ← out
  s' ← queue_received got s.uart_fd recv_buf n (record s { uart_watched = true })
  some (unread, s')

-- `chunks` is what `read` returns on the serial line. The result has what is still unread.
unfoldable pub uart_connect_handler :
    (got : Bool) → (chunks : List (List ℕ)) → Daemon → Option (List (List ℕ) × Daemon)
unfolding after_read
uart_connect_handler got chunks s =
    after_read got s (whole_read chunks (replicate capacity 0) capacity)

-- `chunk` is what the one call of `read` returns, at most the size of `recv_buf`; it is empty
-- where the result is not positive.
unfoldable pub pipe_connect_handler : (got : Bool) → (chunk : List ℕ) → Daemon → Option Daemon
unfolding queue_received
pipe_connect_handler got chunk s =
    queue_received got s.pipe_fd (chunk ++ drop (length chunk) (replicate capacity 0))
      (length chunk) s

-- The same for the descriptor that the caller names.
unfoldable pub sock_recv_handler :
    (got : Bool) → (listen_fd : ℤ) → (chunk : List ℕ) → Daemon → Option Daemon
unfolding queue_received
sock_recv_handler got listen_fd chunk s =
    queue_received got listen_fd (chunk ++ drop (length chunk) (replicate capacity 0))
      (length chunk) s

-- What a handler queues of the bytes that it read.
abbrev pub received : (got : Bool) → List ℕ → ℤ → List Message
received got [] fd = []
received false (_ ∷ _) fd = []
received true (b ∷ bs) fd = message (b ∷ bs) fd 0 ∷ []

queue_received-received :
    (got : Bool) (fd : ℤ) (bytes rest : List ℕ) (s : Daemon)
    → queue_received got fd (bytes ++ rest) (length bytes) s
      ≡ some (record s { recv_list = s.recv_list ++ received got bytes fd })
unfolding queue_received
queue_received-received got fd [] rest s = rw append-nil
queue_received-received false fd (b ∷ bs) rest s = rw append-nil
queue_received-received true fd (b ∷ bs) rest s =
    let in_bounds : leb (length (b ∷ bs)) (length ((b ∷ bs) ++ rest)) ≡ true =
      ground (arith, length-append (b ∷ bs) rest) in
    rw (in_bounds, take-append_length (length (b ∷ bs)) (b ∷ bs) rest refl)

-- The handler behind `whole_read`, for any buffer.
queued :
    (got : Bool) (chunks : List (List ℕ)) (s : Daemon) (zeros filled : List ℕ)
    (unread : List (List ℕ))
    → filled
      ≡ take 0 zeros ++ (kept capacity chunks ++ drop (0 + length (kept capacity chunks)) zeros)
    → (out : Option (ℕ × List ℕ × List (List ℕ)))
    → out ≡ some (0 + length (kept capacity chunks), filled, unread)
    → after_read got s out
      ≡ some (
        unread,
        record s {
          recv_list = s.recv_list ++ received got (kept capacity chunks) s.uart_fd;
          uart_watched = true;
        },
      )
unfolding after_read
queued got chunks s zeros filled unread holds out returns = rw (
  returns,
  holds,
  zero-add,
  queue_received-received got s.uart_fd (kept capacity chunks)
      (drop (length (kept capacity chunks)) zeros) (record s { uart_watched = true }),
)

-- The serial line's handler never faults. It queues, as one message of the serial line, the bytes
-- that `whole_read` keeps, which are fewer than 1024, unless there are none or the node cannot be
-- allocated; and it has epoll watch the line again.
pub uart_connect_handler_lem :
    (got : Bool) (chunks : List (List ℕ)) (s : Daemon)
    → (unread : List (List ℕ)) × (uart_connect_handler got chunks s
        ≡ some (
          unread,
          record s {
            recv_list = s.recv_list ++ received got (kept capacity chunks) s.uart_fd;
            uart_watched = true;
          },
        ))
      × (length (kept capacity chunks) < capacity)
unfolding uart_connect_handler
uart_connect_handler_lem got chunks s =
    let (r, below) =
      whole_read_lem chunks (replicate capacity 0) capacity
        (omega (arith, length-replicate capacity zero)) (omega arith) in
    (
      r.unread,
      queued got chunks s (replicate capacity 0) r.filled r.unread r.holds
          (whole_read chunks (replicate capacity 0) capacity) r.returns,
      below,
    )

-- The handlers of the pipe and of a socket never fault. Each queues what it read as one message
-- of its descriptor, unless it read nothing or the node cannot be allocated.
pub single_read-queues :
    (got : Bool) (chunk : List ℕ) (listen_fd : ℤ) (s : Daemon)
    → (pipe_connect_handler got chunk s
        ≡ some (record s { recv_list = s.recv_list ++ received got chunk s.pipe_fd }))
      × (sock_recv_handler got listen_fd chunk s
          ≡ some (record s { recv_list = s.recv_list ++ received got chunk listen_fd }))
unfolding pipe_connect_handler sock_recv_handler
single_read-queues got chunk listen_fd s =
    let behind = drop (length chunk) (replicate capacity 0) in
    (
      queue_received-received got s.pipe_fd chunk behind s,
      queue_received-received got listen_fd chunk behind s,
    )
