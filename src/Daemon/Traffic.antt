-- ===== src/Daemon/Traffic.antt =====
-- What the daemon's threads do to the messages: the receiving handlers, the rounds of `data_process`
-- and the rounds of `send_out_handler` of src/uart_start.c, each round from the return of its wait on.
-- A handler's step is its putting of the message into the queue, so that messages are in the order in
-- which they are queued.
use uart.Base.{true, replicate, ℕ, ◌≤◌, ◌≡◌, Bool, some, List, [], ◌∷◌, ◌++◌, length, ℤ}
use uart.Linklist.Shape.{Message}
use uart.Daemon.{Daemon, Reader, capacity, new_reader}
use uart.Daemon.Parse.{Env}
use uart.Daemon.Parse.Words.{answers}
use uart.Daemon.Read.{kept}
use uart.Daemon.Receive.{uart_connect_handler, pipe_connect_handler, sock_recv_handler, received}
use uart.Daemon.Rounds.{data_process, Sent, to_duer, to_uart, to_nobody, send_out_handler}

-- A message that was processed, and what the handlers found around it.
pub record Handled : Type 0 where
  pub env : Env
  pub message : Message

pub record Traffic : Type 0 where
  pub daemon : Daemon
  pub processor : Reader
  pub sender : Reader
  -- history: the messages that were queued by a handler, those that were processed, and what was
  -- sent, the empty writes of an idle round left out
  pub queued : List Message
  pub handled : List Handled
  pub written : List Sent

abbrev pub head_of : Env → List Message → List Handled
head_of env [] = []
head_of env (m ∷ ms) = record { env = env; message = m } ∷ []

abbrev pub if_any : Sent → List Sent
if_any (to_duer []) = []
if_any (to_duer (b ∷ bs)) = to_duer (b ∷ bs) ∷ []
if_any (to_uart []) = []
if_any (to_uart (b ∷ bs)) = to_uart (b ∷ bs) ∷ []
if_any to_nobody = []

-- A call of a handler that ends. `chunks` and `chunk` are what `read` returns, the latter at most
-- the size of the handler's buffer. Sockets are read where NEED_SOCK_SERVER is set.
pub data Reads (s u : Traffic) : Type 0 where
  uart_reads :
      (got : Bool) (chunks unread : List (List ℕ)) (d : Daemon)
      → uart_connect_handler got chunks s.daemon ≡ some (unread, d)
      → u ≡ record s {
        daemon = d;
        queued = s.queued ++ received got (kept capacity chunks) s.daemon.uart_fd;
      }
      → Reads s u
  pipe_reads :
      (got : Bool) (chunk : List ℕ) (d : Daemon)
      → length chunk ≤ capacity
      → pipe_connect_handler got chunk s.daemon ≡ some d
      → u ≡ record s { daemon = d; queued = s.queued ++ received got chunk s.daemon.pipe_fd }
      → Reads s u
  sock_reads :
      (got : Bool) (fd : ℤ) (chunk : List ℕ) (d : Daemon)
      → length chunk ≤ capacity
      → sock_recv_handler got fd chunk s.daemon ≡ some d
      → u ≡ record s { daemon = d; queued = s.queued ++ received got chunk fd }
      → Reads s u

-- A round of `data_process` that ends.
pub data Processes (s u : Traffic) : Type 0 where
  processes :
      (env : Env) (r : Reader) (d : Daemon)
      → data_process env s.processor s.daemon ≡ some (r, d)
      → u ≡ record s {
        daemon = d;
        processor = r;
        handled = s.handled ++ head_of env s.daemon.recv_list;
      }
      → Processes s u

-- A round of `send_out_handler` that ends.
pub data Sends (s u : Traffic) : Type 0 where
  sends :
      (out : Sent) (r : Reader) (d : Daemon)
      → send_out_handler s.sender s.daemon ≡ some (out, r, d)
      → u ≡ record s { daemon = d; sender = r; written = s.written ++ if_any out }
      → Sends s u

-- Behind `init_singlelinklist`: both queues are empty, and the threads have made their nodes.
abbrev pub begun : (uart_fd pipe_fd : ℤ) → Traffic
begun uart_fd pipe_fd = record {
  daemon = record {
    uart_fd = uart_fd;
    pipe_fd = pipe_fd;
    recv_list = [];
    send_list = [];
    uart_handle_analy = replicate 64 0;
    pipe_handle_analy = replicate 128 0;
    uart_watched = true;
  };
  processor = new_reader;
  sender = new_reader;
  queued = [];
  handled = [];
  written = [];
}

-- The answers to the processed messages, in order.
abbrev pub all_answers : (uart_fd pipe_fd : ℤ) → List Handled → List Message
all_answers uart_fd pipe_fd [] = []
all_answers uart_fd pipe_fd (h ∷ hs) =
    answers uart_fd pipe_fd h.env h.message ++ all_answers uart_fd pipe_fd hs
