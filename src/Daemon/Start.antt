-- ===== src/Daemon/Start.antt =====
-- The start of the daemon and its event loop, `main` and `epoll_start` of src/uart_start.c, as the
-- file is compiled, with NEED_SOCK_SERVER 0. The loop's round is `dispatch`, on the descriptors
-- that `epoll_wait` returns.
use uart.Base.{
  true, false, ◌≡◌, arith, ℕ, Bool, Option, none, some, List, [], ◌∷◌, ◌++◌, ◌>>=◌, if◌then◌else◌,
  ℤ, int_eq, ◌&&◌,
}
use uart.Serial.{init_uart, init_pipe}
use uart.Sockets.{setnonblocking}

-- The functions that are given to the thread pool.
pub data Job : Type 0 where
  data_process_job : Job
  send_out_job : Job
  init_data_to_bt_job : Job
  uart_connect_job : Job
  pipe_connect_job : Job

-- How epoll watches a descriptor: not, at an edge, or at a level.
pub data Watch : Type 0 where
  unwatched : Watch
  edge : Watch
  level : Watch

pub record Loop : Type 0 where
  pub uart_fd : ℤ
  pub pipe_fd : ℤ
  pub uart_watch : Watch
  pub pipe_watch : Watch
  -- the calls of `threadpool_add_job`, in order
  pub jobs : List Job

-- One descriptor that is ready.
unfoldable pub on_ready : ℤ → Loop → Loop
on_ready fd s =
    if int_eq fd s.uart_fd
    then record s { uart_watch = unwatched; jobs = s.jobs ++ uart_connect_job ∷ [] }
    else if int_eq fd s.pipe_fd
    then record s { jobs = s.jobs ++ pipe_connect_job ∷ [] }
    else s

unfoldable pub dispatch : (ready : List ℤ) → Loop → Loop
dispatch [] s = s
dispatch (fd ∷ fds) s = dispatch fds (on_ready fd s)

-- `epoll_start` behind the two calls of `setnonblocking`, on their results.
unfoldable pub start_loop :
    (uart_set pipe_set : Option ℕ) → (got_mutexes : Bool) → (uart_fd pipe_fd : ℤ) → Option Loop
start_loop none pipe_set got_mutexes uart_fd pipe_fd = none
start_loop (some _) none got_mutexes uart_fd pipe_fd = none
start_loop (some _) (some _) false uart_fd pipe_fd = none
start_loop (some _) (some _) true uart_fd pipe_fd = some (record {
  uart_fd = uart_fd;
  pipe_fd = pipe_fd;
  uart_watch = edge;
  pipe_watch = edge;
  jobs = data_process_job ∷ send_out_job ∷ init_data_to_bt_job ∷ [];
})

-- What the calls of `fcntl` return for a descriptor.
pub record Fcntl : Type 0 where
  pub getfl : ℤ → ℤ
  pub setfl_ok : ℤ → Bool

-- `epoll_start` up to its loop. The flags say whether the two mutexes are initialised; `none` is its
-- return, or the end of the process.
unfoldable pub epoll_start :
    Fcntl → (got_recv_mutex got_send_mutex : Bool) → (uart_fd pipe_fd : ℤ) → Option Loop
epoll_start fcntl got_recv_mutex got_send_mutex uart_fd pipe_fd =
    start_loop (setnonblocking (fcntl.getfl uart_fd) (fcntl.setfl_ok uart_fd))
      (setnonblocking (fcntl.getfl pipe_fd) (fcntl.setfl_ok pipe_fd))
      (got_recv_mutex && got_send_mutex) uart_fd pipe_fd

-- `main`, up to the loop. The arguments say what `open` returns for the serial line and the pipe.
unfoldable pub start_main :
    Fcntl
    → (opened_uart opened_pipe : Option ℕ) (got_attr set_attr got_recv_mutex got_send_mutex : Bool)
    → Option Loop
start_main fcntl opened_uart opened_pipe got_attr set_attr got_recv_mutex got_send_mutex = do
  (uart_fd, _) ← init_uart opened_uart got_attr set_attr
  epoll_start fcntl got_recv_mutex got_send_mutex uart_fd (init_pipe opened_pipe)

-- Where `epoll_start` comes to its loop, epoll watches the serial line, at an edge.
start_loop-edge :
    (uart_set pipe_set : Option ℕ) (got_mutexes : Bool) (uart_fd pipe_fd : ℤ) {l : Loop}
    → start_loop uart_set pipe_set got_mutexes uart_fd pipe_fd ≡ some l
    → l.uart_watch ≡ edge
unfolding start_loop
start_loop-edge none pipe_set got_mutexes uart_fd pipe_fd e = absurd cc
start_loop-edge (some _) none got_mutexes uart_fd pipe_fd e = absurd cc
start_loop-edge (some _) (some _) false uart_fd pipe_fd e = absurd cc
start_loop-edge (some _) (some _) true uart_fd pipe_fd e = ground arith

pub epoll_start-edge :
    (fcntl : Fcntl) (got_recv_mutex got_send_mutex : Bool) (uart_fd pipe_fd : ℤ) {l : Loop}
    → epoll_start fcntl got_recv_mutex got_send_mutex uart_fd pipe_fd ≡ some l
    → l.uart_watch ≡ edge
unfolding epoll_start
epoll_start-edge fcntl got_recv_mutex got_send_mutex uart_fd pipe_fd e =
    start_loop-edge _ _ _ uart_fd pipe_fd e
