-- ===== src/Daemon/LineTests.antt =====
-- The start of src/uart_start.c and its serial line, on concrete steps.
use mathlib.Core.List.{Perm}
use uart.Base.{
  List, ℕ, replicate, drop, take, length, length-replicate, ◌<◌, false, negsuc, is_negative,
  if◌then◌else◌, ◌⊎◌, ◌≡◌, refl, true, none, some, [], ◌∷◌, ◌++◌, arith, pos,
}
use uart.Sockets.{setnonblocking, with_nonblock}
use uart.Serial.{init_uart, init_pipe, open_port}
use uart.Daemon.Start.{
  Loop, edge, unwatched, on_ready, dispatch, epoll_start, start_loop, Fcntl, start_main,
  uart_connect_job, pipe_connect_job, data_process_job, send_out_job, init_data_to_bt_job,
}
use uart.Daemon.Line.{Line, Run, here, next, opened, handle_line, reports, handles_line, starts}
use uart.Daemon.{Daemon, capacity, message}
use uart.Daemon.Pipe
use uart.Daemon.Pipe.{Pipe, empty_pipe, pipe_stalls}
use uart.Daemon.Exclusive.{Run-exclusive, reordered}

abbrev loop : Loop
loop = record {
  uart_fd = pos 5;
  pipe_fd = pos 6;
  uart_watch = edge;
  pipe_watch = edge;
  jobs = data_process_job ∷ send_out_job ∷ init_data_to_bt_job ∷ [];
}

-- The descriptor -1 has no flags.
abbrev kernel : Fcntl
kernel = record { getfl = λ fd. if is_negative fd then negsuc 0 else pos 2; setfl_ok = λ fd. true }

started_test : start_main kernel (some 5) (some 6) true true true true ≡ some loop
unfolding start_main epoll_start start_loop init_uart init_pipe open_port setnonblocking
    with_nonblock
started_test = refl

-- Without the pipe the process ends.
no_pipe_test : start_main kernel (some 5) none true true true true ≡ none
unfolding start_main epoll_start start_loop init_uart init_pipe open_port setnonblocking
no_pipe_test = refl

no_line_test : start_main kernel none (some 6) true true true true ≡ none
unfolding start_main init_uart open_port
no_line_test = refl

dispatch_test : dispatch (pos 6 ∷ pos 5 ∷ pos 9 ∷ []) loop ≡ record loop {
  uart_watch = unwatched;
  jobs = loop.jobs ++ pipe_connect_job ∷ uart_connect_job ∷ [];
}
unfolding dispatch on_ready
dispatch_test = refl

-- The line is reported, handled, and a handler reads it.
abbrev reading_line : Line
reading_line = record (opened loop) {
  loop = record loop { uart_watch = unwatched; jobs = loop.jobs ++ uart_connect_job ∷ [] };
  reading = 1;
}

reading_line-Run : Run (opened loop) reading_line
unfolding handle_line on_ready
reading_line-Run =
    next (next (next here (reports (λ x. cc) refl refl)) (handles_line refl refl))
      (starts (omega arith) refl)

loop_starts : epoll_start kernel true true (pos 5) (pos 6) ≡ some loop
unfolding epoll_start start_loop setnonblocking with_nonblock
loop_starts = refl

Run-exclusive_example :
    ((reading_line.reading ≡ 0)
      ⊎ ((reading_line.reading ≡ 1)
          × (reading_line.loop.uart_watch ≡ unwatched)
          × (reading_line.queued ≡ 0)))
    × Perm reading_line.read
        (reading_line.holding ++ (reading_line.inserted ++ reading_line.dropped))
Run-exclusive_example = Run-exclusive kernel true true (pos 5) (pos 6) loop_starts reading_line-Run

reordered_example :
    (s : Line) × Run (opened loop) s
    × (s.read ≡ (2 ∷ []) ∷ (1 ∷ []) ∷ [])
    × (s.inserted ≡ (1 ∷ []) ∷ (2 ∷ []) ∷ [])
reordered_example = reordered loop (1 ∷ []) (2 ∷ []) (λ x. cc) (λ x. cc) refl

abbrev idle : Daemon
idle = record {
  uart_fd = pos 5;
  pipe_fd = pos 6;
  recv_list = [];
  send_list = [];
  uart_handle_analy = [];
  pipe_handle_analy = [];
  uart_watched = true;
}

abbrev sevens : List ℕ
sevens = replicate 1030 7

long_write : capacity < length sevens
long_write = omega (arith, length-replicate {A = ℕ} 1030 7)

pipe_stalls_example :
    (s : Pipe) × Pipe.Run (empty_pipe idle loop) s
    × (s.bytes ≡ drop capacity sevens)
    × (0 < length s.bytes)
    × (s.daemon.recv_list ≡ message (take capacity sevens) (pos 6) 0 ∷ [])
    × (s.edge ≡ false)
    × (s.queued ≡ 0)
pipe_stalls_example = pipe_stalls idle loop sevens long_write
