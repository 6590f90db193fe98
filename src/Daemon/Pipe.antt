-- ===== src/Daemon/Pipe.antt =====
-- The pipe between its writers, the event loop of `epoll_start` and the handlers
-- `pipe_connect_handler`, in src/uart_start.c. epoll watches the pipe at an edge: it reports a write
-- once, whatever is left in the pipe.
use uart.Base.{
  ℕ, ◌+◌, ◌-◌, ◌<◌, ◌≡◌, ◌≢◌, refl, ap, Bool, true, false, some, List, [], ◌∷◌, ◌++◌, arith, length,
  take, drop, length-drop, ℤ,
}
use uart.Daemon.{Daemon, capacity, message}
use uart.Daemon.Receive.{pipe_connect_handler, received, single_read-queues}
use uart.Daemon.Start.{Loop, on_ready}

pub record Pipe : Type 0 where
  pub daemon : Daemon
  pub loop : Loop
  -- what is in the pipe
  pub bytes : List ℕ
  -- something was written that epoll has not reported
  pub edge : Bool
  -- handlers that are given to the pool, and have not read
  pub queued : ℕ

abbrev pub write_pipe : List ℕ → Pipe → Pipe
write_pipe written s = record s { bytes = s.bytes ++ written; edge = true }

unfoldable pub handle_pipe : Pipe → Pipe
handle_pipe s = record s {
  loop = on_ready s.loop.pipe_fd s.loop;
  edge = false;
  queued = s.queued + 1;
}

-- The handler's one `read`, of at most the size of its buffer, and what it does with the bytes.
pub data Move (s u : Pipe) : Type 0 where
  writes : (written : List ℕ) → written ≢ [] → u ≡ write_pipe written s → Move s u
  reports : s.edge ≡ true → u ≡ handle_pipe s → Move s u
  reads :
      (got : Bool) (after : Daemon)
      → 0 < s.queued
      → pipe_connect_handler got (take capacity s.bytes) s.daemon ≡ some after
      → u ≡ record s { daemon = after; bytes = drop capacity s.bytes; queued = s.queued - 1 }
      → Move s u

pub data Run (s : Pipe) : Pipe → Type 0 where
  here : Run s s
  next : {t u : Pipe} → Run s t → Move t u → Run s u

abbrev pub empty_pipe : Daemon → Loop → Pipe
empty_pipe d l = record { daemon = d; loop = l; bytes = []; edge = false; queued = 0 }

-- Where nothing is to be reported and no handler is to read, only a writer can move.
pub quiet-writes :
    {s u : Pipe}
    → s.edge ≡ false
    → s.queued ≡ 0
    → Move s u
    → (written : List ℕ) × (u ≡ write_pipe written s)
quiet-writes no_edge none_left (writes written ne e) = (written, e)
quiet-writes no_edge none_left (reports p e) = absurd cc
quiet-writes no_edge none_left (reads got after p r e) = absurd (omega (arith, none_left))

take_more :
    (b : ℕ) (bs : List ℕ) (fd : ℤ)
    → received true (take capacity (b ∷ bs)) fd ≡ message (take capacity (b ∷ bs)) fd 0 ∷ []
take_more b bs fd = refl

-- More than 1024 bytes that are written to the empty pipe at once: a handler can queue the first
-- 1024 of them and leave the others in the pipe, with no report to come and no handler to read them.
pub pipe_stalls :
    (d : Daemon) (l : Loop) (written : List ℕ)
    → capacity < length written
    → (s : Pipe) × Run (empty_pipe d l) s
      × (s.bytes ≡ drop capacity written)
      × (0 < length s.bytes)
      × (s.daemon.recv_list ≡ d.recv_list ++ message (take capacity written) d.pipe_fd 0 ∷ [])
      × (s.edge ≡ false)
      × (s.queued ≡ 0)
unfolding handle_pipe
pipe_stalls d l [] h = absurd (omega arith)
pipe_stalls d l (b ∷ bs) h =
    let written = b ∷ bs in
    let s1 = write_pipe written (empty_pipe d l) in
    let s2 = handle_pipe s1 in
    let after = record d {
      recv_list = d.recv_list ++ received true (take capacity written) d.pipe_fd;
    } in
    let s3 = record s2 { daemon = after; bytes = drop capacity written; queued = s2.queued - 1 } in
    (
      s3,
      next (next (next here (writes written (λ x. cc) refl)) (reports refl refl)) (
          reads true after (omega arith)
            (single_read-queues true (take capacity written) d.pipe_fd d).0 refl),
      refl,
      omega (arith, h, length-drop capacity written),
      ap (λ m. d.recv_list ++ m) (take_more b bs d.pipe_fd),
      refl,
      refl,
    )
