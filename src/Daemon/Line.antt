-- ===== src/Daemon/Line.antt =====
-- The serial line between the event loop of `epoll_start` and the handlers `uart_connect_handler`
-- that it starts, in src/uart_start.c. The loop takes the line out of epoll before it gives a
-- handler to the pool; a handler puts it back when it has read, and only then queues what it read.
use uart.Base.{ℕ, ◌+◌, ◌-◌, ◌<◌, ◌≡◌, ◌≢◌, Bool, true, false, List, [], ◌∷◌, ◌++◌, ℤ}
use uart.Daemon.Start.{unwatched, level, Loop, on_ready}

pub record Line : Type 0 where
  pub loop : Loop
  -- the line is among the descriptors that `epoll_wait` returned, and its turn is still to come
  pub reported : Bool
  -- handlers that are given to the pool, and that read
  pub queued : ℕ
  pub reading : ℕ
  -- what handlers have read and not yet put into the receive queue
  pub holding : List (List ℕ)
  -- history: what was read, and what was put into the queue, the latest first
  pub read : List (List ℕ)
  pub inserted : List (List ℕ)
  -- what was given up, as no node could be allocated for it
  pub dropped : List (List ℕ)

unfoldable pub handle_line : Line → Line
handle_line s = record s {
  loop = on_ready s.loop.uart_fd s.loop;
  reported = false;
  queued = s.queued + 1;
}

-- A handler that has read nothing returns.
abbrev pub if_any : List ℕ → List (List ℕ)
if_any [] = []
if_any (b ∷ bs) = (b ∷ bs) ∷ []

-- `epoll_ctl` with EPOLL_CTL_ADD behind `whole_read`, which read `bytes`.
unfoldable pub watch_again : List ℕ → Line → Line
watch_again bytes s = record s {
  loop = record s.loop { uart_watch = level };
  reading = s.reading - 1;
  holding = if_any bytes ++ s.holding;
  read = if_any bytes ++ s.read;
}

-- A handler puts what it holds into the queue, where it gets a node; `before` and `behind` are what
-- others hold.
unfoldable pub put_in_queue : (got : Bool) → (before behind : List (List ℕ)) → List ℕ → Line → Line
put_in_queue true before behind bytes s = record s {
  holding = before ++ behind;
  inserted = bytes ∷ s.inserted;
}
put_in_queue false before behind bytes s = record s {
  holding = before ++ behind;
  dropped = bytes ∷ s.dropped;
}

pub data Move (s u : Line) : Type 0 where
  reports :
      s.loop.uart_watch ≢ unwatched
      → s.reported ≡ false
      → u ≡ record s { reported = true }
      → Move s u
  handles_line : s.reported ≡ true → u ≡ handle_line s → Move s u
  handles_other :
      (fd : ℤ) → fd ≢ s.loop.uart_fd → u ≡ record s { loop = on_ready fd s.loop } → Move s u
  starts : 0 < s.queued → u ≡ record s { queued = s.queued - 1; reading = s.reading + 1 } → Move s u
  reads : (bytes : List ℕ) → 0 < s.reading → u ≡ watch_again bytes s → Move s u
  puts :
      (got : Bool) (before behind : List (List ℕ)) (bytes : List ℕ)
      → s.holding ≡ before ++ bytes ∷ behind
      → u ≡ put_in_queue got before behind bytes s
      → Move s u

pub data Run (s : Line) : Line → Type 0 where
  here : Run s s
  next : {t u : Line} → Run s t → Move t u → Run s u

-- Behind `epoll_start`.
abbrev pub opened : Loop → Line
opened l = record {
  loop = l;
  reported = false;
  queued = 0;
  reading = 0;
  holding = [];
  read = [];
  inserted = [];
  dropped = [];
}
