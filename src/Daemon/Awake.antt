-- ===== src/Daemon/Awake.antt =====
-- The signals of src/uart_start.c in a run in which none comes between a thread's test and its wait:
-- one is still to come for every message that a thread waits before.
use uart.Base.{
  ℕ, ◌≤◌, ◌≡◌, refl, sym, ap, ◌∙◌, inl, inr, Bool, true, false, Option, Option-cases, none, some,
  List, [], ◌∷◌, ◌++◌, arith, length, pos, negsuc, take, replicate, ℤ,
}
use uart.Linklist.Shape.{Message}
use uart.Daemon.{Daemon, Reader, capacity, pop_node}
use uart.Daemon.Read.{kept}
use uart.Daemon.Receive.{uart_connect_handler_lem, received, single_read-queues}
use uart.Daemon.Rounds.{Sent, send, send_out_handler}
use uart.Daemon.Wakeup.{Place, starts, found_empty, asleep, pops, after_test, signalled}
use uart.Daemon.Traffic.{Traffic, Reads, uart_reads, pipe_reads, sock_reads, Sends, sends}
use uart.Daemon.System.{
  System, Rules, Step, handler_reads, recv_signal, processor_tests, processor_sleeps,
  processor_wakes, processor_round, send_signal, sender_tests, sender_sleeps, sender_wakes,
  sender_round, Reach, here, next, started,
}

abbrev pub in_wait : Place → Bool
in_wait starts = false
in_wait found_empty = true
in_wait asleep = true
in_wait pops = false

pub record Awake (s : System) : Type 0 where
  pub processor :
      in_wait s.processor_place ≡ true → length s.traffic.daemon.recv_list ≤ s.recv_to_signal
  pub sender : in_wait s.sender_place ≡ true → length s.traffic.daemon.send_list ≤ s.send_to_signal

-- A handler leaves the send queue.
Reads-send_list : {s t : Traffic} → Reads s t → t.daemon.send_list ≡ s.daemon.send_list
Reads-send_list {s} (uart_reads got chunks unread d runs e) =
    let (left, ends, below) = uart_connect_handler_lem got chunks s.daemon in
    let more = received got (kept capacity chunks) s.daemon.uart_fd in
    let both : ◌≡◌ {A = Option (List (List ℕ) × Daemon)}
        (some
          (left, record s.daemon { recv_list = s.daemon.recv_list ++ more; uart_watched = true }))
        (some (unread, d)) =
      sym ends ∙ runs in
    let same : d ≡ record s.daemon { recv_list = s.daemon.recv_list ++ more; uart_watched = true } =
      cc in
    rw e (ap (λ x. x.send_list) same)
Reads-send_list {s} (pipe_reads got chunk d h runs e) =
    let more = received got chunk s.daemon.pipe_fd in
    let both : ◌≡◌ {A = Option Daemon}
        (some (record s.daemon { recv_list = s.daemon.recv_list ++ more })) (some d) =
      sym ((single_read-queues got chunk (pos 0) s.daemon).0) ∙ runs in
    let same : d ≡ record s.daemon { recv_list = s.daemon.recv_list ++ more } = cc in
    rw e (ap (λ x. x.send_list) same)
Reads-send_list {s} (sock_reads got fd chunk d h runs e) =
    let more = received got chunk fd in
    let both : ◌≡◌ {A = Option Daemon}
        (some (record s.daemon { recv_list = s.daemon.recv_list ++ more })) (some d) =
      sym ((single_read-queues got chunk fd s.daemon).1) ∙ runs in
    let same : d ≡ record s.daemon { recv_list = s.daemon.recv_list ++ more } = cc in
    rw e (ap (λ x. x.send_list) same)

-- A round of `send_out_handler` leaves the receive queue.
pub Sends-recv_list : {s t : Traffic} → Sends s t → t.daemon.recv_list ≡ s.daemon.recv_list
unfolding send_out_handler
Sends-recv_list {s} (sends out r d runs e) =
    elim (Option-cases (pop_node s.daemon.send_list s.sender)) [
      | inl fails ↦
          let null : ◌≡◌ {A = Option (Sent × Reader × Daemon)} none (some (out, r, d)) =
            rw (sym runs, fails) in
          absurd (cc)
      | inr ((ms, node), pops_one) ↦
          let round : send_out_handler s.sender s.daemon
              ≡ some (
                send node.send_to (take node.data_len node.pdata),
                record node { pdata = replicate capacity 0; data_len = 0; recv_fd = negsuc 0 },
                record s.daemon { send_list = ms },
              ) =
            rw pops_one refl in
          let both : ◌≡◌ {A = Option (Sent × Reader × Daemon)}
              (some (
                send node.send_to (take node.data_len node.pdata),
                record node { pdata = replicate capacity 0; data_len = 0; recv_fd = negsuc 0 },
                record s.daemon { send_list = ms },
              ))
              (some (out, r, d)) =
            sym round ∙ runs in
          let same : d ≡ record s.daemon { send_list = ms } = cc in
          rw e (ap (λ x. x.recv_list) same)
    ]

signalled-in_wait : (place : Place) → in_wait (signalled place) ≡ true → place ≡ found_empty
signalled-in_wait starts w = absurd cc
signalled-in_wait found_empty w = refl
signalled-in_wait asleep w = absurd cc
signalled-in_wait pops w = absurd cc

after_test-in_wait :
    {J : Type 0} (js : List J) (n : ℕ) → in_wait (after_test js) ≡ true → length js ≤ n
after_test-in_wait [] n w = omega arith
after_test-in_wait (j ∷ js) n w = absurd cc

-- A signal that does not come between a test and the wait ends the wait.
no_wait :
    {A : Type 0} (between : Bool) (place : Place)
    → between ≡ false
    → (place ≡ found_empty → between ≡ true)
    → in_wait (signalled place) ≡ true
    → A
no_wait between place never comes w = let may = comes (signalled-in_wait place w) in absurd cc

module _ {rules : Rules} (never : rules.between ≡ false) where
  pub Step-Awake : {s u : System} → Step rules s u → Awake s → Awake u
  Step-Awake {s} (handler_reads t reads e) v =
      let same = ap length (Reads-send_list reads) in
      rw e (record {
        processor = λ w. omega (arith, v.processor w);
        sender = λ w. omega (arith, v.sender w, same);
      })
  Step-Awake {s} (recv_signal some_left comes e) v = rw e (record {
    processor = no_wait rules.between s.processor_place never comes;
    sender = v.sender;
  })
  Step-Awake {s} (processor_tests done at e) v = rw e (record {
    processor = after_test-in_wait s.traffic.daemon.recv_list s.recv_to_signal;
    sender = v.sender;
  })
  Step-Awake (processor_sleeps at e) v =
      rw e (record { processor = λ _. v.processor (ap in_wait at); sender = v.sender })
  Step-Awake (processor_wakes may at e) v =
      rw e (record { processor = λ w. absurd cc; sender = v.sender })
  Step-Awake (processor_round t at round e) v =
      rw e (record { processor = λ w. absurd cc; sender = λ w. omega (arith, v.sender w) })
  Step-Awake {s} (send_signal some_left comes e) v = rw e (record {
    processor = v.processor;
    sender = no_wait rules.between s.sender_place never comes;
  })
  Step-Awake {s} (sender_tests at e) v = rw e (record {
    processor = v.processor;
    sender = after_test-in_wait s.traffic.daemon.send_list s.send_to_signal;
  })
  Step-Awake (sender_sleeps at e) v =
      rw e (record { processor = v.processor; sender = λ _. v.sender (ap in_wait at) })
  Step-Awake (sender_wakes may at e) v =
      rw e (record { processor = v.processor; sender = λ w. absurd cc })
  Step-Awake (sender_round t at round e) v =
      let same = ap length (Sends-recv_list round) in
      rw e (record { processor = λ w. omega (arith, v.processor w, same); sender = λ w. absurd cc })

  pub Reach-Awake : {s t : System} → Reach rules s t → Awake s → Awake t
  Reach-Awake here v = v
  Reach-Awake (next r st) v = Step-Awake st (Reach-Awake r v)

pub started-Awake : (uart_fd pipe_fd : ℤ) → Awake (started uart_fd pipe_fd)
started-Awake uart_fd pipe_fd = record { processor = λ w. absurd cc; sender = λ w. absurd cc }

-- The messages in its queue that a thread does not see before a signal comes.
abbrev pub unseen : (place : Place) → (queue : List Message) → ℕ
unseen starts queue = 0
unseen found_empty queue = length queue
unseen asleep queue = length queue
unseen pops queue = 0

unseen-signalled :
    (place : Place) (queue : List Message) (n : ℕ)
    → (in_wait place ≡ true → length queue ≤ n)
    → unseen place queue ≤ n
unseen-signalled starts queue n h = omega arith
unseen-signalled found_empty queue n h = h refl
unseen-signalled asleep queue n h = h refl
unseen-signalled pops queue n h = omega arith

-- In every run in which no signal comes between a thread's test and its wait: as long as
-- `data_process` or `send_out_handler` is behind a test that found its queue empty, a signal is still
-- to come for each message that has been put into that queue since.
pub Reach-signals :
    (uart_fd pipe_fd : ℤ) {rules : Rules} {s : System}
    → rules.between ≡ false
    → Reach rules (started uart_fd pipe_fd) s
    → (unseen s.processor_place s.traffic.daemon.recv_list ≤ s.recv_to_signal)
      × (unseen s.sender_place s.traffic.daemon.send_list ≤ s.send_to_signal)
Reach-signals uart_fd pipe_fd {s = s} never r =
    let v = Reach-Awake never r (started-Awake uart_fd pipe_fd) in
    (
      unseen-signalled s.processor_place s.traffic.daemon.recv_list s.recv_to_signal v.processor,
      unseen-signalled s.sender_place s.traffic.daemon.send_list s.send_to_signal v.sender,
    )
