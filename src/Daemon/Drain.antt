-- ===== src/Daemon/Drain.antt =====
-- The rounds of `data_process` and of `send_out_handler` of src/uart_start.c end, and empty the
-- queues.
use mathlib.Core.Path.{subst}
use uart.Base.{
  ℕ, zero, suc, ◌-◌, ◌<◌, ◌≤◌, ◌≡◌, false, refl, sym, ap, ◌∙◌, true, some, List, [], ◌∷◌, ◌++◌,
  arith, length, replicate, map, ℤ, append-nil, length-replicate,
}
use uart.Linklist.Shape.{Message}
use uart.Daemon.{Daemon, Reader, capacity}
use uart.Daemon.Parse.{Env}
use uart.Daemon.Parse.Outcome.{data_parse-ends}
use uart.Daemon.Rounds.{data_process, popped, pop_node-first, Fit, sent, send_out_handler-first}
use uart.Daemon.Wakeup.{Place, starts, found_empty, asleep, pops, after_test, signalled}
use uart.Daemon.Traffic.{Traffic, head_of, Processes, processes, Sends, sends, all_answers}
use uart.Daemon.System.{
  System, Rules, recv_signal, processor_tests, processor_sleeps, processor_round, send_signal,
  sender_tests, sender_sleeps, sender_round, Reach, here, next, started,
}
use uart.Daemon.Ready.{AreReady, data_process-Parsed}
use uart.Daemon.Delivery.{Inv, Processes-Inv, Sends-Inv, Reach-Inv}
use uart.Daemon.Awake.{in_wait, Awake, Reach-Awake, started-Awake}

data_process-ends :
    (env : Env) (m : Message) (ms : List Message) (r : Reader) (s : Daemon)
    → env.got ≡ true
    → s.recv_list ≡ m ∷ ms
    → length m.bytes ≤ capacity
    → (out : Reader × Daemon) × (data_process env r s ≡ some out)
unfolding data_process
data_process-ends env m ms r s got e fits =
    let room : length m.bytes ≤ length (replicate {A = ℕ} capacity zero) =
      omega (arith, length-replicate {A = ℕ} capacity zero, fits) in
    let first = pop_node-first m ms (record r { pdata = replicate capacity 0 }) room in
    let (d, parsed) = data_parse-ends env (popped m) (record s { recv_list = ms }) got in
    ((popped m, d), rw (e, first, parsed))

Reach-trans : {rules : Rules} {s t u : System} → Reach rules s t → Reach rules t u → Reach rules s u
Reach-trans r here = r
Reach-trans r (next q st) = next (Reach-trans r q) st

-- Runs in which no wait returns unasked, and no signal comes between a thread's test and its wait.
abbrev pub calm : Rules
calm = record { unasked = false; between = false }

-- One signal for the sender, which falls asleep first where it is on its way to the wait.
send_one_signal :
    (s : System) (place : Place)
    → s.sender_place ≡ place
    → 0 < s.send_to_signal
    → (p : Place) × Reach calm s
        (record s { sender_place = p; send_to_signal = s.send_to_signal - 1 })
send_one_signal s starts at some_left =
    (signalled s.sender_place, next here (send_signal some_left (λ w. absurd cc) refl))
send_one_signal s found_empty at some_left =
    (pops, next (next here (sender_sleeps at refl)) (send_signal some_left (λ w. absurd cc) refl))
send_one_signal s asleep at some_left =
    (signalled s.sender_place, next here (send_signal some_left (λ w. absurd cc) refl))
send_one_signal s pops at some_left =
    (signalled s.sender_place, next here (send_signal some_left (λ w. absurd cc) refl))

-- All signals that `data_process` owes the sender.
send_signals :
    (k : ℕ) (s : System)
    → s.send_to_signal ≡ k
    → (p : Place) × Reach calm s (record s { sender_place = p; send_to_signal = 0 })
send_signals zero s e =
    (s.sender_place, subst (Reach calm s) (ap (λ n. record s { send_to_signal = n }) e) here)
send_signals (suc k) s e =
    let (p, first) = send_one_signal s s.sender_place refl (omega (arith, e)) in
    let (q, others) =
      send_signals k (record s { sender_place = p; send_to_signal = s.send_to_signal - 1 })
        (omega (arith, e)) in
    (q, Reach-trans first others)

-- The thread comes to its `pop_node` where a message is in its queue.
module _ (s : System) (v : Awake s) (m : Message) (ms : List Message) where
  processor_pops :
      (place : Place)
      → s.processor_place ≡ place
      → s.traffic.daemon.recv_list ≡ m ∷ ms
      → s.send_to_signal ≡ 0
      → (n : ℕ) × Reach calm s (record s { processor_place = pops; recv_to_signal = n })
  processor_pops starts at e done = (
    s.recv_to_signal,
    next here
        (processor_tests done at (ap (λ q. record s { processor_place = after_test q }) (sym e))),
  )
  processor_pops found_empty at e done =
      let waiting = v.processor (ap in_wait at) in
      (
        s.recv_to_signal - 1,
        next (next here (processor_sleeps at refl))
            (recv_signal (omega (arith, waiting, ap length e)) (λ w. absurd cc) refl),
      )
  processor_pops asleep at e done =
      let waiting = v.processor (ap in_wait at) in
      (
        s.recv_to_signal - 1,
        next here (
            recv_signal (omega (arith, waiting, ap length e)) (λ w. absurd cc)
              (ap
                (λ p. record s {
                  recv_to_signal = s.recv_to_signal - 1;
                  processor_place = signalled p;
                })
                (sym at))),
      )
  processor_pops pops at e done =
      (s.recv_to_signal, subst (Reach calm s) (ap (λ p. record s { processor_place = p }) at) here)

  sender_pops :
      (place : Place)
      → s.sender_place ≡ place
      → s.traffic.daemon.send_list ≡ m ∷ ms
      → (n : ℕ) × Reach calm s (record s { sender_place = pops; send_to_signal = n })
  sender_pops starts at e = (
    s.send_to_signal,
    next here (sender_tests at (ap (λ q. record s { sender_place = after_test q }) (sym e))),
  )
  sender_pops found_empty at e =
      let waiting = v.sender (ap in_wait at) in
      (
        s.send_to_signal - 1,
        next (next here (sender_sleeps at refl))
            (send_signal (omega (arith, waiting, ap length e)) (λ w. absurd cc) refl),
      )
  sender_pops asleep at e =
      let waiting = v.sender (ap in_wait at) in
      (
        s.send_to_signal - 1,
        next here (
            send_signal (omega (arith, waiting, ap length e)) (λ w. absurd cc)
              (ap
                (λ p. record s {
                  send_to_signal = s.send_to_signal - 1;
                  sender_place = signalled p;
                })
                (sym at))),
      )
  sender_pops pops at e =
      (s.send_to_signal, subst (Reach calm s) (ap (λ p. record s { sender_place = p }) at) here)

module _ (env : Env) (got : env.got ≡ true) {u p : ℤ} where
  -- As many rounds of `data_process` as there are messages, each behind its signal where the thread
  -- waits.
  drain_recv :
      (ms : List Message) (s : System)
      → Inv u p s.traffic
      → Awake s
      → s.traffic.daemon.recv_list ≡ ms
      → (t : System) × Reach calm s t
        × Inv u p t.traffic
        × (t.traffic.daemon.recv_list ≡ [])
        × (t.traffic.queued ≡ s.traffic.queued)
  drain_recv [] s v w e = (s, here, v, e, refl)
  drain_recv (m ∷ ms) s v w e =
      let f = subst Fit e v.fits in
      let (p', signals) = send_signals s.send_to_signal s refl in
      let w0 = Reach-Awake refl signals w in
      let (n, woken) =
        processor_pops (record s { sender_place = p'; send_to_signal = 0 }) w0 m ms
          s.processor_place refl e refl in
      let (out, runs) = data_process-ends env m ms s.traffic.processor s.traffic.daemon got e f.0 in
      let t1 : Traffic = record s.traffic {
        daemon = out.1;
        processor = out.0;
        handled = s.traffic.handled ++ head_of env s.traffic.daemon.recv_list;
      } in
      let round : Processes s.traffic t1 = processes env out.0 out.1 runs refl in
      let run = next (Reach-trans signals woken) (processor_round t1 refl round refl) in
      let left =
        (data_process-Parsed env m ms s.traffic.processor s.traffic.daemon e f.0 runs).recv_kept in
      let (t, more, vt, none_left, same) =
        drain_recv ms _ (Processes-Inv v round) (Reach-Awake refl run w) left in
      (t, Reach-trans run more, vt, none_left, same)

  -- As many rounds of `send_out_handler` as there are answers.
  drain_send :
      (ms : List Message) (s : System)
      → Inv u p s.traffic
      → Awake s
      → s.traffic.daemon.send_list ≡ ms
      → (t : System) × Reach calm s t
        × Inv u p t.traffic
        × (t.traffic.daemon.send_list ≡ [])
        × (t.traffic.daemon.recv_list ≡ s.traffic.daemon.recv_list)
        × (t.traffic.queued ≡ s.traffic.queued)
  drain_send [] s v w e = (s, here, v, e, refl, refl)
  drain_send (m ∷ ms) s v w e =
      let f = subst AreReady e v.ready in
      let (n, woken) = sender_pops s w m ms s.sender_place refl e in
      let runs =
        send_out_handler-first m ms s.traffic.sender s.traffic.daemon e
          (omega (arith, f.0, v.sender_room)) in
      let round : Sends s.traffic _ = sends _ _ _ runs refl in
      let run = next woken (sender_round _ refl round refl) in
      let (t, more, vt, none_left, kept, same) =
        drain_send ms _ (Sends-Inv v round) (Reach-Awake refl run w) refl in
      (t, Reach-trans run more, vt, none_left, kept, same)

-- From every state that a run reaches in which no signal comes between a thread's test and its wait,
-- the threads can empty both queues, and no wait has to return unasked for it: they reach a state
-- with nothing in the receive queue and nothing in the send queue, in which every message that was
-- queued has been processed, in order, and the answers to all of them have been written, in order.
-- Memory for the answers' nodes is taken to be there.
pub Reach-drains :
    (env : Env) (uart_fd pipe_fd : ℤ) {rules : Rules} {s : System}
    → env.got ≡ true
    → rules.between ≡ false
    → Reach rules (started uart_fd pipe_fd) s
    → (t : System) × Reach calm s t
      × (t.traffic.daemon.recv_list ≡ [])
      × (t.traffic.daemon.send_list ≡ [])
      × (t.traffic.queued ≡ s.traffic.queued)
      × (s.traffic.queued ≡ map (λ h. h.message) t.traffic.handled)
      × (t.traffic.written ≡ map sent (all_answers uart_fd pipe_fd t.traffic.handled))
Reach-drains env uart_fd pipe_fd {rules} {s} got never r =
    let v = Reach-Inv uart_fd pipe_fd r in
    let w = Reach-Awake never r (started-Awake uart_fd pipe_fd) in
    let (t, processing, vt, processed, same) =
      drain_recv env got s.traffic.daemon.recv_list s v w refl in
    let (x, sending, vx, all_sent, kept, same') =
      drain_send env got t.traffic.daemon.send_list t vt (Reach-Awake refl processing w) refl in
    (
      x,
      Reach-trans processing sending,
      kept ∙ processed,
      all_sent,
      same' ∙ same,
      sym (same' ∙ same)
          ∙ vx.in_order
          ∙ ap (λ l. map (λ h. h.message) x.traffic.handled ++ l) (kept ∙ processed)
          ∙ append-nil (map (λ h. h.message) x.traffic.handled),
      sym (append-nil x.traffic.written)
          ∙ ap (λ l. x.traffic.written ++ map sent l) (sym all_sent)
          ∙ vx.answered,
    )
