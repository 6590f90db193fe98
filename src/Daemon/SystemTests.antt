-- ===== src/Daemon/SystemTests.antt =====
-- The threads of src/uart_start.c on a request from the pipe.
use uart.Base.{ℕ, ◌≤◌, ◌≡◌, refl, true, false, List, [], ◌∷◌, ◌++◌, arith, map, pos}
use uart.Daemon.Parse.{Env}
use uart.Daemon.Receive.{single_read-queues}
use uart.Daemon.Rounds.{sent}
use uart.Daemon.Wakeup.{asleep, starts}
use uart.Daemon.Traffic.{Traffic, pipe_reads, begun, all_answers}
use uart.Daemon.System.{
  System, Rules, handler_reads, processor_tests, processor_sleeps, Reach, here, next, started,
}
use uart.Daemon.Delivery.{Reach-InOrder}
use uart.Daemon.Awake.{unseen, Reach-signals}
use uart.Daemon.Drain.{calm, Reach-drains}

abbrev usb : List ℕ
usb = b'u' ∷ b's' ∷ b'b' ∷ []

abbrev asked_traffic : Traffic
asked_traffic = record (begun (pos 4) (pos 5)) {
  daemon = record (begun (pos 4) (pos 5)).daemon {
    recv_list = record { bytes = usb; recv_fd = pos 5; send_to = 0 } ∷ [];
  };
  queued = record { bytes = usb; recv_fd = pos 5; send_to = 0 } ∷ [];
}

-- The processor sleeps, the request is in its queue, and the handler has not signalled yet.
abbrev asked : System
asked = record {
  traffic = asked_traffic;
  processor_place = asleep;
  sender_place = starts;
  recv_to_signal = 1;
  send_to_signal = 0;
}

abbrev all_rules : Rules
all_rules = record { unasked = true; between = true }

abbrev no_signal_between : Rules
no_signal_between = record { unasked = true; between = false }

asked-Reach : (rules : Rules) → Reach rules (started (pos 4) (pos 5)) asked
asked-Reach rules =
    next (next (next here (processor_tests refl refl refl)) (processor_sleeps refl refl)) (
      handler_reads asked_traffic
        (pipe_reads true usb asked_traffic.daemon (omega arith)
          ((single_read-queues true usb (pos 0) (begun (pos 4) (pos 5)).daemon).0) refl)
        refl)

abbrev env : Env
env = record {
  tm = record {
    tm_sec = 1;
    tm_min = 2;
    tm_hour = 3;
    tm_mday = 4;
    tm_mon = 5;
    tm_year = 120;
    tm_wday = 6;
  };
  got = true;
}

Reach-InOrder_example :
    (asked_traffic.queued
      ≡ map (λ h. h.message) asked_traffic.handled ++ asked_traffic.daemon.recv_list)
    × (asked_traffic.written ++ map sent asked_traffic.daemon.send_list
        ≡ map sent (all_answers (pos 4) (pos 5) asked_traffic.handled))
Reach-InOrder_example = Reach-InOrder (pos 4) (pos 5) (asked-Reach all_rules)

Reach-drains_example :
    (t : System) × Reach calm asked t
    × (t.traffic.daemon.recv_list ≡ [])
    × (t.traffic.daemon.send_list ≡ [])
    × (t.traffic.queued ≡ asked_traffic.queued)
    × (asked_traffic.queued ≡ map (λ h. h.message) t.traffic.handled)
    × (t.traffic.written ≡ map sent (all_answers (pos 4) (pos 5) t.traffic.handled))
Reach-drains_example = Reach-drains env (pos 4) (pos 5) refl refl (asked-Reach no_signal_between)

Reach-signals_example :
    (unseen asleep asked_traffic.daemon.recv_list ≤ asked.recv_to_signal)
    × (unseen starts asked_traffic.daemon.send_list ≤ asked.send_to_signal)
Reach-signals_example = Reach-signals (pos 4) (pos 5) refl (asked-Reach no_signal_between)
