-- ===== src/Daemon/Tests.antt =====
-- The daemon on concrete inputs.
use uart.Base.{
  ℕ, ◌<◌, ◌≡◌, ◌≢◌, refl, true, false, some, List, [], ◌∷◌, ◌++◌, arith, length, length-replicate,
  pos,
}
use uart.Linklist.{port_uart, port_duer}
use uart.Linklist.Shape.{Message}
use uart.Daemon.{Daemon, Reader, capacity, new_reader, message}
use uart.Daemon.Read.{whole_read, kept, HasRead, whole_read_lem, whole_read-drops}
use uart.Daemon.Text.{Tm, IsTime, time_prefix, time_text, time_text_lem}
use uart.Daemon.Parse.{
  Env, data_parse, data_parse-uart, reply, process_at_time_cmd, pipe_usboul_handler, usb_oul,
}
use uart.Daemon.Receive.{uart_connect_handler, uart_connect_handler_lem, received}
use uart.Daemon.Rounds.{to_uart, cleared}
use uart.Daemon.Pipeline.{pipe_round, pipe_round-usb, usb_request}
use uart.Daemon.Wakeup.{Channel, opened, Run, asleep, lost_wakeup}

-- A Sunday, 2023-01-01 12:34:56.
abbrev noon : Tm
noon = record {
  tm_sec = 56;
  tm_min = 34;
  tm_hour = 12;
  tm_mday = 1;
  tm_mon = 0;
  tm_year = 123;
  tm_wday = 0;
}

noon-IsTime : IsTime noon
noon-IsTime = record {
  sec = omega arith;
  minute = omega arith;
  hour = omega arith;
  mday = omega arith;
  mon = omega arith;
  year = omega arith;
  wday = omega arith;
}

abbrev env : Env
env = record { tm = noon; got = true }

-- The serial line is descriptor 4 and the pipe descriptor 5.
abbrev daemon : Daemon
daemon = record {
  uart_fd = pos 4;
  pipe_fd = pos 5;
  recv_list = [];
  send_list = [];
  uart_handle_analy = 0 ∷ [];
  pipe_handle_analy = 7 ∷ [];
  uart_watched = false;
}

abbrev time_request : Reader
time_request = record {
  pdata = b't' ∷ b'i' ∷ b'm' ∷ b'e' ∷ 0 ∷ [];
  data_len = 4;
  recv_fd = pos 4;
  send_to = 0;
}

abbrev usb_reader : Reader
usb_reader = record {
  pdata = b'u' ∷ b's' ∷ b'b' ∷ b'?' ∷ [];
  data_len = 4;
  recv_fd = pos 5;
  send_to = 0;
}

abbrev small : Reader
small = record { pdata = 0 ∷ 0 ∷ []; data_len = 0; recv_fd = pos 0; send_to = 0 }

abbrev two_messages : List Message
two_messages = message (1 ∷ 2 ∷ []) (pos 0) port_uart ∷ message (3 ∷ []) (pos 0) port_duer ∷ []

pipe_is_other : pos 5 ≢ pos 4
pipe_is_other e = absurd (ground arith)

whole_read_lem_example :
    HasRead
      ((1 ∷ 2 ∷ []) ∷ (3 ∷ []) ∷ [])
      4
      (0 ∷ 0 ∷ 0 ∷ 0 ∷ [])
      0
      (whole_read ((1 ∷ 2 ∷ []) ∷ (3 ∷ []) ∷ []) (0 ∷ 0 ∷ 0 ∷ 0 ∷ []) 4)
    × (length (kept 4 ((1 ∷ 2 ∷ []) ∷ (3 ∷ []) ∷ [])) < 4)
whole_read_lem_example =
    whole_read_lem ((1 ∷ 2 ∷ []) ∷ (3 ∷ []) ∷ []) (0 ∷ 0 ∷ 0 ∷ 0 ∷ []) 4 (omega arith) (omega arith)

chunk_is_dropped : whole_read ((1 ∷ 2 ∷ []) ∷ []) (0 ∷ 0 ∷ []) 2 ≡ some (0, 0 ∷ 0 ∷ [], [])
chunk_is_dropped = whole_read-drops (1 ∷ 2 ∷ []) [] (0 ∷ 0 ∷ []) 2 (omega arith) (omega arith)

time_text_lem_example :
    time_text noon
    ≡ time_prefix
      ++ b'5' ∷ b'6' ∷ b'3' ∷ b'4' ∷ b'1' ∷ b'2' ∷ b'0' ∷ b'1' ∷ b'0' ∷ b'0' ∷ b'1' ∷ b'2' ∷ b'0'
        ∷ b'2' ∷ b'3' ∷ b'&' ∷ []
time_text_lem_example = time_text_lem noon noon-IsTime

time_is_answered :
    data_parse env (some time_request) daemon
    ≡ some (record daemon {
      uart_handle_analy = 1 ∷ [];
      send_list = reply process_at_time_cmd env ∷ [];
    })
time_is_answered = data_parse-uart env refl time_request daemon refl

uart_connect_handler_lem_example :
    (unread : List (List ℕ)) × (uart_connect_handler true ((1 ∷ 2 ∷ []) ∷ (3 ∷ []) ∷ []) daemon
      ≡ some (
        unread,
        record daemon {
          recv_list = received true (kept capacity ((1 ∷ 2 ∷ []) ∷ (3 ∷ []) ∷ [])) (pos 4);
          uart_watched = true;
        },
      ))
    × (length (kept capacity ((1 ∷ 2 ∷ []) ∷ (3 ∷ []) ∷ [])) < capacity)
uart_connect_handler_lem_example =
    uart_connect_handler_lem true ((1 ∷ 2 ∷ []) ∷ (3 ∷ []) ∷ []) daemon

pipe_round-usb_example :
    pipe_round env (usb_request (b'?' ∷ [])) small new_reader daemon
    ≡ some (
      to_uart usb_oul,
      cleared (reply pipe_usboul_handler env),
      record daemon { pipe_handle_analy = 8 ∷ [] },
    )
pipe_round-usb_example =
    pipe_round-usb env (b'?' ∷ []) small new_reader daemon refl refl refl pipe_is_other
      (omega arith) (length-replicate {A = ℕ} capacity 0)

lost_wakeup_example :
    (s : Channel ℕ) × Run opened s × (s.place ≡ asleep) × (s.queue ≡ 6 ∷ []) × (s.to_signal ≡ 0)
lost_wakeup_example = lost_wakeup 6
