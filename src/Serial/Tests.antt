-- ===== src/Serial/Tests.antt =====
-- The serial line on concrete parameters.
use uart.Base.{◌≡◌, refl, inl, inr, true, false, some, none, pos, negsuc}
use uart.Serial.{Termios, set_opt, init_uart, open_port, init_pipe}
use uart.Serial.Settings.{IsKnown, line_of, set_opt-line_of}

-- The call of `open_port`.
default-IsKnown : IsKnown 115200 8 b'N' 1
default-IsKnown = record {
  speed = inr (inr (inr refl));
  bits = inr refl;
  event = inr (inr refl);
  stop = inl refl;
}

set_opt-line_of_example :
    (t : Termios) × (set_opt true true 115200 8 b'N' 1 ≡ (pos 0, some t))
    × (line_of t ≡ record {
      in_baud = 115200;
      out_baud = 115200;
      bits = 8;
      event = b'N';
      stop = 1;
      checks_parity = false;
      smallest_read = 1;
    })
set_opt-line_of_example = set_opt-line_of 115200 8 b'N' 1 default-IsKnown

init_uart_test :
    (init_uart none true true ≡ none) × (init_uart (some 4) false true ≡ some (pos 4, none))
unfolding init_uart open_port set_opt
init_uart_test = (refl, refl)

init_pipe_test : init_pipe none ≡ negsuc 0
unfolding init_pipe
init_pipe_test = refl
