-- ===== src/Serial/Settings.antt =====
-- What `set_opt` of src/uart_start.c sets, read back from the flags.
use uart.Base.{ℕ, ◌≡◌, refl, ◌⊎◌, Bool, true, false, some, arith, if◌then◌else◌, ◌==◌, pos}
use uart.Serial.{
  CharSize, cs5, cs7, cs8, Speed, b0, b2400, b4800, b9600, b115200, Termios, with_bits, with_event,
  with_speed, with_stop, set_opt,
}

abbrev pub bits_of : CharSize → ℕ
bits_of cs5 = 5
bits_of cs7 = 7
bits_of cs8 = 8

abbrev pub baud_of : Speed → ℕ
baud_of b0 = 0
baud_of b2400 = 2400
baud_of b4800 = 4800
baud_of b9600 = 9600
baud_of b115200 = 115200

-- Parity is off, or odd, or even, with the input checked and stripped to seven bits.
abbrev pub event_of : (parenb parodd : Bool) → ℕ
event_of false parodd = b'N'
event_of true true = b'O'
event_of true false = b'E'

abbrev pub stop_of : (cstopb : Bool) → ℕ
stop_of cstopb = if cstopb then 2 else 1

-- The parameters of a line as its driver reads them from the flags.
pub record Line : Type 0 where
  pub in_baud : ℕ
  pub out_baud : ℕ
  pub bits : ℕ
  pub event : ℕ
  pub stop : ℕ
  pub checks_parity : Bool
  pub smallest_read : ℕ

abbrev pub line_of : Termios → Line
line_of t = record {
  in_baud = baud_of t.ispeed;
  out_baud = baud_of t.ospeed;
  bits = bits_of t.csize;
  event = event_of t.parenb t.parodd;
  stop = stop_of t.cstopb;
  checks_parity = t.inpck;
  smallest_read = t.vmin;
}

-- The parameters for which `set_opt` has a case.
pub record IsKnown (n_speed n_bits n_event n_stop : ℕ) : Type 0 where
  pub speed : (n_speed ≡ 2400) ⊎ (n_speed ≡ 4800) ⊎ (n_speed ≡ 9600) ⊎ (n_speed ≡ 115200)
  pub bits : (n_bits ≡ 7) ⊎ (n_bits ≡ 8)
  pub event : (n_event ≡ b'O') ⊎ (n_event ≡ b'E') ⊎ (n_event ≡ b'N')
  pub stop : (n_stop ≡ 1) ⊎ (n_stop ≡ 2)

-- Where both calls of the driver succeed, the parameters read back from the line are those that
-- were asked for, for every combination of the known ones: the speed both ways, the data bits, the
-- parity and the stop bits; parity is checked unless it is off, and a read waits for one byte.
pub set_opt-line_of :
    (n_speed n_bits n_event n_stop : ℕ)
    → IsKnown n_speed n_bits n_event n_stop
    → (t : Termios) × (set_opt true true n_speed n_bits n_event n_stop ≡ (pos 0, some t))
      × (line_of t ≡ record {
        in_baud = n_speed;
        out_baud = n_speed;
        bits = n_bits;
        event = n_event;
        stop = n_stop;
        checks_parity = if n_event == b'N' then false else true;
        smallest_read = 1;
      })
unfolding set_opt with_bits with_event with_speed with_stop
set_opt-line_of n_speed n_bits n_event n_stop known = (_, refl, ground arith)
