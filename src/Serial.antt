-- ===== src/Serial.antt =====
-- The opening of the serial line and of the pipe, src/uart_start.c. A flag word is the record of the
-- flags that are set; the numbers are ints, of which a negative one takes no case, as 0 does here.
pub mod Settings
mod Tests
use uart.Base.{
  ℕ, ◌≡◌, Bool, true, false, Option, none, some, List, ◌==◌, if◌then◌else◌, ℤ, pos, negsuc,
}

-- The field CSIZE of `c_cflag`; all its bits clear are CS5.
pub data CharSize : Type 0 where
  cs5 : CharSize
  cs7 : CharSize
  cs8 : CharSize

pub data Speed : Type 0 where
  b0 : Speed
  b2400 : Speed
  b4800 : Speed
  b9600 : Speed
  b115200 : Speed

-- `struct termios`, as far as it is written.
pub record Termios : Type 0 where
  pub clocal : Bool
  pub cread : Bool
  pub csize : CharSize
  pub parenb : Bool
  pub parodd : Bool
  pub cstopb : Bool
  pub inpck : Bool
  pub istrip : Bool
  pub ispeed : Speed
  pub ospeed : Speed
  pub vtime : ℕ
  pub vmin : ℕ

-- Behind `bzero` and the two assignments to `c_cflag`.
abbrev pub cleared : Termios
cleared = record {
  clocal = true;
  cread = true;
  csize = cs5;
  parenb = false;
  parodd = false;
  cstopb = false;
  inpck = false;
  istrip = false;
  ispeed = b0;
  ospeed = b0;
  vtime = 0;
  vmin = 0;
}

unfoldable pub with_bits : (n_bits : ℕ) → Termios → Termios
with_bits n_bits t =
    if n_bits == 7
    then record t { csize = cs7 }
    else if n_bits == 8
    then record t { csize = cs8 }
    else t

unfoldable pub with_event : (n_event : ℕ) → Termios → Termios
with_event n_event t =
    if n_event == b'O'
    then record t { parenb = true; parodd = true; inpck = true; istrip = true }
    else if n_event == b'E'
    then record t { inpck = true; istrip = true; parenb = true; parodd = false }
    else if n_event == b'N'
    then record t { parenb = false }
    else t

abbrev pub at_speed : Speed → Termios → Termios
at_speed b t = record t { ispeed = b; ospeed = b }

unfoldable pub with_speed : (n_speed : ℕ) → Termios → Termios
with_speed n_speed t =
    if n_speed == 2400
    then at_speed b2400 t
    else if n_speed == 4800
    then at_speed b4800 t
    else if n_speed == 9600
    then at_speed b9600 t
    else if n_speed == 115200
    then at_speed b115200 t
    else at_speed b9600 t

unfoldable pub with_stop : (n_stop : ℕ) → Termios → Termios
with_stop n_stop t =
    if n_stop == 1
    then record t { cstopb = false }
    else if n_stop == 2
    then record t { cstopb = true }
    else t

abbrev pub newtio : (n_speed n_bits n_event n_stop : ℕ) → Termios
newtio n_speed n_bits n_event n_stop =
    record (with_stop n_stop (with_speed n_speed (with_event n_event (with_bits n_bits cleared)))) {
      vtime = 0;
      vmin = 1;
    }

-- The two flags say whether `tcgetattr` and `tcsetattr` succeed. The result is that of the call,
-- and what the line is set to, if it is set.
unfoldable pub set_opt :
    (got_attr set_attr : Bool) → (n_speed n_bits n_event n_stop : ℕ) → ℤ × Option Termios
set_opt false set_attr n_speed n_bits n_event n_stop = (negsuc 0, none)
set_opt true false n_speed n_bits n_event n_stop = (negsuc 0, none)
set_opt true true n_speed n_bits n_event n_stop =
    (pos 0, some (newtio n_speed n_bits n_event n_stop))

-- `opened` is what `open` returns, `none` for -1. The result of `set_opt` is not looked at.
unfoldable pub open_port : (opened : Option ℕ) (got_attr set_attr : Bool) → ℤ × Option Termios
open_port none got_attr set_attr = (negsuc 0, none)
open_port (some fd) got_attr set_attr = (pos fd, (set_opt got_attr set_attr 115200 8 b'N' 1).1)

-- `G_uartfd` and the line's settings, or `none` where the process exits.
unfoldable pub init_uart :
    (opened : Option ℕ) (got_attr set_attr : Bool) → Option (ℤ × Option Termios)
init_uart none got_attr set_attr = none
init_uart (some fd) got_attr set_attr = some (open_port (some fd) got_attr set_attr)

-- `*pipefd`. The removal of the old pipe and `mkfifo` are not tested.
unfoldable pub init_pipe : (opened : Option ℕ) → ℤ
init_pipe none = negsuc 0
init_pipe (some fd) = pos fd
