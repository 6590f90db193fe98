-- ===== src/Daemon/Parse.antt =====
-- `data_parse` of src/uart_start.c, and the handlers and tables of src/uart_protocol.c.
pub mod Words
pub mod Outcome
use uart.Base.{
  ℕ, ◌+◌, ◌%◌, ◌≡◌, ◌≢◌, ap, ◌∙◌, inl, inr, Bool, true, false, Option, none, some, List, [], ◌∷◌,
  ◌++◌, length, get_or, set, ◌==◌, ◌&&◌, if◌then◌else◌, ◌>>=◌, u32_mod, pos, int_eq, int_eq_refl,
  int_eq_ne, Bool-cases,
}
use uart.Linklist.{port_uart}
use uart.Linklist.Shape.{Message}
use uart.Daemon.{Daemon, Reader, message, ready_send_data}
use uart.Daemon.Reply.{ready_send_data-queues}
use uart.Daemon.Text.{Tm, time_text}

-- What a handler finds around it: the local time, and whether its message's node can be allocated.
pub record Env : Type 0 where
  pub tm : Tm
  pub got : Bool

-- The functions that the tables name.
pub data Handler : Type 0 where
  process_at_time_cmd : Handler
  pipe_usboul_handler : Handler

pub record ProtocolHandle : Type 0 where
  pub protocol : List ℕ
  pub handler : Handler

-- "AXX+USB+OUL&"
abbrev pub usb_oul : List ℕ
usb_oul = b'A' ∷ b'X' ∷ b'X' ∷ b'+' ∷ b'U' ∷ b'S' ∷ b'B' ∷ b'+' ∷ b'O' ∷ b'U' ∷ b'L' ∷ b'&' ∷ []

-- `strlen` of a text is its length: neither holds a zero byte.
abbrev pub handler_text : Handler → Env → List ℕ
handler_text process_at_time_cmd env = time_text env.tm
handler_text pipe_usboul_handler env = usb_oul

pub run_handler : Handler → Env → Daemon → Option Daemon
unfolding ready_send_data
run_handler h env s = do
  (_, s') ←
      ready_send_data env.got port_uart (some (handler_text h env))
        (pos (length (handler_text h env))) s
  some s'

abbrev pub uart_handle : List ProtocolHandle
uart_handle =
    record { protocol = b't' ∷ b'i' ∷ b'm' ∷ b'e' ∷ []; handler = process_at_time_cmd } ∷ []

abbrev pub pipe_handle : List ProtocolHandle
pipe_handle = record { protocol = b'u' ∷ b's' ∷ b'b' ∷ []; handler = pipe_usboul_handler } ∷ []

-- `!strncmp(protocol, pdata, strlen(protocol))`
abbrev pub is_prefix : List ℕ → List ℕ → Bool
is_prefix [] _ = true
is_prefix (_ ∷ _) [] = false
is_prefix (p ∷ ps) (x ∷ xs) = (p == x) && is_prefix ps xs

abbrev pub count_up : List ℕ → ℕ → List ℕ
count_up counters i = set counters i ((get_or counters i 0 + 1) % u32_mod)

abbrev pub count_uart : ℕ → Daemon → Daemon
count_uart i s = record s { uart_handle_analy = count_up s.uart_handle_analy i }

abbrev pub count_pipe : ℕ → Daemon → Daemon
count_pipe i s = record s { pipe_handle_analy = count_up s.pipe_handle_analy i }

-- One round of the loops of `data_parse`.
pub parse_one :
    (count : ℕ → Daemon → Daemon)
    → Env
    → ℕ
    → ProtocolHandle
    → (pdata : List ℕ) → Daemon
    → Option Daemon
unfolding run_handler
parse_one count env i h pdata s =
    if is_prefix h.protocol pdata then run_handler h.handler env (count i s) else some s

parse_loop :
    (count : ℕ → Daemon → Daemon)
    → Env
    → ℕ
    → List ProtocolHandle
    → (pdata : List ℕ) → Daemon
    → Option Daemon
unfolding parse_one
parse_loop count env i [] pdata s = some s
parse_loop count env i (h ∷ hs) pdata s = do
  s' ← parse_one count env i h pdata s
  parse_loop count env (i + 1) hs pdata s'

parse_at : Env → (is_uart is_pipe : Bool) → List ℕ → Daemon → Option Daemon
unfolding parse_loop
parse_at env true is_pipe pdata s = parse_loop count_uart env 0 uart_handle pdata s
parse_at env false true pdata s = parse_loop count_pipe env 0 pipe_handle pdata s
parse_at env false false pdata s = some s

-- `none` for `src` is the null pointer.
unfoldable pub data_parse : Env → Option Reader → Daemon → Option Daemon
unfolding parse_at
data_parse env none s = some s
data_parse env (some src) s =
    parse_at env (int_eq src.recv_fd s.uart_fd) (int_eq src.recv_fd s.pipe_fd) src.pdata s

-- A handler's message as it is queued.
abbrev pub reply : Handler → Env → Message
reply h env = message (handler_text h env) (pos 0) port_uart

text_ne_nil : (h : Handler) (env : Env) → handler_text h env ≢ []
unfolding time_text
text_ne_nil process_at_time_cmd env e = cc
text_ne_nil pipe_usboul_handler env e = cc

-- A message that begins with neither word is ignored, wherever it comes from.
pub data_parse-ignores :
    (env : Env) (src : Reader) (s : Daemon)
    → is_prefix (b't' ∷ b'i' ∷ b'm' ∷ b'e' ∷ []) src.pdata ≡ false
    → is_prefix (b'u' ∷ b's' ∷ b'b' ∷ []) src.pdata ≡ false
    → data_parse env (some src) s ≡ some s
unfolding data_parse
data_parse-ignores env src s no_time no_usb = elim (Bool-cases (int_eq src.recv_fd s.uart_fd)) [
  | inl uart ↦ simp (uart, no_time)
  | inr other ↦ elim (Bool-cases (int_eq src.recv_fd s.pipe_fd)) [
    | inl pipe ↦ simp (other, pipe, no_usb)
    | inr none_of_both ↦ simp (other, none_of_both)
  ]
]

module _ (env : Env) (got : env.got ≡ true) where
  pub run_handler-sends :
      (h : Handler) (s : Daemon)
      → run_handler h env s ≡ some (record s { send_list = s.send_list ++ reply h env ∷ [] })
  unfolding run_handler
  run_handler-sends h s =
      simp (got, ready_send_data-queues port_uart (handler_text h env) s (text_ne_nil h env))

  parse_one-sends :
      (count : ℕ → Daemon → Daemon) (i : ℕ) (h : Handler) (protocol pdata : List ℕ) (s : Daemon)
      → (parse_one count env i (record { protocol = protocol; handler = h }) pdata s >>= some) ≡ (
          if is_prefix protocol pdata
          then some (record (count i s) { send_list = (count i s).send_list ++ reply h env ∷ [] })
          else some s)
  unfolding parse_one
  parse_one-sends count i h protocol pdata s = elim (Bool-cases (is_prefix protocol pdata)) [
    | inl yes_it ↦ rw yes_it (simp (run_handler-sends h (count i s)))
    | inr no_it ↦ rw no_it
  ]

  -- Where the message comes from the serial line and the answer's node can be allocated, the
  -- handler of the first table runs if and only if the message begins with "time": it is counted,
  -- and the time is queued for the serial line, behind what is queued already.
  pub data_parse-uart :
      (src : Reader) (s : Daemon)
      → src.recv_fd ≡ s.uart_fd
      → data_parse env (some src) s ≡ (
          if is_prefix (b't' ∷ b'i' ∷ b'm' ∷ b'e' ∷ []) src.pdata
          then some (record s {
            uart_handle_analy = count_up s.uart_handle_analy 0;
            send_list = s.send_list ++ reply process_at_time_cmd env ∷ [];
          })
          else some s)
  unfolding data_parse
  data_parse-uart src s e =
      let here : int_eq src.recv_fd s.uart_fd ≡ true =
        ap (λ a. int_eq a s.uart_fd) e ∙ int_eq_refl s.uart_fd in
      simp here (
        parse_one-sends count_uart 0 process_at_time_cmd (b't' ∷ b'i' ∷ b'm' ∷ b'e' ∷ []) src.pdata
          s)

  -- Where the message comes from the pipe, which is another descriptor than the serial line, and
  -- the answer's node can be allocated, the handler of the second table runs if and only if the
  -- message begins with "usb": it is counted, and the answer is queued for the serial line,
  -- behind what is queued already.
  pub data_parse-pipe :
      (src : Reader) (s : Daemon)
      → src.recv_fd ≡ s.pipe_fd
      → s.pipe_fd ≢ s.uart_fd
      → data_parse env (some src) s ≡ (
          if is_prefix (b'u' ∷ b's' ∷ b'b' ∷ []) src.pdata
          then some (record s {
            pipe_handle_analy = count_up s.pipe_handle_analy 0;
            send_list = s.send_list ++ reply pipe_usboul_handler env ∷ [];
          })
          else some s)
  unfolding data_parse
  data_parse-pipe src s e ne =
      let here : int_eq src.recv_fd s.pipe_fd ≡ true =
        ap (λ a. int_eq a s.pipe_fd) e ∙ int_eq_refl s.pipe_fd in
      let not_uart : int_eq src.recv_fd s.uart_fd ≡ false =
        ap (λ a. int_eq a s.uart_fd) e ∙ int_eq_ne s.pipe_fd s.uart_fd ne in
      simp (here, not_uart)
        (parse_one-sends count_pipe 0 pipe_usboul_handler (b'u' ∷ b's' ∷ b'b' ∷ []) src.pdata s)
