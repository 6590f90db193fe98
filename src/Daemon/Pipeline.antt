-- ===== src/Daemon/Pipeline.antt =====
-- A request's way through the daemon of src/uart_start.c: `pipe_connect_handler` or
-- `uart_connect_handler`, a round of `data_process`, a round of `send_out_handler`.
use uart.Base.{
  pos, ℕ, zero, ◌≤◌, ◌≡◌, ◌≢◌, refl, ap, true, Option, some, List, [], ◌∷◌, ◌++◌, arith, length,
  replicate, ◌>>=◌, length-replicate,
}
use uart.Daemon.{Daemon, Reader, capacity, message}
use uart.Daemon.Parse.{Env, data_parse-pipe, reply, pipe_usboul_handler, usb_oul, count_up}
use uart.Daemon.Receive.{pipe_connect_handler, single_read-queues}
use uart.Daemon.Rounds.{
  data_process, popped, pop_node-first, Sent, to_uart, send_out_handler, send_out_handler-first,
  cleared,
}

-- The bytes "usb", and any bytes behind them.
abbrev pub usb_request : (rest : List ℕ) → List ℕ
usb_request rest = b'u' ∷ b's' ∷ b'b' ∷ rest

-- The pipe's handler reads `chunk`, then each of the two threads has a round.
unfoldable pub pipe_round :
    Env → (chunk : List ℕ) → (processor sender : Reader) → Daemon → Option (Sent × Reader × Daemon)
pipe_round env chunk processor sender s = do
  s' ← pipe_connect_handler true chunk s
  (_, s'') ← data_process env processor s'
  send_out_handler sender s''

data_process-usb :
    (env : Env) (rest : List ℕ) (r : Reader) (s : Daemon)
    → env.got ≡ true
    → s.recv_list ≡ message (usb_request rest) s.pipe_fd 0 ∷ []
    → s.pipe_fd ≢ s.uart_fd
    → length (usb_request rest) ≤ capacity
    → data_process env r s
      ≡ some (
        popped (message (usb_request rest) s.pipe_fd 0),
        record s {
          recv_list = [];
          pipe_handle_analy = count_up s.pipe_handle_analy 0;
          send_list = s.send_list ++ reply pipe_usboul_handler env ∷ [];
        },
      )
unfolding data_process
data_process-usb env rest r s got e ne fits =
    let m = message (usb_request rest) s.pipe_fd 0 in
    let room : length m.bytes ≤ length (replicate {A = ℕ} capacity zero) =
      omega (arith, length-replicate {A = ℕ} capacity zero, fits) in
    let first = pop_node-first m [] (record r { pdata = replicate capacity 0 }) room in
    let parsed = data_parse-pipe env got (popped m) (record s { recv_list = [] }) refl ne in
    rw (e, first, parsed)

-- A request that begins with "usb", is at most 1024 bytes long and arrives on the pipe while both
-- queues are empty, goes through: a round of each thread leaves both queues empty, counts the
-- request, and sends "AXX+USB+OUL&", and nothing else, to the serial line. The nodes are taken to
-- be allocated, and the pipe to be another descriptor than the serial line.
pub pipe_round-usb :
    (env : Env) (rest : List ℕ) (processor sender : Reader) (s : Daemon)
    → env.got ≡ true
    → s.recv_list ≡ []
    → s.send_list ≡ []
    → s.pipe_fd ≢ s.uart_fd
    → length (usb_request rest) ≤ capacity
    → length sender.pdata ≡ capacity
    → pipe_round env (usb_request rest) processor sender s
      ≡ some (
        to_uart usb_oul,
        cleared (reply pipe_usboul_handler env),
        record s {
          recv_list = [];
          send_list = [];
          pipe_handle_analy = count_up s.pipe_handle_analy 0;
        },
      )
unfolding pipe_round
pipe_round-usb env rest processor sender s got no_recv no_send ne fits size =
    let m = message (usb_request rest) s.pipe_fd 0 in
    let answer = reply pipe_usboul_handler env in
    let s' : Daemon = record s { recv_list = s.recv_list ++ m ∷ [] } in
    let s'' : Daemon = record s {
      recv_list = [];
      pipe_handle_analy = count_up s.pipe_handle_analy 0;
      send_list = s.send_list ++ answer ∷ [];
    } in
    let read = (single_read-queues true (usb_request rest) (pos 0) s).0 in
    let one : s.recv_list ++ m ∷ [] ≡ m ∷ [] = ap (λ q. q ++ m ∷ []) no_recv in
    let processed = data_process-usb env rest processor s' got one ne fits in
    let other : s.send_list ++ answer ∷ [] ≡ answer ∷ [] = ap (λ q. q ++ answer ∷ []) no_send in
    let written = send_out_handler-first answer [] sender s'' other (omega (arith, size)) in
    rw (read, processed, written)
