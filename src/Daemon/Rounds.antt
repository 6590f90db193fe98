-- ===== src/Daemon/Rounds.antt =====
-- The rounds of the threads `data_process` and `send_out_handler` of src/uart_start.c, each from
-- the return of its wait on. A wait that returns with an empty queue runs a round too.
use uart.Base.{
  ℕ, zero, suc, ◌≤◌, ◌≡◌, refl, sym, ap, true, Option, some, List, [], ◌∷◌, ◌++◌, arith, map,
  length, take, drop, replicate, leb, ◌==◌, if◌then◌else◌, ◌>>=◌, negsuc, length-replicate,
  take-append_length,
}
use uart.Linklist.{port_duer, port_uart}
use uart.Linklist.Shape.{Message}
use uart.Daemon.{Daemon, Reader, capacity, pop_node}
use uart.Daemon.Parse.{Env, data_parse, data_parse-ignores}

-- One round of `data_process`.
unfoldable pub data_process : Env → Reader → Daemon → Option (Reader × Daemon)
data_process env r s = do
  (ms, r') ← pop_node s.recv_list (record r { pdata = replicate capacity 0 })
  s' ← data_parse env (some r') (record s { recv_list = ms })
  some (r', s')

-- The node of `data_process` behind its `pop_node`.
abbrev pub popped : Message → Reader
popped m = record {
  pdata = m.bytes ++ drop (length m.bytes) (replicate capacity 0);
  data_len = length m.bytes;
  recv_fd = m.recv_fd;
  send_to = m.send_to;
}

-- What `send_out_handler` does with a message: `send_to_dueros`, or a `write` to the serial line.
pub data Sent : Type 0 where
  to_duer : List ℕ → Sent
  to_uart : List ℕ → Sent
  to_nobody : Sent

abbrev pub send : (port : ℕ) → (bytes : List ℕ) → Sent
send port bytes =
    if port == port_duer
    then to_duer bytes
    else if port == port_uart
    then to_uart bytes
    else to_nobody

-- One round of `send_out_handler`. The node is cleared behind the switch.
unfoldable pub send_out_handler : Reader → Daemon → Option (Sent × Reader × Daemon)
send_out_handler r s = do
  (ms, r') ← pop_node s.send_list r
  some (
    send r'.send_to (take r'.data_len r'.pdata),
    record r' { pdata = replicate capacity 0; data_len = 0; recv_fd = negsuc 0 },
    record s { send_list = ms },
  )

-- As many rounds as the first argument.
unfoldable pub send_rounds : ℕ → Reader → Daemon → Option (List Sent × Reader × Daemon)
send_rounds zero r s = some ([], r, s)
send_rounds (suc k) r s = do
  (e, r', s') ← send_out_handler r s
  (es, r'', s'') ← send_rounds k r' s'
  some (e ∷ es, r'', s'')

-- Every message fits the consumers' buffers.
abbrev pub Fit : List Message → Type 0
Fit [] = Unit {0}
Fit (m ∷ ms) = (length m.bytes ≤ capacity) × Fit ms

abbrev pub sent : Message → Sent
sent m = send m.send_to m.bytes

pub pop_node-first :
    (m : Message) (ms : List Message) (r : Reader)
    → length m.bytes ≤ length r.pdata
    → pop_node (m ∷ ms) r
      ≡ some (
        ms,
        record {
          pdata = m.bytes ++ drop (length m.bytes) r.pdata;
          data_len = length m.bytes;
          recv_fd = m.recv_fd;
          send_to = m.send_to;
        },
      )
unfolding pop_node
pop_node-first m ms r h =
    let room : leb (length m.bytes) (length r.pdata) ≡ true = ground arith in rw room

-- The node after a round of `send_out_handler` on the message `m`.
abbrev pub cleared : Message → Reader
cleared m = record {
  pdata = replicate capacity 0;
  data_len = 0;
  recv_fd = negsuc 0;
  send_to = m.send_to;
}

pub send_out_handler-first :
    (m : Message) (ms : List Message) (r : Reader) (s : Daemon)
    → s.send_list ≡ m ∷ ms
    → length m.bytes ≤ length r.pdata
    → send_out_handler r s ≡ some (sent m, cleared m, record s { send_list = ms })
unfolding send_out_handler
send_out_handler-first m ms r s e h = rw (
  e,
  pop_node-first m ms r h,
  take-append_length (length m.bytes) m.bytes (drop (length m.bytes) r.pdata) refl,
)

-- A round on an empty queue writes no bytes to the port of the message before.
pub send_out_handler-idle :
    (r : Reader) (s : Daemon)
    → s.send_list ≡ []
    → r.data_len ≡ 0
    → send_out_handler r s
      ≡ some (
        send r.send_to [],
        record r { pdata = replicate capacity 0; data_len = 0; recv_fd = negsuc 0 },
        s,
      )
unfolding send_out_handler pop_node
send_out_handler-idle r s e none_left =
    let same : record s { send_list = [] } ≡ s = ap (λ q. record s { send_list = q }) (sym e) in
    rw (e, none_left, same)

-- The sender takes the queue's messages in the order in which they were queued, each whole and to
-- its own port, and does not fault while they fit its buffer of 1024 bytes.
pub send_rounds-order :
    (ms : List Message) (r : Reader) (s : Daemon)
    → s.send_list ≡ ms
    → Fit ms
    → length r.pdata ≡ capacity
    → (r' : Reader) × (send_rounds (length ms) r s
        ≡ some (map sent ms, r', record s { send_list = [] }))
      × (length r'.pdata ≡ capacity)
unfolding send_rounds
send_rounds-order [] r s e f h = (r, ap (λ q. some ([], r, record s { send_list = q })) e, h)
send_rounds-order (m ∷ ms) r s e (fits, rest) h =
    let first = send_out_handler-first m ms r s e (omega (arith, h)) in
    let (r', returns, room) =
      send_rounds-order ms (cleared m) (record s { send_list = ms }) refl rest
        (length-replicate capacity zero) in
    (r', rw (first, returns), room)

-- A wait that returns with an empty queue does no harm to the receiving side: the round of
-- `data_process` clears the node's bytes and changes nothing else.
pub data_process-idle :
    (env : Env) (r : Reader) (s : Daemon)
    → s.recv_list ≡ []
    → data_process env r s ≡ some (record r { pdata = replicate capacity 0 }, s)
unfolding data_process pop_node
data_process-idle env r s e =
    let same : record s { recv_list = [] } ≡ s = ap (λ q. record s { recv_list = q }) (sym e) in
    let node : Reader = record r { pdata = replicate capacity 0 } in
    rw (e, same, data_parse-ignores env node s refl refl) refl
