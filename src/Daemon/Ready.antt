-- ===== src/Daemon/Ready.antt =====
-- What the rounds of src/uart_start.c need of the messages in the queues, and what they leave.
use uart.Base.{
  ℕ, zero, ◌≤◌, ◌≡◌, refl, sym, ap, ◌∙◌, inl, inr, Bool, true, false, Option, Option-cases, none,
  some, List, [], ◌∷◌, ◌++◌, arith, length, drop, replicate, ℤ, int_eq, append_assoc,
  length-replicate, Bool-cases,
}
use uart.Linklist.Shape.{Message}
use uart.Daemon.{Daemon, Reader, capacity}
use uart.Daemon.Text.{time_text, time_text-short}
use uart.Daemon.Parse.{
  Env, Handler, is_prefix, data_parse, reply, process_at_time_cmd, pipe_usboul_handler,
}
use uart.Daemon.Parse.Words.{
  time_word, usb_word, answers, answers_to, answers_to-padded, drop-AllZero,
}
use uart.Daemon.Parse.Outcome.{Parsed, data_parse-Parsed}
use uart.Daemon.Receive.{received}
use uart.Daemon.Rounds.{data_process, pop_node-first, Fit, send, sent, popped}
use uart.Daemon.Traffic.{Handled, if_any, all_answers}

-- A round of `data_process` on the message `m`, with `ms` behind it.
pub data_process-Parsed :
    (env : Env) (m : Message) (ms : List Message) (r : Reader) (s : Daemon) {r' : Reader}
    {s' : Daemon}
    → s.recv_list ≡ m ∷ ms
    → length m.bytes ≤ capacity
    → data_process env r s ≡ some (r', s')
    → Parsed (answers s.uart_fd s.pipe_fd env m) (record s { recv_list = ms }) s'
unfolding data_process
data_process-Parsed env m ms r s {r'} {s'} e fits runs =
    let t : Daemon = record s { recv_list = ms } in
    let room : length m.bytes ≤ length (replicate {A = ℕ} capacity zero) =
      omega (arith, length-replicate {A = ℕ} capacity zero, fits) in
    let first = pop_node-first m ms (record r { pdata = replicate capacity 0 }) room in
    let padded =
      answers_to-padded (int_eq m.recv_fd s.uart_fd) (int_eq m.recv_fd s.pipe_fd) env m.bytes
        (drop (length m.bytes) (replicate capacity 0)) (drop-AllZero (length m.bytes) capacity) in
    elim (Option-cases (data_parse env (some (popped m)) t)) [
      | inl fails ↦
          let null : ◌≡◌ {A = Option (Reader × Daemon)} none (some (r', s')) =
            rw (sym runs, e, first, fails) in
          absurd (cc)
      | inr (d, parsed) ↦
          let same : ◌≡◌ {A = Option (Reader × Daemon)} (some (popped m, d)) (some (r', s')) =
            rw (sym runs, e, first, parsed) in
          let last : d ≡ s' = cc in
          rw (sym padded) (data_parse-Parsed env (popped m) t (parsed ∙ ap some last))
    ]

-- Messages that the sender can take, and that are seen at their port.
abbrev pub AreReady : List Message → Type 0
AreReady [] = Unit {0}
AreReady (m ∷ ms) = (length m.bytes ≤ capacity) × (if_any (sent m) ≡ sent m ∷ []) × AreReady ms

pub AreReady-append : (ms ns : List Message) → AreReady ms → AreReady ns → AreReady (ms ++ ns)
AreReady-append [] ns r q = q
AreReady-append (m ∷ ms) ns (fits, seen, r) q = (fits, seen, AreReady-append ms ns r q)

pub Fit-append : (ms ns : List Message) → Fit ms → Fit ns → Fit (ms ++ ns)
Fit-append [] ns r q = q
Fit-append (m ∷ ms) ns (fits, r) q = (fits, Fit-append ms ns r q)

pub received-Fit :
    (got : Bool) (bytes : List ℕ) (fd : ℤ) → length bytes ≤ capacity → Fit (received got bytes fd)
received-Fit got [] fd h = tt
received-Fit false (_ ∷ _) fd h = tt
received-Fit true (b ∷ bs) fd h = (h, tt)

reply-AreReady : (h : Handler) (env : Env) → AreReady (reply h env ∷ [])
unfolding time_text
reply-AreReady process_at_time_cmd env = (omega (arith, time_text-short env.tm), refl, tt)
reply-AreReady pipe_usboul_handler env = (omega arith, refl, tt)

pub answers_to-AreReady :
    (is_uart is_pipe : Bool) (env : Env) (text : List ℕ)
    → AreReady (answers_to is_uart is_pipe env text)
answers_to-AreReady true is_pipe env text = elim (Bool-cases (is_prefix time_word text)) [
  | inl e ↦ rw e (reply-AreReady process_at_time_cmd env)
  | inr e ↦ rw e tt
]
answers_to-AreReady false true env text = elim (Bool-cases (is_prefix usb_word text)) [
  | inl e ↦ rw e (reply-AreReady pipe_usboul_handler env)
  | inr e ↦ rw e tt
]
answers_to-AreReady false false env text = tt

pub all_answers-append :
    (u p : ℤ) (hs ks : List Handled)
    → all_answers u p (hs ++ ks) ≡ all_answers u p hs ++ all_answers u p ks
all_answers-append u p [] ks = refl
all_answers-append u p (h ∷ hs) ks =
    ap (λ l. answers u p h.env h.message ++ l) (all_answers-append u p hs ks)
    ∙ sym (append_assoc (answers u p h.env h.message) (all_answers u p hs) (all_answers u p ks))

-- An idle round writes nothing that is seen.
pub send-nothing : (port : ℕ) → if_any (send port []) ≡ []
send-nothing port = ground arith
