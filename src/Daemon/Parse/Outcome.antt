-- ===== src/Daemon/Parse/Outcome.antt =====
-- What `data_parse` of src/uart_start.c answers to a message, wherever it ends without a fault.
use uart.Daemon.Parse.Words.{time_word, usb_word, answers_to}
use uart.Base.{
  ℕ, ◌≡◌, refl, sym, ap, ◌∙◌, inl, inr, Bool, true, false, Option, Option-cases, none, some, List,
  [], ◌∷◌, ◌++◌, if◌then◌else◌, int_eq, Bool-cases, append-nil,
}
use uart.Linklist.Shape.{Message}
use uart.Daemon.{Daemon, Reader, ready_send_data}
use uart.Daemon.Parse.{
  Env, Handler, process_at_time_cmd, pipe_usboul_handler, reply, is_prefix, run_handler,
  run_handler-sends, parse_one, parse_loop, parse_at, count_uart, count_pipe, data_parse,
}
use uart.Daemon.Text.{time_text}

-- Without memory for its node an answer is a fault.
run_handler-null :
    (h : Handler) (env : Env) (s : Daemon) → env.got ≡ false → run_handler h env s ≡ none
unfolding run_handler ready_send_data time_text
run_handler-null process_at_time_cmd env s e = rw e
run_handler-null pipe_usboul_handler env s e = rw e

-- What a call leaves of the queues and the descriptors, with these answers.
pub record Parsed (more : List Message) (s s' : Daemon) : Type 0 where
  pub recv_kept : s'.recv_list ≡ s.recv_list
  pub answered : s'.send_list ≡ s.send_list ++ more
  pub uart_kept : s'.uart_fd ≡ s.uart_fd
  pub pipe_kept : s'.pipe_fd ≡ s.pipe_fd

Parsed-none : {s s' : Daemon} → ◌≡◌ {A = Option Daemon} (some s) (some s') → Parsed [] s s'
Parsed-none {s} {s'} e =
    let same : s ≡ s' = cc in
    record {
      recv_kept = ap (λ d. d.recv_list) (sym same);
      answered = ap (λ d. d.send_list) (sym same) ∙ sym (append-nil s.send_list);
      uart_kept = ap (λ d. d.uart_fd) (sym same);
      pipe_kept = ap (λ d. d.pipe_fd) (sym same);
    }

run_handler-Parsed :
    (h : Handler) (env : Env) (s : Daemon) {s' : Daemon}
    → run_handler h env s ≡ some s'
    → Parsed (reply h env ∷ []) s s'
run_handler-Parsed h env s {s'} e = elim (Bool-cases env.got) [
  | inl got ↦
      let same : record s { send_list = s.send_list ++ reply h env ∷ [] } ≡ s' =
        let runs = sym (run_handler-sends env got h s) ∙ e in cc in
      record {
        recv_kept = ap (λ d. d.recv_list) (sym same);
        answered = ap (λ d. d.send_list) (sym same);
        uart_kept = ap (λ d. d.uart_fd) (sym same);
        pipe_kept = ap (λ d. d.pipe_fd) (sym same);
      }
  | inr missing ↦ let null = sym (run_handler-null h env s missing) ∙ e in absurd (cc)
]

Parsed-after :
    {more : List Message} {s t s' : Daemon} → Parsed [] s t → Parsed more t s' → Parsed more s s'
Parsed-after {more} {s} p q = record {
  recv_kept = q.recv_kept ∙ p.recv_kept;
  answered = q.answered ∙ ap (λ l. l ++ more) (p.answered ∙ append-nil s.send_list);
  uart_kept = q.uart_kept ∙ p.uart_kept;
  pipe_kept = q.pipe_kept ∙ p.pipe_kept;
}

Parsed-count :
    {s' : Daemon} (s : Daemon)
    → s'.recv_list ≡ s.recv_list
    → s'.send_list ≡ s.send_list
    → s'.uart_fd ≡ s.uart_fd
    → s'.pipe_fd ≡ s.pipe_fd
    → Parsed [] s s'
Parsed-count s r a u p = record {
  recv_kept = r;
  answered = a ∙ sym (append-nil s.send_list);
  uart_kept = u;
  pipe_kept = p;
}

-- A table of one entry.
parse_loop-Parsed :
    (count : ℕ → Daemon → Daemon)
    → ((d : Daemon) → Parsed [] d (count 0 d))
    → (env : Env) (protocol : List ℕ) (h : Handler) (pdata : List ℕ) (s : Daemon) {s' : Daemon}
    → parse_loop count env 0 (record { protocol = protocol; handler = h } ∷ []) pdata s ≡ some s'
    → Parsed (if is_prefix protocol pdata then reply h env ∷ [] else []) s s'
unfolding parse_loop parse_one
parse_loop-Parsed count keeps env protocol h pdata s {s'} e =
    elim (Bool-cases (is_prefix protocol pdata)) [
      | inl yes_it ↦ elim (Option-cases (run_handler h env (count 0 s))) [
        | inl fails ↦
            let null : ◌≡◌ {A = Option Daemon} none (some s') = rw (sym e, yes_it, fails) in
            absurd (cc)
        | inr (d, runs) ↦
            let same : ◌≡◌ {A = Option Daemon} (some d) (some s') = rw (sym e, yes_it, runs) in
            rw yes_it (Parsed-after (keeps s) (run_handler-Parsed h env (count 0 s) (runs ∙ same)))
      ]
      | inr no_it ↦
          let same : ◌≡◌ {A = Option Daemon} (some s) (some s') = rw (sym e, no_it) in
          rw no_it (Parsed-none same)
    ]

parse_at-Parsed :
    (env : Env) (is_uart is_pipe : Bool) (pdata : List ℕ) (s : Daemon) {s' : Daemon}
    → parse_at env is_uart is_pipe pdata s ≡ some s'
    → Parsed (answers_to is_uart is_pipe env pdata) s s'
unfolding parse_at
parse_at-Parsed env true is_pipe pdata s e =
    parse_loop-Parsed count_uart (λ d. Parsed-count d refl refl refl refl) env time_word
      process_at_time_cmd pdata s e
parse_at-Parsed env false true pdata s e =
    parse_loop-Parsed count_pipe (λ d. Parsed-count d refl refl refl refl) env usb_word
      pipe_usboul_handler pdata s e
parse_at-Parsed env false false pdata s e = Parsed-none e

-- Where a call of `data_parse` ends, it has queued the answers to the text behind what was queued,
-- and left the receive queue and the descriptors.
pub data_parse-Parsed :
    (env : Env) (src : Reader) (s : Daemon) {s' : Daemon}
    → data_parse env (some src) s ≡ some s'
    → Parsed
        (answers_to (int_eq src.recv_fd s.uart_fd) (int_eq src.recv_fd s.pipe_fd) env src.pdata)
        s
        s'
unfolding data_parse
data_parse-Parsed env src s e =
    parse_at-Parsed env (int_eq src.recv_fd s.uart_fd) (int_eq src.recv_fd s.pipe_fd) src.pdata s e

-- With memory for the answer's node, a call ends.
parse_loop-ends :
    (count : ℕ → Daemon → Daemon) (env : Env) (protocol : List ℕ) (h : Handler) (pdata : List ℕ)
    (s : Daemon)
    → env.got ≡ true
    → (s' : Daemon) × (parse_loop count env 0
          (record { protocol = protocol; handler = h } ∷ [])
          pdata
          s
        ≡ some s')
unfolding parse_loop parse_one
parse_loop-ends count env protocol h pdata s got = elim (Bool-cases (is_prefix protocol pdata)) [
  | inl yes_it ↦ (
    record (count 0 s) { send_list = (count 0 s).send_list ++ reply h env ∷ [] },
    rw (yes_it, run_handler-sends env got h (count 0 s)),
  )
  | inr no_it ↦ (s, rw no_it)
]

parse_at-ends :
    (env : Env) (is_uart is_pipe : Bool) (pdata : List ℕ) (s : Daemon)
    → env.got ≡ true
    → (s' : Daemon) × (parse_at env is_uart is_pipe pdata s ≡ some s')
unfolding parse_at
parse_at-ends env true is_pipe pdata s got =
    parse_loop-ends count_uart env time_word process_at_time_cmd pdata s got
parse_at-ends env false true pdata s got =
    parse_loop-ends count_pipe env usb_word pipe_usboul_handler pdata s got
parse_at-ends env false false pdata s got = (s, refl)

pub data_parse-ends :
    (env : Env) (src : Reader) (s : Daemon)
    → env.got ≡ true
    → (s' : Daemon) × (data_parse env (some src) s ≡ some s')
unfolding data_parse
data_parse-ends env src s got =
    parse_at-ends env (int_eq src.recv_fd s.uart_fd) (int_eq src.recv_fd s.pipe_fd) src.pdata s got
