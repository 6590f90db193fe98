-- ===== src/Daemon/Delivery.antt =====
-- From the handlers to the ports: what the threads of src/uart_start.c do with every message,
-- whatever the order of their steps.
use mathlib.Core.List.{map-append}
use mathlib.Core.Path.{subst}
use uart.Base.{
  ◌≤◌, Bool, ap₂, ℕ, zero, ◌≡◌, refl, sym, ap, ◌∙◌, true, Option, some, List, [], ◌∷◌, ◌++◌, arith,
  length, replicate, map, ℤ, pos, int_eq, append-nil, append_assoc, length-replicate, negsuc,
}
use uart.Linklist.Shape.{Message}
use uart.Daemon.{Daemon, Reader, capacity}
use uart.Daemon.Parse.{Env}
use uart.Daemon.Parse.Words.{answers}
use uart.Daemon.Parse.Outcome.{Parsed}
use uart.Daemon.Read.{kept}
use uart.Daemon.Receive.{uart_connect_handler_lem, received, single_read-queues}
use uart.Daemon.Rounds.{
  data_process, data_process-idle, Fit, Sent, send, sent, send_out_handler, send_out_handler-first,
  send_out_handler-idle, cleared,
}
use uart.Daemon.Traffic.{
  Handled, Traffic, head_of, if_any, Reads, uart_reads, pipe_reads, sock_reads, Processes,
  processes, Sends, sends, begun, all_answers,
}
use uart.Daemon.System.{
  System, Rules, Step, handler_reads, recv_signal, processor_tests, processor_sleeps,
  processor_wakes, processor_round, send_signal, sender_tests, sender_sleeps, sender_wakes,
  sender_round, Reach, here, next, started,
}
use uart.Daemon.Ready.{
  data_process-Parsed, AreReady, AreReady-append, Fit-append, received-Fit, answers_to-AreReady,
  all_answers-append, send-nothing,
}

pub record Inv (uart_fd pipe_fd : ℤ) (s : Traffic) : Type 0 where
  pub uart_kept : s.daemon.uart_fd ≡ uart_fd
  pub pipe_kept : s.daemon.pipe_fd ≡ pipe_fd
  pub fits : Fit s.daemon.recv_list
  pub ready : AreReady s.daemon.send_list
  pub sender_room : length s.sender.pdata ≡ capacity
  pub sender_empty : s.sender.data_len ≡ 0
  pub in_order : s.queued ≡ map (λ h. h.message) s.handled ++ s.daemon.recv_list
  pub answered :
      s.written ++ map sent s.daemon.send_list ≡ map sent (all_answers uart_fd pipe_fd s.handled)

module _ {u p : ℤ} {s : Traffic} (v : Inv u p s) where
  -- A handler queues the messages `more`, and leaves the rest.
  reads-Inv :
      (d : Daemon) (more : List Message)
      → Fit more
      → d.recv_list ≡ s.daemon.recv_list ++ more
      → d.send_list ≡ s.daemon.send_list
      → d.uart_fd ≡ s.daemon.uart_fd
      → d.pipe_fd ≡ s.daemon.pipe_fd
      → Inv u p (record s { daemon = d; queued = s.queued ++ more })
  reads-Inv d more f recv out uart pipe = record {
    uart_kept = uart ∙ v.uart_kept;
    pipe_kept = pipe ∙ v.pipe_kept;
    fits = rw recv (Fit-append s.daemon.recv_list more v.fits f);
    ready = rw out v.ready;
    sender_room = v.sender_room;
    sender_empty = v.sender_empty;
    in_order =
        ap (λ l. l ++ more) v.in_order
        ∙ append_assoc (map (λ h. h.message) s.handled) s.daemon.recv_list more
        ∙ ap (λ l. map (λ h. h.message) s.handled ++ l) (sym recv);
    answered = ap (λ l. s.written ++ map sent l) out ∙ v.answered;
  }

  -- A round of `data_process` takes the messages of `hs` off the queue, which leaves `ms`.
  processed-Inv :
      (d : Daemon) (r : Reader) (hs : List Handled) (ms : List Message)
      → map (λ h. h.message) hs ++ ms ≡ s.daemon.recv_list
      → Fit ms
      → AreReady (all_answers u p hs)
      → Parsed (all_answers u p hs) (record s.daemon { recv_list = ms }) d
      → Inv u p (record s { daemon = d; processor = r; handled = s.handled ++ hs })
  processed-Inv d r hs ms taken f ready parsed = record {
    uart_kept = parsed.uart_kept ∙ v.uart_kept;
    pipe_kept = parsed.pipe_kept ∙ v.pipe_kept;
    fits = rw parsed.recv_kept f;
    ready =
        rw parsed.answered (AreReady-append s.daemon.send_list (all_answers u p hs) v.ready ready);
    sender_room = v.sender_room;
    sender_empty = v.sender_empty;
    in_order =
        v.in_order
        ∙ ap (λ l. map (λ h. h.message) s.handled ++ l) (sym taken)
        ∙ sym (append_assoc (map (λ h. h.message) s.handled) (map (λ h. h.message) hs) ms)
        ∙ ap₂ (λ l k. l ++ k) (sym (map-append (λ h. h.message) s.handled hs))
            (sym parsed.recv_kept);
    answered =
        ap (λ l. s.written ++ map sent l) parsed.answered
        ∙ ap (λ l. s.written ++ l) (map-append sent s.daemon.send_list (all_answers u p hs))
        ∙ sym (append_assoc s.written (map sent s.daemon.send_list) (map sent (all_answers u p hs)))
        ∙ ap (λ l. l ++ map sent (all_answers u p hs)) v.answered
        ∙ sym (map-append sent (all_answers u p s.handled) (all_answers u p hs))
        ∙ ap (map sent) (sym (all_answers-append u p s.handled hs));
  }

  processes-Inv :
      (env : Env) (r : Reader) (d : Daemon) (ms : List Message)
      → s.daemon.recv_list ≡ ms
      → data_process env s.processor s.daemon ≡ some (r, d)
      → Inv u p (record s { daemon = d; processor = r; handled = s.handled ++ head_of env ms })
  processes-Inv env r d [] e runs =
      let idle : ◌≡◌ {A = Option (Reader × Daemon)}
          (some (record s.processor { pdata = replicate capacity 0 }, s.daemon)) (some (r, d)) =
        sym (data_process-idle env s.processor s.daemon e) ∙ runs in
      let same : d ≡ s.daemon = cc in
      processed-Inv d r [] [] (sym e) tt tt (record {
        recv_kept = ap (λ d'. d'.recv_list) same ∙ e;
        answered = ap (λ d'. d'.send_list) same ∙ sym (append-nil s.daemon.send_list);
        uart_kept = ap (λ d'. d'.uart_fd) same;
        pipe_kept = ap (λ d'. d'.pipe_fd) same;
      })
  processes-Inv env r d (m ∷ ms) e runs =
      let f : Fit (m ∷ ms) = subst Fit e v.fits in
      let same : answers s.daemon.uart_fd s.daemon.pipe_fd env m
          ≡ all_answers u p (record { env = env; message = m } ∷ []) =
        ap₂ (λ a b. answers a b env m) v.uart_kept v.pipe_kept
        ∙ sym (append-nil (answers u p env m)) in
      let parsed = data_process-Parsed env m ms s.processor s.daemon e f.0 runs in
      processed-Inv d r (record { env = env; message = m } ∷ []) ms (sym e) f.1
        (subst AreReady (sym (append-nil (answers u p env m)))
          (answers_to-AreReady (int_eq m.recv_fd u) (int_eq m.recv_fd p) env m.bytes))
        (subst (λ more. Parsed more (record s.daemon { recv_list = ms }) d) same parsed)

  -- A round of `send_out_handler` ends with the node `r`, and leaves `ms`.
  wrote-Inv :
      (out : Sent) (r : Reader) (d : Daemon) (ms : List Message)
      → d ≡ record s.daemon { send_list = ms }
      → r.pdata ≡ replicate capacity 0
      → r.data_len ≡ 0
      → AreReady ms
      → if_any out ++ map sent ms ≡ map sent s.daemon.send_list
      → Inv u p (record s { daemon = d; sender = r; written = s.written ++ if_any out })
  wrote-Inv out r d ms left cleared_node empty ready took = record {
    uart_kept = ap (λ x. x.uart_fd) left ∙ v.uart_kept;
    pipe_kept = ap (λ x. x.pipe_fd) left ∙ v.pipe_kept;
    fits = subst Fit (sym (ap (λ x. x.recv_list) left)) v.fits;
    ready = subst AreReady (sym (ap (λ x. x.send_list) left)) ready;
    sender_room = ap length cleared_node ∙ length-replicate capacity zero;
    sender_empty = empty;
    in_order = v.in_order ∙ ap (λ x. map (λ h. h.message) s.handled ++ x.recv_list) (sym left);
    answered =
        ap (λ x. (s.written ++ if_any out) ++ map sent x.send_list) left
        ∙ append_assoc s.written (if_any out) (map sent ms)
        ∙ ap (λ l. s.written ++ l) took
        ∙ v.answered;
  }

  sends-Inv :
      (out : Sent) (r : Reader) (d : Daemon) (ms : List Message)
      → s.daemon.send_list ≡ ms
      → send_out_handler s.sender s.daemon ≡ some (out, r, d)
      → Inv u p (record s { daemon = d; sender = r; written = s.written ++ if_any out })
  sends-Inv out r d [] e runs =
      let idle : ◌≡◌ {A = Option (Sent × Reader × Daemon)}
          (some (
            send s.sender.send_to [],
            record s.sender { pdata = replicate capacity 0; data_len = 0; recv_fd = negsuc 0 },
            s.daemon,
          ))
          (some (out, r, d)) =
        sym (send_out_handler-idle s.sender s.daemon e v.sender_empty) ∙ runs in
      let nothing : send s.sender.send_to [] ≡ out = cc in
      let node : record s.sender { pdata = replicate capacity 0; data_len = 0; recv_fd = negsuc 0 }
          ≡ r =
        cc in
      let same : s.daemon ≡ d = cc in
      wrote-Inv out r d [] (sym same ∙ ap (λ l. record s.daemon { send_list = l }) e)
        (ap (λ (x : Reader). x.pdata) (sym node)) (ap (λ (x : Reader). x.data_len) (sym node)) tt
        (ap (λ o. if_any o ++ []) (sym nothing)
          ∙ ap (λ l. l ++ []) (send-nothing s.sender.send_to)
          ∙ ap (map sent) (sym e))
  sends-Inv out r d (m ∷ ms) e runs =
      let f : AreReady (m ∷ ms) = subst AreReady e v.ready in
      let first : ◌≡◌ {A = Option (Sent × Reader × Daemon)}
          (some (sent m, cleared m, record s.daemon { send_list = ms })) (some (out, r, d)) =
        sym (send_out_handler-first m ms s.sender s.daemon e (omega (arith, f.0, v.sender_room)))
        ∙ runs in
      let wrote : sent m ≡ out = cc in
      let node : cleared m ≡ r = cc in
      let left : record s.daemon { send_list = ms } ≡ d = cc in
      wrote-Inv out r d ms (sym left) (ap (λ (x : Reader). x.pdata) (sym node))
        (ap (λ (x : Reader). x.data_len) (sym node)) f.2
        (ap (λ o. if_any o ++ map sent ms) (sym wrote)
          ∙ ap (λ l. l ++ map sent ms) f.1
          ∙ ap (map sent) (sym e))

  -- A handler that reads once.
  single_read-Inv :
      (got : Bool) (chunk : List ℕ) (fd : ℤ) (d : Daemon)
      → length chunk ≤ capacity
      → ◌≡◌ {A = Option Daemon}
          (some (record s.daemon { recv_list = s.daemon.recv_list ++ received got chunk fd }))
          (some d)
      → Inv u p (record s { daemon = d; queued = s.queued ++ received got chunk fd })
  single_read-Inv got chunk fd d h runs =
      let more = received got chunk fd in
      let same : record s.daemon { recv_list = s.daemon.recv_list ++ more } ≡ d = cc in
      reads-Inv d more (received-Fit got chunk fd h) (ap (λ x. x.recv_list) (sym same))
        (ap (λ x. x.send_list) (sym same)) (ap (λ x. x.uart_fd) (sym same))
        (ap (λ x. x.pipe_fd) (sym same))

  Reads-Inv : {t : Traffic} → Reads s t → Inv u p t
  Reads-Inv (uart_reads got chunks unread d runs e) =
      let (left, ends, below) = uart_connect_handler_lem got chunks s.daemon in
      let more = received got (kept capacity chunks) s.daemon.uart_fd in
      let both : ◌≡◌ {A = Option (List (List ℕ) × Daemon)}
          (some
            (left, record s.daemon { recv_list = s.daemon.recv_list ++ more; uart_watched = true }))
          (some (unread, d)) =
        sym ends ∙ runs in
      let same : record s.daemon { recv_list = s.daemon.recv_list ++ more; uart_watched = true }
          ≡ d =
        cc in
      rw e (
        reads-Inv d more
          (received-Fit got (kept capacity chunks) s.daemon.uart_fd (omega (arith, below)))
          (ap (λ x. x.recv_list) (sym same)) (ap (λ x. x.send_list) (sym same))
          (ap (λ x. x.uart_fd) (sym same)) (ap (λ x. x.pipe_fd) (sym same)))
  Reads-Inv (pipe_reads got chunk d h runs e) = rw e (
      single_read-Inv got chunk s.daemon.pipe_fd d h
        (sym ((single_read-queues got chunk (pos 0) s.daemon).0) ∙ runs))
  Reads-Inv (sock_reads got fd chunk d h runs e) =
      rw e (
        single_read-Inv got chunk fd d h
          (sym ((single_read-queues got chunk fd s.daemon).1) ∙ runs))

  pub Processes-Inv : {t : Traffic} → Processes s t → Inv u p t
  Processes-Inv (processes env r d runs e) =
      rw e (processes-Inv env r d s.daemon.recv_list refl runs)

  pub Sends-Inv : {t : Traffic} → Sends s t → Inv u p t
  Sends-Inv (sends out r d runs e) = rw e (sends-Inv out r d s.daemon.send_list refl runs)

begun-Inv : (uart_fd pipe_fd : ℤ) → Inv uart_fd pipe_fd (begun uart_fd pipe_fd)
begun-Inv uart_fd pipe_fd = record {
  uart_kept = refl;
  pipe_kept = refl;
  fits = tt;
  ready = tt;
  sender_room = length-replicate capacity zero;
  sender_empty = refl;
  in_order = refl;
  answered = refl;
}

pub Step-Inv :
    {u p : ℤ} {rules : Rules} {s t : System}
    → Step rules s t
    → Inv u p s.traffic
    → Inv u p t.traffic
Step-Inv (handler_reads t reads e) v = rw e (Reads-Inv v reads)
Step-Inv (recv_signal some_left comes e) v = rw e v
Step-Inv (processor_tests done at e) v = rw e v
Step-Inv (processor_sleeps at e) v = rw e v
Step-Inv (processor_wakes may at e) v = rw e v
Step-Inv (processor_round t at round e) v = rw e (Processes-Inv v round)
Step-Inv (send_signal some_left comes e) v = rw e v
Step-Inv (sender_tests at e) v = rw e v
Step-Inv (sender_sleeps at e) v = rw e v
Step-Inv (sender_wakes may at e) v = rw e v
Step-Inv (sender_round t at round e) v = rw e (Sends-Inv v round)

pub Reach-Inv :
    (uart_fd pipe_fd : ℤ) {rules : Rules} {s : System}
    → Reach rules (started uart_fd pipe_fd) s
    → Inv uart_fd pipe_fd s.traffic
Reach-Inv uart_fd pipe_fd here = begun-Inv uart_fd pipe_fd
Reach-Inv uart_fd pipe_fd (next r st) = Step-Inv st (Reach-Inv uart_fd pipe_fd r)

-- Whatever the order of the threads' steps, waits and signals: the messages that were processed and then those in the
-- receive queue are the messages that the handlers queued, in order; and what was written to the
-- ports and then what is in the send queue are the answers to the processed messages, in order,
-- each once, and nothing else.
pub Reach-InOrder :
    (uart_fd pipe_fd : ℤ) {rules : Rules} {s : System}
    → Reach rules (started uart_fd pipe_fd) s
    → (s.traffic.queued ≡ map (λ h. h.message) s.traffic.handled ++ s.traffic.daemon.recv_list)
      × (s.traffic.written ++ map sent s.traffic.daemon.send_list
          ≡ map sent (all_answers uart_fd pipe_fd s.traffic.handled))
Reach-InOrder uart_fd pipe_fd r = let v = Reach-Inv uart_fd pipe_fd r in (v.in_order, v.answered)
