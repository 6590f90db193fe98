-- ===== src/Daemon/Exclusive.antt =====
-- Who has the serial line of src/uart_start.c, and where what was read from it is.
use mathlib.Core.List.{Perm, perm_middle}
use mathlib.Core.List.Perm
use mathlib.Core.Path.{subst}
use native.Mathlib.Decide.{ℕ_discrete}
use uart.Base.{
  ℕ, ◌+◌, ◌-◌, ◌<◌, ◌≡◌, ◌≢◌, refl, sym, ap, ◌∙◌, Bool, true, false, some, List, [], ◌∷◌, ◌++◌,
  arith, ℤ, int_eq_refl, int_eq_ne, ◌⊎◌, inl, inr,
}
use uart.Daemon.Start.{
  Watch, unwatched, edge, level, Loop, on_ready, epoll_start, epoll_start-edge, Fcntl,
}
use uart.Daemon.Line.{
  Line, handle_line, if_any, watch_again, put_in_queue, Move, reports, handles_line, handles_other,
  starts, reads, puts, Run, here, next, opened,
}

abbrev pub watching : Watch → ℕ
watching unwatched = 0
watching edge = 1
watching level = 1

-- Either epoll watches the line or one handler has it, not yet put back.
pub record Inv (s : Line) : Type 0 where
  pub one : watching s.loop.uart_watch + s.queued + s.reading ≡ 1
  pub reported_watched : s.reported ≡ true → watching s.loop.uart_watch ≡ 1
  pub kept : Perm s.read (s.holding ++ (s.inserted ++ s.dropped))

on_ready-line : (s : Loop) → (on_ready s.uart_fd s).uart_watch ≡ unwatched
unfolding on_ready
on_ready-line s = rw (int_eq_refl s.uart_fd)

on_ready-other : (fd : ℤ) (s : Loop) → fd ≢ s.uart_fd → (on_ready fd s).uart_watch ≡ s.uart_watch
unfolding on_ready
on_ready-other fd s ne = rw (int_eq_ne fd s.uart_fd ne) (ground arith)

watching-ne : (w : Watch) → w ≢ unwatched → watching w ≡ 1
watching-ne unwatched ne = absurd (ne refl)
watching-ne edge ne = refl
watching-ne level ne = refl

not_watching : (w : Watch) → watching w ≡ 0 → w ≡ unwatched
not_watching unwatched e = refl
not_watching edge e = absurd (omega (arith, e))
not_watching level e = absurd (omega (arith, e))

perm_moved :
    {A : Type 0} (x : A) (before behind front back : List A)
    → Perm ((before ++ x ∷ behind) ++ (front ++ back)) ((before ++ behind) ++ (front ++ x ∷ back))
perm_moved x before behind front back =
    Perm.trans (Perm.append_right (front ++ back) (perm_middle before behind)) (
      Perm.symm (
        Perm.trans (Perm.append_left (before ++ behind) (perm_middle front back))
          (perm_middle (before ++ behind) (front ++ back))))

kept_with :
    (bytes : List ℕ) {xs : List (List ℕ)} (ys zs : List (List ℕ))
    → Perm xs (ys ++ zs)
    → Perm (if_any bytes ++ xs) ((if_any bytes ++ ys) ++ zs)
kept_with [] ys zs p = p
kept_with (b ∷ bs) ys zs p = Perm.cons (b ∷ bs) p

module _ {s : Line} (v : Inv s) where
  handle_line-Inv : s.reported ≡ true → Inv (handle_line s)
  unfolding handle_line
  handle_line-Inv e = record {
    one = omega (arith, ap watching (on_ready-line s.loop), v.one, v.reported_watched e);
    reported_watched = λ x. absurd cc;
    kept = v.kept;
  }

  put_in_queue-Inv :
      (got : Bool) (before behind : List (List ℕ)) (bytes : List ℕ)
      → s.holding ≡ before ++ bytes ∷ behind
      → Inv (put_in_queue got before behind bytes s)
  unfolding put_in_queue
  put_in_queue-Inv true before behind bytes e = record {
    one = v.one;
    reported_watched = v.reported_watched;
    kept =
        Perm.trans (subst (λ held. Perm s.read (held ++ (s.inserted ++ s.dropped))) e v.kept)
          (perm_moved bytes before behind [] (s.inserted ++ s.dropped));
  }
  put_in_queue-Inv false before behind bytes e = record {
    one = v.one;
    reported_watched = v.reported_watched;
    kept =
        Perm.trans (subst (λ held. Perm s.read (held ++ (s.inserted ++ s.dropped))) e v.kept)
          (perm_moved bytes before behind s.inserted s.dropped);
  }

  watch_again-Inv : (bytes : List ℕ) → 0 < s.reading → Inv (watch_again bytes s)
  unfolding watch_again
  watch_again-Inv bytes p = record {
    one = omega (arith, v.one);
    reported_watched = λ _. refl;
    kept = kept_with bytes s.holding (s.inserted ++ s.dropped) v.kept;
  }

  Move-Inv : {u : Line} → Move s u → Inv u
  Move-Inv (reports w r e) = rw e (record {
    one = v.one;
    reported_watched = λ _. watching-ne s.loop.uart_watch w;
    kept = v.kept;
  })
  Move-Inv (handles_line r e) = rw e (handle_line-Inv r)
  Move-Inv (handles_other fd ne e) =
      let same = ap watching (on_ready-other fd s.loop ne) in
      rw e (record {
        one = omega (arith, same, v.one);
        reported_watched = λ r. same ∙ v.reported_watched r;
        kept = v.kept;
      })
  Move-Inv (starts p e) = rw e (record {
    one = omega (arith, p, v.one);
    reported_watched = v.reported_watched;
    kept = v.kept;
  })
  Move-Inv (reads bytes p e) = rw e (watch_again-Inv bytes p)
  Move-Inv (puts got before behind bytes held e) =
      rw e (put_in_queue-Inv got before behind bytes held)

Run-Inv : {s u : Line} → Inv s → Run s u → Inv u
Run-Inv v here = v
Run-Inv v (next r m) = Move-Inv (Run-Inv v r) m

opened-Inv : (l : Loop) → l.uart_watch ≡ edge → Inv (opened l)
opened-Inv l e = record {
  one = omega (arith, ap watching e);
  reported_watched = λ x. absurd cc;
  kept = Perm.nil;
}

-- From the start of the event loop on, whatever the order of the threads' steps, at most one handler
-- reads the serial line; where one does, epoll does not watch the line and no other handler is given
-- to the pool; and what handlers have read is, up to the order, what they hold, what they have put
-- into the receive queue, and what they got no node for.
pub Run-exclusive :
    (fcntl : Fcntl) (got_recv_mutex got_send_mutex : Bool) (uart_fd pipe_fd : ℤ) {l : Loop}
    {s : Line}
    → epoll_start fcntl got_recv_mutex got_send_mutex uart_fd pipe_fd ≡ some l
    → Run (opened l) s
    → ((s.reading ≡ 0) ⊎ ((s.reading ≡ 1) × (s.loop.uart_watch ≡ unwatched) × (s.queued ≡ 0)))
      × Perm s.read (s.holding ++ (s.inserted ++ s.dropped))
Run-exclusive fcntl got_recv_mutex got_send_mutex uart_fd pipe_fd {l} {s} e r =
    let v =
      Run-Inv
        (opened-Inv l (epoll_start-edge fcntl got_recv_mutex got_send_mutex uart_fd pipe_fd e)) r in
    (
      elim (ℕ_discrete s.reading 0) [
        | yes none_reads ↦ inl none_reads
        | no reads_one ↦ inr (
          omega (arith, reads_one, v.one),
          not_watching s.loop.uart_watch (omega (arith, reads_one, v.one)),
          omega (arith, reads_one, v.one),
        )
      ],
      v.kept,
    )

-- From a start at which epoll watches the line at an edge, what a handler has read can come into the
-- queue behind what a later handler read, for any bytes: the line is watched again before the bytes
-- are queued.
pub reordered :
    (l : Loop) (first second : List ℕ)
    → first ≢ []
    → second ≢ []
    → l.uart_watch ≡ edge
    → (s : Line) × Run (opened l) s
      × (s.read ≡ second ∷ first ∷ [])
      × (s.inserted ≡ first ∷ second ∷ [])
unfolding watch_again handle_line put_in_queue
reordered l [] second nf ns e = absurd (nf refl)
reordered l (a ∷ xs) [] nf ns e = absurd (ns refl)
reordered l (a ∷ xs) (b ∷ ys) nf ns e =
    let first = a ∷ xs in
    let second = b ∷ ys in
    let watched : edge ≢ unwatched = λ x. cc in
    let again : level ≢ unwatched = λ x. cc in
    let s1 = record (opened l) { reported = true } in
    let s2 = handle_line s1 in
    let s3 = record s2 { queued = s2.queued - 1; reading = s2.reading + 1 } in
    let s4 = watch_again first s3 in
    let s5 = record s4 { reported = true } in
    let s6 = handle_line s5 in
    let s7 = record s6 { queued = s6.queued - 1; reading = s6.reading + 1 } in
    let s8 = watch_again second s7 in
    let s9 = put_in_queue true [] (first ∷ []) second s8 in
    let s10 = put_in_queue true [] [] first s9 in
    (
      s10,
      next
          (next
            (next
              (next
                (next
                  (next
                    (next
                      (next
                        (next (next here (reports (λ x. watched (sym e ∙ x)) refl refl))
                          (handles_line refl refl))
                        (starts (omega arith) refl))
                      (reads first (omega arith) refl))
                    (reports again refl refl))
                  (handles_line refl refl))
                (starts (omega arith) refl))
              (reads second (omega arith) refl))
            (puts true [] (first ∷ []) second refl refl))
          (puts true [] [] first refl refl),
      refl,
      refl,
    )
