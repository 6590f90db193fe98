-- ===== src/Fifo/Session.antt =====
-- A client's calls on one queue, in the order in which they get the mutex.
use uart.Base.{
  ℕ, zero, suc, ◌+◌, ◌-◌, min, ◌≡◌, refl, sym, ap, ap₂, ◌∙◌, Option, some, List, [], ◌∷◌, ◌++◌,
  arith, length, take, drop, replicate, length-replicate, ◌>>=◌, take-append-drop, append_assoc,
  append-nil, take-append_length, length-take,
}
use uart.Fifo.{Fifo, fifo_put, fifo_pop}
use uart.Fifo.Inv.{IsValid}
use uart.Fifo.Refine.{contents, length-contents}
use uart.Fifo.Transfer.{Put, Pop, fifo_put_lem, fifo_pop_lem}

pub data Op : Type 0 where
  put : List ℕ → Op
  pop : ℕ → Op

-- What a call tells its caller: the count of bytes taken in, or the bytes given out.
pub data Reply : Type 0 where
  sent : ℕ → Reply
  got : List ℕ → Reply

-- `fifo_pop` into a fresh buffer of `maxlen` bytes.
unfoldable pub call : Fifo → Op → Option (Reply × Fifo)
call f (put src) = do (n, f') ← fifo_put f src; some (sent n, f')
call f (pop maxlen) = do
  (n, buf, f') ← fifo_pop f (replicate maxlen 0) maxlen
  some (got (take n buf), f')

unfoldable pub run : Fifo → List Op → Option (List Reply × Fifo)
run f [] = some ([], f)
run f (op ∷ ops) = do (r, f') ← call f op; (rs, f'') ← run f' ops; some (r ∷ rs, f'')

-- The contract: a queue of at most `cap` bytes.
pub spec_call : (cap : ℕ) → List ℕ → Op → Reply × List ℕ
spec_call cap q (put src) =
    (sent (min (length src) (cap - length q)), q ++ take (cap - length q) src)
spec_call cap q (pop maxlen) = (got (take maxlen q), drop maxlen q)

pub spec_run : (cap : ℕ) → List ℕ → List Op → List Reply × List ℕ
spec_run cap q [] = ([], q)
spec_run cap q (op ∷ ops) =
    let (r, q') = spec_call cap q op in let (rs, q'') = spec_run cap q' ops in (r ∷ rs, q'')

-- One call does what the contract says.
record Refines (f : Fifo) (op : Op) : Type 0 where
  after : Fifo
  returns : call f op ≡ some ((spec_call f.buf_size (contents f) op).0, after)
  holds : contents after ≡ (spec_call f.buf_size (contents f) op).1
  valid : IsValid after
  same_size : after.buf_size ≡ f.buf_size

call-Refines : {f : Fifo} (op : Op) → IsValid f → Refines f op
unfolding call spec_call
call-Refines {f} (put src) v = record {
  after = p.after;
  returns = rw p.returns (ap (λ n. some (sent n, p.after)) (omega (arith, length-contents f)));
  holds = p.holds ∙ ap (λ n. contents f ++ take (f.buf_size - n) src) (sym (length-contents f));
  valid = p.valid;
  same_size = p.same_size;
}
  where
    p : Put f src 0 (fifo_put f src)
    p = fifo_put_lem src v
call-Refines {f} (pop maxlen) v = record {
  after = p.after;
  returns = rw p.returns (ap (λ b. some (got b, p.after)) given);
  holds = p.holds;
  valid = p.valid;
  same_size = p.same_size;
}
  where
    p : Pop f (replicate maxlen 0) maxlen 0 (fifo_pop f (replicate maxlen 0) maxlen)
    p =
        fifo_pop_lem (replicate maxlen 0) maxlen v
          (omega (arith, length-replicate maxlen (◌+◌ 0 0)))

    given : take (0 + min maxlen f.data_len) p.filled ≡ take maxlen (contents f)
    given = rw p.given (
        take-append_length (0 + min maxlen f.data_len) (take maxlen (contents f))
          (drop (0 + min maxlen f.data_len) (replicate maxlen 0))
          (omega (arith, length-take maxlen (contents f), length-contents f)))

-- On a valid byte queue, every sequence of `fifo_put` and `fifo_pop` calls runs without a fault,
-- gives the replies that a list of bytes with the same bound gives, and ends in a valid queue
-- that holds the bytes of that list.
pub run_refines :
    {f : Fifo} (ops : List Op)
    → IsValid f
    → (f' : Fifo) × (run f ops ≡ some ((spec_run f.buf_size (contents f) ops).0, f'))
      × (contents f' ≡ (spec_run f.buf_size (contents f) ops).1)
      × IsValid f'
unfolding run spec_run
run_refines {f} [] v = (f, refl, refl, v)
run_refines {f} (op ∷ ops) v =
    let c = call-Refines op v in
    let (f', ran, holds, valid) = run_refines {f = c.after} ops c.valid in
    let same = ap₂ (λ cap q. spec_run cap q ops) c.same_size c.holds in
    (
      f',
      rw (c.returns, ran)
          (ap (λ s. some ((spec_call f.buf_size (contents f) op).0 ∷ s.0, f')) same),
      holds ∙ ap (λ s. s.1) same,
      valid,
    )

-- The bytes that the calls of a session took in, and gave out.
abbrev pub accepted : List Op → List Reply → List ℕ
accepted (put src ∷ ops) (sent n ∷ rs) = take n src ++ accepted ops rs
accepted (_ ∷ ops) (_ ∷ rs) = accepted ops rs
accepted _ _ = []

abbrev pub delivered : List Reply → List ℕ
delivered [] = []
delivered (sent n ∷ rs) = delivered rs
delivered (got bytes ∷ rs) = bytes ++ delivered rs

take-min : (k : ℕ) (xs : List ℕ) → take (min (length xs) k) xs ≡ take k xs
take-min zero [] = refl
take-min zero (x ∷ xs) =
    ap (λ n. take n (x ∷ xs)) {x = min (suc (length xs)) 0} {y = 0} (omega arith)
take-min (suc k) [] = ap (λ n. take {A = ℕ} n []) {y = 0} (omega arith)
take-min (suc k) (x ∷ xs) =
    ap (λ n. take n (x ∷ xs)) {y = suc (min (length xs) k)} (omega arith)
    ∙ ap (λ r. x ∷ r) (take-min k xs)

spec_run_fifo :
    (cap : ℕ) (q : List ℕ) (ops : List Op)
    → let (rs, q') = spec_run cap q ops in delivered rs ++ q' ≡ q ++ accepted ops rs
unfolding spec_run spec_call
spec_run_fifo cap q [] = sym (append-nil q)
spec_run_fifo cap q (put src ∷ ops) =
    let room = cap - length q in
    let q' = q ++ take room src in
    spec_run_fifo cap q' ops
    ∙ append_assoc q (take room src) (accepted ops (spec_run cap q' ops).0)
    ∙ ap (λ t. q ++ (t ++ accepted ops (spec_run cap q' ops).0)) (sym (take-min room src))
spec_run_fifo cap q (pop n ∷ ops) =
    let (rs, q') = spec_run cap (drop n q) ops in
    append_assoc (take n q) (delivered rs) q'
    ∙ ap (λ t. take n q ++ t) (spec_run_fifo cap (drop n q) ops)
    ∙ sym (append_assoc (take n q) (drop n q) (accepted ops rs))
    ∙ ap (λ t. t ++ accepted ops rs) (take-append-drop n q)

-- Nothing is lost, made up or reordered: on a valid byte queue, what a session of puts and pops
-- gave out, and then what is left in the queue, is what was in the queue at first, and then what
-- the session took in.
pub run_fifo :
    {f f' : Fifo} {rs : List Reply} (ops : List Op)
    → IsValid f
    → run f ops ≡ some (rs, f')
    → delivered rs ++ contents f' ≡ contents f ++ accepted ops rs
run_fifo {f} {f'} {rs} ops v e =
    let (g, ran, holds, _) = run_refines ops v in
    let same : ◌≡◌ {A = Option (List Reply × Fifo)} (some (rs, f'))
        (some ((spec_run f.buf_size (contents f) ops).0, g)) =
      sym e ∙ ran in
    let replies : rs ≡ (spec_run f.buf_size (contents f) ops).0 = cc in
    let queue : f' ≡ g = cc in
    ap₂ (λ r h. delivered r ++ contents h) replies queue
    ∙ ap (λ q. delivered (spec_run f.buf_size (contents f) ops).0 ++ q) holds
    ∙ spec_run_fifo f.buf_size (contents f) ops
    ∙ ap (λ r. contents f ++ accepted ops r) (sym replies)
