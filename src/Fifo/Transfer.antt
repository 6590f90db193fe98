-- ===== src/Fifo/Transfer.antt =====
-- What `fifo_put` and `fifo_pop` move.
use native.Mathlib.Nat.{add-zero}
use native.Mathlib.Numerals.{add-one}
use uart.Base.{
  ℕ, zero, suc, ◌+◌, ◌-◌, ◌≤◌, ◌<◌, min, ◌≡◌, refl, sym, ap, ◌∙◌, ◌≢◌, inl, inr, Option, some, List,
  [], ◌∷◌, ◌++◌, arith, length, get_or, set, take, drop, append-nil, append_assoc, take-nil,
  take_of_min_zero, drop_of_min_zero, take-append-drop, take-set, drop-set, ap₂, ◌==◌, Bool-cases,
  ==_iff, int_suc, int_end, set?-set, length-set,
}
use uart.Fifo.{Fifo, put_loop, fifo_put, pop_loop, fifo_pop}
use uart.Fifo.Inv.{
  IsValid, with_byte, without_byte, put_byte-ok, pop_byte-ok, with_byte-IsValid,
  without_byte-IsValid,
}
use uart.Fifo.Refine.{contents, length-contents, contents-with_byte, contents-without_byte}

-- What `fifo_put` has done when it returns: the count, and the queue.
pub record Put (f : Fifo) (src : List ℕ) (i : ℕ) (out : Option (ℕ × Fifo)) : Type 0 where
  pub after : Fifo
  pub returns : out ≡ some (i + min (length src) (f.buf_size - f.data_len), after)
  pub valid : IsValid after
  pub same_size : after.buf_size ≡ f.buf_size
  pub holds : contents after ≡ contents f ++ take (f.buf_size - f.data_len) src

-- `take` matches on `suc`, the code tests for a full buffer.
take-pred : (n : ℕ) (x : ℕ) (xs : List ℕ) → n ≢ 0 → take n (x ∷ xs) ≡ x ∷ take (n - 1) xs
take-pred zero x xs h = absurd (h refl)
take-pred (suc n) x xs h = ap (λ k. x ∷ take k xs) (omega arith)

int_suc-ok : (i : ℕ) → i + 1 < int_end → int_suc i ≡ some (i + 1)
int_suc-ok i h = ground arith

Put-cons :
    {f : Fifo} (x : ℕ) (xs : List ℕ) (i : ℕ) {out : Option (ℕ × Fifo)}
    → IsValid f
    → f.data_len ≢ f.buf_size
    → Put (with_byte f x) xs (i + 1) out
    → Put f (x ∷ xs) i out
Put-cons {f} x xs i v ne p = record {
  after = p.after;
  returns = p.returns ∙ ap (λ n. some (n, p.after)) (omega (arith, v));
  valid = p.valid;
  same_size = p.same_size;
  holds =
      p.holds
      ∙ ap (λ c. c ++ take (f.buf_size - (f.data_len + 1)) xs) (contents-with_byte v x ne)
      ∙ append_assoc (contents f) (x ∷ []) (take (f.buf_size - (f.data_len + 1)) xs)
      ∙ ap (λ t. contents f ++ t)
          (ap (λ n. x ∷ take n xs) {y = f.buf_size - f.data_len - 1} (omega arith)
            ∙ sym (take-pred (f.buf_size - f.data_len) x xs (omega (arith, v))));
}

put_loop-Put :
    (src : List ℕ) {f : Fifo} (i : ℕ)
    → IsValid f
    → i + f.buf_size - f.data_len < int_end
    → Put f src i (put_loop src i f)
unfolding put_loop
put_loop-Put [] {f} i v h = record {
  after = f;
  returns = ap (λ n. some (n, f)) (omega arith);
  valid = v;
  same_size = refl;
  holds = rw take-nil (sym (append-nil (contents f)));
}
put_loop-Put (x ∷ xs) {f} i v h = elim (Bool-cases (f.data_len == f.buf_size)) [
  | inl full ↦
      let e = (==_iff f.data_len f.buf_size).0 full in
      let room : f.buf_size - f.data_len ≡ 0 = omega arith in
      rw full (record {
        after = f;
        returns = ap (λ n. some (n, f)) (omega arith);
        valid = v;
        same_size = refl;
        holds = rw room (sym (append-nil (contents f)));
      })
  | inr more ↦
      let ne : f.data_len ≢ f.buf_size = ground arith in
      rw (more, put_byte-ok v x ne, int_suc-ok i (omega (arith, v)))
        (Put-cons x xs i v ne
          (put_loop-Put xs (i + 1) (with_byte-IsValid v x ne) (omega (arith, v))))
]

-- `fifo_put` on a valid queue never faults: it appends as many of the bytes as there is room for,
-- in order, returns their number, and keeps the queue valid and its size.
pub fifo_put_lem : {f : Fifo} (src : List ℕ) → IsValid f → Put f src 0 (fifo_put f src)
unfolding fifo_put
fifo_put_lem src v = put_loop-Put src 0 v (omega (arith, v))

-- What `fifo_pop` has done when it returns: the count, the caller's buffer, and the queue.
pub record Pop (f : Fifo) (buf : List ℕ) (k i : ℕ) (out : Option (ℕ × List ℕ × Fifo)) : Type 0 where
  pub after : Fifo
  pub filled : List ℕ
  pub returns : out ≡ some (i + min k f.data_len, filled, after)
  pub valid : IsValid after
  pub same_size : after.buf_size ≡ f.buf_size
  pub holds : contents after ≡ drop k (contents f)
  pub given : filled ≡ take i buf ++ take k (contents f) ++ drop (i + min k f.data_len) buf

contents-empty : (f : Fifo) → f.data_len ≡ 0 → contents f ≡ []
contents-empty f e = rw e

-- Nothing is moved where no byte is asked for or none is there.
Pop-none :
    (k i : ℕ) (buf : List ℕ) {f : Fifo}
    → IsValid f
    → min k f.data_len ≡ 0
    → Pop f buf k i (some (i, buf, f))
Pop-none k i buf {f} v e = record {
  after = f;
  filled = buf;
  returns = ap (λ n. some (n, buf, f)) (omega arith);
  valid = v;
  same_size = refl;
  holds = sym (drop_of_min_zero k (contents f) none_there);
  given =
      rw (e, add-zero, take_of_min_zero k (contents f) none_there, append-nil)
        (sym (take-append-drop i buf));
}
  where
    none_there : min k (length (contents f)) ≡ 0
    none_there = omega (arith, length-contents f)

Pop-cons :
    {f : Fifo} (k i : ℕ) (buf : List ℕ) {out : Option (ℕ × List ℕ × Fifo)}
    → IsValid f
    → f.data_len ≢ 0
    → i < length buf
    → Pop (without_byte f) (set buf i (get_or f.buffer f.tail 0)) k (i + 1) out
    → Pop f buf (suc k) i out
Pop-cons {f} k i buf v ne hi p = record {
  after = p.after;
  filled = p.filled;
  returns = p.returns ∙ ap (λ n. some (n, p.filled, p.after)) (omega arith);
  valid = p.valid;
  same_size = p.same_size;
  holds = p.holds ∙ ap (drop (suc k)) (sym (contents-without_byte v ne));
  given =
      p.given
      ∙ ap₂ (λ a d. a ++ take k (contents (without_byte f)) ++ d)
          (ap (λ n. take n (set buf i x)) (add-one i) ∙ take-set i buf x hi)
          (drop-set (i + 1 + min k (f.data_len - 1)) i buf x (omega arith)
            ∙ ap (λ n. drop n buf) (omega arith))
      ∙ ap (λ t. t ++ drop (i + min (suc k) f.data_len) buf)
          (append_assoc (take i buf) (x ∷ []) (take k (contents (without_byte f)))
            ∙ ap (λ c. take i buf ++ take (suc k) c) (sym (contents-without_byte v ne)));
}
  where
    x : ℕ
    x = get_or f.buffer f.tail 0

pop_loop-Pop :
    (k i : ℕ) (buf : List ℕ) {f : Fifo}
    → IsValid f
    → i + k ≤ length buf
    → i + f.data_len < int_end
    → Pop f buf k i (pop_loop k i buf f)
unfolding pop_loop
pop_loop-Pop zero i buf {f} v hb h = Pop-none 0 i buf v (omega arith)
pop_loop-Pop (suc k) i buf {f} v hb h = elim (Bool-cases (f.data_len == 0)) [
  | inl done ↦
      let e = (==_iff f.data_len 0).0 done in rw done (Pop-none (suc k) i buf v (omega arith))
  | inr more ↦
      let ne : f.data_len ≢ 0 = ground arith in
      let x = get_or f.buffer f.tail 0 in
      rw (more, pop_byte-ok v ne, set?-set buf i x (omega arith), int_suc-ok i (omega arith))
        (Pop-cons k i buf v ne (omega arith) (
          pop_loop-Pop k (i + 1) (set buf i x) (without_byte-IsValid v ne)
            (omega (arith, length-set buf i x)) (omega arith)))
]

-- `fifo_pop` on a valid queue and a buffer of `maxlen` bytes never faults: it takes the oldest
-- bytes, as many as are there and fit, puts them at the front of the buffer, and leaves the rest
-- of the buffer and of the queue as they were.
pub fifo_pop_lem :
    {f : Fifo} (buf : List ℕ) (maxlen : ℕ)
    → IsValid f
    → maxlen ≤ length buf
    → Pop f buf maxlen 0 (fifo_pop f buf maxlen)
unfolding fifo_pop
fifo_pop_lem buf maxlen v h = pop_loop-Pop maxlen 0 buf v (omega arith) (omega (arith, v))
