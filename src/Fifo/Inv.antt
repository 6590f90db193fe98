-- ===== src/Fifo/Inv.antt =====
-- The representation invariant of the byte queue.
use uart.Base.{
  ℕ, ◌+◌, ◌-◌, ◌%◌, ◌≤◌, ◌<◌, ◌≡◌, sym, ap, ◌∙◌, ◌≢◌, true, some, arith, length, set, set?-set,
  length-set, length-replicate, get_or, get_elem?-get_or, int_end, pos,
}
use uart.Fifo.{Fifo, init_data_fifo, put_byte, pop_byte}
use native.Mathlib.Nat.{mod-lt, mod-add-mod, add_assoc}

-- `tail_in` reads `tail = 0` for a queue of no bytes.
pub record IsValid (f : Fifo) : Type 0 where
  pub sized : length f.buffer ≡ f.buf_size
  pub small : f.buf_size < int_end
  pub len_in : f.data_len ≤ f.buf_size
  pub tail_in : f.tail ≤ f.buf_size - 1
  pub head_at : f.head ≡ (f.tail + f.data_len) % f.buf_size

-- Where both allocations succeed and the length is less than 2^31, `init_data_fifo` makes a valid
-- and empty queue of that length.
pub init_data_fifo-IsValid :
    (len : ℕ) {f : Fifo}
    → len < int_end
    → init_data_fifo true true len ≡ (pos 0, some f)
    → IsValid f × (f.data_len ≡ 0) × (f.buf_size ≡ len)
unfolding init_data_fifo
init_data_fifo-IsValid len h e = ground (arith, length-replicate len (◌+◌ 0 0))

-- The queue after one byte was put.
abbrev pub with_byte : Fifo → ℕ → Fifo
with_byte f x = record f {
  buffer = set f.buffer f.head x;
  data_len = f.data_len + 1;
  head = (f.head + 1) % f.buf_size;
}

-- The queue after one byte was popped.
abbrev pub without_byte : Fifo → Fifo
without_byte f = record f { data_len = f.data_len - 1; tail = (f.tail + 1) % f.buf_size }

module _ {f : Fifo} (v : IsValid f) where
  pub head-lt : f.data_len ≢ f.buf_size → f.head < f.buf_size
  head-lt ne = omega (arith, mod-lt (f.tail + f.data_len) {m = f.buf_size})

  pub put_byte-ok : (x : ℕ) → f.data_len ≢ f.buf_size → put_byte f x ≡ some (with_byte f x)
  unfolding put_byte
  put_byte-ok x ne = ground (arith, head-lt ne, set?-set f.buffer f.head x)

  pub pop_byte-ok : f.data_len ≢ 0 → pop_byte f ≡ some (get_or f.buffer f.tail 0, without_byte f)
  unfolding pop_byte
  pop_byte-ok ne = ground (arith, get_elem?-get_or f.buffer f.tail 0)

  pub with_byte-IsValid : (x : ℕ) → f.data_len ≢ f.buf_size → IsValid (with_byte f x)
  with_byte-IsValid x ne = record {
    sized = length-set f.buffer f.head x ∙ v.sized;
    small = v.small;
    len_in = omega (arith, v);
    tail_in = v.tail_in;
    head_at =
        rw (v.head_at, mod-add-mod) (ap (λ k. k % f.buf_size) (add_assoc f.tail f.data_len 1));
  }

  pub without_byte-IsValid : f.data_len ≢ 0 → IsValid (without_byte f)
  without_byte-IsValid ne = record {
    sized = v.sized;
    small = v.small;
    len_in = omega (arith, v);
    tail_in = omega (arith, v, mod-lt (f.tail + 1) {m = f.buf_size});
    head_at =
        v.head_at
        ∙ sym (
            mod-add-mod (f.tail + 1) f.buf_size (f.data_len - 1)
            ∙ ap (λ k. k % f.buf_size) (omega arith));
  }
