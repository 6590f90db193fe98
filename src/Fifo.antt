-- ===== src/Fifo.antt =====
-- The byte queue of src/data_fifo.c (`fifo` of src/data_fifo.h).
-- Each function holds the queue's mutex from its first to its last access, so it is one step.
-- `none` is an access out of bounds or an overflow of an `int`.
pub mod Inv
pub mod Refine
pub mod Transfer
pub mod Session
pub mod Graph
pub mod Rows
mod Tests
use uart.Base.{
  ℕ, zero, suc, ◌+◌, ◌-◌, ◌%◌, Bool, true, false, Option, none, some, List, [], ◌∷◌, get_elem?,
  set?, replicate, ◌==◌, if◌then◌else◌, ◌>>=◌, int_suc, u32_mod, ℤ, pos, negsuc,
}

-- `fifo`, less the mutex. `head` and `tail` are `int`s that are never negative, `data_len` and
-- `buf_size` are `unsigned int`s.
pub record Fifo : Type 0 where
  pub buffer : List ℕ
  pub buf_size : ℕ
  pub head : ℕ
  pub tail : ℕ
  pub data_len : ℕ

-- `got_struct` and `got_buffer` say whether the two calls of `calloc` succeed; both give zeros.
pub fifo_alloc : (got_struct got_buffer : Bool) → ℕ → Option Fifo
fifo_alloc false got_buffer len = none
fifo_alloc true false len = none
fifo_alloc true true len =
    some (record { buffer = replicate len 0; buf_size = 0; head = 0; tail = 0; data_len = 0 })

-- The result and the value of `*f`.
pub init_data_fifo : (got_struct got_buffer : Bool) → ℕ → ℤ × Option Fifo
unfolding fifo_alloc
init_data_fifo got_struct got_buffer len = elim (fifo_alloc got_struct got_buffer len) [
  | none ↦ (negsuc 0, none)
  | some f ↦ (pos 0, some (record f { buf_size = len; data_len = 0; head = 0; tail = 0 }))
]

-- One round of the loop of `fifo_put`, behind its test.
unfoldable pub put_byte : Fifo → ℕ → Option Fifo
put_byte f x = do
  b ← set? f.buffer f.head x
  h ← int_suc f.head
  some (record f { buffer = b; data_len = (f.data_len + 1) % u32_mod; head = h % f.buf_size })

put_loop : List ℕ → ℕ → Fifo → Option (ℕ × Fifo)
put_loop [] i f = some (i, f)
put_loop (x ∷ xs) i f =
    if f.data_len == f.buf_size
    then some (i, f)
    else do f' ← put_byte f x; i' ← int_suc i; put_loop xs i' f'

-- The list is `data[0 .. len)`. The result is the count put, and the queue after the call.
unfoldable pub fifo_put : Fifo → List ℕ → Option (ℕ × Fifo)
unfolding put_loop
fifo_put f src = put_loop src 0 f

-- One round of the loop of `fifo_pop`, behind its test, less the write to `buf[i]`.
unfoldable pub pop_byte : Fifo → Option (ℕ × Fifo)
pop_byte f = do
  v ← get_elem? f.buffer f.tail
  t ← int_suc f.tail
  some (v, record f { data_len = f.data_len - 1; tail = t % f.buf_size })

-- The first argument is the number of rounds left, `maxlen - i`.
pop_loop : ℕ → ℕ → List ℕ → Fifo → Option (ℕ × List ℕ × Fifo)
pop_loop zero i buf f = some (i, buf, f)
pop_loop (suc k) i buf f =
    if f.data_len == 0
    then some (i, buf, f)
    else do (v, f') ← pop_byte f; buf' ← set? buf i v; i' ← int_suc i; pop_loop k i' buf' f'

-- The result is the count popped, the caller's buffer and the queue after the call.
unfoldable pub fifo_pop : Fifo → List ℕ → ℕ → Option (ℕ × List ℕ × Fifo)
unfolding pop_loop
fifo_pop f buf maxlen = pop_loop maxlen 0 buf f

-- `none` is the null pointer.
unfoldable pub is_fifo_full : Option Fifo → ℤ
is_fifo_full none = negsuc 0
is_fifo_full (some f) = if f.data_len == f.buf_size then pos 1 else pos 0

unfoldable pub is_fifo_empty : Option Fifo → ℤ
is_fifo_empty none = negsuc 0
is_fifo_empty (some f) = if f.data_len == 0 then pos 1 else pos 0
