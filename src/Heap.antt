-- ===== src/Heap.antt =====
-- The objects that src/linklist.c and src/thread_pool.c allocate, at addresses, and commands that
-- read and write them.
-- A use of an address that does not hold an object of the type wanted is a fault; so is an
-- access past the end of a buffer.
pub mod Ends
pub mod Facts
pub mod Places
pub mod Freed
use uart.Base.{
  ℕ, Bool, ◌≡◌, ◌+◌, ◌≤◌, Option, none, some, List, ◌++◌, take, drop, replicate, length, ◌==◌, leb,
  if◌then◌else◌, ℤ, ◌&&◌,
}

abbrev pub Ptr : Type 0
Ptr = ℕ

abbrev pub null : Ptr
null = 0

-- `data_inf`. `data_len` is never negative; `send_to` is an `enum port`, or 0.
pub record DataInf : Type 0 where
  pub pdata : Ptr
  pub data_len : ℕ
  pub recv_fd : ℤ
  pub send_to : ℕ

-- `single_linklist`. The field `inf` is the source's `data`.
pub record Node : Type 0 where
  pub next : Ptr
  pub inf : Ptr

-- `single_linklist_head`, less the mutex.
pub record Head : Type 0 where
  pub linklist_head : Ptr
  pub linklist_tail : Ptr
  pub linknode_count : ℕ

-- `job`. The callback and its argument stand for themselves.
pub record Job : Type 0 where
  pub callback_function : ℕ
  pub arg : ℕ
  pub next : Ptr

-- `threadpool`, less the mutex and the condition variables.
pub record Threadpool : Type 0 where
  pub thread_num : ℕ
  pub queue_max_num : ℕ
  pub head : Ptr
  pub tail : Ptr
  pub pthreads : Ptr
  pub queue_cur_num : ℕ
  pub queue_close : Bool
  pub pool_close : Bool

-- `threads` is the block of the pool's thread ids.
pub data Object : Type 0 where
  node : Node → Object
  inf : DataInf → Object
  buf : List ℕ → Object
  head : Head → Object
  job : Job → Object
  pool : Threadpool → Object
  threads : Object

abbrev pub Heap : Type 0
Heap = Ptr → Option Object

-- The object at an address.
pub record Holds (h : Heap) (p : Ptr) (o : Object) : Type 0 where
  pub at : h p ≡ some o

unfoldable pub write : Heap → Ptr → Option Object → Heap
write memory at content p = if p == at then content else memory p

-- How a command ends: with a fault, with its fuel used up, or with a result and the memory.
pub data Run (R : Type 0) : Type 0 where
  fault : Run R
  out_of_fuel : Run R
  ok : (result : R) → (after : Heap) → Run R

abbrev pub Cmd : Type 0 → Type 0
Cmd A = Heap → Run A

abbrev pub pure : {A : Type 0} → A → Cmd A
pure = ok

abbrev pub then_run : {A B : Type 0} → Run A → (A → Cmd B) → Run B
then_run fault k = fault
then_run out_of_fuel k = out_of_fuel
then_run (ok result after) k = k result after

infixl 5 ◌>>=◌ ◌>>◌
abbrev pub ◌>>=◌ : {A B : Type 0} → Cmd A → (A → Cmd B) → Cmd B
m >>= k = λ h. then_run (m h) k

abbrev pub ◌>>◌ : {A B : Type 0} → Cmd A → Cmd B → Cmd B
m >> k = m >>= λ _. k

as_node : Option Object → Heap → Run Node
as_node (some (node n)) h = ok n h
as_node _ h = fault

as_inf : Option Object → Heap → Run DataInf
as_inf (some (inf d)) h = ok d h
as_inf _ h = fault

as_buf : Option Object → Heap → Run (List ℕ)
as_buf (some (buf b)) h = ok b h
as_buf _ h = fault

as_head : Option Object → Heap → Run Head
as_head (some (head d)) h = ok d h
as_head _ h = fault

as_job : Option Object → Heap → Run Job
as_job (some (job j)) h = ok j h
as_job _ h = fault

as_pool : Option Object → Heap → Run Threadpool
as_pool (some (pool p)) h = ok p h
as_pool _ h = fault

unfoldable pub load_node : Ptr → Cmd Node
unfolding as_node
load_node p h = as_node (h p) h

unfoldable pub load_inf : Ptr → Cmd DataInf
unfolding as_inf
load_inf p h = as_inf (h p) h

unfoldable pub load_buf : Ptr → Cmd (List ℕ)
unfolding as_buf
load_buf p h = as_buf (h p) h

unfoldable pub load_head : Ptr → Cmd Head
unfolding as_head
load_head p h = as_head (h p) h

unfoldable pub load_job : Ptr → Cmd Job
unfolding as_job
load_job p h = as_job (h p) h

unfoldable pub load_pool : Ptr → Cmd Threadpool
unfolding as_pool
load_pool p h = as_pool (h p) h

abbrev pub put : Ptr → Option Object → Cmd (Unit {0})
put p c h = ok tt (write h p c)

unfoldable pub store_node : Ptr → Node → Cmd (Unit {0})
store_node p n = load_node p >> put p (some (node n))

unfoldable pub store_inf : Ptr → DataInf → Cmd (Unit {0})
store_inf p d = load_inf p >> put p (some (inf d))

unfoldable pub store_head : Ptr → Head → Cmd (Unit {0})
store_head p d = load_head p >> put p (some (head d))

unfoldable pub store_job : Ptr → Job → Cmd (Unit {0})
store_job p j = load_job p >> put p (some (job j))

unfoldable pub store_pool : Ptr → Threadpool → Cmd (Unit {0})
store_pool p d = load_pool p >> put p (some (pool d))

-- `memcpy` of `n` bytes between the starts of two buffers.
unfoldable pub memcpy : (dest src : Ptr) → ℕ → Cmd (Unit {0})
memcpy dest src n = do
  s ← load_buf src
  d ← load_buf dest
  if leb n (length s) && leb n (length d)
      then put dest (some (buf (take n s ++ drop n d)))
      else λ _. fault

-- `memset` of the first `n` bytes of a buffer.
unfoldable pub memset : Ptr → (byte n : ℕ) → Cmd (Unit {0})
memset p byte n = do
  b ← load_buf p
  if leb n (length b) then put p (some (buf (replicate n byte ++ drop n b))) else λ _. fault

free_if : Ptr → Option Object → Cmd (Unit {0})
free_if p none h = fault
free_if p (some _) h = ok tt (write h p none)

-- `free` of an address that holds nothing is a fault.
unfoldable pub free : Ptr → Cmd (Unit {0})
unfolding free_if
free p h = free_if p (h p) h

-- `fresh` is the address that `calloc` returns, `null` where it fails.
unfoldable pub calloc : (fresh : Ptr) → Object → Cmd Ptr
calloc fresh o = if fresh == null then pure null else put fresh (some o) >> pure fresh
