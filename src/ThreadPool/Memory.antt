-- ===== src/ThreadPool/Memory.antt =====
-- The pool of src/thread_pool.c in memory: the struct, the block of thread ids and the linked jobs,
-- with the mutex sections of ThreadPool.antt on them.
pub mod Shape
pub mod Add
pub mod Take
pub mod Sections
pub mod Run
pub mod Flow
pub mod Held
pub mod Ran
pub mod Init
pub mod Release
mod Tests
mod RunTests
use uart.Base.{ℕ, zero, suc, ◌+◌, ◌-◌, Bool, true, false, not, ◌&&◌, ◌||◌, ◌==◌, if◌then◌else◌}
use uart.Heap.{
  Ptr, null, Job, Threadpool, job, pool, threads, Cmd, pure, out_of_fuel, ◌>>=◌, ◌>>◌, load_job,
  load_pool, store_job, store_pool, free, calloc,
}
use uart.ThreadPool.{
  AddResult, add_waits, refused, added, TakeResult, take_waits, exits, took, DestroyResult, already,
  destroy_waits, closed,
}

-- A callback with its argument.
pub record Work : Type 0 where
  pub callback_function : ℕ
  pub arg : ℕ

-- Linking the new job in, and the count.
unfoldable pub link_job : (pp at : Ptr) → Threadpool → Cmd AddResult
link_job pp at p =
    if p.head == null
    then store_pool pp (record p { head = at; tail = at; queue_cur_num = p.queue_cur_num + 1 })
      >> pure (added true)
    else (do
      last ← load_job p.tail
      store_job p.tail (record last { next = at })
      store_pool pp (record p { tail = at; queue_cur_num = p.queue_cur_num + 1 })
      pure (added false))

-- `malloc` of the job with the three assignments behind its test.
unfoldable pub new_job : (fresh pp : Ptr) → Work → Threadpool → Cmd AddResult
new_job fresh pp w p = do
  at ←
      calloc fresh
        (job (record { callback_function = w.callback_function; arg = w.arg; next = null }))
  if at == null then pure refused else link_job pp at p

unfoldable pub add_section : (fresh : Ptr) → Work → (pp : Ptr) → Cmd AddResult
add_section fresh w pp = do
  p ← load_pool pp
  if (p.queue_cur_num == p.queue_max_num) && not (p.queue_close || p.pool_close)
      then pure add_waits
      else (if p.queue_close || p.pool_close then pure refused else new_job fresh pp w p)

-- Behind the two tests; `n` is the count that is left. The result has the address of the job.
unfoldable pub unlink_job : (pp : Ptr) → (n : ℕ) → Threadpool → Cmd (TakeResult Ptr)
unlink_job pp n p =
    if n == 0
    then store_pool pp (record p { queue_cur_num = n; head = null; tail = null })
      >> pure (took p.head true (n + 1 == p.queue_max_num))
    else (do
      j ← load_job p.head
      store_pool pp (record p { queue_cur_num = n; head = j.next })
      pure (took p.head false (n + 1 == p.queue_max_num)))

unfoldable pub take_section : (pp : Ptr) → Cmd (TakeResult Ptr)
take_section pp = do
  p ← load_pool pp
  if (p.queue_cur_num == 0) && not p.pool_close
      then pure take_waits
      else (if p.pool_close then pure exits else unlink_job pp (p.queue_cur_num - 1) p)

-- A worker with the job at `at`: the result is the callback that it calls and the argument.
unfoldable pub run_job : (at : Ptr) → Cmd Work
run_job at = do
  j ← load_job at
  free at
  pure (record { callback_function = j.callback_function; arg = j.arg })

-- From the test of the `while` on.
unfoldable pub check_section : (pp : Ptr) → Cmd DestroyResult
check_section pp = do
  p ← load_pool pp
  if p.queue_cur_num == 0
      then store_pool pp (record p { pool_close = true }) >> pure closed
      else pure destroy_waits

unfoldable pub destroy_section : (pp : Ptr) → Cmd DestroyResult
unfolding check_section
destroy_section pp = do
  p ← load_pool pp
  if p.queue_close || p.pool_close
      then pure already
      else store_pool pp (record p { queue_close = true }) >> check_section pp

-- The loop that frees what is left of the job list.
unfoldable pub free_jobs : ℕ → (pp : Ptr) → Cmd (Unit {0})
free_jobs zero pp = λ _. out_of_fuel
free_jobs (suc k) pp =
    let rest = free_jobs k pp in
    do
      p ← load_pool pp
      if p.head == null then pure tt else (do
        j ← load_job p.head
        store_pool pp (record p { head = j.next })
        free p.head
        rest)

-- `threadpool_destroy` behind the joins.
unfoldable pub free_pool : ℕ → (pp : Ptr) → Cmd (Unit {0})
unfolding free_jobs
free_pool k pp = do p ← load_pool pp; free p.pthreads; free_jobs k pp; free pp

-- A new pool. `pthreads` and the two flags are set behind the last `malloc`.
abbrev pub new_struct : (thread_num queue_max_num : ℕ) → Threadpool
new_struct thread_num queue_max_num = record {
  thread_num = thread_num;
  queue_max_num = queue_max_num;
  head = null;
  tail = null;
  pthreads = null;
  queue_cur_num = 0;
  queue_close = false;
  pool_close = false;
}

-- The addresses are what the two calls of `malloc` return, and the tests say whether the mutex and
-- the condition variables could be made.
unfoldable pub init_section :
    (fresh fresh_threads : Ptr)
    → (mutex_init cond_inits : Bool) → (thread_num queue_max_num : ℕ) → Cmd Ptr
init_section fresh fresh_threads mutex_init cond_inits thread_num queue_max_num = do
  let p = new_struct thread_num queue_max_num
  pp ← calloc fresh (pool p)
  if pp == null
      then pure null
      else (if mutex_init && cond_inits
          then (do
            q ← calloc fresh_threads threads
            if q == null
                then pure null
                else (store_pool pp
                      (record p { pthreads = q; queue_close = false; pool_close = false })
                    >> pure pp))
          else pure null)
