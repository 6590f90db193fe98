-- ===== src/ThreadPool.antt =====
-- The thread pool of src/thread_pool.c. The functions here are its mutex sections, each from a
-- `pthread_mutex_lock`, or the return of a `pthread_cond_wait`, to the unlock or the next wait;
-- ThreadPool/System.antt runs the threads. The job list is a list, oldest first: `head` is null
-- exactly where it is empty.
pub mod System
pub mod Invariant
pub mod Progress
pub mod Memory
mod Tests
use uart.Base.{
  ℕ, ◌+◌, ◌-◌, Bool, true, false, not, ◌&&◌, ◌||◌, Option, none, some, List, [], ◌∷◌, ◌++◌, ◌==◌,
  if◌then◌else◌,
}

-- `threadpool`, less the mutex, the condition variables and the thread ids. A job is a callback
-- with its argument.
pub record Pool (J : Type 0) : Type 0 where
  pub thread_num : ℕ
  pub queue_max_num : ℕ
  pub jobs : List J
  pub queue_cur_num : ℕ
  pub queue_close : Bool
  pub pool_close : Bool

-- Whether each call of `threadpool_init` that can fail succeeds.
pub record InitCalls : Type 0 where
  pub malloc_pool : Bool
  pub mutex_init : Bool
  pub cond_inits : Bool
  pub malloc_pthreads : Bool

unfoldable pub threadpool_init :
    {J : Type 0} → InitCalls → (thread_num queue_max_num : ℕ) → Option (Pool J)
threadpool_init calls thread_num queue_max_num =
    if calls.malloc_pool && calls.mutex_init && calls.cond_inits && calls.malloc_pthreads
    then some (record {
      thread_num = thread_num;
      queue_max_num = queue_max_num;
      jobs = [];
      queue_cur_num = 0;
      queue_close = false;
      pool_close = false;
    })
    else none

-- How a mutex section of `threadpool_add_job` ends: with a wait for `queue_not_full`, with -1, or
-- with 0, where the flag says whether it broadcast `queue_not_empty`.
pub data AddResult : Type 0 where
  add_waits : AddResult
  refused : AddResult
  added : Bool → AddResult

abbrev pub is_nil : {J : Type 0} → List J → Bool
is_nil [] = true
is_nil (_ ∷ _) = false

-- `got` says whether `malloc` of the job succeeds.
unfoldable pub threadpool_add_job : {J : Type 0} → (got : Bool) → J → Pool J → Pool J × AddResult
threadpool_add_job got j p =
    if (p.queue_cur_num == p.queue_max_num) && not (p.queue_close || p.pool_close)
    then (p, add_waits)
    else if p.queue_close || p.pool_close
    then (p, refused)
    else if got
    then (
      record p { jobs = p.jobs ++ j ∷ []; queue_cur_num = p.queue_cur_num + 1 },
      added (is_nil p.jobs),
    )
    else (p, refused)

-- How a mutex section of `threadpool_function` ends: with a wait for `queue_not_empty`, with the
-- thread's exit, with a job, where the flags say whether it signalled `queue_empty` and broadcast
-- `queue_not_full`, or with a read through a null `head`.
pub data TakeResult (J : Type 0) : Type 0 where
  take_waits : TakeResult J
  exits : TakeResult J
  took : J → (empty not_full : Bool) → TakeResult J
  null_head : TakeResult J

-- The section behind its two tests. `queue_cur_num == queue_max_num - 1` is a test of `int`s.
unfoldable pub take_head : {J : Type 0} → List J → Pool J → Pool J × TakeResult J
take_head [] p = (p, null_head)
take_head (j ∷ js) p =
    let n = p.queue_cur_num - 1 in
    (
      record p { queue_cur_num = n; jobs = if n == 0 then [] else js },
      took j (n == 0) (n + 1 == p.queue_max_num),
    )

unfoldable pub take_job : {J : Type 0} → Pool J → Pool J × TakeResult J
unfolding take_head
take_job p =
    if (p.queue_cur_num == 0) && not p.pool_close
    then (p, take_waits)
    else if p.pool_close
    then (p, exits)
    else take_head p.jobs p

-- How a mutex section of `threadpool_destroy` ends: with -1, with a wait for `queue_empty`, or
-- with both flags set.
pub data DestroyResult : Type 0 where
  already : DestroyResult
  destroy_waits : DestroyResult
  closed : DestroyResult

-- The section from the test of the `while` on.
unfoldable pub destroy_check : {J : Type 0} → Pool J → Pool J × DestroyResult
destroy_check p =
    if p.queue_cur_num == 0 then (record p { pool_close = true }, closed) else (p, destroy_waits)

unfoldable pub threadpool_destroy : {J : Type 0} → Pool J → Pool J × DestroyResult
unfolding destroy_check
threadpool_destroy p =
    if p.queue_close || p.pool_close
    then (p, already)
    else destroy_check (record p { queue_close = true })
