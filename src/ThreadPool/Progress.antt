-- ===== src/ThreadPool/Progress.antt =====
-- No wake-up is lost.
use uart.Base.{ℕ, ◌<◌, ◌≡◌, ◌≢◌, true, some, ◌++◌, arith, sym, ap, ◌∙◌, append-nil, nil_of_length}
use uart.ThreadPool.{Pool, InitCalls, threadpool_init}
use uart.ThreadPool.System.{System, waiting, woken, closing, started, Reach}
use uart.ThreadPool.Invariant.{Inv, Reach-Inv}

-- No worker or caller stands before the mutex or in a callback, and the destroyer has nothing to
-- do but to wait, to join or to return: only a new call, or a thread that wakes with no signal,
-- could change the pool.
pub record IsIdle {J : Type 0} (s : System J) : Type 0 where
  pub no_ready : s.ready ≡ 0
  pub no_busy : s.busy ≡ 0
  pub no_calling : s.calling ≡ 0
  pub not_woken : s.destroyer ≢ woken
  pub not_closing : s.destroyer ≢ closing

drained :
    {J : Type 0} {n m : ℕ} {s : System J}
    → Inv n m s
    → s.pool.queue_cur_num ≡ 0
    → s.taken ≡ s.accepted
drained {s = s} v empty =
    sym (append-nil s.taken)
    ∙ ap (λ js. s.taken ++ js) (sym (nil_of_length s.pool.jobs (sym v.counted ∙ empty)))
    ∙ v.in_order

-- In every reachable state of a pool with at least one worker and room for at least one job, if
-- every thread is idle, nothing is left to do: each job that was added has been taken, in order,
-- no call of `threadpool_add_job` is blocked, and the destroyer does not wait for the queue. So
-- no thread sleeps through its wake-up.
pub idle-done :
    {J : Type 0} (calls : InitCalls) (thread_num queue_max_num : ℕ) {p : Pool J} {s : System J}
    → threadpool_init calls thread_num queue_max_num ≡ some p
    → Reach (started p) s
    → 0 < thread_num
    → 0 < queue_max_num
    → IsIdle s
    → (s.taken ≡ s.accepted) × (s.blocked ≡ 0) × (s.destroyer ≢ waiting)
idle-done calls thread_num queue_max_num {s = s} e r ht hq i =
    let v = Reach-Inv calls thread_num queue_max_num e r in
    let empty : s.pool.queue_cur_num ≡ 0 = ground arith in
    (drained v empty, ground arith, ground arith)

-- In every reachable state in which the pool is closed, the jobs that were added are the jobs
-- that workers have taken, in order: a destroy loses none.
pub closed-drained :
    {J : Type 0} (calls : InitCalls) (thread_num queue_max_num : ℕ) {p : Pool J} {s : System J}
    → threadpool_init calls thread_num queue_max_num ≡ some p
    → Reach (started p) s
    → s.pool.pool_close ≡ true
    → s.taken ≡ s.accepted
closed-drained calls thread_num queue_max_num e r closed =
    let v = Reach-Inv calls thread_num queue_max_num e r in drained v (v.closed_empty closed)
