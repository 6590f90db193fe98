-- ===== src/ThreadPool/Invariant.antt =====
-- What holds of the pool and its threads between two mutex sections.
use uart.Base.{
  ℕ, ◌+◌, ◌≤◌, ◌<◌, ◌≡◌, refl, inl, inr, Bool-cases, ◌≢◌, ap, Bool, true, false, not, some, List,
  [], ◌∷◌, ◌++◌, arith, length, length-append, append_assoc, append-nil, nil_of_length, ◌==◌,
}
use uart.ThreadPool.{Pool, InitCalls, threadpool_init, take_head}
use uart.ThreadPool.System.{
  System, Destroyer, no_call, waiting, woken, closing, joining, returned, Step, worker_enters,
  worker_wakes, callback_returns, add_called, add_enters, add_wakes, destroy_called,
  destroyer_wakes, destroyer_checks, destroyer_closes, destroyer_joins, worker_step, add_step,
  destroy_step, check_step, close_step, join_step, started, Reach, here, next, after_take,
}

abbrev is_open : Destroyer → Bool
is_open no_call = true
is_open _ = false

-- Whether `pool_close` is set.
abbrev is_late : Destroyer → Bool
is_late closing = true
is_late joining = true
is_late returned = true
is_late _ = false

-- `n` threads and room for `m` jobs.
pub record Inv {J : Type 0} (n m : ℕ) (s : System J) : Type 0 where
  pub thread_count : s.pool.thread_num ≡ n
  pub room : s.pool.queue_max_num ≡ m
  -- The count is the length of the list, and within the bound.
  pub counted : s.pool.queue_cur_num ≡ length s.pool.jobs
  pub bounded : s.pool.queue_cur_num ≤ s.pool.queue_max_num
  -- A thread sleeps only while what it waits for has not come, or a broadcast is still to come.
  pub asleep_empty : 0 < s.asleep → s.pool.queue_cur_num ≡ 0
  pub asleep_open : 0 < s.asleep → s.pool.pool_close ≡ true → s.destroyer ≡ closing
  pub blocked_full : 0 < s.blocked → s.pool.queue_cur_num ≡ s.pool.queue_max_num
  pub waiting_busy : s.destroyer ≡ waiting → 0 < s.pool.queue_cur_num
  -- The flags follow the destroyer, and workers end only behind `pool_close`.
  pub queue_flag : s.pool.queue_close ≡ not (is_open s.destroyer)
  pub pool_flag : s.pool.pool_close ≡ is_late s.destroyer
  pub closed_empty : s.pool.pool_close ≡ true → s.pool.queue_cur_num ≡ 0
  pub ended_closed : 0 < s.ended → s.pool.pool_close ≡ true
  pub threads : s.ready + s.asleep + s.busy + s.ended ≡ s.pool.thread_num
  -- No job is lost, and jobs are taken in the order in which they were added.
  pub in_order : s.taken ++ s.pool.jobs ≡ s.accepted
  pub no_crash : s.crashed ≡ false

module _ {J : Type 0} {s : System J} {n m : ℕ} (v : Inv n m s) where
  add_step-Inv : (got : Bool) (j : J) → 0 < s.calling → Inv n m (add_step got j s)
  unfolding add_step
  add_step-Inv got j h =
      ground (arith, length-append s.pool.jobs (j ∷ []), append_assoc s.taken s.pool.jobs (j ∷ []))

  destroy_step-Inv : Inv n m (destroy_step s)
  unfolding destroy_step
  destroy_step-Inv = ground arith

  check_step-Inv : s.destroyer ≡ woken → Inv n m (check_step s)
  unfolding check_step
  check_step-Inv e = ground arith

  close_step-Inv : s.destroyer ≡ closing → Inv n m (close_step s)
  unfolding close_step
  close_step-Inv e = ground arith

  join_step-Inv : s.destroyer ≡ joining → Inv n m (join_step s)
  unfolding join_step
  join_step-Inv e = ground (arith, append-nil s.taken, nil_of_length s.pool.jobs)

  -- Behind the two tests of `threadpool_function` there is a job.
  take_head-Inv :
      (jobs : List J)
      → jobs ≡ s.pool.jobs
      → 0 < s.ready
      → s.pool.queue_cur_num ≢ 0
      → s.pool.pool_close ≡ false
      → Inv n m (after_take s (take_head jobs s.pool))
  unfolding take_head
  take_head-Inv [] e h ne o = absurd (ground arith)
  take_head-Inv (j ∷ js) e h ne o =
      ground (arith, append_assoc s.taken (j ∷ []) js, nil_of_length js, ap length e)

  worker_step-Inv : 0 < s.ready → Inv n m (worker_step s)
  unfolding worker_step
  worker_step-Inv h = elim (Bool-cases (s.pool.queue_cur_num == 0)) [
    | inl none_left ↦ elim (Bool-cases s.pool.pool_close) [
      | inl over ↦ ground arith
      | inr running ↦ ground arith
    ]
    | inr more ↦ elim (Bool-cases s.pool.pool_close) [
      | inl over ↦ ground arith
      | inr running ↦ simp (more, running) (take_head-Inv s.pool.jobs refl h (ground arith) running)
    ]
  ]

  Step-Inv : {u : System J} → Step s u → Inv n m u
  Step-Inv (worker_enters h e) = rw e (worker_step-Inv h)
  Step-Inv (worker_wakes h e) = ground arith
  Step-Inv (callback_returns h e) = ground arith
  Step-Inv (add_called e) = ground arith
  Step-Inv (add_enters got j h e) = rw e (add_step-Inv got j h)
  Step-Inv (add_wakes h e) = ground arith
  Step-Inv (destroy_called e) = rw e destroy_step-Inv
  Step-Inv (destroyer_wakes d e) = ground arith
  Step-Inv (destroyer_checks d e) = rw e (check_step-Inv d)
  Step-Inv (destroyer_closes d e) = rw e (close_step-Inv d)
  Step-Inv (destroyer_joins d h e) = rw e (join_step-Inv d)

-- In every state that any number of workers, callers of `threadpool_add_job` and calls of
-- `threadpool_destroy` can bring a pool into, whatever the order in which they get the mutex,
-- `Inv` holds: the job count is that of the list and within the bound, a thread sleeps only while
-- what it waits for has not come or a broadcast is still to come, the flags agree with the
-- destroyer's place, every worker is at one place, the jobs taken and then those in the list are
-- the jobs added, in order, and no worker finds a null `head`.
pub Reach-Inv :
    {J : Type 0} (calls : InitCalls) (thread_num queue_max_num : ℕ) {p : Pool J} {s : System J}
    → threadpool_init calls thread_num queue_max_num ≡ some p
    → Reach (started p) s
    → Inv thread_num queue_max_num s
unfolding threadpool_init
Reach-Inv calls thread_num queue_max_num e here = ground arith
Reach-Inv calls thread_num queue_max_num e (next r st) =
    Step-Inv (Reach-Inv calls thread_num queue_max_num e r) st
