-- ===== src/ThreadPool/Tests.antt =====
-- A pool of two threads and one place.
use uart.Base.{ℕ, ◌+◌, ◌-◌, ◌≡◌, ◌≢◌, refl, true, false, none, some, [], ◌∷◌, arith}
use uart.ThreadPool.{Pool, InitCalls, threadpool_init}
use uart.ThreadPool.System.{
  System, waiting, worker_enters, callback_returns, add_called, add_enters, destroy_called,
  worker_step, add_step, destroy_step, started, Reach, here, next,
}
use uart.ThreadPool.Invariant.{Inv, Reach-Inv}
use uart.ThreadPool.Progress.{IsIdle, idle-done, closed-drained}

abbrev calls : InitCalls
calls = record { malloc_pool = true; mutex_init = true; cond_inits = true; malloc_pthreads = true }

abbrev pool : Pool ℕ
pool = record {
  thread_num = 2;
  queue_max_num = 1;
  jobs = [];
  queue_cur_num = 0;
  queue_close = false;
  pool_close = false;
}

pool_made : threadpool_init calls 2 1 ≡ some pool
unfolding threadpool_init
pool_made = refl

init_fails : threadpool_init {J = ℕ} (record calls { mutex_init = false }) 2 1 ≡ none
unfolding threadpool_init
init_fails = refl

abbrev called : System ℕ
called = record (started pool) { calling = 1 }

abbrev added : System ℕ
added = add_step true 7 called

abbrev running : System ℕ
running = worker_step added

abbrev back : System ℕ
back = record running { busy = running.busy - 1; ready = running.ready + 1 }

abbrev idle : System ℕ
idle = worker_step (worker_step back)

Reach-added : Reach (started pool) added
Reach-added = next (next here (add_called refl)) (add_enters true 7 (omega arith) refl)

Reach-idle : Reach (started pool) idle
unfolding add_step worker_step
Reach-idle =
    next
      (next
        (next (next Reach-added (worker_enters (omega arith) refl))
          (callback_returns (omega arith) refl))
        (worker_enters (omega arith) refl))
      (worker_enters (omega arith) refl)

idle-IsIdle : IsIdle idle
unfolding add_step worker_step
idle-IsIdle = record {
  no_ready = refl;
  no_busy = refl;
  no_calling = refl;
  not_woken = λ e. cc;
  not_closing = λ e. cc;
}

one_job_taken : idle.taken ≡ 7 ∷ []
unfolding add_step worker_step
one_job_taken = refl

Reach-Inv_example : Inv 2 1 added
Reach-Inv_example = Reach-Inv calls 2 1 pool_made Reach-added

idle-done_example : (idle.taken ≡ idle.accepted) × (idle.blocked ≡ 0) × (idle.destroyer ≢ waiting)
idle-done_example = idle-done calls 2 1 pool_made Reach-idle (omega arith) (omega arith) idle-IsIdle

abbrev closed : System ℕ
closed = destroy_step idle

Reach-closed : Reach (started pool) closed
Reach-closed = next Reach-idle (destroy_called refl)

closed_flag : closed.pool.pool_close ≡ true
unfolding add_step worker_step destroy_step
closed_flag = refl

closed-drained_example : closed.taken ≡ closed.accepted
closed-drained_example = closed-drained calls 2 1 pool_made Reach-closed closed_flag
