-- ===== src/ThreadPool/System.antt =====
-- The threads around one pool, as counts of threads at each place, and their interleavings. A
-- broadcast moves every waiting thread back to where it takes the mutex again; a waiting thread
-- may also wake with no signal.
use uart.Base.{ℕ, ◌+◌, ◌-◌, ◌<◌, ◌≡◌, Bool, true, false, List, [], ◌∷◌, ◌++◌, if◌then◌else◌}
use uart.ThreadPool.{
  Pool, threadpool_add_job, AddResult, add_waits, refused, added, take_job, TakeResult, take_waits,
  exits, took, null_head, threadpool_destroy, destroy_check, DestroyResult, already, destroy_waits,
  closed,
}

-- The thread whose call of `threadpool_destroy` set `queue_close`.
pub data Destroyer : Type 0 where
  no_call : Destroyer
  waiting : Destroyer
  woken : Destroyer
  closing : Destroyer
  joining : Destroyer
  returned : Destroyer

pub record System (J : Type 0) : Type 0 where
  pub pool : Pool J
  -- worker threads: before the mutex, in `pthread_cond_wait`, in a callback, ended
  pub ready : ℕ
  pub asleep : ℕ
  pub busy : ℕ
  pub ended : ℕ
  -- calls of `threadpool_add_job`: before the mutex, in `pthread_cond_wait`
  pub calling : ℕ
  pub blocked : ℕ
  pub destroyer : Destroyer
  -- history: the jobs added so far and the jobs taken so far, each in order, and a null `head`
  pub accepted : List J
  pub taken : List J
  pub crashed : Bool

abbrev pub wake_destroyer : Destroyer → Destroyer
wake_destroyer waiting = woken
wake_destroyer d = d

-- `pthread_cond_broadcast` of `queue_not_empty` and of `queue_not_full`, and `pthread_cond_signal`
-- of `queue_empty`, each where its flag is set.
abbrev pub notify : {J : Type 0} → (not_empty not_full empty : Bool) → System J → System J
notify not_empty not_full empty s = record s {
  ready = if not_empty then s.ready + s.asleep else s.ready;
  asleep = if not_empty then 0 else s.asleep;
  calling = if not_full then s.calling + s.blocked else s.calling;
  blocked = if not_full then 0 else s.blocked;
  destroyer = if empty then wake_destroyer s.destroyer else s.destroyer;
}

-- A worker takes the mutex.
abbrev pub after_take : {J : Type 0} → System J → Pool J × TakeResult J → System J
after_take s (p, take_waits) = record s { pool = p; ready = s.ready - 1; asleep = s.asleep + 1 }
after_take s (p, exits) = record s { pool = p; ready = s.ready - 1; ended = s.ended + 1 }
after_take s (p, took j empty not_full) =
    notify false not_full empty
      (record s { pool = p; ready = s.ready - 1; busy = s.busy + 1; taken = s.taken ++ j ∷ [] })
after_take s (p, null_head) = record s { pool = p; crashed = true }

unfoldable pub worker_step : {J : Type 0} → System J → System J
unfolding take_job
worker_step s = after_take s (take_job s.pool)

-- A caller of `threadpool_add_job` takes the mutex.
abbrev pub after_add : {J : Type 0} → J → System J → Pool J × AddResult → System J
after_add j s (p, add_waits) = record s {
  pool = p;
  calling = s.calling - 1;
  blocked = s.blocked + 1;
}
after_add j s (p, refused) = record s { pool = p; calling = s.calling - 1 }
after_add j s (p, added not_empty) =
    notify not_empty false false
      (record s { pool = p; calling = s.calling - 1; accepted = s.accepted ++ j ∷ [] })

unfoldable pub add_step : {J : Type 0} → (got : Bool) → J → System J → System J
unfolding threadpool_add_job
add_step got j s = after_add j s (threadpool_add_job got j s.pool)

-- The destroyer takes the mutex. A call that comes later than another returns -1.
abbrev pub after_destroy : {J : Type 0} → System J → Pool J × DestroyResult → System J
after_destroy s (p, already) = record s { pool = p }
after_destroy s (p, destroy_waits) = record s { pool = p; destroyer = waiting }
after_destroy s (p, closed) = record s { pool = p; destroyer = closing }

unfoldable pub destroy_step : {J : Type 0} → System J → System J
unfolding threadpool_destroy
destroy_step s = after_destroy s (threadpool_destroy s.pool)

unfoldable pub check_step : {J : Type 0} → System J → System J
unfolding destroy_check
check_step s = after_destroy s (destroy_check s.pool)

-- The two broadcasts behind the unlock.
unfoldable pub close_step : {J : Type 0} → System J → System J
close_step s = notify true true false (record s { destroyer = joining })

-- The joins, and the loop that frees what is left of the job list.
unfoldable pub join_step : {J : Type 0} → System J → System J
join_step s = record s { pool = record s.pool { jobs = [] }; destroyer = returned }

pub data Step {J : Type 0} (s u : System J) : Type 0 where
  worker_enters : 0 < s.ready → u ≡ worker_step s → Step s u
  worker_wakes :
      0 < s.asleep → u ≡ record s { asleep = s.asleep - 1; ready = s.ready + 1 } → Step s u
  callback_returns : 0 < s.busy → u ≡ record s { busy = s.busy - 1; ready = s.ready + 1 } → Step s u
  add_called : u ≡ record s { calling = s.calling + 1 } → Step s u
  add_enters : (got : Bool) (j : J) → 0 < s.calling → u ≡ add_step got j s → Step s u
  add_wakes :
      0 < s.blocked → u ≡ record s { blocked = s.blocked - 1; calling = s.calling + 1 } → Step s u
  destroy_called : u ≡ destroy_step s → Step s u
  destroyer_wakes : s.destroyer ≡ waiting → u ≡ record s { destroyer = woken } → Step s u
  destroyer_checks : s.destroyer ≡ woken → u ≡ check_step s → Step s u
  destroyer_closes : s.destroyer ≡ closing → u ≡ close_step s → Step s u
  destroyer_joins : s.destroyer ≡ joining → s.ended ≡ s.pool.thread_num → u ≡ join_step s → Step s u

-- The pool as `threadpool_init` leaves it, with its threads created.
abbrev pub started : {J : Type 0} → Pool J → System J
started p = record {
  pool = p;
  ready = p.thread_num;
  asleep = 0;
  busy = 0;
  ended = 0;
  calling = 0;
  blocked = 0;
  destroyer = no_call;
  accepted = [];
  taken = [];
  crashed = false;
}

pub data Reach {J : Type 0} (s : System J) : System J → Type 0 where
  here : Reach s s
  next : {t u : System J} → Reach s t → Step t u → Reach s u
