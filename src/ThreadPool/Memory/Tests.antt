-- ===== src/ThreadPool/Memory/Tests.antt =====
-- A pool in memory with one job and room for two.
use uart.Base.{Option, ◌≡◌, refl, true, false, none, some, [], ◌∷◌, arith}
use uart.Heap.{
  Run, calloc, load_pool, load_job, store_job, store_pool, null, job, pool, threads, Heap, write,
  ok,
}
use uart.Heap.Ends.{Ends}
use uart.Heap.Freed.{Freed}
use uart.Heap.Places.{SameOutside}
use uart.ThreadPool.{Pool, added, took}
use uart.ThreadPool.Memory.{
  new_job, link_job, unlink_job, Work, add_section, take_section, free_pool, init_section,
}
use uart.ThreadPool.Memory.Shape.{Cell, job_of, struct_of, IsPool, Becomes}
use uart.ThreadPool.Memory.Sections.{adds, on_memory, on_list, SameOutcome, on_memory-Simulates}
use uart.ThreadPool.Memory.Release.{free_pool-Freed}

abbrev work : Work
work = record { callback_function = 7; arg = 8 }

abbrev cell : Cell
cell = record { at = 30; work = work }

abbrev one_job : Pool Work
one_job = record {
  thread_num = 3;
  queue_max_num = 2;
  jobs = work ∷ [];
  queue_cur_num = 1;
  queue_close = false;
  pool_close = false;
}

abbrev heap : Heap
heap =
    write
      (write (write (λ _. none) 10 (some (pool (struct_of one_job 30 30 20)))) 20 (some threads)) 30
      (some (job (job_of work null)))

heap-IsPool : IsPool heap 10 20 (cell ∷ []) one_job
unfolding write
heap-IsPool = record {
  tail = 30;
  at_pool = record { at = refl };
  at_threads = record { at = refl };
  links = (record { at = refl }, (λ e. cc), tt);
  last = refl;
  nodup = (((λ e. cc), ((λ e. cc), tt)), (((λ e. cc), tt), (tt, tt)));
  jobs = refl;
  counted = refl;
}

free_fresh : heap 40 ≡ none
unfolding write
free_fresh = refl

on_memory-Simulates_example :
    Ends
      (λ r g.
        (b : Becomes heap g 10 20
          (cell ∷ [])
          (10 ∷ 40 ∷ 30 ∷ [])
          (on_list (adds 40 work) one_job).0)
        × SameOutcome g 10 20 (cell ∷ []) b.cells r (on_list (adds 40 work) one_job).1)
      (on_memory (adds 40 work) 10 heap)
on_memory-Simulates_example =
    on_memory-Simulates (adds 40 work) heap 10 20 (cell ∷ []) one_job heap-IsPool free_fresh

free_pool-Freed_example :
    Ends
      (λ _ g. Freed g (10 ∷ 20 ∷ 30 ∷ []) × SameOutside (10 ∷ 20 ∷ 30 ∷ []) heap g)
      (free_pool 2 10 heap)
free_pool-Freed_example = free_pool-Freed 2 heap 10 20 (cell ∷ []) one_job heap-IsPool (omega arith)

-- How a command ends, without the memory.
abbrev result_of : {A : Type 0} → Run A → Option A
result_of (ok a _) = some a
result_of _ = none

add_result : result_of (add_section 40 work 10 heap) ≡ some (added false)
unfolding add_section new_job link_job calloc write load_pool load_job store_job store_pool
add_result = refl

take_result : result_of (take_section 10 heap) ≡ some (took 30 true false)
unfolding take_section unlink_job write load_pool store_pool
take_result = refl

init_result : result_of (init_section 10 20 true true 3 2 (λ _. none)) ≡ some 10
unfolding init_section calloc write load_pool store_pool
init_result = refl

init_fails : result_of (init_section 10 null true true 3 2 (λ _. none)) ≡ some null
unfolding init_section calloc write
init_fails = refl
