-- ===== src/ThreadPool/Memory/RunTests.antt =====
-- A new pool in memory, to which a job is added.
use uart.Base.{◌≡◌, refl, false, none, some, List, [], ◌++◌, arith}
use mathlib.Core.List.{Perm}
use uart.Heap.{Ptr, null, pool, threads, Heap, write, ok}
use uart.Heap.Ends.{Ends-runs}
use uart.ThreadPool.{Pool}
use uart.ThreadPool.Memory.{Work}
use uart.ThreadPool.Memory.Shape.{Cell, places, struct_of, IsPool}
use uart.ThreadPool.Memory.Sections.{Outcome, adds, on_memory, on_memory-Simulates}
use uart.ThreadPool.Memory.Run.{Running, works, accepted_by, taken_by, enters, here, next}
use uart.ThreadPool.Memory.Held.{Loose}
use uart.ThreadPool.Memory.Ran.{Reach-IsPool}

abbrev work : Work
work = record { callback_function = 7; arg = 8 }

abbrev no_job : Pool Work
no_job = record {
  thread_num = 3;
  queue_max_num = 2;
  jobs = [];
  queue_cur_num = 0;
  queue_close = false;
  pool_close = false;
}

abbrev heap : Heap
heap = write (write (λ _. none) 10 (some (pool (struct_of no_job null null 20)))) 20 (some threads)

heap-IsPool : IsPool heap 10 20 [] no_job
unfolding write
heap-IsPool = record {
  tail = null;
  at_pool = record { at = refl };
  at_threads = record { at = refl };
  links = tt;
  last = tt;
  nodup = omega arith;
  jobs = refl;
  counted = refl;
}

free_fresh : heap 30 ≡ none
unfolding write
free_fresh = refl

abbrev new_pool : Running
new_pool = record { heap = heap; accepted = []; held = []; ran = [] }

abbrev added_to : (r : Outcome Ptr) × (g : Heap) × (on_memory (adds 30 work) 10 heap ≡ ok r g)
added_to =
    let (r, g, ends_so, _) =
      Ends-runs (on_memory-Simulates (adds 30 work) heap 10 20 [] no_job heap-IsPool free_fresh) in
    (r, g, ends_so)

abbrev one_added : Running
one_added = record {
  heap = added_to.1;
  accepted = accepted_by (adds 30 work) added_to.0;
  held = taken_by added_to.0;
  ran = [];
}

Reach-IsPool_example :
    (p : Pool Work) × (cs ls : List Cell) × IsPool one_added.heap 10 20 cs p
    × Loose one_added.heap ls
    × (one_added.held ≡ places ls)
    × Perm ([] ++ (works ls ++ works cs)) one_added.accepted
Reach-IsPool_example =
    Reach-IsPool {x = new_pool} {y = one_added}
      (record { is_pool = heap-IsPool; none_accepted = refl; none_held = refl; none_ran = refl })
      (next here (enters (adds 30 work) added_to.0 added_to.1 free_fresh added_to.2 refl))
