-- ===== src/ThreadPool/Memory/Take.antt =====
-- `threadpool_function` on memory: taking a job, and running it.
use uart.Base.{
  Bool, ◌≢◌, ◌+◌, ◌-◌, ◌≡◌, refl, sym, true, false, not, none, some, List, [], ◌∷◌, arith, map,
  ◌==◌, ◌&&◌,
}
use uart.Heap.{Ptr, null, Threadpool, job, pool, Heap, Holds, write}
use uart.Heap.Facts.{
  keep, Holds-self, load_pool-ok, load_job-ok, store_pool-ok, free-ok, write_self, write-other,
}
use uart.Heap.Ends.{Ends, ends, branch}
use uart.Heap.Places.{NotIn, SameOutside, Same-of_outside, Disjoint-cons, Disjoint-nil}
use uart.ThreadPool.{Pool, take_job, take_head, TakeResult, take_waits, exits, took}
use uart.ThreadPool.Memory.{Work, take_section, unlink_job, run_job}
use uart.ThreadPool.Memory.Shape.{
  Cell, places, job_of, first, Last, struct_of, IsPool, Becomes, stays, Links-Same,
}

-- The worker's job at an address is the job of the list; it was one of the jobs `old`, and is none
-- of the pool's any more.
pub data SameTake (g : Heap) (pp q : Ptr) (old cs : List Cell)
    : TakeResult Ptr → TakeResult Work → Type 0 where
  both_wait : SameTake g pp q old cs take_waits take_waits
  both_exit : SameTake g pp q old cs exits exits
  both_took :
      {at next : Ptr} {w : Work} {empty not_full : Bool}
      → Holds g at (job (job_of w next))
      → NotIn at (pp ∷ q ∷ places cs)
      → ((a : Ptr) → NotIn a (places old) → a ≢ at)
      → SameTake g pp q old cs (took at empty not_full) (took w empty not_full)

-- The section ended in `g` as the one on the list did.
abbrev pub Taken :
    (h : Heap) (pp q : Ptr)
    → List Cell
    → Pool Work × TakeResult Work
    → TakeResult Ptr
    → Heap
    → Type 0
Taken h pp q cs out r g =
    (b : Becomes h g pp q cs (pp ∷ []) out.0) × SameTake g pp q cs b.cells r out.1

-- The pool behind the section that takes its first job.
abbrev shrunk : Pool Work → List Work → Pool Work
shrunk p ws = record p { jobs = ws; queue_cur_num = p.queue_cur_num - 1 }

module _ (h : Heap) (pp q : Ptr) (p : Pool Work) (c : Cell) where
  shrunk-IsPool :
      (cs : List Cell) (i : IsPool h pp q (c ∷ cs) p) (t : Ptr)
      → Last t cs
      → IsPool
          (write h pp (some (pool (struct_of (shrunk p (map (λ c. c.work) cs)) (first cs) t q))))
          pp
          q
          cs
          (shrunk p (map (λ c. c.work) cs))
  shrunk-IsPool cs i t last = record {
    tail = t;
    at_pool = Holds-self h pp _;
    at_threads = keep pp _ i.at_threads (λ e. i.nodup.0.0 (sym e));
    links = Links-Same h _ cs i.links.2 (
        Same-of_outside (places cs) (pp ∷ []) (λ a o. write-other h pp _ a o.0)
          (Disjoint-cons (places cs) pp [] i.nodup.0.1.1 (Disjoint-nil (places cs))));
    last = last;
    nodup = ((i.nodup.0.0, i.nodup.0.1.1), (i.nodup.1.0.1, i.nodup.1.1.1));
    jobs = refl;
    counted = omega (arith, i.counted);
  }

  -- The job that was first is none of the pool's any more.
  first-loose :
      (cs : List Cell) (i : IsPool h pp q (c ∷ cs) p) (o : Threadpool)
      → ((next : Ptr) × Holds (write h pp (some (pool o))) c.at (job (job_of c.work next)))
        × NotIn c.at (pp ∷ q ∷ places cs)
  first-loose cs i o = (
    (first cs, keep pp _ i.links.0 (λ e. i.nodup.0.1.0 (sym e))),
    ((λ e. i.nodup.0.1.0 (sym e)), ((λ e. i.nodup.1.0.0 (sym e)), i.nodup.1.1.0)),
  )

  unlink_job-Simulates :
      (cs : List Cell) (i : IsPool h pp q (c ∷ cs) p)
      → Ends
          (Taken h pp q (c ∷ cs) (take_head (c.work ∷ map (λ c. c.work) cs) p))
          (unlink_job pp (p.queue_cur_num - 1) (struct_of p c.at i.tail q) h)
  unfolding unlink_job take_head
  unlink_job-Simulates [] i =
      let last : (p.queue_cur_num - 1 == 0) ≡ true = ground (arith, i.counted) in
      let o = struct_of (shrunk p []) null null q in
      rw (last, store_pool-ok o i.at_pool)
        (ends (
          record {
            cells = [];
            is_pool = shrunk-IsPool [] i null tt;
            kept = λ a o. write-other h pp _ a o.0;
            within = λ a o away. tt;
          },
          both_took (first-loose [] i o).0.1 (first-loose [] i o).1 (λ a away. away.0),
        ))
  unlink_job-Simulates (d ∷ ds) i =
      let more : (p.queue_cur_num - 1 == 0) ≡ false = ground (arith, i.counted) in
      let o = struct_of (shrunk p (map (λ c. c.work) (d ∷ ds))) d.at i.tail q in
      rw (more, load_job-ok i.links.0, store_pool-ok o i.at_pool)
        (ends {a = took c.at false (p.queue_cur_num - 1 + 1 == p.queue_max_num)} (
          record {
            cells = d ∷ ds;
            is_pool = shrunk-IsPool (d ∷ ds) i i.tail i.last;
            kept = λ a o. write-other h pp _ a o.0;
            within = λ a o away. away.1;
          },
          both_took (first-loose (d ∷ ds) i o).0.1 (first-loose (d ∷ ds) i o).1 (λ a away. away.0),
        ))

take_head-Simulates :
    (h : Heap) (pp q : Ptr) (cs : List Cell) (p : Pool Work) (i : IsPool h pp q cs p)
    (ws : List Work)
    → ws ≡ map (λ c. c.work) cs
    → (p.queue_cur_num == 0) ≡ false
    → Ends
        (Taken h pp q cs (take_head ws p))
        (unlink_job pp (p.queue_cur_num - 1) (struct_of p (first cs) i.tail q) h)
take_head-Simulates h pp q [] p i ws e some_left = absurd (ground (arith, i.counted))
take_head-Simulates h pp q (c ∷ cs) p i ws e some_left = rw e (unlink_job-Simulates h pp q p c cs i)

-- The section of `threadpool_function` on memory does to the pool, and ends, as the one on the list
-- of jobs: where it takes a job, its address holds the callback and the argument of the list's
-- first job, and is none of the pool's any more.
pub take_section-Simulates :
    (h : Heap) (pp q : Ptr) (cs : List Cell) (p : Pool Work)
    → IsPool h pp q cs p
    → Ends (Taken h pp q cs (take_job p)) (take_section pp h)
unfolding take_section take_job
take_section-Simulates h pp q cs p i = rw (load_pool-ok i.at_pool) (
    branch (Taken h pp q cs) ((p.queue_cur_num == 0) && not p.pool_close) _ _
      (λ none_left. ends {a = take_waits} (stays _ i, both_wait))
      (λ awake.
        branch (Taken h pp q cs) p.pool_close _ _ (λ over. ends {a = exits} (stays _ i, both_exit))
          (λ running.
            take_head-Simulates h pp q cs p i p.jobs i.jobs (ground (arith, awake, running)))))

-- A worker that runs a job gets what its address holds, and the address is free from then on;
-- nothing else is written.
pub run_job-Freed :
    (h : Heap) (at next : Ptr) (w : Work)
    → Holds h at (job (job_of w next))
    → Ends (λ r g. (r ≡ w) × (g at ≡ none) × SameOutside (at ∷ []) h g) (run_job at h)
unfolding run_job
run_job-Freed h at next w e =
    rw (load_job-ok e, free-ok e)
      (ends (refl, write_self h at none, λ a o. write-other h at none a o.0))
