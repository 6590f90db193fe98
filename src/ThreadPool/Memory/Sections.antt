-- ===== src/ThreadPool/Memory/Sections.antt =====
-- All mutex sections of src/thread_pool.c, on memory and on the list of jobs.
use uart.Base.{◌≡◌, refl, ◌∙◌, sym, not, none, some, List, [], ◌∷◌, ◌==◌, ◌||◌, true}
use uart.Heap.{Ptr, null, pool, Heap, Cmd, pure, ◌>>=◌, write}
use uart.Heap.Facts.{keep, Holds-self, load_pool-ok, store_pool-ok, write-other}
use uart.Heap.Ends.{Ends, ends, seq, weaken, branch}
use uart.Heap.Places.{Same-of_outside, Disjoint-cons, Disjoint-nil}
use uart.ThreadPool.{
  Pool, AddResult, TakeResult, DestroyResult, threadpool_add_job, take_job, threadpool_destroy,
  destroy_check,
}
use uart.ThreadPool.Memory.{Work, add_section, take_section, destroy_section, check_section}
use uart.ThreadPool.Memory.Shape.{
  Cell, places, first, struct_of, IsPool, Becomes, stays, Links-Same,
}
use uart.ThreadPool.Memory.Add.{add_section-Simulates}
use uart.ThreadPool.Memory.Take.{SameTake, take_section-Simulates}

-- The flags change, and nothing else.
reflagged :
    {h : Heap} {pp q : Ptr} {cs : List Cell} {p : Pool Work} (i : IsPool h pp q cs p)
    (p' : Pool Work)
    → p'.jobs ≡ p.jobs
    → p'.queue_cur_num ≡ p.queue_cur_num
    → IsPool (write h pp (some (pool (struct_of p' (first cs) i.tail q)))) pp q cs p'
reflagged {h} {pp} {q} {cs} i p' same_jobs same_count = record {
  tail = i.tail;
  at_pool = Holds-self h pp _;
  at_threads = keep pp _ i.at_threads (λ e. i.nodup.0.0 (sym e));
  links = Links-Same h _ cs i.links (
      Same-of_outside (places cs) (pp ∷ []) (λ a o. write-other h pp _ a o.0)
        (Disjoint-cons (places cs) pp [] i.nodup.0.1 (Disjoint-nil (places cs))));
  last = i.last;
  nodup = i.nodup;
  jobs = same_jobs ∙ i.jobs;
  counted = same_count ∙ i.counted;
}

-- The section ended in `g` as the one on the list did.
abbrev Flagged :
    (h : Heap) (pp q : Ptr) → List Cell → Pool Work × DestroyResult → DestroyResult → Heap → Type 0
Flagged h pp q cs out r g = (r ≡ out.1) × Becomes h g pp q cs (pp ∷ []) out.0

check_section-Simulates :
    (h : Heap) (pp q : Ptr) (cs : List Cell) (p : Pool Work)
    → IsPool h pp q cs p
    → Ends (Flagged h pp q cs (destroy_check p)) (check_section pp h)
unfolding check_section destroy_check
check_section-Simulates h pp q cs p i = rw (load_pool-ok i.at_pool) (
    branch (Flagged h pp q cs) (p.queue_cur_num == 0) _ _
      (λ none_left.
        let p' = record p { pool_close = true } in
        rw (store_pool-ok (struct_of p' (first cs) i.tail q) i.at_pool) (
          ends (
            refl,
            record {
              cells = cs;
              is_pool = reflagged i p' refl refl;
              kept = λ a o. write-other h pp _ a o.0;
              within = λ a o away. away;
            },
          )))
      (λ some_left. ends (refl, stays _ i)))

destroy_section-Simulates :
    (h : Heap) (pp q : Ptr) (cs : List Cell) (p : Pool Work)
    → IsPool h pp q cs p
    → Ends (Flagged h pp q cs (threadpool_destroy p)) (destroy_section pp h)
unfolding destroy_section threadpool_destroy
destroy_section-Simulates h pp q cs p i = rw (load_pool-ok i.at_pool) (
    branch (Flagged h pp q cs) (p.queue_close || p.pool_close) _ _ (λ over. ends (refl, stays _ i))
      (λ running.
        let p' = record p { queue_close = true } in
        rw (store_pool-ok (struct_of p' (first cs) i.tail q) i.at_pool) (
          weaken (check_section-Simulates _ pp q cs p' (reflagged i p' refl refl)) λ r g done. (
            done.0,
            record {
              cells = done.1.cells;
              is_pool = done.1.is_pool;
              kept = λ a o. done.1.kept a o ∙ write-other h pp _ a o.0;
              within = done.1.within;
            },
          ))))

-- A section of `threadpool_add_job` with what `malloc` returns, of `threadpool_function`, of
-- `threadpool_destroy`, and of its wake-ups.
pub data Section : Type 0 where
  adds : (fresh : Ptr) → Work → Section
  takes : Section
  destroys : Section
  checks : Section

-- How a section ends, with a job of the type `J` where it takes one.
pub data Outcome (J : Type 0) : Type 0 where
  of_add : AddResult → Outcome J
  of_take : TakeResult J → Outcome J
  of_destroy : DestroyResult → Outcome J

unfoldable pub on_memory : Section → (pp : Ptr) → Cmd (Outcome Ptr)
unfolding add_section take_section destroy_section check_section
on_memory (adds fresh w) pp = add_section fresh w pp >>= λ r. pure (of_add r)
on_memory takes pp = take_section pp >>= λ r. pure (of_take r)
on_memory destroys pp = destroy_section pp >>= λ r. pure (of_destroy r)
on_memory checks pp = check_section pp >>= λ r. pure (of_destroy r)

unfoldable pub on_list : Section → Pool Work → Pool Work × Outcome Work
unfolding threadpool_add_job take_job threadpool_destroy destroy_check
on_list (adds fresh w) p =
    let out = threadpool_add_job (not (fresh == null)) w p in (out.0, of_add out.1)
on_list takes p = let out = take_job p in (out.0, of_take out.1)
on_list destroys p = let out = threadpool_destroy p in (out.0, of_destroy out.1)
on_list checks p = let out = destroy_check p in (out.0, of_destroy out.1)

-- The section ended alike: with the same result, where a job that was
-- among `old` is at its address.
pub data SameOutcome (g : Heap) (pp q : Ptr) (old cs : List Cell)
    : Outcome Ptr → Outcome Work → Type 0 where
  same_add : {r r' : AddResult} → r ≡ r' → SameOutcome g pp q old cs (of_add r) (of_add r')
  same_take :
      {r : TakeResult Ptr} {r' : TakeResult Work}
      → SameTake g pp q old cs r r'
      → SameOutcome g pp q old cs (of_take r) (of_take r')
  same_destroy :
      {r r' : DestroyResult} → r ≡ r' → SameOutcome g pp q old cs (of_destroy r) (of_destroy r')

-- Where a section may write.
abbrev pub touched : Section → (pp : Ptr) → List Cell → List Ptr
touched (adds fresh w) pp cs = pp ∷ fresh ∷ places cs
touched _ pp cs = pp ∷ []

-- What `malloc` returns is a free address, or null.
abbrev pub IsFree : Heap → Section → Type 0
IsFree h (adds fresh w) = h fresh ≡ none
IsFree h _ = Unit {0}

-- Every mutex section of the pool on memory ends without a fault, leaves a pool whose jobs, count
-- and flags are those that the section on the list of jobs leaves, and has the same result: where
-- it takes a job, its address is that of a job that was queued, holds the callback and the argument
-- of the list's first job, and is none of the pool's any more. It writes to the pool's struct only,
-- and where it adds a job to the new job and to those that were queued. What `malloc` returns is
-- taken to be null or a free address.
pub on_memory-Simulates :
    (s : Section) (h : Heap) (pp q : Ptr) (cs : List Cell) (p : Pool Work)
    → IsPool h pp q cs p
    → IsFree h s
    → Ends
        (λ r g.
          (b : Becomes h g pp q cs (touched s pp cs) (on_list s p).0) × SameOutcome g pp q cs
            b.cells r
            (on_list s p).1)
        (on_memory s pp h)
unfolding on_memory on_list
on_memory-Simulates (adds fresh w) h pp q cs p i free =
    seq (add_section-Simulates h pp q cs p fresh w i free)
      λ r g done. ends {a = of_add r} (done.1, same_add done.0)
on_memory-Simulates takes h pp q cs p i free =
    seq (take_section-Simulates h pp q cs p i)
      λ r g done. ends {a = of_take r} (done.0, same_take done.1)
on_memory-Simulates destroys h pp q cs p i free =
    seq (destroy_section-Simulates h pp q cs p i)
      λ r g done. ends {a = of_destroy r} (done.1, same_destroy done.0)
on_memory-Simulates checks h pp q cs p i free =
    seq (check_section-Simulates h pp q cs p i)
      λ r g done. ends {a = of_destroy r} (done.1, same_destroy done.0)
