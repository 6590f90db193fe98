-- ===== src/ThreadPool/Memory/Release.antt =====
-- What `threadpool_destroy` frees.
use uart.Base.{ℕ, zero, suc, ◌<◌, ◌≢◌, refl, sym, ◌∙◌, none, some, List, [], ◌∷◌, arith, length}
use uart.Heap.{Ptr, pool, Heap, Holds, write}
use uart.Heap.Facts.{
  keep, Holds-self, load_pool-ok, load_job-ok, store_pool-ok, free-ok, write_self, write-other,
  not_null,
}
use uart.Heap.Ends.{Ends, ends, seq, weaken}
use uart.Heap.Freed.{Freed, Freed-write}
use uart.Heap.Places.{Apart, SameOutside, Same-of_outside, Disjoint-cons, Disjoint-nil}
use uart.ThreadPool.{Pool}
use uart.ThreadPool.Memory.{Work, free_jobs, free_pool}
use uart.ThreadPool.Memory.Shape.{Cell, places, first, Links, struct_of, IsPool, Links-Same}

module _ (pp q t : Ptr) (p : Pool Work) where
  -- The jobs are freed, and the struct is still there.
  free_jobs-Freed :
      (k : ℕ) (h : Heap) (cs : List Cell)
      → length cs < k
      → Holds h pp (pool (struct_of p (first cs) t q))
      → Links h cs
      → Apart (pp ∷ places cs)
      → Ends
          (λ _ g.
            Holds g pp (pool (struct_of p (first []) t q))
            × Freed g (places cs)
            × SameOutside (pp ∷ places cs) h g)
          (free_jobs k pp h)
  unfolding free_jobs
  free_jobs-Freed zero h cs fuel at_pool l n = absurd (omega arith)
  free_jobs-Freed (suc k) h [] fuel at_pool l n =
      rw (load_pool-ok at_pool) (ends (at_pool, tt, λ a o. refl))
  free_jobs-Freed (suc k) h (c ∷ cs) fuel at_pool l n =
      let o = struct_of p (first cs) t q in
      let ne : c.at ≢ pp = λ e. n.0.0 (sym e) in
      let job1 = keep pp (some (pool o)) l.0 ne in
      let h2 = write (write h pp (some (pool o))) c.at none in
      let outside : SameOutside (c.at ∷ pp ∷ []) h h2 =
        λ a out. write-other _ c.at none a out.0 ∙ write-other h pp _ a out.1.0 in
      let apart =
        Disjoint-cons (places cs) c.at (pp ∷ []) n.1.0
          (Disjoint-cons (places cs) pp [] n.0.1 (Disjoint-nil (places cs))) in
      rw
        (load_pool-ok at_pool, not_null l.1, load_job-ok l.0, store_pool-ok o at_pool, free-ok job1)
        (weaken
          (free_jobs-Freed k h2 cs (omega (arith, fuel))
            (keep c.at none (Holds-self h pp (pool o)) n.0.0)
            (Links-Same h h2 cs l.2 (Same-of_outside (places cs) (c.at ∷ pp ∷ []) outside apart))
            (n.0.1, n.1.1))
          λ _ g done. (
            done.0,
            (done.2 c.at (ne, n.1.0) ∙ write_self _ c.at none, done.1),
            λ a out. done.2 a (out.0, out.1.1) ∙ outside a (out.1.0, (out.0, tt)),
          ))

-- Behind the joins, `threadpool_destroy` ends, where its loop may take a round for each job that is
-- left and a test behind the last: it frees the pool's struct, its block of thread ids and every
-- job that is still in its list, each once and without a fault, and writes nowhere else.
pub free_pool-Freed :
    (k : ℕ) (h : Heap) (pp q : Ptr) (cs : List Cell) (p : Pool Work)
    → IsPool h pp q cs p
    → length cs < k
    → Ends
        (λ _ g. Freed g (pp ∷ q ∷ places cs) × SameOutside (pp ∷ q ∷ places cs) h g)
        (free_pool k pp h)
unfolding free_pool
free_pool-Freed k h pp q cs p i fuel =
    let n = i.nodup in
    let h1 = write h q none in
    let outside : SameOutside (q ∷ []) h h1 = λ a out. write-other h q none a out.0 in
    rw (load_pool-ok i.at_pool, free-ok i.at_threads)
      (seq
        (free_jobs-Freed pp q i.tail p k h1 cs fuel (keep q none i.at_pool n.0.0)
          (Links-Same h h1 cs i.links (
            Same-of_outside (places cs) (q ∷ []) outside
              (Disjoint-cons (places cs) q [] n.1.0 (Disjoint-nil (places cs)))))
          (n.0.1, n.1.1))
        λ _ g done. rw (free-ok done.0) (
          ends (
            (
              write_self g pp none,
              (
                write-other g pp none q (λ e. n.0.0 (sym e))
                    ∙ done.2 q ((λ e. n.0.0 (sym e)), n.1.0)
                    ∙ write_self h q none,
                Freed-write g pp (places cs) n.0.1 done.1,
              ),
            ),
            λ a out.
                write-other g pp none a out.0 ∙ done.2 a (out.0, out.1.1) ∙ outside a (out.1.0, tt),
          )))
