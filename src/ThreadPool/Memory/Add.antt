-- ===== src/ThreadPool/Memory/Add.antt =====
-- `threadpool_add_job` on memory.
use mathlib.Core.List.{map-append}
use mathlib.Core.Path.{subst}
use uart.Base.{
  inl, inr, Bool-cases, ◌&&◌, ◌||◌, ◌+◌, ◌≡◌, ◌≢◌, refl, sym, ap, ◌∙◌, true, false, not, Option,
  none, some, List, [], ◌∷◌, ◌++◌, arith, ◌==◌, length-append,
}
use uart.Heap.{Ptr, null, Object, Job, Threadpool, job, pool, Heap, Holds, write, ok, calloc}
use uart.Heap.Facts.{
  apart, keep, Holds-self, load_pool-ok, load_job-ok, store_pool-ok, store_job-ok, write-other,
  not_null,
}
use uart.Heap.Ends.{Ends, ends, weaken, branch}
use uart.Heap.Places.{
  NotIn, NotIn-append, Apart, SameOutside, Holds-same, Apart-append, Disjoint-cons, Disjoint-nil,
}
use uart.ThreadPool.{Pool, threadpool_add_job, AddResult, added, refused, is_nil}
use uart.ThreadPool.Memory.{Work, add_section, new_job, link_job}
use uart.ThreadPool.Memory.Shape.{
  Cell, places, job_of, first, Links, Last, struct_of, IsPool, Becomes, stays, Holds-fresh,
  Links-fresh, Last-ne, Links-Last, places-append,
}

Links-snoc :
    (h g : Heap) (t : Ptr) (c : Cell) (cs : List Cell) (n : Cell)
    → Links h (c ∷ cs)
    → Last t (c ∷ cs)
    → Apart (places (c ∷ cs))
    → ((w : Work) → Holds h t (job (job_of w null)) → Holds g t (job (job_of w n.at)))
    → ((a : Ptr) (j : Job) → Holds h a (job j) → a ≢ t → g a ≡ h a)
    → Holds g n.at (job (job_of n.work null))
    → n.at ≢ null
    → Links g (c ∷ cs ++ n ∷ [])
Links-snoc h g t c [] n l last nodup relink same new ne = (
  subst (λ a. Holds g a (job (job_of c.work n.at))) last
      (relink c.work (subst (λ a. Holds h a (job (job_of c.work null))) (sym last) l.0)),
  l.1,
  (new, ne, tt),
)
Links-snoc h g t c (d ∷ cs) n l last nodup relink same new ne = (
  Holds-same l.0 (same c.at _ l.0 (Last-ne c.at t d cs last nodup.0)),
  l.1,
  Links-snoc h g t d cs n l.2 last nodup.1 relink same new ne,
)

Last-snoc : (t : Ptr) (cs : List Cell) (n : Cell) → t ≡ n.at → Last t (cs ++ n ∷ [])
Last-snoc t [] n e = e
Last-snoc t (c ∷ []) n e = e
Last-snoc t (c ∷ d ∷ cs) n e = Last-snoc t (d ∷ cs) n e

-- The pool behind the section that adds `w`.
abbrev grown : Pool Work → Work → Pool Work
grown p w = record p { jobs = p.jobs ++ w ∷ []; queue_cur_num = p.queue_cur_num + 1 }

Apart-snoc : (ps : List Ptr) (f : Ptr) → Apart ps → NotIn f ps → Apart (ps ++ f ∷ [])
Apart-snoc ps f a out =
    Apart-append ps (f ∷ []) a (tt, tt) (Disjoint-cons ps f [] out (Disjoint-nil ps))

module _ (h : Heap) (pp q : Ptr) (p : Pool Work) (fresh : Ptr) (w : Work) (ne : fresh ≢ null)
    (free : h fresh ≡ none) where
  abbrev cell : Cell
  cell = record { at = fresh; work = w }

  abbrev made : Heap
  made = write h fresh (some (job (job_of w null)))

  grown-IsPool :
      (g : Heap) (cs : List Cell) (t : Ptr)
      → IsPool h pp q cs p
      → Holds g pp (pool (struct_of (grown p w) (first (cs ++ cell ∷ [])) fresh q))
      → g q ≡ h q
      → Links g (cs ++ cell ∷ [])
      → IsPool g pp q (cs ++ cell ∷ []) (grown p w)
  grown-IsPool g cs t i at_pool same links = record {
    tail = fresh;
    at_pool = at_pool;
    at_threads = Holds-same i.at_threads same;
    links = links;
    last = Last-snoc fresh cs cell refl;
    nodup = rw (places-append cs (cell ∷ [])) (
        Apart-snoc (pp ∷ q ∷ places cs) fresh i.nodup (
          Holds-fresh i.at_pool free,
          (Holds-fresh i.at_threads free, Links-fresh h fresh cs i.links free),
        ));
    jobs = ap (λ js. js ++ w ∷ []) i.jobs ∙ sym (map-append (λ (c : Cell). c.work) cs (cell ∷ []));
    counted = ap (λ k. k + 1) i.counted ∙ sym (length-append cs (cell ∷ []));
  }

  threads_kept : {cs : List Cell} (c : Option Object) → IsPool h pp q cs p → write made pp c q ≡ h q
  threads_kept c i =
      write-other made pp c q (λ e. i.nodup.0.0 (sym e))
      ∙ write-other h fresh _ q (λ e. Holds-fresh i.at_threads free (sym e))

  new_job-first :
      IsPool h pp q [] p
      → (tail : Ptr) → Holds h pp (pool (struct_of p null tail q))
      → Ends
          (λ r g.
            (r ≡ added true)
            × IsPool g pp q (cell ∷ []) (grown p w)
            × SameOutside (pp ∷ fresh ∷ []) h g)
          (new_job fresh pp w (struct_of p null tail q) h)
  unfolding new_job link_job calloc
  new_job-first i tail at_pool =
      let kept =
        keep fresh (some (job (job_of w null))) at_pool (λ e. Holds-fresh at_pool free (sym e)) in
      rw (not_null ne, not_null ne, store_pool-ok (struct_of (grown p w) fresh fresh q) kept)
        (ends (
          refl,
          grown-IsPool _ [] tail i (Holds-self _ pp _) (threads_kept _ i)
              (keep pp _ (Holds-self h fresh _) (Holds-fresh at_pool free), ne, tt),
          λ a o. write-other _ pp _ a o.0 ∙ write-other h fresh _ a o.1.0,
        ))

  new_job-last :
      (c : Cell) (cs : List Cell) (i : IsPool h pp q (c ∷ cs) p)
      → Ends
          (λ r g.
            (r ≡ added false)
            × IsPool g pp q (c ∷ cs ++ cell ∷ []) (grown p w)
            × SameOutside (pp ∷ fresh ∷ i.tail ∷ []) h g)
          (new_job fresh pp w (struct_of p c.at i.tail q) h)
  unfolding new_job link_job calloc
  new_job-last c cs i =
      let (v, at_last) = Links-Last h i.tail c cs i.links i.last in
      let t_ne : i.tail ≢ fresh = λ e. Holds-fresh at_last free (sym e) in
      let pp_ne : pp ≢ fresh = λ e. Holds-fresh i.at_pool free (sym e) in
      let pp_t : pp ≢ i.tail = apart i.at_pool at_last (λ e. cc) in
      let q_t : q ≢ i.tail = apart i.at_threads at_last (λ e. cc) in
      let last1 = keep fresh (some (job (job_of w null))) at_last t_ne in
      let pool2 =
        keep i.tail (some (job (job_of v fresh)))
          (keep fresh (some (job (job_of w null))) i.at_pool pp_ne) pp_t in
      let g : Heap =
        write (write made i.tail (some (job (job_of v fresh)))) pp
          (some (pool (struct_of (grown p w) c.at fresh q))) in
      let relink : (u : Work)
          → Holds h i.tail (job (job_of u null))
          → Holds g i.tail (job (job_of u fresh)) =
        λ u e.
          let agree : some (job (job_of u null)) ≡ some (job (job_of v null)) =
            sym e.at ∙ at_last.at in
          let same_job : job_of u null ≡ job_of v null = cc in
          subst (λ j. Holds g i.tail (job (record j { next = fresh }))) (sym same_job)
            (keep pp _ (Holds-self made i.tail _) (λ e. pp_t (sym e))) in
      let same : (a : Ptr) (j : Job) → Holds h a (job j) → a ≢ i.tail → g a ≡ h a = λ a j e ne_t.
        write-other _ pp _ a (apart e i.at_pool (λ e. cc))
        ∙ write-other _ i.tail _ a ne_t
        ∙ write-other h fresh _ a (λ x. Holds-fresh e free (sym x)) in
      rw
        (
          not_null ne,
          not_null ne,
          not_null i.links.1,
          load_job-ok last1,
          store_job-ok (job_of v fresh) last1,
          store_pool-ok (struct_of (grown p w) c.at fresh q) pool2,
        )
        (ends (
          refl,
          grown-IsPool _ (c ∷ cs) i.tail i (Holds-self _ pp _)
              (write-other _ pp _ q (λ e. i.nodup.0.0 (sym e))
                ∙ write-other _ i.tail _ q q_t
                ∙ write-other h fresh _ q (λ e. Holds-fresh i.at_threads free (sym e)))
              (Links-snoc h _ i.tail c cs cell i.links i.last i.nodup.1.1 relink same
                (keep pp _ (keep i.tail _ (Holds-self h fresh _) (λ e. t_ne (sym e)))
                  (λ e. pp_ne (sym e)))
                ne),
          λ a o.
              write-other _ pp _ a o.0
              ∙ write-other _ i.tail _ a o.1.1.0
              ∙ write-other h fresh _ a o.1.0,
        ))

  new_job-Becomes :
      (cs : List Cell) (i : IsPool h pp q cs p)
      → Ends
          (λ r g.
            (r ≡ added (is_nil p.jobs)) × Becomes h g pp q cs (pp ∷ fresh ∷ places cs) (grown p w))
          (new_job fresh pp w (struct_of p (first cs) i.tail q) h)
  new_job-Becomes [] i = weaken (new_job-first i i.tail i.at_pool) λ r g done. (
    done.0 ∙ ap (λ js. added (is_nil js)) (sym i.jobs),
    record {
      cells = cell ∷ [];
      is_pool = done.1;
      kept = λ a o. done.2 a (o.0, (o.1.0, tt));
      within = λ a o away. (o.1.0, tt);
    },
  )
  new_job-Becomes (c ∷ cs) i = weaken (new_job-last c cs i) λ r g done. (
    done.0 ∙ ap (λ js. added (is_nil js)) (sym i.jobs),
    record {
      cells = c ∷ cs ++ cell ∷ [];
      is_pool = done.1;
      kept = λ a o. done.2 a (o.0, (o.1.0, (Last-ne a i.tail c cs i.last o.1.1, tt)));
      within = λ a o away.
          rw (places-append cs (cell ∷ []))
            (away.0, NotIn-append a (places cs) (fresh ∷ []) away.1 (o.1.0, tt));
    },
  )

-- The section ended in `g` as the one on the list of jobs did.
abbrev pub Grown :
    (h : Heap) (pp q fresh : Ptr) → List Cell → Pool Work × AddResult → AddResult → Heap → Type 0
Grown h pp q fresh cs out r g = (r ≡ out.1) × Becomes h g pp q cs (pp ∷ fresh ∷ places cs) out.0

new_job-refused :
    (pp fresh : Ptr) (w : Work) (p : Threadpool) (h : Heap)
    → (fresh == null) ≡ true
    → new_job fresh pp w p h ≡ ok refused h
unfolding new_job calloc
new_job-refused pp fresh w p h no_memory = rw no_memory refl

-- The section of `threadpool_add_job` on memory does to the pool, and returns, what the one on the
-- list of jobs does, where `fresh` is a free address or null.
pub add_section-Simulates :
    (h : Heap) (pp q : Ptr) (cs : List Cell) (p : Pool Work) (fresh : Ptr) (w : Work)
    → IsPool h pp q cs p
    → h fresh ≡ none
    → Ends
        (Grown h pp q fresh cs (threadpool_add_job (not (fresh == null)) w p))
        (add_section fresh w pp h)
unfolding add_section threadpool_add_job
add_section-Simulates h pp q cs p fresh w i free =
    let P = Grown h pp q fresh cs in
    rw (load_pool-ok i.at_pool) (
      branch P ((p.queue_cur_num == p.queue_max_num) && not (p.queue_close || p.pool_close)) _ _
        (λ full. ends (refl, stays _ i))
        (λ room.
          branch P (p.queue_close || p.pool_close) _ _ (λ over. ends (refl, stays _ i))
            (λ running. elim (Bool-cases (fresh == null)) [
              | inl no_memory ↦
                  rw
                    (
                      no_memory,
                      new_job-refused pp fresh w (struct_of p (first cs) i.tail q) h no_memory,
                    )
                    (ends (refl, stays _ i))
              | inr got ↦ rw got (new_job-Becomes h pp q p fresh w (ground arith) free cs i)
            ])))
