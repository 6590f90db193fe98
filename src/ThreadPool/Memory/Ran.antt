-- ===== src/ThreadPool/Memory/Ran.antt =====
-- Every reachable memory of a pool: no job is lost, and none is run twice.
use mathlib.Core.Path.{subst}
use mathlib.Core.List.{map-append}
use mathlib.Core.List.{Perm, perm_middle}
use mathlib.Core.List.Perm
use uart.Base.{ap₂, ◌≡◌, refl, sym, ap, ◌∙◌, List, [], ◌∷◌, ◌++◌, append_assoc, length}
use uart.Heap.{Ptr, Heap, ok}
use uart.Heap.Ends.{Ends-at}
use uart.Heap.Places.{
  Apart, Same, SameOutside, Same-of_outside, Disjoint, append-Disjoint, Disjoint-nil, Disjoint-cons,
  Apart-append,
}
use uart.ThreadPool.{Pool}
use uart.ThreadPool.Memory.{Work, run_job}
use uart.ThreadPool.Memory.Shape.{Cell, places, places-append, IsPool, Becomes, IsPool-Same}
use uart.ThreadPool.Memory.Take.{run_job-Freed, both_wait, both_exit, both_took}
use uart.ThreadPool.Memory.Sections.{
  Section, Outcome, on_memory, SameOutcome, same_add, same_take, same_destroy, touched, IsFree,
  on_memory-Simulates,
}
use uart.ThreadPool.Memory.Run.{
  Running, accepted_of, accepted_by, taken_by, works, Step, enters, runs, elsewhere, Reach, here,
  next,
}
use uart.ThreadPool.Memory.Flow.{on_list-Flows}
use uart.ThreadPool.Memory.Held.{
  Loose, Loose-Taken, Loose-Same, Loose-append, away-touched, away-within, away-new, length-works,
  splits, Apart-middle, Apart-rest, Disjoint-middle, Disjoint-at, Loose-middle, Loose-at,
}

pub record Inv (pp q : Ptr) (x : Running) : Type 0 where
  pub pool : Pool Work
  pub cells : List Cell
  pub loose : List Cell
  pub is_pool : IsPool x.heap pp q cells pool
  pub held : x.held ≡ places loose
  pub at_held : Loose x.heap loose
  pub apart : Apart (places loose)
  pub away : Disjoint (places loose) (pp ∷ q ∷ places cells)
  pub kept : Perm (x.ran ++ (works loose ++ pool.jobs)) x.accepted

module _ (pp q : Ptr) (x : Running) (v : Inv pp q x) where
  -- A section that leaves the pool `p`, and the job `new` with a worker, if any.
  entered-Inv :
      (s : Section) (g : Heap) (p : Pool Work)
      (b : Becomes x.heap g pp q v.cells (touched s pp v.cells) p) (new : List Cell)
      (acc : List Work)
      → IsFree x.heap s
      → Loose g new
      → Apart (places new)
      → Disjoint (places new) (pp ∷ q ∷ places b.cells)
      → Disjoint (places v.loose) (places new)
      → v.pool.jobs ++ acc ≡ works new ++ p.jobs
      → Inv pp q (record x { heap = g; accepted = x.accepted ++ acc; held = x.held ++ places new })
  entered-Inv s g p b new acc free at_new apart_new away_new other flow =
      let ps = places v.loose in
      let out = touched s pp v.cells in
      let away_out =
        away-touched x.heap s pp q v.cells ps free (Loose-Taken x.heap v.loose v.at_held) v.away in
      record {
        pool = p;
        cells = b.cells;
        loose = v.loose ++ new;
        is_pool = b.is_pool;
        held = ap (λ l. l ++ places new) v.held ∙ sym (places-append v.loose new);
        at_held =
            Loose-append g v.loose new
              (Loose-Same x.heap g v.loose v.at_held (Same-of_outside ps out b.kept away_out))
              at_new;
        apart =
            rw (places-append v.loose new) (Apart-append ps (places new) v.apart apart_new other);
        away = rw (places-append v.loose new) (
            append-Disjoint ps (places new) (pp ∷ q ∷ places b.cells)
              (away-within pp q out v.cells b.cells ps b.within away_out v.away) away_new);
        kept =
            subst (λ l. Perm l (x.accepted ++ acc))
              (append_assoc x.ran (works v.loose ++ v.pool.jobs) acc
                ∙ ap (λ l. x.ran ++ l)
                    (append_assoc (works v.loose) v.pool.jobs acc
                      ∙ ap (λ l. works v.loose ++ l) flow
                      ∙ sym (append_assoc (works v.loose) (works new) p.jobs)
                      ∙ ap (λ l. l ++ p.jobs)
                          (sym (map-append (λ (c : Cell). c.work) v.loose new))))
              (Perm.append_right acc v.kept);
      }

  outcome-Inv :
      (s : Section) (g : Heap) {r : Outcome Ptr} (p : Pool Work) {o : Outcome Work}
      (b : Becomes x.heap g pp q v.cells (touched s pp v.cells) p)
      → IsFree x.heap s
      → SameOutcome g pp q v.cells b.cells r o
      → v.pool.jobs ++ accepted_by s o ≡ taken_by o ++ p.jobs
      → Inv pp q (record x {
        heap = g;
        accepted = x.accepted ++ accepted_by s r;
        held = x.held ++ taken_by r;
      })
  outcome-Inv s g p b free (same_add {r} same) flow =
      entered-Inv s g p b [] (accepted_of s r) free tt tt tt (Disjoint-nil (places v.loose))
        (ap (λ a. v.pool.jobs ++ accepted_of s a) same ∙ flow)
  outcome-Inv s g p b free (same_destroy same) flow =
      entered-Inv s g p b [] [] free tt tt tt (Disjoint-nil (places v.loose)) flow
  outcome-Inv s g p b free (same_take both_wait) flow =
      entered-Inv s g p b [] _ free tt tt tt (Disjoint-nil (places v.loose)) flow
  outcome-Inv s g p b free (same_take both_exit) flow =
      entered-Inv s g p b [] _ free tt tt tt (Disjoint-nil (places v.loose)) flow
  outcome-Inv s g p b free (same_take (both_took {at} {w} holds out old)) flow =
      entered-Inv s g p b (record { at = at; work = w } ∷ []) _ free ((_, holds), tt) (tt, tt)
        (out, tt) (away-new v.cells at (places v.loose) pp q old v.away) flow

  enters-Inv :
      (s : Section) (r : Outcome Ptr) (g : Heap)
      → IsFree x.heap s
      → on_memory s pp x.heap ≡ ok r g
      → Inv pp q (record x {
        heap = g;
        accepted = x.accepted ++ accepted_by s r;
        held = x.held ++ taken_by r;
      })
  enters-Inv s r g free ends_so =
      let done =
        Ends-at (on_memory-Simulates s x.heap pp q v.cells v.pool v.is_pool free) ends_so in
      let counted : v.pool.queue_cur_num ≡ length v.pool.jobs =
        v.is_pool.counted ∙ sym (length-works v.cells) ∙ ap length (sym v.is_pool.jobs) in
      outcome-Inv s g _ done.0 free done.1 (on_list-Flows s v.pool counted)

  -- A worker runs the job of the cell `c`, which is one of those that are held.
  ran-Inv :
      (bs : List Cell) (c : Cell) (ds : List Cell) (g : Heap)
      → v.loose ≡ bs ++ c ∷ ds
      → SameOutside (c.at ∷ []) x.heap g
      → Inv pp q (record x { heap = g; held = places (bs ++ ds); ran = x.ran ++ c.work ∷ [] })
  ran-Inv bs c ds g e outside =
      let loose = subst (Loose x.heap) e v.at_held in
      let all = ap places e ∙ places-append bs (c ∷ ds) in
      let apart = subst Apart all v.apart in
      let away = subst (λ ps. Disjoint ps (pp ∷ q ∷ places v.cells)) all v.away in
      let left = places-append bs ds in
      record {
        pool = v.pool;
        cells = v.cells;
        loose = bs ++ ds;
        is_pool = IsPool-Same v.is_pool (
            Same-of_outside (pp ∷ q ∷ places v.cells) (c.at ∷ []) outside (
              Disjoint-cons (pp ∷ q ∷ places v.cells) c.at []
                (Disjoint-at (places bs) c.at (places ds) _ away)
                (Disjoint-nil (pp ∷ q ∷ places v.cells))));
        held = refl;
        at_held = Loose-Same x.heap g (bs ++ ds) (Loose-middle x.heap bs c ds loose) (
            Same-of_outside (places (bs ++ ds)) (c.at ∷ []) outside
              (rw left (Apart-rest (places bs) c.at (places ds) apart)));
        apart = rw left (Apart-middle (places bs) c.at (places ds) apart);
        away = rw left (Disjoint-middle (places bs) c.at (places ds) _ away);
        kept =
            subst (λ l. Perm l x.accepted) (sym (append_assoc x.ran (c.work ∷ []) _))
              (Perm.trans
                (Perm.append_left x.ran (
                  subst (λ l. Perm (c.work ∷ l) (works bs ++ c.work ∷ (works ds ++ v.pool.jobs)))
                    (sym (append_assoc (works bs) (works ds) v.pool.jobs)
                      ∙ ap (λ l. l ++ v.pool.jobs) (sym (map-append (λ (c : Cell). c.work) bs ds)))
                    (Perm.symm (perm_middle (works bs) (works ds ++ v.pool.jobs)))))
                (subst (λ l. Perm (x.ran ++ l) x.accepted)
                  (ap (λ l. works l ++ v.pool.jobs) e
                    ∙ ap (λ l. l ++ v.pool.jobs) (map-append (λ (c : Cell). c.work) bs (c ∷ ds))
                    ∙ append_assoc (works bs) (works (c ∷ ds)) v.pool.jobs)
                  v.kept));
      }

  runs-Inv :
      (before : List Ptr) (at : Ptr) (after : List Ptr) (w : Work) (g : Heap)
      → x.held ≡ before ++ at ∷ after
      → run_job at x.heap ≡ ok w g
      → Inv pp q (record x { heap = g; held = before ++ after; ran = x.ran ++ w ∷ [] })
  runs-Inv before at after w g e ends_so =
      let (bs, c, ds, all, e1, e2, e3) = splits v.loose before at after (sym v.held ∙ e) in
      let (n, holds) = Loose-at x.heap bs c ds (subst (Loose x.heap) all v.at_held) in
      let runs_c : run_job c.at x.heap ≡ ok w g = ap (λ a. run_job a x.heap) e2 ∙ ends_so in
      let done = Ends-at (run_job-Freed x.heap c.at n c.work holds) runs_c in
      subst (λ l. Inv pp q (record x { heap = g; held = l; ran = x.ran ++ w ∷ [] }))
        (places-append bs ds ∙ ap₂ (λ l k. l ++ k) e1 e3)
        (subst
          (λ u. Inv pp q (record x { heap = g; held = places (bs ++ ds); ran = x.ran ++ u ∷ [] }))
          (sym done.0) (ran-Inv bs c ds g all done.2))

  Step-Inv : {u : Running} → Step pp q x u → Inv pp q u
  Step-Inv (enters s r g free ends_so e) = rw e (enters-Inv s r g free ends_so)
  Step-Inv (runs before at after w g split ends_so e) =
      rw e (runs-Inv before at after w g split ends_so)
  Step-Inv (elsewhere g pool_same held_same e) = rw e (record {
    pool = v.pool;
    cells = v.cells;
    loose = v.loose;
    is_pool = IsPool-Same v.is_pool (pool_same v.cells v.pool v.is_pool);
    held = v.held;
    at_held = Loose-Same x.heap g v.loose v.at_held (subst (Same x.heap g) v.held held_same);
    apart = v.apart;
    away = v.away;
    kept = v.kept;
  })

-- A new pool, with no job added yet.
pub record IsStart (pp q : Ptr) (p : Pool Work) (x : Running) : Type 0 where
  pub is_pool : IsPool x.heap pp q [] p
  pub none_accepted : x.accepted ≡ []
  pub none_held : x.held ≡ []
  pub none_ran : x.ran ≡ []

Run-Inv :
    {pp q : Ptr} {p : Pool Work} {x y : Running} → IsStart pp q p x → Reach pp q x y → Inv pp q y
Run-Inv {p} i here = record {
  pool = p;
  cells = [];
  loose = [];
  is_pool = i.is_pool;
  held = i.none_held;
  at_held = tt;
  apart = tt;
  away = tt;
  kept = rw (i.none_accepted, i.none_ran, i.is_pool.jobs) (Perm.refl []);
}
Run-Inv i (next r st) = Step-Inv _ _ _ (Run-Inv i r) st

-- From a pool that was new, whatever the order of the mutex sections of any threads, of the workers'
-- running of the jobs that they have taken, and of writes elsewhere: the memory holds a well-formed
-- pool; each address that a worker holds has its job, with the callback and the argument; and the
-- jobs that were run, those that are held and those that are queued are the jobs that were added,
-- each once. What `malloc` returns is taken to be null or a free address.
pub Reach-IsPool :
    {pp q : Ptr} {p : Pool Work} {x y : Running}
    → IsStart pp q p x
    → Reach pp q x y
    → (p' : Pool Work) × (cs ls : List Cell) × IsPool y.heap pp q cs p'
      × Loose y.heap ls
      × (y.held ≡ places ls)
      × Perm (y.ran ++ (works ls ++ works cs)) y.accepted
Reach-IsPool {y} i r =
    let v = Run-Inv i r in
    (
      v.pool,
      v.cells,
      v.loose,
      v.is_pool,
      v.at_held,
      v.held,
      subst (λ js. Perm (y.ran ++ (works v.loose ++ js)) y.accepted) v.is_pool.jobs v.kept,
    )
