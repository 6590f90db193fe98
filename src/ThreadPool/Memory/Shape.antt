-- ===== src/ThreadPool/Memory/Shape.antt =====
-- What a pool looks like in memory: its struct, its block of thread ids and its linked jobs.
use mathlib.Core.Path.{subst}
use uart.Base.{sym, ◌∙◌, none, some, ◌≡◌, ◌≢◌, List, [], ◌∷◌, ◌++◌, length, map, refl, ap}
use uart.Heap.{Ptr, null, Object, Job, Threadpool, job, pool, threads, Heap, Holds}
use uart.Heap.Places.{SameOutside, NotIn, Apart, Same, Holds-same}
use uart.ThreadPool.{Pool}
use uart.ThreadPool.Memory.{Work}

-- A queued job and its address.
pub record Cell : Type 0 where
  pub at : Ptr
  pub work : Work

abbrev pub places : List Cell → List Ptr
places [] = []
places (c ∷ cs) = c.at ∷ places cs

abbrev pub job_of : Work → (next : Ptr) → Job
job_of w next = record { callback_function = w.callback_function; arg = w.arg; next = next }

-- `head` of a pool with these jobs, and `next` of the job before them.
abbrev pub first : List Cell → Ptr
first [] = null
first (c ∷ cs) = c.at

abbrev pub Links : Heap → List Cell → Type 0
Links h [] = Unit {0}
Links h (c ∷ cs) = Holds h c.at (job (job_of c.work (first cs))) × (c.at ≢ null) × Links h cs

-- `tail`, which is not looked at where there are no jobs.
abbrev pub Last : Ptr → List Cell → Type 0
Last t [] = Unit {0}
Last t (c ∷ []) = t ≡ c.at
Last t (c ∷ d ∷ cs) = Last t (d ∷ cs)

-- The struct of the pool `p`.
abbrev pub struct_of : Pool Work → (head tail pthreads : Ptr) → Threadpool
struct_of p head tail pthreads = record {
  thread_num = p.thread_num;
  queue_max_num = p.queue_max_num;
  head = head;
  tail = tail;
  pthreads = pthreads;
  queue_cur_num = p.queue_cur_num;
  queue_close = p.queue_close;
  pool_close = p.pool_close;
}

-- The pool at `pp`, with its thread ids at `q`, is `p`, and its jobs are these cells.
pub record IsPool (h : Heap) (pp q : Ptr) (cs : List Cell) (p : Pool Work) : Type 0 where
  pub tail : Ptr
  pub at_pool : Holds h pp (pool (struct_of p (first cs) tail q))
  pub at_threads : Holds h q threads
  pub links : Links h cs
  pub last : Last tail cs
  pub nodup : Apart (pp ∷ q ∷ places cs)
  pub jobs : p.jobs ≡ map (λ c. c.work) cs
  pub counted : p.queue_cur_num ≡ length cs

pub Holds-fresh : {h : Heap} {f p : Ptr} {o : Object} → Holds h p o → h f ≡ none → f ≢ p
Holds-fresh {h} {o = o} e free same = let at : none ≡ some o = sym free ∙ ap h same ∙ e.at in cc

pub Links-Same : (h g : Heap) (cs : List Cell) → Links h cs → Same h g (places cs) → Links g cs
Links-Same h g [] l same = tt
Links-Same h g (c ∷ cs) l same = (Holds-same l.0 same.0, l.1, Links-Same h g cs l.2 same.1)

-- What is written elsewhere leaves the pool.
pub IsPool-Same :
    {h g : Heap} {pp q : Ptr} {cs : List Cell} {p : Pool Work}
    → IsPool h pp q cs p
    → Same h g (pp ∷ q ∷ places cs)
    → IsPool g pp q cs p
IsPool-Same {h} {g} {cs = cs} i same = record {
  tail = i.tail;
  at_pool = Holds-same i.at_pool same.0;
  at_threads = Holds-same i.at_threads same.1.0;
  links = Links-Same h g cs i.links same.1.1;
  last = i.last;
  nodup = i.nodup;
  jobs = i.jobs;
  counted = i.counted;
}

pub places-append : (cs ds : List Cell) → places (cs ++ ds) ≡ places cs ++ places ds
places-append [] ds = refl
places-append (c ∷ cs) ds = ap (λ r. c.at ∷ r) (places-append cs ds)

-- A free address is none of the pool's.
pub Links-fresh :
    (h : Heap) (f : Ptr) (cs : List Cell) → Links h cs → h f ≡ none → NotIn f (places cs)
Links-fresh h f [] l free = tt
Links-fresh h f (c ∷ cs) l free = (Holds-fresh l.0 free, Links-fresh h f cs l.2 free)

-- The last job is none that stands before it.
pub Last-ne :
    (a t : Ptr) (c : Cell) (cs : List Cell) → Last t (c ∷ cs) → NotIn a (places (c ∷ cs)) → a ≢ t
Last-ne a t c [] l out e = out.0 (e ∙ l)
Last-ne a t c (d ∷ cs) l out e = Last-ne a t d cs l out.1 e

pub Links-Last :
    (h : Heap) (t : Ptr) (c : Cell) (cs : List Cell)
    → Links h (c ∷ cs)
    → Last t (c ∷ cs)
    → (w : Work) × Holds h t (job (job_of w null))
Links-Last h t c [] l e = (c.work, subst (λ a. Holds h a (job (job_of c.work null))) (sym e) l.0)
Links-Last h t c (d ∷ cs) l e = Links-Last h t d cs l.2 e

-- Between `h` and `g` the pool with the jobs `cs` became `p`; nothing else was written but at the
-- addresses `out`, and its jobs lie there and where they were.
pub record Becomes (h g : Heap) (pp q : Ptr) (cs : List Cell) (out : List Ptr) (p : Pool Work)
    : Type 0 where
  pub cells : List Cell
  pub is_pool : IsPool g pp q cells p
  pub kept : SameOutside out h g
  pub within : (a : Ptr) → NotIn a out → NotIn a (places cs) → NotIn a (places cells)

pub stays :
    {h : Heap} {pp q : Ptr} {cs : List Cell} {p : Pool Work} (out : List Ptr)
    → IsPool h pp q cs p
    → Becomes h h pp q cs out p
stays {cs} out i = record { cells = cs; is_pool = i; kept = λ a _. refl; within = λ a _ away. away }
