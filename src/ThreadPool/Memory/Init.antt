-- ===== src/ThreadPool/Memory/Init.antt =====
-- What `threadpool_init` makes in memory.
use uart.Base.{
  arith, Bool, not, ◌&&◌, ◌==◌, ◌∷◌, ℕ, ◌≡◌, ◌≢◌, refl, sym, ◌∙◌, true, false, some, [],
}
use uart.Heap.{Holds, Ptr, null, pool, threads, Heap, calloc}
use uart.Heap.Facts.{keep, Holds-self, store_pool-ok, write-other, not_null}
use uart.Heap.Ends.{Ends, ends}
use uart.Heap.Places.{SameOutside}
use uart.ThreadPool.{Pool, InitCalls, threadpool_init}
use uart.ThreadPool.Memory.{Work, init_section, new_struct}
use uart.ThreadPool.Memory.Shape.{struct_of, IsPool}

abbrev pub new_pool : (thread_num queue_max_num : ℕ) → Pool Work
new_pool thread_num queue_max_num = record {
  thread_num = thread_num;
  queue_max_num = queue_max_num;
  jobs = [];
  queue_cur_num = 0;
  queue_close = false;
  pool_close = false;
}

abbrev all_succeed : InitCalls
all_succeed = record {
  malloc_pool = true;
  mutex_init = true;
  cond_inits = true;
  malloc_pthreads = true;
}

-- Where nothing fails, `threadpool_init` returns the address of a pool with no jobs, which is the
-- one that it makes on lists.
pub init_section-IsPool :
    (h : Heap) (pp q : Ptr) (n m : ℕ)
    → pp ≢ null
    → q ≢ null
    → pp ≢ q
    → (threadpool_init all_succeed n m ≡ some (new_pool n m))
      × Ends
          (λ r g. (r ≡ pp) × IsPool g pp q [] (new_pool n m) × SameOutside (pp ∷ q ∷ []) h g)
          (init_section pp q true true n m h)
unfolding init_section threadpool_init calloc
init_section-IsPool h pp q n m pp_ne q_ne ne =
    let at1 = keep q (some threads) (Holds-self h pp (pool (new_struct n m))) ne in
    (
      refl,
      rw
          (
            not_null pp_ne,
            not_null pp_ne,
            not_null q_ne,
            not_null q_ne,
            store_pool-ok (struct_of (new_pool n m) null null q) at1,
          )
          (ends (
            refl,
            record {
              tail = null;
              at_pool = Holds-self _ pp _;
              at_threads = keep pp _ (Holds-self _ q threads) (λ e. ne (sym e));
              links = tt;
              last = tt;
              nodup = ((ne, tt), (tt, tt));
              jobs = refl;
              counted = refl;
            },
            λ a out.
                write-other _ pp _ a out.0
                ∙ write-other _ q _ a out.1.0
                ∙ write-other h pp _ a out.0,
          )),
    )

-- Where the mutex or a condition variable cannot be made, or the block of thread ids cannot, the
-- result is null and the struct stays allocated.
pub init_section-leaks :
    (h : Heap) (pp q : Ptr) (mutex_init cond_inits : Bool) (n m : ℕ)
    → pp ≢ null
    → (mutex_init && cond_inits && not (q == null)) ≡ false
    → Ends
        (λ r g. (r ≡ null) × Holds g pp (pool (new_struct n m)))
        (init_section pp q mutex_init cond_inits n m h)
unfolding init_section calloc
init_section-leaks h pp q false c n m ne failed =
    rw (not_null ne, not_null ne) (ends (refl, Holds-self h pp _))
init_section-leaks h pp q true false n m ne failed =
    rw (not_null ne, not_null ne) (ends (refl, Holds-self h pp _))
init_section-leaks h pp q true true n m ne failed =
    let no_memory : (q == null) ≡ true = ground arith in
    rw (not_null ne, not_null ne, no_memory) (ends (refl, Holds-self h pp _))
