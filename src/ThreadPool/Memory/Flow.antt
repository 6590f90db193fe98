-- ===== src/ThreadPool/Memory/Flow.antt =====
-- What a section of src/thread_pool.c does to the list of jobs.
use uart.Base.{
  true, false, nil_of_length, if◌then◌else◌, ◌≡◌, refl, ap, ◌∙◌, Bool, not, List, [], ◌∷◌, ◌++◌,
  append-nil, length, arith, ◌==◌, ◌+◌, ◌-◌, ◌&&◌, ◌||◌,
}
use uart.Heap.{null}
use uart.ThreadPool.{
  Pool, AddResult, added, refused, is_nil, TakeResult, DestroyResult, threadpool_add_job, take_job,
  take_head, threadpool_destroy, destroy_check,
}
use uart.ThreadPool.Memory.{Work}
use uart.ThreadPool.Memory.Sections.{
  Section, adds, takes, destroys, checks, Outcome, of_add, of_take, of_destroy, on_list,
}
use uart.ThreadPool.Memory.Run.{accepted_by, taken_by}

either :
    {X : Type 0} (P : X → Type 0) {x y : X} (b : Bool)
    → (b ≡ true → P x)
    → (b ≡ false → P y)
    → P (if b then x else y)
either P true f g = f refl
either P false f g = g refl

-- The jobs that were queued and the one that is added are those that are taken and left, in order.
abbrev Flows : Section → Pool Work → Pool Work × Outcome Work → Type 0
Flows s p out = p.jobs ++ accepted_by s out.1 ≡ taken_by out.1 ++ out.0.jobs

head-Flows :
    (p : Pool Work) (js : List Work)
    → p.queue_cur_num ≡ length js
    → (p.queue_cur_num == 0) ≡ false
    → js ≡ taken_by (of_take (take_head js p).1) ++ (take_head js p).0.jobs
unfolding take_head
head-Flows p [] counted some_left = absurd (ground arith)
head-Flows p (j ∷ js) counted some_left =
    either (λ l. j ∷ js ≡ j ∷ l) (p.queue_cur_num - 1 == 0)
      (λ none_left. ap (λ l. j ∷ l) (nil_of_length js (ground arith))) (λ more. refl)

pub on_list-Flows :
    (s : Section) (p : Pool Work) → p.queue_cur_num ≡ length p.jobs → Flows s p (on_list s p)
unfolding on_list threadpool_add_job take_job threadpool_destroy destroy_check
on_list-Flows (adds fresh w) p counted =
    let P : Pool Work × AddResult → Type 0 = λ out. Flows (adds fresh w) p (out.0, of_add out.1) in
    either P ((p.queue_cur_num == p.queue_max_num) && not (p.queue_close || p.pool_close))
      (λ full. append-nil p.jobs)
      (λ room.
        either P (p.queue_close || p.pool_close) (λ over. append-nil p.jobs)
          (λ running.
            either P
              {x = (
                record p { jobs = p.jobs ++ w ∷ []; queue_cur_num = p.queue_cur_num + 1 },
                added (is_nil p.jobs),
              )}
              {y = (p, refused)} (not (fresh == null)) (λ got. refl)
              (λ none_got. append-nil p.jobs)))
on_list-Flows takes p counted =
    let P : Pool Work × TakeResult Work → Type 0 = λ out. Flows takes p (out.0, of_take out.1) in
    either P ((p.queue_cur_num == 0) && not p.pool_close) (λ none_left. append-nil p.jobs)
      (λ awake.
        either P p.pool_close (λ over. append-nil p.jobs)
          (λ running. append-nil p.jobs ∙ head-Flows p p.jobs counted (ground arith)))
on_list-Flows destroys p counted =
    let P : Pool Work × DestroyResult → Type 0 =
      λ out. Flows destroys p (out.0, of_destroy out.1) in
    either P (p.queue_close || p.pool_close) (λ over. append-nil p.jobs)
      (λ running.
        either P (p.queue_cur_num == 0) (λ none_left. append-nil p.jobs)
          (λ more. append-nil p.jobs))
on_list-Flows checks p counted =
    let P : Pool Work × DestroyResult → Type 0 = λ out. Flows checks p (out.0, of_destroy out.1) in
    either P (p.queue_cur_num == 0) (λ none_left. append-nil p.jobs) (λ more. append-nil p.jobs)
