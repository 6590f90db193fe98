-- ===== src/ThreadPool/Memory/Run.antt =====
-- The threads around one pool in memory: mutex sections, and workers that run and free the jobs
-- they have taken, in any order.
use uart.Base.{◌≡◌, List, [], ◌∷◌, ◌++◌, map}
use uart.Heap.{Ptr, Heap, ok}
use uart.Heap.Places.{Same}
use uart.ThreadPool.{Pool, AddResult, added, took}
use uart.ThreadPool.Memory.{Work, run_job}
use uart.ThreadPool.Memory.Shape.{Cell, places, IsPool}
use uart.ThreadPool.Memory.Sections.{Section, adds, Outcome, of_add, of_take, on_memory, IsFree}

-- The memory; the jobs that were added and those that were run, in order; and the addresses that
-- workers hold.
pub record Running : Type 0 where
  pub heap : Heap
  pub accepted : List Work
  pub held : List Ptr
  pub ran : List Work

abbrev pub accepted_of : Section → AddResult → List Work
accepted_of (adds fresh w) (added _) = w ∷ []
accepted_of _ _ = []

abbrev pub accepted_by : {J : Type 0} → Section → Outcome J → List Work
accepted_by s (of_add r) = accepted_of s r
accepted_by s _ = []

abbrev pub taken_by : {J : Type 0} → Outcome J → List J
taken_by (of_take (took j _ _)) = j ∷ []
taken_by _ = []

abbrev pub works : List Cell → List Work
works cs = map (λ c. c.work) cs

pub data Step (pp q : Ptr) (x u : Running) : Type 0 where
  enters :
      (s : Section) (r : Outcome Ptr) (g : Heap)
      → IsFree x.heap s
      → on_memory s pp x.heap ≡ ok r g
      → u ≡ record x {
        heap = g;
        accepted = x.accepted ++ accepted_by s r;
        held = x.held ++ taken_by r;
      }
      → Step pp q x u
  runs :
      (before : List Ptr) (at : Ptr) (after : List Ptr) (w : Work) (g : Heap)
      → x.held ≡ before ++ at ∷ after
      → run_job at x.heap ≡ ok w g
      → u ≡ record x { heap = g; held = before ++ after; ran = x.ran ++ w ∷ [] }
      → Step pp q x u
  elsewhere :
      (g : Heap)
      → ((cs : List Cell) (p : Pool Work)
          → IsPool x.heap pp q cs p
          → Same x.heap g (pp ∷ q ∷ places cs))
      → Same x.heap g x.held
      → u ≡ record x { heap = g }
      → Step pp q x u

pub data Reach (pp q : Ptr) (x : Running) : Running → Type 0 where
  here : Reach pp q x x
  next : {t u : Running} → Reach pp q x t → Step pp q t u → Reach pp q x u
