-- ===== src/Heap/Ends.antt =====
-- A command ends without a fault, and its result and heap satisfy a predicate.
use mathlib.Core.Path.{subst}
use uart.Base.{Bool, true, false, ◌≡◌, refl, if◌then◌else◌}
use uart.Heap.{Heap, Run, ok, fault, Cmd, then_run}

pub data Ends {A : Type 0} (P : A → Heap → Type 0) : Run A → Type 0 where
  ends : {a : A} {h : Heap} → P a h → Ends P (ok a h)

module _ {A : Type 0} {P : A → Heap → Type 0} where
  pub seq :
      {B : Type 0} {Q : B → Heap → Type 0} {r : Run A} {k : A → Cmd B}
      → Ends P r
      → ((a : A) (h : Heap) → P a h → Ends Q (k a h))
      → Ends Q (then_run r k)
  seq (ends p) next = next _ _ p

  pub weaken :
      {Q : A → Heap → Type 0} {r : Run A}
      → Ends P r
      → ((a : A) (h : Heap) → P a h → Q a h)
      → Ends Q r
  weaken (ends p) f = ends (f _ _ p)

-- A command and a function that branch on the same test.
pub branch :
    {A X : Type 0} (P : X → A → Heap → Type 0) {x y : X} {h : Heap} (b : Bool) (m k : Cmd A)
    → (b ≡ true → Ends (P x) (m h))
    → (b ≡ false → Ends (P y) (k h))
    → Ends (P (if b then x else y)) ((if b then m else k) h)
branch P true m k first second = first refl
branch P false m k first second = second refl

-- What holds at the end of a command that is known to end so.
pub Ends-at :
    {A : Type 0} {P : A → Heap → Type 0} {r : Run A} {a : A} {h : Heap}
    → Ends P r
    → r ≡ ok a h
    → P a h
Ends-at {P} {a = a'} {h = h'} (ends {a = b} {h = g} p) e =
    let same_result : b ≡ a' = cc in
    let same_heap : g ≡ h' = cc in subst (λ x. P x h') same_result (subst (λ x. P b x) same_heap p)

pub Ends-runs :
    {A : Type 0} {P : A → Heap → Type 0} {r : Run A}
    → Ends P r
    → (a : A) × (h : Heap) × (r ≡ ok a h) × P a h
Ends-runs (ends p) = (_, _, refl, p)

pub Ends-fault :
    {A B : Type 0} {P : A → Heap → Type 0} {r : Run A} (k : A → Cmd B)
    → Ends P r
    → ((a : A) (h : Heap) → P a h → k a h ≡ fault)
    → then_run r k ≡ fault
Ends-fault k (ends p) f = f _ _ p
