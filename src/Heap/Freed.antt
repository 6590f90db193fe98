-- ===== src/Heap/Freed.antt =====
-- Addresses at which nothing is left.
use uart.Base.{ap, some, ◌≡◌, sym, ◌∙◌, none, List, [], ◌∷◌}
use uart.Heap.{Ptr, Object, Heap, Holds, write}
use uart.Heap.Facts.{write-other}
use uart.Heap.Places.{NotIn, Disjoint}

-- Nothing is left at these addresses.
abbrev pub Freed : Heap → List Ptr → Type 0
Freed g [] = Unit {0}
Freed g (p ∷ ps) = (g p ≡ none) × Freed g ps

pub Freed-write :
    (g : Heap) (p : Ptr) (qs : List Ptr) → NotIn p qs → Freed g qs → Freed (write g p none) qs
Freed-write g p [] n f = tt
Freed-write g p (q ∷ qs) n f =
    (write-other g p none q (λ x. n.0 (sym x)) ∙ f.0, Freed-write g p qs n.1 f.1)

-- Something is at each of these addresses.
abbrev pub Taken : Heap → List Ptr → Type 0
Taken g [] = Unit {0}
Taken g (p ∷ ps) = ((o : Object) × Holds g p o) × Taken g ps

pub Freed-NotIn : (g : Heap) (p : Ptr) (qs : List Ptr) → g p ≡ none → Taken g qs → NotIn p qs
Freed-NotIn g p [] f t = tt
Freed-NotIn g p (q ∷ qs) f t = (
  λ same. let at : none ≡ some t.0.0 = sym f ∙ ap g same ∙ t.0.1.at in cc,
  Freed-NotIn g p qs f t.1,
)

pub Freed-Disjoint : (g : Heap) (ps qs : List Ptr) → Freed g ps → Taken g qs → Disjoint ps qs
Freed-Disjoint g [] qs f t = tt
Freed-Disjoint g (p ∷ ps) qs f t = (Freed-NotIn g p qs f.0 t, Freed-Disjoint g ps qs f.1 t)
