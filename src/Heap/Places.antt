-- ===== src/Heap/Places.antt =====
-- Sets of addresses as lists: which are apart, and what stays the same there.
use uart.Base.{◌≡◌, ◌≢◌, sym, ◌∙◌, List, [], ◌∷◌, ◌++◌}
use uart.Heap.{Ptr, Object, Heap, Holds}

abbrev pub NotIn : Ptr → List Ptr → Type 0
NotIn a [] = Unit {0}
NotIn a (p ∷ ps) = (a ≢ p) × NotIn a ps

abbrev pub Apart : List Ptr → Type 0
Apart [] = Unit {0}
Apart (p ∷ ps) = NotIn p ps × Apart ps

-- `g` holds what `h` held at the addresses of the list.
abbrev pub Same : (h g : Heap) → List Ptr → Type 0
Same h g [] = Unit {0}
Same h g (p ∷ ps) = (g p ≡ h p) × Same h g ps

-- `g` holds what `h` held at all other addresses.
abbrev pub SameOutside : List Ptr → (h g : Heap) → Type 0
SameOutside ps h g = (a : Ptr) → NotIn a ps → g a ≡ h a

-- No address of the one list is in the other.
abbrev pub Disjoint : List Ptr → List Ptr → Type 0
Disjoint [] qs = Unit {0}
Disjoint (p ∷ ps) qs = NotIn p qs × Disjoint ps qs

pub Same-of_outside :
    {h g : Heap} (ps qs : List Ptr) → SameOutside qs h g → Disjoint ps qs → Same h g ps
Same-of_outside [] qs out d = tt
Same-of_outside (p ∷ ps) qs out d = (out p d.0, Same-of_outside ps qs out d.1)

pub Holds-same : {h g : Heap} {p : Ptr} {o : Object} → Holds h p o → g p ≡ h p → Holds g p o
Holds-same e same = record { at = same ∙ e.at }

pub NotIn-append : (a : Ptr) (ps qs : List Ptr) → NotIn a ps → NotIn a qs → NotIn a (ps ++ qs)
NotIn-append a [] qs hp hq = hq
NotIn-append a (p ∷ ps) qs hp hq = (hp.0, NotIn-append a ps qs hp.1 hq)

pub Apart-append : (ps qs : List Ptr) → Apart ps → Apart qs → Disjoint ps qs → Apart (ps ++ qs)
Apart-append [] qs hp hq d = hq
Apart-append (p ∷ ps) qs hp hq d = (NotIn-append p ps qs hp.0 d.0, Apart-append ps qs hp.1 hq d.1)

pub Disjoint-cons :
    (ps : List Ptr) (q : Ptr) (qs : List Ptr) → NotIn q ps → Disjoint ps qs → Disjoint ps (q ∷ qs)
Disjoint-cons [] q qs hq d = tt
Disjoint-cons (p ∷ ps) q qs hq d = ((λ e. hq.0 (sym e), d.0), Disjoint-cons ps q qs hq.1 d.1)

pub Disjoint-nil : (ps : List Ptr) → Disjoint ps []
Disjoint-nil [] = tt
Disjoint-nil (p ∷ ps) = (tt, Disjoint-nil ps)

pub Disjoint-sym : (ps qs : List Ptr) → Disjoint ps qs → Disjoint qs ps
Disjoint-sym [] qs d = Disjoint-nil qs
Disjoint-sym (p ∷ ps) qs d = Disjoint-cons qs p ps d.0 (Disjoint-sym ps qs d.1)

pub Disjoint-append :
    (ps qs rs : List Ptr) → Disjoint ps qs → Disjoint ps rs → Disjoint ps (qs ++ rs)
Disjoint-append [] qs rs hq hr = tt
Disjoint-append (p ∷ ps) qs rs hq hr =
    (NotIn-append p qs rs hq.0 hr.0, Disjoint-append ps qs rs hq.1 hr.1)

pub append-Disjoint :
    (ps qs rs : List Ptr) → Disjoint ps rs → Disjoint qs rs → Disjoint (ps ++ qs) rs
append-Disjoint [] qs rs hp hq = hq
append-Disjoint (p ∷ ps) qs rs hp hq = (hp.0, append-Disjoint ps qs rs hp.1 hq)
