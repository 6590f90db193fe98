-- ===== src/ThreadPool/Memory/Held.antt =====
-- The jobs in memory that workers hold.
use uart.Base.{suc, ap₂, ◌≡◌, ◌≢◌, refl, sym, ap, ◌∙◌, some, none, List, [], ◌∷◌, ◌++◌, length}
use uart.Heap.{Ptr, job, Heap, Holds}
use uart.Heap.Freed.{Taken}
use uart.Heap.Places.{NotIn, Apart, Same, Disjoint, Disjoint-nil, Disjoint-cons, Holds-same}
use uart.ThreadPool.Memory.Shape.{Cell, places, job_of}
use uart.ThreadPool.Memory.Sections.{Section, adds, takes, destroys, checks, touched, IsFree}
use uart.ThreadPool.Memory.Run.{works}

-- The jobs that workers hold.
abbrev pub Loose : Heap → List Cell → Type 0
Loose h [] = Unit {0}
Loose h (c ∷ cs) = ((next : Ptr) × Holds h c.at (job (job_of c.work next))) × Loose h cs

pub Loose-Taken : (h : Heap) (cs : List Cell) → Loose h cs → Taken h (places cs)
Loose-Taken h [] l = tt
Loose-Taken h (c ∷ cs) l = ((_, l.0.1), Loose-Taken h cs l.1)

pub Loose-Same : (h g : Heap) (cs : List Cell) → Loose h cs → Same h g (places cs) → Loose g cs
Loose-Same h g [] l same = tt
Loose-Same h g (c ∷ cs) l same = ((l.0.0, Holds-same l.0.1 same.0), Loose-Same h g cs l.1 same.1)

pub Loose-append : (h : Heap) (cs ds : List Cell) → Loose h cs → Loose h ds → Loose h (cs ++ ds)
Loose-append h [] ds lc ld = ld
Loose-append h (c ∷ cs) ds lc ld = (lc.0, Loose-append h cs ds lc.1 ld)

-- The addresses of held jobs are not those that a section writes.
pub away-touched :
    (h : Heap) (s : Section) (pp q : Ptr) (cs : List Cell) (ps : List Ptr)
    → IsFree h s
    → Taken h ps
    → Disjoint ps (pp ∷ q ∷ places cs)
    → Disjoint ps (touched s pp cs)
away-touched h s pp q cs [] free t d = tt
away-touched h (adds fresh w) pp q cs (p ∷ ps) free t d =
    let ne : p ≢ fresh =
      λ e. let at : none ≡ some t.0.0 = sym free ∙ ap h (sym e) ∙ t.0.1.at in cc in
    ((d.0.0, (ne, d.0.1.1)), away-touched h (adds fresh w) pp q cs ps free t.1 d.1)
away-touched h takes pp q cs (p ∷ ps) free t d =
    ((d.0.0, tt), away-touched h takes pp q cs ps free t.1 d.1)
away-touched h destroys pp q cs (p ∷ ps) free t d =
    ((d.0.0, tt), away-touched h destroys pp q cs ps free t.1 d.1)
away-touched h checks pp q cs (p ∷ ps) free t d =
    ((d.0.0, tt), away-touched h checks pp q cs ps free t.1 d.1)

pub away-within :
    (pp q : Ptr) (out : List Ptr) (cs ds : List Cell) (ps : List Ptr)
    → ((a : Ptr) → NotIn a out → NotIn a (places cs) → NotIn a (places ds))
    → Disjoint ps out
    → Disjoint ps (pp ∷ q ∷ places cs)
    → Disjoint ps (pp ∷ q ∷ places ds)
away-within pp q out cs ds [] within o d = tt
away-within pp q out cs ds (p ∷ ps) within o d =
    ((d.0.0, (d.0.1.0, within p o.0 d.0.1.1)), away-within pp q out cs ds ps within o.1 d.1)

-- An address that is not where the jobs `cs` were.
pub away-new :
    (cs : List Cell) (at : Ptr) (ps : List Ptr) (pp q : Ptr)
    → ((a : Ptr) → NotIn a (places cs) → a ≢ at)
    → Disjoint ps (pp ∷ q ∷ places cs)
    → Disjoint ps (at ∷ [])
away-new cs at [] pp q old d = tt
away-new cs at (p ∷ ps) pp q old d = ((old p d.0.1.1, tt), away-new cs at ps pp q old d.1)

pub length-works : (cs : List Cell) → length (works cs) ≡ length cs
length-works [] = refl
length-works (c ∷ cs) = ap suc (length-works cs)

-- Where an address stands among those of the held jobs.
pub splits :
    (cs : List Cell) (before : List Ptr) (at : Ptr) (after : List Ptr)
    → places cs ≡ before ++ at ∷ after
    → (bs : List Cell) × (c : Cell) × (ds : List Cell) × (cs ≡ bs ++ c ∷ ds)
      × (places bs ≡ before)
      × (c.at ≡ at)
      × (places ds ≡ after)
splits [] [] at after e = absurd (cc)
splits [] (b ∷ before) at after e = absurd (cc)
splits (c ∷ cs) [] at after e = ([], c, cs, refl, refl, cc, cc)
splits (c ∷ cs) (b ∷ before) at after e =
    let rest : places cs ≡ before ++ at ∷ after = cc in
    let first : c.at ≡ b = cc in
    let (bs, d, ds, all, e1, e2, e3) = splits cs before at after rest in
    (c ∷ bs, d, ds, ap (λ l. c ∷ l) all, ap₂ (λ p ps. p ∷ ps) first e1, e2, e3)

pub NotIn-middle :
    (a : Ptr) (ps : List Ptr) (p : Ptr) (qs : List Ptr)
    → NotIn a (ps ++ p ∷ qs)
    → NotIn a (ps ++ qs)
NotIn-middle a [] p qs out = out.1
NotIn-middle a (b ∷ ps) p qs out = (out.0, NotIn-middle a ps p qs out.1)

pub NotIn-at : (a : Ptr) (ps : List Ptr) (p : Ptr) (qs : List Ptr) → NotIn a (ps ++ p ∷ qs) → a ≢ p
NotIn-at a [] p qs out = out.0
NotIn-at a (b ∷ ps) p qs out = NotIn-at a ps p qs out.1

pub Apart-middle :
    (ps : List Ptr) (p : Ptr) (qs : List Ptr) → Apart (ps ++ p ∷ qs) → Apart (ps ++ qs)
Apart-middle [] p qs a = a.1
Apart-middle (b ∷ ps) p qs a = (NotIn-middle b ps p qs a.0, Apart-middle ps p qs a.1)

pub Apart-rest :
    (ps : List Ptr) (p : Ptr) (qs : List Ptr) → Apart (ps ++ p ∷ qs) → Disjoint (ps ++ qs) (p ∷ [])
Apart-rest [] p qs a = Disjoint-cons qs p [] a.0 (Disjoint-nil qs)
Apart-rest (b ∷ ps) p qs a = ((NotIn-at b ps p qs a.0, tt), Apart-rest ps p qs a.1)

pub Disjoint-middle :
    (ps : List Ptr) (p : Ptr) (qs rs : List Ptr)
    → Disjoint (ps ++ p ∷ qs) rs
    → Disjoint (ps ++ qs) rs
Disjoint-middle [] p qs rs d = d.1
Disjoint-middle (b ∷ ps) p qs rs d = (d.0, Disjoint-middle ps p qs rs d.1)

pub Disjoint-at :
    (ps : List Ptr) (p : Ptr) (qs rs : List Ptr) → Disjoint (ps ++ p ∷ qs) rs → NotIn p rs
Disjoint-at [] p qs rs d = d.0
Disjoint-at (b ∷ ps) p qs rs d = Disjoint-at ps p qs rs d.1

pub Loose-middle :
    (h : Heap) (bs : List Cell) (c : Cell) (ds : List Cell)
    → Loose h (bs ++ c ∷ ds)
    → Loose h (bs ++ ds)
Loose-middle h [] c ds l = l.1
Loose-middle h (b ∷ bs) c ds l = (l.0, Loose-middle h bs c ds l.1)

pub Loose-at :
    (h : Heap) (bs : List Cell) (c : Cell) (ds : List Cell)
    → Loose h (bs ++ c ∷ ds)
    → (next : Ptr) × Holds h c.at (job (job_of c.work next))
Loose-at h [] c ds l = l.0
Loose-at h (b ∷ bs) c ds l = Loose-at h bs c ds l.1
