-- ===== src/Linklist/Insert.antt =====
-- `singlelinklist_insert_node` puts a message at the end of the queue.
use mathlib.Core.Path.{subst}
use uart.Base.{◌+◌, ◌≡◌, ◌≢◌, refl, sym, ◌∙◌, some, List, [], ◌∷◌, ◌++◌, length, length-append}
use uart.Heap.{Ptr, null, Head, Object, node, head, Heap, Holds, write, ok}
use uart.Heap.Facts.{
  apart, keep, Holds-self, load_head-ok, load_node-ok, store_head-ok, store_node-ok, write-other,
  not_null,
}
use uart.Heap.Ends.{Ends, ends}
use uart.Heap.Places.{
  NotIn, Apart, Disjoint, Holds-same, SameOutside, Apart-append, Disjoint-cons, Disjoint-nil,
}
use uart.Linklist.{singlelinklist_insert_node}
use uart.Linklist.Shape.{
  IsLoose, Cell, foot, foot-append, Owns, Links, IsQueue, Owns-same, Links-last,
}

-- The last node is none that stands before the first.
pub last-ne :
    (h : Heap) (a p i t : Ptr) (cs : List Cell) → Links h p i t cs → NotIn a (p ∷ foot cs) → a ≢ t
last-ne h a p i t [] l out e = out.0 (e ∙ l.1)
last-ne h a p i t (c ∷ cs) l out e = last-ne h a c.node c.inf t cs l.2 (out.1.0, out.1.1.1.1) e

-- Where the last node is linked on to a node that links to itself, there is one cell more.
Links-snoc :
    (h g : Heap) (p i t : Ptr) (cs : List Cell) (c : Cell)
    → Links h p i t cs
    → ((j : Ptr)
        → Holds h t (node (record { next = t; inf = j }))
        → Holds g t (node (record { next = c.node; inf = j })))
    → ((a : Ptr) (o : Object)
        → Holds h a o
        → ((d : Head) → o ≢ head d)
        → a ≢ t
        → a ≢ c.node
        → g a ≡ h a)
    → NotIn c.node (p ∷ foot cs)
    → Apart (p ∷ foot cs)
    → Holds g c.node (node (record { next = c.node; inf = c.inf }))
    → Owns g c
    → Links g p i c.node (cs ++ c ∷ [])
Links-snoc h g p i t [] c l relink same new nodup last owns =
    let here : Holds g t (node (record { next = c.node; inf = i })) =
      relink i (subst (λ q. Holds h q (node (record { next = q; inf = i }))) (sym l.1) l.0) in
    (subst (λ q. Holds g q (node (record { next = c.node; inf = i }))) l.1 here, owns, (last, refl))
Links-snoc h g p i t (d ∷ cs) c l relink same new nodup last owns =
    let (j, at_last) = Links-last h d.node d.inf t cs l.2 in
    (
      Holds-same l.0 (
          same p _ l.0 (λ _ e. cc) (last-ne h p d.node d.inf t cs l.2 (nodup.0.0, nodup.0.1.1.1))
            (λ e. new.0 (sym e))),
      Owns-same l.1
          (same d.inf _ l.1.at_inf (λ _ e. cc) (apart l.1.at_inf at_last (λ e. cc))
            (λ e. new.1.1.0 (sym e)))
          (same d.buf _ l.1.at_buf (λ _ e. cc) (apart l.1.at_buf at_last (λ e. cc))
            (λ e. new.1.1.1.0 (sym e))),
      Links-snoc h g d.node d.inf t cs c l.2 relink same (new.1.0, new.1.1.1.1)
          (nodup.1.0.1.1, nodup.1.1.1.1) last owns,
    )

module _ (h : Heap) (hp s t : Ptr) (cs : List Cell) (c : Cell) (q : IsQueue h hp s t cs)
    (loose : IsLoose h c) (out : NotIn c.node (s ∷ foot cs)) where
  -- The writes of the call, in their order; `j` is the old last node's `data`.
  inserted : Ptr → Heap
  inserted j =
      let h1 = write h t (some (node (record { next = c.node; inf = j }))) in
      let h2 = write h1 hp (
        some (
          head
            (record { linklist_head = s; linklist_tail = c.node; linknode_count = length cs }))) in
      let h3 = write h2 c.node (some (node (record { next = c.node; inf = c.inf }))) in
      write h3 hp (
        some (
          head
            (record { linklist_head = s; linklist_tail = c.node; linknode_count = length cs + 1 })))

  insert_runs :
      (j : Ptr)
      → Holds h t (node (record { next = t; inf = j }))
      → singlelinklist_insert_node hp c.node h ≡ ok tt (inserted j)
  unfolding singlelinklist_insert_node inserted
  insert_runs j at_last =
      let h1 = write h t (some (node (record { next = c.node; inf = j }))) in
      let hd1 =
        keep t (some (node (record { next = c.node; inf = j }))) q.at_head
          (apart q.at_head at_last (λ e. cc)) in
      let c_ne_t : c.node ≢ t = last-ne h c.node s null t cs q.links out in
      let c_ne_hp : c.node ≢ hp = apart loose.at_node q.at_head (λ e. cc) in
      let mid : Head = record {
        linklist_head = s;
        linklist_tail = c.node;
        linknode_count = length cs;
      } in
      let c2 =
        keep hp (some (head mid))
          (keep t (some (node (record { next = c.node; inf = j }))) loose.at_node c_ne_t) c_ne_hp in
      let hd3 =
        keep c.node (some (node (record { next = c.node; inf = c.inf })))
          (Holds-self h1 hp (head mid)) (λ e. c_ne_hp (sym e)) in
      rw (
        not_null loose.owns.node_ne,
        not_null q.head_ne,
        load_head-ok q.at_head,
        load_node-ok at_last,
        store_node-ok (record { next = c.node; inf = j }) at_last,
        store_head-ok mid hd1,
        load_node-ok c2,
        store_node-ok (record { next = c.node; inf = c.inf }) c2,
        store_head-ok (record mid { linknode_count = length cs + 1 }) hd3,
      )

  inserted-other : (j a : Ptr) → a ≢ t → a ≢ hp → a ≢ c.node → inserted j a ≡ h a
  unfolding inserted
  inserted-other j a nt nh nc =
      write-other _ hp _ a nh
      ∙ write-other _ c.node _ a nc
      ∙ write-other _ hp _ a nh
      ∙ write-other _ t _ a nt

  module _ (j : Ptr) (at_last : Holds h t (node (record { next = t; inf = j }))) where
    inserted-last : Holds (inserted j) t (node (record { next = c.node; inf = j }))
    unfolding inserted
    inserted-last =
        let t_ne_hp : t ≢ hp = apart at_last q.at_head (λ e. cc) in
        let t_ne_c : t ≢ c.node = λ e. last-ne h c.node s null t cs q.links out (sym e) in
        keep hp _ (keep c.node _ (keep hp _ (Holds-self h t _) t_ne_hp) t_ne_c) t_ne_hp

    inserted-head : Holds (inserted j) hp (
        head (record { linklist_head = s; linklist_tail = c.node; linknode_count = length cs + 1 }))
    unfolding inserted
    inserted-head = Holds-self _ hp _

    inserted-new : Holds (inserted j) c.node (node (record { next = c.node; inf = c.inf }))
    unfolding inserted
    inserted-new = keep hp _ (Holds-self _ c.node _) (apart loose.at_node q.at_head (λ e. cc))

    inserted-Owns : Owns (inserted j) c
    inserted-Owns =
        let o = loose.owns in
        Owns-same o
          (inserted-other j c.inf (apart o.at_inf at_last (λ e. cc))
            (apart o.at_inf q.at_head (λ e. cc)) (apart o.at_inf loose.at_node (λ e. cc)))
          (inserted-other j c.buf (apart o.at_buf at_last (λ e. cc))
            (apart o.at_buf q.at_head (λ e. cc)) (apart o.at_buf loose.at_node (λ e. cc)))

-- Putting the loose cell `c`, whose addresses are not those of the queue, at the end makes a queue
-- of one message more, in the same order. Nothing is written but the queue's head, its last node
-- and the new node.
pub insert-appends :
    (h : Heap) (hp s t : Ptr) (cs : List Cell) (c : Cell)
    → IsQueue h hp s t cs
    → IsLoose h c
    → Disjoint (foot (c ∷ [])) (hp ∷ s ∷ foot cs)
    → Ends
        (λ _ g. IsQueue g hp s c.node (cs ++ c ∷ []) × SameOutside (t ∷ hp ∷ c.node ∷ []) h g)
        (singlelinklist_insert_node hp c.node h)
insert-appends h hp s t cs c q loose out =
    let (j, at_last) = Links-last h s null t cs q.links in
    let o = loose.owns in
    let g = inserted h hp s t cs c q loose out.0.1 j in
    let relinked = inserted-last h hp s t cs c q loose out.0.1 j at_last in
    rw (insert_runs h hp s t cs c q loose out.0.1 j at_last) (
      ends (
        record {
          at_head =
              subst
                (λ n.
                  Holds g hp (
                    head
                      (record { linklist_head = s; linklist_tail = c.node; linknode_count = n })))
                (sym (length-append cs (c ∷ [])))
                (inserted-head h hp s t cs c q loose out.0.1 j at_last);
          links =
              Links-snoc h g s null t cs c q.links
                (λ k e.
                  let same : some (node (record { next = t; inf = j }))
                      ≡ some (node (record { next = t; inf = k })) =
                    sym at_last.at ∙ e.at in
                  subst (λ i. Holds g t (node (record { next = c.node; inf = i }))) (cc) relinked)
                (λ a o' e ne nt nc.
                  inserted-other h hp s t cs c q loose out.0.1 j a nt (apart e q.at_head (ne _)) nc)
                out.0.1 q.nodup.1 (inserted-new h hp s t cs c q loose out.0.1 j at_last)
                (inserted-Owns h hp s t cs c q loose out.0.1 j at_last);
          nodup = rw foot-append (
              Apart-append (hp ∷ s ∷ foot cs) (foot (c ∷ [])) q.nodup
                (
                  (
                    apart loose.at_node o.at_inf (λ e. cc),
                    (apart loose.at_node o.at_buf (λ e. cc), tt),
                  ),
                  ((apart o.at_inf o.at_buf (λ e. cc), tt), (tt, tt)),
                )
                (Disjoint-cons (hp ∷ s ∷ foot cs) c.node _ out.0 (
                  Disjoint-cons (hp ∷ s ∷ foot cs) c.inf _ out.1.0 (
                    Disjoint-cons (hp ∷ s ∷ foot cs) c.buf _ out.1.1.0
                      (Disjoint-nil (hp ∷ s ∷ foot cs))))));
          head_ne = q.head_ne;
          sentinel_ne = q.sentinel_ne;
        },
        λ a n. inserted-other h hp s t cs c q loose out.0.1 j a n.0 n.1.0 n.1.1.0,
      ))
