-- ===== src/Linklist/Dequeue.antt =====
-- `singlelinklist_pop_node` on a whole queue.
use uart.Base.{
  suc, ◌≤◌, ◌<◌, ◌≡◌, refl, ◌∙◌, inl, inr, Bool-cases, false, none, List, [], ◌∷◌, arith, length,
  ◌==◌,
}
use uart.Heap.{Ptr, null, Head, node, head, Heap, Holds, ok, fault}
use uart.Heap.Facts.{load_head-ok, load_node-ok, not_null, apart}
use uart.Heap.Ends.{Ends, seq, weaken}
use uart.Heap.Places.{
  Same, Disjoint, Holds-same, SameOutside, Same-of_outside, Disjoint-cons, Disjoint-nil,
}
use uart.Linklist.{pop_first, singlelinklist_pop_node}
use uart.Linklist.Shape.{Cell, foot, Links, IsQueue, IsLoose, Owns-same, Links-Same, Links-first}
use uart.Linklist.Destroy.{destroy-frees}
use uart.Linklist.Pop.{
  IsDest, filled, next_head, next_sentinel, Unlinked, Copied, copy_out-Copied, copy_out-overflow,
  unlink-Unlinked,
}

-- What the call leaves.
pub record Popped (h g : Heap) (hp s t : Ptr) (c : Cell) (cs : List Cell) (d : Cell) : Type 0 where
  pub queue : IsQueue g hp s (next_head s t cs).linklist_tail cs
  pub dest : IsDest g (filled d c)
  pub freed : (g c.node ≡ none) × (g c.inf ≡ none) × (g c.buf ≡ none)
  pub same : SameOutside (d.buf ∷ d.inf ∷ s ∷ hp ∷ c.node ∷ c.inf ∷ c.buf ∷ []) h g

-- The links behind the first cell `c`, from the sentinel on.
relink :
    (h g : Heap) (s t : Ptr) (c : Cell) (cs : List Cell)
    → Links h c.node c.inf t cs
    → Holds g s (node (next_sentinel s cs))
    → Same h g (foot cs)
    → Links g s null (next_head s t cs).linklist_tail cs
relink h g s t c [] l e same = (e, refl)
relink h g s t c (x ∷ xs) l e same = (
  e,
  Owns-same l.1 same.1.0 same.1.1.0,
  Links-Same h g x.node x.inf t xs l.2 (same.0, same.1.1.1),
)

next_head-counts :
    (s t : Ptr) (cs : List Cell)
    → next_head s t cs ≡ record {
      linklist_head = s;
      linklist_tail = (next_head s t cs).linklist_tail;
      linknode_count = length cs;
    }
next_head-counts s t [] = refl
next_head-counts s t (x ∷ xs) = refl

old : (s t : Ptr) → List Cell → Head
old s t cs = record { linklist_head = s; linklist_tail = t; linknode_count = suc (length cs) }

pop_runs :
    (h : Heap) (hp s t : Ptr) (c : Cell) (cs : List Cell) (d : Cell)
    → IsQueue h hp s t (c ∷ cs)
    → IsDest h d
    → singlelinklist_pop_node hp d.node h ≡ pop_first hp (old s t cs) d.inf h
unfolding singlelinklist_pop_node old
pop_runs h hp s t c cs d q dest =
    let some_left : (suc (length cs) == 0) ≡ false = ground arith in
    rw (
      not_null dest.node_ne,
      not_null q.head_ne,
      load_head-ok q.at_head,
      some_left,
      load_node-ok dest.at_node,
      not_null dest.inf_ne,
    )

module _ (h : Heap) (hp s t : Ptr) (c : Cell) (cs : List Cell) (q : IsQueue h hp s t (c ∷ cs))
    (d : Cell) (dest : IsDest h d) (out : Disjoint (foot (d ∷ [])) (hp ∷ s ∷ foot (c ∷ cs))) where
  module _ (g : Heap) (copied : Copied h g c d) where
    after_copy_head : Holds g hp (head (old s t cs))
    unfolding old
    after_copy_head = Holds-same q.at_head (copied.same hp (omega arith))

    after_copy_sentinel : Holds g s (node (record { next = c.node; inf = null }))
    after_copy_sentinel = Holds-same q.links.0 (copied.same s (omega arith))

    after_copy-Links : Links g c.node c.inf t cs
    after_copy-Links = Links-Same h g c.node c.inf t cs q.links.2 (
        Same-of_outside (c.node ∷ foot cs) (d.buf ∷ d.inf ∷ []) copied.same (
          Disjoint-cons (c.node ∷ foot cs) d.buf _ (out.1.1.0.1.1.0, out.1.1.0.1.1.1.1.1)
            (Disjoint-cons (c.node ∷ foot cs) d.inf _ (out.1.0.1.1.0, out.1.0.1.1.1.1.1)
              (Disjoint-nil (c.node ∷ foot cs)))))

    module _ (y : Ptr) (at_c : Holds g c.node (node (record { next = y; inf = c.inf }))) (g2 : Heap)
        (unlinked : Unlinked g g2 hp s t cs) where
      unchanged : SameOutside (d.buf ∷ d.inf ∷ s ∷ hp ∷ []) h g2
      unchanged a o = unlinked.same a (o.1.1.0, (o.1.1.1.0, tt)) ∙ copied.same a (o.0, (o.1.0, tt))

      unlinked-IsLoose : IsLoose g2 c
      unlinked-IsLoose = record {
        next = y;
        at_node = Holds-same at_c (unlinked.same c.node (omega (arith, q.nodup)));
        owns =
            Owns-same q.links.1 (unchanged c.inf (omega (arith, q.nodup)))
              (unchanged c.buf (omega (arith, q.nodup)));
      }

      module _ (g3 : Heap)
          (freed : (g3 c.node ≡ none)
            × (g3 c.inf ≡ none)
            × (g3 c.buf ≡ none)
            × SameOutside (c.node ∷ c.inf ∷ c.buf ∷ []) g2 g3) where
        untouched : SameOutside (d.buf ∷ d.inf ∷ s ∷ hp ∷ c.node ∷ c.inf ∷ c.buf ∷ []) h g3
        untouched a o = freed.3 a o.1.1.1.1 ∙ unchanged a (o.0, (o.1.0, (o.1.1.0, (o.1.1.1.0, tt))))

        rest-Same : Same h g3 (foot cs)
        rest-Same =
            let f = foot cs in
            let n = q.nodup in
            Same-of_outside f _ untouched (
              Disjoint-cons f d.buf _ out.1.1.0.1.1.1.1.1 (
                Disjoint-cons f d.inf _ out.1.0.1.1.1.1.1 (
                  Disjoint-cons f s _ n.1.0.1.1.1 (
                    Disjoint-cons f hp _ n.0.1.1.1.1 (
                      Disjoint-cons f c.node _ n.1.1.0.1.1 (
                        Disjoint-cons f c.inf _ n.1.1.1.0.1
                          (Disjoint-cons f c.buf _ n.1.1.1.1.0 (Disjoint-nil f))))))))

        final : Popped h g3 hp s t c cs d
        final = record {
          queue = record {
            at_head =
                rw (← next_head-counts s t cs)
                  (Holds-same unlinked.at_head (freed.3 hp (omega (arith, q.nodup))));
            links =
                relink h g3 s t c cs q.links.2
                  (Holds-same unlinked.at_sentinel (freed.3 s (omega (arith, q.nodup)))) rest-Same;
            nodup = ((q.nodup.0.0, q.nodup.0.1.1.1.1), (q.nodup.1.0.1.1.1, q.nodup.1.1.1.1.1));
            head_ne = q.head_ne;
            sentinel_ne = q.sentinel_ne;
          };
          dest = record {
            next = dest.next;
            at_node = Holds-same dest.at_node (
                untouched d.node (
                  apart dest.at_node dest.at_buf (λ e. cc),
                  (apart dest.at_node dest.at_inf (λ e. cc), omega arith),
                ));
            at_inf =
                Holds-same copied.at_inf
                  (freed.3 d.inf (omega arith) ∙ unlinked.same d.inf (omega arith));
            at_buf =
                Holds-same copied.at_buf
                  (freed.3 d.buf (omega arith) ∙ unlinked.same d.buf (omega arith));
            node_ne = dest.node_ne;
            inf_ne = dest.inf_ne;
          };
          freed = (freed.0, freed.1, freed.2);
          same = untouched;
        }

  copied_then_unlinked :
      c.data_len ≤ length d.bytes
      → Ends (λ _ g. Popped h g hp s t c cs d) (pop_first hp (old s t cs) d.inf h)
  unfolding pop_first old
  copied_then_unlinked room = rw (load_node-ok q.links.0) (
      seq
        (copy_out-Copied h c d (Links-first h c t cs q.links.2).0 (Links-first h c t cs q.links.2).1
          q.links.1 dest (omega arith) room)
        λ _ g copied.
          let (y, at_c, run) =
            unlink-Unlinked g hp s t c cs (after_copy_head g copied) (after_copy_sentinel g copied)
              (after_copy-Links g copied) in
          rw (load_node-ok at_c) (
            seq run λ _ g2 unlinked.
              weaken (destroy-frees g2 c (unlinked-IsLoose g copied y at_c g2 unlinked))
                λ _ g3 freed. final g copied y at_c g2 unlinked g3 freed))

-- Popping a message that fits the buffer of `datanode`, a node outside the queue, removes the
-- oldest message, puts its bytes at the front of that buffer and its length, `recv_fd` and
-- `send_to` in `datanode->data`, frees the message's node with what it owns, and writes nowhere
-- else.
pub pop-Popped :
    (h : Heap) (hp s t : Ptr) (c : Cell) (cs : List Cell) (d : Cell)
    → IsQueue h hp s t (c ∷ cs)
    → IsDest h d
    → Disjoint (foot (d ∷ [])) (hp ∷ s ∷ foot (c ∷ cs))
    → c.data_len ≤ length d.bytes
    → Ends (λ _ g. Popped h g hp s t c cs d) (singlelinklist_pop_node hp d.node h)
pop-Popped h hp s t c cs d q dest out room =
    rw (pop_runs h hp s t c cs d q dest) (copied_then_unlinked h hp s t c cs q d dest out room)

overflows :
    (h : Heap) (hp s t : Ptr) (c : Cell) (cs : List Cell) (d : Cell)
    → IsQueue h hp s t (c ∷ cs)
    → IsDest h d
    → length d.bytes < c.data_len
    → (y : Ptr) → Holds h c.node (node (record { next = y; inf = c.inf }))
    → pop_first hp (old s t cs) d.inf h ≡ fault
unfolding pop_first old
overflows h hp s t c cs d q dest over y at_c =
    rw (load_node-ok q.links.0, copy_out-overflow h c d y at_c q.links.1 dest over)

-- Popping a message that is longer than the buffer of `datanode` writes past the end of that
-- buffer.
pub pop-overflow :
    (h : Heap) (hp s t : Ptr) (c : Cell) (cs : List Cell) (d : Cell)
    → IsQueue h hp s t (c ∷ cs)
    → IsDest h d
    → length d.bytes < c.data_len
    → singlelinklist_pop_node hp d.node h ≡ fault
pop-overflow h hp s t c cs d q dest over =
    let (y, at_c) = Links-first h c t cs q.links.2 in
    pop_runs h hp s t c cs d q dest ∙ overflows h hp s t c cs d q dest over y at_c

-- Popping from an empty queue changes nothing, neither the queue nor the message that `datanode`
-- held before.
pub pop-empty :
    (h : Heap) (hp s t d : Ptr) → IsQueue h hp s t [] → singlelinklist_pop_node hp d h ≡ ok tt h
unfolding singlelinklist_pop_node
pop-empty h hp s t d q = elim (Bool-cases (d == null)) [
  | inl is_null ↦ rw is_null
  | inr ne ↦ rw (ne, not_null q.head_ne, load_head-ok q.at_head)
]
