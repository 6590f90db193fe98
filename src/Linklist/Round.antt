-- ===== src/Linklist/Round.antt =====
-- A round of the loop of `destory_singlelinklist`: one that leaves messages, and the last one.
use uart.Base.{
  ℕ, suc, ◌-◌, ◌≡◌, ◌≢◌, sym, ◌∙◌, false, none, some, List, [], ◌∷◌, arith, length, ◌==◌,
  if◌then◌else◌,
}
use uart.Heap.{Ptr, null, Node, Head, node, head, Heap, Holds, write, ok, Cmd, pure, ◌>>◌}
use uart.Heap.Facts.{
  apart, keep, Holds-self, load_node-ok, load_inf-ok, load_buf-ok, store_node-ok, store_head-ok,
  free-ok, write_self, write-other, not_null,
}
use uart.Heap.Ends.{Ends, ends, seq, weaken}
use uart.Heap.Freed.{Freed}
use uart.Heap.Places.{Same, SameOutside, Same-of_outside, Disjoint-cons, Disjoint-nil, Holds-same}
use uart.Linklist.{reset, singlelinklist_destory_node, destory_first}
use uart.Linklist.Shape.{Cell, foot, IsQueue, IsLoose, Owns-same, Links-Same, Links-first}
use uart.Linklist.Destroy.{destroy-frees}

abbrev pub counting : (s t : Ptr) → ℕ → Head
counting s t n = record { linklist_head = s; linklist_tail = t; linknode_count = n }

module _ (h : Heap) (hp s t : Ptr) (c : Cell) (cs : List Cell) (q : IsQueue h hp s t (c ∷ cs))
    (y : Ptr) (at_c : Holds h c.node (node (record { next = y; inf = c.inf }))) where
  abbrev unlinked : Heap
  unlinked =
      write (write h s (some (node (record { next = y; inf = null })))) hp
        (some (head (counting s t (length cs))))

  unlinked-other : (a : Ptr) → a ≢ s → a ≢ hp → unlinked a ≡ h a
  unlinked-other a ns nh = write-other _ hp _ a nh ∙ write-other h s _ a ns

  unlinked-IsLoose : IsLoose unlinked c
  unlinked-IsLoose = record {
    next = y;
    at_node =
        Holds-same at_c (unlinked-other c.node (omega (arith, q.nodup)) (omega (arith, q.nodup)));
    owns =
        Owns-same q.links.1 (unlinked-other c.inf (omega (arith, q.nodup)) (omega (arith, q.nodup)))
          (unlinked-other c.buf (omega (arith, q.nodup)) (omega (arith, q.nodup)));
  }

  -- The round up to the test of the count.
  unlinked_then-Freed :
      Ends
        (λ _ g.
          Freed g (foot (c ∷ []))
          × Holds g hp (head (counting s t (length cs)))
          × Holds g s (node (record { next = y; inf = null }))
          × SameOutside (s ∷ hp ∷ foot (c ∷ [])) h g)
        (singlelinklist_destory_node c.node unlinked)
  unlinked_then-Freed =
      let ne : hp ≢ s = apart q.at_head q.links.0 (λ e. cc) in
      weaken (destroy-frees unlinked c unlinked-IsLoose) λ _ g freed. (
        (freed.0, (freed.1, (freed.2, tt))),
        Holds-same (Holds-self _ hp _) (freed.3 hp (omega (arith, q.nodup))),
        Holds-same (keep hp _ (Holds-self h s _) (λ e. ne (sym e)))
            (freed.3 s (omega (arith, q.nodup))),
        λ a n. freed.3 a n.1.1 ∙ unlinked-other a n.0 n.1.0,
      )

  abbrev after_round : Cmd (Unit {0})
  after_round =
      if length cs == 0
      then reset hp (counting s t (suc (length cs))) (record { next = c.node; inf = null })
        >> singlelinklist_destory_node s
      else pure tt

  round_runs :
      destory_first hp (counting s t (suc (length cs))) h
      ≡ (singlelinklist_destory_node c.node >> after_round) unlinked
  unfolding destory_first
  round_runs =
      let ne : hp ≢ s = apart q.at_head q.links.0 (λ e. cc) in
      let count : suc (length cs) - 1 ≡ length cs = omega arith in
      rw (
        load_node-ok q.links.0,
        load_node-ok at_c,
        load_inf-ok q.links.1.at_inf,
        load_buf-ok q.links.1.at_buf,
        store_node-ok (record { next = y; inf = null }) q.links.0,
        count,
        store_head-ok (counting s t (length cs))
            (keep s (some (node (record { next = y; inf = null }))) q.at_head ne),
      )

-- A round that leaves messages leaves them as the queue.
pub round-IsQueue :
    (h : Heap) (hp s t : Ptr) (c e : Cell) (es : List Cell)
    → IsQueue h hp s t (c ∷ e ∷ es)
    → Ends
        (λ _ g.
          IsQueue g hp s t (e ∷ es)
          × Freed g (foot (c ∷ []))
          × SameOutside (s ∷ hp ∷ foot (c ∷ [])) h g)
        (destory_first hp (counting s t (suc (suc (length es)))) h)
round-IsQueue h hp s t c e es q =
    let some_left : (suc (length es) == 0) ≡ false = ground arith in
    rw (round_runs h hp s t c (e ∷ es) q e.node q.links.2.0, some_left)
      (seq (unlinked_then-Freed h hp s t c (e ∷ es) q e.node q.links.2.0) λ _ g freed.
        let f = foot (e ∷ es) in
        let n = q.nodup in
        let rest : Same h g f = Same-of_outside f _ freed.3 (
          Disjoint-cons f s _ n.1.0.1.1.1 (
            Disjoint-cons f hp _ n.0.1.1.1.1 (
              Disjoint-cons f c.node _ n.1.1.0.1.1 (
                Disjoint-cons f c.inf _ n.1.1.1.0.1
                  (Disjoint-cons f c.buf _ n.1.1.1.1.0 (Disjoint-nil f)))))) in
        ends (
          record {
            at_head = freed.1;
            links = (
              freed.2,
              Owns-same q.links.2.1 rest.1.0 rest.1.1.0,
              Links-Same h g e.node e.inf t es q.links.2.2 (rest.0, rest.1.1.1),
            );
            nodup = ((n.0.0, n.0.1.1.1.1), (n.1.0.1.1.1, n.1.1.1.1.1));
            head_ne = q.head_ne;
            sentinel_ne = q.sentinel_ne;
          },
          freed.0,
          freed.3,
        ))

-- The sentinel owns nothing.
destroy_sentinel :
    (h : Heap) (s n : Ptr)
    → s ≢ null
    → Holds h s (node (record { next = n; inf = null }))
    → singlelinklist_destory_node s h ≡ ok tt (write h s none)
unfolding singlelinklist_destory_node
destroy_sentinel h s n ne at_s = rw (not_null ne, load_node-ok at_s, free-ok at_s)

-- The last round frees the last message and the sentinel.
pub round_last :
    (h : Heap) (hp s t : Ptr) (c : Cell)
    → IsQueue h hp s t (c ∷ [])
    → Ends
        (λ _ g.
          Holds g hp (head (counting s s 0))
          × Freed g (s ∷ foot (c ∷ []))
          × SameOutside (s ∷ hp ∷ foot (c ∷ [])) h g)
        (destory_first hp (counting s t 1) h)
unfolding reset
round_last h hp s t c q =
    let y = (Links-first h c t [] q.links.2).0 in
    let at_c = (Links-first h c t [] q.links.2).1 in
    rw (round_runs h hp s t c [] q y at_c) (
      seq (unlinked_then-Freed h hp s t c [] q y at_c) λ _ g freed.
        let ne : s ≢ hp = apart freed.2 freed.1 (λ e. cc) in
        let n = q.nodup in
        let empty_s : Node = record { next = s; inf = null } in
        let g1 = write g hp (some (head (counting s s 0))) in
        let g2 = write g1 s (some (node empty_s)) in
        let other : (a : Ptr) → a ≢ s → a ≢ hp → write g2 s none a ≡ g a = λ a ns nh.
          write-other g2 s none a ns ∙ write-other g1 s _ a ns ∙ write-other g hp _ a nh in
        rw
          (
            store_head-ok (counting s s 0) freed.1,
            store_node-ok empty_s (keep hp (some (head (counting s s 0))) freed.2 ne),
            destroy_sentinel g2 s s q.sentinel_ne (Holds-self g1 s (node empty_s)),
          )
          (ends (
            keep s none (keep s _ (Holds-self g hp _) (λ e. ne (sym e))) (λ e. ne (sym e)),
            (
              write_self g2 s none,
              (
                other c.node (omega (arith, n)) (omega (arith, n)) ∙ freed.0.0,
                (
                  other c.inf (omega (arith, n)) (omega (arith, n)) ∙ freed.0.1.0,
                  (other c.buf (omega (arith, n)) (omega (arith, n)) ∙ freed.0.1.1.0, tt),
                ),
              ),
            ),
            λ a o. other a o.0 o.1.0 ∙ freed.3 a o,
          )))
