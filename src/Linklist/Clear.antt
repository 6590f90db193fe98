-- ===== src/Linklist/Clear.antt =====
-- `destory_singlelinklist` on a list that holds messages: all rounds of its loop.
use uart.Base.{ℕ, zero, suc, ◌<◌, ◌≡◌, sym, ◌∙◌, false, none, List, [], ◌∷◌, arith, length, ◌==◌}
use uart.Heap.{Ptr, head, Heap, Holds}
use uart.Heap.Facts.{load_head-ok, free-ok, write_self, write-other, not_null}
use uart.Heap.Ends.{Ends, ends, seq, weaken}
use uart.Heap.Places.{SameOutside}
use uart.Linklist.{destory_loop, destory_singlelinklist}
use uart.Linklist.Shape.{Cell, foot, IsQueue}
use uart.Heap.Freed.{Freed, Freed-write}
use uart.Linklist.Round.{counting, round-IsQueue, round_last}

-- `destory_singlelinklist` on the messages `cs` behind `c`.
loop-Freed :
    (k : ℕ) (h : Heap) (hp s t : Ptr) (c : Cell) (cs : List Cell)
    → suc (length cs) < k
    → IsQueue h hp s t (c ∷ cs)
    → Ends
        (λ _ g.
          Holds g hp (head (counting s s 0))
          × Freed g (s ∷ foot (c ∷ cs))
          × SameOutside (s ∷ hp ∷ foot (c ∷ cs)) h g)
        (destory_loop k hp h)
unfolding destory_loop
loop-Freed zero h hp s t c cs fuel q = absurd (omega arith)
loop-Freed (suc zero) h hp s t c cs fuel q = absurd (omega arith)
loop-Freed (suc (suc k)) h hp s t c [] fuel q =
    rw (load_head-ok q.at_head)
      (seq (round_last h hp s t c q) λ _ g done. rw (load_head-ok done.0) (ends done))
loop-Freed (suc (suc k)) h hp s t c (e ∷ es) fuel q =
    let n = q.nodup in
    let some_left : (suc (suc (length es)) == 0) ≡ false = ground arith in
    rw (load_head-ok q.at_head, some_left)
      (seq (round-IsQueue h hp s t c e es q) λ _ g round.
        weaken (loop-Freed (suc k) g hp s t e es (omega arith) round.0) λ _ g' rest. (
          rest.0,
          (
            rest.1.0,
            (
              rest.2 c.node ((λ x. n.1.0.0 (sym x)), ((λ x. n.0.1.0 (sym x)), n.1.1.0.1.1))
                  ∙ round.1.0,
              (
                rest.2 c.inf ((λ x. n.1.0.1.0 (sym x)), ((λ x. n.0.1.1.0 (sym x)), n.1.1.1.0.1))
                    ∙ round.1.1.0,
                (
                  rest.2 c.buf
                        ((λ x. n.1.0.1.1.0 (sym x)), ((λ x. n.0.1.1.1.0 (sym x)), n.1.1.1.1.0))
                      ∙ round.1.1.1.0,
                  rest.1.1,
                ),
              ),
            ),
          ),
          λ a o.
              rest.2 a (o.0, (o.1.0, o.1.1.1.1.1))
              ∙ round.2 a (o.0, (o.1.0, (o.1.1.0, (o.1.1.1.0, (o.1.1.1.1.0, tt))))),
        ))

-- Destroying a list that holds messages ends, with a round for each message and a test behind the
-- last: it frees the list's head and its sentinel, and every message's node with what it owns, and
-- writes nowhere else.
pub destroy-Freed :
    (fuel : ℕ) (h : Heap) (hp s t : Ptr) (c : Cell) (cs : List Cell)
    → suc (length cs) < fuel
    → IsQueue h hp s t (c ∷ cs)
    → Ends
        (λ _ g. Freed g (hp ∷ s ∷ foot (c ∷ cs)) × SameOutside (hp ∷ s ∷ foot (c ∷ cs)) h g)
        (destory_singlelinklist fuel hp h)
unfolding destory_singlelinklist
destroy-Freed fuel h hp s t c cs enough q =
    rw (not_null q.head_ne, load_head-ok q.at_head, not_null q.sentinel_ne)
      (seq (loop-Freed fuel h hp s t c cs enough q) λ _ g all. rw (free-ok all.0) (
        ends (
          (write_self g hp none, Freed-write g hp (s ∷ foot (c ∷ cs)) q.nodup.0 all.1),
          λ a o. write-other g hp none a o.0 ∙ all.2 a (o.1.0, (o.0, o.1.1)),
        )))
