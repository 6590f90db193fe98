-- ===== src/Daemon/Send.antt =====
-- `ready_send_data` of src/uart_start.c on the linked list in memory. `src` is the address of the
-- text, null where the caller has none.
use uart.Base.{
  ◌⊎◌, ℕ, zero, suc, ◌≤◌, ◌≡◌, ◌≢◌, refl, ◌∙◌, none, List, [], ◌∷◌, ◌++◌, length, ◌==◌,
  if◌then◌else◌, ℤ, pos, negsuc,
}
use uart.Heap.{
  Ptr, null, DataInf, Heap, Holds, buf, Cmd, pure, fault, ◌>>=◌, ◌>>◌, load_node, load_inf,
  store_inf, memcpy,
}
use uart.Heap.Facts.{load_node-ok, load_inf-ok, store_inf-ok}
use uart.Heap.Ends.{Ends, ends, seq, Ends-fault}
use uart.Heap.Places.{SameOutside, Same-of_outside, Disjoint, Disjoint-sym, NotIn, Holds-same}
use uart.Linklist.{Fresh, singlelinklist_init_node, singlelinklist_insert_node}
use uart.Linklist.Shape.{Cell, foot, inf_of, IsQueue}
use uart.Linklist.Alloc.{init_node-IsLoose, init_node-null}
use uart.Linklist.Insert.{insert-appends}
use uart.Linklist.Add.{
  IsFresh, places, cell_of, IsQueue-Same, copied, copied-other, copied-IsLoose, memcpy_runs,
}

-- Behind the guard. The new node is not tested.
unfoldable pub post_bytes : Fresh → (send_list : Ptr) → (port : ℕ) → (src : Ptr) → (len : ℕ) → Cmd ℤ
post_bytes fresh send_list port src len = do
  p ← singlelinklist_init_node fresh len
  x ← load_node p
  i ← load_inf x.inf
  store_inf x.inf (record i { data_len = len; send_to = port })
  memcpy i.pdata src len
  singlelinklist_insert_node send_list p
  pure (pos 0)

unfoldable pub post_buffer :
    Fresh → (send_list : Ptr) → (port : ℕ) → (src : Ptr) → (len : ℤ) → Cmd ℤ
unfolding post_bytes
post_buffer fresh send_list port src (negsuc n) = pure (negsuc 0)
post_buffer fresh send_list port src (pos zero) = pure (negsuc 0)
post_buffer fresh send_list port src (pos (suc n)) =
    if src == null then pure (negsuc 0) else post_bytes fresh send_list port src (suc n)

-- What is set of the new node, and the text that is copied.
abbrev pub posted_inf : (port : ℕ) → (src : Ptr) → (len : ℕ) → DataInf
posted_inf port src len = record { pdata = src; data_len = len; recv_fd = pos 0; send_to = port }

pub post_bytes-appends :
    (h : Heap) (hp s t : Ptr) (cs : List Cell) (fresh : Fresh) (port : ℕ) (src : Ptr) (n : ℕ)
    (bytes : List ℕ)
    → IsQueue h hp s t cs
    → IsFresh fresh
    → Disjoint (places fresh) (hp ∷ s ∷ foot cs)
    → NotIn src (places fresh)
    → Holds h src (buf bytes)
    → n ≤ length bytes
    → Ends
        (λ r g.
          (r ≡ pos 0)
          × IsQueue g hp s fresh.node (cs ++ cell_of fresh (posted_inf port src n) bytes ∷ [])
          × SameOutside (t ∷ hp ∷ places fresh) h g)
        (post_bytes fresh hp port src n h)
unfolding post_bytes
post_bytes-appends h hp s t cs fresh port src n bytes q new out apart_d at_bytes fits =
    let d = posted_inf port src n in
    seq
      (init_node-IsLoose h fresh n new.node_ne new.inf_ne new.buf_ne new.node_inf new.node_buf
        new.inf_buf)
      λ p g1 made.
        let loose = made.1 in
        let at_bytes1 = Holds-same at_bytes (made.2 src apart_d) in
        let g2 = copied g1 fresh new d bytes loose at_bytes1 fits apart_d.1.0 in
        let other = copied-other g1 fresh new d bytes loose at_bytes1 fits apart_d.1.0 in
        let outside : SameOutside (places fresh) h g2 = λ a o. other a o.1.0 o.1.1.0 ∙ made.2 a o in
        rw
          (
            made.0,
            load_node-ok loose.at_node,
            load_inf-ok loose.owns.at_inf,
            store_inf-ok (inf_of (cell_of fresh d bytes)) loose.owns.at_inf,
            memcpy_runs g1 fresh new d bytes loose at_bytes1 fits apart_d.1.0,
          )
          (seq
            (insert-appends g2 hp s t cs (cell_of fresh d bytes)
              (IsQueue-Same q (
                Same-of_outside (hp ∷ s ∷ foot cs) (places fresh) outside
                  (Disjoint-sym (places fresh) (hp ∷ s ∷ foot cs) out)))
              (copied-IsLoose g1 fresh new d bytes loose at_bytes1 fits apart_d.1.0) out)
            λ _ g3 put.
              ends (refl, put.0, λ a o. put.1 a (o.0, (o.1.0, (o.1.1.0, tt))) ∙ outside a o.1.1))

-- The call does not test its new node: where one of the three allocations fails, it reads through
-- the null pointer.
pub post_bytes-null :
    (h : Heap) (hp : Ptr) (fresh : Fresh) (port : ℕ) (src : Ptr) (n : ℕ)
    → (fresh.node ≡ null) ⊎ (fresh.inf ≡ null) ⊎ (fresh.buf ≡ null)
    → h null ≡ none
    → h fresh.node ≡ none
    → h fresh.inf ≡ none
    → fresh.node ≢ fresh.inf
    → post_bytes fresh hp port src n h ≡ fault
unfolding post_bytes load_node
post_bytes-null h hp fresh port src n fails at_null at_node at_inf ne =
    Ends-fault _ (init_node-null h fresh n at_node fails at_inf ne)
      λ p g made. rw (made.0, made.1 null, at_null) refl
