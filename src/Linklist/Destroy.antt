-- ===== src/Linklist/Destroy.antt =====
-- `singlelinklist_destory_node` and `destory_singlelinklist`: what they free.
use uart.Base.{ℕ, suc, ◌≡◌, ◌≢◌, sym, ◌∙◌, none, some, [], ◌∷◌}
use uart.Heap.{Ptr, null, node, inf, Heap, Holds, write, ok}
use uart.Heap.Facts.{
  apart, keep, Holds-self, load_node-ok, load_inf-ok, store_node-ok, store_inf-ok, load_head-ok,
  free-ok, write_self, write-other, not_null,
}
use uart.Heap.Ends.{Ends, ends}
use uart.Heap.Places.{SameOutside}
use uart.Linklist.{singlelinklist_destory_node, destory_loop, destory_singlelinklist}
use uart.Linklist.Shape.{Cell, inf_of, IsQueue, IsLoose}

module _ (h : Heap) (c : Cell) (loose : IsLoose h c) where
  destroyed : Heap
  destroyed =
      let h1 = write h c.buf none in
      let h2 = write h1 c.inf (some (inf (record (inf_of c) { pdata = null }))) in
      let h3 = write h2 c.inf none in
      let h4 = write h3 c.node (some (node (record { next = loose.next; inf = null }))) in
      write h4 c.node none

  destroy_runs : singlelinklist_destory_node c.node h ≡ ok tt destroyed
  unfolding singlelinklist_destory_node destroyed
  destroy_runs =
      let o = loose.owns in
      let inf_ne_buf = apart o.at_inf o.at_buf (λ e. cc) in
      let node_ne_inf = apart loose.at_node o.at_inf (λ e. cc) in
      let node_ne_buf = apart loose.at_node o.at_buf (λ e. cc) in
      let h1 = write h c.buf none in
      let h2 = write h1 c.inf (some (inf (record (inf_of c) { pdata = null }))) in
      let h3 = write h2 c.inf none in
      let inf1 = keep c.buf none o.at_inf inf_ne_buf in
      let node3 =
        keep c.inf none
          (keep c.inf (some (inf (record (inf_of c) { pdata = null })))
            (keep c.buf none loose.at_node node_ne_buf) node_ne_inf)
          node_ne_inf in
      rw (
        not_null o.node_ne,
        load_node-ok loose.at_node,
        not_null o.inf_ne,
        load_inf-ok o.at_inf,
        not_null o.buf_ne,
        free-ok o.at_buf,
        store_inf-ok (record (inf_of c) { pdata = null }) inf1,
        free-ok (Holds-self h1 c.inf (inf (record (inf_of c) { pdata = null }))),
        store_node-ok (record { next = loose.next; inf = null }) node3,
        free-ok (Holds-self h3 c.node (node (record { next = loose.next; inf = null }))),
      )

  destroyed-other : (a : Ptr) → a ≢ c.node → a ≢ c.inf → a ≢ c.buf → destroyed a ≡ h a
  unfolding destroyed
  destroyed-other a nn ni nb =
      write-other _ c.node _ a nn
      ∙ write-other _ c.node _ a nn
      ∙ write-other _ c.inf _ a ni
      ∙ write-other _ c.inf _ a ni
      ∙ write-other _ c.buf _ a nb

  -- Destroying a node that owns its `data_inf` and its buffer frees all three, and writes nowhere
  -- else.
  pub destroy-frees :
      Ends
        (λ _ g.
          (g c.node ≡ none)
          × (g c.inf ≡ none)
          × (g c.buf ≡ none)
          × SameOutside (c.node ∷ c.inf ∷ c.buf ∷ []) h g)
        (singlelinklist_destory_node c.node h)
  unfolding destroyed
  destroy-frees =
      let o = loose.owns in
      let inf_ne_buf = apart o.at_inf o.at_buf (λ e. cc) in
      let node_ne_inf = apart loose.at_node o.at_inf (λ e. cc) in
      let node_ne_buf = apart loose.at_node o.at_buf (λ e. cc) in
      rw destroy_runs (
        ends (
          write_self _ c.node none,
          write-other _ c.node _ c.inf (λ e. node_ne_inf (sym e))
              ∙ write-other _ c.node _ c.inf (λ e. node_ne_inf (sym e))
              ∙ write_self _ c.inf none,
          write-other _ c.node _ c.buf (λ e. node_ne_buf (sym e))
              ∙ write-other _ c.node _ c.buf (λ e. node_ne_buf (sym e))
              ∙ write-other _ c.inf _ c.buf (λ e. inf_ne_buf (sym e))
              ∙ write-other _ c.inf _ c.buf (λ e. inf_ne_buf (sym e))
              ∙ write_self _ c.buf none,
          λ a n. destroyed-other a n.0 n.1.0 n.1.1.0,
        ))

-- Destroying an empty list frees its head and not its sentinel, which no pointer leads to any more.
pub destroy_empty-leaks :
    (h : Heap) (hp s t : Ptr) (k : ℕ)
    → IsQueue h hp s t []
    → Ends
        (λ _ g. (g hp ≡ none) × Holds g s (node (record { next = s; inf = null })))
        (destory_singlelinklist (suc k) hp h)
unfolding destory_singlelinklist destory_loop
destroy_empty-leaks h hp s t k q =
    rw
      (
        not_null q.head_ne,
        load_head-ok q.at_head,
        not_null q.sentinel_ne,
        load_head-ok q.at_head,
        free-ok q.at_head,
      )
      (ends (write_self h hp none, keep hp none q.links.0 (apart q.links.0 q.at_head (λ e. cc))))
