-- ===== src/Linklist/Pop.antt =====
-- `singlelinklist_pop_node` copies the oldest message out and frees its node.
use mathlib.Core.Path.{subst}
use uart.Base.{
  ℕ, suc, ◌-◌, ◌≤◌, ◌<◌, ◌≡◌, ◌≢◌, refl, sym, ◌∙◌, false, some, List, [], ◌∷◌, ◌++◌, arith, length,
  take, drop, ◌==◌,
}
use uart.Heap.{Ptr, null, Node, Head, node, inf, buf, head, Heap, Holds, write, fault}
use uart.Heap.Facts.{
  apart, keep, Holds-self, load_node-ok, load_inf-ok, store_head-ok, store_node-ok, store_inf-ok,
  memcpy-ok, memcpy-overflow, write-other,
}
use uart.Heap.Ends.{Ends, ends}
use uart.Heap.Places.{SameOutside}
use uart.Linklist.{reset, unlink, copy_out}
use uart.Linklist.Shape.{Cell, inf_of, Owns, Links}

-- The node into which a message is popped: its `data` and that one's buffer, not of the queue.
pub record IsDest (h : Heap) (d : Cell) : Type 0 where
  pub next : Ptr
  pub at_node : Holds h d.node (node (record { next = next; inf = d.inf }))
  pub at_inf : Holds h d.inf (inf (inf_of d))
  pub at_buf : Holds h d.buf (buf d.bytes)
  pub node_ne : d.node ≢ null
  pub inf_ne : d.inf ≢ null

-- The node after the call: the message of `c` at the front of its buffer.
abbrev pub filled : (d c : Cell) → Cell
filled d c = record d {
  bytes = take c.data_len c.bytes ++ drop c.data_len d.bytes;
  data_len = c.data_len;
  recv_fd = c.recv_fd;
  send_to = c.send_to;
}

-- The head and the sentinel after the first of the cells `c ∷ cs` is unlinked.
abbrev pub next_head : (s t : Ptr) → List Cell → Head
next_head s t [] = record { linklist_head = s; linklist_tail = s; linknode_count = 0 }
next_head s t (e ∷ es) = record {
  linklist_head = s;
  linklist_tail = t;
  linknode_count = length (e ∷ es);
}

abbrev pub next_sentinel : Ptr → List Cell → Node
next_sentinel s [] = record { next = s; inf = null }
next_sentinel s (e ∷ _) = record { next = e.node; inf = null }

pub record Unlinked (h g : Heap) (hp s t : Ptr) (cs : List Cell) : Type 0 where
  pub at_head : Holds g hp (head (next_head s t cs))
  pub at_sentinel : Holds g s (node (next_sentinel s cs))
  pub same : SameOutside (s ∷ hp ∷ []) h g

module _ (h : Heap) (hp s t y : Ptr) (x : Node)
    (at_s : Holds h s (node (record { next = y; inf = null }))) where
  unlink-last :
      Holds h hp (head (record { linklist_head = s; linklist_tail = t; linknode_count = 1 }))
      → Ends
          (λ _ g. Unlinked h g hp s t [])
          (unlink hp
            (record { linklist_head = s; linklist_tail = t; linknode_count = 1 })
            (record { next = y; inf = null })
            x
            h)
  unfolding unlink reset
  unlink-last eh =
      let n1 : Node = record { next = x.next; inf = null } in
      let n4 : Node = record { next = s; inf = null } in
      let hd2 : Head = record { linklist_head = s; linklist_tail = t; linknode_count = 0 } in
      let hd3 : Head = record { linklist_head = s; linklist_tail = s; linknode_count = 0 } in
      let h1 = write h s (some (node n1)) in
      let h2 = write h1 hp (some (head hd2)) in
      let h3 = write h2 hp (some (head hd3)) in
      let ne : hp ≢ s = apart eh at_s (λ e. cc) in
      let ne' : s ≢ hp = λ e. ne (sym e) in
      rw
        (
          store_node-ok n1 at_s,
          store_head-ok hd2 (keep s (some (node n1)) eh ne),
          store_head-ok hd3 (Holds-self h1 hp (head hd2)),
          store_node-ok n4 (
              keep hp (some (head hd3)) (keep hp (some (head hd2)) (Holds-self h s (node n1)) ne')
                ne'),
        )
        (ends (record {
          at_head = keep s (some (node n4)) (Holds-self h2 hp (head hd3)) ne;
          at_sentinel = Holds-self h3 s (node n4);
          same = λ a o.
              write-other h3 s _ a o.0
              ∙ write-other h2 hp _ a o.1.0
              ∙ write-other h1 hp _ a o.1.0
              ∙ write-other h s _ a o.0;
        }))

  unlink-more :
      (e : Cell) (es : List Cell)
      → Holds h hp (
          head (record {
            linklist_head = s;
            linklist_tail = t;
            linknode_count = suc (length (e ∷ es));
          }))
      → x.next ≡ e.node
      → Ends
          (λ _ g. Unlinked h g hp s t (e ∷ es))
          (unlink hp
            (record {
              linklist_head = s;
              linklist_tail = t;
              linknode_count = suc (length (e ∷ es));
            })
            (record { next = y; inf = null })
            x
            h)
  unfolding unlink
  unlink-more e es eh first =
      let n1 : Node = record { next = x.next; inf = null } in
      let hd2 : Head = next_head s t (e ∷ es) in
      let h1 = write h s (some (node n1)) in
      let ne : hp ≢ s = apart eh at_s (λ e. cc) in
      let count : suc (length (e ∷ es)) - 1 ≡ length (e ∷ es) = omega arith in
      let more : (length (e ∷ es) == 0) ≡ false = ground arith in
      rw (store_node-ok n1 at_s, count, store_head-ok hd2 (keep s (some (node n1)) eh ne), more)
        (ends (record {
          at_head = Holds-self h1 hp (head hd2);
          at_sentinel =
              subst
                (λ p.
                  Holds (write h1 hp (some (head hd2))) s (node (record { next = p; inf = null })))
                first (keep hp (some (head hd2)) (Holds-self h s (node n1)) (λ e. ne (sym e)));
          same = λ a o. write-other h1 hp _ a o.1.0 ∙ write-other h s _ a o.0;
        }))

-- What the copies leave, `c`'s message at `d`.
pub record Copied (h g : Heap) (c d : Cell) : Type 0 where
  pub at_inf : Holds g d.inf (inf (inf_of (filled d c)))
  pub at_buf : Holds g d.buf (buf (filled d c).bytes)
  pub same : SameOutside (d.buf ∷ d.inf ∷ []) h g

module _ (h : Heap) (c d : Cell) (y : Ptr)
    (at_c : Holds h c.node (node (record { next = y; inf = c.inf }))) (o : Owns h c)
    (dest : IsDest h d) where
  pub copy_out-Copied :
      c.inf ≢ d.inf
      → c.data_len ≤ length d.bytes
      → Ends (λ _ g. Copied h g c d) (copy_out c.node d.inf h)
  unfolding copy_out
  copy_out-Copied ne room =
      let new : List ℕ = (filled d c).bytes in
      let inf_ne_buf = apart dest.at_inf dest.at_buf (λ e. cc) in
      let h1 = write h d.buf (some (buf new)) in
      let inf1 = keep d.buf (some (buf new)) dest.at_inf inf_ne_buf in
      rw
        (
          load_node-ok at_c,
          load_inf-ok o.at_inf,
          load_inf-ok dest.at_inf,
          memcpy-ok c.data_len o.at_buf dest.at_buf o.fits room,
          store_inf-ok (inf_of (filled d c)) inf1,
        )
        (ends (record {
          at_inf = Holds-self h1 d.inf (inf (inf_of (filled d c)));
          at_buf =
              keep d.inf (some (inf (inf_of (filled d c)))) (Holds-self h d.buf (buf new))
                (λ e. inf_ne_buf (sym e));
          same = λ a out. write-other h1 d.inf _ a out.1.0 ∙ write-other h d.buf _ a out.0;
        }))

  pub copy_out-overflow : length d.bytes < c.data_len → copy_out c.node d.inf h ≡ fault
  unfolding copy_out
  copy_out-overflow over = rw (
    load_node-ok at_c,
    load_inf-ok o.at_inf,
    load_inf-ok dest.at_inf,
    memcpy-overflow c.data_len o.at_buf dest.at_buf over,
  )

-- `y` is where the first node `c` links to; unlinking it leaves the cells behind it.
pub unlink-Unlinked :
    (h : Heap) (hp s t : Ptr) (c : Cell) (cs : List Cell)
    → Holds h hp
        (head (record { linklist_head = s; linklist_tail = t; linknode_count = suc (length cs) }))
    → Holds h s (node (record { next = c.node; inf = null }))
    → Links h c.node c.inf t cs
    → (y : Ptr) × Holds h c.node (node (record { next = y; inf = c.inf }))
      × Ends
          (λ _ g. Unlinked h g hp s t cs)
          (unlink hp
            (record { linklist_head = s; linklist_tail = t; linknode_count = suc (length cs) })
            (record { next = c.node; inf = null })
            (record { next = y; inf = c.inf })
            h)
unlink-Unlinked h hp s t c [] eh es l =
    (c.node, l.0, unlink-last h hp s t c.node (record { next = c.node; inf = c.inf }) es eh)
unlink-Unlinked h hp s t c (e ∷ r) eh es l = (
  e.node,
  l.0,
  unlink-more h hp s t c.node (record { next = e.node; inf = c.inf }) es e r eh refl,
)
