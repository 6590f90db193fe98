-- ===== src/Linklist/Add.antt =====
-- `add_data_to_linklist`: a copy of the caller's message is put at the end of the queue.
use uart.Base.{
  ℕ, ◌≤◌, ◌≡◌, ◌≢◌, refl, sym, ap, ◌∙◌, true, some, List, [], ◌∷◌, ◌++◌, arith, length, take,
  take_of_length, take-append_length, drop, replicate, length-replicate, drop_of_length, append-nil,
  length-take,
}
use uart.Heap.{memcpy, Ptr, null, DataInf, inf, buf, Heap, Holds, write, ok, ◌>>◌}
use uart.Heap.Facts.{
  keep, Holds-self, load_node-ok, load_inf-ok, store_inf-ok, memcpy-ok, write-other, not_null,
}
use uart.Heap.Ends.{Ends, ends, seq, weaken}
use uart.Heap.Places.{Same, SameOutside, Same-of_outside, Disjoint, Disjoint-sym, NotIn, Holds-same}
use uart.Linklist.Pop.{IsDest, filled}
use uart.Linklist.Dequeue.{pop-Popped}
use uart.Linklist.{singlelinklist_pop_node, Fresh, add_copy, add_data_to_linklist}
use uart.Linklist.Shape.{Cell, foot, inf_of, IsQueue, IsLoose, Links-Same}
use uart.Linklist.Alloc.{zero_cell, init_node-IsLoose}
use uart.Linklist.Insert.{insert-appends}

pub IsQueue-Same :
    {h g : Heap} {hp s t : Ptr} {cs : List Cell}
    → IsQueue h hp s t cs
    → Same h g (hp ∷ s ∷ foot cs)
    → IsQueue g hp s t cs
IsQueue-Same {h} {g} {hp} {s} {t} {cs} q same = record {
  at_head = Holds-same q.at_head same.0;
  links = Links-Same h g s null t cs q.links same.1;
  nodup = q.nodup;
  head_ne = q.head_ne;
  sentinel_ne = q.sentinel_ne;
}

-- A new node for the message `d` with these bytes.
abbrev pub cell_of : Fresh → DataInf → List ℕ → Cell
cell_of fresh d bytes = record {
  node = fresh.node;
  inf = fresh.inf;
  buf = fresh.buf;
  bytes = take d.data_len bytes;
  data_len = d.data_len;
  recv_fd = d.recv_fd;
  send_to = d.send_to;
}

-- The copy of the message `d` with these bytes. Its port is not copied.
abbrev pub copy_of : Fresh → DataInf → List ℕ → Cell
copy_of fresh d bytes = cell_of fresh (record d { send_to = 0 }) bytes

-- The addresses that `calloc` gives: not null, and three.
pub record IsFresh (fresh : Fresh) : Type 0 where
  pub node_ne : fresh.node ≢ null
  pub inf_ne : fresh.inf ≢ null
  pub buf_ne : fresh.buf ≢ null
  pub node_inf : fresh.node ≢ fresh.inf
  pub node_buf : fresh.node ≢ fresh.buf
  pub inf_buf : fresh.inf ≢ fresh.buf

abbrev pub places : Fresh → List Ptr
places fresh = fresh.node ∷ fresh.inf ∷ fresh.buf ∷ []

-- From the new node on: the fields are set and the bytes are copied.
module _ (g : Heap) (fresh : Fresh) (new : IsFresh fresh) (d : DataInf) (bytes : List ℕ)
    (loose : IsLoose g (zero_cell fresh d.data_len)) (at_bytes : Holds g d.pdata (buf bytes))
    (fits : d.data_len ≤ length bytes) (out : d.pdata ≢ fresh.inf) where
  abbrev pub header : DataInf
  header = inf_of (cell_of fresh d bytes)

  abbrev pub copied : Heap
  copied =
      write (write g fresh.inf (some (inf header))) fresh.buf (some (buf (take d.data_len bytes)))

  pub copied-other : (a : Ptr) → a ≢ fresh.inf → a ≢ fresh.buf → copied a ≡ g a
  copied-other a ni nb = write-other _ fresh.buf _ a nb ∙ write-other g fresh.inf _ a ni

  pub copied-IsLoose : IsLoose copied (cell_of fresh d bytes)
  copied-IsLoose = record {
    next = loose.next;
    at_node = Holds-same loose.at_node (copied-other fresh.node new.node_inf new.node_buf);
    owns = record {
      at_inf = keep fresh.buf _ (Holds-self g fresh.inf _) new.inf_buf;
      at_buf = Holds-self _ fresh.buf _;
      fits = omega (arith, length-take d.data_len bytes, fits);
      node_ne = new.node_ne;
      inf_ne = new.inf_ne;
      buf_ne = new.buf_ne;
    };
  }

  pub memcpy_runs :
      memcpy fresh.buf d.pdata d.data_len (write g fresh.inf (some (inf header))) ≡ ok tt copied
  memcpy_runs =
      let n = d.data_len in
      let size = length-replicate {A = ℕ} n 0 in
      let nothing_left : take n bytes ++ drop n (replicate n 0) ≡ take n bytes =
        ap (λ r. take n bytes ++ r) (drop_of_length n (replicate n 0) (omega (arith, size)))
        ∙ append-nil (take n bytes) in
      memcpy-ok n (keep fresh.inf _ at_bytes out)
        (keep fresh.inf _ loose.owns.at_buf (λ e. new.inf_buf (sym e))) fits (omega (arith, size))
      ∙ ap (λ b. ok tt (write (write g fresh.inf (some (inf header))) fresh.buf (some (buf b))))
          nothing_left

-- The part of `add_data_to_linklist` behind the reading of the message.
pub add_copy-appends :
    (h : Heap) (hp s t : Ptr) (cs : List Cell) (fresh : Fresh) (d : DataInf) (bytes : List ℕ)
    → IsQueue h hp s t cs
    → IsFresh fresh
    → Disjoint (places fresh) (hp ∷ s ∷ foot cs)
    → NotIn d.pdata (places fresh)
    → Holds h d.pdata (buf bytes)
    → d.data_len ≤ length bytes
    → Ends
        (λ r g.
          (r ≡ true)
          × IsQueue g hp s fresh.node (cs ++ copy_of fresh d bytes ∷ [])
          × SameOutside (t ∷ hp ∷ places fresh) h g)
        (add_copy fresh hp d h)
unfolding add_copy
add_copy-appends h hp s t cs fresh d bytes q new out apart_d at_bytes fits =
    let n = d.data_len in
    let d' : DataInf = record d { send_to = 0 } in
    seq
      (init_node-IsLoose h fresh n new.node_ne new.inf_ne new.buf_ne new.node_inf new.node_buf
        new.inf_buf)
      λ p g1 made.
        let loose = made.1 in
        let at_bytes1 = Holds-same at_bytes (made.2 d.pdata apart_d) in
        let bytes_ne = apart_d.1.0 in
        let g2 = copied g1 fresh new d' bytes loose at_bytes1 fits bytes_ne in
        let other = copied-other g1 fresh new d' bytes loose at_bytes1 fits bytes_ne in
        let outside : SameOutside (places fresh) h g2 = λ a o. other a o.1.0 o.1.1.0 ∙ made.2 a o in
        rw
          (
            made.0,
            not_null new.node_ne,
            load_node-ok loose.at_node,
            load_inf-ok loose.owns.at_inf,
            store_inf-ok (inf_of (copy_of fresh d bytes)) loose.owns.at_inf,
            memcpy_runs g1 fresh new d' bytes loose at_bytes1 fits bytes_ne,
          )
          (seq
            (insert-appends g2 hp s t cs (copy_of fresh d bytes)
              (IsQueue-Same q (
                Same-of_outside (hp ∷ s ∷ foot cs) (places fresh) outside
                  (Disjoint-sym (places fresh) (hp ∷ s ∷ foot cs) out)))
              (copied-IsLoose g1 fresh new d' bytes loose at_bytes1 fits bytes_ne) out)
            λ _ g3 put.
              ends (refl, put.0, λ a o. put.1 a (o.0, (o.1.0, (o.1.1.0, tt))) ∙ outside a o.1.1))

-- Where memory is there, `add_data_to_linklist` puts a copy of the message at `dp`, with the bytes
-- that its length names, its length and its `recv_fd`, at the end of the queue, and says so. The
-- rest of the queue and the caller's message stay, and nothing is written but the new objects, the
-- queue's head and its last node.
pub add_data-appends :
    (h : Heap) (hp s t : Ptr) (cs : List Cell) (fresh : Fresh) (dp : Ptr) (d : DataInf)
    (bytes : List ℕ)
    → IsQueue h hp s t cs
    → IsFresh fresh
    → Disjoint (places fresh) (hp ∷ s ∷ foot cs)
    → NotIn d.pdata (places fresh)
    → Holds h dp (inf d)
    → Holds h d.pdata (buf bytes)
    → d.data_len ≤ length bytes
    → Ends
        (λ r g.
          (r ≡ true)
          × IsQueue g hp s fresh.node (cs ++ copy_of fresh d bytes ∷ [])
          × SameOutside (t ∷ hp ∷ places fresh) h g)
        (add_data_to_linklist fresh hp dp h)
unfolding add_data_to_linklist
add_data-appends h hp s t cs fresh dp d bytes q new out apart_d at_dp at_bytes fits =
    rw (load_inf-ok at_dp)
      (add_copy-appends h hp s t cs fresh d bytes q new out apart_d at_bytes fits)

-- The message that is read back has the bytes that were put in.
front :
    (n : ℕ) (bytes rest : List ℕ)
    → n ≤ length bytes
    → take n (take n (take n bytes) ++ rest) ≡ take n bytes
front n bytes rest h =
    let size : length (take n bytes) ≡ n = omega (arith, length-take n bytes, h) in
    rw (take_of_length n (take n bytes) (omega (arith, size)))
      (take-append_length n (take n bytes) rest size)

-- A message that is put into an empty queue by `add_data_to_linklist` and then popped into a node
-- outside the queue whose buffer has room for it comes out with its bytes, its length and its
-- `recv_fd`, and the queue is empty again.
pub add_then_pop :
    (h : Heap) (hp s t : Ptr) (fresh : Fresh) (dp : Ptr) (d : DataInf) (bytes : List ℕ) (r : Cell)
    → IsQueue h hp s t []
    → IsFresh fresh
    → Disjoint (places fresh) (hp ∷ s ∷ [])
    → NotIn d.pdata (places fresh)
    → Holds h dp (inf d)
    → Holds h d.pdata (buf bytes)
    → d.data_len ≤ length bytes
    → IsDest h r
    → Disjoint (foot (r ∷ [])) (hp ∷ s ∷ places fresh)
    → d.data_len ≤ length r.bytes
    → Ends
        (λ _ g.
          IsQueue g hp s s []
          × IsDest g (filled r (copy_of fresh d bytes))
          × (take d.data_len (filled r (copy_of fresh d bytes)).bytes ≡ take d.data_len bytes))
        ((add_data_to_linklist fresh hp dp >> singlelinklist_pop_node hp r.node) h)
add_then_pop h hp s t fresh dp d bytes r q new out apart_d at_dp at_bytes fits dest away room =
    let last : t ≡ s = q.links.1 in
    seq (add_data-appends h hp s t [] fresh dp d bytes q new out apart_d at_dp at_bytes fits)
      λ _ g1 added.
        let outside : Same h g1 (foot (r ∷ [])) =
          Same-of_outside (foot (r ∷ [])) (t ∷ hp ∷ places fresh) added.2
            (omega (arith, last, away)) in
        let dest1 : IsDest g1 r = record {
          next = dest.next;
          at_node = Holds-same dest.at_node outside.0;
          at_inf = Holds-same dest.at_inf outside.1.0;
          at_buf = Holds-same dest.at_buf outside.1.1.0;
          node_ne = dest.node_ne;
          inf_ne = dest.inf_ne;
        } in
        weaken (pop-Popped g1 hp s fresh.node (copy_of fresh d bytes) [] r added.1 dest1 away room)
          λ _ g2 popped.
            (popped.queue, popped.dest, front d.data_len bytes (drop d.data_len r.bytes) fits)
