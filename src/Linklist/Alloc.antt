-- ===== src/Linklist/Alloc.antt =====
-- `singlelinklist_init_node` and `init_singlelinklist`: what they allocate.
use native.Mathlib.Decide.{ℕ_discrete}
use uart.Base.{ℕ, ◌≡◌, ◌≢◌, refl, sym, ◌∙◌, ◌⊎◌, true, none, some, [], ◌∷◌, arith, replicate, pos}
use uart.Heap.{
  Ptr, null, DataInf, Node, Object, Head, node, inf, buf, head, Heap, write, ok, calloc,
}
use uart.Heap.Facts.{
  keep, Holds-self, store_node-ok, store_inf-ok, store_head-ok, free-ok, write-other, not_null,
}
use uart.Heap.Ends.{Ends, ends}
use uart.Heap.Places.{SameOutside}
use uart.Linklist.{Fresh, singlelinklist_init_node, init_singlelinklist}
use uart.Linklist.Shape.{Cell, inf_of, IsQueue, IsLoose}

-- The cell that `singlelinklist_init_node` makes.
abbrev pub zero_cell : Fresh → ℕ → Cell
zero_cell fresh len = record {
  node = fresh.node;
  inf = fresh.inf;
  buf = fresh.buf;
  bytes = replicate len 0;
  data_len = 0;
  recv_fd = pos 0;
  send_to = 0;
}

calloc-ok : (h : Heap) (p : Ptr) (o : Object) → p ≢ null → calloc p o h ≡ ok p (write h p (some o))
unfolding calloc
calloc-ok h p o ne = rw (not_null ne)

calloc-null : (h : Heap) (o : Object) → calloc null o h ≡ ok null h
unfolding calloc
calloc-null h o = refl

module _ (h : Heap) (fresh : Fresh) (len : ℕ) where
  -- With memory for all three objects, at three addresses, the result is a node that owns a
  -- `data_inf` with all fields zero and a buffer of `buf_len` zeros, and nothing else is written.
  pub init_node-IsLoose :
      fresh.node ≢ null
      → fresh.inf ≢ null
      → fresh.buf ≢ null
      → fresh.node ≢ fresh.inf
      → fresh.node ≢ fresh.buf
      → fresh.inf ≢ fresh.buf
      → Ends
          (λ p g.
            (p ≡ fresh.node)
            × IsLoose g (zero_cell fresh len)
            × SameOutside (fresh.node ∷ fresh.inf ∷ fresh.buf ∷ []) h g)
          (singlelinklist_init_node fresh len h)
  unfolding singlelinklist_init_node
  init_node-IsLoose nn ni nb ab ac bc =
      let n1 : Node = record { next = null; inf = null } in
      let n3 : Node = record { next = null; inf = fresh.inf } in
      let d2 : DataInf = record { pdata = null; data_len = 0; recv_fd = pos 0; send_to = 0 } in
      let d5 = inf_of (zero_cell fresh len) in
      let h1 = write h fresh.node (some (node n1)) in
      let h2 = write h1 fresh.inf (some (inf d2)) in
      let node2 = keep fresh.inf (some (inf d2)) (Holds-self h fresh.node (node n1)) ab in
      let inf4 =
        keep fresh.buf (some (buf (replicate len 0)))
          (keep fresh.node (some (node n3)) (Holds-self h1 fresh.inf (inf d2)) (λ e. ab (sym e)))
          bc in
      rw
        (
          calloc-ok,
          not_null nn,
          calloc-ok,
          store_node-ok n3 node2,
          not_null ni,
          calloc-ok,
          store_inf-ok d5 inf4,
          not_null nb,
        )
        (ends (
          refl,
          record {
            next = null;
            at_node = keep fresh.inf _ (keep fresh.buf _ (Holds-self _ fresh.node (node n3)) ac) ab;
            owns = record {
              at_inf = Holds-self _ fresh.inf (inf d5);
              at_buf =
                  keep fresh.inf _ (Holds-self _ fresh.buf (buf (replicate len 0)))
                    (λ e. bc (sym e));
              fits = omega arith;
              node_ne = nn;
              inf_ne = ni;
              buf_ne = nb;
            };
          },
          λ a n.
              write-other _ fresh.inf _ a n.1.0
              ∙ write-other _ fresh.buf _ a n.1.1.0
              ∙ write-other _ fresh.node _ a n.0
              ∙ write-other _ fresh.inf _ a n.1.0
              ∙ write-other _ fresh.node _ a n.0,
        ))

  module _ (un : h fresh.node ≡ none) where
    null_without_node :
        fresh.node ≡ null
        → Ends (λ p g. (p ≡ null) × ((a : Ptr) → g a ≡ h a)) (singlelinklist_init_node fresh len h)
    unfolding singlelinklist_init_node
    null_without_node e = rw (e, calloc-null) (ends (refl, λ a. refl))

    null_without_inf :
        fresh.node ≢ null
        → fresh.inf ≡ null
        → Ends (λ p g. (p ≡ null) × ((a : Ptr) → g a ≡ h a)) (singlelinklist_init_node fresh len h)
    unfolding singlelinklist_init_node write
    null_without_inf nn e =
        let n1 : Node = record { next = null; inf = null } in
        let h1 = write h fresh.node (some (node n1)) in
        rw
          (
            calloc-ok,
            not_null nn,
            e,
            calloc-null,
            store_node-ok n1 (Holds-self h fresh.node (node n1)),
            free-ok (Holds-self h1 fresh.node (node n1)),
          )
          (ends (refl, λ a. ground (arith, un)))

    null_without_buf :
        fresh.node ≢ null
        → fresh.inf ≢ null
        → fresh.buf ≡ null
        → fresh.node ≢ fresh.inf
        → h fresh.inf ≡ none
        → Ends (λ p g. (p ≡ null) × ((a : Ptr) → g a ≡ h a)) (singlelinklist_init_node fresh len h)
    unfolding singlelinklist_init_node write
    null_without_buf nn ni e ab ui =
        let n1 : Node = record { next = null; inf = null } in
        let n3 : Node = record { next = null; inf = fresh.inf } in
        let d2 : DataInf = record { pdata = null; data_len = 0; recv_fd = pos 0; send_to = 0 } in
        let h1 = write h fresh.node (some (node n1)) in
        let h2 = write h1 fresh.inf (some (inf d2)) in
        let h3 = write h2 fresh.node (some (node n3)) in
        let h4 = write h3 fresh.inf (some (inf d2)) in
        let node2 = keep fresh.inf (some (inf d2)) (Holds-self h fresh.node (node n1)) ab in
        let inf3 =
          keep fresh.node (some (node n3)) (Holds-self h1 fresh.inf (inf d2)) (λ e. ab (sym e)) in
        let node5 =
          keep fresh.inf none
            (keep fresh.inf (some (inf d2)) (Holds-self h2 fresh.node (node n3)) ab) ab in
        rw
          (
            calloc-ok,
            not_null nn,
            calloc-ok,
            store_node-ok n3 node2,
            not_null ni,
            e,
            calloc-null,
            store_inf-ok d2 inf3,
            free-ok (Holds-self h3 fresh.inf (inf d2)),
            free-ok node5,
          )
          (ends (refl, λ a. ground (arith, un, ui)))

    -- Where one of the three allocations fails, the result is null, and what was allocated before
    -- it is free again: the heap is as it was, given that `calloc` had found the place of the
    -- `data_inf` free and apart from the node.
    pub init_node-null :
        (fresh.node ≡ null) ⊎ (fresh.inf ≡ null) ⊎ (fresh.buf ≡ null)
        → h fresh.inf ≡ none
        → fresh.node ≢ fresh.inf
        → Ends (λ p g. (p ≡ null) × ((a : Ptr) → g a ≡ h a)) (singlelinklist_init_node fresh len h)
    init_node-null fails ui ne = elim (ℕ_discrete fresh.node null) [
      | yes e ↦ null_without_node e
      | no nn ↦ elim (ℕ_discrete fresh.inf null) [
        | yes e ↦ null_without_inf nn e
        | no ni ↦ null_without_buf nn ni (ground arith) ne ui
      ]
    ]

-- Where both allocations succeed, at two addresses, and so does the mutex, the result of
-- `init_singlelinklist` is an empty queue, and nothing else is written.
pub init_singlelinklist-IsQueue :
    (h : Heap) (s hp : Ptr)
    → s ≢ null
    → hp ≢ null
    → s ≢ hp
    → Ends
        (λ p g. (p ≡ hp) × IsQueue g hp s s [] × SameOutside (s ∷ hp ∷ []) h g)
        (init_singlelinklist s hp true h)
unfolding init_singlelinklist
init_singlelinklist-IsQueue h s hp ns nh ne =
    let n1 : Node = record { next = null; inf = null } in
    let n4 : Node = record { next = s; inf = null } in
    let d2 : Head = record { linklist_head = null; linklist_tail = null; linknode_count = 0 } in
    let d3 : Head = record { linklist_head = s; linklist_tail = s; linknode_count = 0 } in
    let h1 = write h s (some (node n1)) in
    let h2 = write h1 hp (some (head d2)) in
    let h3 = write h2 hp (some (head d3)) in
    rw
      (
        calloc-ok,
        not_null ns,
        calloc-ok,
        not_null nh,
        store_head-ok d3 (Holds-self h1 hp (head d2)),
        store_node-ok n4
            (keep hp (some (head d3)) (keep hp (some (head d2)) (Holds-self h s (node n1)) ne) ne),
      )
      (ends (
        refl,
        record {
          at_head = keep s (some (node n4)) (Holds-self h2 hp (head d3)) (λ e. ne (sym e));
          links = (Holds-self h3 s (node n4), refl);
          nodup = (((λ e. ne (sym e)), tt), (tt, tt));
          head_ne = nh;
          sentinel_ne = ns;
        },
        λ a o.
            write-other h3 s _ a o.0
            ∙ write-other h2 hp _ a o.1.0
            ∙ write-other h1 hp _ a o.1.0
            ∙ write-other h s _ a o.0,
      ))
