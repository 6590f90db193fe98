-- ===== src/Linklist/Shape.antt =====
-- What the memory of a message queue looks like: its nodes from the sentinel on, each with the
-- `data_inf` and the buffer that it owns.
use mathlib.Core.Path.{subst}
use uart.Base.{ℕ, ◌≤◌, ◌≡◌, ◌≢◌, refl, sym, ap, List, [], ◌∷◌, ◌++◌, length, take, map, ℤ}
use uart.Heap.{Ptr, null, DataInf, node, inf, buf, head, Heap, Holds}
use uart.Heap.Places.{Apart, Same, Holds-same}

-- A node of the queue with what it owns.
pub record Cell : Type 0 where
  pub node : Ptr
  pub inf : Ptr
  pub buf : Ptr
  pub bytes : List ℕ
  pub data_len : ℕ
  pub recv_fd : ℤ
  pub send_to : ℕ

abbrev pub inf_of : Cell → DataInf
inf_of c = record { pdata = c.buf; data_len = c.data_len; recv_fd = c.recv_fd; send_to = c.send_to }

abbrev pub foot : List Cell → List Ptr
foot [] = []
foot (c ∷ cs) = c.node ∷ c.inf ∷ c.buf ∷ foot cs

-- What a cell's node owns, and that its pointers are not null.
pub record Owns (h : Heap) (c : Cell) : Type 0 where
  pub at_inf : Holds h c.inf (inf (inf_of c))
  pub at_buf : Holds h c.buf (buf c.bytes)
  pub fits : c.data_len ≤ length c.bytes
  pub node_ne : c.node ≢ null
  pub inf_ne : c.inf ≢ null
  pub buf_ne : c.buf ≢ null

-- From the node `p`, whose `data` is `i`, the links lead through the cells to the last node `t`,
-- which links to itself.
abbrev pub Links : Heap → (p i t : Ptr) → List Cell → Type 0
Links h p i t [] = Holds h p (node (record { next = p; inf = i })) × (t ≡ p)
Links h p i t (c ∷ cs) =
    Holds h p (node (record { next = c.node; inf = i })) × Owns h c × Links h c.node c.inf t cs

-- The queue at `hp` has the sentinel `s`, the last node `t` and these cells.
pub record IsQueue (h : Heap) (hp s t : Ptr) (cs : List Cell) : Type 0 where
  pub at_head :
      Holds h hp
        (head (record { linklist_head = s; linklist_tail = t; linknode_count = length cs }))
  pub links : Links h s null t cs
  pub nodup : Apart (hp ∷ s ∷ foot cs)
  pub head_ne : hp ≢ null
  pub sentinel_ne : s ≢ null

-- A message as its reader sees it.
pub record Message : Type 0 where
  pub bytes : List ℕ
  pub recv_fd : ℤ
  pub send_to : ℕ

abbrev pub message : Cell → Message
message c = record { bytes = take c.data_len c.bytes; recv_fd = c.recv_fd; send_to = c.send_to }

-- The abstract value of the queue: its messages, oldest first.
abbrev pub messages : List Cell → List Message
messages cs = map message cs

pub Owns-same :
    {h g : Heap} {c : Cell} → Owns h c → g c.inf ≡ h c.inf → g c.buf ≡ h c.buf → Owns g c
Owns-same o ei eb = record {
  at_inf = Holds-same o.at_inf ei;
  at_buf = Holds-same o.at_buf eb;
  fits = o.fits;
  node_ne = o.node_ne;
  inf_ne = o.inf_ne;
  buf_ne = o.buf_ne;
}

-- The links stay where nothing of them is written.
pub Links-Same :
    (h g : Heap) (p i t : Ptr) (cs : List Cell)
    → Links h p i t cs
    → Same h g (p ∷ foot cs)
    → Links g p i t cs
Links-Same h g p i t [] l same = (Holds-same l.0 same.0, l.1)
Links-Same h g p i t (c ∷ cs) l same = (
  Holds-same l.0 same.0,
  Owns-same l.1 same.1.1.0 same.1.1.1.0,
  Links-Same h g c.node c.inf t cs l.2 (same.1.0, same.1.1.1.1),
)

-- The last node is a node that links to itself.
pub Links-last :
    (h : Heap) (p i t : Ptr) (cs : List Cell)
    → Links h p i t cs
    → (j : Ptr) × Holds h t (node (record { next = t; inf = j }))
Links-last h p i t [] l =
    (i, subst (λ q. Holds h q (node (record { next = q; inf = i }))) (sym l.1) l.0)
Links-last h p i t (c ∷ cs) l = Links-last h c.node c.inf t cs l.2

pub foot-append : (cs ds : List Cell) → foot (cs ++ ds) ≡ foot cs ++ foot ds
foot-append [] ds = refl
foot-append (c ∷ cs) ds = ap (λ r. c.node ∷ c.inf ∷ c.buf ∷ r) (foot-append cs ds)

-- The node at which the links start.
pub Links-first :
    (h : Heap) (c : Cell) (t : Ptr) (cs : List Cell)
    → Links h c.node c.inf t cs
    → (y : Ptr) × Holds h c.node (node (record { next = y; inf = c.inf }))
Links-first h c t [] l = (c.node, l.0)
Links-first h c t (e ∷ es) l = (e.node, l.0)

-- A node outside the queue with what it owns, as `singlelinklist_init_node` makes it.
pub record IsLoose (h : Heap) (c : Cell) : Type 0 where
  pub next : Ptr
  pub at_node : Holds h c.node (node (record { next = next; inf = c.inf }))
  pub owns : Owns h c
