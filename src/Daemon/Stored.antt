-- ===== src/Daemon/Stored.antt =====
-- What holds of a queue in memory, whatever the order of the calls on it.
use uart.Base.{
  ℕ, ◌≤◌, ◌≡◌, ◌≢◌, sym, ap, ◌∙◌, List, [], ◌∷◌, ◌++◌, append_assoc, append-nil, replicate,
  length-replicate, drop, drop_of_length, some, none, negsuc, arith, length,
}
use uart.Heap.{Ptr, null, inf, buf, Heap, ok, write, memset}
use uart.Heap.Facts.{
  apart, keep, Holds-self, load_node-ok, load_inf-ok, store_inf-ok, memset-ok, write-other,
}
use uart.Linklist.Add.{IsQueue-Same}
use uart.Heap.Ends.{Ends, ends}
use uart.Heap.Freed.{Freed, Taken, Freed-Disjoint}
use uart.Heap.Places.{
  NotIn, NotIn-append, Same, SameOutside, Same-of_outside, Disjoint, Disjoint-append, Disjoint-cons,
  Disjoint-nil, Disjoint-sym, Holds-same,
}
use uart.Linklist.Shape.{Cell, inf_of, foot, foot-append, Links, IsQueue, Message, messages}
use uart.Linklist.Pop.{IsDest}
use uart.Linklist.Insert.{last-ne}
use uart.Daemon.{Reader}
use uart.Daemon.Produce.{messages-append}
use uart.Daemon.Store.{Store, Site, node_places, clear_node, clear_bytes}

abbrev pub dest_of : Site → Reader → Cell
dest_of w r = record {
  node = w.node;
  inf = w.inf;
  buf = w.buf;
  bytes = r.pdata;
  data_len = r.data_len;
  recv_fd = r.recv_fd;
  send_to = r.send_to;
}

-- Every message fits the taking thread's buffer.
abbrev pub AllShort : (room : ℕ) → List Cell → Type 0
AllShort room [] = Unit {0}
AllShort room (c ∷ cs) = (c.data_len ≤ room) × AllShort room cs

pub record Inv (w : Site) (x : Store) : Type 0 where
  pub tail : Ptr
  pub cells : List Cell
  pub reader : Reader
  pub queue : IsQueue x.heap w.hp w.s tail cells
  pub dest : IsDest x.heap (dest_of w reader)
  pub room : length reader.pdata ≡ w.room
  pub apart : Disjoint (node_places w) (w.hp ∷ w.s ∷ foot cells)
  pub short : AllShort w.room cells
  pub in_order : x.queued ≡ x.taken ++ messages cells

AllShort-append :
    (room : ℕ) (cs ds : List Cell) → AllShort room cs → AllShort room ds → AllShort room (cs ++ ds)
AllShort-append room [] ds hc hd = hd
AllShort-append room (c ∷ cs) ds hc hd = (hc.0, AllShort-append room cs ds hc.1 hd)

Links-Taken : (h : Heap) (p i t : Ptr) (cs : List Cell) → Links h p i t cs → Taken h (p ∷ foot cs)
Links-Taken h p i t [] l = ((_, l.0), tt)
Links-Taken h p i t (c ∷ cs) l =
    let rest = Links-Taken h c.node c.inf t cs l.2 in
    ((_, l.0), (rest.0, ((_, l.1.at_inf), ((_, l.1.at_buf), rest.1))))

pub IsDest-Same : {h g : Heap} {d : Cell} → IsDest h d → Same h g (foot (d ∷ [])) → IsDest g d
IsDest-Same e same = record {
  next = e.next;
  at_node = Holds-same e.at_node same.0;
  at_inf = Holds-same e.at_inf same.1.0;
  at_buf = Holds-same e.at_buf same.1.1.0;
  node_ne = e.node_ne;
  inf_ne = e.inf_ne;
}

abbrev pub footprint : Site → List Cell → List Ptr
footprint w cs = node_places w ++ w.hp ∷ w.s ∷ foot cs

-- A call on a list of the cells `cs` that leaves `y`: it writes only to the list, to the thread's node and to
-- addresses that were free, and the list stays among these.
pub record Moved (w : Site) (x : Store) (cs : List Cell) (y : Store) : Type 0 where
  pub inv : Inv w y
  pub frame :
      (a : Ptr)
      → x.heap a ≢ none
      → NotIn a (footprint w cs)
      → (y.heap a ≡ x.heap a) × NotIn a (footprint w inv.cells)

NotIn-Freed : (h : Heap) (a : Ptr) (ps : List Ptr) → h a ≢ none → Freed h ps → NotIn a ps
NotIn-Freed h a [] full f = tt
NotIn-Freed h a (p ∷ ps) full f = ((λ e. full (ap h e ∙ f.0)), NotIn-Freed h a ps full f.1)

module _ (w : Site) (x : Store) (v : Inv w x) where
  node-Taken : Taken x.heap (node_places w)
  node-Taken = ((_, v.dest.at_node), ((_, v.dest.at_inf), ((_, v.dest.at_buf), tt)))

  pub queue-Taken : Taken x.heap (w.hp ∷ w.s ∷ foot v.cells)
  queue-Taken = ((_, v.queue.at_head), Links-Taken x.heap w.s null v.tail v.cells v.queue.links)

  pub footprint-Taken : Taken x.heap (footprint w v.cells)
  footprint-Taken = (node-Taken.0, (node-Taken.1.0, (node-Taken.1.1.0, queue-Taken)))

  -- A node with the message of `c` is put at the end.
  pub grown-Moved :
      (g : Heap) (c : Cell) (ms : List Message)
      → IsQueue g w.hp w.s c.node (v.cells ++ c ∷ [])
      → SameOutside (v.tail ∷ w.hp ∷ foot (c ∷ [])) x.heap g
      → Freed x.heap (foot (c ∷ []))
      → c.data_len ≤ w.room
      → messages (c ∷ []) ≡ ms
      → Moved w x v.cells (record x { heap = g; queued = x.queued ++ ms })
  grown-Moved g c ms q outside unused short same =
      let a = v.apart in
      let away = Freed-Disjoint x.heap (foot (c ∷ [])) (node_places w) unused node-Taken in
      let not_last : (p : Ptr) → NotIn p (w.s ∷ foot v.cells) → p ≢ v.tail =
        λ p out. last-ne x.heap p w.s null v.tail v.cells v.queue.links out in
      record {
        inv = record {
          tail = c.node;
          cells = v.cells ++ c ∷ [];
          reader = v.reader;
          queue = q;
          dest = IsDest-Same v.dest (
            outside w.node (not_last w.node a.0.1, (a.0.0, omega (arith, away))),
            (
              outside w.inf (not_last w.inf a.1.0.1, (a.1.0.0, omega (arith, away))),
              (outside w.buf (not_last w.buf a.1.1.0.1, (a.1.1.0.0, omega (arith, away))), tt),
            ),
          );
          room = v.room;
          apart = rw (foot-append v.cells (c ∷ [])) (
              Disjoint-append (node_places w) (w.hp ∷ w.s ∷ foot v.cells) (foot (c ∷ [])) a
                (Disjoint-sym (foot (c ∷ [])) (node_places w) away));
          short = AllShort-append w.room v.cells (c ∷ []) v.short (short, tt);
          in_order =
              ap (λ l. l ++ ms) v.in_order
              ∙ append_assoc x.taken (messages v.cells) ms
              ∙ ap (λ l. x.taken ++ (messages v.cells ++ l)) (sym same)
              ∙ ap (λ l. x.taken ++ l) (sym (messages-append v.cells c));
        };
        frame = λ a full out.
            let new = NotIn-Freed x.heap a (foot (c ∷ [])) full unused in
            (
              outside a (not_last a out.1.1.1.1, (out.1.1.1.0, new)),
              (
                out.0,
                (
                  out.1.0,
                  (
                    out.1.1.0,
                    (
                      out.1.1.1.0,
                      (
                        out.1.1.1.1.0,
                        rw (foot-append v.cells (c ∷ []))
                            (NotIn-append a (foot v.cells) (foot (c ∷ [])) out.1.1.1.1.1 new),
                      ),
                    ),
                  ),
                ),
              ),
            );
      }

  -- The thread's node changes, and the list does not.
  pub renewed-Moved :
      (g : Heap) (r : Reader)
      → IsDest g (dest_of w r)
      → length r.pdata ≡ w.room
      → SameOutside (w.inf ∷ w.buf ∷ []) x.heap g
      → Moved w x v.cells (record x { heap = g })
  renewed-Moved g r dest room outside =
      let a = v.apart in
      let qs = w.hp ∷ w.s ∷ foot v.cells in
      record {
        inv = record {
          tail = v.tail;
          cells = v.cells;
          reader = r;
          queue = IsQueue-Same v.queue (
              Same-of_outside qs (w.inf ∷ w.buf ∷ []) outside (
                Disjoint-cons qs w.inf _ a.1.0
                  (Disjoint-cons qs w.buf _ a.1.1.0 (Disjoint-nil qs))));
          dest = dest;
          room = room;
          apart = a;
          short = v.short;
          in_order = v.in_order;
        };
        frame = λ a full out. (outside a (out.1.0, (out.1.1.0, tt)), out);
      }

  abbrev pub untouched :
      (g : Heap)
      → Same x.heap g (node_places w ++ w.hp ∷ w.s ∷ foot v.cells)
      → Inv w (record x { heap = g })
  untouched g same = record {
    tail = v.tail;
    cells = v.cells;
    reader = v.reader;
    queue = IsQueue-Same v.queue same.1.1.1;
    dest = IsDest-Same v.dest (same.0, (same.1.0, (same.1.1.0, tt)));
    room = v.room;
    apart = v.apart;
    short = v.short;
    in_order = v.in_order;
  }

  memset_runs :
      memset w.buf 0 w.room x.heap ≡ ok tt (write x.heap w.buf (some (buf (replicate w.room 0))))
  memset_runs =
      let all : replicate w.room 0 ++ drop w.room v.reader.pdata ≡ replicate w.room 0 =
        ap (λ r. replicate w.room 0 ++ r)
          (drop_of_length w.room v.reader.pdata (omega (arith, v.room)))
        ∙ append-nil (replicate w.room 0) in
      memset-ok 0 w.room v.dest.at_buf (omega (arith, v.room))
      ∙ ap (λ b. ok tt (write x.heap w.buf (some (buf b)))) all

  abbrev zeroed : Heap
  zeroed = write x.heap w.buf (some (buf (replicate w.room 0)))

  zeroed-IsDest : IsDest zeroed (dest_of w (record v.reader { pdata = replicate w.room 0 }))
  zeroed-IsDest = record {
    next = v.dest.next;
    at_node = keep w.buf _ v.dest.at_node (apart v.dest.at_node v.dest.at_buf (λ e. cc));
    at_inf = keep w.buf _ v.dest.at_inf (apart v.dest.at_inf v.dest.at_buf (λ e. cc));
    at_buf = Holds-self x.heap w.buf _;
    node_ne = v.dest.node_ne;
    inf_ne = v.dest.inf_ne;
  }

  pub clear_bytes-Moved :
      Ends (λ _ g. Moved w x v.cells (record x { heap = g })) (clear_bytes w.node w.room x.heap)
  unfolding clear_bytes
  clear_bytes-Moved =
      rw (load_node-ok v.dest.at_node, load_inf-ok v.dest.at_inf, memset_runs)
        (ends (
          renewed-Moved zeroed (record v.reader { pdata = replicate w.room 0 }) zeroed-IsDest
            (length-replicate w.room 0) (λ a o. write-other x.heap w.buf _ a o.1.0)))

  pub clear_node-Moved :
      Ends (λ _ g. Moved w x v.cells (record x { heap = g })) (clear_node w.node w.room x.heap)
  unfolding clear_node
  clear_node-Moved =
      let r = record v.reader { pdata = replicate w.room 0; data_len = 0; recv_fd = negsuc 0 } in
      let d = inf_of (dest_of w r) in
      rw
        (
          load_node-ok v.dest.at_node,
          load_inf-ok v.dest.at_inf,
          memset_runs,
          store_inf-ok d zeroed-IsDest.at_inf,
        )
        (ends (
          renewed-Moved (write zeroed w.inf (some (inf d))) r
            (record {
              next = zeroed-IsDest.next;
              at_node =
                  keep w.inf _ zeroed-IsDest.at_node (apart v.dest.at_node v.dest.at_inf (λ e. cc));
              at_inf = Holds-self zeroed w.inf _;
              at_buf =
                  keep w.inf _ zeroed-IsDest.at_buf (apart v.dest.at_buf v.dest.at_inf (λ e. cc));
              node_ne = v.dest.node_ne;
              inf_ne = v.dest.inf_ne;
            })
            (length-replicate w.room 0)
            (λ a o. write-other zeroed w.inf _ a o.0 ∙ write-other x.heap w.buf _ a o.1.0)))
