-- ===== src/Daemon/Kept.antt =====
-- A call on a queue of src/uart_start.c, and what holds of the queue between calls.
use mathlib.Core.Path.{subst}
use uart.Base.{some, suc, arith, ◌≡◌, ◌≢◌, refl, sym, ap, ◌∙◌, List, [], ◌∷◌, ◌++◌, length}
use uart.Heap.{Ptr, Head, head, Heap, Holds, ok}
use uart.Heap.Ends.{Ends, Ends-at, weaken}
use uart.Heap.Places.{Disjoint}
use uart.Linklist.{singlelinklist_pop_node}
use uart.Linklist.Shape.{Cell, IsQueue, Message, message, messages}
use uart.Linklist.Pop.{IsDest}
use uart.Linklist.Dequeue.{pop-empty}
use uart.Daemon.{Reader}
use uart.Daemon.Store.{
  Store, Site, node_places, take_out, Call, receives, posts, takes, finds_none, clears,
  clears_bytes,
}
use uart.Daemon.Stored.{Inv, Moved, dest_of, clear_node-Moved, clear_bytes-Moved}
use uart.Daemon.Takes.{queue_buffer-Moved, post_buffer-Moved, take_out-Moved}

module _ (w : Site) (x : Store) (v : Inv w x) where
  -- The count in the list's head is the number of its cells.
  counted : (hd : Head) → Holds x.heap w.hp (head hd) → hd.linknode_count ≡ length v.cells
  counted hd at =
      let known : Head = record {
        linklist_head = w.s;
        linklist_tail = v.tail;
        linknode_count = length v.cells;
      } in
      let agree : some (head hd) ≡ some (head known) = sym at.at ∙ v.queue.at_head.at in
      let same : hd ≡ known = cc in ap (λ d. d.linknode_count) same

  takes-Moved :
      (cs : List Cell) (m : Message) (g : Heap) (hd : Head)
      → v.cells ≡ cs
      → Holds x.heap w.hp (head hd)
      → hd.linknode_count ≢ 0
      → take_out w.hp w.node x.heap ≡ ok m g
      → Moved w x v.cells (record x { heap = g; taken = x.taken ++ m ∷ [] })
  takes-Moved [] m g hd e at some_left runs = absurd (some_left (counted hd at ∙ ap length e))
  takes-Moved (c ∷ cs) m g hd e at some_left runs = (Ends-at (take_out-Moved w x v c cs e) runs).1

  stays-Moved : Moved w x v.cells (record x { heap = x.heap })
  stays-Moved = record { inv = v; frame = λ a full out. (refl, out) }

  finds_none-Moved :
      (cs : List Cell) (g : Heap) (hd : Head)
      → v.cells ≡ cs
      → Holds x.heap w.hp (head hd)
      → hd.linknode_count ≡ 0
      → singlelinklist_pop_node w.hp w.node x.heap ≡ ok tt g
      → Moved w x v.cells (record x { heap = g })
  finds_none-Moved [] g hd e at none_left runs =
      let q = subst (IsQueue x.heap w.hp w.s v.tail) e v.queue in
      let ends_so : ok tt x.heap ≡ ok tt g =
        sym (pop-empty x.heap w.hp w.s v.tail w.node q) ∙ runs in
      let same : x.heap ≡ g = cc in
      subst (λ g. Moved w x v.cells (record x { heap = g })) same stays-Moved
  finds_none-Moved (c ∷ cs) g hd e at none_left runs =
      let none_left' : 0 ≡ suc (length cs) = sym none_left ∙ counted hd at ∙ ap length e in
      absurd (omega (arith, none_left'))

  pub Call-Moved : {y : Store} → Call w x y → Moved w x v.cells y
  Call-Moved (receives fresh src bytes fd n r g given runs e) =
      rw e (Ends-at (queue_buffer-Moved w x v fresh src bytes n given fd) runs)
  Call-Moved (posts fresh port src bytes n r g given runs e) =
      rw e (Ends-at (post_buffer-Moved w x v fresh src bytes n given port) runs)
  Call-Moved (takes hd m g at some_left runs e) =
      rw e (takes-Moved v.cells m g hd refl at some_left runs)
  Call-Moved (finds_none hd g at none_left runs e) =
      rw e (finds_none-Moved v.cells g hd refl at none_left runs)
  Call-Moved (clears g runs e) = rw e (Ends-at (clear_node-Moved w x v) runs)
  Call-Moved (clears_bytes g runs e) = rw e (Ends-at (clear_bytes-Moved w x v) runs)

-- The list is new, and the thread's node is as `singlelinklist_init_node` makes it.
pub record IsStart (w : Site) (x : Store) : Type 0 where
  pub queue : IsQueue x.heap w.hp w.s w.s []
  pub reader : Reader
  pub dest : IsDest x.heap (dest_of w reader)
  pub room : length reader.pdata ≡ w.room
  pub apart : Disjoint (node_places w) (w.hp ∷ w.s ∷ [])
  pub none_queued : x.queued ≡ []
  pub none_taken : x.taken ≡ []

abbrev pub start_inv : (w : Site) (x : Store) → IsStart w x → Inv w x
start_inv w x i = record {
  tail = w.s;
  cells = [];
  reader = i.reader;
  queue = i.queue;
  dest = i.dest;
  room = i.room;
  apart = i.apart;
  short = tt;
  in_order = i.none_queued ∙ ap (λ l. l ++ []) (sym i.none_taken);
}

-- What `take_out` does next: where there is a cell, it ends with the oldest message.
abbrev pub NextIs : Site → Heap → List Cell → Type 0
NextIs w h [] = singlelinklist_pop_node w.hp w.node h ≡ ok tt h
NextIs w h (c ∷ cs) = Ends (λ m _. m ≡ message c) (take_out w.hp w.node h)

Inv-NextIs :
    (w : Site) (x : Store) (v : Inv w x) (cs : List Cell) → v.cells ≡ cs → NextIs w x.heap cs
Inv-NextIs w x v [] e =
    pop-empty x.heap w.hp w.s v.tail w.node (subst (IsQueue x.heap w.hp w.s v.tail) e v.queue)
Inv-NextIs w x v (c ∷ cs) e = weaken (take_out-Moved w x v c cs e) λ m g done. done.0

-- The memory holds a well-formed list whose messages, behind those that the thread has read from
-- its node, are the messages that were put in, in order; and the next pop goes well.
abbrev pub Stands : Site → Store → Type 0
Stands w y =
    (tail : Ptr) × (cells : List Cell) × IsQueue y.heap w.hp w.s tail cells
    × (y.queued ≡ y.taken ++ messages cells)
    × NextIs w y.heap cells

pub Inv-Stands : (w : Site) (y : Store) → Inv w y → Stands w y
Inv-Stands w y v = (v.tail, v.cells, v.queue, v.in_order, Inv-NextIs w y v v.cells refl)
