-- ===== src/Daemon/Takes.antt =====
-- The calls that put a message into the queue in memory and that take one out.
use mathlib.Core.Path.{subst}
use uart.Base.{
  ℕ, suc, ◌≤◌, ◌≡◌, refl, sym, ap, ◌∙◌, append_assoc, List, [], ◌∷◌, ◌++◌, arith, length, take,
  take_of_length, take-append_length, length-take, length-append, length-drop, drop, ℤ, pos,
}
use uart.Heap.{Ptr, Heap, ok}
use uart.Heap.Facts.{load_node-ok, load_inf-ok, load_buf-ok, not_null}
use uart.Heap.Ends.{Ends, ends, seq, weaken}
use uart.Heap.Freed.{Freed-Disjoint}
use uart.Heap.Places.{Disjoint, NotIn}
use uart.Linklist.{Fresh}
use uart.Linklist.Shape.{Cell, foot, IsQueue, Message, message, messages}
use uart.Linklist.Pop.{IsDest, filled}
use uart.Linklist.Dequeue.{Popped, pop-Popped}
use uart.Linklist.Add.{copy_of, cell_of, places, add_copy-appends}
use uart.Daemon.Produce.{queue_buffer, received_inf, messages-copy}
use uart.Daemon.Send.{post_buffer, posted_inf, post_bytes-appends}
use uart.Daemon.Store.{Store, Site, node_places, Given, read_node, take_out}
use uart.Daemon.Stored.{Moved, footprint, Inv, AllShort, dest_of, grown-Moved, queue-Taken}

abbrev received_message : (bytes : List ℕ) → (fd : ℤ) → (n : ℕ) → (port : ℕ) → Message
received_message bytes fd n port = record { bytes = take n bytes; recv_fd = fd; send_to = port }

message-cell :
    (fresh : Fresh) (port : ℕ) (src : Ptr) (n : ℕ) (bytes : List ℕ)
    → n ≤ length bytes
    → messages (cell_of fresh (posted_inf port src n) bytes ∷ [])
      ≡ received_message bytes (pos 0) n port ∷ []
message-cell fresh port src n bytes h =
    ap (λ b. record { bytes = b; recv_fd = pos 0; send_to = port } ∷ [])
      (take_of_length n (take n bytes) (omega (arith, length-take n bytes)))

module _ (w : Site) (x : Store) (v : Inv w x) (fresh : Fresh) (src : Ptr) (bytes : List ℕ) (n : ℕ)
    (given : Given x.heap fresh src bytes (suc n) w.room) where
  apart_list : Disjoint (places fresh) (w.hp ∷ w.s ∷ foot v.cells)
  apart_list =
      Freed-Disjoint x.heap (places fresh) (w.hp ∷ w.s ∷ foot v.cells) given.unused
        (queue-Taken w x v)

  apart_src : NotIn src (places fresh)
  apart_src =
      let away =
        Freed-Disjoint x.heap (places fresh) (src ∷ []) given.unused ((_, given.at_src), tt) in
      omega (arith, away)

  pub queue_buffer-Moved :
      (fd : ℤ)
      → Ends
          (λ _ g.
            Moved w x v.cells (record x {
              heap = g;
              queued = x.queued ++ received_message bytes fd (suc n) 0 ∷ [];
            }))
          (queue_buffer fresh w.hp src fd (suc n) x.heap)
  unfolding queue_buffer
  queue_buffer-Moved fd =
      let i = received_inf src fd (suc n) in
      weaken
        (add_copy-appends x.heap w.hp w.s v.tail v.cells fresh i bytes v.queue given.new apart_list
          apart_src given.at_src given.fits)
        λ _ g put.
          grown-Moved w x v g (copy_of fresh i bytes) _ put.1 put.2 given.unused given.short
            (messages-copy fresh src fd (suc n) bytes given.fits)

  pub post_buffer-Moved :
      (port : ℕ)
      → Ends
          (λ _ g. Moved w x v.cells (record x {
            heap = g;
            queued = x.queued ++ received_message bytes (pos 0) (suc n) port ∷ [];
          }))
          (post_buffer fresh w.hp port src (pos (suc n)) x.heap)
  unfolding post_buffer
  post_buffer-Moved port = rw (not_null given.src_ne) (
      weaken
        (post_bytes-appends x.heap w.hp w.s v.tail v.cells fresh port src (suc n) bytes v.queue
          given.new apart_list apart_src given.at_src given.fits)
        λ _ g put.
          grown-Moved w x v g (cell_of fresh (posted_inf port src (suc n)) bytes) _ put.1 put.2
            given.unused given.short (message-cell fresh port src (suc n) bytes given.fits))

read_node-ok : (h : Heap) (d : Cell) → IsDest h d → read_node d.node h ≡ ok (message d) h
unfolding read_node
read_node-ok h d dest =
    rw (load_node-ok dest.at_node, load_inf-ok dest.at_inf, load_buf-ok dest.at_buf)

-- The thread reads from its node the message that was taken.
message-filled : (d c : Cell) → c.data_len ≤ length c.bytes → message (filled d c) ≡ message c
message-filled d c fits =
    let size : length (take c.data_len c.bytes) ≡ c.data_len =
      omega (arith, length-take c.data_len c.bytes, fits) in
    ap (λ b. record { bytes = b; recv_fd = c.recv_fd; send_to = c.send_to })
      (take-append_length c.data_len (take c.data_len c.bytes) (drop c.data_len d.bytes) size)

module _ (w : Site) (x : Store) (v : Inv w x) (c : Cell) (cs : List Cell)
    (e : v.cells ≡ c ∷ cs) where
  Popped-Moved :
      (g : Heap)
      → IsQueue x.heap w.hp w.s v.tail (c ∷ cs)
      → Popped x.heap g w.hp w.s v.tail c cs (dest_of w v.reader)
      → c.data_len ≤ w.room
      → Moved w x v.cells (record x { heap = g; taken = x.taken ++ message c ∷ [] })
  Popped-Moved g q popped short =
      let a = subst (λ l. Disjoint (node_places w) (w.hp ∷ w.s ∷ foot l)) e v.apart in
      record {
        inv = record {
          tail = _;
          cells = cs;
          reader = record {
            pdata = (filled (dest_of w v.reader) c).bytes;
            data_len = c.data_len;
            recv_fd = c.recv_fd;
            send_to = c.send_to;
          };
          queue = popped.queue;
          dest = popped.dest;
          room = omega (
            arith,
            length-append (take c.data_len c.bytes) (drop c.data_len v.reader.pdata),
            length-take c.data_len c.bytes,
            length-drop c.data_len v.reader.pdata,
            q.links.1.fits,
            v.room,
            short,
          );
          apart = (
            (a.0.0, (a.0.1.0, a.0.1.1.1.1.1)),
            (
              (a.1.0.0, (a.1.0.1.0, a.1.0.1.1.1.1.1)),
              ((a.1.1.0.0, (a.1.1.0.1.0, a.1.1.0.1.1.1.1.1)), tt),
            ),
          );
          short = (subst (AllShort w.room) e v.short).1;
          in_order =
              v.in_order
              ∙ ap (λ l. x.taken ++ messages l) e
              ∙ sym (append_assoc x.taken (message c ∷ []) (messages cs));
        };
        frame = λ a full outside.
            let o = subst (λ l. NotIn a (footprint w l)) e outside in
            let rest = o.1.1.1.1.1 in
            (
              popped.same a (
                o.1.1.0,
                (o.1.0, (o.1.1.1.1.0, (o.1.1.1.0, (rest.0, (rest.1.0, (rest.1.1.0, tt)))))),
              ),
              (o.0, (o.1.0, (o.1.1.0, (o.1.1.1.0, (o.1.1.1.1.0, rest.1.1.1))))),
            );
      }

  -- Taking from a list that is not empty gives the oldest message.
  pub take_out-Moved :
      Ends
        (λ m g.
          (m ≡ message c) × Moved w x v.cells (record x { heap = g; taken = x.taken ++ m ∷ [] }))
        (take_out w.hp w.node x.heap)
  unfolding take_out
  take_out-Moved =
      let q = subst (IsQueue x.heap w.hp w.s v.tail) e v.queue in
      let a = subst (λ l. Disjoint (node_places w) (w.hp ∷ w.s ∷ foot l)) e v.apart in
      let short = (subst (AllShort w.room) e v.short).0 in
      seq
        (pop-Popped x.heap w.hp w.s v.tail c cs (dest_of w v.reader) q v.dest a
          (omega (arith, v.room, short)))
        λ _ g popped.
          rw
            (
              read_node-ok g (filled (dest_of w v.reader) c) popped.dest,
              message-filled (dest_of w v.reader) c q.links.1.fits,
            )
            (ends (refl, Popped-Moved g q popped short))
