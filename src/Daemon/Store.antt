-- ===== src/Daemon/Store.antt =====
-- One of the two queues of src/uart_start.c as the linked list in memory, with its producers and
-- the thread that takes from it.
use uart.Base.{ℕ, ◌≤◌, ◌≡◌, ◌≢◌, Bool, List, [], ◌∷◌, ◌++◌, length, take, ℤ, pos, negsuc, suc}
use uart.Heap.{
  Ptr, null, Head, head, buf, Heap, Holds, Cmd, pure, ok, ◌>>=◌, ◌>>◌, load_node, load_inf,
  load_buf, store_inf, memset,
}
use uart.Heap.Freed.{Freed}
use uart.Linklist.{Fresh, singlelinklist_pop_node}
use uart.Linklist.Shape.{Message}
use uart.Linklist.Add.{IsFresh, places}
use uart.Daemon.{message}
use uart.Daemon.Produce.{queue_buffer}
use uart.Daemon.Send.{post_buffer}

-- What the thread reads from its node.
unfoldable pub read_node : (datanode : Ptr) → Cmd Message
read_node datanode = do
  x ← load_node datanode
  d ← load_inf x.inf
  b ← load_buf d.pdata
  pure (message (take d.data_len b) d.recv_fd d.send_to)

unfoldable pub take_out : (hp datanode : Ptr) → Cmd Message
unfolding read_node
take_out hp datanode = singlelinklist_pop_node hp datanode >> read_node datanode

-- `send_out_handler` clears its node behind the sending.
unfoldable pub clear_node : (datanode : Ptr) → (room : ℕ) → Cmd (Unit {0})
clear_node datanode room = do
  x ← load_node datanode
  d ← load_inf x.inf
  memset d.pdata 0 room
  store_inf x.inf (record d { data_len = 0; recv_fd = negsuc 0 })

-- `data_process` clears its node's bytes before it takes a message.
unfoldable pub clear_bytes : (datanode : Ptr) → (room : ℕ) → Cmd (Unit {0})
clear_bytes datanode room = do x ← load_node datanode; d ← load_inf x.inf; memset d.pdata 0 room

-- The memory, and the history: the messages that were put in, and those that were taken out.
pub record Store : Type 0 where
  pub heap : Heap
  pub queued : List Message
  pub taken : List Message

-- The list at `hp` with the sentinel `s`, and the taking thread's node, with room for so many bytes.
pub record Site : Type 0 where
  pub hp : Ptr
  pub s : Ptr
  pub node : Ptr
  pub inf : Ptr
  pub buf : Ptr
  pub room : ℕ

abbrev pub node_places : Site → List Ptr
node_places w = w.node ∷ w.inf ∷ w.buf ∷ []

-- A producer's array at `src` with its bytes, of which it puts in `n`, and free places for a node.
pub record Given (h : Heap) (fresh : Fresh) (src : Ptr) (bytes : List ℕ) (n room : ℕ) : Type 0 where
  pub at_src : Holds h src (buf bytes)
  pub src_ne : src ≢ null
  pub fits : n ≤ length bytes
  pub short : n ≤ room
  pub new : IsFresh fresh
  pub unused : Freed h (places fresh)

-- A call that ends. The receiving handlers put in what they read, if it is anything; nodes for it
-- can be allocated.
pub data Call (w : Site) (x y : Store) : Type 0 where
  receives :
      (fresh : Fresh) (src : Ptr) (bytes : List ℕ) (fd : ℤ) (n : ℕ) (r : Bool) (g : Heap)
      → Given x.heap fresh src bytes (suc n) w.room
      → queue_buffer fresh w.hp src fd (suc n) x.heap ≡ ok r g
      → y ≡ record x { heap = g; queued = x.queued ++ message (take (suc n) bytes) fd 0 ∷ [] }
      → Call w x y
  posts :
      (fresh : Fresh) (port : ℕ) (src : Ptr) (bytes : List ℕ) (n : ℕ) (r : ℤ) (g : Heap)
      → Given x.heap fresh src bytes (suc n) w.room
      → post_buffer fresh w.hp port src (pos (suc n)) x.heap ≡ ok r g
      → y
        ≡ record x { heap = g; queued = x.queued ++ message (take (suc n) bytes) (pos 0) port ∷ [] }
      → Call w x y
  takes :
      (hd : Head) (m : Message) (g : Heap)
      → Holds x.heap w.hp (head hd)
      → hd.linknode_count ≢ 0
      → take_out w.hp w.node x.heap ≡ ok m g
      → y ≡ record x { heap = g; taken = x.taken ++ m ∷ [] }
      → Call w x y
  finds_none :
      (hd : Head) (g : Heap)
      → Holds x.heap w.hp (head hd)
      → hd.linknode_count ≡ 0
      → singlelinklist_pop_node w.hp w.node x.heap ≡ ok tt g
      → y ≡ record x { heap = g }
      → Call w x y
  clears :
      (g : Heap)
      → clear_node w.node w.room x.heap ≡ ok tt g
      → y ≡ record x { heap = g }
      → Call w x y
  clears_bytes :
      (g : Heap)
      → clear_bytes w.node w.room x.heap ≡ ok tt g
      → y ≡ record x { heap = g }
      → Call w x y
