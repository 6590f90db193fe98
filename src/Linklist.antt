-- ===== src/Linklist.antt =====
-- The message queue of src/linklist.c: a singly linked list behind a sentinel node, whose last
-- node links to itself. A function whose mutex section is its whole access to the list is one
-- step. `err` and `printf` write only to the log.
pub mod Shape
pub mod Alloc
pub mod Insert
pub mod Pop
pub mod Dequeue
pub mod Destroy
pub mod Round
pub mod Clear
pub mod Add
pub mod Examples
mod Tests
use uart.Base.{
  ℕ, zero, suc, ◌+◌, ◌-◌, Bool, true, false, none, some, replicate, ◌==◌, if◌then◌else◌, ◌||◌, ℤ,
  pos,
}
use uart.Heap.{
  Ptr, null, DataInf, Node, Head, node, inf, buf, head, out_of_fuel, Cmd, pure, ◌>>=◌, ◌>>◌,
  load_node, load_inf, load_buf, load_head, put, store_node, store_inf, store_head, memcpy, free,
  calloc,
}

-- `enum port`
abbrev pub port_duer : ℕ
port_duer = 1

abbrev pub port_uart : ℕ
port_uart = 2

unfoldable pub is_singlelinklist_empty : Ptr → Cmd Bool
is_singlelinklist_empty hp = do hd ← load_head hp; pure (hd.linknode_count == 0)

-- The part of `singlelinklist_destory_node` under `datanode->data != NULL`.
destory_inf : Ptr → Cmd (Unit {0})
destory_inf ip = do
  d ← load_inf ip
  (if d.pdata == null then pure tt else free d.pdata >> store_inf ip (record d { pdata = null }))
  free ip

unfoldable pub singlelinklist_destory_node : Ptr → Cmd (Unit {0})
unfolding destory_inf
singlelinklist_destory_node p = if p == null then pure tt else do
  n ← load_node p
  (if n.inf == null then pure tt else destory_inf n.inf >> store_node p (record n { inf = null }))
  free p

-- The copy of `data_len`, `recv_fd` and `send_to` in `singlelinklist_pop_node`.
abbrev pub copied : (src dest : DataInf) → DataInf
copied src dest = record dest {
  data_len = src.data_len;
  recv_fd = src.recv_fd;
  send_to = src.send_to;
}

-- The assignments under `linknode_count == 0`: `hd` is `*head` and `s` the sentinel, each with
-- the fields that these do not set.
unfoldable pub reset : (hp : Ptr) → Head → Node → Cmd (Unit {0})
reset hp hd s = do
  store_head hp (record hd { linknode_count = 0; linklist_tail = hd.linklist_head })
  store_node hd.linklist_head (record s { next = hd.linklist_head })

-- The copies in `singlelinklist_pop_node`, from the node at `x` to the `data_inf` at `di`.
pub copy_out : (x di : Ptr) → Cmd (Unit {0})
copy_out x di = do
  n ← load_node x
  src ← load_inf n.inf
  dest ← load_inf di
  memcpy dest.pdata src.pdata src.data_len
  store_inf di (copied src dest)

-- Its assignments to the list: `hd` is `*head`, `s` the sentinel and `x` the first node.
pub unlink : (hp : Ptr) → Head → (s x : Node) → Cmd (Unit {0})
unlink hp hd s x = do
  store_node hd.linklist_head (record s { next = x.next })
  store_head hp (record hd { linknode_count = hd.linknode_count - 1 })
  if hd.linknode_count - 1 == 0 then reset hp hd s else pure tt

-- The part of `singlelinklist_pop_node` behind its three guards: `hd` is `*head`, and `di` is
-- `datanode->data`.
pub pop_first : (hp : Ptr) → Head → (di : Ptr) → Cmd (Unit {0})
unfolding copy_out unlink reset
pop_first hp hd di = do
  s ← load_node hd.linklist_head
  copy_out s.next di
  x ← load_node s.next
  unlink hp hd s x
  singlelinklist_destory_node s.next

unfoldable pub singlelinklist_pop_node : (hp datanode : Ptr) → Cmd (Unit {0})
unfolding pop_first
singlelinklist_pop_node hp datanode = if (datanode == null) || (hp == null) then pure tt else do
  hd ← load_head hp
  if hd.linknode_count == 0
      then pure tt
      else do d ← load_node datanode; if d.inf == null then pure tt else pop_first hp hd d.inf

-- What the three calls of `calloc` in `singlelinklist_init_node` return.
pub record Fresh : Type 0 where
  pub node : Ptr
  pub inf : Ptr
  pub buf : Ptr

unfoldable pub singlelinklist_init_node : Fresh → (buf_len : ℕ) → Cmd Ptr
singlelinklist_init_node fresh buf_len = do
  p ← calloc fresh.node (node (record { next = null; inf = null }))
  if p == null then pure null else do
    i ← calloc fresh.inf (inf (record { pdata = null; data_len = 0; recv_fd = pos 0; send_to = 0 }))
    store_node p (record { next = null; inf = i })
    if i == null then free p >> pure null else do
      b ← calloc fresh.buf (buf (replicate buf_len 0))
      store_inf i (record { pdata = b; data_len = 0; recv_fd = pos 0; send_to = 0 })
      if b == null then free i >> free p >> pure null else pure p

unfoldable pub singlelinklist_insert_node : (hp datanode : Ptr) → Cmd (Unit {0})
singlelinklist_insert_node hp datanode = if (datanode == null) || (hp == null) then pure tt else do
  hd ← load_head hp
  t ← load_node hd.linklist_tail
  store_node hd.linklist_tail (record t { next = datanode })
  store_head hp (record hd { linklist_tail = datanode })
  n ← load_node datanode
  store_node datanode (record n { next = datanode })
  store_head hp (record hd { linklist_tail = datanode; linknode_count = hd.linknode_count + 1 })

-- One round of the loop of `destory_singlelinklist` behind its test, where `hd` is `*head`;
-- `tmp->data->pdata` is read for the log.
unfoldable pub destory_first : (hp : Ptr) → Head → Cmd (Unit {0})
unfolding reset
destory_first hp hd = do
  s ← load_node hd.linklist_head
  x ← load_node s.next
  d ← load_inf x.inf
  load_buf d.pdata
  store_node hd.linklist_head (record s { next = x.next })
  store_head hp (record hd { linknode_count = hd.linknode_count - 1 })
  singlelinklist_destory_node s.next
  if hd.linknode_count - 1 == 0
      then reset hp hd s >> singlelinklist_destory_node hd.linklist_head
      else pure tt

unfoldable pub destory_loop : (fuel : ℕ) → Ptr → Cmd (Unit {0})
destory_loop zero hp = λ _. out_of_fuel
destory_loop (suc k) hp = do
  hd ← load_head hp
  if hd.linknode_count == 0 then pure tt else destory_first hp hd >> destory_loop k hp

unfoldable pub destory_singlelinklist : (fuel : ℕ) → Ptr → Cmd (Unit {0})
destory_singlelinklist fuel hp = if hp == null then pure tt else do
  hd ← load_head hp
  if hd.linklist_head == null then pure tt else destory_loop fuel hp >> free hp

-- `got_mutex` says whether `pthread_mutex_init` succeeds.
unfoldable pub init_singlelinklist : (fresh_node fresh_head : Ptr) (got_mutex : Bool) → Cmd Ptr
init_singlelinklist fresh_node fresh_head got_mutex = do
  s ← calloc fresh_node (node (record { next = null; inf = null }))
  if s == null then pure null else do
    hp ←
        calloc fresh_head
          (head (record { linklist_head = null; linklist_tail = null; linknode_count = 0 }))
    if hp == null then pure null else do
      store_head hp (record { linklist_head = s; linklist_tail = s; linknode_count = 0 })
      store_node s (record { next = s; inf = null })
      if got_mutex then pure hp else pure null

-- A node with a copy of the message `d` is put at the end of the list, if it can be made. The port is
-- not copied.
unfoldable pub add_copy : Fresh → (hp : Ptr) → DataInf → Cmd Bool
add_copy fresh hp d = do
  p ← singlelinklist_init_node fresh d.data_len
  if p == null then pure false else do
    n ← load_node p
    i ← load_inf n.inf
    store_inf n.inf (record i { recv_fd = d.recv_fd; data_len = d.data_len })
    memcpy i.pdata d.pdata d.data_len
    singlelinklist_insert_node hp p
    pure true

-- The result says whether the call returns 0. `dp` is the caller's `data_inf`.
unfoldable pub add_data_to_linklist : Fresh → (hp dp : Ptr) → Cmd Bool
unfolding add_copy
add_data_to_linklist fresh hp dp = do d ← load_inf dp; add_copy fresh hp d
