-- ===== src/Linklist/Examples.antt =====
-- Heaps with a message queue, for the tests of the other files.
use uart.Base.{ℕ, List, refl, none, some, [], ◌∷◌, arith, pos}
use uart.Heap.{DataInf, Ptr, null, node, inf, buf, head, Heap, Holds, write}
use uart.Heap.Freed.{Freed}
use uart.Linklist.{Fresh}
use uart.Linklist.Shape.{Cell, IsQueue, IsLoose}
use uart.Linklist.Add.{IsFresh}
use uart.Linklist.Pop.{IsDest}

abbrev pub nothing : Heap
nothing a = none

-- The queue at 1 with the sentinel 2, and the message "usb" in the node 3.
abbrev pub queued : Cell
queued = record {
  node = 3;
  inf = 4;
  buf = 5;
  bytes = b'u' ∷ b's' ∷ b'b' ∷ [];
  data_len = 3;
  recv_fd = pos 9;
  send_to = 0;
}

-- A node of the consumer, with this buffer.
abbrev pub reader : List ℕ → Cell
reader room = record {
  node = 6;
  inf = 7;
  buf = 8;
  bytes = room;
  data_len = 0;
  recv_fd = pos 0;
  send_to = 0;
}

abbrev pub wide : List ℕ
wide = 0 ∷ 0 ∷ 0 ∷ 0 ∷ []

pub with_cell : Heap → Cell → (next : Ptr) → Heap
with_cell h c next =
    write
      (write (write h c.node (some (node (record { next = next; inf = c.inf })))) c.inf (
        some (
          inf (record {
            pdata = c.buf;
            data_len = c.data_len;
            recv_fd = c.recv_fd;
            send_to = c.send_to;
          }))))
      c.buf (some (buf c.bytes))

pub start : (d : Cell) → Heap
unfolding with_cell
start d =
    let h = with_cell (with_cell nothing queued 3) d 0 in
    write (write h 2 (some (node (record { next = 3; inf = null })))) 1
      (some (head (record { linklist_head = 2; linklist_tail = 3; linknode_count = 1 })))

pub empty : Heap
empty =
    write (write nothing 2 (some (node (record { next = 2; inf = null })))) 1
      (some (head (record { linklist_head = 2; linklist_tail = 2; linknode_count = 0 })))

pub start-IsQueue : (room : List ℕ) → IsQueue (start (reader room)) 1 2 3 (queued ∷ [])
unfolding start write
start-IsQueue room = record {
  at_head = record { at = refl };
  links = (
    record { at = refl },
    record {
      at_inf = record { at = refl };
      at_buf = record { at = refl };
      fits = omega arith;
      node_ne = omega arith;
      inf_ne = omega arith;
      buf_ne = omega arith;
    },
    (record { at = refl }, refl),
  );
  nodup = omega arith;
  head_ne = omega arith;
  sentinel_ne = omega arith;
}

pub empty-IsQueue : IsQueue empty 1 2 2 []
unfolding empty write
empty-IsQueue = record {
  at_head = record { at = refl };
  links = (record { at = refl }, refl);
  nodup = omega arith;
  head_ne = omega arith;
  sentinel_ne = omega arith;
}

pub reader-IsDest : (room : List ℕ) → IsDest (start (reader room)) (reader room)
unfolding start write
reader-IsDest room = record {
  next = 0;
  at_node = record { at = refl };
  at_inf = record { at = refl };
  at_buf = record { at = refl };
  node_ne = omega arith;
  inf_ne = omega arith;
}

pub spare-IsLoose : IsLoose (start (reader wide)) (reader wide)
unfolding start write
spare-IsLoose = record {
  next = 0;
  at_node = record { at = refl };
  owns = record {
    at_inf = record { at = refl };
    at_buf = record { at = refl };
    fits = omega arith;
    node_ne = omega arith;
    inf_ne = omega arith;
    buf_ne = omega arith;
  };
}

abbrev pub addresses : (buf_at : Ptr) → Fresh
addresses buf_at = record { node = 3; inf = 4; buf = buf_at }

abbrev pub usb_inf : DataInf
usb_inf = record { pdata = 21; data_len = 3; recv_fd = pos 9; send_to = 2 }

-- An empty queue, the consumer's node, and the message "usb" in the `data_inf` at 20.
pub posted : Heap
unfolding with_cell empty
posted =
    write (write (with_cell empty (reader wide) 0) 20 (some (inf usb_inf))) 21
      (some (buf (b'u' ∷ b's' ∷ b'b' ∷ [])))

pub posted-IsQueue : IsQueue posted 1 2 2 []
unfolding posted write
posted-IsQueue = record {
  at_head = record { at = refl };
  links = (record { at = refl }, refl);
  nodup = omega arith;
  head_ne = omega arith;
  sentinel_ne = omega arith;
}

pub posted-IsDest : IsDest posted (reader wide)
unfolding posted write
posted-IsDest = record {
  next = 0;
  at_node = record { at = refl };
  at_inf = record { at = refl };
  at_buf = record { at = refl };
  node_ne = omega arith;
  inf_ne = omega arith;
}

pub posted-inf : Holds posted 20 (inf usb_inf)
unfolding posted write
posted-inf = record { at = refl }

pub posted-buf : Holds posted 21 (buf (b'u' ∷ b's' ∷ b'b' ∷ []))
unfolding posted write
posted-buf = record { at = refl }

pub addresses-IsFresh : IsFresh (addresses 5)
addresses-IsFresh = record {
  node_ne = omega arith;
  inf_ne = omega arith;
  buf_ne = omega arith;
  node_inf = omega arith;
  node_buf = omega arith;
  inf_buf = omega arith;
}

pub posted-Freed : Freed posted (3 ∷ 4 ∷ 5 ∷ [])
unfolding posted empty with_cell write
posted-Freed = (refl, (refl, (refl, tt)))
