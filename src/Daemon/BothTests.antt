-- ===== src/Daemon/BothTests.antt =====
-- Both queues in one memory: a handler puts "us" into the receive queue, and `ready_send_data`
-- "usb" into the send queue.
use uart.Base.{ℕ, ◌≡◌, refl, Bool, none, some, List, [], ◌∷◌, arith, pos}
use uart.Heap.{null, node, inf, buf, head, Heap, write, ok}
use uart.Heap.Ends.{Ends-runs}
use uart.Linklist.{Fresh}
use uart.Linklist.Shape.{inf_of}
use uart.Daemon.{Reader, message}
use uart.Daemon.Produce.{queue_buffer}
use uart.Daemon.Store.{Site, Given, receives}
use uart.Daemon.Stored.{dest_of}
use uart.Daemon.Takes.{queue_buffer-Moved}
use uart.Daemon.Kept.{IsStart, start_inv, Stands}
use uart.Daemon.Both.{Memory, recv_of, send_of, recv_calls, Reach, here, next, Reach-Stands}

abbrev recv_site : Site
recv_site = record { hp = 1; s = 2; node = 3; inf = 4; buf = 5; room = 4 }

abbrev send_site : Site
send_site = record { hp = 11; s = 12; node = 13; inf = 14; buf = 15; room = 4 }

abbrev blank : Reader
blank = record { pdata = 0 ∷ 0 ∷ 0 ∷ 0 ∷ []; data_len = 0; recv_fd = pos 0; send_to = 0 }

-- An empty list with the node of its taking thread.
abbrev with_site : Heap → Site → Heap
with_site h w =
    let d = dest_of w blank in
    write
      (write
        (write
          (write
            (write h w.hp (
              some
                (head (record { linklist_head = w.s; linklist_tail = w.s; linknode_count = 0 }))))
            w.s (some (node (record { next = w.s; inf = null }))))
          w.node (some (node (record { next = null; inf = w.inf }))))
        w.inf (some (inf (inf_of d))))
      w.buf (some (buf d.bytes))

abbrev usb : List ℕ
usb = b'u' ∷ b's' ∷ b'b' ∷ []

abbrev heap : Heap
heap = write (with_site (with_site (λ _. none) recv_site) send_site) 20 (some (buf usb))

abbrev memory : Memory
memory = record {
  heap = heap;
  recv_queued = [];
  recv_taken = [];
  send_queued = [];
  send_taken = [];
}

recv-IsStart : IsStart recv_site (recv_of memory)
unfolding write
recv-IsStart = record {
  queue = record {
    at_head = record { at = refl };
    links = (record { at = refl }, refl);
    nodup = omega arith;
    head_ne = omega arith;
    sentinel_ne = omega arith;
  };
  reader = blank;
  dest = record {
    next = null;
    at_node = record { at = refl };
    at_inf = record { at = refl };
    at_buf = record { at = refl };
    node_ne = omega arith;
    inf_ne = omega arith;
  };
  room = refl;
  apart = omega arith;
  none_queued = refl;
  none_taken = refl;
}

send-IsStart : IsStart send_site (send_of memory)
unfolding write
send-IsStart = record {
  queue = record {
    at_head = record { at = refl };
    links = (record { at = refl }, refl);
    nodup = omega arith;
    head_ne = omega arith;
    sentinel_ne = omega arith;
  };
  reader = blank;
  dest = record {
    next = null;
    at_node = record { at = refl };
    at_inf = record { at = refl };
    at_buf = record { at = refl };
    node_ne = omega arith;
    inf_ne = omega arith;
  };
  room = refl;
  apart = omega arith;
  none_queued = refl;
  none_taken = refl;
}

abbrev fresh : Fresh
fresh = record { node = 23; inf = 24; buf = 25 }

read_two : Given heap fresh 20 usb 2 4
unfolding write
read_two = record {
  at_src = record { at = refl };
  src_ne = omega arith;
  fits = omega arith;
  short = omega arith;
  new = record {
    node_ne = omega arith;
    inf_ne = omega arith;
    buf_ne = omega arith;
    node_inf = omega arith;
    node_buf = omega arith;
    inf_buf = omega arith;
  };
  unused = (refl, (refl, (refl, tt)));
}

abbrev handled : (r : Bool) × (g : Heap) × (queue_buffer fresh 1 20 (pos 4) 2 heap ≡ ok r g)
handled =
    let v = start_inv recv_site (recv_of memory) recv-IsStart in
    let (r, g, runs, _) =
      Ends-runs (queue_buffer-Moved recv_site (recv_of memory) v fresh 20 usb 1 read_two (pos 4)) in
    (r, g, runs)

abbrev one_queued : Memory
one_queued = record memory {
  heap = handled.1;
  recv_queued = message (b'u' ∷ b's' ∷ []) (pos 4) 0 ∷ [];
}

one_queued-Reach : Reach recv_site send_site memory one_queued
one_queued-Reach = next here (
    recv_calls (recv_of one_queued) (receives fresh 20 usb (pos 4) 1 _ _ read_two handled.2 refl)
      refl)

Reach-Stands_example : Stands recv_site (recv_of one_queued) × Stands send_site (send_of one_queued)
Reach-Stands_example =
    Reach-Stands recv_site send_site recv-IsStart send-IsStart (omega arith) one_queued-Reach
