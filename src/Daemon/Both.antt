-- ===== src/Daemon/Both.antt =====
-- Both queues of src/uart_start.c in one memory: the calls on the one leave the other.
use uart.Base.{◌≡◌, ◌≢◌, sym, ◌∙◌, some, none, List, [], ◌∷◌}
use uart.Heap.{Ptr, Heap}
use uart.Heap.Freed.{Taken}
use uart.Heap.Places.{Same, Disjoint, Disjoint-sym}
use uart.Linklist.Shape.{Cell, IsQueue, Message}
use uart.Daemon.Store.{Store, Site, Call}
use uart.Daemon.Stored.{Inv, Moved, footprint, footprint-Taken, untouched}
use uart.Daemon.Kept.{IsStart, start_inv, Call-Moved, Stands, Inv-Stands}

-- The memory, and the histories of the receive queue and of the send queue.
pub record Memory : Type 0 where
  pub heap : Heap
  pub recv_queued : List Message
  pub recv_taken : List Message
  pub send_queued : List Message
  pub send_taken : List Message

abbrev pub recv_of : Memory → Store
recv_of b = record { heap = b.heap; queued = b.recv_queued; taken = b.recv_taken }

abbrev pub send_of : Memory → Store
send_of b = record { heap = b.heap; queued = b.send_queued; taken = b.send_taken }

-- A call on one of the queues, or a write of another thread to neither.
pub data Step (r s : Site) (b u : Memory) : Type 0 where
  recv_calls :
      (y : Store)
      → Call r (recv_of b) y
      → u ≡ record b { heap = y.heap; recv_queued = y.queued; recv_taken = y.taken }
      → Step r s b u
  send_calls :
      (y : Store)
      → Call s (send_of b) y
      → u ≡ record b { heap = y.heap; send_queued = y.queued; send_taken = y.taken }
      → Step r s b u
  elsewhere :
      (g : Heap)
      → ((t : Ptr) (cs : List Cell) → IsQueue b.heap r.hp r.s t cs → Same b.heap g (footprint r cs))
      → ((t : Ptr) (cs : List Cell) → IsQueue b.heap s.hp s.s t cs → Same b.heap g (footprint s cs))
      → u ≡ record b { heap = g }
      → Step r s b u

pub data Reach (r s : Site) (b : Memory) : Memory → Type 0 where
  here : Reach r s b b
  next : {t u : Memory} → Reach r s b t → Step r s t u → Reach r s b u

-- What is in memory and not of the list stays, and stays apart from it.
Moved-Same :
    (w : Site) (x y : Store) (cs : List Cell) (m : Moved w x cs y) (qs : List Ptr)
    → Taken x.heap qs
    → Disjoint qs (footprint w cs)
    → Same x.heap y.heap qs × Disjoint qs (footprint w m.inv.cells)
Moved-Same w x y cs m [] t d = (tt, tt)
Moved-Same w x y cs m (q ∷ qs) t d =
    let full : x.heap q ≢ none = λ e. let at : none ≡ some t.0.0 = sym e ∙ t.0.1.at in cc in
    let here = m.frame q full d.0 in
    let rest = Moved-Same w x y cs m qs t.1 d.1 in ((here.0, rest.0), (here.1, rest.1))

pub record BothInv (r s : Site) (b : Memory) : Type 0 where
  pub recv : Inv r (recv_of b)
  pub send : Inv s (send_of b)
  pub apart : Disjoint (footprint r recv.cells) (footprint s send.cells)

module _ {r s : Site} {b : Memory} (v : BothInv r s b) where
  recv_calls-Inv :
      (y : Store)
      → Call r (recv_of b) y
      → BothInv r s (record b { heap = y.heap; recv_queued = y.queued; recv_taken = y.taken })
  recv_calls-Inv y call =
      let m = Call-Moved r (recv_of b) v.recv call in
      let fs = footprint s v.send.cells in
      let (same, apart) =
        Moved-Same r (recv_of b) y v.recv.cells m fs (footprint-Taken s (send_of b) v.send)
          (Disjoint-sym (footprint r v.recv.cells) fs v.apart) in
      record {
        recv = m.inv;
        send = untouched s (send_of b) v.send y.heap same;
        apart = Disjoint-sym fs (footprint r m.inv.cells) apart;
      }

  send_calls-Inv :
      (y : Store)
      → Call s (send_of b) y
      → BothInv r s (record b { heap = y.heap; send_queued = y.queued; send_taken = y.taken })
  send_calls-Inv y call =
      let m = Call-Moved s (send_of b) v.send call in
      let fr = footprint r v.recv.cells in
      let (same, apart) =
        Moved-Same s (send_of b) y v.send.cells m fr (footprint-Taken r (recv_of b) v.recv)
          v.apart in
      record { recv = untouched r (recv_of b) v.recv y.heap same; send = m.inv; apart = apart }

  Step-BothInv : {u : Memory} → Step r s b u → BothInv r s u
  Step-BothInv (recv_calls y call e) = rw e (recv_calls-Inv y call)
  Step-BothInv (send_calls y call e) = rw e (send_calls-Inv y call)
  Step-BothInv (elsewhere g recv_same send_same e) = rw e (record {
    recv = untouched r (recv_of b) v.recv g (recv_same v.recv.tail v.recv.cells v.recv.queue);
    send = untouched s (send_of b) v.send g (send_same v.send.tail v.send.cells v.send.queue);
    apart = v.apart;
  })

Reach-BothInv :
    (r s : Site) {b u : Memory}
    → IsStart r (recv_of b)
    → IsStart s (send_of b)
    → Disjoint (footprint r []) (footprint s [])
    → Reach r s b u
    → BothInv r s u
Reach-BothInv r s {b} i j apart here = record {
  recv = start_inv r (recv_of b) i;
  send = start_inv s (send_of b) j;
  apart = apart;
}
Reach-BothInv r s i j apart (next reach st) = Step-BothInv (Reach-BothInv r s i j apart reach) st

-- Two queues that were new, with the nodes of their taking threads, at places apart in one memory;
-- and any order of the calls of the producers and the taking threads on them, with writes of other
-- threads elsewhere. In every memory that is reached, both lists are well formed; the messages of
-- each, behind those that its thread has read from its node, are the messages that were put into
-- it, in order, each once; and the next pop of each does not fault: the thread reads from its node
-- the oldest message, or the list is empty and nothing changes. Each message is taken to fit the
-- node's buffer, and `calloc` to return free addresses.
pub Reach-Stands :
    (r s : Site) {b u : Memory}
    → IsStart r (recv_of b)
    → IsStart s (send_of b)
    → Disjoint (footprint r []) (footprint s [])
    → Reach r s b u
    → Stands r (recv_of u) × Stands s (send_of u)
Reach-Stands r s {b} {u} i j apart reach =
    let v = Reach-BothInv r s i j apart reach in
    (Inv-Stands r (recv_of u) v.recv, Inv-Stands s (send_of u) v.send)
