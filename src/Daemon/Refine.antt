-- ===== src/Daemon/Refine.antt =====
-- The queue of messages of the daemon stands for the linked list of src/linklist.c in memory.
use uart.Base.{
  ◌≤◌, ◌≡◌, refl, inl, inr, Bool-cases, Option, none, some, List, [], ◌∷◌, arith, length, take, leb,
  length-take, if◌then◌else◌,
}
use uart.Heap.{Ptr, Heap, Run, ok, fault}
use uart.Heap.Ends.{Ends, ends}
use uart.Heap.Places.{Disjoint}
use uart.Linklist.{singlelinklist_pop_node}
use uart.Linklist.Shape.{Cell, foot, IsQueue, Message, messages}
use uart.Linklist.Pop.{IsDest, filled}
use uart.Linklist.Dequeue.{Popped, pop-Popped, pop-overflow, pop-empty}
use uart.Daemon.{Reader, pop_node}

-- What a consumer's node holds.
abbrev pub reader_of : Cell → Reader
reader_of d = record {
  pdata = d.bytes;
  data_len = d.data_len;
  recv_fd = d.recv_fd;
  send_to = d.send_to;
}

-- The call on the list in memory ends as the call on the messages does: both with a fault, or both
-- with the same messages left, in order, and the same contents of the consumer's node.
pub data Simulates (hp s : Ptr) : Option (List Message × Reader) → Run (Unit {0}) → Type 0 where
  both_fault : Simulates hp s none fault
  both_end :
      {a : Unit {0}} {g : Heap} (t : Ptr) (cs : List Cell) (d : Cell)
      → IsQueue g hp s t cs
      → IsDest g d
      → Simulates hp s (some (messages cs, reader_of d)) (ok a g)

Popped-Simulates :
    {h : Heap} {hp s t : Ptr} {c : Cell} {cs : List Cell} {d : Cell} {r : Run (Unit {0})}
    → Ends (λ _ g. Popped h g hp s t c cs d) r
    → Simulates hp s (some (messages cs, reader_of (filled d c))) r
Popped-Simulates {t = t} {c = c} {cs = cs} {d = d} (ends p) =
    both_end _ cs (filled d c) p.queue p.dest

-- The abstract call on a queue that is not empty.
pop_node-filled :
    (c : Cell) (cs : List Cell) (d : Cell)
    → c.data_len ≤ length c.bytes
    → pop_node (messages (c ∷ cs)) (reader_of d) ≡ (
        if leb c.data_len (length d.bytes)
        then some (messages cs, reader_of (filled d c))
        else none)
unfolding pop_node
pop_node-filled c cs d fits =
    let whole : length (take c.data_len c.bytes) ≡ c.data_len =
      omega (arith, length-take c.data_len c.bytes, fits) in
    rw whole refl

pop_node-nil : (r : Reader) → pop_node [] r ≡ some ([], r)
unfolding pop_node
pop_node-nil r = refl

-- On every well-formed list in memory, and every node outside it with a buffer,
-- `singlelinklist_pop_node` does to the memory what the daemon's `pop_node` does to the messages:
-- it faults exactly where that does, and otherwise leaves a well-formed list of the messages that
-- are left and the node with what was taken.
pub pop_node-Simulates :
    (h : Heap) (hp s t : Ptr) (cs : List Cell) (d : Cell)
    → IsQueue h hp s t cs
    → IsDest h d
    → Disjoint (foot (d ∷ [])) (hp ∷ s ∷ foot cs)
    → Simulates hp s (pop_node (messages cs) (reader_of d)) (singlelinklist_pop_node hp d.node h)
pop_node-Simulates h hp s t [] d q dest out =
    rw (pop_node-nil (reader_of d), pop-empty h hp s t d.node q) (both_end t [] d q dest)
pop_node-Simulates h hp s t (c ∷ cs) d q dest out =
    elim (Bool-cases (leb c.data_len (length d.bytes))) [
      | inl room ↦
          rw (pop_node-filled c cs d q.links.1.fits, room)
            (Popped-Simulates (pop-Popped h hp s t c cs d q dest out (ground arith)))
      | inr no_room ↦
          rw
            (
              pop_node-filled c cs d q.links.1.fits,
              no_room,
              pop-overflow h hp s t c cs d q dest (ground arith),
            )
            both_fault
    ]
