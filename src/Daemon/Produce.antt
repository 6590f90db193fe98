-- ===== src/Daemon/Produce.antt =====
-- The receiving handlers of src/uart_start.c on the linked list in memory: the part behind `read`,
-- where the local array `recv_buf` is an object at the address `src`.
use uart.Base.{
  Option, ℕ, zero, suc, ◌≤◌, ◌≡◌, refl, sym, ap, ◌∙◌, Bool, true, false, some, List, [], ◌∷◌, ◌++◌,
  arith, length, take, take_of_length, leb, length-take, ℤ,
}
use uart.Heap.{Ptr, Heap, Holds, buf, Cmd, pure, DataInf}
use uart.Heap.Ends.{Ends, ends, weaken}
use uart.Heap.Places.{Disjoint, NotIn}
use uart.Linklist.{Fresh, add_copy}
use uart.Linklist.Shape.{Cell, foot, IsQueue, messages}
use uart.Linklist.Add.{IsFresh, places, copy_of, add_copy-appends}
use uart.Daemon.{Daemon, message}
use uart.Daemon.Receive.{queue_received}

-- What the handler sets of the new node, and the array that it copies.
abbrev pub received_inf : (src : Ptr) → (fd : ℤ) → (ret : ℕ) → DataInf
received_inf src fd ret = record { pdata = src; data_len = ret; recv_fd = fd; send_to = 0 }

-- Whether a node is queued. A null node ends the handler.
unfoldable pub queue_buffer : Fresh → (recv_list src : Ptr) → (fd : ℤ) → (ret : ℕ) → Cmd Bool
queue_buffer fresh recv_list src fd zero = pure false
queue_buffer fresh recv_list src fd (suc n) = add_copy fresh recv_list (received_inf src fd (suc n))

-- The memory holds, as a well-formed list at `hp`, the receive queue that the daemon has.
pub record Queued (hp s : Ptr) (out : Option Daemon) (g : Heap) : Type 0 where
  pub tail : Ptr
  pub cells : List Cell
  pub queue : IsQueue g hp s tail cells
  pub after : Daemon
  pub same : out ≡ some after
  pub list : after.recv_list ≡ messages cells

pub messages-append :
    (cs : List Cell) (c : Cell) → messages (cs ++ c ∷ []) ≡ messages cs ++ messages (c ∷ [])
messages-append [] c = refl
messages-append (x ∷ cs) c = ap (λ ms. messages (x ∷ []) ++ ms) (messages-append cs c)

pub messages-copy :
    (fresh : Fresh) (src : Ptr) (fd : ℤ) (n : ℕ) (bytes : List ℕ)
    → n ≤ length bytes
    → messages (copy_of fresh (received_inf src fd n) bytes ∷ []) ≡ message (take n bytes) fd 0 ∷ []
messages-copy fresh src fd n bytes h =
    ap (λ b. message b fd 0 ∷ [])
      (take_of_length n (take n bytes) (omega (arith, length-take n bytes)))

-- On a well-formed list that stands for the daemon's receive queue, with memory for a node and at
-- most as many bytes read as the array has, the handler's calls end, and leave a well-formed list
-- that stands for the queue that the daemon's `queue_received` leaves.
pub queue_buffer-Queued :
    (h : Heap) (hp s t : Ptr) (cs : List Cell) (fresh : Fresh) (src : Ptr) (bytes : List ℕ) (fd : ℤ)
    (ret : ℕ) (d : Daemon)
    → IsQueue h hp s t cs
    → d.recv_list ≡ messages cs
    → IsFresh fresh
    → Disjoint (places fresh) (hp ∷ s ∷ foot cs)
    → NotIn src (places fresh)
    → Holds h src (buf bytes)
    → ret ≤ length bytes
    → Ends
        (λ _ g. Queued hp s (queue_received true fd bytes ret d) g)
        (queue_buffer fresh hp src fd ret h)
unfolding queue_buffer queue_received
queue_buffer-Queued h hp s t cs fresh src bytes fd zero d q stands new out away at_src fits =
    ends (record { tail = t; cells = cs; queue = q; after = d; same = refl; list = stands })
queue_buffer-Queued h hp s t cs fresh src bytes fd (suc n) d q stands new out away at_src fits =
    let i = received_inf src fd (suc n) in
    let c = copy_of fresh i bytes in
    let in_bounds : leb (suc n) (length bytes) ≡ true = ground arith in
    weaken (add_copy-appends h hp s t cs fresh i bytes q new out away at_src fits) λ _ g put.
      record {
        tail = fresh.node;
        cells = cs ++ c ∷ [];
        queue = put.1;
        after = record d { recv_list = d.recv_list ++ message (take (suc n) bytes) fd 0 ∷ [] };
        same = rw in_bounds;
        list =
            ap (λ ms. ms ++ message (take (suc n) bytes) fd 0 ∷ []) stands
            ∙ ap (λ ms. messages cs ++ ms) (sym (messages-copy fresh src fd (suc n) bytes fits))
            ∙ sym (messages-append cs c);
      }
