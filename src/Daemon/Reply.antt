-- ===== src/Daemon/Reply.antt =====
-- `ready_send_data` of src/uart_start.c on a whole text.
use uart.Base.{
  ℕ, suc, ◌≡◌, ◌≢◌, refl, true, false, some, List, [], ◌∷◌, ◌++◌, arith, length, take,
  take_of_length, leb, ◌==◌, if◌then◌else◌, pos, negsuc,
}
use uart.Daemon.{Daemon, message, ready_send_data}

pub ready_send_data-queues :
    (port : ℕ) (src : List ℕ) (s : Daemon)
    → src ≢ []
    → ready_send_data true port (some src) (pos (length src)) s
      ≡ some (pos 0, record s { send_list = s.send_list ++ message src (pos 0) port ∷ [] })
unfolding ready_send_data
ready_send_data-queues port [] s ne = absurd (ne refl)
ready_send_data-queues port (x ∷ xs) s ne =
    let whole : leb (suc (length xs)) (suc (length xs)) ≡ true = ground arith in
    let all : take (suc (length xs)) (x ∷ xs) ≡ x ∷ xs =
      take_of_length (suc (length xs)) (x ∷ xs) (omega arith) in
    rw (whole, all)

-- Where its node can be allocated, a text is queued whole for the port that is named, behind what
-- is queued already, and the call returns 0. The empty text is refused with -1 and nothing changes.
pub ready_send_data_lem :
    (port : ℕ) (src : List ℕ) (s : Daemon)
    → ready_send_data true port (some src) (pos (length src)) s ≡ (
        if length src == 0
        then some (negsuc 0, s)
        else some (pos 0, record s { send_list = s.send_list ++ message src (pos 0) port ∷ [] }))
unfolding ready_send_data
ready_send_data_lem port [] s = refl
ready_send_data_lem port (x ∷ xs) s =
    let some_bytes : (suc (length xs) == 0) ≡ false = ground arith in
    rw some_bytes (ready_send_data-queues port (x ∷ xs) s (λ e. absurd cc))
