-- ===== src/Daemon/Parse/Words.antt =====
-- The words of the tables of src/uart_protocol.c, and the answers that a text asks for.
use uart.Base.{
  ℕ, zero, suc, ◌≡◌, ◌≢◌, refl, ap, Bool, true, false, List, [], ◌∷◌, ◌++◌, arith, drop, replicate,
  ◌==◌, ◌&&◌, if◌then◌else◌, ℤ, int_eq,
}
use uart.Linklist.Shape.{Message}
use uart.Daemon.Parse.{Env, process_at_time_cmd, pipe_usboul_handler, reply, is_prefix}

abbrev pub time_word : List ℕ
time_word = b't' ∷ b'i' ∷ b'm' ∷ b'e' ∷ []

abbrev pub usb_word : List ℕ
usb_word = b'u' ∷ b's' ∷ b'b' ∷ []

-- The answers to a text from the serial line, from the pipe, or from elsewhere.
abbrev pub answers_to : (is_uart is_pipe : Bool) → Env → List ℕ → List Message
answers_to true is_pipe env text =
    if is_prefix time_word text then reply process_at_time_cmd env ∷ [] else []
answers_to false true env text =
    if is_prefix usb_word text then reply pipe_usboul_handler env ∷ [] else []
answers_to false false env text = []

abbrev pub answers : (uart_fd pipe_fd : ℤ) → Env → Message → List Message
answers uart_fd pipe_fd env m =
    answers_to (int_eq m.recv_fd uart_fd) (int_eq m.recv_fd pipe_fd) env m.bytes

-- The words end before a zero byte does: zeros behind a text make no difference.
abbrev pub AllZero : List ℕ → Type 0
AllZero [] = Unit {0}
AllZero (b ∷ bs) = (b ≡ 0) × AllZero bs

abbrev NoZero : List ℕ → Type 0
NoZero [] = Unit {0}
NoZero (b ∷ bs) = (b ≢ 0) × NoZero bs

is_prefix-padded :
    (word text zeros : List ℕ)
    → NoZero word
    → AllZero zeros
    → is_prefix word (text ++ zeros) ≡ is_prefix word text
is_prefix-padded [] text zeros n z = refl
is_prefix-padded (w ∷ ws) [] [] n z = refl
is_prefix-padded (w ∷ ws) [] (b ∷ bs) (n, _) (z, _) =
    let other : (w == b) ≡ false = ground arith in rw other
is_prefix-padded (w ∷ ws) (b ∷ bs) zeros (_, n) z =
    ap (λ c. (w == b) && c) (is_prefix-padded ws bs zeros n z)

pub answers_to-padded :
    (is_uart is_pipe : Bool) (env : Env) (text zeros : List ℕ)
    → AllZero zeros
    → answers_to is_uart is_pipe env (text ++ zeros) ≡ answers_to is_uart is_pipe env text
answers_to-padded true is_pipe env text zeros z =
    ap (λ b. if b then reply process_at_time_cmd env ∷ [] else [])
      (is_prefix-padded time_word text zeros ((λ e. cc), ((λ e. cc), ((λ e. cc), ((λ e. cc), tt))))
        z)
answers_to-padded false true env text zeros z =
    ap (λ b. if b then reply pipe_usboul_handler env ∷ [] else [])
      (is_prefix-padded usb_word text zeros ((λ e. cc), ((λ e. cc), ((λ e. cc), tt))) z)
answers_to-padded false false env text zeros z = refl

drop-nil : (n : ℕ) → drop {A = ℕ} n [] ≡ []
drop-nil zero = refl
drop-nil (suc n) = refl

pub drop-AllZero : (n k : ℕ) → AllZero (drop n (replicate k 0))
drop-AllZero n zero = rw (drop-nil n) tt
drop-AllZero zero (suc k) = (refl, drop-AllZero zero k)
drop-AllZero (suc n) (suc k) = drop-AllZero n k
