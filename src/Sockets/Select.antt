-- ===== src/Sockets/Select.antt =====
-- `select_start` of src/epoll_server.c, which no other code calls: rounds of `select` on the serial
-- line alone, with what each round prints.
use uart.Base.{
  drop_of_length, append-nil, ◌∙◌, Bool-cases, inl, inr, ℕ, zero, suc, ◌-◌, ◌<◌, ◌≡◌, refl, ap,
  Bool, true, false, Option, none, some, List, [], ◌∷◌, ◌++◌, arith, length, drop, replicate,
  length-replicate, ◌==◌, ◌>>=◌,
}
use uart.Report.Answer.{text_in, before_zero, NoZero}

-- What `select` returns: -1, 0, or that a descriptor is ready, with whether it is the line and what
-- `read` gets from it, `none` where it fails.
pub data Selected : Type 0 where
  failed : Selected
  timed_out : Selected
  ready : (is_set : Bool) → (got : Option (List ℕ)) → Selected

pub data Line : Type 0 where
  select_failed : Line
  time_is_over : Line
  printed : List ℕ → Line

abbrev pub buf_size : ℕ
buf_size = 1024

-- `recv_buf` behind `memset` and `read`.
abbrev pub recv_buf : Option (List ℕ) → List ℕ
recv_buf none = replicate buf_size 0
recv_buf (some bytes) = bytes ++ drop (length bytes) (replicate buf_size 0)

-- `%s` reads on to a zero byte: past the end of the array, which is a fault, where there is none.
unfoldable pub select_round : Selected → Option (List Line)
unfolding text_in
select_round failed = some (select_failed ∷ [])
select_round timed_out = some (time_is_over ∷ [])
select_round (ready false got) = some []
select_round (ready true got) = do text ← text_in (recv_buf got); some (printed text ∷ [])

-- The rounds of the endless loop for these answers of the kernel.
unfoldable pub select_start : List Selected → Option (List Line)
unfolding select_round
select_start [] = some []
select_start (a ∷ answers) = do
  lines ← select_round a
  rest ← select_start answers
  some (lines ++ rest)

abbrev pub bytes_of : Option (List ℕ) → List ℕ
bytes_of none = []
bytes_of (some bytes) = bytes

-- What a round prints of an answer.
abbrev pub shown : Selected → List Line
shown failed = select_failed ∷ []
shown timed_out = time_is_over ∷ []
shown (ready false got) = []
shown (ready true got) = printed (before_zero (bytes_of got)) ∷ []

abbrev pub all_shown : List Selected → List Line
all_shown [] = []
all_shown (a ∷ answers) = shown a ++ all_shown answers

-- What is read leaves room for a zero byte.
abbrev pub IsShort : Selected → Type 0
IsShort (ready is_set (some bytes)) = length bytes < buf_size
IsShort _ = Unit {0}

abbrev pub AllShort : List Selected → Type 0
AllShort [] = Unit {0}
AllShort (a ∷ answers) = IsShort a × AllShort answers

text_in-zeros :
    (bytes : List ℕ) (n : ℕ) → text_in (bytes ++ replicate (suc n) 0) ≡ some (before_zero bytes)
unfolding text_in
text_in-zeros [] n = refl
text_in-zeros (b ∷ bs) n = elim (Bool-cases (b == 0)) [
  | inl is_zero ↦ rw is_zero
  | inr other ↦ rw (other, text_in-zeros bs n)
]

drop-zeros : (n k : ℕ) → drop {A = ℕ} n (replicate k 0) ≡ replicate (k - n) 0
drop-zeros zero k = let same : k ≡ k - zero = omega arith in ap (λ m. replicate m 0) same
drop-zeros (suc n) zero =
    let same : zero ≡ zero - suc n = omega arith in ap (λ m. replicate m 0) same
drop-zeros (suc n) (suc k) =
    let same : k - n ≡ suc k - suc n = omega arith in drop-zeros n k ∙ ap (λ m. replicate m 0) same

text_in-padded :
    (bytes : List ℕ) (room : ℕ)
    → length bytes < room
    → text_in (bytes ++ drop (length bytes) (replicate room 0)) ≡ some (before_zero bytes)
text_in-padded bytes room short =
    let left : room - length bytes ≡ suc (room - length bytes - 1) = omega (arith, short) in
    rw (drop-zeros (length bytes) room, left) (text_in-zeros bytes (room - length bytes - 1))

select_round-shown : (a : Selected) → IsShort a → select_round a ≡ some (shown a)
unfolding select_round
select_round-shown failed short = refl
select_round-shown timed_out short = refl
select_round-shown (ready false got) short = refl
select_round-shown (ready true none) short = refl
select_round-shown (ready true (some bytes)) short = rw (text_in-padded bytes buf_size short) refl

-- The rounds of `select_start` print, in order, an error for each -1, a notice for each 0, and for
-- each reading of the line its bytes up to the first zero byte, or nothing of them where `read`
-- fails. Each reading is taken to bring less than the array's 1024 bytes.
pub select_start-shown :
    (answers : List Selected) → AllShort answers → select_start answers ≡ some (all_shown answers)
unfolding select_start
select_start-shown [] short = refl
select_start-shown (a ∷ answers) short =
    rw (select_round-shown a short.0, select_start-shown answers short.1) refl

text_in-none : (bytes : List ℕ) → NoZero bytes → text_in bytes ≡ none
unfolding text_in
text_in-none [] n = refl
text_in-none (b ∷ bs) (ne, n) =
    let other : (b == 0) ≡ false = ground arith in rw (other, text_in-none bs n)

-- A reading that fills the array and has no zero byte is printed past the array's end.
pub select_round-overruns :
    (bytes : List ℕ)
    → length bytes ≡ buf_size
    → NoZero bytes
    → select_round (ready true (some bytes)) ≡ none
unfolding select_round
select_round-overruns bytes full n =
    let nothing_left : drop (length bytes) (replicate buf_size 0) ≡ [] =
      drop_of_length (length bytes) (replicate buf_size 0)
        (omega (arith, full, length-replicate {A = ℕ} buf_size 0)) in
    let all : recv_buf (some bytes) ≡ bytes =
      ap (λ r. bytes ++ r) nothing_left ∙ append-nil bytes in
    rw (all, text_in-none bytes n) refl
