-- ===== src/Files/Lines.antt =====
-- The file helpers of src/uart_protocol.c on a file of lines.
use uart.Base.{ℕ, suc, ◌+◌, ◌≤◌, ◌≡◌, ◌≢◌, List, [], ◌∷◌, ◌++◌, length, ◌==◌, if◌then◌else◌}
use uart.Files.{newline, same_start}

-- No newline is in the text.
abbrev pub OneLine : List ℕ → Type 0
OneLine [] = Unit {0}
OneLine (ch ∷ l) = (ch ≢ newline) × OneLine l

-- Lines that `fgets` reads whole, with their newline, into 512 bytes.
abbrev pub AreLines : List (List ℕ) → Type 0
AreLines [] = Unit {0}
AreLines (l ∷ ls) = OneLine l × (length l ≤ 510) × AreLines ls

-- The file: each line with its newline, and what stands behind the last newline.
abbrev pub file_of : List (List ℕ) → (behind : List ℕ) → List ℕ
file_of [] behind = behind
file_of (l ∷ ls) behind = l ++ newline ∷ file_of ls behind

-- The line and its newline begin with `url` less its last byte.
abbrev pub Matches : (url l : List ℕ) → Type 0
Matches url l =
    (w : List ℕ) × (b : ℕ) × (rest : List ℕ) × (url ≡ w ++ b ∷ []) × (l ++ newline ∷ [] ≡ w ++ rest)

-- `n` is the number of the first line that matches, counted from 1, or 0 where none does.
pub data IsFirst (url : List ℕ) : List (List ℕ) → (n : ℕ) → Type 0 where
  nowhere : IsFirst url [] 0
  this : (l : List ℕ) (ls : List (List ℕ)) → Matches url l → IsFirst url (l ∷ ls) 1
  none_later :
      (l : List ℕ) (ls : List (List ℕ))
      → ¬ Matches url l
      → IsFirst url ls 0
      → IsFirst url (l ∷ ls) 0
  further :
      (l : List ℕ) (ls : List (List ℕ)) (n : ℕ)
      → ¬ Matches url l
      → IsFirst url ls (suc n)
      → IsFirst url (l ∷ ls) (suc (suc n))

-- The search by the code's test.
abbrev first_line : (url : List ℕ) → List (List ℕ) → ℕ
first_line url [] = 0
first_line url (l ∷ ls) =
    let later = first_line url ls in
    if same_start url (l ++ newline ∷ []) then 1 else if later == 0 then 0 else later + 1
