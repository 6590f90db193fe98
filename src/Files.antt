-- ===== src/Files.antt =====
-- The file helpers of src/uart_protocol.c. A file is its bytes, `none` where it cannot be opened; a
-- text has no zero byte.
pub mod Lines
mod Tests
use uart.Base.{
  ℕ, zero, suc, ◌+◌, ◌-◌, ◌≡◌, Bool, true, false, not, ◌&&◌, Option, none, some, List, [], ◌∷◌,
  ◌++◌, take, length, leb, ltb, ◌==◌, if◌then◌else◌, ℤ, pos, negsuc,
}
use uart.Daemon.Parse.{is_prefix}

abbrev pub newline : ℕ
newline = 10

-- "rm "
abbrev pub rm : List ℕ
rm = b'r' ∷ b'm' ∷ b' ' ∷ []

-- The commands that `delete_file` gives to the shell. `cmd` has 64 bytes; `none` is a write past its
-- end.
unfoldable pub delete_file : (exists : Bool) → (filename : List ℕ) → Option (List (List ℕ))
delete_file false filename = some []
delete_file true filename =
    if leb (length (rm ++ filename) + 1) 64 then some ((rm ++ filename) ∷ []) else none

-- What `stat` says of a path.
pub record Stat : Type 0 where
  pub is_dir : Bool
  pub st_size : ℕ

-- `none` where `stat` fails.
unfoldable pub file_exists : Option Stat → Bool
file_exists none = false
file_exists (some st) = not st.is_dir && ltb 0 st.st_size

-- The loop of `hangshu`, on the count so far.
unfoldable pub count_newlines : List ℕ → ℕ → ℕ
count_newlines [] n = n
count_newlines (ch ∷ rest) n = count_newlines rest (if ch == newline then n + 1 else n)

unfoldable pub hangshu : Option (List ℕ) → ℤ
hangshu none = negsuc 0
hangshu (some file) = pos (count_newlines file 0)

-- `fgets` on what is left of the file: at most `room` bytes, up to a newline; and what is left then.
unfoldable pub take_line : (room : ℕ) → List ℕ → List ℕ × List ℕ
take_line zero file = ([], file)
take_line (suc room) [] = ([], [])
take_line (suc room) (ch ∷ file) =
    let (line, rest) = take_line room file in
    if ch == newline then (ch ∷ [], file) else (ch ∷ line, rest)

-- `strncmp(deline, Url, strlen(Url)-1) == 0`; for the empty text the count wraps and the whole
-- texts are compared.
abbrev pub same_start : (url deline : List ℕ) → Bool
same_start [] [] = true
same_start [] (_ ∷ _) = false
same_start (c ∷ url) deline = is_prefix (take (length url) (c ∷ url)) deline

-- The loop of `compare_FileAndUrl`, for `hangnum - i` rounds; `buf` has 512 bytes.
unfoldable pub find_line : (rounds : ℕ) → (url file : List ℕ) → (i : ℕ) → ℕ
find_line zero url file i = 0
find_line (suc k) url [] i = 0
find_line (suc k) url (ch ∷ file) i =
    let (deline, rest) = take_line 511 (ch ∷ file) in
    let others = find_line k url rest (i + 1) in if same_start url deline then i + 1 else others

-- `rounds_of` is the number of rounds that a loop up to `hangnum` has.
abbrev pub rounds_of : ℤ → ℕ
rounds_of (pos n) = n
rounds_of (negsuc n) = 0

-- `file` is what `hangshu` reads, and `file_rw` what is opened for reading and writing behind it.
-- Both pointers are taken not to be null: there is no return otherwise.
unfoldable pub compare_file_and_url : (file file_rw : Option (List ℕ)) → (url : List ℕ) → ℤ
compare_file_and_url file none url = negsuc 0
compare_file_and_url file (some bytes) url = pos (find_line (rounds_of (hangshu file)) url bytes 0)
