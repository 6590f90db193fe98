-- ===== src/Files/Tests.antt =====
-- The file helpers on a concrete file.
use uart.Base.{replicate, ℕ, ◌≡◌, refl, true, false, some, none, List, [], ◌∷◌, pos, negsuc}
use uart.Files.{
  delete_file, hangshu, compare_file_and_url, file_exists, count_newlines, find_line, take_line,
}
use uart.Files.Lines.{file_of}

-- "ab", "cd", and "c" behind the last newline.
abbrev two_lines : List (List ℕ)
two_lines = (b'a' ∷ b'b' ∷ []) ∷ (b'c' ∷ b'd' ∷ []) ∷ []

second_test :
    compare_file_and_url
      (some (file_of two_lines (b'c' ∷ [])))
      (some (file_of two_lines (b'c' ∷ [])))
      (b'c' ∷ b'd' ∷ b'?' ∷ [])
    ≡ pos 2
unfolding compare_file_and_url hangshu count_newlines find_line take_line
second_test = refl

missing_test : compare_file_and_url none none (b'c' ∷ []) ≡ negsuc 0
unfolding compare_file_and_url
missing_test = refl

file_exists_test :
    (file_exists none ≡ false)
    × (file_exists (some (record { is_dir = false; st_size = 3 })) ≡ true)
unfolding file_exists
file_exists_test = (refl, refl)

delete_test :
    (delete_file true (b'a' ∷ []) ≡ some ((b'r' ∷ b'm' ∷ b' ' ∷ b'a' ∷ []) ∷ []))
    × (delete_file true (replicate 61 b'a') ≡ none)
unfolding delete_file
delete_test = (refl, refl)
