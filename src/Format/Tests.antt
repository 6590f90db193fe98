-- ===== src/Format/Tests.antt =====
-- The messages for dueros on concrete inputs. An int is four bytes, the least significant first.
use uart.Base.{ℕ, ◌/◌, ◌%◌, ◌≡◌, refl, true, some, List, [], ◌∷◌, arith, length}
use uart.Format.{
  Vsprintf, format_duer_button_data, format_duer_string_data, format_duer_binary_data,
}
use uart.Format.Button.{format_duer_button_data-frames}
use uart.Format.Text.{IsPrinter, format_duer_string_data-frames}
use uart.Format.Binary.{format_duer_binary_data-frames}

abbrev little : ℕ → List ℕ
little n = n % 256 ∷ n / 256 % 256 ∷ n / 65536 % 256 ∷ n / 16777216 % 256 ∷ []

four : (n : ℕ) → length (little n) ≡ 4
four n = refl

-- Prints every format as it is.
abbrev verbatim : Vsprintf
verbatim fmt args = fmt

verbatim-IsPrinter : IsPrinter verbatim
verbatim-IsPrinter fmt args p = refl

abbrev eleven : List ℕ
eleven = 1 ∷ 2 ∷ 3 ∷ 4 ∷ 5 ∷ 6 ∷ 7 ∷ 8 ∷ 9 ∷ 10 ∷ 11 ∷ []

format_duer_button_data-frames_example :
    (rest : List ℕ) × (format_duer_button_data little true true 2 5 (6 ∷ [])
      ≡ some (
          some (record {
            buf = 0 ∷ 0 ∷ 0 ∷ 0 ∷ b'`' ∷ 5 ∷ 0 ∷ 0 ∷ 0 ∷ b'`' ∷ 6 ∷ 0 ∷ 0 ∷ 0 ∷ 10 ∷ rest;
            len = 15;
          })))
    × (length rest ≡ 49)
format_duer_button_data-frames_example =
    format_duer_button_data-frames little four true 5 (6 ∷ []) (omega arith)

format_duer_string_data-frames_example :
    (rest : List ℕ) × (format_duer_string_data little verbatim true true 1 (b'a' ∷ b'b' ∷ []) []
      ≡ some (some (record { buf = 1 ∷ 0 ∷ 0 ∷ 0 ∷ b'`' ∷ b'a' ∷ b'b' ∷ 10 ∷ rest; len = 8 })))
    × (length rest ≡ 1016)
format_duer_string_data-frames_example =
    format_duer_string_data-frames verbatim verbatim-IsPrinter little four 1 (b'a' ∷ b'b' ∷ []) []
      refl (omega arith)

format_duer_binary_data-frames_example :
    (rest : List ℕ) × (format_duer_binary_data little true true (b'`' ∷ 10 ∷ [])
      ≡ some (some (record { buf = 1 ∷ 0 ∷ 0 ∷ 0 ∷ b'`' ∷ b'`' ∷ 10 ∷ 10 ∷ rest; len = 8 })))
    × (length rest ≡ 1016)
format_duer_binary_data-frames_example =
    format_duer_binary_data-frames little four (b'`' ∷ 10 ∷ []) (omega arith)
