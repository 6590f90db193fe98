-- ===== src/Format/Text.antt =====
-- `format_duer_string_data` of src/dueros_handle.c, on a format with no conversion.
use uart.Base.{
  ℕ, ◌+◌, ◌-◌, ◌≤◌, ◌<◌, ◌≡◌, refl, sym, ap, ◌∙◌, Bool, true, false, some, List, [], ◌∷◌, ◌++◌,
  arith, length, drop, ◌==◌, not, ◌&&◌, none, leb, if◌then◌else◌, Bool-cases, inl, inr, zero, suc,
  length-append, length-drop, append_assoc, append-nil,
}
use uart.Format.{
  Vsprintf, Cursor, url, print_field, string_loop, string_text, format_duer_string_data, delimiter,
  terminator,
}
use uart.Format.Fill.{
  at, Writes, copy_at-at, append-at, terminate-at, joined, delimited-joined, url_head, url-Writes,
}

-- No conversion begins in the format.
abbrev pub is_plain : List ℕ → Bool
is_plain [] = true
is_plain (x ∷ xs) = not (x == b'%') && is_plain xs

-- What is relied on: a format with no conversion is its own text.
abbrev pub IsPrinter : Vsprintf → Type 0
IsPrinter vsprintf =
    (fmt : List ℕ) (args : List (List ℕ)) → is_plain fmt ≡ true → vsprintf fmt args ≡ fmt

print_field-at :
    (w rest src : List ℕ)
    → length src < length rest
    → Writes
        (print_field src src (at w rest))
        (w ++ (src ++ delimiter ∷ []))
        (length rest - (length src + 1))
unfolding print_field
print_field-at w rest src h =
    let behind = drop (length (src ++ 0 ∷ [])) rest in
    let size = length-append src (0 ∷ []) in
    let printed = copy_at-at w rest (src ++ 0 ∷ []) (omega (arith, size)) in
    let here : w ++ ((src ++ 0 ∷ []) ++ behind) ≡ (w ++ src) ++ 0 ∷ behind =
      ap (λ v. w ++ v) (append_assoc src (0 ∷ []) behind) ∙ sym (append_assoc w src (0 ∷ behind)) in
    let done = append-at (w ++ src) (0 ∷ behind) (delimiter ∷ []) (omega arith) in
    record {
      rest = behind;
      writes =
          rw (printed, here, sym (length-append w src), done)
            (ap (λ v. some (at v behind)) (append_assoc w src (delimiter ∷ [])));
      room_left = omega (arith, length-drop (length (src ++ 0 ∷ [])) rest, size);
    }

-- Behind the first `vsprintf`, a round of the loop is undefined.
string_loop-undefined :
    (vsprintf : Vsprintf) (k : ℕ) (c : Cursor)
    → string_loop vsprintf k none c ≡ (if k == 0 then some c else none)
unfolding string_loop
string_loop-undefined vsprintf zero c = refl
string_loop-undefined vsprintf (suc k) c =
    let more : (suc k == 0) ≡ false = ground arith in rw more refl

-- What is behind the frame of `src`.
abbrev framed : (bytes : ℕ → List ℕ) (src rest : List ℕ) → Cursor
framed bytes src rest = at (joined (bytes url) (src ∷ []) ++ terminator ∷ []) rest

-- An int has four bytes.
module _ (vsprintf : Vsprintf) (prints : IsPrinter vsprintf) (bytes : ℕ → List ℕ)
    (size : (n : ℕ) → length (bytes n) ≡ 4) where
  string_text-framed :
      (sum : ℕ) (src : List ℕ) (args : List (List ℕ))
      → is_plain src ≡ true
      → length src + 1 ≤ 1019
      → (rest : List ℕ) × (string_text bytes vsprintf sum src args
          ≡ (if leb sum 1 then some (framed bytes src rest) else none))
        × (length rest ≡ 1019 - (length src + 1))
  unfolding string_text
  string_text-framed sum src args p h =
      let start = url-Writes bytes size in
      let one = print_field-at (url_head bytes) start.rest src (omega (arith, start.room_left)) in
      let loop =
        string_loop-undefined vsprintf (sum - 1)
          (at (url_head bytes ++ (src ++ delimiter ∷ [])) one.rest) in
      let few : (sum - 1 == 0) ≡ leb sum 1 = ground arith in
      let text =
        ap (λ t. url_head bytes ++ t) (sym (append-nil (src ++ delimiter ∷ [])))
        ∙ delimited-joined (bytes url) (src ∷ []) in
      let ended = terminate-at (joined (bytes url) (src ∷ [])) one.rest in
      (
        one.rest,
        elim (Bool-cases (leb sum 1)) [
          | inl short ↦
              rw (start.writes, prints src args p, one.writes, loop, few, short, text, ended)
          | inr long ↦ rw (start.writes, prints src args p, one.writes, loop, few, long)
        ],
        omega (arith, one.room_left, start.room_left),
      )

  -- A `src` without a `%` that needs at most 1019 bytes, one byte behind it included, is framed where
  -- `sum` is at most 1: the type, a backquote, `src` and a newline. For every greater `sum` the call
  -- is undefined, as it takes an argument from the `va_list` that it has given to `vsprintf`. The
  -- allocations are taken to succeed.
  pub format_duer_string_data-frames :
      (sum : ℕ) (src : List ℕ) (args : List (List ℕ))
      → is_plain src ≡ true
      → length src + 1 ≤ 1019
      → (rest : List ℕ) × (format_duer_string_data bytes vsprintf true true sum src args ≡ (
          if leb sum 1
          then some (
              some (record {
                buf = (joined (bytes url) (src ∷ []) ++ terminator ∷ []) ++ rest;
                len = length (joined (bytes url) (src ∷ []) ++ terminator ∷ []);
              }))
          else none))
        × (length rest ≡ 1019 - (length src + 1))
  unfolding format_duer_string_data
  format_duer_string_data-frames sum src args p h =
      let (rest, text, left) = string_text-framed sum src args p h in
      (
        rest,
        elim (Bool-cases (leb sum 1)) [
          | inl short ↦ rw (text, short) refl
          | inr long ↦ rw (text, long) refl
        ],
        left,
      )
