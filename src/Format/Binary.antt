-- ===== src/Format/Binary.antt =====
-- `format_duer_binary_data` of src/dueros_handle.c.
use uart.Base.{
  ℕ, ◌-◌, ◌≤◌, ◌<◌, ◌≡◌, refl, inl, inr, Bool, true, none, some, List, [], ◌∷◌, ◌++◌, arith, length,
  drop, leb, length-drop, Bool-cases,
}
use uart.Format.{url, binary_text, format_duer_binary_data, delimiter, terminator}
use uart.Format.Fill.{append-at, append-over, url_head, url-Writes}

-- An int has four bytes.
module _ (bytes : ℕ → List ℕ) (size : (n : ℕ) → length (bytes n) ≡ 4) where
  -- Data of at most 1018 bytes is framed whole, whatever bytes it has: the type, a backquote, the
  -- data and a newline, with `len` the length of that. The second allocation is taken to succeed.
  pub format_duer_binary_data-frames :
      (data_bytes : List ℕ)
      → length data_bytes ≤ 1018
      → (rest : List ℕ) × (format_duer_binary_data bytes true true data_bytes
          ≡ some (
              some (record {
                buf = (((bytes url ++ delimiter ∷ []) ++ data_bytes) ++ terminator ∷ []) ++ rest;
                len = length (((bytes url ++ delimiter ∷ []) ++ data_bytes) ++ terminator ∷ []);
              })))
        × (length rest ≡ 1018 - length data_bytes)
  unfolding format_duer_binary_data binary_text
  format_duer_binary_data-frames data_bytes h =
      let start = url-Writes bytes size in
      let behind = drop (length data_bytes) start.rest in
      let room = length-drop (length data_bytes) start.rest in
      let copied =
        append-at (url_head bytes) start.rest data_bytes (omega (arith, start.room_left)) in
      let more : 1 ≤ length behind = omega (arith, room, start.room_left) in
      let ended = append-at (url_head bytes ++ data_bytes) behind (terminator ∷ []) more in
      (
        drop 1 behind,
        rw (start.writes, copied, ended) refl,
        omega (arith, length-drop 1 behind, room, start.room_left),
      )

  -- Data of more than 1018 bytes makes the function write behind the end of its 1024 bytes,
  -- whether by the copy or by the newline.
  pub format_duer_binary_data-overflows :
      (calloc : Bool) (data_bytes : List ℕ)
      → 1018 < length data_bytes
      → format_duer_binary_data bytes true calloc data_bytes ≡ none
  unfolding format_duer_binary_data binary_text
  format_duer_binary_data-overflows calloc data_bytes h =
      let start = url-Writes bytes size in
      elim (Bool-cases (leb (length data_bytes) 1019)) [
        | inl just ↦
            let behind = drop (length data_bytes) start.rest in
            let none_left : length behind < 1 =
              ground (arith, length-drop (length data_bytes) start.rest, start.room_left) in
            rw (
              start.writes,
              append-at (url_head bytes) start.rest data_bytes (ground (arith, start.room_left)),
              append-over (url_head bytes ++ data_bytes) behind (terminator ∷ []) none_left,
            )
        | inr too_long ↦ rw (
          start.writes,
          append-over (url_head bytes) start.rest data_bytes (ground (arith, start.room_left)),
        )
      ]
