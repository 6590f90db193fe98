-- ===== src/Format/Button.antt =====
-- `format_duer_button_data` of src/dueros_handle.c, and its loop.
use uart.Base.{
  ℕ, ◌+◌, ◌-◌, ◌*◌, ◌≤◌, ◌<◌, ◌≡◌, refl, sym, ap, ◌∙◌, inl, inr, Bool, true, none, some, List, [],
  ◌∷◌, ◌++◌, arith, map, length, replicate, leb, append_assoc, append-nil, Bool-cases,
  if◌then◌else◌,
}
use uart.Format.{
  button, blank, append_field, button_loop, button_text, format_duer_button_data, delimiter,
  terminator, direct_button_bufsize,
}
use uart.Format.Fill.{
  at, Writes, append_field-at, append_field-over, terminate-at, delimited, joined, delimited-joined,
}

-- An int has four bytes.
module _ (bytes : ℕ → List ℕ) (size : (n : ℕ) → length (bytes n) ≡ 4) where
  int_field :
      (para : ℕ) (w rest : List ℕ)
      → 5 ≤ length rest
      → Writes
          (append_field (bytes para) (at w rest))
          (w ++ (bytes para ++ delimiter ∷ []))
          (length rest - 5)
  int_field para w rest h =
      let done = append_field-at w rest (bytes para) (omega (arith, size para)) in
      record {
        rest = done.rest;
        writes = done.writes;
        room_left = omega (arith, done.room_left, size para);
      }

  button_loop-at :
      (args : List ℕ) (w rest : List ℕ)
      → 5 * length args ≤ length rest
      → Writes
          (button_loop bytes (length args) args (at w rest))
          (w ++ delimited (map bytes args))
          (length rest - 5 * length args)
  unfolding button_loop
  button_loop-at [] w rest h = record {
    rest = rest;
    writes = ap (λ v. some (at v rest)) (sym (append-nil w));
    room_left = omega arith;
  }
  button_loop-at (para ∷ args) w rest h =
      let one = int_field para w rest (omega arith) in
      let others =
        button_loop-at args (w ++ (bytes para ++ delimiter ∷ [])) one.rest
          (omega (arith, one.room_left)) in
      record {
        rest = others.rest;
        writes =
            rw (one.writes, others.writes)
              (ap (λ v. some (at v others.rest))
                (append_assoc w (bytes para ++ delimiter ∷ []) (delimited (map bytes args))));
        room_left = omega (arith, one.room_left, others.room_left);
      }

  button_loop-over :
      (args : List ℕ) (w rest : List ℕ)
      → length rest < 5 * length args
      → button_loop bytes (length args) args (at w rest) ≡ none
  unfolding button_loop
  button_loop-over [] w rest h = absurd (omega arith)
  button_loop-over (para ∷ args) w rest h = elim (Bool-cases (leb 5 (length rest))) [
    | inl more ↦
        let one = int_field para w rest (ground arith) in
        let others =
          button_loop-over args (w ++ (bytes para ++ delimiter ∷ [])) one.rest
            (ground (arith, one.room_left)) in
        rw (one.writes, others)
    | inr no_more ↦
        let room : length rest ≤ length (bytes para) = ground (arith, size para) in
        rw (append_field-over w rest (bytes para) room)
  ]

  -- The text of `sum - 1` arguments, behind the type and `src`.
  framed : (src : ℕ) (args : List ℕ) → List ℕ
  framed src args = joined (bytes button) (bytes src ∷ map bytes args)

  all_delimited :
      (src : ℕ) (args : List ℕ)
      → ((bytes button ++ delimiter ∷ []) ++ (bytes src ++ delimiter ∷ []))
          ++ delimited (map bytes args)
        ≡ framed src args ++ delimiter ∷ []
  unfolding framed
  all_delimited src args =
      append_assoc (bytes button ++ delimiter ∷ []) (bytes src ++ delimiter ∷ [])
        (delimited (map bytes args))
      ∙ delimited-joined (bytes button) (bytes src ∷ map bytes args)

  module _ (src : ℕ) where
    one :
        Writes
          (append_field (bytes button) (blank direct_button_bufsize))
          (bytes button ++ delimiter ∷ [])
          59
    one = int_field button [] (replicate 64 0) (omega arith)

    two :
        Writes
          (append_field (bytes src) (at (bytes button ++ delimiter ∷ []) one.rest))
          ((bytes button ++ delimiter ∷ []) ++ (bytes src ++ delimiter ∷ []))
          54
    two =
        let done =
          int_field src (bytes button ++ delimiter ∷ []) one.rest (omega (arith, one.room_left)) in
        record {
          rest = done.rest;
          writes = done.writes;
          room_left = omega (arith, one.room_left, done.room_left);
        }

    text_writes :
        (args : List ℕ)
        → length args ≤ 10
        → Writes
            (button_text bytes (length args + 1) src args)
            (framed src args ++ terminator ∷ [])
            (54 - 5 * length args)
    unfolding button_text
    text_writes args h =
        let w = (bytes button ++ delimiter ∷ []) ++ (bytes src ++ delimiter ∷ []) in
        let all = button_loop-at args w two.rest (omega (arith, two.room_left)) in
        let rounds : length args + 1 - 1 ≡ length args = omega arith in
        record {
          rest = all.rest;
          writes = rw (
            one.writes,
            two.writes,
            rounds,
            all.writes,
            all_delimited src args,
            terminate-at (framed src args) all.rest,
          );
          room_left = omega (arith, two.room_left, all.room_left);
        }

    text_overflows :
        (args : List ℕ) → 10 < length args → button_text bytes (length args + 1) src args ≡ none
    unfolding button_text
    text_overflows args h =
        let w = (bytes button ++ delimiter ∷ []) ++ (bytes src ++ delimiter ∷ []) in
        let rounds : length args + 1 - 1 ≡ length args = omega arith in
        let stops = button_loop-over args w two.rest (omega (arith, two.room_left)) in
        rw (one.writes, two.writes, rounds, stops)

  -- With at most 10 arguments behind `src`, which is a `sum` from 1 to 11, the function does not
  -- fault. The message is the type, `src` and the arguments, four bytes each, with a backquote
  -- between each two and a newline at the end; `len` is its length. It is given if the second
  -- allocation succeeds too, and the null pointer otherwise.
  pub format_duer_button_data-frames :
      (calloc : Bool) (src : ℕ) (args : List ℕ)
      → length args ≤ 10
      → (rest : List ℕ) × (format_duer_button_data bytes true calloc (length args + 1) src args
          ≡ some (
              if calloc
              then some (record {
                buf =
                    (joined (bytes button) (bytes src ∷ map bytes args) ++ terminator ∷ []) ++ rest;
                len =
                    length (joined (bytes button) (bytes src ∷ map bytes args) ++ terminator ∷ []);
              })
              else none))
        × (length rest ≡ 54 - 5 * length args)
  unfolding format_duer_button_data framed
  format_duer_button_data-frames calloc src args h =
      let text = text_writes src args h in (text.rest, rw text.writes refl, text.room_left)

  -- With more than 10 arguments behind `src`, the function writes behind the end of its 64 bytes.
  pub format_duer_button_data-overflows :
      (calloc : Bool) (src : ℕ) (args : List ℕ)
      → 10 < length args
      → format_duer_button_data bytes true calloc (length args + 1) src args ≡ none
  unfolding format_duer_button_data
  format_duer_button_data-overflows calloc src args h = rw (text_overflows src args h)
