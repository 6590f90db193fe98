-- ===== src/Daemon/Read.antt =====
-- `whole_read` of src/uart_start.c.
use native.Mathlib.Nat.{add-zero}
use uart.Base.{
  ℕ, ◌+◌, ◌-◌, ◌≤◌, ◌<◌, ◌≡◌, refl, sym, ap, ap₂, ◌∙◌, inl, inr, true, false, Option, none, some,
  List, [], ◌∷◌, ◌++◌, arith, length, take, drop, length-append, append_assoc, take-append-drop,
  take-append_length, drop-append_add, drop-drop, length-take, length-drop, leb, if◌then◌else◌,
  ◌>>=◌, Bool-cases,
}

-- `memcpy(&buf[c], src, length src)`.
abbrev pub copy_at : (buf : List ℕ) (c : ℕ) (src : List ℕ) → Option (List ℕ)
copy_at buf c src =
    if leb (c + length src) (length buf)
    then some (take c buf ++ (src ++ drop (c + length src) buf))
    else none

-- The list holds what the calls of `read` return, a chunk each; an empty chunk, or the end of the
-- list, is a result that is not positive. What is left of it has not been read.
read_loop :
    (maxlen : ℕ) → List (List ℕ) → (buf : List ℕ) (c : ℕ) → Option (ℕ × List ℕ × List (List ℕ))
read_loop maxlen [] buf c = some (c, buf, [])
read_loop maxlen ([] ∷ chunks) buf c = some (c, buf, chunks)
read_loop maxlen ((x ∷ xs) ∷ chunks) buf c =
    if leb maxlen (c + length (x ∷ xs))
    then some (c, buf, chunks)
    else do buf' ← copy_at buf c (x ∷ xs); read_loop maxlen chunks buf' (c + length (x ∷ xs))

-- The result is the count, the caller's buffer, and the chunks that are still unread.
unfoldable pub whole_read :
    List (List ℕ) → (buf : List ℕ) (count : ℕ) → Option (ℕ × List ℕ × List (List ℕ))
unfolding read_loop
whole_read chunks buf count = read_loop count chunks buf 0

-- The bytes that are kept: the chunks before the first that is empty or would bring the count to
-- `room` or more.
pub kept : (room : ℕ) → List (List ℕ) → List ℕ
kept room [] = []
kept room ([] ∷ chunks) = []
kept room ((x ∷ xs) ∷ chunks) =
    if leb room (length (x ∷ xs)) then [] else (x ∷ xs) ++ kept (room - length (x ∷ xs)) chunks

pub length-kept : (room : ℕ) (chunks : List (List ℕ)) → 0 < room → length (kept room chunks) < room
unfolding kept
length-kept room [] h = h
length-kept room ([] ∷ chunks) h = h
length-kept room ((x ∷ xs) ∷ chunks) h = elim (Bool-cases (leb room (length (x ∷ xs)))) [
  | inl over ↦ rw over h
  | inr fits ↦
      let more : 0 < room - length (x ∷ xs) = ground arith in
      rw fits (
        omega (
          arith,
          length-append (x ∷ xs) (kept (room - length (x ∷ xs)) chunks),
          length-kept (room - length (x ∷ xs)) chunks more,
        ))
]

-- What the loop has done when it returns.
pub record HasRead (chunks : List (List ℕ)) (maxlen : ℕ) (buf : List ℕ) (c : ℕ)
    (out : Option (ℕ × List ℕ × List (List ℕ))) : Type 0 where
  pub filled : List ℕ
  pub unread : List (List ℕ)
  pub returns : out ≡ some (c + length (kept (maxlen - c) chunks), filled, unread)
  pub holds :
      filled
      ≡ take c buf ++ (kept (maxlen - c) chunks ++ drop (c + length (kept (maxlen - c) chunks)) buf)

stopped :
    (chunks unread : List (List ℕ)) (maxlen : ℕ) (buf : List ℕ) (c : ℕ)
    → kept (maxlen - c) chunks ≡ []
    → HasRead chunks maxlen buf c (some (c, buf, unread))
stopped chunks unread maxlen buf c e = record {
  filled = buf;
  unread = unread;
  returns = rw e (ap (λ n. some (n, buf, unread)) (omega arith));
  holds = rw (e, add-zero) (sym (take-append-drop c buf));
}

-- A chunk that fits is kept in front of what the rest of the loop keeps.
HasRead-cons :
    (x : List ℕ) (chunks : List (List ℕ)) (maxlen : ℕ) (buf : List ℕ) (c : ℕ)
    {out : Option (ℕ × List ℕ × List (List ℕ))}
    → c + length x < maxlen
    → maxlen ≤ length buf
    → kept (maxlen - c) (x ∷ chunks) ≡ x ++ kept (maxlen - (c + length x)) chunks
    → HasRead chunks maxlen (take c buf ++ (x ++ drop (c + length x) buf)) (c + length x) out
    → HasRead (x ∷ chunks) maxlen buf c out
HasRead-cons x chunks maxlen buf c hc hb e r =
    let k = kept (maxlen - (c + length x)) chunks in
    let front : length (take c buf ++ x) ≡ c + length x =
      omega (arith, length-append (take c buf) x, length-take c buf) in
    let split : take c buf ++ x ++ drop (c + length x) buf
        ≡ take c buf ++ (x ++ drop (c + length x) buf) =
      append_assoc (take c buf) x (drop (c + length x) buf) in
    record {
      filled = r.filled;
      unread = r.unread;
      returns =
          r.returns
          ∙ ap (λ n. some (n, r.filled, r.unread)) (omega (arith, ap length e, length-append x k));
      holds =
          r.holds
          ∙ ap₂ (λ a b. a ++ (k ++ b))
              (ap (take (c + length x)) (sym split)
                ∙ take-append_length (c + length x) (take c buf ++ x) (drop (c + length x) buf)
                    front)
              (ap (drop (c + length x + length k)) (sym split)
                ∙ drop-append_add (c + length x + length k) (length k) (take c buf ++ x)
                    (drop (c + length x) buf) (omega (arith, front))
                ∙ drop-drop (c + length x + length k) (c + length x) (length k) buf refl)
          ∙ append_assoc (take c buf) x (k ++ drop (c + length x + length k) buf)
          ∙ ap (λ t. take c buf ++ t)
              (sym (append_assoc x k (drop (c + length x + length k) buf))
                ∙ ap₂ (λ a n. a ++ drop n buf) (sym e)
                    (omega (arith, ap length e, length-append x k)));
    }

read_loop-HasRead :
    (maxlen : ℕ) (chunks : List (List ℕ)) (buf : List ℕ) (c : ℕ)
    → maxlen ≤ length buf
    → c < maxlen
    → HasRead chunks maxlen buf c (read_loop maxlen chunks buf c)
unfolding read_loop kept
read_loop-HasRead maxlen [] buf c hb hc = stopped [] [] maxlen buf c refl
read_loop-HasRead maxlen ([] ∷ chunks) buf c hb hc = stopped ([] ∷ chunks) chunks maxlen buf c refl
read_loop-HasRead maxlen ((x ∷ xs) ∷ chunks) buf c hb hc =
    let n = length (x ∷ xs) in
    let buf' = take c buf ++ ((x ∷ xs) ++ drop (c + n) buf) in
    elim (Bool-cases (leb maxlen (c + n))) [
      | inl over ↦
          let full : leb (maxlen - c) n ≡ true = ground arith in
          rw over (stopped ((x ∷ xs) ∷ chunks) chunks maxlen buf c (rw full))
      | inr fits ↦
          let room : leb (maxlen - c) n ≡ false = ground arith in
          let in_bounds : leb (c + n) (length buf) ≡ true = ground arith in
          let below : c + n < maxlen = ground arith in
          let len' : length buf' ≡ length buf = omega (
            arith,
            length-append (take c buf) ((x ∷ xs) ++ drop (c + n) buf),
            length-append (x ∷ xs) (drop (c + n) buf),
            length-take c buf,
            length-drop (c + n) buf,
          ) in
          rw (fits, in_bounds)
            (HasRead-cons (x ∷ xs) chunks maxlen buf c below hb
              (rw room (ap (λ m. (x ∷ xs) ++ kept m chunks) (omega arith)))
              (read_loop-HasRead maxlen chunks buf' (c + n) (omega (arith, len')) below))
    ]

-- `whole_read` into a buffer of `count` bytes never writes past it. It keeps the chunks, in order,
-- up to the first that would bring the count to `count`, puts them at the front of the buffer, and
-- returns their length, which is less than `count`.
pub whole_read_lem :
    (chunks : List (List ℕ)) (buf : List ℕ) (count : ℕ)
    → count ≤ length buf
    → 0 < count
    → HasRead chunks count buf 0 (whole_read chunks buf count)
      × (length (kept count chunks) < count)
unfolding whole_read
whole_read_lem chunks buf count hb hc =
    (read_loop-HasRead count chunks buf 0 hb hc, length-kept count chunks hc)

-- Where the first chunk has `count` bytes or more, `whole_read` for `count` bytes, at least one,
-- takes it off the line, throws it away and returns 0.
pub whole_read-drops :
    (chunk : List ℕ) (chunks : List (List ℕ)) (buf : List ℕ) (count : ℕ)
    → count ≤ length chunk
    → 0 < count
    → whole_read (chunk ∷ chunks) buf count ≡ some (0, buf, chunks)
unfolding whole_read read_loop
whole_read-drops [] chunks buf count h hc = refl
whole_read-drops (x ∷ xs) chunks buf count h hc = ground arith
