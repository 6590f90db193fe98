-- ===== src/Format/Fill.antt =====
-- The writing of a message of src/dueros_handle.c at its index: what is written, and the rest of
-- the buffer.
use uart.Base.{
  ℕ, zero, ◌+◌, ◌-◌, ◌≤◌, ◌<◌, ◌≡◌, refl, sym, ap, ◌∙◌, inl, inr, true, false, Option, none, some,
  List, [], ◌∷◌, ◌++◌, arith, length, drop, replicate, leb, length-append, length-drop,
  length-replicate, take-append_length, drop-append_add, append_assoc, append-nil, Bool-cases,
}
use uart.Daemon.Read.{copy_at}
use uart.Format.{
  Cursor, url, blank, direct_url_bufsize, append, append_field, terminate, delimiter, terminator,
}

-- The bytes `w` are written, and `rest` is what is behind them.
abbrev pub at : (w rest : List ℕ) → Cursor
at w rest = record { dest = w ++ rest; i = length w }

-- `w` is written, with `room` bytes behind it.
pub record Writes (out : Option Cursor) (w : List ℕ) (room : ℕ) : Type 0 where
  pub rest : List ℕ
  pub writes : out ≡ some (at w rest)
  pub room_left : length rest ≡ room

pub copy_at-at :
    (w rest src : List ℕ)
    → length src ≤ length rest
    → copy_at (w ++ rest) (length w) src ≡ some (w ++ (src ++ drop (length src) rest))
copy_at-at w rest src h =
    let in_bounds : leb (length w + length src) (length (w ++ rest)) ≡ true =
      ground (arith, length-append w rest) in
    rw (
      in_bounds,
      take-append_length (length w) w rest refl,
      drop-append_add (length w + length src) (length src) w rest refl,
    )

pub copy_at-over :
    (w rest src : List ℕ) → length rest < length src → copy_at (w ++ rest) (length w) src ≡ none
copy_at-over w rest src h =
    let out_of_bounds : leb (length w + length src) (length (w ++ rest)) ≡ false =
      ground (arith, length-append w rest) in
    rw out_of_bounds

pub append-at :
    (w rest src : List ℕ)
    → length src ≤ length rest
    → append src (at w rest) ≡ some (at (w ++ src) (drop (length src) rest))
unfolding append
append-at w rest src h =
    rw (copy_at-at w rest src h, length-append w src, append_assoc w src (drop (length src) rest))

pub append-over : (w rest src : List ℕ) → length rest < length src → append src (at w rest) ≡ none
unfolding append
append-over w rest src h = rw (copy_at-over w rest src h)

pub append_field-at :
    (w rest src : List ℕ)
    → length src < length rest
    → Writes
        (append_field src (at w rest))
        (w ++ (src ++ delimiter ∷ []))
        (length rest - (length src + 1))
unfolding append_field
append_field-at w rest src h =
    let behind = drop (length src) rest in
    let more : 1 ≤ length behind = omega (arith, length-drop (length src) rest) in
    let done = append-at (w ++ src) behind (delimiter ∷ []) more in
    record {
      rest = drop 1 behind;
      writes =
          rw (append-at w rest src (omega arith), done)
            (ap (λ v. some (at v (drop 1 behind))) (append_assoc w src (delimiter ∷ [])));
      room_left = omega (arith, length-drop 1 behind, length-drop (length src) rest);
    }

pub append_field-over :
    (w rest src : List ℕ) → length rest ≤ length src → append_field src (at w rest) ≡ none
unfolding append_field
append_field-over w rest src h = elim (Bool-cases (leb (length src) (length rest))) [
  | inl just ↦
      let behind = drop (length src) rest in
      let no_more : length behind < 1 = ground (arith, length-drop (length src) rest) in
      rw (
        append-at w rest src (ground arith),
        append-over (w ++ src) behind (delimiter ∷ []) no_more,
      )
  | inr too_long ↦ rw (append-over w rest src (ground arith))
]

-- The last delimiter becomes the terminator.
pub terminate-at :
    (w rest : List ℕ)
    → terminate (at (w ++ delimiter ∷ []) rest) ≡ some (at (w ++ terminator ∷ []) rest)
unfolding terminate
terminate-at w rest =
    let last : length (w ++ delimiter ∷ []) - 1 ≡ length w =
      omega (arith, length-append w (delimiter ∷ [])) in
    let same : length (w ++ delimiter ∷ []) ≡ length (w ++ terminator ∷ []) =
      length-append w (delimiter ∷ []) ∙ sym (length-append w (terminator ∷ [])) in
    rw (
      last,
      append_assoc w (delimiter ∷ []) rest,
      copy_at-at w (delimiter ∷ rest) (terminator ∷ []) (omega arith),
      same,
      append_assoc w (terminator ∷ []) rest,
    )

-- The fields with a delimiter behind each.
abbrev pub delimited : List (List ℕ) → List ℕ
delimited [] = []
delimited (f ∷ fs) = (f ++ delimiter ∷ []) ++ delimited fs

-- The fields with a delimiter between each two.
abbrev pub joined : List ℕ → List (List ℕ) → List ℕ
joined f [] = f
joined f (g ∷ gs) = f ++ delimiter ∷ joined g gs

pub delimited-joined :
    (f : List ℕ) (fs : List (List ℕ)) → delimited (f ∷ fs) ≡ joined f fs ++ delimiter ∷ []
delimited-joined f [] = append-nil (f ++ delimiter ∷ [])
delimited-joined f (g ∷ gs) =
    append_assoc f (delimiter ∷ []) (delimited (g ∷ gs))
    ∙ ap (λ v. f ++ delimiter ∷ v) (delimited-joined g gs)
    ∙ sym (append_assoc f (delimiter ∷ joined g gs) (delimiter ∷ []))

-- The type of a text and its delimiter.
abbrev pub url_head : (bytes : ℕ → List ℕ) → List ℕ
url_head bytes = bytes url ++ delimiter ∷ []

pub url-Writes :
    (bytes : ℕ → List ℕ)
    → ((n : ℕ) → length (bytes n) ≡ 4)
    → Writes (append_field (bytes url) (blank direct_url_bufsize)) (url_head bytes) 1019
url-Writes bytes size =
    let room : length (replicate {A = ℕ} direct_url_bufsize zero) ≡ 1024 =
      length-replicate direct_url_bufsize zero in
    let done =
      append_field-at [] (replicate direct_url_bufsize zero) (bytes url)
        (omega (arith, size url, room)) in
    record {
      rest = done.rest;
      writes = done.writes;
      room_left = omega (arith, done.room_left, size url, room);
    }
