-- ===== src/Report/Output.antt =====
-- When the loop of `excute_cmd` of src/report_key.c ends, and with what.
use uart.Base.{
  Option, ℕ, zero, suc, ◌+◌, ◌-◌, ◌<◌, ◌≤◌, ◌≡◌, refl, sym, ap, ◌∙◌, Bool, true, false, inl, inr,
  Bool-cases, some, List, [], ◌∷◌, ◌++◌, arith, length, take, drop, length-append, length-drop,
  append_assoc, append-nil, ltb, ◌==◌, if◌then◌else◌, ◌&&◌,
}
use uart.Daemon.Read.{copy_at}
use uart.Format.Fill.{copy_at-at}
use uart.Report.Answer.{before_zero, NoZero}
use uart.Files.{newline, take_line}
use uart.Report.Command.{
  out_of_fuel, ended, hits_end, room_of, is_empty, read_output, clear_newline, excute_cmd, collect,
}

take_line-append :
    (room : ℕ) (file : List ℕ) → (take_line room file).0 ++ (take_line room file).1 ≡ file
unfolding take_line
take_line-append zero file = refl
take_line-append (suc room) [] = refl
take_line-append (suc room) (ch ∷ file) =
    let rest = take_line-append room file in
    elim (Bool-cases (ch == newline)) [ inl e ↦ rw e | inr e ↦ rw e (ap (λ f. ch ∷ f) rest) ]

length-take_line : (room : ℕ) (file : List ℕ) → length (take_line room file).0 ≤ room
unfolding take_line
length-take_line zero file = omega arith
length-take_line (suc room) [] = omega arith
length-take_line (suc room) (ch ∷ file) = let rest = length-take_line room file in ground arith

take_line-some :
    (room : ℕ) (ch : ℕ) (file : List ℕ) → 0 < room → 0 < length (take_line room (ch ∷ file)).0
unfolding take_line
take_line-some zero ch file h = absurd (omega arith)
take_line-some (suc room) ch file h = ground arith

-- The end of the stream is met where nothing is left.
hits_end-empty :
    (room : ℕ) (file : List ℕ) → hits_end room file ≡ true → (take_line room file).1 ≡ []
unfolding hits_end take_line
hits_end-empty zero file h = absurd cc
hits_end-empty (suc room) [] h = refl
hits_end-empty (suc room) (ch ∷ file) h =
    let rest = hits_end-empty room file in
    elim (Bool-cases (ch == newline)) [
      | inl e ↦ absurd (ground (arith, h, e))
      | inr e ↦ rw e (rest (rw (sym h, e)))
    ]

hits_end-false : (room : ℕ) (file : List ℕ) → room ≤ length file → hits_end room file ≡ false
unfolding hits_end
hits_end-false zero file h = refl
hits_end-false (suc room) [] h = absurd (omega arith)
hits_end-false (suc room) (ch ∷ file) h =
    let rest = hits_end-false room file (omega arith) in rw rest (ground arith)

before_zero_of_text : (bytes : List ℕ) → NoZero bytes → before_zero bytes ≡ bytes
before_zero_of_text [] n = refl
before_zero_of_text (b ∷ bs) (ne, n) =
    let other : (b == 0) ≡ false = ground arith in
    let rest = before_zero_of_text bs n in rw other (ap (λ t. b ∷ t) rest)

-- A line of a text without zero bytes has none, nor has what stands behind the line.
take_line-NoZero :
    (room : ℕ) (file : List ℕ)
    → NoZero file
    → NoZero (take_line room file).0 × NoZero (take_line room file).1
unfolding take_line
take_line-NoZero zero file n = (tt, n)
take_line-NoZero (suc room) [] n = (tt, tt)
take_line-NoZero (suc room) (ch ∷ file) (ne, n) =
    let (line, rest) = take_line-NoZero room file n in
    elim (Bool-cases (ch == newline)) [
      | inl e ↦ rw e ((ne, tt), n)
      | inr e ↦ rw e ((ne, line), rest)
    ]

room_of-bounds : (n : ℕ) → 0 < n → (room_of n < n) × (1 < n → 0 < room_of n)
room_of-bounds n h = (ground arith, ground arith)

-- The byte behind the output: the zero that `snprintf` writes, or what stood there.
abbrev behind : List ℕ → ℕ → ℕ
behind [] z = z
behind (_ ∷ _) z = 0

-- A round that gets a piece of an output without zero bytes.
read_output-piece :
    (k : ℕ) (output : List ℕ) (n : ℕ) (body : List ℕ) (z : ℕ) (t : List ℕ)
    → 0 < n
    → n ≤ suc (length t)
    → NoZero output
    → is_empty output && ltb 0 (room_of n) ≡ false
    → (t' : List ℕ) × (length t' + length (take_line (room_of n) output).0 ≡ length t)
      × (read_output (suc k) output false n (length body) (body ++ z ∷ t)
          ≡ read_output k
              (take_line (room_of n) output).1
              (hits_end (room_of n) output)
              (n - length (take_line (room_of n) output).0)
              (length (body ++ (take_line (room_of n) output).0))
              ((body ++ (take_line (room_of n) output).0) ++ 0 ∷ t'))
unfolding read_output
read_output-piece k output n body z t pos_n fits clean more =
    let line = (take_line (room_of n) output).0 in
    let short = length-take_line (room_of n) output in
    let size = length-append line (0 ∷ []) in
    let room = (room_of-bounds n pos_n).0 in
    let t' = drop (length (line ++ 0 ∷ [])) (z ∷ t) in
    let some_room : (n == 0) ≡ false = ground arith in
    let written : copy_at (body ++ z ∷ t) (length body) (line ++ 0 ∷ [])
        ≡ some ((body ++ line) ++ 0 ∷ t') =
      copy_at-at body (z ∷ t) (line ++ 0 ∷ []) (omega arith)
      ∙ ap (λ r. some (body ++ r)) (append_assoc line (0 ∷ []) t')
      ∙ ap some (sym (append_assoc body line (0 ∷ t'))) in
    (
      t',
      omega (arith, short, size, room, fits, length-drop (length (line ++ 0 ∷ [])) (z ∷ t)),
      rw (
        some_room,
        more,
        before_zero_of_text line (take_line-NoZero (room_of n) output clean).0,
        written,
        length-append body line,
      ),
    )

behind-zero : (output : List ℕ) → behind output 0 ≡ 0
behind-zero [] = refl
behind-zero (_ ∷ _) = refl

-- The result of the loop, for an output without zero bytes and the room for it.
abbrev Collects :
    (k : ℕ) (output : List ℕ) (eof : Bool) (n : ℕ) (body : List ℕ) (z : ℕ) (t : List ℕ) → Type 0
Collects k output eof n body z t =
    (t' : List ℕ) × (read_output k output eof n (length body) (body ++ z ∷ t)
      ≡ ended (length (body ++ output)) ((body ++ output) ++ behind output z ∷ t'))

nothing_left :
    (k : ℕ) (eof : Bool) (n : ℕ) (body : List ℕ) (z : ℕ) (t : List ℕ)
    → 1 < n
    → Collects (suc k) [] eof n body z t
unfolding read_output
nothing_left k true n body z t h =
    (t, ap (λ o. ended (length o) (o ++ z ∷ t)) (sym (append-nil body)))
nothing_left k false n body z t h =
    let some_room : (n == 0) ≡ false = ground arith in
    let at_end : ltb 0 (room_of n) ≡ true = ground (arith, (room_of-bounds n (omega arith)).1 h) in
    (t, rw (some_room, at_end, append-nil body))

read_output-Collects :
    (k : ℕ) (output : List ℕ) (eof : Bool) (n : ℕ) (body : List ℕ) (z : ℕ) (t : List ℕ)
    → (eof ≡ true → output ≡ [])
    → length output + 1 < n
    → n ≤ suc (length t)
    → NoZero output
    → length output < k
    → Collects k output eof n body z t
read_output-Collects zero output eof n body z t marked room fits clean fuel = absurd (omega arith)
read_output-Collects (suc k) [] eof n body z t marked room fits clean fuel =
    nothing_left k eof n body z t (omega arith)
read_output-Collects (suc k) (ch ∷ file) true n body z t marked room fits clean fuel =
    absurd (let e = marked refl in cc)
read_output-Collects (suc k) (ch ∷ file) false n body z t marked room fits clean fuel =
    let output = ch ∷ file in
    let pos_n : 0 < n = omega arith in
    let line = (take_line (room_of n) output).0 in
    let rest = (take_line (room_of n) output).1 in
    let (t1, left, round) = read_output-piece k output n body z t pos_n fits clean refl in
    let all = take_line-append (room_of n) output in
    let sizes = sym (length-append line rest) ∙ ap length all in
    let got =
      take_line-some (room_of n) ch file ((room_of-bounds n pos_n).1 (omega (arith, room))) in
    let (t2, others) =
      read_output-Collects k rest (hits_end (room_of n) output) (n - length line) (body ++ line) 0
        t1 (hits_end-empty (room_of n) output) (omega (arith, sizes, room))
        (omega (arith, left, fits, room, sizes)) (take_line-NoZero (room_of n) output clean).1
        (omega (arith, sizes, got, fuel)) in
    let whole = append_assoc body line rest ∙ ap (λ o. body ++ o) all in
    (
      t2,
      round
          ∙ others
          ∙ ap (λ b. ended (length ((body ++ line) ++ rest)) (((body ++ line) ++ rest) ++ b ∷ t2))
              (behind-zero rest)
          ∙ ap (λ o. ended (length o) (o ++ 0 ∷ t2)) whole,
    )

no_end : (output : List ℕ) (room : ℕ) → room ≤ length output → is_empty output && ltb 0 room ≡ false
no_end [] room h = ground arith
no_end (_ ∷ _) room h = refl

-- The loop goes on for ever where an output without zero bytes does not fit.
read_output-endless :
    (k : ℕ) (output : List ℕ) (n : ℕ) (body : List ℕ) (z : ℕ) (t : List ℕ)
    → 0 < n
    → n ≤ length output + 1
    → n ≤ suc (length t)
    → NoZero output
    → read_output k output false n (length body) (body ++ z ∷ t) ≡ out_of_fuel
unfolding read_output
read_output-endless zero output n body z t pos_n long fits clean = refl
read_output-endless (suc k) output n body z t pos_n long fits clean =
    let line = (take_line (room_of n) output).0 in
    let rest = (take_line (room_of n) output).1 in
    let bounds = room_of-bounds n pos_n in
    let small : room_of n ≤ length output = omega (arith, bounds.0, long) in
    let more : is_empty output && ltb 0 (room_of n) ≡ false = no_end output (room_of n) small in
    let (t1, left, round) = read_output-piece k output n body z t pos_n fits clean more in
    let sizes = sym (length-append line rest) ∙ ap length (take_line-append (room_of n) output) in
    let short = length-take_line (room_of n) output in
    round
    ∙ ap
        (λ b.
          read_output k rest b (n - length line) (length (body ++ line)) ((body ++ line) ++ 0 ∷ t1))
        (hits_end-false (room_of n) output small)
    ∙ read_output-endless k rest (n - length line) (body ++ line) 0 t1
        (omega (arith, short, bounds.0)) (omega (arith, sizes, long))
        (omega (arith, left, fits, short, bounds.0)) (take_line-NoZero (room_of n) output clean).1

-- The output without the newline at its end.
abbrev pub cut : List ℕ → List ℕ
cut [] = []
cut (ch ∷ []) = if ch == newline then [] else ch ∷ []
cut (ch ∷ next ∷ rest) = ch ∷ cut (next ∷ rest)

clear_newline-cut :
    (ch : ℕ) (output t : List ℕ)
    → (rest : List ℕ) × (clear_newline (suc (length output)) (ch ∷ output ++ 0 ∷ t)
        ≡ cut (ch ∷ output) ++ 0 ∷ rest)
unfolding clear_newline
clear_newline-cut ch [] t = elim (Bool-cases (ch == newline)) [
  | inl e ↦ (0 ∷ t, rw e)
  | inr e ↦ (t, rw e)
]
clear_newline-cut ch (next ∷ output) t =
    let (rest, e) = clear_newline-cut next output t in (rest, ap (λ o. ch ∷ o) e)

module _ (fuel : ℕ) (popen : List ℕ → Option (List ℕ)) (command rbuf : List ℕ) (rbuflen : ℕ)
    (fits : rbuflen ≤ length rbuf) where
  -- For a buffer of at least `rbuflen` bytes and a command whose output is not empty, has no zero
  -- byte and has at least two bytes less than `rbuflen`, the call ends, with a round of its loop for each byte at
  -- most and one for the end of the stream, and the buffer begins with the output, without the
  -- newline at its end, and a zero byte.
  pub excute_cmd-ends :
      (ch : ℕ) (output : List ℕ)
      → popen (take 127 command) ≡ some (ch ∷ output)
      → NoZero (ch ∷ output)
      → length (ch ∷ output) + 1 < rbuflen
      → length (ch ∷ output) < fuel
      → (rest : List ℕ) × (excute_cmd fuel popen (some rbuf) rbuflen command
          ≡ ended (length (ch ∷ output)) (cut (ch ∷ output) ++ 0 ∷ rest))
  unfolding excute_cmd
  excute_cmd-ends ch output runs clean room enough = ends rbuf fits
    where
      ends :
          (rbuf : List ℕ)
          → rbuflen ≤ length rbuf
          → (rest : List ℕ) × (collect fuel (popen (take 127 command)) (some rbuf) rbuflen
              ≡ ended (length (ch ∷ output)) (cut (ch ∷ output) ++ 0 ∷ rest))
      ends [] fits = absurd (omega arith)
      ends (z ∷ t) fits =
          let (t', read) =
            read_output-Collects fuel (ch ∷ output) false rbuflen [] z t (λ e. absurd cc) room fits
              clean enough in
          let (rest, e) = clear_newline-cut ch output t' in
          (rest, rw (runs, read) (ap (λ o. ended (suc (length output)) o) e))

  -- For a buffer of at least `rbuflen` bytes, where `rbuflen` is not 0, and a command whose output
  -- has no zero byte and has `rbuflen - 1` bytes or more, the call does not end: its loop comes to a room of one byte,
  -- for which `fgets` reads nothing and returns.
  pub excute_cmd-endless :
      (output : List ℕ)
      → popen (take 127 command) ≡ some output
      → NoZero output
      → 0 < rbuflen
      → rbuflen ≤ length output + 1
      → excute_cmd fuel popen (some rbuf) rbuflen command ≡ out_of_fuel
  unfolding excute_cmd
  excute_cmd-endless output runs clean some_room long = endless rbuf fits
    where
      endless :
          (rbuf : List ℕ)
          → rbuflen ≤ length rbuf
          → collect fuel (popen (take 127 command)) (some rbuf) rbuflen ≡ out_of_fuel
      endless [] fits = absurd (omega arith)
      endless (z ∷ t) fits =
          rw (runs, read_output-endless fuel output rbuflen [] z t some_room long fits clean)
