-- ===== src/Report/Command.antt =====
-- The running of a command and the collecting of its output, `excute_cmd` of src/report_key.c. What
-- a command prints is an argument. The function returns 0 on every path.
use uart.Base.{
  ℕ, zero, suc, ◌+◌, ◌-◌, Bool, true, false, ◌&&◌, ◌||◌, Option, none, some, List, [], ◌∷◌, ◌++◌,
  length, take, ltb, ◌==◌, if◌then◌else◌,
}
use uart.Daemon.Read.{copy_at}
use uart.Report.Answer.{before_zero}
use uart.Files.{newline, take_line}

-- How a call ends: with the place behind what was written and the buffer, or with a write past the
-- buffer's end.
pub data Outcome : Type 0 where
  out_of_fuel : Outcome
  fault : Outcome
  ended : (p : ℕ) → (rbuf : List ℕ) → Outcome

-- Whether `fgets`, which `take_line` describes, comes to the end of the stream.
unfoldable pub hits_end : (room : ℕ) → List ℕ → Bool
hits_end zero output = false
hits_end (suc room) [] = true
hits_end (suc room) (ch ∷ output) =
    let more = hits_end room output in if ch == newline then false else more

-- The size that `fgets` is given, less one for the zero byte.
abbrev pub room_of : (rbuflen : ℕ) → ℕ
room_of rbuflen = (if ltb rbuflen 128 then rbuflen else 128) - 1

abbrev pub is_empty : List ℕ → Bool
is_empty [] = true
is_empty (_ ∷ _) = false

-- A round behind `fgets`, which returns null where `at_end`; `written` is the buffer behind
-- `snprintf`.
abbrev pub after_fgets :
    (at_end : Bool) → Outcome → (written : Option (List ℕ)) → (List ℕ → Outcome) → Outcome
after_fgets true stop written go_on = stop
after_fgets false stop none go_on = fault
after_fgets false stop (some rbuf) go_on = go_on rbuf

-- The loop. `output` is what is left of the stream and `eof` the stream's mark. `snprintf`
-- prints a piece up to its first zero byte, or whole, and returns the length of that text. The
-- piece is shorter than `rbuflen`, so that all of the text is written, with a zero byte.
unfoldable pub read_output :
    (fuel : ℕ) → (output : List ℕ) → (eof : Bool) → (rbuflen p : ℕ) → (rbuf : List ℕ) → Outcome
read_output zero output eof rbuflen p rbuf = out_of_fuel
read_output (suc k) output eof rbuflen p rbuf =
    let room = room_of rbuflen in
    let (line, rest) = take_line room output in
    let text = before_zero line in
    let go_on =
      read_output k rest (hits_end room output) (rbuflen - length text) (p + length text) in
    if eof || (rbuflen == 0)
    then ended p rbuf
    else after_fgets (is_empty output && ltb 0 room) (ended p rbuf)
        (copy_at rbuf p (text ++ 0 ∷ [])) go_on

-- A newline in front of `p` becomes a zero byte.
unfoldable pub clear_newline : (p : ℕ) → List ℕ → List ℕ
clear_newline zero rbuf = rbuf
clear_newline (suc p) [] = []
clear_newline (suc zero) (b ∷ rbuf) = (if b == newline then 0 else b) ∷ rbuf
clear_newline (suc (suc p)) (b ∷ rbuf) = b ∷ clear_newline (suc p) rbuf

abbrev pub cleared_end : Outcome → Outcome
cleared_end out_of_fuel = out_of_fuel
cleared_end fault = fault
cleared_end (ended p rbuf) = ended p (clear_newline p rbuf)

-- The output of the command that `popen` runs, `none` where it cannot be run. A null `rbuf` has no
-- room, whatever `rbuflen` says.
abbrev pub collect :
    (fuel : ℕ) → Option (List ℕ) → (rbuf : Option (List ℕ)) → (rbuflen : ℕ) → Outcome
collect fuel none none rbuflen = ended 0 []
collect fuel none (some rbuf) rbuflen = ended 0 rbuf
collect fuel (some output) none rbuflen = cleared_end (read_output fuel output false 0 0 [])
collect fuel (some output) (some rbuf) rbuflen =
    cleared_end (read_output fuel output false rbuflen 0 rbuf)

-- `command` is what `vsnprintf` would print without a limit; the local buffer has 128 bytes.
unfoldable pub excute_cmd :
    (fuel : ℕ)
    → (popen : List ℕ → Option (List ℕ)) → (rbuf : Option (List ℕ)) → (rbuflen : ℕ)
    → (command : List ℕ) → Outcome
excute_cmd fuel popen rbuf rbuflen command = collect fuel (popen (take 127 command)) rbuf rbuflen
