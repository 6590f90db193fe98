-- ===== src/Report.antt =====
-- The collecting of an answer's body in src/report_key.c: `WriteMemoryCallback`, which libcurl calls
-- with each piece of the body.
pub mod Answer
pub mod Event
pub mod Posted
pub mod Command
pub mod Output
mod Tests
mod EventTests
use uart.Base.{
  ℕ, zero, suc, ◌+◌, ◌≤◌, ◌<◌, ◌≡◌, refl, true, sym, ap, ◌∙◌, Option, none, some, List, [], ◌∷◌,
  ◌++◌, arith, length, drop, ◌>>=◌, ◌==◌, if◌then◌else◌, length-append, length-drop, append_assoc,
  append-nil,
}
use uart.Daemon.Read.{copy_at}
use uart.Format.Fill.{copy_at-at}

-- `struct MemoryStruct`: `memory` is the block that the pointer leads to.
pub record MemoryStruct : Type 0 where
  pub memory : Option (List ℕ)
  pub size : ℕ

-- The C library's `realloc`: from a block and a size, the block of that size.
abbrev pub Realloc : Type 0
Realloc = Option (List ℕ) → ℕ → Option (List ℕ)

-- The callback behind `realloc`, on that call's result.
unfoldable pub write_memory :
    (contents : List ℕ) → (size : ℕ) → Option (List ℕ) → Option (ℕ × MemoryStruct)
write_memory contents size none = some (0, record { memory = none; size = size })
write_memory contents size (some block) = do
  block' ← copy_at block size contents
  block'' ← copy_at block' (size + length contents) (0 ∷ [])
  some (length contents, record { memory = some block''; size = size + length contents })

-- `contents` has `size * nmemb` bytes. The result is the call's, and what `userp` leads to.
unfoldable pub write_memory_callback :
    Realloc → (contents : List ℕ) → MemoryStruct → Option (ℕ × MemoryStruct)
write_memory_callback realloc contents mem =
    write_memory contents mem.size (realloc mem.memory (mem.size + length contents + 1))

-- The calls for the pieces of a body, in order. libcurl stops behind a call that does not return
-- the number of bytes that it was given.
unfoldable pub deliver : Realloc → (pieces : List (List ℕ)) → MemoryStruct → Option MemoryStruct
deliver realloc [] mem = some mem
deliver realloc (contents ∷ pieces) mem = do
  (n, mem') ← write_memory_callback realloc contents mem
  let all = deliver realloc pieces mem'
  if n == length contents then all else some mem'

-- What is relied on of `realloc` where memory is there: a block that grows keeps its bytes.
abbrev pub Grows : Realloc → Type 0
Grows realloc =
    (block : List ℕ) (n : ℕ)
    → length block ≤ n
    → (rest : List ℕ) × (realloc (some block) n ≡ some (block ++ rest))
      × (length block + length rest ≡ n)

abbrev pub body_of : List (List ℕ) → List ℕ
body_of [] = []
body_of (p ∷ ps) = p ++ body_of ps

-- The bytes `body` have been collected, and a byte stands behind them.
abbrev pub holding : (body : List ℕ) (last : ℕ) → MemoryStruct
holding body last = record { memory = some (body ++ last ∷ []); size = length body }

one_left : (xs : List ℕ) → length xs ≡ 1 → (x : ℕ) × (xs ≡ x ∷ [])
one_left [] h = absurd (omega arith)
one_left (x ∷ []) h = (x, refl)
one_left (x ∷ y ∷ xs) h = absurd (omega arith)

write_memory-over :
    (body : List ℕ) (last : ℕ) (contents rest : List ℕ) (x : ℕ)
    → length contents ≤ suc (length rest)
    → drop (length contents) (last ∷ rest) ≡ x ∷ []
    → write_memory contents (length body) (some ((body ++ last ∷ []) ++ rest))
      ≡ some (length contents, holding (body ++ contents) 0)
unfolding write_memory
write_memory-over body last contents rest x h left = rw (
  append_assoc body (last ∷ []) rest,
  copy_at-at body (last ∷ rest) contents h,
  left,
  sym (append_assoc body contents (x ∷ [])),
  sym (length-append body contents),
  copy_at-at (body ++ contents) (x ∷ []) (0 ∷ []) (omega arith),
)

write_memory-fills :
    (body : List ℕ) (last : ℕ) (contents rest : List ℕ)
    → length rest ≡ length contents
    → write_memory contents (length body) (some ((body ++ last ∷ []) ++ rest))
      ≡ some (length contents, holding (body ++ contents) 0)
write_memory-fills body last contents rest h =
    let (x, left) =
      one_left (drop (length contents) (last ∷ rest))
        (omega (arith, h, length-drop (length contents) (last ∷ rest))) in
    write_memory-over body last contents rest x (omega (arith, h)) left

module _ (realloc : Realloc) (grows : Grows realloc) where
  write_memory_callback-appends :
      (body : List ℕ) (last : ℕ) (contents : List ℕ)
      → write_memory_callback realloc contents (holding body last)
        ≡ some (length contents, holding (body ++ contents) 0)
  unfolding write_memory_callback
  write_memory_callback-appends body last contents =
      let size = length-append body (last ∷ []) in
      let (rest, grown, total) =
        grows (body ++ last ∷ []) (length body + length contents + 1) (omega (arith, size)) in
      ap (λ b. write_memory contents (length body) b) grown
      ∙ write_memory-fills body last contents rest (omega (arith, size, total))

  -- Where memory is there, the pieces of a body, of which there is at least one, are collected
  -- whole and in order, with a zero byte behind them and `size` their length without it.
  pub deliver-collects :
      (contents : List ℕ) (pieces : List (List ℕ)) (body : List ℕ) (last : ℕ)
      → deliver realloc (contents ∷ pieces) (holding body last)
        ≡ some (holding (body ++ body_of (contents ∷ pieces)) 0)
  unfolding deliver
  deliver-collects contents [] body last =
      let same : (length contents == length contents) ≡ true = ground arith in
      rw (write_memory_callback-appends body last contents, same, append-nil contents)
  deliver-collects contents (p ∷ ps) body last =
      let same : (length contents == length contents) ≡ true = ground arith in
      let others = deliver-collects p ps (body ++ contents) 0 in
      rw (write_memory_callback-appends body last contents, same)
        (others ∙ ap (λ b. some (holding b 0)) (append_assoc body contents (body_of (p ∷ ps))))
