-- ===== src/Fifo/Refine.antt =====
-- The byte queue against a list of bytes, oldest first.
use native.Mathlib.Nat.{mod-add-mod, mod-eq-sub-mod, mod-eq_of_lt, mod-lt, mod-mod}
use native.Mathlib.Numerals.{add-one}
use native.Mathlib.Decide.{dec_lt}
use uart.Base.{
  ℕ, zero, suc, ◌+◌, ◌-◌, ◌%◌, ◌<◌, ◌≡◌, refl, sym, ap, ap₂, ◌∙◌, ◌≢◌, List, [], ◌∷◌, ◌++◌, arith,
  length, get_or, set, get_or-set_self, get_or-set_ne,
}
use uart.Fifo.{Fifo}
use uart.Fifo.Inv.{IsValid, with_byte, without_byte}

-- The `n` bytes from position `at` on; a position counts on past the end of the buffer.
abbrev pub cells : List ℕ → (size at n : ℕ) → List ℕ
cells buf size at zero = []
cells buf size at (suc n) = get_or buf (at % size) 0 ∷ cells buf size (at + 1) n

abbrev pub contents : Fifo → List ℕ
contents f = cells f.buffer f.buf_size f.tail f.data_len

pub length-cells : (buf : List ℕ) (size at n : ℕ) → length (cells buf size at n) ≡ n
length-cells buf size at zero = refl
length-cells buf size at (suc n) = ap suc (length-cells buf size (at + 1) n)

pub length-contents : (f : Fifo) → length (contents f) ≡ f.data_len
length-contents f = length-cells f.buffer f.buf_size f.tail f.data_len

-- Positions that agree round the buffer show the same bytes.
cells-mod :
    (buf : List ℕ) (size p q n : ℕ) → p % size ≡ q % size → cells buf size p n ≡ cells buf size q n
cells-mod buf size p q zero e = refl
cells-mod buf size p q (suc n) e =
    ap₂ (λ i r. get_or buf i 0 ∷ r) e
      (cells-mod buf size (p + 1) (q + 1) n
        (sym (mod-add-mod p size 1) ∙ ap (λ k. (k + 1) % size) e ∙ mod-add-mod q size 1))

-- Two positions less than one round apart lie in two places.
mod-ne : (size p d : ℕ) → 0 < d → d < size → (p + d) % size ≢ p % size
mod-ne size p d hd hs e = elim (dec_lt (p % size + d) size) [
  | yes h ↦ omega (arith, sym (mod-add-mod p size d) ∙ mod-eq_of_lt h)
  | no h ↦ omega (
    arith,
    sym (mod-add-mod p size d) ∙ mod-eq-sub-mod {n = p % size + d} {m = size} (omega arith),
    mod-lt p {m = size},
    mod-eq_of_lt {n = p % size + d - size} {m = size} (omega (arith, mod-lt p {m = size})),
  )
]

-- A write behind the last of `n` bytes is the byte that follows them.
cells-set :
    (buf : List ℕ) (size at n i x : ℕ)
    → length buf ≡ size
    → n < size
    → i ≡ (at + n) % size
    → cells (set buf i x) size at (suc n) ≡ cells buf size at n ++ x ∷ []
cells-set buf size at zero i x hl hn e =
    let i_at : i ≡ at % size = e ∙ ap (λ k. k % size) (omega arith) in
    rw i_at
      (ap (λ y. y ∷ []) (get_or-set_self buf (at % size) x 0 (omega (arith, mod-lt at {m = size}))))
cells-set buf size at (suc n) i x hl hn e =
    ap₂ ◌∷◌ (get_or-set_ne buf i (at % size) x 0 (rw e (mod-ne size at (suc n) (omega arith) hn)))
      (cells-set buf size (at + 1) n i x hl (omega arith) (e ∙ ap (λ k. k % size) (omega arith)))

module _ {f : Fifo} (v : IsValid f) where
  pub contents-with_byte :
      (x : ℕ) → f.data_len ≢ f.buf_size → contents (with_byte f x) ≡ contents f ++ x ∷ []
  contents-with_byte x ne = rw add-one (
      cells-set f.buffer f.buf_size f.tail f.data_len f.head x v.sized (omega (arith, v)) v.head_at)

  pub contents-without_byte :
      f.data_len ≢ 0 → contents f ≡ get_or f.buffer f.tail 0 ∷ contents (without_byte f)
  contents-without_byte ne =
      ap (cells f.buffer f.buf_size f.tail) {y = suc (f.data_len - 1)} (omega arith)
      ∙ ap₂ (λ i r. get_or f.buffer i 0 ∷ r) (mod-eq_of_lt (omega (arith, v)))
          (cells-mod f.buffer f.buf_size (f.tail + 1) ((f.tail + 1) % f.buf_size) (f.data_len - 1)
            (sym (mod-mod (f.tail + 1) f.buf_size)))
