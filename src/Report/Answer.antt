-- ===== src/Report/Answer.antt =====
-- The posting of a report, `curl_init_and_reportdata` of src/report_key.c: the answer that it logs.
use uart.Base.{
  ℕ, ◌≡◌, ◌≢◌, refl, Bool, true, false, Option, none, some, List, [], ◌∷◌, ◌++◌, arith, ◌>>=◌, ◌==◌,
  if◌then◌else◌, ℤ, pos, negsuc,
}
use uart.Report.{MemoryStruct, Realloc, Grows, deliver, deliver-collects, body_of}

-- The text in a block, up to its zero byte; `none` where the block has none.
unfoldable pub text_in : List ℕ → Option (List ℕ)
text_in [] = none
text_in (b ∷ bs) =
    let rest = text_in bs in if b == 0 then some [] else do text ← rest; some (b ∷ text)

abbrev pub text_of : Option (List ℕ) → Option (List ℕ)
text_of none = none
text_of (some block) = text_in block

-- The call's result, the answer that it logs, and whether `chunk.memory` is freed.
pub record Answer : Type 0 where
  pub ret : ℤ
  pub logged : Option (List ℕ)
  pub freed : Bool

-- The call behind `curl_easy_perform`.
unfoldable pub log_answer : (res_ok : Bool) → MemoryStruct → Option Answer
log_answer false chunk = some (record { ret = pos 0; logged = none; freed = true })
log_answer true chunk = do
  text ← text_of chunk.memory
  some (record { ret = pos 0; logged = some text; freed = true })

-- `first` is the block of `malloc(1)`, `none` for null. The flags say whether `curl_easy_init` and
-- `curl_easy_perform` succeed; `pieces` are what the latter gives to the callback.
unfoldable pub curl_init_and_reportdata :
    Realloc
    → (first : Option (List ℕ)) → (got_curl res_ok : Bool) → (pieces : List (List ℕ))
    → Option Answer
curl_init_and_reportdata realloc first false res_ok pieces =
    some (record { ret = negsuc 0; logged = none; freed = false })
curl_init_and_reportdata realloc first true res_ok pieces = do
  chunk ← deliver realloc pieces (record { memory = first; size = 0 })
  log_answer res_ok chunk

-- The bytes before the first zero byte.
abbrev pub before_zero : List ℕ → List ℕ
before_zero [] = []
before_zero (b ∷ bs) = let rest = before_zero bs in if b == 0 then [] else b ∷ rest

abbrev pub NoZero : List ℕ → Type 0
NoZero [] = Unit {0}
NoZero (b ∷ bs) = (b ≢ 0) × NoZero bs

text_in-terminated : (body rest : List ℕ) → NoZero body → text_in (body ++ 0 ∷ rest) ≡ some body
unfolding text_in
text_in-terminated [] rest n = refl
text_in-terminated (b ∷ bs) rest (ne, n) =
    let other : (b == 0) ≡ false = ground arith in rw (other, text_in-terminated bs rest n)

-- Where memory is there and the answer's body comes in at least one piece and has no zero byte, the
-- body is logged whole, though the first block has one byte that is not set; the call returns 0 and
-- frees what it collected.
pub curl_init_and_reportdata-logs :
    (realloc : Realloc)
    → Grows realloc
    → (unset : ℕ) (contents : List ℕ) (pieces : List (List ℕ))
    → NoZero (body_of (contents ∷ pieces))
    → curl_init_and_reportdata realloc (some (unset ∷ [])) true true (contents ∷ pieces)
      ≡ some (record { ret = pos 0; logged = some (body_of (contents ∷ pieces)); freed = true })
unfolding curl_init_and_reportdata log_answer
curl_init_and_reportdata-logs realloc grows unset contents pieces n = rw (
  deliver-collects realloc grows contents pieces [] unset,
  text_in-terminated (body_of (contents ∷ pieces)) [] n,
)

-- An answer without a body is read past the end of the first block, unless its byte happens to be 0.
pub no_body-overruns :
    (realloc : Realloc) (unset : ℕ)
    → unset ≢ 0
    → curl_init_and_reportdata realloc (some (unset ∷ [])) true true [] ≡ none
unfolding curl_init_and_reportdata log_answer deliver text_in
no_body-overruns realloc unset ne = let other : (unset == 0) ≡ false = ground arith in rw other
