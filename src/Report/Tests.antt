-- ===== src/Report/Tests.antt =====
-- The collecting of an answer on concrete inputs.
use uart.Base.{
  ℕ, ◌-◌, ◌≡◌, refl, none, some, [], ◌∷◌, ◌++◌, arith, length, replicate, length-replicate, true,
  pos,
}
use uart.Report.{Realloc, Grows}
use uart.Report.Answer.{curl_init_and_reportdata, curl_init_and_reportdata-logs}

-- Fills what is new with nines.
abbrev nines : Realloc
nines none n = some (replicate n 9)
nines (some block) n = some (block ++ replicate (n - length block) 9)

nines-Grows : Grows nines
nines-Grows block n h = (
  replicate (n - length block) 9,
  refl,
  omega (arith, length-replicate {A = ℕ} (n - length block) 9),
)

curl_init_and_reportdata-logs_example :
    curl_init_and_reportdata nines (some (9 ∷ [])) true true ((1 ∷ 2 ∷ []) ∷ [] ∷ (3 ∷ []) ∷ [])
    ≡ some (record { ret = pos 0; logged = some (1 ∷ 2 ∷ 3 ∷ []); freed = true })
curl_init_and_reportdata-logs_example =
    curl_init_and_reportdata-logs nines nines-Grows 9 (1 ∷ 2 ∷ []) ([] ∷ (3 ∷ []) ∷ [])
      ((λ e. cc), ((λ e. cc), ((λ e. cc), tt)))
