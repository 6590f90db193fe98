-- ===== src/Daemon/Text.antt =====
-- The text that `Process_AT_TIME_CMD` of src/uart_protocol.c sends: decimal fields by `snprintf`.
use native.Mathlib.Decide.{dec_lt}
use uart.Base.{
  length-take, ℕ, zero, suc, ◌+◌, ◌-◌, ◌/◌, ◌%◌, ◌≤◌, ◌<◌, ◌≡◌, ap₂, List, [], ◌∷◌, ◌++◌, arith,
  length, take, replicate, ltb, false, if◌then◌else◌,
}

-- The digits of `%d` for a number that is not negative: ten are enough for an `int`.
decimal_from : (fuel : ℕ) → ℕ → List ℕ
decimal_from zero n = []
decimal_from (suc k) n =
    let more = decimal_from k (n / 10) ++ (b'0' + n % 10) ∷ [] in
    if ltb n 10 then (b'0' + n) ∷ [] else more

pub decimal : ℕ → List ℕ
unfolding decimal_from
decimal n = decimal_from 10 n

-- `%02d` and `%4d`: at least `width` characters, filled on the left.
abbrev pub padded : (fill width : ℕ) → List ℕ → List ℕ
padded fill width ds = replicate (width - length ds) fill ++ ds

-- The fields of `struct tm` that are read. `tm_year` counts from 1900 and `tm_mon` from 0.
pub record Tm : Type 0 where
  pub tm_sec : ℕ
  pub tm_min : ℕ
  pub tm_hour : ℕ
  pub tm_mday : ℕ
  pub tm_mon : ℕ
  pub tm_year : ℕ
  pub tm_wday : ℕ

abbrev pub two : ℕ → List ℕ
two n = padded b'0' 2 (decimal n)

-- "AXX+TIM+" and "&"
abbrev pub time_prefix : List ℕ
time_prefix = b'A' ∷ b'X' ∷ b'X' ∷ b'+' ∷ b'T' ∷ b'I' ∷ b'M' ∷ b'+' ∷ []

-- `snprintf(run, 64, ...)` writes at most 63 characters.
unfoldable pub time_text : Tm → List ℕ
unfolding decimal
time_text tm = take 63 (
    time_prefix
    ++ (two tm.tm_sec
        ++ (two tm.tm_min
            ++ (two tm.tm_hour
                ++ (two tm.tm_mday
                    ++ (decimal tm.tm_wday
                        ++ (two (tm.tm_mon + 1)
                            ++ (padded b' ' 4 (decimal (tm.tm_year + 1900)) ++ b'&' ∷ []))))))))

-- The fields as `localtime` gives them, before the year 10000.
pub record IsTime (tm : Tm) : Type 0 where
  pub sec : tm.tm_sec ≤ 60
  pub minute : tm.tm_min < 60
  pub hour : tm.tm_hour < 24
  pub mday : tm.tm_mday ≤ 31
  pub mon : tm.tm_mon < 12
  pub year : tm.tm_year < 8100
  pub wday : tm.tm_wday < 7

-- What the receiver reads back: the two digits of a field.
abbrev pub digits2 : ℕ → List ℕ
digits2 n = (b'0' + n / 10) ∷ (b'0' + n % 10) ∷ []

decimal_from-small : (k n : ℕ) → n < 10 → decimal_from (suc k) n ≡ (b'0' + n) ∷ []
unfolding decimal_from
decimal_from-small k n h = ground arith

decimal_from-big :
    (k n : ℕ) → 10 ≤ n → decimal_from (suc k) n ≡ decimal_from k (n / 10) ++ (b'0' + n % 10) ∷ []
unfolding decimal_from
decimal_from-big k n h = let big : ltb n 10 ≡ false = ground arith in rw big

pub two_lem : (n : ℕ) → n < 100 → two n ≡ digits2 n
unfolding decimal
two_lem n h = elim (dec_lt n 10) [
  | yes small ↦
      rw (decimal_from-small 9 n small) (ap₂ (λ a b. a ∷ b ∷ []) (omega arith) (omega arith))
  | no big ↦ rw (decimal_from-big 9 n (omega arith), decimal_from-small 8 (n / 10) (omega arith))
]

pub decimal_four_lem :
    (n : ℕ) → 1900 ≤ n → n < 10000 → decimal n ≡ digits2 (n / 100) ++ digits2 (n % 100)
unfolding decimal
decimal_four_lem n lo hi =
    rw
      (
        decimal_from-big 9 n (omega arith),
        decimal_from-big 8 (n / 10) (omega arith),
        decimal_from-big 7 (n / 10 / 10) (omega arith),
        decimal_from-small 6 (n / 10 / 10 / 10) (omega arith),
      )
      (ap₂ (λ a b. a ++ b) (ap₂ (λ a b. a ∷ b ∷ []) (omega arith) (omega arith))
        (ap₂ (λ a b. a ∷ b ∷ []) (omega arith) (omega arith)))

four_lem :
    (n : ℕ)
    → 1900 ≤ n
    → n < 10000
    → padded b' ' 4 (decimal n) ≡ digits2 (n / 100) ++ digits2 (n % 100)
four_lem n lo hi = rw (decimal_four_lem n lo hi)

-- For every time that `localtime` gives before the year 10000, the message is not cut off: it is
-- the prefix, two digits for each of second, minute, hour and day, one for the day of the week, two
-- for the month, four for the year, and `&`.
pub time_text_lem :
    (tm : Tm)
    → IsTime tm
    → time_text tm
      ≡ time_prefix
        ++ (digits2 tm.tm_sec
            ++ (digits2 tm.tm_min
                ++ (digits2 tm.tm_hour
                    ++ (digits2 tm.tm_mday
                        ++ (b'0' + tm.tm_wday)
                          ∷ (digits2 (tm.tm_mon + 1)
                              ++ (digits2 ((tm.tm_year + 1900) / 100)
                                  ++ (digits2 ((tm.tm_year + 1900) % 100) ++ b'&' ∷ [])))))))
unfolding time_text
time_text_lem tm t = rw (
  two_lem tm.tm_sec (omega (arith, t)),
  two_lem tm.tm_min (omega (arith, t)),
  two_lem tm.tm_hour (omega (arith, t)),
  two_lem tm.tm_mday (omega (arith, t)),
  two_lem (tm.tm_mon + 1) (omega (arith, t)),
  four_lem (tm.tm_year + 1900) (omega arith) (omega (arith, t)),
  decimal_from-small 9 tm.tm_wday (omega (arith, t)),
)

take-le : (n : ℕ) (xs : List ℕ) → length (take n xs) ≤ n
take-le n xs = omega (arith, length-take n xs)

pub time_text-short : (tm : Tm) → length (time_text tm) ≤ 63
unfolding time_text
time_text-short tm = take-le 63 (
    time_prefix
    ++ (two tm.tm_sec
        ++ (two tm.tm_min
            ++ (two tm.tm_hour
                ++ (two tm.tm_mday
                    ++ (decimal tm.tm_wday
                        ++ (two (tm.tm_mon + 1)
                            ++ (padded b' ' 4 (decimal (tm.tm_year + 1900)) ++ b'&' ∷ []))))))))
