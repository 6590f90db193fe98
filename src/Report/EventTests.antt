-- ===== src/Report/EventTests.antt =====
-- Commands and reported keys of src/report_key.c on concrete inputs.
use native.Mathlib.Decide.{ℕ_discrete}
use mathlib.Core.List.{List-discrete}
use uart.Base.{ℕ, ◌≡◌, ◌≢◌, refl, true, Option, none, some, List, [], ◌∷◌, ◌++◌, arith, pos, negsuc}
use uart.Daemon.Text.{Tm, IsTime}
use uart.Report.Event.{JsonC, Config, get_duercfg, report_key, events}
use uart.Report.Posted.{Reads, IsEvent, stamp, report_key-IsEvent}
use uart.Files.{take_line}
use uart.Report.Command.{out_of_fuel, ended, excute_cmd, read_output, hits_end, clear_newline}
use uart.Report.Output.{excute_cmd-ends, excute_cmd-endless}

-- An output with a zero byte: the text behind the zero byte of a piece is lost.
abbrev with_zero : List ℕ → Option (List ℕ)
with_zero _ = some (b'a' ∷ 0 ∷ b'b' ∷ [])

zero_in_output_test :
    excute_cmd 3 with_zero (some (7 ∷ 7 ∷ 7 ∷ 7 ∷ 7 ∷ [])) 5 (b'x' ∷ [])
    ≡ ended 1 (b'a' ∷ 0 ∷ 7 ∷ 7 ∷ 7 ∷ [])
unfolding excute_cmd read_output hits_end take_line clear_newline
zero_in_output_test = refl

-- The command "x" prints "a" and a newline.
abbrev prints : List ℕ → Option (List ℕ)
prints _ = some (b'a' ∷ 10 ∷ [])

excute_cmd-ends_example :
    (rest : List ℕ) × (excute_cmd 3 prints (some (0 ∷ 0 ∷ 0 ∷ 0 ∷ [])) 4 (b'x' ∷ [])
      ≡ ended 2 (b'a' ∷ 0 ∷ rest))
excute_cmd-ends_example =
    excute_cmd-ends 3 prints (b'x' ∷ []) (0 ∷ 0 ∷ 0 ∷ 0 ∷ []) 4 (omega arith) b'a' (10 ∷ []) refl
      (omega arith, (omega arith, tt)) (omega arith) (omega arith)

excute_cmd-endless_example : excute_cmd 9 prints (some (0 ∷ 0 ∷ 0 ∷ [])) 3 (b'x' ∷ []) ≡ out_of_fuel
excute_cmd-endless_example =
    excute_cmd-endless 9 prints (b'x' ∷ []) (0 ∷ 0 ∷ 0 ∷ []) 3 (omega arith) (b'a' ∷ 10 ∷ []) refl
      (omega arith, (omega arith, tt)) (omega arith) (omega arith)

-- JSON as it is built.
data Value : Type 0 where
  empty : Value
  string : List ℕ → Value
  with_field : Value → List ℕ → Value → Value
  with_item : Value → Value → Value

abbrev plain : JsonC
plain = record {
  Object = Value;
  json_object_new_object = empty;
  json_object_new_array = empty;
  json_object_new_string = string;
  json_object_object_add = with_field;
  json_object_array_add = with_item;
  json_object_to_json_string = λ o. [];
}

abbrev field_if : {k key : List ℕ} → Dec (k ≡ key) → Value → Option Value → Option Value
field_if (yes _) v rest = some v
field_if (no _) v rest = rest

look_up : Value → List ℕ → Option Value
look_up empty k = none
look_up (string s) k = none
look_up (with_item a v) k = none
look_up (with_field o key v) k = field_if (List-discrete ℕ_discrete k key) v (look_up o k)

items_of : Value → List Value
items_of empty = []
items_of (string s) = []
items_of (with_field o key v) = []
items_of (with_item a v) = items_of a ++ v ∷ []

field_if-yes :
    {k key : List ℕ} (d : Dec (k ≡ key)) (v : Value) (rest : Option Value)
    → k ≡ key
    → field_if d v rest ≡ some v
field_if-yes (yes _) v rest e = refl
field_if-yes (no ne) v rest e = absurd (ne e)

field_if-no :
    {k key : List ℕ} (d : Dec (k ≡ key)) (v : Value) (rest : Option Value)
    → k ≢ key
    → field_if d v rest ≡ rest
field_if-no (yes e) v rest ne = absurd (ne e)
field_if-no (no _) v rest ne = refl

plain-Reads : Reads plain
unfolding look_up items_of
plain-Reads = record {
  json_object_object_get = look_up;
  get_added = λ o v key. field_if-yes (List-discrete ℕ_discrete key key) v (look_up o key) refl;
  get_other =
      λ o v key other ne. field_if-no (List-discrete ℕ_discrete other key) v (look_up o other) ne;
  items = items_of;
  items_new = refl;
  items_added = λ a v. refl;
}

-- 2019-03-04 05:06:07
abbrev morning : Tm
morning = record {
  tm_sec = 7;
  tm_min = 6;
  tm_hour = 5;
  tm_mday = 4;
  tm_mon = 2;
  tm_year = 119;
  tm_wday = 1;
}

morning-IsTime : IsTime morning
morning-IsTime = record {
  sec = omega arith;
  minute = omega arith;
  hour = omega arith;
  mday = omega arith;
  mon = omega arith;
  year = omega arith;
  wday = omega arith;
}

abbrev good : Config
good = record { read_file = pos 12; parsed = true; found = true; attr = some (b'7' ∷ []) }

abbrev missing : Config
missing = record { read_file = negsuc 1; parsed = true; found = true; attr = none }

good-read : get_duercfg good ≡ (pos 12, some (b'7' ∷ []))
unfolding get_duercfg
good-read = refl

no_attr_test : (get_duercfg missing).1 ≡ none
unfolding get_duercfg
no_attr_test = refl

report_key-IsEvent_example :
    (infor list para : Value) × (report_key plain true true true good morning
        (b'1' ∷ [])
        (b'2' ∷ [])
        (b'3' ∷ [])
      ≡ some (record { posted = [] ∷ []; made = 9; put = 0; freed_id = true }))
    × (look_up infor events ≡ some list)
    × (items_of list ≡ para ∷ [])
    × IsEvent plain plain-Reads para (b'1' ∷ []) (b'7' ∷ []) (b'2' ∷ []) (b'3' ∷ []) (stamp morning)
unfolding look_up plain-Reads items_of
report_key-IsEvent_example =
    report_key-IsEvent plain plain-Reads good (pos 12) (b'7' ∷ []) morning (b'1' ∷ []) (b'2' ∷ [])
      (b'3' ∷ []) good-read morning-IsTime
