-- ===== src/Format.antt =====
-- The messages for dueros, src/dueros_handle.c: each function fills a buffer that it allocates, at
-- an index that it counts up, and returns the buffer with its length. `none` is a fault: a write
-- behind the end of the buffer, a read behind the arguments or from a `va_list` that is indeterminate, a
-- store through the null pointer.
pub mod Fill
pub mod Button
pub mod Text
pub mod Binary
mod Tests
use uart.Base.{
  ℕ, zero, suc, ◌+◌, ◌-◌, Bool, true, false, Option, none, some, List, [], ◌∷◌, ◌++◌, length,
  replicate, ◌>>=◌, if◌then◌else◌,
}
use uart.Daemon.Read.{copy_at}

-- `BUF_INF`
pub record BufInf : Type 0 where
  pub buf : List ℕ
  pub len : ℕ

-- `enum INSTRUCTION_TYPE`
abbrev pub button : ℕ
button = 0

abbrev pub url : ℕ
url = 1

abbrev pub direct_url_bufsize : ℕ
direct_url_bufsize = 1024

abbrev pub direct_button_bufsize : ℕ
direct_button_bufsize = 64

abbrev pub delimiter : ℕ
delimiter = b'`'

abbrev pub terminator : ℕ
terminator = 10

-- `dest` and `i`.
pub record Cursor : Type 0 where
  pub dest : List ℕ
  pub i : ℕ

-- The buffer behind `malloc` and `memset`.
abbrev pub blank : (size : ℕ) → Cursor
blank size = record { dest = replicate size 0; i = 0 }

-- `memcpy(&dest[i], src, n); i += n;` for the `n` bytes of `src`.
unfoldable pub append : List ℕ → Cursor → Option Cursor
append src c = do
  dest' ← copy_at c.dest c.i src
  some (record { dest = dest'; i = c.i + length src })

-- The same, then `dest[i++] = DELIMITER;`.
unfoldable pub append_field : List ℕ → Cursor → Option Cursor
append_field src c = do c' ← append src c; append (delimiter ∷ []) c'

-- `dest[i-1] = TERMINATOR;`
unfoldable pub terminate : Cursor → Option Cursor
terminate c = do
  dest' ← copy_at c.dest (c.i - 1) (terminator ∷ [])
  some (record { dest = dest'; i = c.i })

abbrev pub result : Cursor → BufInf
result c = record { buf = c.dest; len = c.i }

-- The loop over the arguments, as many rounds as the first argument. `bytes` are an int's bytes.
unfoldable pub button_loop : (bytes : ℕ → List ℕ) → ℕ → (args : List ℕ) → Cursor → Option Cursor
button_loop bytes zero args c = some c
button_loop bytes (suc k) [] c = none
button_loop bytes (suc k) (para ∷ args) c = do
  c' ← append_field (bytes para) c
  button_loop bytes k args c'

unfoldable pub button_text : (bytes : ℕ → List ℕ) → (sum src : ℕ) (args : List ℕ) → Option Cursor
button_text bytes sum src args = do
  c ← append_field (bytes button) (blank direct_button_bufsize)
  c' ← append_field (bytes src) c
  c'' ← button_loop bytes (sum - 1) args c'
  terminate c''

-- `none` inside is the null pointer, where `malloc` or `calloc` fails. The loop begins at 1, so
-- that it has `sum - 1` rounds; it has none for a `sum` that is negative, which is 0 here.
unfoldable pub format_duer_button_data :
    (bytes : ℕ → List ℕ)
    → (malloc calloc : Bool) → (sum src : ℕ) (args : List ℕ) → Option (Option BufInf)
format_duer_button_data bytes false calloc sum src args = some none
format_duer_button_data bytes true calloc sum src args = do
  c ← button_text bytes sum src args
  some (if calloc then some (result c) else none)

-- The C library's `vsprintf`: from a format and the variable arguments, the text that it writes,
-- less the zero byte behind it. The caller's `va_list` is indeterminate behind the call.
abbrev pub Vsprintf : Type 0
Vsprintf = List ℕ → List (List ℕ) → List ℕ

-- A `va_list`: the arguments that are left, `none` where it is indeterminate.
abbrev pub VaList : Type 0
VaList = Option (List (List ℕ))

-- `vsprintf(&dest[i], fmt, args); i += strlen(fmt); dest[i++] = DELIMITER;`
unfoldable pub print_field : (text fmt : List ℕ) → Cursor → Option Cursor
print_field text fmt c = do
  dest' ← copy_at c.dest c.i (text ++ 0 ∷ [])
  append (delimiter ∷ []) (record { dest = dest'; i = c.i + length fmt })

-- The loop from `va_arg` on, whose behaviour is undefined on a `va_list` that is indeterminate.
unfoldable pub string_loop : Vsprintf → ℕ → (args : VaList) → Cursor → Option Cursor
string_loop vsprintf zero args c = some c
string_loop vsprintf (suc k) none c = none
string_loop vsprintf (suc k) (some []) c = none
string_loop vsprintf (suc k) (some (para ∷ args)) c = do
  c' ← print_field (vsprintf para args) para c
  string_loop vsprintf k none c'

unfoldable pub string_text :
    (bytes : ℕ → List ℕ)
    → Vsprintf
    → (sum : ℕ) (src : List ℕ) (args : List (List ℕ)) → Option Cursor
string_text bytes vsprintf sum src args = do
  c ← append_field (bytes url) (blank direct_url_bufsize)
  c' ← print_field (vsprintf src args) src c
  c'' ← string_loop vsprintf (sum - 1) none c'
  terminate c''

-- The result of `calloc` is not tested here, nor below.
unfoldable pub format_duer_string_data :
    (bytes : ℕ → List ℕ)
    → Vsprintf
    → (malloc calloc : Bool) → (sum : ℕ) (src : List ℕ) (args : List (List ℕ))
    → Option (Option BufInf)
format_duer_string_data bytes vsprintf false calloc sum src args = some none
format_duer_string_data bytes vsprintf true calloc sum src args = do
  c ← string_text bytes vsprintf sum src args
  if calloc then some (some (result c)) else none

unfoldable pub binary_text : (bytes : ℕ → List ℕ) → (data_bytes : List ℕ) → Option Cursor
binary_text bytes data_bytes = do
  c ← append_field (bytes url) (blank direct_url_bufsize)
  c' ← append data_bytes c
  append (terminator ∷ []) c'

-- `data_bytes` are the `len` bytes at `data`.
unfoldable pub format_duer_binary_data :
    (bytes : ℕ → List ℕ) → (malloc calloc : Bool) → (data_bytes : List ℕ) → Option (Option BufInf)
format_duer_binary_data bytes false calloc data_bytes = some none
format_duer_binary_data bytes true calloc data_bytes = do
  c ← binary_text bytes data_bytes
  if calloc then some (some (result c)) else none
