-- ===== src/Search/Value.antt =====
-- internal/search: JSON values and how they are turned into index keys and terms. A number is an
-- integer; fractions are not modelled. What is neither a string, a number nor a boolean carries its
-- `%v` form.
use go_es.Prelude.{
  ℕ, zero, suc, ◌+◌, ◌/◌, ◌%◌, Bool, true, false, Option, none, some, List, [], ◌∷◌, ◌++◌, nat_eq,
  leb, ◌&&◌, ◌||◌, if◌then◌else◌, Text, text,
}
use go_es.Prelude.Int.{ℤ, pos, negsuc}

pub data Value : Type 0 where
  string : Text → Value
  number : ℤ → Value
  boolean : Bool → Value
  other : Text → Value

-- The loop of `formatInt`: the digits of a positive number before those that are written already.
unfoldable pub digits_before : ℕ → ℕ → Text → Text
digits_before zero n buf = buf
digits_before (suc fuel) n buf =
    let rest : Text = digits_before fuel (n / 10) ((b'0' + n % 10) ∷ buf) in
    if nat_eq n 0 then buf else rest

-- A number has at most as many digits as its value.
unfoldable pub format_nat : ℕ → Text
unfolding digits_before
format_nat n = if nat_eq n 0 then text "0" else digits_before n n []

-- `formatInt`, for an int64 other than the least, of which the code cannot take the absolute value.
unfoldable pub format_int : ℤ → Text
unfolding format_nat
format_int (pos n) = format_nat n
format_int (negsuc n) = b'-' ∷ format_nat (suc n)

abbrev pub format_bool : Bool → Text
format_bool true = text "true"
format_bool false = text "false"

-- The key of the sorted index; `none` is not indexed.
unfoldable pub value_of : Value → Option Text
unfolding format_int
value_of (string s) = some s
value_of (number n) = some (format_int n)
value_of (boolean b) = some (format_bool b)
value_of (other t) = none

abbrev pub to_lower : ℕ → ℕ
to_lower c = if leb b'A' c && leb c b'Z' then c + 32 else c

unfoldable pub lower : Text → Text
lower [] = []
lower (c ∷ cs) = to_lower c ∷ lower cs

-- The term of a value that is not analysed.
unfoldable pub stringify : Value → Text
unfolding lower format_int
stringify (string s) = s
stringify (number n) = format_int n
stringify (boolean b) = format_bool b
stringify (other t) = lower t

unfoldable pub as_string_key : Value → Text
unfolding value_of stringify
as_string_key v = elim (value_of v) [ some s ↦ s | none ↦ stringify v ]

abbrev pub is_word : ℕ → Bool
is_word c = (leb b'a' c && leb c b'z') || (leb b'0' c && leb c b'9')

-- A finished word, if it has a byte.
abbrev pub emit : Text → List Text → List Text
emit [] rest = rest
emit (c ∷ cs) rest = (c ∷ cs) ∷ rest

-- `FieldsFunc`: the maximal runs of word bytes. The first argument is the run that is being read.
unfoldable pub words : Text → Text → List Text
words run [] = emit run []
words run (c ∷ cs) =
    let longer : List Text = words (run ++ c ∷ []) cs in
    let next : List Text = words [] cs in if is_word c then longer else emit run next

-- On ASCII text. A byte beyond it separates words, as its rune does, unless `ToLower` makes an ASCII
-- letter of the rune, as it does of the Kelvin sign.
unfoldable pub tokenize : Text → List Text
unfolding words lower
tokenize s = words [] (lower s)
