-- ===== src/Base/Text.antt =====
-- The operations of Rust's `str` that the program calls: trimming, ASCII case, prefixes, taking
-- characters, parsing and printing numbers.
use Prim.Native.Nat.{ℕ, zero, suc, ◌+◌, ◌-◌, ◌*◌, ◌/◌, ◌%◌, ◌^◌, ◌≤◌}
use Prim.Native.Char.{Char, code}
use Prim.Native.String.{String, ◌++◌}
use mathlib.Core.Path.{◌≡◌, refl}
use mathlib.Core.Bool.{Bool, true, false, ◌&&◌, ◌||◌}
use mathlib.Core.Option.{Option, none, some}
use mathlib.Core.List.{List, [], ◌∷◌}
use native.Mathlib.Omega.{arith}
use tv_bot_core.Base.Tests.{ltb, leb, ◌==◌, if◌then◌else◌}
use tv_bot_core.Base.Int.{ℤ, pos, negsuc}

-- `char::is_whitespace`, the Unicode property `White_Space`.
unfoldable pub is_whitespace : ℕ → Bool
is_whitespace c =
    leb 9 c && leb c 13
    || c == 32
    || c == 0x85
    || c == 0xA0
    || c == 0x1680
    || leb 0x2000 c && leb c 0x200A
    || c == 0x2028
    || c == 0x2029
    || c == 0x202F
    || c == 0x205F
    || c == 0x3000

unfoldable pub is_blank : String → Bool
is_blank String.[] = true
is_blank (String.◌∷◌ c s) = is_whitespace (code c) && is_blank s

abbrev pub is_empty : String → Bool
is_empty String.[] = true
is_empty (String.◌∷◌ c s) = false

unfoldable pub trim_start : String → String
unfolding is_whitespace
trim_start String.[] = ""
trim_start (String.◌∷◌ c s) = if is_whitespace (code c) then trim_start s else String.◌∷◌ c s

-- Puts a character before a text that is trimmed at its end.
abbrev push_trimmed : Char → String → String
push_trimmed c String.[] = if is_whitespace (code c) then "" else String.◌∷◌ c ""
push_trimmed c (String.◌∷◌ d s) = String.◌∷◌ c (String.◌∷◌ d s)

unfoldable pub trim_end : String → String
unfolding is_whitespace
trim_end String.[] = ""
trim_end (String.◌∷◌ c s) = push_trimmed c (trim_end s)

-- `str::trim`
unfoldable pub trim : String → String
unfolding trim_start trim_end
trim s = trim_end (trim_start s)

-- `s.chars().take(n).collect()`
unfoldable pub take_chars : ℕ → String → String
take_chars zero s = ""
take_chars (suc n) String.[] = ""
take_chars (suc n) (String.◌∷◌ c s) = String.◌∷◌ c (take_chars n s)

-- `s.chars().count()`
abbrev pub count_chars : String → ℕ
count_chars String.[] = 0
count_chars (String.◌∷◌ c s) = suc (count_chars s)

abbrev ascii_lower : ℕ → ℕ
ascii_lower c = if leb b'A' c && leb c b'Z' then c + 32 else c

-- `str::eq_ignore_ascii_case`
unfoldable pub eq_ignore_ascii_case : String → String → Bool
eq_ignore_ascii_case String.[] String.[] = true
eq_ignore_ascii_case String.[] (String.◌∷◌ d t) = false
eq_ignore_ascii_case (String.◌∷◌ c s) String.[] = false
eq_ignore_ascii_case (String.◌∷◌ c s) (String.◌∷◌ d t) =
    ascii_lower (code c) == ascii_lower (code d) && eq_ignore_ascii_case s t

-- `s.strip_prefix(p)`
unfoldable pub strip_prefix : String → String → Option String
strip_prefix String.[] s = some s
strip_prefix (String.◌∷◌ c p) String.[] = none
strip_prefix (String.◌∷◌ c p) (String.◌∷◌ d s) = if code c == code d then strip_prefix p s else none

abbrev is_digit : ℕ → Bool
is_digit c = leb b'0' c && leb c b'9'

-- The number that digits spell behind `n`; `none` at a character that is no digit.
unfoldable pub digits_value : ℕ → String → Option ℕ
digits_value n String.[] = some n
digits_value n (String.◌∷◌ c s) =
    let rest = digits_value (n * 10 + (code c - b'0')) s in if is_digit (code c) then rest else none

abbrev unsigned_value : String → Option ℕ
unsigned_value String.[] = none
unsigned_value (String.◌∷◌ c s) = digits_value 0 (String.◌∷◌ c s)

abbrev to_i64 : Bool → Option ℕ → Option ℤ
to_i64 negative none = none
to_i64 true (some zero) = some (pos 0)
to_i64 true (some (suc n)) = if ltb n (2 ^ 63) then some (negsuc n) else none
to_i64 false (some n) = if ltb n (2 ^ 63) then some (pos n) else none

-- `s.parse::<i64>().ok()`: an optional sign, then one or more digits, in range.
unfoldable pub parse_i64 : String → Option ℤ
unfolding digits_value
parse_i64 String.[] = none
parse_i64 (String.◌∷◌ c s) =
    if code c == b'-'
    then to_i64 true (unsigned_value s)
    else if code c == b'+'
    then to_i64 false (unsigned_value s)
    else to_i64 false (unsigned_value (String.◌∷◌ c s))

-- `s.parse::<usize>().ok()`: an optional plus, then one or more digits, in range.
abbrev to_usize : Option ℕ → Option ℕ
to_usize none = none
to_usize (some n) = if ltb n (2 ^ 64) then some n else none

unfoldable pub parse_usize : String → Option ℕ
unfolding digits_value
parse_usize String.[] = none
parse_usize (String.◌∷◌ c s) =
    if code c == b'+'
    then to_usize (unsigned_value s)
    else to_usize (unsigned_value (String.◌∷◌ c s))

-- A character before the first part of a text that is cut in two.
abbrev before : Char → Option (String × String) → Option (String × String)
before c none = none
before c (some (s, t)) = some (String.◌∷◌ c s, t)

-- The text before and behind the first `mark`, if there is one.
unfoldable pub split_once : ℕ → String → Option (String × String)
split_once mark String.[] = none
split_once mark (String.◌∷◌ c s) =
    if code c == mark then some ("", s) else before c (split_once mark s)

abbrev first_piece : Char → List String → List String
first_piece c [] = String.◌∷◌ c "" ∷ []
first_piece c (piece ∷ pieces) = String.◌∷◌ c piece ∷ pieces

-- `s.split(mark)`
unfoldable pub split : ℕ → String → List String
split mark String.[] = "" ∷ []
split mark (String.◌∷◌ c s) =
    let pieces = split mark s in if code c == mark then "" ∷ pieces else first_piece c pieces

abbrev prefixed : Char → Option String → Option String
prefixed c none = none
prefixed c (some s) = some (String.◌∷◌ c s)

-- The text without its last character, if that is `mark`.
unfoldable pub strip_last : ℕ → String → Option String
strip_last mark String.[] = none
strip_last mark (String.◌∷◌ c String.[]) = if code c == mark then some "" else none
strip_last mark (String.◌∷◌ c (String.◌∷◌ d s)) = prefixed c (strip_last mark (String.◌∷◌ d s))

-- `pieces.join(mark)`
unfoldable pub join : String → List String → String
join mark [] = ""
join mark (s ∷ []) = s
join mark (s ∷ t ∷ pieces) = s ++ (mark ++ join mark (t ∷ pieces))

digit : ℕ → String
digit zero = "0"
digit (suc zero) = "1"
digit (suc (suc zero)) = "2"
digit (suc (suc (suc zero))) = "3"
digit (suc (suc (suc (suc zero)))) = "4"
digit (suc (suc (suc (suc (suc zero))))) = "5"
digit (suc (suc (suc (suc (suc (suc zero)))))) = "6"
digit (suc (suc (suc (suc (suc (suc (suc zero))))))) = "7"
digit (suc (suc (suc (suc (suc (suc (suc (suc zero)))))))) = "8"
digit (suc (suc (suc (suc (suc (suc (suc (suc (suc _))))))))) = "9"

-- Sixty-four rounds are enough for every number below 10 ^ 64.
digits_of : ℕ → ℕ → String → String
digits_of zero n out = out
digits_of (suc f) n out =
    let out' = digit (n % 10) ++ out in
    let rest = digits_of f (n / 10) out' in if n / 10 == 0 then out' else rest

-- The decimal text of an unsigned number.
unfoldable pub show_unsigned : ℕ → String
unfolding digit digits_of
show_unsigned n = digits_of 64 n ""

-- The decimal text of an `i64`.
unfoldable pub show_i64 : ℤ → String
unfolding show_unsigned
show_i64 (pos n) = show_unsigned n
show_i64 (negsuc n) = "-" ++ show_unsigned (suc n)

-- `format!`: the pieces of a text, joined.
unfoldable pub format : List String → String
format [] = ""
format (s ∷ pieces) = s ++ format pieces

pub count_chars-take_chars : (n : ℕ) (s : String) → count_chars (take_chars n s) ≤ n
unfolding take_chars
count_chars-take_chars zero s = omega arith
count_chars-take_chars (suc n) String.[] = omega arith
count_chars-take_chars (suc n) (String.◌∷◌ c s) = omega (arith, count_chars-take_chars n s)

text_runs :
    (trim " \tab c " ≡ "ab c")
    × (parse_i64 "-42" ≡ some (negsuc 41))
    × (parse_i64 "9223372036854775808" ≡ none)
    × (parse_i64 "+" ≡ none)
    × (show_i64 (negsuc 119) ≡ "-120")
    × (eq_ignore_ascii_case "GCz6" "gcZ6" ≡ true)
    × (strip_prefix "contract:" "contract:77" ≡ some "77")
unfolding trim parse_i64 show_i64 eq_ignore_ascii_case strip_prefix
text_runs = (refl, refl, refl, refl, refl, refl, refl)
