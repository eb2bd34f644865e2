-- ===== src/Prelude/Text.antt =====
-- The operations of `str` that the program uses, on the native texts character by character, and
-- the decimal print of a number.
use Prim.Native.Nat.{ℕ, zero, suc, ◌+◌, ◌-◌, ◌*◌, ◌/◌, ◌%◌}
use Prim.Native.Char.{Char, code}
use Prim.Native.String.{String, ◌++◌}
use mathlib.Core.Path.{◌≡◌, refl}
use mathlib.Core.Bool.{Bool, true, false, not, ◌&&◌, ◌||◌}
use mathlib.Core.List.{List, [], ◌∷◌}
use mathlib.Core.Option.{Option, none, some}
use text.Mathlib.Text
use package.nomad_scale_to_zero.Prelude.Tests.{nat_eq, leb, if◌then◌else◌}

-- One character is another.
abbrev pub same : Char → Char → Bool
same c d = nat_eq (code c) (code d)

-- `format!("{}{}", s, t)`
abbrev pub append : String → String → String
append s t = s ++ t

-- `s.is_empty()`
abbrev pub is_empty : String → Bool
is_empty String.[] = true
is_empty (String.◌∷◌ c s) = false

-- `s.strip_prefix(p)`, with the prefix first.
unfoldable pub strip_prefix : String → String → Option String
strip_prefix String.[] s = some s
strip_prefix (String.◌∷◌ c p) String.[] = none
strip_prefix (String.◌∷◌ c p) (String.◌∷◌ d s) =
    let rest = strip_prefix p s in if same c d then rest else none

-- `s.split(c).next()`: the text up to the first `c`, or all of it.
unfoldable pub before : Char → String → String
before c String.[] = ""
before c (String.◌∷◌ d s) = let rest = before c s in if same c d then "" else String.◌∷◌ d rest

-- `s.split_once(c)`, its first part: `none` where `c` does not occur.
unfoldable pub before_sep : Char → String → Option String
before_sep c String.[] = none
before_sep c (String.◌∷◌ d s) = elim (same c d) [
  | true ↦ some ""
  | false ↦ elim (before_sep c s) [ none ↦ none | some r ↦ some (String.◌∷◌ d r) ]
]

abbrev digit : ℕ → String
digit n =
    if leb n 4
    then (if nat_eq n 0
        then "0"
        else if nat_eq n 1
        then "1"
        else if nat_eq n 2
        then "2"
        else if nat_eq n 3
        then "3"
        else "4")
    else (if nat_eq n 5
        then "5"
        else if nat_eq n 6
        then "6"
        else if nat_eq n 7
        then "7"
        else if nat_eq n 8
        then "8"
        else "9")

-- On fuel, one unit for each digit; a number has fewer digits than its successor has units.
show_digits : ℕ → ℕ → String → String
show_digits zero n acc = acc
show_digits (suc f) n acc =
    let more = show_digits f (n / 10) (digit (n % 10) ++ acc) in
    if leb n 9 then digit n ++ acc else more

-- `n.to_string()`
pub show : ℕ → String
unfolding show_digits
show n = show_digits (suc n) n ""

show_example : show 8080 ≡ "8080"
unfolding show
show_example = refl

-- `s.starts_with(p)`, with the prefix first.
abbrev pub starts_with : String → String → Bool
starts_with p s = Text.starts_with s p

-- `s.contains(p)`, with the pattern first.
unfoldable pub contains : String → String → Bool
contains p String.[] = starts_with p ""
contains p (String.◌∷◌ c s) =
    let rest = contains p s in if starts_with p (String.◌∷◌ c s) then true else rest

-- `s.rsplit_once(c)`, its second part: `none` where `c` does not occur.
unfoldable pub after_last : Char → String → Option String
after_last c String.[] = none
after_last c (String.◌∷◌ d s) = elim (after_last c s) [
  | some r ↦ some r
  | none ↦ if same c d then some s else none
]

-- `s.lines()`: without the line ends, a carriage return before one included; an empty last line does
-- not count.
abbrev drop_return : String → String
drop_return String.[] = ""
drop_return (String.◌∷◌ c s) =
    let rest = drop_return s in if nat_eq (code c) 13 && is_empty s then "" else String.◌∷◌ c rest

unfoldable pub lines_from : String → String → List String
lines_from acc String.[] = if is_empty acc then [] else acc ∷ []
lines_from acc (String.◌∷◌ c s) =
    let next = lines_from "" s in
    let same_line = lines_from (acc ++ String.◌∷◌ c "") s in
    if nat_eq (code c) 10 then drop_return acc ∷ next else same_line

abbrev pub lines : String → List String
lines s = lines_from "" s

-- `s.trim_end_matches(c)`
unfoldable pub trim_end : Char → String → String
trim_end c String.[] = ""
trim_end c (String.◌∷◌ d s) =
    let rest = trim_end c s in if same c d && is_empty rest then "" else String.◌∷◌ d rest

-- `a < b`: byte by byte, which for UTF-8 is character by character.
unfoldable pub text_lt : String → String → Bool
text_lt String.[] String.[] = false
text_lt String.[] (String.◌∷◌ d t) = true
text_lt (String.◌∷◌ c s) String.[] = false
text_lt (String.◌∷◌ c s) (String.◌∷◌ d t) =
    let rest = text_lt s t in if same c d then rest else leb (suc (code c)) (code d)

-- `s.split(c)`
unfoldable pub split_from : Char → String → String → List String
split_from c acc String.[] = acc ∷ []
split_from c acc (String.◌∷◌ d s) =
    let next = split_from c "" s in
    let same_part = split_from c (acc ++ String.◌∷◌ d "") s in
    if same c d then acc ∷ next else same_part

-- `char::is_whitespace`: Unicode's White_Space.
abbrev is_space : Char → Bool
is_space c =
    (nat_eq (code c) 32
      || (leb 9 (code c) && leb (code c) 13)
      || nat_eq (code c) 133
      || nat_eq (code c) 160
      || nat_eq (code c) 5760
      || (leb 8192 (code c) && leb (code c) 8202)
      || nat_eq (code c) 8232
      || nat_eq (code c) 8233
      || nat_eq (code c) 8239
      || nat_eq (code c) 8287
      || nat_eq (code c) 12288)

unfoldable pub trim_start : String → String
trim_start String.[] = ""
trim_start (String.◌∷◌ c s) = let rest = trim_start s in if is_space c then rest else String.◌∷◌ c s

unfoldable pub trim_right : String → String
trim_right String.[] = ""
trim_right (String.◌∷◌ c s) =
    let rest = trim_right s in if is_space c && is_empty rest then "" else String.◌∷◌ c rest

-- `a.eq_ignore_ascii_case(b)`
abbrev lower : ℕ → ℕ
lower n = if leb 65 n && leb n 90 then n + 32 else n

unfoldable pub eq_ignore_ascii_case : String → String → Bool
eq_ignore_ascii_case String.[] String.[] = true
eq_ignore_ascii_case (String.◌∷◌ c s) (String.◌∷◌ d t) =
    nat_eq (lower (code c)) (lower (code d)) && eq_ignore_ascii_case s t
eq_ignore_ascii_case _ _ = false

-- `s.to_ascii_lowercase().contains(p)`, for a `p` in lower case.
abbrev pub starts_lowered : String → String → Bool
starts_lowered String.[] s = true
starts_lowered (String.◌∷◌ c p) String.[] = false
starts_lowered (String.◌∷◌ c p) (String.◌∷◌ d s) =
    let rest = starts_lowered p s in if nat_eq (code c) (lower (code d)) then rest else false

unfoldable pub contains_lowered : String → String → Bool
contains_lowered p String.[] = starts_lowered p ""
contains_lowered p (String.◌∷◌ c s) =
    let rest = contains_lowered p s in if starts_lowered p (String.◌∷◌ c s) then true else rest

-- `parts.join(sep)`
unfoldable pub join : String → List String → String
join sep [] = ""
join sep (s ∷ []) = s
join sep (s ∷ t ∷ rest) = s ++ (sep ++ join sep (t ∷ rest))

-- `s.parse::<u64>()`: decimal digits with an optional plus before them.
abbrev parse_digits : ℕ → String → Option ℕ
parse_digits acc String.[] = some acc
parse_digits acc (String.◌∷◌ c s) =
    let value = acc * 10 + (code c - 48) in
    let rest = parse_digits value s in
    if leb 48 (code c) && leb (code c) 57 && leb value 18446744073709551615 then rest else none

unfoldable pub parse_u64 : String → Option ℕ
parse_u64 String.[] = none
parse_u64 (String.◌∷◌ c s) =
    if nat_eq (code c) 43 && not (is_empty s)
    then parse_digits 0 s
    else parse_digits 0 (String.◌∷◌ c s)

parse_u64_examples :
    (parse_u64 "420" ≡ some 420)
    × (parse_u64 "18446744073709551616" ≡ none)
    × (parse_u64 "+" ≡ none)
    × (parse_u64 "4a" ≡ none)
unfolding parse_u64
parse_u64_examples = (refl, refl, refl, refl)
