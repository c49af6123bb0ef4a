-- ===== src/Web/Numbers.antt =====
-- `std::stoull` and `std::stoul`, which the sessions call: `strtoull` in base 10 and in base 16.
pub mod Printed
use barbacoa_server_lib.Prelude.{
  ℕ, ◌+◌, ◌-◌, ◌*◌, ◌%◌, ◌^◌, Bool, true, false, List, [], ◌∷◌, Option, none, some, ltb, ◌==◌, ◌||◌,
  if◌then◌else◌,
}
use barbacoa_server_lib.Web.Percent.{hex_value}
use barbacoa_server_lib.Version.Istream.{is_digit, skip_spaces}

unfoldable pub decimal_value : ℕ → Option ℕ
decimal_value c = if is_digit c then some (c - 48) else none

abbrev pub appended : ℕ → Option ℕ → ℕ → Option ℕ
appended base none d = some d
appended base (some v) d = some (v * base + d)

abbrev pub on_digit : (ℕ → Option ℕ) → Option ℕ → Option ℕ → Option ℕ
on_digit go value none = value
on_digit go value (some d) = go d

-- The digits at the front, behind those of `value`; `none` is no digit at all.
unfoldable pub read_number : (ℕ → Option ℕ) → ℕ → Option ℕ → List ℕ → Option ℕ
read_number digit base value [] = value
read_number digit base value (c ∷ cs) =
    on_digit (λ d. read_number digit base (appended base value d) cs) value (digit c)

-- A number of 64 bits, or a throw, which is `none`: no digits, or a number too large.
unfoldable pub in_range : Bool → Option ℕ → Option ℕ
in_range minus none = none
in_range minus (some v) =
    if ltb v (2 ^ 64) then (if minus then some ((2 ^ 64 - v) % 2 ^ 64) else some v) else none

abbrev pub signed : (List ℕ → Option ℕ) → List ℕ → Option ℕ
signed magnitude [] = none
signed magnitude (c ∷ cs) =
    if c == b'-'
    then in_range true (magnitude cs)
    else (if c == b'+' then in_range false (magnitude cs) else in_range false (magnitude (c ∷ cs)))

abbrev pub without_prefix : List ℕ → Option ℕ → List ℕ → List ℕ
without_prefix whole none behind = whole
without_prefix whole (some d) behind = behind

-- "0x" and "0X", where a digit follows.
unfoldable pub skip_prefix : List ℕ → List ℕ
skip_prefix [] = []
skip_prefix (c ∷ []) = c ∷ []
skip_prefix (c ∷ x ∷ []) = c ∷ x ∷ []
skip_prefix (c ∷ x ∷ d ∷ rest) =
    let without = without_prefix (c ∷ x ∷ d ∷ rest) (hex_value d) (d ∷ rest) in
    if c == b'0'
    then (if x == b'x' || x == b'X' then without else c ∷ x ∷ d ∷ rest)
    else c ∷ x ∷ d ∷ rest

-- `stoull(text)`
unfoldable pub stoull : List ℕ → Option ℕ
unfolding read_number decimal_value in_range skip_spaces
stoull text = signed (read_number decimal_value 10 none) (skip_spaces text)

-- `stoul(text, 0, 16)`
unfoldable pub stoul_16 : List ℕ → Option ℕ
unfolding read_number in_range skip_prefix skip_spaces hex_value
stoul_16 text = signed (λ cs. read_number hex_value 16 none (skip_prefix cs)) (skip_spaces text)
