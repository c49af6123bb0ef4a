-- ===== src/Web/Percent.antt =====
-- web_percent (include/server_lib/network/web/web_entities.h). A char is a byte below 256; those
-- from 128 on are negative in the source, and so in none of the ranges that it tests.
pub mod RoundTrip
use barbacoa_server_lib.Prelude.{
  ℕ, ◌+◌, ◌-◌, ◌*◌, ◌/◌, ◌%◌, Bool, true, false, ◌&&◌, ◌||◌, List, [], ◌∷◌, Option, none, some, ltb,
  leb, ◌==◌, if◌then◌else◌,
}

unfoldable pub is_unreserved : ℕ → Bool
is_unreserved chr =
    (leb b'0' chr && leb chr b'9')
    || (leb b'A' chr && leb chr b'Z')
    || (leb b'a' chr && leb chr b'z')
    || chr == b'-'
    || chr == b'.'
    || chr == b'_'
    || chr == b'~'

-- hex_chars
unfoldable pub hex_char : ℕ → ℕ
hex_char n = if ltb n 10 then 48 + n else 55 + n

unfoldable pub encode : List ℕ → List ℕ
unfolding is_unreserved hex_char
encode [] = []
encode (chr ∷ value) =
    let rest = encode value in
    if is_unreserved chr
    then chr ∷ rest
    else b'%' ∷ hex_char (chr / 16) ∷ hex_char (chr % 16) ∷ rest

-- The digits that `strtol` takes in base 16.
unfoldable pub hex_value : ℕ → Option ℕ
hex_value c =
    if leb b'0' c && leb c b'9'
    then some (c - 48)
    else (if leb b'A' c && leb c b'F'
        then some (c - 55)
        else (if leb b'a' c && leb c b'f' then some (c - 87) else none))

unfoldable pub is_space : ℕ → Bool
is_space c = (leb 9 c && leb c 13) || c == 32

abbrev pub or_zero : Option ℕ → ℕ
or_zero none = 0
or_zero (some v) = v

two_digits : Option ℕ → Option ℕ → ℕ
two_digits none low = 0
two_digits (some h) none = h
two_digits (some h) (some l) = 16 * h + l

-- `static_cast<char>(strtol(hex, nullptr, 16))` at a text of two characters: white space and a
-- sign are skipped, and digits are read as far as they go.
unfoldable pub decoded_chr : ℕ → ℕ → ℕ
unfolding hex_value is_space two_digits
decoded_chr a b =
    if is_space a || a == b'+'
    then or_zero (hex_value b)
    else (if a == b'-'
        then (256 - or_zero (hex_value b)) % 256
        else two_digits (hex_value a) (hex_value b))

abbrev pub plain_chr : ℕ → ℕ
plain_chr chr = if chr == b'+' then b' ' else chr

-- `i + 2 < value.size()`: two characters stand behind the '%'.
unfoldable pub decode : List ℕ → List ℕ
unfolding decoded_chr
decode [] = []
decode (chr ∷ []) = plain_chr chr ∷ []
decode (chr ∷ a ∷ []) = plain_chr chr ∷ plain_chr a ∷ []
decode (chr ∷ a ∷ b ∷ rest) =
    let escaped = decoded_chr a b ∷ decode rest in
    let plain = plain_chr chr ∷ decode (a ∷ b ∷ rest) in if chr == b'%' then escaped else plain
