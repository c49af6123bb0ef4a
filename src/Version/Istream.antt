-- ===== src/Version/Istream.antt =====
-- `std::istream >>` for uint32_t and char, over a stringstream in the C locale.
use barbacoa_server_lib.Prelude.{
  ℕ, ◌+◌, ◌-◌, ◌*◌, ◌%◌, ◌^◌, Bool, true, false, ◌&&◌, ◌||◌, List, [], ◌∷◌, ltb, leb, ◌==◌,
  if◌then◌else◌,
}

pub record Istream : Type 0 where
  pub rest : List ℕ
  pub eof : Bool
  pub fail : Bool

unfoldable pub open_stream : List ℕ → Istream
open_stream text = record { rest = text; eof = false; fail = false }

abbrev pub is_space : ℕ → Bool
is_space c = (leb 9 c && leb c 13) || c == 32

abbrev pub is_digit : ℕ → Bool
is_digit c = leb b'0' c && leb c b'9'

unfoldable pub skip_spaces : List ℕ → List ℕ
skip_spaces [] = []
skip_spaces (c ∷ cs) = if is_space c then skip_spaces cs else c ∷ cs

-- The digits at the front of a text: their value after `value`, whether there are any, and the rest.
unfoldable pub read_digits : ℕ → Bool → List ℕ → ℕ × Bool × List ℕ
read_digits value any [] = (value, any, [])
read_digits value any (c ∷ cs) =
    let rest = read_digits (value * 10 + (c - 48)) true cs in
    if is_digit c then rest else (value, any, c ∷ cs)

abbrev pub ended : List ℕ → Bool
ended [] = true
ended (c ∷ cs) = false

-- A number too large becomes the largest, and no digits give 0; both fail. A minus sign negates
-- modulo 2 ^ 32.
unfoldable pub signed_number : Bool → ℕ × Bool × List ℕ → ℕ × Istream
signed_number minus (value, false, rest) =
    (0, record { rest = rest; eof = ended rest; fail = true })
signed_number minus (value, true, rest) =
    if ltb value (2 ^ 32)
    then (
      if minus then (2 ^ 32 - value) % 2 ^ 32 else value,
      record { rest = rest; eof = ended rest; fail = false },
    )
    else (2 ^ 32 - 1, record { rest = rest; eof = ended rest; fail = true })

unfoldable pub number : List ℕ → ℕ × Istream
unfolding read_digits signed_number
number [] = (0, record { rest = []; eof = true; fail = true })
number (c ∷ cs) =
    if c == b'-'
    then signed_number true (read_digits 0 false cs)
    else (if c == b'+'
        then signed_number false (read_digits 0 false cs)
        else signed_number false (read_digits 0 false (c ∷ cs)))

-- `s >> value`, where `value` is 0 before; a stream that is not good fails and reads nothing.
unfoldable pub read_uint : Istream → ℕ × Istream
unfolding number skip_spaces
read_uint s = if s.eof || s.fail then (0, record s { fail = true }) else number (skip_spaces s.rest)

abbrev pub first_char : List ℕ → ℕ × Istream
first_char [] = (0, record { rest = []; eof = true; fail = true })
first_char (c ∷ cs) = (c, record { rest = cs; eof = false; fail = false })

-- `s >> ch`, where `ch` is 0 before.
unfoldable pub read_char : Istream → ℕ × Istream
unfolding skip_spaces
read_char s =
    if s.eof || s.fail then (0, record s { fail = true }) else first_char (skip_spaces s.rest)
