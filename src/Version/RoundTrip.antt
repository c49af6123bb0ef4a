-- ===== src/Version/RoundTrip.antt =====
-- A version that was printed is read back, and what `from_string` lets through.
use barbacoa_server_lib.Prelude.{
  ℕ, ◌+◌, ◌-◌, ◌*◌, ◌^◌, ◌<◌, ◌≡◌, ◌⊎◌, refl, Bool, true, false, List, [], ◌∷◌, ◌++◌, ok, arith,
  lt→ltb, if◌then◌else◌, to_string, append-nil,
}
use barbacoa_server_lib.Version.{make, major_v, minor_v, patch, print, checked, from_string, ext_eq}
use barbacoa_server_lib.Version.Printed.{AllDigits, value_of, to_string-Prints}
use barbacoa_server_lib.Version.Istream.{
  Istream, open_stream, is_digit, skip_spaces, read_digits, ended, signed_number, number, read_uint,
  read_char,
}

read_digits-all :
    (xs rest : List ℕ) (v : ℕ) (any : Bool)
    → AllDigits xs
    → read_digits v any (xs ++ rest)
      ≡ read_digits (value_of v xs) (if ended xs then any else true) rest
unfolding read_digits value_of
read_digits-all [] rest v any h = refl
read_digits-all (c ∷ []) rest v any h = rw (h.0) refl
read_digits-all (c ∷ d ∷ xs) rest v any h =
    rw (h.0) (read_digits-all (d ∷ xs) rest (v * 10 + (c - 48)) true h.1)

-- No digit stands at the front.
abbrev Stops : List ℕ → Type 0
Stops [] = Unit {0}
Stops (c ∷ cs) = is_digit c ≡ false

read_digits-Stops : (v : ℕ) (rest : List ℕ) → Stops rest → read_digits v true rest ≡ (v, true, rest)
unfolding read_digits
read_digits-Stops v [] h = refl
read_digits-Stops v (c ∷ cs) h = rw h refl

abbrev good : List ℕ → Istream
good text = record { rest = text; eof = false; fail = false }

number_digits :
    (c : ℕ) (cs : List ℕ)
    → is_digit c ≡ true
    → (skip_spaces (c ∷ cs) ≡ c ∷ cs)
      × (number (c ∷ cs) ≡ signed_number false (read_digits 0 false (c ∷ cs)))
unfolding skip_spaces number
number_digits c cs h = (ground arith, ground arith)

-- A printed number is read back, up to what is no digit.
read_uint-to_string :
    (n : ℕ) (rest : List ℕ)
    → n < 2 ^ 32
    → Stops rest
    → read_uint (good (to_string n ++ rest))
      ≡ (n, record { rest = rest; eof = ended rest; fail = false })
unfolding read_uint
read_uint-to_string n rest h stops = from_head (to_string n) (to_string-Prints n)
  where
    whole :
        (xs : List ℕ)
        → AllDigits xs
        → value_of 0 xs ≡ n
        → ended xs ≡ false
        → signed_number false (read_digits 0 false (xs ++ rest))
          ≡ (n, record { rest = rest; eof = ended rest; fail = false })
    whole xs digits value some_digits =
        rw
          (
            read_digits-all xs rest 0 false digits,
            some_digits,
            value,
            read_digits-Stops n rest stops,
          )
          (unfold signed_number in rw (lt→ltb n (2 ^ 32) h) refl)

    from_head :
        (xs : List ℕ)
        → AllDigits xs
          × (value_of 0 xs ≡ n)
          × ((c : ℕ) × (cs : List ℕ) × (xs ≡ c ∷ cs) × (is_digit c ≡ true))
        → number (skip_spaces (xs ++ rest))
          ≡ (n, record { rest = rest; eof = ended rest; fail = false })
    from_head [] (digits, value, (c, cs, e, d)) = cc
    from_head (x ∷ xs) (digits, value, head) =
        let (skipped, plain) = number_digits x (xs ++ rest) digits.0 in
        rw (skipped, plain) (whole (x ∷ xs) digits value refl)

read_char-dot : (text : List ℕ) → read_char (good (b'.' ∷ text)) ≡ (b'.', good text)
unfolding read_char skip_spaces
read_char-dot text = refl

checked-parts :
    (v : ℕ) → v < 2 ^ 32 → checked (major_v v) b'.' (minor_v v) b'.' (patch v) true ≡ ok v
unfolding checked major_v minor_v patch
checked-parts v h = ground arith

parts_small : (v : ℕ) → (major_v v < 2 ^ 32) × (minor_v v < 2 ^ 32) × (patch v < 2 ^ 32)
unfolding major_v minor_v patch
parts_small v = omega arith

-- Every version number of 32 bits is printed as a text that is read back as that number.
pub from_string-print : (v : ℕ) → v < 2 ^ 32 → from_string (print v) ≡ ok v
unfolding from_string print open_stream
from_string-print v h =
    let (a, b, c) = parts_small v in
    rw
      (
        read_uint-to_string (major_v v)
            (b'.' ∷ (to_string (minor_v v) ++ (b'.' ∷ to_string (patch v)))) a refl,
        read_char-dot (to_string (minor_v v) ++ (b'.' ∷ to_string (patch v))),
        read_uint-to_string (minor_v v) (b'.' ∷ to_string (patch v)) b refl,
        read_char-dot (to_string (patch v)),
        ← append-nil (to_string (patch v)),
        read_uint-to_string (patch v) [] c tt,
      )
      (checked-parts v h)

-- The parts that a version is made of, each within its width, are the parts that it has.
pub make-parts :
    (major minor patch' : ℕ)
    → major < 256
    → minor < 256
    → patch' < 65536
    → (major_v (make major minor patch') ≡ major)
      × (minor_v (make major minor patch') ≡ minor)
      × (patch (make major minor patch') ≡ patch')
unfolding make major_v minor_v patch
make-parts major minor patch' a b c = omega arith

-- Of two versions, whose minor parts and patches are within their widths, one is below the other only
-- by its major part, or at equal major parts by its minor part, or at equal both by its patch.
pub make-order :
    (a b c a' b' c' : ℕ)
    → b < 256
    → c < 65536
    → b' < 256
    → c' < 65536
    → make a b c < make a' b' c'
    → (a < a') ⊎ ((a ≡ a') × ((b < b') ⊎ ((b ≡ b') × (c < c'))))
unfolding make
make-order a b c a' b' c' p q p' q' h = grind arith

-- A text of two parts within their widths that ends behind its second dot is accepted, as the version
-- with patch 0.
pub from_string-missing_patch :
    (a b : ℕ)
    → a < 256
    → b < 256
    → from_string (to_string a ++ (b'.' ∷ (to_string b ++ (b'.' ∷ [])))) ≡ ok (make a b 0)
unfolding from_string open_stream checked make
from_string-missing_patch a b h k =
    rw
      (
        read_uint-to_string a (b'.' ∷ (to_string b ++ (b'.' ∷ []))) (omega arith) refl,
        read_char-dot (to_string b ++ (b'.' ∷ [])),
        read_uint-to_string b (b'.' ∷ []) (omega arith) refl,
        read_char-dot [],
      )
      (unfold read_uint in unfold number in unfold skip_spaces in ground arith)

-- Versions with parts within their widths that differ only in the patch and in the metadata count as
-- equal.
pub ext_eq-blind :
    (a b c c' : ℕ) (m m' : List ℕ)
    → a < 256
    → b < 256
    → c < 65536
    → c' < 65536
    → ext_eq
        (record { base = make a b c; metadata = m })
        (record { base = make a b c'; metadata = m' })
      ≡ true
unfolding ext_eq make major_v minor_v
ext_eq-blind a b c c' m m' h k l l' = ground arith
