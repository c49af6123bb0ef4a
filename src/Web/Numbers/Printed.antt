-- ===== src/Web/Numbers/Printed.antt =====
-- A printed number is read back by `stoull`, and so is one with white space or a text around it.
use barbacoa_server_lib.Prelude.{
  ℕ, ◌*◌, ◌+◌, ◌-◌, ◌^◌, ◌<◌, ◌≡◌, ◌∙◌, ap, refl, true, false, List, [], ◌∷◌, none, some, arith,
  to_string, lt→ltb, Option,
}
use barbacoa_server_lib.Version.Istream.{is_digit, skip_spaces}
use barbacoa_server_lib.Version.Printed.{AllDigits, value_of, to_string-Prints}
use barbacoa_server_lib.Web.Numbers.{read_number, decimal_value, in_range, signed, stoull}

read_number-digits :
    (xs : List ℕ) (v : ℕ)
    → AllDigits xs
    → read_number decimal_value 10 (some v) xs ≡ some (value_of v xs)
unfolding read_number decimal_value value_of
read_number-digits [] v h = refl
read_number-digits (c ∷ cs) v h = rw (h.0) (read_number-digits cs (v * 10 + (c - 48)) h.1)

read_number-first :
    (c : ℕ) (cs : List ℕ)
    → AllDigits (c ∷ cs)
    → read_number decimal_value 10 none (c ∷ cs) ≡ some (value_of 0 (c ∷ cs))
unfolding read_number decimal_value value_of
read_number-first c cs h =
    rw (h.0) (read_number-digits cs (c - 48) h.1 ∙ ap (λ v. some (value_of v cs)) (omega arith))

signed-digit :
    (f : List ℕ → Option ℕ) (c : ℕ) (cs : List ℕ)
    → is_digit c ≡ true
    → signed f (skip_spaces (c ∷ cs)) ≡ in_range false (f (c ∷ cs))
unfolding skip_spaces
signed-digit f c cs h = ground arith

-- A number below 2 ^ 64 is read back from what `to_string` prints.
pub stoull-to_string : (n : ℕ) → n < 2 ^ 64 → stoull (to_string n) ≡ some n
unfolding stoull
stoull-to_string n h = from_head (to_string n) (to_string-Prints n)
  where
    from_head :
        (xs : List ℕ)
        → AllDigits xs
          × (value_of 0 xs ≡ n)
          × ((c : ℕ) × (cs : List ℕ) × (xs ≡ c ∷ cs) × (is_digit c ≡ true))
        → signed (read_number decimal_value 10 none) (skip_spaces xs) ≡ some n
    from_head [] (digits, value, (c, cs, e, d)) = cc
    from_head (x ∷ xs) (digits, value, head) =
        signed-digit (read_number decimal_value 10 none) x xs digits.0
        ∙ rw (read_number-first x xs digits, value)
            (unfold in_range in rw (lt→ltb n (2 ^ 64) h) refl)
