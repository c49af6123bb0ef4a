-- ===== src/Version/Printed.antt =====
-- What `std::to_string` prints: digits, whose value is the number.
use mathlib.Core.WellFounded
use barbacoa_server_lib.Prelude.{
  ℕ, ◌+◌, ◌-◌, ◌*◌, ◌/◌, ◌%◌, ◌<◌, ◌≡◌, ◌∙◌, refl, true, List, [], ◌∷◌, ◌++◌, arith, ltb, to_string,
  to_string_lem, Bool-cases, inl, inr, lt_wf,
}
use barbacoa_server_lib.Version.Istream.{is_digit}

abbrev pub AllDigits : List ℕ → Type 0
AllDigits [] = Unit {0}
AllDigits (c ∷ cs) = (is_digit c ≡ true) × AllDigits cs

unfoldable pub value_of : ℕ → List ℕ → ℕ
value_of value [] = value
value_of value (c ∷ cs) = value_of (value * 10 + (c - 48)) cs

value_of-append :
    (v : ℕ) (xs : List ℕ) (c : ℕ) → value_of v (xs ++ c ∷ []) ≡ value_of v xs * 10 + (c - 48)
unfolding value_of
value_of-append v [] c = refl
value_of-append v (x ∷ xs) c = value_of-append (v * 10 + (x - 48)) xs c

AllDigits-append :
    (xs : List ℕ) (c : ℕ) → AllDigits xs → is_digit c ≡ true → AllDigits (xs ++ c ∷ [])
AllDigits-append [] c h k = (k, tt)
AllDigits-append (x ∷ xs) c h k = (h.0, AllDigits-append xs c h.1 k)

-- `to_string` writes digits, and their value is the number.
abbrev pub Prints : ℕ → Type 0
Prints n =
    AllDigits (to_string n)
    × (value_of 0 (to_string n) ≡ n)
    × ((c : ℕ) × (cs : List ℕ) × (to_string n ≡ c ∷ cs) × (is_digit c ≡ true))

head_append :
    (xs : List ℕ) (d : ℕ)
    → ((c : ℕ) × (cs : List ℕ) × (xs ≡ c ∷ cs) × (is_digit c ≡ true))
    → (c : ℕ) × (cs : List ℕ) × (xs ++ d ∷ [] ≡ c ∷ cs) × (is_digit c ≡ true)
head_append xs d (c, cs, e, h) = (c, cs ++ d ∷ [], rw e refl, h)

to_string-Prints_step : (n : ℕ) → ((m : ℕ) → m < n → Prints m) → Prints n
unfolding value_of
to_string-Prints_step n ih = elim (Bool-cases (ltb 9 n)) [
  | inl more ↦
      let e : to_string n ≡ to_string (n / 10) ++ (48 + n % 10) ∷ [] =
        to_string_lem n ∙ rw more refl in
      let (digits, value, head) = ih (n / 10) (ground arith) in
      let d : is_digit (48 + n % 10) ≡ true = ground arith in
      rw e (
        AllDigits-append (to_string (n / 10)) (48 + n % 10) digits d,
        value_of-append 0 (to_string (n / 10)) (48 + n % 10) ∙ omega (arith, value),
        head_append (to_string (n / 10)) (48 + n % 10) head,
      )
  | inr last ↦
      let e : to_string n ≡ (48 + n) ∷ [] = to_string_lem n ∙ rw last refl in
      let d : is_digit (48 + n) ≡ true = ground arith in
      rw e ((d, tt), omega arith, (48 + n, [], refl, d))
]

pub to_string-Prints : (n : ℕ) → Prints n
to_string-Prints n = WellFounded.induction lt_wf {C = Prints} n to_string-Prints_step
