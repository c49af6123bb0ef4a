-- ===== src/Web/Fields/Found.antt =====
-- Fields are found without regard to case.
use barbacoa_server_lib.Prelude.{
  ℕ, suc, ◌≡◌, ◌∙◌, sym, refl, ap, arith, true, Bool-cases, inl, inr, List, [], ◌∷◌, ◌++◌, none,
  some, length,
}
use barbacoa_server_lib.Web.QueryString.{Field}
use barbacoa_server_lib.Web.Fields.{
  tolower, chars_equal, case_insensitive_equal, find, equal_range, Pick, IsPick,
}

-- A word in lower case.
abbrev pub lower : List ℕ → List ℕ
lower [] = []
lower (c ∷ cs) = tolower c ∷ lower cs

tolower_twice : (c : ℕ) → tolower (tolower c) ≡ tolower c
tolower_twice c = ground arith

length-lower : (xs : List ℕ) → length (lower xs) ≡ length xs
length-lower [] = refl
length-lower (x ∷ xs) = ap suc (length-lower xs)

chars_equal-lower : (xs ys : List ℕ) → chars_equal xs (lower ys) ≡ chars_equal xs ys
chars_equal-lower [] [] = refl
chars_equal-lower [] (y ∷ ys) = refl
chars_equal-lower (x ∷ xs) [] = refl
chars_equal-lower (x ∷ xs) (y ∷ ys) = rw (tolower_twice y, chars_equal-lower xs ys) refl

-- A word equals another just when it equals that in lower case.
pub case_insensitive_equal-lower :
    (xs ys : List ℕ) → case_insensitive_equal xs (lower ys) ≡ case_insensitive_equal xs ys
unfolding case_insensitive_equal
case_insensitive_equal-lower xs ys = rw (length-lower ys, chars_equal-lower xs ys) refl

-- A field behind others that have another name.
pub equal_range-last :
    (name : List ℕ) (fields : List Field) (n v : List ℕ)
    → equal_range name fields ≡ []
    → case_insensitive_equal n name ≡ true
    → equal_range name (fields ++ ((n, v) ∷ [])) ≡ v ∷ []
unfolding equal_range
equal_range-last name [] n v h k = rw k refl
equal_range-last name ((m, w) ∷ fields) n v h k =
    elim (Bool-cases (case_insensitive_equal m name)) [
      | inl e ↦
          let q : equal_range name ((m, w) ∷ fields) ≡ w ∷ equal_range name fields = rw e refl in
          absurd (cc)
      | inr e ↦
          let q : equal_range name ((m, w) ∷ fields) ≡ equal_range name fields = rw e refl in
          rw e (equal_range-last name fields n v (sym q ∙ h) k)
    ]

-- With no value of a name none is found, and with one there is no choice.
pub find-none :
    (pick : Pick) (name : List ℕ) (fields : List Field)
    → IsPick pick
    → equal_range name fields ≡ []
    → find pick name fields ≡ none
unfolding find
find-none pick name fields doc h = ap pick h ∙ doc.picks_none

pub find-only :
    (pick : Pick) (name : List ℕ) (fields : List Field) (v : List ℕ)
    → IsPick pick
    → equal_range name fields ≡ v ∷ []
    → find pick name fields ≡ some v
unfolding find
find-only pick name fields v doc h = ap pick h ∙ doc.picks_only v
