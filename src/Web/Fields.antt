-- ===== src/Web/Fields.antt =====
-- case_insensitive_equal and the lookups in a case_insensitive_multimap
-- (include/server_lib/network/web/web_entities.h). The multimap is the list of its fields; which
-- one is found, and in which order, where a name is there more than once, is up to the standard library: a
-- parameter.
pub mod Found
use barbacoa_server_lib.Prelude.{
  ℕ, ◌+◌, Bool, true, false, ◌&&◌, List, [], ◌∷◌, Option, none, some, ◌≡◌, ◌||◌, leb, ◌==◌, length,
  if◌then◌else◌,
}
use barbacoa_server_lib.Web.QueryString.{Field}

-- `std::tolower` in the C locale.
abbrev pub tolower : ℕ → ℕ
tolower c = if leb b'A' c && leb c b'Z' then c + 32 else c

abbrev pub chars_equal : List ℕ → List ℕ → Bool
chars_equal [] [] = true
chars_equal [] (b ∷ ys) = false
chars_equal (a ∷ xs) [] = false
chars_equal (a ∷ xs) (b ∷ ys) = tolower a == tolower b && chars_equal xs ys

unfoldable pub case_insensitive_equal : List ℕ → List ℕ → Bool
case_insensitive_equal str1 str2 = length str1 == length str2 && chars_equal str1 str2

-- The values of `equal_range(name)`, in no order that the library promises.
unfoldable pub equal_range : List ℕ → List Field → List (List ℕ)
unfolding case_insensitive_equal
equal_range name [] = []
equal_range name ((n, v) ∷ fields) =
    let rest = equal_range name fields in if case_insensitive_equal n name then v ∷ rest else rest

-- Which of the values of one name `find` gives.
abbrev pub Pick : Type 0
Pick = List (List ℕ) → Option (List ℕ)

-- The value that `find(name)` points to; `none` is end().
unfoldable pub find : Pick → List ℕ → List Field → Option (List ℕ)
unfolding equal_range
find pick name fields = pick (equal_range name fields)

abbrev pub some_value : (List ℕ → Bool) → List (List ℕ) → Bool
some_value is_it [] = false
some_value is_it (v ∷ values) = is_it v || some_value is_it values

-- What is documented of it: it gives one of the values, when there are any.
pub record IsPick (pick : Pick) : Type 0 where
  pub picks_none : pick [] ≡ none
  pub picks_only : (v : List ℕ) → pick (v ∷ []) ≡ some v
  pub picks_one :
      (is_it : List ℕ → Bool) (values : List (List ℕ)) (v : List ℕ)
      → pick values ≡ some v
      → is_it v ≡ true
      → some_value is_it values ≡ true
