-- ===== src/Prelude/Lists.antt =====
-- Lists measured by native numbers, and the operations of `std::string` on lists of bytes.
use Prim.Native.Nat.{ℕ, zero, suc, ◌+◌, ◌-◌, ◌≤◌, min}
use mathlib.Core.Path.{◌≡◌, refl, ap, ◌∙◌, sym}
use mathlib.Core.Bool.{Bool, true, false, ◌&&◌}
use mathlib.Core.List.{List, [], ◌∷◌, ◌++◌}
use mathlib.Core.Option.{Option, none, some}
use Prim.Native.Char.{code}
use Prim.Native.String.{String}
use native.Mathlib.Omega.{arith}
use barbacoa_server_lib.Prelude.Tests.{◌==◌}

module _ {ℓ} {A : Type ℓ} where
  abbrev pub length : List A → ℕ
  length [] = 0
  length (x ∷ xs) = suc (length xs)

  abbrev pub take : ℕ → List A → List A
  take zero xs = []
  take (suc n) [] = []
  take (suc n) (x ∷ xs) = x ∷ take n xs

  abbrev pub drop : ℕ → List A → List A
  drop zero xs = xs
  drop (suc n) [] = []
  drop (suc n) (x ∷ xs) = drop n xs

  abbrev pub get_elem? : List A → ℕ → Option A
  get_elem? [] i = none
  get_elem? (x ∷ xs) zero = some x
  get_elem? (x ∷ xs) (suc i) = get_elem? xs i

  abbrev pub is_empty : List A → Bool
  is_empty [] = true
  is_empty (x ∷ xs) = false

  pub length-append : (xs ys : List A) → length (xs ++ ys) ≡ length xs + length ys
  length-append [] ys = omega arith
  length-append (x ∷ xs) ys = omega (arith, length-append xs ys)

  pub length-take : (n : ℕ) (xs : List A) → length (take n xs) ≡ min n (length xs)
  length-take zero xs = omega arith
  length-take (suc n) [] = omega arith
  length-take (suc n) (x ∷ xs) = omega (arith, length-take n xs)

  pub length-drop : (n : ℕ) (xs : List A) → length (drop n xs) ≡ length xs - n
  length-drop zero xs = omega arith
  length-drop (suc n) [] = omega arith
  length-drop (suc n) (x ∷ xs) = omega (arith, length-drop n xs)

  pub take-append_le : (n : ℕ) (xs ys : List A) → n ≤ length xs → take n (xs ++ ys) ≡ take n xs
  take-append_le zero xs ys h = refl
  take-append_le (suc n) [] ys h = absurd (omega arith)
  take-append_le (suc n) (x ∷ xs) ys h = ap (◌∷◌ x) (take-append_le n xs ys (omega arith))

  pub drop-append_le :
      (n : ℕ) (xs ys : List A) → n ≤ length xs → drop n (xs ++ ys) ≡ drop n xs ++ ys
  drop-append_le zero xs ys h = refl
  drop-append_le (suc n) [] ys h = absurd (omega arith)
  drop-append_le (suc n) (x ∷ xs) ys h = drop-append_le n xs ys (omega arith)

  pub take-append_ge :
      (n : ℕ) (xs ys : List A) → length xs ≤ n → take n (xs ++ ys) ≡ xs ++ take (n - length xs) ys
  take-append_ge n [] ys h = ap (λ k. take k ys) (omega arith)
  take-append_ge zero (x ∷ xs) ys h = absurd (omega arith)
  take-append_ge (suc n) (x ∷ xs) ys h =
      ap (◌∷◌ x) (grind (arith, take-append_ge n xs ys (omega arith)))

  pub drop-append_ge :
      (n : ℕ) (xs ys : List A) → length xs ≤ n → drop n (xs ++ ys) ≡ drop (n - length xs) ys
  drop-append_ge n [] ys h = ap (λ k. drop k ys) (omega arith)
  drop-append_ge zero (x ∷ xs) ys h = absurd (omega arith)
  drop-append_ge (suc n) (x ∷ xs) ys h = grind (arith, drop-append_ge n xs ys (omega arith))

  pub take_all : (n : ℕ) (xs : List A) → length xs ≤ n → take n xs ≡ xs
  take_all zero [] h = refl
  take_all zero (x ∷ xs) h = absurd (omega arith)
  take_all (suc n) [] h = refl
  take_all (suc n) (x ∷ xs) h = ap (◌∷◌ x) (take_all n xs (omega arith))

  pub drop_all : (n : ℕ) (xs : List A) → length xs ≤ n → drop n xs ≡ []
  drop_all zero [] h = refl
  drop_all zero (x ∷ xs) h = absurd (omega arith)
  drop_all (suc n) [] h = refl
  drop_all (suc n) (x ∷ xs) h = drop_all n xs (omega arith)

  pub take_prefix : (xs ys : List A) → take (length xs) (xs ++ ys) ≡ xs
  take_prefix [] ys = refl
  take_prefix (x ∷ xs) ys = ap (◌∷◌ x) (take_prefix xs ys)

  pub drop_prefix : (xs ys : List A) → drop (length xs) (xs ++ ys) ≡ ys
  drop_prefix [] ys = refl
  drop_prefix (x ∷ xs) ys = drop_prefix xs ys

  pub take-drop : (n : ℕ) (xs : List A) → take n xs ++ drop n xs ≡ xs
  take-drop zero xs = refl
  take-drop (suc n) [] = refl
  take-drop (suc n) (x ∷ xs) = ap (◌∷◌ x) (take-drop n xs)

  -- A text up to behind the two that follow it.
  pub take_two_more :
      (xs : List A) (a b : A) (ys : List A)
      → take (length xs + 2) (xs ++ a ∷ b ∷ ys) ≡ xs ++ a ∷ b ∷ []
  take_two_more [] a b ys = refl
  take_two_more (x ∷ xs) a b ys =
      ap (λ k. take k (x ∷ (xs ++ a ∷ b ∷ ys))) (past xs) ∙ ap (◌∷◌ x) (take_two_more xs a b ys)
    where
      past : (xs : List A) → suc (length xs) + 2 ≡ suc (length xs + 2)
      past xs = omega arith

  pub drop_two_more :
      (xs : List A) (a b : A) (ys : List A) → drop (length xs + 2) (xs ++ a ∷ b ∷ ys) ≡ ys
  drop_two_more [] a b ys = refl
  drop_two_more (x ∷ xs) a b ys =
      ap (λ k. drop k (x ∷ (xs ++ a ∷ b ∷ ys))) (past xs) ∙ drop_two_more xs a b ys
    where
      past : (xs : List A) → suc (length xs) + 2 ≡ suc (length xs + 2)
      past xs = omega arith

-- A text that came in two pieces, the first of which may end before or behind its first part.
module _ {ℓ} {A : Type ℓ} (xs ys more wire : List A) (e : xs ++ ys ≡ more ++ wire) where
  pub overlap_short :
      length more ≤ length xs
      → (more ++ take (length xs - length more) wire ≡ xs)
        × (drop (length xs - length more) wire ≡ ys)
  overlap_short h = (
    sym (take-append_ge (length xs) more wire h)
        ∙ ap (take (length xs)) (sym e)
        ∙ take_prefix xs ys,
    sym (drop-append_ge (length xs) more wire h)
        ∙ ap (drop (length xs)) (sym e)
        ∙ drop_prefix xs ys,
  )

  pub overlap_long :
      length xs ≤ length more
      → (more ≡ xs ++ drop (length xs) more) × (ys ≡ drop (length xs) more ++ wire)
  overlap_long h = (
    sym (take-drop (length xs) more)
        ∙ ap (λ t. t ++ drop (length xs) more)
            (sym (take-append_le (length xs) more wire h)
              ∙ ap (take (length xs)) (sym e)
              ∙ take_prefix xs ys),
    sym (drop_prefix xs ys) ∙ ap (drop (length xs)) e ∙ drop-append_le (length xs) more wire h,
  )

-- The bytes of a literal.
abbrev pub codes : String → List ℕ
codes String.[] = []
codes (String.◌∷◌ c s) = code c ∷ codes s

-- `std::string::operator==`.
abbrev pub bytes_eq : List ℕ → List ℕ → Bool
bytes_eq [] [] = true
bytes_eq [] (y ∷ ys) = false
bytes_eq (x ∷ xs) [] = false
bytes_eq (x ∷ xs) (y ∷ ys) = x == y && bytes_eq xs ys

module _ {ℓ} {A : Type ℓ} where
  -- `std::string::substr(pos, n)`, and `substr(pos)`, at a `pos` within the text.
  abbrev pub substr : List A → ℕ → ℕ → List A
  substr s pos n = take n (drop pos s)

  abbrev pub substr_end : List A → ℕ → List A
  substr_end s pos = drop pos s

  -- The part of a text between two others.
  pub substr-middle :
      (s a b c : List A) (i n : ℕ)
      → s ≡ a ++ (b ++ c)
      → i ≡ length a
      → n ≡ length b
      → substr s i n ≡ b
  substr-middle s a b c i n e f g = rw (e, f, g, drop_prefix a (b ++ c), take_prefix b c) refl

  pub substr_end-suffix : (s a b : List A) (i : ℕ) → s ≡ a ++ b → i ≡ length a → substr_end s i ≡ b
  substr_end-suffix s a b i e f = rw (e, f, drop_prefix a b) refl
