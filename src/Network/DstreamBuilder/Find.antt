-- ===== src/Network/DstreamBuilder/Find.antt =====
-- `std::string::find` of a text.
use barbacoa_server_lib.Prelude.{
  ℕ, suc, ◌+◌, ◌≤◌, ◌≡◌, ap, refl, Bool, true, false, ◌&&◌, List, [], ◌∷◌, ◌++◌, Option, none, some,
  length, arith, if◌then◌else◌, ◌==◌, Bool-cases, inl, inr, Option-cases,
}

abbrev pub is_prefix : List ℕ → List ℕ → Bool
is_prefix [] ys = true
is_prefix (x ∷ xs) [] = false
is_prefix (x ∷ xs) (y ∷ ys) = x == y && is_prefix xs ys

abbrev pub shifted : Option ℕ → Option ℕ
shifted none = none
shifted (some i) = some (suc i)

-- The first place at which `d` stands in the text.
unfoldable pub find : List ℕ → List ℕ → Option ℕ
find d [] = if is_prefix d [] then some 0 else none
find d (x ∷ xs) = let rest = shifted (find d xs) in if is_prefix d (x ∷ xs) then some 0 else rest

is_prefix-length : (d x : List ℕ) → is_prefix d x ≡ true → length d ≤ length x
is_prefix-length [] x h = omega arith
is_prefix-length (a ∷ d) [] h = cc
is_prefix-length (a ∷ d) (b ∷ x) h = ground (arith, is_prefix-length d x)

is_prefix-append : (d x y : List ℕ) → length d ≤ length x → is_prefix d (x ++ y) ≡ is_prefix d x
is_prefix-append [] x y h = refl
is_prefix-append (a ∷ d) [] y h = absurd (omega arith)
is_prefix-append (a ∷ d) (b ∷ x) y h = ap (λ t. a == b && t) (is_prefix-append d x y (omega arith))

-- A place that was found holds the whole text.
pub find-bound : (d x : List ℕ) {i : ℕ} → find d x ≡ some i → i + length d ≤ length x
unfolding find
find-bound d [] {i} h = ground (arith, is_prefix-length d [])
find-bound d (b ∷ x) {i} h = elim (Bool-cases (is_prefix d (b ∷ x))) [
  | inl here ↦ ground (arith, here, is_prefix-length d (b ∷ x) here)
  | inr later ↦ elim (Option-cases (find d x)) [
    | inl e ↦ ground (arith, later, e)
    | inr (j, e) ↦ ground (arith, later, e, find-bound d x {i = j} e)
  ]
]

-- What stands behind does not change the first place.
pub find-append : (d x y : List ℕ) {i : ℕ} → find d x ≡ some i → find d (x ++ y) ≡ some i
unfolding find
find-append d [] [] h = h
find-append d [] (c ∷ y) {i} h =
    ground (arith, is_prefix-length d [], is_prefix-append d [] (c ∷ y))
find-append d (b ∷ x) y {i} h = elim (Bool-cases (is_prefix d (b ∷ x))) [
  | inl here ↦ ground (arith, here, is_prefix-length d (b ∷ x) here, is_prefix-append d (b ∷ x) y)
  | inr later ↦ elim (Option-cases (find d x)) [
    | inl e ↦ ground (arith, later, e)
    | inr (j, e) ↦ ground (
      arith,
      later,
      e,
      find-bound d x {i = j} e,
      find-append d x y {i = j} e,
      is_prefix-append d (b ∷ x) y,
    )
  ]
]
