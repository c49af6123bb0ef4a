-- ===== src/Options/Quotes.antt =====
-- is_pass_char and remove_quotes_impl (src/options_helper.cpp).
use mathlib.Core.List.{reverse, reverse-append, reverse-reverse, reverse-cons}
use barbacoa_server_lib.Prelude.{
  ℕ, ◌≡◌, ◌∙◌, ap, sym, refl, subst, Bool, true, false, ◌||◌, List, [], ◌∷◌, ◌++◌, ◌==◌,
  if◌then◌else◌, Bool-cases, inl, inr, is_empty,
}

unfoldable pub is_pass_char : ℕ → Bool
is_pass_char ch = ch == b'\'' || ch == b'"' || ch == b' ' || ch == 9 || ch == 10 || ch == 13

-- The loop of `left_it`, and on the reversed text that of `right_it`.
unfoldable pub skip_pass : List ℕ → List ℕ
skip_pass [] = []
skip_pass (ch ∷ rest) = if is_pass_char ch then skip_pass rest else ch ∷ rest

-- `{ left_it, right_it.base() }`; only pass characters give the empty text.
unfoldable pub remove_quotes : List ℕ → List ℕ
unfolding skip_pass
remove_quotes with_quotes = reverse (skip_pass (reverse (skip_pass with_quotes)))

abbrev pub AllPass : List ℕ → Type 0
AllPass [] = Unit {0}
AllPass (c ∷ cs) = (is_pass_char c ≡ true) × AllPass cs

-- No pass character at the front.
abbrev pub StartsClean : List ℕ → Type 0
StartsClean [] = Unit {0}
StartsClean (c ∷ cs) = is_pass_char c ≡ false

skip_pass-split :
    (xs : List ℕ) → (p : List ℕ) × AllPass p × (xs ≡ p ++ skip_pass xs) × StartsClean (skip_pass xs)
unfolding skip_pass
skip_pass-split [] = ([], tt, refl, tt)
skip_pass-split (c ∷ cs) = elim (Bool-cases (is_pass_char c)) [
  | inl pass ↦
      let (p, all, e, clean) = skip_pass-split cs in
      rw pass (c ∷ p, (pass, all), ap (◌∷◌ c) e, clean)
  | inr stop ↦ rw stop ([], tt, refl, stop)
]

skip_pass-StartsClean : (xs : List ℕ) → StartsClean xs → skip_pass xs ≡ xs
unfolding skip_pass
skip_pass-StartsClean [] h = refl
skip_pass-StartsClean (c ∷ cs) h = rw h refl

skip_pass-append : (p xs : List ℕ) → AllPass p → StartsClean xs → skip_pass (p ++ xs) ≡ xs
unfolding skip_pass
skip_pass-append [] xs h k = skip_pass-StartsClean xs k
skip_pass-append (c ∷ p) xs h k = rw (h.0) (skip_pass-append p xs h.1 k)

AllPass-append : (xs ys : List ℕ) → AllPass xs → AllPass ys → AllPass (xs ++ ys)
AllPass-append [] ys h k = k
AllPass-append (x ∷ xs) ys h k = (h.0, AllPass-append xs ys h.1 k)

AllPass-reverse : (xs : List ℕ) → AllPass xs → AllPass (reverse xs)
AllPass-reverse [] h = tt
AllPass-reverse (x ∷ xs) h =
    rw (reverse-cons x xs) (AllPass-append (reverse xs) (x ∷ []) (AllPass-reverse xs h.1) (h.0, tt))

-- A text that is not empty between pass characters, which neither begins nor ends with one, is what remains:
-- pass characters within it stay.
pub remove_quotes-inner :
    (p inner s : List ℕ)
    → AllPass p
    → AllPass s
    → StartsClean inner
    → StartsClean (reverse inner)
    → (is_empty inner ≡ false)
    → remove_quotes (p ++ (inner ++ s)) ≡ inner
unfolding remove_quotes
remove_quotes-inner p [] s h k first last some_text = cc
remove_quotes-inner p (c ∷ inner) s h k first last some_text =
    ap (λ t. reverse (skip_pass (reverse t))) (skip_pass-append p ((c ∷ inner) ++ s) h first)
    ∙ ap (λ t. reverse (skip_pass t)) (reverse-append (c ∷ inner) s)
    ∙ ap reverse (skip_pass-append (reverse s) (reverse (c ∷ inner)) (AllPass-reverse s k) last)
    ∙ reverse-reverse (c ∷ inner)

StartsClean-front : (xs ys : List ℕ) → StartsClean (xs ++ ys) → StartsClean xs
StartsClean-front [] ys h = tt
StartsClean-front (x ∷ xs) ys h = h

-- Every text is pass characters, the result, and pass characters, and the result neither begins nor ends with
-- one.
pub remove_quotes-split :
    (xs : List ℕ)
    → (p : List ℕ) × (s : List ℕ) × AllPass p
      × AllPass s
      × (xs ≡ p ++ (remove_quotes xs ++ s))
      × StartsClean (remove_quotes xs)
      × StartsClean (reverse (remove_quotes xs))
unfolding remove_quotes
remove_quotes-split xs =
    let (p, all, e, clean) = skip_pass-split xs in
    let (s, all', e', clean') = skip_pass-split (reverse (skip_pass xs)) in
    let whole =
      sym (reverse-reverse (skip_pass xs))
      ∙ ap reverse e'
      ∙ reverse-append s (skip_pass (reverse (skip_pass xs))) in
    (
      p,
      reverse s,
      all,
      AllPass-reverse s all',
      e ∙ ap (◌++◌ p) whole,
      StartsClean-front (reverse (skip_pass (reverse (skip_pass xs)))) (reverse s)
          (subst StartsClean whole clean),
      rw (reverse-reverse (skip_pass (reverse (skip_pass xs)))) clean',
    )
