-- ===== src/Network/DstreamBuilder/Incremental.antt =====
-- dstream_builder may be fed in parts; with a delimiter that is not empty its loop ends.
use barbacoa_server_lib.Prelude.{
  ℕ, ◌+◌, ◌≤◌, ◌<◌, ◌≡◌, ap, ◌∙◌, sym, refl, true, false, List, ◌++◌, Option, none, some, returned,
  length, take, drop, arith, Option-cases, inl, inr, take-append_le, drop-append_le, length-drop,
  returned-injective, Bool-cases,
}
use barbacoa_server_lib.Network.LogicUnit.{LogicUnit, ok_unit, set_string}
use barbacoa_server_lib.Network.UnitBuilder.{IsIncremental, IsConsuming, Feeding, waits, makes}
use barbacoa_server_lib.Network.DstreamBuilder.{feed, dstream_builder, cut_at}
use barbacoa_server_lib.Network.DstreamBuilder.Find.{find, find-bound, find-append}

module _ (d : List ℕ) where
  feed_none :
      (u : LogicUnit) (x : List ℕ)
      → ok_unit u ≡ false
      → find d x ≡ none
      → feed d u x ≡ returned (u, x)
  unfolding feed
  feed_none u x p e = rw (p, e) refl

  pub feed_found :
      (u : LogicUnit) (x : List ℕ) (i : ℕ)
      → ok_unit u ≡ false
      → find d x ≡ some i
      → feed d u x ≡ returned (set_string u (take i x), drop (i + length d) x)
  unfolding feed
  feed_found u x i p e = rw (p, e) refl

  dstream_builder-Feeding :
      (u : LogicUnit) (x : List ℕ)
      → Unit {0}
      → ok_unit u ≡ false
      → Feeding (dstream_builder d) (λ _. Unit {0}) u x
  dstream_builder-Feeding u x v p = elim (Option-cases (find d x)) [
    | inl e ↦ waits u x tt p (feed_none u x p e) (λ y. refl)
    | inr (i, e) ↦ makes _ _ refl (feed_found u x i p e) (λ y.
        feed_found u (x ++ y) i p (find-append d x y e)
        ∙ rw
            (
              take-append_le i x y (omega (arith, find-bound d x e)),
              drop-append_le (i + length d) x y (find-bound d x e),
            )
            refl)
  ]

  pub dstream_builder-IsIncremental : IsIncremental (dstream_builder d) (λ _. Unit {0})
  dstream_builder-IsIncremental = record {
    feeding = dstream_builder-Feeding;
    keeps_reset = λ s. tt;
    reset_pending = λ s. refl;
  }

  cut_at-length :
      (u : LogicUnit) (x : List ℕ) (o : Option ℕ) (u' : LogicUnit) (x' : List ℕ)
      → cut_at d u x o ≡ returned (u', x')
      → length x' ≤ length x
  cut_at-length u x none u' x' e = rw (← ap (λ p. length p.1) (returned-injective e)) (omega arith)
  cut_at-length u x (some i) u' x' e =
      rw (← ap (λ p. length p.1) (returned-injective e))
        (omega (arith, length-drop {0} (i + length d) x))

  feed-shrinks :
      (u : LogicUnit) (x : List ℕ) (u' : LogicUnit) (x' : List ℕ)
      → feed d u x ≡ returned (u', x')
      → length x' ≤ length x
  unfolding feed
  feed-shrinks u x u' x' e = elim (Bool-cases (ok_unit u)) [
    | inl done ↦ ground (arith, done)
    | inr pending ↦ cut_at-length u x (find d x) u' x' (ground (arith, pending))
  ]

  feed-takes :
      (u : LogicUnit) (x : List ℕ) (u' : LogicUnit) (x' : List ℕ)
      → 0 < length d
      → ok_unit u ≡ false
      → feed d u x ≡ returned (u', x')
      → ok_unit u' ≡ true
      → length x' < length x
  feed-takes u x u' x' some_bytes p e w = elim (Option-cases (find d x)) [
    | inl f ↦ absurd (
        let e' = returned-injective (sym (feed_none u x p f) ∙ e) in
        let t = sym p ∙ ap (λ r. ok_unit r.0) e' ∙ w in cc)
    | inr (i, f) ↦
        rw (← ap (λ r. length r.1) (returned-injective (sym (feed_found u x i p f) ∙ e)))
          (omega (arith, length-drop {0} (i + length d) x, find-bound d x f))
  ]

  pub dstream_builder-IsConsuming : 0 < length d → IsConsuming (dstream_builder d)
  dstream_builder-IsConsuming h = record {
    takes = λ u x u' x' e w. feed-takes _ x u' x' h refl e w;
    shrinks = feed-shrinks;
  }
