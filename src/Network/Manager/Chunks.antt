-- ===== src/Network/Manager/Chunks.antt =====
-- Two feeds in a row are one feed of both parts.
use barbacoa_server_lib.Prelude.{
  ℕ, zero, suc, ◌+◌, ◌≤◌, ◌≡◌, ◌∙◌, sym, subst, refl, false, List, [], ◌∷◌, ◌++◌, Option, some,
  Outcome, returned, thrown, Error, arith, append-nil,
}
use barbacoa_server_lib.Network.LogicUnit.{LogicUnit}
use barbacoa_server_lib.Network.UnitBuilder.{UnitBuilder, IsIncremental, waits, makes, fails}
use barbacoa_server_lib.Network.Manager.{Manager, build_units, append_data}
use barbacoa_server_lib.Network.Manager.Streams.{
  with_builder, build_units_mono, continue_with_mono, collect-same, round_made, round_waits,
  round_fails, round_feed, round_empty,
}

some_returned-injective {ℓ} : {A : Type ℓ} {a b : A} → some (returned a) ≡ some (returned b) → a ≡ b
some_returned-injective h = cc

module _ {S : Type 0} (B : UnitBuilder S) {V : S → Type 0} (law : IsIncremental B V) where
  -- After a builder that waits, the loop goes on with the next bytes as if it had had them.
  resume :
      (g h : ℕ) (a : ℕ) (xs z : List ℕ) (s s' : S) (x' b : List ℕ) (q : List LogicUnit)
      (r : Outcome (Manager S))
      → x' ++ b ≡ z
      → B.feed s (a ∷ xs) ≡ returned (s', x')
      → B.unit_ready s' ≡ false
      → B.feed s (a ∷ (xs ++ b)) ≡ B.feed s' (x' ++ b)
      → build_units B g (with_builder z s' q) ≡ some r
      → g ≤ suc h
      → build_units B (suc h) (with_builder (a ∷ (xs ++ b)) s q) ≡ some r
  resume zero h a xs z s s' x' b q r e f w same p le = absurd (no_fuel p)
    where
      no_fuel : build_units B zero (with_builder z s' q) ≡ some r → ⊥
      no_fuel p = unfold build_units in cc
  resume (suc g) h a xs [] s s' [] [] q r e f w same p le =
      rw (append-nil xs) (round_waits B h a xs s q s' [] f w ∙ sym (round_empty B g s' q) ∙ p)
  resume (suc g) h a xs [] s s' [] (c ∷ b) q r e f w same p le = cc
  resume (suc g) h a xs [] s s' (c ∷ x') b q r e f w same p le = cc
  resume (suc g) h a xs (c ∷ z) s s' x' b q r e f w same p le =
      round_feed B h a (xs ++ b) s q
      ∙ continue_with_mono B (build_units B g) (build_units B h)
          (λ m o t. build_units_mono B g h m o (omega arith) t) _ r
          (rw (same, e, collect-same B (a ∷ (xs ++ b)) (c ∷ z) s s' q)
            (sym (round_feed B g c z s' q) ∙ p))

  -- What a call that returned left behind takes the bytes `b` as one call would take all.
  pub build_units-append :
      (f g h : ℕ) (x : List ℕ) (s : S) (q : List LogicUnit) (b : List ℕ) (m : Manager S)
      (r : Outcome (Manager S))
      → V s
      → B.unit_ready s ≡ false
      → build_units B f (with_builder x s q) ≡ some (returned m)
      → build_units B g (append_data B m b) ≡ some r
      → f + g ≤ h
      → build_units B h (with_builder (x ++ b) s q) ≡ some r
  build_units-append zero g h x s q b m r v w p t le = absurd (unfold build_units in cc)
  build_units-append (suc f) g zero x s q b m r v w p t le = absurd (omega arith)
  build_units-append (suc f) g (suc h) [] s q b m r v w p t le =
      build_units_mono B g (suc h) (with_builder b s q) r (omega arith) (
        subst (λ n. build_units B g (append_data B n b) ≡ some r)
          (sym (some_returned-injective (sym (round_empty B f s q) ∙ p))) t)
  build_units-append (suc f) g (suc h) (a ∷ xs) s q b m r v w p t le =
      elim (law.feeding s (a ∷ xs) v w) [
        | waits s' x' v' w' e later ↦
            resume g h a xs (x' ++ b) s s' x' b q r refl e w' (later b)
              (subst (λ n. build_units B g (append_data B n b) ≡ some r)
                (sym (some_returned-injective (sym (round_waits B f a xs s q s' x' e w') ∙ p))) t)
              (omega arith)
        | makes s' x' w' e later ↦
            round_made B h a (xs ++ b) s q s' (x' ++ b) (later b) w'
            ∙ build_units-append f g h x' (B.reset s') (q ++ B.get_unit s' ∷ []) b m r
                (law.keeps_reset s') (law.reset_pending s')
                (sym (round_made B f a xs s q s' x' e w') ∙ p) t (omega arith)
        | fails e s' x' f' later ↦
            absurd (returned_not_thrown (sym p ∙ round_fails B f a xs s q e s' x' f'))
      ]
    where
      returned_not_thrown :
          {m n : Manager S} {e : Error}
          → ◌≡◌ {A = Option (Outcome (Manager S))} (some (returned m)) (some (thrown e n))
          → ⊥
      returned_not_thrown h = cc
