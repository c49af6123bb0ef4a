-- ===== src/Network/Manager/Streams.antt =====
-- The loop of unit_builder_manager::operator<<: what it makes of a stream does not depend on how
-- the stream was cut.
use barbacoa_server_lib.Prelude.{
  ℕ, zero, suc, ◌≤◌, ◌≡◌, subst, refl, Bool, true, false, List, [], ◌∷◌, ◌++◌, Option, some,
  Outcome, returned, thrown, Error, arith,
}
use barbacoa_server_lib.Network.LogicUnit.{LogicUnit}
use barbacoa_server_lib.Network.UnitBuilder.{UnitBuilder}
use barbacoa_server_lib.Network.Manager.{Manager, collect, build_unit, continue_with, build_units}

-- A manager with a builder.
abbrev pub with_builder : {S : Type 0} → List ℕ → S → List LogicUnit → Manager S
with_builder x s q = record { buffer = x; builder = some s; available_replies = q }

module _ {S : Type 0} (B : UnitBuilder S) where
  pub continue_with_mono :
      (f g : Manager S → Option (Outcome (Manager S)))
      → ((m : Manager S) (r : Outcome (Manager S)) → f m ≡ some r → g m ≡ some r)
      → (o : Outcome (Manager S × Bool)) (r : Outcome (Manager S)) → continue_with B f o ≡ some r
      → continue_with B g o ≡ some r
  unfolding continue_with
  continue_with_mono f g h (thrown e (m, b)) r p = p
  continue_with_mono f g h (returned (m, true)) r p = h m r p
  continue_with_mono f g h (returned (m, false)) r p = p

  -- More fuel does not change a result.
  pub build_units_mono :
      (f g : ℕ) (m : Manager S) (r : Outcome (Manager S))
      → f ≤ g
      → build_units B f m ≡ some r
      → build_units B g m ≡ some r
  unfolding build_units
  build_units_mono zero g m r h p = cc
  build_units_mono (suc f) zero m r h p = absurd (omega arith)
  build_units_mono (suc f) (suc g) m r h p =
      continue_with_mono (build_units B f) (build_units B g)
        (λ n q. build_units_mono f g n q (omega arith)) (build_unit B m) r p

  pub collect-same :
      (x y : List ℕ) (s t : S) (q : List LogicUnit) (o : Outcome (S × List ℕ))
      → collect B (with_builder x s q) o ≡ collect B (with_builder y t q) o
  unfolding collect
  collect-same x y s t q (returned (u, r)) = refl
  collect-same x y s t q (thrown e (u, r)) = refl

  -- One round of the loop, by what the builder did.
  module _ (f : ℕ) (a : ℕ) (xs : List ℕ) (s : S) (q : List LogicUnit) where
    pub round_made :
        (s' : S) (r : List ℕ)
        → B.feed s (a ∷ xs) ≡ returned (s', r)
        → B.unit_ready s' ≡ true
        → build_units B (suc f) (with_builder (a ∷ xs) s q)
          ≡ build_units B f (with_builder r (B.reset s') (q ++ B.get_unit s' ∷ []))
    unfolding build_units build_unit collect continue_with
    round_made s' r e w = rw (e, collect, w) refl

    pub round_waits :
        (s' : S) (r : List ℕ)
        → B.feed s (a ∷ xs) ≡ returned (s', r)
        → B.unit_ready s' ≡ false
        → build_units B (suc f) (with_builder (a ∷ xs) s q) ≡ some (returned (with_builder r s' q))
    unfolding build_units build_unit collect continue_with
    round_waits s' r e w = rw (e, collect, w) refl

    pub round_fails :
        (e : Error) (s' : S) (r : List ℕ)
        → B.feed s (a ∷ xs) ≡ thrown e (s', r)
        → build_units B (suc f) (with_builder (a ∷ xs) s q) ≡ some (thrown e (with_builder r s' q))
    unfolding build_units build_unit collect continue_with
    round_fails e s' r p = rw (p, collect) refl

    pub round_feed :
        build_units B (suc f) (with_builder (a ∷ xs) s q)
        ≡ continue_with B
            (build_units B f)
            (collect B (with_builder (a ∷ xs) s q) (B.feed s (a ∷ xs)))
    unfolding build_units build_unit
    round_feed = refl

  pub round_empty :
      (f : ℕ) (s : S) (q : List LogicUnit)
      → build_units B (suc f) (with_builder [] s q) ≡ some (returned (with_builder [] s q))
  unfolding build_units build_unit continue_with
  round_empty f s q = refl

  -- `round_made` at a buffer that is known not to be empty.
  pub round_made_at :
      (f : ℕ) (x : List ℕ) (s : S) (q : List LogicUnit) (s' : S) (r : List ℕ)
      → (a : ℕ) × (xs : List ℕ) × (x ≡ a ∷ xs)
      → B.feed s x ≡ returned (s', r)
      → B.unit_ready s' ≡ true
      → build_units B (suc f) (with_builder x s q)
        ≡ build_units B f (with_builder r (B.reset s') (q ++ B.get_unit s' ∷ []))
  round_made_at f x s q s' r (a, xs, e) p w =
      rw e (round_made f a xs s q s' r (subst (λ z. B.feed s z ≡ returned (s', r)) e p) w)
