-- ===== src/Network/Manager/Totality.antt =====
-- The loop of unit_builder_manager::operator<< ends, and what state it leaves.
use barbacoa_server_lib.Prelude.{
  ℕ, zero, suc, ◌+◌, ◌≤◌, ◌<◌, ◌≡◌, ap, ◌∙◌, sym, refl, true, false, List, [], ◌∷◌, ◌++◌, Option,
  none, some, Outcome, returned, thrown, Error, length, arith, Bool-cases, inl, inr,
}
use barbacoa_server_lib.Network.LogicUnit.{LogicUnit}
use barbacoa_server_lib.Network.UnitBuilder.{
  UnitBuilder, IsIncremental, IsConsuming, waits, makes, fails,
}
use barbacoa_server_lib.Network.Manager.{Manager, build_units, append_data}
use barbacoa_server_lib.Network.Manager.Streams.{
  with_builder, round_made, round_waits, round_fails, round_empty,
}

-- What a call of the builder can be.
data Call {S : Type 0} (o : Outcome (S × List ℕ)) : Type 0 where
  came : (s : S) (r : List ℕ) → o ≡ returned (s, r) → Call o
  threw : (e : Error) (s : S) (r : List ℕ) → o ≡ thrown e (s, r) → Call o

call_of : {S : Type 0} (o : Outcome (S × List ℕ)) → Call o
call_of (returned (s, r)) = came s r refl
call_of (thrown e (s, r)) = threw e s r refl

module _ {S : Type 0} (B : UnitBuilder S) (law : IsConsuming B) where
  -- A round on a nonempty buffer ends the loop, or the loop goes on after a reset.
  abbrev Ends : ℕ → List ℕ → S → List LogicUnit → Type 0
  Ends f x s q = (r : Outcome (Manager S)) × (build_units B f (with_builder x s q) ≡ some r)

  round :
      (f a : ℕ) (xs : List ℕ) (s : S) (q : List LogicUnit)
      → ((s' : S) (r : List ℕ)
          → B.feed s (a ∷ xs) ≡ returned (s', r)
          → B.unit_ready s' ≡ true
          → Ends f r (B.reset s') (q ++ B.get_unit s' ∷ []))
      → Ends (suc f) (a ∷ xs) s q
  round f a xs s q again = elim (call_of (B.feed s (a ∷ xs))) [
    | threw e s' r p ↦ (_, round_fails B f a xs s q e s' r p)
    | came s' r p ↦ elim (Bool-cases (B.unit_ready s')) [
      | inl w ↦ let (o, t) = again s' r p w in (o, round_made B f a xs s q s' r p w ∙ t)
      | inr w ↦ (_, round_waits B f a xs s q s' r p w)
    ]
  ]

  Ends-reset :
      (f : ℕ) (x : List ℕ) (s : S) (q : List LogicUnit) → length x < f → Ends f x (B.reset s) q
  Ends-reset zero x s q h = absurd (omega arith)
  Ends-reset (suc f) [] s q h = (_, round_empty B f (B.reset s) q)
  Ends-reset (suc f) (a ∷ xs) s q h =
      round f a xs (B.reset s) q
        λ s' r p w. Ends-reset f r s' _ (omega (arith, law.takes s (a ∷ xs) s' r p w))

  -- For a builder that takes bytes for its units, the loop ends within two rounds more than the buffer
  -- has bytes, from any state of the builder.
  pub build_units_total :
      (f : ℕ) (x : List ℕ) (s : S) (q : List LogicUnit)
      → length x + 2 ≤ f
      → (r : Outcome (Manager S)) × (build_units B f (with_builder x s q) ≡ some r)
  build_units_total zero x s q h = absurd (omega arith)
  build_units_total (suc f) [] s q h = (_, round_empty B f s q)
  build_units_total (suc f) (a ∷ xs) s q h =
      round f a xs s q
        λ s' r p w. Ends-reset f r s' _ (omega (arith, law.shrinks s (a ∷ xs) s' r p))

module _ {S : Type 0} (B : UnitBuilder S) {V : S → Type 0} (law : IsIncremental B V) where
  -- A manager whose builder is valid and waits.
  pub data IsWaiting (m : Manager S) : Type 0 where
    waiting :
        (x : List ℕ) (s : S) (q : List LogicUnit)
        → m ≡ with_builder x s q
        → V s
        → B.unit_ready s ≡ false
        → IsWaiting m

  returned_same :
      {m n : Manager S} {o : Option (Outcome (Manager S))}
      → o ≡ some (returned m)
      → o ≡ some (returned n)
      → m ≡ n
  returned_same h k = cc

  -- The loop leaves such a manager, when it returns.
  pub build_units-IsWaiting :
      (f : ℕ) (x : List ℕ) (s : S) (q : List LogicUnit) (m : Manager S)
      → V s
      → B.unit_ready s ≡ false
      → build_units B f (with_builder x s q) ≡ some (returned m)
      → IsWaiting m
  build_units-IsWaiting zero x s q m v w p = absurd (unfold build_units in cc)
  build_units-IsWaiting (suc f) [] s q m v w p =
      waiting [] s q (returned_same p (round_empty B f s q)) v w
  build_units-IsWaiting (suc f) (a ∷ xs) s q m v w p = elim (law.feeding s (a ∷ xs) v w) [
    | waits s' x' v' w' e later ↦
        waiting x' s' q (returned_same p (round_waits B f a xs s q s' x' e w')) v' w'
    | makes s' x' w' e later ↦
        build_units-IsWaiting f x' (B.reset s') (q ++ B.get_unit s' ∷ []) m (law.keeps_reset s')
          (law.reset_pending s') (sym (round_made B f a xs s q s' x' e w') ∙ p)
    | fails e s' x' f' later ↦ absurd (let t = sym p ∙ round_fails B f a xs s q e s' x' f' in cc)
  ]

  -- A call that throws, throws also with more bytes behind it, and leaves these in the buffer.
  pub build_units_thrown :
      (f h : ℕ) (x : List ℕ) (s : S) (q : List LogicUnit) (b : List ℕ) (e : Error) (m : Manager S)
      → V s
      → B.unit_ready s ≡ false
      → build_units B f (with_builder x s q) ≡ some (thrown e m)
      → f ≤ h
      → build_units B h (with_builder (x ++ b) s q) ≡ some (thrown e (append_data B m b))
  build_units_thrown zero h x s q b e m v w p le = absurd (unfold build_units in cc)
  build_units_thrown (suc f) zero x s q b e m v w p le = absurd (omega arith)
  build_units_thrown (suc f) (suc h) [] s q b e m v w p le =
      absurd (let t = sym p ∙ round_empty B f s q in cc)
  build_units_thrown (suc f) (suc h) (a ∷ xs) s q b e m v w p le =
      elim (law.feeding s (a ∷ xs) v w) [
        | waits s' x' v' w' g later ↦
            absurd (let t = sym p ∙ round_waits B f a xs s q s' x' g w' in cc)
        | makes s' x' w' g later ↦
            round_made B h a (xs ++ b) s q s' (x' ++ b) (later b) w'
            ∙ build_units_thrown f h x' (B.reset s') (q ++ B.get_unit s' ∷ []) b e m
                (law.keeps_reset s') (law.reset_pending s')
                (sym (round_made B f a xs s q s' x' g w') ∙ p) (omega arith)
        | fails e' s' x' g later ↦
            round_fails B h a (xs ++ b) s q e' s' (x' ++ b) (later b)
            ∙ ap (append_thrown b) (sym (round_fails B f a xs s q e' s' x' g) ∙ p)
      ]
    where
      append_thrown : List ℕ → Option (Outcome (Manager S)) → Option (Outcome (Manager S))
      append_thrown b (some (thrown e m)) = some (thrown e (append_data B m b))
      append_thrown b (some (returned m)) = none
      append_thrown b none = none
