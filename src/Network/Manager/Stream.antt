-- ===== src/Network/Manager/Stream.antt =====
-- A stream that comes in parts, each given to unit_builder_manager::operator<<.
use barbacoa_server_lib.Prelude.{
  ℕ, ◌+◌, ◌≡◌, ap, ◌∙◌, refl, Bool, true, false, List, [], ◌∷◌, ◌++◌, Option, none, some, Outcome,
  returned, thrown, Error, length, length-append, arith, append-nil, append_assoc,
}
use native.Mathlib.Nat.{le_refl}
use barbacoa_server_lib.Network.LogicUnit.{LogicUnit}
use barbacoa_server_lib.Network.UnitBuilder.{UnitBuilder, IsIncremental, IsConsuming}
use barbacoa_server_lib.Network.Manager.{Manager, build_units, receive, append_data}
use barbacoa_server_lib.Network.Manager.Streams.{with_builder, build_units_mono}
use barbacoa_server_lib.Network.Manager.Chunks.{build_units-append}
use barbacoa_server_lib.Network.Manager.Totality.{
  build_units_total, build_units_thrown, build_units-IsWaiting, IsWaiting, waiting,
}

abbrev pub concat : List (List ℕ) → List ℕ
concat [] = []
concat (c ∷ cs) = c ++ concat cs

module _ {S : Type 0} (B : UnitBuilder S) where
  -- Fuel that is enough.
  abbrev pub enough : Manager S → List ℕ → ℕ
  enough m bytes = length m.buffer + length bytes + 2

  abbrev pub next_part :
      (Manager S → Option (Outcome (Manager S)))
      → Option (Outcome (Manager S))
      → Option (Outcome (Manager S))
  next_part rest none = none
  next_part rest (some (thrown e m)) = some (thrown e m)
  next_part rest (some (returned m)) = rest m

  -- The parts in turn, up to the first that makes the builder throw.
  unfoldable pub receive_all : List (List ℕ) → Manager S → Option (Outcome (Manager S))
  receive_all [] m = some (returned m)
  receive_all (c ∷ cs) m = next_part (receive_all cs) (receive B (enough m c) m c)

  -- What a user sees of a call: whether it threw, and the units.
  abbrev pub observed : Outcome (Manager S) → Bool × List LogicUnit
  observed (returned m) = (false, m.available_replies)
  observed (thrown e m) = (true, m.available_replies)

-- The result does not depend on the fuel.
pub build_units_unique :
    {S : Type 0} (B : UnitBuilder S) (f g : ℕ) (m : Manager S) (o r : Outcome (Manager S))
    → build_units B f m ≡ some o
    → build_units B g m ≡ some r
    → o ≡ r
build_units_unique B f g m o r p t =
    let up = build_units_mono B f (f + g) m o (omega arith) p in
    let up' = build_units_mono B g (f + g) m r (omega arith) t in cc

module _ {S : Type 0} (B : UnitBuilder S) {V : S → Type 0} (law : IsIncremental B V)
    (eats : IsConsuming B) where
  -- The parts `c ∷ cs` give what their concatenation gives.
  abbrev CutsAway : List ℕ → List (List ℕ) → Manager S → Type 0
  CutsAway c cs m =
      (o : Outcome (Manager S)) × (r : Outcome (Manager S)) × (receive_all B (c ∷ cs) m ≡ some o)
      × (receive B (enough B m (concat (c ∷ cs))) m (concat (c ∷ cs)) ≡ some r)
      × (observed B o ≡ observed B r)

  module _ (x : List ℕ) (s : S) (q : List LogicUnit) (v : V s) (w : B.unit_ready s ≡ false) where
    part_thrown :
        (c : List ℕ) (cs : List (List ℕ)) (e : Error) (m : Manager S)
        → receive B (enough B (with_builder x s q) c) (with_builder x s q) c ≡ some (thrown e m)
        → CutsAway c cs (with_builder x s q)
    unfolding receive receive_all
    part_thrown c cs e m p = (
      thrown e m,
      thrown e (append_data B m (concat cs)),
      rw (p, next_part) refl,
      rw (← append_assoc x c (concat cs)) (
          build_units_thrown B law _ _ (x ++ c) s q (concat cs) e m v w p (
            omega (
              arith,
              length-append {0} c (concat cs),
              length-append {0} x c,
              length-append {0} (x ++ c) (concat cs),
            ))),
      refl,
    )

    part_last :
        (c : List ℕ) (m : Manager S)
        → receive B (enough B (with_builder x s q) c) (with_builder x s q) c ≡ some (returned m)
        → CutsAway c [] (with_builder x s q)
    unfolding receive receive_all
    part_last c m p = (returned m, returned m, rw (p, next_part) refl, rw (append-nil c) p, refl)

    part_returned :
        (c d : List ℕ) (ds : List (List ℕ)) (m : Manager S)
        → receive B (enough B (with_builder x s q) c) (with_builder x s q) c ≡ some (returned m)
        → CutsAway d ds m
        → CutsAway c (d ∷ ds) (with_builder x s q)
    unfolding receive receive_all
    part_returned c d ds m p (o, r, all, one, same) =
        let bytes : List ℕ = c ++ concat (d ∷ ds) in
        let (r', t) =
          build_units_total B eats (enough B (with_builder x s q) bytes) (x ++ bytes) s q
            (omega (arith, length-append {0} x bytes)) in
        let joined =
          build_units-append B law (enough B (with_builder x s q) c) (enough B m (concat (d ∷ ds)))
            _ (x ++ c) s q (concat (d ∷ ds)) m r v w p one (le_refl _) in
        (
          o,
          r',
          rw (p, next_part) all,
          t,
          same
              ∙ ap (observed B) (
                  build_units_unique B _ _ (with_builder (x ++ bytes) s q) r r'
                    (rw append_assoc at joined) t),
        )

  -- The state after a part is again one of a builder that waits.
  part_IsWaiting :
      (x : List ℕ) (s : S) (q : List LogicUnit) (c : List ℕ) (m : Manager S)
      → V s
      → B.unit_ready s ≡ false
      → receive B (enough B (with_builder x s q) c) (with_builder x s q) c ≡ some (returned m)
      → IsWaiting B law m
  unfolding receive
  part_IsWaiting x s q c m v w p = build_units-IsWaiting B law _ (x ++ c) s q m v w p

  by_outcome :
      (x : List ℕ) (s : S) (q : List LogicUnit) (v : V s) (w : B.unit_ready s ≡ false) (c : List ℕ)
      (cs : List (List ℕ)) (o : Outcome (Manager S))
      → receive B (enough B (with_builder x s q) c) (with_builder x s q) c ≡ some o
      → ((m : Manager S)
          → receive B (enough B (with_builder x s q) c) (with_builder x s q) c ≡ some (returned m)
          → CutsAway c cs (with_builder x s q))
      → CutsAway c cs (with_builder x s q)
  by_outcome x s q v w c cs (returned m) p k = k m p
  by_outcome x s q v w c cs (thrown e m) p k = part_thrown x s q v w c cs e m p

  first_part :
      (x : List ℕ) (s : S) (q : List LogicUnit) (c : List ℕ)
      → (o : Outcome (Manager S)) × (receive B
            (enough B (with_builder x s q) c)
            (with_builder x s q)
            c
          ≡ some o)
  unfolding receive
  first_part x s q c =
      build_units_total B eats _ (x ++ c) s q (omega (arith, length-append {0} x c))

  -- For a builder that follows the laws of streams and takes bytes for its units, and a manager whose
  -- builder waits, how a stream is cut does not matter: the parts in turn, and their concatenation in one call,
  -- end, throw or not alike, and give the same units.
  pub receive_all-concat :
      (c : List ℕ) (cs : List (List ℕ)) (m : Manager S)
      → IsWaiting B law m
      → (o : Outcome (Manager S)) × (r : Outcome (Manager S)) × (receive_all B (c ∷ cs) m ≡ some o)
        × (receive B (enough B m (concat (c ∷ cs))) m (concat (c ∷ cs)) ≡ some r)
        × (observed B o ≡ observed B r)
  receive_all-concat c [] m (waiting x s q e v w) =
      let (o, p) = first_part x s q c in
      rw e (by_outcome x s q v w c [] o p (part_last x s q v w c))
  receive_all-concat c (d ∷ ds) m (waiting x s q e v w) =
      let (o, p) = first_part x s q c in
      rw e (
        by_outcome x s q v w c (d ∷ ds) o p λ n t.
          part_returned x s q v w c d ds n t
            (receive_all-concat d ds n (part_IsWaiting x s q c n v w t)))
