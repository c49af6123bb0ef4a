-- ===== src/Network/DstreamBuilder/Delivery.antt =====
-- Units from dstream_builder::create to the units of unit_builder_manager, and the loop that an
-- empty delimiter makes.
use barbacoa_server_lib.Prelude.{
  ℕ, zero, suc, ◌+◌, ◌<◌, ◌≡◌, ap, ◌∙◌, refl, true, false, List, [], ◌∷◌, ◌++◌, map, none, some,
  Outcome, returned, length, drop, arith, append-nil, append_assoc, take_prefix, drop_prefix,
  length-append,
}
use barbacoa_server_lib.Network.LogicUnit.{
  LogicUnit, Variant, nil, from_string, set_string, set_bool, ok_unit, get_nested,
}
use barbacoa_server_lib.Network.DstreamBuilder.{initial, feed, dstream_builder}
use barbacoa_server_lib.Network.DstreamBuilder.Find.{find, find-append}
use barbacoa_server_lib.Network.DstreamBuilder.Incremental.{
  feed_found, dstream_builder-IsIncremental, dstream_builder-IsConsuming,
}
use barbacoa_server_lib.Network.Manager.{Manager, build_units, receive}
use barbacoa_server_lib.Network.Manager.Streams.{
  with_builder, round_made, round_made_at, round_empty,
}
use barbacoa_server_lib.Network.Manager.Totality.{waiting}
use barbacoa_server_lib.Network.Manager.Stream.{
  concat, receive_all, receive_all-concat, observed, build_units_unique,
}

-- A text behind which the delimiter is first found at its end.
abbrev pub IsClear : List ℕ → List ℕ → Type 0
IsClear d text = find d (text ++ d) ≡ some (length text)

abbrev pub AllClear : List ℕ → List (List ℕ) → Type 0
AllClear d [] = Unit {0}
AllClear d (t ∷ ts) = IsClear d t × AllClear d ts

-- The bytes that `create` puts on the wire.
abbrev pub wire : List ℕ → List (List ℕ) → List ℕ
wire d texts = concat (map (λ t. t ++ d) texts)

nonempty : (x y : List ℕ) → 0 < length y → (a : ℕ) × (t : List ℕ) × (x ++ y ≡ a ∷ t)
nonempty [] [] h = elim h [ ]
nonempty [] (a ∷ y) h = (a, y, refl)
nonempty (a ∷ x) y h = (a, x ++ y, refl)

module _ (d : List ℕ) (some_bytes : 0 < length d) where
  round_text :
      (f : ℕ) (u : LogicUnit) (q : List LogicUnit) (text rest : List ℕ)
      → ok_unit u ≡ false
      → get_nested u ≡ nil
      → IsClear d text
      → build_units (dstream_builder d) (suc f) (with_builder ((text ++ d) ++ rest) u q)
        ≡ build_units
            (dstream_builder d)
            f
            (with_builder rest (set_bool (set_string u text) false) (q ++ from_string text ∷ []))
  round_text f u q text rest p plain clear =
      round_made_at (dstream_builder d) f ((text ++ d) ++ rest) u q (set_string u text) rest
        (rw append_assoc (nonempty text (d ++ rest) (omega (arith, length-append {0} d rest))))
        found refl
      ∙ ap
          (λ n. build_units (dstream_builder d) f (
            with_builder rest (set_bool (set_string u text) false)
              (q ++ LogicUnit.unit true (Variant.string text) n ∷ [])))
          plain
    where
      at_end : drop (length text + length d) ((text ++ d) ++ rest) ≡ rest
      at_end = rw (← length-append text d) (drop_prefix (text ++ d) rest)

      found : feed d u ((text ++ d) ++ rest) ≡ returned (set_string u text, rest)
      found =
          feed_found d u ((text ++ d) ++ rest) (length text) p
            (find-append d (text ++ d) rest clear)
          ∙ rw (at_end, append_assoc, take_prefix text (d ++ rest)) refl

  all_texts :
      (texts : List (List ℕ)) (u : LogicUnit) (q : List LogicUnit)
      → ok_unit u ≡ false
      → get_nested u ≡ nil
      → AllClear d texts
      → (v : LogicUnit) × (build_units
            (dstream_builder d)
            (suc (length texts))
            (with_builder (wire d texts) u q)
          ≡ some (returned (with_builder [] v (q ++ map from_string texts))))
  all_texts [] u q p plain clear = (u, rw (append-nil q) (round_empty (dstream_builder d) 0 u q))
  all_texts (t ∷ ts) u q p plain clear =
      let (v, r) =
        all_texts ts (set_bool (set_string u t) false) (q ++ from_string t ∷ []) refl plain
          clear.1 in
      (
        v,
        round_text (suc (length ts)) u q t (wire d ts) p plain clear.0
            ∙ r
            ∙ ap (λ us. some (returned (with_builder [] v us)))
                (append_assoc q (from_string t ∷ []) (map from_string ts)),
      )

  -- For a delimiter of at least a byte: texts in which it does not show up early, framed by `create`, in whatever parts
  -- `c ∷ cs` the bytes arrive: one unit for each text, in order, and no throw.
  pub dstream_delivery :
      (texts : List (List ℕ)) (c : List ℕ) (cs : List (List ℕ))
      → AllClear d texts
      → concat (c ∷ cs) ≡ wire d texts
      → (o : Outcome (Manager LogicUnit)) × (receive_all
            (dstream_builder d)
            (c ∷ cs)
            (with_builder [] initial [])
          ≡ some o)
        × (observed (dstream_builder d) o ≡ (false, map from_string texts))
  unfolding receive
  dstream_delivery texts c cs clear cut =
      let (o, r, all, one, same) =
        receive_all-concat (dstream_builder d) (dstream_builder-IsIncremental d)
          (dstream_builder-IsConsuming d some_bytes) c cs (with_builder [] initial [])
          (waiting [] initial [] refl tt refl) in
      let (v, p) = all_texts texts initial [] refl refl clear in
      (
        o,
        all,
        same
            ∙ ap (observed (dstream_builder d)) (
                build_units_unique (dstream_builder d) _ _ (with_builder (wire d texts) initial [])
                  r _ (rw cut at one) p),
      )

-- With an empty delimiter and a builder that has no unit, the loop does not end on any fuel, on any
-- bytes.
pub empty_delimiter_spins :
    (f a : ℕ) (x : List ℕ) (u : LogicUnit) (q : List LogicUnit)
    → ok_unit u ≡ false
    → build_units (dstream_builder []) f (with_builder (a ∷ x) u q) ≡ none
empty_delimiter_spins zero a x u q p = unfold build_units in refl
empty_delimiter_spins (suc f) a x u q p =
    round_made (dstream_builder []) f a x u q (set_string u []) (a ∷ x)
      (feed_found [] u (a ∷ x) 0 p (unfold find in refl)) refl
    ∙ empty_delimiter_spins f a x (set_bool (set_string u []) false) _ refl
