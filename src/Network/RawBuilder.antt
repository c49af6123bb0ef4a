-- ===== src/Network/RawBuilder.antt =====
-- raw_builder (include/server_lib/network/raw_builder.h, src/network/raw_builder.cpp): the whole
-- buffer is a unit.
use barbacoa_server_lib.Prelude.{
  ℕ, suc, ◌+◌, ◌≡◌, ◌∙◌, refl, false, not, ◌||◌, List, [], ◌∷◌, ◌++◌, some, ok, Outcome, returned,
  is_empty, if◌then◌else◌, append-nil, append_assoc, map, length, arith, ap,
}
use barbacoa_server_lib.Network.LogicUnit.{LogicUnit, from_bool, from_string}
use barbacoa_server_lib.Network.UnitBuilder.{UnitBuilder}
use barbacoa_server_lib.Network.Manager.{receive}
use barbacoa_server_lib.Network.Manager.Streams.{with_builder, round_made, round_empty}
use barbacoa_server_lib.Network.Manager.Stream.{receive_all, next_part, enough}

-- The state is `_buffer`.
unfoldable pub feed : List ℕ → List ℕ → Outcome (List ℕ × List ℕ)
feed buffer bytes =
    if not (is_empty buffer) || is_empty bytes
    then returned (buffer, bytes)
    else returned (bytes, [])

abbrev pub get_unit : List ℕ → LogicUnit
get_unit buffer = if not (is_empty buffer) then from_string buffer else from_bool false

abbrev pub raw_builder : UnitBuilder (List ℕ)
raw_builder = record {
  create = λ s text. ok (from_string text);
  feed = feed;
  unit_ready = λ s. not (is_empty s);
  get_unit = get_unit;
  reset = λ s. [];
}

-- A chunk of at least a byte becomes one unit, with these bytes, behind the units that are there;
-- the buffer and the builder are empty again.
pub receive_chunk :
    (f a : ℕ) (bytes : List ℕ) (q : List LogicUnit)
    → receive raw_builder (suc (suc f)) (with_builder [] [] q) (a ∷ bytes)
      ≡ some (returned (with_builder [] [] (q ++ from_string (a ∷ bytes) ∷ [])))
unfolding receive feed
receive_chunk f a bytes q =
    round_made raw_builder (suc f) a bytes [] q (a ∷ bytes) [] refl refl
    ∙ round_empty raw_builder f [] (q ++ from_string (a ∷ bytes) ∷ [])

-- Chunks of at least a byte.
abbrev pub AllNonempty : List (List ℕ) → Type 0
AllNonempty [] = Unit {0}
AllNonempty (c ∷ cs) = (is_empty c ≡ false) × AllNonempty cs

first_chunk :
    (a : ℕ) (c : List ℕ) (q : List LogicUnit)
    → receive raw_builder
        (enough raw_builder (with_builder [] [] q) (a ∷ c))
        (with_builder [] [] q)
        (a ∷ c)
      ≡ some (returned (with_builder [] [] (q ++ from_string (a ∷ c) ∷ [])))
first_chunk a c q = rw (fuel c) (receive_chunk (suc (length c)) a c q)
  where
    fuel : (c : List ℕ) → 0 + suc (length c) + 2 ≡ suc (suc (suc (length c)))
    fuel c = omega arith

-- A stream of chunks of at least a byte gives one unit for each, with its bytes, in order: here the
-- chunks are the frames.
pub receive_all_chunks :
    (cs : List (List ℕ)) (q : List LogicUnit)
    → AllNonempty cs
    → receive_all raw_builder cs (with_builder [] [] q)
      ≡ some (returned (with_builder [] [] (q ++ map from_string cs)))
unfolding receive_all
receive_all_chunks [] q h = rw (append-nil q) refl
receive_all_chunks ([] ∷ cs) q h = absurd (let t = h.0 in cc)
receive_all_chunks ((a ∷ c) ∷ cs) q h =
    ap (next_part raw_builder (receive_all raw_builder cs)) (first_chunk a c q)
    ∙ receive_all_chunks cs (q ++ from_string (a ∷ c) ∷ []) h.1
    ∙ ap (λ us. some (returned (with_builder [] [] us)))
        (append_assoc q (from_string (a ∷ c) ∷ []) (map from_string cs))
