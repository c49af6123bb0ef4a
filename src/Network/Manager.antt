-- ===== src/Network/Manager.antt =====
-- unit_builder_manager (src/network/unit_builder_manager.h, src/network/unit_builder_manager.cpp):
-- the buffer of a connection, its builder, and the units that are built and not yet taken.
pub mod Streams
pub mod Chunks
pub mod Totality
pub mod Stream
use barbacoa_server_lib.Prelude.{
  ℕ, zero, suc, ◌+◌, ◌≡◌, refl, Bool, true, false, List, [], ◌∷◌, ◌++◌, Option, none, some, Result,
  ok, err, Outcome, returned, thrown, Error, logic_error, length, if◌then◌else◌,
}
use barbacoa_server_lib.Network.LogicUnit.{LogicUnit}
use barbacoa_server_lib.Network.UnitBuilder.{UnitBuilder}

-- `builder` is a shared pointer, null until `set_builder`.
pub record Manager (S : Type 0) : Type 0 where
  pub buffer : List ℕ
  pub builder : Option S
  pub available_replies : List LogicUnit

module _ {S : Type 0} (B : UnitBuilder S) where
  pub initial : Option S → Manager S
  initial builder = record { buffer = []; builder = builder; available_replies = [] }

  -- A null builder, as `clone` of a builder without that operation returns, is refused.
  pub set_builder : Manager S → Option S → Outcome (Manager S)
  set_builder m none = thrown logic_error m
  set_builder m (some s) = returned (record m { builder = some s })

  -- What `build_unit` does after `*_builder << _buffer`.
  unfoldable pub collect : Manager S → Outcome (S × List ℕ) → Outcome (Manager S × Bool)
  collect m (thrown e (s, rest)) = thrown e (record m { builder = some s; buffer = rest }, false)
  collect m (returned (s, rest)) =
      if B.unit_ready s
      then returned (
        record m {
          builder = some (B.reset s);
          buffer = rest;
          available_replies = m.available_replies ++ B.get_unit s ∷ [];
        },
        true,
      )
      else returned (record m { builder = some s; buffer = rest }, false)

  build_unit_with : Manager S → List ℕ → Option S → Outcome (Manager S × Bool)
  unfolding collect
  build_unit_with m [] b = returned (m, false)
  build_unit_with m (x ∷ xs) none = thrown logic_error (m, false)
  build_unit_with m (x ∷ xs) (some s) = collect m (B.feed s (x ∷ xs))

  unfoldable pub build_unit : Manager S → Outcome (Manager S × Bool)
  unfolding build_unit_with
  build_unit m = build_unit_with m m.buffer m.builder

  unfoldable pub continue_with :
      (Manager S → Option (Outcome (Manager S)))
      → Outcome (Manager S × Bool)
      → Option (Outcome (Manager S))
  continue_with again (thrown e (m, built)) = some (thrown e m)
  continue_with again (returned (m, true)) = again m
  continue_with again (returned (m, false)) = some (returned m)

  -- `while (build_unit());` with fuel; `none` is a loop that has not ended.
  unfoldable pub build_units : ℕ → Manager S → Option (Outcome (Manager S))
  unfolding continue_with
  build_units zero m = none
  build_units (suc fuel) m = continue_with (build_units fuel) (build_unit m)

  abbrev pub append_data : Manager S → List ℕ → Manager S
  append_data m bytes = record m { buffer = m.buffer ++ bytes }

  -- operator<<
  unfoldable pub receive : ℕ → Manager S → List ℕ → Option (Outcome (Manager S))
  receive fuel m bytes = build_units fuel (append_data m bytes)

  pub reset : Manager S → Manager S
  reset m = record m { buffer = [] }

  abbrev pub receive_available_in : List LogicUnit → Bool
  receive_available_in [] = false
  receive_available_in (u ∷ us) = true

  unfoldable pub receive_available : Manager S → Bool
  receive_available m = receive_available_in m.available_replies

  abbrev pub front_of : List LogicUnit → Result LogicUnit
  front_of [] = err logic_error
  front_of (u ∷ us) = ok u

  unfoldable pub get_front : Manager S → Result LogicUnit
  get_front m = front_of m.available_replies

  abbrev pub popped : Manager S → List LogicUnit → Outcome (Manager S)
  popped m [] = thrown logic_error m
  popped m (u ∷ us) = returned (record m { available_replies = us })

  unfoldable pub pop_front : Manager S → Outcome (Manager S)
  pop_front m = popped m m.available_replies
