-- ===== src/Network/DstreamBuilder.antt =====
-- dstream_builder (include/server_lib/network/dstream_builder.h, src/network/dstream_builder.cpp):
-- units that end with a delimiter.
pub mod Find
pub mod Incremental
pub mod Delivery
use barbacoa_server_lib.Prelude.{
  ℕ, ◌+◌, ◌≡◌, Bool, true, false, List, ◌++◌, Option, none, some, Result, ok, Outcome, returned,
  length, take, drop, if◌then◌else◌,
}
use barbacoa_server_lib.Network.LogicUnit.{
  LogicUnit, from_bool, from_string, set_bool, set_string, ok_unit,
}
use barbacoa_server_lib.Network.UnitBuilder.{UnitBuilder}
use Find.{find}

-- The state is `_buffer_unit`; the delimiter is a constant of the object.
abbrev pub initial : LogicUnit
initial = from_bool false

module _ (delimeter : List ℕ) where
  unfoldable pub create : List ℕ → Result LogicUnit
  create text = ok (from_string (text ++ delimeter))

  -- What `operator<<` does with the result of `find`.
  abbrev pub cut_at : LogicUnit → List ℕ → Option ℕ → Outcome (LogicUnit × List ℕ)
  cut_at u bytes none = returned (u, bytes)
  cut_at u bytes (some end_unit) =
      returned (set_string u (take end_unit bytes), drop (end_unit + length delimeter) bytes)

  unfoldable pub feed : LogicUnit → List ℕ → Outcome (LogicUnit × List ℕ)
  feed u bytes = if ok_unit u then returned (u, bytes) else cut_at u bytes (find delimeter bytes)

  abbrev pub reset : LogicUnit → LogicUnit
  reset u = set_bool u false

  abbrev pub dstream_builder : UnitBuilder LogicUnit
  dstream_builder = record {
    create = λ u text. create text;
    feed = feed;
    unit_ready = ok_unit;
    get_unit = λ u. u;
    reset = reset;
  }
