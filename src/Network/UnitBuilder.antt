-- ===== src/Network/UnitBuilder.antt =====
-- unit_builder_i (include/server_lib/network/unit_builder_i.h): the interface of the protocols,
-- and the laws under which a stream may be cut anywhere.
use barbacoa_server_lib.Prelude.{
  ℕ, ◌≤◌, ◌<◌, ◌≡◌, Bool, true, false, List, ◌++◌, Result, Outcome, returned, thrown, Error, length,
}
use barbacoa_server_lib.Network.LogicUnit.{LogicUnit}

-- `feed` is `operator<<`: it takes the buffer and leaves what it did not use. A throw leaves the
-- builder and the buffer as they then are.
pub record UnitBuilder (S : Type 0) : Type 0 where
  pub create : S → List ℕ → Result LogicUnit
  pub feed : S → List ℕ → Outcome (S × List ℕ)
  pub unit_ready : S → Bool
  pub get_unit : S → LogicUnit
  pub reset : S → S

-- What a builder that waits does with a buffer `x`, and with more bytes `y` behind it: it still
-- waits, and goes on as if all had come at once; or it has a unit, or throws, whatever comes later.
pub data Feeding {S : Type 0} (B : UnitBuilder S) (Valid : S → Type 0) (s : S) (x : List ℕ)
    : Type 0 where
  waits :
      (s' : S) (x' : List ℕ)
      → Valid s'
      → B.unit_ready s' ≡ false
      → B.feed s x ≡ returned (s', x')
      → ((y : List ℕ) → B.feed s (x ++ y) ≡ B.feed s' (x' ++ y))
      → Feeding B Valid s x
  makes :
      (s' : S) (x' : List ℕ)
      → B.unit_ready s' ≡ true
      → B.feed s x ≡ returned (s', x')
      → ((y : List ℕ) → B.feed s (x ++ y) ≡ returned (s', x' ++ y))
      → Feeding B Valid s x
  fails :
      (e : Error) (s' : S) (x' : List ℕ)
      → B.feed s x ≡ thrown e (s', x')
      → ((y : List ℕ) → B.feed s (x ++ y) ≡ thrown e (s', x' ++ y))
      → Feeding B Valid s x

-- A stream for such a builder may be cut anywhere.
pub record IsIncremental {S : Type 0} (B : UnitBuilder S) (Valid : S → Type 0) : Type 0 where
  pub feeding : (s : S) (x : List ℕ) → Valid s → B.unit_ready s ≡ false → Feeding B Valid s x
  pub keeps_reset : (s : S) → Valid (B.reset s)
  pub reset_pending : (s : S) → B.unit_ready (B.reset s) ≡ false

-- No call adds to the buffer, and a builder that was reset takes at least a byte for a unit.
pub record IsConsuming {S : Type 0} (B : UnitBuilder S) : Type 0 where
  pub takes :
      (s : S) (x : List ℕ) (s' : S) (x' : List ℕ)
      → B.feed (B.reset s) x ≡ returned (s', x')
      → B.unit_ready s' ≡ true
      → length x' < length x
  pub shrinks :
      (s : S) (x : List ℕ) (s' : S) (x' : List ℕ)
      → B.feed s x ≡ returned (s', x')
      → length x' ≤ length x
