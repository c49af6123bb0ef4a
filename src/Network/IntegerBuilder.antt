-- ===== src/Network/IntegerBuilder.antt =====
-- integer_builder (include/server_lib/network/integer_builder.h, src/network/integer_builder.cpp).
pub mod Pack
use barbacoa_server_lib.Prelude.{
  ℕ, zero, suc, ◌+◌, ◌-◌, ◌≤◌, ◌<◌, ◌^◌, ◌≡◌, ◌⊎◌, inl, inr, ap, ◌∙◌, refl, Bool, true, false, List,
  ◌++◌, Result, err, Outcome, returned, thrown, Error, logic_error, undefined, length, drop, arith,
  if◌then◌else◌, drop-append_le, drop_prefix,
}
use native.Mathlib.Nat.{le_refl}
use barbacoa_server_lib.Network.LogicUnit.{
  LogicUnit, from_bool, from_integer, set_bool, set_integer, ok_unit,
}
use barbacoa_server_lib.Network.UnitBuilder.{UnitBuilder, IsIncremental}
use Pack.{
  Unpacked, incomplete, complete, undefined_shift, pack, unpack, unpack-append, unpack-got,
  unpack-pack,
}

-- The state is `_unit`, an error until a number is there.
abbrev pub initial : LogicUnit
initial = from_bool false

abbrev pub create : LogicUnit → List ℕ → Result LogicUnit
create u text = err logic_error

abbrev pub after_unpack : LogicUnit → List ℕ → Unpacked → Outcome (LogicUnit × List ℕ)
after_unpack u bytes incomplete = returned (u, bytes)
after_unpack u bytes (complete value got) = returned (set_integer u value, drop got bytes)
after_unpack u bytes undefined_shift = thrown undefined (u, bytes)

unfoldable pub feed : LogicUnit → List ℕ → Outcome (LogicUnit × List ℕ)
feed u bytes = if ok_unit u then returned (u, bytes) else after_unpack u bytes (unpack bytes)

abbrev pub integer_builder : UnitBuilder LogicUnit
integer_builder = record {
  create = create;
  feed = feed;
  unit_ready = ok_unit;
  get_unit = λ u. u;
  reset = λ u. set_bool u false;
}

-- A builder that waits: the number is cut off, or cannot be read, or is there, and then bytes that
-- come later change nothing.
pub data Sizing (u : LogicUnit) (x : List ℕ) : Type 0 where
  short : feed u x ≡ returned (u, x) → Sizing u x
  broken :
      (e : Error)
      → feed u x ≡ thrown e (u, x)
      → ((y : List ℕ) → feed u (x ++ y) ≡ thrown e (u, x ++ y))
      → Sizing u x
  sized :
      (value got : ℕ)
      → 0 < got
      → got ≤ length x
      → feed u x ≡ returned (set_integer u value, drop got x)
      → ((y : List ℕ) → feed u (x ++ y) ≡ returned (set_integer u value, drop got x ++ y))
      → Sizing u x

Sizing-of :
    (u : LogicUnit) (x : List ℕ) (r : Unpacked) → unpack x ≡ r → ok_unit u ≡ false → Sizing u x
unfolding feed
Sizing-of u x incomplete e h = short (rw (h, e) refl)
Sizing-of u x undefined_shift e h =
    broken undefined (rw (h, e) refl) (λ y. rw (h, unpack-append x y (λ q. cc), e) refl)
Sizing-of u x (complete v g) e h =
    let within = (unpack-got x e).1 in
    sized v g (unpack-got x e).0 within (rw (h, e) refl)
      (λ y. rw (h, unpack-append x y (λ q. cc), e, drop-append_le g x y within) refl)

pub sizing : (u : LogicUnit) (x : List ℕ) → ok_unit u ≡ false → Sizing u x
sizing u x = Sizing-of u x (unpack x) refl

-- A builder that waits takes a packed number off the buffer, and no more.
pub feed-pack :
    (u : LogicUnit) (n : ℕ) (rest : List ℕ)
    → ok_unit u ≡ false
    → n < 2 ^ 32
    → feed u (pack n ++ rest) ≡ returned (set_integer u n, rest)
unfolding feed
feed-pack u n rest h small = rw (h, unpack-pack n rest small, drop_prefix (pack n) rest) refl
