-- ===== src/Network/StringBuilder.antt =====
-- string_builder (include/server_lib/network/string_builder.h, src/network/string_builder.cpp):
-- a string of `size` bytes.
pub mod Incremental
use barbacoa_server_lib.Prelude.{
  ℕ, ◌+◌, ◌-◌, ◌≤◌, ◌<◌, ◌≡◌, ◌≢◌, ◌⊎◌, ap, ◌∙◌, sym, inl, inr, refl, Bool, true, false, List, [],
  ◌∷◌, ◌++◌, Result, ok, Outcome, returned, thrown, Error, logic_error, length, length-append,
  length-take, take, drop, is_empty, min, arith, if◌then◌else◌, ltb, leb, ◌==◌, append_assoc,
  append-nil, take_all, drop_all, take-append_le, take-append_ge, drop-append_le, drop-append_ge,
  length-drop, dec_lt,
}
use barbacoa_server_lib.Network.LogicUnit.{LogicUnit, from_bool, from_string, set_bool, set_string}
use barbacoa_server_lib.Network.UnitBuilder.{UnitBuilder, IsIncremental}

pub record StringBuilder : Type 0 where
  pub size : ℕ
  pub buffer : List ℕ
  pub ready : Bool
  pub content : LogicUnit

unfoldable pub initial : ℕ → StringBuilder
initial size = record { size = size; buffer = []; ready = false; content = from_bool false }

unfoldable pub create : List ℕ → Result LogicUnit
create text = ok (from_string text)

-- The unit of `size` bytes; no bytes make a valid empty unit.
abbrev pub content_of : LogicUnit → List ℕ → LogicUnit
content_of u bytes = if is_empty bytes then set_bool u true else set_string u bytes

abbrev pub completed : StringBuilder → List ℕ → StringBuilder
completed s bytes = record s { ready = true; content = content_of s.content bytes; buffer = [] }

-- Bytes that `_buffer` still wants: `min(network_data.size(), left)`, or none.
added : StringBuilder → List ℕ → ℕ
added s bytes =
    if ltb (length s.buffer) s.size then min (length bytes) (s.size - length s.buffer) else 0

finish : StringBuilder → List ℕ → List ℕ → Outcome (StringBuilder × List ℕ)
finish s held rest =
    if leb (length held) s.size
    then (if length held == s.size
        then returned (completed s held, rest)
        else returned (record s { buffer = held }, rest))
    else thrown logic_error (record s { buffer = held }, rest)

unfoldable pub feed : StringBuilder → List ℕ → Outcome (StringBuilder × List ℕ)
unfolding added finish
feed s bytes =
    if s.ready
    then returned (s, bytes)
    else finish s (s.buffer ++ take (added s bytes) bytes) (drop (added s bytes) bytes)

unfoldable pub reset : StringBuilder → StringBuilder
reset s = record s { content = set_bool s.content false; ready = false; buffer = [] }

unfoldable pub set_size : StringBuilder → ℕ → StringBuilder
set_size s size = record s { size = size }

abbrev pub string_builder : UnitBuilder StringBuilder
string_builder = record {
  create = λ s text. create text;
  feed = feed;
  unit_ready = λ s. s.ready;
  get_unit = λ s. s.content;
  reset = reset;
}

module _ (s : StringBuilder) (pending : s.ready ≡ false) where
  -- Too few bytes: all of them are kept.
  pub feed_partial :
      (x : List ℕ)
      → length s.buffer + length x < s.size
      → feed s x ≡ returned (record s { buffer = s.buffer ++ x }, [])
  unfolding feed
  feed_partial x h = ground (
    arith,
    pending,
    take_all (min (length x) (s.size - length s.buffer)) x,
    drop_all (min (length x) (s.size - length s.buffer)) x,
    length-append s.buffer x,
  )

  -- Enough bytes: as many as are wanted make the unit.
  pub feed_complete :
      (x : List ℕ)
      → length s.buffer ≤ s.size
      → s.size ≤ length s.buffer + length x
      → let wanted = s.size - length s.buffer in
        feed s x ≡ returned (completed s (s.buffer ++ take wanted x), drop wanted x)
  unfolding feed added finish
  feed_complete x h k =
      rw (pending, enough)
        (ground (
          arith,
          length-append s.buffer (take (s.size - length s.buffer) x),
          length-take (s.size - length s.buffer) x,
        ))
    where
      enough : added s x ≡ s.size - length s.buffer
      enough = ground arith

  -- A buffer longer than the size fails the assertion, and nothing is taken.
  pub feed_overfull : (x : List ℕ) → s.size < length s.buffer → feed s x ≡ thrown logic_error (s, x)
  unfolding feed
  feed_overfull x h = ground (arith, pending, append-nil s.buffer)
