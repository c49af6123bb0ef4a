-- ===== src/Network/MsgBuilder.antt =====
-- msg_builder (include/server_lib/network/msg_builder.h, src/network/msg_builder.cpp): a size in
-- the form of integer_builder, and then that many bytes.
pub mod Incremental
pub mod Delivery
pub mod Consuming
pub mod RoundTrip
use barbacoa_server_lib.Prelude.{
  ℕ, zero, suc, ◌+◌, ◌-◌, ◌*◌, ◌%◌, ◌^◌, ◌≤◌, ◌<◌, ◌≡◌, refl, Bool, true, false, List, [], ◌∷◌,
  ◌++◌, Result, ok, err, Outcome, returned, thrown, Error, logic_error, length, arith,
  if◌then◌else◌, leb, ◌&&◌, not,
}
use barbacoa_server_lib.Network.LogicUnit.{
  LogicUnit, ok_unit, as_integer, from_bool, from_string, ◌<<◌,
}
use barbacoa_server_lib.Network.UnitBuilder.{UnitBuilder}
use barbacoa_server_lib.Network.IntegerBuilder
use barbacoa_server_lib.Network.IntegerBuilder.{integer_builder}
use barbacoa_server_lib.Network.IntegerBuilder.Pack.{pack}
use barbacoa_server_lib.Network.StringBuilder
use barbacoa_server_lib.Network.StringBuilder.{StringBuilder, string_builder}

pub record MsgBuilder : Type 0 where
  pub msg_max_size : ℕ
  pub ready : Bool
  pub size_builder : LogicUnit
  pub msg_builder : StringBuilder

unfoldable pub initial : ℕ → MsgBuilder
unfolding StringBuilder.initial
initial msg_max_size = record {
  msg_max_size = msg_max_size;
  ready = false;
  size_builder = IntegerBuilder.initial;
  msg_builder = StringBuilder.initial 0;
}

-- The two assertions; `size_type` is uint32_t.
unfoldable pub create : MsgBuilder → List ℕ → Result LogicUnit
create s msg =
    if leb (length msg) s.msg_max_size && leb (length msg) (2 ^ 32 - 1)
    then ok (from_bool true << from_string (pack (length msg)) << from_string msg)
    else err logic_error

-- The first `if`: read the size, check it, and pass it on.
take_size : MsgBuilder → Outcome (LogicUnit × List ℕ) → Outcome (MsgBuilder × List ℕ)
unfolding StringBuilder.set_size
take_size s (thrown e (size, rest)) = thrown e (record s { size_builder = size }, rest)
take_size s (returned (size, rest)) =
    let s' : MsgBuilder = record s { size_builder = size } in
    if ok_unit size
    then elim (as_integer size) [
      | err e ↦ thrown e (s', rest)
      | ok sz ↦
          if leb sz s.msg_max_size
          then returned (record s' { msg_builder = StringBuilder.set_size s.msg_builder sz }, rest)
          else thrown logic_error (s', rest)
    ]
    else returned (s', rest)

feed_size : MsgBuilder → List ℕ → Outcome (MsgBuilder × List ℕ)
unfolding take_size IntegerBuilder.feed
feed_size s bytes =
    if ok_unit s.size_builder
    then returned (s, bytes)
    else take_size s (IntegerBuilder.feed s.size_builder bytes)

-- The last `if`.
unfoldable pub mark_ready : MsgBuilder → MsgBuilder
mark_ready s = if s.msg_builder.ready then record s { ready = true } else s

unfoldable pub take_msg :
    MsgBuilder → Outcome (StringBuilder × List ℕ) → Outcome (MsgBuilder × List ℕ)
unfolding mark_ready
take_msg s (thrown e (msg, rest)) = thrown e (record s { msg_builder = msg }, rest)
take_msg s (returned (msg, rest)) = returned (mark_ready (record s { msg_builder = msg }), rest)

-- The second `if`, and the last one.
unfoldable pub feed_msg : Outcome (MsgBuilder × List ℕ) → Outcome (MsgBuilder × List ℕ)
unfolding take_msg mark_ready
feed_msg (thrown e (s, rest)) = thrown e (s, rest)
feed_msg (returned (s, rest)) =
    if ok_unit s.size_builder && not s.msg_builder.ready
    then take_msg s (StringBuilder.feed s.msg_builder rest)
    else returned (mark_ready s, rest)

unfoldable pub feed : MsgBuilder → List ℕ → Outcome (MsgBuilder × List ℕ)
unfolding feed_size feed_msg
feed s bytes = if s.ready then returned (s, bytes) else feed_msg (feed_size s bytes)

unfoldable pub reset : MsgBuilder → MsgBuilder
unfolding StringBuilder.reset
reset s = record s {
  ready = false;
  size_builder = integer_builder.reset s.size_builder;
  msg_builder = StringBuilder.reset s.msg_builder;
}

abbrev pub msg_builder : UnitBuilder MsgBuilder
msg_builder = record {
  create = create;
  feed = feed;
  unit_ready = λ s. s.ready;
  get_unit = λ s. s.msg_builder.content;
  reset = reset;
}
