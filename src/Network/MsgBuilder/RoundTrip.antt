-- ===== src/Network/MsgBuilder/RoundTrip.antt =====
-- What msg_builder::create makes, msg_builder::operator<< reads.
use barbacoa_server_lib.Prelude.{
  ℕ, ◌-◌, ◌≤◌, ◌<◌, ◌^◌, ◌≡◌, ap, ◌∙◌, refl, true, false, List, [], ◌++◌, returned, ok, length,
  arith, le→leb, append-nil, append_assoc, take_prefix, drop_prefix, if◌then◌else◌, is_empty,
  length-append,
}
use native.Mathlib.Nat.{sub-zero}
use barbacoa_server_lib.Network.LogicUnit.{
  LogicUnit, nil, from_bool, from_string, ok_unit, get_nested, to_network_string, ◌<<◌,
}
use barbacoa_server_lib.Network.IntegerBuilder.{feed-pack}
use barbacoa_server_lib.Network.IntegerBuilder.Pack.{pack}
use barbacoa_server_lib.Network.StringBuilder
use barbacoa_server_lib.Network.StringBuilder.{completed, feed_complete}
use barbacoa_server_lib.Network.MsgBuilder.{
  MsgBuilder, feed, take_msg, mark_ready, reset, create, msg_builder,
}
use barbacoa_server_lib.Network.MsgBuilder.Incremental.{with_size, feed_sized, feed_with_size}

-- A builder between two messages.
pub record IsFresh (s : MsgBuilder) : Type 0 where
  pub not_ready : s.ready ≡ false
  pub no_size : ok_unit s.size_builder ≡ false
  pub no_msg : s.msg_builder.ready ≡ false
  pub no_bytes : s.msg_builder.buffer ≡ []
  pub plain : get_nested s.msg_builder.content ≡ nil

-- The unit that the receiver gets: no bytes come as a null unit.
abbrev pub received : List ℕ → LogicUnit
received msg = if is_empty msg then from_bool true else from_string msg

-- The bytes of a message on the wire.
abbrev pub framed : List ℕ → List ℕ
framed msg = pack (length msg) ++ msg

-- Messages that `create` accepts.
abbrev pub Fits : ℕ → List ℕ → Type 0
Fits limit msg = (length msg ≤ limit) × (length msg < 2 ^ 32)

-- `create` makes a unit with these bytes.
pub create-framed :
    (s : MsgBuilder) (msg : List ℕ)
    → Fits s.msg_max_size msg
    → (u : LogicUnit) × (create s msg ≡ ok u) × (to_network_string u ≡ framed msg)
unfolding create to_network_string
create-framed s msg h = (
  from_bool true << from_string (pack (length msg)) << from_string msg,
  rw (le→leb (length msg) s.msg_max_size h.0, le→leb (length msg) (2 ^ 32 - 1) (omega arith)) refl,
  simp append-nil,
)

module _ (s : MsgBuilder) (f : IsFresh s) (msg rest : List ℕ) (h : Fits s.msg_max_size msg) where
  unfoldable pub after_message : MsgBuilder
  unfolding with_size
  after_message = record (with_size s f.not_ready f.no_size (length msg)) {
    ready = true;
    msg_builder = completed (with_size s f.not_ready f.no_size (length msg)).msg_builder msg;
  }

  -- A message is taken off the buffer whole, and nothing behind it.
  pub feed-framed : feed s (framed msg ++ rest) ≡ returned (after_message, rest)
  unfolding after_message with_size take_msg mark_ready
  feed-framed =
      feed_with_size s f.not_ready f.no_size (framed msg ++ rest) (length msg) (msg ++ rest)
        (rw append_assoc (feed-pack s.size_builder (length msg) (msg ++ rest) f.no_size h.1))
        (le→leb _ _ h.0)
      ∙ feed_sized (with_size s f.not_ready f.no_size (length msg)) (msg ++ rest) f.not_ready
          f.no_msg refl
      ∙ rw (feed_whole, take_msg) refl
    where
      sized : MsgBuilder
      sized = with_size s f.not_ready f.no_size (length msg)

      feed_whole :
          StringBuilder.feed sized.msg_builder (msg ++ rest)
          ≡ returned (completed sized.msg_builder msg, rest)
      feed_whole =
          feed_complete sized.msg_builder f.no_msg (msg ++ rest)
            (omega (arith, ap length f.no_bytes))
            (omega (arith, ap length f.no_bytes, length-append {0} msg rest))
          ∙ rw (f.no_bytes, sub-zero, take_prefix msg rest, drop_prefix msg rest) refl

  -- The unit is the message, and after `reset` the builder is between messages again.
  pub after_message-unit : msg_builder.get_unit after_message ≡ received msg
  unfolding after_message with_size
  after_message-unit = ground (arith, f.plain)

  pub after_message-IsFresh : IsFresh (reset after_message)
  unfolding after_message with_size reset
  after_message-IsFresh = record {
    not_ready = refl;
    no_size = refl;
    no_msg = refl;
    no_bytes = refl;
    plain = ground (arith, f.plain);
  }

  pub after_message-limit : (reset after_message).msg_max_size ≡ s.msg_max_size
  unfolding after_message with_size reset
  after_message-limit = refl
