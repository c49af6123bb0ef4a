-- ===== src/Tests/Network.antt =====
-- Concrete streams, connections and threads.
use barbacoa_server_lib.Prelude.{
  ◌≡◌, refl, false, [], ◌∷◌, ◌++◌, map, none, some, Outcome, codes, arith, length,
}
use barbacoa_server_lib.Network.LogicUnit.{LogicUnit, from_string, from_bool}
use barbacoa_server_lib.Network.IntegerBuilder.Pack.{pack, unpack, complete, unpack-pack}
use barbacoa_server_lib.Network.MsgBuilder.{MsgBuilder, msg_builder, initial}
use barbacoa_server_lib.Network.MsgBuilder.Incremental.{msg_builder-IsIncremental}
use barbacoa_server_lib.Network.MsgBuilder.Consuming.{msg_builder-IsConsuming}
use barbacoa_server_lib.Network.MsgBuilder.RoundTrip.{received}
use barbacoa_server_lib.Network.MsgBuilder.Delivery.{connected, connected-IsWaiting, delivery}
use barbacoa_server_lib.Network.DstreamBuilder
use barbacoa_server_lib.Network.DstreamBuilder.{dstream_builder}
use barbacoa_server_lib.Network.DstreamBuilder.Find.{find}
use barbacoa_server_lib.Network.DstreamBuilder.Delivery.{
  AllClear, dstream_delivery, empty_delimiter_spins,
}
use barbacoa_server_lib.Network.Manager.{Manager, receive, build_units}
use barbacoa_server_lib.Network.Manager.Streams.{with_builder}
use barbacoa_server_lib.Network.Manager.Totality.{build_units_total}
use barbacoa_server_lib.Network.Manager.Stream.{
  concat, enough, receive_all, observed, receive_all-concat,
}
use barbacoa_server_lib.Tests.Data.{
  two_messages, two_messages-AllFit, first_part, other_parts, cut_wire,
}

unpack-pack_example : unpack (pack 300 ++ codes "x") ≡ complete 300 (length (pack 300))
unpack-pack_example = unpack-pack 300 (codes "x") (omega arith)

delivery_example :
    (o : Outcome (Manager MsgBuilder)) × (receive_all msg_builder
        (first_part ∷ other_parts)
        (connected 100)
      ≡ some o)
    × (observed msg_builder o ≡ (false, map received two_messages))
delivery_example = delivery 100 two_messages first_part other_parts two_messages-AllFit cut_wire

receive_all-concat_example :
    (o : Outcome (Manager MsgBuilder)) × (r : Outcome (Manager MsgBuilder)) × (receive_all
        msg_builder
        (first_part ∷ other_parts)
        (connected 100)
      ≡ some o)
    × (receive msg_builder
          (enough msg_builder (connected 100) (concat (first_part ∷ other_parts)))
          (connected 100)
          (concat (first_part ∷ other_parts))
        ≡ some r)
    × (observed msg_builder o ≡ observed msg_builder r)
receive_all-concat_example =
    receive_all-concat msg_builder msg_builder-IsIncremental msg_builder-IsConsuming first_part
      other_parts (connected 100) (connected-IsWaiting 100)

build_units_total_example :
    (r : Outcome (Manager MsgBuilder)) × (build_units msg_builder 4
        (with_builder first_part (initial 100) [])
      ≡ some r)
build_units_total_example =
    build_units_total msg_builder msg_builder-IsConsuming 4 first_part (initial 100) []
      (omega arith)

clear_texts : AllClear (codes ";") two_messages
unfolding find
clear_texts = (refl, (refl, tt))

dstream_delivery_example :
    (o : Outcome (Manager LogicUnit)) × (receive_all
        (dstream_builder (codes ";"))
        (codes "h" ∷ codes "i;you;" ∷ [])
        (with_builder [] DstreamBuilder.initial [])
      ≡ some o)
    × (observed (dstream_builder (codes ";")) o ≡ (false, map from_string two_messages))
dstream_delivery_example =
    dstream_delivery (codes ";") (omega arith) two_messages (codes "h") (codes "i;you;" ∷ [])
      clear_texts refl

empty_delimiter_spins_example :
    build_units (dstream_builder []) 100 (with_builder (codes "a") (from_bool false) []) ≡ none
empty_delimiter_spins_example = empty_delimiter_spins 100 b'a' [] (from_bool false) [] refl
