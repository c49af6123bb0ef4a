-- ===== src/Tests/Connections.antt =====
-- Concrete connections and threads.
use barbacoa_server_lib.Prelude.{
  ℕ, ◌≡◌, refl, true, false, List, [], ◌∷◌, ◌++◌, map, some, Outcome, returned, thrown, logic_error,
  undefined, ◌≢◌, codes, arith,
}
use barbacoa_server_lib.Network.LogicUnit.{LogicUnit, from_string}
use barbacoa_server_lib.Network.IntegerBuilder
use barbacoa_server_lib.Network.IntegerBuilder.Pack.{unpack}
use barbacoa_server_lib.Network.StringBuilder
use barbacoa_server_lib.Network.MsgBuilder.{MsgBuilder, msg_builder, initial, feed, reset}
use barbacoa_server_lib.Network.MsgBuilder.RoundTrip.{received}
use barbacoa_server_lib.Network.MsgBuilder.Delivery.{connected}
use barbacoa_server_lib.Network.RawBuilder.{raw_builder, receive_chunk}
use barbacoa_server_lib.Network.Manager.{
  Manager, receive, build_units, build_unit, collect, continue_with,
}
use barbacoa_server_lib.Network.Manager.Streams.{with_builder}
use barbacoa_server_lib.Network.Manager.Stream.{concat, receive_all, observed}
use barbacoa_server_lib.Network.Connection.{
  Connection, on_diconnected, reading, writing, emit, commit, on_raw_receive, on_read,
}
use barbacoa_server_lib.Network.Connection.Sending.{post_all, commit-delivery}
use barbacoa_server_lib.Network.Connection.Receiving.{
  units_of, IsSteady, IsClosing, IsQuiet, on_raw_receive-notifies, bad_bytes_close,
}
use barbacoa_server_lib.Network.ScopeRunner
use barbacoa_server_lib.Network.ScopeRunner.{
  negsuc, pos, idle, stopping, stopped, locking, refused, State, Step, by_thread, Steps, done, then,
  call_stop, close, load, give_up, all_idle,
}
use barbacoa_server_lib.Network.ScopeRunner.Invariant.{
  IsConsistent, holders, reachable-IsConsistent, stopped_forever,
}
use barbacoa_server_lib.Tests.Data.{
  two_messages, two_messages-AllFit, first_part, other_parts, cut_wire,
}

-- A connection between two reads.
abbrev open_connection : {S : Type 0} → S → Connection S
open_connection s = record {
  id = 1;
  chunk_size = 4096;
  connected = true;
  running = true;
  handlers = on_diconnected ∷ [];
  protocol = with_builder [] s [];
  send_buffer = [];
  events = [];
}

abbrev ignore : {S : Type 0} → Connection S → LogicUnit → Connection S
ignore c u = c

abbrev leave : {S : Type 0} → Connection S → Connection S
leave c = c

commit-delivery_example :
    (d : Connection MsgBuilder) × (o : Outcome (Manager MsgBuilder)) × (post_all ignore leave
        two_messages
        (open_connection (initial 100))
      ≡ returned d)
    × ((commit msg_builder ignore leave d).events
        ≡ writing (concat (first_part ∷ other_parts)) ∷ [])
    × ((commit msg_builder ignore leave d).send_buffer ≡ [])
    × (receive_all msg_builder (first_part ∷ other_parts) (connected 100) ≡ some o)
    × (observed msg_builder o ≡ (false, map received two_messages))
unfolding initial
commit-delivery_example =
    commit-delivery ignore leave (open_connection (initial 100)) (initial 100) (codes "hi")
      (codes "you" ∷ []) first_part other_parts refl refl refl two_messages-AllFit cut_wire

ignore-IsSteady : {S : Type 0} → IsSteady (ignore {S = S})
ignore-IsSteady = record { stays = λ c u. refl; keeps = λ c u. refl; silent = λ c u. refl }

abbrev after_chunk : Manager (List ℕ)
after_chunk = with_builder [] [] (from_string (codes "hi") ∷ [])

on_raw_receive-notifies_example :
    (d : Connection (List ℕ)) × (on_raw_receive raw_builder ignore leave 9
        (open_connection [])
        (codes "hi")
      ≡ some (returned (emit d (reading d.chunk_size ∷ []))))
    × (d.connected ≡ true)
    × (d.protocol.available_replies ≡ [])
    × (units_of d.events ≡ units_of [] ++ from_string (codes "hi") ∷ [])
on_raw_receive-notifies_example =
    on_raw_receive-notifies raw_builder ignore leave ignore-IsSteady 9 (open_connection [])
      (codes "hi") after_chunk refl (receive_chunk 7 b'h' (codes "i") []) (omega arith)

abbrev shut : {S : Type 0} → Connection S → LogicUnit → Connection S
shut c u = record c { connected = false; running = false }

shut-IsClosing : {S : Type 0} → IsClosing (shut {S = S})
shut-IsClosing = record { closes = λ c u. refl; silent = λ c u. refl }

leave-IsQuiet : {S : Type 0} → IsQuiet (leave {S = S})
leave-IsQuiet = record { connected = λ c. refl; running = λ c. refl; silent = λ c. refl }

-- A message of one byte, and a size above the limit.
abbrev bad_bytes : List ℕ
bad_bytes = 1 ∷ b'a' ∷ 9 ∷ []

bad_bytes_throw :
    (m : Manager MsgBuilder) × (receive msg_builder 9 (with_builder [] (initial 5) []) bad_bytes
      ≡ some (thrown logic_error m))
unfolding receive build_units build_unit collect continue_with feed reset initial
    IntegerBuilder.feed StringBuilder.feed StringBuilder.reset StringBuilder.initial
    StringBuilder.set_size unpack
bad_bytes_throw = (_, refl)

logic_error_is_thrown : logic_error ≢ undefined
logic_error_is_thrown h = cc

bad_bytes_close_example :
    (d : Connection MsgBuilder) × (on_read msg_builder ignore leave 9
        (open_connection (initial 5))
        false
        bad_bytes
      ≡ some d)
    × (d.connected ≡ false)
    × (units_of d.events ≡ units_of [])
    × (on_read msg_builder ignore leave 9 d false (codes "more") ≡ some d)
bad_bytes_close_example =
    bad_bytes_close msg_builder ignore leave leave-IsQuiet 9 (open_connection (initial 5)) bad_bytes
      (bad_bytes_throw.0) logic_error 9 false (codes "more") refl refl logic_error_is_thrown
      (bad_bytes_throw.1)

-- Two threads: one stops the runner, the other is refused a lock.
abbrev both : State
both = record { count = pos 0; threads = stopping ∷ idle ∷ [] }

abbrev closed : State
closed = record { count = negsuc 0; threads = stopped ∷ idle ∷ [] }

abbrev asked : State
asked = record { count = negsuc 0; threads = stopped ∷ locking (negsuc 0) ∷ [] }

until_closed : Steps (ScopeRunner.initial 2) closed
unfolding ScopeRunner.initial all_idle
until_closed =
    then both closed
      (then (ScopeRunner.initial 2) both done
        (by_thread [] idle stopping (idle ∷ []) refl refl (call_stop (pos 0))))
      (by_thread [] stopping stopped (idle ∷ []) refl refl close)

then_asked : Steps closed asked
then_asked =
    then closed asked done
      (by_thread (stopped ∷ []) idle (locking (negsuc 0)) [] refl refl (load (negsuc 0)))

reachable-IsConsistent_example : IsConsistent closed
reachable-IsConsistent_example = reachable-IsConsistent 2 closed until_closed

stopped_forever_example : (negsuc 0 ≡ negsuc 0) × (holders (stopped ∷ locking (negsuc 0) ∷ []) ≡ 0)
stopped_forever_example = stopped_forever 2 closed asked until_closed refl then_asked
