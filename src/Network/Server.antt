-- ===== src/Network/Server.antt =====
-- server (include/server_lib/network/server.h, src/network/server.cpp): the table of its connections,
-- by their ids. The transport is a parameter: whether its start succeeds is an argument, and it runs from
-- then until it is stopped.
pub mod Table
use barbacoa_server_lib.Prelude.{
  ℕ, ◌≡◌, Bool, true, false, List, [], ◌∷◌, ◌++◌, Option, none, some, ◌==◌, if◌then◌else◌,
}

-- What others see of the server: the observer of new connections, the first read of a connection, and
-- its disconnect by the server.
pub data Event : Type 0 where
  notified_new : ℕ → Event
  reading : ℕ → Event
  disconnecting : ℕ → Event

-- `impl` is `_impl`, with its is_running; `connections` are the keys of `_connections`.
pub record Server : Type 0 where
  pub impl : Option Bool
  pub connections : List ℕ
  pub events : List Event

abbrev pub runs : Option Bool → Bool
runs none = false
runs (some running) = running

unfoldable pub is_running : Server → Bool
is_running s = runs s.impl

-- An exception, from a server that runs already or from a start that fails, is only logged.
unfoldable pub start_impl : Server → Bool → Server
unfolding is_running
start_impl s started = if is_running s then s else record s { impl = some started }

-- `emplace` of unordered_map: a key that is there stays.
unfoldable pub emplace : ℕ → List ℕ → List ℕ
emplace id [] = id ∷ []
emplace id (x ∷ xs) = let rest = x ∷ emplace id xs in if x == id then x ∷ xs else rest

unfoldable pub erase : ℕ → List ℕ → List ℕ
erase id [] = []
erase id (x ∷ xs) = let rest = erase id xs in if x == id then xs else x ∷ rest

unfoldable pub on_new_client : Server → ℕ → Server
unfolding is_running emplace
on_new_client s id =
    if is_running s
    then record s {
      connections = emplace id s.connections;
      events = s.events ++ notified_new id ∷ reading id ∷ [];
    }
    else s

unfoldable pub on_client_disconnected : Server → ℕ → Server
unfolding erase
on_client_disconnected s id = record s { connections = erase id s.connections }

-- The loop of stop: the disconnect of a connection calls on_client_disconnected.
unfoldable pub disconnect_all : List ℕ → Server → Server
unfolding on_client_disconnected
disconnect_all [] s = s
disconnect_all (id ∷ ids) s =
    disconnect_all ids
      (on_client_disconnected (record s { events = s.events ++ disconnecting id ∷ [] }) id)

unfoldable pub clear : Server → Server
clear s = record s { connections = []; impl = none }

unfoldable pub stop : Server → Bool → Server
unfolding is_running disconnect_all clear
stop s wait_for_removal =
    let stopped : Server = record s { impl = some false } in
    if is_running s
    then (if wait_for_removal then clear (disconnect_all s.connections stopped) else clear stopped)
    else s

-- The calls that a server gets, from its user and from the transport.
pub data Call : Type 0 where
  start : Bool → Call
  new_client : ℕ → Call
  client_disconnected : ℕ → Call
  stop_server : Bool → Call

unfoldable pub handle : Call → Server → Server
unfolding start_impl on_new_client on_client_disconnected stop
handle (start started) s = start_impl s started
handle (new_client id) s = on_new_client s id
handle (client_disconnected id) s = on_client_disconnected s id
handle (stop_server wait) s = stop s wait

unfoldable pub handle_all : List Call → Server → Server
unfolding handle
handle_all [] s = s
handle_all (c ∷ cs) s = handle_all cs (handle c s)

unfoldable pub initial : Server
initial = record { impl = none; connections = []; events = [] }
