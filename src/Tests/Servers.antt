-- ===== src/Tests/Servers.antt =====
-- A server with two clients.
use barbacoa_server_lib.Prelude.{◌≡◌, true, false, List, [], ◌∷◌}
use barbacoa_server_lib.Network.Server.{
  Call, start, new_client, client_disconnected, is_running, handle_all, initial,
}
use barbacoa_server_lib.Network.Server.Table.{times, one_if, view_of_all, table_follows}

abbrev calls : List Call
calls = start true ∷ new_client 1 ∷ new_client 2 ∷ client_disconnected 1 ∷ []

table_follows_example :
    (is_running (handle_all calls initial) ≡ (view_of_all 2 calls (false, false)).0)
    × (times 2 (handle_all calls initial).connections
        ≡ one_if (view_of_all 2 calls (false, false)).1)
table_follows_example = table_follows 2 calls
