-- ===== src/Network/Connection.antt =====
-- connection (include/server_lib/network/connection.h, src/network/connection.cpp) with what it uses
-- of asio_connection_impl (src/network/transport/asio_connection_impl.h): its socket, its
-- scope_runner and its disconnect handlers.
pub mod Sending
pub mod Receiving
use barbacoa_server_lib.Prelude.{
  ℕ, zero, suc, ◌≡◌, Bool, true, false, List, [], ◌∷◌, ◌++◌, Option, none, some, Result, ok, err,
  Outcome, returned, thrown, Error, logic_error, out_of_range, invalid_argument, failure, undefined,
  if◌then◌else◌, is_empty, ◌&&◌,
}
use barbacoa_server_lib.Network.LogicUnit.{LogicUnit, to_network_string}
use barbacoa_server_lib.Network.UnitBuilder.{UnitBuilder}
use barbacoa_server_lib.Network.Manager
use barbacoa_server_lib.Network.Manager.{Manager, receive, get_front, pop_front, receive_available}

-- A handler of set_disconnect_handler: the one of the connection, or one of the transport's owner.
pub data Handler : Type 0 where
  on_diconnected : Handler
  other : ℕ → Handler

-- What a connection does that others see, in its order.
pub data Event : Type 0 where
  notified : LogicUnit → Event
  reading : ℕ → Event
  writing : List ℕ → Event
  disconnected_with_id : ℕ → Event
  disconnected : Event
  called : ℕ → ℕ → Event
  socket_closed : Event

-- `connected` is whether the socket is there, `running` whether the runner gives locks.
pub record Connection (S : Type 0) : Type 0 where
  pub id : ℕ
  pub chunk_size : ℕ
  pub connected : Bool
  pub running : Bool
  pub handlers : List Handler
  pub protocol : Manager S
  pub send_buffer : List ℕ
  pub events : List Event

unfoldable pub emit : {S : Type 0} → Connection S → List Event → Connection S
emit c es = record c { events = c.events ++ es }

unfoldable pub reverse_onto : List Handler → List Handler → List Handler
reverse_onto [] done = done
reverse_onto (h ∷ hs) done = reverse_onto hs (h ∷ done)

-- `on_receive` and `on_disconnect` are the callbacks of the user, who may call the connection.
module _ {S : Type 0} (B : UnitBuilder S) (on_receive : Connection S → LogicUnit → Connection S)
    (on_disconnect : Connection S → Connection S) where
  -- The constructor, on a transport that is connected; `clone` is the copy of the protocol.
  unfoldable pub create : ℕ → ℕ → List Handler → Option S → Result (Connection S)
  create id chunk_size handlers none = err logic_error
  create id chunk_size handlers (some s) = ok (record {
    id = id;
    chunk_size = chunk_size;
    connected = true;
    running = true;
    handlers = handlers ++ on_diconnected ∷ [];
    protocol = Manager.initial B (some s);
    send_buffer = [];
    events = [];
  })

  -- connection::on_diconnected, or another handler with the id.
  unfoldable pub run_handler : Handler → Connection S → Connection S
  unfolding emit
  run_handler on_diconnected c =
      on_disconnect
        (emit (record c { send_buffer = [] }) (disconnected_with_id c.id ∷ disconnected ∷ []))
  run_handler (other n) c = emit c (called n c.id ∷ [])

  -- The loop of asio_connection_impl::disconnect; a handler may clear the list.
  unfoldable pub run_handlers : List Handler → Connection S → Connection S
  unfolding run_handler
  run_handlers [] c = c
  run_handlers (h ∷ hs) c =
      let rest = run_handlers hs (run_handler h c) in if is_empty c.handlers then c else rest

  -- asio_connection_impl::disconnect
  unfoldable pub disconnect : Connection S → Connection S
  unfolding run_handlers reverse_onto emit
  disconnect c =
      if c.connected
      then emit
          (run_handlers (reverse_onto c.handlers [])
            (record c { connected = false; running = false }))
          (socket_closed ∷ [])
      else c

  -- The destructor: set_disconnect_handler(nullptr).
  unfoldable pub destroy : Connection S → Connection S
  destroy c = record c { handlers = [] }

  -- post(const unit&)
  unfoldable pub post_unit : Connection S → LogicUnit → Connection S
  post_unit c u = record c { send_buffer = c.send_buffer ++ to_network_string u }

  abbrev pub created : Connection S → Result LogicUnit → Outcome (Connection S)
  created c (err e) = thrown e c
  created c (ok u) = returned (post_unit c u)

  abbrev pub create_with : Option S → List ℕ → Result LogicUnit
  create_with none input = err logic_error
  create_with (some s) input = B.create s input

  -- post(const std::string&), by the builder of the protocol.
  unfoldable pub post : Connection S → List ℕ → Outcome (Connection S)
  unfolding post_unit
  post c input = created c (create_with c.protocol.builder input)

  -- The buffer is moved out first; both assertions only log.
  unfoldable pub commit : Connection S → Connection S
  unfolding emit
  commit c =
      let taken : Connection S = record c { send_buffer = [] } in
      if is_empty c.send_buffer
      then taken
      else (if c.connected then emit taken (writing c.send_buffer ∷ []) else taken)

  -- A connection that is closed only logs.
  unfoldable pub async_read : Connection S → Connection S
  unfolding emit
  async_read c = if c.connected then emit c (reading c.chunk_size ∷ []) else c

  abbrev pub notify :
      (Connection S → Option (Outcome (Connection S)))
      → Connection S
      → Result LogicUnit
      → Outcome (Manager S)
      → Option (Outcome (Connection S))
  notify rest c (err e) m = some (thrown e c)
  notify rest c (ok u) (thrown e m) = some (thrown e (record c { protocol = m }))
  notify rest c (ok u) (returned m) =
      rest (on_receive (emit (record c { protocol = m }) (notified u ∷ [])) u)

  -- The `while` of on_raw_receive, with fuel.
  unfoldable pub deliver : ℕ → Connection S → Option (Outcome (Connection S))
  unfolding emit get_front pop_front receive_available
  deliver zero c = none
  deliver (suc fuel) c =
      let next = notify (deliver fuel) c (get_front B c.protocol) (pop_front B c.protocol) in
      if c.connected && receive_available B c.protocol then next else some (returned c)

  abbrev pub read_on : Option (Outcome (Connection S)) → Option (Outcome (Connection S))
  read_on none = none
  read_on (some (thrown e c)) = some (thrown e c)
  read_on (some (returned c)) = some (returned (async_read c))

  abbrev pub caught : Connection S → Manager S → Option (Outcome (Connection S))
  caught c m = some (returned (disconnect (record c { protocol = m })))

  -- `none` where the fuel is out, or the behaviour undefined.
  abbrev pub built :
      ℕ → Connection S → Option (Outcome (Manager S)) → Option (Outcome (Connection S))
  built fuel c none = none
  built fuel c (some (thrown undefined m)) = none
  built fuel c (some (thrown logic_error m)) = caught c m
  built fuel c (some (thrown out_of_range m)) = caught c m
  built fuel c (some (thrown invalid_argument m)) = caught c m
  built fuel c (some (thrown failure m)) = caught c m
  built fuel c (some (returned m)) = read_on (deliver fuel (record c { protocol = m }))

  unfoldable pub on_raw_receive : ℕ → Connection S → List ℕ → Option (Outcome (Connection S))
  unfolding deliver async_read disconnect receive
  on_raw_receive fuel c bytes = built fuel c (receive B fuel c.protocol bytes)

  abbrev pub or_disconnect : Option (Outcome (Connection S)) → Option (Connection S)
  or_disconnect none = none
  or_disconnect (some (thrown undefined c)) = none
  or_disconnect (some (thrown logic_error c)) = some (disconnect c)
  or_disconnect (some (thrown out_of_range c)) = some (disconnect c)
  or_disconnect (some (thrown invalid_argument c)) = some (disconnect c)
  or_disconnect (some (thrown failure c)) = some (disconnect c)
  or_disconnect (some (returned c)) = some c

  -- The handler of async_read_some: nothing once the runner has stopped; `failed` is an error code.
  unfoldable pub on_read : ℕ → Connection S → Bool → List ℕ → Option (Connection S)
  unfolding on_raw_receive disconnect
  on_read fuel c failed bytes =
      let handled = or_disconnect (on_raw_receive fuel c bytes) in
      if c.running then (if failed then some (disconnect c) else handled) else some c
