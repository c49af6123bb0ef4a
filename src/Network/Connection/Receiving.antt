-- ===== src/Network/Connection/Receiving.antt =====
-- connection::on_raw_receive and its handler: the order of the notifications, and their end.
use barbacoa_server_lib.Prelude.{
  ℕ, zero, suc, ◌<◌, ◌≡◌, ◌∙◌, ap, sym, refl, Bool, true, false, List, [], ◌∷◌, ◌++◌, some,
  returned, thrown, Error, logic_error, out_of_range, invalid_argument, failure, undefined, ◌≢◌,
  append-nil, append_assoc, length, arith, Bool-cases, is_empty, inl, inr,
}
use barbacoa_server_lib.Network.LogicUnit.{LogicUnit}
use barbacoa_server_lib.Network.UnitBuilder.{UnitBuilder}
use barbacoa_server_lib.Network.Manager.{Manager, receive, get_front, pop_front, receive_available}
use barbacoa_server_lib.Network.Connection.{
  Connection, Handler, on_diconnected, other, Event, notified, reading, writing,
  disconnected_with_id, disconnected, called, socket_closed, emit, disconnect, run_handlers,
  run_handler, reverse_onto, deliver, on_raw_receive, on_read, async_read, built, or_disconnect,
}

-- The units that the subscribers of on_receive were given.
unfoldable pub units_of : List Event → List LogicUnit
units_of [] = []
units_of (notified u ∷ es) = u ∷ units_of es
units_of (reading n ∷ es) = units_of es
units_of (writing b ∷ es) = units_of es
units_of (disconnected_with_id n ∷ es) = units_of es
units_of (disconnected ∷ es) = units_of es
units_of (called n i ∷ es) = units_of es
units_of (socket_closed ∷ es) = units_of es

units_of-append : (es fs : List Event) → units_of (es ++ fs) ≡ units_of es ++ units_of fs
unfolding units_of
units_of-append [] fs = refl
units_of-append (notified u ∷ es) fs = ap (◌∷◌ u) (units_of-append es fs)
units_of-append (reading n ∷ es) fs = units_of-append es fs
units_of-append (writing b ∷ es) fs = units_of-append es fs
units_of-append (disconnected_with_id n ∷ es) fs = units_of-append es fs
units_of-append (disconnected ∷ es) fs = units_of-append es fs
units_of-append (called n i ∷ es) fs = units_of-append es fs
units_of-append (socket_closed ∷ es) fs = units_of-append es fs

-- A callback of on_receive may post, commit or do nothing; it does not close the connection.
pub record IsSteady {S : Type 0} (on_receive : Connection S → LogicUnit → Connection S)
    : Type 0 where
  pub stays : (c : Connection S) (u : LogicUnit) → (on_receive c u).connected ≡ c.connected
  pub keeps : (c : Connection S) (u : LogicUnit) → (on_receive c u).protocol ≡ c.protocol
  pub silent :
      (c : Connection S) (u : LogicUnit) → units_of (on_receive c u).events ≡ units_of c.events

-- A callback of on_receive that closes the connection; neither callback makes notifications up.
pub record IsClosing {S : Type 0} (on_receive : Connection S → LogicUnit → Connection S)
    : Type 0 where
  pub closes : (c : Connection S) (u : LogicUnit) → (on_receive c u).connected ≡ false
  pub silent :
      (c : Connection S) (u : LogicUnit) → units_of (on_receive c u).events ≡ units_of c.events

-- A callback of on_disconnect that leaves the socket and the runner as they are.
pub record IsQuiet {S : Type 0} (on_disconnect : Connection S → Connection S) : Type 0 where
  pub connected : (c : Connection S) → (on_disconnect c).connected ≡ c.connected
  pub running : (c : Connection S) → (on_disconnect c).running ≡ c.running
  pub silent : (c : Connection S) → units_of (on_disconnect c).events ≡ units_of c.events

module _ {S : Type 0} (B : UnitBuilder S) (on_receive : Connection S → LogicUnit → Connection S)
    (on_disconnect : Connection S → Connection S) where
  abbrev popped_to : Connection S → LogicUnit → List LogicUnit → Connection S
  popped_to c u us = record c {
    protocol = record c.protocol { available_replies = us };
    events = c.events ++ notified u ∷ [];
  }

  deliver-none :
      (f : ℕ) (c : Connection S)
      → c.protocol.available_replies ≡ []
      → deliver B on_receive on_disconnect (suc f) c ≡ some (returned c)
  unfolding deliver receive_available
  deliver-none f c e = elim (Bool-cases c.connected) [ inl h ↦ rw (h, e) refl | inr h ↦ rw h refl ]

  deliver-some :
      (f : ℕ) (c : Connection S) (u : LogicUnit) (us : List LogicUnit)
      → c.connected ≡ true
      → c.protocol.available_replies ≡ u ∷ us
      → deliver B on_receive on_disconnect (suc f) c
        ≡ deliver B on_receive on_disconnect f (on_receive (popped_to c u us) u)
  unfolding deliver receive_available get_front pop_front emit
  deliver-some f c u us h e = rw (h, e) refl

  deliver-closed :
      (f : ℕ) (c : Connection S)
      → c.connected ≡ false
      → deliver B on_receive on_disconnect (suc f) c ≡ some (returned c)
  unfolding deliver
  deliver-closed f c h = rw h refl

  units_of-popped :
      (c : Connection S) (u : LogicUnit) (us : List LogicUnit)
      → units_of (popped_to c u us).events ≡ units_of c.events ++ u ∷ []
  unfolding units_of
  units_of-popped c u us = units_of-append c.events (notified u ∷ [])

  drain :
      IsSteady on_receive
      → (us : List LogicUnit) (f : ℕ) (c : Connection S) → c.connected ≡ true
      → c.protocol.available_replies ≡ us
      → length us < f
      → (d : Connection S) × (deliver B on_receive on_disconnect f c ≡ some (returned d))
        × (d.connected ≡ true)
        × (d.protocol.available_replies ≡ [])
        × (units_of d.events ≡ units_of c.events ++ us)
  drain steady us zero c h e lt = absurd (omega arith)
  drain steady [] (suc f) c h e lt =
      (c, deliver-none f c e, h, e, sym (append-nil (units_of c.events)))
  drain steady (u ∷ us) (suc f) c h e lt =
      let (d, ran, up, empty, got) =
        drain steady us f (on_receive (popped_to c u us) u) (steady.stays (popped_to c u us) u ∙ h)
          (ap (λ m. m.available_replies) (steady.keeps (popped_to c u us) u)) (omega arith) in
      (
        d,
        deliver-some f c u us h e ∙ ran,
        up,
        empty,
        got
            ∙ ap (λ x. x ++ us) (steady.silent (popped_to c u us) u ∙ units_of-popped c u us)
            ∙ append_assoc (units_of c.events) (u ∷ []) us,
      )

  -- Bytes that the protocol takes without a throw, under callbacks that keep the connection open:
  -- every unit that is built, or was left from before, is notified once, in the order of the stream,
  -- none is left, and the next read is requested last. The fuel covers the calls of the builder and
  -- the units.
  pub on_raw_receive-notifies :
      IsSteady on_receive
      → (f : ℕ) (c : Connection S) (bytes : List ℕ) (m : Manager S) → c.connected ≡ true
      → receive B f c.protocol bytes ≡ some (returned m)
      → length m.available_replies < f
      → (d : Connection S) × (on_raw_receive B on_receive on_disconnect f c bytes
          ≡ some (returned (emit d (reading d.chunk_size ∷ []))))
        × (d.connected ≡ true)
        × (d.protocol.available_replies ≡ [])
        × (units_of d.events ≡ units_of c.events ++ m.available_replies)
  unfolding on_raw_receive async_read
  on_raw_receive-notifies steady f c bytes m h took lt =
      let (d, ran, up, empty, got) =
        drain steady m.available_replies f (record c { protocol = m }) h refl lt in
      (d, rw (took, ran, up) refl, up, empty, got)

  -- When the callback of the first unit closes the connection, no later unit of the same bytes is
  -- notified, and no read is requested.
  pub on_raw_receive-closing :
      IsClosing on_receive
      → (f : ℕ) (c : Connection S) (bytes : List ℕ) (m : Manager S) (u : LogicUnit)
        (us : List LogicUnit)
      → c.connected ≡ true
      → receive B (suc (suc f)) c.protocol bytes ≡ some (returned m)
      → m.available_replies ≡ u ∷ us
      → (d : Connection S) × (on_raw_receive B on_receive on_disconnect (suc (suc f)) c bytes
          ≡ some (returned d))
        × (d.connected ≡ false)
        × (units_of d.events ≡ units_of c.events ++ u ∷ [])
  unfolding on_raw_receive async_read
  on_raw_receive-closing closing f c bytes m u us h took e =
      let start : Connection S = record c { protocol = m } in
      let d : Connection S = on_receive (popped_to start u us) u in
      let down : d.connected ≡ false = closing.closes (popped_to start u us) u in
      (
        d,
        rw (took, deliver-some (suc f) start u us h e, deliver-closed f d down, down) refl,
        down,
        closing.silent (popped_to start u us) u ∙ units_of-popped start u us,
      )

  -- What the handlers of a disconnect leave alone.
  abbrev Untouched : Connection S → Connection S → Type 0
  Untouched c d =
      (d.connected ≡ c.connected)
      × (d.running ≡ c.running)
      × (units_of d.events ≡ units_of c.events)

  run_handler-Untouched :
      IsQuiet on_disconnect
      → (h : Handler) (c : Connection S) → Untouched c (run_handler B on_receive on_disconnect h c)
  unfolding run_handler emit units_of
  run_handler-Untouched quiet on_diconnected c =
      let told : Connection S =
        emit (record c { send_buffer = [] }) (disconnected_with_id c.id ∷ disconnected ∷ []) in
      (
        quiet.connected told,
        quiet.running told,
        quiet.silent told
            ∙ units_of-append c.events (disconnected_with_id c.id ∷ disconnected ∷ [])
            ∙ append-nil (units_of c.events),
      )
  run_handler-Untouched quiet (other n) c =
      (refl, refl, units_of-append c.events (called n c.id ∷ []) ∙ append-nil (units_of c.events))

  run_handlers-Untouched :
      IsQuiet on_disconnect
      → (hs : List Handler) (c : Connection S)
      → Untouched c (run_handlers B on_receive on_disconnect hs c)
  unfolding run_handlers
  run_handlers-Untouched quiet [] c = (refl, refl, refl)
  run_handlers-Untouched quiet (h ∷ hs) c =
      let one = run_handler-Untouched quiet h c in
      let more = run_handlers-Untouched quiet hs (run_handler B on_receive on_disconnect h c) in
      elim (Bool-cases (is_empty c.handlers)) [
        | inl none_left ↦ rw none_left (refl, refl, refl)
        | inr some_left ↦ rw some_left (more.0 ∙ one.0, more.1 ∙ one.1, more.2 ∙ one.2)
      ]

  disconnect-closed :
      IsQuiet on_disconnect
      → (c : Connection S) → c.connected ≡ true
      → ((disconnect B on_receive on_disconnect c).connected ≡ false)
        × ((disconnect B on_receive on_disconnect c).running ≡ false)
        × (units_of (disconnect B on_receive on_disconnect c).events ≡ units_of c.events)
  unfolding disconnect emit units_of
  disconnect-closed quiet c h =
      let off : Connection S = record c { connected = false; running = false } in
      let (a, b, e) = run_handlers-Untouched quiet (reverse_onto c.handlers []) off in
      rw h (
        a,
        b,
        units_of-append
              (run_handlers B on_receive on_disconnect (reverse_onto c.handlers []) off).events
              (socket_closed ∷ [])
            ∙ append-nil _
            ∙ e,
      )

  caught-built :
      (f : ℕ) (c : Connection S) (m : Manager S) (e : Error)
      → e ≢ undefined
      → built B on_receive on_disconnect f c (some (thrown e m))
        ≡ some (returned (disconnect B on_receive on_disconnect (record c { protocol = m })))
  caught-built f c m logic_error h = refl
  caught-built f c m out_of_range h = refl
  caught-built f c m invalid_argument h = refl
  caught-built f c m failure h = refl
  caught-built f c m undefined h = absurd (h refl)

  on_read-running :
      (f : ℕ) (c : Connection S) (bytes : List ℕ)
      → c.running ≡ true
      → on_read B on_receive on_disconnect f c false bytes
        ≡ or_disconnect B on_receive on_disconnect
            (on_raw_receive B on_receive on_disconnect f c bytes)
  unfolding on_read
  on_read-running f c bytes run = rw run refl

  -- Bytes at which the protocol throws an exception, which a point of undefined behaviour is not: the connection is
  -- closed, none of the units that were built from them is notified, and whatever the transport still reports, the
  -- handler leaves the connection as it is. Callbacks of on_disconnect leave the socket and the runner alone.
  pub bad_bytes_close :
      IsQuiet on_disconnect
      → (f : ℕ) (c : Connection S) (bytes : List ℕ) (m : Manager S) (e : Error) (g : ℕ)
        (failed : Bool) (later : List ℕ)
      → c.connected ≡ true
      → c.running ≡ true
      → e ≢ undefined
      → receive B f c.protocol bytes ≡ some (thrown e m)
      → (d : Connection S) × (on_read B on_receive on_disconnect f c false bytes ≡ some d)
        × (d.connected ≡ false)
        × (units_of d.events ≡ units_of c.events)
        × (on_read B on_receive on_disconnect g d failed later ≡ some d)
  unfolding on_raw_receive on_read
  bad_bytes_close quiet f c bytes m e g failed later h run thrown_one threw =
      let c' : Connection S = record c { protocol = m } in
      let (down, stopped, same) = disconnect-closed quiet c' h in
      let handled : on_raw_receive B on_receive on_disconnect f c bytes
          ≡ some (returned (disconnect B on_receive on_disconnect c')) =
        rw threw (caught-built f c m e thrown_one) in
      (
        disconnect B on_receive on_disconnect c',
        on_read-running f c bytes run ∙ ap (or_disconnect B on_receive on_disconnect) handled,
        down,
        same,
        rw stopped refl,
      )
