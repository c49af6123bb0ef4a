-- ===== src/Network/Connection/Sending.antt =====
-- connection::post and connection::commit with msg_builder: from the messages of one side to the
-- units of the other.
use barbacoa_server_lib.Prelude.{
  ℕ, ◌≡◌, ◌∙◌, ap, refl, true, false, List, [], ◌∷◌, ◌++◌, map, some, Outcome, returned, thrown,
  append-nil, append_assoc,
}
use barbacoa_server_lib.Network.LogicUnit.{LogicUnit}
use barbacoa_server_lib.Network.MsgBuilder.{MsgBuilder, msg_builder}
use barbacoa_server_lib.Network.MsgBuilder.RoundTrip.{Fits, framed, received, create-framed}
use barbacoa_server_lib.Network.MsgBuilder.Delivery.{
  AllFit, wire, connected, delivery, framed_nonempty,
}
use barbacoa_server_lib.Network.Manager.{Manager}
use barbacoa_server_lib.Network.Manager.Stream.{concat, receive_all, observed}
use barbacoa_server_lib.Network.Connection.{Connection, writing, post, post_unit, commit, emit}

module _ (on_receive : Connection MsgBuilder → LogicUnit → Connection MsgBuilder)
    (on_disconnect : Connection MsgBuilder → Connection MsgBuilder) where
  abbrev pub next_post :
      (Connection MsgBuilder → Outcome (Connection MsgBuilder))
      → Outcome (Connection MsgBuilder)
      → Outcome (Connection MsgBuilder)
  next_post rest (thrown e c) = thrown e c
  next_post rest (returned c) = rest c

  -- Messages posted in turn, up to the first that throws.
  unfoldable pub post_all : List (List ℕ) → Connection MsgBuilder → Outcome (Connection MsgBuilder)
  post_all [] c = returned c
  post_all (msg ∷ msgs) c =
      next_post (post_all msgs) (post msg_builder on_receive on_disconnect c msg)

  abbrev with_bytes : Connection MsgBuilder → List ℕ → Connection MsgBuilder
  with_bytes c bytes = record c { send_buffer = c.send_buffer ++ bytes }

  post-framed :
      (c : Connection MsgBuilder) (s : MsgBuilder) (msg : List ℕ)
      → c.protocol.builder ≡ some s
      → Fits s.msg_max_size msg
      → post msg_builder on_receive on_disconnect c msg ≡ returned (with_bytes c (framed msg))
  unfolding post post_unit
  post-framed c s msg e fits =
      let (u, made, bytes) = create-framed s msg fits in rw (e, made, bytes) refl

  post_all-wire :
      (msgs : List (List ℕ)) (c : Connection MsgBuilder) (s : MsgBuilder)
      → c.protocol.builder ≡ some s
      → AllFit s.msg_max_size msgs
      → post_all msgs c ≡ returned (with_bytes c (wire msgs))
  unfolding post_all
  post_all-wire [] c s e fit = rw (append-nil c.send_buffer) refl
  post_all-wire (msg ∷ msgs) c s e fit =
      ap (next_post (post_all msgs)) (post-framed c s msg e fit.0)
      ∙ post_all-wire msgs (with_bytes c (framed msg)) s e fit.1
      ∙ ap (λ bytes. returned (record c { send_buffer = bytes }))
          (append_assoc c.send_buffer (framed msg) (wire msgs))

  commit-nonempty :
      (c : Connection MsgBuilder) (a : ℕ) (t bytes : List ℕ)
      → c.connected ≡ true
      → c.send_buffer ≡ bytes
      → bytes ≡ a ∷ t
      → commit msg_builder on_receive on_disconnect c
        ≡ record c { send_buffer = []; events = c.events ++ writing bytes ∷ [] }
  unfolding commit emit
  commit-nonempty c a t bytes h k e = rw (h, k, e) refl

  -- Messages within the limits, posted on a connection that is connected and holds no unsent bytes,
  -- and committed: they go out in one write, nothing stays behind, and in whatever parts `x ∷ xs` these
  -- bytes arrive at a peer with the same limit, it gets a unit for each message, in order.
  pub commit-delivery :
      (c : Connection MsgBuilder) (s : MsgBuilder) (msg : List ℕ) (msgs : List (List ℕ))
      (x : List ℕ) (xs : List (List ℕ))
      → c.protocol.builder ≡ some s
      → c.connected ≡ true
      → c.send_buffer ≡ []
      → AllFit s.msg_max_size (msg ∷ msgs)
      → concat (x ∷ xs) ≡ wire (msg ∷ msgs)
      → (d : Connection MsgBuilder) × (o : Outcome (Manager MsgBuilder)) × (post_all (msg ∷ msgs) c
          ≡ returned d)
        × ((commit msg_builder on_receive on_disconnect d).events
            ≡ c.events ++ writing (concat (x ∷ xs)) ∷ [])
        × ((commit msg_builder on_receive on_disconnect d).send_buffer ≡ [])
        × (receive_all msg_builder (x ∷ xs) (connected s.msg_max_size) ≡ some o)
        × (observed msg_builder o ≡ (false, map received (msg ∷ msgs)))
  commit-delivery c s msg msgs x xs e up none_left fit cut =
      let (a, t, shape) = framed_nonempty msg (wire msgs) in
      let sent =
        commit-nonempty (with_bytes c (wire (msg ∷ msgs))) a t (wire (msg ∷ msgs)) up
          (ap (λ b. b ++ wire (msg ∷ msgs)) none_left) shape in
      let (o, all, seen) = delivery s.msg_max_size (msg ∷ msgs) x xs fit cut in
      (
        with_bytes c (wire (msg ∷ msgs)),
        o,
        post_all-wire (msg ∷ msgs) c s e fit,
        rw cut (ap (λ d. d.events) sent),
        ap (λ d. d.send_buffer) sent,
        all,
        seen,
      )
