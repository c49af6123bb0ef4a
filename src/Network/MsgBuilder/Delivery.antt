-- ===== src/Network/MsgBuilder/Delivery.antt =====
-- Messages from msg_builder::create to the units of unit_builder_manager.
use barbacoa_server_lib.Prelude.{
  ℕ, suc, ◌+◌, ◌≡◌, ap, ◌∙◌, refl, false, List, [], ◌∷◌, ◌++◌, map, some, Outcome, returned, length,
  append-nil, append_assoc, ltb, Bool-cases, inl, inr, ◌/◌, ◌%◌,
}
use barbacoa_server_lib.Network.LogicUnit.{LogicUnit}
use barbacoa_server_lib.Network.IntegerBuilder.Pack.{pack, pack_lem}
use barbacoa_server_lib.Network.StringBuilder
use barbacoa_server_lib.Network.MsgBuilder.{MsgBuilder, reset, msg_builder, initial}
use barbacoa_server_lib.Network.MsgBuilder.Incremental.{msg_builder-IsIncremental}
use barbacoa_server_lib.Network.MsgBuilder.Consuming.{msg_builder-IsConsuming}
use barbacoa_server_lib.Network.MsgBuilder.RoundTrip.{
  IsFresh, Fits, framed, received, after_message, feed-framed, after_message-unit,
  after_message-IsFresh, after_message-limit,
}
use barbacoa_server_lib.Network.Manager.{Manager, build_units, receive}
use barbacoa_server_lib.Network.Manager.Streams.{with_builder, round_made_at, round_empty}
use barbacoa_server_lib.Network.Manager.Totality.{IsWaiting, waiting}
use barbacoa_server_lib.Network.Manager.Stream.{
  concat, receive_all, receive_all-concat, observed, build_units_unique,
}

abbrev pub AllFit : ℕ → List (List ℕ) → Type 0
AllFit limit [] = Unit {0}
AllFit limit (msg ∷ msgs) = Fits limit msg × AllFit limit msgs

abbrev pub wire : List (List ℕ) → List ℕ
wire msgs = concat (map framed msgs)

pack_nonempty : (n : ℕ) → (a : ℕ) × (t : List ℕ) × (pack n ≡ a ∷ t)
pack_nonempty n = elim (Bool-cases (ltb 127 n)) [
  | inl more ↦ (n % 128 + 128, pack (n / 128), pack_lem n ∙ rw more refl)
  | inr last ↦ (n % 128, [], pack_lem n ∙ rw last refl)
]

pub framed_nonempty : (msg rest : List ℕ) → (a : ℕ) × (t : List ℕ) × (framed msg ++ rest ≡ a ∷ t)
framed_nonempty msg rest =
    let (a, t, e) = pack_nonempty (length msg) in (a, (t ++ msg) ++ rest, rw e refl)

-- One message off the front of the buffer.
round_message :
    (f : ℕ) (s : MsgBuilder) (q : List LogicUnit) (fresh : IsFresh s) (msg rest : List ℕ)
    (fits : Fits s.msg_max_size msg)
    → build_units msg_builder (suc f) (with_builder (framed msg ++ rest) s q)
      ≡ build_units msg_builder f
          (with_builder rest (reset (after_message s fresh msg rest fits)) (q ++ received msg ∷ []))
unfolding after_message
round_message f s q fresh msg rest fits =
    round_made_at msg_builder f (framed msg ++ rest) s q (after_message s fresh msg rest fits) rest
      (framed_nonempty msg rest) (feed-framed s fresh msg rest fits) refl
    ∙ ap
        (λ u.
          build_units msg_builder f
            (with_builder rest (reset (after_message s fresh msg rest fits)) (q ++ u ∷ [])))
        (after_message-unit s fresh msg rest fits)

-- All the messages off a buffer that holds nothing else.
all_messages :
    (msgs : List (List ℕ)) (s : MsgBuilder) (q : List LogicUnit)
    → IsFresh s
    → AllFit s.msg_max_size msgs
    → (t : MsgBuilder) × (build_units msg_builder (suc (length msgs)) (with_builder (wire msgs) s q)
        ≡ some (returned (with_builder [] t (q ++ map received msgs))))
all_messages [] s q fresh fit = (s, rw (append-nil q) (round_empty msg_builder 0 s q))
all_messages (msg ∷ msgs) s q fresh fit =
    let s' = reset (after_message s fresh msg (wire msgs) fit.0) in
    let (t, p) =
      all_messages msgs s' (q ++ received msg ∷ [])
        (after_message-IsFresh s fresh msg (wire msgs) fit.0)
        (rw (after_message-limit s fresh msg (wire msgs) fit.0) fit.1) in
    (
      t,
      round_message (suc (length msgs)) s q fresh msg (wire msgs) fit.0
          ∙ p
          ∙ ap (λ us. some (returned (with_builder [] t us)))
              (append_assoc q (received msg ∷ []) (map received msgs)),
    )

-- The manager of a new connection.
abbrev pub connected : ℕ → Manager MsgBuilder
connected limit = with_builder [] (initial limit) []

initial-IsFresh : (limit : ℕ) → IsFresh (initial limit)
unfolding initial StringBuilder.initial
initial-IsFresh limit = record {
  not_ready = refl;
  no_size = refl;
  no_msg = refl;
  no_bytes = refl;
  plain = refl;
}

pub connected-IsWaiting :
    (limit : ℕ) → IsWaiting msg_builder msg_builder-IsIncremental (connected limit)
unfolding initial StringBuilder.initial
connected-IsWaiting limit = waiting [] (initial limit) [] refl refl refl

limit-initial : (limit : ℕ) → (initial limit).msg_max_size ≡ limit
unfolding initial
limit-initial limit = refl

-- Messages within the limits that were framed by `create`, in whatever parts `c ∷ cs` the bytes
-- arrive at the manager of a new connection: the manager ends without a throw, with one unit for
-- each message, in order.
pub delivery :
    (limit : ℕ) (msgs : List (List ℕ)) (c : List ℕ) (cs : List (List ℕ))
    → AllFit limit msgs
    → concat (c ∷ cs) ≡ wire msgs
    → (o : Outcome (Manager MsgBuilder)) × (receive_all msg_builder (c ∷ cs) (connected limit)
        ≡ some o)
      × (observed msg_builder o ≡ (false, map received msgs))
unfolding receive
delivery limit msgs c cs fit cut =
    let (o, r, all, one, same) =
      receive_all-concat msg_builder msg_builder-IsIncremental msg_builder-IsConsuming c cs
        (connected limit) (connected-IsWaiting limit) in
    let (t, p) =
      all_messages msgs (initial limit) [] (initial-IsFresh limit) (rw (limit-initial limit) fit) in
    (
      o,
      all,
      same
          ∙ ap (observed msg_builder) (
              build_units_unique msg_builder _ _ (with_builder (wire msgs) (initial limit) []) r _
                (rw cut at one) p),
    )
