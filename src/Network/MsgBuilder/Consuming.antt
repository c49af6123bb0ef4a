-- ===== src/Network/MsgBuilder/Consuming.antt =====
-- msg_builder takes at least a byte for a message, so the loop of the manager ends.
use barbacoa_server_lib.Prelude.{
  ℕ, ◌-◌, ◌≤◌, ◌<◌, ◌≡◌, ap, ◌∙◌, sym, refl, true, false, List, Outcome, returned, thrown, Error,
  logic_error, length, drop, arith, leb, ◌&&◌, not, Bool-cases, inl, inr, length-drop,
  returned-injective,
}
use barbacoa_server_lib.Network.LogicUnit.{ok_unit, set_integer}
use barbacoa_server_lib.Network.UnitBuilder.{IsConsuming}
use barbacoa_server_lib.Network.IntegerBuilder.{short, broken, sized, sizing}
use barbacoa_server_lib.Network.StringBuilder
use barbacoa_server_lib.Network.StringBuilder.{StringBuilder}
use barbacoa_server_lib.Network.StringBuilder.Incremental.{overfull, partial, whole, filling}
use barbacoa_server_lib.Network.MsgBuilder.{
  MsgBuilder, feed, feed_size, feed_msg, take_msg, take_size, reset, msg_builder, mark_ready,
}

-- `x'` is not longer than `x`.
abbrev Within : List ℕ → Outcome (MsgBuilder × List ℕ) → Type 0
Within x o = (s' : MsgBuilder) (x' : List ℕ) → o ≡ returned (s', x') → length x' ≤ length x

string_feed-shrinks :
    (m : StringBuilder) (x : List ℕ) (m' : StringBuilder) (x' : List ℕ)
    → StringBuilder.feed m x ≡ returned (m', x')
    → length x' ≤ length x
unfolding StringBuilder.feed
string_feed-shrinks m x m' x' e = elim (Bool-cases m.ready) [
  | inl done ↦ ground (arith, done)
  | inr pending ↦ elim (filling m x pending) [
    | overfull h f ↦ absurd (let t = sym f ∙ e in cc)
    | partial h f ↦ rw (← ap (λ p. length p.1) (returned-injective (sym f ∙ e))) (omega arith)
    | whole h k f ↦
        rw (← ap (λ p. length p.1) (returned-injective (sym f ∙ e)))
          (omega (arith, length-drop {0} (m.size - length m.buffer) x))
  ]
]

take_msg-Within :
    (s : MsgBuilder) (x : List ℕ) (o : Outcome (StringBuilder × List ℕ))
    → ((m : StringBuilder) (r : List ℕ) → o ≡ returned (m, r) → length r ≤ length x)
    → Within x (take_msg s o)
unfolding take_msg
take_msg-Within s x (returned (m, r)) k s' x' e =
    rw (← ap (λ p. length p.1) (returned-injective e)) (k m r refl)
take_msg-Within s x (thrown e m) k s' x' h = absurd (cc)

feed_msg-Within : (s : MsgBuilder) (x : List ℕ) → Within x (feed_msg (returned (s, x)))
unfolding feed_msg
feed_msg-Within s x s' x' e =
    elim (Bool-cases (ok_unit s.size_builder && not s.msg_builder.ready)) [
      | inl t ↦
          take_msg-Within s x (StringBuilder.feed s.msg_builder x)
            (λ m r f. string_feed-shrinks s.msg_builder x m r f) s' x' (rw (t, feed_msg) at e)
      | inr t ↦ ground (arith, t)
    ]

-- The first part of `operator<<`: a byte goes if the size becomes known.
data SizeRead (s : MsgBuilder) (x : List ℕ) : Type 0 where
  failed :
      (e : Error) (t : MsgBuilder) (r : List ℕ) → feed_size s x ≡ thrown e (t, r) → SizeRead s x
  went_on :
      (t : MsgBuilder) (r : List ℕ)
      → feed_size s x ≡ returned (t, r)
      → length r ≤ length x
      → (ok_unit s.size_builder ≡ false → ok_unit t.size_builder ≡ true → length r < length x)
      → t.ready ≡ s.ready
      → t.msg_builder.ready ≡ s.msg_builder.ready
      → SizeRead s x

size_read : (s : MsgBuilder) (x : List ℕ) → SizeRead s x
unfolding feed_size take_size StringBuilder.set_size
size_read s x = elim (Bool-cases (ok_unit s.size_builder)) [
  | inl known ↦
      went_on s x (ground (arith, known)) (omega arith)
        (λ a b. absurd (let t = sym a ∙ known in cc)) refl refl
  | inr unknown ↦ elim (sizing s.size_builder x unknown) [
    | short e ↦
        went_on s x (ground (arith, unknown, e)) (omega arith)
          (λ a b. absurd (let t = sym a ∙ b in cc)) refl refl
    | broken e f g ↦ failed e s x (ground (arith, unknown, f))
    | sized v n pos le f g ↦ elim (Bool-cases (leb v s.msg_max_size)) [
      | inl fits ↦
          went_on
            (record s {
              size_builder = set_integer s.size_builder v;
              msg_builder = StringBuilder.set_size s.msg_builder v;
            })
            (drop n x) (ground (arith, unknown, f, fits)) (omega (arith, length-drop {0} n x))
            (λ a b. omega (arith, length-drop {0} n x)) refl refl
      | inr large ↦
          failed logic_error (record s { size_builder = set_integer s.size_builder v }) (drop n x)
            (ground (arith, unknown, f, large))
    ]
  ]
]

feed_msg-thrown :
    (er : Error) (t : MsgBuilder) (r : List ℕ) → feed_msg (thrown er (t, r)) ≡ thrown er (t, r)
unfolding feed_msg
feed_msg-thrown er t r = refl

feed-Within : (s : MsgBuilder) (x : List ℕ) → Within x (feed s x)
unfolding feed
feed-Within s x s' x' e = elim (Bool-cases s.ready) [
  | inl done ↦ ground (arith, done)
  | inr pending ↦ elim (size_read s x) [
    | failed er t r p ↦ absurd (ground (arith, pending, p, feed_msg-thrown er t r))
    | went_on t r p le lt a b ↦
        let e' : feed_msg (returned (t, r)) ≡ returned (s', x') = ground (arith, pending, p, e) in
        omega (arith, feed_msg-Within t r s' x' e')
  ]
]

-- Without a size there is no message.
feed_msg_unsized :
    (t : MsgBuilder) (r : List ℕ) (s' : MsgBuilder) (x' : List ℕ)
    → ok_unit t.size_builder ≡ false
    → t.ready ≡ false
    → t.msg_builder.ready ≡ false
    → feed_msg (returned (t, r)) ≡ returned (s', x')
    → s'.ready ≡ false
unfolding feed_msg mark_ready
feed_msg_unsized t r s' x' n p q e = ground (arith, n, p, q, e)

takes_from :
    (s : MsgBuilder) (x : List ℕ) (s' : MsgBuilder) (x' : List ℕ)
    → ok_unit s.size_builder ≡ false
    → s.ready ≡ false
    → s.msg_builder.ready ≡ false
    → feed s x ≡ returned (s', x')
    → s'.ready ≡ true
    → length x' < length x
unfolding feed
takes_from s x s' x' n p q e w = elim (size_read s x) [
  | failed er t r f ↦ absurd (ground (arith, p, f, feed_msg-thrown er t r))
  | went_on t r f le lt a b ↦
      let e' : feed_msg (returned (t, r)) ≡ returned (s', x') = ground (arith, p, f, e) in
      elim (Bool-cases (ok_unit t.size_builder)) [
        | inl known ↦ omega (arith, lt n known, feed_msg-Within t r s' x' e')
        | inr unknown ↦ absurd (
            let no_msg = feed_msg_unsized t r s' x' unknown (a ∙ p) (b ∙ q) e' in
            let t = sym no_msg ∙ w in cc)
      ]
]

pub msg_builder-IsConsuming : IsConsuming msg_builder
unfolding reset
msg_builder-IsConsuming = record {
  takes = λ s x s' x' e w. takes_from (reset s) x s' x' refl refl refl e w;
  shrinks = λ s x s' x' e. feed-Within s x s' x' e;
}
