-- ===== src/Network/MsgBuilder/Incremental.antt =====
-- msg_builder may be fed in parts.
use barbacoa_server_lib.Prelude.{
  ℕ, ◌≡◌, ◌∙◌, sym, inl, inr, refl, true, false, List, ◌++◌, returned, thrown, Error, logic_error,
  drop, arith, leb, Bool-cases,
}
use barbacoa_server_lib.Network.LogicUnit.{ok_unit, set_integer}
use barbacoa_server_lib.Network.UnitBuilder.{IsIncremental, Feeding, waits, makes, fails}
use barbacoa_server_lib.Network.IntegerBuilder
use barbacoa_server_lib.Network.IntegerBuilder.{Sizing, short, broken, sized, sizing}
use barbacoa_server_lib.Network.StringBuilder
use barbacoa_server_lib.Network.StringBuilder.{StringBuilder}
use barbacoa_server_lib.Network.StringBuilder.Incremental.{string_builder-IsIncremental}
use barbacoa_server_lib.Network.MsgBuilder.{
  MsgBuilder, feed, feed_size, feed_msg, take_msg, take_size, reset, msg_builder,
}

-- Between two calls the flag is that of the inner builder.
abbrev pub IsInStep : MsgBuilder → Type 0
IsInStep s = s.msg_builder.ready ≡ s.ready

-- With the size known, the bytes go to the inner builder.
pub feed_sized :
    (s : MsgBuilder) (x : List ℕ)
    → s.ready ≡ false
    → s.msg_builder.ready ≡ false
    → ok_unit s.size_builder ≡ true
    → feed s x ≡ take_msg s (StringBuilder.feed s.msg_builder x)
unfolding feed feed_size feed_msg
feed_sized s x p q k = ground (arith, p, q, k)

Feeding-sized :
    (s : MsgBuilder) (x : List ℕ)
    → s.ready ≡ false
    → s.msg_builder.ready ≡ false
    → ok_unit s.size_builder ≡ true
    → Feeding msg_builder IsInStep s x
unfolding take_msg
Feeding-sized s x p q k = elim (string_builder-IsIncremental.feeding s.msg_builder x tt q) [
  | waits m r v w f g ↦
      waits (record s { msg_builder = m }) r (w ∙ sym p) p
        (feed_sized s x p q k ∙ rw (f, take_msg, w) refl)
        (λ y.
          feed_sized s (x ++ y) p q k
          ∙ (rw (g y) (sym (feed_sized (record s { msg_builder = m }) (r ++ y) p w k))))
  | makes m r w f g ↦
      makes (record s { msg_builder = m; ready = true }) r refl
        (feed_sized s x p q k ∙ rw (f, take_msg, w) refl)
        (λ y. feed_sized s (x ++ y) p q k ∙ rw (g y, take_msg, w) refl)
  | fails e m r f g ↦
      fails e (record s { msg_builder = m }) r (feed_sized s x p q k ∙ rw (f, take_msg) refl)
        (λ y. feed_sized s (x ++ y) p q k ∙ rw (g y, take_msg) refl)
]

-- The size is read: the rest is fed to the builder that knows it, or the size is too large.
module _ (s : MsgBuilder) (p : s.ready ≡ false) (k : ok_unit s.size_builder ≡ false) where
  unfoldable pub with_size : ℕ → MsgBuilder
  unfolding StringBuilder.set_size
  with_size v = record s {
    size_builder = set_integer s.size_builder v;
    msg_builder = StringBuilder.set_size s.msg_builder v;
  }

  pub feed_too_large :
      (x : List ℕ) (v : ℕ) (r : List ℕ)
      → IntegerBuilder.feed s.size_builder x ≡ returned (set_integer s.size_builder v, r)
      → leb v s.msg_max_size ≡ false
      → feed s x ≡ thrown logic_error (record s { size_builder = set_integer s.size_builder v }, r)
  unfolding feed feed_size take_size feed_msg
  feed_too_large x v r e h = ground (arith, p, k, e)

  pub feed_with_size :
      (x : List ℕ) (v : ℕ) (r : List ℕ)
      → IntegerBuilder.feed s.size_builder x ≡ returned (set_integer s.size_builder v, r)
      → leb v s.msg_max_size ≡ true
      → feed s x ≡ feed (with_size v) r
  unfolding feed feed_size take_size feed_msg with_size StringBuilder.set_size
  feed_with_size x v r e h = ground (arith, p, k, e)

  pub feed_short :
      (x : List ℕ)
      → s.msg_builder.ready ≡ false
      → IntegerBuilder.feed s.size_builder x ≡ returned (s.size_builder, x)
      → feed s x ≡ returned (s, x)
  unfolding feed feed_size take_size feed_msg
  feed_short x q e = ground (arith, p, k, q, e)

  pub feed_broken :
      (x : List ℕ) (e : Error)
      → IntegerBuilder.feed s.size_builder x ≡ thrown e (s.size_builder, x)
      → feed s x ≡ thrown e (s, x)
  unfolding feed feed_size take_size feed_msg
  feed_broken x e f = ground (arith, p, k, f)

  -- Reading on from a size that fits.
  Feeding-rest :
      (x : List ℕ) (v : ℕ) (r : List ℕ)
      → ((y : List ℕ) → feed s (x ++ y) ≡ feed (with_size v) (r ++ y))
      → feed s x ≡ feed (with_size v) r
      → Feeding msg_builder IsInStep (with_size v) r
      → Feeding msg_builder IsInStep s x
  Feeding-rest x v r later now (waits s' x' valid w f g) =
      waits s' x' valid w (now ∙ f) (λ y. later y ∙ g y)
  Feeding-rest x v r later now (makes s' x' w f g) = makes s' x' w (now ∙ f) (λ y. later y ∙ g y)
  Feeding-rest x v r later now (fails e s' x' f g) = fails e s' x' (now ∙ f) (λ y. later y ∙ g y)

  Feeding-unsized : (x : List ℕ) → s.msg_builder.ready ≡ false → Feeding msg_builder IsInStep s x
  unfolding with_size StringBuilder.set_size
  Feeding-unsized x q = elim (sizing s.size_builder x k) [
    | short e ↦ waits s x (q ∙ sym p) p (feed_short x q e) (λ y. refl)
    | broken e f g ↦ fails e s x (feed_broken x e f) (λ y. feed_broken (x ++ y) e (g y))
    | sized v n pos le f g ↦ elim (Bool-cases (leb v s.msg_max_size)) [
      | inl fits ↦
          Feeding-rest x v (drop n x) (λ y. feed_with_size (x ++ y) v (drop n x ++ y) (g y) fits)
            (feed_with_size x v (drop n x) f fits) (Feeding-sized (with_size v) (drop n x) p q refl)
      | inr large ↦
          fails logic_error _ (drop n x) (feed_too_large x v (drop n x) f large)
            (λ y. feed_too_large (x ++ y) v (drop n x ++ y) (g y) large)
    ]
  ]

msg_builder-Feeding :
    (s : MsgBuilder) (x : List ℕ) → IsInStep s → s.ready ≡ false → Feeding msg_builder IsInStep s x
msg_builder-Feeding s x v p = elim (Bool-cases (ok_unit s.size_builder)) [
  | inl known ↦ Feeding-sized s x p (v ∙ p) known
  | inr unknown ↦ Feeding-unsized s p unknown x (v ∙ p)
]

pub msg_builder-IsIncremental : IsIncremental msg_builder IsInStep
unfolding reset
msg_builder-IsIncremental = record {
  feeding = msg_builder-Feeding;
  keeps_reset = λ s. refl;
  reset_pending = λ s. refl;
}
