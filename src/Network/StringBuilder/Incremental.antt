-- ===== src/Network/StringBuilder/Incremental.antt =====
-- string_builder may be fed in parts.
use barbacoa_server_lib.Prelude.{
  ℕ, ◌+◌, ◌-◌, ◌≤◌, ◌<◌, ◌≡◌, ◌∙◌, sym, refl, false, List, [], ◌++◌, returned, thrown, logic_error,
  length, length-append, take, drop, arith, append_assoc, take-append_le, take-append_ge,
  drop-append_le, drop-append_ge, dec_lt,
}
use barbacoa_server_lib.Network.UnitBuilder.{IsIncremental, Feeding, waits, makes, fails}
use barbacoa_server_lib.Network.StringBuilder
use barbacoa_server_lib.Network.StringBuilder.{
  StringBuilder, feed, completed, string_builder, feed_partial, feed_complete, feed_overfull,
}

-- The three outcomes of `operator<<` on a builder that waits.
pub data Filling (s : StringBuilder) (x : List ℕ) : Type 0 where
  overfull : s.size < length s.buffer → feed s x ≡ thrown logic_error (s, x) → Filling s x
  partial :
      length s.buffer + length x < s.size
      → feed s x ≡ returned (record s { buffer = s.buffer ++ x }, [])
      → Filling s x
  whole :
      length s.buffer ≤ s.size
      → s.size ≤ length s.buffer + length x
      → feed s x
        ≡ returned (
          completed s (s.buffer ++ take (s.size - length s.buffer) x),
          drop (s.size - length s.buffer) x,
        )
      → Filling s x

pub filling : (s : StringBuilder) (x : List ℕ) → s.ready ≡ false → Filling s x
filling s x p = elim (dec_lt s.size (length s.buffer)) [
  | yes over ↦ overfull over (feed_overfull s p x over)
  | no fits ↦ elim (dec_lt (length s.buffer + length x) s.size) [
    | yes few ↦ partial few (feed_partial s p x few)
    | no many ↦ whole (omega arith) (omega arith) (feed_complete s p x (omega arith) (omega arith))
  ]
]

-- What a partial feed left behind goes on as if all had come at once.
pub feed_again :
    (s : StringBuilder) (x y : List ℕ)
    → s.ready ≡ false
    → length s.buffer + length x < s.size
    → feed (record s { buffer = s.buffer ++ x }) y ≡ feed s (x ++ y)
feed_again s x y p h = elim (dec_lt (length s.buffer + length (x ++ y)) s.size) [
  | yes few ↦
      feed_partial (record s { buffer = s.buffer ++ x }) p y
        (omega (arith, length-append {0} s.buffer x, length-append {0} x y))
      ∙ (rw (append_assoc) (sym (feed_partial s p (x ++ y) few)))
  | no many ↦
      feed_complete (record s { buffer = s.buffer ++ x }) p y
        (omega (arith, length-append {0} s.buffer x))
        (omega (arith, length-append {0} s.buffer x, length-append {0} x y))
      ∙ (rw (length-append s.buffer x, append_assoc)
          (sym (
            feed_complete s p (x ++ y) (omega arith) (omega arith)
            ∙ (rw
                (
                  take-append_ge (s.size - length s.buffer) x y (omega arith),
                  drop-append_ge (s.size - length s.buffer) x y (omega arith),
                  same,
                )
                refl))))
]
  where
    same : s.size - length s.buffer - length x ≡ s.size - (length s.buffer + length x)
    same = omega arith

-- A feed that made the unit leaves what comes later untouched.
pub feed_whole-append :
    (s : StringBuilder) (x y : List ℕ)
    → s.ready ≡ false
    → length s.buffer ≤ s.size
    → s.size ≤ length s.buffer + length x
    → feed s (x ++ y)
      ≡ returned (
        completed s (s.buffer ++ take (s.size - length s.buffer) x),
        drop (s.size - length s.buffer) x ++ y,
      )
feed_whole-append s x y p h k =
    feed_complete s p (x ++ y) h (omega (arith, length-append {0} x y))
    ∙ (rw
        (
          take-append_le (s.size - length s.buffer) x y (omega arith),
          drop-append_le (s.size - length s.buffer) x y (omega arith),
        )
        refl)

string_builder-Feeding :
    (s : StringBuilder) (x : List ℕ)
    → Unit {0}
    → s.ready ≡ false
    → Feeding string_builder (λ _. Unit {0}) s x
string_builder-Feeding s x v p = elim (filling s x p) [
  | overfull h f ↦ fails logic_error s x f (λ y. feed_overfull s p (x ++ y) h)
  | partial h f ↦ waits _ [] tt p f (λ y. sym (feed_again s x y p h))
  | whole h k f ↦ makes _ _ refl f (λ y. feed_whole-append s x y p h k)
]

pub string_builder-IsIncremental : IsIncremental string_builder (λ _. Unit {0})
unfolding StringBuilder.reset
string_builder-IsIncremental = record {
  feeding = string_builder-Feeding;
  keeps_reset = λ s. tt;
  reset_pending = λ s. refl;
}
