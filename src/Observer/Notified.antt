-- ===== src/Observer/Notified.antt =====
-- Who notify_impl reaches after any sequence of subscriptions and unsubscriptions.
use barbacoa_server_lib.Prelude.{
  ℕ, ◌+◌, ◌≤◌, ◌≡◌, ◌∙◌, ap, sym, refl, Bool, true, false, List, [], ◌∷◌, ◌++◌, Option, none, some,
  ◌==◌, if◌then◌else◌, arith, Bool-cases, inl, inr,
}
use barbacoa_server_lib.Observer.{
  Slot, is_sink, subscribe_impl, Call, called, posted, call, notify_impl, Request, subscribe,
  unsubscribe, apply, apply_all,
}

abbrev pub one_if : Bool → ℕ
one_if true = 1
one_if false = 0

abbrev pub reaches : ℕ → Call → Bool
reaches s (called t) = t == s
reaches s (posted l t) = t == s

-- How often a sink is called or has a call posted.
unfoldable pub times : ℕ → List Call → ℕ
times s [] = 0
times s (c ∷ cs) = one_if (reaches s c) + times s cs

-- The last request for the sink decides; `now` is what holds before the requests.
unfoldable pub is_subscribed : ℕ → List Request → Bool → Bool
is_subscribed s [] now = now
is_subscribed s (subscribe t loop ∷ rs) now = is_subscribed s rs (if t == s then true else now)
is_subscribed s (unsubscribe t ∷ rs) now = is_subscribed s rs (if t == s then false else now)

unfoldable pub slots : ℕ → List Slot → ℕ
slots s [] = 0
slots s (item ∷ items) = one_if (is_sink s item.sink) + slots s items

times-append : (s : ℕ) (xs ys : List Call) → times s (xs ++ ys) ≡ times s xs + times s ys
unfolding times
times-append s [] ys = omega arith
times-append s (x ∷ xs) ys = omega (arith, times-append s xs ys)

times-call :
    (this_loop : ℕ → Bool) (s : ℕ) (sink loop : Option ℕ)
    → times s (call this_loop sink loop) ≡ one_if (is_sink s sink)
unfolding times
times-call this_loop s none loop = refl
times-call this_loop s (some t) none = omega arith
times-call this_loop s (some t) (some l) = elim (Bool-cases (this_loop l)) [
  | inl h ↦ rw h (omega arith)
  | inr h ↦ rw h (omega arith)
]

times-notify_impl :
    (this_loop : ℕ → Bool) (s : ℕ) (items : List Slot)
    → times s (notify_impl this_loop items) ≡ slots s items
unfolding notify_impl times slots
times-notify_impl this_loop s [] = refl
times-notify_impl this_loop s (item ∷ items) =
    times-append s (call this_loop item.sink item.loop) (notify_impl this_loop items)
    ∙ omega (arith, times-call this_loop s item.sink item.loop, times-notify_impl this_loop s items)

is_sink-other :
    (s t : ℕ) (o : Option ℕ) → (t == s) ≡ false → is_sink t o ≡ true → is_sink s o ≡ false
is_sink-other s t none h k = refl
is_sink-other s t (some u) h k = ground arith

-- A request for another sink.
slots-other :
    (items : List Slot) (s t : ℕ) (on : Bool) (loop : Option ℕ)
    → (t == s) ≡ false
    → slots s (subscribe_impl items t on loop) ≡ slots s items
unfolding slots subscribe_impl
slots-other [] s t true loop h = rw h refl
slots-other [] s t false loop h = refl
slots-other (item ∷ items) s t on loop h = elim (Bool-cases (is_sink t item.sink)) [
  | inl k ↦ at_slot on k
  | inr k ↦ rw k (omega (arith, slots-other items s t on loop h))
]
  where
    at_slot :
        (b : Bool)
        → is_sink t item.sink ≡ true
        → slots s (
            if is_sink t item.sink
            then (if b then item ∷ items else record { sink = none; loop = none } ∷ items)
            else item ∷ subscribe_impl items t on loop)
          ≡ slots s (item ∷ items)
    at_slot true k = rw k refl
    at_slot false k = rw (k, is_sink-other s t item.sink h k) refl

slots-on :
    (items : List Slot) (s : ℕ) (loop : Option ℕ)
    → slots s items ≤ 1
    → slots s (subscribe_impl items s true loop) ≡ 1
unfolding slots subscribe_impl
slots-on [] s loop h = ground arith
slots-on (item ∷ items) s loop h = elim (Bool-cases (is_sink s item.sink)) [
  | inl k ↦ rw k (omega (arith, ap one_if k))
  | inr k ↦ rw k (omega (arith, ap one_if k, slots-on items s loop (omega (arith, ap one_if k))))
]

slots-off :
    (items : List Slot) (s : ℕ)
    → slots s items ≤ 1
    → slots s (subscribe_impl items s false none) ≡ 0
unfolding slots subscribe_impl
slots-off [] s h = refl
slots-off (item ∷ items) s h = elim (Bool-cases (is_sink s item.sink)) [
  | inl k ↦ rw k (omega (arith, ap one_if k))
  | inr k ↦ rw k (omega (arith, ap one_if k, slots-off items s (omega (arith, ap one_if k))))
]

==→≡ : (t s : ℕ) → (t == s) ≡ true → t ≡ s
==→≡ t s h = ground arith

at_most_one :
    (s : ℕ) (items : List Slot) (now : Bool) → slots s items ≡ one_if now → slots s items ≤ 1
at_most_one s items true h = omega arith
at_most_one s items false h = omega arith

apply-slots :
    (r : Request) (items : List Slot) (s : ℕ) (now : Bool)
    → slots s items ≡ one_if now
    → slots s (apply r items) ≡ one_if (is_subscribed s (r ∷ []) now)
unfolding apply is_subscribed
apply-slots (subscribe t loop) items s now h = elim (Bool-cases (t == s)) [
  | inl k ↦ rw (k, ==→≡ t s k) (slots-on items s loop (at_most_one s items now h))
  | inr k ↦ rw k (slots-other items s t true loop k ∙ h)
]
apply-slots (unsubscribe t) items s now h = elim (Bool-cases (t == s)) [
  | inl k ↦ rw (k, ==→≡ t s k) (slots-off items s (at_most_one s items now h))
  | inr k ↦ rw k (slots-other items s t false none k ∙ h)
]

is_subscribed-cons :
    (r : Request) (rs : List Request) (s : ℕ) (now : Bool)
    → is_subscribed s (r ∷ rs) now ≡ is_subscribed s rs (is_subscribed s (r ∷ []) now)
unfolding is_subscribed
is_subscribed-cons (subscribe t loop) rs s now = refl
is_subscribed-cons (unsubscribe t) rs s now = refl

apply_all-slots :
    (rs : List Request) (items : List Slot) (s : ℕ) (now : Bool)
    → slots s items ≡ one_if now
    → slots s (apply_all rs items) ≡ one_if (is_subscribed s rs now)
unfolding apply_all is_subscribed
apply_all-slots [] items s now h = h
apply_all-slots (r ∷ rs) items s now h =
    apply_all-slots rs (apply r items) s (is_subscribed s (r ∷ []) now)
      (apply-slots r items s now h)
    ∙ ap one_if (sym (is_subscribed-cons r rs s now))

-- After any subscriptions and unsubscriptions, on any loops, a notification reaches a sink exactly
-- once if the last request for it was a subscription, and not at all otherwise.
pub notified_once :
    (rs : List Request) (this_loop : ℕ → Bool) (s : ℕ)
    → times s (notify_impl this_loop (apply_all rs [])) ≡ one_if (is_subscribed s rs false)
unfolding slots
notified_once rs this_loop s =
    times-notify_impl this_loop s (apply_all rs []) ∙ apply_all-slots rs [] s false refl
