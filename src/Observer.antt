-- ===== src/Observer.antt =====
-- observable (include/server_lib/observer.h): the slots of its observers, and who is notified.
pub mod Notified
use barbacoa_server_lib.Prelude.{
  ℕ, ◌≡◌, Bool, true, false, List, [], ◌∷◌, ◌++◌, Option, none, some, ◌==◌, if◌then◌else◌, ◌&&◌,
  not,
}

-- A sink and an event_loop by their addresses; `none` is a null pointer.
pub record Slot : Type 0 where
  pub sink : Option ℕ
  pub loop : Option ℕ

abbrev pub is_sink : ℕ → Option ℕ → Bool
is_sink s none = false
is_sink s (some t) = t == s

abbrev empty_slot : Slot
empty_slot = record { sink = none; loop = none }

-- The search for the sink stops at its slot, which an unsubscription empties; a sink without a slot
-- gets one at the end.
unfoldable pub subscribe_impl : List Slot → ℕ → Bool → Option ℕ → List Slot
subscribe_impl [] s on loop = if on then record { sink = some s; loop = loop } ∷ [] else []
subscribe_impl (item ∷ items) s on loop =
    let later = item ∷ subscribe_impl items s on loop in
    if is_sink s item.sink then (if on then item ∷ items else empty_slot ∷ items) else later

-- A sink is called at once, or a call is posted to its loop.
pub data Call : Type 0 where
  called : ℕ → Call
  posted : ℕ → ℕ → Call

abbrev pub call : (ℕ → Bool) → Option ℕ → Option ℕ → List Call
call this_loop none loop = []
call this_loop (some s) none = called s ∷ []
call this_loop (some s) (some l) = if this_loop l then called s ∷ [] else posted l s ∷ []

-- `this_loop` is event_loop::is_this_loop of a loop.
unfoldable pub notify_impl : (ℕ → Bool) → List Slot → List Call
notify_impl this_loop [] = []
notify_impl this_loop (item ∷ items) =
    call this_loop item.sink item.loop ++ notify_impl this_loop items

-- subscribe, subscribe with a loop, and unsubscribe.
pub data Request : Type 0 where
  subscribe : ℕ → Option ℕ → Request
  unsubscribe : ℕ → Request

unfoldable pub apply : Request → List Slot → List Slot
unfolding subscribe_impl
apply (subscribe s loop) items = subscribe_impl items s true loop
apply (unsubscribe s) items = subscribe_impl items s false none

unfoldable pub apply_all : List Request → List Slot → List Slot
unfolding apply
apply_all [] items = items
apply_all (r ∷ rs) items = apply_all rs (apply r items)
