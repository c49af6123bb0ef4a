-- ===== src/ProtectedMutex.antt =====
-- protected_mutex (include/server_lib/protected_mutex.h): a mutex with the mark of its owner, as a step
-- relation. One step of a thread is one access to `_ows` or to `_mutex`.
pub mod Owner
pub mod Marks
pub mod Exclusion
use barbacoa_server_lib.Prelude.{ℕ, ◌≡◌, ◌≢◌, Bool, true, false, List, [], ◌∷◌, ◌++◌}

-- Where a thread is. `locking` is past the assertion of lock, `owning` has the mutex and not yet the
-- mark, `unlocking` is past the assertions of unlock, and `clearing` is its loop, with `et_`. A throw of
-- unlock with the mutex held is `failed`; a lock that waits for the mutex of its own thread is `stuck`.
-- `intruding` is past the assertions of unlock without having the mutex: the mark was its own hash.
pub data Thread : Type 0 where
  outside : Thread
  locking : Thread
  owning : Thread
  inside : Thread
  unlocking : Thread
  clearing : ℕ → Thread
  failed : Thread
  stuck : Thread
  intruding : Thread

-- The mark, whether the mutex is locked, and the thread with the hash `t`, before and after.
-- compare_exchange_weak may fail though the values are equal.
pub data Move (t : ℕ) : ℕ → Bool → Thread → ℕ → Bool → Thread → Type 0 where
  check_lock : (ows : ℕ) (h : Bool) → ows ≢ t → Move t ows h outside ows h locking
  refuse_relock : (h : Bool) → Move t t h inside t h inside
  lock_again : (ows : ℕ) (h : Bool) → ows ≢ t → Move t ows h inside ows h stuck
  lock_mutex : (ows : ℕ) → Move t ows false locking ows true owning
  store_mark : (ows : ℕ) (h : Bool) → Move t ows h owning t h inside
  refuse_foreign : (ows : ℕ) (h : Bool) → ows ≢ t → Move t ows h outside ows h outside
  check_unlock : (h : Bool) → Move t t h inside t h unlocking
  refuse_unlock : (ows : ℕ) (h : Bool) → ows ≢ t → Move t ows h inside ows h failed
  refuse_lock : (h : Bool) → Move t t h outside t h outside
  pass_unlock : (h : Bool) → Move t t h outside t h intruding
  unlock_foreign : (ows : ℕ) (h : Bool) → Move t ows h intruding ows false (clearing t)
  refuse_again : (ows : ℕ) (h : Bool) → ows ≢ t → Move t ows h failed ows h failed
  lock_failed : (ows : ℕ) (h : Bool) → ows ≢ t → Move t ows h failed ows h stuck
  check_again : (h : Bool) → Move t t h failed t h unlocking
  refuse_failed : (h : Bool) → Move t t h failed t h failed
  unlock_mutex : (ows : ℕ) (h : Bool) → Move t ows h unlocking ows false (clearing t)
  clear_mark : (e : ℕ) (h : Bool) → Move t e h (clearing e) 0 h outside
  retry_clear : (ows e : ℕ) (h : Bool) → Move t ows h (clearing e) ows h (clearing ows)

-- The threads with the hashes of their ids.
pub record State : Type 0 where
  pub ows : ℕ
  pub locked : Bool
  pub threads : List (ℕ × Thread)

pub data Step (s u : State) : Type 0 where
  by_thread :
      (before : List (ℕ × Thread)) (t : ℕ) (p q : Thread) (after : List (ℕ × Thread))
      → s.threads ≡ before ++ (t, p) ∷ after
      → u.threads ≡ before ++ (t, q) ∷ after
      → Move t s.ows s.locked p u.ows u.locked q
      → Step s u

pub data Steps (s : State) : State → Type 0 where
  done : Steps s s
  then : (t u : State) → Steps s t → Step t u → Steps s u

unfoldable pub all_outside : List ℕ → List (ℕ × Thread)
all_outside [] = []
all_outside (t ∷ ts) = (t, outside) ∷ all_outside ts

-- protected_mutex(), with threads that have not called it.
unfoldable pub initial : List ℕ → State
unfolding all_outside
initial ts = record { ows = 0; locked = false; threads = all_outside ts }
