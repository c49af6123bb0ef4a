-- ===== src/ProtectedMutex/Owner.antt =====
-- The mark of a thread that has the mutex can be lost.
use barbacoa_server_lib.Prelude.{ℕ, ◌≡◌, ◌≢◌, refl, Bool, true, false, [], ◌∷◌}
use barbacoa_server_lib.ProtectedMutex.{
  Thread, outside, locking, owning, inside, unlocking, clearing, failed, Move, check_lock,
  lock_mutex, store_mark, check_unlock, refuse_unlock, unlock_mutex, clear_mark, retry_clear, State,
  Step, by_thread, Steps, done, then, all_outside, initial,
}

-- The two threads `a` and `b`, and a mutex.
abbrev two : ℕ → Bool → ℕ → Thread → ℕ → Thread → State
two ows locked a p b q = record { ows = ows; locked = locked; threads = (a, p) ∷ (b, q) ∷ [] }

module _ (a b : ℕ) where
  first :
      (ows : ℕ) (h : Bool) (p : Thread) (ows' : ℕ) (h' : Bool) (p' q : Thread)
      → Move a ows h p ows' h' p'
      → Step (two ows h a p b q) (two ows' h' a p' b q)
  first ows h p ows' h' p' q move = by_thread [] a p p' ((b, q) ∷ []) refl refl move

  second :
      (ows : ℕ) (h : Bool) (q : Thread) (ows' : ℕ) (h' : Bool) (q' p : Thread)
      → Move b ows h q ows' h' q'
      → Step (two ows h a p b q) (two ows' h' a p b q')
  second ows h q ows' h' q' p move = by_thread ((a, p) ∷ []) b q q' [] refl refl move

  -- `a` locks, and `b` comes to wait for the mutex.
  b_waits : 0 ≢ a → a ≢ b → Steps (initial (a ∷ b ∷ [])) (two a true a inside b locking)
  unfolding initial all_outside
  b_waits na ab =
      then (two a true a inside b outside) _
        (then (two 0 true a owning b outside) _
          (then (two 0 false a locking b outside) _
            (then (two 0 false a outside b outside) _ done
              (first 0 false outside 0 false locking outside (check_lock 0 false na)))
            (first 0 false locking 0 true owning outside (lock_mutex 0)))
          (first 0 true owning a true inside outside (store_mark 0 true)))
        (second a true outside a true locking inside (check_lock a true ab))

  -- `a` unlocks the mutex, and `b` has it and its mark before `a` clears.
  b_enters : 0 ≢ a → a ≢ b → Steps (initial (a ∷ b ∷ [])) (two b true a (clearing a) b inside)
  b_enters na ab =
      then (two a true a (clearing a) b owning) _
        (then (two a false a (clearing a) b locking) _
          (then (two a true a unlocking b locking) _
            (then (two a true a inside b locking) _ (b_waits na ab)
              (first a true inside a true unlocking locking (check_unlock true)))
            (first a true unlocking a false (clearing a) locking (unlock_mutex a true)))
          (second a false locking a true owning (clearing a) (lock_mutex a)))
        (second a true owning b true inside (clearing a) (store_mark a true))

-- Two threads with hashes that differ from each other and from 0 can come to where the one has
-- unlocked and is outside, the other has the mutex, its mark is cleared, and its own unlock has thrown
-- and left the mutex locked.
pub mark_lost :
    (a b : ℕ)
    → 0 ≢ a
    → 0 ≢ b
    → a ≢ b
    → (s : State) × Steps (initial (a ∷ b ∷ [])) s
      × (s.ows ≡ 0)
      × (s.locked ≡ true)
      × (s.threads ≡ (a, outside) ∷ (b, failed) ∷ [])
mark_lost a b na nb ab = (
  two 0 true a outside b failed,
  then (two 0 true a outside b inside) _
      (then (two b true a (clearing b) b inside) _
        (then (two b true a (clearing a) b inside) _ (b_enters a b na ab)
          (first a b b true (clearing a) b true (clearing b) inside (retry_clear b a true)))
        (first a b b true (clearing b) 0 true outside inside (clear_mark b true)))
      (second a b 0 true inside 0 true failed outside (refuse_unlock 0 true nb)),
  refl,
  refl,
  refl,
)
