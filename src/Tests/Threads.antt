-- ===== src/Tests/Threads.antt =====
-- Two threads at a protected_mutex.
use barbacoa_server_lib.Prelude.{ℕ, ◌≤◌, ◌≡◌, ◌≢◌, refl, true, false, [], ◌∷◌, arith}
use barbacoa_server_lib.ProtectedMutex.{
  outside, locking, owning, inside, failed, check_lock, lock_mutex, store_mark, State, by_thread,
  Steps, done, then, all_outside, initial,
}
use barbacoa_server_lib.ProtectedMutex.Owner.{mark_lost}
use barbacoa_server_lib.ProtectedMutex.Exclusion.{owners, one_if_locked, mutual_exclusion}

abbrev entering : State
entering = record { ows = 0; locked = false; threads = (7, locking) ∷ (8, outside) ∷ [] }

abbrev entered : State
entered = record { ows = 0; locked = true; threads = (7, owning) ∷ (8, outside) ∷ [] }

abbrev within : State
within = record { ows = 7; locked = true; threads = (7, inside) ∷ (8, outside) ∷ [] }

no_mark_of_seven : ◌≢◌ {A = ℕ} 0 7
no_mark_of_seven h = absurd (omega arith)

no_mark_of_eight : ◌≢◌ {A = ℕ} 0 8
no_mark_of_eight h = absurd (omega arith)

seven_and_eight : ◌≢◌ {A = ℕ} 7 8
seven_and_eight h = absurd (omega arith)

until_within : Steps (initial (7 ∷ 8 ∷ [])) within
unfolding initial all_outside
until_within =
    then entered within
      (then entering entered
        (then (initial (7 ∷ 8 ∷ [])) entering done (
          by_thread [] 7 outside locking ((8, outside) ∷ []) refl refl
            (check_lock 0 false no_mark_of_seven)))
        (by_thread [] 7 locking owning ((8, outside) ∷ []) refl refl (lock_mutex 0)))
      (by_thread [] 7 owning inside ((8, outside) ∷ []) refl refl (store_mark 0 true))

mutual_exclusion_example :
    (owners within.threads ≤ 1) × (owners within.threads ≡ one_if_locked true)
mutual_exclusion_example =
    mutual_exclusion (7 ∷ 8 ∷ []) within ((seven_and_eight, tt), (tt, tt))
      (no_mark_of_seven, (no_mark_of_eight, tt)) until_within

mark_lost_example :
    (s : State) × Steps (initial (7 ∷ 8 ∷ [])) s
    × (s.ows ≡ 0)
    × (s.locked ≡ true)
    × (s.threads ≡ (7, outside) ∷ (8, failed) ∷ [])
mark_lost_example = mark_lost 7 8 no_mark_of_seven no_mark_of_eight seven_and_eight
