-- ===== src/ProtectedMutex/Exclusion.antt =====
-- One thread at most has the mutex, for threads whose hashes can be told from each other and from 0
-- (include/server_lib/protected_mutex.h).
use barbacoa_server_lib.Prelude.{
  ℕ, ◌+◌, ◌≤◌, ◌≡◌, ◌≢◌, ◌∙◌, ap, sym, refl, subst, Bool, true, false, List, [], ◌∷◌, ◌++◌, arith,
}
use barbacoa_server_lib.ProtectedMutex.{
  Thread, intruding, refuse_lock, pass_unlock, unlock_foreign, refuse_again, lock_failed,
  check_again, refuse_failed, outside, locking, owning, inside, unlocking, clearing, failed, stuck,
  Move, check_lock, refuse_relock, lock_again, lock_mutex, store_mark, refuse_foreign, check_unlock,
  refuse_unlock, unlock_mutex, clear_mark, retry_clear, State, Step, by_thread, Steps, done, then,
  all_outside, initial,
}
use barbacoa_server_lib.ProtectedMutex.Marks.{
  IsUnmarked, AreUnmarked, AreOthers, AreApart, Move-IsUnmarked, Move-ows, middle-AreApart,
  middle-AreUnmarked,
}

unfoldable pub has_mutex : Thread → ℕ
has_mutex outside = 0
has_mutex locking = 0
has_mutex owning = 1
has_mutex inside = 1
has_mutex unlocking = 1
has_mutex (clearing e) = 0
has_mutex failed = 1
has_mutex stuck = 1
has_mutex intruding = 0

-- The threads that have the mutex.
unfoldable pub owners : List (ℕ × Thread) → ℕ
unfolding has_mutex
owners [] = 0
owners ((t, p) ∷ ps) = has_mutex p + owners ps

abbrev pub one_if_locked : Bool → ℕ
one_if_locked true = 1
one_if_locked false = 0

owners-append : (ps qs : List (ℕ × Thread)) → owners (ps ++ qs) ≡ owners ps + owners qs
unfolding owners
owners-append [] qs = omega arith
owners-append ((t, p) ∷ ps) qs = omega (arith, owners-append ps qs)

owners-middle :
    (before : List (ℕ × Thread)) (t : ℕ) (p : Thread) (after : List (ℕ × Thread))
    → owners (before ++ (t, p) ∷ after) ≡ (owners before + owners after) + has_mutex p
unfolding owners
owners-middle before t p after = omega (arith, owners-append before ((t, p) ∷ after))

Move-owners :
    (t n : ℕ) (ows : ℕ) (h : Bool) (p : Thread) (ows' : ℕ) (h' : Bool) (q : Thread)
    → Move t ows h p ows' h' q
    → IsUnmarked ows t p
    → n + has_mutex p ≡ one_if_locked h
    → n + has_mutex q ≡ one_if_locked h'
unfolding has_mutex IsUnmarked
Move-owners t n ows h p ows' h' q (check_lock _ _ x) m e = e
Move-owners t n ows h p ows' h' q (refuse_relock _) m e = e
Move-owners t n ows h p ows' h' q (lock_again _ _ x) m e = e
Move-owners t n ows h p ows' h' q (lock_mutex _) m e = omega arith
Move-owners t n ows h p ows' h' q (store_mark _ _) m e = e
Move-owners t n ows h p ows' h' q (refuse_foreign _ _ x) m e = e
Move-owners t n ows h p ows' h' q (check_unlock _) m e = e
Move-owners t n ows h p ows' h' q (refuse_unlock _ _ x) m e = e
Move-owners t n ows h p ows' h' q (refuse_lock _) m e = e
Move-owners t n ows h p ows' h' q (pass_unlock _) m e = e
Move-owners t n ows h p ows' h' q (unlock_foreign _ _) m e = absurd m
Move-owners t n ows h p ows' h' q (refuse_again _ _ x) m e = e
Move-owners t n ows h p ows' h' q (lock_failed _ _ x) m e = e
Move-owners t n ows h p ows' h' q (check_again _) m e = e
Move-owners t n ows h p ows' h' q (refuse_failed _) m e = e
Move-owners t n ows true p ows' h' q (unlock_mutex _ _) m e = omega arith
Move-owners t n ows false p ows' h' q (unlock_mutex _ _) m e = absurd (omega arith)
Move-owners t n ows h p ows' h' q (clear_mark _ _) m e = e
Move-owners t n ows h p ows' h' q (retry_clear _ _ _) m e = e

-- What holds of every state.
IsConsistent : State → Type 0
IsConsistent s =
    (owners s.threads ≡ one_if_locked s.locked) × AreApart s.threads × AreUnmarked s.ows s.threads

Step-IsConsistent : (s u : State) → Step s u → IsConsistent s → IsConsistent u
unfolding IsConsistent
Step-IsConsistent s u (by_thread before t p q after e f move) (k, a, m) =
    let a' = subst AreApart e a in
    let (nz, apart) = middle-AreApart before t p q after a' in
    let (own, unmarked) =
      middle-AreUnmarked s.ows u.ows before t p q after
        (Move-ows t s.ows s.locked p u.ows u.locked q move)
        (Move-IsUnmarked t s.ows s.locked p u.ows u.locked q move nz) a'
        (subst (AreUnmarked s.ows) e m) in
    (
      ap owners f
          ∙ owners-middle before t q after
          ∙ Move-owners t (owners before + owners after) s.ows s.locked p u.ows u.locked q move own
              (sym (owners-middle before t p after) ∙ sym (ap owners e) ∙ k),
      subst AreApart (sym f) apart,
      subst (AreUnmarked u.ows) (sym f) unmarked,
    )

-- Hashes that differ from each other, and from 0.
abbrev pub DifferFrom : ℕ → List ℕ → Type 0
DifferFrom t [] = Unit {0}
DifferFrom t (u ∷ us) = (t ≢ u) × DifferFrom t us

abbrev pub AreDistinct : List ℕ → Type 0
AreDistinct [] = Unit {0}
AreDistinct (t ∷ ts) = DifferFrom t ts × AreDistinct ts

initial-owners : (ts : List ℕ) → owners (all_outside ts) ≡ 0
unfolding all_outside owners has_mutex
initial-owners [] = refl
initial-owners (t ∷ ts) = omega (arith, initial-owners ts)

initial-AreOthers :
    (t : ℕ) (ts : List ℕ) → DifferFrom t ts → DifferFrom 0 ts → AreOthers t (all_outside ts)
unfolding all_outside
initial-AreOthers t [] d z = tt
initial-AreOthers t (u ∷ us) d z = (d.0, z.0, initial-AreOthers t us d.1 z.1)

initial-AreApart : (ts : List ℕ) → AreDistinct ts → DifferFrom 0 ts → AreApart (all_outside ts)
unfolding all_outside
initial-AreApart [] d z = tt
initial-AreApart (t ∷ ts) d z = (z.0, initial-AreOthers t ts d.0 z.1, initial-AreApart ts d.1 z.1)

initial-AreUnmarked : (ts : List ℕ) → DifferFrom 0 ts → AreUnmarked 0 (all_outside ts)
unfolding all_outside IsUnmarked
initial-AreUnmarked [] z = tt
initial-AreUnmarked (t ∷ ts) z = (z.0, initial-AreUnmarked ts z.1)

reachable-IsConsistent :
    (ts : List ℕ) (s : State)
    → AreDistinct ts
    → DifferFrom 0 ts
    → Steps (initial ts) s
    → IsConsistent s
unfolding IsConsistent initial
reachable-IsConsistent ts s d z done =
    (initial-owners ts, initial-AreApart ts d z, initial-AreUnmarked ts z)
reachable-IsConsistent ts s d z (then t _ before last) =
    Step-IsConsistent t s last (reachable-IsConsistent ts t d z before)

-- Of threads whose hashes differ from each other and from 0, at most one has the mutex in every state that they can
-- reach, whoever calls lock and unlock, and one has it just when it is locked: no unlock of a thread that does not
-- have the mutex passes the assertions.
pub mutual_exclusion :
    (ts : List ℕ) (s : State)
    → AreDistinct ts
    → DifferFrom 0 ts
    → Steps (initial ts) s
    → (owners s.threads ≤ 1) × (owners s.threads ≡ one_if_locked s.locked)
unfolding IsConsistent
mutual_exclusion ts s d z reach = bounded s.locked (reachable-IsConsistent ts s d z reach).0
  where
    bounded :
        (b : Bool)
        → owners s.threads ≡ one_if_locked b
        → (owners s.threads ≤ 1) × (owners s.threads ≡ one_if_locked b)
    bounded true e = (omega arith, e)
    bounded false e = (omega arith, e)
