-- ===== src/ProtectedMutex/Marks.antt =====
-- What the mark says of the threads (include/server_lib/protected_mutex.h).
use barbacoa_server_lib.Prelude.{
  ℕ, ◌≡◌, ◌≢◌, sym, refl, subst, ◌⊎◌, inl, inr, Bool, List, [], ◌∷◌, ◌++◌,
}
use barbacoa_server_lib.ProtectedMutex.{
  Thread, intruding, refuse_lock, pass_unlock, unlock_foreign, refuse_again, lock_failed,
  check_again, refuse_failed, outside, locking, owning, inside, unlocking, clearing, failed, stuck,
  Move, check_lock, refuse_relock, lock_again, lock_mutex, store_mark, refuse_foreign, check_unlock,
  refuse_unlock, unlock_mutex, clear_mark, retry_clear,
}

-- What the mark says of a thread: it is not the thread's own hash before the thread has the mutex.
unfoldable pub IsUnmarked : ℕ → ℕ → Thread → Type 0
IsUnmarked ows t outside = ows ≢ t
IsUnmarked ows t locking = ows ≢ t
IsUnmarked ows t owning = ows ≢ t
IsUnmarked ows t inside = Unit {0}
IsUnmarked ows t unlocking = Unit {0}
IsUnmarked ows t (clearing e) = Unit {0}
IsUnmarked ows t failed = Unit {0}
IsUnmarked ows t stuck = Unit {0}
IsUnmarked ows t intruding = ⊥

abbrev pub AreUnmarked : ℕ → List (ℕ × Thread) → Type 0
AreUnmarked ows [] = Unit {0}
AreUnmarked ows ((t, p) ∷ ps) = IsUnmarked ows t p × AreUnmarked ows ps

-- No hash of the list is `t` or 0.
abbrev pub AreOthers : ℕ → List (ℕ × Thread) → Type 0
AreOthers t [] = Unit {0}
AreOthers t ((u, p) ∷ ps) = (t ≢ u) × (0 ≢ u) × AreOthers t ps

-- What `t` is to the list is what every element is to it.
abbrev pub AreApart : List (ℕ × Thread) → Type 0
AreApart [] = Unit {0}
AreApart ((t, p) ∷ ps) = (0 ≢ t) × AreOthers t ps × AreApart ps

-- The thread that moves stays as the mark says.
pub Move-IsUnmarked :
    (t : ℕ) (ows : ℕ) (h : Bool) (p : Thread) (ows' : ℕ) (h' : Bool) (q : Thread)
    → Move t ows h p ows' h' q
    → 0 ≢ t
    → IsUnmarked ows t p
    → IsUnmarked ows' t q
unfolding IsUnmarked
Move-IsUnmarked t ows h p ows' h' q (check_lock _ _ x) nz m = x
Move-IsUnmarked t ows h p ows' h' q (refuse_relock _) nz m = tt
Move-IsUnmarked t ows h p ows' h' q (lock_again _ _ x) nz m = tt
Move-IsUnmarked t ows h p ows' h' q (lock_mutex _) nz m = m
Move-IsUnmarked t ows h p ows' h' q (store_mark _ _) nz m = tt
Move-IsUnmarked t ows h p ows' h' q (refuse_foreign _ _ x) nz m = x
Move-IsUnmarked t ows h p ows' h' q (check_unlock _) nz m = tt
Move-IsUnmarked t ows h p ows' h' q (refuse_unlock _ _ x) nz m = tt
Move-IsUnmarked t ows h p ows' h' q (refuse_lock _) nz m = m
Move-IsUnmarked t ows h p ows' h' q (pass_unlock _) nz m = m refl
Move-IsUnmarked t ows h p ows' h' q (unlock_foreign _ _) nz m = tt
Move-IsUnmarked t ows h p ows' h' q (refuse_again _ _ x) nz m = tt
Move-IsUnmarked t ows h p ows' h' q (lock_failed _ _ x) nz m = tt
Move-IsUnmarked t ows h p ows' h' q (check_again _) nz m = tt
Move-IsUnmarked t ows h p ows' h' q (refuse_failed _) nz m = tt
Move-IsUnmarked t ows h p ows' h' q (unlock_mutex _ _) nz m = tt
Move-IsUnmarked t ows h p ows' h' q (clear_mark _ _) nz m = nz
Move-IsUnmarked t ows h p ows' h' q (retry_clear _ _ _) nz m = tt

-- A move leaves the mark, or sets it to the hash of its thread or to 0.
pub Move-ows :
    (t : ℕ) (ows : ℕ) (h : Bool) (p : Thread) (ows' : ℕ) (h' : Bool) (q : Thread)
    → Move t ows h p ows' h' q
    → (ows ≡ ows') ⊎ ((t ≡ ows') ⊎ (0 ≡ ows'))
Move-ows t ows h p ows' h' q (check_lock _ _ x) = inl refl
Move-ows t ows h p ows' h' q (refuse_relock _) = inl refl
Move-ows t ows h p ows' h' q (lock_again _ _ x) = inl refl
Move-ows t ows h p ows' h' q (lock_mutex _) = inl refl
Move-ows t ows h p ows' h' q (store_mark _ _) = inr (inl refl)
Move-ows t ows h p ows' h' q (refuse_foreign _ _ x) = inl refl
Move-ows t ows h p ows' h' q (check_unlock _) = inl refl
Move-ows t ows h p ows' h' q (refuse_unlock _ _ x) = inl refl
Move-ows t ows h p ows' h' q (refuse_lock _) = inl refl
Move-ows t ows h p ows' h' q (pass_unlock _) = inl refl
Move-ows t ows h p ows' h' q (unlock_foreign _ _) = inl refl
Move-ows t ows h p ows' h' q (refuse_again _ _ x) = inl refl
Move-ows t ows h p ows' h' q (lock_failed _ _ x) = inl refl
Move-ows t ows h p ows' h' q (check_again _) = inl refl
Move-ows t ows h p ows' h' q (refuse_failed _) = inl refl
Move-ows t ows h p ows' h' q (unlock_mutex _ _) = inl refl
Move-ows t ows h p ows' h' q (clear_mark _ _) = inr (inr refl)
Move-ows t ows h p ows' h' q (retry_clear _ _ _) = inl refl

foreign-IsUnmarked :
    (ows ows' u : ℕ) (p : Thread) → ows' ≢ u → IsUnmarked ows u p → IsUnmarked ows' u p
unfolding IsUnmarked
foreign-IsUnmarked ows ows' u outside x m = x
foreign-IsUnmarked ows ows' u locking x m = x
foreign-IsUnmarked ows ows' u owning x m = x
foreign-IsUnmarked ows ows' u inside x m = tt
foreign-IsUnmarked ows ows' u unlocking x m = tt
foreign-IsUnmarked ows ows' u (clearing e) x m = tt
foreign-IsUnmarked ows ows' u failed x m = tt
foreign-IsUnmarked ows ows' u stuck x m = tt
foreign-IsUnmarked ows ows' u intruding x m = m

others-AreUnmarked :
    (t ows ows' : ℕ) (ps : List (ℕ × Thread))
    → (ows ≡ ows') ⊎ ((t ≡ ows') ⊎ (0 ≡ ows'))
    → AreOthers t ps
    → AreUnmarked ows ps
    → AreUnmarked ows' ps
others-AreUnmarked t ows ows' [] to o m = tt
others-AreUnmarked t ows ows' ((u, p) ∷ ps) (inl e) o m =
    subst (λ w. AreUnmarked w ((u, p) ∷ ps)) e m
others-AreUnmarked t ows ows' ((u, p) ∷ ps) (inr (inl e)) o m = (
  foreign-IsUnmarked ows ows' u p (subst (λ w. w ≢ u) e o.0) m.0,
  others-AreUnmarked t ows ows' ps (inr (inl e)) o.2 m.1,
)
others-AreUnmarked t ows ows' ((u, p) ∷ ps) (inr (inr e)) o m = (
  foreign-IsUnmarked ows ows' u p (subst (λ w. w ≢ u) e o.1) m.0,
  others-AreUnmarked t ows ows' ps (inr (inr e)) o.2 m.1,
)

AreOthers-middle :
    (u : ℕ) (before : List (ℕ × Thread)) (t : ℕ) (p q : Thread) (after : List (ℕ × Thread))
    → AreOthers u (before ++ (t, p) ∷ after)
    → (u ≢ t) × AreOthers u (before ++ (t, q) ∷ after)
AreOthers-middle u [] t p q after o = (o.0, o)
AreOthers-middle u ((v, r) ∷ before) t p q after o =
    let rest = AreOthers-middle u before t p q after o.2 in (rest.0, (o.0, o.1, rest.1))

-- A thread moves where the hashes are apart.
pub middle-AreApart :
    (before : List (ℕ × Thread)) (t : ℕ) (p q : Thread) (after : List (ℕ × Thread))
    → AreApart (before ++ (t, p) ∷ after)
    → (0 ≢ t) × AreApart (before ++ (t, q) ∷ after)
middle-AreApart [] t p q after a = (a.0, a)
middle-AreApart ((v, r) ∷ before) t p q after a =
    let rest = middle-AreApart before t p q after a.2 in
    (rest.0, (a.0, (AreOthers-middle v before t p q after a.1).1, rest.1))

-- The threads before and after the one that moves, and that one.
pub middle-AreUnmarked :
    (ows ows' : ℕ) (before : List (ℕ × Thread)) (t : ℕ) (p q : Thread) (after : List (ℕ × Thread))
    → (ows ≡ ows') ⊎ ((t ≡ ows') ⊎ (0 ≡ ows'))
    → (IsUnmarked ows t p → IsUnmarked ows' t q)
    → AreApart (before ++ (t, p) ∷ after)
    → AreUnmarked ows (before ++ (t, p) ∷ after)
    → IsUnmarked ows t p × AreUnmarked ows' (before ++ (t, q) ∷ after)
middle-AreUnmarked ows ows' [] t p q after to own a m =
    (m.0, (own m.0, others-AreUnmarked t ows ows' after to a.1 m.1))
middle-AreUnmarked ows ows' ((v, r) ∷ before) t p q after to own a m =
    let rest = middle-AreUnmarked ows ows' before t p q after to own a.2 m.1 in
    let apart = (AreOthers-middle v before t p q after a.1).0 in
    (
      rest.0,
      (
        (others-AreUnmarked t ows ows' ((v, r) ∷ []) to ((λ e. apart (sym e)), a.0, tt)
            (m.0, tt)).0,
        rest.1,
      ),
    )
