-- ===== src/Network/ScopeRunner/Invariant.antt =====
-- The counter is the number of locks that are held, or -1 with none held; -1 is final.
use barbacoa_server_lib.Prelude.{
  ℕ, zero, suc, ◌+◌, ◌≡◌, ◌∙◌, ap, sym, refl, subst, List, [], ◌∷◌, ◌++◌, arith,
}
use barbacoa_server_lib.Network.ScopeRunner.{
  ℤ, pos, negsuc, fetch_sub, Thread, idle, locking, holding, refused, stopping, stopped, Move, load,
  acquire, retry_lock, give_up, release, call_stop, close, retry_stop, find_closed, after_refused,
  after_stopped, State, Step, by_thread, Steps, done, then, all_idle, initial,
}

unfoldable pub held : Thread → ℕ
held idle = 0
held (locking e) = 0
held holding = 1
held refused = 0
held stopping = 0
held stopped = 0

-- The shared locks that exist.
unfoldable pub holders : List Thread → ℕ
unfolding held
holders [] = 0
holders (p ∷ ps) = held p + holders ps

holders-append : (ps qs : List Thread) → holders (ps ++ qs) ≡ holders ps + holders qs
unfolding holders
holders-append [] qs = omega arith
holders-append (p ∷ ps) qs = omega (arith, holders-append ps qs)

holders-middle :
    (before : List Thread) (p : Thread) (after : List Thread)
    → holders (before ++ p ∷ after) ≡ (holders before + holders after) + held p
unfolding holders
holders-middle before p after = omega (arith, holders-append before (p ∷ after))

unfoldable pub Counts : ℤ → ℕ → Type 0
Counts (pos n) h = n ≡ h
Counts (negsuc zero) h = h ≡ 0
Counts (negsuc (suc n)) h = ⊥

-- The counter is the number of shared locks that exist, or it is -1 and there are none.
unfoldable pub IsConsistent : State → Type 0
IsConsistent s = Counts s.count (holders s.threads)

Move-Counts :
    (h : ℕ) (c : ℤ) (p : Thread) (d : ℤ) (q : Thread)
    → Move c p d q
    → Counts c (h + held p)
    → Counts d (h + held q)
unfolding Counts held fetch_sub
Move-Counts h c p d q (load _) k = k
Move-Counts h c p d q (acquire n) k = omega arith
Move-Counts h c p d q (retry_lock _ n) k = k
Move-Counts h c p d q (give_up _ n) k = k
Move-Counts h c p d q (release (pos zero)) k = absurd (omega arith)
Move-Counts h c p d q (release (pos (suc n))) k = omega arith
Move-Counts h c p d q (release (negsuc zero)) k = absurd (omega arith)
Move-Counts h c p d q (release (negsuc (suc n))) k = k
Move-Counts h c p d q (call_stop _) k = k
Move-Counts h c p d q close k = omega arith
Move-Counts h c p d q (retry_stop n) k = k
Move-Counts h c p d q (find_closed n) k = k
Move-Counts h c p d q (after_refused _) k = k
Move-Counts h c p d q (after_stopped _) k = k

Step-IsConsistent : (s t : State) → Step s t → IsConsistent s → IsConsistent t
unfolding IsConsistent
Step-IsConsistent s t (by_thread before p q after e f move) k =
    subst (Counts (t.count)) (sym (holders-middle before q after) ∙ ap holders (sym f)) (
      Move-Counts (holders before + holders after) (s.count) p (t.count) q move
        (subst (Counts (s.count)) (ap holders e ∙ holders-middle before p after) k))

initial-IsConsistent : (n : ℕ) → IsConsistent (initial n)
unfolding IsConsistent Counts initial all_idle holders held
initial-IsConsistent zero = refl
initial-IsConsistent (suc n) = omega (arith, initial-IsConsistent n)

-- In every state that any number of threads can reach, the counter is the number of shared locks
-- that exist, or it is -1 and there are none.
pub reachable-IsConsistent : (n : ℕ) (s : State) → Steps (initial n) s → IsConsistent s
reachable-IsConsistent n s done = initial-IsConsistent n
reachable-IsConsistent n s (then t _ before last) =
    Step-IsConsistent t s last (reachable-IsConsistent n t before)

Move-closed :
    (c : ℤ) (p : Thread) (d : ℤ) (q : Thread) (h : ℕ)
    → Move c p d q
    → Counts c (h + held p)
    → c ≡ negsuc 0
    → d ≡ negsuc 0
unfolding Counts held fetch_sub
Move-closed c p d q h (load _) k e = e
Move-closed c p d q h (acquire n) k e = cc
Move-closed c p d q h (retry_lock _ n) k e = e
Move-closed c p d q h (give_up _ n) k e = e
Move-closed c p d q h (release (pos zero)) k e = absurd (omega arith)
Move-closed c p d q h (release (pos (suc n))) k e = cc
Move-closed c p d q h (release (negsuc zero)) k e = absurd (omega arith)
Move-closed c p d q h (release (negsuc (suc n))) k e = absurd k
Move-closed c p d q h (call_stop _) k e = e
Move-closed c p d q h close k e = refl
Move-closed c p d q h (retry_stop n) k e = e
Move-closed c p d q h (find_closed n) k e = e
Move-closed c p d q h (after_refused _) k e = e
Move-closed c p d q h (after_stopped _) k e = e

closed-holders : (s : State) → IsConsistent s → s.count ≡ negsuc 0 → holders s.threads ≡ 0
unfolding IsConsistent Counts
closed-holders s k e = subst (λ c. Counts c (holders s.threads)) e k

Step-closed : (s t : State) → Step s t → IsConsistent s → s.count ≡ negsuc 0 → t.count ≡ negsuc 0
unfolding IsConsistent
Step-closed s t (by_thread before p q after e f move) k h =
    Move-closed (s.count) p (t.count) q (holders before + holders after) move
      (subst (Counts (s.count)) (ap holders e ∙ holders-middle before p after) k) h

-- Once stop() has set the counter, from a reachable state on, it stays -1 and no thread has a
-- shared lock, whatever the threads then do.
pub stopped_forever :
    (n : ℕ) (s t : State)
    → Steps (initial n) s
    → s.count ≡ negsuc 0
    → Steps s t
    → (t.count ≡ negsuc 0) × (holders t.threads ≡ 0)
stopped_forever n s t reach h later =
    let result = stays later in (result.1, closed-holders t result.0 result.1)
  where
    stays : {u : State} → Steps s u → IsConsistent u × (u.count ≡ negsuc 0)
    stays done = (reachable-IsConsistent n s reach, h)
    stays (then v u before last) =
        let was = stays before in
        (Step-IsConsistent v u last was.0, Step-closed v u last was.0 was.1)
