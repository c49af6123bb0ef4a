-- ===== src/EventPool/Started.antt =====
-- The pool reports its start when all of its threads have begun (src/event_pool.cpp).
use barbacoa_server_lib.Prelude.{
  ℕ, ◌+◌, ◌<◌, ◌≤◌, ◌≡◌, refl, Bool, true, false, ◌||◌, [], ◌∷◌, length, length-append, ◌==◌, arith,
  ap, ◌⊎◌, inl, inr, Bool-cases, ◌∙◌, ==_iff,
}
use barbacoa_server_lib.EventPool.{
  EventPool, new_event_pool, start, emplace_thread, emplace_id, arrive, take_callback, exchange,
  stop, join, clear_ids, clear_threads, reset, by_clear_ids, by_clear_threads, by_reset, Stop,
  is_stopping, has_threads, Step, by_start, by_loop, by_thread, by_arrival, by_taking, by_exchange,
  by_stop, by_join, Steps, done,
}

or_left : (a b : Bool) → a ≡ true → a || b ≡ true
or_left true b h = refl
or_left false b h = absurd (cc)

or_right : (a b : Bool) → b ≡ true → a || b ≡ true
or_right true b h = refl
or_right false b h = h

nobody_stops : (a : Bool) (z : Stop) → a || is_stopping z ≡ false → has_threads z ≡ true
nobody_stops a Stop.outside h = refl
nobody_stops a Stop.joining h = refl
nobody_stops a Stop.joined h = absurd (cc (or_right a true refl))
nobody_stops a Stop.ids_cleared h = absurd (cc (or_right a true refl))
nobody_stops a Stop.threads_cleared h = absurd (cc (or_right a true refl))

-- Between `stop` and `start`.
IsAtRest : EventPool → Type 0
IsAtRest p =
    (p.threads ≡ 0)
    × (length p.thread_ids ≡ 0)
    × (p.arrived ≡ 0)
    × (p.is_run ≡ false)
    × (p.spinning ≡ false)
    × (p.is_running || is_stopping p.stopping ≡ false)

-- From `start` on, until the threads have been joined.
IsActive : EventPool → Type 0
IsActive p =
    (p.waiting_threads + p.arrived ≡ p.nb_threads)
    × (p.arrived ≤ length p.thread_ids)
    × (length p.thread_ids ≤ p.threads)
    × (p.threads ≤ p.nb_threads)
    × (p.is_run ≡ true → p.arrived ≡ p.nb_threads)
    × (p.is_running || is_stopping p.stopping ≡ true)
    × (has_threads p.stopping ≡ true)

-- From the joins to the end of `stop`.
IsJoined : EventPool → Type 0
IsJoined p =
    (p.is_running ≡ false)
    × (p.spinning ≡ false)
    × (has_threads p.stopping ≡ false)
    × (is_stopping p.stopping ≡ true)
    × (p.stopping ≡ Stop.ids_cleared → length p.thread_ids ≡ 0)
    × (p.stopping ≡ Stop.threads_cleared → (length p.thread_ids ≡ 0) × (p.threads ≡ 0))

IsConsistent : EventPool → Type 0
IsConsistent p = (p.nb_threads < 256) × (IsAtRest p ⊎ (IsActive p ⊎ IsJoined p))

exchange-IsConsistent :
    (fails : Bool) (p : EventPool)
    → p.nb_threads < 256
    → IsActive p
    → IsConsistent (exchange fails p)
unfolding IsConsistent IsActive exchange
exchange-IsConsistent fails p b (w, a, n, t, r, i, j) = elim (Bool-cases (p.waiting_threads == 0)) [
  | inl e ↦ elim (Bool-cases fails) [
    | inl f ↦ rw (e, f) (b, inr (inl (w, a, n, t, r, i, j)))
    | inr f ↦
        rw (e, f)
          (
            b,
            inr (inl (w, a, n, t, (λ _. omega (arith, w, (==_iff p.waiting_threads 0).0 e)), i, j)),
          )
  ]
  | inr e ↦ rw e (b, inr (inl (w, a, n, t, r, i, j)))
]

step-IsConsistent : (p q : EventPool) → Step p q → IsConsistent p → IsConsistent q
unfolding IsConsistent IsAtRest IsActive IsJoined start emplace_thread emplace_id arrive
    take_callback exchange stop join clear_ids clear_threads reset
step-IsConsistent p q (by_start _ h) (b, inl (t, n, a, r, s, i)) = (
  b,
  inr (
      inl (
        omega arith,
        omega arith,
        omega arith,
        omega arith,
        (λ e. absurd (cc)),
        refl,
        nobody_stops p.is_running p.stopping h,
      )),
)
step-IsConsistent p q (by_start _ h) (b, inr (inl (w, a, n, t, r, i, j))) = absurd (cc)
step-IsConsistent p q (by_start _ h) (b, inr (inr (i, s, j, k, l, m))) =
    absurd (cc (or_right p.is_running (is_stopping p.stopping) k))
step-IsConsistent p q (by_loop _ h k) (b, inl (t, n, a, r, s, i)) =
    absurd (cc (or_left p.is_running (is_stopping p.stopping) h))
step-IsConsistent p q (by_loop _ h k) (b, inr (inl (w, a, n, t, r, i, j))) =
    (b, inr (inl (w, a, omega arith, omega arith, r, i, j)))
step-IsConsistent p q (by_loop _ h k) (b, inr (inr (i, s, j, z, l, m))) = absurd (cc)
step-IsConsistent p q (by_thread id _ g h) (b, inl (t, n, a, r, s, i)) = absurd (omega arith)
step-IsConsistent p q (by_thread id _ g h) (b, inr (inl (w, a, n, t, r, i, j))) = (
  b,
  inr (
      inl (
        w,
        omega (arith, length-append {0} p.thread_ids (id ∷ [])),
        omega (arith, length-append {0} p.thread_ids (id ∷ [])),
        t,
        r,
        i,
        j,
      )),
)
step-IsConsistent p q (by_thread id _ g h) (b, inr (inr (i, s, j, k, l, m))) = absurd (cc)
step-IsConsistent p q (by_arrival _ g h) (b, inl (t, n, a, r, s, i)) = absurd (omega arith)
step-IsConsistent p q (by_arrival _ g h) (b, inr (inl (w, a, n, t, r, i, j))) =
    (b, inr (inl (omega arith, omega arith, n, t, (λ e. absurd (omega (arith, r e))), i, j)))
step-IsConsistent p q (by_arrival _ g h) (b, inr (inr (i, s, j, k, l, m))) = absurd (cc)
step-IsConsistent p q (by_taking _ h k e) (b, inl (t, n, a, r, s, i)) = absurd (omega arith)
step-IsConsistent p q (by_taking _ h k e) (b, inr (inl active)) = (b, inr (inl active))
step-IsConsistent p q (by_taking _ h k e) (b, inr (inr (i, s, j, z, l, m))) = absurd (cc)
step-IsConsistent p q (by_exchange fails _ h) (b, inl (t, n, a, r, s, i)) = absurd (cc)
step-IsConsistent p q (by_exchange fails _ h) (b, inr (inl active)) =
    exchange-IsConsistent fails p b active
step-IsConsistent p q (by_exchange fails _ h) (b, inr (inr (i, s, j, z, l, m))) = absurd (cc)
step-IsConsistent p q (by_stop _ h k) (b, inl (t, n, a, r, s, i)) =
    absurd (cc (or_left p.is_running (is_stopping p.stopping) h))
step-IsConsistent p q (by_stop _ h k) (b, inr (inl (w, a, n, t, r, i, j))) =
    (b, inr (inl (w, a, n, t, r, refl, refl)))
step-IsConsistent p q (by_stop _ h k) (b, inr (inr (i, s, j, z, l, m))) = absurd (cc)
step-IsConsistent p q (by_join _ h k e s) (b, rest) =
    (b, inr (inr (h, s, refl, refl, (λ x. absurd (cc)), (λ x. absurd (cc)))))
step-IsConsistent p q (by_clear_ids _ h) (b, inl (t, n, a, r, s, i)) =
    absurd (cc (or_right p.is_running (is_stopping p.stopping) (ap is_stopping h)))
step-IsConsistent p q (by_clear_ids _ h) (b, inr (inl (w, a, n, t, r, i, j))) =
    absurd (cc (ap has_threads h))
step-IsConsistent p q (by_clear_ids _ h) (b, inr (inr (i, s, j, k, l, m))) =
    (b, inr (inr (i, s, refl, refl, (λ x. refl), (λ x. absurd (cc)))))
step-IsConsistent p q (by_clear_threads _ h) (b, inl (t, n, a, r, s, i)) =
    absurd (cc (or_right p.is_running (is_stopping p.stopping) (ap is_stopping h)))
step-IsConsistent p q (by_clear_threads _ h) (b, inr (inl (w, a, n, t, r, i, j))) =
    absurd (cc (ap has_threads h))
step-IsConsistent p q (by_clear_threads _ h) (b, inr (inr (i, s, j, k, l, m))) =
    (b, inr (inr (i, s, refl, refl, (λ x. absurd (cc)), (λ x. (l h, refl)))))
step-IsConsistent p q (by_reset _ h) (b, inl (t, n, a, r, s, i)) =
    (b, inl (t, n, refl, refl, s, refl))
step-IsConsistent p q (by_reset _ h) (b, inr (inl (w, a, n, t, r, i, j))) =
    absurd (cc (ap has_threads h))
step-IsConsistent p q (by_reset _ h) (b, inr (inr (i, s, j, k, l, m))) =
    (b, inl ((m h).1, (m h).0, refl, refl, s, refl))

exchange-nb_threads : (fails : Bool) (p : EventPool) → (exchange fails p).nb_threads ≡ p.nb_threads
unfolding exchange
exchange-nb_threads fails p = elim (Bool-cases (p.waiting_threads == 0)) [
  | inl e ↦ elim (Bool-cases fails) [ inl f ↦ rw (e, f) refl | inr f ↦ rw (e, f) refl ]
  | inr e ↦ rw e refl
]

step-nb_threads : (p q : EventPool) → Step p q → q.nb_threads ≡ p.nb_threads
unfolding start emplace_thread emplace_id arrive take_callback stop join clear_ids clear_threads
    reset
step-nb_threads p q (by_start _ h) = refl
step-nb_threads p q (by_loop _ h k) = refl
step-nb_threads p q (by_thread id _ g h) = refl
step-nb_threads p q (by_arrival _ g h) = refl
step-nb_threads p q (by_taking _ h k e) = refl
step-nb_threads p q (by_exchange fails _ h) = exchange-nb_threads fails p
step-nb_threads p q (by_stop _ h k) = refl
step-nb_threads p q (by_join _ h k e s) = refl
step-nb_threads p q (by_clear_ids _ h) = refl
step-nb_threads p q (by_clear_threads _ h) = refl
step-nb_threads p q (by_reset _ h) = refl

reachable-nb_threads : (n : ℕ) (p : EventPool) → Steps (new_event_pool n) p → p.nb_threads ≡ n
unfolding new_event_pool
reachable-nb_threads n p done = refl
reachable-nb_threads n p (Steps.then q _ before last) =
    step-nb_threads q p last ∙ reachable-nb_threads n q before

reachable-IsConsistent :
    (n : ℕ) (p : EventPool) → n < 256 → Steps (new_event_pool n) p → IsConsistent p
unfolding IsConsistent IsAtRest new_event_pool
reachable-IsConsistent n p b done = (b, inl (refl, refl, refl, refl, refl, refl))
reachable-IsConsistent n p b (Steps.then q _ before last) =
    step-IsConsistent q p last (reachable-IsConsistent n q b before)

-- Whenever a pool that was made with n threads, fewer than 256, has both is_running() and is_run() set, which is
-- from the report of its start until it is stopped, in whatever order its threads moved and however often it was
-- started and stopped before: n threads have been made, n have counted _waiting_threads down, and there are n
-- ids among the _thread_ids.
pub started_when_all_arrived :
    (n : ℕ) (p : EventPool)
    → n < 256
    → Steps (new_event_pool n) p
    → p.is_running ≡ true
    → p.is_run ≡ true
    → (p.arrived ≡ n) × (length p.thread_ids ≡ n) × (p.threads ≡ n)
unfolding IsConsistent IsAtRest IsActive IsJoined
started_when_all_arrived n p b steps up h =
    let same = reachable-nb_threads n p steps in
    elim (reachable-IsConsistent n p b steps).1 [
      | inl (t, l, a, r, s, i) ↦ absurd (cc)
      | inr (inl (w, a, l, t, r, i, j)) ↦
          (omega (arith, same, r h), omega (arith, same, r h), omega (arith, same, r h))
      | inr (inr (i, s, j, k, l, m)) ↦ absurd (cc)
    ]
