-- ===== src/Network/Server/Table.antt =====
-- Which connections the table holds after any calls.
use barbacoa_server_lib.Prelude.{
  ℕ, ◌+◌, ◌≤◌, ◌≡◌, ◌∙◌, ap, refl, Bool, true, false, List, [], ◌∷◌, ◌==◌, if◌then◌else◌, arith,
  Bool-cases, inl, inr,
}
use barbacoa_server_lib.Network.Server.{
  Server, is_running, start_impl, emplace, erase, on_new_client, on_client_disconnected, clear,
  stop, Call, start, new_client, client_disconnected, stop_server, handle, handle_all, initial,
}

abbrev pub one_if : Bool → ℕ
one_if true = 1
one_if false = 0

-- How often an id is in the table.
unfoldable pub times : ℕ → List ℕ → ℕ
times id [] = 0
times id (x ∷ xs) = one_if (x == id) + times id xs

-- The view from outside: whether the server runs, and whether the connection is there.
abbrev pub View : Type 0
View = Bool × Bool

unfoldable pub view_of : ℕ → Call → View → View
view_of id (start started) (running, here) = (if running then true else started, here)
view_of id (new_client i) (running, here) =
    (running, if running then (if i == id then true else here) else here)
view_of id (client_disconnected i) (running, here) = (running, if i == id then false else here)
view_of id (stop_server wait) (running, here) = (false, if running then false else here)

unfoldable pub view_of_all : ℕ → List Call → View → View
view_of_all id [] v = v
view_of_all id (c ∷ cs) v = view_of_all id cs (view_of id c v)

times-emplace_other :
    (id i : ℕ) (xs : List ℕ) → (i == id) ≡ false → times id (emplace i xs) ≡ times id xs
unfolding times emplace
times-emplace_other id i [] h = rw h refl
times-emplace_other id i (x ∷ xs) h = elim (Bool-cases (x == i)) [
  | inl k ↦ rw k refl
  | inr k ↦ rw k (omega (arith, times-emplace_other id i xs h))
]

times-emplace : (id : ℕ) (xs : List ℕ) → times id xs ≤ 1 → times id (emplace id xs) ≡ 1
unfolding times emplace
times-emplace id [] h = ground arith
times-emplace id (x ∷ xs) h = elim (Bool-cases (x == id)) [
  | inl k ↦ rw k (omega (arith, ap one_if k))
  | inr k ↦ rw k (omega (arith, ap one_if k, times-emplace id xs (omega (arith, ap one_if k))))
]

same_or_not : (x i id : ℕ) → (x == i) ≡ true → (i == id) ≡ false → (x == id) ≡ false
same_or_not x i id h k = ground arith

times-erase_other :
    (id i : ℕ) (xs : List ℕ) → (i == id) ≡ false → times id (erase i xs) ≡ times id xs
unfolding times erase
times-erase_other id i [] h = refl
times-erase_other id i (x ∷ xs) h = elim (Bool-cases (x == i)) [
  | inl k ↦ rw k (omega (arith, ap one_if (same_or_not x i id k h)))
  | inr k ↦ rw k (omega (arith, times-erase_other id i xs h))
]

times-erase : (id : ℕ) (xs : List ℕ) → times id xs ≤ 1 → times id (erase id xs) ≡ 0
unfolding times erase
times-erase id [] h = refl
times-erase id (x ∷ xs) h = elim (Bool-cases (x == id)) [
  | inl k ↦ rw k (omega (arith, ap one_if k))
  | inr k ↦ rw k (omega (arith, ap one_if k, times-erase id xs (omega (arith, ap one_if k))))
]

-- The table and the view agree.
abbrev Agrees : ℕ → Server → View → Type 0
Agrees id s v = (is_running s ≡ v.0) × (times id s.connections ≡ one_if v.1)

==→≡ : (i id : ℕ) → (i == id) ≡ true → i ≡ id
==→≡ i id h = ground arith

at_most_one : (id : ℕ) (xs : List ℕ) (here : Bool) → times id xs ≡ one_if here → times id xs ≤ 1
at_most_one id xs true h = omega arith
at_most_one id xs false h = omega arith

handle-Agrees :
    (id : ℕ) (c : Call) (s : Server) (running here : Bool)
    → Agrees id s (running, here)
    → Agrees id (handle c s) (view_of id c (running, here))
unfolding handle view_of start_impl on_new_client on_client_disconnected stop clear is_running times
handle-Agrees id (start started) s true here h = rw (h.0) h
handle-Agrees id (start started) s false here h = rw (h.0) (refl, h.1)
handle-Agrees id (new_client i) s false here h = rw (h.0) h
handle-Agrees id (new_client i) s true here h = elim (Bool-cases (i == id)) [
  | inl k ↦
      rw (h.0, k, ==→≡ i id k)
        (h.0, times-emplace id s.connections (at_most_one id s.connections here h.1))
  | inr k ↦ rw (h.0, k) (h.0, times-emplace_other id i s.connections k ∙ h.1)
]
handle-Agrees id (client_disconnected i) s running here h = elim (Bool-cases (i == id)) [
  | inl k ↦
      rw (k, ==→≡ i id k)
        (h.0, times-erase id s.connections (at_most_one id s.connections here h.1))
  | inr k ↦ rw k (h.0, times-erase_other id i s.connections k ∙ h.1)
]
handle-Agrees id (stop_server true) s true here h = rw (h.0) (refl, refl)
handle-Agrees id (stop_server false) s true here h = rw (h.0) (refl, refl)
handle-Agrees id (stop_server wait) s false here h = rw (h.0) h

handle_all-Agrees :
    (id : ℕ) (cs : List Call) (s : Server) (v : View)
    → Agrees id s v
    → Agrees id (handle_all cs s) (view_of_all id cs v)
unfolding handle_all view_of_all
handle_all-Agrees id [] s v h = h
handle_all-Agrees id (c ∷ cs) s v h =
    handle_all-Agrees id cs (handle c s) (view_of id c v) (handle-Agrees id c s v.0 v.1 h)

-- After any calls, in any order, the server runs just as its view says, and the table holds an id once if
-- the view has it, and not at all otherwise: a client is there from its report to a server that runs until
-- its disconnect or a stop of the running server.
pub table_follows :
    (id : ℕ) (cs : List Call)
    → (is_running (handle_all cs initial) ≡ (view_of_all id cs (false, false)).0)
      × (times id (handle_all cs initial).connections ≡ one_if (view_of_all id cs (false, false)).1)
unfolding initial is_running times
table_follows id cs = handle_all-Agrees id cs initial (false, false) (refl, refl)
