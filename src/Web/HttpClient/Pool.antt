-- ===== src/Web/HttpClient/Pool.antt =====
-- The connections of http_client_base_impl (src/network/web/http_client_impl.h): get_connection, the callback
-- of a session, and the reconnect after a failed read of a header. An unordered_set is the list of its
-- elements, in the order in which it is iterated.
use barbacoa_server_lib.Prelude.{
  ℕ, suc, ◌-◌, ◌≤◌, ◌≡◌, sym, subst, Bool, true, false, not, ◌&&◌, List, [], ◌∷◌, Option, none,
  some, ltb, ◌==◌, if◌then◌else◌, arith, Bool-cases, Option-cases, inl, inr,
}

pub record Connection : Type 0 where
  pub id : ℕ
  pub in_use : Bool
  pub attempt_reconnect : Bool

-- `next` is the identity of the connection that create_connection makes next.
pub record Pool : Type 0 where
  pub connections : List Connection
  pub next : ℕ

unfoldable pub new_pool : Pool
new_pool = record { connections = []; next = 0 }

abbrev pub behind : Connection → Option (ℕ × List Connection) → Option (ℕ × List Connection)
behind c none = none
behind c (some (id, cs)) = some (id, c ∷ cs)

-- The loop of `get_connection`: the first one that is not in use is taken.
unfoldable pub take_idle : List Connection → Option (ℕ × List Connection)
take_idle [] = none
take_idle (c ∷ cs) =
    let rest = behind c (take_idle cs) in
    if not c.in_use
    then some (c.id, record c { in_use = true; attempt_reconnect = true } ∷ cs)
    else rest

-- `create_connection` and `emplace`.
unfoldable pub create : Bool → Pool → ℕ × Pool
create attempt p = (
  p.next,
  record {
    connections =
        record { id = p.next; in_use = true; attempt_reconnect = attempt } ∷ p.connections;
    next = suc p.next;
  },
)

abbrev pub or_create : Pool → Option (ℕ × List Connection) → ℕ × Pool
or_create p none = create true p
or_create p (some (id, cs)) = (id, record p { connections = cs })

unfoldable pub get_connection : Pool → ℕ × Pool
unfolding take_idle create
get_connection p = or_create p (take_idle p.connections)

-- `connection->in_use = false`
unfoldable pub release : ℕ → List Connection → List Connection
release id [] = []
release id (c ∷ cs) = (if c.id == id then record c { in_use = false } else c) ∷ release id cs

-- The loop that removes unused connections, but keeps one; `failed` is an error of the session.
unfoldable pub remove_unused : Bool → ℕ → ℕ → List Connection → List Connection
remove_unused failed id unused_connections [] = []
remove_unused failed id unused_connections (c ∷ cs) =
    let same = remove_unused failed id unused_connections cs in
    let more = remove_unused failed id (suc unused_connections) cs in
    if failed && c.id == id
    then same
    else (if c.in_use
        then c ∷ same
        else (if ltb 1 (suc unused_connections) then more else c ∷ more))

-- `session->callback`
unfoldable pub finish : Bool → ℕ → Pool → Pool
unfolding release remove_unused
finish failed id p = record p { connections = remove_unused failed id 0 (release id p.connections) }

abbrev pub attempts : Option Connection → Bool
attempts none = false
attempts (some c) = c.attempt_reconnect

unfoldable pub find : ℕ → List Connection → Option Connection
find id [] = none
find id (c ∷ cs) = let rest = find id cs in if c.id == id then some c else rest

unfoldable pub erase : ℕ → List Connection → List Connection
erase id [] = []
erase id (c ∷ cs) = let rest = c ∷ erase id cs in if c.id == id then cs else rest

-- A failed read of a header: the session goes on with a new connection, or ends. A connection that is in the
-- set attempts a reconnect by its flag; one that is not ends the session in either case.
unfoldable pub on_read_failed : Bool → ℕ → Pool → Option ℕ × Pool
unfolding find erase create finish
on_read_failed aborted id p =
    let made = create false (record p { connections = erase id p.connections }) in
    let again : Option ℕ × Pool = (some made.0, made.1) in
    if attempts (find id p.connections) && not aborted then again else (none, finish true id p)

-- How many are not in use.
unfoldable pub idle : List Connection → ℕ
idle [] = 0
idle (c ∷ cs) = if c.in_use then idle cs else suc (idle cs)

-- What a client does with its connections.
pub data Event : Type 0 where
  request : Event
  ended : (failed : Bool) → (id : ℕ) → Event
  read_failed : (aborted : Bool) → (id : ℕ) → Event

unfoldable pub step : Event → Pool → Pool
unfolding get_connection finish on_read_failed
step Event.request p = (get_connection p).1
step (Event.ended failed id) p = finish failed id p
step (Event.read_failed aborted id) p = (on_read_failed aborted id p).1

unfoldable pub run : List Event → Pool
unfolding step new_pool
run [] = new_pool
run (e ∷ events) = step e (run events)

remove_unused-idle :
    (failed : Bool) (id n : ℕ) (cs : List Connection) → idle (remove_unused failed id n cs) ≤ 1 - n
unfolding remove_unused idle
remove_unused-idle failed id n [] = omega arith
remove_unused-idle failed id n (c ∷ cs) =
    let same = remove_unused-idle failed id n cs in
    let more = remove_unused-idle failed id (suc n) cs in
    elim (Bool-cases (failed && c.id == id)) [
      | inl e ↦ rw e same
      | inr e ↦ elim (Bool-cases c.in_use) [
        | inl u ↦ rw (e, u) same
        | inr u ↦ elim (Bool-cases (ltb 1 (suc n))) [
          | inl l ↦ rw (e, u, l) (omega (arith, more))
          | inr l ↦ let z : n ≡ 0 = ground arith in rw (e, u, l) (omega (arith, more, z))
        ]
      ]
    ]

-- What is taken leaves no more of them.
abbrev Fits : List Connection → Option (ℕ × List Connection) → Type 0
Fits cs none = Unit {0}
Fits cs (some (id, cs')) = idle cs' ≤ idle cs

behind-Fits :
    (c : Connection) (cs : List Connection) (o : Option (ℕ × List Connection))
    → c.in_use ≡ true
    → Fits cs o
    → Fits (c ∷ cs) (behind c o)
unfolding idle
behind-Fits c cs none u h = tt
behind-Fits c cs (some (id, cs')) u h = rw u h

take_idle-Fits : (cs : List Connection) → Fits cs (take_idle cs)
unfolding take_idle
take_idle-Fits [] = tt
take_idle-Fits (c ∷ cs) = elim (Bool-cases c.in_use) [
  | inl u ↦
      let rest = behind-Fits c cs (take_idle cs) u (take_idle-Fits cs) in
      subst
        (λ b. Fits (c ∷ cs) (
          if not b
          then some (c.id, record c { in_use = true; attempt_reconnect = true } ∷ cs)
          else behind c (take_idle cs)))
        (sym u) rest
  | inr u ↦
      subst
        (λ b. Fits (c ∷ cs) (
          if not b
          then some (c.id, record c { in_use = true; attempt_reconnect = true } ∷ cs)
          else behind c (take_idle cs)))
        (sym u) (unfold idle in rw u (omega arith))
]

erase-idle : (id : ℕ) (cs : List Connection) → idle (erase id cs) ≤ idle cs
unfolding erase idle
erase-idle id [] = omega arith
erase-idle id (c ∷ cs) =
    let rest = erase-idle id cs in
    elim (Bool-cases (c.id == id)) [
      | inl e ↦ elim (Bool-cases c.in_use) [
        | inl u ↦ rw (e, u) (omega arith)
        | inr u ↦ rw (e, u) (omega arith)
      ]
      | inr e ↦ elim (Bool-cases c.in_use) [
        | inl u ↦ rw (e, u) rest
        | inr u ↦ rw (e, u) (omega (arith, rest))
      ]
    ]

get_connection-idle : (p : Pool) → idle (get_connection p).1.connections ≤ idle p.connections
unfolding get_connection create idle
get_connection-idle p = elim (Option-cases (take_idle p.connections)) [
  | inl n ↦ rw n (omega arith)
  | inr ((id, cs), e) ↦ rw e (subst (λ o. Fits p.connections o) e (take_idle-Fits p.connections))
]

either :
    (b : Bool) (x y : Option ℕ × Pool)
    → idle x.1.connections ≤ 1
    → idle y.1.connections ≤ 1
    → idle (if b then x else y).1.connections ≤ 1
either true x y h k = h
either false x y h k = k

step-idle : (e : Event) (p : Pool) → idle p.connections ≤ 1 → idle (step e p).connections ≤ 1
unfolding step finish on_read_failed create
step-idle Event.request p h = omega (arith, get_connection-idle p)
step-idle (Event.ended failed id) p h = remove_unused-idle failed id 0 (release id p.connections)
step-idle (Event.read_failed aborted id) p h =
    either (attempts (find id p.connections) && not aborted) _ _
      (unfold idle in omega (arith, h, erase-idle id p.connections))
      (remove_unused-idle true id 0 (release id p.connections))

-- Whatever requests are made, and however their sessions end or their reads fail, the client keeps at most one
-- connection that is not in use.
pub at_most_one_idle : (events : List Event) → idle (run events).connections ≤ 1
unfolding run new_pool idle
at_most_one_idle [] = omega arith
at_most_one_idle (e ∷ events) = step-idle e (run events) (at_most_one_idle events)
