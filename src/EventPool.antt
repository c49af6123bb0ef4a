-- ===== src/EventPool.antt =====
-- event_pool over base_queuered_loop (include/server_lib/event_pool.h, src/event_pool.cpp,
-- src/base_queuered_loop.cpp): how its threads begin and its start is reported. boost::asio's service is
-- the callback of `start` and who has taken it; observers are the number of times they were notified.
pub mod Started
use barbacoa_server_lib.Prelude.{
  ℕ, zero, suc, ◌+◌, ◌-◌, ◌%◌, ◌^◌, ◌<◌, ◌≡◌, Bool, true, false, ◌||◌, List, [], ◌∷◌, ◌++◌, length,
  ◌==◌, if◌then◌else◌,
}

-- Where `stop` is: it joins the threads behind stop_loop, has joined them, and has cleared `_thread_ids`, and
-- `_threads`.
pub data Stop : Type 0 where
  outside : Stop
  joining : Stop
  joined : Stop
  ids_cleared : Stop
  threads_cleared : Stop

abbrev pub is_stopping : Stop → Bool
is_stopping Stop.outside = false
is_stopping Stop.joining = true
is_stopping Stop.joined = true
is_stopping Stop.ids_cleared = true
is_stopping Stop.threads_cleared = true

-- The threads have not been joined.
abbrev pub has_threads : Stop → Bool
has_threads Stop.outside = true
has_threads Stop.joining = true
has_threads Stop.joined = false
has_threads Stop.ids_cleared = false
has_threads Stop.threads_cleared = false

pub record EventPool : Type 0 where
  pub nb_threads : ℕ
  pub is_running : Bool
  pub is_run : Bool
  pub waiting_threads : ℕ
  pub thread_ids : List ℕ
  -- The threads of `_threads`, and those that have counted `_waiting_threads` down.
  pub threads : ℕ
  pub arrived : ℕ
  -- The callback of `start` waits, or a thread is in it.
  pub posted : Bool
  pub spinning : Bool
  pub stopping : Stop
  pub notified : ℕ

-- `event_pool`
unfoldable pub new_event_pool : ℕ → EventPool
new_event_pool nb_threads = record {
  nb_threads = nb_threads;
  is_running = false;
  is_run = false;
  waiting_threads = 0;
  thread_ids = [];
  threads = 0;
  arrived = 0;
  posted = false;
  spinning = false;
  stopping = Stop.outside;
  notified = 0;
}

-- `start` up to its loop.
unfoldable pub start : EventPool → EventPool
start p = record p { is_running = true; waiting_threads = p.nb_threads; posted = true }

-- A turn of the loop of `start`.
unfoldable pub emplace_thread : EventPool → EventPool
emplace_thread p = record p { threads = suc p.threads }

-- What a thread does before `run`.
unfoldable pub emplace_id : ℕ → EventPool → EventPool
emplace_id id p = record p { thread_ids = p.thread_ids ++ id ∷ [] }

unfoldable pub arrive : EventPool → EventPool
arrive p = record p {
  waiting_threads = (p.waiting_threads + 2 ^ 64 - 1) % 2 ^ 64;
  arrived = suc p.arrived;
}

-- A thread in `run` takes the callback of `start`.
unfoldable pub take_callback : EventPool → EventPool
take_callback p = record p { posted = false; spinning = true }

-- A turn of the loop of that callback; compare_exchange_weak may fail although the values are equal.
unfoldable pub exchange : (fails : Bool) → EventPool → EventPool
exchange fails p =
    if p.waiting_threads == 0
    then (if fails
        then record p { spinning = false }
        else record p { spinning = false; is_run = true; notified = suc p.notified })
    else p

-- `stop` up to its joins, with stop_loop.
unfoldable pub stop : EventPool → EventPool
stop p = record p { is_running = false; stopping = Stop.joining }

unfoldable pub join : EventPool → EventPool
join p = record p { stopping = Stop.joined }

unfoldable pub clear_ids : EventPool → EventPool
clear_ids p = record p { thread_ids = []; stopping = Stop.ids_cleared }

unfoldable pub clear_threads : EventPool → EventPool
clear_threads p = record p { threads = 0; stopping = Stop.threads_cleared }

-- `reset`, at the end of `stop`; the next threads have not arrived.
unfoldable pub reset : EventPool → EventPool
reset p = record p {
  is_running = false;
  is_run = false;
  waiting_threads = 0;
  arrived = 0;
  posted = false;
  stopping = Stop.outside;
}

-- The owner, which starts and stops in turn, or one of the threads moves.
pub data Step : EventPool → EventPool → Type 0 where
  by_start : (p : EventPool) → p.is_running || is_stopping p.stopping ≡ false → Step p (start p)
  by_loop :
      (p : EventPool) → p.is_running ≡ true → p.threads < p.nb_threads → Step p (emplace_thread p)
  by_thread :
      (id : ℕ) (p : EventPool)
      → has_threads p.stopping ≡ true
      → length p.thread_ids < p.threads
      → Step p (emplace_id id p)
  by_arrival :
      (p : EventPool)
      → has_threads p.stopping ≡ true
      → p.arrived < length p.thread_ids
      → Step p (arrive p)
  by_taking :
      (p : EventPool)
      → p.is_running ≡ true
      → 0 < p.arrived
      → p.posted ≡ true
      → Step p (take_callback p)
  by_exchange : (fails : Bool) (p : EventPool) → p.spinning ≡ true → Step p (exchange fails p)
  by_stop : (p : EventPool) → p.is_running ≡ true → p.threads ≡ p.nb_threads → Step p (stop p)
  by_join :
      (p : EventPool)
      → p.is_running ≡ false
      → p.stopping ≡ Stop.joining
      → p.arrived ≡ p.threads
      → p.spinning ≡ false
      → Step p (join p)
  by_clear_ids : (p : EventPool) → p.stopping ≡ Stop.joined → Step p (clear_ids p)
  by_clear_threads : (p : EventPool) → p.stopping ≡ Stop.ids_cleared → Step p (clear_threads p)
  by_reset : (p : EventPool) → p.stopping ≡ Stop.threads_cleared → Step p (reset p)

pub data Steps (p : EventPool) : EventPool → Type 0 where
  done : Steps p p
  then : (q r : EventPool) → Steps p q → Step q r → Steps p r
