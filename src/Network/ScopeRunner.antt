-- ===== src/Network/ScopeRunner.antt =====
-- scope_runner (include/server_lib/network/scope_runner.h, src/network/scope_runner.cpp): a counter
-- that threads share, as a step relation. One step of a thread is one atomic access to `count`.
pub mod Invariant
use barbacoa_server_lib.Prelude.{ℕ, zero, suc, ◌≡◌, List, [], ◌∷◌, ◌++◌}

-- `long`, by the library's names.
pub data ℤ : Type 0 where
  pos : ℕ → ℤ
  negsuc : ℕ → ℤ

-- ~shared_lock: `count.fetch_sub(1)`
unfoldable pub fetch_sub : ℤ → ℤ
fetch_sub (pos zero) = negsuc 0
fetch_sub (pos (suc n)) = pos n
fetch_sub (negsuc n) = negsuc (suc n)

-- Where a thread is. `locking` and `stopping` are the loops of continue_lock and stop, with
-- `expected` where it decides; `holding` is between the return of a shared_lock and its end.
-- A thread that was refused, or has stopped the runner, may call again.
pub data Thread : Type 0 where
  idle : Thread
  locking : ℤ → Thread
  holding : Thread
  refused : Thread
  stopping : Thread
  stopped : Thread

-- compare_exchange_weak may fail though the values are equal, so the moves that retry have no
-- condition on the count.
pub data Move : ℤ → Thread → ℤ → Thread → Type 0 where
  load : (c : ℤ) → Move c idle c (locking c)
  acquire : (n : ℕ) → Move (pos n) (locking (pos n)) (pos (suc n)) holding
  retry_lock : (c : ℤ) (n : ℕ) → Move c (locking (pos n)) c (locking c)
  give_up : (c : ℤ) (n : ℕ) → Move c (locking (negsuc n)) c refused
  release : (c : ℤ) → Move c holding (fetch_sub c) idle
  call_stop : (c : ℤ) → Move c idle c stopping
  close : Move (pos 0) stopping (negsuc 0) stopped
  retry_stop : (n : ℕ) → Move (pos n) stopping (pos n) stopping
  find_closed : (n : ℕ) → Move (negsuc n) stopping (negsuc n) stopped
  after_refused : (c : ℤ) → Move c refused c idle
  after_stopped : (c : ℤ) → Move c stopped c idle

pub record State : Type 0 where
  pub count : ℤ
  pub threads : List Thread

-- One thread moves, whatever the others are at.
pub data Step (s t : State) : Type 0 where
  by_thread :
      (before : List Thread) (p q : Thread) (after : List Thread)
      → s.threads ≡ before ++ p ∷ after
      → t.threads ≡ before ++ q ∷ after
      → Move s.count p t.count q
      → Step s t

pub data Steps (s : State) : State → Type 0 where
  done : Steps s s
  then : (t u : State) → Steps s t → Step t u → Steps s u

-- scope_runner() sets the counter to 0, before any thread has called it.
unfoldable pub all_idle : ℕ → List Thread
all_idle zero = []
all_idle (suc n) = idle ∷ all_idle n

unfoldable pub initial : ℕ → State
unfolding all_idle
initial n = record { count = pos 0; threads = all_idle n }
