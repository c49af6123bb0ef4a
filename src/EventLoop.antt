-- ===== src/EventLoop.antt =====
-- event_loop over base_queuered_loop (include/server_lib/event_loop.h, src/event_loop.cpp,
-- src/base_queuered_loop.cpp) with a thread of its own, and its queue of callbacks. The queue of boost::asio's service
-- and strand is a parameter; callbacks are numbers, and are those that return.
pub mod Order
pub mod QueueSize
use barbacoa_server_lib.Prelude.{
  ℕ, suc, ◌+◌, ◌-◌, ◌%◌, ◌^◌, ◌≡◌, Option, none, some, Bool, true, false, List, [], ◌∷◌, ◌++◌,
  length, ltb, take, if◌then◌else◌,
}

-- `set_thread_name`
unfoldable pub set_thread_name : List ℕ → List ℕ
set_thread_name name = if ltb 15 (length name) then take 15 name else name

-- What stands in the queue: the callback that `start` posts, and those of the users.
pub data Posted : Type 0 where
  started : Posted
  user : (callback : ℕ) → Posted

-- What is called, with `is_run()` at that time.
pub data Call : Type 0 where
  on_start : (callback : ℕ) → Call
  on_stop : (callback : ℕ) → Call
  posted : (callback : ℕ) → (is_run : Bool) → Call

-- What is used of boost::asio: a service that is empty, `post` of a callback that the strand wraps, and the next
-- callback that `run` calls.
pub record Service (Q : Type 0) : Type 0 where
  pub empty : Q
  pub push : Posted → Q → Q
  pub poll : Q → Option (Posted × Q)

-- What a strand promises in one thread: `view` is what waits, and what was posted first is called first.
pub record IsStrand {Q : Type 0} (service : Service Q) : Type 0 where
  pub view : Q → List Posted
  pub view_empty : view service.empty ≡ []
  pub view_push : (p : Posted) (q : Q) → view (service.push p q) ≡ view q ++ p ∷ []
  pub poll_none : (q : Q) → view q ≡ [] → service.poll q ≡ none
  pub poll_first :
      (q : Q) (p : Posted) (rest : List Posted)
      → view q ≡ p ∷ rest
      → (r : Q) × (service.poll q ≡ some (p, r)) × (view r ≡ rest)

pub record EventLoop (Q : Type 0) : Type 0 where
  pub is_running : Bool
  pub is_run : Bool
  pub queue : Q
  pub queue_size : ℕ
  pub start_observer : List ℕ
  pub stop_observer : List ℕ
  pub calls : List Call

unfoldable pub start_calls : List ℕ → List Call
start_calls [] = []
start_calls (c ∷ cs) = Call.on_start c ∷ start_calls cs

unfoldable pub stop_calls : List ℕ → List Call
stop_calls [] = []
stop_calls (c ∷ cs) = Call.on_stop c ∷ stop_calls cs

pub data Op : Type 0 where
  op_start : Op
  op_stop : Op
  op_post : (callback : ℕ) → Op
  op_on_start : (callback : ℕ) → Op
  op_on_stop : (callback : ℕ) → Op
  op_run_one : Op

module _ {Q : Type 0} (service : Service Q) where
  -- `reset`; what was called stays so.
  unfoldable pub reset : EventLoop Q → EventLoop Q
  reset l = record {
    is_running = false;
    is_run = false;
    queue = service.empty;
    queue_size = 0;
    start_observer = [];
    stop_observer = [];
    calls = l.calls;
  }

  unfoldable pub new_event_loop : EventLoop Q
  new_event_loop = record {
    is_running = false;
    is_run = false;
    queue = service.empty;
    queue_size = 0;
    start_observer = [];
    stop_observer = [];
    calls = [];
  }

  -- `post`, with `register_queue`.
  unfoldable pub post : Posted → EventLoop Q → EventLoop Q
  post p l = record l { queue = service.push p l.queue; queue_size = (l.queue_size + 1) % 2 ^ 64 }

  unfoldable pub on_start_loop : ℕ → EventLoop Q → EventLoop Q
  on_start_loop callback l = record l { start_observer = l.start_observer ++ callback ∷ [] }

  unfoldable pub on_stop_loop : ℕ → EventLoop Q → EventLoop Q
  on_stop_loop callback l = record l { stop_observer = l.stop_observer ++ callback ∷ [] }

  -- `start`, with `start_loop`.
  unfoldable pub start : EventLoop Q → EventLoop Q
  unfolding post
  start l = if l.is_running then l else post Posted.started (record l { is_running = true })

  -- A callback, and the end of the wrapper that register_queue makes.
  unfoldable pub call : Posted → Q → EventLoop Q → EventLoop Q
  unfolding start_calls
  call Posted.started rest l = record l {
    is_run = true;
    queue = rest;
    queue_size = (l.queue_size + 2 ^ 64 - 1) % 2 ^ 64;
    calls = l.calls ++ start_calls l.start_observer;
  }
  call (Posted.user c) rest l = record l {
    queue = rest;
    queue_size = (l.queue_size + 2 ^ 64 - 1) % 2 ^ 64;
    calls = l.calls ++ Call.posted c l.is_run ∷ [];
  }

  abbrev pub call_next : Option (Posted × Q) → EventLoop Q → EventLoop Q
  call_next none l = l
  call_next (some (p, rest)) l = call p rest l

  -- The thread of the loop, in `run`, takes the next of the queue.
  unfoldable pub run_one : EventLoop Q → EventLoop Q
  unfolding call
  run_one l = if l.is_running then call_next (service.poll l.queue) l else l

  -- `stop`: the thread leaves `run` and notifies, is joined, and the loop is reset.
  unfoldable pub stop : EventLoop Q → EventLoop Q
  unfolding reset stop_calls
  stop l =
      if l.is_running then reset (record l { calls = l.calls ++ stop_calls l.stop_observer }) else l

  unfoldable pub step : Op → EventLoop Q → EventLoop Q
  unfolding start stop post on_start_loop on_stop_loop run_one
  step Op.op_start l = start l
  step Op.op_stop l = stop l
  step (Op.op_post c) l = post (Posted.user c) l
  step (Op.op_on_start c) l = on_start_loop c l
  step (Op.op_on_stop c) l = on_stop_loop c l
  step Op.op_run_one l = run_one l

  -- The calls of any threads, and the turns of the loop's thread, in the order in which they happen.
  unfoldable pub run : List Op → EventLoop Q → EventLoop Q
  unfolding step
  run [] l = l
  run (op ∷ ops) l = run ops (step op l)
