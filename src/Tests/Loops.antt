-- ===== src/Tests/Loops.antt =====
-- Concrete runs of an event loop and of an event pool.
use barbacoa_server_lib.Prelude.{
  ◌≡◌, refl, Option, none, some, true, false, length, arith, List, [], ◌∷◌, ◌++◌,
}
use barbacoa_server_lib.EventLoop.{
  Op, Call, Posted, Service, IsStrand, EventLoop, new_event_loop, run,
}
use barbacoa_server_lib.EventPool.{
  EventPool, new_event_pool, start, emplace_thread, emplace_id, arrive, take_callback, exchange,
  Steps, done, by_start, by_loop, by_thread, by_arrival, by_taking, by_exchange,
}
use barbacoa_server_lib.EventPool.Started.{started_when_all_arrived}
use barbacoa_server_lib.EventLoop.QueueSize.{Counts, queue_size-Counts}

abbrev early : List Op
early = Op.op_post 1 ∷ Op.op_start ∷ Op.op_post 2 ∷ Op.op_run_one ∷ []

-- A list as the service.
abbrev first_of : List Posted → Option (Posted × List Posted)
first_of [] = none
first_of (p ∷ queue) = some (p, queue)

abbrev fifo : Service (List Posted)
fifo = record { empty = []; push = λ p queue. queue ++ p ∷ []; poll = first_of }

first_of-none : (queue : List Posted) → queue ≡ [] → first_of queue ≡ none
first_of-none queue h = rw h refl

abbrev fifo-IsStrand : IsStrand fifo
fifo-IsStrand = record {
  view = λ queue. queue;
  view_empty = refl;
  view_push = λ p queue. refl;
  poll_none = first_of-none;
  poll_first = λ queue p rest h. (rest, rw h refl, refl);
}

-- A callback that was posted before the start runs before the loop has started.
early_calls : (run fifo early (new_event_loop fifo)).calls ≡ Call.posted 1 false ∷ []
unfolding run new_event_loop
early_calls = refl

abbrev early_loop : EventLoop (List Posted)
early_loop = run fifo early (new_event_loop fifo)

new-Counts : Counts fifo fifo-IsStrand (new_event_loop fifo)
unfolding new_event_loop
new-Counts = refl

queue_size-Counts_example : Counts fifo fifo-IsStrand (run fifo early (new_event_loop fifo))
queue_size-Counts_example =
    queue_size-Counts fifo fifo-IsStrand early (new_event_loop fifo) new-Counts

-- A pool of one thread, up to the report of its start.
abbrev pool_started : EventPool
pool_started = start (new_event_pool 1)

abbrev pool_thread : EventPool
pool_thread = emplace_thread pool_started

abbrev pool_id : EventPool
pool_id = emplace_id 5 pool_thread

abbrev pool_arrived : EventPool
pool_arrived = arrive pool_id

abbrev pool_taken : EventPool
pool_taken = take_callback pool_arrived

abbrev pool_run : EventPool
pool_run = exchange false pool_taken

until_run : Steps (new_event_pool 1) pool_run
unfolding new_event_pool start emplace_thread emplace_id arrive take_callback exchange
until_run =
    Steps.then pool_taken pool_run
      (Steps.then pool_arrived pool_taken
        (Steps.then pool_id pool_arrived
          (Steps.then pool_thread pool_id
            (Steps.then pool_started pool_thread
              (Steps.then (new_event_pool 1) pool_started done (by_start (new_event_pool 1) refl))
              (by_loop pool_started refl (omega arith)))
            (by_thread 5 pool_thread refl (omega arith)))
          (by_arrival pool_id refl (omega arith)))
        (by_taking pool_arrived refl (omega arith) refl))
      (by_exchange false pool_taken refl)

pool_is_running : pool_run.is_running ≡ true
unfolding new_event_pool start emplace_thread emplace_id arrive take_callback exchange
pool_is_running = refl

pool_is_run : pool_run.is_run ≡ true
unfolding new_event_pool start emplace_thread emplace_id arrive take_callback exchange
pool_is_run = refl

started_when_all_arrived_example :
    (pool_run.arrived ≡ 1) × (length pool_run.thread_ids ≡ 1) × (pool_run.threads ≡ 1)
started_when_all_arrived_example =
    started_when_all_arrived 1 pool_run (omega arith) until_run pool_is_running pool_is_run

-- The exchange may fail when all threads have arrived: the callback ends and the start is never reported.
start_lost : (exchange true pool_taken).is_run ≡ false
unfolding new_event_pool start emplace_thread emplace_id arrive take_callback exchange
start_lost = refl
