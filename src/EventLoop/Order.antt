-- ===== src/EventLoop/Order.antt =====
-- What was posted is called in order (src/event_loop.cpp, src/base_queuered_loop.cpp).
use barbacoa_server_lib.Prelude.{zero, suc, ◌≤◌, ℕ, ◌≡◌, true, false, List, [], ◌∷◌, ◌++◌, length}
use barbacoa_server_lib.EventLoop.{Service, IsStrand, Posted, Call, EventLoop, Op}

-- The callbacks of users that were called, that wait, and that a sequence of operations posts.
abbrev pub called : List Call → List ℕ
called [] = []
called (Call.on_start c ∷ calls) = called calls
called (Call.on_stop c ∷ calls) = called calls
called (Call.posted c is_run ∷ calls) = c ∷ called calls

abbrev pub waiting : List Posted → List ℕ
waiting [] = []
waiting (Posted.started ∷ queue) = waiting queue
waiting (Posted.user c ∷ queue) = c ∷ waiting queue

abbrev pub posts : List Op → List ℕ
posts [] = []
posts (Op.op_post c ∷ ops) = c ∷ posts ops
posts (Op.op_start ∷ ops) = posts ops
posts (Op.op_stop ∷ ops) = posts ops
posts (Op.op_on_start c ∷ ops) = posts ops
posts (Op.op_on_stop c ∷ ops) = posts ops
posts (Op.op_run_one ∷ ops) = posts ops

abbrev pub NoStop : List Op → Type 0
NoStop [] = Unit {0}
NoStop (Op.op_stop ∷ ops) = true ≡ false
NoStop (Op.op_post c ∷ ops) = NoStop ops
NoStop (Op.op_start ∷ ops) = NoStop ops
NoStop (Op.op_on_start c ∷ ops) = NoStop ops
NoStop (Op.op_on_stop c ∷ ops) = NoStop ops
NoStop (Op.op_run_one ∷ ops) = NoStop ops

turns : ℕ → List Op
turns zero = []
turns (suc n) = Op.op_run_one ∷ turns n

module _ {Q : Type 0} (service : Service Q) (strand : IsStrand service) where
  -- The callbacks that were called and those that wait.
  order : EventLoop Q → List ℕ
  order l = called l.calls ++ waiting (strand.view l.queue)

  -- What is left after a turn.
  abbrev Takes : ℕ → EventLoop Q → Type 0
  Takes n l = (l.is_running ≡ true) × (length (strand.view l.queue) ≤ n)

  -- The start, which does nothing to a loop that is running, and as many turns as callbacks may wait then.
  unfoldable pub drain : EventLoop Q → List Op
  unfolding turns
  drain l = Op.op_start ∷ turns (suc (length (strand.view l.queue)))
