-- ===== src/EventLoop/QueueSize.antt =====
-- queue_size counts what waits (include/server_lib/base_queuered_loop.h, src/base_queuered_loop.cpp).
use barbacoa_server_lib.Prelude.{
  subst, ◌%◌, ◌^◌, ◌≡◌, ap, sym, refl, Bool, true, false, List, [], ◌∷◌, length, length-append,
  arith, if◌then◌else◌,
}
use barbacoa_server_lib.EventLoop.{
  Service, IsStrand, Posted, EventLoop, Op, post, start, stop, call, call_next, run_one, reset,
  on_start_loop, on_stop_loop, step, run,
}

module _ {Q : Type 0} (service : Service Q) (strand : IsStrand service) where
  -- The counter holds the size of the queue.
  abbrev pub Counts : EventLoop Q → Type 0
  Counts l = l.queue_size ≡ length (strand.view l.queue) % 2 ^ 64

  post-Counts : (p : Posted) (l : EventLoop Q) → Counts l → Counts (post service p l)
  unfolding post
  post-Counts p l h = omega (
    arith,
    h,
    ap length (strand.view_push p l.queue),
    length-append {0} (strand.view l.queue) (p ∷ []),
  )

  call-Counts :
      (p : Posted) (r : Q) (rest : List Posted) (l : EventLoop Q)
      → strand.view l.queue ≡ p ∷ rest
      → strand.view r ≡ rest
      → Counts l
      → Counts (call service p r l)
  unfolding call
  call-Counts Posted.started r rest l e left h = omega (arith, h, ap length e, ap length left)
  call-Counts (Posted.user c) r rest l e left h = omega (arith, h, ap length e, ap length left)

  call_next-Counts :
      (queue : List Posted) (l : EventLoop Q)
      → strand.view l.queue ≡ queue
      → Counts l
      → Counts (call_next service (service.poll l.queue) l)
  call_next-Counts [] l e h =
      subst (λ x. Counts (call_next service x l)) (sym (strand.poll_none l.queue e)) h
  call_next-Counts (p ∷ rest) l e h =
      let (r, polled, left) = strand.poll_first l.queue p rest e in
      subst (λ x. Counts (call_next service x l)) (sym polled) (call-Counts p r rest l e left h)

  if-Counts : (b : Bool) (x y : EventLoop Q) → Counts x → Counts y → Counts (if b then x else y)
  if-Counts true x y h k = h
  if-Counts false x y h k = k

  step-Counts : (op : Op) (l : EventLoop Q) → Counts l → Counts (step service op l)
  unfolding step start stop run_one on_start_loop on_stop_loop reset
  step-Counts Op.op_start l h =
      if-Counts l.is_running l (post service Posted.started (record l { is_running = true })) h
        (post-Counts Posted.started (record l { is_running = true }) h)
  step-Counts Op.op_stop l h =
      if-Counts l.is_running _ l (omega (arith, ap length strand.view_empty)) h
  step-Counts (Op.op_post c) l h = post-Counts (Posted.user c) l h
  step-Counts (Op.op_on_start c) l h = h
  step-Counts (Op.op_on_stop c) l h = h
  step-Counts Op.op_run_one l h =
      if-Counts l.is_running (call_next service (service.poll l.queue) l) l
        (call_next-Counts (strand.view l.queue) l refl h) h

  -- Whatever the threads call and however far the loop has come, also after stops and starts, queue_size() between
  -- two callbacks is how many wait, as a number of 64 bits, when it was so at the beginning.
  pub queue_size-Counts : (ops : List Op) (l : EventLoop Q) → Counts l → Counts (run service ops l)
  unfolding run
  queue_size-Counts [] l h = h
  queue_size-Counts (op ∷ ops) l h = queue_size-Counts ops (step service op l) (step-Counts op l h)
