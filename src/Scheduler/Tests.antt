-- ===== src/Scheduler/Tests.antt =====
-- The scheduler with a few threads.
use beet_core.Common.{
  ap, Option, ℕ, ◌≡◌, refl, arith, false, [], ◌∷◌, some, none, replicate, inl, inr, zero, suc, ◌<◌,
  is_some, get_or,
}
use beet_core.Abi.Outcome.{ok, ◌>>=◌}
use beet_core.Scheduler.{
  initial, Thread, Scheduler, ready_thread, park_thread, yield_thread, link_at, link_copy, set_link,
  update_link, enqueue, unlink, clear_queue, park_linked, last_head,
}
use beet_core.Scheduler.Ready.{Queue, ready_thread-Queue}
use beet_core.Scheduler.Yield.{yield_thread-Queue}
use beet_core.Scheduler.Park.{park_thread-Queue}
use beet_core.Scheduler.Heads.{IsHighest}
use beet_core.Scheduler.Highest.{park_thread-IsHighest}

abbrev idle : Scheduler
idle = record {
  queue_heads = replicate 16 none;
  links = replicate 3 (replicate 3 none);
  highest_ready_priority = 0;
  in_irq_handler = false;
}

abbrev first : Thread
first = record { pid = 2; tid = 1 }

abbrev second : Thread
second = record { pid = 3; tid = 1 }

-- `first` and `second` are ready at priority 3.
abbrev two : Scheduler
two = record idle {
  queue_heads = none ∷ none ∷ none ∷ some first ∷ replicate 12 none;
  links =
      (none ∷ none ∷ none ∷ [])
      ∷ (some (record { next = second; prev = second }) ∷ none ∷ none ∷ [])
      ∷ (some (record { next = first; prev = first }) ∷ none ∷ none ∷ [])
      ∷ [];
  highest_ready_priority = 3;
}

readied : (do s ← ready_thread idle first 3; ready_thread s second 3) ≡ ok two
unfolding ready_thread enqueue link_at link_copy set_link update_link
readied = refl

-- Both park, and the queue is empty.
drained : (do s ← park_thread two first 3; park_thread s second 3) ≡ ok idle
unfolding park_thread park_linked unlink clear_queue last_head link_at link_copy set_link
    update_link
drained = refl

abbrev no_thread : Option Thread
no_thread = none

no_head : (n q : ℕ) → is_some (get_or (replicate n no_thread) q none) ≡ false
no_head zero q = refl
no_head (suc n) zero = refl
no_head (suc n) (suc q) = no_head n q

initial-IsHighest : IsHighest initial
initial-IsHighest = record { above = λ p lt. no_head 16 p; top = inr refl }

idle-IsHighest : IsHighest idle
idle-IsHighest = record { above = λ p lt. no_head 16 p; top = inr refl }

two-IsHighest : IsHighest two
two-IsHighest = record { above = above; top = inl refl }
  where
    above : (p : ℕ) → 3 < p → is_some (get_or two.queue_heads p none) ≡ false
    above zero lt = absurd (omega arith)
    above (suc zero) lt = absurd (omega arith)
    above (suc (suc zero)) lt = absurd (omega arith)
    above (suc (suc (suc zero))) lt = absurd (omega arith)
    above (suc (suc (suc (suc p)))) lt = no_head 12 p

abbrev one : Scheduler
one = record idle {
  queue_heads = none ∷ none ∷ none ∷ some first ∷ replicate 12 none;
  links =
      (none ∷ none ∷ none ∷ [])
      ∷ (some (record { next = first; prev = first }) ∷ none ∷ none ∷ [])
      ∷ (none ∷ none ∷ none ∷ [])
      ∷ [];
  highest_ready_priority = 3;
}

park_thread-IsHighest_example : IsHighest one
unfolding park_thread park_linked unlink link_at link_copy set_link update_link
park_thread-IsHighest_example =
    park_thread-IsHighest two one second 3 (omega arith) two-IsHighest refl

one-Queue : Queue one 3 (first ∷ [])
unfolding link_copy link_at
one-Queue = (refl, tt, (tt, (_, refl, refl), (_, refl, refl)))

ready_thread-Queue_example :
    (s' : Scheduler) × (ready_thread one second 3 ≡ ok s') × Queue s' 3 (first ∷ second ∷ [])
unfolding link_copy link_at
ready_thread-Queue_example =
    ready_thread-Queue one second 3 (first ∷ []) (omega arith) one-Queue refl

two-Queue : Queue two 3 (first ∷ second ∷ [])
unfolding link_copy link_at
two-Queue = (
  refl,
  (((λ e. ground (arith, ap (λ t. t.pid) e)), tt), tt),
  (((_, refl, refl), (_, refl, refl), tt), (_, refl, refl), (_, refl, refl)),
)

yield_thread-Queue_example :
    (s' : Scheduler) × (yield_thread two first 3 ≡ ok s') × Queue s' 3 (second ∷ first ∷ [])
yield_thread-Queue_example = yield_thread-Queue two first (second ∷ []) 3 (omega arith) two-Queue

park_thread-Queue_example :
    (s' : Scheduler) × (park_thread two first 3 ≡ ok s')
    × Queue s' 3 (second ∷ [])
    × (link_copy s' first ≡ ok none)
park_thread-Queue_example = park_thread-Queue two first (second ∷ []) 3 (omega arith) two-Queue
