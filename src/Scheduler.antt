-- ===== src/Scheduler.antt =====
-- The ready threads of xous/kernel/src/scheduler.rs: circular lists of links, one for each
-- priority. A thread is a process and a thread of it; the links are a table by process and thread.
pub mod Heads
pub mod Links
pub mod Ring
pub mod Ready
pub mod Yield
pub mod Park
pub mod Highest
mod Tests
use beet_core.Common.{
  ℕ, zero, suc, ◌+◌, ◌-◌, Bool, true, false, not, ◌&&◌, List, [], ◌∷◌, Option, none, some, ltb,
  ◌==◌, if◌then◌else◌, get_elem?, get_or, set, is_some, replicate,
}
use beet_core.Abi.Outcome.{Outcome, ok, panic, ◌>>=◌, expect}

abbrev pub num_priorities : ℕ
num_priorities = 16

abbrev pub max_process_count : ℕ
max_process_count = 64

abbrev pub max_thread_count : ℕ
max_thread_count = 32

abbrev pub irq_tid : ℕ
irq_tid = 0

pub record Thread : Type 0 where
  pub pid : ℕ
  pub tid : ℕ

pub record SchedulerLink : Type 0 where
  pub next : Thread
  pub prev : Thread

pub record Scheduler : Type 0 where
  pub queue_heads : List (Option Thread)
  pub links : List (List (Option SchedulerLink))
  pub highest_ready_priority : ℕ
  pub in_irq_handler : Bool

-- The static `SCHEDULER`
abbrev pub initial : Scheduler
initial = record {
  queue_heads = replicate num_priorities none;
  links = replicate max_process_count (replicate max_thread_count none);
  highest_ready_priority = 0;
  in_irq_handler = false;
}

abbrev pub is_thread : Thread → Thread → Bool
is_thread a b = a.pid == b.pid && a.tid == b.tid

-- `== Some(thread)`
abbrev pub is_head : Thread → Option Thread → Bool
is_head thread none = false
is_head thread (some head) = is_thread head thread

abbrev pub link_in : Option (List (Option SchedulerLink)) → ℕ → Outcome (Option SchedulerLink)
link_in none i = panic
link_in (some row) i = expect (get_elem? row i)

-- `link_copy`: the indices `pid - 1` and `tid - 1` panic outside the table, also at thread 0. No
-- process has the number 0.
unfoldable pub link_at : Scheduler → ℕ → ℕ → Outcome (Option SchedulerLink)
link_at self zero tid = panic
link_at self (suc p) zero = panic
link_at self (suc p) (suc i) = link_in (get_elem? self.links p) i

unfoldable pub link_copy : Scheduler → Thread → Outcome (Option SchedulerLink)
unfolding link_at
link_copy self thread = link_at self thread.pid thread.tid

-- `*link_mut(thread) = link`
unfoldable pub set_link : Scheduler → Thread → Option SchedulerLink → Outcome Scheduler
set_link self thread link = do
  _ ← link_copy self thread
  ok (record self {
    links =
        set self.links (thread.pid - 1)
          (set (get_or self.links (thread.pid - 1) []) (thread.tid - 1) link);
  })

-- `link_mut(thread).as_mut().expect(..)`, changed
unfoldable pub update_link :
    Scheduler → Thread → (SchedulerLink → SchedulerLink) → Outcome Scheduler
update_link self thread f = do
  link ← link_copy self thread
  old ← expect link
  set_link self thread (some (f old))

abbrev pub head_of : Scheduler → ℕ → Option Thread
head_of self priority = get_or self.queue_heads priority none

abbrev pub set_head : Scheduler → ℕ → Option Thread → Scheduler
set_head self priority head = record self { queue_heads = set self.queue_heads priority head }

-- `assert!(link.is_none())`
abbrev pub unlinked : Option SchedulerLink → Outcome (Unit {0})
unlinked none = ok tt
unlinked (some link) = panic

-- The queue of the priority is empty, or has a head to insert before.
unfoldable pub enqueue : Scheduler → Thread → ℕ → Option Thread → Outcome Scheduler
enqueue self thread priority none =
    set_link
      (record (set_head self priority (some thread)) {
        highest_ready_priority =
            if ltb self.highest_ready_priority priority
            then priority
            else self.highest_ready_priority;
      })
      thread (some (record { next = thread; prev = thread }))
enqueue self thread priority (some head) = do
  link ← link_copy self thread
  _ ← unlinked link
  found ← link_copy self head
  head_copy ← expect found
  self1 ← set_link self head (some (record { next = head_copy.next; prev = thread }))
  self2 ← update_link self1 head_copy.prev (λ l. record l { next = thread })
  set_link self2 thread (some (record { next = head; prev = head_copy.prev }))

unfoldable pub ready_thread : Scheduler → Thread → ℕ → Outcome Scheduler
ready_thread self thread priority =
    let queued = enqueue self thread priority (head_of self priority) in
    if thread.tid == irq_tid
    then if self.in_irq_handler then panic else ok (record self { in_irq_handler = true })
    else queued

-- The last index that holds a head, as `rposition(|h| h.is_some())`, or 0.
unfoldable pub last_head : List (Option Thread) → ℕ → ℕ
last_head heads zero = 0
last_head heads (suc n) =
    let rest = last_head heads n in if is_some (get_or heads n none) then n else rest

-- The thread was alone in its queue.
unfoldable pub clear_queue : Scheduler → ℕ → Scheduler
clear_queue self priority = record (set_head self priority none) {
  highest_ready_priority =
      if priority == self.highest_ready_priority
      then last_head (set self.queue_heads priority none) priority
      else self.highest_ready_priority;
}

-- The thread's neighbours are joined.
unfoldable pub unlink : Scheduler → Thread → ℕ → SchedulerLink → Outcome Scheduler
unlink self thread priority link = do
  self1 ← update_link moved link.prev (λ l. record l { next = link.next })
  update_link self1 link.next (λ l. record l { prev = link.prev })
  where
    moved : Scheduler
    moved =
        if is_head thread (head_of self priority)
        then set_head self priority (some link.next)
        else self

unfoldable pub park_linked : Scheduler → Thread → ℕ → Outcome Scheduler
park_linked self thread priority = do
  found ← link_copy self thread
  self1 ← set_link self thread none
  link ← expect found
  if is_thread link.next thread
      then ok (clear_queue self1 priority)
      else unlink self1 thread priority link

unfoldable pub park_thread : Scheduler → Thread → ℕ → Outcome Scheduler
park_thread self thread priority =
    let parked = park_linked self thread priority in
    if thread.tid == irq_tid
    then if self.in_irq_handler then ok (record self { in_irq_handler = false }) else panic
    else parked

-- A thread that is not at the head is only reported.
unfoldable pub yield_thread : Scheduler → Thread → ℕ → Outcome Scheduler
yield_thread self thread priority =
    if is_head thread (head_of self priority)
    then (do
      found ← link_copy self thread
      link ← expect found
      ok (set_head self priority (some link.next)))
    else ok self
