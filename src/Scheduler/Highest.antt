-- ===== src/Scheduler/Highest.antt =====
-- `highest_ready_priority` of xous/kernel/src/scheduler.rs is the greatest priority that has a
-- ready thread.
use beet_core.Common.{
  ℕ, ◌<◌, ◌≡◌, refl, arith, true, Option, none, some, length, is_some, ◌==◌, inl, inr, Bool-cases,
}
use beet_core.Abi.Outcome.{ok, ◌>>=◌, expect}
use beet_core.Scheduler.{
  Thread, SchedulerLink, Scheduler, is_thread, is_head, link_copy, set_link, update_link, head_of,
  set_head, enqueue, unlinked, ready_thread, unlink, park_linked, park_thread, yield_thread,
  irq_tid,
}
use beet_core.Abi.After.{After, After-bind, After-then, After-map, After-ok}
use beet_core.Scheduler.Heads.{
  Same, IsHighest, Same-IsHighest, moved-IsHighest, raised-IsHighest, clear_queue-IsHighest,
}

set_link-Same :
    (s : Scheduler) (t : Thread) (l : Option SchedulerLink) → After (Same s) (set_link s t l)
unfolding set_link
set_link-Same s t l = After-bind _ (link_copy s t) _ (λ a. (refl, refl))

update_link-Same :
    (s : Scheduler) (t : Thread) (f : SchedulerLink → SchedulerLink)
    → After (Same s) (update_link s t f)
unfolding update_link
update_link-Same s t f =
    After-bind _ (link_copy s t) _
      (λ link. After-bind _ (expect link) _ (λ old. set_link-Same s t (some (f old))))

enqueue-IsHighest :
    (s : Scheduler) (t : Thread) (p : ℕ) (head : Option Thread)
    → p < length s.queue_heads
    → IsHighest s
    → After IsHighest (enqueue s t p head)
unfolding enqueue
enqueue-IsHighest s t p none p_in h =
    After-map _ _ (set_link _ t _) (set_link-Same _ t _)
      (λ s' same. Same-IsHighest _ s' same (raised-IsHighest s p p_in h t))
enqueue-IsHighest s t p (some head) p_in h = After-bind IsHighest (link_copy s t) _ (λ link.
    After-bind IsHighest (unlinked link) _ (λ _. After-bind IsHighest (link_copy s head) _ (λ found.
      After-bind IsHighest (expect found) _ (λ copy.
        After-then (Same s) IsHighest (set_link s head _) _ (set_link-Same s head _) (λ s1 same1.
          After-then (Same s1) IsHighest (update_link s1 copy.prev _) _
            (update_link-Same s1 copy.prev _)
            (λ s2 same2.
              After-map (Same s2) IsHighest (set_link s2 t _) (set_link-Same s2 t _) (λ s3 same3.
                Same-IsHighest s2 s3 same3
                  (Same-IsHighest s1 s2 same2 (Same-IsHighest s s1 same1 h)))))))))

is_head-is_some : (t : Thread) (head : Option Thread) → is_head t head ≡ true → is_some head ≡ true
is_head-is_some t none e = ground arith
is_head-is_some t (some x) e = refl

joined-IsHighest :
    (s : Scheduler) (link : SchedulerLink)
    → IsHighest s
    → After IsHighest (do
      s1 ← update_link s link.prev (λ l. record l { next = link.next })
      update_link s1 link.next (λ l. record l { prev = link.prev }))
joined-IsHighest s link h =
    After-then (Same s) IsHighest (update_link s link.prev _) _ (update_link-Same s link.prev _)
      (λ s1 same1.
        After-map (Same s1) IsHighest (update_link s1 link.next _) (update_link-Same s1 link.next _)
          (λ s2 same2. Same-IsHighest s1 s2 same2 (Same-IsHighest s s1 same1 h)))

unlink-IsHighest :
    (s : Scheduler) (t : Thread) (p : ℕ) (link : SchedulerLink)
    → p < length s.queue_heads
    → IsHighest s
    → After IsHighest (unlink s t p link)
unfolding unlink
unlink-IsHighest s t p link p_in h = elim (Bool-cases (is_head t (head_of s p))) [
  | inl first ↦ rw first (
      joined-IsHighest (set_head s p (some link.next)) link
        (moved-IsHighest s p p_in h link.next (is_head-is_some t (head_of s p) first)))
  | inr other ↦ rw other (joined-IsHighest s link h)
]

park_linked-IsHighest :
    (s : Scheduler) (t : Thread) (p : ℕ)
    → p < length s.queue_heads
    → IsHighest s
    → After IsHighest (park_linked s t p)
unfolding park_linked
park_linked-IsHighest s t p p_in h = After-bind IsHighest (link_copy s t) _ (λ found.
    After-then (Same s) IsHighest (set_link s t none) _ (set_link-Same s t none) (λ s1 same1.
      After-bind IsHighest (expect found) _ (λ link.
        let p_in1 : p < length s1.queue_heads = rw same1.0 p_in in
        let h1 : IsHighest s1 = Same-IsHighest s s1 same1 h in
        elim (Bool-cases (is_thread link.next t)) [
          | inl alone ↦ rw alone (clear_queue-IsHighest s1 p p_in1 h1)
          | inr others ↦ rw others (unlink-IsHighest s1 t p link p_in1 h1)
        ])))

-- When `ready_thread` returns, for a priority in range, the highest priority is still the greatest
-- one with a ready thread, or 0.
pub ready_thread-IsHighest :
    (s s' : Scheduler) (t : Thread) (p : ℕ)
    → p < length s.queue_heads
    → IsHighest s
    → ready_thread s t p ≡ ok s'
    → IsHighest s'
unfolding ready_thread
ready_thread-IsHighest s s' t p p_in h = elim (Bool-cases (t.tid == irq_tid)) [
  | inl irq ↦ rw irq elim (Bool-cases s.in_irq_handler) [
    | inl busy ↦ rw busy (λ e. ground arith)
    | inr idle ↦ rw idle (After-ok IsHighest _ s' (Same-IsHighest s _ (refl, refl) h))
  ]
  | inr queued ↦ rw queued (After-ok IsHighest _ s' (enqueue-IsHighest s t p (head_of s p) p_in h))
]

-- When `park_thread` returns, for a priority in range, the highest priority is still the greatest
-- one with a ready thread, or 0.
pub park_thread-IsHighest :
    (s s' : Scheduler) (t : Thread) (p : ℕ)
    → p < length s.queue_heads
    → IsHighest s
    → park_thread s t p ≡ ok s'
    → IsHighest s'
unfolding park_thread
park_thread-IsHighest s s' t p p_in h = elim (Bool-cases (t.tid == irq_tid)) [
  | inl irq ↦ rw irq elim (Bool-cases s.in_irq_handler) [
    | inl busy ↦ rw busy (After-ok IsHighest _ s' (Same-IsHighest s _ (refl, refl) h))
    | inr idle ↦ rw idle (λ e. ground arith)
  ]
  | inr queued ↦ rw queued (After-ok IsHighest _ s' (park_linked-IsHighest s t p p_in h))
]

yield_head-IsHighest :
    (s : Scheduler) (t : Thread) (p : ℕ)
    → p < length s.queue_heads
    → IsHighest s
    → is_head t (head_of s p) ≡ true
    → After IsHighest
        (do found ← link_copy s t; link ← expect found; ok (set_head s p (some link.next)))
yield_head-IsHighest s t p p_in h first = After-bind IsHighest (link_copy s t) _ (λ found.
    After-bind IsHighest (expect found) _
      (λ link. moved-IsHighest s p p_in h link.next (is_head-is_some t (head_of s p) first)))

-- When `yield_thread` returns, for a priority in range, the highest priority is still the greatest
-- one with a ready thread, or 0.
pub yield_thread-IsHighest :
    (s s' : Scheduler) (t : Thread) (p : ℕ)
    → p < length s.queue_heads
    → IsHighest s
    → yield_thread s t p ≡ ok s'
    → IsHighest s'
unfolding yield_thread
yield_thread-IsHighest s s' t p p_in h = elim (Bool-cases (is_head t (head_of s p))) [
  | inl first ↦ rw first (After-ok IsHighest _ s' (yield_head-IsHighest s t p p_in h first))
  | inr other ↦ rw other (After-ok IsHighest _ s' h)
]
