-- ===== src/Scheduler/Heads.antt =====
-- The queue heads of xous/kernel/src/scheduler.rs and the highest priority, when one head changes.
use beet_core.Common.{
  ℕ, zero, suc, ◌<◌, ◌≡◌, ◌⊎◌, refl, ap, arith, true, false, List, Option, none, some, length,
  get_or, set, is_some, ltb, ◌==◌, eq_of_==, ne_of_==, get_or-set_self, get_or-set_ne, inl, inr,
  Bool-cases, if◌then◌else◌,
}
use beet_core.Scheduler.{Thread, Scheduler, head_of, set_head, last_head, clear_queue}

-- The heads and the highest priority are the same.
abbrev pub Same : Scheduler → Scheduler → Type 0
Same s s' =
    (s'.queue_heads ≡ s.queue_heads) × (s'.highest_ready_priority ≡ s.highest_ready_priority)

-- No priority above the highest has a ready thread; the highest has one, or is 0.
pub record IsHighest (s : Scheduler) : Type 0 where
  pub above : (p : ℕ) → s.highest_ready_priority < p → is_some (get_or s.queue_heads p none) ≡ false
  pub top :
      (is_some (get_or s.queue_heads s.highest_ready_priority none) ≡ true)
      ⊎ (s.highest_ready_priority ≡ 0)

pub Same-IsHighest : (s s' : Scheduler) → Same s s' → IsHighest s → IsHighest s'
Same-IsHighest s s' (heads, highest) h = record {
  above = rw (heads, highest) h.above;
  top = rw (heads, highest) h.top;
}

pub is_some-set :
    (heads : List (Option Thread)) (p q : ℕ) (v : Option Thread)
    → p < length heads
    → is_some (get_or (set heads p v) q none)
      ≡ (if p == q then is_some v else is_some (get_or heads q none))
is_some-set heads p q v h = elim (Bool-cases (p == q)) [
  | inl at ↦ rw (at, ← eq_of_== p q at, get_or-set_self heads p v none h) refl
  | inr off ↦ rw (off, get_or-set_ne heads p q v none (ne_of_== p q off)) refl
]

module _ (s : Scheduler) (p : ℕ) (p_in : p < length s.queue_heads) (h : IsHighest s) where
  -- A queue that has a head gets another.
  pub moved-IsHighest :
      (t : Thread) → is_some (head_of s p) ≡ true → IsHighest (set_head s p (some t))
  moved-IsHighest t full = record {
    above = λ q lt. ground (arith, is_some-set s.queue_heads p q (some t) p_in, h.above q lt);
    top = ground (arith, is_some-set s.queue_heads p s.highest_ready_priority (some t) p_in, h.top);
  }

  -- An empty queue gets a head, and the highest priority follows.
  pub raised-IsHighest :
      (t : Thread)
      → IsHighest (record (set_head s p (some t)) {
        highest_ready_priority =
            if ltb s.highest_ready_priority p then p else s.highest_ready_priority;
      })
  raised-IsHighest t = record {
    above = λ q lt. ground (arith, is_some-set s.queue_heads p q (some t) p_in, h.above q);
    top = ground (
      arith,
      is_some-set s.queue_heads p p (some t) p_in,
      is_some-set s.queue_heads p s.highest_ready_priority (some t) p_in,
      h.top,
    );
  }

-- `last_head` finds the last head below an index, if there is one.
last_head_beyond :
    (heads : List (Option Thread)) (n q : ℕ)
    → last_head heads n < q
    → q < n
    → is_some (get_or heads q none) ≡ false
unfolding last_head
last_head_beyond heads zero q lt h = elim h [ ]
last_head_beyond heads (suc n) q lt h = elim (Bool-cases (q == n)) [
  | inl at ↦ ground (arith, ap (λ k. is_some (get_or heads k none)) (eq_of_== q n at))
  | inr off ↦ ground (arith, last_head_beyond heads n q, ne_of_== q n off)
]

last_head_found :
    (heads : List (Option Thread)) (n : ℕ)
    → (is_some (get_or heads (last_head heads n) none) ≡ true) ⊎ (last_head heads n ≡ 0)
unfolding last_head
last_head_found heads zero = inr refl
last_head_found heads (suc n) = elim (Bool-cases (is_some (get_or heads n none))) [
  | inl has ↦ rw has (inl has)
  | inr not_there ↦ rw not_there (last_head_found heads n)
]

-- A queue gets empty.
pub clear_queue-IsHighest :
    (s : Scheduler) (p : ℕ) → p < length s.queue_heads → IsHighest s → IsHighest (clear_queue s p)
unfolding clear_queue
clear_queue-IsHighest s p p_in h = elim (Bool-cases (p == s.highest_ready_priority)) [
  | inl at ↦ rw at (record {
    above = λ q lt. ground (
      arith,
      is_some-set s.queue_heads p q none p_in,
      last_head_beyond (set s.queue_heads p none) p q lt,
      h.above q,
    );
    top = last_head_found (set s.queue_heads p none) p;
  })
  | inr off ↦ rw off (record {
    above = λ q lt. ground (arith, is_some-set s.queue_heads p q none p_in, h.above q);
    top = ground (arith, is_some-set s.queue_heads p s.highest_ready_priority none p_in, h.top);
  })
]
