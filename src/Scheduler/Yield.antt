-- ===== src/Scheduler/Yield.antt =====
-- `yield_thread` of xous/kernel/src/scheduler.rs turns the ring of ready threads by one.
use beet_core.Common.{
  ℕ, ◌≡◌, ◌∙◌, refl, ap, arith, true, List, [], ◌∷◌, ◌++◌, none, some, length, ◌<◌, get_or-set_self,
  ==_refl,
}
use beet_core.Abi.Outcome.{ok}
use beet_core.Scheduler.{Thread, Scheduler, is_thread, head_of, set_head, yield_thread}
use beet_core.Scheduler.Ring.{
  Next, Prev, last, Inner, Ring, Inner-append, last-append, Distinct-append,
}
use beet_core.Scheduler.Ready.{Queue, link_copy_links}

pub is_thread_refl : (t : Thread) → is_thread t t ≡ true
is_thread_refl t = ground (arith, ==_refl t.pid, ==_refl t.tid)

module _ (s s' : Scheduler) (same : s'.links ≡ s.links) where
  pub links-Next : (u v : Thread) → Next s u v → Next s' u v
  links-Next u v (l, e, f) = (l, link_copy_links s s' u same ∙ e, f)

  pub links-Prev : (u v : Thread) → Prev s u v → Prev s' u v
  links-Prev u v (l, e, f) = (l, link_copy_links s s' u same ∙ e, f)

  pub links-Inner : (x : Thread) (xs : List Thread) → Inner s x xs → Inner s' x xs
  links-Inner x [] inner = tt
  links-Inner x (y ∷ ys) inner =
      (links-Next x y inner.0, links-Prev y x inner.1, links-Inner y ys inner.2)

  links-Ring : (x : Thread) (xs : List Thread) → Ring s x xs → Ring s' x xs
  links-Ring x xs ring =
      (links-Inner x xs ring.0, links-Next (last x xs) x ring.1, links-Prev x (last x xs) ring.2)

-- The ring of a list, read from its second thread.
Ring-turned :
    (s : Scheduler) (x y : Thread) (ys : List Thread) → Ring s x (y ∷ ys) → Ring s y (ys ++ x ∷ [])
Ring-turned s x y ys ring = (
  Inner-append s y x ys ring.0.2 ring.1 ring.2,
  rw (last-append y x ys) ring.0.0,
  rw (last-append y x ys) ring.0.1,
)

yield_thread_turn :
    (s : Scheduler) (x y : Thread) (p : ℕ)
    → head_of s p ≡ some x
    → Next s x y
    → yield_thread s x p ≡ ok (set_head s p (some y))
unfolding yield_thread
yield_thread_turn s x y p head (l, e, f) =
    rw (head, is_thread_refl x, e) (ap (λ u. ok (set_head s p (some u))) f)

-- When the head of a queue yields, for a priority in range, `yield_thread` does not panic, and the
-- head goes behind the other threads that are ready at its priority.
pub yield_thread-Queue :
    (s : Scheduler) (x : Thread) (xs : List Thread) (p : ℕ)
    → p < length s.queue_heads
    → Queue s p (x ∷ xs)
    → (s' : Scheduler) × (yield_thread s x p ≡ ok s') × Queue s' p (xs ++ x ∷ [])
yield_thread-Queue s x [] p p_in (head, distinct, ring) = (
  set_head s p (some x),
  yield_thread_turn s x x p head ring.1,
  (get_or-set_self s.queue_heads p (some x) none p_in, tt, links-Ring s _ refl x [] ring),
)
yield_thread-Queue s x (y ∷ ys) p p_in (head, distinct, ring) = (
  set_head s p (some y),
  yield_thread_turn s x y p head ring.0.0,
  (
    get_or-set_self s.queue_heads p (some y) none p_in,
    Distinct-append y x ys distinct.1 distinct.0,
    links-Ring s _ refl y (ys ++ x ∷ []) (Ring-turned s x y ys ring),
  ),
)
