-- ===== src/Scheduler/Ready.antt =====
-- `ready_thread` of xous/kernel/src/scheduler.rs puts a thread at the end of its ring.
use beet_core.Common.{
  ℕ, zero, suc, ◌≡◌, ◌≢◌, ◌∙◌, refl, sym, ap, arith, false, List, [], ◌∷◌, ◌++◌, Option, none, some,
  length, ◌<◌, get_or, get_or-set_self, ◌==◌,
}
use beet_core.Abi.Outcome.{ok}
use beet_core.Scheduler.{
  Thread, SchedulerLink, Scheduler, link_at, link_copy, head_of, enqueue, ready_thread, irq_tid,
}
use beet_core.Scheduler.Links.{set_link_lem, update_link_lem}
use beet_core.Scheduler.Ring.{
  Linked, Next, Prev, last, Inner, Ring, Distinct, Linked-ne, Sets-Next, Sets-Prev, Sets-Next_other,
  Sets-Prev_other, Inner-keep, Inner-append, last-append, Ring-Fresh, Distinct-append,
  Distinct-Fresh,
}

module _ (s : Scheduler) (t x : Thread) (xs : List Thread) (p : ℕ) (d : Distinct x xs)
    (ring : Ring s x xs) (free : link_copy s t ≡ ok none) where
  enqueue-Ring :
      (s' : Scheduler) × (enqueue s t p (some x) ≡ ok s')
      × Ring s' x (xs ++ t ∷ [])
      × (s'.queue_heads ≡ s.queue_heads)
  unfolding enqueue
  enqueue-Ring =
      let (l0, e0, f0) = ring.2 in
      let (s1, done1, sets1) =
        set_link_lem s x (some (record { next = l0.next; prev = t })) (some l0) e0 in
      let (l1, e1, f1) = Sets-Next sets1 e0 refl (last x xs) x ring.1 in
      let at_last : Linked s1 l0.prev l1 = ap (link_copy s1) f0 ∙ e1 in
      let (s2, done2, sets2) = update_link_lem s1 l0.prev (λ l. record l { next = t }) l1 at_last in
      let x_ne : x ≢ t = Linked-ne s x t l0 e0 free in
      let last_ne : last x xs ≢ t =
        (let (l, e, f) = ring.1 in Linked-ne s (last x xs) t l e free) in
      let free2 : link_copy s2 t ≡ ok none =
        sets2.off t (λ same. last_ne (sym (same ∙ f0)))
        ∙ sets1.off t (λ same. x_ne (sym same))
        ∙ free in
      let (s3, done3, sets3) =
        set_link_lem s2 t (some (record { next = x; prev = l0.prev })) none free2 in
      let next : (u v : Thread) → u ≢ last x xs → Next s u v → Next s3 u v = (λ u v ne n.
        Sets-Next_other sets3 u v (Linked-ne s u t n.0 n.1 free)
          (Sets-Next_other sets2 u v (λ same. ne (same ∙ f0)) (Sets-Next sets1 e0 refl u v n))) in
      let prev : (u v : Thread) → u ≢ x → Prev s u v → Prev s3 u v = (λ u v ne n.
        Sets-Prev_other sets3 u v (Linked-ne s u t n.0 n.1 free)
          (Sets-Prev sets2 at_last refl u v (Sets-Prev_other sets1 u v ne n))) in
      let last_t : Next s3 (last x xs) t =
        Sets-Next_other sets3 (last x xs) t last_ne
          (_, ap (link_copy s2) (sym f0) ∙ sets2.at, refl) in
      let x_t : Prev s3 x t =
        Sets-Prev_other sets3 x t x_ne (Sets-Prev sets2 at_last refl x t (_, sets1.at, refl)) in
      let inner : Inner s3 x xs =
        Inner-keep s s3 x x xs d (Distinct-Fresh x xs d) next prev ring.0 in
      (
        s3,
        rw (free, e0, done1, done2) done3,
        (
          Inner-append s3 x t xs inner last_t (_, sets3.at, f0),
          rw (last-append x t xs) (_, sets3.at, refl),
          rw (last-append x t xs) x_t,
        ),
        sets3.heads ∙ sets2.heads ∙ sets1.heads,
      )

link_at_links :
    (s s' : Scheduler) (pid tid : ℕ) → s'.links ≡ s.links → link_at s' pid tid ≡ link_at s pid tid
unfolding link_at
link_at_links s s' zero tid e = refl
link_at_links s s' (suc p) zero e = refl
link_at_links s s' (suc p) (suc i) e = rw e refl

pub link_copy_links :
    (s s' : Scheduler) (t : Thread) → s'.links ≡ s.links → link_copy s' t ≡ link_copy s t
unfolding link_copy
link_copy_links s s' t e = link_at_links s s' t.pid t.tid e

link_at-tid :
    (s : Scheduler) (pid tid : ℕ) (old : Option SchedulerLink)
    → link_at s pid tid ≡ ok old
    → (tid == irq_tid) ≡ false
unfolding link_at
link_at-tid s zero tid old e = ground arith
link_at-tid s (suc p) zero old e = ground arith
link_at-tid s (suc p) (suc i) old e = ground arith

-- The interrupt thread has no link.
pub link_copy-tid :
    (s : Scheduler) (t : Thread) (old : Option SchedulerLink)
    → link_copy s t ≡ ok old
    → (t.tid == irq_tid) ≡ false
unfolding link_copy
link_copy-tid s t old e = link_at-tid s t.pid t.tid old e

-- The ready threads of a priority, from the head on: none, or a ring of distinct threads.
abbrev pub Queue : Scheduler → ℕ → List Thread → Type 0
Queue s p [] = head_of s p ≡ none
Queue s p (x ∷ xs) = (head_of s p ≡ some x) × Distinct x xs × Ring s x xs

enqueue-alone :
    (s : Scheduler) (t : Thread) (p : ℕ)
    → p < length s.queue_heads
    → link_copy s t ≡ ok none
    → (s' : Scheduler) × (enqueue s t p none ≡ ok s') × Queue s' p (t ∷ [])
unfolding enqueue
enqueue-alone s t p p_in free =
    let (s', done, sets) =
      set_link_lem _ t (some (record { next = t; prev = t })) none
        (link_copy_links s _ t refl ∙ free) in
    (
      s',
      done,
      (
        ap (λ heads. get_or heads p none) sets.heads
            ∙ get_or-set_self s.queue_heads p (some t) none p_in,
        tt,
        (tt, (_, sets.at, refl), (_, sets.at, refl)),
      ),
    )

enqueue-Queue :
    (s : Scheduler) (t : Thread) (p : ℕ) (ts : List Thread)
    → p < length s.queue_heads
    → Queue s p ts
    → link_copy s t ≡ ok none
    → (s' : Scheduler) × (enqueue s t p (head_of s p) ≡ ok s') × Queue s' p (ts ++ t ∷ [])
enqueue-Queue s t p [] p_in none_ready free =
    let (s', done, queue) = enqueue-alone s t p p_in free in (s', rw none_ready done, queue)
enqueue-Queue s t p (x ∷ xs) p_in (head, distinct, ring) free =
    let (s', done, ring', heads) = enqueue-Ring s t x xs p distinct ring free in
    (
      s',
      rw head done,
      (
        ap (λ hs. get_or hs p none) heads ∙ head,
        Distinct-append x t xs distinct (Ring-Fresh s t x xs free ring),
        ring',
      ),
    )

-- A thread of the table that has no link becomes ready: `ready_thread` does not panic, and puts it
-- behind the threads that are ready at its priority, for a priority in range.
pub ready_thread-Queue :
    (s : Scheduler) (t : Thread) (p : ℕ) (ts : List Thread)
    → p < length s.queue_heads
    → Queue s p ts
    → link_copy s t ≡ ok none
    → (s' : Scheduler) × (ready_thread s t p ≡ ok s') × Queue s' p (ts ++ t ∷ [])
unfolding ready_thread
ready_thread-Queue s t p ts p_in queue free =
    rw (link_copy-tid s t none free) (enqueue-Queue s t p ts p_in queue free)
