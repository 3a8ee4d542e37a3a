-- ===== src/Scheduler/Park.antt =====
-- `park_thread` of xous/kernel/src/scheduler.rs takes the head out of the ring of ready threads.
use beet_core.Common.{
  ℕ, ◌≡◌, ◌≢◌, ◌∙◌, refl, sym, ap, subst, arith, Bool-cases, inl, inr, true, false, List, [], ◌∷◌,
  Option, none, some, length, ◌<◌, get_or, get_or-set_self,
}
use beet_core.Abi.Outcome.{ok}
use beet_core.Scheduler.{
  Thread, SchedulerLink, Scheduler, is_thread, link_copy, head_of, set_head, clear_queue, unlink,
  park_linked, park_thread,
}
use beet_core.Scheduler.Links.{Sets, set_link_lem, update_link_lem, thread_eq}
use beet_core.Scheduler.Ring.{
  Linked, Next, Prev, last, Inner, Ring, Fresh, Distinct, ok_some, Fresh-last, Sets-Next, Sets-Prev,
  Sets-Next_other, Sets-Prev_other, Inner-keep, Distinct-Fresh,
}
use beet_core.Scheduler.Ready.{Queue, link_copy_links, link_copy-tid}
use beet_core.Scheduler.Yield.{is_thread_refl, links-Next, links-Prev, links-Inner}

is_thread_ne : (u t : Thread) → t ≢ u → is_thread u t ≡ false
is_thread_ne u t ne = elim (Bool-cases (is_thread u t)) [
  | inr other ↦ other
  | inl same ↦ absurd (ne (thread_eq t u (ground (arith, same)) (ground (arith, same))))
]

-- The other threads' links stay when a thread's link is written.
Inner-Sets :
    (s s' : Scheduler) (t : Thread) (link : Option SchedulerLink) (y : Thread) (ys : List Thread)
    → Sets s t link s'
    → Fresh t (y ∷ ys)
    → Inner s y ys
    → Inner s' y ys
Inner-Sets s s' t link y [] sets f inner = tt
Inner-Sets s s' t link y (z ∷ zs) sets f inner = (
  Sets-Next_other sets y z (λ e. f.0 (sym e)) inner.0,
  Sets-Prev_other sets z y (λ e. f.1.0 (sym e)) inner.1,
  Inner-Sets s s' t link z zs sets f.1 inner.2,
)

module _ (s : Scheduler) (t y : Thread) (ys : List Thread) (p : ℕ) (p_in : p < length s.queue_heads)
    (head : head_of s p ≡ some t) (d : Distinct t (y ∷ ys)) (ring : Ring s t (y ∷ ys)) where
  park_linked-Ring :
      (s' : Scheduler) × (park_linked s t p ≡ ok s')
      × Ring s' y ys
      × (head_of s' p ≡ some y)
      × (link_copy s' t ≡ ok none)
  unfolding park_linked unlink
  park_linked-Ring =
      let (l0, e0, f0) = ring.2 in
      let (la, ea, fa) = ring.0.0 in
      let n0 : l0.next ≡ y = ap (λ l. l.next) (ok_some (sym e0 ∙ ea)) ∙ fa in
      let fresh : Fresh t (y ∷ ys) = d.0 in
      let last_ne : t ≢ last y ys = Fresh-last t y ys fresh in
      let (s0, done0, sets0) = set_link_lem s t none (some l0) e0 in
      let s1 : Scheduler = set_head s0 p (some l0.next) in
      let (l1, e1, f1) =
        links-Next s0 s1 refl (last y ys) t
          (Sets-Next_other sets0 (last y ys) t (λ e. last_ne (sym e)) ring.1) in
      let at_last : Linked s1 l0.prev l1 = ap (link_copy s1) f0 ∙ e1 in
      let (s2, done2, sets2) =
        update_link_lem s1 l0.prev (λ l. record l { next = l0.next }) l1 at_last in
      let y_t : Prev s1 y t =
        links-Prev s0 s1 refl y t (Sets-Prev_other sets0 y t (λ e. fresh.0 (sym e)) ring.0.1) in
      let (l2, e2, f2) = Sets-Prev sets2 at_last refl y t y_t in
      let at_y : Linked s2 l0.next l2 = ap (link_copy s2) n0 ∙ e2 in
      let (s3, done3, sets3) =
        update_link_lem s2 l0.next (λ l. record l { prev = l0.prev }) l2 at_y in
      let inner1 : Inner s1 y ys =
        links-Inner s0 s1 refl y ys (Inner-Sets s s0 t none y ys sets0 fresh ring.0.2) in
      let next : (u v : Thread) → u ≢ last y ys → Next s1 u v → Next s3 u v = (λ u v ne n.
        Sets-Next sets3 at_y refl u v (Sets-Next_other sets2 u v (λ same. ne (same ∙ f0)) n)) in
      let prev : (u v : Thread) → u ≢ y → Prev s1 u v → Prev s3 u v = (λ u v ne n.
        Sets-Prev_other sets3 u v (λ same. ne (same ∙ n0)) (Sets-Prev sets2 at_last refl u v n)) in
      let inner : Inner s3 y ys =
        Inner-keep s1 s3 y y ys d.1 (Distinct-Fresh y ys d.1) next prev inner1 in
      let last_y : Next s3 (last y ys) y =
        Sets-Next sets3 at_y refl (last y ys) y (_, ap (link_copy s2) (sym f0) ∙ sets2.at, n0) in
      let y_last : Prev s3 y (last y ys) = (_, ap (link_copy s3) (sym n0) ∙ sets3.at, f0) in
      let head0 : head_of s0 p ≡ some t = ap (λ hs. get_or hs p none) sets0.heads ∙ head in
      let next_ne : is_thread l0.next t ≡ false = is_thread_ne l0.next t (λ e. fresh.0 (e ∙ n0)) in
      (
        s3,
        rw (e0, done0, next_ne, head0, is_thread_refl t, done2) done3,
        (inner, last_y, y_last),
        ap (λ hs. get_or hs p none) (sets3.heads ∙ sets2.heads)
            ∙ get_or-set_self s0.queue_heads p (some l0.next) none
                (subst (λ hs. p < length hs) (sym sets0.heads) p_in)
            ∙ ap some n0,
        sets3.off t (λ e. fresh.0 (e ∙ n0))
            ∙ sets2.off t (λ e. last_ne (e ∙ f0))
            ∙ link_copy_links s0 s1 t refl
            ∙ sets0.at,
      )

-- A thread alone in its ring leaves no head.
park_linked-alone :
    (s : Scheduler) (t : Thread) (p : ℕ)
    → p < length s.queue_heads
    → Ring s t []
    → (s' : Scheduler) × (park_linked s t p ≡ ok s')
      × (head_of s' p ≡ none)
      × (link_copy s' t ≡ ok none)
unfolding park_linked clear_queue
park_linked-alone s t p p_in ring =
    let (l0, e0, f0) = ring.1 in
    let (s0, done0, sets0) = set_link_lem s t none (some l0) e0 in
    let same : is_thread l0.next t ≡ true = ap (λ u. is_thread u t) f0 ∙ is_thread_refl t in
    (
      clear_queue s0 p,
      rw (e0, done0, same) refl,
      get_or-set_self s0.queue_heads p none none
          (subst (λ hs. p < length hs) (sym sets0.heads) p_in),
      link_copy_links s0 (clear_queue s0 p) t refl ∙ sets0.at,
    )

park_linked-Queue :
    (s : Scheduler) (t : Thread) (ts : List Thread) (p : ℕ)
    → p < length s.queue_heads
    → Queue s p (t ∷ ts)
    → (s' : Scheduler) × (park_linked s t p ≡ ok s') × Queue s' p ts × (link_copy s' t ≡ ok none)
park_linked-Queue s t [] p p_in (head, distinct, ring) = park_linked-alone s t p p_in ring
park_linked-Queue s t (y ∷ ys) p p_in (head, distinct, ring) =
    let (s', done, ring', head', gone) = park_linked-Ring s t y ys p p_in head distinct ring in
    (s', done, (head', distinct.1, ring'), gone)

-- When the head of a queue is parked, for a priority in range, `park_thread` does not panic: the
-- others stay ready in their order, and the thread has no link any more.
pub park_thread-Queue :
    (s : Scheduler) (t : Thread) (ts : List Thread) (p : ℕ)
    → p < length s.queue_heads
    → Queue s p (t ∷ ts)
    → (s' : Scheduler) × (park_thread s t p ≡ ok s') × Queue s' p ts × (link_copy s' t ≡ ok none)
unfolding park_thread
park_thread-Queue s t ts p p_in (head, distinct, ring) =
    rw (link_copy-tid s t (some (ring.2.0)) (ring.2.1))
      (park_linked-Queue s t ts p p_in (head, distinct, ring))
