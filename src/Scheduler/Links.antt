-- ===== src/Scheduler/Links.antt =====
-- The table of links of xous/kernel/src/scheduler.rs: what `link_copy` reads after `link_mut` is
-- written.
use beet_core.Common.{
  ◌⊎◌, ℕ, zero, suc, ◌-◌, ◌≡◌, ◌≢◌, refl, sym, ap, arith, List, [], ◌∷◌, Option, none, some,
  get_elem?, get_or, set, get_elem?-set_self, get_elem?-set_ne, get_elem?-lt, Bool-cases, inl, inr,
  ◌==◌, eq_of_==, ne_of_==,
}
use beet_core.Abi.Outcome.{ok, expect}
use beet_core.Scheduler.{
  Thread, SchedulerLink, Scheduler, link_in, link_at, link_copy, set_link, update_link,
}

abbrev Link : Type 0
Link = Option SchedulerLink

-- The table with one link written.
abbrev written : List (List Link) → ℕ → ℕ → Link → List (List Link)
written links p i link = set links p (set (get_or links p []) i link)

expect_ok : (o : Option Link) (old : Link) → expect o ≡ ok old → o ≡ some old
expect_ok none old e = ground arith
expect_ok (some x) old e = ground arith

link_in-written_self :
    (links : List (List Link)) (p i : ℕ) (link old : Link)
    → link_in (get_elem? links p) i ≡ ok old
    → link_in (get_elem? (written links p i link) p) i ≡ ok link
link_in-written_self [] p i link old e = ground arith
link_in-written_self (row ∷ rows) zero i link old e =
    ap expect (get_elem?-set_self row i link (get_elem?-lt row i (expect_ok _ old e)))
link_in-written_self (row ∷ rows) (suc p) i link old e = link_in-written_self rows p i link old e

link_in-written_ne :
    (links : List (List Link)) (p i q j : ℕ) (link : Link)
    → (p ≢ q) ⊎ (i ≢ j)
    → link_in (get_elem? (written links p i link) q) j ≡ link_in (get_elem? links q) j
link_in-written_ne links p i q j link (inl ne) =
    ap (λ row. link_in row j) (get_elem?-set_ne links p q _ ne)
link_in-written_ne [] p i q j link (inr ne) = refl
link_in-written_ne (row ∷ rows) zero i zero j link (inr ne) =
    ap expect (get_elem?-set_ne row i j link ne)
link_in-written_ne (row ∷ rows) zero i (suc q) j link (inr ne) = refl
link_in-written_ne (row ∷ rows) (suc p) i zero j link (inr ne) = refl
link_in-written_ne (row ∷ rows) (suc p) i (suc q) j link (inr ne) =
    link_in-written_ne rows p i q j link (inr ne)

-- What a write of one link leaves.
pub record Sets (s : Scheduler) (t : Thread) (link : Link) (s' : Scheduler) : Type 0 where
  pub at : link_copy s' t ≡ ok link
  pub off : (u : Thread) → u ≢ t → link_copy s' u ≡ link_copy s u
  pub heads : s'.queue_heads ≡ s.queue_heads
  pub highest : s'.highest_ready_priority ≡ s.highest_ready_priority
  pub irq : s'.in_irq_handler ≡ s.in_irq_handler

sub_suc : (n : ℕ) → suc n - 1 ≡ n
sub_suc n = omega arith

link_at-written_self :
    (s : Scheduler) (pid tid : ℕ) (link old : Link)
    → link_at s pid tid ≡ ok old
    → link_at (record s { links = written s.links (pid - 1) (tid - 1) link }) pid tid ≡ ok link
unfolding link_at
link_at-written_self s zero tid link old e = ground arith
link_at-written_self s (suc p) zero link old e = ground arith
link_at-written_self s (suc p) (suc i) link old e =
    rw (sub_suc p, sub_suc i) (link_in-written_self s.links p i link old e)

link_at-written_ne :
    (s : Scheduler) (pid tid pid' tid' : ℕ) (link old : Link)
    → link_at s pid tid ≡ ok old
    → (pid ≢ pid') ⊎ (tid ≢ tid')
    → link_at (record s { links = written s.links (pid - 1) (tid - 1) link }) pid' tid'
      ≡ link_at s pid' tid'
unfolding link_at
link_at-written_ne s zero tid pid' tid' link old e ne = ground arith
link_at-written_ne s (suc p) zero pid' tid' link old e ne = ground arith
link_at-written_ne s (suc p) (suc i) zero tid' link old e ne = refl
link_at-written_ne s (suc p) (suc i) (suc q) zero link old e ne = refl
link_at-written_ne s (suc p) (suc i) (suc q) (suc j) link old e (inl ne) =
    rw (sub_suc p, sub_suc i)
      (link_in-written_ne s.links p i q j link (inl (λ same. ne (ap suc same))))
link_at-written_ne s (suc p) (suc i) (suc q) (suc j) link old e (inr ne) =
    rw (sub_suc p, sub_suc i)
      (link_in-written_ne s.links p i q j link (inr (λ same. ne (ap suc same))))

pub thread_eq : (t u : Thread) → t.pid ≡ u.pid → t.tid ≡ u.tid → t ≡ u
thread_eq t u e f = λ i. record { pid = e i; tid = f i }

thread_ne : (t u : Thread) → u ≢ t → (t.pid ≢ u.pid) ⊎ (t.tid ≢ u.tid)
thread_ne t u ne = elim (Bool-cases (t.pid == u.pid)) [
  | inl e ↦ inr (λ f. ne (sym (thread_eq t u (eq_of_== _ _ e) f)))
  | inr e ↦ inl (ne_of_== _ _ e)
]

-- A thread of the table can have its link written, and no other link changes.
pub set_link_lem :
    (s : Scheduler) (t : Thread) (link old : Link)
    → link_copy s t ≡ ok old
    → (s' : Scheduler) × (set_link s t link ≡ ok s') × Sets s t link s'
unfolding link_copy set_link
set_link_lem s t link old e = (
  record s { links = written s.links (t.pid - 1) (t.tid - 1) link },
  rw e refl,
  record {
    at = link_at-written_self s t.pid t.tid link old e;
    off = λ u ne. link_at-written_ne s t.pid t.tid u.pid u.tid link old e (thread_ne t u ne);
    heads = refl;
    highest = refl;
    irq = refl;
  },
)

pub update_link_lem :
    (s : Scheduler) (t : Thread) (f : SchedulerLink → SchedulerLink) (old : SchedulerLink)
    → link_copy s t ≡ ok (some old)
    → (s' : Scheduler) × (update_link s t f ≡ ok s') × Sets s t (some (f old)) s'
unfolding update_link
update_link_lem s t f old e =
    let (s', done, sets) = set_link_lem s t (some (f old)) (some old) e in (s', rw e done, sets)
