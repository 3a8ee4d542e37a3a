-- ===== src/Scheduler/Ring.antt =====
-- The ready threads of one priority of xous/kernel/src/scheduler.rs as a ring of links, and what a
-- write of a link does to it.
use beet_core.Common.{
  ◌≡◌, ◌≢◌, ◌∙◌, ◌⊎◌, refl, sym, ap, arith, List, [], ◌∷◌, ◌++◌, Option, none, some, Bool-cases,
  inl, inr, ◌==◌, eq_of_==, ne_of_==,
}
use beet_core.Abi.Outcome.{ok}
use beet_core.Scheduler.{Thread, SchedulerLink, Scheduler, link_copy}
use beet_core.Scheduler.Links.{Sets, thread_eq}

-- The link of a thread, and what stands after and before it.
abbrev pub Linked : Scheduler → Thread → SchedulerLink → Type 0
Linked s u l = link_copy s u ≡ ok (some l)

abbrev pub Next : Scheduler → Thread → Thread → Type 0
Next s u v = (l : SchedulerLink) × Linked s u l × (l.next ≡ v)

abbrev pub Prev : Scheduler → Thread → Thread → Type 0
Prev s u v = (l : SchedulerLink) × Linked s u l × (l.prev ≡ v)

abbrev pub last : Thread → List Thread → Thread
last x [] = x
last x (y ∷ ys) = last y ys

-- Each thread of a list is linked to the one after it, and back.
abbrev pub Inner : Scheduler → Thread → List Thread → Type 0
Inner s x [] = Unit {0}
Inner s x (y ∷ ys) = Next s x y × Prev s y x × Inner s y ys

-- The last thread is linked to the first as well.
abbrev pub Ring : Scheduler → Thread → List Thread → Type 0
Ring s x xs = Inner s x xs × Next s (last x xs) x × Prev s x (last x xs)

abbrev pub Fresh : Thread → List Thread → Type 0
Fresh t [] = Unit {0}
Fresh t (x ∷ xs) = (t ≢ x) × Fresh t xs

abbrev pub Distinct : Thread → List Thread → Type 0
Distinct x [] = Unit {0}
Distinct x (y ∷ ys) = Fresh x (y ∷ ys) × Distinct y ys

pub same_thread : (t u : Thread) → (t ≡ u) ⊎ (t ≢ u)
same_thread t u = elim (Bool-cases (t.pid == u.pid)) [
  | inr e ↦ inr (λ same. ne_of_== _ _ e (ap (λ x. x.pid) same))
  | inl e ↦ elim (Bool-cases (t.tid == u.tid)) [
    | inr f ↦ inr (λ same. ne_of_== _ _ f (ap (λ x. x.tid) same))
    | inl f ↦ inl (thread_eq t u (eq_of_== _ _ e) (eq_of_== _ _ f))
  ]
]

pub ok_some : {l l' : SchedulerLink} → ok (some l) ≡ ok (some l') → l ≡ l'
ok_some e = ground arith

ok_none : {l : SchedulerLink} → ok (some l) ≡ ok none → ⊥
ok_none e = ground arith

-- A linked thread is another than one that is not.
pub Linked-ne :
    (s : Scheduler) (u t : Thread) (l : SchedulerLink)
    → Linked s u l
    → link_copy s t ≡ ok none
    → u ≢ t
Linked-ne s u t l e f same = ok_none (sym e ∙ ap (link_copy s) same ∙ f)

module _ {s s' : Scheduler} {t : Thread} {link : Option SchedulerLink}
    (sets : Sets s t link s') where
  pub Sets-Next_other : (u v : Thread) → u ≢ t → Next s u v → Next s' u v
  Sets-Next_other u v ne (l, e, f) = (l, sets.off u ne ∙ e, f)

  pub Sets-Prev_other : (u v : Thread) → u ≢ t → Prev s u v → Prev s' u v
  Sets-Prev_other u v ne (l, e, f) = (l, sets.off u ne ∙ e, f)

module _ {s s' : Scheduler} {t : Thread} {link old : SchedulerLink} (sets : Sets s t (some link) s')
    (was : Linked s t old) where
  -- A write that keeps the next thread keeps all that stands after others, and conversely.
  pub Sets-Next : link.next ≡ old.next → (u v : Thread) → Next s u v → Next s' u v
  Sets-Next keep u v (l, e, f) = elim (same_thread u t) [
    | inl same ↦ (
      link,
      ap (link_copy s') same ∙ sets.at,
      keep ∙ ap (λ x. x.next) (ok_some (sym was ∙ ap (link_copy s) (sym same) ∙ e)) ∙ f,
    )
    | inr other ↦ Sets-Next_other sets u v other (l, e, f)
  ]

  pub Sets-Prev : link.prev ≡ old.prev → (u v : Thread) → Prev s u v → Prev s' u v
  Sets-Prev keep u v (l, e, f) = elim (same_thread u t) [
    | inl same ↦ (
      link,
      ap (link_copy s') same ∙ sets.at,
      keep ∙ ap (λ x. x.prev) (ok_some (sym was ∙ ap (link_copy s) (sym same) ∙ e)) ∙ f,
    )
    | inr other ↦ Sets-Prev_other sets u v other (l, e, f)
  ]

pub Fresh-last : (t x : Thread) (xs : List Thread) → Fresh t (x ∷ xs) → t ≢ last x xs
Fresh-last t x [] v = v.0
Fresh-last t x (y ∷ ys) v = Fresh-last t y ys v.1

-- What a change has to keep for the inner links of a list.
pub Inner-keep :
    (s s' : Scheduler) (head x : Thread) (xs : List Thread)
    → Distinct x xs
    → Fresh head xs
    → ((u v : Thread) → u ≢ last x xs → Next s u v → Next s' u v)
    → ((u v : Thread) → u ≢ head → Prev s u v → Prev s' u v)
    → Inner s x xs
    → Inner s' x xs
Inner-keep s s' head x [] d f next prev inner = tt
Inner-keep s s' head x (y ∷ ys) d f next prev inner = (
  next x y (Fresh-last x y ys d.0) inner.0,
  prev y x (λ e. f.0 (sym e)) inner.1,
  Inner-keep s s' head y ys d.1 f.1 next prev inner.2,
)

pub Inner-append :
    (s : Scheduler) (x t : Thread) (xs : List Thread)
    → Inner s x xs
    → Next s (last x xs) t
    → Prev s t (last x xs)
    → Inner s x (xs ++ t ∷ [])
Inner-append s x t [] inner next prev = (next, prev, tt)
Inner-append s x t (y ∷ ys) inner next prev =
    (inner.0, inner.1, Inner-append s y t ys inner.2 next prev)

pub last-append : (x t : Thread) (xs : List Thread) → last x (xs ++ t ∷ []) ≡ t
last-append x t [] = refl
last-append x t (y ∷ ys) = last-append y t ys

Inner-Fresh :
    (s : Scheduler) (t x : Thread) (xs : List Thread)
    → link_copy s t ≡ ok none
    → Inner s x xs
    → Fresh t xs
Inner-Fresh s t x [] free inner = tt
Inner-Fresh s t x (y ∷ ys) free inner =
    let (l, e, f) = inner.1 in
    ((λ same. Linked-ne s y t l e free (sym same)), Inner-Fresh s t y ys free inner.2)

-- A thread that is not linked is in no ring.
pub Ring-Fresh :
    (s : Scheduler) (t x : Thread) (xs : List Thread)
    → link_copy s t ≡ ok none
    → Ring s x xs
    → Fresh t (x ∷ xs)
Ring-Fresh s t x xs free ring =
    let (l, e, f) = ring.2 in
    ((λ same. Linked-ne s x t l e free (sym same)), Inner-Fresh s t x xs free ring.0)

Fresh-append : (t u : Thread) (xs : List Thread) → Fresh t xs → t ≢ u → Fresh t (xs ++ u ∷ [])
Fresh-append t u [] v ne = (ne, tt)
Fresh-append t u (x ∷ xs) v ne = (v.0, Fresh-append t u xs v.1 ne)

pub Distinct-append :
    (x t : Thread) (xs : List Thread) → Distinct x xs → Fresh t (x ∷ xs) → Distinct x (xs ++ t ∷ [])
Distinct-append x t [] d f = (((λ e. f.0 (sym e)), tt), tt)
Distinct-append x t (y ∷ ys) d f =
    (Fresh-append x t (y ∷ ys) d.0 (λ e. f.0 (sym e)), Distinct-append y t ys d.1 f.1)

pub Distinct-Fresh : (x : Thread) (xs : List Thread) → Distinct x xs → Fresh x xs
Distinct-Fresh x [] d = tt
Distinct-Fresh x (y ∷ ys) d = d.0
