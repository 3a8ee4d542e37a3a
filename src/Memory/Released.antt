-- ===== src/Memory/Released.antt =====
-- `release_all_memory_for_process` in xous/kernel/src/mem.rs.
use beet_core.Common.{
  ℕ, zero, suc, ◌+◌, ◌<◌, ◌≤◌, ◌≡◌, refl, ap, ◌∙◌, subst, inl, inr, arith, true, false, List, [],
  ◌∷◌, Option, none, some, ltb, if◌then◌else◌, length, get_or, set, Bool-cases, eq_of_==,
  length-set, get_or-set_ne, get_or-set_self,
}
use beet_core.Abi.After.{Returns, Returns-then}
use beet_core.Memory.Types.{Layout, MemoryManager}
use beet_core.Memory.Range.{is_owner, is_free}
use beet_core.Memory.Claim.{release_index, release_from, release_all_memory_for_process}
use beet_core.Memory.Valid.{IsValid, add_free_pages-ok}
use beet_core.Memory.Grant.{Outside, range-cases}
use beet_core.Memory.Freed.{
  outside-IsValid, freed-IsValid, freed_fits, freed, freed_self, freed_keeps, Owned-lt,
}

-- The owner of a page after a process' memory is released.
abbrev pub without : ℕ → Option ℕ → Option ℕ
without pid owner = if is_owner pid owner then none else owner

-- The owners of the pages of a range without the process, all others as before.
pub record Cleared (pid from count : ℕ) (xs ys : List (Option ℕ)) : Type 0 where
  pub as_long : length ys ≡ length xs
  pub inside :
      (i : ℕ) → from ≤ i → i < from + count → get_or ys i none ≡ without pid (get_or xs i none)
  pub outside : (i : ℕ) → Outside from count i → get_or ys i none ≡ get_or xs i none

Cleared-one_owned :
    (pid idx : ℕ) (xs : List (Option ℕ))
    → is_owner pid (get_or xs idx none) ≡ true
    → idx < length xs
    → Cleared pid idx 1 xs (set xs idx none)
Cleared-one_owned pid idx xs own lt = record {
  as_long = length-set xs idx none;
  inside = λ i lo hi.
      subst (λ k. get_or (set xs idx none) k none ≡ without pid (get_or xs k none)) {x = idx}
        (omega arith) (rw own (get_or-set_self xs idx none none lt));
  outside = λ i out. get_or-set_ne xs idx i none none (λ e. ground arith);
}

Cleared-one_other :
    (pid idx : ℕ) (xs : List (Option ℕ))
    → is_owner pid (get_or xs idx none) ≡ false
    → Cleared pid idx 1 xs xs
Cleared-one_other pid idx xs other = record {
  as_long = refl;
  inside = λ i lo hi.
      subst (λ k. get_or xs k none ≡ without pid (get_or xs k none)) {x = idx} (omega arith)
        (rw other refl);
  outside = λ i out. refl;
}

Cleared-next :
    (pid from count : ℕ) (xs ys zs : List (Option ℕ))
    → Cleared pid from 1 xs ys
    → Cleared pid (from + 1) count ys zs
    → Cleared pid from (suc count) xs zs
Cleared-next pid from count xs ys zs a b = record {
  as_long = b.as_long ∙ a.as_long;
  inside = λ i lo hi. elim (range-cases from 1 i) [
    | inl here ↦ b.outside i (inl (omega (arith, here.1))) ∙ a.inside i here.0 here.1
    | inr there ↦ b.inside i (ground arith) (omega arith) ∙ ap (without pid) (a.outside i there)
  ];
  outside = λ i out. b.outside i (ground arith) ∙ a.outside i (ground arith);
}

owned_of_is_owner : (pid : ℕ) (owner : Option ℕ) → is_owner pid owner ≡ true → owner ≡ some pid
owned_of_is_owner pid none h = absurd (ground arith)
owned_of_is_owner pid (some owner) h = ap some (eq_of_== owner pid h)

get_or-beyond : (xs : List (Option ℕ)) (i : ℕ) → length xs ≤ i → get_or xs i none ≡ none
get_or-beyond [] i h = refl
get_or-beyond (x ∷ xs) zero h = absurd (omega arith)
get_or-beyond (x ∷ xs) (suc i) h = get_or-beyond xs i (omega arith)

everywhere :
    (pid n i : ℕ) (xs ys : List (Option ℕ))
    → length xs ≡ n
    → Cleared pid 0 n xs ys
    → get_or ys i none ≡ without pid (get_or xs i none)
everywhere pid n i xs ys e c = elim (range-cases 0 n i) [
  | inl here ↦ c.inside i here.0 here.1
  | inr there ↦ let beyond = get_or-beyond xs i (ground arith) in c.outside i there ∙ rw beyond refl
]

-- The only page of a range of one.
other_page :
    (pid idx i : ℕ) (owners : List (Option ℕ))
    → idx ≤ i
    → i < idx + 1
    → is_owner pid (get_or owners i none) ≡ true
    → is_owner pid (get_or owners idx none) ≡ true
other_page pid idx i owners lo hi own =
    subst (λ k. is_owner pid (get_or owners k none) ≡ true) (omega arith) own

module _ (l : Layout) where
  -- A page of RAM that is the process'.
  abbrev pub Freed : ℕ → List (Option ℕ) → ℕ → Type 0
  Freed pid owners i = (i < l.ram_pages) × (is_owner pid (get_or owners i none) ≡ true)

  -- A step of the release, and a run of them.
  abbrev pub Clears : ℕ → ℕ → ℕ → MemoryManager → MemoryManager → Type 0
  Clears pid from count m m' =
      IsValid l m'
      × Cleared pid from count m.allocations m'.allocations
      × ((i : ℕ) → is_free m i ≡ true → is_free m' i ≡ true)
      × ((i : ℕ) → from ≤ i → i < from + count → Freed pid m.allocations i → is_free m' i ≡ true)

  release_index-Clears :
      (m : MemoryManager) (pid idx : ℕ)
      → IsValid l m
      → Returns (Clears pid idx 1 m) (release_index l m pid idx)
  unfolding release_index
  release_index-Clears m pid idx v =
      elim (Bool-cases (is_owner pid (get_or m.allocations idx none))) [
        | inr other ↦ rw other (
          _,
          refl,
          (
            v,
            Cleared-one_other pid idx m.allocations other,
            (λ i free. free),
            λ i lo hi mine.
                absurd (ground (arith, other, other_page pid idx i m.allocations lo hi (mine.1))),
          ),
        )
        | inl is_own ↦
            let own = owned_of_is_owner pid (get_or m.allocations idx none) is_own in
            let cleared =
              Cleared-one_owned pid idx m.allocations is_own (Owned-lt l m idx pid own) in
            elim (Bool-cases (ltb idx l.ram_pages)) [
              | inl lt ↦ rw is_own (
                  rw lt (
                    rw
                      (add_free_pages-ok l
                        (record m {
                          allocations = set m.allocations idx none;
                          free_pages_dirty = set m.free_pages_dirty idx true;
                        })
                        1 (freed_fits l m idx pid v own (ground arith)))
                      (
                        _,
                        refl,
                        (
                          freed-IsValid l m idx pid m.next_dirty_page_hint v own (ground arith)
                              v.dirty_hint,
                          cleared,
                          (λ i free.
                              freed_keeps l m idx i m.next_dirty_page_hint v (ground arith) free),
                          λ i lo hi mine.
                              subst (λ k. is_free (freed l m idx m.next_dirty_page_hint) k ≡ true)
                                {x = idx} (omega arith)
                                (freed_self l m idx m.next_dirty_page_hint v (ground arith)),
                        ),
                      )))
              | inr ge ↦ rw is_own (
                  rw ge (
                    _,
                    refl,
                    (
                      outside-IsValid l m idx none v (ground arith),
                      cleared,
                      (λ i free. free),
                      λ i lo hi mine. absurd (ground (arith, mine.0)),
                    ),
                  ))
            ]
      ]

  release_from-Clears :
      (m : MemoryManager) (pid idx count : ℕ)
      → IsValid l m
      → Returns (Clears pid idx count m) (release_from l m pid idx count)
  unfolding release_from
  release_from-Clears m pid idx zero v = (
    m,
    refl,
    (
      v,
      record { as_long = refl; inside = λ i lo hi. absurd (omega arith); outside = λ i out. refl },
      (λ i free. free),
      λ i lo hi mine. absurd (omega arith),
    ),
  )
  release_from-Clears m pid idx (suc count) v =
      Returns-then (Clears pid idx 1 m) (Clears pid idx (suc count) m) (release_index l m pid idx)
        (λ next. release_from l next pid (idx + 1) count) (release_index-Clears m pid idx v)
        (λ next step.
          let rest = release_from-Clears next pid (idx + 1) count (step.0) in
          (
            rest.0,
            rest.1,
            (
              (rest.2).0,
              Cleared-next pid idx count m.allocations next.allocations ((rest.0).allocations)
                  (step.1) ((rest.2).1),
              (λ i free. (rest.2).2 i (step.2 i free)),
              λ i lo hi mine. elim (range-cases idx 1 i) [
                | inl here ↦ (rest.2).2 i (step.3 i here.0 here.1 mine)
                | inr there ↦
                    (rest.2).3 i (ground arith) (omega arith)
                      (mine.0, ap (is_owner pid) ((step.1).outside i there) ∙ mine.1)
              ],
            ),
          ))

  -- On a valid tracker the memory of a process is released without a panic: no page is the
  -- process' any more, every other page has its owner, the process' pages of RAM are free, and the tracker
  -- stays valid.
  pub release_all_memory_for_process-Clears :
      (m : MemoryManager) (pid : ℕ)
      → IsValid l m
      → Returns
          (λ m'.
            IsValid l m'
            × ((i : ℕ) → get_or m'.allocations i none ≡ without pid (get_or m.allocations i none))
            × ((i : ℕ) → Freed pid m.allocations i → is_free m' i ≡ true))
          (release_all_memory_for_process l m pid)
  unfolding release_all_memory_for_process
  release_all_memory_for_process-Clears m pid v =
      let r = release_from-Clears m pid 0 (length m.allocations) v in
      (
        r.0,
        r.1,
        (
          (r.2).0,
          (λ i.
              everywhere pid (length m.allocations) i m.allocations ((r.0).allocations) refl
                ((r.2).1)),
          λ i mine.
              (r.2).3 i (omega arith)
                (omega (
                  arith,
                  Owned-lt l m i pid (owned_of_is_owner pid (get_or m.allocations i none) (mine.1)),
                ))
                mine,
        ),
      )
