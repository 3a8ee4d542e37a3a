-- ===== src/Memory/Runs.antt =====
-- `alloc_range` in xous/kernel/src/mem.rs: the search for a run of pages, and what it does.
use beet_core.Common.{
  take, List, [], ◌∷◌, sym, ap, ◌∙◌, ℕ, zero, suc, ◌+◌, ◌-◌, ◌%◌, ◌<◌, ◌≤◌, ◌≡◌, ◌⊎◌, refl, subst,
  inl, inr, arith, Bool, true, false, ◌||◌, Option, none, some, ltb, ◌==◌, if◌then◌else◌,
  Bool-cases, eq_of_==, ne_of_==, Option-cases,
}
use beet_core.Abi.Error.{out_of_memory}
use beet_core.Abi.Outcome.{Outcome, ok, err}
use beet_core.Abi.After.{Returns}
use beet_core.Memory.Types.{Layout, MemoryManager}
use beet_core.Memory.Bitmap.{AllSet, bit_at-take_lt, bit_at, fill}
use beet_core.Memory.{page_address}
use beet_core.Memory.Range.{
  is_free, is_zeroed, all_from, last_below, run_at, choose_run, find_last, or_earlier, grant_run,
  alloc_range_aligned,
}
use beet_core.Memory.Valid.{IsBitvec, IsValid, subtract_free_pages-ok}
use beet_core.Memory.Grant.{FreeRun, FreeRun-enough, Leaves, Leaves-fill, Leaves-refl}
use beet_core.Memory.Single.{Allocates, granted-Allocates}

-- The largest number below `n` that passes.
abbrev pub LastBelow : (ℕ → Bool) → ℕ → Option ℕ → Type 0
LastBelow p n none = (i : ℕ) → i < n → p i ≡ false
LastBelow p n (some i) = (i < n) × (p i ≡ true) × ((j : ℕ) → i < j → j < n → p j ≡ false)

at_or_below :
    (p : ℕ → Bool) (n j : ℕ) → p n ≡ false → (j < n → p j ≡ false) → j < suc n → p j ≡ false
at_or_below p n j miss h lt = elim (Bool-cases (j == n)) [
  | inl at ↦ rw (eq_of_== j n at) miss
  | inr off ↦ h (omega (arith, ne_of_== j n off))
]

wider :
    (p : ℕ → Bool) (n : ℕ) (r : Option ℕ) → p n ≡ false → LastBelow p n r → LastBelow p (suc n) r
wider p n none miss f = λ i h. at_or_below p n i miss (f i) h
wider p n (some i) miss f =
    (omega (arith, f.0), f.1, (λ j lo hi. at_or_below p n j miss (f.2 j lo) hi))

last_below-LastBelow : (p : ℕ → Bool) (n : ℕ) → LastBelow p n (last_below p n)
last_below-LastBelow p zero = λ i h. absurd (omega arith)
last_below-LastBelow p (suc n) = elim (Bool-cases (p n)) [
  | inl hit ↦ rw hit (omega arith, hit, (λ j lo hi. absurd (omega arith)))
  | inr miss ↦ rw miss (wider p n (last_below p n) miss (last_below-LastBelow p n))
]

-- What is found is the index of a set bit, and passes.
find_last-Found :
    (p : ℕ → Bool) (bits : List Bool) (indexes : List ℕ) (i : ℕ)
    → AllSet bits indexes
    → find_last p indexes ≡ some i
    → (bit_at bits i ≡ true) × (p i ≡ true)
unfolding find_last
find_last-Found p bits [] i h e = absurd (ground arith)
find_last-Found p bits (j ∷ rest) i h e = elim (Option-cases (find_last p rest)) [
  | inr (k, later) ↦
      find_last-Found p bits rest i (h.1) (later ∙ sym (ap (λ o. or_earlier o (here j)) later) ∙ e)
  | inl nothing ↦ last_here (Bool-cases (p j)) (sym (ap (λ o. or_earlier o (here j)) nothing) ∙ e)
]
  where
    here : ℕ → Option ℕ
    here j = if p j then some j else none

    last_here :
        (p j ≡ true) ⊎ (p j ≡ false) → here j ≡ some i → (bit_at bits i ≡ true) × (p i ≡ true)
    last_here (inl hit) at = ground (arith, hit, at, h.0)
    last_here (inr miss) at = absurd (ground (arith, miss, at))

-- The test of a range is that of each of its numbers.
all_from-each :
    (p : ℕ → Bool) (from count : ℕ)
    → all_from p from count ≡ true
    → (i : ℕ) → from ≤ i
    → i < from + count
    → p i ≡ true
all_from-each p from zero h i lo hi = absurd (omega arith)
all_from-each p from (suc count) h i lo hi = elim (Bool-cases (from == i)) [
  | inl at ↦ rw (← eq_of_== from i at) (ground arith)
  | inr off ↦
      all_from-each p (from + 1) count (ground arith) i (omega (arith, ne_of_== from i off))
        (omega arith)
]

all_from-of_each :
    (p : ℕ → Bool) (from count : ℕ)
    → ((i : ℕ) → from ≤ i → i < from + count → p i ≡ true)
    → all_from p from count ≡ true
all_from-of_each p from zero h = refl
all_from-of_each p from (suc count) h =
    rw (h from (omega arith) (omega arith))
      (all_from-of_each p (from + 1) count (λ i lo hi. h i (omega arith) (omega arith)))

module _ (l : Layout) where
  -- No aligned run of `n` pages of RAM is free.
  abbrev pub NoRun : MemoryManager → ℕ → ℕ → Type 0
  NoRun m align n = (i : ℕ) → i % align ≡ 0 → i + n ≤ l.ram_pages → ¬ FreeRun l m i n

  -- An outcome that is an allocation of an aligned run, whose pages are all zeroed when it says so,
  -- or runs out of memory when no aligned run is free.
  abbrev pub AlignedRun : MemoryManager → ℕ → ℕ → ℕ → Outcome (MemoryManager × ℕ × Bool) → Type 0
  AlignedRun m align n pid out =
      ((out ≡ err out_of_memory) × NoRun m align n)
      ⊎ ((i : ℕ) × (z : Bool) × (i % align ≡ 0)
          × (z ≡ true → (j : ℕ) → i ≤ j → j < i + n → is_zeroed m j ≡ true)
          × Returns (λ r. Allocates l m n pid i (r.0) × (r.1 ≡ page_address l i) × (r.2 ≡ z)) out)

  -- What the search found: a zeroed run, a free one, or nothing.
  abbrev pub ChosenRun : MemoryManager → ℕ → ℕ → Outcome (ℕ × Bool) → Type 0
  ChosenRun m align n out =
      ((out ≡ err out_of_memory) × NoRun m align n)
      ⊎ ((i : ℕ) × (z : Bool) × (out ≡ ok (i, z))
          × (i % align ≡ 0)
          × (i + n ≤ l.ram_pages)
          × FreeRun l m i n
          × (z ≡ true → (j : ℕ) → i ≤ j → j < i + n → is_zeroed m j ≡ true))

  run_aligned :
      (p : ℕ → Bool) (align n i : ℕ)
      → run_at p align n i ≡ true
      → (i % align ≡ 0) × (all_from p i n ≡ true)
  run_aligned p align n i h = elim (Bool-cases (i % align == 0)) [
    | inl at ↦ (eq_of_== (i % align) 0 at, ground (arith, at, h))
    | inr off ↦ absurd (ground (arith, off, h))
  ]

  no_run :
      (m : MemoryManager) (align n end : ℕ)
      → ((i : ℕ) → i + n ≤ l.ram_pages → i < end)
      → LastBelow (run_at (is_free m) align n) end none
      → NoRun m align n
  no_run m align n end inside none_below = λ i at fits free.
      absurd
        (ground (arith, none_below i (inside i fits), all_from-of_each (is_free m) i n free, at))

  choose_run-ChosenRun :
      (m : MemoryManager) (align n end : ℕ)
      → IsBitvec l
      → end + n ≡ l.ram_pages + 1
      → ChosenRun m align n (choose_run l m align n end)
  unfolding choose_run
  choose_run-ChosenRun m align n end b e =
      let ones = l.iter_ones (take end m.free_pages_zeroed) in
      let Z = run_at (is_zeroed m) align n in
      let F = run_at (is_free m) align n in
      elim (Option-cases (find_last Z ones)) [
        | inr (i, found) ↦
            let at =
              find_last-Found Z (take end m.free_pages_zeroed) ones i
                (b.ones (take end m.free_pages_zeroed)) found in
            let run = run_aligned (is_zeroed m) align n i (at.1) in
            let zeroed = all_from-each (is_zeroed m) i n (run.1) in
            rw found (
              inr (
                i,
                true,
                refl,
                run.0,
                omega (arith, bit_at-take_lt end i m.free_pages_zeroed (at.0)),
                (λ j lo hi. ground (arith, zeroed j lo hi)),
                (λ u. zeroed),
              ))
        | inl missed ↦ elim (Option-cases (last_below F end)) [
          | inr (i, found) ↦
              let at = subst (LastBelow F end) found (last_below-LastBelow F end) in
              let run = run_aligned (is_free m) align n i (at.1) in
              rw missed (
                rw found (
                  inr (
                    i,
                    false,
                    refl,
                    run.0,
                    omega (arith, at.0),
                    all_from-each (is_free m) i n (run.1),
                    (λ u. absurd (ground arith)),
                  )))
          | inl missed' ↦
              let below = subst (LastBelow F end) missed' (last_below-LastBelow F end) in
              rw missed
                (rw missed' (inl (refl, no_run m align n end (λ i fits. omega arith) below)))
        ]
      ]

  grant_run-Allocates :
      (m : MemoryManager) (n pid i : ℕ) (z : Bool)
      → IsValid l m
      → i + n ≤ l.ram_pages
      → FreeRun l m i n
      → (z ≡ true → (j : ℕ) → i ≤ j → j < i + n → is_zeroed m j ≡ true)
      → Returns
          (λ r. Allocates l m n pid i (r.0) × (r.1 ≡ page_address l i) × (r.2 ≡ z))
          (grant_run l m n pid i z)
  unfolding grant_run
  grant_run-Allocates m n pid i z v inside free zeroed =
      rw (subtract_free_pages-ok l m n (FreeRun-enough l m i n v free inside)) (
        _,
        refl,
        (
          granted-Allocates l m i n pid _ _ m.next_zeroed_page_hint v free inside
              (Leaves-fill m.free_pages_zeroed i n (omega (arith, v.zeroed_len)))
              (dirty_Leaves z zeroed) v.hint,
          refl,
          refl,
        ),
      )
    where
      dirty_Leaves :
          (z : Bool)
          → (z ≡ true → (j : ℕ) → i ≤ j → j < i + n → is_zeroed m j ≡ true)
          → Leaves i n m.free_pages_dirty
              (if z then m.free_pages_dirty else fill m.free_pages_dirty i n false)
      dirty_Leaves true zeroed =
          Leaves-refl m.free_pages_dirty i n (λ j lo hi. v.apart j (zeroed refl j lo hi))
      dirty_Leaves false zeroed = Leaves-fill m.free_pages_dirty i n (omega (arith, v.dirty_len))

  -- With the searches of bitvec, on a valid tracker a request for a positive number of pages that RAM has always returns: with
  -- an aligned run of free pages, all zeroed if it says so, or without memory when no such run is
  -- free. Only the run's owners change, and the tracker stays valid.
  pub alloc_range_aligned-AlignedRun :
      (m : MemoryManager) (align n pid : ℕ)
      → IsBitvec l
      → IsValid l m
      → 0 < n
      → n ≤ l.ram_pages
      → AlignedRun m align n pid (alloc_range_aligned l align m n pid)
  unfolding alloc_range_aligned
  alloc_range_aligned-AlignedRun m align n pid b v pos fits =
      elim (choose_run-ChosenRun m align n (l.ram_pages - n + 1) b (omega arith)) [
        | inl (e, nothing) ↦ rw inside (rw e (inl (refl, nothing)))
        | inr (i, z, e, at, h, free, zeroed) ↦
            rw inside
              (rw e (inr (i, z, at, zeroed, grant_run-Allocates m n pid i z v h free zeroed)))
      ]
    where
      inside : (ltb l.ram_pages n || ltb l.ram_pages (l.ram_pages - n + 1)) ≡ false
      inside = ground arith
