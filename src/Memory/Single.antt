-- ===== src/Memory/Single.antt =====
-- `alloc_single_page` in xous/kernel/src/mem.rs, on every branch.
use beet_core.Common.{
  ℕ, ◌+◌, ◌≤◌, ◌≡◌, ◌⊎◌, refl, subst, inl, inr, arith, Bool, true, false, List, Option, none, some,
  Bool-cases, get_elem?-get_or,
}
use beet_core.Abi.Error.{out_of_memory}
use beet_core.Abi.Outcome.{Outcome, err}
use beet_core.Abi.After.{Returns}
use beet_core.Memory.Types.{Layout, MemoryManager}
use beet_core.Memory.Bitmap.{bit_at, fill}
use beet_core.Memory.{
  fragmented_area_pages, take_page, grant_page, alloc_chosen, alloc_single_page, hint_after,
  page_address,
}
use beet_core.Memory.Range.{is_free}
use beet_core.Memory.Choose.{NoneFree, Chosen, choose_page-Chosen}
use beet_core.Memory.Valid.{IsBitvec, IsValid, is_free-lt, subtract_free_pages-ok, bit_at-lt}
use beet_core.Memory.Grant.{
  FreeRun, FreeRun-enough, granted, granted-IsValid, Leaves, Leaves-fill, Leaves-refl,
}

module _ (l : Layout) where
  -- What an allocation of `count` pages has done: the run was free, and is the process' now.
  pub record Allocates (m : MemoryManager) (count pid idx : ℕ) (m' : MemoryManager) : Type 0 where
    pub inside : idx + count ≤ l.ram_pages
    pub was_free : FreeRun l m idx count
    pub owners : m'.allocations ≡ fill m.allocations idx count (some pid)
    pub spent : m'.num_free_pages + count ≡ m.num_free_pages
    pub valid : IsValid l m'

  pub granted-Allocates :
      (m : MemoryManager) (idx count pid : ℕ) (zeroed dirty : List Bool) (hint : ℕ)
      → IsValid l m
      → FreeRun l m idx count
      → idx + count ≤ l.ram_pages
      → Leaves idx count m.free_pages_zeroed zeroed
      → Leaves idx count m.free_pages_dirty dirty
      → hint ≤ fragmented_area_pages l
      → Allocates m count pid idx (granted l m idx count pid zeroed dirty hint)
  granted-Allocates m idx count pid zeroed dirty hint v free h lz ld hh = record {
    inside = h;
    was_free = free;
    owners = refl;
    spent = omega (arith, FreeRun-enough l m idx count v free h);
    valid = granted-IsValid l m idx count pid zeroed dirty hint v free h lz ld hh;
  }

  pub hint_after-le : (idx : ℕ) → hint_after l idx ≤ fragmented_area_pages l
  hint_after-le idx = ground arith

  pub run_of_one : (m : MemoryManager) (i : ℕ) → is_free m i ≡ true → FreeRun l m i 1
  run_of_one m i free = λ j lo hi. subst (λ k. is_free m k ≡ true) (omega arith) free

  -- The page that was found is handed out.
  granted_page_lem :
      (m : MemoryManager) (pid i : ℕ) (zeroed : Bool)
      → IsValid l m
      → is_free m i ≡ true
      → Leaves i 1 m.free_pages_zeroed ((take_page m i zeroed).free_pages_zeroed)
      → Leaves i 1 m.free_pages_dirty ((take_page m i zeroed).free_pages_dirty)
      → Returns
          (λ r. Allocates m 1 pid i (r.0) × (r.1 ≡ page_address l i) × (r.2 ≡ zeroed))
          (grant_page l (take_page m i zeroed) pid i zeroed)
  unfolding grant_page fill
  granted_page_lem m pid i zeroed v free lz ld =
      let u = v.unowned i free in
      let run = run_of_one m i free in
      let inside : i + 1 ≤ l.ram_pages = omega (arith, is_free-lt l m i v free) in
      let enough = FreeRun-enough l m i 1 v run inside in
      rw
        (
          get_elem?-get_or m.allocations i none (u.0),
          u.1,
          subtract_free_pages-ok l (take_page m i zeroed) 1 enough,
        )
        (
          _,
          refl,
          (
            granted-Allocates m i 1 pid _ _ (hint_after l i) v run inside lz ld (hint_after-le i),
            refl,
            refl,
          ),
        )

  zeroed-Allocates :
      (m : MemoryManager) (pid i : ℕ)
      → IsValid l m
      → bit_at m.free_pages_zeroed i ≡ true
      → Returns
          (λ r. Allocates m 1 pid i (r.0) × (r.1 ≡ page_address l i) × (r.2 ≡ true))
          (grant_page l (take_page m i true) pid i true)
  unfolding fill
  zeroed-Allocates m pid i v on =
      granted_page_lem m pid i true v (rw on refl)
        (Leaves-fill m.free_pages_zeroed i 1 (omega (arith, bit_at-lt m.free_pages_zeroed i on)))
        (Leaves-refl m.free_pages_dirty i 1 (λ j lo hi.
          subst (λ k. bit_at m.free_pages_dirty k ≡ false) (omega arith) (v.apart i on)))

  dirty_not_zeroed :
      (m : MemoryManager) (i : ℕ)
      → IsValid l m
      → bit_at m.free_pages_dirty i ≡ true
      → bit_at m.free_pages_zeroed i ≡ false
  dirty_not_zeroed m i v on = elim (Bool-cases (bit_at m.free_pages_zeroed i)) [
    | inl z ↦ absurd (ground (arith, v.apart i z))
    | inr z ↦ z
  ]

  dirty-Allocates :
      (m : MemoryManager) (pid i : ℕ)
      → IsValid l m
      → bit_at m.free_pages_dirty i ≡ true
      → Returns
          (λ r. Allocates m 1 pid i (r.0) × (r.1 ≡ page_address l i) × (r.2 ≡ false))
          (grant_page l (take_page m i false) pid i false)
  unfolding fill
  dirty-Allocates m pid i v on =
      granted_page_lem m pid i false v (ground (arith, on))
        (Leaves-refl m.free_pages_zeroed i 1 (λ j lo hi.
          subst (λ k. bit_at m.free_pages_zeroed k ≡ false) (omega arith)
            (dirty_not_zeroed m i v on)))
        (Leaves-fill m.free_pages_dirty i 1 (omega (arith, bit_at-lt m.free_pages_dirty i on)))

  -- An outcome that is an allocation by the policy, or runs out of memory with no page free.
  abbrev pub SinglePage : MemoryManager → ℕ → Outcome (MemoryManager × ℕ × Bool) → Type 0
  SinglePage m pid out =
      ((out ≡ err out_of_memory) × NoneFree l m l.ram_pages)
      ⊎ ((i : ℕ) × (z : Bool) × Chosen l m (some (i, z))
          × Returns (λ r. Allocates m 1 pid i (r.0) × (r.1 ≡ page_address l i) × (r.2 ≡ z)) out)

  alloc_chosen-SinglePage :
      (m : MemoryManager) (pid : ℕ) (r : Option (ℕ × Bool))
      → IsValid l m
      → Chosen l m r
      → SinglePage m pid (alloc_chosen l m pid r)
  unfolding alloc_chosen
  alloc_chosen-SinglePage m pid none v c = inl (refl, c)
  alloc_chosen-SinglePage m pid (some (i, true)) v c =
      inr (i, true, c, zeroed-Allocates m pid i v (c.0))
  alloc_chosen-SinglePage m pid (some (i, false)) v c =
      inr (i, false, c, dirty-Allocates m pid i v (c.0))

  -- With the searches of bitvec, on a valid tracker a page is always allocated while one is free: a zeroed page of the
  -- fragmented area, a dirty one of it when it has no zeroed page, one of the big area when it has
  -- no free page. Only the page's owner changes, it had none, and the tracker stays valid.
  pub alloc_single_page-SinglePage :
      (m : MemoryManager) (pid : ℕ)
      → IsBitvec l
      → IsValid l m
      → SinglePage m pid (alloc_single_page l m pid)
  unfolding alloc_single_page
  alloc_single_page-SinglePage m pid b v =
      let c = choose_page-Chosen l m b v in rw c.1 (alloc_chosen-SinglePage m pid (c.0) v (c.2))
