-- ===== src/Memory/Acts.antt =====
-- `claim_release_move` in xous/kernel/src/mem.rs, on every branch.
use beet_core.Common.{
  ℕ, ◌+◌, ◌%◌, ◌<◌, ◌≤◌, ◌≡◌, ◌≢◌, ◌⊎◌, refl, subst, inl, inr, arith, true, false, Option, none,
  some, ltb, ◌==◌, if◌then◌else◌, length, get_or, set, is_some, Bool-cases, eq_of_==, ne_of_==,
  get_elem?-get_or,
}
use beet_core.Abi.Error.{memory_in_use, double_free, Error}
use beet_core.Abi.Outcome.{Outcome, ok, err, ◌>>=◌}
use beet_core.Abi.After.{Returns}
use beet_core.Memory.Types.{Layout, MemoryManager}
use beet_core.Memory.Bitmap.{bit_at, fill}
use beet_core.Memory.Range.{is_free}
use beet_core.Memory.Claim.{
  ClaimReleaseMove, claim, release, move, claim_free, claim_at, move_at, release_free, release_at,
  act_at, claim_release_move, address_to_allocation_offset,
}
use beet_core.Memory.Valid.{IsValid, is_free-lt, subtract_free_pages-ok, add_free_pages-ok}
use beet_core.Memory.Grant.{FreeRun-enough, granted-IsValid, Leaves-fill, Leaves-refl}
use beet_core.Memory.Single.{run_of_one}
use beet_core.Memory.Freed.{
  Owned, moved-IsValid, outside-IsValid, freed-IsValid, freed_fits, freed_self,
}

module _ (l : Layout) where
  -- The tracker is valid, and has given the page this owner and changed no other.
  abbrev pub Reowns : MemoryManager → ℕ → Option ℕ → MemoryManager → Type 0
  Reowns m i owner m' = IsValid l m' × (m'.allocations ≡ set m.allocations i owner)

  -- A page of RAM is free.
  abbrev pub IsFreed : MemoryManager → ℕ → Type 0
  IsFreed m i = i < l.ram_pages → is_free m i ≡ true

  -- What each action does to a page with and without owner.
  abbrev pub Acts :
      MemoryManager → ℕ → ℕ → ClaimReleaseMove → Option ℕ → Outcome MemoryManager → Type 0
  Acts m i pid claim (some owner) out = out ≡ err memory_in_use
  Acts m i pid claim none out =
      (((l.ram_pages ≤ i) ⊎ (is_free m i ≡ true)) × Returns (Reowns m i (some pid)) out)
      ⊎ ((i < l.ram_pages) × (is_free m i ≡ false) × (out ≡ err memory_in_use))
  Acts m i pid (move existing) none out = out ≡ err double_free
  Acts m i pid (move existing) (some owner) out =
      (((owner ≡ pid) ⊎ (existing ≡ owner)) × Returns (Reowns m i (some pid)) out)
      ⊎ ((owner ≢ pid) × (existing ≢ owner) × (out ≡ err memory_in_use))
  Acts m i pid release none out = out ≡ err double_free
  Acts m i pid release (some owner) out =
      ((owner ≡ pid) × Returns (λ m'. Reowns m i none m' × IsFreed m' i) out)
      ⊎ ((owner ≢ pid) × (out ≡ err memory_in_use))

  -- A free page leaves the bitmap that it is in.
  claim_free-Reowns :
      (m : MemoryManager) (i pid : ℕ)
      → IsValid l m
      → is_free m i ≡ true
      → Returns
          (Reowns m i (some pid))
          (claim_free l m i >>= λ t. ok (record t { allocations = set t.allocations i (some pid) }))
  unfolding claim_free fill
  claim_free-Reowns m i pid v free =
      let run = run_of_one l m i free in
      let inside : i + 1 ≤ l.ram_pages = omega (arith, is_free-lt l m i v free) in
      let enough = FreeRun-enough l m i 1 v run inside in
      elim (Bool-cases (bit_at m.free_pages_zeroed i)) [
        | inl z ↦ rw z (
            rw
              (subtract_free_pages-ok l
                (record m { free_pages_zeroed = set m.free_pages_zeroed i false }) 1 enough)
              (
                _,
                refl,
                (
                  granted-IsValid l m i 1 pid _ _ m.next_zeroed_page_hint v run inside
                      (Leaves-fill m.free_pages_zeroed i 1 (omega (arith, v.zeroed_len)))
                      (Leaves-refl m.free_pages_dirty i 1 (λ j lo hi.
                        subst (λ k. bit_at m.free_pages_dirty k ≡ false) (omega arith)
                          (v.apart i z)))
                      v.hint,
                  refl,
                ),
              ))
        | inr z ↦
            let d : bit_at m.free_pages_dirty i ≡ true = ground arith in
            rw z (
              rw d (
                rw
                  (subtract_free_pages-ok l
                    (record m { free_pages_dirty = set m.free_pages_dirty i false }) 1 enough)
                  (
                    _,
                    refl,
                    (
                      granted-IsValid l m i 1 pid _ _ m.next_zeroed_page_hint v run inside
                          (Leaves-refl m.free_pages_zeroed i 1 (λ j lo hi.
                            subst (λ k. bit_at m.free_pages_zeroed k ≡ false) (omega arith) z))
                          (Leaves-fill m.free_pages_dirty i 1 (omega (arith, v.dirty_len))) v.hint,
                      refl,
                    ),
                  )))
      ]

  -- A page of RAM that is in no bitmap is being zeroed.
  claim_at-Acts :
      (m : MemoryManager) (i pid : ℕ)
      → IsValid l m
      → Acts m i pid claim none (claim_at l m i pid none)
  unfolding claim_at claim_free
  claim_at-Acts m i pid v = elim (Bool-cases (ltb i l.ram_pages)) [
    | inl lt ↦ elim (Bool-cases (is_free m i)) [
      | inl free ↦ rw lt (inl (inr free, claim_free-Reowns m i pid v free))
      | inr busy ↦
          let z : bit_at m.free_pages_zeroed i ≡ false = ground arith in
          let d : bit_at m.free_pages_dirty i ≡ false = ground arith in
          rw lt (rw z (rw d (inr (ground arith, refl, refl))))
    ]
    | inr ge ↦ rw ge (
        inl (
          inl (ground arith),
          (_, refl, (outside-IsValid l m i (some pid) v (ground arith), refl)),
        ))
  ]

  move_at-Acts :
      (m : MemoryManager) (i pid existing owner : ℕ)
      → IsValid l m
      → Owned l m i owner
      → Acts m i pid (move existing) (some owner) (move_at l m i pid existing (some owner))
  unfolding move_at
  move_at-Acts m i pid existing owner v own = elim (Bool-cases (owner == pid)) [
    | inl same ↦ rw same (inl (inl (eq_of_== owner pid same), done))
    | inr other ↦ elim (Bool-cases (existing == owner)) [
      | inl held ↦ rw other (rw held (inl (inr (eq_of_== existing owner held), done)))
      | inr foreign ↦
          rw other
            (rw foreign (inr (ne_of_== owner pid other, ne_of_== existing owner foreign, refl)))
    ]
  ]
    where
      done :
          Returns
            (Reowns m i (some pid))
            (ok (record m { allocations = set m.allocations i (some pid) }))
      done = (_, refl, (moved-IsValid l m i owner pid v own, refl))

  -- What is left to do with a page of RAM and with one outside of it.
  release_free-Reowns :
      (m : MemoryManager) (i owner : ℕ)
      → IsValid l m
      → Owned l m i owner
      → Returns
          (λ m'. Reowns m i none m' × IsFreed m' i)
          ((if ltb i l.ram_pages then release_free l m i else ok m) >>= λ f.
            ok (record f { allocations = set f.allocations i none }))
  unfolding release_free
  release_free-Reowns m i owner v own = elim (Bool-cases (ltb i l.ram_pages)) [
    | inl lt ↦ rw lt (
        rw (add_free_pages-ok l (marked m i) 1 (freed_fits l m i owner v own (ground arith))) (
          _,
          refl,
          (
            (freed-IsValid l m i owner _ v own (ground arith) (hint_in m i v (ground arith)), refl),
            λ h. freed_self l m i (next_hint m i) v h,
          ),
        ))
    | inr ge ↦
        rw ge (
          _,
          refl,
          ((outside-IsValid l m i none v (ground arith), refl), λ h. absurd (ground arith)),
        )
  ]
    where
      next_hint : MemoryManager → ℕ → Option ℕ
      next_hint m i = if is_some m.next_dirty_page_hint then m.next_dirty_page_hint else some i

      marked : MemoryManager → ℕ → MemoryManager
      marked m i = record m {
        free_pages_dirty = set m.free_pages_dirty i true;
        next_dirty_page_hint = next_hint m i;
      }

      hint_in :
          (m : MemoryManager) (i : ℕ)
          → IsValid l m
          → i < l.ram_pages
          → (h : ℕ) → next_hint m i ≡ some h
          → h < l.ram_pages
      hint_in m i v lt h e = ground (arith, v.dirty_hint h)

  release_at-Acts :
      (m : MemoryManager) (i pid owner : ℕ)
      → IsValid l m
      → Owned l m i owner
      → Acts m i pid release (some owner) (release_at l m i pid (some owner))
  unfolding release_at
  release_at-Acts m i pid owner v own = elim (Bool-cases (owner == pid)) [
    | inl same ↦ rw same (inl (eq_of_== owner pid same, release_free-Reowns m i owner v own))
    | inr other ↦ rw other (inr (ne_of_== owner pid other, refl))
  ]

  act_at-Acts :
      (m : MemoryManager) (i pid : ℕ) (action : ClaimReleaseMove) (owner : Option ℕ)
      → IsValid l m
      → get_or m.allocations i none ≡ owner
      → Acts m i pid action owner (act_at l m i pid action owner)
  unfolding act_at claim_at move_at release_at
  act_at-Acts m i pid claim none v own = claim_at-Acts m i pid v
  act_at-Acts m i pid claim (some owner) v own = refl
  act_at-Acts m i pid release none v own = refl
  act_at-Acts m i pid release (some owner) v own = release_at-Acts m i pid owner v own
  act_at-Acts m i pid (move existing) none v own = refl
  act_at-Acts m i pid (move existing) (some owner) v own = move_at-Acts m i pid existing owner v own

  -- At an aligned, permitted address of a tracked page, on a valid tracker, the operation never
  -- panics: a claim succeeds exactly when the page has no owner and, in RAM, is free; a move when
  -- its owner is the process or the one it is moved from; a release when its owner is the process.
  -- On success only that page's owner has changed, the tracker is valid, and a released page of RAM
  -- is free.
  pub claim_release_move-Acts :
      (permission : ℕ → ℕ → Option Error) (m : MemoryManager) (addr pid i : ℕ)
      (action : ClaimReleaseMove)
      → IsValid l m
      → addr % l.page_size ≡ 0
      → permission pid addr ≡ none
      → address_to_allocation_offset l m addr ≡ ok (some i)
      → i < length m.allocations
      → Acts m i pid action
          (get_or m.allocations i none)
          (claim_release_move l permission m addr pid action)
  unfolding claim_release_move
  claim_release_move-Acts permission m addr pid i action v aligned allowed at lt =
      rw (aligned, allowed, at, get_elem?-get_or m.allocations i none lt)
        (act_at-Acts m i pid action (get_or m.allocations i none) v refl)
