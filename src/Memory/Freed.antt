-- ===== src/Memory/Freed.antt =====
-- What a change of one page's owner does to the page tracker of xous/kernel/src/mem.rs.
use beet_core.Common.{
  ℕ, zero, suc, ◌+◌, ◌<◌, ◌≤◌, ◌≡◌, ◌⊎◌, sym, ◌∙◌, subst, inl, inr, arith, true, false, ◌||◌, List,
  [], ◌∷◌, Option, none, some, ltb, ◌==◌, length, get_or, set, Bool-cases, eq_of_==, ne_of_==,
  length-set, get_or-set_ne, get_or-set_self,
}
use beet_core.Memory.Types.{Layout, MemoryManager}
use beet_core.Memory.Bitmap.{bit_at}
use beet_core.Memory.{gain_pages}
use beet_core.Memory.Range.{is_free}
use beet_core.Memory.Valid.{
  IsValid, is_free-lt, weight, free_count, free_count-set, free_count-set_out, free_count-le,
}

module _ (l : Layout) where
  -- The page has an owner.
  abbrev pub Owned : MemoryManager → ℕ → ℕ → Type 0
  Owned m i owner = get_or m.allocations i none ≡ some owner

  pub Owned-lt : (m : MemoryManager) (i owner : ℕ) → Owned m i owner → i < length m.allocations
  Owned-lt m i owner own = go m.allocations i own
    where
      go : (xs : List (Option ℕ)) (i : ℕ) → get_or xs i none ≡ some owner → i < length xs
      go [] i own = absurd (ground arith)
      go (x ∷ xs) zero own = omega arith
      go (x ∷ xs) (suc i) own = omega (arith, go xs i own)

  -- A page with an owner is not free.
  pub Owned-not_free :
      (m : MemoryManager) (i owner : ℕ) → IsValid l m → Owned m i owner → is_free m i ≡ false
  Owned-not_free m i owner v own = elim (Bool-cases (is_free m i)) [
    | inl free ↦ absurd (ground (arith, (v.unowned i free).1, own))
    | inr busy ↦ busy
  ]

  -- The tracker with another owner of a page that is not free.
  pub reowned-IsValid :
      (m : MemoryManager) (i : ℕ) (owner : Option ℕ)
      → IsValid l m
      → is_free m i ≡ false
      → free_count l.ram_pages (set m.allocations i owner) ≡ free_count l.ram_pages m.allocations
      → IsValid l (record m { allocations = set m.allocations i owner })
  reowned-IsValid m i owner v busy same = record {
    zeroed_len = v.zeroed_len;
    dirty_len = v.dirty_len;
    unowned = λ j free. (
      omega (arith, length-set m.allocations i owner, (v.unowned j free).0),
      get_or-set_ne m.allocations i j owner none
            (λ e. ground (arith, subst (λ k. is_free m k ≡ true) (sym e) free, busy))
          ∙ (v.unowned j free).1,
    );
    apart = v.apart;
    hint = v.hint;
    dirty_hint = v.dirty_hint;
    counted = v.counted ∙ sym same;
  }

  free_count-Owned :
      (m : MemoryManager) (i owner pid : ℕ)
      → Owned m i owner
      → free_count l.ram_pages (set m.allocations i (some pid))
        ≡ free_count l.ram_pages m.allocations
  free_count-Owned m i owner pid own = elim (Bool-cases (ltb i l.ram_pages)) [
    | inl lt ↦
        let e =
          free_count-set l.ram_pages m.allocations i (some pid) (ground arith)
            (Owned-lt m i owner own) in
        let e' =
          subst
            (λ o.
              free_count l.ram_pages (set m.allocations i (some pid)) + weight o
              ≡ free_count l.ram_pages m.allocations + 0)
            own e in
        omega (arith, e')
    | inr ge ↦ free_count-set_out l.ram_pages m.allocations i (some pid) (ground arith)
  ]

  pub moved-IsValid :
      (m : MemoryManager) (i owner pid : ℕ)
      → IsValid l m
      → Owned m i owner
      → IsValid l (record m { allocations = set m.allocations i (some pid) })
  moved-IsValid m i owner pid v own =
      reowned-IsValid m i (some pid) v (Owned-not_free m i owner v own)
        (free_count-Owned m i owner pid own)

  -- A page outside of RAM is in no bitmap and is not counted.
  pub outside-IsValid :
      (m : MemoryManager) (i : ℕ) (owner : Option ℕ)
      → IsValid l m
      → l.ram_pages ≤ i
      → IsValid l (record m { allocations = set m.allocations i owner })
  outside-IsValid m i owner v out =
      reowned-IsValid m i owner v (busy (Bool-cases (is_free m i)))
        (free_count-set_out l.ram_pages m.allocations i owner out)
    where
      busy : (is_free m i ≡ true) ⊎ (is_free m i ≡ false) → is_free m i ≡ false
      busy (inl free) = absurd (omega (arith, is_free-lt l m i v free))
      busy (inr b) = b

  pub freed_count :
      (m : MemoryManager) (i owner : ℕ)
      → IsValid l m
      → Owned m i owner
      → i < l.ram_pages
      → free_count l.ram_pages (set m.allocations i none) ≡ m.num_free_pages + 1
  freed_count m i owner v own lt =
      let e = free_count-set l.ram_pages m.allocations i none lt (Owned-lt m i owner own) in
      let e' =
        subst
          (λ o.
            free_count l.ram_pages (set m.allocations i none) + weight o
            ≡ free_count l.ram_pages m.allocations + 1)
          own e in
      omega (arith, e', v.counted)

  pub freed_fits :
      (m : MemoryManager) (i owner : ℕ)
      → IsValid l m
      → Owned m i owner
      → i < l.ram_pages
      → m.num_free_pages + 1 ≤ l.ram_pages
  freed_fits m i owner v own lt =
      omega (
        arith,
        freed_count m i owner v own lt,
        free_count-le l.ram_pages (set m.allocations i none),
      )

  -- The tracker after a page of RAM loses its owner.
  abbrev pub freed : MemoryManager → ℕ → Option ℕ → MemoryManager
  freed m i hint = record (gain_pages l m 1) {
    allocations = set m.allocations i none;
    free_pages_dirty = set m.free_pages_dirty i true;
    next_dirty_page_hint = hint;
  }

  pub freed-IsValid :
      (m : MemoryManager) (i owner : ℕ) (hint : Option ℕ)
      → IsValid l m
      → Owned m i owner
      → i < l.ram_pages
      → ((h : ℕ) → hint ≡ some h → h < l.ram_pages)
      → IsValid l (freed m i hint)
  freed-IsValid m i owner hint v own lt hh = record {
    zeroed_len = v.zeroed_len;
    dirty_len = length-set m.free_pages_dirty i true ∙ v.dirty_len;
    unowned = λ j on. elim (Bool-cases (i == j)) [
      | inl at ↦
          subst
            (λ k.
              (k < length (set m.allocations i none))
              × (get_or (set m.allocations i none) k none ≡ none))
            (eq_of_== i j at)
            (
              omega (arith, length-set m.allocations i none, Owned-lt m i owner own),
              get_or-set_self m.allocations i none none (Owned-lt m i owner own),
            )
      | inr off ↦
          let apart_from = ne_of_== i j off in
          let was =
            subst (λ b. (bit_at m.free_pages_zeroed j || b) ≡ true)
              (get_or-set_ne m.free_pages_dirty i j true false apart_from) on in
          let u = v.unowned j was in
          (
            omega (arith, length-set m.allocations i none, u.0),
            get_or-set_ne m.allocations i j none none apart_from ∙ u.1,
          )
    ];
    apart = λ j on. elim (Bool-cases (i == j)) [
      | inl at ↦ absurd (
          ground (
            arith,
            on,
            subst (λ k. is_free m k ≡ false) (eq_of_== i j at) (Owned-not_free m i owner v own),
          ))
      | inr off ↦ get_or-set_ne m.free_pages_dirty i j true false (ne_of_== i j off) ∙ v.apart j on
    ];
    hint = v.hint;
    dirty_hint = hh;
    counted = sym (freed_count m i owner v own lt);
  }

  pub freed_self :
      (m : MemoryManager) (i : ℕ) (hint : Option ℕ)
      → IsValid l m
      → i < l.ram_pages
      → is_free (freed m i hint) i ≡ true
  freed_self m i hint v lt =
      let on = get_or-set_self m.free_pages_dirty i true false (omega (arith, v.dirty_len)) in
      ground (arith, on)

  pub freed_keeps :
      (m : MemoryManager) (i j : ℕ) (hint : Option ℕ)
      → IsValid l m
      → i < l.ram_pages
      → is_free m j ≡ true
      → is_free (freed m i hint) j ≡ true
  freed_keeps m i j hint v lt free = elim (Bool-cases (i == j)) [
    | inl at ↦
        subst (λ k. is_free (freed m i hint) k ≡ true) (eq_of_== i j at) (freed_self m i hint v lt)
    | inr off ↦
        let same = get_or-set_ne m.free_pages_dirty i j true false (ne_of_== i j off) in
        subst (λ b. (bit_at m.free_pages_zeroed j || b) ≡ true) (sym same) free
  ]
