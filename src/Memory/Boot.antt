-- ===== src/Memory/Boot.antt =====
-- The page tracker at start-up: `init_from_bootstrap` in xous/kernel/src/mem.rs.
use beet_core.Common.{
  ℕ, zero, suc, ◌+◌, ◌<◌, ◌≤◌, ◌≡◌, refl, sym, ap, ◌∙◌, subst, inl, inr, arith, true, false, List,
  [], ◌∷◌, Option, none, some, ltb, ◌==◌, length, get_or, Bool-cases, eq_of_==, ne_of_==,
  length-set, get_or-set_ne, get_or-set_self, set, ◌≢◌, min, replicate, length-replicate,
  Option-cases,
}
use beet_core.Abi.After.{Returns}
use beet_core.Memory.Types.{Layout, MemoryManager}
use beet_core.Memory.Bitmap.{bit_at}
use beet_core.Memory.Range.{scan_page, scan_bootstrap, default_hack, init_from_bootstrap}
use beet_core.Memory.Valid.{IsValid, free_count, weight}

get_or-replicate : (n i : ℕ) → get_or (replicate n false) i false ≡ false
get_or-replicate zero i = refl
get_or-replicate (suc n) zero = refl
get_or-replicate (suc n) (suc i) = get_or-replicate n i

-- The count over one page more.
free_count-suc :
    (n : ℕ) (xs : List (Option ℕ))
    → n < length xs
    → free_count (suc n) xs ≡ free_count n xs + weight (get_or xs n none)
free_count-suc n [] h = absurd (omega arith)
free_count-suc zero (x ∷ xs) h = ground arith
free_count-suc (suc n) (x ∷ xs) h = ground (arith, free_count-suc n xs (omega arith))

-- There is nothing to count after the last page.
free_count-beyond :
    (k n : ℕ) (xs : List (Option ℕ))
    → length xs ≤ k
    → length xs ≤ n
    → free_count k xs ≡ free_count n xs
free_count-beyond zero zero xs h h' = refl
free_count-beyond zero (suc n) [] h h' = refl
free_count-beyond zero (suc n) (x ∷ xs) h h' = absurd (omega arith)
free_count-beyond (suc k) zero [] h h' = refl
free_count-beyond (suc k) zero (x ∷ xs) h h' = absurd (omega arith)
free_count-beyond (suc k) (suc n) [] h h' = refl
free_count-beyond (suc k) (suc n) (x ∷ xs) h h' =
    ground (arith, free_count-beyond k n xs (omega arith) (omega arith))

-- The pages that are counted are those that both sides have.
free_count-min :
    (n : ℕ) (xs : List (Option ℕ)) → free_count (min (length xs) n) xs ≡ free_count n xs
free_count-min n xs = elim (Bool-cases (ltb (length xs) n)) [
  | inl lt ↦ free_count-beyond (min (length xs) n) n xs (ground arith) (ground arith)
  | inr ge ↦ ap (λ k. free_count k xs) (ground arith)
]

counted_on :
    (owners : List (Option ℕ)) (k : ℕ) (m : MemoryManager) (owner : Option ℕ)
    → get_or owners k none ≡ owner
    → k < length owners
    → m.num_free_pages ≡ free_count k owners + weight owner
    → m.num_free_pages ≡ free_count (k + 1) owners
counted_on owners k m owner own h e =
    let e' = subst (λ o. m.num_free_pages ≡ free_count k owners + weight o) (sym own) e in
    e' ∙ sym (free_count-suc k owners h) ∙ ap (λ n. free_count n owners) {x = suc k} (omega arith)

owned_ne : {pid : ℕ} → none ≢ some pid
owned_ne e = cc

module _ (l : Layout) where
  -- The first `k` pages are scanned.
  record Scanned (owners : List (Option ℕ)) (k : ℕ) (m : MemoryManager) : Type 0 where
    owners_eq : m.allocations ≡ owners
    zeroed_eq : m.free_pages_zeroed ≡ replicate l.ram_pages false
    dirty_len : length m.free_pages_dirty ≡ l.ram_pages
    dirty_in :
        (i : ℕ) → bit_at m.free_pages_dirty i ≡ true → (i < k) × (get_or owners i none ≡ none)
    dirty_on : (i : ℕ) → i < k → get_or owners i none ≡ none → bit_at m.free_pages_dirty i ≡ true
    hint_eq : m.next_zeroed_page_hint ≡ 0
    dirty_hint_eq : m.next_dirty_page_hint ≡ none
    counted : m.num_free_pages ≡ free_count k owners

  scan_page-Scanned :
      (owners : List (Option ℕ)) (k : ℕ) (m : MemoryManager)
      → k < length owners
      → k < l.ram_pages
      → Scanned owners k m
      → Scanned owners (k + 1) (scan_page l m k)
  unfolding scan_page
  scan_page-Scanned owners k m h h' s = elim (Option-cases (get_or owners k none)) [
    | inr (pid, own) ↦
        let own' = ap (λ xs. get_or xs k none) s.owners_eq ∙ own in
        rw own' (record {
          owners_eq = s.owners_eq;
          zeroed_eq = s.zeroed_eq;
          dirty_len = s.dirty_len;
          dirty_in = λ i on. (omega (arith, s.dirty_in i on), (s.dirty_in i on).1);
          dirty_on = λ i lt free. elim (Bool-cases (k == i)) [
            | inl at ↦
                absurd (
                  owned_ne
                    (sym free ∙ ap (λ j. get_or owners j none) (sym (eq_of_== k i at)) ∙ own))
            | inr off ↦ s.dirty_on i (omega (arith, ne_of_== k i off)) free
          ];
          hint_eq = s.hint_eq;
          dirty_hint_eq = s.dirty_hint_eq;
          counted = counted_on owners k m (some pid) own h (omega (arith, s.counted));
        })
    | inl own ↦
        let own' = ap (λ xs. get_or xs k none) s.owners_eq ∙ own in
        rw own' (record {
          owners_eq = s.owners_eq;
          zeroed_eq = s.zeroed_eq;
          dirty_len = length-set m.free_pages_dirty k true ∙ s.dirty_len;
          dirty_in = λ i on. elim (Bool-cases (k == i)) [
            | inl at ↦
                let e = eq_of_== k i at in
                (omega (arith, e), subst (λ j. get_or owners j none ≡ none) e own)
            | inr off ↦
                let d =
                  s.dirty_in i (
                    sym (get_or-set_ne m.free_pages_dirty k i true false (ne_of_== k i off))
                    ∙ on) in
                (omega (arith, d.0), d.1)
          ];
          dirty_on = λ i lt free. elim (Bool-cases (k == i)) [
            | inl at ↦
                ap (bit_at (set m.free_pages_dirty k true)) (sym (eq_of_== k i at))
                ∙ get_or-set_self m.free_pages_dirty k true false (omega (arith, s.dirty_len))
            | inr off ↦
                get_or-set_ne m.free_pages_dirty k i true false (ne_of_== k i off)
                ∙ s.dirty_on i (omega (arith, ne_of_== k i off)) free
          ];
          hint_eq = s.hint_eq;
          dirty_hint_eq = s.dirty_hint_eq;
          counted =
              counted_on owners k (record m { num_free_pages = m.num_free_pages + 1 }) none own h
                (omega (arith, s.counted));
        })
  ]

  scan_bootstrap-Scanned :
      (owners : List (Option ℕ)) (k count : ℕ) (m : MemoryManager)
      → k + count ≤ length owners
      → k + count ≤ l.ram_pages
      → Scanned owners k m
      → Scanned owners (k + count) (scan_bootstrap l m k count)
  unfolding scan_bootstrap
  scan_bootstrap-Scanned owners k zero m h h' s = subst (λ n. Scanned owners n m) (omega arith) s
  scan_bootstrap-Scanned owners k (suc count) m h h' s =
      subst (λ n. Scanned owners n (scan_bootstrap l m k (suc count))) {x = k + 1 + count}
        (omega arith)
        (scan_bootstrap-Scanned owners (k + 1) count _ (omega arith) (omega arith)
          (scan_page-Scanned owners k m (omega arith) (omega arith) s))

  Scanned-IsValid :
      (owners : List (Option ℕ)) (m : MemoryManager)
      → Scanned owners (min (length owners) l.ram_pages) m
      → IsValid l m
  Scanned-IsValid owners m s = record {
    zeroed_len = ap length (s.zeroed_eq) ∙ length-replicate l.ram_pages false;
    dirty_len = s.dirty_len;
    unowned = λ i free.
        let d = s.dirty_in i (ground (arith, not_zeroed i, free)) in
        subst (λ xs. (i < length xs) × (get_or xs i none ≡ none)) (sym s.owners_eq)
          (omega (arith, d.0), d.1);
    apart = λ i on. absurd (ground (arith, not_zeroed i, on));
    hint = omega (arith, s.hint_eq);
    dirty_hint = λ h e. absurd (ground (arith, s.dirty_hint_eq, e));
    counted =
        s.counted
        ∙ free_count-min l.ram_pages owners
        ∙ sym (ap (free_count l.ram_pages) s.owners_eq);
  }
    where
      not_zeroed : (i : ℕ) → bit_at m.free_pages_zeroed i ≡ false
      not_zeroed i = ap (λ bits. bit_at bits i) s.zeroed_eq ∙ get_or-replicate l.ram_pages i

  -- The tracker that the boot code's owners give: valid, with the pages that have no owner, and
  -- no others, in the dirty bitmap, and none in the zeroed one.
  pub record Booted (owners : List (Option ℕ)) (m : MemoryManager) : Type 0 where
    pub valid : IsValid l m
    pub owners_kept : m.allocations ≡ owners
    pub free_dirty :
        (i : ℕ)
        → i < length owners
        → i < l.ram_pages
        → get_or owners i none ≡ none
        → bit_at m.free_pages_dirty i ≡ true
    pub dirty_only :
        (i : ℕ)
        → bit_at m.free_pages_dirty i ≡ true
        → (i < length owners) × (i < l.ram_pages) × (get_or owners i none ≡ none)
    pub none_zeroed : (i : ℕ) → bit_at m.free_pages_zeroed i ≡ false

  Scanned-Booted :
      (owners : List (Option ℕ)) (m : MemoryManager)
      → Scanned owners (min (length owners) l.ram_pages) m
      → Booted owners m
  Scanned-Booted owners m s = record {
    valid = Scanned-IsValid owners m s;
    owners_kept = s.owners_eq;
    free_dirty = λ i h h' free. s.dirty_on i (ground arith) free;
    dirty_only = λ i on. let d = s.dirty_in i on in (ground (arith, d.0), ground (arith, d.0), d.1);
    none_zeroed = λ i. ap (λ bits. bit_at bits i) s.zeroed_eq ∙ get_or-replicate l.ram_pages i;
  }

  -- Started with the page table that the boot code built, the tracker does not panic and is valid,
  -- keeps the owners, and has exactly the pages of RAM without owner that the table covers in the
  -- dirty bitmap and no page in the zeroed one.
  pub init_from_bootstrap-Booted :
      (owners : List (Option ℕ))
      → Returns (Booted owners) (init_from_bootstrap l (default_hack l) owners (length owners))
  unfolding init_from_bootstrap
  init_from_bootstrap-Booted owners =
      let m0 = record (default_hack l) { allocations = owners } in
      let k = min (length owners) l.ram_pages in
      let fits : ltb (length owners) k ≡ false = ground arith in
      let start : Scanned owners 0 m0 = record {
        owners_eq = refl;
        zeroed_eq = refl;
        dirty_len = length-replicate l.ram_pages false;
        dirty_in = λ i on. absurd (ground (arith, get_or-replicate l.ram_pages i, on));
        dirty_on = λ i lt free. absurd (omega arith);
        hint_eq = refl;
        dirty_hint_eq = refl;
        counted = refl;
      } in
      let s =
        subst (λ n. Scanned owners n (scan_bootstrap l m0 0 k)) {x = 0 + k} (omega arith)
          (scan_bootstrap-Scanned owners 0 k m0 (omega arith) (omega arith) start) in
      rw fits (_, refl, Scanned-Booted owners (scan_bootstrap l m0 0 k) s)
