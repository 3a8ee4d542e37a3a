-- ===== src/Memory/Zeroer.antt =====
-- The page zeroer's side of xous/kernel/src/mem.rs: `take_dirty_pages` and `set_pages_to_zeroed`.
use native.Mathlib.Nat.{le-div_iff_mul-le, mod-lt, mul-div_cancel, mul-lt-mul_of_pos_right}
use beet_core.Common.{
  ℕ, ◌+◌, ◌-◌, ◌*◌, ◌/◌, ◌%◌, ◌<◌, ◌≤◌, ◌≡◌, refl, inl, inr, arith, true, false, ◌&&◌, ◌||◌, Option,
  none, some, sym, ap, ◌∙◌, subst, ltb, leb, length, Bool-cases, min,
}
use beet_core.Abi.Outcome.{ok}
use beet_core.Abi.After.{Returns, Returns-then}
use beet_core.Memory.Types.{Layout, MemoryManager}
use beet_core.Memory.Bitmap.{
  bit_at, slice, first_one, fill, Finds, first_one-Finds, bit_at-slice, bit_at-slice_first,
  length-fill, get_or-fill_in, get_or-fill_out,
}
use beet_core.Memory.{page_address}
use beet_core.Memory.Range.{
  is_free, is_zeroed, next_dirty_page, or_else, unwrap_or, take_run, take_dirty_pages,
}
use beet_core.Memory.Claim.{address_to_allocation_offset, set_pages_to_zeroed}
use beet_core.Memory.Valid.{IsBitvec, IsValid, Unowned}
use beet_core.Memory.Choose.{join_none}
use beet_core.Memory.Grant.{Leaves-fill, range-cases}

module _ (l : Layout) where
  -- The pages of a run are being zeroed: without owner, and in no bitmap.
  pub record Zeroing (m : MemoryManager) (from count : ℕ) : Type 0 where
    pub inside : from + count ≤ l.ram_pages
    pub ownerless : Unowned m.allocations from count
    pub busy : (i : ℕ) → from ≤ i → i < from + count → is_free m i ≡ false

  -- The address of a page leads back to it.
  pub address_lem :
      (m : MemoryManager) (i : ℕ)
      → 0 < l.page_size
      → i < l.ram_pages
      → address_to_allocation_offset l m (page_address l i) ≡ ok (some i)
  unfolding address_to_allocation_offset
  address_lem m i pos lt =
      let in_window : (leb l.dram_base (page_address l i)
            && ltb (page_address l i) (l.dram_base + l.ram_pages * l.page_size))
          ≡ true =
        ground (arith, mul-lt-mul_of_pos_right lt pos) in
      rw in_window (
        ap (λ n. ok (some n))
          (ap (λ n. n / l.page_size) {x = page_address l i - l.dram_base} {y = i * l.page_size}
              (omega arith)
            ∙ mul-div_cancel i pos))

  -- The tracker without the dirty bits of a run.
  abbrev undirtied : MemoryManager → ℕ → ℕ → Option ℕ → MemoryManager
  undirtied m from count hint = record m {
    free_pages_dirty = fill m.free_pages_dirty from count false;
    next_dirty_page_hint = hint;
  }

  undirtied-IsValid :
      (m : MemoryManager) (from count : ℕ) (hint : Option ℕ)
      → IsValid l m
      → from + count ≤ l.ram_pages
      → ((h : ℕ) → hint ≡ some h → h < l.ram_pages)
      → IsValid l (undirtied m from count hint)
  undirtied-IsValid m from count hint v inside hh =
      let lv = Leaves-fill m.free_pages_dirty from count (omega (arith, v.dirty_len)) in
      record {
        zeroed_len = v.zeroed_len;
        dirty_len = lv.0 ∙ v.dirty_len;
        unowned = λ i free. v.unowned i (elim (Bool-cases (bit_at m.free_pages_zeroed i)) [
          | inl z ↦ ground (arith, z)
          | inr z ↦ ground (arith, lv.1 i)
        ]);
        apart = λ i z. elim (Bool-cases (bit_at (fill m.free_pages_dirty from count false) i)) [
          | inl d ↦ absurd (ground (arith, v.apart i z, (lv.1 i d).0))
          | inr d ↦ d
        ];
        hint = v.hint;
        dirty_hint = hh;
        counted = v.counted;
      }

  next_dirty_page-Finds :
      (m : MemoryManager)
      → IsBitvec l
      → IsValid l m
      → Returns (Finds m.free_pages_dirty 0 l.ram_pages) (next_dirty_page l m)
  unfolding next_dirty_page
  next_dirty_page-Finds m b v =
      let d = m.free_pages_dirty in
      let start = unwrap_or m.next_dirty_page_hint 0 in
      let start_in : start ≤ l.ram_pages = hint_in m.next_dirty_page_hint v.dirty_hint in
      Returns-then (Finds d start l.ram_pages) (Finds d 0 l.ram_pages)
        (first_one l.first_one d start l.ram_pages)
        (λ ahead. or_else ahead (first_one l.first_one d 0 start))
        (first_one-Finds l.first_one d start l.ram_pages b.first start_in
          (omega (arith, v.dirty_len)))
        (λ ahead found. second ahead found)
    where
      hint_in :
          (hint : Option ℕ)
          → ((h : ℕ) → hint ≡ some h → h < l.ram_pages)
          → unwrap_or hint 0 ≤ l.ram_pages
      hint_in none h = omega arith
      hint_in (some n) h = omega (arith, h n refl)

      second :
          (ahead : Option ℕ)
          → Finds m.free_pages_dirty (unwrap_or m.next_dirty_page_hint 0) l.ram_pages ahead
          → Returns (Finds m.free_pages_dirty 0 l.ram_pages) (
              or_else ahead
                (first_one l.first_one m.free_pages_dirty 0 (unwrap_or m.next_dirty_page_hint 0)))
      second (some i) found = (some i, refl, (omega arith, found.1, found.2))
      second none missed =
          let start_in = hint_in m.next_dirty_page_hint v.dirty_hint in
          let r =
            first_one-Finds l.first_one m.free_pages_dirty 0 (unwrap_or m.next_dirty_page_hint 0)
              b.first (omega arith) (omega (arith, start_in, v.dirty_len)) in
          (r.0, r.1, wider (r.0) missed start_in (r.2))
        where
          wider :
              (r : Option ℕ)
              → Finds m.free_pages_dirty (unwrap_or m.next_dirty_page_hint 0) l.ram_pages none
              → unwrap_or m.next_dirty_page_hint 0 ≤ l.ram_pages
              → Finds m.free_pages_dirty 0 (unwrap_or m.next_dirty_page_hint 0) r
              → Finds m.free_pages_dirty 0 l.ram_pages r
          wider none missed start_in f = join_none m.free_pages_dirty 0 _ l.ram_pages f missed
          wider (some i) missed start_in f = (f.0, omega (arith, f.1), f.2)

  -- A run is taken, or no page is dirty.
  abbrev pub Takes : MemoryManager → MemoryManager × Option (ℕ × ℕ) → Type 0
  Takes m (m', none) =
      IsValid l m' × ((i : ℕ) → i < l.ram_pages → bit_at m.free_pages_dirty i ≡ false)
  Takes m (m', some (phys, pages)) =
      (i : ℕ) × (phys ≡ page_address l i)
      × (0 < pages)
      × ((j : ℕ) → i ≤ j → j < i + pages → bit_at m.free_pages_dirty j ≡ true)
      × (m'.allocations ≡ m.allocations)
      × Zeroing m' i pages
      × IsValid l m'

  take_run-Takes :
      (m : MemoryManager) (r : Option ℕ)
      → IsBitvec l
      → IsValid l m
      → 0 < l.page_size
      → l.page_size ≤ 8 * 1024 * 1024
      → Finds m.free_pages_dirty 0 l.ram_pages r
      → Takes m (take_run l m r)
  unfolding take_run
  take_run-Takes m none b v pos small f = (
    record {
      zeroed_len = v.zeroed_len;
      dirty_len = v.dirty_len;
      unowned = v.unowned;
      apart = v.apart;
      hint = v.hint;
      dirty_hint = λ h e. absurd (ground (arith, e));
      counted = v.counted;
    },
    λ i lt. f i (omega arith) lt,
  )
  take_run-Takes m (some i) b v pos small f =
      let s = slice m.free_pages_dirty i l.ram_pages in
      let n = min (l.leading_ones s) (8 * 1024 * 1024 / l.page_size) in
      let dirty : (k : ℕ)
          → k < n
          → (i + k < l.ram_pages) × (bit_at m.free_pages_dirty (i + k) ≡ true) =
        λ k h. bit_at-slice m.free_pages_dirty i l.ram_pages k (b.leading s k (omega arith)) in
      let first = b.leads s (bit_at-slice_first m.free_pages_dirty i l.ram_pages (f.1) (f.2)) in
      let room : 1 ≤ 8 * 1024 * 1024 / l.page_size =
        (le-div_iff_mul-le {k = l.page_size} {x = 1} {y = 8 * 1024 * 1024} pos).1
          (omega (arith, small)) in
      let positive : 0 < n = omega (arith, first, room) in
      let inside : i + n ≤ l.ram_pages =
        omega (arith, (dirty (n - 1) (omega (arith, positive))).0, positive) in
      let run : (j : ℕ) → i ≤ j → j < i + n → bit_at m.free_pages_dirty j ≡ true = λ j lo hi.
        subst (λ k. bit_at m.free_pages_dirty k ≡ true) {x = i + (j - i)} (omega arith)
          ((dirty (j - i) (omega arith)).1) in
      (
        i,
        refl,
        positive,
        run,
        refl,
        record {
          inside = inside;
          ownerless = λ j lo hi. v.unowned j (ground (arith, run j lo hi));
          busy = λ j lo hi. ground (
            arith,
            run j lo hi,
            v.apart j,
            get_or-fill_in m.free_pages_dirty i n j false false lo hi (omega (arith, v.dirty_len)),
          );
        },
        undirtied-IsValid m i n (some ((i + n) % l.ram_pages)) v inside (λ h e.
            subst (λ k. k < l.ram_pages) (ap (λ o. unwrap_or o 0) e)
              (mod-lt (i + n) (omega (arith, f.1)))),
      )

  -- With the searches of bitvec and pages of at most 8 MiB, on a valid tracker the zeroer takes a
  -- run of at least one dirty page when there is one: the run is in no bitmap then and still has no
  -- owner, and the tracker stays valid. It takes nothing exactly when no page is dirty.
  pub take_dirty_pages-Takes :
      (m : MemoryManager)
      → IsBitvec l
      → IsValid l m
      → 0 < l.page_size
      → l.page_size ≤ 8 * 1024 * 1024
      → Returns (Takes m) (take_dirty_pages l m)
  unfolding take_dirty_pages
  take_dirty_pages-Takes m b v pos small =
      Returns-then (Finds m.free_pages_dirty 0 l.ram_pages) (Takes m) (next_dirty_page l m)
        (λ offset. ok (take_run l m offset)) (next_dirty_page-Finds m b v)
        (λ r f. (take_run l m r, refl, take_run-Takes m r b v pos small f))

  -- Pages that are being zeroed and are given back are zeroed pages, and the tracker stays valid.
  pub set_pages_to_zeroed_lem :
      (m : MemoryManager) (i pages : ℕ)
      → IsValid l m
      → Zeroing m i pages
      → 0 < l.page_size
      → 0 < pages
      → Returns
          (λ m'.
            IsValid l m'
            × ((j : ℕ) → i ≤ j → j < i + pages → is_zeroed m' j ≡ true)
            × (m'.allocations ≡ m.allocations))
          (set_pages_to_zeroed l m (page_address l i) pages)
  unfolding set_pages_to_zeroed
  set_pages_to_zeroed_lem m i pages v z pos some_pages =
      let lt : i < l.ram_pages = omega (arith, z.inside) in
      let fits : ltb (length m.free_pages_zeroed) (i + pages) ≡ false =
        ground (arith, v.zeroed_len, z.inside) in
      rw (address_lem m i pos lt) (
        rw fits (
          _,
          refl,
          (
            given_back m i pages v z,
            (λ j lo hi.
                get_or-fill_in m.free_pages_zeroed i pages j true false lo hi
                  (omega (arith, v.zeroed_len, z.inside))),
            refl,
          ),
        ))
    where
      given_back :
          (m : MemoryManager) (i pages : ℕ)
          → IsValid l m
          → Zeroing m i pages
          → IsValid l (record m { free_pages_zeroed = fill m.free_pages_zeroed i pages true })
      given_back m i pages v z = record {
        zeroed_len = length-fill m.free_pages_zeroed i pages true ∙ v.zeroed_len;
        dirty_len = v.dirty_len;
        unowned = λ j free. elim (range-cases i pages j) [
          | inl here ↦ z.ownerless j here.0 here.1
          | inr there ↦ v.unowned j (
              subst (λ b. (b || bit_at m.free_pages_dirty j) ≡ true)
                (get_or-fill_out m.free_pages_zeroed i pages j true false there) free)
        ];
        apart = λ j on. elim (range-cases i pages j) [
          | inl here ↦ ground (arith, z.busy j here.0 here.1)
          | inr there ↦
              v.apart j (sym (get_or-fill_out m.free_pages_zeroed i pages j true false there) ∙ on)
        ];
        hint = v.hint;
        dirty_hint = v.dirty_hint;
        counted = v.counted;
      }
