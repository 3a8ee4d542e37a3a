-- ===== src/Memory/Grant.antt =====
-- What handing out free pages does to the page tracker of xous/kernel/src/mem.rs.
use beet_core.Common.{
  ℕ, ◌+◌, ◌<◌, ◌≤◌, ◌≡◌, ◌⊎◌, refl, sym, ◌∙◌, inl, inr, arith, Bool, true, false, ◌||◌, List, none,
  some, ltb, leb, length, Bool-cases,
}
use beet_core.Memory.Types.{Layout, MemoryManager}
use beet_core.Memory.Bitmap.{bit_at, fill, length-fill, get_or-fill_out, get_or-fill_in}
use beet_core.Memory.{fragmented_area_pages, spend_pages}
use beet_core.Memory.Range.{is_free}
use beet_core.Memory.Valid.{IsValid, free_count, free_count-fill, Unowned}

-- Is the number outside a range?
abbrev pub Outside : ℕ → ℕ → ℕ → Type 0
Outside from count i = (i < from) ⊎ (from + count ≤ i)

-- The bits of `next` are bits of `bits`, and none of them is in the range.
abbrev pub Leaves : ℕ → ℕ → List Bool → List Bool → Type 0
Leaves from count bits next =
    (length next ≡ length bits)
    × ((i : ℕ) → bit_at next i ≡ true → (bit_at bits i ≡ true) × Outside from count i)

pub range-cases : (from count i : ℕ) → ((from ≤ i) × (i < from + count)) ⊎ Outside from count i
range-cases from count i = elim (Bool-cases (leb from i)) [
  | inl lo ↦ elim (Bool-cases (ltb i (from + count))) [
    | inl hi ↦ inl (ground arith, ground arith)
    | inr hi ↦ inr (inr (ground arith))
  ]
  | inr lo ↦ inr (inl (ground arith))
]

pub Leaves-fill :
    (bits : List Bool) (from count : ℕ)
    → from + count ≤ length bits
    → Leaves from count bits (fill bits from count false)
Leaves-fill bits from count h = (
  length-fill bits from count false,
  λ i on. elim (range-cases from count i) [
    | inl here ↦ absurd (
        ground (
          arith,
          get_or-fill_in bits from count i false false here.0 here.1 (omega (arith, here.1)),
        ))
    | inr out ↦ (sym (get_or-fill_out bits from count i false false out) ∙ on, out)
  ],
)

-- A bitmap without bits in the range stays.
pub Leaves-refl :
    (bits : List Bool) (from count : ℕ)
    → ((i : ℕ) → from ≤ i → i < from + count → bit_at bits i ≡ false)
    → Leaves from count bits bits
Leaves-refl bits from count clear = (
  refl,
  λ i on. elim (range-cases from count i) [
    | inl here ↦ absurd (ground (arith, clear i here.0 here.1))
    | inr out ↦ (on, out)
  ],
)

module _ (l : Layout) where
  -- All pages of a run are free.
  abbrev pub FreeRun : MemoryManager → ℕ → ℕ → Type 0
  FreeRun m from count = (i : ℕ) → from ≤ i → i < from + count → is_free m i ≡ true

  pub FreeRun-Unowned :
      (m : MemoryManager) (from count : ℕ)
      → IsValid l m
      → FreeRun m from count
      → Unowned m.allocations from count
  FreeRun-Unowned m from count v free = λ i lo hi. v.unowned i (free i lo hi)

  pub FreeRun-counted :
      (m : MemoryManager) (from count pid : ℕ)
      → IsValid l m
      → FreeRun m from count
      → from + count ≤ l.ram_pages
      → free_count l.ram_pages (fill m.allocations from count (some pid)) + count ≡ m.num_free_pages
  FreeRun-counted m from count pid v free h =
      free_count-fill l.ram_pages m.allocations from count pid (FreeRun-Unowned m from count v free)
        h
      ∙ sym v.counted

  pub FreeRun-enough :
      (m : MemoryManager) (from count : ℕ)
      → IsValid l m
      → FreeRun m from count
      → from + count ≤ l.ram_pages
      → count ≤ m.num_free_pages
  FreeRun-enough m from count v free h = omega (arith, FreeRun-counted m from count 0 v free h)

  -- The tracker after a run is handed to a process.
  abbrev pub granted : MemoryManager → ℕ → ℕ → ℕ → List Bool → List Bool → ℕ → MemoryManager
  granted m from count pid zeroed dirty hint = record (spend_pages l m count) {
    allocations = fill m.allocations from count (some pid);
    free_pages_zeroed = zeroed;
    free_pages_dirty = dirty;
    next_zeroed_page_hint = hint;
  }

  still_free :
      (m : MemoryManager) (from count : ℕ) (zeroed dirty : List Bool)
      → Leaves from count m.free_pages_zeroed zeroed
      → Leaves from count m.free_pages_dirty dirty
      → (i : ℕ) → (bit_at zeroed i || bit_at dirty i) ≡ true
      → (is_free m i ≡ true) × Outside from count i
  still_free m from count zeroed dirty lz ld i on = elim (Bool-cases (bit_at zeroed i)) [
    | inl z ↦ (rw ((lz.1 i z).0) refl, (lz.1 i z).1)
    | inr z ↦ elim (Bool-cases (bit_at dirty i)) [
      | inl d ↦ (ground (arith, (ld.1 i d).0), (ld.1 i d).1)
      | inr d ↦ absurd (ground arith)
    ]
  ]

  pub granted-IsValid :
      (m : MemoryManager) (from count pid : ℕ) (zeroed dirty : List Bool) (hint : ℕ)
      → IsValid l m
      → FreeRun m from count
      → from + count ≤ l.ram_pages
      → Leaves from count m.free_pages_zeroed zeroed
      → Leaves from count m.free_pages_dirty dirty
      → hint ≤ fragmented_area_pages l
      → IsValid l (granted m from count pid zeroed dirty hint)
  granted-IsValid m from count pid zeroed dirty hint v free h lz ld hh = record {
    zeroed_len = lz.0 ∙ v.zeroed_len;
    dirty_len = ld.0 ∙ v.dirty_len;
    unowned = λ i on.
        let was = still_free m from count zeroed dirty lz ld i on in
        let u = v.unowned i (was.0) in
        (
          omega (arith, length-fill m.allocations from count (some pid), u.0),
          get_or-fill_out m.allocations from count i (some pid) none (was.1) ∙ u.1,
        );
    apart = λ i on. elim (Bool-cases (bit_at dirty i)) [
      | inl d ↦ absurd (ground (arith, v.apart i ((lz.1 i on).0), (ld.1 i d).0))
      | inr d ↦ d
    ];
    hint = hh;
    dirty_hint = v.dirty_hint;
    counted = omega (arith, FreeRun-counted m from count pid v free h);
  }
