-- ===== src/Memory/Valid.antt =====
-- What the page tracker of xous/kernel/src/mem.rs keeps: free pages have no owner, no page is both
-- zeroed and dirty, and the number of free pages is that of RAM pages without owner.
use beet_core.Common.{
  ℕ, zero, suc, ◌+◌, ◌<◌, ◌≤◌, ◌≡◌, refl, ◌∙◌, subst, inl, inr, arith, Bool, true, false, not, List,
  [], ◌∷◌, Option, none, some, if◌then◌else◌, length, get_or, set, is_some, take, count_if,
  Bool-cases, length-set, get_or-set_ne,
}
use beet_core.Abi.Outcome.{ok}
use beet_core.Memory.Types.{Layout, MemoryManager}
use beet_core.Memory.Bitmap.{Searches, AllSet, bit_at, fill}
use beet_core.Memory.{
  fragmented_area_pages, spend_pages, gain_pages, subtract_free_pages, add_free_pages,
}
use beet_core.Memory.Range.{is_free}

abbrev pub is_unowned : Option ℕ → Bool
is_unowned owner = not (is_some owner)

abbrev pub weight : Option ℕ → ℕ
weight owner = if is_unowned owner then 1 else 0

-- The pages without owner among the first `n`.
abbrev pub free_count : ℕ → List (Option ℕ) → ℕ
free_count n owners = count_if is_unowned (take n owners)

pub free_count-le : (n : ℕ) (xs : List (Option ℕ)) → free_count n xs ≤ n
free_count-le zero xs = omega arith
free_count-le (suc n) [] = omega arith
free_count-le (suc n) (x ∷ xs) = ground (arith, free_count-le n xs)

pub free_count-set :
    (n : ℕ) (xs : List (Option ℕ)) (i : ℕ) (v : Option ℕ)
    → i < n
    → i < length xs
    → free_count n (set xs i v) + weight (get_or xs i none) ≡ free_count n xs + weight v
free_count-set zero xs i v h h' = absurd (omega arith)
free_count-set (suc n) [] i v h h' = absurd (omega arith)
free_count-set (suc n) (x ∷ xs) zero v h h' = ground arith
free_count-set (suc n) (x ∷ xs) (suc i) v h h' =
    ground (arith, free_count-set n xs i v (omega arith) (omega arith))

pub free_count-set_out :
    (n : ℕ) (xs : List (Option ℕ)) (i : ℕ) (v : Option ℕ)
    → n ≤ i
    → free_count n (set xs i v) ≡ free_count n xs
free_count-set_out zero xs i v h = refl
free_count-set_out (suc n) [] i v h = refl
free_count-set_out (suc n) (x ∷ xs) zero v h = absurd (omega arith)
free_count-set_out (suc n) (x ∷ xs) (suc i) v h =
    ground (arith, free_count-set_out n xs i v (omega arith))

-- A run of pages without owner, all tracked.
abbrev pub Unowned : List (Option ℕ) → ℕ → ℕ → Type 0
Unowned xs from count =
    (i : ℕ) → from ≤ i → i < from + count → (i < length xs) × (get_or xs i none ≡ none)

pub free_count-fill :
    (n : ℕ) (xs : List (Option ℕ)) (from count pid : ℕ)
    → Unowned xs from count
    → from + count ≤ n
    → free_count n (fill xs from count (some pid)) + count ≡ free_count n xs
unfolding fill
free_count-fill n xs from zero pid free h = omega arith
free_count-fill n xs from (suc count) pid free h =
    let here = free from (omega arith) (omega arith) in
    let next = free_count-set n xs from (some pid) (omega arith) (here.0) in
    let next' =
      subst (λ o. free_count n (set xs from (some pid)) + weight o ≡ free_count n xs + 0) (here.1)
        next in
    let rest =
      free_count-fill n (set xs from (some pid)) (from + 1) count pid
        (λ i lo hi. (
          omega (arith, free i (omega arith) (omega arith), length-set xs from (some pid)),
          get_or-set_ne xs from i (some pid) none (λ e. omega arith)
              ∙ (free i (omega arith) (omega arith)).1,
        ))
        (omega arith) in
    omega (arith, next', rest)

pub bit_at-lt : (bits : List Bool) (i : ℕ) → bit_at bits i ≡ true → i < length bits
bit_at-lt [] i h = absurd (ground arith)
bit_at-lt (b ∷ bits) zero h = omega arith
bit_at-lt (b ∷ bits) (suc i) h = omega (arith, bit_at-lt bits i h)

-- What the memory manager relies on of the `bitvec` crate: a search finds a set bit if there is
-- one, and lists set bits only; the leading ones are set, and there is one if the first bit is set.
pub record IsBitvec (l : Layout) : Type 0 where
  pub first : (bits : List Bool) → Searches bits (l.first_one bits)
  pub ones : (bits : List Bool) → AllSet bits (l.iter_ones bits)
  pub leading : (bits : List Bool) (i : ℕ) → i < l.leading_ones bits → bit_at bits i ≡ true
  pub leads : (bits : List Bool) → bit_at bits 0 ≡ true → 0 < l.leading_ones bits

module _ (l : Layout) where
  pub record IsValid (m : MemoryManager) : Type 0 where
    pub zeroed_len : length m.free_pages_zeroed ≡ l.ram_pages
    pub dirty_len : length m.free_pages_dirty ≡ l.ram_pages
    pub unowned :
        (i : ℕ)
        → is_free m i ≡ true
        → (i < length m.allocations) × (get_or m.allocations i none ≡ none)
    pub apart : (i : ℕ) → bit_at m.free_pages_zeroed i ≡ true → bit_at m.free_pages_dirty i ≡ false
    pub hint : m.next_zeroed_page_hint ≤ fragmented_area_pages l
    pub dirty_hint : (h : ℕ) → m.next_dirty_page_hint ≡ some h → h < l.ram_pages
    pub counted : m.num_free_pages ≡ free_count l.ram_pages m.allocations

  -- A free page is a page of RAM.
  pub is_free-lt : (m : MemoryManager) (i : ℕ) → IsValid m → is_free m i ≡ true → i < l.ram_pages
  is_free-lt m i v h = elim (Bool-cases (bit_at m.free_pages_zeroed i)) [
    | inl z ↦ omega (arith, v.zeroed_len, bit_at-lt m.free_pages_zeroed i z)
    | inr z ↦ omega (arith, v.dirty_len, bit_at-lt m.free_pages_dirty i (ground arith))
  ]

  pub subtract_free_pages-ok :
      (m : MemoryManager) (n : ℕ)
      → n ≤ m.num_free_pages
      → subtract_free_pages l m n ≡ ok (spend_pages l m n)
  unfolding subtract_free_pages
  subtract_free_pages-ok m n h = ground arith

  pub add_free_pages-ok :
      (m : MemoryManager) (n : ℕ)
      → m.num_free_pages + n ≤ l.ram_pages
      → add_free_pages l m n ≡ ok (gain_pages l m n)
  unfolding add_free_pages
  add_free_pages-ok m n h = ground arith
