-- ===== src/Memory/Tests.antt =====
-- The page tracker of xous/kernel/src/mem.rs for seven pages of 8 MiB, five of them kept for big
-- allocations, on a machine that has four.
use beet_core.Common.{
  subst, ◌≤◌, ◌<◌, ◌+◌, zero, suc, Bool, true, false, List, [], ◌∷◌, Option, none, some, ap, ◌∙◌,
  arith, if◌then◌else◌, ℕ, ◌≡◌, refl, get_or,
}
use beet_core.Abi.Error.{Error}
use beet_core.Abi.Outcome.{ok, panic, ◌>>=◌}
use beet_core.Abi.After.{Returns, After-ok, Returns-After}
use beet_core.Memory.Types.{Layout, MemoryManager}
use beet_core.Memory.Bitmap.{bit_at, Searches, AllSet, first_one, fill}
use beet_core.Memory.{
  page_address, alloc_single_page, choose_page, alloc_chosen, grant_page, subtract_free_pages,
}
use beet_core.Memory.Range.{
  is_free, is_zeroed, default_hack, init_from_bootstrap, scan_bootstrap, scan_page,
  alloc_range_aligned, choose_run, find_last, grant_run, ram_used_by, take_dirty_pages,
  next_dirty_page, take_run,
}
use beet_core.Memory.Claim.{
  set_pages_to_zeroed, claim, claim_release_move, address_to_allocation_offset, region_offset,
  release_all_memory_for_process,
}
use beet_core.Memory.Valid.{IsValid, IsBitvec}
use beet_core.Memory.Single.{SinglePage, alloc_single_page-SinglePage}
use beet_core.Memory.Runs.{AlignedRun, alloc_range_aligned-AlignedRun}
use beet_core.Memory.Acts.{Acts, claim_release_move-Acts}
use beet_core.Memory.Released.{Freed, without, release_all_memory_for_process-Clears}
use beet_core.Memory.Zeroer.{Zeroing, set_pages_to_zeroed_lem, Takes, take_dirty_pages-Takes}
use beet_core.Memory.Boot.{Booted, init_from_bootstrap-Booted}

-- The searches of the `bitvec` crate, written out.
abbrev after : Option ℕ → Option ℕ
after none = none
after (some i) = some (i + 1)

abbrev first_set : List Bool → Option ℕ
first_set [] = none
first_set (bit ∷ bits) = if bit then some 0 else after (first_set bits)

abbrev ones_from : ℕ → List Bool → List ℕ
ones_from n [] = []
ones_from n (bit ∷ bits) = let rest = ones_from (n + 1) bits in if bit then n ∷ rest else rest

abbrev leading : List Bool → ℕ
leading [] = 0
leading (bit ∷ bits) = let rest = leading bits in if bit then rest + 1 else 0

abbrev layout : Layout
layout = record {
  ram_pages = 7;
  page_size = 8388608;
  dram_base = 1048576000;
  first_one = first_set;
  iter_ones = ones_from 0;
  leading_ones = leading;
}

after-Searches :
    (b : Bool) (bits : List Bool) (r : Option ℕ)
    → b ≡ false
    → Searches bits r
    → Searches (b ∷ bits) (after r)
after-Searches b bits none e h = λ i. at i
  where
    at : (i : ℕ) → bit_at (b ∷ bits) i ≡ false
    at zero = e
    at (suc i) = h i
after-Searches b bits (some i) e h =
    ap (bit_at (b ∷ bits)) {x = i + 1} {y = suc i} (omega arith) ∙ h

first_set-Searches : (bits : List Bool) → Searches bits (first_set bits)
first_set-Searches [] = λ i. refl
first_set-Searches (true ∷ bits) = refl
first_set-Searches (false ∷ bits) =
    after-Searches false bits (first_set bits) refl (first_set-Searches bits)

shifted :
    (n : ℕ) (all : List Bool) (b : Bool) (bits : List Bool)
    → ((i : ℕ) → bit_at all (n + i) ≡ bit_at (b ∷ bits) i)
    → (i : ℕ) → bit_at all (n + 1 + i) ≡ bit_at bits i
shifted n all b bits h i = ap (bit_at all) {x = n + 1 + i} {y = n + suc i} (omega arith) ∙ h (suc i)

-- The indexes are counted from those of a longer bitmap.
ones_from-AllSet :
    (n : ℕ) (all bits : List Bool)
    → ((i : ℕ) → bit_at all (n + i) ≡ bit_at bits i)
    → AllSet all (ones_from n bits)
ones_from-AllSet n all [] h = tt
ones_from-AllSet n all (true ∷ bits) h = (
  ap (bit_at all) {x = n} {y = n + 0} (omega arith) ∙ h 0,
  ones_from-AllSet (n + 1) all bits (shifted n all true bits h),
)
ones_from-AllSet n all (false ∷ bits) h =
    ones_from-AllSet (n + 1) all bits (shifted n all false bits h)

leading_bit : (bits : List Bool) (i : ℕ) → i < leading bits → bit_at bits i ≡ true
leading_bit [] i h = absurd (omega arith)
leading_bit (true ∷ bits) zero h = refl
leading_bit (true ∷ bits) (suc i) h = leading_bit bits i (omega arith)
leading_bit (false ∷ bits) i h = absurd (omega arith)

leading_some : (bits : List Bool) → bit_at bits 0 ≡ true → 0 < leading bits
leading_some [] h = absurd (ground arith)
leading_some (true ∷ bits) h = omega arith
leading_some (false ∷ bits) h = absurd (ground arith)

layout-IsBitvec : IsBitvec layout
layout-IsBitvec = record {
  first = first_set-Searches;
  leading = leading_bit;
  leads = leading_some;
  ones = λ bits. ones_from-AllSet 0 bits bits (λ i. ap (bit_at bits) {x = 0 + i} (omega arith));
}

abbrev owners : List (Option ℕ)
owners = some 1 ∷ none ∷ none ∷ some 2 ∷ []

abbrev started : MemoryManager
started = record (default_hack layout) {
  allocations = owners;
  free_pages_dirty = false ∷ true ∷ true ∷ false ∷ false ∷ false ∷ false ∷ [];
  num_free_pages = 2;
}

started_lem : init_from_bootstrap layout (default_hack layout) owners 4 ≡ ok started
unfolding init_from_bootstrap scan_bootstrap scan_page
started_lem = refl

started-IsValid : IsValid layout started
started-IsValid =
    (After-ok (Booted layout owners) (init_from_bootstrap layout (default_hack layout) owners 4)
      started (Returns-After (Booted layout owners) _ (init_from_bootstrap-Booted layout owners))
      started_lem).valid

init_from_bootstrap-Booted_example :
    Returns (Booted layout owners) (init_from_bootstrap layout (default_hack layout) owners 4)
init_from_bootstrap-Booted_example = init_from_bootstrap-Booted layout owners

alloc_single_page-SinglePage_example :
    SinglePage layout started 7 (alloc_single_page layout started 7)
alloc_single_page-SinglePage_example =
    alloc_single_page-SinglePage layout started 7 layout-IsBitvec started-IsValid

alloc_range_aligned-AlignedRun_example :
    AlignedRun layout started 1 2 7 (alloc_range_aligned layout 1 started 2 7)
alloc_range_aligned-AlignedRun_example =
    alloc_range_aligned-AlignedRun layout started 1 2 7 layout-IsBitvec started-IsValid
      (omega arith) (omega arith)

abbrev allow_all : ℕ → ℕ → Option Error
allow_all pid addr = none

page_one : address_to_allocation_offset layout started 1056964608 ≡ ok (some 1)
unfolding address_to_allocation_offset region_offset
page_one = refl

claim_release_move-Acts_example :
    Acts layout started 1 7 claim none
      (claim_release_move layout allow_all started 1056964608 7 claim)
claim_release_move-Acts_example =
    claim_release_move-Acts layout allow_all started 1056964608 7 1 claim started-IsValid refl refl
      page_one (omega arith)

release_all_memory_for_process-Clears_example :
    Returns
      (λ m'.
        IsValid layout m'
        × ((i : ℕ) → get_or m'.allocations i none ≡ without 2 (get_or owners i none))
        × ((i : ℕ) → Freed layout 2 owners i → is_free m' i ≡ true))
      (release_all_memory_for_process layout started 2)
release_all_memory_for_process-Clears_example =
    release_all_memory_for_process-Clears layout started 2 started-IsValid

take_dirty_pages-Takes_example : Returns (Takes layout started) (take_dirty_pages layout started)
take_dirty_pages-Takes_example =
    take_dirty_pages-Takes layout started layout-IsBitvec started-IsValid (omega arith)
      (omega arith)

-- The tracker while the zeroer has its page.
abbrev zeroing : MemoryManager
zeroing = record started {
  free_pages_dirty = false ∷ false ∷ true ∷ false ∷ false ∷ false ∷ false ∷ [];
  next_dirty_page_hint = some 2;
}

zeroing_lem : take_dirty_pages layout started ≡ ok (zeroing, some (1056964608, 1))
unfolding take_dirty_pages next_dirty_page first_one take_run fill
zeroing_lem = refl

zeroing-Takes : Takes layout started (zeroing, some (1056964608, 1))
zeroing-Takes =
    After-ok (Takes layout started) (take_dirty_pages layout started)
      (zeroing, some (1056964608, 1))
      (Returns-After (Takes layout started) _ (
        take_dirty_pages-Takes layout started layout-IsBitvec started-IsValid (omega arith)
          (omega arith)))
      zeroing_lem

zeroing-Zeroing : Zeroing layout zeroing 1 1
zeroing-Zeroing =
    subst (λ i. Zeroing layout zeroing i 1) (omega (arith, zeroing-Takes.1)) (zeroing-Takes.5)

set_pages_to_zeroed_lem_example :
    Returns
      (λ m'.
        IsValid layout m'
        × ((j : ℕ) → 1 ≤ j → j < 1 + 1 → is_zeroed m' j ≡ true)
        × (m'.allocations ≡ zeroing.allocations))
      (set_pages_to_zeroed layout zeroing (page_address layout 1) 1)
set_pages_to_zeroed_lem_example =
    set_pages_to_zeroed_lem layout zeroing 1 1 (zeroing-Takes.6) zeroing-Zeroing (omega arith)
      (omega arith)

-- The address and whether it is zeroed.
abbrev answer : MemoryManager × ℕ × Bool → ℕ × Bool
answer r = (r.1, r.2)

-- Two pages in a row that are not all zeroed.
two_pages :
    (alloc_range_aligned layout 1 started 2 7 >>= λ r. ok (answer r)) ≡ ok (1056964608, false)
unfolding alloc_range_aligned choose_run find_last grant_run subtract_free_pages fill
two_pages = refl

-- The first dirty page, when no page is zeroed.
one_page : (alloc_single_page layout started 7 >>= λ r. ok (answer r)) ≡ ok (1056964608, false)
unfolding alloc_single_page choose_page alloc_chosen grant_page subtract_free_pages first_one
one_page = refl

-- More pages than there are, and none at all.
too_many_pages : alloc_range_aligned layout 1 started 8 7 ≡ panic
unfolding alloc_range_aligned
too_many_pages = refl

no_pages : alloc_range_aligned layout 1 started 0 7 ≡ panic
unfolding alloc_range_aligned
no_pages = refl

-- The tracker of a machine with less RAM than the layout's.
abbrev small : MemoryManager
small = record started { allocations = some 1 ∷ none ∷ [] }

-- An address of RAM that the machine does not have.
past_the_tracker : claim_release_move layout allow_all small 1073741824 7 claim ≡ panic
unfolding claim_release_move address_to_allocation_offset region_offset
past_the_tracker = refl

used_past_the_tracker : ram_used_by layout small 1 ≡ panic
unfolding ram_used_by
used_past_the_tracker = refl
