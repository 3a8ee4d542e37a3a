-- ===== src/Memory/Range.antt =====
-- `alloc_range`, the page zeroer's `take_dirty_pages` and `set_pages_to_zeroed`, the start-up and the
-- counters of xous/kernel/src/mem.rs.
use beet_core.Common.{
  ◌∷◌, take, [], replicate, ℕ, zero, suc, ◌+◌, ◌-◌, ◌*◌, ◌/◌, ◌%◌, min, Bool, true, false, ◌&&◌,
  ◌||◌, List, Option, none, some, ltb, ◌==◌, if◌then◌else◌, length, get_or, set, is_some, take,
  count_if,
}
use beet_core.Abi.Error.{out_of_memory}
use beet_core.Abi.Outcome.{Outcome, ok, err, panic, ◌>>=◌}
use beet_core.Memory.Types.{Layout, MemoryManager}
use beet_core.Memory.Bitmap.{slice, bit_at, first_one, fill}
use beet_core.Memory.{subtract_free_pages, page_address, alloc_single_page}

-- Do all of `count` numbers from `from` on pass? `.all()` on a range.
abbrev pub all_from : (ℕ → Bool) → ℕ → ℕ → Bool
all_from p from zero = true
all_from p from (suc count) = p from && all_from p (from + 1) count

-- The largest number below a bound that passes: `.rev().find(..)`.
abbrev pub last_below : (ℕ → Bool) → ℕ → Option ℕ
last_below p zero = none
last_below p (suc n) = let rest = last_below p n in if p n then some n else rest

-- A zeroed page, and one that is zeroed or dirty.
abbrev pub is_zeroed : MemoryManager → ℕ → Bool
is_zeroed self i = bit_at self.free_pages_zeroed i

abbrev pub is_free : MemoryManager → ℕ → Bool
is_free self i = bit_at self.free_pages_zeroed i || bit_at self.free_pages_dirty i

-- Does an aligned run of `n` pages that pass start at `i`?
-- A run at `i`. The alignment is a power of two, so `i & (align - 1)` is the remainder; the kernel
-- asks for 1.
abbrev pub run_at : (ℕ → Bool) → ℕ → ℕ → ℕ → Bool
run_at p align n i = i % align == 0 && all_from p i n

-- A zeroed run, or what the slow path finds.
abbrev pub or_slow : Option ℕ → Outcome (ℕ × Bool) → Outcome (ℕ × Bool)
or_slow (some idx) slow = ok (idx, true)
or_slow none slow = slow

abbrev pub slow_run : Option ℕ → Outcome (ℕ × Bool)
slow_run (some idx) = ok (idx, false)
slow_run none = err out_of_memory

-- `.rev().filter(..).find(..)` on the indexes of the set bits
abbrev pub or_earlier : Option ℕ → Option ℕ → Option ℕ
or_earlier (some later) earlier = some later
or_earlier none earlier = earlier

unfoldable pub find_last : (ℕ → Bool) → List ℕ → Option ℕ
find_last p [] = none
find_last p (i ∷ rest) = or_earlier (find_last p rest) (if p i then some i else none)

abbrev pub unwrap_or : Option ℕ → ℕ → ℕ
unwrap_or none d = d
unwrap_or (some n) d = n

abbrev pub or_else : Option ℕ → Outcome (Option ℕ) → Outcome (Option ℕ)
or_else (some n) rest = ok (some n)
or_else none rest = rest

abbrev pub is_owner : ℕ → Option ℕ → Bool
is_owner pid none = false
is_owner pid (some owner) = owner == pid

module _ (l : Layout) where
  -- Where the run of pages starts, and whether it is all zeroed.
  unfoldable pub choose_run : MemoryManager → ℕ → ℕ → ℕ → Outcome (ℕ × Bool)
  choose_run self align n end =
      or_slow
        (find_last (run_at (is_zeroed self) align n)
          (l.iter_ones (take end self.free_pages_zeroed)))
        (slow_run (last_below (run_at (is_free self) align n) end))

  unfoldable pub grant_run : MemoryManager → ℕ → ℕ → ℕ → Bool → Outcome (MemoryManager × ℕ × Bool)
  grant_run self n pid idx zeroed = do
    taken ← subtract_free_pages l self n
    ok (
      record taken {
        allocations = fill taken.allocations idx n (some pid);
        free_pages_zeroed = fill taken.free_pages_zeroed idx n false;
        free_pages_dirty =
            if zeroed then taken.free_pages_dirty else fill taken.free_pages_dirty idx n false;
      },
      page_address l idx,
      zeroed,
    )

  -- With no pages, or more than there are, the end of the search is not in the bitmap.
  unfoldable pub alloc_range_aligned :
      ℕ → MemoryManager → ℕ → ℕ → Outcome (MemoryManager × ℕ × Bool)
  alloc_range_aligned align self num_pages pid =
      let end = l.ram_pages - num_pages + 1 in
      if ltb l.ram_pages num_pages || ltb l.ram_pages end then panic else do
        chosen ← choose_run self align num_pages end
        grant_run self num_pages pid chosen.0 chosen.1

  unfoldable pub alloc_range : MemoryManager → ℕ → ℕ → Outcome (MemoryManager × ℕ × Bool)
  alloc_range self num_pages pid =
      if num_pages == 1
      then alloc_single_page l self pid
      else alloc_range_aligned 1 self num_pages pid

  -- The dirty page that the zeroer takes next.
  unfoldable pub next_dirty_page : MemoryManager → Outcome (Option ℕ)
  next_dirty_page self =
      let start = unwrap_or self.next_dirty_page_hint 0 in
      do
        ahead ← first_one l.first_one self.free_pages_dirty start l.ram_pages
        or_else ahead (first_one l.first_one self.free_pages_dirty 0 start)

  unfoldable pub take_run : MemoryManager → Option ℕ → MemoryManager × Option (ℕ × ℕ)
  take_run self none = (record self { next_dirty_page_hint = none }, none)
  take_run self (some offset) =
      let pages =
        min (l.leading_ones (slice self.free_pages_dirty offset l.ram_pages))
          (8 * 1024 * 1024 / l.page_size) in
      (
        record self {
          free_pages_dirty = fill self.free_pages_dirty offset pages false;
          next_dirty_page_hint = some ((offset + pages) % l.ram_pages);
        },
        some (page_address l offset, pages),
      )

  unfoldable pub take_dirty_pages : MemoryManager → Outcome (MemoryManager × Option (ℕ × ℕ))
  take_dirty_pages self = do offset ← next_dirty_page self; ok (take_run self offset)

  -- The tracker before the kernel knows of any page.
  abbrev pub default_hack : MemoryManager
  default_hack = record {
    allocations = [];
    extra_regions = replicate 11 (record { mem_start = 0; mem_size = 0; mem_tag = 0 });
    free_pages_dirty = replicate l.ram_pages false;
    next_dirty_page_hint = none;
    free_pages_zeroed = replicate l.ram_pages false;
    next_zeroed_page_hint = 0;
    num_free_pages = 0;
    low_memory = false;
    broadcasts = [];
  }

  -- A page without owner is marked dirty, to be zeroed before use.
  unfoldable pub scan_page : MemoryManager → ℕ → MemoryManager
  scan_page self offset =
      if is_some (get_or self.allocations offset none) then self else record self {
        free_pages_dirty = set self.free_pages_dirty offset true;
        num_free_pages = self.num_free_pages + 1;
      }

  unfoldable pub scan_bootstrap : MemoryManager → ℕ → ℕ → MemoryManager
  scan_bootstrap self offset zero = self
  scan_bootstrap self offset (suc count) = scan_bootstrap (scan_page self offset) (offset + 1) count

  -- `init_from_bootstrap` scans the pages that both the tracker and the bitmaps have.
  unfoldable pub init_from_bootstrap : MemoryManager → List (Option ℕ) → ℕ → Outcome MemoryManager
  init_from_bootstrap self allocations num_pages =
      let scan_pages = min num_pages l.ram_pages in
      if ltb (length allocations) scan_pages
      then panic
      else ok (scan_bootstrap (record self { allocations = allocations }) 0 scan_pages)

  -- A page tracker that is shorter than the RAM is a panic.
  unfoldable pub ram_used_by : MemoryManager → ℕ → Outcome ℕ
  ram_used_by self pid =
      if ltb (length self.allocations) l.ram_pages
      then panic
      else ok (count_if (is_owner pid) (take l.ram_pages self.allocations) * l.page_size)

  abbrev pub ram_free : MemoryManager → ℕ
  ram_free self = self.num_free_pages * l.page_size
