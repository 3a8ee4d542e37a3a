-- ===== src/Memory.antt =====
-- The physical pages of xous/kernel/src/mem.rs: who owns each, and which are free. The sizes that
-- beetos/src/lib.rs fixes for each platform and page size are a `Layout`. An operation that returns
-- an error has changed nothing, so that only `ok` carries the state. What `broadcast_event` sends
-- is kept in a log. The page zeroer that `release` starts does nothing in the source
-- (xous/kernel/src/platform/mod.rs).
mod Bitmap
mod Types
mod Range
mod Claim
mod Valid
mod Grant
mod Choose
mod Single
mod Runs
mod Freed
mod Acts
mod Released
mod Boot
mod Zeroer
mod Tests
pub use Types.*
unfoldable pub use Bitmap.*
use beet_core.Common.{
  ℕ, zero, suc, ◌+◌, ◌-◌, ◌*◌, ◌/◌, ◌%◌, min, Bool, true, false, not, ◌&&◌, ◌||◌, List, [], ◌∷◌,
  Option, none, some, ltb, leb, ◌==◌, if◌then◌else◌, length, get_elem?, get_or, set, is_some,
}
use beet_core.Abi.Error.{
  out_of_memory, bad_alignment, bad_address, memory_in_use, double_free, Error,
}
use beet_core.Abi.Outcome.{Outcome, ok, err, panic, ◌>>=◌, ok_or, expect}

-- A found page with its kind, or what the rest of the search gives.
abbrev pub or_search : Option ℕ → Bool → Outcome (Option (ℕ × Bool)) → Outcome (Option (ℕ × Bool))
or_search (some idx) zeroed rest = ok (some (idx, zeroed))
or_search none zeroed rest = rest

-- The page leaves the bitmap it was found in.
abbrev pub take_page : MemoryManager → ℕ → Bool → MemoryManager
take_page self idx zeroed = record self {
  free_pages_zeroed =
      if zeroed then set self.free_pages_zeroed idx false else self.free_pages_zeroed;
  free_pages_dirty = if zeroed then self.free_pages_dirty else set self.free_pages_dirty idx false;
}

module _ (l : Layout) where
  -- `FRAGMENTED_AREA_PAGES`: the pages before those kept for big allocations, 40 MiB of them.
  abbrev pub fragmented_area_pages : ℕ
  fragmented_area_pages = l.ram_pages - 40 * 1024 * 1024 / l.page_size

  abbrev pub low_memory_threshold : ℕ
  low_memory_threshold = 24 * 1024 * 1024

  abbrev pub low_memory_hysteresis : ℕ
  low_memory_hysteresis = 1024 * 1024

  -- `num_free_pages` falls, and the first time below the threshold is broadcast.
  abbrev pub spend_pages : MemoryManager → ℕ → MemoryManager
  spend_pages self pages =
      let left = self.num_free_pages - pages in
      let falls = not self.low_memory && ltb left (low_memory_threshold / l.page_size) in
      record self {
        num_free_pages = left;
        low_memory = if falls then true else self.low_memory;
        broadcasts = if falls then low_free_memory ∷ self.broadcasts else self.broadcasts;
      }

  unfoldable pub subtract_free_pages : MemoryManager → ℕ → Outcome MemoryManager
  subtract_free_pages self pages =
      if ltb self.num_free_pages pages then panic else ok (spend_pages self pages)

  -- `num_free_pages` rises, and memory is not low above the hysteresis.
  abbrev pub gain_pages : MemoryManager → ℕ → MemoryManager
  gain_pages self pages =
      let free = self.num_free_pages + pages in
      let rises =
        self.low_memory
        && leb ((low_memory_threshold + low_memory_hysteresis) / l.page_size) free in
      record self { num_free_pages = free; low_memory = if rises then false else self.low_memory }

  unfoldable pub add_free_pages : MemoryManager → ℕ → Outcome MemoryManager
  add_free_pages self pages =
      if ltb l.ram_pages (self.num_free_pages + pages) then panic else ok (gain_pages self pages)

  -- The page that `alloc_single_page` takes, and whether it is zeroed.
  unfoldable pub choose_page : MemoryManager → Outcome (Option (ℕ × Bool))
  choose_page self = do
    ahead ←
        first_one l.first_one self.free_pages_zeroed self.next_zeroed_page_hint
          fragmented_area_pages
    or_search ahead true (do
      behind ← first_one l.first_one self.free_pages_zeroed 0 self.next_zeroed_page_hint
      or_search behind true (do
        dirty ← first_one l.first_one self.free_pages_dirty 0 fragmented_area_pages
        or_search dirty false (do
          big ← first_one l.first_one self.free_pages_zeroed fragmented_area_pages l.ram_pages
          or_search big true (do
            big_dirty ←
                first_one l.first_one self.free_pages_dirty fragmented_area_pages l.ram_pages
            or_search big_dirty false (ok none)))))

  abbrev pub page_address : ℕ → ℕ
  page_address idx = l.dram_base + idx * l.page_size

  -- The hint after an allocation, back at the start when it is in the big area.
  abbrev pub hint_after : ℕ → ℕ
  hint_after idx = if ltb fragmented_area_pages (idx + 1) then 0 else idx + 1

  -- The check for a double allocation is a panic.
  unfoldable pub grant_page : MemoryManager → ℕ → ℕ → Bool → Outcome (MemoryManager × ℕ × Bool)
  grant_page self pid idx zeroed = do
    owner ← expect (get_elem? self.allocations idx)
    taken ← if is_some owner then panic else subtract_free_pages self 1
    ok (
      record taken {
        allocations = set taken.allocations idx (some pid);
        next_zeroed_page_hint = hint_after idx;
      },
      page_address idx,
      zeroed,
    )

  unfoldable pub alloc_chosen :
      MemoryManager → ℕ → Option (ℕ × Bool) → Outcome (MemoryManager × ℕ × Bool)
  alloc_chosen self pid none = err out_of_memory
  alloc_chosen self pid (some (idx, zeroed)) = grant_page (take_page self idx zeroed) pid idx zeroed

  unfoldable pub alloc_single_page : MemoryManager → ℕ → Outcome (MemoryManager × ℕ × Bool)
  alloc_single_page self pid = do chosen ← choose_page self; alloc_chosen self pid chosen
