-- ===== src/Memory/Claim.antt =====
-- `claim_release_move`, the lookup of an address and the release of a process' memory in
-- xous/kernel/src/mem.rs. `permission` is what the check of xous/kernel/src/process.rs answers for
-- a process and an address; there are no shared peripherals on aarch64.
use beet_core.Common.{
  ℕ, zero, suc, ◌+◌, ◌-◌, ◌*◌, ◌/◌, ◌%◌, ◌^◌, true, false, not, ◌&&◌, List, [], ◌∷◌, Option, none,
  some, ltb, leb, ◌==◌, if◌then◌else◌, length, get_elem?, get_or, set, is_some,
}
use beet_core.Abi.Error.{bad_alignment, bad_address, memory_in_use, double_free, Error}
use beet_core.Abi.Outcome.{Outcome, ok, err, panic, ◌>>=◌, ok_or, expect}
use beet_core.Memory.Types.{Layout, MemoryManager, MemoryRangeExtra}
use beet_core.Memory.Bitmap.{bit_at, fill}
use beet_core.Memory.{subtract_free_pages, add_free_pages}
use beet_core.Memory.Range.{is_owner}

pub data ClaimReleaseMove : Type 0 where
  claim release : ClaimReleaseMove
  move : ℕ → ClaimReleaseMove

module _ (l : Layout) where
  -- The region that holds the address; the end of a region is a u32.
  unfoldable pub region_offset : List MemoryRangeExtra → ℕ → ℕ → Outcome (Option ℕ)
  region_offset [] addr offset = ok none
  region_offset (region ∷ regions) addr offset =
      let rest = region_offset regions addr (offset + region.mem_size / l.page_size) in
      let end = region.mem_start + region.mem_size in
      if leb region.mem_start addr
      then if leb (2 ^ 32) end
        then panic
        else if ltb addr end
        then ok (some (offset + (addr - region.mem_start) / l.page_size))
        else rest
      else rest

  unfoldable pub address_to_allocation_offset : MemoryManager → ℕ → Outcome (Option ℕ)
  address_to_allocation_offset self addr =
      let rest = region_offset self.extra_regions addr l.ram_pages in
      if leb l.dram_base addr && ltb addr (l.dram_base + l.ram_pages * l.page_size)
      then ok (some ((addr - l.dram_base) / l.page_size))
      else rest

  unfoldable pub owner_at : MemoryManager → Option ℕ → Outcome (Option ℕ)
  owner_at self none = ok none
  owner_at self (some offset) = expect (get_elem? self.allocations offset)

  unfoldable pub page_owner : MemoryManager → ℕ → Outcome (Option ℕ)
  page_owner self addr = address_to_allocation_offset self addr >>= owner_at self

  -- Give back pages after zeroing.
  unfoldable pub set_pages_to_zeroed : MemoryManager → ℕ → ℕ → Outcome MemoryManager
  set_pages_to_zeroed self phys pages = do
    found ← address_to_allocation_offset self phys
    offset ← expect found
    if ltb (length self.free_pages_zeroed) (offset + pages)
        then panic
        else ok (record self { free_pages_zeroed = fill self.free_pages_zeroed offset pages true })

  -- A page of RAM leaves the bitmap it is in; one in neither is being zeroed.
  unfoldable pub claim_free : MemoryManager → ℕ → Outcome MemoryManager
  claim_free self offset =
      if bit_at self.free_pages_zeroed offset
      then subtract_free_pages l
          (record self { free_pages_zeroed = set self.free_pages_zeroed offset false }) 1
      else if bit_at self.free_pages_dirty offset
      then subtract_free_pages l
          (record self { free_pages_dirty = set self.free_pages_dirty offset false }) 1
      else err memory_in_use

  unfoldable pub claim_at : MemoryManager → ℕ → ℕ → Option ℕ → Outcome MemoryManager
  claim_at self offset pid (some owner) = err memory_in_use
  claim_at self offset pid none = do
    taken ← if ltb offset l.ram_pages then claim_free self offset else ok self
    ok (record taken { allocations = set taken.allocations offset (some pid) })

  unfoldable pub move_at : MemoryManager → ℕ → ℕ → ℕ → Option ℕ → Outcome MemoryManager
  move_at self offset pid existing none = err double_free
  move_at self offset pid existing (some owner) =
      if not (owner == pid) && not (existing == owner)
      then err memory_in_use
      else ok (record self { allocations = set self.allocations offset (some pid) })

  -- A released page of RAM is dirty, and the zeroer's next when it has none.
  unfoldable pub release_free : MemoryManager → ℕ → Outcome MemoryManager
  release_free self offset =
      add_free_pages l
        (record self {
          free_pages_dirty = set self.free_pages_dirty offset true;
          next_dirty_page_hint =
              if is_some self.next_dirty_page_hint then self.next_dirty_page_hint else some offset;
        })
        1

  unfoldable pub release_at : MemoryManager → ℕ → ℕ → Option ℕ → Outcome MemoryManager
  release_at self offset pid none = err double_free
  release_at self offset pid (some owner) = if not (owner == pid) then err memory_in_use else do
    freed ← if ltb offset l.ram_pages then release_free self offset else ok self
    ok (record freed { allocations = set freed.allocations offset none })

  unfoldable pub act_at :
      MemoryManager → ℕ → ℕ → ClaimReleaseMove → Option ℕ → Outcome MemoryManager
  act_at self offset pid claim owner = claim_at self offset pid owner
  act_at self offset pid release owner = release_at self offset pid owner
  act_at self offset pid (move existing) owner = move_at self offset pid existing owner

  -- What the permission check answers comes first.
  abbrev pub unless_denied : Option Error → Outcome MemoryManager → Outcome MemoryManager
  unless_denied (some e) rest = err e
  unless_denied none rest = rest

  unfoldable pub claim_release_move :
      (ℕ → ℕ → Option Error) → MemoryManager → ℕ → ℕ → ClaimReleaseMove → Outcome MemoryManager
  claim_release_move permission self addr pid action =
      if not (addr % l.page_size == 0)
      then err bad_alignment
      else unless_denied (permission pid addr) (do
        found ← address_to_allocation_offset self addr
        offset ← ok_or found bad_address
        owner ← expect (get_elem? self.allocations offset)
        act_at self offset pid action owner)

  -- A page of the process becomes free.
  unfoldable pub release_index : MemoryManager → ℕ → ℕ → Outcome MemoryManager
  release_index self pid idx =
      let freed = record self { allocations = set self.allocations idx none } in
      if is_owner pid (get_or self.allocations idx none)
      then if ltb idx l.ram_pages
        then add_free_pages l
            (record freed { free_pages_dirty = set freed.free_pages_dirty idx true }) 1
        else ok freed
      else ok self

  unfoldable pub release_from : MemoryManager → ℕ → ℕ → ℕ → Outcome MemoryManager
  release_from self pid idx zero = ok self
  release_from self pid idx (suc count) = do
    next ← release_index self pid idx
    release_from next pid (idx + 1) count

  unfoldable pub release_all_memory_for_process : MemoryManager → ℕ → Outcome MemoryManager
  release_all_memory_for_process self pid = release_from self pid 0 (length self.allocations)
