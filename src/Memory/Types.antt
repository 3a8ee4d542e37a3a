-- ===== src/Memory/Types.antt =====
-- The state of xous/kernel/src/mem.rs. Addresses of the additional regions are u32.
use beet_core.Common.{ℕ, Bool, List, Option}
pub use beet_core.Syscall.Kinds.{SystemEvent, child_terminated, disconnected, low_free_memory}

-- The constants of beetos/src/lib.rs: `RAM_PAGES`, `PAGE_SIZE` and `PLAINTEXT_DRAM_BASE`, which is
-- also `ENCRYPTED_DRAM_BASE`; and the searches of the `bitvec` crate on a slice of bits.
pub record Layout : Type 0 where
  pub ram_pages : ℕ
  pub page_size : ℕ
  pub dram_base : ℕ
  pub first_one : List Bool → Option ℕ
  pub iter_ones : List Bool → List ℕ
  pub leading_ones : List Bool → ℕ

pub record MemoryRangeExtra : Type 0 where
  pub mem_start : ℕ
  pub mem_size : ℕ
  pub mem_tag : ℕ

pub record MemoryManager : Type 0 where
  pub allocations : List (Option ℕ)
  pub extra_regions : List MemoryRangeExtra
  pub free_pages_dirty : List Bool
  pub next_dirty_page_hint : Option ℕ
  pub free_pages_zeroed : List Bool
  pub next_zeroed_page_hint : ℕ
  pub num_free_pages : ℕ
  pub low_memory : Bool
  pub broadcasts : List SystemEvent
