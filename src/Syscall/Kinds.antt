-- ===== src/Syscall/Kinds.antt =====
-- The small types of syscall arguments, in xous/xous-rs/src/definitions.rs and its
-- memoryflags.rs, and how each travels in a word.
use beet_core.Common.{ℕ, ◌≡◌, refl, ◌==◌, if◌then◌else◌}

pub data CacheOperation : Type 0 where
  clean invalidate clean_and_invalidate : CacheOperation

-- `as usize` and `From<usize>`
unfoldable pub cache_operation_number : CacheOperation → ℕ
cache_operation_number clean = 0
cache_operation_number invalidate = 1
cache_operation_number clean_and_invalidate = 2

unfoldable pub cache_operation_from : ℕ → CacheOperation
cache_operation_from value =
    if value == 0 then clean else if value == 1 then invalidate else clean_and_invalidate

pub cache_operation_from-cache_operation_number :
    (x : CacheOperation) → cache_operation_from (cache_operation_number x) ≡ x
unfolding cache_operation_from cache_operation_number
cache_operation_from-cache_operation_number clean = refl
cache_operation_from-cache_operation_number invalidate = refl
cache_operation_from-cache_operation_number clean_and_invalidate = refl

pub data DramIdleMode : Type 0 where
  keep_clocked low_power : DramIdleMode

-- `as usize` and `From<usize>`
unfoldable pub dram_idle_mode_number : DramIdleMode → ℕ
dram_idle_mode_number keep_clocked = 0
dram_idle_mode_number low_power = 1

unfoldable pub dram_idle_mode_from : ℕ → DramIdleMode
dram_idle_mode_from value = if value == 1 then low_power else keep_clocked

pub dram_idle_mode_from-dram_idle_mode_number :
    (x : DramIdleMode) → dram_idle_mode_from (dram_idle_mode_number x) ≡ x
unfolding dram_idle_mode_from dram_idle_mode_number
dram_idle_mode_from-dram_idle_mode_number keep_clocked = refl
dram_idle_mode_from-dram_idle_mode_number low_power = refl

pub data SystemEvent : Type 0 where
  child_terminated disconnected low_free_memory : SystemEvent

-- `as usize` and `From<usize>`
unfoldable pub system_event_number : SystemEvent → ℕ
system_event_number child_terminated = 0
system_event_number disconnected = 1
system_event_number low_free_memory = 2

unfoldable pub system_event_from : ℕ → SystemEvent
system_event_from value =
    if value == 1 then disconnected else if value == 2 then low_free_memory else child_terminated

pub system_event_from-system_event_number :
    (x : SystemEvent) → system_event_from (system_event_number x) ≡ x
unfolding system_event_from system_event_number
system_event_from-system_event_number child_terminated = refl
system_event_from-system_event_number disconnected = refl
system_event_from-system_event_number low_free_memory = refl

pub data SystemStat : Type 0 where
  free_memory is_system_low_on_memory : SystemStat

-- `as usize` and `From<usize>`
unfoldable pub system_stat_number : SystemStat → ℕ
system_stat_number free_memory = 0
system_stat_number is_system_low_on_memory = 1

unfoldable pub system_stat_from : ℕ → SystemStat
system_stat_from value =
    if value == 0 then free_memory else if value == 1 then is_system_low_on_memory else free_memory

pub system_stat_from-system_stat_number :
    (x : SystemStat) → system_stat_from (system_stat_number x) ≡ x
unfolding system_stat_from system_stat_number
system_stat_from-system_stat_number free_memory = refl
system_stat_from-system_stat_number is_system_low_on_memory = refl

pub data ThreadPriority : Type 0 where
  idle app_background0 app_background1 app_default app_high0 : ThreadPriority
  app_high1 system0 system1 system2 system3 : ThreadPriority
  system4 system5 system6 system7 system8 : ThreadPriority
  highest : ThreadPriority

-- `as usize` and `From<usize>`
unfoldable pub thread_priority_number : ThreadPriority → ℕ
thread_priority_number idle = 0
thread_priority_number app_background0 = 1
thread_priority_number app_background1 = 2
thread_priority_number app_default = 3
thread_priority_number app_high0 = 4
thread_priority_number app_high1 = 5
thread_priority_number system0 = 6
thread_priority_number system1 = 7
thread_priority_number system2 = 8
thread_priority_number system3 = 9
thread_priority_number system4 = 10
thread_priority_number system5 = 11
thread_priority_number system6 = 12
thread_priority_number system7 = 13
thread_priority_number system8 = 14
thread_priority_number highest = 15

unfoldable pub thread_priority_from : ℕ → ThreadPriority
thread_priority_from value =
    if value == 0
    then idle
    else if value == 1
    then app_background0
    else if value == 2
    then app_background1
    else if value == 3
    then app_default
    else if value == 4
    then app_high0
    else if value == 5
    then app_high1
    else if value == 6
    then system0
    else if value == 7
    then system1
    else if value == 8
    then system2
    else if value == 9
    then system3
    else if value == 10
    then system4
    else if value == 11
    then system5
    else if value == 12
    then system6
    else if value == 13
    then system7
    else if value == 14
    then system8
    else if value == 15
    then highest
    else app_default

pub thread_priority_from-thread_priority_number :
    (x : ThreadPriority) → thread_priority_from (thread_priority_number x) ≡ x
unfolding thread_priority_from thread_priority_number
thread_priority_from-thread_priority_number idle = refl
thread_priority_from-thread_priority_number app_background0 = refl
thread_priority_from-thread_priority_number app_background1 = refl
thread_priority_from-thread_priority_number app_default = refl
thread_priority_from-thread_priority_number app_high0 = refl
thread_priority_from-thread_priority_number app_high1 = refl
thread_priority_from-thread_priority_number system0 = refl
thread_priority_from-thread_priority_number system1 = refl
thread_priority_from-thread_priority_number system2 = refl
thread_priority_from-thread_priority_number system3 = refl
thread_priority_from-thread_priority_number system4 = refl
thread_priority_from-thread_priority_number system5 = refl
thread_priority_from-thread_priority_number system6 = refl
thread_priority_from-thread_priority_number system7 = refl
thread_priority_from-thread_priority_number system8 = refl
thread_priority_from-thread_priority_number highest = refl
