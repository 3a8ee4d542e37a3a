-- ===== src/Syscall/Call.antt =====
-- `enum SysCall` of xous/xous-rs/src/syscall.rs with the initial values of threads and processes of
-- xous/xous-rs/src/arch/aarch64, and what the types of the arguments promise. A `NonZeroUsize`, a
-- `PID`, a u32 and a u8 are numbers here.
use beet_core.Common.{ℕ, ◌^◌, ◌<◌, ◌≢◌, Option, none, some}
use beet_core.Abi.Message.{MemoryRange, Message}
use beet_core.Abi.Result.{Sid}
use beet_core.Abi.RoundTrip.{IsOptionNonZero, IsMessage}
use beet_core.Syscall.Kinds.{CacheOperation, DramIdleMode, SystemEvent, SystemStat, ThreadPriority}
use beet_core.Syscall.Words.{MemoryFlags, IsFlags, ℤ, IsI32, AppId, IsAppId}

-- `core::ops::Range<MessageId>`
pub record Range : Type 0 where
  pub start : ℕ
  pub end : ℕ

pub record ThreadInit : Type 0 where
  pub call : ℕ
  pub stack : Option MemoryRange
  pub arg1 : ℕ
  pub arg2 : ℕ
  pub arg3 : ℕ
  pub arg4 : ℕ

pub record ProcessInit : Type 0 where
  pub elf : MemoryRange
  pub name_addr : ℕ
  pub app_id : AppId

pub data SysCall : Type 0 where
  map_memory : Option ℕ → Option ℕ → ℕ → MemoryFlags → SysCall
  unmap_memory : MemoryRange → SysCall
  increase_heap : ℕ → SysCall
  update_memory_flags : MemoryRange → MemoryFlags → Option ℕ → SysCall
  yield : SysCall
  set_thread_priority : ThreadPriority → SysCall
  receive_message : Sid → SysCall
  try_receive_message : Sid → SysCall
  claim_interrupt : ℕ → ℕ → Option ℕ → SysCall
  free_interrupt : ℕ → SysCall
  futex_wait : ℕ → ℕ → SysCall
  futex_wake : ℕ → ℕ → SysCall
  create_server_with_address : Sid → Range → SysCall
  connect : Sid → SysCall
  try_connect : Sid → SysCall
  send_message : ℕ → Message → SysCall
  try_send_message : ℕ → Message → SysCall
  return_memory : ℕ → MemoryRange → Option ℕ → Option ℕ → SysCall
  return_scalar1 : ℕ → ℕ → SysCall
  return_scalar2 : ℕ → ℕ → ℕ → SysCall
  create_thread : ThreadInit → SysCall
  create_process : ProcessInit → SysCall
  terminate_process : ℕ → SysCall
  terminate_pid : ℕ → ℕ → SysCall
  shutdown : ℤ → SysCall
  create_server : SysCall
  create_server_id : SysCall
  connect_for_process : ℕ → Sid → SysCall
  get_remote_process_id : ℕ → SysCall
  get_thread_id : SysCall
  get_process_id : SysCall
  destroy_server : Sid → SysCall
  disconnect : ℕ → SysCall
  join_thread : ℕ → SysCall
  virt_to_phys : ℕ → SysCall
  return_scalar5 : ℕ → ℕ → ℕ → ℕ → ℕ → ℕ → SysCall
  virt_to_phys_pid : ℕ → ℕ → SysCall
  get_app_id : ℕ → SysCall
  allow_messages_sid : Sid → Range → SysCall
  allow_messages_cid : ℕ → ℕ → Range → SysCall
  flush_cache : MemoryRange → CacheOperation → SysCall
  power_management : DramIdleMode → SysCall
  app_id_to_pid : AppId → SysCall
  mirror_memory_to_pid : MemoryRange → ℕ → SysCall
  debug_command : MemoryRange → ℕ → SysCall
  get_system_stats : SystemStat → SysCall
  register_event_handler : SystemEvent → Sid → ℕ → SysCall
  append_panic_message : ℕ → ℕ → ℕ → ℕ → ℕ → ℕ → ℕ → SysCall
  get_panic_message : MemoryRange → SysCall
  spawn_by_name : ℕ → ℕ → ℕ → ℕ → SysCall
  spawn_by_name_with_args : ℕ → ℕ → ℕ → ℕ → SysCall
  wait_process : ℕ → SysCall
  net_get_info : SysCall
  wait_event : ℕ → SysCall
  poll_event : SysCall
  post_event : ℕ → ℕ → SysCall
  get_binary_name : ℕ → SysCall
  acquire_display : SysCall
  release_display : ℕ → ℕ → SysCall
  acquire_input_focus : ℕ → ℕ → ℕ → ℕ → SysCall
  release_input_focus : SysCall
  invalid : ℕ → ℕ → ℕ → ℕ → ℕ → ℕ → ℕ → SysCall

abbrev pub IsU32 : ℕ → Type 0
IsU32 n = n < 2 ^ 32

abbrev pub IsU8 : ℕ → Type 0
IsU8 n = n < 256

abbrev pub IsPid : ℕ → Type 0
IsPid pid = (pid ≢ 0) × (pid < 256)

abbrev pub IsOptionPid : Option ℕ → Type 0
IsOptionPid none = Unit {0}
IsOptionPid (some pid) = IsPid pid

abbrev pub IsSid : Sid → Type 0
IsSid sid = (sid.w0 < 2 ^ 32) × (sid.w1 < 2 ^ 32) × (sid.w2 < 2 ^ 32) × (sid.w3 < 2 ^ 32)

abbrev pub IsMemoryRange : MemoryRange → Type 0
IsMemoryRange range = (range.addr ≢ 0) × (range.size ≢ 0)

abbrev pub IsStack : Option MemoryRange → Type 0
IsStack none = Unit {0}
IsStack (some range) = IsMemoryRange range

-- What the types of a syscall's arguments promise.
abbrev pub IsSysCall : SysCall → Type 0
IsSysCall (SysCall.map_memory phys virt size flags) =
    (IsOptionNonZero phys) × (IsOptionNonZero virt) × (size ≢ 0) × (IsFlags flags)
IsSysCall (SysCall.unmap_memory range) = IsMemoryRange range
IsSysCall (SysCall.increase_heap size) = size ≢ 0
IsSysCall (SysCall.update_memory_flags range flags pid) =
    (IsMemoryRange range) × (IsFlags flags) × (IsOptionPid pid)
IsSysCall (SysCall.receive_message sid) = IsSid sid
IsSysCall (SysCall.try_receive_message sid) = IsSid sid
IsSysCall (SysCall.claim_interrupt irq function argument) =
    (function ≢ 0) × (IsOptionNonZero argument)
IsSysCall (SysCall.create_server_with_address sid messages) = IsSid sid
IsSysCall (SysCall.connect sid) = IsSid sid
IsSysCall (SysCall.try_connect sid) = IsSid sid
IsSysCall (SysCall.send_message cid message) = (IsU32 cid) × (IsMessage message)
IsSysCall (SysCall.try_send_message cid message) = (IsU32 cid) × (IsMessage message)
IsSysCall (SysCall.return_memory sender buf offset valid) =
    (IsMemoryRange buf) × (IsOptionNonZero offset) × (IsOptionNonZero valid)
IsSysCall (SysCall.create_thread init) = IsStack init.stack
IsSysCall (SysCall.create_process init) =
    (IsMemoryRange init.elf) × (init.name_addr ≢ 0) × (IsAppId init.app_id)
IsSysCall (SysCall.terminate_process exit_code) = IsU32 exit_code
IsSysCall (SysCall.terminate_pid pid exit_code) = (IsPid pid) × (IsU32 exit_code)
IsSysCall (SysCall.shutdown exit_code) = IsI32 exit_code
IsSysCall (SysCall.connect_for_process pid sid) = (IsPid pid) × (IsSid sid)
IsSysCall (SysCall.get_remote_process_id cid) = IsU32 cid
IsSysCall (SysCall.destroy_server sid) = IsSid sid
IsSysCall (SysCall.disconnect cid) = IsU32 cid
IsSysCall (SysCall.virt_to_phys_pid pid vaddr) = IsPid pid
IsSysCall (SysCall.get_app_id pid) = IsPid pid
IsSysCall (SysCall.allow_messages_sid sid messages) = IsSid sid
IsSysCall (SysCall.allow_messages_cid pid cid messages) = (IsPid pid) × (IsU32 cid)
IsSysCall (SysCall.flush_cache mem op) = IsMemoryRange mem
IsSysCall (SysCall.app_id_to_pid app_id) = IsAppId app_id
IsSysCall (SysCall.mirror_memory_to_pid mem pid) = (IsMemoryRange mem) × (IsPid pid)
IsSysCall (SysCall.debug_command buffer cmd) = (IsMemoryRange buffer) × (IsU8 cmd)
IsSysCall (SysCall.register_event_handler event sid id) = IsSid sid
IsSysCall (SysCall.get_panic_message buf) = IsMemoryRange buf
IsSysCall (SysCall.wait_process pid) = IsPid pid
IsSysCall (SysCall.post_event pid bits) = IsPid pid
IsSysCall (SysCall.acquire_input_focus a b c d) = (IsU32 a) × (IsU32 b) × (IsU32 c) × (IsU32 d)
IsSysCall _ = Unit {0}
