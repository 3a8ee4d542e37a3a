-- ===== src/Syscall/Encode.antt =====
-- `SysCall::as_args` of xous/xous-rs/src/syscall.rs: the eight words of a syscall.
use beet_core.Common.{ℕ, Option, none, some}
use beet_core.Abi.Message.{
  MemoryRange, MemoryMessage, Message, mutable_borrow, borrow, move, scalar, blocking_scalar,
  get_or_zero, message_type,
}
use beet_core.Abi.Result.{Words8}
use beet_core.Syscall.Number.{SysCallNumber, as_usize}
use beet_core.Syscall.Kinds.{
  thread_priority_number, cache_operation_number, dram_idle_mode_number, system_stat_number,
  system_event_number,
}
use beet_core.Syscall.Words.{i32_number, app_id_words}
use beet_core.Syscall.Call.{SysCall}

-- `map(|s| s.as_ptr()).unwrap_or(0)` and the same for the length, in `thread_to_args`
abbrev pub stack_addr : Option MemoryRange → ℕ
stack_addr none = 0
stack_addr (some range) = range.addr

abbrev pub stack_len : Option MemoryRange → ℕ
stack_len none = 0
stack_len (some range) = range.size

-- The words of `SendMessage` and `TrySendMessage`
abbrev pub memory_words : ℕ → ℕ → ℕ → MemoryMessage → Words8
memory_words number cid tag mm =
    (number, cid, tag, mm.id, mm.buf.addr, mm.buf.size, get_or_zero mm.offset, get_or_zero mm.valid)

unfoldable pub send_words : ℕ → ℕ → Message → Words8
send_words number cid (mutable_borrow mm) =
    memory_words number cid (message_type (mutable_borrow mm)) mm
send_words number cid (borrow mm) = memory_words number cid (message_type (borrow mm)) mm
send_words number cid (move mm) = memory_words number cid (message_type (move mm)) mm
send_words number cid (scalar sc) =
    (number, cid, message_type (scalar sc), sc.id, sc.arg1, sc.arg2, sc.arg3, sc.arg4)
send_words number cid (blocking_scalar sc) =
    (number, cid, message_type (blocking_scalar sc), sc.id, sc.arg1, sc.arg2, sc.arg3, sc.arg4)

unfoldable pub as_args : SysCall → Words8
as_args (SysCall.map_memory phys virt size flags) = (
  as_usize SysCallNumber.map_memory,
  get_or_zero phys,
  get_or_zero virt,
  size,
  flags.bits,
  0,
  0,
  0,
)
as_args (SysCall.unmap_memory range) =
    (as_usize SysCallNumber.unmap_memory, range.addr, range.size, 0, 0, 0, 0, 0)
as_args (SysCall.increase_heap size) =
    (as_usize SysCallNumber.increase_heap, size, 0, 0, 0, 0, 0, 0)
as_args (SysCall.update_memory_flags range flags pid) = (
  as_usize SysCallNumber.update_memory_flags,
  range.addr,
  range.size,
  flags.bits,
  get_or_zero pid,
  0,
  0,
  0,
)
as_args SysCall.yield = (as_usize SysCallNumber.yield, 0, 0, 0, 0, 0, 0, 0)
as_args (SysCall.set_thread_priority priority) =
    (as_usize SysCallNumber.set_thread_priority, thread_priority_number priority, 0, 0, 0, 0, 0, 0)
as_args (SysCall.receive_message sid) =
    (as_usize SysCallNumber.receive_message, sid.w0, sid.w1, sid.w2, sid.w3, 0, 0, 0)
as_args (SysCall.try_receive_message sid) =
    (as_usize SysCallNumber.try_receive_message, sid.w0, sid.w1, sid.w2, sid.w3, 0, 0, 0)
as_args (SysCall.claim_interrupt irq function argument) =
    (as_usize SysCallNumber.claim_interrupt, irq, function, get_or_zero argument, 0, 0, 0, 0)
as_args (SysCall.free_interrupt irq) =
    (as_usize SysCallNumber.free_interrupt, irq, 0, 0, 0, 0, 0, 0)
as_args (SysCall.futex_wait addr val) =
    (as_usize SysCallNumber.futex_wait, addr, val, 0, 0, 0, 0, 0)
as_args (SysCall.futex_wake addr n) = (as_usize SysCallNumber.futex_wake, addr, n, 0, 0, 0, 0, 0)
as_args (SysCall.create_server_with_address sid messages) = (
  as_usize SysCallNumber.create_server_with_address,
  sid.w0,
  sid.w1,
  sid.w2,
  sid.w3,
  messages.start,
  messages.end,
  0,
)
as_args (SysCall.connect sid) =
    (as_usize SysCallNumber.connect, sid.w0, sid.w1, sid.w2, sid.w3, 0, 0, 0)
as_args (SysCall.try_connect sid) =
    (as_usize SysCallNumber.try_connect, sid.w0, sid.w1, sid.w2, sid.w3, 0, 0, 0)
as_args (SysCall.send_message cid message) =
    send_words (as_usize SysCallNumber.send_message) cid message
as_args (SysCall.try_send_message cid message) =
    send_words (as_usize SysCallNumber.try_send_message) cid message
as_args (SysCall.return_memory sender buf offset valid) = (
  as_usize SysCallNumber.return_memory,
  sender,
  buf.addr,
  buf.size,
  get_or_zero offset,
  get_or_zero valid,
  0,
  0,
)
as_args (SysCall.return_scalar1 sender arg1) =
    (as_usize SysCallNumber.return_scalar1, sender, arg1, 0, 0, 0, 0, 0)
as_args (SysCall.return_scalar2 sender arg1 arg2) =
    (as_usize SysCallNumber.return_scalar2, sender, arg1, arg2, 0, 0, 0, 0)
as_args (SysCall.create_thread init) = (
  as_usize SysCallNumber.create_thread,
  init.call,
  stack_addr init.stack,
  stack_len init.stack,
  init.arg1,
  init.arg2,
  init.arg3,
  init.arg4,
)
as_args (SysCall.create_process init) = (
  as_usize SysCallNumber.create_process,
  init.elf.addr,
  init.elf.size,
  (app_id_words init.app_id).0,
  (app_id_words init.app_id).1,
  (app_id_words init.app_id).2,
  (app_id_words init.app_id).3,
  init.name_addr,
)
as_args (SysCall.terminate_process exit_code) =
    (as_usize SysCallNumber.terminate_process, exit_code, 0, 0, 0, 0, 0, 0)
as_args (SysCall.terminate_pid pid exit_code) =
    (as_usize SysCallNumber.terminate_pid, pid, exit_code, 0, 0, 0, 0, 0)
as_args (SysCall.shutdown exit_code) =
    (as_usize SysCallNumber.shutdown, i32_number exit_code, 0, 0, 0, 0, 0, 0)
as_args SysCall.create_server = (as_usize SysCallNumber.create_server, 0, 0, 0, 0, 0, 0, 0)
as_args SysCall.create_server_id = (as_usize SysCallNumber.create_server_id, 0, 0, 0, 0, 0, 0, 0)
as_args (SysCall.connect_for_process pid sid) =
    (as_usize SysCallNumber.connect_for_process, pid, sid.w0, sid.w1, sid.w2, sid.w3, 0, 0)
as_args (SysCall.get_remote_process_id cid) =
    (as_usize SysCallNumber.get_remote_process_id, cid, 0, 0, 0, 0, 0, 0)
as_args SysCall.get_thread_id = (as_usize SysCallNumber.get_thread_id, 0, 0, 0, 0, 0, 0, 0)
as_args SysCall.get_process_id = (as_usize SysCallNumber.get_process_id, 0, 0, 0, 0, 0, 0, 0)
as_args (SysCall.destroy_server sid) =
    (as_usize SysCallNumber.destroy_server, sid.w0, sid.w1, sid.w2, sid.w3, 0, 0, 0)
as_args (SysCall.disconnect cid) = (as_usize SysCallNumber.disconnect, cid, 0, 0, 0, 0, 0, 0)
as_args (SysCall.join_thread tid) = (as_usize SysCallNumber.join_thread, tid, 0, 0, 0, 0, 0, 0)
as_args (SysCall.virt_to_phys vaddr) =
    (as_usize SysCallNumber.virt_to_phys, vaddr, 0, 0, 0, 0, 0, 0)
as_args (SysCall.return_scalar5 sender arg1 arg2 arg3 arg4 arg5) =
    (as_usize SysCallNumber.return_scalar5, sender, arg1, arg2, arg3, arg4, arg5, 0)
as_args (SysCall.virt_to_phys_pid pid vaddr) =
    (as_usize SysCallNumber.virt_to_phys_pid, pid, vaddr, 0, 0, 0, 0, 0)
as_args (SysCall.get_app_id pid) = (as_usize SysCallNumber.get_app_id, pid, 0, 0, 0, 0, 0, 0)
as_args (SysCall.allow_messages_sid sid messages) = (
  as_usize SysCallNumber.allow_messages_sid,
  sid.w0,
  sid.w1,
  sid.w2,
  sid.w3,
  messages.start,
  messages.end,
  0,
)
as_args (SysCall.allow_messages_cid pid cid messages) =
    (as_usize SysCallNumber.allow_messages_cid, pid, cid, messages.start, messages.end, 0, 0, 0)
as_args (SysCall.flush_cache mem op) = (
  as_usize SysCallNumber.invalidate_cache,
  mem.addr,
  mem.size,
  cache_operation_number op,
  0,
  0,
  0,
  0,
)
as_args (SysCall.power_management dram) =
    (as_usize SysCallNumber.power_management, dram_idle_mode_number dram, 0, 0, 0, 0, 0, 0)
as_args (SysCall.app_id_to_pid app_id) = (
  as_usize SysCallNumber.app_id_to_pid,
  (app_id_words app_id).0,
  (app_id_words app_id).1,
  (app_id_words app_id).2,
  (app_id_words app_id).3,
  0,
  0,
  0,
)
as_args (SysCall.mirror_memory_to_pid mem pid) =
    (as_usize SysCallNumber.mirror_memory_to_pid, mem.addr, mem.size, pid, 0, 0, 0, 0)
as_args (SysCall.debug_command buffer cmd) =
    (as_usize SysCallNumber.debug_command, buffer.addr, buffer.size, cmd, 0, 0, 0, 0)
as_args (SysCall.get_system_stats stat) =
    (as_usize SysCallNumber.get_system_stats, system_stat_number stat, 0, 0, 0, 0, 0, 0)
as_args (SysCall.register_event_handler event sid id) = (
  as_usize SysCallNumber.register_event_handler,
  system_event_number event,
  sid.w0,
  sid.w1,
  sid.w2,
  sid.w3,
  id,
  0,
)
as_args (SysCall.append_panic_message len a2 a3 a4 a5 a6 a7) =
    (as_usize SysCallNumber.append_panic_message, len, a2, a3, a4, a5, a6, a7)
as_args (SysCall.get_panic_message buf) =
    (as_usize SysCallNumber.get_panic_message, buf.addr, buf.size, 0, 0, 0, 0, 0)
as_args (SysCall.spawn_by_name w0 w1 w2 w3) =
    (as_usize SysCallNumber.spawn_by_name, w0, w1, w2, w3, 0, 0, 0)
as_args (SysCall.spawn_by_name_with_args w0 w1 argv_ptr argv_len) =
    (as_usize SysCallNumber.spawn_by_name_with_args, w0, w1, argv_ptr, argv_len, 0, 0, 0)
as_args (SysCall.wait_process pid) = (as_usize SysCallNumber.wait_process, pid, 0, 0, 0, 0, 0, 0)
as_args SysCall.net_get_info = (as_usize SysCallNumber.net_get_info, 0, 0, 0, 0, 0, 0, 0)
as_args (SysCall.wait_event bits) = (as_usize SysCallNumber.wait_event, bits, 0, 0, 0, 0, 0, 0)
as_args SysCall.poll_event = (as_usize SysCallNumber.poll_event, 0, 0, 0, 0, 0, 0, 0)
as_args (SysCall.post_event pid bits) =
    (as_usize SysCallNumber.post_event, pid, bits, 0, 0, 0, 0, 0)
as_args (SysCall.get_binary_name index) =
    (as_usize SysCallNumber.get_binary_name, index, 0, 0, 0, 0, 0, 0)
as_args SysCall.acquire_display = (as_usize SysCallNumber.acquire_display, 0, 0, 0, 0, 0, 0, 0)
as_args (SysCall.release_display row col) =
    (as_usize SysCallNumber.release_display, row, col, 0, 0, 0, 0, 0)
as_args (SysCall.acquire_input_focus a b c d) =
    (as_usize SysCallNumber.acquire_input_focus, a, b, c, d, 0, 0, 0)
as_args SysCall.release_input_focus =
    (as_usize SysCallNumber.release_input_focus, 0, 0, 0, 0, 0, 0, 0)
as_args (SysCall.invalid a1 a2 a3 a4 a5 a6 a7) =
    (as_usize SysCallNumber.invalid, a1, a2, a3, a4, a5, a6, a7)
