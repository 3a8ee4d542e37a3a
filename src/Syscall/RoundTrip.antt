-- ===== src/Syscall/RoundTrip.antt =====
-- A syscall that a process encodes is the one that the kernel decodes
-- (xous/xous-rs/src/syscall.rs).
use beet_core.Common.{ℕ, ◌%◌, ◌<◌, arith, ◌≡◌, refl}
use beet_core.Abi.Outcome.{ok}
use beet_core.Abi.Message.{
  MemoryMessage, Message, mutable_borrow, borrow, move, scalar, blocking_scalar, message_type,
  message_to_usize, memory_to_usize, scalar_to_usize, get_or_zero,
}
use beet_core.Abi.RoundTrip.{
  IsMemoryMessage, IsMessage, new_nonzero_lem, new_nonzero-get_or_zero, try_from-message_to_usize,
}
use beet_core.Syscall.Number.{SysCallNumber, from, as_usize}
use beet_core.Syscall.Kinds.{
  cache_operation_from-cache_operation_number, dram_idle_mode_from-dram_idle_mode_number,
  system_event_from-system_event_number, system_stat_from-system_stat_number,
  thread_priority_from-thread_priority_number,
}
use beet_core.Syscall.Words.{from_bits-bits, i32_from-i32_number}
use beet_core.Syscall.Call.{SysCall, IsSysCall, IsU32}
use beet_core.Syscall.Encode.{as_args, send_words}
use beet_core.Syscall.Decode.{
  from_args, decode, send_decoded, try_send_decoded, args_to_thread, process_try_from,
  try_send_memory,
}
use beet_core.Syscall.Parts.{
  u32_round, sid_round, pid_round, option_pid_round, pid_from_usize_round, range_round,
  range_or_invalid_round, stack_round, app_id_round, to_u32_round,
}

u8_round : (n : ℕ) → n < 256 → n % 256 ≡ n
u8_round n h = omega arith

send_round :
    (cid : ℕ) (m : Message)
    → IsU32 cid
    → IsMessage m
    → from_args (send_words (as_usize SysCallNumber.send_message) cid m)
      ≡ ok (SysCall.send_message cid m)
unfolding from_args from as_usize decode send_words send_decoded message_type message_to_usize
    memory_to_usize scalar_to_usize
send_round cid (mutable_borrow x) h v =
    rw (try_from-message_to_usize (mutable_borrow x) v) (rw (to_u32_round cid h) refl)
send_round cid (borrow x) h v =
    rw (try_from-message_to_usize (borrow x) v) (rw (to_u32_round cid h) refl)
send_round cid (move x) h v =
    rw (try_from-message_to_usize (move x) v) (rw (to_u32_round cid h) refl)
send_round cid (scalar x) h v =
    rw (try_from-message_to_usize (scalar x) v) (rw (to_u32_round cid h) refl)
send_round cid (blocking_scalar x) h v =
    rw (try_from-message_to_usize (blocking_scalar x) v) (rw (to_u32_round cid h) refl)

try_send_memory_round :
    (cid : ℕ) (mm : MemoryMessage) (kind : MemoryMessage → Message)
    → IsU32 cid
    → IsMemoryMessage mm
    → try_send_memory
        (cid, 0, mm.id, mm.buf.addr, mm.buf.size, get_or_zero mm.offset, get_or_zero mm.valid)
        kind
      ≡ ok (SysCall.try_send_message cid (kind mm))
try_send_memory_round cid mm kind h v = rw (range_round mm.buf (v.addr_nonzero, v.size_nonzero)) (
    rw (new_nonzero-get_or_zero mm.offset v.offset_nonzero)
      (rw (new_nonzero-get_or_zero mm.valid v.valid_nonzero) (rw (u32_round cid h) refl)))

try_send_round :
    (cid : ℕ) (m : Message)
    → IsU32 cid
    → IsMessage m
    → from_args (send_words (as_usize SysCallNumber.try_send_message) cid m)
      ≡ ok (SysCall.try_send_message cid m)
unfolding from_args from as_usize decode send_words try_send_decoded message_type
try_send_round cid (mutable_borrow mm) h v = try_send_memory_round cid mm mutable_borrow h v
try_send_round cid (borrow mm) h v = try_send_memory_round cid mm borrow h v
try_send_round cid (move mm) h v = try_send_memory_round cid mm move h v
try_send_round cid (scalar sc) h v = rw (u32_round cid h) refl
try_send_round cid (blocking_scalar sc) h v = rw (to_u32_round cid h) refl

-- A syscall whose arguments keep the promises of their types is decoded, from the words that it is
-- encoded in, to itself.
pub from_args-as_args : (call : SysCall) → IsSysCall call → from_args (as_args call) ≡ ok call
unfolding from_args from as_usize decode as_args args_to_thread process_try_from
from_args-as_args (SysCall.map_memory phys virt size flags) h =
    rw (new_nonzero-get_or_zero phys (h.0)) (
      rw (new_nonzero-get_or_zero virt (h.1))
        (rw (new_nonzero_lem size (h.2)) (rw (from_bits-bits flags (h.3)) refl)))
from_args-as_args (SysCall.unmap_memory range) h = rw (range_or_invalid_round range h) refl
from_args-as_args (SysCall.increase_heap size) h = rw (new_nonzero_lem size h) refl
from_args-as_args (SysCall.update_memory_flags range flags pid) h =
    rw (range_round range (h.0))
      (rw (from_bits-bits flags (h.1)) (rw (option_pid_round pid (h.2)) refl))
from_args-as_args SysCall.yield h = refl
from_args-as_args (SysCall.set_thread_priority priority) h =
    rw (thread_priority_from-thread_priority_number priority) refl
from_args-as_args (SysCall.receive_message sid) h = rw (sid_round sid h) refl
from_args-as_args (SysCall.try_receive_message sid) h = rw (sid_round sid h) refl
from_args-as_args (SysCall.claim_interrupt irq function argument) h =
    rw (new_nonzero_lem function (h.0)) (rw (new_nonzero-get_or_zero argument (h.1)) refl)
from_args-as_args (SysCall.free_interrupt irq) h = refl
from_args-as_args (SysCall.futex_wait addr val) h = refl
from_args-as_args (SysCall.futex_wake addr n) h = refl
from_args-as_args (SysCall.create_server_with_address sid messages) h = rw (sid_round sid h) refl
from_args-as_args (SysCall.connect sid) h = rw (sid_round sid h) refl
from_args-as_args (SysCall.try_connect sid) h = rw (sid_round sid h) refl
from_args-as_args (SysCall.send_message cid message) h = send_round cid message (h.0) (h.1)
from_args-as_args (SysCall.try_send_message cid message) h = try_send_round cid message (h.0) (h.1)
from_args-as_args (SysCall.return_memory sender buf offset valid) h =
    rw (range_round buf (h.0))
      (rw (new_nonzero-get_or_zero offset (h.1)) (rw (new_nonzero-get_or_zero valid (h.2)) refl))
from_args-as_args (SysCall.return_scalar1 sender arg1) h = refl
from_args-as_args (SysCall.return_scalar2 sender arg1 arg2) h = refl
from_args-as_args (SysCall.create_thread init) h = rw (stack_round init.stack h) refl
from_args-as_args (SysCall.create_process init) h =
    rw (range_round init.elf (h.0))
      (rw (new_nonzero_lem init.name_addr (h.1)) (rw (app_id_round init.app_id (h.2)) refl))
from_args-as_args (SysCall.terminate_process exit_code) h = rw (u32_round exit_code h) refl
from_args-as_args (SysCall.terminate_pid pid exit_code) h =
    rw (pid_round pid (h.0)) (rw (u32_round exit_code (h.1)) refl)
from_args-as_args (SysCall.shutdown exit_code) h = rw (i32_from-i32_number exit_code h) refl
from_args-as_args SysCall.create_server h = refl
from_args-as_args SysCall.create_server_id h = refl
from_args-as_args (SysCall.connect_for_process pid sid) h =
    rw (pid_round pid (h.0)) (rw (sid_round sid (h.1)) refl)
from_args-as_args (SysCall.get_remote_process_id cid) h = rw (u32_round cid h) refl
from_args-as_args SysCall.get_thread_id h = refl
from_args-as_args SysCall.get_process_id h = refl
from_args-as_args (SysCall.destroy_server sid) h = rw (sid_round sid h) refl
from_args-as_args (SysCall.disconnect cid) h = rw (u32_round cid h) refl
from_args-as_args (SysCall.join_thread tid) h = refl
from_args-as_args (SysCall.virt_to_phys vaddr) h = refl
from_args-as_args (SysCall.return_scalar5 sender arg1 arg2 arg3 arg4 arg5) h = refl
from_args-as_args (SysCall.virt_to_phys_pid pid vaddr) h = rw (pid_from_usize_round pid h) refl
from_args-as_args (SysCall.get_app_id pid) h = rw (pid_round pid h) refl
from_args-as_args (SysCall.allow_messages_sid sid messages) h = rw (sid_round sid h) refl
from_args-as_args (SysCall.allow_messages_cid pid cid messages) h =
    rw (pid_round pid (h.0)) (rw (u32_round cid (h.1)) refl)
from_args-as_args (SysCall.flush_cache mem op) h =
    rw (range_round mem h) (rw (cache_operation_from-cache_operation_number op) refl)
from_args-as_args (SysCall.power_management dram) h =
    rw (dram_idle_mode_from-dram_idle_mode_number dram) refl
from_args-as_args (SysCall.app_id_to_pid app_id) h = rw (app_id_round app_id h) refl
from_args-as_args (SysCall.mirror_memory_to_pid mem pid) h =
    rw (range_round mem (h.0)) (rw (pid_round pid (h.1)) refl)
from_args-as_args (SysCall.debug_command buffer cmd) h =
    rw (range_round buffer (h.0)) (rw (u8_round cmd (h.1)) refl)
from_args-as_args (SysCall.get_system_stats stat) h =
    rw (system_stat_from-system_stat_number stat) refl
from_args-as_args (SysCall.register_event_handler event sid id) h =
    rw (system_event_from-system_event_number event) (rw (sid_round sid h) refl)
from_args-as_args (SysCall.append_panic_message len a2 a3 a4 a5 a6 a7) h = refl
from_args-as_args (SysCall.get_panic_message buf) h = rw (range_round buf h) refl
from_args-as_args (SysCall.spawn_by_name w0 w1 w2 w3) h = refl
from_args-as_args (SysCall.spawn_by_name_with_args w0 w1 argv_ptr argv_len) h = refl
from_args-as_args (SysCall.wait_process pid) h = rw (pid_round pid h) refl
from_args-as_args SysCall.net_get_info h = refl
from_args-as_args (SysCall.wait_event bits) h = refl
from_args-as_args SysCall.poll_event h = refl
from_args-as_args (SysCall.post_event pid bits) h = rw (pid_round pid h) refl
from_args-as_args (SysCall.get_binary_name index) h = refl
from_args-as_args SysCall.acquire_display h = refl
from_args-as_args (SysCall.release_display row col) h = refl
from_args-as_args (SysCall.acquire_input_focus a b c d) h =
    rw (u32_round a (h.0))
      (rw (u32_round b (h.1)) (rw (u32_round c (h.2)) (rw (u32_round d (h.3)) refl)))
from_args-as_args SysCall.release_input_focus h = refl
from_args-as_args (SysCall.invalid a1 a2 a3 a4 a5 a6 a7) h = refl
