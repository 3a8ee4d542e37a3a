-- ===== src/Syscall/Decode.antt =====
-- `SysCall::from_args` of xous/xous-rs/src/syscall.rs: what the kernel reads from eight words.
use beet_core.Common.{ℕ, ◌%◌, ◌^◌, Option, none, some, ◌==◌, ltb, if◌then◌else◌}
use beet_core.Abi.Error.{bad_address, invalid_syscall, invalid_pid}
use beet_core.Abi.Outcome.{Outcome, ok, err, panic, ◌>>=◌, ok_or}
use beet_core.Abi.Message.{
  MemoryRange, MemoryMessage, ScalarMessage, Message, mutable_borrow, borrow, move, scalar,
  blocking_scalar, new_nonzero, try_from,
}
use beet_core.Abi.Result.{Sid, Words7, Words8}
use beet_core.Syscall.Number.{SysCallNumber, from}
use beet_core.Syscall.Kinds.{
  thread_priority_from, cache_operation_from, dram_idle_mode_from, system_stat_from,
  system_event_from,
}
use beet_core.Syscall.Words.{from_bits, i32_from, app_id_from}
use beet_core.Syscall.Call.{SysCall, ThreadInit, ProcessInit}

-- `SID::from_u32` of usize words that are cast
unfoldable pub from_u32 : ℕ → ℕ → ℕ → ℕ → Sid
from_u32 a0 a1 a2 a3 = record {
  w0 = a0 % 2 ^ 32;
  w1 = a1 % 2 ^ 32;
  w2 = a2 % 2 ^ 32;
  w3 = a3 % 2 ^ 32;
}

-- `PID::new(a as _)`, where the cast drops all but the low byte
unfoldable pub pid_new : ℕ → Option ℕ
pid_new a = new_nonzero (a % 256)

unfoldable pub pid_from_usize : ℕ → Outcome ℕ
pid_from_usize src = if ltb 255 src then err invalid_pid else ok_or (pid_new src) invalid_pid

-- `MemoryRange::new`
unfoldable pub range_new : ℕ → ℕ → Outcome MemoryRange
range_new addr size = do
  a ← ok_or (new_nonzero addr) bad_address
  s ← ok_or (new_nonzero size) bad_address
  ok (record { addr = a; size = s })

-- `.or(Err(Error::InvalidSyscall))?`
abbrev pub or_invalid : Outcome MemoryRange → Outcome MemoryRange
or_invalid (ok range) = ok range
or_invalid (err e) = err invalid_syscall
or_invalid panic = panic

unfoldable pub range_or_invalid : ℕ → ℕ → Outcome MemoryRange
range_or_invalid addr size = or_invalid (range_new addr size)

unfoldable pub args_to_stack : ℕ → ℕ → Outcome (Option MemoryRange)
args_to_stack addr size =
    if addr == 0 then ok none else do range ← range_new addr size; ok (some range)

unfoldable pub args_to_thread : Words7 → Outcome ThreadInit
args_to_thread (a1, a2, a3, a4, a5, a6, a7) = do
  stack ← args_to_stack a2 a3
  ok (record { call = a1; stack = stack; arg1 = a4; arg2 = a5; arg3 = a6; arg4 = a7 })

-- `ProcessInit::try_from`
unfoldable pub process_try_from : Words7 → Outcome ProcessInit
process_try_from (a0, a1, a2, a3, a4, a5, a6) = do
  elf ← range_new a0 a1
  name_addr ← ok_or (new_nonzero a6) bad_address
  ok (record { elf = elf; name_addr = name_addr; app_id = app_id_from a2 a3 a4 a5 })

-- `a1.try_into().unwrap()`
unfoldable pub to_u32 : ℕ → Outcome ℕ
to_u32 a = if ltb a (2 ^ 32) then ok a else panic

-- A message that cannot be decoded makes the call invalid.
unfoldable pub send_decoded : Option Message → Words7 → Outcome SysCall
send_decoded (some m) (a1, a2, a3, a4, a5, a6, a7) = do
  cid ← to_u32 a1
  ok (SysCall.send_message cid m)
send_decoded none (a1, a2, a3, a4, a5, a6, a7) = ok (SysCall.invalid a1 a2 a3 a4 a5 a6 a7)

-- The memory message of a `TrySendMessage`
abbrev pub try_send_memory : Words7 → (MemoryMessage → Message) → Outcome SysCall
try_send_memory (a1, a2, a3, a4, a5, a6, a7) kind = do
  buf ← range_new a4 a5
  ok (
      SysCall.try_send_message (a1 % 2 ^ 32)
        (kind (record { id = a3; buf = buf; offset = new_nonzero a6; valid = new_nonzero a7 })))

unfoldable pub try_send_decoded : Words7 → Outcome SysCall
try_send_decoded (a1, a2, a3, a4, a5, a6, a7) =
    let words : Words7 = (a1, a2, a3, a4, a5, a6, a7) in
    let args : ScalarMessage = record { id = a3; arg1 = a4; arg2 = a5; arg3 = a6; arg4 = a7 } in
    if a2 == 1
    then try_send_memory words mutable_borrow
    else if a2 == 2
    then try_send_memory words borrow
    else if a2 == 3
    then try_send_memory words move
    else if a2 == 4
    then ok (SysCall.try_send_message (a1 % 2 ^ 32) (scalar args))
    else if a2 == 5
    then (do cid ← to_u32 a1; ok (SysCall.try_send_message cid (blocking_scalar args)))
    else ok (SysCall.invalid a1 a2 a3 a4 a5 a6 a7)

unfoldable pub decode : SysCallNumber → Words7 → Outcome SysCall
decode SysCallNumber.map_memory (a1, a2, a3, a4, a5, a6, a7) = do
  size ← ok_or (new_nonzero a3) invalid_syscall
  ok (SysCall.map_memory (new_nonzero a1) (new_nonzero a2) size (from_bits a4))
decode SysCallNumber.unmap_memory (a1, a2, a3, a4, a5, a6, a7) = do
  range ← range_or_invalid a1 a2
  ok (SysCall.unmap_memory range)
decode SysCallNumber.increase_heap (a1, a2, a3, a4, a5, a6, a7) = do
  size ← ok_or (new_nonzero a1) invalid_syscall
  ok (SysCall.increase_heap size)
decode SysCallNumber.update_memory_flags (a1, a2, a3, a4, a5, a6, a7) = do
  range ← range_new a1 a2
  ok (SysCall.update_memory_flags range (from_bits a3) (pid_new a4))
decode SysCallNumber.yield (a1, a2, a3, a4, a5, a6, a7) = ok SysCall.yield
decode SysCallNumber.set_thread_priority (a1, a2, a3, a4, a5, a6, a7) =
    ok (SysCall.set_thread_priority (thread_priority_from a1))
decode SysCallNumber.receive_message (a1, a2, a3, a4, a5, a6, a7) =
    ok (SysCall.receive_message (from_u32 a1 a2 a3 a4))
decode SysCallNumber.try_receive_message (a1, a2, a3, a4, a5, a6, a7) =
    ok (SysCall.try_receive_message (from_u32 a1 a2 a3 a4))
decode SysCallNumber.claim_interrupt (a1, a2, a3, a4, a5, a6, a7) = do
  function ← ok_or (new_nonzero a2) invalid_syscall
  ok (SysCall.claim_interrupt a1 function (new_nonzero a3))
decode SysCallNumber.free_interrupt (a1, a2, a3, a4, a5, a6, a7) = ok (SysCall.free_interrupt a1)
decode SysCallNumber.futex_wait (a1, a2, a3, a4, a5, a6, a7) = ok (SysCall.futex_wait a1 a2)
decode SysCallNumber.futex_wake (a1, a2, a3, a4, a5, a6, a7) = ok (SysCall.futex_wake a1 a2)
decode SysCallNumber.create_server_with_address (a1, a2, a3, a4, a5, a6, a7) =
    ok (SysCall.create_server_with_address (from_u32 a1 a2 a3 a4) (record { start = a5; end = a6 }))
decode SysCallNumber.connect (a1, a2, a3, a4, a5, a6, a7) =
    ok (SysCall.connect (from_u32 a1 a2 a3 a4))
decode SysCallNumber.try_connect (a1, a2, a3, a4, a5, a6, a7) =
    ok (SysCall.try_connect (from_u32 a1 a2 a3 a4))
decode SysCallNumber.send_message (a1, a2, a3, a4, a5, a6, a7) =
    send_decoded (try_from (a2, a3, a4, a5, a6, a7)) (a1, a2, a3, a4, a5, a6, a7)
decode SysCallNumber.try_send_message (a1, a2, a3, a4, a5, a6, a7) =
    try_send_decoded (a1, a2, a3, a4, a5, a6, a7)
decode SysCallNumber.return_memory (a1, a2, a3, a4, a5, a6, a7) = do
  buf ← range_new a2 a3
  ok (SysCall.return_memory a1 buf (new_nonzero a4) (new_nonzero a5))
decode SysCallNumber.return_scalar1 (a1, a2, a3, a4, a5, a6, a7) = ok (SysCall.return_scalar1 a1 a2)
decode SysCallNumber.return_scalar2 (a1, a2, a3, a4, a5, a6, a7) =
    ok (SysCall.return_scalar2 a1 a2 a3)
decode SysCallNumber.create_thread (a1, a2, a3, a4, a5, a6, a7) = do
  init ← args_to_thread (a1, a2, a3, a4, a5, a6, a7)
  ok (SysCall.create_thread init)
decode SysCallNumber.create_process (a1, a2, a3, a4, a5, a6, a7) = do
  init ← process_try_from (a1, a2, a3, a4, a5, a6, a7)
  ok (SysCall.create_process init)
decode SysCallNumber.terminate_process (a1, a2, a3, a4, a5, a6, a7) =
    ok (SysCall.terminate_process (a1 % 2 ^ 32))
decode SysCallNumber.terminate_pid (a1, a2, a3, a4, a5, a6, a7) = do
  pid ← ok_or (pid_new a1) invalid_syscall
  ok (SysCall.terminate_pid pid (a2 % 2 ^ 32))
decode SysCallNumber.shutdown (a1, a2, a3, a4, a5, a6, a7) = ok (SysCall.shutdown (i32_from a1))
decode SysCallNumber.create_server (a1, a2, a3, a4, a5, a6, a7) = ok SysCall.create_server
decode SysCallNumber.create_server_id (a1, a2, a3, a4, a5, a6, a7) = ok SysCall.create_server_id
decode SysCallNumber.connect_for_process (a1, a2, a3, a4, a5, a6, a7) = do
  pid ← ok_or (pid_new a1) invalid_syscall
  ok (SysCall.connect_for_process pid (from_u32 a2 a3 a4 a5))
decode SysCallNumber.get_remote_process_id (a1, a2, a3, a4, a5, a6, a7) =
    ok (SysCall.get_remote_process_id (a1 % 2 ^ 32))
decode SysCallNumber.get_thread_id (a1, a2, a3, a4, a5, a6, a7) = ok SysCall.get_thread_id
decode SysCallNumber.get_process_id (a1, a2, a3, a4, a5, a6, a7) = ok SysCall.get_process_id
decode SysCallNumber.destroy_server (a1, a2, a3, a4, a5, a6, a7) =
    ok (SysCall.destroy_server (from_u32 a1 a2 a3 a4))
decode SysCallNumber.disconnect (a1, a2, a3, a4, a5, a6, a7) = ok (SysCall.disconnect (a1 % 2 ^ 32))
decode SysCallNumber.join_thread (a1, a2, a3, a4, a5, a6, a7) = ok (SysCall.join_thread a1)
decode SysCallNumber.virt_to_phys (a1, a2, a3, a4, a5, a6, a7) = ok (SysCall.virt_to_phys a1)
decode SysCallNumber.return_scalar5 (a1, a2, a3, a4, a5, a6, a7) =
    ok (SysCall.return_scalar5 a1 a2 a3 a4 a5 a6)
decode SysCallNumber.virt_to_phys_pid (a1, a2, a3, a4, a5, a6, a7) = do
  pid ← pid_from_usize a1
  ok (SysCall.virt_to_phys_pid pid a2)
decode SysCallNumber.get_app_id (a1, a2, a3, a4, a5, a6, a7) = do
  pid ← ok_or (pid_new a1) invalid_syscall
  ok (SysCall.get_app_id pid)
decode SysCallNumber.allow_messages_sid (a1, a2, a3, a4, a5, a6, a7) =
    ok (SysCall.allow_messages_sid (from_u32 a1 a2 a3 a4) (record { start = a5; end = a6 }))
decode SysCallNumber.allow_messages_cid (a1, a2, a3, a4, a5, a6, a7) = do
  pid ← ok_or (pid_new a1) invalid_syscall
  ok (SysCall.allow_messages_cid pid (a2 % 2 ^ 32) (record { start = a3; end = a4 }))
decode SysCallNumber.invalidate_cache (a1, a2, a3, a4, a5, a6, a7) = do
  mem ← range_new a1 a2
  ok (SysCall.flush_cache mem (cache_operation_from a3))
decode SysCallNumber.power_management (a1, a2, a3, a4, a5, a6, a7) =
    ok (SysCall.power_management (dram_idle_mode_from a1))
decode SysCallNumber.app_id_to_pid (a1, a2, a3, a4, a5, a6, a7) =
    ok (SysCall.app_id_to_pid (app_id_from a1 a2 a3 a4))
decode SysCallNumber.mirror_memory_to_pid (a1, a2, a3, a4, a5, a6, a7) = do
  mem ← range_new a1 a2
  pid ← ok_or (pid_new a3) invalid_syscall
  ok (SysCall.mirror_memory_to_pid mem pid)
decode SysCallNumber.debug_command (a1, a2, a3, a4, a5, a6, a7) = do
  buffer ← range_new a1 a2
  ok (SysCall.debug_command buffer (a3 % 256))
decode SysCallNumber.get_system_stats (a1, a2, a3, a4, a5, a6, a7) =
    ok (SysCall.get_system_stats (system_stat_from a1))
decode SysCallNumber.register_event_handler (a1, a2, a3, a4, a5, a6, a7) =
    ok (SysCall.register_event_handler (system_event_from a1) (from_u32 a2 a3 a4 a5) a6)
decode SysCallNumber.append_panic_message (a1, a2, a3, a4, a5, a6, a7) =
    ok (SysCall.append_panic_message a1 a2 a3 a4 a5 a6 a7)
decode SysCallNumber.get_panic_message (a1, a2, a3, a4, a5, a6, a7) = do
  buf ← range_new a1 a2
  ok (SysCall.get_panic_message buf)
decode SysCallNumber.spawn_by_name (a1, a2, a3, a4, a5, a6, a7) =
    ok (SysCall.spawn_by_name a1 a2 a3 a4)
decode SysCallNumber.spawn_by_name_with_args (a1, a2, a3, a4, a5, a6, a7) =
    ok (SysCall.spawn_by_name_with_args a1 a2 a3 a4)
decode SysCallNumber.wait_process (a1, a2, a3, a4, a5, a6, a7) = do
  pid ← ok_or (pid_new a1) invalid_syscall
  ok (SysCall.wait_process pid)
decode SysCallNumber.net_get_info (a1, a2, a3, a4, a5, a6, a7) = ok SysCall.net_get_info
decode SysCallNumber.wait_event (a1, a2, a3, a4, a5, a6, a7) = ok (SysCall.wait_event a1)
decode SysCallNumber.poll_event (a1, a2, a3, a4, a5, a6, a7) = ok SysCall.poll_event
decode SysCallNumber.post_event (a1, a2, a3, a4, a5, a6, a7) = do
  pid ← ok_or (pid_new a1) invalid_syscall
  ok (SysCall.post_event pid a2)
decode SysCallNumber.get_binary_name (a1, a2, a3, a4, a5, a6, a7) = ok (SysCall.get_binary_name a1)
decode SysCallNumber.acquire_display (a1, a2, a3, a4, a5, a6, a7) = ok SysCall.acquire_display
decode SysCallNumber.release_display (a1, a2, a3, a4, a5, a6, a7) =
    ok (SysCall.release_display a1 a2)
decode SysCallNumber.acquire_input_focus (a1, a2, a3, a4, a5, a6, a7) =
    ok (SysCall.acquire_input_focus (a1 % 2 ^ 32) (a2 % 2 ^ 32) (a3 % 2 ^ 32) (a4 % 2 ^ 32))
decode SysCallNumber.release_input_focus (a1, a2, a3, a4, a5, a6, a7) =
    ok SysCall.release_input_focus
decode SysCallNumber.invalid (a1, a2, a3, a4, a5, a6, a7) =
    ok (SysCall.invalid a1 a2 a3 a4 a5 a6 a7)

unfoldable pub from_args : Words8 → Outcome SysCall
from_args (a0, a1, a2, a3, a4, a5, a6, a7) = decode (from a0) (a1, a2, a3, a4, a5, a6, a7)
