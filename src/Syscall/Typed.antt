-- ===== src/Syscall/Typed.antt =====
-- What the kernel decodes keeps the promises of the types of `SysCall`
-- (xous/xous-rs/src/syscall.rs), whatever the eight words are.
use beet_core.Common.{ℕ, ◌≢◌, arith, Option, none, some, ◌==◌, Bool-cases, inl, inr}
use beet_core.Abi.Outcome.{ok_or}
use beet_core.Abi.After.{After, After-then}
use beet_core.Abi.Message.{MemoryMessage, Message, mutable_borrow, borrow, move, new_nonzero}
use beet_core.Abi.Result.{Words7, Words8}
use beet_core.Abi.RoundTrip.{IsMemoryMessage, IsMessage}
use beet_core.Syscall.Number.{SysCallNumber, from}
use beet_core.Syscall.Words.{from_bits-IsFlags, i32_from-IsI32, app_id_from-IsAppId}
use beet_core.Syscall.Call.{IsSysCall, IsU32, IsPid, IsMemoryRange, IsStack}
use beet_core.Syscall.Decode.{
  from_args, decode, send_decoded, try_send_decoded, try_send_memory, args_to_thread,
  process_try_from, range_new, range_or_invalid, pid_new, pid_from_usize, to_u32,
}
use beet_core.Syscall.Parts.{from_u32-IsSid, pid_new-IsOptionPid, new_nonzero-IsOptionNonZero}
use beet_core.Syscall.Read.{
  Every, IsProcessInit, cut_to_word, new_nonzero-After, pid_new-After, pid_from_usize-After,
  range_new-After, range_or_invalid-After, args_to_thread-After, process_try_from-After,
  try_from-Every,
}

to_u32-After : (a : ℕ) → After IsU32 (to_u32 a)
unfolding to_u32
to_u32-After a = ground arith

send_decoded-After :
    (o : Option Message) (w : Words7) → Every IsMessage o → After IsSysCall (send_decoded o w)
unfolding send_decoded
send_decoded-After none (a1, a2, a3, a4, a5, a6, a7) h = tt
send_decoded-After (some m) (a1, a2, a3, a4, a5, a6, a7) h =
    After-then IsU32 IsSysCall (to_u32 a1) _ (to_u32-After a1) (λ cid hc. (hc, h))

try_send_memory-After :
    (w : Words7) (kind : MemoryMessage → Message)
    → ((m : MemoryMessage) → IsMemoryMessage m → IsMessage (kind m))
    → After IsSysCall (try_send_memory w kind)
try_send_memory-After (a1, a2, a3, a4, a5, a6, a7) kind k =
    After-then IsMemoryRange IsSysCall (range_new a4 a5) _ (range_new-After a4 a5) (λ buf h. (
      cut_to_word a1,
      k _ (record {
        addr_nonzero = h.0;
        size_nonzero = h.1;
        offset_nonzero = new_nonzero-IsOptionNonZero a6;
        valid_nonzero = new_nonzero-IsOptionNonZero a7;
      }),
    ))

try_send_decoded-After : (w : Words7) → After IsSysCall (try_send_decoded w)
unfolding try_send_decoded
try_send_decoded-After (a1, a2, a3, a4, a5, a6, a7) =
    let w : Words7 = (a1, a2, a3, a4, a5, a6, a7) in
    elim (Bool-cases (a2 == 1)) [
      | inl t ↦ rw t (try_send_memory-After w mutable_borrow (λ m v. v))
      | inr n1 ↦ elim (Bool-cases (a2 == 2)) [
        | inl t ↦ rw n1 (rw t (try_send_memory-After w borrow (λ m v. v)))
        | inr n2 ↦ elim (Bool-cases (a2 == 3)) [
          | inl t ↦ rw n1 (rw n2 (rw t (try_send_memory-After w move (λ m v. v))))
          | inr n3 ↦ elim (Bool-cases (a2 == 4)) [
            | inl t ↦ rw n1 (rw n2 (rw n3 (rw t (cut_to_word a1, tt))))
            | inr n4 ↦ elim (Bool-cases (a2 == 5)) [
              | inl t ↦ rw n1 (
                  rw n2 (
                    rw n3 (
                      rw n4 (
                        rw t (
                          After-then IsU32 IsSysCall (to_u32 a1) _ (to_u32-After a1)
                            (λ cid hc. (hc, tt)))))))
              | inr n5 ↦ rw n1 (rw n2 (rw n3 (rw n4 (rw n5 tt))))
            ]
          ]
        ]
      ]
    ]

decode-IsSysCall : (number : SysCallNumber) (w : Words7) → After IsSysCall (decode number w)
unfolding decode
decode-IsSysCall SysCallNumber.map_memory (a1, a2, a3, a4, a5, a6, a7) =
    After-then (λ n. n ≢ 0) IsSysCall (ok_or (new_nonzero a3) _) _ (new_nonzero-After a3 _)
      (λ x_size h_size. (
        new_nonzero-IsOptionNonZero a1,
        new_nonzero-IsOptionNonZero a2,
        h_size,
        from_bits-IsFlags a4,
      ))
decode-IsSysCall SysCallNumber.unmap_memory (a1, a2, a3, a4, a5, a6, a7) =
    After-then IsMemoryRange IsSysCall (range_or_invalid a1 a2) _ (range_or_invalid-After a1 a2)
      (λ x_range h_range. h_range)
decode-IsSysCall SysCallNumber.increase_heap (a1, a2, a3, a4, a5, a6, a7) =
    After-then (λ n. n ≢ 0) IsSysCall (ok_or (new_nonzero a1) _) _ (new_nonzero-After a1 _)
      (λ x_size h_size. h_size)
decode-IsSysCall SysCallNumber.update_memory_flags (a1, a2, a3, a4, a5, a6, a7) =
    After-then IsMemoryRange IsSysCall (range_new a1 a2) _ (range_new-After a1 a2)
      (λ x_range h_range. (h_range, from_bits-IsFlags a3, pid_new-IsOptionPid a4))
decode-IsSysCall SysCallNumber.yield (a1, a2, a3, a4, a5, a6, a7) = tt
decode-IsSysCall SysCallNumber.set_thread_priority (a1, a2, a3, a4, a5, a6, a7) = tt
decode-IsSysCall SysCallNumber.receive_message (a1, a2, a3, a4, a5, a6, a7) =
    from_u32-IsSid a1 a2 a3 a4
decode-IsSysCall SysCallNumber.try_receive_message (a1, a2, a3, a4, a5, a6, a7) =
    from_u32-IsSid a1 a2 a3 a4
decode-IsSysCall SysCallNumber.claim_interrupt (a1, a2, a3, a4, a5, a6, a7) =
    After-then (λ n. n ≢ 0) IsSysCall (ok_or (new_nonzero a2) _) _ (new_nonzero-After a2 _)
      (λ x_function h_function. (h_function, new_nonzero-IsOptionNonZero a3))
decode-IsSysCall SysCallNumber.free_interrupt (a1, a2, a3, a4, a5, a6, a7) = tt
decode-IsSysCall SysCallNumber.futex_wait (a1, a2, a3, a4, a5, a6, a7) = tt
decode-IsSysCall SysCallNumber.futex_wake (a1, a2, a3, a4, a5, a6, a7) = tt
decode-IsSysCall SysCallNumber.create_server_with_address (a1, a2, a3, a4, a5, a6, a7) =
    from_u32-IsSid a1 a2 a3 a4
decode-IsSysCall SysCallNumber.connect (a1, a2, a3, a4, a5, a6, a7) = from_u32-IsSid a1 a2 a3 a4
decode-IsSysCall SysCallNumber.try_connect (a1, a2, a3, a4, a5, a6, a7) = from_u32-IsSid a1 a2 a3 a4
decode-IsSysCall SysCallNumber.send_message (a1, a2, a3, a4, a5, a6, a7) =
    send_decoded-After _ (a1, a2, a3, a4, a5, a6, a7) (try_from-Every (a2, a3, a4, a5, a6, a7))
decode-IsSysCall SysCallNumber.try_send_message (a1, a2, a3, a4, a5, a6, a7) =
    try_send_decoded-After (a1, a2, a3, a4, a5, a6, a7)
decode-IsSysCall SysCallNumber.return_memory (a1, a2, a3, a4, a5, a6, a7) =
    After-then IsMemoryRange IsSysCall (range_new a2 a3) _ (range_new-After a2 a3)
      (λ x_buf h_buf. (h_buf, new_nonzero-IsOptionNonZero a4, new_nonzero-IsOptionNonZero a5))
decode-IsSysCall SysCallNumber.return_scalar1 (a1, a2, a3, a4, a5, a6, a7) = tt
decode-IsSysCall SysCallNumber.return_scalar2 (a1, a2, a3, a4, a5, a6, a7) = tt
decode-IsSysCall SysCallNumber.create_thread (a1, a2, a3, a4, a5, a6, a7) =
    After-then (λ init. IsStack init.stack) IsSysCall (args_to_thread (a1, a2, a3, a4, a5, a6, a7))
      _ (args_to_thread-After (a1, a2, a3, a4, a5, a6, a7)) (λ x hx. hx)
decode-IsSysCall SysCallNumber.create_process (a1, a2, a3, a4, a5, a6, a7) =
    After-then IsProcessInit IsSysCall (process_try_from (a1, a2, a3, a4, a5, a6, a7)) _
      (process_try_from-After (a1, a2, a3, a4, a5, a6, a7)) (λ x hx. hx)
decode-IsSysCall SysCallNumber.terminate_process (a1, a2, a3, a4, a5, a6, a7) = cut_to_word a1
decode-IsSysCall SysCallNumber.terminate_pid (a1, a2, a3, a4, a5, a6, a7) =
    After-then IsPid IsSysCall (ok_or (pid_new a1) _) _ (pid_new-After a1 _)
      (λ x_pid h_pid. (h_pid, cut_to_word a2))
decode-IsSysCall SysCallNumber.shutdown (a1, a2, a3, a4, a5, a6, a7) = i32_from-IsI32 a1
decode-IsSysCall SysCallNumber.create_server (a1, a2, a3, a4, a5, a6, a7) = tt
decode-IsSysCall SysCallNumber.create_server_id (a1, a2, a3, a4, a5, a6, a7) = tt
decode-IsSysCall SysCallNumber.connect_for_process (a1, a2, a3, a4, a5, a6, a7) =
    After-then IsPid IsSysCall (ok_or (pid_new a1) _) _ (pid_new-After a1 _)
      (λ x_pid h_pid. (h_pid, from_u32-IsSid a2 a3 a4 a5))
decode-IsSysCall SysCallNumber.get_remote_process_id (a1, a2, a3, a4, a5, a6, a7) = cut_to_word a1
decode-IsSysCall SysCallNumber.get_thread_id (a1, a2, a3, a4, a5, a6, a7) = tt
decode-IsSysCall SysCallNumber.get_process_id (a1, a2, a3, a4, a5, a6, a7) = tt
decode-IsSysCall SysCallNumber.destroy_server (a1, a2, a3, a4, a5, a6, a7) =
    from_u32-IsSid a1 a2 a3 a4
decode-IsSysCall SysCallNumber.disconnect (a1, a2, a3, a4, a5, a6, a7) = cut_to_word a1
decode-IsSysCall SysCallNumber.join_thread (a1, a2, a3, a4, a5, a6, a7) = tt
decode-IsSysCall SysCallNumber.virt_to_phys (a1, a2, a3, a4, a5, a6, a7) = tt
decode-IsSysCall SysCallNumber.return_scalar5 (a1, a2, a3, a4, a5, a6, a7) = tt
decode-IsSysCall SysCallNumber.virt_to_phys_pid (a1, a2, a3, a4, a5, a6, a7) =
    After-then IsPid IsSysCall (pid_from_usize a1) _ (pid_from_usize-After a1)
      (λ x_pid h_pid. h_pid)
decode-IsSysCall SysCallNumber.get_app_id (a1, a2, a3, a4, a5, a6, a7) =
    After-then IsPid IsSysCall (ok_or (pid_new a1) _) _ (pid_new-After a1 _) (λ x_pid h_pid. h_pid)
decode-IsSysCall SysCallNumber.allow_messages_sid (a1, a2, a3, a4, a5, a6, a7) =
    from_u32-IsSid a1 a2 a3 a4
decode-IsSysCall SysCallNumber.allow_messages_cid (a1, a2, a3, a4, a5, a6, a7) =
    After-then IsPid IsSysCall (ok_or (pid_new a1) _) _ (pid_new-After a1 _)
      (λ x_pid h_pid. (h_pid, cut_to_word a2))
decode-IsSysCall SysCallNumber.invalidate_cache (a1, a2, a3, a4, a5, a6, a7) =
    After-then IsMemoryRange IsSysCall (range_new a1 a2) _ (range_new-After a1 a2)
      (λ x_mem h_mem. h_mem)
decode-IsSysCall SysCallNumber.power_management (a1, a2, a3, a4, a5, a6, a7) = tt
decode-IsSysCall SysCallNumber.app_id_to_pid (a1, a2, a3, a4, a5, a6, a7) =
    app_id_from-IsAppId a1 a2 a3 a4
decode-IsSysCall SysCallNumber.mirror_memory_to_pid (a1, a2, a3, a4, a5, a6, a7) =
    After-then IsMemoryRange IsSysCall (range_new a1 a2) _ (range_new-After a1 a2) (λ x_mem h_mem.
      After-then IsPid IsSysCall (ok_or (pid_new a3) _) _ (pid_new-After a3 _)
        (λ x_pid h_pid. (h_mem, h_pid)))
decode-IsSysCall SysCallNumber.debug_command (a1, a2, a3, a4, a5, a6, a7) =
    After-then IsMemoryRange IsSysCall (range_new a1 a2) _ (range_new-After a1 a2)
      (λ x_buffer h_buffer. (h_buffer, omega arith))
decode-IsSysCall SysCallNumber.get_system_stats (a1, a2, a3, a4, a5, a6, a7) = tt
decode-IsSysCall SysCallNumber.register_event_handler (a1, a2, a3, a4, a5, a6, a7) =
    from_u32-IsSid a2 a3 a4 a5
decode-IsSysCall SysCallNumber.append_panic_message (a1, a2, a3, a4, a5, a6, a7) = tt
decode-IsSysCall SysCallNumber.get_panic_message (a1, a2, a3, a4, a5, a6, a7) =
    After-then IsMemoryRange IsSysCall (range_new a1 a2) _ (range_new-After a1 a2)
      (λ x_buf h_buf. h_buf)
decode-IsSysCall SysCallNumber.spawn_by_name (a1, a2, a3, a4, a5, a6, a7) = tt
decode-IsSysCall SysCallNumber.spawn_by_name_with_args (a1, a2, a3, a4, a5, a6, a7) = tt
decode-IsSysCall SysCallNumber.wait_process (a1, a2, a3, a4, a5, a6, a7) =
    After-then IsPid IsSysCall (ok_or (pid_new a1) _) _ (pid_new-After a1 _) (λ x_pid h_pid. h_pid)
decode-IsSysCall SysCallNumber.net_get_info (a1, a2, a3, a4, a5, a6, a7) = tt
decode-IsSysCall SysCallNumber.wait_event (a1, a2, a3, a4, a5, a6, a7) = tt
decode-IsSysCall SysCallNumber.poll_event (a1, a2, a3, a4, a5, a6, a7) = tt
decode-IsSysCall SysCallNumber.post_event (a1, a2, a3, a4, a5, a6, a7) =
    After-then IsPid IsSysCall (ok_or (pid_new a1) _) _ (pid_new-After a1 _) (λ x_pid h_pid. h_pid)
decode-IsSysCall SysCallNumber.get_binary_name (a1, a2, a3, a4, a5, a6, a7) = tt
decode-IsSysCall SysCallNumber.acquire_display (a1, a2, a3, a4, a5, a6, a7) = tt
decode-IsSysCall SysCallNumber.release_display (a1, a2, a3, a4, a5, a6, a7) = tt
decode-IsSysCall SysCallNumber.acquire_input_focus (a1, a2, a3, a4, a5, a6, a7) =
    (cut_to_word a1, cut_to_word a2, cut_to_word a3, cut_to_word a4)
decode-IsSysCall SysCallNumber.release_input_focus (a1, a2, a3, a4, a5, a6, a7) = tt
decode-IsSysCall SysCallNumber.invalid (a1, a2, a3, a4, a5, a6, a7) = tt

-- Whatever eight words a process passes, a syscall that the kernel decodes from them keeps the
-- promises of its types: process ids, sizes and addresses are not 0, flags are defined ones, and
-- u32 and u8 values are in range.
pub from_args-IsSysCall : (words : Words8) → After IsSysCall (from_args words)
unfolding from_args
from_args-IsSysCall (a0, a1, a2, a3, a4, a5, a6, a7) =
    decode-IsSysCall (from a0) (a1, a2, a3, a4, a5, a6, a7)
