-- ===== src/Syscall/Query.antt =====
-- The questions that the kernel asks about a syscall, at the end of xous/xous-rs/src/syscall.rs.
use beet_core.Common.{Bool, true, false, not, Option, none, some}
use beet_core.Abi.Message.{
  MemoryRange, Message, mutable_borrow, borrow, move, scalar, blocking_scalar, is_blocking,
}
use beet_core.Syscall.Call.{SysCall}

-- `matches!(msg, Message::Move(_) | Message::Borrow(_) | Message::MutableBorrow(_))` and its parts
abbrev message_has_memory : Message → Bool
message_has_memory (mutable_borrow mm) = true
message_has_memory (borrow mm) = true
message_has_memory (move mm) = true
message_has_memory _ = false

abbrev message_is_move : Message → Bool
message_is_move (move mm) = true
message_is_move _ = false

abbrev message_is_borrow : Message → Bool
message_is_borrow (borrow mm) = true
message_is_borrow _ = false

abbrev message_is_mutableborrow : Message → Bool
message_is_mutableborrow (mutable_borrow mm) = true
message_is_mutableborrow _ = false

unfoldable pub has_memory : SysCall → Bool
has_memory (SysCall.try_send_message cid m) = message_has_memory m
has_memory (SysCall.send_message cid m) = message_has_memory m
has_memory (SysCall.return_memory sender buf offset valid) = true
has_memory _ = false

unfoldable pub is_move : SysCall → Bool
is_move (SysCall.try_send_message cid m) = message_is_move m
is_move (SysCall.send_message cid m) = message_is_move m
is_move _ = false

unfoldable pub is_borrow : SysCall → Bool
is_borrow (SysCall.try_send_message cid m) = message_is_borrow m
is_borrow (SysCall.send_message cid m) = message_is_borrow m
is_borrow _ = false

unfoldable pub is_mutableborrow : SysCall → Bool
is_mutableborrow (SysCall.try_send_message cid m) = message_is_mutableborrow m
is_mutableborrow (SysCall.send_message cid m) = message_is_mutableborrow m
is_mutableborrow _ = false

unfoldable pub is_return_memory : SysCall → Bool
is_return_memory (SysCall.return_memory sender buf offset valid) = true
is_return_memory _ = false

-- The memory of a message, and the message with other memory
abbrev message_buf : Message → Option MemoryRange
message_buf (mutable_borrow mm) = some mm.buf
message_buf (borrow mm) = some mm.buf
message_buf (move mm) = some mm.buf
message_buf _ = none

abbrev message_with_buf : Message → MemoryRange → Message
message_with_buf (mutable_borrow mm) new = mutable_borrow (record mm { buf = new })
message_with_buf (borrow mm) new = borrow (record mm { buf = new })
message_with_buf (move mm) new = move (record mm { buf = new })
message_with_buf (scalar sc) new = scalar sc
message_with_buf (blocking_scalar sc) new = blocking_scalar sc

unfoldable pub memory : SysCall → Option MemoryRange
memory (SysCall.try_send_message cid m) = message_buf m
memory (SysCall.send_message cid m) = message_buf m
memory (SysCall.return_memory sender range offset valid) = some range
memory (SysCall.flush_cache range op) = some range
memory _ = none

unfoldable pub replace_memory : SysCall → MemoryRange → SysCall
replace_memory (SysCall.try_send_message cid m) new =
    SysCall.try_send_message cid (message_with_buf m new)
replace_memory (SysCall.send_message cid m) new = SysCall.send_message cid (message_with_buf m new)
replace_memory (SysCall.return_memory sender range offset valid) new =
    SysCall.return_memory sender new offset valid
replace_memory (SysCall.flush_cache range op) new = SysCall.flush_cache new op
replace_memory call new = call

unfoldable pub can_call_from_interrupt : SysCall → Bool
can_call_from_interrupt (SysCall.try_send_message cid m) = not (is_blocking m)
can_call_from_interrupt (SysCall.try_connect sid) = true
can_call_from_interrupt (SysCall.free_interrupt irq) = true
can_call_from_interrupt (SysCall.claim_interrupt irq function argument) = true
can_call_from_interrupt (SysCall.try_receive_message sid) = true
can_call_from_interrupt (SysCall.return_scalar5 sender arg1 arg2 arg3 arg4 arg5) = true
can_call_from_interrupt (SysCall.return_scalar2 sender arg1 arg2) = true
can_call_from_interrupt (SysCall.return_scalar1 sender arg1) = true
can_call_from_interrupt (SysCall.return_memory sender buf offset valid) = true
can_call_from_interrupt (SysCall.map_memory phys virt size flags) = true
can_call_from_interrupt (SysCall.unmap_memory range) = true
can_call_from_interrupt (SysCall.post_event pid bits) = true
can_call_from_interrupt SysCall.poll_event = true
can_call_from_interrupt _ = false
