-- ===== src/Syscall/Replace.antt =====
-- What `replace_memory` of xous/xous-rs/src/syscall.rs keeps and what it changes.
use beet_core.Common.{◌≡◌, refl, Option, none, some}
use beet_core.Abi.Message.{
  MemoryRange, mutable_borrow, borrow, move, scalar, blocking_scalar, is_blocking,
}
use beet_core.Syscall.Call.{SysCall}
use beet_core.Syscall.Query.{
  has_memory, is_move, is_borrow, is_mutableborrow, is_return_memory, memory, replace_memory,
  can_call_from_interrupt,
}

-- The new memory, where there is memory.
abbrev pub in_place_of : Option MemoryRange → MemoryRange → Option MemoryRange
in_place_of none new = none
in_place_of (some old) new = some new

-- Two syscalls that answer the kernel's questions alike.
pub record SameKind (a b : SysCall) : Type 0 where
  pub memory_eq : has_memory a ≡ has_memory b
  pub move_eq : is_move a ≡ is_move b
  pub borrow_eq : is_borrow a ≡ is_borrow b
  pub mutableborrow_eq : is_mutableborrow a ≡ is_mutableborrow b
  pub return_eq : is_return_memory a ≡ is_return_memory b
  pub interrupt_eq : can_call_from_interrupt a ≡ can_call_from_interrupt b

abbrev Replaced : SysCall → MemoryRange → Type 0
Replaced call new =
    SameKind (replace_memory call new) call
    × (memory (replace_memory call new) ≡ in_place_of (memory call) new)

Replaced-refl :
    (call : SysCall) (new : MemoryRange)
    → replace_memory call new ≡ call
    → memory call ≡ none
    → Replaced call new
Replaced-refl call new e m = (
  record {
    memory_eq = rw e refl;
    move_eq = rw e refl;
    borrow_eq = rw e refl;
    mutableborrow_eq = rw e refl;
    return_eq = rw e refl;
    interrupt_eq = rw e refl;
  },
  rw e (rw m refl),
)

-- With its memory replaced a syscall has the new memory if it had any, and it is the same kind of
-- call: every other question about it has the same answer.
pub memory-replace_memory : (call : SysCall) (new : MemoryRange) → Replaced call new
unfolding has_memory is_move is_borrow is_mutableborrow is_return_memory memory replace_memory
    can_call_from_interrupt is_blocking
memory-replace_memory (SysCall.try_send_message cid (mutable_borrow x)) new = (
  record {
    memory_eq = refl;
    move_eq = refl;
    borrow_eq = refl;
    mutableborrow_eq = refl;
    return_eq = refl;
    interrupt_eq = refl;
  },
  refl,
)
memory-replace_memory (SysCall.try_send_message cid (borrow x)) new = (
  record {
    memory_eq = refl;
    move_eq = refl;
    borrow_eq = refl;
    mutableborrow_eq = refl;
    return_eq = refl;
    interrupt_eq = refl;
  },
  refl,
)
memory-replace_memory (SysCall.try_send_message cid (move x)) new = (
  record {
    memory_eq = refl;
    move_eq = refl;
    borrow_eq = refl;
    mutableborrow_eq = refl;
    return_eq = refl;
    interrupt_eq = refl;
  },
  refl,
)
memory-replace_memory (SysCall.try_send_message cid (scalar x)) new = (
  record {
    memory_eq = refl;
    move_eq = refl;
    borrow_eq = refl;
    mutableborrow_eq = refl;
    return_eq = refl;
    interrupt_eq = refl;
  },
  refl,
)
memory-replace_memory (SysCall.try_send_message cid (blocking_scalar x)) new = (
  record {
    memory_eq = refl;
    move_eq = refl;
    borrow_eq = refl;
    mutableborrow_eq = refl;
    return_eq = refl;
    interrupt_eq = refl;
  },
  refl,
)
memory-replace_memory (SysCall.send_message cid (mutable_borrow x)) new = (
  record {
    memory_eq = refl;
    move_eq = refl;
    borrow_eq = refl;
    mutableborrow_eq = refl;
    return_eq = refl;
    interrupt_eq = refl;
  },
  refl,
)
memory-replace_memory (SysCall.send_message cid (borrow x)) new = (
  record {
    memory_eq = refl;
    move_eq = refl;
    borrow_eq = refl;
    mutableborrow_eq = refl;
    return_eq = refl;
    interrupt_eq = refl;
  },
  refl,
)
memory-replace_memory (SysCall.send_message cid (move x)) new = (
  record {
    memory_eq = refl;
    move_eq = refl;
    borrow_eq = refl;
    mutableborrow_eq = refl;
    return_eq = refl;
    interrupt_eq = refl;
  },
  refl,
)
memory-replace_memory (SysCall.send_message cid (scalar x)) new = (
  record {
    memory_eq = refl;
    move_eq = refl;
    borrow_eq = refl;
    mutableborrow_eq = refl;
    return_eq = refl;
    interrupt_eq = refl;
  },
  refl,
)
memory-replace_memory (SysCall.send_message cid (blocking_scalar x)) new = (
  record {
    memory_eq = refl;
    move_eq = refl;
    borrow_eq = refl;
    mutableborrow_eq = refl;
    return_eq = refl;
    interrupt_eq = refl;
  },
  refl,
)
memory-replace_memory (SysCall.return_memory sender range offset valid) new = (
  record {
    memory_eq = refl;
    move_eq = refl;
    borrow_eq = refl;
    mutableborrow_eq = refl;
    return_eq = refl;
    interrupt_eq = refl;
  },
  refl,
)
memory-replace_memory (SysCall.flush_cache range op) new = (
  record {
    memory_eq = refl;
    move_eq = refl;
    borrow_eq = refl;
    mutableborrow_eq = refl;
    return_eq = refl;
    interrupt_eq = refl;
  },
  refl,
)
memory-replace_memory call new = Replaced-refl call new refl refl
