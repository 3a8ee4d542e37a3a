-- ===== src/Syscall/Tests.antt =====
-- Syscalls of xous/xous-rs/src/syscall.rs at concrete words.
use beet_core.Common.{◌^◌, ◌≡◌, ◌≢◌, refl, arith, none, some}
use beet_core.Abi.Error.{bad_address, invalid_pid}
use beet_core.Abi.Outcome.{ok, err, panic}
use beet_core.Abi.After.{After}
use beet_core.Abi.Message.{
  MemoryRange, MemoryMessage, borrow, new_nonzero, try_from, scalar_from_usize,
}
use beet_core.Abi.RoundTrip.{IsMemoryMessage}
use beet_core.Syscall.Number.{from}
use beet_core.Syscall.Call.{SysCall}
use beet_core.Syscall.Encode.{as_args}
use beet_core.Syscall.Decode.{
  from_args, decode, send_decoded, to_u32, pid_new, pid_from_usize, range_new,
}
use beet_core.Syscall.Query.{memory, replace_memory}
use beet_core.Syscall.RoundTrip.{from_args-as_args}
use beet_core.Syscall.Safe.{from_args-no_panic}
use beet_core.Syscall.Replace.{SameKind, in_place_of, memory-replace_memory}

abbrev lent : MemoryMessage
lent = record {
  id = 7;
  buf = record { addr = 0x4000; size = 0x1000 };
  offset = none;
  valid = some 12;
}

lent-IsMemoryMessage : IsMemoryMessage lent
lent-IsMemoryMessage = record {
  addr_nonzero = omega arith;
  size_nonzero = omega arith;
  offset_nonzero = tt;
  valid_nonzero = omega arith;
}

abbrev lending : SysCall
lending = SysCall.send_message 3 (borrow lent)

from_args-as_args_example : from_args (as_args lending) ≡ ok lending
from_args-as_args_example = from_args-as_args lending (omega arith, lent-IsMemoryMessage)

from_args-no_panic_example : from_args (16, 3, 4, 1, 2, 3, 4, 5) ≢ panic
from_args-no_panic_example = from_args-no_panic 16 3 4 1 2 3 4 5 (omega arith)

abbrev other_page : MemoryRange
other_page = record { addr = 0x8000; size = 0x1000 }

memory-replace_memory_example :
    SameKind (replace_memory lending other_page) lending
    × (memory (replace_memory lending other_page) ≡ in_place_of (memory lending) other_page)
memory-replace_memory_example = memory-replace_memory lending other_page

-- A connection id that is not a u32 makes the decoding of a message panic.
big_connection_id : from_args (16, 2 ^ 32, 4, 1, 0, 0, 0, 0) ≡ panic
unfolding from_args from decode send_decoded try_from scalar_from_usize to_u32
big_connection_id = refl

-- A process id is cut to its low byte, except where the physical address of another process' memory
-- is asked for.
cut_pid : from_args (53, 257, 9, 0, 0, 0, 0, 0) ≡ ok (SysCall.terminate_pid 1 9)
unfolding from_args from decode pid_new new_nonzero
cut_pid = refl

refused_pid : from_args (42, 257, 4096, 0, 0, 0, 0, 0) ≡ err invalid_pid
unfolding from_args from decode pid_from_usize
refused_pid = refl

-- There is no empty range, and no call 9.
empty_range : from_args (46, 4096, 0, 0, 0, 0, 0, 0) ≡ err bad_address
unfolding from_args from decode range_new new_nonzero
empty_range = refl

unused_number : from_args (9, 1, 2, 3, 4, 5, 6, 7) ≡ ok (SysCall.invalid 1 2 3 4 5 6 7)
unfolding from_args from decode
unused_number = refl
