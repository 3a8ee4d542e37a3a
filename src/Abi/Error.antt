-- ===== src/Abi/Error.antt =====
-- `enum Error` of xous/xous-rs/src/definitions.rs and its codes.
use beet_core.Common.{ℕ, ◌-◌, ◌^◌, ◌==◌, if◌then◌else◌}

pub data Error : Type 0 where
  no_error bad_alignment bad_address out_of_memory memory_in_use : Error
  interrupt_not_found interrupt_in_use invalid_string server_exists server_not_found : Error
  process_not_found process_not_child process_terminated timeout internal_error : Error
  server_queue_full thread_not_available unhandled_syscall invalid_syscall : Error
  share_violation invalid_thread invalid_pid unknown_error access_denied again : Error
  double_free debug_in_progress invalid_limit parse_error invalid_physical_address : Error
  invalid_arguments : Error

-- `usize::MAX` of the 64-bit target
abbrev pub usize_max : ℕ
usize_max = 2 ^ 64 - 1

unfoldable pub from_usize : ℕ → Error
from_usize arg =
    if arg == 0
    then no_error
    else if arg == 1
    then bad_alignment
    else if arg == 2
    then bad_address
    else if arg == 3
    then out_of_memory
    else if arg == 4
    then memory_in_use
    else if arg == 5
    then interrupt_not_found
    else if arg == 6
    then interrupt_in_use
    else if arg == 7
    then invalid_string
    else if arg == 8
    then server_exists
    else if arg == 9
    then server_not_found
    else if arg == 10
    then process_not_found
    else if arg == 11
    then process_not_child
    else if arg == 12
    then process_terminated
    else if arg == 13
    then timeout
    else if arg == 14
    then internal_error
    else if arg == 15
    then server_queue_full
    else if arg == 16
    then thread_not_available
    else if arg == 17
    then unhandled_syscall
    else if arg == 18
    then invalid_syscall
    else if arg == 19
    then share_violation
    else if arg == 20
    then invalid_thread
    else if arg == 21
    then invalid_pid
    else if arg == 23
    then access_denied
    else if arg == 24
    then again
    else if arg == 25
    then double_free
    else if arg == 26
    then debug_in_progress
    else if arg == 27
    then invalid_limit
    else if arg == 28
    then parse_error
    else if arg == 29
    then invalid_physical_address
    else if arg == 30
    then invalid_arguments
    else unknown_error

unfoldable pub to_usize : Error → ℕ
to_usize no_error = 0
to_usize bad_alignment = 1
to_usize bad_address = 2
to_usize out_of_memory = 3
to_usize memory_in_use = 4
to_usize interrupt_not_found = 5
to_usize interrupt_in_use = 6
to_usize invalid_string = 7
to_usize server_exists = 8
to_usize server_not_found = 9
to_usize process_not_found = 10
to_usize process_not_child = 11
to_usize process_terminated = 12
to_usize timeout = 13
to_usize internal_error = 14
to_usize server_queue_full = 15
to_usize thread_not_available = 16
to_usize unhandled_syscall = 17
to_usize invalid_syscall = 18
to_usize share_violation = 19
to_usize invalid_thread = 20
to_usize invalid_pid = 21
to_usize unknown_error = usize_max
to_usize access_denied = 23
to_usize again = 24
to_usize double_free = 25
to_usize debug_in_progress = 26
to_usize invalid_limit = 27
to_usize parse_error = 28
to_usize invalid_physical_address = 29
to_usize invalid_arguments = 30
