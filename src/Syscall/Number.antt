-- ===== src/Syscall/Number.antt =====
-- `enum SysCallNumber` of xous/xous-rs/src/syscall.rs.
use beet_core.Common.{ℕ, ◌==◌, if◌then◌else◌, ◌≡◌, refl}

pub data SysCallNumber : Type 0 where
  map_memory yield set_thread_priority claim_interrupt free_interrupt : SysCallNumber
  futex_wait futex_wake increase_heap update_memory_flags create_server_with_address : SysCallNumber
  receive_message send_message connect create_thread unmap_memory : SysCallNumber
  return_memory create_process terminate_process shutdown try_send_message : SysCallNumber
  try_connect return_scalar1 return_scalar2 try_receive_message create_server : SysCallNumber
  connect_for_process create_server_id get_thread_id get_process_id destroy_server : SysCallNumber
  disconnect join_thread get_remote_process_id virt_to_phys return_scalar5 : SysCallNumber
  virt_to_phys_pid get_app_id allow_messages_sid allow_messages_cid invalidate_cache : SysCallNumber
  power_management app_id_to_pid mirror_memory_to_pid debug_command get_system_stats : SysCallNumber
  terminate_pid register_event_handler append_panic_message get_panic_message spawn_by_name :
      SysCallNumber
  wait_process spawn_by_name_with_args net_get_info wait_event poll_event : SysCallNumber
  post_event get_binary_name acquire_display release_display acquire_input_focus : SysCallNumber
  release_input_focus invalid : SysCallNumber

-- `self as usize`
unfoldable pub as_usize : SysCallNumber → ℕ
as_usize map_memory = 2
as_usize yield = 3
as_usize set_thread_priority = 4
as_usize claim_interrupt = 5
as_usize free_interrupt = 6
as_usize futex_wait = 7
as_usize futex_wake = 8
as_usize increase_heap = 10
as_usize update_memory_flags = 12
as_usize create_server_with_address = 14
as_usize receive_message = 15
as_usize send_message = 16
as_usize connect = 17
as_usize create_thread = 18
as_usize unmap_memory = 19
as_usize return_memory = 20
as_usize create_process = 21
as_usize terminate_process = 22
as_usize shutdown = 23
as_usize try_send_message = 24
as_usize try_connect = 25
as_usize return_scalar1 = 26
as_usize return_scalar2 = 27
as_usize try_receive_message = 28
as_usize create_server = 29
as_usize connect_for_process = 30
as_usize create_server_id = 31
as_usize get_thread_id = 32
as_usize get_process_id = 33
as_usize destroy_server = 34
as_usize disconnect = 35
as_usize join_thread = 36
as_usize get_remote_process_id = 37
as_usize virt_to_phys = 39
as_usize return_scalar5 = 40
as_usize virt_to_phys_pid = 42
as_usize get_app_id = 43
as_usize allow_messages_sid = 44
as_usize allow_messages_cid = 45
as_usize invalidate_cache = 46
as_usize power_management = 47
as_usize app_id_to_pid = 48
as_usize mirror_memory_to_pid = 50
as_usize debug_command = 51
as_usize get_system_stats = 52
as_usize terminate_pid = 53
as_usize register_event_handler = 54
as_usize append_panic_message = 55
as_usize get_panic_message = 56
as_usize spawn_by_name = 57
as_usize wait_process = 58
as_usize spawn_by_name_with_args = 59
as_usize net_get_info = 60
as_usize wait_event = 61
as_usize poll_event = 62
as_usize post_event = 63
as_usize get_binary_name = 64
as_usize acquire_display = 65
as_usize release_display = 66
as_usize acquire_input_focus = 67
as_usize release_input_focus = 68
as_usize invalid = 69

-- `SysCallNumber::from`
unfoldable pub from : ℕ → SysCallNumber
from val =
    if val == 2
    then map_memory
    else if val == 3
    then yield
    else if val == 4
    then set_thread_priority
    else if val == 5
    then claim_interrupt
    else if val == 6
    then free_interrupt
    else if val == 7
    then futex_wait
    else if val == 8
    then futex_wake
    else if val == 10
    then increase_heap
    else if val == 12
    then update_memory_flags
    else if val == 14
    then create_server_with_address
    else if val == 15
    then receive_message
    else if val == 16
    then send_message
    else if val == 17
    then connect
    else if val == 18
    then create_thread
    else if val == 19
    then unmap_memory
    else if val == 20
    then return_memory
    else if val == 21
    then create_process
    else if val == 22
    then terminate_process
    else if val == 23
    then shutdown
    else if val == 24
    then try_send_message
    else if val == 25
    then try_connect
    else if val == 26
    then return_scalar1
    else if val == 27
    then return_scalar2
    else if val == 28
    then try_receive_message
    else if val == 29
    then create_server
    else if val == 30
    then connect_for_process
    else if val == 31
    then create_server_id
    else if val == 32
    then get_thread_id
    else if val == 33
    then get_process_id
    else if val == 34
    then destroy_server
    else if val == 35
    then disconnect
    else if val == 36
    then join_thread
    else if val == 37
    then get_remote_process_id
    else if val == 39
    then virt_to_phys
    else if val == 40
    then return_scalar5
    else if val == 42
    then virt_to_phys_pid
    else if val == 43
    then get_app_id
    else if val == 44
    then allow_messages_sid
    else if val == 45
    then allow_messages_cid
    else if val == 46
    then invalidate_cache
    else if val == 47
    then power_management
    else if val == 48
    then app_id_to_pid
    else if val == 50
    then mirror_memory_to_pid
    else if val == 51
    then debug_command
    else if val == 52
    then get_system_stats
    else if val == 53
    then terminate_pid
    else if val == 54
    then register_event_handler
    else if val == 55
    then append_panic_message
    else if val == 56
    then get_panic_message
    else if val == 57
    then spawn_by_name
    else if val == 58
    then wait_process
    else if val == 59
    then spawn_by_name_with_args
    else if val == 60
    then net_get_info
    else if val == 61
    then wait_event
    else if val == 62
    then poll_event
    else if val == 63
    then post_event
    else if val == 64
    then get_binary_name
    else if val == 65
    then acquire_display
    else if val == 66
    then release_display
    else if val == 67
    then acquire_input_focus
    else if val == 68
    then release_input_focus
    else invalid

pub from-as_usize : (number : SysCallNumber) → from (as_usize number) ≡ number
unfolding from as_usize
from-as_usize map_memory = refl
from-as_usize yield = refl
from-as_usize set_thread_priority = refl
from-as_usize claim_interrupt = refl
from-as_usize free_interrupt = refl
from-as_usize futex_wait = refl
from-as_usize futex_wake = refl
from-as_usize increase_heap = refl
from-as_usize update_memory_flags = refl
from-as_usize create_server_with_address = refl
from-as_usize receive_message = refl
from-as_usize send_message = refl
from-as_usize connect = refl
from-as_usize create_thread = refl
from-as_usize unmap_memory = refl
from-as_usize return_memory = refl
from-as_usize create_process = refl
from-as_usize terminate_process = refl
from-as_usize shutdown = refl
from-as_usize try_send_message = refl
from-as_usize try_connect = refl
from-as_usize return_scalar1 = refl
from-as_usize return_scalar2 = refl
from-as_usize try_receive_message = refl
from-as_usize create_server = refl
from-as_usize connect_for_process = refl
from-as_usize create_server_id = refl
from-as_usize get_thread_id = refl
from-as_usize get_process_id = refl
from-as_usize destroy_server = refl
from-as_usize disconnect = refl
from-as_usize join_thread = refl
from-as_usize get_remote_process_id = refl
from-as_usize virt_to_phys = refl
from-as_usize return_scalar5 = refl
from-as_usize virt_to_phys_pid = refl
from-as_usize get_app_id = refl
from-as_usize allow_messages_sid = refl
from-as_usize allow_messages_cid = refl
from-as_usize invalidate_cache = refl
from-as_usize power_management = refl
from-as_usize app_id_to_pid = refl
from-as_usize mirror_memory_to_pid = refl
from-as_usize debug_command = refl
from-as_usize get_system_stats = refl
from-as_usize terminate_pid = refl
from-as_usize register_event_handler = refl
from-as_usize append_panic_message = refl
from-as_usize get_panic_message = refl
from-as_usize spawn_by_name = refl
from-as_usize wait_process = refl
from-as_usize spawn_by_name_with_args = refl
from-as_usize net_get_info = refl
from-as_usize wait_event = refl
from-as_usize poll_event = refl
from-as_usize post_event = refl
from-as_usize get_binary_name = refl
from-as_usize acquire_display = refl
from-as_usize release_display = refl
from-as_usize acquire_input_focus = refl
from-as_usize release_input_focus = refl
from-as_usize invalid = refl
