-- ===== src/Lib.antt =====
-- Verification of the core of BeetOS: the message queues of the Xous kernel's servers, the words in
-- which syscalls, results, errors and messages cross the kernel boundary, the kernel's page tracker,
-- interrupt table and scheduler, and the in-memory filesystem.
--
-- The parts and how they interact. A process sends a message by a syscall whose registers
-- xous/xous-rs encodes. The kernel decodes it and either hands it to a thread that waits in the
-- server (`Server.ready_threads`) or stores it in the server's queue; a thread of the server
-- receives it later, and the answer goes by the sender word to the slot of the queue that remembers
-- who waits. The scheduler keeps the ready threads in a circular list for each priority.
-- The memory manager knows who owns each physical page and which pages are free, dirty or zeroed.
-- Permissions decide which message ids a connection may send. Interrupts are handled by the kernel
-- or call back into the process that claimed the line. The filesystem service keeps its files in a
-- static table.
--
-- Which file models what:
--   Common        lists, tests and words over native numbers.
--   Abi/Error     xous/xous-rs/src/definitions.rs, `Error::from_usize` and `to_usize`.
--   Abi/Outcome   `Result<T, Error>` of an operation that can also panic.
--   Abi/Message   xous/xous-rs/src/definitions/messages/mod.rs and envelope.rs.
--   Abi/Result    xous/xous-rs/src/definitions.rs, `Result::to_args` and `from_args`.
--   Server/Types        the types of xous/kernel/src/server.rs.
--   Server/Permissions  `MessagePermissions::add` and `is_permitted` there.
--   Server/Ready        `take_available_thread`, `return_available_thread` and `park_thread` there.
--   Server/Queue        `find_empty_slot`, `queue_message` and `queue_response` there.
--   Server/Queue/Take   `take_next_message`, `take_waiting_message`, `discard_messages_for_pid`
--                       and `init` there.
--   Server/Queue/Sender the conversions of `SenderID` there, and `Sender::pid` of
--                       xous/xous-rs/src/definitions/messages/sender.rs.
--   Irq           xous/kernel/src/irq.rs, and `IrqNumber::try_from` of
--                 xous/xous-rs/src/arch/aarch64/irq.rs.
--   Scheduler     xous/kernel/src/scheduler.rs, `ready_thread`, `park_thread` and `yield_thread`.
--   Memory        xous/kernel/src/mem.rs, `alloc_single_page`, `add_free_pages` and
--                 `subtract_free_pages`, over the types of Memory/Types and the bitmaps of
--                 Memory/Bitmap. Memory/Range has `alloc_range`, `alloc_range_aligned`, the zeroer's
--                 `take_dirty_pages`, the start-up and the counters;
--                 Memory/Claim has `claim_release_move`, `set_pages_to_zeroed`, the lookup of an address and
--                 `release_all_memory_for_process`.
--   Process       the connection map of xous/kernel/src/process.rs, and `disconnect_from_server` of
--                 xous/kernel/src/services.rs.
--   Syscall/Call    `SysCall` of xous/xous-rs/src/syscall.rs, Syscall/Number its numbers,
--                   Syscall/Kinds and Syscall/Words the small types of its arguments in
--                   xous/xous-rs/src/definitions.rs.
--   Syscall/Encode  `as_args` there, Syscall/Decode `from_args`, Syscall/Query the questions about a
--                   call.
--   RamFs         os/fs/src/ramfs.rs, of which xous/kernel/src/shell/ramfs.rs is a copy; RamFs/Path
--                 has its byte strings and `normalize_path`.
-- The child modules named Laws, Keeps, RoundTrip, After, Invariant, Receive, Answer, Send, Respond,
-- Discard, Controller, Lines, Stable,
-- Fresh, Search, Empty, Append, Quiet, Heads, Highest, Links, Ring, Names, Contents, Unique,
-- Remove, Valid, Grant, Choose, Single, Runs, Freed, Acts, Released, Boot,
-- Zeroer, Parts, Read, Typed, Safe
-- and Replace, with Scheduler/Ready, Scheduler/Yield and
-- Scheduler/Park, hold proofs; those named Tests hold runs at
-- concrete inputs.
--
-- How the code corresponds. An operation that takes `&mut self` takes the state and returns it with
-- its result. A failed `assert!`, `unwrap`, `expect` or index is `panic`. Words are native numbers;
-- the generations, which are u8, wrap by `% 256`, and casts to u32 and u8 take the remainder.
-- Threads, processes and addresses are numbers, and a non-zero type is an `Option` where the code
-- makes one. The build modelled is the 64-bit kernel (`cfg(beetos)`).
--
-- A queue stands for the list of its waiting messages, the oldest first (`Fifo` of
-- Server/Queue/Invariant): the generations of their slots count up from the head's, and no other
-- slot has a generation. Loops over a queue or a word take a number of rounds, as many as the queue
-- has slots and as the word has bits, since the loops of the code end when they come round. The
-- ready threads of a priority stand for a list from the head on (`Queue` of Scheduler/Ready).
--
-- The constants that a platform and a page size fix are a `Layout` of Memory/Types, which also holds
-- the searches of the `bitvec` crate; what is relied on of them is `IsBitvec` of Memory/Valid, and
-- Memory/Tests has searches that keep it. Whether a process may use an address is an argument of
-- `claim_release_move`. The entries that the memory of a new server's queue holds are an argument of
-- `init`. What `broadcast_event` sends is a list in the state. The kernel is built with
-- overflow checks, so a sum, a difference or a shift out of range is a panic.
--
-- Not modelled: `activate_current` of the scheduler, the rest of the processes and services,
-- syscall dispatch of the kernel; the virtual mappings of its memory manager and of the MMU, which
-- are writes through raw pointers; the wrappers of xous-rs that build one syscall each;
-- `Server::destroy`, which works on all of the services; logging; the ports, drivers and loader,
-- which are device and page-table writes; the other services and the applications. The filesystem's
-- paths are taken to be ASCII, where `str::trim` strips six characters.
pub mod Common
pub mod Abi
pub mod Server
pub mod RamFs
pub mod Irq
pub mod Scheduler
pub mod Memory
pub mod Process
pub mod Syscall
