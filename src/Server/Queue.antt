-- ===== src/Server/Queue.antt =====
-- The operations on a server's queue: `impl Server` of xous/kernel/src/server.rs. The source
-- indexes the queue only within its length, so the default of `slot` is never read there; a
-- `u8` generation wraps at 256.
pub mod Sender
pub mod Take
pub mod Invariant
pub mod Search
pub mod Receive
pub mod Empty
pub mod Append
pub mod Send
pub mod Quiet
pub mod Respond
pub mod Fresh
pub mod Answer
pub mod Discard
mod Tests
use mathlib.Core.Option
use mathlib.Core.Option.{Option, some}
use beet_core.Common.{
  ℕ, zero, suc, ◌+◌, ◌-◌, ◌*◌, ◌/◌, ◌%◌, ◌^◌, Bool, true, false, List, [], ◌∷◌, map, leb, ltb, ◌==◌,
  ◌&&◌, ◌||◌, not, if◌then◌else◌, length, get_or, get_elem?, set, replicate,
}
use beet_core.Abi.Error.{Error, bad_address, invalid_arguments, server_queue_full, memory_in_use}
use beet_core.Abi.Outcome.{Outcome, ok, err, panic, ◌>>=◌, ok_or}
use beet_core.Abi.Message.{
  MemoryRange, MemoryMessage, ScalarMessage, Message, mutable_borrow, borrow, move, scalar,
  blocking_scalar, Envelope, new_nonzero, get_or_zero,
}
use beet_core.Abi.Result.{Sid}
use beet_core.Server.Types.{
  Args, QueuedMessage, empty, blocking_scalar_message, scalar_message, memory_message_send,
  memory_message_ro_lend, memory_message_rw_lend, memory_message_ro_lend_terminated,
  memory_message_rw_lend_terminated, blocking_scalar_terminated, waiting_return_memory,
  waiting_forget, waiting_return_scalar, waiting_return_scalar_terminated, WaitingMessage, Range,
  Server,
}
use beet_core.Server.Permissions.{default, is_empty, add}
use Sender.{sender_word}

abbrev pub slot : List QueuedMessage → ℕ → QueuedMessage
slot queue i = get_or queue i empty

abbrev pub is_empty_slot : QueuedMessage → Bool
is_empty_slot empty = true
is_empty_slot _ = false

-- `if i >= len { i = 0 }`
abbrev pub wrap : ℕ → ℕ → ℕ
wrap len i = if leb len i then 0 else i

-- The first empty slot among `rounds` slots from `i` on.
unfoldable pub find_empty_in : List QueuedMessage → ℕ → ℕ → Option ℕ
find_empty_in queue i zero = Option.none
find_empty_in queue i (suc rounds) =
    let rest = find_empty_in queue (i + 1) rounds in
    if is_empty_slot (slot queue i) then some i else rest

abbrev or_else : Option ℕ → Option ℕ → Option ℕ
or_else Option.none other = other
or_else (some i) other = some i

-- `find_empty_slot`: the range from `queue_head` chained with the range before it.
unfoldable pub find_empty_slot : Server → Option (ℕ × Server)
find_empty_slot self =
    elim (or_else (find_empty_in queue queue_head (len - queue_head))
      (find_empty_in queue 0 queue_head)) [
        | Option.none ↦ Option.none
        | some i ↦ some (i, record self { queue_head = wrap len (i + 1) })
      ]
  where
    open self use {queue, queue_head}

    len : ℕ
    len = length queue

abbrev pub args_of : ScalarMessage → Args
args_of m = (m.arg1, m.arg2, m.arg3, m.arg4)

-- `MemoryAddress::new(addr).ok_or(BadAddress)?` and `MemorySize::new(len).ok_or(InvalidArguments)?`
abbrev pub checked : {A : Type 0} → MemoryRange → (ℕ → ℕ → Outcome A) → Outcome A
checked buf k = do
  addr ← ok_or (new_nonzero buf.addr) bad_address
  size ← ok_or (new_nonzero buf.size) invalid_arguments
  k addr size

-- The entry that `queue_message` stores.
unfoldable pub to_entry : ℕ → ℕ → ℕ → Message → Option ℕ → Outcome QueuedMessage
to_entry pid tid idx (scalar m) original_address = ok (scalar_message pid idx m.id (args_of m))
to_entry pid tid idx (blocking_scalar m) original_address =
    ok (blocking_scalar_message pid (tid % 256) idx m.id (args_of m))
to_entry pid tid idx (move m) original_address = checked m.buf λ addr size.
    ok (memory_message_send pid idx m.id addr size (get_or_zero m.offset) (get_or_zero m.valid))
to_entry pid tid idx (mutable_borrow m) original_address = do
  client ← ok_or original_address invalid_arguments
  checked m.buf λ addr size. ok (
      memory_message_rw_lend pid (tid % 256) idx m.id client addr size (get_or_zero m.offset)
        (get_or_zero m.valid))
to_entry pid tid idx (borrow m) original_address = do
  client ← ok_or original_address invalid_arguments
  checked m.buf λ addr size. ok (
      memory_message_ro_lend pid (tid % 256) idx m.id client addr size (get_or_zero m.offset)
        (get_or_zero m.valid))

-- The rest of `queue_message`, once the slot and the entry are there. The assertion on the
-- generations is a panic.
unfoldable pub store_entry : Server → ℕ → Outcome QueuedMessage → Server × Outcome ℕ
store_entry self i (err e) = (self, err e)
store_entry self i panic = (self, panic)
store_entry self i (ok entry) =
    (stored, if stored.tail_generation == self.head_generation then panic else ok i)
  where
    stored : Server
    stored = record self {
      queue = set self.queue i entry;
      empty_count = self.empty_count - 1;
      tail_generation = (self.tail_generation + 1) % 256;
    }

-- `queue_message`, with what `self` is afterwards.
unfoldable pub queue_message : Server → ℕ → ℕ → Message → Option ℕ → Server × Outcome ℕ
queue_message self pid tid message original_address = elim (find_empty_slot self) [
  | Option.none ↦ (self, err server_queue_full)
  | some (i, found) ↦
      store_entry found i (to_entry pid tid self.tail_generation message original_address)
]

-- The entry that `queue_response` stores.
unfoldable pub to_response : ℕ → ℕ → Message → Option ℕ → Outcome QueuedMessage
to_response pid tid (scalar m) client_address = ok (waiting_return_scalar pid (tid % 256))
to_response pid tid (blocking_scalar m) client_address = ok (waiting_return_scalar pid (tid % 256))
to_response pid tid (move m) client_address =
    checked m.buf λ addr size. ok (waiting_forget addr size)
to_response pid tid (mutable_borrow m) client_address = do
  client ← ok_or client_address invalid_arguments
  checked m.buf λ addr size. ok (waiting_return_memory pid (tid % 256) addr client size)
to_response pid tid (borrow m) client_address = do
  client ← ok_or client_address invalid_arguments
  checked m.buf λ addr size. ok (waiting_return_memory pid (tid % 256) addr client size)

unfoldable pub store_response : Server → ℕ → Outcome QueuedMessage → Server × Outcome ℕ
store_response self i (err e) = (self, err e)
store_response self i panic = (self, panic)
store_response self i (ok entry) =
    (record self { queue = set self.queue i entry; empty_count = self.empty_count - 1 }, ok i)

unfoldable pub queue_response : Server → ℕ → ℕ → Message → Option ℕ → Server × Outcome ℕ
queue_response self pid tid message client_address = elim (find_empty_slot self) [
  | Option.none ↦ (self, err server_queue_full)
  | some (i, found) ↦ store_response found i (to_response pid tid message client_address)
]
