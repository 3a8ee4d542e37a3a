-- ===== src/Server/Queue/Take.antt =====
-- Taking messages out of the queue: `take_next_message`, `take_waiting_message` and
-- `discard_messages_for_pid` of xous/kernel/src/server.rs.
use mathlib.Core.Option.{Option, some}
use beet_core.Common.{
  ℕ, zero, suc, ◌+◌, ◌%◌, Bool, true, List, map, ◌==◌, ◌&&◌, if◌then◌else◌, length, get_elem?, set,
}
use beet_core.Abi.Error.{bad_address, memory_in_use}
use beet_core.Abi.Outcome.{Outcome, ok, err, panic, ◌>>=◌}
use beet_core.Abi.Message.{
  MemoryRange, MemoryMessage, Message, mutable_borrow, borrow, move, scalar, blocking_scalar,
  Envelope, new_nonzero,
}
use beet_core.Abi.Result.{Sid}
use beet_core.Server.Types.{
  Args, QueuedMessage, empty, blocking_scalar_message, memory_message_send, memory_message_ro_lend,
  memory_message_rw_lend, memory_message_ro_lend_terminated, memory_message_rw_lend_terminated,
  blocking_scalar_terminated, waiting_return_memory, waiting_forget, waiting_return_scalar,
  waiting_return_scalar_terminated, WaitingMessage, Range, Server, MessagePermissions,
}
use beet_core.Server.Permissions.{default, is_empty, add}
use beet_core.Server.Queue.Sender.{sender_word}
use beet_core.Server.Queue.{slot, is_empty_slot, wrap}

-- `SenderID::new(sidx, queue_idx, Some(pid)).into()`
abbrev pub sender : ℕ → ℕ → ℕ → ℕ
sender sidx i pid = sender_word (record { sidx = sidx; idx = i; pid = some pid })

abbrev pub memory_of : ℕ → ℕ → ℕ → ℕ → ℕ → MemoryMessage
memory_of msg_id addr size offset valid = record {
  id = msg_id;
  buf = record { addr = addr; size = size };
  offset = new_nonzero offset;
  valid = new_nonzero valid;
}

abbrev pub envelope : ℕ → Message → Envelope
envelope s m = record { sender = s; body = m }

abbrev pub plain : ℕ → Args → Message
plain msg_id (a, b, c, d) = scalar (record { id = msg_id; arg1 = a; arg2 = b; arg3 = c; arg4 = d })

abbrev pub blocking : ℕ → Args → Message
blocking msg_id (a, b, c, d) =
    blocking_scalar (record { id = msg_id; arg1 = a; arg2 = b; arg3 = c; arg4 = d })

-- `PID::new(255)`, the sender of a message whose process has gone
abbrev pub gone : ℕ
gone = 255

-- The match of `take_next_message` on the entry at index `i`: what is received and what stays in
-- the slot, if the entry has the generation `g`.
unfoldable pub take_slot : ℕ → ℕ → ℕ → QueuedMessage → Option (Envelope × QueuedMessage)
take_slot sidx i g (memory_message_ro_lend pid tid idx msg_id client server size offset valid) =
    if idx == g
    then some (
      envelope (sender sidx i pid) (borrow (memory_of msg_id server size offset valid)),
      waiting_return_memory pid tid server client size,
    )
    else Option.none
take_slot sidx i g (memory_message_rw_lend pid tid idx msg_id client server size offset valid) =
    if idx == g
    then some (
      envelope (sender sidx i pid) (mutable_borrow (memory_of msg_id server size offset valid)),
      waiting_return_memory pid tid server client size,
    )
    else Option.none
take_slot sidx i g (memory_message_ro_lend_terminated idx msg_id server size offset valid) =
    if idx == g
    then some (
      envelope (sender sidx i gone) (borrow (memory_of msg_id server size offset valid)),
      waiting_forget server size,
    )
    else Option.none
take_slot sidx i g (memory_message_rw_lend_terminated idx msg_id server size offset valid) =
    if idx == g
    then some (
      envelope (sender sidx i gone) (mutable_borrow (memory_of msg_id server size offset valid)),
      waiting_forget server size,
    )
    else Option.none
take_slot sidx i g (blocking_scalar_message pid tid idx msg_id args) =
    if idx == g
    then some (envelope (sender sidx i pid) (blocking msg_id args), waiting_return_scalar pid tid)
    else Option.none
take_slot sidx i g (memory_message_send pid idx msg_id server size offset valid) =
    if idx == g
    then some
        (envelope (sender sidx i pid) (move (memory_of msg_id server size offset valid)), empty)
    else Option.none
take_slot sidx i g (QueuedMessage.scalar_message pid idx msg_id args) =
    if idx == g then some (envelope (sender sidx i pid) (plain msg_id args), empty) else Option.none
take_slot sidx i g (blocking_scalar_terminated idx msg_id args) =
    if idx == g
    then some
        (envelope (sender sidx i gone) (blocking msg_id args), waiting_return_scalar_terminated)
    else Option.none
take_slot sidx i g _ = Option.none

-- The loop of `take_next_message` at index `i`, which stops when it is back at `tail`.
unfoldable pub find_next :
    ℕ → List QueuedMessage → ℕ → ℕ → ℕ → ℕ → Option (ℕ × Envelope × QueuedMessage)
find_next zero queue sidx g tail i = Option.none
find_next (suc rounds) queue sidx g tail i =
    let next = wrap (length queue) (i + 1) in
    let rest = find_next rounds queue sidx g tail next in
    elim (take_slot sidx i g (slot queue i)) [
      | some (received, response) ↦ some (i, received, response)
      | Option.none ↦ if next == tail then Option.none else rest
    ]

unfoldable pub take_next_message : Server → ℕ → Server × Option Envelope
take_next_message self sidx =
    if tail_generation == head_generation
    then (self, Option.none)
    else elim (find_next len queue sidx head_generation queue_tail queue_tail) [
      | Option.none ↦ (self, Option.none)
      | some (i, received, response) ↦ (
        record self {
          queue_tail = wrap len (i + 1);
          empty_count = if is_empty_slot response then empty_count + 1 else empty_count;
          queue = set queue i response;
          head_generation = (head_generation + 1) % 256;
        },
        some received,
      )
    ]
  where
    open self use {queue, queue_tail, head_generation, tail_generation, empty_count}

    len : ℕ
    len = length queue

-- The sanity check on the buffer that is given back.
abbrev pub matches_buffer : Option MemoryRange → ℕ → ℕ → Bool
matches_buffer Option.none addr size = true
matches_buffer (some buf) addr size = addr == buf.addr && size == buf.size

-- The match of `take_waiting_message`; `none` is the early return of `WaitingMessage::None`.
unfoldable pub waiting_result : Option MemoryRange → QueuedMessage → Outcome (Option WaitingMessage)
waiting_result buf (waiting_return_memory pid tid server_addr client_addr buf_size) =
    if matches_buffer buf server_addr buf_size
    then ok (some (WaitingMessage.borrowed_memory pid tid client_addr))
    else err bad_address
waiting_result buf (waiting_forget server_addr buf_size) =
    if matches_buffer buf server_addr buf_size
    then ok (some (WaitingMessage.forget_memory (record { addr = server_addr; size = buf_size })))
    else err bad_address
waiting_result buf (waiting_return_scalar pid tid) =
    ok (some (WaitingMessage.scalar_message pid tid))
waiting_result buf waiting_return_scalar_terminated =
    ok (some WaitingMessage.scalar_message_terminated)
waiting_result buf _ = ok Option.none

-- The rest of `take_waiting_message`: the slot is emptied only when a result is taken.
unfoldable pub give_back :
    Server → ℕ → Outcome (Option WaitingMessage) → Server × Outcome WaitingMessage
give_back self i (err e) = (self, err e)
give_back self i panic = (self, panic)
give_back self i (ok Option.none) = (self, ok WaitingMessage.none)
give_back self i (ok (some result)) = (
  record self {
    queue = set self.queue i empty;
    empty_count = self.empty_count + 1;
    queue_tail = wrap (length self.queue) (i + 1);
  },
  ok result,
)

unfoldable pub take_waiting_message :
    Server → ℕ → Option MemoryRange → Server × Outcome WaitingMessage
take_waiting_message self i buf = elim (get_elem? self.queue i) [
  | Option.none ↦ (self, err bad_address)
  | some current ↦ give_back self i (waiting_result buf current)
]

-- What `discard_messages_for_pid` makes of one entry.
unfoldable pub discard_entry : ℕ → QueuedMessage → QueuedMessage
discard_entry p (memory_message_ro_lend pid tid idx msg_id client server size offset valid) =
    if pid == p
    then memory_message_ro_lend_terminated idx msg_id server size offset valid
    else memory_message_ro_lend pid tid idx msg_id client server size offset valid
discard_entry p (memory_message_rw_lend pid tid idx msg_id client server size offset valid) =
    if pid == p
    then memory_message_rw_lend_terminated idx msg_id server size offset valid
    else memory_message_rw_lend pid tid idx msg_id client server size offset valid
discard_entry p (blocking_scalar_message pid tid idx msg_id args) =
    if pid == p
    then blocking_scalar_terminated idx msg_id args
    else blocking_scalar_message pid tid idx msg_id args
discard_entry p (waiting_return_memory pid tid server client size) =
    if pid == p
    then waiting_forget server size
    else waiting_return_memory pid tid server client size
discard_entry p (waiting_return_scalar pid tid) =
    if pid == p then waiting_return_scalar_terminated else waiting_return_scalar pid tid
discard_entry p entry = entry

unfoldable pub discard_messages_for_pid : Server → ℕ → Server
discard_messages_for_pid self p = record self { queue = map (discard_entry p) self.queue }

abbrev initial_permissions_of : Range → MessagePermissions × Outcome (Unit {0})
initial_permissions_of r = if is_empty r then (default, ok tt) else add default r

-- `init`, given the slot of the server table and the entries that the backing memory holds: the code
-- casts the memory to a slice of entries as it is.
unfoldable pub init : Option Server → ℕ → Sid → List QueuedMessage → Range → Outcome Server
init (some server) pid sid queue initial_permissions = err memory_in_use
init Option.none pid sid queue initial_permissions =
    let (permissions, added) = initial_permissions_of initial_permissions in
    do
      _ ← added
      ok (record {
        sid = sid;
        pid = pid;
        queue_head = 0;
        queue_tail = 0;
        head_generation = 0;
        tail_generation = 0;
        empty_count = length queue;
        queue = queue;
        ready_threads = 0;
        default_permissions = permissions;
      })
