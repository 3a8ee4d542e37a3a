-- ===== src/Abi/Message.antt =====
-- Messages between processes: xous/xous-rs/src/definitions/messages. A `NonZeroUsize` is a number,
-- and `Abi.RoundTrip.IsNonZero` says that it is not 0.
use beet_core.Common.{ℕ, ◌==◌, if◌then◌else◌, Option, none, some, Bool, true, false}

-- `NonZeroUsize::new` and `NonZeroU8::new`
unfoldable pub new_nonzero : ℕ → Option ℕ
new_nonzero n = if n == 0 then none else some n

-- `map(|x| x.get()).unwrap_or(0)`
abbrev pub get_or_zero : Option ℕ → ℕ
get_or_zero none = 0
get_or_zero (some n) = n

pub record MemoryRange : Type 0 where
  pub addr : ℕ
  pub size : ℕ

pub record MemoryMessage : Type 0 where
  pub id : ℕ
  pub buf : MemoryRange
  pub offset : Option ℕ
  pub valid : Option ℕ

pub record ScalarMessage : Type 0 where
  pub id : ℕ
  pub arg1 : ℕ
  pub arg2 : ℕ
  pub arg3 : ℕ
  pub arg4 : ℕ

pub data Message : Type 0 where
  mutable_borrow : MemoryMessage → Message
  borrow : MemoryMessage → Message
  move : MemoryMessage → Message
  scalar : ScalarMessage → Message
  blocking_scalar : ScalarMessage → Message

pub record Envelope : Type 0 where
  pub sender : ℕ
  pub body : Message

abbrev pub Words5 : Type 0
Words5 = ℕ × ℕ × ℕ × ℕ × ℕ

abbrev pub Words6 : Type 0
Words6 = ℕ × ℕ × ℕ × ℕ × ℕ × ℕ

-- A message from an address and a size that are there.
abbrev pub memory_parts : Option ℕ → Option ℕ → ℕ → ℕ → ℕ → Option MemoryMessage
memory_parts none size id offset valid = none
memory_parts (some a) none id offset valid = none
memory_parts (some a) (some s) id offset valid = some (record {
  id = id;
  buf = record { addr = a; size = s };
  offset = new_nonzero offset;
  valid = new_nonzero valid;
})

-- `MemoryMessage::from_usize`
unfoldable pub memory_from_usize : ℕ → ℕ → ℕ → ℕ → ℕ → Option MemoryMessage
memory_from_usize id addr size offset valid =
    memory_parts (new_nonzero addr) (new_nonzero size) id offset valid

-- `MemoryMessage::to_usize`
unfoldable pub memory_to_usize : MemoryMessage → Words5
memory_to_usize m = (m.id, m.buf.addr, m.buf.size, get_or_zero m.offset, get_or_zero m.valid)

-- `ScalarMessage::from_usize`
unfoldable pub scalar_from_usize : ℕ → ℕ → ℕ → ℕ → ℕ → ScalarMessage
scalar_from_usize id arg1 arg2 arg3 arg4 = record {
  id = id;
  arg1 = arg1;
  arg2 = arg2;
  arg3 = arg3;
  arg4 = arg4;
}

-- `ScalarMessage::to_usize`
unfoldable pub scalar_to_usize : ScalarMessage → Words5
scalar_to_usize m = (m.id, m.arg1, m.arg2, m.arg3, m.arg4)

-- `Message::to_usize`
unfoldable pub message_to_usize : Message → Words6
unfolding memory_to_usize scalar_to_usize
message_to_usize (mutable_borrow m) = let (a, b, c, d, e) = memory_to_usize m in (0, a, b, c, d, e)
message_to_usize (borrow m) = let (a, b, c, d, e) = memory_to_usize m in (1, a, b, c, d, e)
message_to_usize (move m) = let (a, b, c, d, e) = memory_to_usize m in (2, a, b, c, d, e)
message_to_usize (scalar m) = let (a, b, c, d, e) = scalar_to_usize m in (3, a, b, c, d, e)
message_to_usize (blocking_scalar m) = let (a, b, c, d, e) = scalar_to_usize m in (4, a, b, c, d, e)

-- `Message::message_type`, the tag in a `SendMessage` syscall
unfoldable pub message_type : Message → ℕ
message_type (mutable_borrow m) = 1
message_type (borrow m) = 2
message_type (move m) = 3
message_type (scalar m) = 4
message_type (blocking_scalar m) = 5

-- `.map(..)` on a memory message
abbrev pub map_memory : (MemoryMessage → Message) → Option MemoryMessage → Option Message
map_memory f none = none
map_memory f (some m) = some (f m)

-- `Message::try_from` on the six words of a `SendMessage` syscall; `none` is `Err(())`.
unfoldable pub try_from : Words6 → Option Message
unfolding memory_from_usize scalar_from_usize
try_from (tag, id, w2, w3, w4, w5) =
    let mem = memory_from_usize id w2 w3 w4 w5 in
    let args = scalar_from_usize id w2 w3 w4 w5 in
    if tag == 1
    then map_memory mutable_borrow mem
    else if tag == 2
    then map_memory borrow mem
    else if tag == 3
    then map_memory move mem
    else if tag == 4
    then some (scalar args)
    else if tag == 5
    then some (blocking_scalar args)
    else none

-- `Message::is_blocking`
unfoldable pub is_blocking : Message → Bool
is_blocking (mutable_borrow m) = true
is_blocking (borrow m) = true
is_blocking (blocking_scalar m) = true
is_blocking (move m) = false
is_blocking (scalar m) = false

-- `Message::memory_message`
unfoldable pub memory_message : Message → Option MemoryMessage
memory_message (mutable_borrow m) = some m
memory_message (borrow m) = some m
memory_message (move m) = some m
memory_message (scalar m) = none
memory_message (blocking_scalar m) = none

-- `Message::id`
unfoldable pub message_id : Message → ℕ
message_id (mutable_borrow m) = m.id
message_id (borrow m) = m.id
message_id (move m) = m.id
message_id (scalar m) = m.id
message_id (blocking_scalar m) = m.id
