-- ===== src/Server/Types.antt =====
-- The data of xous/kernel/src/server.rs. Thread ids are cut to a byte where they are stored.
use Prim.Native.Nat.{ℕ}
use mathlib.Core.List.{List}
use mathlib.Core.Option.{Option}
use mathlib.Core.Bool.{Bool}
use beet_core.Abi.Message.{MemoryRange}
use beet_core.Abi.Result.{Sid}

-- `[usize; 4]`
abbrev pub Args : Type 0
Args = ℕ × ℕ × ℕ × ℕ

-- `pid`, `tid`, `idx`, `msg_id`, addresses and sizes stand in the order of the source's fields.
pub data QueuedMessage : Type 0 where
  empty : QueuedMessage
  blocking_scalar_message : (pid tid idx msg_id : ℕ) (args : Args) → QueuedMessage
  scalar_message : (pid idx msg_id : ℕ) (args : Args) → QueuedMessage
  memory_message_send : (pid idx msg_id server_addr buf_size offset valid : ℕ) → QueuedMessage
  memory_message_ro_lend :
      (pid tid idx msg_id client_addr server_addr buf_size offset valid : ℕ) → QueuedMessage
  memory_message_rw_lend :
      (pid tid idx msg_id client_addr server_addr buf_size offset valid : ℕ) → QueuedMessage
  memory_message_ro_lend_terminated :
      (idx msg_id server_addr buf_size offset valid : ℕ) → QueuedMessage
  memory_message_rw_lend_terminated :
      (idx msg_id server_addr buf_size offset valid : ℕ) → QueuedMessage
  blocking_scalar_terminated : (idx msg_id : ℕ) (args : Args) → QueuedMessage
  waiting_return_memory : (pid tid server_addr client_addr buf_size : ℕ) → QueuedMessage
  waiting_forget : (server_addr buf_size : ℕ) → QueuedMessage
  waiting_return_scalar : (pid tid : ℕ) → QueuedMessage
  waiting_return_scalar_terminated : QueuedMessage

pub data WaitingMessage : Type 0 where
  none : WaitingMessage
  borrowed_memory : (pid tid client_addr : ℕ) → WaitingMessage
  scalar_message : (pid tid : ℕ) → WaitingMessage
  scalar_message_terminated : WaitingMessage
  forget_memory : MemoryRange → WaitingMessage

-- A half-open `Range<MessageId>`
pub record Range : Type 0 where
  pub start : ℕ
  pub end : ℕ

-- `mask` is a 64-bit word, `list` has four entries.
pub record MessagePermissions : Type 0 where
  pub allow_all : Bool
  pub mask : ℕ
  pub list : List Range

pub record Server : Type 0 where
  pub sid : Sid
  pub pid : ℕ
  pub queue_head : ℕ
  pub queue_tail : ℕ
  pub head_generation : ℕ
  pub tail_generation : ℕ
  pub empty_count : ℕ
  pub queue : List QueuedMessage
  pub ready_threads : ℕ
  pub default_permissions : MessagePermissions

pub record SenderId : Type 0 where
  pub sidx : ℕ
  pub idx : ℕ
  pub pid : Option ℕ
