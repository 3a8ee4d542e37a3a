-- ===== src/Server/Queue/Send.antt =====
-- `queue_message` appends to the waiting messages, and fails exactly when the queue is full.
use mathlib.Core.Option.{Option, none, some}
use beet_core.Common.{
  ℕ, ◌+◌, ◌%◌, ◌<◌, ◌≡◌, refl, ◌∙◌, ap, arith, true, false, List, [], ◌∷◌, ◌++◌, ◌==◌, length, inl,
  inr, is_some, ==_refl,
}
use beet_core.Abi.Error.{server_queue_full}
use beet_core.Abi.Outcome.{Outcome, ok, err, panic}
use beet_core.Abi.Message.{
  MemoryMessage, Message, mutable_borrow, borrow, move, scalar, blocking_scalar, get_or_zero,
}
use beet_core.Abi.RoundTrip.{IsMessage, IsMemoryMessage, new_nonzero_lem, new_nonzero-get_or_zero}
use beet_core.Server.Types.{
  QueuedMessage, empty, waiting_return_scalar, waiting_return_memory, Server,
}
use beet_core.Server.Queue.{
  is_empty_slot, wrap, checked, find_empty_slot, to_entry, store_entry, queue_message,
}
use beet_core.Server.Queue.Take.{take_slot, memory_of}
use beet_core.Server.Queue.Empty.{find_empty_slot-FindsEmpty}
use beet_core.Server.Queue.Append.{stored, stored-IsValid, stored-Fifo}
use beet_core.Server.Queue.Invariant.{Pending, Delivers, IsValid, Fifo}

-- A lend comes with the client's address of the memory.
abbrev pub HasOrigin : Message → Option ℕ → Type 0
HasOrigin (mutable_borrow m) original = is_some original ≡ true
HasOrigin (borrow m) original = is_some original ≡ true
HasOrigin _ original = Unit {0}

abbrev pub pending : ℕ → ℕ → Message → Pending
pending i pid m = record { at = i; from = pid; body = m }

-- The entry of a sent message: it is received with the sender and the body that were sent.
abbrev Entry : ℕ → ℕ → ℕ → Message → Option ℕ → Type 0
Entry pid tid g m original =
    (entry : QueuedMessage) × (to_entry pid tid g m original ≡ ok entry)
    × (is_empty_slot entry ≡ false)
    × ((i : ℕ) → Delivers g entry (pending i pid m))

module _ (m : MemoryMessage) (v : IsMemoryMessage m) where
  checked_lem : (k : ℕ → ℕ → Outcome QueuedMessage) → checked m.buf k ≡ k m.buf.addr m.buf.size
  checked_lem k = rw (new_nonzero_lem _ v.addr_nonzero, new_nonzero_lem _ v.size_nonzero)

  -- The options of a message are what is read back from the words that were stored.
  memory_of_lem :
      memory_of m.id m.buf.addr m.buf.size (get_or_zero m.offset) (get_or_zero m.valid) ≡ m
  memory_of_lem =
      rw (new_nonzero-get_or_zero _ v.offset_nonzero, new_nonzero-get_or_zero _ v.valid_nonzero)

to_entry-Entry :
    (pid tid g : ℕ) (m : Message) (original : Option ℕ)
    → IsMessage m
    → HasOrigin m original
    → Entry pid tid g m original
unfolding to_entry take_slot
to_entry-Entry pid tid g (scalar m) original v h =
    (_, refl, refl, λ i sidx. (empty, rw (==_refl g)))
to_entry-Entry pid tid g (blocking_scalar m) original v h =
    (_, refl, refl, λ i sidx. (waiting_return_scalar pid (tid % 256), rw (==_refl g)))
to_entry-Entry pid tid g (move m) original v h =
    (_, checked_lem m v _, refl, λ i sidx. (empty, rw (==_refl g, memory_of_lem m v)))
to_entry-Entry pid tid g (mutable_borrow m) none v h = cc
to_entry-Entry pid tid g (mutable_borrow m) (some client) v h = (
  _,
  checked_lem m v _,
  refl,
  λ i sidx. (
    waiting_return_memory pid (tid % 256) m.buf.addr client m.buf.size,
    rw (==_refl g, memory_of_lem m v),
  ),
)
to_entry-Entry pid tid g (borrow m) none v h = cc
to_entry-Entry pid tid g (borrow m) (some client) v h = (
  _,
  checked_lem m v _,
  refl,
  λ i sidx. (
    waiting_return_memory pid (tid % 256) m.buf.addr client m.buf.size,
    rw (==_refl g, memory_of_lem m v),
  ),
)

-- With no empty slot the queue is full, and the server is as it was.
pub queue_message-full :
    (s : Server) (pid tid : ℕ) (m : Message) (original : Option ℕ)
    → IsValid s
    → s.empty_count ≡ 0
    → queue_message s pid tid m original ≡ (s, err server_queue_full)
unfolding queue_message
queue_message-full s pid tid m original valid full = elim (find_empty_slot-FindsEmpty s valid) [
  | inl (none_left, nothing) ↦ ground (arith, nothing)
  | inr (i, some_left, i_in, was, found) ↦ absurd (omega (arith, some_left, full))
]

store_entry-ok :
    (s : Server) (i : ℕ) (entry : QueuedMessage)
    → ((s.tail_generation + 1) % 256 == s.head_generation) ≡ false
    → store_entry (record s { queue_head = wrap (length s.queue) (i + 1) }) i (ok entry)
      ≡ (stored s i entry, ok i)
unfolding store_entry
store_entry-ok s i entry ne = ground arith

store_entry-panic :
    (s : Server) (i : ℕ) (entry : QueuedMessage)
    → ((s.tail_generation + 1) % 256 == s.head_generation) ≡ true
    → (store_entry (record s { queue_head = wrap (length s.queue) (i + 1) }) i (ok entry)).1 ≡ panic
unfolding store_entry
store_entry-panic s i entry round = ground arith

queue_message-found :
    (s found : Server) (pid tid : ℕ) (m : Message) (original : Option ℕ) (i : ℕ)
    (entry : QueuedMessage)
    → find_empty_slot s ≡ some (i, found)
    → to_entry pid tid s.tail_generation m original ≡ ok entry
    → queue_message s pid tid m original ≡ store_entry found i (ok entry)
unfolding queue_message
queue_message-found s found pid tid m original i entry is_found is_entry = ground arith

-- Where a slot is empty and fewer than 255 messages wait, `queue_message` puts the message behind
-- those that wait, and returns its slot.
pub queue_message-append :
    (s : Server) (pid tid : ℕ) (m : Message) (original : Option ℕ) (ps : List Pending)
    → IsValid s
    → Fifo s ps
    → IsMessage m
    → HasOrigin m original
    → 0 < s.empty_count
    → length ps < 255
    → (i : ℕ) × (s' : Server) × (queue_message s pid tid m original ≡ (s', ok i))
      × Fifo s' (ps ++ pending i pid m ∷ [])
      × IsValid s'
queue_message-append s pid tid m original ps valid v is_message has_origin some_left room =
    elim (find_empty_slot-FindsEmpty s valid) [
      | inl (none_left, nothing) ↦ absurd (omega (arith, some_left, none_left))
      | inr (i, _, i_in, was, found) ↦
          let (entry, is_entry, full, delivers) =
            to_entry-Entry pid tid s.tail_generation m original is_message has_origin in
          let ne : ((s.tail_generation + 1) % 256 == s.head_generation) ≡ false =
            ground (arith, v.tail, valid.generation_small) in
          (
            i,
            stored s i entry,
            queue_message-found s _ pid tid m original i entry found is_entry
                ∙ store_entry-ok s i entry ne,
            stored-Fifo v room (pending i pid m) entry i_in was (delivers i),
            stored-IsValid s i entry valid i_in was full,
          )
    ]

-- In a valid server with 255 messages waiting and a slot empty, `queue_message` of a well-formed
-- message, with the original address if it lends memory, panics: the generation of the tail comes
-- round to that of the head.
pub queue_message-overrun :
    (s : Server) (pid tid : ℕ) (m : Message) (original : Option ℕ) (ps : List Pending)
    → IsValid s
    → Fifo s ps
    → IsMessage m
    → HasOrigin m original
    → 0 < s.empty_count
    → length ps ≡ 255
    → (queue_message s pid tid m original).1 ≡ panic
queue_message-overrun s pid tid m original ps valid v is_message has_origin some_left all =
    elim (find_empty_slot-FindsEmpty s valid) [
      | inl (none_left, nothing) ↦ absurd (omega (arith, some_left, none_left))
      | inr (i, _, i_in, was, found) ↦
          let (entry, is_entry, full, delivers) =
            to_entry-Entry pid tid s.tail_generation m original is_message has_origin in
          let round : ((s.tail_generation + 1) % 256 == s.head_generation) ≡ true =
            ground (arith, v.tail, valid.generation_small) in
          ap (λ r. r.1) (queue_message-found s _ pid tid m original i entry found is_entry)
          ∙ store_entry-panic s i entry round
    ]
