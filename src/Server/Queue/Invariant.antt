-- ===== src/Server/Queue/Invariant.antt =====
-- What a server's queue stands for: the messages that wait to be received, oldest first, each in
-- a slot of its own that carries its generation.
use beet_core.Common.{
  ℕ, ◌+◌, ◌%◌, ◌<◌, ◌≡◌, ◌≢◌, arith, Bool, List, Option, none, some, subst, sym, ap, ◌∙◌, length,
  get_elem?, count_if, is_some, get_elem?-lt,
}
use beet_core.Abi.Message.{Message, Envelope}
use beet_core.Server.Types.{
  QueuedMessage, empty, blocking_scalar_message, memory_message_send, memory_message_ro_lend,
  memory_message_rw_lend, memory_message_ro_lend_terminated, memory_message_rw_lend_terminated,
  blocking_scalar_terminated, Server,
}
use beet_core.Server.Queue.{slot, is_empty_slot}
use beet_core.Server.Queue.Take.{take_slot, envelope, sender}

-- The generation of an entry that waits to be received.
abbrev pub generation : QueuedMessage → Option ℕ
generation (memory_message_ro_lend pid tid idx msg_id client server size offset valid) = some idx
generation (memory_message_rw_lend pid tid idx msg_id client server size offset valid) = some idx
generation (memory_message_ro_lend_terminated idx msg_id server size offset valid) = some idx
generation (memory_message_rw_lend_terminated idx msg_id server size offset valid) = some idx
generation (blocking_scalar_message pid tid idx msg_id args) = some idx
generation (memory_message_send pid idx msg_id server size offset valid) = some idx
generation (QueuedMessage.scalar_message pid idx msg_id args) = some idx
generation (blocking_scalar_terminated idx msg_id args) = some idx
generation _ = none

abbrev pub has_generation : QueuedMessage → Bool
has_generation entry = is_some (generation entry)

-- A message that waits: its slot, the process that it is received from, and its body.
pub record Pending : Type 0 where
  pub at : ℕ
  pub from : ℕ
  pub body : Message

-- An entry is received as the message `p` when the queue reads generation `g`.
abbrev pub Delivers : ℕ → QueuedMessage → Pending → Type 0
Delivers g entry p =
    (sidx : ℕ)
    → (response : QueuedMessage) × (take_slot sidx p.at g entry
        ≡ some (envelope (sender sidx p.at p.from) p.body, response))

-- The indices, counts and generations of a server agree.
pub record IsValid (s : Server) : Type 0 where
  pub head_in : s.queue_head < length s.queue
  pub tail_in : s.queue_tail < length s.queue
  pub empties : s.empty_count ≡ count_if is_empty_slot s.queue
  pub generation_small : s.head_generation < 256

-- The queue holds the waiting messages `ps`: their generations follow the head's, and every slot
-- with a generation is the slot of one of them.
pub record Fifo (s : Server) (ps : List Pending) : Type 0 where
  pub few : length ps < 256
  pub tail : s.tail_generation ≡ (s.head_generation + length ps) % 256
  pub counted : length ps ≡ count_if has_generation s.queue
  pub here :
      (k : ℕ) (p : Pending)
      → get_elem? ps k ≡ some p
      → (p.at < length s.queue) × Delivers ((s.head_generation + k) % 256) (slot s.queue p.at) p
  pub only :
      (i g : ℕ)
      → i < length s.queue
      → generation (slot s.queue i) ≡ some g
      → (k : ℕ) × (p : Pending) × (get_elem? ps k ≡ some p)
        × (p.at ≡ i)
        × (g ≡ (s.head_generation + k) % 256)

-- An entry is received exactly at its own generation, and what stays in its slot has none.
pub take_slot-generation :
    (sidx i g : ℕ) (entry : QueuedMessage) {received : Envelope} {response : QueuedMessage}
    → take_slot sidx i g entry ≡ some (received, response)
    → (generation entry ≡ some g) × (generation response ≡ none)
unfolding take_slot
take_slot-generation sidx i g empty e = ground arith
take_slot-generation sidx i g _ e = ground arith

pub take_slot_lem :
    (sidx i g : ℕ) (entry : QueuedMessage)
    → generation entry ≡ some g
    → take_slot sidx i g entry ≢ none
unfolding take_slot
take_slot_lem sidx i g empty e = ground arith
take_slot_lem sidx i g _ e = ground arith

-- The slot of a waiting message carries its generation.
pub generation-Delivers :
    (g : ℕ) (entry : QueuedMessage) (p : Pending) → Delivers g entry p → generation entry ≡ some g
generation-Delivers g entry p d = (take_slot-generation 0 p.at g entry (d 0).1).0

pub eq_of_some : {a b : ℕ} → some a ≡ some b → a ≡ b
eq_of_some e = cc

pub Delivers-subst :
    (g h : ℕ) (entry other : QueuedMessage) (p : Pending)
    → g ≡ h
    → entry ≡ other
    → Delivers g entry p
    → Delivers h other p
Delivers-subst g h entry other p same_g same_entry d =
    subst (λ k. Delivers k other p) same_g (subst (λ x. Delivers g x p) same_entry d)

module _ {s : Server} {ps : List Pending} (v : Fifo s ps) where
  -- Two waiting messages in one slot are one.
  pub Fifo-same_slot :
      (j k : ℕ) (p q : Pending)
      → get_elem? ps j ≡ some p
      → get_elem? ps k ≡ some q
      → p.at ≡ q.at
      → j ≡ k
  Fifo-same_slot j k p q ej ek same =
      let first =
        generation-Delivers ((s.head_generation + j) % 256) (slot s.queue p.at) p
          (v.here j p ej).1 in
      let second =
        generation-Delivers ((s.head_generation + k) % 256) (slot s.queue q.at) q
          (v.here k q ek).1 in
      let same_entry = ap (λ i. generation (slot s.queue i)) same in
      let g : (s.head_generation + j) % 256 ≡ (s.head_generation + k) % 256 =
        eq_of_some (sym first ∙ same_entry ∙ second) in
      omega (arith, get_elem?-lt ps j ej, get_elem?-lt ps k ek, v.few, g)
