-- ===== src/Server/Queue/Tests.antt =====
-- Runs of a server's queue, and its theorems at concrete inputs.
use mathlib.Core.Option.{none, some}
use beet_core.Common.{
  ap, ℕ, zero, suc, ◌-◌, ◌<◌, ◌≤◌, ◌≡◌, refl, sym, ◌∙◌, arith, List, [], ◌∷◌, ◌++◌, length,
  replicate, length-replicate, length-append, length-set, get_or-set_ne,
}
use beet_core.Abi.Outcome.{ok, panic}
use beet_core.Abi.Message.{scalar, ScalarMessage}
use beet_core.Server.Types.{QueuedMessage, empty, Server, Range}
use beet_core.Server.Permissions.{default}
use beet_core.Server.Queue.{
  slot, find_empty_in, find_empty_slot, to_entry, store_entry, queue_message, queue_response,
}
use beet_core.Abi.Message.{Envelope}
use beet_core.Server.Queue.Sender.{sender_of_word, sender_pid}
use beet_core.Server.Queue.Take.{
  take_slot, find_next, take_next_message, take_waiting_message, discard_messages_for_pid, init,
  envelope, sender,
}
use beet_core.Server.Queue.Invariant.{IsValid, Fifo, Pending, Delivers, Delivers-subst}
use beet_core.Server.Queue.Append.{stored, stored-Fifo, stored-IsValid}
use beet_core.Server.Queue.Receive.{take_next_message-cons}
use beet_core.Server.Queue.Send.{pending, queue_message-overrun}
use beet_core.Server.Queue.Respond.{Keeps, queue_response_lem, take_waiting_message_lem}
use beet_core.Server.Queue.Fresh.{AllEmpty, init_lem}
use beet_core.Server.Queue.Answer.{take_next_message-sender}
use beet_core.Server.Queue.Discard.{Discards, discard_messages_for_pid_lem}

abbrev nothing_allowed : Range
nothing_allowed = record { start = 0; end = 0 }

-- A server as `init` makes it.
abbrev fresh : ℕ → Server
fresh len = record {
  sid = record { w0 = 1; w1 = 2; w2 = 3; w3 = 4 };
  pid = 2;
  queue_head = 0;
  queue_tail = 0;
  head_generation = 0;
  tail_generation = 0;
  empty_count = len;
  queue = replicate len empty;
  ready_threads = 0;
  default_permissions = default;
}

slot-replicate : (n i : ℕ) → slot (replicate n empty) i ≡ empty
slot-replicate zero i = refl
slot-replicate (suc n) zero = refl
slot-replicate (suc n) (suc i) = slot-replicate n i

init_lem_example :
    (AllEmpty (replicate 2 empty) → IsValid (fresh 2) × Fifo (fresh 2) [])
    × (IsValid (fresh 2) → AllEmpty (replicate 2 empty))
unfolding init
init_lem_example =
    init_lem 2 (fresh 2).sid (replicate 2 empty) nothing_allowed (fresh 2) (omega arith) refl

init-fresh : (n : ℕ) → init none 2 (fresh n).sid (replicate n empty) nothing_allowed ≡ ok (fresh n)
unfolding init
init-fresh n =
    ap (λ count. ok (record (fresh n) { empty_count = count })) (length-replicate n empty)

fresh_lem : (n : ℕ) → 0 < n → IsValid (fresh n) × Fifo (fresh n) []
fresh_lem n h =
    (init_lem 2 (fresh n).sid (replicate n empty) nothing_allowed (fresh n)
        (omega (arith, length-replicate n empty)) (init-fresh n)).0
      (slot-replicate n)

fresh_two : IsValid (fresh 2) × Fifo (fresh 2) []
fresh_two = fresh_lem 2 (omega arith)

abbrev ping : ScalarMessage
ping = record { id = 7; arg1 = 1; arg2 = 2; arg3 = 3; arg4 = 4 }

-- The entry of `ping` from process 3 at generation `g`.
abbrev ping_entry : ℕ → QueuedMessage
ping_entry g = QueuedMessage.scalar_message 3 g 7 (1, 2, 3, 4)

ping-Delivers : (i g : ℕ) → Delivers g (ping_entry g) (pending i 3 (scalar ping))
unfolding take_slot
ping-Delivers i g sidx = (empty, ground arith)

-- A server of two slots with `ping` in the first.
abbrev pinged : Server
pinged = stored (fresh 2) 0 (ping_entry 0)

pinged-IsValid : IsValid pinged
pinged-IsValid = stored-IsValid (fresh 2) 0 (ping_entry 0) fresh_two.0 (omega arith) refl refl

pinged-Fifo : Fifo pinged (pending 0 3 (scalar ping) ∷ [])
pinged-Fifo =
    stored-Fifo fresh_two.1 (omega arith) (pending 0 3 (scalar ping)) (ping_entry 0) (omega arith)
      refl (ping-Delivers 0 0)

take_next_message-cons_example :
    (s' : Server) × (take_next_message pinged 5
      ≡ (s', some (envelope (sender 5 0 3) (scalar ping))))
    × Fifo s' []
    × IsValid s'
take_next_message-cons_example =
    take_next_message-cons pinged 5 (pending 0 3 (scalar ping)) [] pinged-IsValid pinged-Fifo

queue_response_lem_example :
    Keeps (pending 0 3 (scalar ping) ∷ []) (queue_response pinged 4 1 (scalar ping) none)
queue_response_lem_example =
    queue_response_lem pinged 4 1 (scalar ping) none (pending 0 3 (scalar ping) ∷ []) pinged-IsValid
      pinged-Fifo

take_waiting_message_lem_example :
    Keeps (pending 0 3 (scalar ping) ∷ []) (take_waiting_message pinged 0 none)
take_waiting_message_lem_example =
    take_waiting_message_lem pinged 0 none (pending 0 3 (scalar ping) ∷ []) pinged-IsValid
      pinged-Fifo

discard_messages_for_pid_lem_example :
    IsValid (discard_messages_for_pid pinged 3)
    × ((i : ℕ)
        → i < length pinged.queue
        → Discards 3 (slot pinged.queue i) (slot (discard_messages_for_pid pinged 3).queue i))
discard_messages_for_pid_lem_example = discard_messages_for_pid_lem pinged 3 pinged-IsValid

take_next_message-sender_example :
    (s' : Server) × (received : Envelope) × (take_next_message pinged 5 ≡ (s', some received))
    × (sender_of_word received.sender ≡ record { sidx = 5; idx = 0; pid = some 3 })
    × (sender_pid received.sender ≡ some 3)
take_next_message-sender_example =
    take_next_message-sender pinged 5 (pending 0 3 (scalar ping)) [] pinged-IsValid pinged-Fifo
      (omega arith) (omega arith) (omega arith) (omega arith)

-- A message is sent and received, and the queue is empty again.
sent_and_received :
    (take_next_message (queue_message (fresh 2) 3 1 (scalar ping) none).0 5).1
    ≡ some (envelope (sender 5 0 3) (scalar ping))
unfolding queue_message find_empty_slot find_empty_in to_entry store_entry take_next_message
    find_next take_slot
sent_and_received = refl

-- Slots `0` to `n - 1` hold `ping`, each with the generation of its slot.
filled : ℕ → Server
filled zero = fresh 256
filled (suc n) = stored (filled n) n (ping_entry n)

pings : ℕ → List Pending
pings zero = []
pings (suc n) = pings n ++ pending n 3 (scalar ping) ∷ []

record Filled (n : ℕ) : Type 0 where
  size : length (filled n).queue ≡ 256
  generation : (filled n).tail_generation ≡ n
  free : (filled n).empty_count ≡ 256 - n
  sent : length (pings n) ≡ n
  rest : (i : ℕ) → n ≤ i → slot (filled n).queue i ≡ empty
  valid : IsValid (filled n)
  fifo : Fifo (filled n) (pings n)

fresh-Filled : Filled 0
unfolding filled pings init
fresh-Filled =
    let (valid, fifo) = fresh_lem 256 (omega arith) in
    record {
      size = length-replicate 256 empty;
      generation = refl;
      free = refl;
      sent = refl;
      rest = λ i h. slot-replicate 256 i;
      valid = valid;
      fifo = fifo;
    }

filled_lem : (n : ℕ) → n ≤ 255 → Filled n
unfolding filled pings
filled_lem zero h = fresh-Filled
filled_lem (suc n) h =
    let before = filled_lem n (omega arith) in
    record {
      size = length-set (filled n).queue n (ping_entry n) ∙ before.size;
      generation = omega (arith, before.generation);
      free = omega (arith, before.free);
      sent = omega (arith, length-append (pings n) (pending n 3 (scalar ping) ∷ []), before.sent);
      rest = λ i lt.
          get_or-set_ne (filled n).queue n i (ping_entry n) empty (λ e. omega arith)
          ∙ before.rest i (omega arith);
      valid =
          stored-IsValid (filled n) n (ping_entry n) before.valid (omega (arith, before.size))
            (before.rest n (omega arith)) refl;
      fifo =
          stored-Fifo before.fifo (omega (arith, before.sent)) (pending n 3 (scalar ping))
            (ping_entry n) (omega (arith, before.size)) (before.rest n (omega arith))
            (Delivers-subst _ _ _ _ (pending n 3 (scalar ping)) (sym before.generation) refl
              (ping-Delivers n n));
    }

queue_message-overrun_example : (queue_message (filled 255) 4 1 (scalar ping) none).1 ≡ panic
queue_message-overrun_example =
    queue_message-overrun (filled 255) 4 1 (scalar ping) none (pings 255) full.valid full.fifo tt tt
      (omega (arith, full.free)) full.sent
  where
    full : Filled 255
    full = filled_lem 255 (omega arith)
