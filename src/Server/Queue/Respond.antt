-- ===== src/Server/Queue/Respond.antt =====
-- `queue_response` and `take_waiting_message` leave the waiting messages alone, and a new server
-- has none.
use mathlib.Core.Option.{Option, none, some}
use beet_core.Common.{
  ℕ, ◌+◌, ◌-◌, ◌<◌, ◌≤◌, ◌≡◌, refl, sym, ap, subst, arith, false, List, ltb, if◌then◌else◌, length,
  set, Bool-cases, inl, inr, length-set, count_if-set, get_elem?-get_or, get_elem?-none,
}
use beet_core.Abi.Error.{server_queue_full, bad_address}
use beet_core.Abi.Outcome.{Outcome, ok, err, panic}
use beet_core.Abi.Message.{MemoryRange, Message}
use beet_core.Server.Types.{QueuedMessage, empty, WaitingMessage, Server}
use beet_core.Server.Queue.{
  slot, is_empty_slot, wrap, find_empty_slot, to_response, store_response, queue_response,
}
use beet_core.Server.Queue.Take.{waiting_result, give_back, take_waiting_message}
use beet_core.Server.Queue.Empty.{find_empty_slot-FindsEmpty}
use beet_core.Server.Queue.Invariant.{generation, Pending, IsValid, Fifo}
use beet_core.Server.Queue.Quiet.{quiet-Fifo, to_response-quiet, waiting_result-quiet}

written-IsValid :
    (s : Server) (i head tail count : ℕ) (entry : QueuedMessage)
    → IsValid s
    → i < length s.queue
    → head < length s.queue
    → tail < length s.queue
    → count + (if is_empty_slot (slot s.queue i) then 1 else 0)
      ≡ s.empty_count + (if is_empty_slot entry then 1 else 0)
    → IsValid (record s {
      queue = set s.queue i entry;
      queue_head = head;
      queue_tail = tail;
      empty_count = count;
    })
written-IsValid s i head tail count entry v h hh ht e = record {
  head_in = rw (length-set s.queue i entry) hh;
  tail_in = rw (length-set s.queue i entry) ht;
  empties = omega (arith, v.empties, e, count_if-set is_empty_slot s.queue i entry empty h);
  generation_small = v.generation_small;
}

-- What an operation leaves: a valid server with the same messages waiting.
abbrev pub Keeps {ℓ} : {A : Type ℓ} → List Pending → Server × A → Type 0
Keeps ps r = IsValid r.0 × Fifo r.0 ps

module _ {s : Server} {ps : List Pending} (valid : IsValid s) (v : Fifo s ps) (i : ℕ)
    (i_in : i < length s.queue) where
  give_back-Keeps :
      (r : Outcome (Option WaitingMessage))
      → ((w : WaitingMessage)
          → r ≡ ok (some w)
          → (generation (slot s.queue i) ≡ none) × (is_empty_slot (slot s.queue i) ≡ false))
      → Keeps ps (give_back s i r)
  unfolding give_back
  give_back-Keeps (err e) quiet = (valid, v)
  give_back-Keeps panic quiet = (valid, v)
  give_back-Keeps (ok none) quiet = (valid, v)
  give_back-Keeps (ok (some w)) quiet =
      let (no_generation, full) = quiet w refl in
      (
        written-IsValid s i s.queue_head (wrap (length s.queue) (i + 1)) (s.empty_count + 1) empty
            valid i_in valid.head_in (ground arith) (rw full (omega arith)),
        quiet-Fifo v i empty i_in no_generation refl s.queue_head (wrap (length s.queue) (i + 1))
            (s.empty_count + 1),
      )

  moved-Keeps :
      (a : Outcome ℕ) → Keeps ps (record s { queue_head = wrap (length s.queue) (i + 1) }, a)
  moved-Keeps a = (
    record {
      head_in = ground arith;
      tail_in = valid.tail_in;
      empties = valid.empties;
      generation_small = valid.generation_small;
    },
    record { few = v.few; tail = v.tail; counted = v.counted; here = v.here; only = v.only },
  )

  store_response-Keeps :
      (r : Outcome QueuedMessage)
      → 0 < s.empty_count
      → slot s.queue i ≡ empty
      → ((entry : QueuedMessage)
          → r ≡ ok entry
          → (generation entry ≡ none) × (is_empty_slot entry ≡ false))
      → Keeps ps (store_response (record s { queue_head = wrap (length s.queue) (i + 1) }) i r)
  unfolding store_response
  store_response-Keeps (err e) some_left was quiet = moved-Keeps (err e)
  store_response-Keeps panic some_left was quiet = moved-Keeps panic
  store_response-Keeps (ok entry) some_left was quiet =
      let (no_generation, full) = quiet entry refl in
      (
        written-IsValid s i (wrap (length s.queue) (i + 1)) s.queue_tail (s.empty_count - 1) entry
            valid i_in (ground arith) valid.tail_in (ground (arith, was, full)),
        quiet-Fifo v i entry i_in (ap generation was) no_generation (wrap (length s.queue) (i + 1))
            s.queue_tail (s.empty_count - 1),
      )

take_waiting_message-inside :
    (s : Server) (i : ℕ) (buf : Option MemoryRange)
    → i < length s.queue
    → take_waiting_message s i buf ≡ give_back s i (waiting_result buf (slot s.queue i))
unfolding take_waiting_message
take_waiting_message-inside s i buf i_in = ground (arith, get_elem?-get_or s.queue i empty)

take_waiting_message-outside :
    (s : Server) (i : ℕ) (buf : Option MemoryRange)
    → length s.queue ≤ i
    → take_waiting_message s i buf ≡ (s, err bad_address)
unfolding take_waiting_message
take_waiting_message-outside s i buf out = ground (arith, get_elem?-none s.queue i)

-- `take_waiting_message` keeps a valid server valid and the waiting messages as they are, on every
-- branch.
pub take_waiting_message_lem :
    (s : Server) (i : ℕ) (buf : Option MemoryRange) (ps : List Pending)
    → IsValid s
    → Fifo s ps
    → Keeps ps (take_waiting_message s i buf)
take_waiting_message_lem s i buf ps valid v = elim (Bool-cases (ltb i (length s.queue))) [
  | inl inside ↦
      let i_in : i < length s.queue = ground arith in
      subst (Keeps ps) (sym (take_waiting_message-inside s i buf i_in))
        (give_back-Keeps valid v i i_in _ (λ w e. waiting_result-quiet buf (slot s.queue i) e))
  | inr outside ↦
      subst (Keeps ps) (sym (take_waiting_message-outside s i buf (ground arith))) (valid, v)
]

queue_response-found :
    (s found : Server) (pid tid : ℕ) (m : Message) (client : Option ℕ) (i : ℕ)
    → find_empty_slot s ≡ some (i, found)
    → queue_response s pid tid m client ≡ store_response found i (to_response pid tid m client)
unfolding queue_response
queue_response-found s found pid tid m client i e = ground arith

queue_response-none :
    (s : Server) (pid tid : ℕ) (m : Message) (client : Option ℕ)
    → find_empty_slot s ≡ none
    → queue_response s pid tid m client ≡ (s, err server_queue_full)
unfolding queue_response
queue_response-none s pid tid m client e = ground arith

-- `queue_response` keeps a valid server valid and the waiting messages as they are, on every
-- branch.
pub queue_response_lem :
    (s : Server) (pid tid : ℕ) (m : Message) (client : Option ℕ) (ps : List Pending)
    → IsValid s
    → Fifo s ps
    → Keeps ps (queue_response s pid tid m client)
queue_response_lem s pid tid m client ps valid v = elim (find_empty_slot-FindsEmpty s valid) [
  | inl (_, nothing) ↦
      subst (Keeps ps) (sym (queue_response-none s pid tid m client nothing)) (valid, v)
  | inr (i, some_left, i_in, was, found) ↦
      subst (Keeps ps) (sym (queue_response-found s _ pid tid m client i found)) (
        store_response-Keeps valid v i i_in _ some_left was
          (λ entry e. to_response-quiet pid tid m client e))
]
