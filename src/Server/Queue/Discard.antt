-- ===== src/Server/Queue/Discard.antt =====
-- `discard_messages_for_pid` cuts every tie to a process that has gone, and keeps the order of the
-- messages that wait.
use mathlib.Core.Option.{Option, none, some}
use beet_core.Common.{
  ℕ, zero, suc, ◌<◌, ◌≡◌, ◌≢◌, refl, sym, ◌∙◌, ap, arith, List, [], ◌∷◌, map, length, count_if, ◌⊎◌,
  inr,
}
use beet_core.Server.Types.{
  QueuedMessage, empty, blocking_scalar_message, memory_message_ro_lend, memory_message_rw_lend,
  waiting_return_memory, waiting_return_scalar, Server,
}
use beet_core.Server.Queue.{slot, is_empty_slot}
use beet_core.Server.Queue.Take.{discard_entry, discard_messages_for_pid}
use beet_core.Server.Queue.Invariant.{generation, IsValid}

-- The process that an entry will be answered to, by its memory or by a result.
abbrev pub answers_to : QueuedMessage → Option ℕ
answers_to (blocking_scalar_message pid tid idx msg_id args) = some pid
answers_to (memory_message_ro_lend pid tid idx msg_id client server size offset valid) = some pid
answers_to (memory_message_rw_lend pid tid idx msg_id client server size offset valid) = some pid
answers_to (waiting_return_memory pid tid server client size) = some pid
answers_to (waiting_return_scalar pid tid) = some pid
answers_to _ = none

-- An entry of another process, or that answers nobody, stays; one that answers to `p` goes on
-- with its generation and answers nobody.
abbrev pub Discards : ℕ → QueuedMessage → QueuedMessage → Type 0
Discards p entry entry' =
    (answers_to entry' ≢ some p)
    × ((answers_to entry ≡ some p) ⊎ (entry' ≡ entry))
    × (generation entry' ≡ generation entry)
    × (is_empty_slot entry' ≡ is_empty_slot entry)

discard_entry-Discards : (p : ℕ) (entry : QueuedMessage) → Discards p entry (discard_entry p entry)
unfolding discard_entry
discard_entry-Discards p empty = ((λ e. cc), inr refl, refl, refl)
discard_entry-Discards p (blocking_scalar_message pid tid idx msg_id args) = ground arith
discard_entry-Discards p (memory_message_ro_lend pid tid idx msg_id c s n o v) = ground arith
discard_entry-Discards p (memory_message_rw_lend pid tid idx msg_id c s n o v) = ground arith
discard_entry-Discards p (waiting_return_memory pid tid s c n) = ground arith
discard_entry-Discards p (waiting_return_scalar pid tid) = ground arith
discard_entry-Discards p _ = ((λ e. cc), inr refl, refl, refl)

slot-map :
    (f : QueuedMessage → QueuedMessage) (queue : List QueuedMessage) (i : ℕ)
    → i < length queue
    → slot (map f queue) i ≡ f (slot queue i)
slot-map f [] i h = elim h [ ]
slot-map f (x ∷ xs) zero h = refl
slot-map f (x ∷ xs) (suc i) h = slot-map f xs i (omega arith)

length-map :
    (f : QueuedMessage → QueuedMessage) (queue : List QueuedMessage)
    → length (map f queue) ≡ length queue
length-map f [] = refl
length-map f (x ∷ xs) = ap suc (length-map f xs)

count_if-map :
    (p : ℕ) (queue : List QueuedMessage)
    → count_if is_empty_slot (map (discard_entry p) queue) ≡ count_if is_empty_slot queue
count_if-map p [] = refl
count_if-map p (x ∷ xs) = ground (arith, discard_entry-Discards p x, count_if-map p xs)

-- After `discard_messages_for_pid` no entry of a valid server answers to the process; every entry
-- of another is as it was, each keeps its generation, and the server stays valid.
pub discard_messages_for_pid_lem :
    (s : Server) (p : ℕ)
    → IsValid s
    → IsValid (discard_messages_for_pid s p)
      × ((i : ℕ)
          → i < length s.queue
          → Discards p (slot s.queue i) (slot (discard_messages_for_pid s p).queue i))
unfolding discard_messages_for_pid
discard_messages_for_pid_lem s p v = (
  record {
    head_in = rw (length-map (discard_entry p) s.queue) v.head_in;
    tail_in = rw (length-map (discard_entry p) s.queue) v.tail_in;
    empties = v.empties ∙ sym (count_if-map p s.queue);
    generation_small = v.generation_small;
  },
  λ i h. rw (slot-map (discard_entry p) s.queue i h) (discard_entry-Discards p (slot s.queue i)),
)
