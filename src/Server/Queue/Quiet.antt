-- ===== src/Server/Queue/Quiet.antt =====
-- Writes to the slots of a queue that leave the waiting messages alone.
use mathlib.Core.Option.{Option, none, some}
use beet_core.Common.{
  ℕ, ◌+◌, ◌%◌, ◌<◌, ◌≡◌, ◌≢◌, refl, sym, ◌∙◌, ap, arith, false, List, ◌==◌, length, get_elem?, set,
  Bool-cases, inl, inr, length-set, get_or-set_self, get_or-set_ne, count_if-set, eq_of_==,
  ne_of_==,
}
use beet_core.Abi.Outcome.{ok}
use beet_core.Abi.Message.{
  MemoryRange, Message, mutable_borrow, borrow, move, scalar, blocking_scalar,
}
use beet_core.Server.Types.{QueuedMessage, empty, WaitingMessage, Server}
use beet_core.Server.Queue.{slot, is_empty_slot, to_response}
use beet_core.Server.Queue.Take.{waiting_result}
use beet_core.Server.Queue.Invariant.{
  generation, has_generation, Pending, Delivers, Fifo, Delivers-subst, generation-Delivers,
}

none_ne_some : {g : ℕ} → none ≢ some g
none_ne_some e = cc

-- A write over an entry that does not wait, with one that does not wait.
module _ {s : Server} {ps : List Pending} (v : Fifo s ps) (i : ℕ) (entry : QueuedMessage)
    (i_in : i < length s.queue) (before : generation (slot s.queue i) ≡ none)
    (after : generation entry ≡ none) (head tail count : ℕ) where
  abbrev pub quiet : Server
  quiet = record s {
    queue = set s.queue i entry;
    queue_head = head;
    queue_tail = tail;
    empty_count = count;
  }

  quiet_here :
      (k : ℕ) (q : Pending)
      → get_elem? ps k ≡ some q
      → (q.at < length (set s.queue i entry))
        × Delivers ((s.head_generation + k) % 256) (slot (set s.queue i entry) q.at) q
  quiet_here k q e =
      let (q_in, d) = v.here k q e in
      let ne : i ≢ q.at = λ same.
        none_ne_some
          (sym before ∙ ap (λ j. generation (slot s.queue j)) same ∙ generation-Delivers _ _ q d) in
      (
        rw (length-set s.queue i entry) q_in,
        Delivers-subst _ _ _ _ q refl (sym (get_or-set_ne s.queue i q.at entry empty ne)) d,
      )

  quiet_only :
      (j g : ℕ)
      → j < length s.queue
      → generation (slot (set s.queue i entry) j) ≡ some g
      → (k : ℕ) × (q : Pending) × (get_elem? ps k ≡ some q)
        × (q.at ≡ j)
        × (g ≡ (s.head_generation + k) % 256)
  quiet_only j g h e = elim (Bool-cases (i == j)) [
    | inl same ↦
        let kept : slot (set s.queue i entry) j ≡ entry =
          rw (← eq_of_== i j same) (get_or-set_self s.queue i entry empty i_in) in
        absurd (none_ne_some (sym after ∙ ap generation (sym kept) ∙ e))
    | inr other ↦
        v.only j g h
          (ap generation (sym (get_or-set_ne s.queue i j entry empty (ne_of_== i j other))) ∙ e)
  ]

  pub quiet-Fifo : Fifo quiet ps
  quiet-Fifo = record {
    few = v.few;
    tail = v.tail;
    counted =
        ground
          (arith, v.counted, before, after, count_if-set has_generation s.queue i entry empty i_in);
    here = quiet_here;
    only = λ j g h. quiet_only j g (rw (length-set s.queue i entry) at h);
  }

-- The response entries do not wait, and are not empty.
pub to_response-quiet :
    (pid tid : ℕ) (m : Message) (original : Option ℕ) {entry : QueuedMessage}
    → to_response pid tid m original ≡ ok entry
    → (generation entry ≡ none) × (is_empty_slot entry ≡ false)
unfolding to_response
to_response-quiet pid tid (scalar m) original e = ground arith
to_response-quiet pid tid (blocking_scalar m) original e = ground arith
to_response-quiet pid tid (move m) original e = ground arith
to_response-quiet pid tid (mutable_borrow m) original e = ground arith
to_response-quiet pid tid (borrow m) original e = ground arith

-- A result is taken only from an entry that does not wait and is not empty.
pub waiting_result-quiet :
    (buf : Option MemoryRange) (entry : QueuedMessage) {w : WaitingMessage}
    → waiting_result buf entry ≡ ok (some w)
    → (generation entry ≡ none) × (is_empty_slot entry ≡ false)
unfolding waiting_result
waiting_result-quiet buf empty e = ground arith
waiting_result-quiet buf _ e = ground arith
