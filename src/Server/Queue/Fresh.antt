-- ===== src/Server/Queue/Fresh.antt =====
-- When a server that `init` makes is valid: `init` does not clear the memory of the queue.
use mathlib.Core.Option.{none, some}
use beet_core.Common.{
  ℕ, zero, suc, ◌<◌, ◌≤◌, ◌≡◌, ◌≢◌, refl, sym, ◌∙◌, ap, arith, true, List, [], ◌∷◌, length,
  count_if,
}
use beet_core.Abi.Outcome.{ok}
use beet_core.Abi.Result.{Sid}
use beet_core.Server.Types.{empty, QueuedMessage, Server, Range}
use beet_core.Server.Queue.{slot, is_empty_slot}
use beet_core.Server.Queue.Take.{init}
use beet_core.Server.Queue.Invariant.{generation, has_generation, IsValid, Fifo}

-- All entries of a queue are `Empty`.
abbrev pub AllEmpty : List QueuedMessage → Type 0
AllEmpty queue = (i : ℕ) → slot queue i ≡ empty

none_ne_some : {g : ℕ} → none ≢ some g
none_ne_some e = cc

count_if-AllEmpty :
    (queue : List QueuedMessage)
    → AllEmpty queue
    → (count_if is_empty_slot queue ≡ length queue) × (count_if has_generation queue ≡ 0)
count_if-AllEmpty [] all = (refl, refl)
count_if-AllEmpty (x ∷ xs) all =
    let rest = count_if-AllEmpty xs (λ i. all (suc i)) in rw (all 0) (ap suc (rest.0), rest.1)

count_if-le : (queue : List QueuedMessage) → count_if is_empty_slot queue ≤ length queue
count_if-le [] = omega arith
count_if-le (x ∷ xs) = ground (arith, count_if-le xs)

is_empty_slot-empty : (entry : QueuedMessage) → is_empty_slot entry ≡ true → entry ≡ empty
is_empty_slot-empty empty h = refl
is_empty_slot-empty _ h = ground arith

AllEmpty-count_if :
    (queue : List QueuedMessage) → count_if is_empty_slot queue ≡ length queue → AllEmpty queue
AllEmpty-count_if [] e i = refl
AllEmpty-count_if (x ∷ xs) e zero = is_empty_slot-empty x (ground (arith, count_if-le xs, e))
AllEmpty-count_if (x ∷ xs) e (suc i) = AllEmpty-count_if xs (ground (arith, count_if-le xs, e)) i

-- The fields of the server that `init` makes.
init_fields :
    (pid : ℕ) (sid : Sid) (queue : List QueuedMessage) (permissions : Range) {s : Server}
    → init none pid sid queue permissions ≡ ok s
    → (s.queue ≡ queue)
      × (s.queue_head ≡ 0)
      × (s.queue_tail ≡ 0)
      × (s.head_generation ≡ 0)
      × (s.tail_generation ≡ 0)
      × (s.empty_count ≡ length queue)
unfolding init
init_fields pid sid queue permissions e = ground arith

-- A server that `init` makes in a backing memory of at least one entry is valid with no message
-- waiting when every entry of the memory is `Empty`, and it is not valid otherwise.
pub init_lem :
    (pid : ℕ) (sid : Sid) (queue : List QueuedMessage) (permissions : Range) (s : Server)
    → 0 < length queue
    → init none pid sid queue permissions ≡ ok s
    → (AllEmpty queue → IsValid s × Fifo s []) × (IsValid s → AllEmpty queue)
init_lem pid sid queue permissions s h e =
    let (queue_eq, head, tail, head_gen, tail_gen, empties) =
      init_fields pid sid queue permissions e in
    let size : length s.queue ≡ length queue = ap length queue_eq in
    (
      λ all. (
        record {
          head_in = omega arith;
          tail_in = omega arith;
          empties =
              empties
              ∙ sym (ap (count_if is_empty_slot) queue_eq ∙ (count_if-AllEmpty queue all).0);
          generation_small = omega arith;
        },
        record {
          few = omega arith;
          tail = omega arith;
          counted = sym (ap (count_if has_generation) queue_eq ∙ (count_if-AllEmpty queue all).1);
          here = λ k p at. cc;
          only = λ i g i_in gen. absurd (
              none_ne_some
                (sym (ap (λ q. generation (slot q i)) queue_eq ∙ ap generation (all i)) ∙ gen));
        },
      ),
      λ v.
          AllEmpty-count_if queue
            (sym (ap (count_if is_empty_slot) queue_eq) ∙ sym v.empties ∙ empties),
    )
