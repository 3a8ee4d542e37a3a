-- ===== src/Server/Queue/Search.antt =====
-- The loop of `take_next_message` finds a slot with the generation that it looks for.
use mathlib.Core.Option.{Option, none, some}
use beet_core.Common.{
  ℕ, zero, suc, ◌+◌, ◌-◌, ◌<◌, ◌≡◌, ◌≢◌, ◌∙◌, arith, false, List, ◌==◌, ltb, leb, if◌then◌else◌,
  length, Option-cases, inl, inr,
}
use beet_core.Abi.Message.{Envelope}
use beet_core.Server.Types.{QueuedMessage}
use beet_core.Server.Queue.{slot, wrap}
use beet_core.Server.Queue.Take.{take_slot, find_next}
use beet_core.Server.Queue.Invariant.{generation, take_slot_lem}

-- Steps round the queue from `i` to `j`.
abbrev pub steps : ℕ → ℕ → ℕ → ℕ
steps len i j = if leb i j then j - i else len - i + j

-- Steps until the loop is back at `tail` (all of the queue from `tail` itself).
abbrev pub left : ℕ → ℕ → ℕ → ℕ
left len tail i = if ltb i tail then tail - i else len - i + tail

-- One step round the queue towards another slot, which is reached before `tail`.
step_towards :
    (len tail i j : ℕ)
    → i < len
    → j < len
    → tail < len
    → i ≢ j
    → steps len i j < left len tail i
    → (wrap len (i + 1) < len)
      × ((wrap len (i + 1) == tail) ≡ false)
      × (steps len (wrap len (i + 1)) j + 1 ≡ steps len i j)
      × (left len tail (wrap len (i + 1)) + 1 ≡ left len tail i)
step_towards len tail i j hi hj ht ne before =
    (ground arith, ground arith, ground arith, ground arith)

-- The search found a slot and what is received from it.
abbrev pub Found : List QueuedMessage → ℕ → ℕ → Option (ℕ × Envelope × QueuedMessage) → Type 0
Found queue sidx g r =
    (i : ℕ) × (received : Envelope) × (response : QueuedMessage) × (r
      ≡ some (i, received, response))
    × (i < length queue)
    × (take_slot sidx i g (slot queue i) ≡ some (received, response))

module _ (queue : List QueuedMessage) (sidx g tail : ℕ) (tail_in : tail < length queue) where
  find_next_hit :
      (rounds i : ℕ) (received : Envelope) (response : QueuedMessage)
      → take_slot sidx i g (slot queue i) ≡ some (received, response)
      → find_next (suc rounds) queue sidx g tail i ≡ some (i, received, response)
  unfolding find_next
  find_next_hit rounds i received response hit = ground arith

  find_next_miss :
      (rounds i : ℕ)
      → take_slot sidx i g (slot queue i) ≡ none
      → (wrap (length queue) (i + 1) == tail) ≡ false
      → find_next (suc rounds) queue sidx g tail i
        ≡ find_next rounds queue sidx g tail (wrap (length queue) (i + 1))
  unfolding find_next
  find_next_miss rounds i miss not_tail = ground arith

  -- The loop meets the slot `j` before it is back at `tail`.
  pub find_next-Found :
      (rounds i j : ℕ)
      → i < length queue
      → j < length queue
      → generation (slot queue j) ≡ some g
      → steps (length queue) i j < rounds
      → steps (length queue) i j < left (length queue) tail i
      → Found queue sidx g (find_next rounds queue sidx g tail i)
  find_next-Found zero i j hi hj e near before = elim near [ ]
  find_next-Found (suc rounds) i j hi hj e near before =
      elim (Option-cases (take_slot sidx i g (slot queue i))) [
        | inr ((received, response), hit) ↦
            (i, received, response, find_next_hit rounds i received response hit, hi, hit)
        | inl miss ↦
            let ne : i ≢ j = λ same. take_slot_lem sidx i g (slot queue i) (rw same e) miss in
            let (n_in, not_tail, n_steps, n_left) =
              step_towards (length queue) tail i j hi hj tail_in ne before in
            let (k, received, response, found, k_in, hit) =
              find_next-Found rounds (wrap (length queue) (i + 1)) j n_in hj e (omega arith)
                (omega arith) in
            (k, received, response, find_next_miss rounds i miss not_tail ∙ found, k_in, hit)
      ]
