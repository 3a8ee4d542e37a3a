-- ===== src/Server/Queue/Empty.antt =====
-- `find_empty_slot` finds an empty slot exactly when there is one.
use mathlib.Core.Option.{none, some}
use beet_core.Common.{
  ℕ, zero, suc, ◌+◌, ◌-◌, ◌<◌, ◌≤◌, ◌≡◌, refl, ◌∙◌, arith, Bool, true, false, List, [], ◌∷◌, ◌==◌,
  ltb, length, get_or, count_if, Bool-cases, eq_of_==, ne_of_==, inl, inr, ◌⊎◌,
}
use beet_core.Server.Types.{QueuedMessage, empty, Server}
use beet_core.Server.Queue.{slot, is_empty_slot, wrap, find_empty_in, find_empty_slot}
use beet_core.Server.Queue.Invariant.{IsValid}

-- Among `rounds` slots from `i` on, the search finds an empty one, or there is none.
abbrev Search : List QueuedMessage → ℕ → ℕ → Type 0
Search queue i rounds =
    ((find_empty_in queue i rounds ≡ none)
      × ((j : ℕ) → i ≤ j → j < i + rounds → is_empty_slot (slot queue j) ≡ false))
    ⊎ ((j : ℕ) × (find_empty_in queue i rounds ≡ some j)
        × (i ≤ j)
        × (j < i + rounds)
        × (is_empty_slot (slot queue j) ≡ true))

find_empty_in-Search : (queue : List QueuedMessage) (i rounds : ℕ) → Search queue i rounds
unfolding find_empty_in
find_empty_in-Search queue i zero = inl (refl, λ j ge lt. absurd (omega arith))
find_empty_in-Search queue i (suc rounds) = elim (Bool-cases (is_empty_slot (slot queue i))) [
  | inl hit ↦ inr (i, ground arith, omega arith, omega arith, hit)
  | inr miss ↦ elim (find_empty_in-Search queue (i + 1) rounds) [
    | inl (nothing, full) ↦ inl (ground arith, λ j ge lt. full_from j ge lt miss full)
    | inr (j, found, ge, lt, hit) ↦ inr (j, ground arith, omega arith, omega arith, hit)
  ]
]
  where
    full_from :
        (j : ℕ)
        → i ≤ j
        → j < i + suc rounds
        → is_empty_slot (slot queue i) ≡ false
        → ((k : ℕ) → i + 1 ≤ k → k < i + 1 + rounds → is_empty_slot (slot queue k) ≡ false)
        → is_empty_slot (slot queue j) ≡ false
    full_from j ge lt miss full = elim (Bool-cases (i == j)) [
      | inl same ↦ rw (← eq_of_== i j same) miss
      | inr other ↦ full j (omega (arith, ne_of_== i j other)) (omega arith)
    ]

count_if-none {ℓ} :
    {A : Type ℓ} (p : A → Bool) (xs : List A) (d : A)
    → ((j : ℕ) → j < length xs → p (get_or xs j d) ≡ false)
    → count_if p xs ≡ 0
count_if-none p [] d h = refl
count_if-none p (x ∷ xs) d h =
    ground (arith, h 0 (omega arith), count_if-none p xs d (λ j lt. h (suc j) (omega arith)))

pub count_if-pos {ℓ} :
    {A : Type ℓ} (p : A → Bool) (xs : List A) (d : A) (j : ℕ)
    → j < length xs
    → p (get_or xs j d) ≡ true
    → 0 < count_if p xs
count_if-pos p [] d j h e = elim h [ ]
count_if-pos p (x ∷ xs) d zero h e = ground arith
count_if-pos p (x ∷ xs) d (suc j) h e = ground (arith, count_if-pos p xs d j (omega arith) e)

empty_of : (entry : QueuedMessage) → is_empty_slot entry ≡ true → entry ≡ empty
empty_of empty e = refl
empty_of _ e = cc

-- The result of `find_empty_slot`: nothing when the queue is full, and otherwise an empty slot,
-- with the head behind it.
abbrev pub FindsEmpty : Server → Type 0
FindsEmpty s =
    ((s.empty_count ≡ 0) × (find_empty_slot s ≡ none))
    ⊎ ((i : ℕ) × (0 < s.empty_count)
        × (i < length s.queue)
        × (slot s.queue i ≡ empty)
        × (find_empty_slot s ≡ some (i, record s { queue_head = wrap (length s.queue) (i + 1) })))

module _ (s : Server) (v : IsValid s) where
  some_empty :
      (i : ℕ) → i < length s.queue → is_empty_slot (slot s.queue i) ≡ true → 0 < s.empty_count
  some_empty i h hit = omega (arith, v.empties, count_if-pos is_empty_slot s.queue empty i h hit)

  none_empty :
      ((j : ℕ)
        → s.queue_head ≤ j
        → j < s.queue_head + (length s.queue - s.queue_head)
        → is_empty_slot (slot s.queue j) ≡ false)
      → ((j : ℕ) → 0 ≤ j → j < 0 + s.queue_head → is_empty_slot (slot s.queue j) ≡ false)
      → s.empty_count ≡ 0
  none_empty behind before =
      v.empties
      ∙ count_if-none is_empty_slot s.queue empty λ j lt. elim (Bool-cases (ltb j s.queue_head)) [
        | inl less ↦ before j (omega arith) (ground arith)
        | inr more ↦ behind j (ground arith) (omega (arith, v.head_in))
      ]

pub find_empty_slot-FindsEmpty : (s : Server) → IsValid s → FindsEmpty s
unfolding find_empty_slot
find_empty_slot-FindsEmpty s v =
    elim (find_empty_in-Search s.queue s.queue_head (length s.queue - s.queue_head)) [
      | inr (i, found, ge, lt, hit) ↦ inr (
        i,
        some_empty s v i (omega (arith, v.head_in)) hit,
        omega (arith, v.head_in),
        empty_of _ hit,
        ground arith,
      )
      | inl (nothing, full) ↦ elim (find_empty_in-Search s.queue 0 s.queue_head) [
        | inr (i, found, ge, lt, hit) ↦ inr (
          i,
          some_empty s v i (omega (arith, v.head_in)) hit,
          omega (arith, v.head_in),
          empty_of _ hit,
          ground arith,
        )
        | inl (none_before, full_before) ↦ inl (none_empty s v full full_before, ground arith)
      ]
    ]
