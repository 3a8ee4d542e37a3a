-- ===== src/Server/Ready/Laws.antt =====
-- `take_available_thread` takes the lowest waiting thread and never panics, and undoes a park.
use native.Mathlib.Nat.{pow-suc, add-zero, zero-add}
use beet_core.Common.{
  ℕ, zero, suc, ◌+◌, ◌/◌, ◌^◌, ◌<◌, ◌≤◌, true, false, none, some, ◌≡◌, refl, ◌≢◌, arith, ◌==◌, bit,
  clear_bit, set_bit, Bool-cases, eq_of_==, ne_of_==, inl, inr, ◌⊎◌, ◌∙◌, sym, ap, subst, ltb, leb,
  ◌||◌, ◌*◌, ◌%◌, bit-zero, bit-set_bit_self, bit-set_bit_ne, bit-clear_bit_self, bit-clear_bit_ne,
}
use beet_core.Abi.Outcome.{ok}
use beet_core.Server.Types.{Server}
use beet_core.Server.Ready.{find_ready, take_available_thread, park_thread, return_available_thread}

true_ne_false : ¬ (true ≡ false)
true_ne_false e = ground arith

-- A word with no bit below its width is 0.
zero_of_bits : (w x : ℕ) → x < 2 ^ w → ((i : ℕ) → i < w → bit x i ≡ false) → x ≡ 0
unfolding bit
zero_of_bits zero x h none_set = omega arith
zero_of_bits (suc w) x h none_set =
    let half : x / 2 ≡ 0 =
      zero_of_bits w (x / 2) (omega (arith, pow-suc 2 w))
        (λ i lt. none_set (suc i) (omega arith)) in
    ground (arith, half, none_set 0 (omega arith))

-- The search from thread `n` finds the first set bit, or there is none in its rounds.
abbrev Search : ℕ → ℕ → ℕ → Type 0
Search rounds ready n =
    ((i : ℕ) → i < rounds → bit ready (n + i) ≡ false)
    ⊎ ((t : ℕ) × (find_ready rounds ready n ≡ ok (t, clear_bit ready t))
        × (bit ready t ≡ true)
        × ((i : ℕ) → n ≤ i → i < t → bit ready i ≡ false))

clear_from :
    (ready n rounds : ℕ)
    → bit ready n ≡ false
    → ((i : ℕ) → i < rounds → bit ready (n + 1 + i) ≡ false)
    → (i : ℕ) → i < suc rounds
    → bit ready (n + i) ≡ false
clear_from ready n rounds e rest zero h = rw add-zero e
clear_from ready n rounds e rest (suc i) h =
    let at : n + suc i ≡ n + 1 + i = omega arith in rw at (rest i (omega arith))

low_from :
    (ready n t : ℕ)
    → bit ready n ≡ false
    → ((i : ℕ) → n + 1 ≤ i → i < t → bit ready i ≡ false)
    → (i : ℕ) → n ≤ i
    → i < t
    → bit ready i ≡ false
low_from ready n t e low i ge lt = elim (Bool-cases (i == n)) [
  | inl same ↦ rw (eq_of_== i n same) e
  | inr other ↦ low i (omega (arith, ne_of_== i n other)) lt
]

find_ready_cases : (rounds ready n : ℕ) → Search rounds ready n
unfolding find_ready
find_ready_cases zero ready n = inl (λ i h. absurd (omega arith))
find_ready_cases (suc rounds) ready n = elim (Bool-cases (bit ready n)) [
  | inl hit ↦ inr (n, rw hit, hit, λ i ge lt. absurd (omega arith))
  | inr miss ↦ elim (find_ready_cases rounds ready (n + 1)) [
    | inl clear ↦ inl (clear_from ready n rounds miss clear)
    | inr (t, found, hit, low) ↦ inr (t, rw miss found, hit, low_from ready n t miss low)
  ]
]

-- The outcome of `take_available_thread`: nothing to take, or the lowest thread is taken out.
abbrev pub Takes : Server → Type 0
Takes s =
    ((s.ready_threads ≡ 0) × (take_available_thread s ≡ ok (none, s)))
    ⊎ ((t : ℕ) × (s' : Server) × (take_available_thread s ≡ ok (some t, s'))
        × (bit s.ready_threads t ≡ true)
        × ((i : ℕ) → i < t → bit s.ready_threads i ≡ false)
        × (bit s'.ready_threads t ≡ false)
        × ((j : ℕ) → t ≢ j → bit s'.ready_threads j ≡ bit s.ready_threads j)
        × (s' ≡ record s { ready_threads = s'.ready_threads }))

-- On any 64-bit word `take_available_thread` does not panic: it returns nothing exactly when no
-- thread waits, and otherwise takes the lowest waiting thread and leaves all others waiting.
pub take_available_thread_lem : (s : Server) → s.ready_threads < 2 ^ 64 → Takes s
unfolding take_available_thread
take_available_thread_lem s h = elim (Bool-cases (s.ready_threads == 0)) [
  | inl none_waits ↦ inl (eq_of_== _ _ none_waits, rw none_waits)
  | inr some_waits ↦ elim (find_ready_cases 64 s.ready_threads 0) [
    | inl clear ↦
        absurd (ne_of_== _ _ some_waits (zero_of_bits 64 _ h λ i lt. rw zero-add at (clear i lt)))
    | inr (t, found, hit, low) ↦ inr (
      t,
      record s { ready_threads = clear_bit s.ready_threads t },
      rw (some_waits, found),
      hit,
      λ i lt. low i (omega arith) lt,
      bit-clear_bit_self s.ready_threads t,
      λ j ne. bit-clear_bit_ne s.ready_threads t j ne,
      refl,
    )
  ]
]

clear_bit-set_bit : (x i : ℕ) → bit x i ≡ false → clear_bit (set_bit x i) i ≡ x
unfolding bit set_bit clear_bit
clear_bit-set_bit x zero h = ground arith
clear_bit-set_bit x (suc i) h =
    let half : (set_bit (x / 2) i * 2 + x % 2) / 2 ≡ set_bit (x / 2) i = omega arith in
    let low : (set_bit (x / 2) i * 2 + x % 2) % 2 ≡ x % 2 = omega arith in
    rw (half, low) (omega (arith, clear_bit-set_bit (x / 2) i h))

set_bit-lt : (w x i : ℕ) → x < 2 ^ w → i < w → set_bit x i < 2 ^ w
unfolding set_bit
set_bit-lt zero x i h h' = absurd (omega arith)
set_bit-lt (suc w) x zero h h' = omega (arith, pow-suc 2 w)
set_bit-lt (suc w) x (suc i) h h' =
    omega (arith, pow-suc 2 w, set_bit-lt w (x / 2) i (omega (arith, pow-suc 2 w)) (omega arith))

set_bit-nonzero : (x i : ℕ) → set_bit x i ≢ 0
set_bit-nonzero x i e =
    true_ne_false (sym (bit-set_bit_self x i) ∙ ap (λ y. bit y i) e ∙ bit-zero i)

-- The lowest thread is the one that is found.
find_lowest :
    (ready tid : ℕ)
    → tid < 64
    → bit ready tid ≡ true
    → ((i : ℕ) → i < tid → bit ready i ≡ false)
    → find_ready 64 ready 0 ≡ ok (tid, clear_bit ready tid)
find_lowest ready tid h hit low = elim (find_ready_cases 64 ready 0) [
  | inl clear ↦ absurd (true_ne_false (sym hit ∙ rw zero-add at (clear tid h)))
  | inr (t, found, here, below) ↦ elim (Bool-cases (ltb t tid)) [
    | inl lt ↦ absurd (true_ne_false (sym here ∙ low t (ground arith)))
    | inr ge ↦ elim (Bool-cases (t == tid)) [
      | inl same ↦
          subst (λ k. find_ready 64 ready 0 ≡ ok (k, clear_bit ready k)) (eq_of_== t tid same) found
      | inr off ↦ absurd (true_ne_false (sym hit ∙ below tid (omega arith) (ground arith)))
    ]
  ]
]

-- When neither the thread, one of the 64, nor a lower one waits in a 64-bit word, `park_thread` and
-- `return_available_thread` of it do not panic and leave one server, whose word still has 64 bits;
-- `take_available_thread` then returns that thread and the server as it was before.
pub take_available_thread-park_thread :
    (s : Server) (tid : ℕ)
    → s.ready_threads < 2 ^ 64
    → tid < 64
    → ((i : ℕ) → i ≤ tid → bit s.ready_threads i ≡ false)
    → (s' : Server) × (park_thread s tid ≡ ok s')
      × (return_available_thread s tid ≡ ok s')
      × (s'.ready_threads < 2 ^ 64)
      × (take_available_thread s' ≡ ok (some tid, s))
unfolding park_thread return_available_thread take_available_thread
take_available_thread-park_thread s tid small h low =
    let free : bit s.ready_threads tid ≡ false = low tid (omega arith) in
    let passes : (leb 64 tid || bit s.ready_threads tid) ≡ false = ground arith in
    let next = set_bit s.ready_threads tid in
    let some_waits : (next == 0) ≡ false = ground (arith, set_bit-nonzero s.ready_threads tid) in
    let found =
      find_lowest next tid h (bit-set_bit_self s.ready_threads tid)
        (λ i lt. bit-set_bit_ne s.ready_threads tid i (omega arith) ∙ low i (omega arith)) in
    (
      record s { ready_threads = next },
      rw passes refl,
      rw passes refl,
      set_bit-lt 64 s.ready_threads tid small h,
      rw (some_waits, found)
          (ap (λ word. ok (some tid, record s { ready_threads = word }))
            (clear_bit-set_bit s.ready_threads tid free)),
    )
