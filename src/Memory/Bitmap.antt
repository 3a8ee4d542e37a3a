-- ===== src/Memory/Bitmap.antt =====
-- Bitmaps of pages, as xous/kernel/src/mem.rs uses the `bitvec` crate: a list of bits, searched and
-- filled over ranges; a range that is not inside the bitmap is a panic.
use beet_core.Common.{
  [], ◌∷◌, take, drop, ◌-◌, Option, none, some, sym, ap, ◌∙◌, arith, ℕ, zero, suc, ◌+◌, ◌-◌, ◌<◌,
  ◌≤◌, ◌≡◌, ◌⊎◌, refl, arith, inl, inr, Bool, true, false, ◌&&◌, List, Option, none, some, leb,
  if◌then◌else◌, length, get_or, set, Bool-cases, ◌==◌, eq_of_==, ne_of_==, length-set,
  get_or-set_ne, get_or-set_self, ◌∙◌, sym, ap,
}
use beet_core.Abi.Outcome.{Outcome, ok, panic}

abbrev pub bit_at : List Bool → ℕ → Bool
bit_at bits i = get_or bits i false

-- `bits[from..to]`, inside the bitmap
abbrev pub slice : List Bool → ℕ → ℕ → List Bool
slice bits from to = take (to - from) (drop from bits)

abbrev pub offset_by : ℕ → Option ℕ → Option ℕ
offset_by from none = none
offset_by from (some idx) = some (from + idx)

-- `bits[from..to].first_one()`, as an index into `bits`, for the crate's search
unfoldable pub first_one : (List Bool → Option ℕ) → List Bool → ℕ → ℕ → Outcome (Option ℕ)
first_one search bits from to =
    if leb from to && leb to (length bits)
    then ok (offset_by from (search (slice bits from to)))
    else panic

-- What the search of a slice promises: a set bit, or that there is none.
abbrev pub Searches : List Bool → Option ℕ → Type 0
Searches bits none = (i : ℕ) → bit_at bits i ≡ false
Searches bits (some i) = bit_at bits i ≡ true

-- The indexes that a search lists are those of set bits.
abbrev pub AllSet : List Bool → List ℕ → Type 0
AllSet bits [] = Unit {0}
AllSet bits (i ∷ indexes) = (bit_at bits i ≡ true) × AllSet bits indexes

-- The result of a search over a range.
abbrev pub Finds : List Bool → ℕ → ℕ → Option ℕ → Type 0
Finds bits from to none = (i : ℕ) → from ≤ i → i < to → bit_at bits i ≡ false
Finds bits from to (some i) = (from ≤ i) × (i < to) × (bit_at bits i ≡ true)

bit_at-take_in : (n i : ℕ) (bits : List Bool) → i < n → bit_at (take n bits) i ≡ bit_at bits i
bit_at-take_in zero i bits h = absurd (omega arith)
bit_at-take_in (suc n) i [] h = refl
bit_at-take_in (suc n) zero (b ∷ bits) h = refl
bit_at-take_in (suc n) (suc i) (b ∷ bits) h = bit_at-take_in n i bits (omega arith)

pub bit_at-take_lt : (n i : ℕ) (bits : List Bool) → bit_at (take n bits) i ≡ true → i < n
bit_at-take_lt zero i bits h = absurd (ground arith)
bit_at-take_lt (suc n) i [] h = absurd (ground arith)
bit_at-take_lt (suc n) zero (b ∷ bits) h = omega arith
bit_at-take_lt (suc n) (suc i) (b ∷ bits) h = omega (arith, bit_at-take_lt n i bits h)

bit_at-drop : (n i : ℕ) (bits : List Bool) → bit_at (drop n bits) i ≡ bit_at bits (n + i)
bit_at-drop zero i bits = ap (bit_at bits) (omega arith)
bit_at-drop (suc n) i [] = refl
bit_at-drop (suc n) i (b ∷ bits) =
    bit_at-drop n i bits ∙ ap (bit_at (b ∷ bits)) {x = suc (n + i)} (omega arith)

-- A hit in a slice is one in the bitmap.
pub bit_at-take :
    (n i : ℕ) (bits : List Bool) → bit_at (take n bits) i ≡ true → bit_at bits i ≡ true
bit_at-take n i bits h = sym (bit_at-take_in n i bits (bit_at-take_lt n i bits h)) ∙ h

-- A bit of a slice that is set is one of the bitmap, in the slice's range.
pub bit_at-slice :
    (bits : List Bool) (from to i : ℕ)
    → bit_at (slice bits from to) i ≡ true
    → (from + i < to) × (bit_at bits (from + i) ≡ true)
bit_at-slice bits from to i on = (
  omega (arith, bit_at-take_lt (to - from) i (drop from bits) on),
  sym (bit_at-drop from i bits) ∙ bit_at-take (to - from) i (drop from bits) on,
)

pub bit_at-slice_first :
    (bits : List Bool) (from to : ℕ)
    → from < to
    → bit_at bits from ≡ true
    → bit_at (slice bits from to) 0 ≡ true
bit_at-slice_first bits from to lt on =
    bit_at-take_in (to - from) 0 (drop from bits) (omega arith)
    ∙ bit_at-drop from 0 bits
    ∙ ap (bit_at bits) {x = from + 0} (omega arith)
    ∙ on

Searches-Finds :
    (bits : List Bool) (from to : ℕ) (r : Option ℕ)
    → Searches (slice bits from to) r
    → Finds bits from to (offset_by from r)
Searches-Finds bits from to none miss = λ i lo hi.
    ap (bit_at bits) {x = i} {y = from + (i - from)} (omega arith)
    ∙ sym (bit_at-drop from (i - from) bits)
    ∙ sym (bit_at-take_in (to - from) (i - from) (drop from bits) (omega arith))
    ∙ miss (i - from)
Searches-Finds bits from to (some j) hit = (
  omega arith,
  omega (arith, bit_at-take_lt (to - from) j (drop from bits) hit),
  sym (bit_at-drop from j bits) ∙ bit_at-take (to - from) j (drop from bits) hit,
)

-- A range inside the bitmap is searched.
pub first_one-Finds :
    (search : List Bool → Option ℕ) (bits : List Bool) (from to : ℕ)
    → ((b : List Bool) → Searches b (search b))
    → from ≤ to
    → to ≤ length bits
    → (r : Option ℕ) × (first_one search bits from to ≡ ok r) × Finds bits from to r
unfolding first_one
first_one-Finds search bits from to laws lo hi = (
  offset_by from (search (slice bits from to)),
  ground arith,
  Searches-Finds bits from to _ (laws (slice bits from to)),
)

-- `bits[from..from + count].fill(value)`, inside the bitmap
unfoldable pub fill {ℓ} : {A : Type ℓ} → List A → ℕ → ℕ → A → List A
fill xs from zero v = xs
fill xs from (suc count) v = fill (set xs from v) (from + 1) count v

pub length-fill {ℓ} :
    {A : Type ℓ} (xs : List A) (from count : ℕ) (v : A) → length (fill xs from count v) ≡ length xs
unfolding fill
length-fill xs from zero v = refl
length-fill xs from (suc count) v =
    length-fill (set xs from v) (from + 1) count v ∙ length-set xs from v

-- A fill reaches nothing but its range.
pub get_or-fill_out {ℓ} :
    {A : Type ℓ} (xs : List A) (from count i : ℕ) (v d : A)
    → (i < from) ⊎ (from + count ≤ i)
    → get_or (fill xs from count v) i d ≡ get_or xs i d
unfolding fill
get_or-fill_out xs from zero i v d out = refl
get_or-fill_out xs from (suc count) i v d out =
    get_or-fill_out (set xs from v) (from + 1) count i v d (ground arith)
    ∙ get_or-set_ne xs from i v d (λ e. ground arith)

-- A fill reaches all of its range.
pub get_or-fill_in {ℓ} :
    {A : Type ℓ} (xs : List A) (from count i : ℕ) (v d : A)
    → from ≤ i
    → i < from + count
    → i < length xs
    → get_or (fill xs from count v) i d ≡ v
unfolding fill
get_or-fill_in xs from zero i v d lo hi h = absurd (omega arith)
get_or-fill_in xs from (suc count) i v d lo hi h = elim (Bool-cases (from == i)) [
  | inl at ↦
      get_or-fill_out (set xs from v) (from + 1) count i v d
        (inl (omega (arith, eq_of_== from i at)))
      ∙ ap (λ k. get_or (set xs from v) k d) (sym (eq_of_== from i at))
      ∙ get_or-set_self xs from v d (omega (arith, eq_of_== from i at))
  | inr off ↦
      get_or-fill_in (set xs from v) (from + 1) count i v d (omega (arith, ne_of_== from i off))
        (omega arith) (omega (arith, length-set xs from v))
]
