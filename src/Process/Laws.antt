-- ===== src/Process/Laws.antt =====
-- The connection map of a process (xous/kernel/src/process.rs): what is connected is disconnected
-- again, and a destroyed server has no connections left.
use beet_core.Common.{
  ℕ, zero, suc, ◌+◌, ◌-◌, ◌%◌, ◌<◌, ◌≤◌, ◌≡◌, ◌≢◌, ◌⊎◌, inl, inr, refl, sym, ap, ◌∙◌, arith, Bool,
  true, false, List, [], ◌∷◌, Option, none, some, ltb, ◌==◌, set, length, Bool-cases, eq_of_==,
  ne_of_==, get_elem?-set_self, get_or-set_self, get_or-set_ne,
}
use beet_core.Abi.Outcome.{Outcome, ok}
use beet_core.Abi.After.{After}
use beet_core.Server.Types.{MessagePermissions}
use beet_core.Process.{
  ConnectionSlot, free, tombstone, connected, slot_at, after_one, position, is_connected_to,
  is_free, bump, add_new, add_again, add_connection, connection, disconnect_slot,
  disconnect_from_server, bury, bury_at, tombstone_connection_by_sidx,
}

-- Where a slot that passes is found.
abbrev pub Position : (ConnectionSlot → Bool) → List ConnectionSlot → Option ℕ → Type 0
Position p slots none = (i : ℕ) → i < length slots → p (slot_at slots i) ≡ false
Position p slots (some i) = (i < length slots) × (p (slot_at slots i) ≡ true)

Position-after :
    (p : ConnectionSlot → Bool) (slot : ConnectionSlot) (slots : List ConnectionSlot) (r : Option ℕ)
    → p slot ≡ false
    → Position p slots r
    → Position p (slot ∷ slots) (after_one r)
Position-after p slot slots none miss f = λ i h. at i h
  where
    at : (i : ℕ) → i < length (slot ∷ slots) → p (slot_at (slot ∷ slots) i) ≡ false
    at zero h = miss
    at (suc i) h = f i (omega arith)
Position-after p slot slots (some i) miss f = (omega (arith, f.0), f.1)

pub position-Position :
    (p : ConnectionSlot → Bool) (slots : List ConnectionSlot) → Position p slots (position p slots)
unfolding position
position-Position p [] = λ i h. absurd (omega arith)
position-Position p (slot ∷ slots) = elim (Bool-cases (p slot)) [
  | inl hit ↦ rw hit (omega arith, hit)
  | inr miss ↦
      rw miss (Position-after p slot slots (position p slots) miss (position-Position p slots))
]

set-set :
    (xs : List ConnectionSlot) (i : ℕ) (a b : ConnectionSlot) → set (set xs i a) i b ≡ set xs i b
set-set [] i a b = refl
set-set (x ∷ xs) zero a b = refl
set-set (x ∷ xs) (suc i) a b = ap (◌∷◌ x) (set-set xs i a b)

set-slot_at : (xs : List ConnectionSlot) (i : ℕ) → set xs i (slot_at xs i) ≡ xs
set-slot_at [] i = refl
set-slot_at (x ∷ xs) zero = refl
set-slot_at (x ∷ xs) (suc i) = ap (◌∷◌ x) (set-slot_at xs i)

-- Connected slots have a reference.
abbrev pub IsCounted : List ConnectionSlot → Type 0
IsCounted slots =
    (i sidx refcount : ℕ) (permissions : MessagePermissions)
    → slot_at slots i ≡ connected sidx refcount permissions
    → 0 < refcount

slot-Connected :
    (slot : ConnectionSlot) (sidx : ℕ)
    → is_connected_to sidx slot ≡ true
    → (refcount : ℕ) × (permissions : MessagePermissions) × (slot
        ≡ connected sidx refcount permissions)
slot-Connected free sidx h = absurd (ground arith)
slot-Connected (tombstone r) sidx h = absurd (ground arith)
slot-Connected (connected other r q) sidx h =
    (r, q, ap (λ k. connected k r q) (eq_of_== other sidx h))

slot-Free : (slot : ConnectionSlot) → is_free slot ≡ true → slot ≡ free
slot-Free free h = refl
slot-Free (tombstone r) h = absurd (ground arith)
slot-Free (connected other r q) h = absurd (ground arith)

plus_two : (i : ℕ) → i + 2 - 2 ≡ i
plus_two i = omega arith

connection-set :
    (slots : List ConnectionSlot) (i : ℕ) (slot : ConnectionSlot)
    → i < length slots
    → connection (set slots i slot) (i + 2) ≡ ok slot
unfolding connection
connection-set slots i slot h =
    let big : ltb (i + 2) 2 ≡ false = ground arith in
    rw big (rw (plus_two i) (rw (get_elem?-set_self slots i slot h) refl))

-- A slot that was written is disconnected to what it was.
disconnect_back :
    (slots : List ConnectionSlot) (i : ℕ) (slot old : ConnectionSlot)
    → i < length slots
    → slot_at slots i ≡ old
    → disconnect_slot slot ≡ ok old
    → disconnect_from_server (set slots i slot) (i + 2) ≡ ok slots
unfolding disconnect_from_server
disconnect_back slots i slot old h was back = rw (connection-set slots i slot h) (
    rw back (
      ap ok (
        ap (λ k. set (set slots i slot) k old) (plus_two i)
        ∙ set-set slots i slot old
        ∙ ap (set slots i) (sym was)
        ∙ set-slot_at slots i)))

-- What a connection has done is undone by the disconnection.
abbrev pub Undone : List ConnectionSlot → Outcome (List ConnectionSlot × ℕ) → Type 0
Undone slots = After (λ r. disconnect_from_server (r.0) (r.1) ≡ ok slots)

add_new-Undone :
    (slots : List ConnectionSlot) (sidx : ℕ) (permissions : MessagePermissions) (r : Option ℕ)
    → Position is_free slots r
    → Undone slots (add_new slots sidx permissions r)
add_new-Undone slots sidx permissions none f = tt
add_new-Undone slots sidx permissions (some i) f =
    disconnect_back slots i _ free (f.0) (slot-Free (slot_at slots i) (f.1)) refl

add_again-Undone :
    (slots : List ConnectionSlot) (sidx : ℕ) (r : Option ℕ)
    (new : Outcome (List ConnectionSlot × ℕ))
    → IsCounted slots
    → Position (is_connected_to sidx) slots r
    → Undone slots new
    → Undone slots (add_again slots r new)
add_again-Undone slots sidx none new c f u = u
add_again-Undone slots sidx (some i) new c f u =
    let (refcount, permissions, was) = slot-Connected (slot_at slots i) sidx (f.1) in
    let more : ltb 1 (refcount + 1) ≡ true = ground (arith, c i sidx refcount permissions was) in
    let less : refcount + 1 - 1 ≡ refcount = omega arith in
    disconnect_back slots i (bump (slot_at slots i)) (connected sidx refcount permissions) (f.0) was
      (rw was (rw more (rw less refl)))

-- When every connected slot has a reference, disconnecting what `add_connection` returned gives the
-- connection map back as it was, for a new connection and for one more reference.
pub disconnect_from_server-add_connection :
    (slots : List ConnectionSlot) (sidx : ℕ) (permissions : MessagePermissions)
    → IsCounted slots
    → Undone slots (add_connection slots sidx permissions)
unfolding add_connection
disconnect_from_server-add_connection slots sidx permissions c =
    add_again-Undone slots (sidx % 256) _ _ c
      (position-Position (is_connected_to (sidx % 256)) slots)
      (add_new-Undone slots sidx permissions _ (position-Position is_free slots))

-- A server index has one connected slot at most.
abbrev pub Single : ℕ → List ConnectionSlot → Type 0
Single sidx slots =
    (i j : ℕ)
    → is_connected_to sidx (slot_at slots i) ≡ true
    → is_connected_to sidx (slot_at slots j) ≡ true
    → i ≡ j

bury-Apart : (sidx : ℕ) (slot : ConnectionSlot) → is_connected_to sidx (bury slot) ≡ false
bury-Apart sidx free = refl
bury-Apart sidx (tombstone r) = refl
bury-Apart sidx (connected other r q) = refl

pub slot_at-beyond :
    (slots : List ConnectionSlot) (i : ℕ) → length slots ≤ i → slot_at slots i ≡ free
slot_at-beyond [] i h = refl
slot_at-beyond (x ∷ xs) zero h = absurd (omega arith)
slot_at-beyond (x ∷ xs) (suc i) h = slot_at-beyond xs i (omega arith)

bury_at-Apart :
    (slots : List ConnectionSlot) (sidx : ℕ) (r : Option ℕ)
    → Single sidx slots
    → Position (is_connected_to sidx) slots r
    → (i : ℕ) → is_connected_to sidx (slot_at ((bury_at slots r).0) i) ≡ false
bury_at-Apart slots sidx none single f i = elim (Bool-cases (ltb i (length slots))) [
  | inl lt ↦ f i (ground arith)
  | inr ge ↦ rw (slot_at-beyond slots i (ground arith)) refl
]
bury_at-Apart slots sidx (some k) single f i = elim (Bool-cases (k == i)) [
  | inl at ↦
      ap (λ j. is_connected_to sidx (slot_at (set slots k (bury (slot_at slots k))) j))
        (sym (eq_of_== k i at))
      ∙ ap (is_connected_to sidx) (get_or-set_self slots k (bury (slot_at slots k)) free (f.0))
      ∙ bury-Apart sidx (slot_at slots k)
  | inr off ↦
      ap (is_connected_to sidx)
        (get_or-set_ne slots k i (bury (slot_at slots k)) free (ne_of_== k i off))
      ∙ other (ne_of_== k i off) (Bool-cases (is_connected_to sidx (slot_at slots i)))
]
  where
    other :
        (k ≢ i)
        → (is_connected_to sidx (slot_at slots i) ≡ true)
          ⊎ (is_connected_to sidx (slot_at slots i) ≡ false)
        → is_connected_to sidx (slot_at slots i) ≡ false
    other apart_of (inl same) = absurd (apart_of (single k i (f.1) same))
    other apart_of (inr apart) = apart

-- When at most one slot is connected to a server, no slot is connected to it after
-- `tombstone_connection_by_sidx`.
pub tombstone_connection_by_sidx-apart :
    (slots : List ConnectionSlot) (dead_sidx : ℕ)
    → Single (dead_sidx % 256) slots
    → (i : ℕ)
    → is_connected_to
        (dead_sidx % 256)
        (slot_at ((tombstone_connection_by_sidx slots dead_sidx).0) i)
      ≡ false
unfolding tombstone_connection_by_sidx
tombstone_connection_by_sidx-apart slots dead_sidx single i =
    bury_at-Apart slots (dead_sidx % 256) _ single
      (position-Position (is_connected_to (dead_sidx % 256)) slots) i
