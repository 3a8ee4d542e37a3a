-- ===== src/Process/Keeps.antt =====
-- The connection map of xous/kernel/src/process.rs stays well-formed.
use beet_core.Common.{
  ℕ, zero, suc, ◌-◌, ◌%◌, ◌<◌, ◌≡◌, ◌≢◌, ◌⊎◌, inl, inr, refl, sym, ap, ◌∙◌, subst, arith, true,
  false, List, [], ◌∷◌, Option, none, some, ltb, ◌==◌, get_elem?, get_elem?-lt, set, length,
  Bool-cases, eq_of_==, ne_of_==, get_or-set_self, get_or-set_ne,
}
use beet_core.Abi.Error.{server_not_found}
use beet_core.Abi.Outcome.{ok_or}
use beet_core.Abi.After.{After, After-then}
use beet_core.Server.Types.{MessagePermissions}
use beet_core.Process.{
  ConnectionSlot, free, tombstone, connected, slot_at, is_connected_to, is_free, bump, add_new,
  add_again, add_connection, connection, disconnect_slot, disconnect_from_server, bury, bury_at,
  tombstone_connection_by_sidx,
}
use beet_core.Process.Laws.{Position, position-Position, IsCounted, Single, slot_at-beyond}

-- A server index has one connected slot at most, and a connected slot has a reference.
abbrev pub IsConnectionMap : List ConnectionSlot → Type 0
IsConnectionMap slots = ((k : ℕ) → Single k slots) × IsCounted slots

-- What a new slot at `i` has to show: it is connected to a server that no other slot is connected
-- to, and has a reference, or it is not connected.
abbrev Fits : List ConnectionSlot → ℕ → ConnectionSlot → Type 0
Fits slots i (connected sidx refcount permissions) =
    (0 < refcount) × ((j : ℕ) → is_connected_to sidx (slot_at slots j) ≡ true → j ≡ i)
Fits slots i _ = Unit {0}

Fits-only :
    (slots : List ConnectionSlot) (i k j : ℕ) (slot : ConnectionSlot)
    → Fits slots i slot
    → is_connected_to k slot ≡ true
    → is_connected_to k (slot_at slots j) ≡ true
    → j ≡ i
Fits-only slots i k j free f hit there = absurd (ground (arith, hit))
Fits-only slots i k j (tombstone r) f hit there = absurd (ground (arith, hit))
Fits-only slots i k j (connected sidx r p) f hit there =
    f.1 j
      (subst (λ n. is_connected_to n (slot_at slots j) ≡ true) (sym (eq_of_== sidx k hit)) there)

connected_references :
    (slots : List ConnectionSlot) (i : ℕ) (slot : ConnectionSlot)
    → Fits slots i slot
    → (sidx refcount : ℕ) (permissions : MessagePermissions)
    → slot ≡ connected sidx refcount permissions
    → 0 < refcount
connected_references slots i slot f sidx refcount permissions e = (subst (Fits slots i) e f).0

module _ (slots : List ConnectionSlot) (i : ℕ) (slot : ConnectionSlot) (h : i < length slots)
    (f : Fits slots i slot) where
  here_or_before :
      (k a : ℕ)
      → is_connected_to k (slot_at (set slots i slot) a) ≡ true
      → ((a ≡ i) × (is_connected_to k slot ≡ true))
        ⊎ ((a ≢ i) × (is_connected_to k (slot_at slots a) ≡ true))
  here_or_before k a hit = elim (Bool-cases (i == a)) [
    | inl at ↦
        let same : i ≡ a = eq_of_== i a at in
        inl (
          sym same,
          ap (is_connected_to k) (sym (get_or-set_self slots i slot free h))
              ∙ ap (λ n. is_connected_to k (slot_at (set slots i slot) n)) same
              ∙ hit,
        )
    | inr off ↦
        let apart : i ≢ a = ne_of_== i a off in
        inr (
          λ e. apart (sym e),
          ap (is_connected_to k) (sym (get_or-set_ne slots i a slot free apart)) ∙ hit,
        )
  ]

  set-Single : (k : ℕ) → Single k slots → Single k (set slots i slot)
  set-Single k single a b ha hb = elim (here_or_before k a ha) [
    | inl (at, hit) ↦ elim (here_or_before k b hb) [
      | inl (bt, _) ↦ at ∙ sym bt
      | inr (off, there) ↦ absurd (off (Fits-only slots i k b slot f hit there))
    ]
    | inr (off, there) ↦ elim (here_or_before k b hb) [
      | inl (bt, hit) ↦ absurd (off (Fits-only slots i k a slot f hit there))
      | inr (_, there') ↦ single a b there there'
    ]
  ]

  set-IsCounted : IsCounted slots → IsCounted (set slots i slot)
  set-IsCounted c a sidx refcount permissions e = elim (Bool-cases (i == a)) [
    | inl at ↦ connected_references slots i slot f sidx refcount permissions (
        sym (get_or-set_self slots i slot free h)
        ∙ ap (slot_at (set slots i slot)) (eq_of_== i a at)
        ∙ e)
    | inr off ↦
        c a sidx refcount permissions
          (sym (get_or-set_ne slots i a slot free (ne_of_== i a off)) ∙ e)
  ]

  set-IsConnectionMap : IsConnectionMap slots → IsConnectionMap (set slots i slot)
  set-IsConnectionMap m = (λ k. set-Single k (m.0 k), set-IsCounted (m.1))

==_self : (n : ℕ) → (n == n) ≡ true
==_self n = ground arith

-- A slot that replaces another with the same server, and has a reference, fits.
same_server :
    (slots : List ConnectionSlot) (i sidx refcount : ℕ) (permissions : MessagePermissions)
    → IsConnectionMap slots
    → slot_at slots i ≡ connected sidx refcount permissions
    → (j : ℕ) → is_connected_to sidx (slot_at slots j) ≡ true
    → j ≡ i
same_server slots i sidx refcount permissions m was j there =
    m.0 sidx j i there (ap (is_connected_to sidx) was ∙ ==_self sidx)

bump-Fits :
    (slots : List ConnectionSlot) (i : ℕ) (old : ConnectionSlot)
    → IsConnectionMap slots
    → slot_at slots i ≡ old
    → Fits slots i (bump old)
bump-Fits slots i free m was = tt
bump-Fits slots i (tombstone r) m was = tt
bump-Fits slots i (connected sidx r p) m was = (omega arith, same_server slots i sidx r p m was)

bury-Fits : (slots : List ConnectionSlot) (i : ℕ) (old : ConnectionSlot) → Fits slots i (bury old)
bury-Fits slots i free = tt
bury-Fits slots i (tombstone r) = tt
bury-Fits slots i (connected sidx r p) = tt

disconnect_slot-Fits :
    (slots : List ConnectionSlot) (i : ℕ) (old : ConnectionSlot)
    → IsConnectionMap slots
    → slot_at slots i ≡ old
    → After (Fits slots i) (disconnect_slot old)
disconnect_slot-Fits slots i free m was = tt
disconnect_slot-Fits slots i (tombstone r) m was = elim (Bool-cases (ltb 1 r)) [
  | inl more ↦ rw more tt
  | inr last ↦ rw last tt
]
disconnect_slot-Fits slots i (connected sidx r p) m was = elim (Bool-cases (ltb 1 r)) [
  | inl more ↦ rw more (ground (arith, more), same_server slots i sidx r p m was)
  | inr last ↦ rw last tt
]

not_elsewhere :
    (slots : List ConnectionSlot) (k : ℕ)
    → Position (is_connected_to k) slots none
    → (j : ℕ) → is_connected_to k (slot_at slots j) ≡ false
not_elsewhere slots k f j = elim (Bool-cases (ltb j (length slots))) [
  | inl lt ↦ f j (ground arith)
  | inr ge ↦ ap (is_connected_to k) (slot_at-beyond slots j (ground arith))
]

add_new-IsConnectionMap :
    (slots : List ConnectionSlot) (sidx : ℕ) (permissions : MessagePermissions) (r : Option ℕ)
    → IsConnectionMap slots
    → Position (is_connected_to (sidx % 256)) slots none
    → Position is_free slots r
    → After (λ s. IsConnectionMap s.0) (add_new slots sidx permissions r)
add_new-IsConnectionMap slots sidx permissions none m unknown f = tt
add_new-IsConnectionMap slots sidx permissions (some i) m unknown f =
    set-IsConnectionMap slots i (connected (sidx % 256) 1 permissions) (f.0)
      (
        omega arith,
        λ j there. absurd (ground (arith, not_elsewhere slots (sidx % 256) unknown j, there)),
      )
      m

add_again-IsConnectionMap :
    (slots : List ConnectionSlot) (sidx : ℕ) (permissions : MessagePermissions)
    (known unused : Option ℕ)
    → IsConnectionMap slots
    → Position (is_connected_to (sidx % 256)) slots known
    → Position is_free slots unused
    → After
        (λ s. IsConnectionMap s.0)
        (add_again slots known (add_new slots sidx permissions unused))
add_again-IsConnectionMap slots sidx permissions none unused m f g =
    add_new-IsConnectionMap slots sidx permissions unused m f g
add_again-IsConnectionMap slots sidx permissions (some i) unused m f g =
    set-IsConnectionMap slots i (bump (slot_at slots i)) (f.0)
      (bump-Fits slots i (slot_at slots i) m refl) m

get_or-get_elem? :
    (slots : List ConnectionSlot) (i : ℕ) (slot : ConnectionSlot)
    → get_elem? slots i ≡ some slot
    → slot_at slots i ≡ slot
get_or-get_elem? [] i slot e = ground (arith, e)
get_or-get_elem? (x ∷ xs) zero slot e = cc
get_or-get_elem? (x ∷ xs) (suc i) slot e = get_or-get_elem? xs i slot e

ok_or-After : (o : Option ConnectionSlot) → After (λ slot. o ≡ some slot) (ok_or o server_not_found)
ok_or-After none = tt
ok_or-After (some slot) = refl

connection-After :
    (slots : List ConnectionSlot) (cid : ℕ)
    → After (λ slot. get_elem? slots (cid - 2) ≡ some slot) (connection slots cid)
unfolding connection
connection-After slots cid = elim (Bool-cases (ltb cid 2)) [
  | inl low ↦ rw low tt
  | inr high ↦ rw high (ok_or-After (get_elem? slots (cid - 2)))
]

disconnect-IsConnectionMap :
    (slots : List ConnectionSlot) (cid : ℕ)
    → IsConnectionMap slots
    → After IsConnectionMap (disconnect_from_server slots cid)
unfolding disconnect_from_server
disconnect-IsConnectionMap slots cid m =
    After-then (λ slot. get_elem? slots (cid - 2) ≡ some slot) IsConnectionMap
      (connection slots cid) _ (connection-After slots cid)
      (λ slot at.
        After-then (Fits slots (cid - 2)) IsConnectionMap (disconnect_slot slot) _
          (disconnect_slot-Fits slots (cid - 2) slot m (get_or-get_elem? slots (cid - 2) slot at))
          (λ left f.
            set-IsConnectionMap slots (cid - 2) left (get_elem?-lt slots (cid - 2) at) f m))

bury_at-IsConnectionMap :
    (slots : List ConnectionSlot) (k : ℕ) (r : Option ℕ)
    → IsConnectionMap slots
    → Position (is_connected_to k) slots r
    → IsConnectionMap (bury_at slots r).0
bury_at-IsConnectionMap slots k none m f = m
bury_at-IsConnectionMap slots k (some i) m f =
    set-IsConnectionMap slots i (bury (slot_at slots i)) (f.0) (bury-Fits slots i (slot_at slots i))
      m

-- When a connection map connects a server in one slot at most and every connected slot has a
-- reference, both still hold after a successful `add_connection` or `disconnect_from_server`, and
-- after `tombstone_connection_by_sidx`.
pub connections-IsConnectionMap :
    (slots : List ConnectionSlot) (sidx cid : ℕ) (permissions : MessagePermissions)
    → IsConnectionMap slots
    → After (λ s. IsConnectionMap s.0) (add_connection slots sidx permissions)
      × After IsConnectionMap (disconnect_from_server slots cid)
      × IsConnectionMap (tombstone_connection_by_sidx slots sidx).0
unfolding add_connection tombstone_connection_by_sidx
connections-IsConnectionMap slots sidx cid permissions m = (
  add_again-IsConnectionMap slots sidx permissions _ _ m
      (position-Position (is_connected_to (sidx % 256)) slots) (position-Position is_free slots),
  disconnect-IsConnectionMap slots cid m,
  bury_at-IsConnectionMap slots (sidx % 256) _ m
      (position-Position (is_connected_to (sidx % 256)) slots),
)
