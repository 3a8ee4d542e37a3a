-- ===== src/Server/Permissions/Laws.antt =====
-- `add` grants exactly the range that it is given.
use beet_core.Common.{
  ℕ, zero, suc, ◌+◌, ◌-◌, min, false, ◌&&◌, ◌||◌, List, [], ◌∷◌, some, ◌≡◌, arith, ltb, leb, ◌==◌,
  bit, set_bit, bit-set_bit_self, bit-set_bit_ne, Bool-cases, Option-cases, inl, inr, eq_of_==,
  ne_of_==,
}
use beet_core.Abi.Error.{out_of_memory}
use beet_core.Abi.Outcome.{ok, err}
use beet_core.Server.Types.{Range, MessagePermissions}
use beet_core.Server.Permissions.{
  is_empty, contains, set_low, add_to_list, add, any_contains, is_permitted,
}

bit-set_bit : (x i j : ℕ) → bit (set_bit x i) j ≡ (i == j || bit x j)
bit-set_bit x i j = elim (Bool-cases (i == j)) [
  | inl e ↦ rw e (rw (← eq_of_== i j e) (bit-set_bit_self x i))
  | inr ne ↦ rw ne (bit-set_bit_ne x i j (ne_of_== i j ne))
]

bit-set_low :
    (mask lo n id : ℕ)
    → bit (set_low mask lo n) id ≡ (bit mask id || (leb lo id && ltb id (lo + n)))
unfolding set_low
bit-set_low mask lo zero id = ground arith
bit-set_low mask lo (suc n) id =
    ground (arith, bit-set_low (set_bit mask lo) (lo + 1) n id, bit-set_bit mask lo id)

any_contains-add_to_list :
    (slots : List Range) (m : Range) (id : ℕ) {slots' : List Range}
    → is_empty m ≡ false
    → add_to_list slots m ≡ some slots'
    → any_contains slots' id ≡ (any_contains slots id || contains m id)
unfolding add_to_list
any_contains-add_to_list [] m id h e = ground arith
any_contains-add_to_list (slot ∷ slots) m id {slots'} h e =
    elim (Option-cases (add_to_list slots m)) [
      | inl full ↦ ground arith
      | inr (rest, fits) ↦ ground (arith, any_contains-add_to_list slots m id h fits)
    ]

-- After a successful `add`, which clears `allow_all`, a message id is permitted exactly if the mask
-- and the list permitted it before, whatever `allow_all` was, or it lies in the new range.
pub is_permitted-add :
    (p : MessagePermissions) (m : Range) (id : ℕ)
    → (add p m).1 ≡ ok tt
    → is_permitted (add p m).0 id
      ≡ (is_permitted (record p { allow_all = false }) id || contains m id)
unfolding add is_permitted
is_permitted-add p m id h = elim (Option-cases (add_to_list p.list m)) [
  | inl full ↦ ground (arith, bit-set_low p.mask m.start (min m.end 64 - m.start) id)
  | inr (slots, fits) ↦ ground (
    arith,
    bit-set_low p.mask m.start (min m.end 64 - m.start) id,
    any_contains-add_to_list p.list m id {slots' = slots},
  )
]

-- An `add` that fails for want of a slot has granted the ids of the range below 64 all the same,
-- and no others.
pub is_permitted-add_out_of_memory :
    (p : MessagePermissions) (m : Range) (id : ℕ)
    → (add p m).1 ≡ err out_of_memory
    → is_permitted (add p m).0 id
      ≡ (is_permitted (record p { allow_all = false }) id || (ltb id 64 && contains m id))
unfolding add is_permitted
is_permitted-add_out_of_memory p m id h = elim (Option-cases (add_to_list p.list m)) [
  | inl full ↦ ground (arith, bit-set_low p.mask m.start (min m.end 64 - m.start) id)
  | inr (slots, fits) ↦ ground arith
]
