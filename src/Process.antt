-- ===== src/Process.antt =====
-- The connections of a process: xous/kernel/src/process.rs and `disconnect_from_server` of
-- xous/kernel/src/services.rs. A count of references is a usize that one connection at a time
-- raises, so that it does not overflow.
mod Laws
mod Keeps
mod Tests
use beet_core.Common.{
  ℕ, zero, suc, ◌+◌, ◌-◌, ◌%◌, Bool, true, false, List, [], ◌∷◌, Option, none, some, ltb, ◌==◌,
  if◌then◌else◌, get_elem?, get_or, set, count_if, not,
}
use beet_core.Abi.Error.{out_of_memory, server_not_found}
use beet_core.Abi.Outcome.{Outcome, ok, err, ◌>>=◌, ok_or}
use beet_core.Server.Types.{MessagePermissions}

pub data ConnectionSlot : Type 0 where
  free : ConnectionSlot
  tombstone : ℕ → ConnectionSlot
  connected : ℕ → ℕ → MessagePermissions → ConnectionSlot

abbrev pub slot_at : List ConnectionSlot → ℕ → ConnectionSlot
slot_at slots i = get_or slots i free

abbrev pub after_one : Option ℕ → Option ℕ
after_one none = none
after_one (some i) = some (suc i)

-- `Iterator::position`
unfoldable pub position : (ConnectionSlot → Bool) → List ConnectionSlot → Option ℕ
position p [] = none
position p (slot ∷ slots) = let rest = position p slots in if p slot then some 0 else after_one rest

abbrev pub is_connected_to : ℕ → ConnectionSlot → Bool
is_connected_to sidx (connected other refcount permissions) = other == sidx
is_connected_to sidx _ = false

abbrev pub is_free : ConnectionSlot → Bool
is_free free = true
is_free _ = false

-- `*refcount += 1`
abbrev pub bump : ConnectionSlot → ConnectionSlot
bump (connected sidx refcount permissions) = connected sidx (refcount + 1) permissions
bump slot = slot

abbrev pub add_new :
    List ConnectionSlot → ℕ → MessagePermissions → Option ℕ → Outcome (List ConnectionSlot × ℕ)
add_new slots sidx permissions none = err out_of_memory
add_new slots sidx permissions (some cidx) =
    ok (set slots cidx (connected (sidx % 256) 1 permissions), cidx + 2)

abbrev pub add_again :
    List ConnectionSlot
    → Option ℕ
    → Outcome (List ConnectionSlot × ℕ)
    → Outcome (List ConnectionSlot × ℕ)
add_again slots (some cidx) new = ok (set slots cidx (bump (slot_at slots cidx)), cidx + 2)
add_again slots none new = new

unfoldable pub add_connection :
    List ConnectionSlot → ℕ → MessagePermissions → Outcome (List ConnectionSlot × ℕ)
add_connection slots sidx permissions =
    add_again slots (position (is_connected_to (sidx % 256)) slots)
      (add_new slots sidx permissions (position is_free slots))

unfoldable pub connection : List ConnectionSlot → ℕ → Outcome ConnectionSlot
connection slots cid =
    if ltb cid 2 then err server_not_found else ok_or (get_elem? slots (cid - 2)) server_not_found

-- One reference less, or the slot is free.
abbrev pub disconnect_slot : ConnectionSlot → Outcome ConnectionSlot
disconnect_slot free = err server_not_found
disconnect_slot (tombstone refcount) =
    ok (if ltb 1 refcount then tombstone (refcount - 1) else free)
disconnect_slot (connected sidx refcount permissions) =
    ok (if ltb 1 refcount then connected sidx (refcount - 1) permissions else free)

unfoldable pub disconnect_from_server : List ConnectionSlot → ℕ → Outcome (List ConnectionSlot)
disconnect_from_server slots cid = do
  slot ← connection slots cid
  left ← disconnect_slot slot
  ok (set slots (cid - 2) left)

abbrev pub bury : ConnectionSlot → ConnectionSlot
bury (connected sidx refcount permissions) = tombstone refcount
bury slot = slot

abbrev pub bury_at : List ConnectionSlot → Option ℕ → List ConnectionSlot × Option ℕ
bury_at slots none = (slots, none)
bury_at slots (some cidx) = (set slots cidx (bury (slot_at slots cidx)), some (cidx + 2))

unfoldable pub tombstone_connection_by_sidx :
    List ConnectionSlot → ℕ → List ConnectionSlot × Option ℕ
tombstone_connection_by_sidx slots dead_sidx =
    bury_at slots (position (is_connected_to (dead_sidx % 256)) slots)

abbrev pub number_of_connections : List ConnectionSlot → ℕ
number_of_connections slots = count_if (λ slot. not (is_free slot)) slots
