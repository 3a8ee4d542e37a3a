-- ===== src/Server/Permissions.antt =====
-- `MessagePermissions` of xous/kernel/src/server.rs: which message ids a connection may send.
pub mod Laws
mod Tests
use beet_core.Common.{
  ℕ, zero, suc, ◌+◌, ◌-◌, min, max, Bool, true, false, ◌&&◌, ◌||◌, not, List, [], ◌∷◌, Option, none,
  some, ltb, leb, if◌then◌else◌, bit, set_bit, replicate,
}
use beet_core.Abi.Error.{invalid_arguments, out_of_memory}
use beet_core.Abi.Outcome.{Outcome, ok, err}
use beet_core.Server.Types.{Range, MessagePermissions}

abbrev pub message_permission_count : ℕ
message_permission_count = 4

-- `Range::is_empty` and `Range::contains`
abbrev pub is_empty : Range → Bool
is_empty r = not (ltb r.start r.end)

abbrev pub contains : Range → ℕ → Bool
contains r id = leb r.start id && ltb id r.end

-- `MessagePermissions::default`
unfoldable pub default : MessagePermissions
default = record {
  allow_all = true;
  mask = 0;
  list = replicate message_permission_count (record { start = 0; end = 0 });
}

-- `for message_id in lo..lo + n { mask |= 1 << message_id }`
unfoldable pub set_low : ℕ → ℕ → ℕ → ℕ
set_low mask lo zero = mask
set_low mask lo (suc n) = set_low (set_bit mask lo) (lo + 1) n

abbrev keep_slot : Range → Option (List Range) → Option (List Range)
keep_slot slot none = none
keep_slot slot (some rest) = some (slot ∷ rest)

-- The loop over the list's slots; `none` when no slot takes the range.
unfoldable pub add_to_list : List Range → Range → Option (List Range)
add_to_list [] messages = none
add_to_list (slot ∷ slots) messages =
    if leb slot.start messages.end && leb messages.start slot.end
    then some (joined ∷ slots)
    else if is_empty slot
    then some (messages ∷ slots)
    else keep_slot slot (add_to_list slots messages)
  where
    joined : Range
    joined = record { start = min slot.start messages.start; end = max slot.end messages.end }

abbrev store_list :
    MessagePermissions → Option (List Range) → MessagePermissions × Outcome (Unit {0})
store_list p none = (p, err out_of_memory)
store_list p (some slots) = (record p { list = slots }, ok tt)

-- `add`, with what `self` is afterwards: an error leaves what was written before it.
unfoldable pub add : MessagePermissions → Range → MessagePermissions × Outcome (Unit {0})
add self messages =
    if is_empty messages
    then (self, err invalid_arguments)
    else if leb messages.end 64
    then (low, ok tt)
    else store_list low (add_to_list self.list messages)
  where
    low : MessagePermissions
    low = record self {
      allow_all = false;
      mask = set_low self.mask messages.start (min messages.end 64 - messages.start);
    }

abbrev pub any_contains : List Range → ℕ → Bool
any_contains [] id = false
any_contains (r ∷ rs) id = contains r id || any_contains rs id

unfoldable pub is_permitted : MessagePermissions → ℕ → Bool
is_permitted self id =
    if self.allow_all
    then true
    else if ltb id 64
    then bit self.mask id
    else any_contains self.list id
