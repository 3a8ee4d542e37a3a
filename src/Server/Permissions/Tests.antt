-- ===== src/Server/Permissions/Tests.antt =====
-- Runs of `MessagePermissions::add`, and its theorems at concrete inputs.
use beet_core.Common.{◌≡◌, refl, true, false, ◌||◌, ◌&&◌, [], ◌∷◌, ltb, bit, set_bit}
use beet_core.Server.Types.{Range, MessagePermissions}
use beet_core.Server.Permissions.{default, set_low, add, add_to_list, is_permitted, contains}
use beet_core.Server.Permissions.Laws.{is_permitted-add, is_permitted-add_out_of_memory}

abbrev names_range : Range
names_range = record { start = 3; end = 70 }

-- Four slots in use, none of them next to `names_range`.
abbrev full : MessagePermissions
full = record {
  allow_all = false;
  mask = 0;
  list =
      record { start = 100; end = 101 }
      ∷ record { start = 200; end = 201 }
      ∷ record { start = 300; end = 301 }
      ∷ record { start = 400; end = 401 }
      ∷ [];
}

is_permitted-add_example :
    is_permitted (add default names_range).0 65
    ≡ (is_permitted (record default { allow_all = false }) 65 || contains names_range 65)
unfolding add default add_to_list
is_permitted-add_example = is_permitted-add default names_range 65 refl

is_permitted-add_out_of_memory_example :
    is_permitted (add full names_range).0 5
    ≡ (is_permitted full 5 || (ltb 5 64 && contains names_range 5))
unfolding add add_to_list
is_permitted-add_out_of_memory_example = is_permitted-add_out_of_memory full names_range 5 refl

-- The failed call grants message 5.
granted_by_failure : is_permitted (add full names_range).0 5 ≡ true
unfolding add add_to_list is_permitted set_low bit set_bit
granted_by_failure = refl
