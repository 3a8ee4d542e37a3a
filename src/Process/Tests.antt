-- ===== src/Process/Tests.antt =====
-- The connection map of xous/kernel/src/process.rs at concrete maps.
use beet_core.Common.{ℕ, zero, suc, ◌≡◌, refl, ap, arith, true, false, List, [], ◌∷◌}
use beet_core.Server.Types.{MessagePermissions}
use beet_core.Process.{
  ConnectionSlot, free, tombstone, connected, slot_at, is_connected_to, add_connection,
  disconnect_from_server, tombstone_connection_by_sidx, number_of_connections,
}
use beet_core.Abi.After.{After}
use beet_core.Process.Keeps.{IsConnectionMap, connections-IsConnectionMap}
use beet_core.Process.Laws.{
  IsCounted, Single, Undone, disconnect_from_server-add_connection,
  tombstone_connection_by_sidx-apart,
}

abbrev all_messages : MessagePermissions
all_messages = record { allow_all = true; mask = 0; list = [] }

abbrev two_slots : List ConnectionSlot
two_slots = connected 5 1 all_messages ∷ free ∷ []

abbrev references : ConnectionSlot → ℕ
references free = 1
references (tombstone refcount) = refcount
references (connected sidx refcount permissions) = refcount

two_slots-IsCounted : IsCounted two_slots
two_slots-IsCounted zero sidx refcount permissions h = omega (arith, ap references h)
two_slots-IsCounted (suc zero) sidx refcount permissions h = omega (arith, ap references h)
two_slots-IsCounted (suc (suc i)) sidx refcount permissions h = omega (arith, ap references h)

two_slots-Single : (k : ℕ) → Single k two_slots
two_slots-Single k zero zero h h' = refl
two_slots-Single k zero (suc zero) h h' = absurd (ground (arith, h'))
two_slots-Single k zero (suc (suc j)) h h' = absurd (ground (arith, h'))
two_slots-Single k (suc zero) j h h' = absurd (ground (arith, h))
two_slots-Single k (suc (suc i)) j h h' = absurd (ground (arith, h))

disconnect_from_server-add_connection_example :
    Undone two_slots (add_connection two_slots 5 all_messages)
disconnect_from_server-add_connection_example =
    disconnect_from_server-add_connection two_slots 5 all_messages two_slots-IsCounted

tombstone_connection_by_sidx-apart_example :
    is_connected_to 5 (slot_at ((tombstone_connection_by_sidx two_slots 5).0) 0) ≡ false
tombstone_connection_by_sidx-apart_example =
    tombstone_connection_by_sidx-apart two_slots 5 (two_slots-Single 5) 0

again_is_counted : number_of_connections (connected 5 2 all_messages ∷ free ∷ []) ≡ 1
again_is_counted = refl

connections-IsConnectionMap_example :
    After (λ s. IsConnectionMap s.0) (add_connection two_slots 6 all_messages)
    × After IsConnectionMap (disconnect_from_server two_slots 2)
    × IsConnectionMap (tombstone_connection_by_sidx two_slots 6).0
connections-IsConnectionMap_example =
    connections-IsConnectionMap two_slots 6 2 all_messages (two_slots-Single, two_slots-IsCounted)
