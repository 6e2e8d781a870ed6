-- ===== src/Tests/Pending.antt =====
-- Undecided packets at concrete inputs.
use Prim.Native.Nat.{ℕ, ◌<◌, ◌+◌, ◌^◌}
use mathlib.Core.Path.{◌≡◌, refl}
use mathlib.Core.Bool.{Bool, false}
use mathlib.Core.List.{List, [], ◌∷◌, ◌++◌}
use mathlib.Core.Option.{none, some}
use native.Mathlib.Omega.{arith}
use windows_kext_mod.Prelude.Order.{nat_ord}
use windows_kext_mod.Prelude.BTreeMap
use windows_kext_mod.Key.{Key, ipv4, udp, is_ipv6}
use windows_kext_mod.Connection.{outbound}
use windows_kext_mod.IdCache.{PendingPacket, IdCache, new, pop_id, retire_instance, identity_of}
use windows_kext_mod.IdCache.Push.{
  Packet, network, network_batch, Wfp, PendingContext, push, push_packets, push_packet, push_batch,
  build_info, survives_connection_end,
}
use windows_kext_mod.IdCache.Exact.{IsExact, pop_id_lem, retire_instance_lem}
use windows_kext_mod.IdCache.Retiring.{retained, ended}
use windows_kext_mod.IdCache.Announced.{entries, AreAnnounced, split_packets}
use windows_kext_mod.IdCache.Announcing.{push-announced}
use windows_kext_mod.IdCache.Queueing.{packets, push_lem}

-- A net buffer list is its bytes, and an injection its direction.
abbrev Saved : Type 0
Saved = Packet (List ℕ) Bool Unit

abbrev wfp : Wfp (List ℕ) Bool Unit
wfp = record { get_data = λ n. some n; is_inbound = λ i. i; deferred_data = λ d. none }

abbrev query : Key
query = record {
  protocol = udp;
  local_address = ipv4 (10 ∷ 0 ∷ 0 ∷ 1 ∷ []);
  local_port = 50000;
  remote_address = ipv4 (192 ∷ 0 ∷ 2 ∷ 1 ∷ []);
  remote_port = 53;
}

abbrev context : PendingContext
context = record {
  key = query;
  connection_instance_id = some 7;
  process_id = 40;
  direction = outbound;
  ale_layer = false;
}

abbrev batch : Saved
batch = network_batch ((1 ∷ 2 ∷ []) ∷ (3 ∷ []) ∷ []) false

abbrev empty : IdCache Saved
empty = new {P = Saved}

new-IsExact : IsExact empty
unfolding new BTreeMap.get
new-IsExact = (tt, tt, tt, λ i h. refl)

in_range : empty.next_id + packets batch < 2 ^ 64
unfolding new
in_range = omega arith

abbrev queued : IdCache Saved
queued = (push wfp empty batch context 9).0

abbrev queued-IsExact : IsExact queued
queued-IsExact = (push_lem wfp context empty batch 9 new-IsExact in_range).0

abbrev first : PendingPacket Saved
first = record { key = query; packet = network (1 ∷ 2 ∷ []) false; connection_instance_id = some 7 }

claimed : (pop_id queued 1).1 ≡ some first
unfolding pop_id push push_packets push_batch push_packet build_info is_ipv6 new
claimed = refl

push-announced_example :
    IsExact (push wfp empty batch context 9).0
    × ((push wfp empty batch context 9).0.values
        ≡ empty.values ++ entries wfp context empty.next_id (split_packets batch))
    × AreAnnounced wfp context
        (8 ∷ [])
        (entries wfp context empty.next_id (split_packets batch))
        (push wfp empty batch context 9).1
    × ((push wfp empty batch context 9).0.next_id ≡ empty.next_id + 2)
push-announced_example =
    push-announced wfp context empty batch 9 (8 ∷ []) new-IsExact in_range (omega arith)
      (omega arith)

pop_id_lem_example :
    IsExact (pop_id queued 1).0
    × ((pop_id (pop_id queued 1).0 1).1 ≡ none)
    × (BTreeMap.get 1 (pop_id queued 1).0.active ≡ some (identity_of first))
pop_id_lem_example = pop_id_lem queued 1 {v = first} queued-IsExact claimed

retire_instance_lem_example :
    ((retire_instance (survives_connection_end wfp) queued 7).0.values
      ≡ retained (survives_connection_end wfp) 7 queued.values)
    × ((retire_instance (survives_connection_end wfp) queued 7).1
        ≡ ended (survives_connection_end wfp) 7 queued.values)
    × IsExact (retire_instance (survives_connection_end wfp) queued 7).0
retire_instance_lem_example =
    retire_instance_lem (survives_connection_end wfp) queued 7 queued-IsExact (omega arith)
