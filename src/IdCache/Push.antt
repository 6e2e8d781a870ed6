-- ===== src/IdCache/Push.antt =====
-- windows_kext/driver/src/id_cache.rs and windows_kext/driver/src/device.rs (`Packet`): packets
-- that begin to wait for a verdict.
use Prim.Native.Nat.{ℕ, ◌+◌, ◌%◌, ◌^◌}
use mathlib.Core.Bool.{Bool, false, not, ◌&&◌, ◌||◌}
use mathlib.Core.List.{List, [], ◌∷◌, ◌++◌}
use mathlib.Core.Option.{Option, none, some}
use windows_kext_mod.Prelude.Tests.{◌==◌, if◌then◌else◌}
use windows_kext_mod.Prelude.Order.{nat_ord}
use windows_kext_mod.Prelude.BTreeMap
use windows_kext_mod.Prelude.BTreeMap.{BTreeMap}
use windows_kext_mod.Key.{Key, ipv4, ipv6, is_ipv6, tcp, udp}
use windows_kext_mod.Connection.{Direction, outbound, inbound}
use windows_kext_mod.Protocol.Info.{Info, ConnectionInfo, connection_info_v4, connection_info_v6}
use windows_kext_mod.IdCache.{Entry, IdCache}
use windows_kext_mod.IdCache.Pending.{Index, add_pending_request}

-- A saved packet: cloned net buffer lists `N` with what injects them `I`, or a deferred
-- classification `D`.
pub data Packet (N I D : Type 0) : Type 0 where
  network : N → I → Packet N I D
  network_batch : List N → I → Packet N I D
  ale_layer : D → Packet N I D

-- What the cache reads of them: `nbl.get_data()`, `inject_info.inbound`, and the event data of the
-- deferred classification's packet list.
pub record Wfp (N I D : Type 0) : Type 0 where
  pub get_data : N → Option (List ℕ)
  pub is_inbound : I → Bool
  pub deferred_data : D → Option (List ℕ)

pub record PendingContext : Type 0 where
  pub key : Key
  pub connection_instance_id : Option ℕ
  pub process_id : ℕ
  pub direction : Direction
  pub ale_layer : Bool

abbrev pub direction_code : Direction → ℕ
direction_code outbound = 0
direction_code inbound = 1

module _ {N I D : Type 0} (wfp : Wfp N I D) where
  unfoldable pub survives_connection_end : Packet N I D → Key → Bool
  survives_connection_end (network n i) key = key.protocol == udp && not (wfp.is_inbound i)
  survives_connection_end (network_batch ns i) key = key.protocol == udp && not (wfp.is_inbound i)
  survives_connection_end (ale_layer d) key = false

  unfoldable pub get_payload : Packet N I D → Option (List ℕ)
  get_payload (network n i) = wfp.get_data n
  get_payload (network_batch [] i) = none
  get_payload (network_batch (n ∷ ns) i) = wfp.get_data n
  get_payload (ale_layer d) = wfp.deferred_data d

  unfoldable pub build_info :
      Key → (packet_id process_id : ℕ) → Direction → Packet N I D → Bool → Option Info
  build_info key packet_id process_id direction packet is_ale =
      let has_ports = key.protocol == tcp || key.protocol == udp in
      let fields : List ℕ → List ℕ → ConnectionInfo = λ local_ip remote_ip. record {
        id = packet_id;
        process_id = process_id;
        direction = direction_code direction;
        protocol = key.protocol;
        local_ip = local_ip;
        remote_ip = remote_ip;
        local_port = if has_ports then key.local_port else 0;
        remote_port = if has_ports then key.remote_port else 0;
        payload_layer = if is_ale then 4 else 3;
        payload = elim (get_payload packet) [ none ↦ [] | some p ↦ p ];
      } in
      elim key.local_address [
        | ipv6 local_ip ↦ elim key.remote_address [
          | ipv6 remote_ip ↦
              if is_ipv6 key then some (connection_info_v6 (fields local_ip remote_ip)) else none
          | ipv4 remote_ip ↦ none
        ]
        | ipv4 local_ip ↦ elim key.remote_address [
          | ipv4 remote_ip ↦ some (connection_info_v4 (fields local_ip remote_ip))
          | ipv6 remote_ip ↦ none
        ]
      ]

  abbrev pub Queue : Type 0
  Queue = List (Entry (Packet N I D)) × ℕ

  -- The queue and the next identity; a packet whose addresses are of two families is dropped and
  -- uses no identity.
  unfoldable pub push_packet : Queue → Packet N I D → PendingContext → Queue × Option (ℕ × Info)
  push_packet q packet c = elim (build_info c.key q.1 c.process_id c.direction packet c.ale_layer) [
    | none ↦ (q, none)
    | some info ↦ (
      (
        q.0
            ++ record {
              value = record {
                key = c.key;
                packet = packet;
                connection_instance_id = c.connection_instance_id;
              };
              id = q.1;
            }
              ∷ [],
        (q.1 + 1) % 2 ^ 64,
      ),
      some (q.1, info),
    )
  ]

  -- Each net buffer list of a batch is queued on its own.
  unfoldable pub push_batch : Queue → List N → I → PendingContext → Queue × List (ℕ × Info)
  push_batch q [] i c = (q, [])
  push_batch q (n ∷ ns) i c =
      let pushed = push_packet q (network n i) c in
      let rest = push_batch pushed.0 ns i c in
      (rest.0, elim pushed.1 [ none ↦ rest.1 | some entry ↦ entry ∷ rest.1 ])

  unfoldable pub push_packets : Queue → Packet N I D → PendingContext → Queue × List (ℕ × Info)
  unfolding push_batch
  push_packets q (network n i) c =
      let pushed = push_packet q (network n i) c in
      (pushed.0, elim pushed.1 [ none ↦ [] | some entry ↦ entry ∷ [] ])
  push_packets q (network_batch ns i) c = push_batch q ns i c
  push_packets q (ale_layer d) c =
      let pushed = push_packet q (ale_layer d) c in
      (pushed.0, elim pushed.1 [ none ↦ [] | some entry ↦ entry ∷ [] ])

-- `for (id, _) in &queued`
unfoldable pub index_all : Option ℕ → Index → List (ℕ × Info) → Index
index_all instance_id m [] = m
index_all instance_id m ((id, info) ∷ queued) =
    index_all instance_id (add_pending_request m instance_id id) queued

unfoldable pub record_threads : ℕ → BTreeMap ℕ ℕ → List (ℕ × Info) → BTreeMap ℕ ℕ
record_threads thread_id m [] = m
record_threads thread_id m ((id, info) ∷ queued) =
    record_threads thread_id (if thread_id == 0 then m else BTreeMap.insert id thread_id m) queued

unfoldable pub push :
    {N I D : Type 0}
    → Wfp N I D
    → IdCache (Packet N I D)
    → Packet N I D
    → PendingContext
    → (thread_id : ℕ) → IdCache (Packet N I D) × List (ℕ × Info)
push wfp s packet c thread_id =
    let pushed = push_packets wfp (s.values, s.next_id) packet c in
    (
      record {
        values = pushed.0.0;
        pending_by_instance = index_all c.connection_instance_id s.pending_by_instance pushed.1;
        active = s.active;
        thread_id_by_request = record_threads thread_id s.thread_id_by_request pushed.1;
        next_id = pushed.0.1;
      },
      pushed.1,
    )
