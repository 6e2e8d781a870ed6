-- ===== src/Tests/Caches.antt =====
-- The caches of UDP endpoints, UDP flows and ICMP echo requests at concrete inputs.
use Prim.Native.Nat.{ℕ, ◌-◌}
use mathlib.Core.Path.{◌≡◌, refl}
use mathlib.Core.Bool.{true}
use mathlib.Core.List.{List, [], ◌∷◌}
use mathlib.Core.Option.{none, some}
use native.Mathlib.Omega.{arith}
use windows_kext_mod.Prelude.Tests.{leb, if◌then◌else◌}
use windows_kext_mod.Prelude.Order.{nat_ord}
use windows_kext_mod.Prelude.BTreeMap
use windows_kext_mod.Key.{Key, ipv4, udp}
use windows_kext_mod.UdpFlowCache
use windows_kext_mod.UdpFlowCache.{
  UdpFlowRegistration, UdpFlowState, register, mark_associated, claim_removal, start_shutdown,
  is_drained, new_registration, contains_key,
}
use windows_kext_mod.UdpFlowCache.Lifecycle
use windows_kext_mod.UdpFlowCache.Lifecycle.{
  Call, registered, associated, begun, finished, claimed, shut_down, StateIsValid, run-StateIsValid,
}
use windows_kext_mod.UdpFlowCache.Removal.{is_drained-run, claim_removal-run}
use windows_kext_mod.UdpEndpointCache
use windows_kext_mod.UdpEndpointCache.{UdpEndpointPeer}
use windows_kext_mod.UdpEndpointCache.Peers.{peers_at, or_nil}
use windows_kext_mod.UdpEndpointCache.Sequences
use windows_kext_mod.UdpEndpointCache.Sequences.{
  authorized, flow_ended, cleaned, all_after, run-peers,
}
use windows_kext_mod.IcmpEchoCache.{EchoKey, IcmpEchoCache, insert_request, take_request_identity}
use windows_kext_mod.IcmpEchoCache.Capacity
use windows_kext_mod.IcmpEchoCache.Capacity.{requested, replied, CacheIsValid, run-CacheIsValid}
use windows_kext_mod.IcmpEchoCache.Replies.{take_request_identity-insert_request}

abbrev flow : UdpFlowRegistration
flow = new_registration 31 2 4 7

-- A flow whose registration the filter engine confirmed.
abbrev calls : List Call
calls = registered 5 flow ∷ associated 5 7 ∷ []

abbrev removed : UdpFlowRegistration
removed = record {
  flow_context = 5;
  flow_id = 31;
  layer_id = 2;
  callout_id = 4;
  connection_instance_id = 7;
  associated = true;
  removal_requested = true;
}

abbrev live_flow : UdpFlowState
live_flow = Lifecycle.run UdpFlowCache.new calls

claims : (claim_removal live_flow 5 7).1 ≡ some removed
unfolding Lifecycle.run UdpFlowCache.new register mark_associated claim_removal new_registration
    contains_key BTreeMap.get BTreeMap.insert BTreeMap.update_at
claims = refl

run-StateIsValid_example : StateIsValid live_flow
run-StateIsValid_example = run-StateIsValid calls

claim_removal-run_example :
    (claim_removal
      (Lifecycle.run (claim_removal live_flow 5 7).0 (begun 5 2 4 ∷ finished ∷ []))
      5
      7).1
    ≡ none
claim_removal-run_example =
    claim_removal-run live_flow 5 7 7 (begun 5 2 4 ∷ finished ∷ []) {r = removed}
      (run-StateIsValid calls) claims (refl, (refl, tt))

abbrev unloading : UdpFlowState
unloading = Lifecycle.run UdpFlowCache.new (shut_down ∷ [])

unloads : unloading.shutting_down ≡ true
unfolding Lifecycle.run UdpFlowCache.new start_shutdown
unloads = refl

drains : is_drained unloading ≡ true
unfolding Lifecycle.run UdpFlowCache.new start_shutdown is_drained
drains = refl

is_drained-run_example : is_drained (Lifecycle.run unloading calls) ≡ true
is_drained-run_example = is_drained-run unloading calls unloads drains

abbrev query : Key
query = record {
  protocol = udp;
  local_address = ipv4 (10 ∷ 0 ∷ 0 ∷ 1 ∷ []);
  local_port = 50000;
  remote_address = ipv4 (192 ∷ 0 ∷ 2 ∷ 1 ∷ []);
  remote_port = 53;
}

abbrev peer : ℕ → UdpEndpointPeer
peer i = record { key = query; instance_id = i; associated_at_ms = 100 }

abbrev events : List Sequences.Event
events =
    authorized 4 (peer 7) (omega arith) (omega arith)
    ∷ authorized 4 (peer 8) (omega arith) (omega arith)
    ∷ flow_ended 4 query 7 (omega arith) (omega arith)
    ∷ cleaned (8 ∷ []) 90000
    ∷ []

run-peers_example :
    (peers_at (Sequences.run [] events) 4 ≡ all_after 4 events [])
    × (or_nil (UdpEndpointCache.take (Sequences.run [] events) 4).1 ≡ all_after 4 events [])
run-peers_example = run-peers events 4 (omega arith)

abbrev echo : EchoKey
echo = record { remote_address = ipv4 (192 ∷ 0 ∷ 2 ∷ 1 ∷ []); identifier = 1; sequence = 6 }

run-CacheIsValid_example :
    CacheIsValid (Capacity.run [] (requested echo 40 9 100 ∷ replied echo 300 ∷ []))
run-CacheIsValid_example = run-CacheIsValid (requested echo 40 9 100 ∷ replied echo 300 ∷ [])

abbrev no_requests : IcmpEchoCache
no_requests = []

take_request_identity-insert_request_example :
    ((take_request_identity (insert_request no_requests echo 40 9 100) echo 300).1
      ≡ (if leb (300 - 100) 10000 then some (40, 9) else none))
    × ((take_request_identity
          (take_request_identity (insert_request no_requests echo 40 9 100) echo 300).0
          echo
          301).1
        ≡ none)
take_request_identity-insert_request_example =
    take_request_identity-insert_request no_requests echo 40 9 100 300 301 tt (omega arith)
      (omega arith)
