-- ===== src/UdpEndpointCache/Sequences.antt =====
-- The peers of an endpoint over any sequence of indications and cleanups.
use Prim.Native.Nat.{ℕ, ◌<◌}
use mathlib.Core.Path.{◌≡◌, refl, ◌∙◌, ap}
use mathlib.Core.Bool.{not, ◌||◌}
use mathlib.Core.List.{List, [], ◌∷◌, ◌++◌}
use native.Mathlib.Omega.{arith}
use windows_kext_mod.Prelude.Tests.{if◌then◌else◌, Option-cases}
use mathlib.Core.Logic.{inl, inr}
use windows_kext_mod.Prelude.Lists.{filter}
use windows_kext_mod.Prelude.Order.{nat_ord, same}
use windows_kext_mod.Prelude.BTreeMap
use windows_kext_mod.Prelude.BTreeMap.{IsSorted, get-remove}
use windows_kext_mod.Prelude.BTreeMap.Sorted.{
  insert-IsSorted, remove-IsSorted, update_at-IsSorted, retain-IsSorted,
}
use windows_kext_mod.Key.{Key}
use windows_kext_mod.TcpClosureCache.RequestIds.{has}
use windows_kext_mod.UdpEndpointCache.{
  UdpEndpointPeer, UdpEndpointCache, is_peer, associate_instance_at, dissociate, remove_instances,
  take,
}
use windows_kext_mod.UdpEndpointCache.Peers.{
  peers_at, or_nil, with_peer, associated, is_protected, associate_instance_at_lem, dissociate_lem,
  remove_instances_lem,
}

-- What the callouts and the cleanup tell the cache. Handles and instances are set where it is told
-- of a peer.
pub data Event : Type 0 where
  authorized : (handle : ℕ) (peer : UdpEndpointPeer) → 0 < handle → 0 < peer.instance_id → Event
  flow_ended : (handle : ℕ) (key : Key) (instance_id : ℕ) → 0 < handle → 0 < instance_id → Event
  cleaned : (instance_ids : List ℕ) (now : ℕ) → Event
  closed : (handle : ℕ) → 0 < handle → Event

abbrev pub step : UdpEndpointCache → Event → UdpEndpointCache
step m (authorized handle peer h i) = (associated m handle peer).0
step m (flow_ended handle key instance_id h i) = (dissociate m handle key instance_id).0
step m (cleaned ids now) = (remove_instances m ids now).0
step m (closed handle h) = (take m handle).0

pub run : UdpEndpointCache → List Event → UdpEndpointCache
run m [] = m
run m (e ∷ es) = run (step m e) es

-- What an event does to the peers of one endpoint.
abbrev pub peers_after : ℕ → Event → List UdpEndpointPeer → List UdpEndpointPeer
peers_after h (authorized handle peer _ _) peers =
    if same h handle then with_peer peer peers else peers
peers_after h (flow_ended handle key instance_id _ _) peers =
    if same h handle then filter (λ p. not (is_peer key instance_id p)) peers else peers
peers_after h (cleaned ids now) peers =
    filter (λ p. is_protected now p || not (has p.instance_id ids)) peers
peers_after h (closed handle _) peers = if same h handle then [] else peers

pub all_after : ℕ → List Event → List UdpEndpointPeer → List UdpEndpointPeer
all_after h [] peers = peers
all_after h (e ∷ es) peers = all_after h es (peers_after h e peers)

remove_instances-IsSorted :
    (m : UdpEndpointCache) (ids : List ℕ) (now : ℕ)
    → IsSorted m
    → IsSorted (remove_instances m ids now).0
unfolding remove_instances
remove_instances-IsSorted m [] now s = s
remove_instances-IsSorted m (id ∷ ids) now s = retain-IsSorted _ m s

take_lem :
    (m : UdpEndpointCache) (handle h : ℕ)
    → 0 < handle
    → IsSorted m
    → peers_at (take m handle).0 h ≡ (if same h handle then [] else peers_at m h)
unfolding take
take_lem m handle h a s = ground (arith, get-remove h handle m s)

take_peers : (m : UdpEndpointCache) (h : ℕ) → 0 < h → or_nil (take m h).1 ≡ peers_at m h
unfolding take
take_peers m h a = ground arith

step-IsSorted : (m : UdpEndpointCache) (e : Event) → IsSorted m → IsSorted (step m e)
unfolding associate_instance_at dissociate take
step-IsSorted m (authorized handle peer h i) s = ground (
  arith,
  insert-IsSorted handle (peer ∷ []) m s,
  update_at-IsSorted handle (λ peers. peers ++ peer ∷ []) m s,
)
step-IsSorted m (flow_ended handle key instance_id h i) s =
    elim (Option-cases (BTreeMap.get handle m)) [
      | inl absent ↦ ground (arith, s)
      | inr (peers, found) ↦ ground (
        arith,
        s,
        remove-IsSorted handle m s,
        update_at-IsSorted handle (λ _. filter (λ p. not (is_peer key instance_id p)) peers) m s,
      )
    ]
step-IsSorted m (cleaned ids now) s = remove_instances-IsSorted m ids now s
step-IsSorted m (closed handle h) s = ground (arith, remove-IsSorted handle m s)

step-peers :
    (m : UdpEndpointCache) (e : Event) (h : ℕ)
    → IsSorted m
    → peers_at (step m e) h ≡ peers_after h e (peers_at m h)
step-peers m (authorized handle peer a i) h s = (associate_instance_at_lem m handle peer h a i).0
step-peers m (flow_ended handle key instance_id a i) h s =
    dissociate_lem m handle key instance_id h a i s
step-peers m (cleaned ids now) h s = remove_instances_lem m ids now h s
step-peers m (closed handle a) h s = take_lem m handle h a s

run_from :
    (m : UdpEndpointCache) (es : List Event) (h : ℕ)
    → IsSorted m
    → peers_at (run m es) h ≡ all_after h es (peers_at m h)
unfolding run all_after
run_from m [] h s = refl
run_from m (e ∷ es) h s =
    run_from (step m e) es h (step-IsSorted m e s) ∙ ap (all_after h es) (step-peers m e h s)

-- Over any sequence of events from the empty cache, each endpoint with a set handle has the peers
-- that the events about it leave: an authorization adds a tuple and instance that is not there,
-- the end of a flow removes it, a cleanup removes the given instances but for the exempt and the
-- recent, and the closure of the endpoint removes all. A closure then hands over those peers.
pub run-peers :
    (es : List Event) (h : ℕ)
    → 0 < h
    → (peers_at (run [] es) h ≡ all_after h es [])
      × (or_nil (take (run [] es) h).1 ≡ all_after h es [])
unfolding BTreeMap.get
run-peers es h a = let all = run_from [] es h tt in (all, take_peers (run [] es) h a ∙ all)
