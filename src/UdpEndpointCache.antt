-- ===== src/UdpEndpointCache.antt =====
-- windows_kext/driver/src/udp_endpoint_cache.rs: the remote tuples that each UDP socket talked to,
-- by the socket's endpoint handle.
pub mod Peers
pub mod Sequences
use Prim.Native.Nat.{ℕ, ◌+◌, ◌-◌}
use mathlib.Core.Bool.{Bool, true, false, not, ◌&&◌, ◌||◌}
use mathlib.Core.List.{List, [], ◌∷◌, ◌++◌}
use mathlib.Core.Option.{Option, none, some}
use windows_kext_mod.Prelude.Tests.{◌==◌, leb, ltb, if◌then◌else◌}
use windows_kext_mod.Prelude.Lists.{length, filter, any}
use windows_kext_mod.Prelude.Order.{nat_ord}
use windows_kext_mod.Prelude.BTreeMap
use windows_kext_mod.Prelude.BTreeMap.{BTreeMap}
use windows_kext_mod.Key.{Key, key_eq}
use windows_kext_mod.TcpClosureCache.RequestIds.{has, dedup, sort_unstable}

pub record UdpEndpointPeer : Type 0 where
  pub key : Key
  pub instance_id : ℕ
  pub associated_at_ms : ℕ

abbrev pub UdpEndpointCache : Type 0
UdpEndpointCache = BTreeMap ℕ (List UdpEndpointPeer)

abbrev pub is_peer : Key → ℕ → UdpEndpointPeer → Bool
is_peer key instance_id peer = key_eq peer.key key && peer.instance_id == instance_id

unfoldable pub associate_instance_at :
    UdpEndpointCache
    → (endpoint_handle : ℕ) (key : Key) (instance_id associated_at_ms : ℕ) → UdpEndpointCache × Bool
associate_instance_at m handle key instance_id at_ms =
    if handle == 0 || instance_id == 0
    then (m, false)
    else let peer : UdpEndpointPeer = record {
      key = key;
      instance_id = instance_id;
      associated_at_ms = at_ms;
    } in
      elim (BTreeMap.get handle m) [
        | some peers ↦
            if any (is_peer key instance_id) peers
            then (m, false)
            else (BTreeMap.update_at handle (λ peers. peers ++ peer ∷ []) m, true)
        | none ↦ (BTreeMap.insert handle (peer ∷ []) m, true)
      ]

unfoldable pub associate_instance :
    UdpEndpointCache → (endpoint_handle : ℕ) (key : Key) (instance_id : ℕ) → UdpEndpointCache × Bool
unfolding associate_instance_at
associate_instance m handle key instance_id = associate_instance_at m handle key instance_id 0

-- The loop over the peers, up to the first that `accept_instance` accepts.
pub accept_first : {T : Type 0} → Key → (ℕ → Option T) → List UdpEndpointPeer → Option T
accept_first key accept_instance [] = none
accept_first key accept_instance (peer ∷ peers) =
    let rest = accept_first key accept_instance peers in
    if key_eq peer.key key
    then elim (accept_instance peer.instance_id) [ some value ↦ some value | none ↦ rest ]
    else rest

unfoldable pub with_instance_id :
    {T : Type 0} → UdpEndpointCache → ℕ → Key → (ℕ → Option T) → Option T
unfolding accept_first
with_instance_id m handle key accept_instance =
    if handle == 0 then none else elim (BTreeMap.get handle m) [
      | none ↦ none
      | some peers ↦ accept_first key accept_instance peers
    ]

abbrev pub is_nil : List UdpEndpointPeer → Bool
is_nil [] = true
is_nil (peer ∷ peers) = false

-- The capacity that is released (`release_excess_capacity`) is not part of the state.
unfoldable pub dissociate :
    UdpEndpointCache → (endpoint_handle : ℕ) (key : Key) (instance_id : ℕ) → UdpEndpointCache × Bool
dissociate m handle key instance_id =
    if handle == 0 || instance_id == 0 then (m, false) else elim (BTreeMap.get handle m) [
      | none ↦ (m, false)
      | some peers ↦
          let kept = filter (λ p. not (is_peer key instance_id p)) peers in
          let removed = not (length kept == length peers) in
          if removed && is_nil kept
          then (BTreeMap.remove handle m, removed)
          else (BTreeMap.update_at handle (λ _. kept) m, removed)
    ]

abbrev pub ids_of : List UdpEndpointPeer → List ℕ
ids_of [] = []
ids_of (peer ∷ peers) = peer.instance_id ∷ ids_of peers

unfoldable pub instance_ids : UdpEndpointCache → List ℕ
instance_ids [] = []
instance_ids ((handle, peers) ∷ m) = ids_of peers ++ instance_ids m

abbrev pub grace_period_ms : ℕ
grace_period_ms = 1000

-- What `remove_instances` keeps; `ids` is sorted, so that the binary search finds what it has.
abbrev pub keeps_peer : List ℕ → ℕ → UdpEndpointPeer → Bool
keeps_peer ids now peer =
    if peer.associated_at_ms == 0
    then true
    else if leb peer.associated_at_ms now && ltb (now - peer.associated_at_ms) grace_period_ms
    then true
    else not (has peer.instance_id ids)

pub unless_nil : List UdpEndpointPeer → Option (List UdpEndpointPeer)
unless_nil [] = none
unless_nil (peer ∷ peers) = some (peer ∷ peers)

pub count_removed : (UdpEndpointPeer → Bool) → UdpEndpointCache → ℕ
count_removed keep [] = 0
count_removed keep ((handle, peers) ∷ m) =
    length peers - length (filter keep peers) + count_removed keep m

unfoldable pub remove_instances : UdpEndpointCache → List ℕ → ℕ → UdpEndpointCache × ℕ
unfolding unless_nil count_removed
remove_instances m [] now = (m, 0)
remove_instances m (id ∷ ids) now =
    let keep = keeps_peer (dedup (sort_unstable (id ∷ ids))) now in
    (BTreeMap.retain (λ peers. unless_nil (filter keep peers)) m, count_removed keep m)

unfoldable pub take : UdpEndpointCache → ℕ → UdpEndpointCache × Option (List UdpEndpointPeer)
take m handle = if handle == 0 then (m, none) else (BTreeMap.remove handle m, BTreeMap.get handle m)

pub count_peers : UdpEndpointCache → ℕ
count_peers [] = 0
count_peers ((handle, peers) ∷ m) = length peers + count_peers m

unfoldable pub get_entries_counts : UdpEndpointCache → ℕ × ℕ
unfolding count_peers
get_entries_counts m = (length m, count_peers m)

unfoldable pub clear : UdpEndpointCache → UdpEndpointCache
clear m = []
