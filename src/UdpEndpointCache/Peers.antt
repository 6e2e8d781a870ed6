-- ===== src/UdpEndpointCache/Peers.antt =====
-- The peers of each endpoint under every operation.
use Prim.Native.Nat.{ℕ, ◌+◌, ◌<◌}
use mathlib.Core.Path.{◌≡◌, refl, ◌∙◌, sym, ap}
use mathlib.Core.Logic.{inl, inr}
use mathlib.Core.Bool.{Bool, true, not, ◌&&◌, ◌||◌}
use mathlib.Core.List.{List, [], ◌∷◌, ◌++◌}
use mathlib.Core.Option.{Option, none, some}
use native.Mathlib.Omega.{arith}
use windows_kext_mod.Prelude.Tests.{◌==◌, leb, ltb, if◌then◌else◌, Option-cases}
use windows_kext_mod.Prelude.Lists.{filter, any}
use windows_kext_mod.Prelude.Order.{nat_ord, same, same→eq}
use windows_kext_mod.Prelude.BTreeMap
use windows_kext_mod.Prelude.BTreeMap.{
  BTreeMap, IsSorted, get-insert, get-remove, get-update_at, get-retain,
}
use windows_kext_mod.Key.{Key}
use windows_kext_mod.TcpClosureCache.RequestIds.{has, dedup, sort_unstable, dedup-sort_unstable_lem}
use windows_kext_mod.UdpEndpointCache.{
  UdpEndpointPeer, UdpEndpointCache, is_peer, associate_instance_at, dissociate, remove_instances,
  keeps_peer, unless_nil, is_nil,
}

abbrev pub or_nil : Option (List UdpEndpointPeer) → List UdpEndpointPeer
or_nil none = []
or_nil (some peers) = peers

-- The peers of an endpoint, none for an unknown one.
abbrev pub peers_at : UdpEndpointCache → ℕ → List UdpEndpointPeer
peers_at m handle = or_nil (BTreeMap.get handle m)

-- What an association is accepted as: the peers with the new one at their end, unless it is known.
abbrev pub with_peer : UdpEndpointPeer → List UdpEndpointPeer → List UdpEndpointPeer
with_peer peer peers =
    if any (is_peer peer.key peer.instance_id) peers then peers else peers ++ peer ∷ []

abbrev pub associated : UdpEndpointCache → ℕ → UdpEndpointPeer → UdpEndpointCache × Bool
associated m handle peer =
    associate_instance_at m handle peer.key peer.instance_id peer.associated_at_ms

nil_of : (peers : List UdpEndpointPeer) → is_nil peers ≡ true → peers ≡ []
nil_of [] h = refl
nil_of (p ∷ peers) h = absurd (ground arith)

-- An association of a set handle and instance appends the peer to its endpoint unless the tuple
-- and instance are there, which the answer tells; the other endpoints keep their peers.
pub associate_instance_at_lem :
    (m : UdpEndpointCache) (handle : ℕ) (peer : UdpEndpointPeer) (h : ℕ)
    → 0 < handle
    → 0 < peer.instance_id
    → (peers_at (associated m handle peer).0 h
        ≡ (if same h handle then with_peer peer (peers_at m h) else peers_at m h))
      × ((associated m handle peer).1
          ≡ not (any (is_peer peer.key peer.instance_id) (peers_at m handle)))
unfolding associate_instance_at any
associate_instance_at_lem m handle peer h set_handle set_id =
    elim (Option-cases (BTreeMap.get handle m)) [
      | inl absent ↦ ground (arith, get-insert h handle (peer ∷ []) m, same→eq h handle)
      | inr (peers, found) ↦ ground (
        arith,
        get-update_at h handle (λ peers. peers ++ peer ∷ []) m {v = peers} found,
        same→eq h handle,
      )
    ]

-- From a sorted cache, a dissociation removes from its endpoint the peers of that tuple and
-- instance, and nothing else.
pub dissociate_lem :
    (m : UdpEndpointCache) (handle : ℕ) (key : Key) (instance_id h : ℕ)
    → 0 < handle
    → 0 < instance_id
    → IsSorted m
    → peers_at (dissociate m handle key instance_id).0 h ≡ (
        if same h handle
        then filter (λ p. not (is_peer key instance_id p)) (peers_at m h)
        else peers_at m h)
unfolding dissociate filter
dissociate_lem m handle key instance_id h set_handle set_id sorted =
    elim (Option-cases (BTreeMap.get handle m)) [
      | inl absent ↦ ground (arith, same→eq h handle)
      | inr (peers, found) ↦
          let kept = filter (λ p. not (is_peer key instance_id p)) peers in
          ground (
            arith,
            get-remove h handle m sorted,
            get-update_at h handle (λ _. kept) m {v = peers} found,
            same→eq h handle,
            nil_of kept,
          )
    ]

or_nil-unless_nil : (peers : List UdpEndpointPeer) → or_nil (unless_nil peers) ≡ peers
unfolding unless_nil
or_nil-unless_nil [] = refl
or_nil-unless_nil (p ∷ peers) = refl

-- Whether an association is exempt from the cleanup, or younger than the grace period.
abbrev pub is_protected : ℕ → UdpEndpointPeer → Bool
is_protected now peer =
    peer.associated_at_ms == 0
    || (leb peer.associated_at_ms now && ltb now (peer.associated_at_ms + 1000))

keeps_peer_lem :
    (ids : List ℕ) (now : ℕ) (peer : UdpEndpointPeer)
    → keeps_peer (dedup (sort_unstable ids)) now peer
      ≡ (is_protected now peer || not (has peer.instance_id ids))
keeps_peer_lem ids now peer = rw ((dedup-sort_unstable_lem peer.instance_id ids).1) (ground arith)

filter_ext :
    (f g : UdpEndpointPeer → Bool) (peers : List UdpEndpointPeer)
    → ((p : UdpEndpointPeer) → f p ≡ g p)
    → filter f peers ≡ filter g peers
unfolding filter
filter_ext f g [] e = refl
filter_ext f g (p ∷ peers) e = ground (arith, e p, filter_ext f g peers e)

retained_at :
    (keep : UdpEndpointPeer → Bool) (o : Option (List UdpEndpointPeer))
    → or_nil (elim o [ none ↦ none | some peers ↦ unless_nil (filter keep peers) ])
      ≡ filter keep (or_nil o)
unfolding filter
retained_at keep none = refl
retained_at keep (some peers) = or_nil-unless_nil (filter keep peers)

filter_all :
    (peers : List UdpEndpointPeer) (now : ℕ)
    → filter (λ p. is_protected now p || not (has p.instance_id [])) peers ≡ peers
unfolding filter
filter_all [] now = refl
filter_all (p ∷ peers) now = ground (arith, filter_all peers now)

-- From a sorted cache, the cleanup keeps of each endpoint, in order, the peers that are exempt, that
-- are younger than a second, or whose instance is not among the given ones.
pub remove_instances_lem :
    (m : UdpEndpointCache) (ids : List ℕ) (now h : ℕ)
    → IsSorted m
    → peers_at (remove_instances m ids now).0 h
      ≡ filter (λ p. is_protected now p || not (has p.instance_id ids)) (peers_at m h)
unfolding remove_instances filter
remove_instances_lem m [] now h sorted = sym (filter_all (peers_at m h) now)
remove_instances_lem m (id ∷ ids) now h sorted =
    let keep = keeps_peer (dedup (sort_unstable (id ∷ ids))) now in
    ap or_nil (get-retain h (λ peers. unless_nil (filter keep peers)) m sorted)
    ∙ retained_at keep (BTreeMap.get h m)
    ∙ filter_ext keep (λ p. is_protected now p || not (has p.instance_id (id ∷ ids))) (peers_at m h)
        (keeps_peer_lem (id ∷ ids) now)
