-- ===== src/TcpEndpointCache/Transitions.antt =====
-- windows_kext/driver/src/tcp_endpoint_cache.rs: the operations that the callouts call.
use Prim.Native.Nat.{ℕ}
use mathlib.Core.Bool.{Bool, true, false, not, ◌&&◌, ◌||◌}
use mathlib.Core.List.{List, [], ◌∷◌}
use mathlib.Core.Option.{Option, none, some}
use windows_kext_mod.Prelude.Tests.{◌==◌, leb, if◌then◌else◌}
use windows_kext_mod.Prelude.Lists.{length, any}
use windows_kext_mod.Prelude.Order.{nat_ord, pair_ord, same}
use windows_kext_mod.Prelude.BTreeMap
use windows_kext_mod.Prelude.BTreeMap.{BTreeMap}
use windows_kext_mod.Key.{key_eq}
use windows_kext_mod.Key.Order.{key_ord}
use windows_kext_mod.TcpClosureCache.{TcpEndpointConnection}
use windows_kext_mod.TcpEndpointCache.{
  TcpEndpointLookupKey, TcpEndpointRecord, TcpEndpointCache, Endpoints, lookup_ord, endpoint_ord,
  lookup_key, add_lookup_handle, remove_lookup_handle, remove_endpoint_aliases, rebuild_lookup,
}
use windows_kext_mod.TcpEndpointCache.Handles.{to_list}

abbrev pub put_endpoint : TcpEndpointCache → ℕ → TcpEndpointRecord → TcpEndpointCache
put_endpoint s handle r = record {
  endpoints = BTreeMap.insert handle r s.endpoints;
  lookup = add_lookup_handle s.lookup (lookup_key r.endpoint) handle;
}

-- `record.endpoint == endpoint && record.established`
abbrev pub is_established_alias : TcpEndpointConnection → Option TcpEndpointRecord → Bool
is_established_alias e none = false
is_established_alias e (some r) = same r.endpoint e && r.established

abbrev pub has_established_alias : TcpEndpointCache → TcpEndpointConnection → Bool
has_established_alias s e = elim (BTreeMap.get (lookup_key e) s.lookup) [
  | none ↦ false
  | some handles ↦ any (λ h. is_established_alias e (BTreeMap.get h s.endpoints)) (to_list handles)
]

abbrev pub with_parent : ℕ → TcpEndpointRecord → TcpEndpointRecord
with_parent parent r = record r {
  endpoint = record (r.endpoint) { parent_endpoint_handle = some parent };
}

-- A known handle learns its listener, if it had none; otherwise its record stays.
unfoldable pub reassociate :
    TcpEndpointCache → ℕ → TcpEndpointRecord → (parent : Option ℕ) → TcpEndpointCache × Bool
reassociate s handle existing parent = elim existing.endpoint.parent_endpoint_handle [
  | some existing_parent ↦ elim parent [ some p ↦ (s, existing_parent == p) | none ↦ (s, true) ]
  | none ↦ elim parent [
    | none ↦ (s, true)
    | some p ↦ (
      record {
        endpoints = BTreeMap.update_at handle (with_parent p) s.endpoints;
        lookup =
            add_lookup_handle (remove_lookup_handle s.lookup (lookup_key existing.endpoint) handle)
              (lookup_key (with_parent p existing).endpoint) handle;
      },
      true,
    )
  ]
]

unfoldable pub associate_instance_at :
    TcpEndpointCache
    → (endpoint_handle : ℕ) → TcpEndpointConnection
    → (associated_at_ms : ℕ) → TcpEndpointCache × Bool
unfolding reassociate
associate_instance_at s handle e associated_at_ms =
    if handle == 0 || e.instance_id == 0
    then (s, false)
    else elim (BTreeMap.get handle s.endpoints) [
      | some existing ↦
          if not (key_eq existing.endpoint.key e.key)
            || not (existing.endpoint.instance_id == e.instance_id)
          then (s, false)
          else reassociate s handle existing e.parent_endpoint_handle
      | none ↦ (
        put_endpoint s handle (record {
          endpoint = e;
          established = has_established_alias s e;
          associated_at_ms = associated_at_ms;
        }),
        true,
      )
    ]

-- `find_map` over the bucket
abbrev pub first_live : (is_live : ℕ → Bool) → Endpoints → List ℕ → Option TcpEndpointConnection
first_live is_live m [] = none
first_live is_live m (h ∷ hs) = elim (BTreeMap.get h m) [
  | none ↦ first_live is_live m hs
  | some r ↦ if is_live r.endpoint.instance_id then some r.endpoint else first_live is_live m hs
]

unfoldable pub resolve_live_instance :
    TcpEndpointCache → TcpEndpointLookupKey → (is_live : ℕ → Bool) → Option TcpEndpointConnection
resolve_live_instance s k is_live = elim (BTreeMap.get k s.lookup) [
  | none ↦ none
  | some handles ↦ first_live is_live s.endpoints (to_list handles)
]

-- Whether a handle belongs to another connection.
abbrev pub is_foreign : TcpEndpointConnection → Option TcpEndpointRecord → Bool
is_foreign e none = false
is_foreign e (some r) = not (same r.endpoint e)

unfoldable pub rebind_established :
    TcpEndpointCache → (endpoint_handle : ℕ) → TcpEndpointConnection → TcpEndpointCache × Bool
rebind_established s handle e =
    if (handle == 0 || e.instance_id == 0) || is_foreign e (BTreeMap.get handle s.endpoints)
    then (s, false)
    else (
      put_endpoint (remove_endpoint_aliases s e) handle
          (record { endpoint = e; established = true; associated_at_ms = 0 }),
      true,
    )

abbrev pub ExpiredSet : Type 0
ExpiredSet = BTreeMap {0, 0} TcpEndpointConnection Unit

abbrev pub is_expired : ℕ → (TcpEndpointConnection → Bool) → TcpEndpointRecord → Bool
is_expired cutoff_ms should_expire r =
    not r.established
    && (not (r.associated_at_ms == 0)
        && (leb r.associated_at_ms cutoff_ms && should_expire r.endpoint))

-- The `BTreeSet` of the expired connections.
unfoldable pub expired : (TcpEndpointRecord → Bool) → Endpoints → ExpiredSet
expired test m = go m []
  where
    go : Endpoints → ExpiredSet → ExpiredSet
    go [] set = set
    go ((h, r) ∷ m) set = go m (if test r then BTreeMap.insert r.endpoint tt set else set)

abbrev pub is_empty : ExpiredSet → Bool
is_empty [] = true
is_empty (e ∷ set) = false

abbrev pub members : ExpiredSet → List TcpEndpointConnection
members [] = []
members ((e, u) ∷ set) = e ∷ members set

abbrev pub unless_expired : ExpiredSet → TcpEndpointRecord → Option TcpEndpointRecord
unless_expired set r = elim (BTreeMap.get r.endpoint set) [ some u ↦ none | none ↦ some r ]

unfoldable pub take_unestablished_before :
    TcpEndpointCache
    → (cutoff_ms : ℕ) → (should_expire : TcpEndpointConnection → Bool)
    → TcpEndpointCache × List TcpEndpointConnection
unfolding expired
take_unestablished_before s cutoff_ms should_expire =
    let set = expired (is_expired cutoff_ms should_expire) s.endpoints in
    if is_empty set then (s, []) else (
      rebuild_lookup (record s { endpoints = BTreeMap.retain (unless_expired set) s.endpoints }),
      members set,
    )

unfoldable pub take_unestablished :
    TcpEndpointCache → ℕ → TcpEndpointCache × Option TcpEndpointConnection
take_unestablished s handle = elim (BTreeMap.get handle s.endpoints) [
  | none ↦ (s, none)
  | some r ↦
      if r.established then (s, none) else (remove_endpoint_aliases s r.endpoint, some r.endpoint)
]

unfoldable pub take : TcpEndpointCache → ℕ → TcpEndpointCache × Option TcpEndpointConnection
take s handle = if handle == 0 then (s, none) else elim (BTreeMap.get handle s.endpoints) [
  | none ↦ (s, none)
  | some r ↦ (remove_endpoint_aliases s r.endpoint, some r.endpoint)
]

abbrev pub get_entries_count : TcpEndpointCache → ℕ
get_entries_count s = length s.endpoints

unfoldable pub clear : TcpEndpointCache → TcpEndpointCache
clear s = record { endpoints = []; lookup = [] }
