-- ===== src/TcpEndpointCache.antt =====
-- windows_kext/driver/src/tcp_endpoint_cache.rs: the endpoint handles of each TCP connection, with
-- an index from the tuple and the listener to the handles.
pub mod Handles
pub mod Transitions
pub mod Buckets
pub mod Aliases
pub mod Consistency
pub mod Lifecycle
use Prim.Native.Nat.{ℕ}
use mathlib.Core.Path.{◌≡◌}
use mathlib.Core.Bool.{Bool, true, false, not, ◌&&◌, ◌||◌}
use mathlib.Core.List.{List, [], ◌∷◌}
use mathlib.Core.Option.{Option, none, some}
use native.Mathlib.Omega.{arith}
use windows_kext_mod.Prelude.Tests.{◌==◌, leb, if◌then◌else◌}
use windows_kext_mod.Prelude.Lists.{length, any}
use windows_kext_mod.Prelude.Order.{Ord, nat_ord, pair_ord, same}
use windows_kext_mod.Prelude.Order.Derived.{by_view}
use windows_kext_mod.Prelude.BTreeMap
use windows_kext_mod.Prelude.BTreeMap.{BTreeMap}
use windows_kext_mod.Key.{Key}
use windows_kext_mod.Key.Order.{key_ord}
use windows_kext_mod.TcpClosureCache.{TcpEndpointConnection}
use windows_kext_mod.TcpEndpointCache.Handles.{
  TcpEndpointHandles, one, to_list, insert, remove, of_list,
}

-- An absent value comes first.
abbrev pub option_view : Option ℕ → ℕ × ℕ
option_view none = (0, 0)
option_view (some x) = (1, x)

pub option_view_injective : (a b : Option ℕ) → option_view a ≡ option_view b → a ≡ b
option_view_injective none none h = ground arith
option_view_injective none (some x) h = absurd (ground arith)
option_view_injective (some x) none h = absurd (ground arith)
option_view_injective (some x) (some y) h = ground arith

instance unfoldable pub option_ord : Ord (Option ℕ)
option_ord = by_view option_view option_view_injective

pub record TcpEndpointLookupKey : Type 0 where
  pub key : Key
  pub parent_endpoint_handle : Option ℕ

abbrev pub lookup_view : TcpEndpointLookupKey → Key × Option ℕ
lookup_view k = (k.key, k.parent_endpoint_handle)

pub lookup_view_injective : (a b : TcpEndpointLookupKey) → lookup_view a ≡ lookup_view b → a ≡ b
lookup_view_injective a b h = ground arith

instance unfoldable pub lookup_ord : Ord TcpEndpointLookupKey
lookup_ord = by_view lookup_view lookup_view_injective

abbrev pub endpoint_view : TcpEndpointConnection → Key × (Option ℕ × ℕ)
endpoint_view e = (e.key, (e.parent_endpoint_handle, e.instance_id))

pub endpoint_view_injective :
    (a b : TcpEndpointConnection) → endpoint_view a ≡ endpoint_view b → a ≡ b
endpoint_view_injective a b h = ground arith

instance unfoldable pub endpoint_ord : Ord TcpEndpointConnection
endpoint_ord = by_view endpoint_view endpoint_view_injective

abbrev pub lookup_key : TcpEndpointConnection → TcpEndpointLookupKey
lookup_key e = record { key = e.key; parent_endpoint_handle = e.parent_endpoint_handle }

pub record TcpEndpointRecord : Type 0 where
  pub endpoint : TcpEndpointConnection
  pub established : Bool
  pub associated_at_ms : ℕ

abbrev pub Endpoints : Type 0
Endpoints = BTreeMap ℕ TcpEndpointRecord

abbrev pub Lookup : Type 0
Lookup = BTreeMap TcpEndpointLookupKey TcpEndpointHandles

pub record TcpEndpointCache : Type 0 where
  pub endpoints : Endpoints
  pub lookup : Lookup

unfoldable pub new : TcpEndpointCache
new = record { endpoints = []; lookup = [] }

unfoldable pub add_lookup_handle : Lookup → TcpEndpointLookupKey → ℕ → Lookup
unfolding insert
add_lookup_handle m k handle = elim (BTreeMap.get k m) [
  | some handles ↦ BTreeMap.update_at k (λ hs. insert hs handle) m
  | none ↦ BTreeMap.insert k (one handle) m
]

unfoldable pub remove_lookup_handle : Lookup → TcpEndpointLookupKey → ℕ → Lookup
unfolding remove
remove_lookup_handle m k handle = elim (BTreeMap.get k m) [
  | none ↦ m
  | some handles ↦
      if (remove handles handle).1
      then BTreeMap.remove k m
      else BTreeMap.update_at k (λ hs. (remove hs handle).0) m
]

-- `.is_some_and(|record| record.endpoint == endpoint)`
abbrev pub is_alias : TcpEndpointConnection → Option TcpEndpointRecord → Bool
is_alias e none = false
is_alias e (some r) = same r.endpoint e

-- `retain`, whose test takes the aliases off `endpoints`
unfoldable pub split_aliases : TcpEndpointConnection → Endpoints → List ℕ → Endpoints × List ℕ
split_aliases e m [] = (m, [])
split_aliases e m (handle ∷ hs) =
    let found = is_alias e (BTreeMap.get handle m) in
    let rest = split_aliases e (if found then BTreeMap.remove handle m else m) hs in
    if found then rest else (rest.0, handle ∷ rest.1)

unfoldable pub remove_endpoint_aliases : TcpEndpointCache → TcpEndpointConnection → TcpEndpointCache
unfolding split_aliases
remove_endpoint_aliases s e = elim (BTreeMap.get (lookup_key e) s.lookup) [
  | none ↦ s
  | some handles ↦
      let divided = split_aliases e s.endpoints (to_list handles) in
      let lookup = BTreeMap.remove (lookup_key e) s.lookup in
      record {
        endpoints = divided.0;
        lookup = elim (of_list divided.1) [
          | none ↦ lookup
          | some remaining ↦ BTreeMap.insert (lookup_key e) remaining lookup
        ];
      }
]

unfoldable pub index_endpoints : Lookup → Endpoints → Lookup
index_endpoints lookup [] = lookup
index_endpoints lookup ((handle, r) ∷ m) =
    index_endpoints (add_lookup_handle lookup (lookup_key r.endpoint) handle) m

unfoldable pub rebuild_lookup : TcpEndpointCache → TcpEndpointCache
unfolding index_endpoints
rebuild_lookup s = record s { lookup = index_endpoints [] s.endpoints }
