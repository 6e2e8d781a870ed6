-- ===== src/TcpClosureCache.antt =====
-- windows_kext/driver/src/tcp_closure_cache.rs: endpoint closures that wait for the packet
-- decisions that were published before them.
pub mod RequestIds
pub mod Events
pub mod Take
use Prim.Native.Nat.{ℕ}
use mathlib.Core.Bool.{Bool, true, false, ◌&&◌, ◌||◌}
use mathlib.Core.List.{List, [], ◌∷◌}
use mathlib.Core.Option.{Option, none, some}
use windows_kext_mod.Prelude.Tests.{◌==◌, if◌then◌else◌}
use windows_kext_mod.Prelude.Lists.{length}
use windows_kext_mod.Prelude.BTreeMap
use windows_kext_mod.Prelude.Order.{nat_ord}
use windows_kext_mod.Key.{Key, Platform, key_eq, is_loopback_like, reverse}
use windows_kext_mod.TcpClosureCache.RequestIds.{insert_id, remove_id, sort_unstable, dedup}

-- `TcpEndpointConnection` of tcp_endpoint_cache.rs
pub record TcpEndpointConnection : Type 0 where
  pub key : Key
  pub parent_endpoint_handle : Option ℕ
  pub instance_id : ℕ

-- `==` between an optional identity and `Some(id)`
abbrev pub is_some_of : Option ℕ → ℕ → Bool
is_some_of none id = false
is_some_of (some i) id = i == id

unfoldable pub request_matches_tcp_endpoint : Platform → Key → ℕ → Key → Option ℕ → Bool
request_matches_tcp_endpoint p endpoint_key endpoint_instance_id request_key request_instance_id =
    is_some_of request_instance_id endpoint_instance_id
    || (is_loopback_like p endpoint_key && key_eq request_key (reverse endpoint_key))

-- `ClassifyPend` is a type of the filter engine's wrapper: a parameter.
pub record PendingTcpClosure (ClassifyPend : Type 0) : Type 0 where
  pub endpoint : TcpEndpointConnection
  pub process_id : ℕ
  pub classify : ClassifyPend
  pub request_ids : List ℕ

abbrev pub is_empty : List ℕ → Bool
is_empty [] = true
is_empty (x ∷ xs) = false

module _ {ClassifyPend : Type 0} where
  -- `PendingTcpClosure::new`
  unfoldable pub new :
      TcpEndpointConnection → ℕ → ClassifyPend → List ℕ → PendingTcpClosure ClassifyPend
  new e pid pend ids = record {
    endpoint = e;
    process_id = pid;
    classify = pend;
    request_ids = dedup (sort_unstable ids);
  }

  -- `PendingTcpClosure::add_request`
  abbrev pub add_to : ℕ → PendingTcpClosure ClassifyPend → PendingTcpClosure ClassifyPend
  add_to id c = record c { request_ids = insert_id id c.request_ids }

  -- `PendingTcpClosure::finish_request`
  abbrev pub finish_in : ℕ → PendingTcpClosure ClassifyPend → PendingTcpClosure ClassifyPend
  finish_in id c = record c { request_ids = remove_id id c.request_ids }

  abbrev pub is_ready : PendingTcpClosure ClassifyPend → Bool
  is_ready c = is_empty c.request_ids

-- The map from a connection's generation to its closure.
abbrev pub TcpClosureCache : Type 0 → Type 0
TcpClosureCache ClassifyPend = BTreeMap.BTreeMap ℕ (PendingTcpClosure ClassifyPend)

module _ {ClassifyPend : Type 0} where
  unfoldable pub insert :
      TcpClosureCache ClassifyPend
      → PendingTcpClosure ClassifyPend
      → TcpClosureCache ClassifyPend × Option (PendingTcpClosure ClassifyPend)
  insert m c = elim (BTreeMap.get c.endpoint.instance_id m) [
    | some present ↦ (m, some c)
    | none ↦ (BTreeMap.insert c.endpoint.instance_id c m, none)
  ]

  abbrev pub add_if_matching :
      Platform
      → ℕ
      → Key
      → Option ℕ
      → PendingTcpClosure ClassifyPend
      → PendingTcpClosure ClassifyPend
  add_if_matching p id key instance c =
      if request_matches_tcp_endpoint p c.endpoint.key c.endpoint.instance_id key instance
      then add_to id c
      else c

  unfoldable pub add_request :
      Platform → TcpClosureCache ClassifyPend → ℕ → Key → Option ℕ → TcpClosureCache ClassifyPend
  add_request p m id key instance = BTreeMap.map_values (add_if_matching p id key instance) m

  -- The endpoints of the ready closures, in the order of their generations.
  unfoldable pub ready_endpoints : TcpClosureCache ClassifyPend → List TcpEndpointConnection
  ready_endpoints [] = []
  ready_endpoints ((i, c) ∷ m) =
      if is_ready c then c.endpoint ∷ ready_endpoints m else ready_endpoints m

  unfoldable pub finish_request :
      TcpClosureCache ClassifyPend → ℕ → TcpClosureCache ClassifyPend × List TcpEndpointConnection
  finish_request m id = let n = BTreeMap.map_values (finish_in id) m in (n, ready_endpoints n)

  unfoldable pub take_ready :
      TcpClosureCache ClassifyPend
      → ℕ
      → TcpClosureCache ClassifyPend × Option (PendingTcpClosure ClassifyPend)
  take_ready m id = elim (BTreeMap.get id m) [
    | none ↦ (m, none)
    | some c ↦ if is_ready c then (BTreeMap.remove id m, some c) else (m, none)
  ]

  unfoldable pub get_entries_count : TcpClosureCache ClassifyPend → ℕ
  get_entries_count m = length m

  unfoldable pub drain :
      TcpClosureCache ClassifyPend
      → TcpClosureCache ClassifyPend × List (PendingTcpClosure ClassifyPend)
  drain m = ([], BTreeMap.values m)
