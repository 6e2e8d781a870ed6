-- ===== src/Tests/Endpoints.antt =====
-- The handles of TCP connections at concrete inputs.
use Prim.Native.Nat.{ℕ}
use mathlib.Core.Path.{◌≡◌, refl}
use mathlib.Core.Bool.{Bool, true, false}
use mathlib.Core.List.{List, [], ◌∷◌}
use mathlib.Core.Option.{none, some}
use native.Mathlib.Omega.{arith}
use windows_kext_mod.Prelude.Tests.{◌==◌, if◌then◌else◌}
use windows_kext_mod.Prelude.Order.{nat_ord, same}
use windows_kext_mod.Prelude.Order.Derived.{by_view, list_ord, list_cmp}
use windows_kext_mod.Prelude.BTreeMap
use windows_kext_mod.Key.{Key, ipv4, tcp, key_eq, address_eq}
use windows_kext_mod.Key.Order.{key_ord, address_ord}
use windows_kext_mod.TcpClosureCache.{TcpEndpointConnection}
use windows_kext_mod.TcpEndpointCache.{
  TcpEndpointRecord, new, add_lookup_handle, is_alias, lookup_ord, option_ord, endpoint_ord,
  lookup_key,
}
use windows_kext_mod.TcpEndpointCache.Handles.{insert}
use windows_kext_mod.TcpEndpointCache.Transitions.{
  associate_instance_at, rebind_established, resolve_live_instance, take, is_foreign,
}
use windows_kext_mod.TcpEndpointCache.Aliases.{IsConsistent}
use windows_kext_mod.TcpEndpointCache.Lifecycle.{
  Call, associated, run, run-IsConsistent, take_lem, rebind_established_lem,
  resolve_live_instance_lem,
}

abbrev web : Key
web = record {
  protocol = tcp;
  local_address = ipv4 (10 ∷ 0 ∷ 0 ∷ 1 ∷ []);
  local_port = 8080;
  remote_address = ipv4 (192 ∷ 0 ∷ 2 ∷ 1 ∷ []);
  remote_port = 50000;
}

abbrev accepted : TcpEndpointConnection
accepted = record { key = web; parent_endpoint_handle = some 2; instance_id = 7 }

-- The provisional handle of an accepted connection, and its alias.
abbrev calls : List Call
calls = associated 9 accepted 100 ∷ associated 12 accepted 120 ∷ []

abbrev provisional : TcpEndpointRecord
provisional = record { endpoint = accepted; established = false; associated_at_ms = 100 }

abbrev is_live : ℕ → Bool
is_live i = i == 7

found : BTreeMap.get 9 (run new calls).endpoints ≡ some provisional
unfolding run new associate_instance_at add_lookup_handle insert BTreeMap.get BTreeMap.insert
    BTreeMap.update_at lookup_ord by_view key_ord address_ord option_ord list_ord list_cmp
    endpoint_ord key_eq address_eq
found = refl

free : is_foreign accepted (BTreeMap.get 15 (run new calls).endpoints) ≡ false
unfolding run new associate_instance_at add_lookup_handle insert BTreeMap.get BTreeMap.insert
    BTreeMap.update_at lookup_ord by_view key_ord address_ord option_ord list_ord list_cmp
    endpoint_ord key_eq address_eq
free = refl

resolved : resolve_live_instance (run new calls) (lookup_key accepted) is_live ≡ some accepted
unfolding run new associate_instance_at add_lookup_handle insert BTreeMap.get BTreeMap.insert
    BTreeMap.update_at lookup_ord by_view key_ord address_ord option_ord list_ord list_cmp
    endpoint_ord key_eq address_eq resolve_live_instance
resolved = refl

run-IsConsistent_example : IsConsistent (run new calls)
run-IsConsistent_example = run-IsConsistent calls

take_lem_example :
    ((take (run new calls) 9).1 ≡ some accepted)
    × (BTreeMap.get 12 (take (run new calls) 9).0.endpoints ≡ (
        if is_alias accepted (BTreeMap.get 12 (run new calls).endpoints)
        then none
        else BTreeMap.get 12 (run new calls).endpoints))
take_lem_example =
    take_lem (run new calls) 9 12 {r = provisional} (run-IsConsistent calls) (omega arith) found

rebind_established_lem_example :
    ((rebind_established (run new calls) 15 accepted).1 ≡ true)
    × (BTreeMap.get 9 (rebind_established (run new calls) 15 accepted).0.endpoints ≡ (
        if same {K = ℕ} 9 15
        then some (record { endpoint = accepted; established = true; associated_at_ms = 0 })
        else if is_alias accepted (BTreeMap.get 9 (run new calls).endpoints)
        then none
        else BTreeMap.get 9 (run new calls).endpoints))
rebind_established_lem_example =
    rebind_established_lem (run new calls) 15 9 accepted (run-IsConsistent calls) (omega arith)
      (omega arith) free

resolve_live_instance_lem_example : (lookup_key accepted ≡ lookup_key accepted) × (is_live 7 ≡ true)
resolve_live_instance_lem_example =
    resolve_live_instance_lem (run new calls) (lookup_key accepted) is_live {e = accepted}
      (run-IsConsistent calls) resolved
