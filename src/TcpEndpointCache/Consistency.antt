-- ===== src/TcpEndpointCache/Consistency.antt =====
-- The index is consistent under every operation.
use Prim.Native.Nat.{ℕ}
use mathlib.Core.Path.{◌≡◌, refl, ◌∙◌}
use mathlib.Core.Logic.{inl, inr}
use mathlib.Core.Bool.{Bool, true, false, not, ◌||◌}
use mathlib.Core.List.{[], ◌∷◌}
use mathlib.Core.Option.{Option, none, some}
use native.Mathlib.Omega.{arith}
use windows_kext_mod.Prelude.Tests.{◌==◌, if◌then◌else◌, Bool-cases, Option-cases}
use windows_kext_mod.Prelude.Order.{nat_ord, same→eq}
use windows_kext_mod.Prelude.BTreeMap
use windows_kext_mod.Prelude.BTreeMap.{
  BTreeMap, IsSorted, get-Above, get-insert, get-remove, get-update_at, get-retain,
}
use windows_kext_mod.Prelude.BTreeMap.Sorted.{insert-IsSorted, update_at-IsSorted, retain-IsSorted}
use windows_kext_mod.Key.{key_eq}
use windows_kext_mod.TcpClosureCache.{TcpEndpointConnection}
use windows_kext_mod.TcpEndpointCache.{
  TcpEndpointLookupKey, TcpEndpointRecord, TcpEndpointCache, Endpoints, Lookup, lookup_ord,
  endpoint_ord, lookup_key, add_lookup_handle, remove_lookup_handle, is_alias,
  remove_endpoint_aliases, rebuild_lookup, index_endpoints,
}
use windows_kext_mod.TcpEndpointCache.Buckets.{
  IsIndex, is_indexed, add_lookup_handle_lem, add_lookup_handle-IsIndex, remove_lookup_handle_lem,
  remove_lookup_handle-IsIndex,
}
use windows_kext_mod.TcpEndpointCache.Aliases.{
  IsConsistent, is_keyed, remove_endpoint_aliases_lem, remove_endpoint_aliases-IsConsistent,
}
use windows_kext_mod.TcpEndpointCache.Transitions.{
  put_endpoint, with_parent, reassociate, associate_instance_at, has_established_alias, is_foreign,
  rebind_established, expired, is_expired, unless_expired, is_empty, take_unestablished_before,
  take_unestablished, take,
}

put_endpoint-IsConsistent :
    (s : TcpEndpointCache) (handle : ℕ) (r : TcpEndpointRecord)
    → IsConsistent s
    → BTreeMap.get handle s.endpoints ≡ none
    → IsConsistent (put_endpoint s handle r)
put_endpoint-IsConsistent s handle r x absent = (
  insert-IsSorted handle r s.endpoints x.0,
  add_lookup_handle-IsIndex s.lookup (lookup_key r.endpoint) handle x.1,
  λ k h. ground (
    arith,
    absent,
    x.2 k h,
    add_lookup_handle_lem s.lookup (lookup_key r.endpoint) handle k h,
    get-insert h handle r s.endpoints,
    same→eq h handle,
  ),
)

reassociate-IsConsistent :
    (s : TcpEndpointCache) (handle : ℕ) (r : TcpEndpointRecord) (parent : Option ℕ)
    → IsConsistent s
    → BTreeMap.get handle s.endpoints ≡ some r
    → IsConsistent (reassociate s handle r parent).0
unfolding reassociate
reassociate-IsConsistent s handle r parent x found =
    elim (Option-cases r.endpoint.parent_endpoint_handle) [
      | inr (p, known) ↦ elim (Option-cases parent) [
        | inl omitted ↦ rw (known, omitted, reassociate) x
        | inr (q, given) ↦ rw (known, given, reassociate) x
      ]
      | inl unknown ↦ elim (Option-cases parent) [
        | inl omitted ↦ rw (unknown, omitted, reassociate) x
        | inr (q, given) ↦
            let old_key = lookup_key r.endpoint in
            let new_key = lookup_key (with_parent q r).endpoint in
            let removed = remove_lookup_handle s.lookup old_key handle in
            rw (unknown, given, reassociate)
              (
                update_at-IsSorted handle (with_parent q) s.endpoints x.0,
                add_lookup_handle-IsIndex removed new_key handle
                    (remove_lookup_handle-IsIndex s.lookup old_key handle x.1),
                λ k h. ground (
                  arith,
                  found,
                  x.2 k h,
                  add_lookup_handle_lem removed new_key handle k h,
                  remove_lookup_handle_lem s.lookup old_key handle k h x.1,
                  get-update_at h handle (with_parent q) s.endpoints {v = r} found,
                  same→eq h handle,
                ),
              )
      ]
    ]

abbrev is_other : TcpEndpointRecord → TcpEndpointConnection → Bool
is_other r e = not (key_eq r.endpoint.key e.key) || not (r.endpoint.instance_id == e.instance_id)

pub associate_instance_at-IsConsistent :
    (s : TcpEndpointCache) (handle : ℕ) (e : TcpEndpointConnection) (now : ℕ)
    → IsConsistent s
    → IsConsistent (associate_instance_at s handle e now).0
unfolding associate_instance_at
associate_instance_at-IsConsistent s handle e now x =
    elim (Bool-cases (handle == 0 || e.instance_id == 0)) [
      | inl unset ↦ rw (unset, associate_instance_at) x
      | inr set ↦ elim (Option-cases (BTreeMap.get handle s.endpoints)) [
        | inl absent ↦
            let r : TcpEndpointRecord = record {
              endpoint = e;
              established = has_established_alias s e;
              associated_at_ms = now;
            } in
            rw (set, absent, associate_instance_at) (put_endpoint-IsConsistent s handle r x absent)
        | inr (r, found) ↦ elim (Bool-cases (is_other r e)) [
          | inl other ↦ rw (set, found, other, associate_instance_at) x
          | inr known ↦
              rw (set, found, known, associate_instance_at)
                (reassociate-IsConsistent s handle r e.parent_endpoint_handle x found)
        ]
      ]
    ]

abbrev is_refused : TcpEndpointCache → ℕ → TcpEndpointConnection → Bool
is_refused s handle e =
    (handle == 0 || e.instance_id == 0) || is_foreign e (BTreeMap.get handle s.endpoints)

own_alias :
    (e : TcpEndpointConnection) (o : Option TcpEndpointRecord)
    → is_foreign e o ≡ false
    → (if is_alias e o then none else o) ≡ none
own_alias e none h = refl
own_alias e (some r) h = ground arith

pub rebind_established-IsConsistent :
    (s : TcpEndpointCache) (handle : ℕ) (e : TcpEndpointConnection)
    → IsConsistent s
    → IsConsistent (rebind_established s handle e).0
unfolding rebind_established
rebind_established-IsConsistent s handle e x = elim (Bool-cases (is_refused s handle e)) [
  | inl refused ↦ rw (refused, rebind_established) x
  | inr accepted ↦
      let r : TcpEndpointRecord = record {
        endpoint = e;
        established = true;
        associated_at_ms = 0;
      } in
      rw (accepted, rebind_established)
        (put_endpoint-IsConsistent (remove_endpoint_aliases s e) handle r
          (remove_endpoint_aliases-IsConsistent s e x)
          (remove_endpoint_aliases_lem s e handle x
            ∙ own_alias e (BTreeMap.get handle s.endpoints) (ground (arith, accepted))))
]

index_endpoints_lem :
    (l : Lookup) (m : Endpoints) (k : TcpEndpointLookupKey) (h : ℕ)
    → IsSorted m
    → is_indexed (index_endpoints l m) k h ≡ (is_indexed l k h || is_keyed k (BTreeMap.get h m))
unfolding index_endpoints BTreeMap.get
index_endpoints_lem l [] k h s = ground arith
index_endpoints_lem l ((j, r) ∷ m) k h s = ground (
  arith,
  index_endpoints_lem (add_lookup_handle l (lookup_key r.endpoint) j) m k h s.1,
  add_lookup_handle_lem l (lookup_key r.endpoint) j k h,
  get-Above j m s.0,
)

index_endpoints-IsIndex : (l : Lookup) (m : Endpoints) → IsIndex l → IsIndex (index_endpoints l m)
unfolding index_endpoints
index_endpoints-IsIndex l [] x = x
index_endpoints-IsIndex l ((j, r) ∷ m) x =
    index_endpoints-IsIndex (add_lookup_handle l (lookup_key r.endpoint) j) m
      (add_lookup_handle-IsIndex l (lookup_key r.endpoint) j x)

pub take-IsConsistent :
    (s : TcpEndpointCache) (handle : ℕ) → IsConsistent s → IsConsistent (take s handle).0
unfolding take
take-IsConsistent s handle x = elim (Bool-cases (handle == 0)) [
  | inl unset ↦ rw (unset, take) x
  | inr set ↦ elim (Option-cases (BTreeMap.get handle s.endpoints)) [
    | inl absent ↦ rw (set, absent, take) x
    | inr (r, found) ↦ rw (set, found, take) (remove_endpoint_aliases-IsConsistent s r.endpoint x)
  ]
]

pub take_unestablished-IsConsistent :
    (s : TcpEndpointCache) (handle : ℕ)
    → IsConsistent s
    → IsConsistent (take_unestablished s handle).0
unfolding take_unestablished
take_unestablished-IsConsistent s handle x = elim (Option-cases (BTreeMap.get handle s.endpoints)) [
  | inl absent ↦ rw (absent, take_unestablished) x
  | inr (r, found) ↦ elim (Bool-cases r.established) [
    | inl established ↦ rw (found, established, take_unestablished) x
    | inr pending ↦
        rw (found, pending, take_unestablished)
          (remove_endpoint_aliases-IsConsistent s r.endpoint x)
  ]
]

nothing_indexed :
    (k : TcpEndpointLookupKey) (h : ℕ) (o : Option TcpEndpointRecord)
    → (is_indexed [] k h || is_keyed k o) ≡ is_keyed k o
unfolding BTreeMap.get
nothing_indexed k h o = refl

rebuild_lookup-IsConsistent :
    (s : TcpEndpointCache) → IsSorted s.endpoints → IsConsistent (rebuild_lookup s)
unfolding rebuild_lookup
rebuild_lookup-IsConsistent s sorted = (
  sorted,
  index_endpoints-IsIndex [] s.endpoints (tt, tt),
  λ k h.
      index_endpoints_lem [] s.endpoints k h sorted
      ∙ nothing_indexed k h (BTreeMap.get h s.endpoints),
)

pub take_unestablished_before-IsConsistent :
    (s : TcpEndpointCache) (cutoff_ms : ℕ) (should_expire : TcpEndpointConnection → Bool)
    → IsConsistent s
    → IsConsistent (take_unestablished_before s cutoff_ms should_expire).0
unfolding take_unestablished_before
take_unestablished_before-IsConsistent s cutoff_ms should_expire x =
    let set = expired (is_expired cutoff_ms should_expire) s.endpoints in
    let kept : TcpEndpointCache = record s {
      endpoints = BTreeMap.retain (unless_expired set) s.endpoints;
    } in
    elim (Bool-cases (is_empty set)) [
      | inl none_expired ↦ rw (none_expired, take_unestablished_before) x
      | inr some_expired ↦
          rw (some_expired, take_unestablished_before)
            (rebuild_lookup-IsConsistent kept
              (retain-IsSorted (unless_expired set) s.endpoints x.0))
    ]
