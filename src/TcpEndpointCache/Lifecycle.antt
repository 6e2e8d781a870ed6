-- ===== src/TcpEndpointCache/Lifecycle.antt =====
-- What a connection's handles become when its flow is established, resolved or closed.
use Prim.Native.Nat.{ℕ, ◌<◌}
use mathlib.Core.Path.{◌≡◌, refl, subst}
use mathlib.Core.Logic.{inl, inr}
use mathlib.Core.Bool.{Bool, true, false, ◌||◌}
use mathlib.Core.List.{List, [], ◌∷◌}
use mathlib.Core.Option.{Option, none, some}
use native.Mathlib.Omega.{arith}
use windows_kext_mod.Prelude.Tests.{◌==◌, if◌then◌else◌, Bool-cases, Option-cases}
use windows_kext_mod.Prelude.Order.{nat_ord, same, same→eq}
use windows_kext_mod.Prelude.BTreeMap
use windows_kext_mod.Prelude.BTreeMap.{BTreeMap, get-insert}
use windows_kext_mod.TcpClosureCache.{TcpEndpointConnection}
use windows_kext_mod.TcpClosureCache.RequestIds.{has}
use windows_kext_mod.TcpEndpointCache.{
  TcpEndpointLookupKey, TcpEndpointRecord, TcpEndpointCache, Endpoints, lookup_ord, endpoint_ord,
  lookup_key, is_alias, new, remove_endpoint_aliases,
}
use windows_kext_mod.TcpEndpointCache.Aliases.{IsConsistent, is_keyed, remove_endpoint_aliases_lem}
use windows_kext_mod.TcpEndpointCache.Handles.{to_list}
use windows_kext_mod.TcpEndpointCache.Consistency.{
  associate_instance_at-IsConsistent, rebind_established-IsConsistent, take-IsConsistent,
  take_unestablished-IsConsistent, take_unestablished_before-IsConsistent,
}
use windows_kext_mod.TcpEndpointCache.Transitions.{
  associate_instance_at, is_foreign, rebind_established, take_unestablished_before,
  take_unestablished, take, clear, first_live, resolve_live_instance,
}

pub data Call : Type 0 where
  associated : (handle : ℕ) → TcpEndpointConnection → (now : ℕ) → Call
  established : (handle : ℕ) → TcpEndpointConnection → Call
  expired : (cutoff_ms : ℕ) → (TcpEndpointConnection → Bool) → Call
  released : (handle : ℕ) → Call
  closed : (handle : ℕ) → Call
  cleared : Call

abbrev pub step : TcpEndpointCache → Call → TcpEndpointCache
step s (associated handle e now) = (associate_instance_at s handle e now).0
step s (established handle e) = (rebind_established s handle e).0
step s (expired cutoff_ms should_expire) = (take_unestablished_before s cutoff_ms should_expire).0
step s (released handle) = (take_unestablished s handle).0
step s (closed handle) = (take s handle).0
step s cleared = clear s

unfoldable pub run : TcpEndpointCache → List Call → TcpEndpointCache
run s [] = s
run s (c ∷ cs) = run (step s c) cs

new-IsConsistent : IsConsistent new
unfolding new BTreeMap.get
new-IsConsistent = (tt, (tt, tt), λ k h. refl)

step-IsConsistent : (s : TcpEndpointCache) (c : Call) → IsConsistent s → IsConsistent (step s c)
unfolding clear new BTreeMap.get
step-IsConsistent s (associated handle e now) x =
    associate_instance_at-IsConsistent s handle e now x
step-IsConsistent s (established handle e) x = rebind_established-IsConsistent s handle e x
step-IsConsistent s (expired cutoff_ms should_expire) x =
    take_unestablished_before-IsConsistent s cutoff_ms should_expire x
step-IsConsistent s (released handle) x = take_unestablished-IsConsistent s handle x
step-IsConsistent s (closed handle) x = take-IsConsistent s handle x
step-IsConsistent s cleared x = new-IsConsistent

run_from : (s : TcpEndpointCache) (cs : List Call) → IsConsistent s → IsConsistent (run s cs)
unfolding run
run_from s [] x = x
run_from s (c ∷ cs) x = run_from (step s c) cs (step-IsConsistent s c x)

-- Over any sequence of calls, the index has every endpoint handle under the tuple and the
-- listener of its record, and nothing else; its buckets and both maps are in order.
pub run-IsConsistent : (cs : List Call) → IsConsistent (run new cs)
run-IsConsistent cs = run_from new cs new-IsConsistent

abbrev get : ℕ → TcpEndpointCache → Option TcpEndpointRecord
get h s = BTreeMap.get h s.endpoints

-- From a consistent cache, the closure of a tracked handle hands out its connection and takes
-- away every handle of that connection, and no other.
pub take_lem :
    (s : TcpEndpointCache) (handle h : ℕ) {r : TcpEndpointRecord}
    → IsConsistent s
    → 0 < handle
    → get handle s ≡ some r
    → ((take s handle).1 ≡ some r.endpoint)
      × (get h (take s handle).0 ≡ (if is_alias r.endpoint (get h s) then none else get h s))
unfolding take
take_lem s handle h {r} x set found =
    let tested : (handle == 0) ≡ false = ground (arith, set) in
    rw (tested, found, take) (refl, remove_endpoint_aliases_lem s r.endpoint h x)

-- From a consistent cache, a rebind of set identities to a handle that is free or the
-- connection's own succeeds, leaves that handle as the connection's only one, established, and
-- keeps the other connections' handles.
pub rebind_established_lem :
    (s : TcpEndpointCache) (handle h : ℕ) (e : TcpEndpointConnection)
    → IsConsistent s
    → 0 < handle
    → 0 < e.instance_id
    → is_foreign e (get handle s) ≡ false
    → ((rebind_established s handle e).1 ≡ true)
      × (get h (rebind_established s handle e).0 ≡ (
          if same h handle
          then some (record { endpoint = e; established = true; associated_at_ms = 0 })
          else if is_alias e (get h s)
          then none
          else get h s))
unfolding rebind_established
rebind_established_lem s handle h e x set_handle set_id own =
    let r : TcpEndpointRecord = record { endpoint = e; established = true; associated_at_ms = 0 } in
    let tested : ((handle == 0 || e.instance_id == 0) || is_foreign e (get handle s)) ≡ false =
      ground (arith, own, set_handle, set_id) in
    rw (tested, rebind_established)
      (
        refl,
        ground (
          arith,
          get-insert h handle r (remove_endpoint_aliases s e).endpoints,
          remove_endpoint_aliases_lem s e h x,
        ),
      )

first_live_lem :
    (is_live : ℕ → Bool) (m : Endpoints) (k : TcpEndpointLookupKey) (hs : List ℕ)
    {e : TcpEndpointConnection}
    → ((h : ℕ) → has h hs ≡ true → is_keyed k (BTreeMap.get h m) ≡ true)
    → first_live is_live m hs ≡ some e
    → (lookup_key e ≡ k) × (is_live e.instance_id ≡ true)
first_live_lem is_live m k [] keyed h = absurd (ground (arith, h))
first_live_lem is_live m k (x ∷ hs) {e} keyed h =
    let rest =
      first_live_lem is_live m k hs {e = e} (λ y member. keyed y (ground (arith, member))) in
    elim (Option-cases (BTreeMap.get x m)) [
      | inl absent ↦ ground (arith, h, absent, rest)
      | inr (r, found) ↦
          let here : is_keyed k (some r) ≡ true =
            subst (λ o. is_keyed k o ≡ true) found (keyed x (ground arith)) in
          let place = same→eq k (lookup_key r.endpoint) here in
          elim (Bool-cases (is_live r.endpoint.instance_id)) [
            | inl live ↦ ground (arith, h, found, live, place)
            | inr dead ↦ ground (arith, h, found, dead, rest)
          ]
    ]

-- From a consistent cache, a flow resolves only to a live connection of its tuple and its
-- listener.
pub resolve_live_instance_lem :
    (s : TcpEndpointCache) (k : TcpEndpointLookupKey) (is_live : ℕ → Bool)
    {e : TcpEndpointConnection}
    → IsConsistent s
    → resolve_live_instance s k is_live ≡ some e
    → (lookup_key e ≡ k) × (is_live e.instance_id ≡ true)
unfolding resolve_live_instance
resolve_live_instance_lem s k is_live {e} x h = elim (Option-cases (BTreeMap.get k s.lookup)) [
  | inl absent ↦ absurd (ground (arith, h, absent))
  | inr (handles, found) ↦
      first_live_lem is_live s.endpoints k (to_list handles) {e = e}
        (λ y member. ground (arith, found, member, x.2 k y)) (ground (arith, h, found))
]
