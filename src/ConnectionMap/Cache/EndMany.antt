-- ===== src/ConnectionMap/Cache/EndMany.antt =====
-- The operations that end several entries: they leave the cache valid, and no tuple with two live
-- entries.
use Prim.Native.Nat.{ℕ, ◌-◌, ◌≤◌}
use mathlib.Core.Path.{◌≡◌, refl, ◌∙◌, subst}
use mathlib.Core.Logic.{inl, inr}
use mathlib.Core.Bool.{Bool, true}
use mathlib.Core.List.{List, [], ◌∷◌, map}
use mathlib.Core.Option.{Option, none, some}
use native.Mathlib.Omega.{arith}
use windows_kext_mod.Prelude.Tests.{Bool-cases, Option-cases}
use windows_kext_mod.Prelude.Lists.{count}
use windows_kext_mod.Prelude.Lists.Searches.{count-map-le}
use windows_kext_mod.Prelude.Order.{Ord, same, nat_ord, pair_ord}
use windows_kext_mod.Prelude.BTreeMap
use windows_kext_mod.Prelude.BTreeMap.{get-update_at, get-map_values}
use windows_kext_mod.Prelude.BTreeMap.Sorted.{update_at-IsSorted, map_values-IsSorted}
use windows_kext_mod.Key.{Key, IpAddress}
use windows_kext_mod.Connection.{ConnectionTrait}
use windows_kext_mod.Connection.Laws.{IsLawful}
use windows_kext_mod.ConnectionMap.Remote.{Remote}
use windows_kext_mod.ConnectionMap.Remote.Spec.{IsValid}
use windows_kext_mod.ConnectionMap.Remote.Mapped.{map_buckets-IsValid, generations-map_buckets}
use windows_kext_mod.ConnectionMap.Search.{
  one_minute, live, live_exact, matches_endpoint, should_expire_untracked,
}
use windows_kext_mod.ConnectionMap.Cache.{ConnectionMap, RemoteEndpoint, endpoint_of}
use windows_kext_mod.ConnectionMap.Cache.Close.{
  where_passes, end_where, end_instance, end_instances, end_matching_on_endpoint,
  end_inactive_untracked_connections,
}
use windows_kext_mod.ConnectionMap.Cache.Spec.{
  of_group, generations_at, AllValid, AllValid-get, AllValid-update_at, CacheIsValid,
}
use windows_kext_mod.ConnectionMap.Cache.Insert.{IsUnique}
use windows_kext_mod.ConnectionMap.Cache.EndInstance.{
  end_keeps, end_adds_none, end_instance-IsUnique,
}

module _ {T A : Type 0} ⦃o : Ord A⦄ (c : ConnectionTrait T A) (law : IsLawful c) where
  -- A valid cache with at most one live entry per tuple.
  abbrev IsSingle : ConnectionMap T A → Type 0
  IsSingle m = CacheIsValid c m × IsUnique c m

  -- The ends of all entries that pass a test which only live ones pass.
  module _ (test : T → Bool) (now : ℕ) (of_live : (x : T) → test x ≡ true → live c x ≡ true) where
    abbrev write : T → T
    write = where_passes test (λ x. c.end x now)

    write-keeps : (x : T) → endpoint_of c (write x) ≡ endpoint_of c x
    write-keeps x = ground (arith, end_keeps c law now x)

    write_adds_none : (k : Key) (x : T) → live_exact c k (write x) ≡ true → live_exact c k x ≡ true
    write_adds_none k x h = elim (Bool-cases (test x)) [
      | inl t ↦ end_adds_none c law k now x (of_live x t) (ground arith)
      | inr f ↦ ground arith
    ]

    abbrev group_end : Remote T (RemoteEndpoint A) → Remote T (RemoteEndpoint A)
    group_end = end_where c test now

    group_end-IsValid :
        (r : Remote T (RemoteEndpoint A))
        → IsValid (endpoint_of c) r
        → IsValid (endpoint_of c) (group_end r)
    group_end-IsValid r v = map_buckets-IsValid (endpoint_of c) write write-keeps r v

    abbrev group_after : Option (Remote T (RemoteEndpoint A)) → Option (Remote T (RemoteEndpoint A))
    group_after none = none
    group_after (some r) = some (group_end r)

    of_group-after :
        (r : Option (Remote T (RemoteEndpoint A))) (e : RemoteEndpoint A)
        → ((r' : Remote T (RemoteEndpoint A)) → r ≡ some r' → IsValid (endpoint_of c) r')
        → of_group c (group_after r) e ≡ map write (of_group c r e)
    of_group-after none e v = refl
    of_group-after (some r) e v =
        generations-map_buckets (endpoint_of c) write write-keeps r e (v r refl)

    -- At one place, whether the group was written or not.
    unique_at :
        (m : ConnectionMap T A) (k : Key) (g : ℕ × ℕ) (e : RemoteEndpoint A)
        → IsSingle m
        → count (live_exact c k) (of_group c (group_after (BTreeMap.get g m)) e) ≤ 1
    unique_at m k g e s =
        rw (of_group-after (BTreeMap.get g m) e (λ r q. AllValid-get c m g r s.0.1 q)) (
          omega (
            arith,
            s.1 k g e,
            count-map-le (live_exact c k) write (write_adds_none k) (generations_at c m g e),
          ))

    group_end-IsSingle :
        (m : ConnectionMap T A) (g : ℕ × ℕ) {r : Remote T (RemoteEndpoint A)}
        → BTreeMap.get g m ≡ some r
        → IsSingle m
        → IsSingle (BTreeMap.update_at g group_end m)
    group_end-IsSingle m g {r} present s = (
      (
        update_at-IsSorted g group_end m s.0.0,
        AllValid-update_at c m g group_end s.0.1 group_end-IsValid,
      ),
      λ k g' e. elim (Bool-cases (same g' g)) [
        | inl here ↦
            rw (get-update_at g' g group_end m present, here)
              (subst (λ r. count (live_exact c k) (of_group c (group_after r) e) ≤ 1) present
                (unique_at m k g e s))
        | inr other ↦ rw (get-update_at g' g group_end m present, other) (s.1 k g' e)
      ],
    )

    AllValid-map_values :
        (m : ConnectionMap T A) → AllValid c m → AllValid c (BTreeMap.map_values group_end m)
    unfolding BTreeMap.map_values
    AllValid-map_values [] a = tt
    AllValid-map_values ((g, r) ∷ m) a = (group_end-IsValid r a.0, AllValid-map_values m a.1)

    get-ended :
        (m : ConnectionMap T A) (g : ℕ × ℕ)
        → BTreeMap.get g (BTreeMap.map_values group_end m) ≡ group_after (BTreeMap.get g m)
    get-ended m g = get-map_values g group_end m ∙ same_cases (BTreeMap.get g m)
      where
        same_cases :
            (r : Option (Remote T (RemoteEndpoint A)))
            → ◌≡◌ {A = Option (Remote T (RemoteEndpoint A))}
                (elim r [ none ↦ none | some r ↦ some (group_end r) ])
                (group_after r)
        same_cases none = refl
        same_cases (some r) = refl

    all_end-IsSingle :
        (m : ConnectionMap T A) → IsSingle m → IsSingle (BTreeMap.map_values group_end m)
    all_end-IsSingle m s = (
      (map_values-IsSorted group_end m s.0.0, AllValid-map_values m s.0.1),
      λ k g e. rw (get-ended m g) (unique_at m k g e s),
    )

  -- Each operation that ends several entries.
  matches_endpoint-live :
      (address : Option IpAddress) (process_id : Option ℕ) (untracked_only : Bool) (x : T)
      → matches_endpoint c x address process_id untracked_only ≡ true
      → live c x ≡ true
  unfolding matches_endpoint
  matches_endpoint-live address process_id untracked_only x h = ground arith

  should_expire_untracked-live :
      (cutoff : ℕ) (x : T) → should_expire_untracked c x cutoff ≡ true → live c x ≡ true
  unfolding should_expire_untracked
  should_expire_untracked-live cutoff x h = ground arith

  pub end_matching_on_endpoint-IsSingle :
      (m : ConnectionMap T A) (g : ℕ × ℕ) (address : Option IpAddress) (process_id : Option ℕ)
      (untracked_only : Bool) (now : ℕ)
      → IsSingle m
      → IsSingle (end_matching_on_endpoint c m g address process_id untracked_only now).0
  unfolding end_matching_on_endpoint
  end_matching_on_endpoint-IsSingle m g address process_id untracked_only now s =
      elim (Option-cases (BTreeMap.get g m)) [
        | inl absent ↦ rw (absent, end_matching_on_endpoint) s
        | inr (r, present) ↦
            rw (present, end_matching_on_endpoint)
              (group_end-IsSingle (λ x. matches_endpoint c x address process_id untracked_only) now
                (matches_endpoint-live address process_id untracked_only) m g present s)
      ]

  pub end_inactive_untracked_connections-IsSingle :
      (m : ConnectionMap T A) (now : ℕ)
      → IsSingle m
      → IsSingle (end_inactive_untracked_connections c m now).0
  unfolding end_inactive_untracked_connections
  end_inactive_untracked_connections-IsSingle m now s =
      all_end-IsSingle (λ x. should_expire_untracked c x (now - one_minute)) now
        (should_expire_untracked-live (now - one_minute)) m s

  pub end_instances-IsSingle :
      (m : ConnectionMap T A) (instances : List (Key × ℕ)) (now : ℕ)
      → IsSingle m
      → IsSingle (end_instances c m instances now).0
  unfolding end_instances
  end_instances-IsSingle m [] now s = s
  end_instances-IsSingle m ((k, id) ∷ instances) now s =
      end_instances-IsSingle (end_instance c m k id now).0 instances now
        (end_instance-IsUnique c m k id now law s.0 s.1)
