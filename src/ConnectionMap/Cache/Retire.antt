-- ===== src/ConnectionMap/Cache/Retire.antt =====
-- The ends of entries and the removal of history, against the generations.
use Prim.Native.Nat.{ℕ}
use mathlib.Core.Path.{◌≡◌, refl, ◌∙◌, ap}
use mathlib.Core.List.{[], ◌∷◌}
use mathlib.Core.Option.{Option, none, some}
use native.Mathlib.Omega.{arith}
use windows_kext_mod.Prelude.Lists.{filter}
use windows_kext_mod.Prelude.Lists.Searches.{count-filter-le}
use windows_kext_mod.Prelude.Order.{Ord, nat_ord, pair_ord}
use windows_kext_mod.Prelude.BTreeMap
use windows_kext_mod.Prelude.BTreeMap.{BTreeMap, IsSorted, get-retain, get-map_values}
use windows_kext_mod.Prelude.BTreeMap.Sorted.{retain-IsSorted, map_values-IsSorted}
use windows_kext_mod.Connection.{ConnectionTrait}
use windows_kext_mod.ConnectionMap.Remote
use windows_kext_mod.ConnectionMap.Remote.{Remote}
use windows_kext_mod.ConnectionMap.Remote.Spec.{generations, IsValid}
use windows_kext_mod.ConnectionMap.Remote.Retained.{retain-IsValid, generations-retain}
use windows_kext_mod.ConnectionMap.Search.{live_exact}
use windows_kext_mod.ConnectionMap.Cache.{ConnectionMap, RemoteEndpoint, endpoint_of}
use windows_kext_mod.ConnectionMap.Cache.Close.{is_retained, keep_group, clean_ended_connections}
use windows_kext_mod.ConnectionMap.Cache.Spec.{
  of_group, generations_at, AllValid, AllValid-get, CacheIsValid,
}
use windows_kext_mod.ConnectionMap.Cache.Insert.{IsUnique}

module _ {T A : Type 0} ⦃o : Ord A⦄ (c : ConnectionTrait T A) where
  -- A group that is dropped held nothing.
  of_group-keep_group :
      (r : Remote T (RemoteEndpoint A)) (e : RemoteEndpoint A)
      → of_group c (keep_group c r) e ≡ generations (endpoint_of c) r e
  unfolding keep_group Remote.is_empty Remote.get
  of_group-keep_group Remote.empty e = refl
  of_group-keep_group (Remote.single b) e = refl
  of_group-keep_group (Remote.many m) e = refl

  abbrev cleaned : ℕ → ConnectionMap T A → ConnectionMap T A
  cleaned now = BTreeMap.map_values (Remote.retain (is_retained c now))

  AllValid-cleaned : (m : ConnectionMap T A) (now : ℕ) → AllValid c m → AllValid c (cleaned now m)
  unfolding BTreeMap.map_values
  AllValid-cleaned [] now a = tt
  AllValid-cleaned ((g, r) ∷ m) now a =
      (retain-IsValid (endpoint_of c) (is_retained c now) r a.0, AllValid-cleaned m now a.1)

  AllValid-retain :
      (m : ConnectionMap T A) → AllValid c m → AllValid c (BTreeMap.retain (keep_group c) m)
  unfolding BTreeMap.retain keep_group
  AllValid-retain [] a = tt
  AllValid-retain ((g, r) ∷ m) a = ground (arith, AllValid-retain m a.1)

  abbrev cleaned_group :
      ℕ → Option (Remote T (RemoteEndpoint A)) → Option (Remote T (RemoteEndpoint A))
  cleaned_group now none = none
  cleaned_group now (some r) = keep_group c (Remote.retain (is_retained c now) r)

  abbrev after_map : ℕ → Option (Remote T (RemoteEndpoint A)) → Option (Remote T (RemoteEndpoint A))
  after_map now none = none
  after_map now (some r) = some (Remote.retain (is_retained c now) r)

  get-cleaned :
      (m : ConnectionMap T A) (now : ℕ) (g : ℕ × ℕ)
      → IsSorted m
      → BTreeMap.get g (BTreeMap.retain (keep_group c) (cleaned now m))
        ≡ cleaned_group now (BTreeMap.get g m)
  get-cleaned m now g s =
      get-retain g (keep_group c) (cleaned now m) (map_values-IsSorted _ m s)
      ∙ rw (get-map_values g (Remote.retain (is_retained c now)) m) (two_steps (BTreeMap.get g m))
    where
      two_steps :
          (r : Option (Remote T (RemoteEndpoint A)))
          → ◌≡◌ {A = Option (Remote T (RemoteEndpoint A))}
              (elim (after_map now r) [ none ↦ none | some r ↦ keep_group c r ])
              (cleaned_group now r)
      two_steps none = refl
      two_steps (some r) = refl

  -- The generations that the removal of history leaves at one place.
  of_group-cleaned :
      (r : Option (Remote T (RemoteEndpoint A))) (now : ℕ) (e : RemoteEndpoint A)
      → ((r' : Remote T (RemoteEndpoint A)) → r ≡ some r' → IsValid (endpoint_of c) r')
      → of_group c (cleaned_group now r) e ≡ filter (is_retained c now) (of_group c r e)
  unfolding filter
  of_group-cleaned none now e v = refl
  of_group-cleaned (some r) now e v =
      of_group-keep_group (Remote.retain (is_retained c now) r) e
      ∙ generations-retain (endpoint_of c) (is_retained c now) r e (v r refl)

  -- The removal of history from a valid cache keeps it valid, and leaves of each place the live
  -- entries and those that ended in the last minute, in their order.
  pub clean_ended_connections_lem :
      (m : ConnectionMap T A) (now : ℕ) (g : ℕ × ℕ) (e : RemoteEndpoint A)
      → CacheIsValid c m
      → CacheIsValid c (clean_ended_connections c m now)
        × (generations_at c (clean_ended_connections c m now) g e
            ≡ filter (is_retained c now) (generations_at c m g e))
  unfolding clean_ended_connections
  clean_ended_connections_lem m now g e v = (
    (
      retain-IsSorted (keep_group c) (cleaned now m) (map_values-IsSorted _ m v.0),
      AllValid-retain (cleaned now m) (AllValid-cleaned m now v.1),
    ),
    ap (λ r. of_group c r e) (get-cleaned m now g v.0)
        ∙ of_group-cleaned (BTreeMap.get g m) now e (λ r q. AllValid-get c m g r v.1 q),
  )

  -- The removal of history leaves no tuple of a valid cache with two live entries, if none had
  -- two.
  pub clean_ended_connections-IsUnique :
      (m : ConnectionMap T A) (now : ℕ)
      → CacheIsValid c m
      → IsUnique c m
      → IsUnique c (clean_ended_connections c m now)
  clean_ended_connections-IsUnique m now v u k g e =
      rw ((clean_ended_connections_lem m now g e v).1) (
        omega (
          arith,
          u k g e,
          count-filter-le (live_exact c k) (is_retained c now) (generations_at c m g e),
        ))
