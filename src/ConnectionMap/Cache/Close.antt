-- ===== src/ConnectionMap/Cache/Close.antt =====
-- How entries end and leave the cache: by instance, by local endpoint, by inactivity, and the
-- removal of ended history. Each operation that ends entries returns copies of them.
use Prim.Native.Nat.{ℕ, ◌+◌, ◌-◌}
use mathlib.Core.Bool.{Bool, true, false, not, ◌&&◌, ◌||◌}
use mathlib.Core.List.{List, [], ◌∷◌, ◌++◌, flat_map, map}
use mathlib.Core.Option.{Option, none, some}
use windows_kext_mod.Prelude.Tests.{◌==◌, leb, if◌then◌else◌}
use windows_kext_mod.Prelude.Lists.{filter, count}
use windows_kext_mod.Prelude.Order.{Ord, nat_ord, pair_ord}
use windows_kext_mod.Prelude.BTreeMap
use windows_kext_mod.Prelude.BTreeMap.{BTreeMap}
use windows_kext_mod.Key.{IpAddress, Key, udp}
use windows_kext_mod.Connection.{ConnectionTrait}
use windows_kext_mod.ConnectionMap.Bucket
use windows_kext_mod.ConnectionMap.Remote
use windows_kext_mod.ConnectionMap.Remote.{Remote}
use windows_kext_mod.ConnectionMap.Search.{
  one_minute, live, live_instance, matches_endpoint, should_expire_untracked,
}
use windows_kext_mod.ConnectionMap.Cache.{
  ConnectionMap, RemoteEndpoint, connections, find_in_bucket, modify_in_bucket,
}

-- A write at every connection that passes a test.
abbrev pub where_passes : {T : Type 0} → (T → Bool) → (T → T) → T → T
where_passes test f x = if test x then f x else x

-- `map(f).sum()`
pub sum_by {ℓ} : {B : Type ℓ} → (B → ℕ) → List B → ℕ
sum_by f [] = 0
sum_by f (x ∷ xs) = f x + sum_by f xs

module _ {T A : Type 0} ⦃o : Ord A⦄ (c : ConnectionTrait T A) where
  unfoldable pub end_instance : ConnectionMap T A → Key → ℕ → ℕ → ConnectionMap T A × Option T
  end_instance m k id now =
      if id == 0 then (m, none) else elim (find_in_bucket c m k (live_instance c k id)) [
        | none ↦ (m, none)
        | some x ↦
            (modify_in_bucket c m k (live_instance c k id) (λ y. c.end y now), some (c.end x now))
      ]

  -- The loop of `end_instances`, with one reading of the clock.
  unfoldable pub end_instances : ConnectionMap T A → List (Key × ℕ) → ℕ → ConnectionMap T A × List T
  unfolding end_instance
  end_instances m [] now = (m, [])
  end_instances m ((k, id) ∷ instances) now =
      let (m', ended) = end_instance m k id now in
      let (m'', rest) = end_instances m' instances now in
      (m'', elim ended [ none ↦ rest | some x ↦ x ∷ rest ])

  -- Ends every connection of one local port that passes a test.
  abbrev pub end_where : (T → Bool) → ℕ → Remote T (RemoteEndpoint A) → Remote T (RemoteEndpoint A)
  end_where test now = Remote.map_buckets (Bucket.modify_all (where_passes test (λ x. c.end x now)))

  abbrev ended_where : (T → Bool) → ℕ → Remote T (RemoteEndpoint A) → List T
  ended_where test now r = map (λ x. c.end x now) (filter test (connections r))

  unfoldable pub end_matching_on_endpoint :
      ConnectionMap T A
      → ℕ × ℕ
      → Option IpAddress
      → Option ℕ
      → Bool
      → ℕ
      → ConnectionMap T A × Option (List T)
  end_matching_on_endpoint m key local_address process_id untracked_only now =
      let test = λ (x : T). matches_endpoint c x local_address process_id untracked_only in
      elim (BTreeMap.get key m) [
        | none ↦ (m, none)
        | some r ↦ (BTreeMap.update_at key (end_where test now) m, some (ended_where test now r))
      ]

  unfoldable pub end_all_on_endpoint :
      ConnectionMap T A
      → ℕ × ℕ
      → Option IpAddress
      → Option ℕ
      → ℕ
      → ConnectionMap T A × Option (List T)
  unfolding end_matching_on_endpoint
  end_all_on_endpoint m key local_address process_id now =
      end_matching_on_endpoint m key local_address process_id false now

  unfoldable pub end_untracked_on_endpoint :
      ConnectionMap T A
      → ℕ × ℕ
      → Option IpAddress
      → Option ℕ
      → ℕ
      → ConnectionMap T A × Option (List T)
  unfolding end_matching_on_endpoint
  end_untracked_on_endpoint m key local_address process_id now =
      end_matching_on_endpoint m key local_address process_id true now

  -- `now.saturating_sub` of one minute is the truncated subtraction.
  unfoldable pub end_inactive_untracked_connections :
      ConnectionMap T A → ℕ → ConnectionMap T A × List T
  end_inactive_untracked_connections m now =
      let test = λ (x : T). should_expire_untracked c x (now - one_minute) in
      (
        BTreeMap.map_values (end_where test now) m,
        flat_map (ended_where test now) (BTreeMap.values m),
      )

  unfoldable pub clear : ConnectionMap T A → ConnectionMap T A
  clear m = []

  -- What the removal of ended history keeps.
  abbrev pub is_retained : ℕ → T → Bool
  is_retained now x = live c x || leb (now - one_minute) (c.get_end_time x)

  unfoldable pub keep_group : Remote T (RemoteEndpoint A) → Option (Remote T (RemoteEndpoint A))
  keep_group r = if Remote.is_empty r then none else some r

  unfoldable pub clean_ended_connections : ConnectionMap T A → ℕ → ConnectionMap T A
  unfolding keep_group
  clean_ended_connections m now =
      BTreeMap.retain keep_group (BTreeMap.map_values (Remote.retain (is_retained now)) m)

  unfoldable pub append_live_udp_instance_ids : ConnectionMap T A → List ℕ → List ℕ
  append_live_udp_instance_ids m instance_ids =
      instance_ids
      ++ map c.get_instance_id (
          filter (λ x. (c.get_key x).protocol == udp && live c x)
            (flat_map connections (BTreeMap.values m)))

  unfoldable pub get_count : ConnectionMap T A → ℕ
  unfolding sum_by
  get_count m = sum_by Bucket.len (flat_map Remote.values (BTreeMap.values m))

  unfoldable pub get_untracked_count : ConnectionMap T A → ℕ
  get_untracked_count m =
      count (λ x. live c x && not (c.has_native_lifecycle x))
        (flat_map connections (BTreeMap.values m))
