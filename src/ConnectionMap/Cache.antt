-- ===== src/ConnectionMap/Cache.antt =====
-- `struct ConnectionMap`: the groups by protocol and local port, and the operations that address
-- one tuple. A `&mut T` that an operation hands out is a function that the caller applies to the
-- connection; `now` is the clock that the operation reads.
pub mod Read
pub mod Close
pub mod Spec
pub mod Insert
pub mod Lookup
pub mod Retire
pub mod EndInstance
pub mod EndMany
pub mod RoundTrip
use Prim.Native.Nat.{ℕ, ◌<◌}
use mathlib.Core.Bool.{Bool, true, false, not, ◌&&◌}
use mathlib.Core.List.{List, [], ◌∷◌, ◌++◌, flat_map}
use mathlib.Core.Option.{Option, none, some}
use windows_kext_mod.Prelude.Tests.{◌==◌, if◌then◌else◌}
use windows_kext_mod.Prelude.Lists.{find, any}
use windows_kext_mod.Prelude.Order.{Ord, nat_ord, pair_ord}
use windows_kext_mod.Prelude.BTreeMap
use windows_kext_mod.Prelude.BTreeMap.{BTreeMap}
use windows_kext_mod.Key.{IpAddress, Key, Platform, small, udp, address_eq}
use windows_kext_mod.Connection.{ConnectionTrait, is_redirect_port}
use windows_kext_mod.ConnectionMap.Bucket
use windows_kext_mod.ConnectionMap.Bucket.{Bucket, iter}
use windows_kext_mod.ConnectionMap.Remote
use windows_kext_mod.ConnectionMap.Remote.{Remote}
use windows_kext_mod.ConnectionMap.Search.{
  live, live_exact, live_instance, live_redirect_instance, refresh_untracked_activity,
}

-- `RemoteEndpoint`: the compact address and the port
abbrev pub RemoteEndpoint : Type 0 → Type 0
RemoteEndpoint A = A × ℕ

abbrev pub ConnectionMap : Type 0 → Type 0 → Type 0
ConnectionMap T A = BTreeMap (ℕ × ℕ) (Remote T (RemoteEndpoint A))

-- What `insert_if_absent_with` answers: the identity inserted, or the connection handed back with
-- the identity of the live one that is there.
pub data Insertion (T : Type 0) : Type 0 where
  inserted : ℕ → Insertion T
  occupied : T → ℕ → Insertion T

-- Writes to the first connection of a list of buckets that passes a test.
unfoldable pub modify_first :
    {T E : Type 0} → (T → Bool) → (T → T) → BTreeMap E (Bucket T) → BTreeMap E (Bucket T)
modify_first test f [] = []
modify_first test f ((e, b) ∷ m) =
    if any test (iter b) then (e, Bucket.modify test f b) ∷ m else (e, b) ∷ modify_first test f m

-- The same through `values_mut` of one local port.
unfoldable pub modify_first_value : {T E : Type 0} → (T → Bool) → (T → T) → Remote T E → Remote T E
unfolding modify_first
modify_first_value test f Remote.empty = Remote.empty
modify_first_value test f (Remote.single b) = Remote.single (Bucket.modify test f b)
modify_first_value test f (Remote.many m) = Remote.many (modify_first test f m)

-- `values().flat_map(ConnectionBucket::iter)`
unfoldable pub connections : {T E : Type 0} → Remote T E → List T
connections r = flat_map iter (Remote.values r)

module _ {T A : Type 0} ⦃o : Ord A⦄ (c : ConnectionTrait T A) where
  abbrev pub endpoint_of : T → RemoteEndpoint A
  endpoint_of x = (c.get_remote_address_key x, (c.get_key x).remote_port)

  abbrev pub endpoint_of_key : Key → Option (RemoteEndpoint A)
  endpoint_of_key k = elim (c.remote_address_key k) [
    | none ↦ none
    | some a ↦ some (a, k.remote_port)
  ]

  -- The group of a key.
  abbrev pub group : ConnectionMap T A → Key → Option (Remote T (RemoteEndpoint A))
  group m k = BTreeMap.get (small k) m

  -- `bucket`
  unfoldable pub bucket : ConnectionMap T A → Key → Option (Bucket T)
  bucket m k = elim (endpoint_of_key k) [
    | none ↦ none
    | some e ↦ elim (group m k) [ none ↦ none | some r ↦ Remote.get endpoint_of r e ]
  ]

  -- `find(test)` in the bucket of a key
  unfoldable pub find_in_bucket : ConnectionMap T A → Key → (T → Bool) → Option T
  find_in_bucket m k test = elim (bucket m k) [ none ↦ none | some b ↦ find test (iter b) ]

  -- A write to the connection that `bucket_mut` and `find(test)` select.
  unfoldable pub modify_in_bucket :
      ConnectionMap T A → Key → (T → Bool) → (T → T) → ConnectionMap T A
  modify_in_bucket m k test f = elim (endpoint_of_key k) [
    | none ↦ m
    | some e ↦
        BTreeMap.update_at (small k) (Remote.update_at endpoint_of e (Bucket.modify test f)) m
  ]

  -- The insertion once no live entry is in the way. `entry` has made the group if it was missing.
  pub insert_new : ConnectionMap T A → Key → T → ConnectionMap T A
  insert_new m k x = elim (group m k) [
    | none ↦ BTreeMap.insert (small k) (Remote.insert endpoint_of Remote.empty (endpoint_of x) x) m
    | some r ↦ BTreeMap.update_at (small k) (λ r. Remote.insert endpoint_of r (endpoint_of x) x) m
  ]

  -- The live entry that is in the way of `x`, by the endpoint of `x` itself.
  pub existing : ConnectionMap T A → T → Option T
  existing m x = elim (group m (c.get_key x)) [
    | none ↦ none
    | some r ↦ elim (Remote.get endpoint_of r (endpoint_of x)) [
      | none ↦ none
      | some b ↦ find (live_exact c (c.get_key x)) (iter b)
    ]
  ]

  unfoldable pub insert_if_absent_with :
      ConnectionMap T A → T → (T → T) → ConnectionMap T A × Insertion T
  unfolding insert_new existing
  insert_if_absent_with m x update_existing =
      let k = c.get_key x in
      elim (existing m x) [
        | some y ↦ (
          BTreeMap.update_at (small k)
              (Remote.update_at endpoint_of (endpoint_of x)
                (Bucket.modify (live_exact c k) update_existing))
              m,
          occupied x (c.get_instance_id y),
        )
        | none ↦ (insert_new m k x, inserted (c.get_instance_id x))
      ]

  -- `get_mut`, and the caller's write `f`
  unfoldable pub get_mut : ConnectionMap T A → Key → ℕ → (T → T) → ConnectionMap T A × Option T
  unfolding find_in_bucket modify_in_bucket
  get_mut m k now f = elim (find_in_bucket m k (live_exact c k)) [
    | none ↦ (m, none)
    | some x ↦ (
      modify_in_bucket m k (live_exact c k) (λ y. f (refresh_untracked_activity c now y)),
      some (refresh_untracked_activity c now x),
    )
  ]

  unfoldable pub untracked_instance_id : ConnectionMap T A → Key → Option ℕ
  unfolding find_in_bucket
  untracked_instance_id m k =
      elim (find_in_bucket m k (λ x. live_exact c k x && not (c.has_native_lifecycle x))) [
        | none ↦ none
        | some x ↦ some (c.get_instance_id x)
      ]

  unfoldable pub has_live_instance : ConnectionMap T A → Key → ℕ → Bool
  has_live_instance m k id =
      if id == 0
      then false
      else elim (bucket m k) [ none ↦ false | some b ↦ any (live_instance c k id) (iter b) ]

  -- The connection that `get_live_instance_matching` and `get_mut_instance` select.
  unfoldable pub get_live_instance_matching : Platform → ConnectionMap T A → Key → ℕ → Option T
  unfolding find_in_bucket
  get_live_instance_matching p m k id =
      if id == 0 then none else elim (find_in_bucket m k (live_instance c k id)) [
        | some x ↦ some x
        | none ↦
            if is_redirect_port p k.remote_port
            then elim (group m k) [
              | none ↦ none
              | some r ↦ find (live_redirect_instance c k id) (connections r)
            ]
            else none
      ]

  -- `get_mut_instance`, and the caller's write `f`
  unfoldable pub get_mut_instance :
      Platform → ConnectionMap T A → Key → ℕ → ℕ → (T → T) → ConnectionMap T A × Option T
  unfolding find_in_bucket modify_in_bucket
  get_mut_instance p m k id now f =
      let write = λ (y : T). f (refresh_untracked_activity c now y) in
      if id == 0 then (m, none) else elim (endpoint_of_key k) [
        | none ↦ (m, none)
        | some e ↦ elim (group m k) [
          | none ↦ (m, none)
          | some r ↦ elim (find_in_bucket m k (live_instance c k id)) [
            | some x ↦ (
              modify_in_bucket m k (live_instance c k id) write,
              some (refresh_untracked_activity c now x),
            )
            | none ↦
                if is_redirect_port p k.remote_port
                then elim (find (live_redirect_instance c k id) (connections r)) [
                  | some x ↦ (
                    BTreeMap.update_at (small k)
                        (modify_first_value (live_redirect_instance c k id) write) m,
                    some (refresh_untracked_activity c now x),
                  )
                  | none ↦ (m, none)
                ]
                else (m, none)
          ]
        ]
      ]

  unfoldable pub find_active_udp_pid : ConnectionMap T A → IpAddress → ℕ → IpAddress → Option ℕ
  find_active_udp_pid m local_address local_port remote_address =
      elim (BTreeMap.get (udp, local_port) m) [
        | none ↦ none
        | some r ↦
            elim (find
              (λ x.
                live c x
                && address_eq (c.get_key x).local_address local_address
                && address_eq (c.get_key x).remote_address remote_address)
              (connections r)) [ none ↦ none | some x ↦ some (c.get_process_id x) ]
      ]

  unfoldable pub mark_native_lifecycle_instance :
      ConnectionMap T A → Key → ℕ → ConnectionMap T A × Bool
  unfolding find_in_bucket modify_in_bucket
  mark_native_lifecycle_instance m k id =
      if id == 0 then (m, false) else elim (find_in_bucket m k (live_instance c k id)) [
        | none ↦ (m, false)
        | some x ↦ (modify_in_bucket m k (live_instance c k id) c.mark_native_lifecycle, true)
      ]
