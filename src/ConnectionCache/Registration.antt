-- ===== src/ConnectionCache/Registration.antt =====
-- A registration never leaves a tuple with two live connections.
use Prim.Native.Nat.{ℕ}
use mathlib.Core.Path.{◌≡◌, refl}
use mathlib.Core.Logic.{◌⊎◌, inl, inr}
use mathlib.Core.Bool.{Bool}
use native.Mathlib.Omega.{arith}
use windows_kext_mod.Prelude.Tests.{Bool-cases}
use windows_kext_mod.Prelude.Order.{Ord, nat_ord, pair_ord}
use windows_kext_mod.Key.{Key, Platform, is_ipv6}
use windows_kext_mod.Connection.{
  ConnectionTrait, ConnectionError, Direction, inbound, Outcome, ok, err,
}
use windows_kext_mod.Connection.V4
use windows_kext_mod.Connection.V4.{ConnectionV4, connection_v4}
use windows_kext_mod.Connection.V6
use windows_kext_mod.Connection.V6.{ConnectionV6, connection_v6}
use windows_kext_mod.Connection.Laws.{IsLawful, connection_v4-IsLawful, connection_v6-IsLawful}
use windows_kext_mod.ConnectionMap.Cache.{ConnectionMap, insert_if_absent_with}
use windows_kext_mod.ConnectionMap.Cache.Spec.{CacheIsValid}
use windows_kext_mod.ConnectionMap.Cache.Insert.{
  IsHarmless, IsUnique, insert_if_absent_with_lem, insert_if_absent_with-IsUnique,
}
use windows_kext_mod.ConnectionCache.Family.{register, register_unchanged, merge_into}
use windows_kext_mod.ConnectionCache.{
  ConnectionCache, fields_v4, fields_v6, register_connection_with_lifecycle,
  register_inbound_udp_fallback_connection,
}

Outcome-cases :
    {B : Type 0} (o : Outcome B) → ((b : B) × (o ≡ ok b)) ⊎ ((e : ConnectionError) × (o ≡ err e))
Outcome-cases (ok b) = inl (b, refl)
Outcome-cases (err e) = inr (e, refl)

merge_into_v4-IsHarmless :
    (p : Platform) (x : ConnectionV4)
    → IsHarmless (connection_v4 p) (merge_into (connection_v4 p) fields_v4 x)
unfolding merge_into connection_v4 V4.mark_native_lifecycle V4.get_key
merge_into_v4-IsHarmless p x = record {
  key = λ y. ground arith;
  address_key = λ y. ground arith;
  instance_id = λ y. ground arith;
  end_time = λ y. ground arith;
}

merge_into_v6-IsHarmless :
    (p : Platform) (x : ConnectionV6)
    → IsHarmless (connection_v6 p) (merge_into (connection_v6 p) fields_v6 x)
unfolding merge_into connection_v6 V6.mark_native_lifecycle V6.get_key
merge_into_v6-IsHarmless p x = record {
  key = λ y. ground arith;
  address_key = λ y. ground arith;
  instance_id = λ y. ground arith;
  end_time = λ y. ground arith;
}

nothing-IsHarmless : {T A : Type 0} (c : ConnectionTrait T A) → IsHarmless c (λ y. y)
nothing-IsHarmless c = record {
  key = λ y. refl;
  address_key = λ y. refl;
  instance_id = λ y. refl;
  end_time = λ y. refl;
}

module _ {T A : Type 0} ⦃o : Ord A⦄ (c : ConnectionTrait T A) (law : IsLawful c) where
  -- A valid map whose tuples have at most one live connection each.
  abbrev IsSingle : ConnectionMap T A → Type 0
  IsSingle m = CacheIsValid c m × IsUnique c m

  insert-IsSingle :
      (m : ConnectionMap T A) (x : T) (update : T → T) (e : A)
      → IsHarmless c update
      → IsSingle m
      → IsSingle (insert_if_absent_with c m x update).0
  insert-IsSingle m x update e h s = (
    (insert_if_absent_with_lem c m x update (0, 0) (e, 0) h s.0).1,
    insert_if_absent_with-IsUnique c m x update law h s.0 s.1,
  )

module _ (p : Platform) where
  abbrev pub IsSound : ConnectionCache → Type 0
  IsSound s =
      (CacheIsValid (connection_v4 p) s.connections_v4
        × IsUnique (connection_v4 p) s.connections_v4)
      × (CacheIsValid (connection_v6 p) s.connections_v6
          × IsUnique (connection_v6 p) s.connections_v6)

  pub register_connection_with_lifecycle-IsSound :
      (s : ConnectionCache) (key : Key) (process_id : ℕ) (direction : Direction) (native : Bool)
      (thread_id now fresh : ℕ)
      → IsSound s
      → IsSound
          (register_connection_with_lifecycle p s key process_id direction native thread_id now
            fresh).0
  unfolding register_connection_with_lifecycle register
  register_connection_with_lifecycle-IsSound s key process_id direction native thread_id now fresh
        x =
      elim (Bool-cases (is_ipv6 key)) [
        | inl v6 ↦
            elim (Outcome-cases
              (V6.from_key_with_lifecycle key process_id direction native now fresh)) [
                | inl (y, made) ↦
                    let y' : ConnectionV6 = record y { thread_id = thread_id } in
                    rw (v6, made, register_connection_with_lifecycle)
                      (
                        x.0,
                        insert-IsSingle (connection_v6 p) (connection_v6-IsLawful p)
                            s.connections_v6 y' (merge_into (connection_v6 p) fields_v6 y') (0, 0)
                            (merge_into_v6-IsHarmless p y') x.1,
                      )
                | inr (e, refused) ↦ rw (v6, refused, register_connection_with_lifecycle) x
              ]
        | inr v4 ↦
            elim (Outcome-cases
              (V4.from_key_with_lifecycle key process_id direction native now fresh)) [
                | inl (y, made) ↦
                    let y' : ConnectionV4 = record y { thread_id = thread_id } in
                    rw (v4, made, register_connection_with_lifecycle)
                      (
                        insert-IsSingle (connection_v4 p) (connection_v4-IsLawful p)
                            s.connections_v4 y' (merge_into (connection_v4 p) fields_v4 y') 0
                            (merge_into_v4-IsHarmless p y') x.0,
                        x.1,
                      )
                | inr (e, refused) ↦ rw (v4, refused, register_connection_with_lifecycle) x
              ]
      ]

  pub register_inbound_udp_fallback_connection-IsSound :
      (s : ConnectionCache) (key : Key) (process_id now fresh : ℕ)
      → IsSound s
      → IsSound (register_inbound_udp_fallback_connection p s key process_id now fresh).0
  unfolding register_inbound_udp_fallback_connection register_unchanged
  register_inbound_udp_fallback_connection-IsSound s key process_id now fresh x =
      elim (Bool-cases (is_ipv6 key)) [
        | inl v6 ↦ elim (Outcome-cases (V6.from_untracked_key key process_id inbound now fresh)) [
          | inl (y, made) ↦
              rw (v6, made, register_inbound_udp_fallback_connection)
                (
                  x.0,
                  insert-IsSingle (connection_v6 p) (connection_v6-IsLawful p) s.connections_v6
                      (fields_v6.set_idle_expiration y) (λ z. z) (0, 0)
                      (nothing-IsHarmless (connection_v6 p)) x.1,
                )
          | inr (e, refused) ↦ rw (v6, refused, register_inbound_udp_fallback_connection) x
        ]
        | inr v4 ↦ elim (Outcome-cases (V4.from_untracked_key key process_id inbound now fresh)) [
          | inl (y, made) ↦
              rw (v4, made, register_inbound_udp_fallback_connection)
                (
                  insert-IsSingle (connection_v4 p) (connection_v4-IsLawful p) s.connections_v4
                      (fields_v4.set_idle_expiration y) (λ z. z) 0
                      (nothing-IsHarmless (connection_v4 p)) x.0,
                  x.1,
                )
          | inr (e, refused) ↦ rw (v4, refused, register_inbound_udp_fallback_connection) x
        ]
      ]
