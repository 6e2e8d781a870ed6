-- ===== src/ConnectionMap/Cache/RoundTrip.antt =====
-- A lookup by the tuple of an inserted connection.
use Prim.Native.Nat.{ℕ}
use mathlib.Core.Path.{◌≡◌, refl, ◌∙◌, ap}
use mathlib.Core.Logic.{inl, inr}
use mathlib.Core.Bool.{Bool, true}
use mathlib.Core.List.{List}
use mathlib.Core.Option.{Option, none, some}
use native.Mathlib.Omega.{arith}
use windows_kext_mod.Prelude.Tests.{Option-cases}
use windows_kext_mod.Prelude.Lists.{find}
use windows_kext_mod.Prelude.Lists.Searches.{find-append, find-update_first}
use windows_kext_mod.Prelude.Order.{Ord, same_refl, nat_ord, pair_ord}
use windows_kext_mod.Key.{Platform, small}
use windows_kext_mod.Connection.{ConnectionTrait}
use windows_kext_mod.Connection.Laws.{IsLawful}
use windows_kext_mod.ConnectionMap.Search.{live, live_exact}
use windows_kext_mod.ConnectionMap.Cache.{
  ConnectionMap, endpoint_of, endpoint_of_key, insert_if_absent_with,
}
use windows_kext_mod.ConnectionMap.Cache.Read.{read_matching}
use windows_kext_mod.ConnectionMap.Cache.Spec.{CacheIsValid}
use windows_kext_mod.ConnectionMap.Cache.Insert.{
  IsHarmless, generations_of, after_insertion, is_place_of, insert_if_absent_with_lem,
  live_exact-harmless,
}
use windows_kext_mod.ConnectionMap.Cache.Lookup.{exact_generations, handed, read_matching_lem}
use windows_kext_mod.ConnectionMap.Cache.EndInstance.{exact_at}

module _ {T A : Type 0} ⦃o : Ord A⦄ (c : ConnectionTrait T A) where
  own_endpoint : IsLawful c → (x : T) → endpoint_of_key c (c.get_key x) ≡ some (endpoint_of c x)
  own_endpoint law x = ground (arith, law.key_of_self x)

  own_place : (x : T) → is_place_of c x (small (c.get_key x)) (endpoint_of c x) ≡ true
  own_place x = ground (arith, same_refl (small (c.get_key x)), same_refl (endpoint_of c x))

  -- The entry that stands for the tuple of `x` once `x` was inserted.
  abbrev pub entry : T → (T → T) → Option T → T
  entry x update none = x
  entry x update (some y) = update y

  abbrev pub live_of : ConnectionMap T A → T → Option T
  live_of m x = find (live_exact c (c.get_key x)) (generations_of c m x)

  find-after_insertion :
      (x : T) (update : T → T) (xs : List T)
      → IsLawful c
      → IsHarmless c update
      → live c x ≡ true
      → find (live_exact c (c.get_key x)) (after_insertion c x update xs)
        ≡ some (entry x update (find (live_exact c (c.get_key x)) xs))
  find-after_insertion x update xs law h alive =
      elim (Option-cases (find (live_exact c (c.get_key x)) xs)) [
        | inl absent ↦
            rw (absent, after_insertion, find-append (live_exact c (c.get_key x)) xs x, absent)
              (ground (arith, law.equals_iff x (c.get_key x)))
        | inr (y, present) ↦
            rw
              (
                present,
                after_insertion,
                find-update_first (live_exact c (c.get_key x)) update xs
                    (live_exact-harmless c update h law (c.get_key x)),
                present,
              )
              refl
      ]

  exact-after_insertion :
      (m : ConnectionMap T A) (x : T) (update : T → T)
      → IsLawful c
      → IsHarmless c update
      → CacheIsValid c m
      → exact_generations c (insert_if_absent_with c m x update).0 (c.get_key x)
        ≡ after_insertion c x update (generations_of c m x)
  exact-after_insertion m x update law h v =
      exact_at c (insert_if_absent_with c m x update).0 (c.get_key x) (endpoint_of c x)
        (own_endpoint law x)
      ∙ (insert_if_absent_with_lem c m x update (small (c.get_key x)) (endpoint_of c x) h v).2
      ∙ rw (own_place x) refl

  -- After the insertion of a live connection into a valid cache, for lawful connections and a
  -- write that keeps a connection's tuple, identity and end time, every read by its tuple hands
  -- over that connection, or the live entry that was there before, as the insertion updated it.
  pub read_matching-insert_if_absent_with :
      {C : Type 0} (p : Platform) (m : ConnectionMap T A) (x : T) (update : T → T) (now : ℕ)
      (read_connection : T → Option C) (use_ended : Bool)
      → IsLawful c
      → IsHarmless c update
      → CacheIsValid c m
      → live c x ≡ true
      → (read_matching c p
          (insert_if_absent_with c m x update).0
          (c.get_key x)
          now
          read_connection
          use_ended).0
        ≡ handed c now read_connection (some (entry x update (live_of m x)))
  read_matching-insert_if_absent_with p m x update now read_connection use_ended law h v alive =
      read_matching_lem c p (insert_if_absent_with c m x update).0 (c.get_key x) now read_connection
        use_ended
      ∙ ap (handed c now read_connection) {y = some (entry x update (live_of m x))} (
          rw
            (
              exact-after_insertion m x update law h v,
              find-after_insertion x update (generations_of c m x) law h alive,
            )
            refl)
