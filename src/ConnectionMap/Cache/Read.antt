-- ===== src/ConnectionMap/Cache/Read.antt =====
-- The lookups by tuple: `read`, `read_with_ended_fallback`, `read_ended_exact`, `read_for_packet`.
-- Each returns the cache too, since a lookup may refresh the last access of the entry it finds.
use Prim.Native.Nat.{ℕ}
use mathlib.Core.Bool.{Bool, true, false, ◌&&◌}
use mathlib.Core.List.{reverse}
use mathlib.Core.Option.{Option, none, some}
use windows_kext_mod.Prelude.Tests.{if◌then◌else◌}
use windows_kext_mod.Prelude.Lists.{find}
use windows_kext_mod.Prelude.Order.{Ord, nat_ord, pair_ord}
use windows_kext_mod.Prelude.BTreeMap
use windows_kext_mod.Key.{Key, Platform, small}
use windows_kext_mod.Connection.{
  ConnectionTrait, Direction, outbound, inbound, has_ended, is_redirect_port,
}
use windows_kext_mod.ConnectionMap.Bucket.{iter}
use windows_kext_mod.ConnectionMap.Search.{
  or, live, live_exact, live_and_ended_match, refresh_untracked_activity,
}
use windows_kext_mod.ConnectionMap.Cache.{
  ConnectionMap, bucket, group, connections, modify_in_bucket, modify_first_value,
}

module _ {T A : Type 0} ⦃o : Ord A⦄ (c : ConnectionTrait T A) where
  abbrev pub live_redirect : Key → T → Bool
  live_redirect k x = c.redirect_equals x k && live c x

  -- The exact matches, live and ended.
  unfoldable pub exact_matches : ConnectionMap T A → Key → Option T × Option T
  exact_matches m k = elim (bucket c m k) [
    | none ↦ (none, none)
    | some b ↦ live_and_ended_match c (λ x. c.remote_equals x k) (iter b)
  ]

  -- The redirect matches: a scan of the group, if the port can belong to a redirection.
  unfoldable pub redirect_matches : Platform → ConnectionMap T A → Key → Option T × Option T
  redirect_matches p m k =
      if is_redirect_port p k.remote_port
      then elim (group c m k) [
        | none ↦ (none, none)
        | some r ↦ live_and_ended_match c (λ x. c.redirect_equals x k) (connections r)
      ]
      else (none, none)

  unfoldable pub read_matching :
      {C : Type 0}
      → Platform
      → ConnectionMap T A
      → Key
      → ℕ
      → (T → Option C)
      → Bool
      → Option C × ConnectionMap T A
  unfolding exact_matches redirect_matches
  read_matching p m k now read_connection use_ended_fallback =
      let (live_match, ended_exact) = exact_matches m k in
      elim live_match [
        | some x ↦ (
          read_connection (refresh_untracked_activity c now x),
          modify_in_bucket c m k (live_exact c k) (refresh_untracked_activity c now),
        )
        | none ↦
            let (redirect, ended_redirect) = redirect_matches p m k in
            elim redirect [
              | some x ↦ (
                read_connection (refresh_untracked_activity c now x),
                BTreeMap.update_at (small k)
                    (modify_first_value (live_redirect k) (refresh_untracked_activity c now)) m,
              )
              -- The refresh of an ended entry changes nothing (`refresh-ended`).
              | none ↦ elim (if use_ended_fallback then or ended_exact ended_redirect else none) [
                | some x ↦ (read_connection (refresh_untracked_activity c now x), m)
                | none ↦ (none, m)
              ]
            ]
      ]

  unfoldable pub read :
      {C : Type 0}
      → Platform
      → ConnectionMap T A
      → Key
      → ℕ
      → (T → Option C)
      → Option C × ConnectionMap T A
  unfolding read_matching
  read p m k now read_connection = read_matching p m k now read_connection false

  unfoldable pub read_with_ended_fallback :
      {C : Type 0}
      → Platform
      → ConnectionMap T A
      → Key
      → ℕ
      → (T → Option C)
      → Option C × ConnectionMap T A
  unfolding read_matching
  read_with_ended_fallback p m k now read_connection = read_matching p m k now read_connection true

  unfoldable pub read_ended_exact :
      {C : Type 0} → ConnectionMap T A → Key → (T → Option C) → Option C
  read_ended_exact m k read_connection = elim (bucket c m k) [
    | none ↦ none
    | some b ↦ elim (find (λ x. c.remote_equals x k && has_ended c x) (reverse (iter b))) [
      | none ↦ none
      | some x ↦ read_connection x
    ]
  ]

  unfoldable pub read_for_packet :
      {C : Type 0}
      → Platform
      → ConnectionMap T A
      → Key
      → Direction
      → ℕ
      → (T → Option C)
      → Option C × ConnectionMap T A
  unfolding read read_with_ended_fallback
  read_for_packet p m k packet_direction now read_connection = elim packet_direction [
    | inbound ↦ read p m k now read_connection
    | outbound ↦ read_with_ended_fallback p m k now read_connection
  ]
