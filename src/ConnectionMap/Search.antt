-- ===== src/ConnectionMap/Search.antt =====
-- The predicates and searches of connection_map.rs over single connections and lists of them.
use Prim.Native.Nat.{ℕ}
use mathlib.Core.Path.{◌≡◌, refl}
use mathlib.Core.Bool.{Bool, true, not, ◌&&◌, ◌||◌}
use mathlib.Core.List.{List, [], ◌∷◌}
use mathlib.Core.Option.{Option, none, some}
use native.Mathlib.Omega.{arith}
use windows_kext_mod.Prelude.Tests.{◌==◌, ltb, if◌then◌else◌}
use windows_kext_mod.Prelude.Lists.{find}
use windows_kext_mod.Key.{IpAddress, Key, address_eq}
use windows_kext_mod.Connection.{ConnectionTrait, has_ended}

-- `UNTRACKED_IDLE_TIMEOUT` and the grace period of ended history, in milliseconds
abbrev pub one_minute : ℕ
one_minute = 60000

-- `Option::or`
abbrev pub or {ℓ} : {A : Type ℓ} → Option A → Option A → Option A
or none b = b
or (some a) b = some a

module _ {T A : Type 0} (c : ConnectionTrait T A) where
  abbrev pub live : T → Bool
  live x = not (has_ended c x)

  -- The exact tuple, and not ended.
  abbrev pub live_exact : Key → T → Bool
  live_exact k x = c.remote_equals x k && live x

  -- The same, for one generation.
  abbrev pub live_instance : Key → ℕ → T → Bool
  live_instance k id x = c.remote_equals x k && c.get_instance_id x == id && live x

  abbrev pub live_redirect_instance : Key → ℕ → T → Bool
  live_redirect_instance k id x = c.redirect_equals x k && c.get_instance_id x == id && live x

  -- The loop of `live_and_ended_match`, with the ended match found so far.
  search : (T → Bool) → List T → Option T → Option T × Option T
  search matches [] ended = (none, ended)
  search matches (x ∷ xs) ended =
      let rest = search matches xs (if matches x then or ended (some x) else ended) in
      if matches x && live x then (some x, ended) else rest

  unfoldable pub live_and_ended_match : (T → Bool) → List T → Option T × Option T
  unfolding search
  live_and_ended_match matches xs = search matches xs none

  unfoldable pub should_expire_untracked : T → ℕ → Bool
  should_expire_untracked x cutoff =
      live x
      && not (c.has_native_lifecycle x)
      && c.allows_untracked_expiration x
      && ltb (c.get_last_accessed_time x) cutoff

  unfoldable pub refresh_untracked_activity : ℕ → T → T
  refresh_untracked_activity now x =
      if live x && not (c.has_native_lifecycle x) && c.allows_untracked_expiration x
      then c.set_last_accessed_time x now
      else x

  unfoldable pub matches_endpoint : T → Option IpAddress → Option ℕ → Bool → Bool
  matches_endpoint x local_address process_id untracked_only =
      live x
      && elim local_address [
        | none ↦ true
        | some address ↦ address_eq (c.get_key x).local_address address
      ]
      && elim process_id [
        | none ↦ true
        | some pid ↦ c.get_process_id x == 0 || c.get_process_id x == pid
      ]
      && (not untracked_only || not (c.has_native_lifecycle x))

  search-live :
      (matches : T → Bool) (xs : List T) (ended : Option T)
      → (search matches xs ended).0 ≡ find (λ x. matches x && live x) xs
  unfolding search find
  search-live matches [] ended = refl
  search-live matches (x ∷ xs) ended =
      ground (arith, search-live matches xs (if matches x then or ended (some x) else ended))

  or_assoc : (a b d : Option T) → or (or a b) d ≡ or a (or b d)
  or_assoc none b d = refl
  or_assoc (some a) b d = refl

  search-ended :
      (matches : T → Bool) (xs : List T) (ended : Option T)
      → find (λ x. matches x && live x) xs ≡ none
      → (search matches xs ended).1 ≡ or ended (find matches xs)
  unfolding search find
  search-ended matches [] ended h = ground arith
  search-ended matches (x ∷ xs) ended h = ground (
    arith,
    search-ended matches xs (if matches x then or ended (some x) else ended),
    or_assoc ended (some x) (find matches xs),
  )

  -- The one pass of `live_and_ended_match` is two plain searches: the first live match, and,
  -- where there is none, the first match of all.
  pub live_and_ended_match_lem :
      (matches : T → Bool) (xs : List T)
      → ((live_and_ended_match matches xs).0 ≡ find (λ x. matches x && live x) xs)
        × (or (find (λ x. matches x && live x) xs) (live_and_ended_match matches xs).1
            ≡ or (find (λ x. matches x && live x) xs) (find matches xs))
  unfolding live_and_ended_match
  live_and_ended_match_lem matches xs =
      (search-live matches xs none, ground (arith, search-ended matches xs none))

  -- Only a live connection is refreshed, and only in its last access.
  pub refresh-ended :
      (now : ℕ) (x : T) → has_ended c x ≡ true → refresh_untracked_activity now x ≡ x
  unfolding refresh_untracked_activity
  refresh-ended now x h = ground arith

  pub live_and_ended_match-nil :
      (matches : T → Bool) → live_and_ended_match matches [] ≡ (none, none)
  unfolding live_and_ended_match
  live_and_ended_match-nil matches = refl
