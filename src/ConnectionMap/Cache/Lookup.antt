-- ===== src/ConnectionMap/Cache/Lookup.antt =====
-- The lookups against plain searches of the generations: which entry a read hands to its caller.
use Prim.Native.Nat.{ℕ}
use mathlib.Core.Path.{◌≡◌, refl, ◌∙◌, ap, sym}
use mathlib.Core.Bool.{Bool}
use mathlib.Core.List.{List, []}
use mathlib.Core.Option.{Option, none, some}
use native.Mathlib.Omega.{arith}
use windows_kext_mod.Prelude.Tests.{if◌then◌else◌}
use windows_kext_mod.Prelude.Lists.{find}
use windows_kext_mod.Prelude.Order.{Ord, nat_ord, pair_ord}
use windows_kext_mod.Key.{Key, Platform, small}
use windows_kext_mod.Connection.{ConnectionTrait, is_redirect_port}
use windows_kext_mod.ConnectionMap.Bucket.{Bucket, iter}
use windows_kext_mod.ConnectionMap.Search.{
  or, live_and_ended_match-nil, live_exact, live_and_ended_match, live_and_ended_match_lem,
  refresh_untracked_activity,
}
use windows_kext_mod.ConnectionMap.Cache.{
  ConnectionMap, bucket, group, connections, find_in_bucket, endpoint_of_key,
}
use windows_kext_mod.ConnectionMap.Cache.Read.{
  exact_matches, redirect_matches, read_matching, live_redirect,
}
use windows_kext_mod.ConnectionMap.Remote.Spec.{items}
use windows_kext_mod.ConnectionMap.Cache.Spec.{generations_at}

module _ {T A : Type 0} ⦃o : Ord A⦄ (c : ConnectionTrait T A) where
  -- The generations that a key addresses.
  abbrev pub exact_generations : ConnectionMap T A → Key → List T
  exact_generations m k = elim (endpoint_of_key c k) [
    | none ↦ []
    | some e ↦ generations_at c m (small k) e
  ]

  -- Everything in the group of a key, where redirections are looked for.
  abbrev pub scanned : Platform → ConnectionMap T A → Key → List T
  scanned p m k =
      if is_redirect_port p k.remote_port
      then elim (group c m k) [ none ↦ [] | some r ↦ connections r ]
      else []

  pub find_in_bucket_lem :
      (m : ConnectionMap T A) (k : Key) (test : T → Bool)
      → find_in_bucket c m k test ≡ find test (exact_generations m k)
  unfolding find_in_bucket bucket find
  find_in_bucket_lem m k test = ground arith

  -- The entry that a lookup settles on: a live exact match, else a live redirect match, else, if
  -- ended entries serve, the first exact match or the first redirect match.
  abbrev pub best_match : Platform → ConnectionMap T A → Key → Bool → Option T
  best_match p m k use_ended = or (find (live_exact c k) (exact_generations m k)) (
      or (find (live_redirect c k) (scanned p m k)) (
        if use_ended
        then or (find (λ x. c.remote_equals x k) (exact_generations m k))
            (find (λ x. c.redirect_equals x k) (scanned p m k))
        else none))

  -- What a lookup hands to its caller of the entry that it settles on.
  abbrev pub handed : {C : Type 0} → ℕ → (T → Option C) → Option T → Option C
  handed now read_connection none = none
  handed now read_connection (some x) = read_connection (refresh_untracked_activity c now x)

  items-bucket : (m : ConnectionMap T A) (k : Key) → items (bucket c m k) ≡ exact_generations m k
  unfolding bucket
  items-bucket m k = ground arith

  exact_of_bucket :
      (b : Option (Bucket T)) (k : Key)
      → elim b [
        | none ↦ (none, none)
        | some b ↦ live_and_ended_match c (λ x. c.remote_equals x k) (iter b)
      ]
        ≡ live_and_ended_match c (λ x. c.remote_equals x k) (items b)
  exact_of_bucket none k = sym (live_and_ended_match-nil c _)
  exact_of_bucket (some b) k = refl

  exact_matches_lem :
      (m : ConnectionMap T A) (k : Key)
      → exact_matches c m k
        ≡ live_and_ended_match c (λ x. c.remote_equals x k) (exact_generations m k)
  unfolding exact_matches
  exact_matches_lem m k = exact_of_bucket (bucket c m k) k ∙ rw (items-bucket m k) refl

  redirect_matches_lem :
      (p : Platform) (m : ConnectionMap T A) (k : Key)
      → redirect_matches c p m k
        ≡ live_and_ended_match c (λ x. c.redirect_equals x k) (scanned p m k)
  unfolding redirect_matches
  redirect_matches_lem p m k =
      ground (arith, live_and_ended_match-nil c (λ x. c.redirect_equals x k))

  -- The four cases of `read_matching`, by the results of its two passes.
  settle : Option T × Option T → Option T × Option T → Bool → Option T
  settle exact redirect use_ended =
      or exact.0 (or redirect.0 (if use_ended then or exact.1 redirect.1 else none))

  read_matching-settle :
      {C : Type 0} (p : Platform) (m : ConnectionMap T A) (k : Key) (now : ℕ)
      (read_connection : T → Option C) (use_ended : Bool)
      → (read_matching c p m k now read_connection use_ended).0
        ≡ handed now read_connection
            (settle (exact_matches c m k) (redirect_matches c p m k) use_ended)
  unfolding read_matching settle
  read_matching-settle p m k now read_connection use_ended = ground arith

  settle_eq :
      (f g e e' r r' : Option T) (b : Bool)
      → or f e ≡ or f e'
      → or g r ≡ or g r'
      → or f (or g (if b then or e r else none)) ≡ or f (or g (if b then or e' r' else none))
  settle_eq none none e e' r r' b p q = rw (p, q) refl
  settle_eq none (some y) e e' r r' b p q = refl
  settle_eq (some x) g e e' r r' b p q = refl

  -- A read hands over what it reads of the best match: a live exact match, else a live redirect
  -- match, else, if ended entries serve, the first exact match or the first redirect match.
  pub read_matching_lem :
      {C : Type 0} (p : Platform) (m : ConnectionMap T A) (k : Key) (now : ℕ)
      (read_connection : T → Option C) (use_ended : Bool)
      → (read_matching c p m k now read_connection use_ended).0
        ≡ handed now read_connection (best_match p m k use_ended)
  unfolding settle
  read_matching_lem p m k now read_connection use_ended =
      let exact = live_and_ended_match_lem c (λ x. c.remote_equals x k) (exact_generations m k) in
      let redirect = live_and_ended_match_lem c (λ x. c.redirect_equals x k) (scanned p m k) in
      read_matching-settle p m k now read_connection use_ended
      ∙ ap (handed now read_connection) (
          rw (exact_matches_lem m k, redirect_matches_lem p m k, exact.0, redirect.0)
            (settle_eq _ _ _ _ _ _ use_ended exact.1 redirect.1))
