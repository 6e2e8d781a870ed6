-- ===== src/ConnectionMap/Cache/EndInstance.antt =====
-- `end_instance`: which entry it ends, and that a stale identity ends nothing.
use Prim.Native.Nat.{ℕ, ◌≤◌, ◌<◌}
use mathlib.Core.Path.{◌≡◌, refl, ◌∙◌, sym}
use mathlib.Core.Logic.{◌≢◌, inl, inr}
use mathlib.Core.Bool.{true, false}
use mathlib.Core.List.{[]}
use mathlib.Core.Option.{Option, none, some}
use native.Mathlib.Omega.{arith}
use windows_kext_mod.Prelude.Tests.{◌==◌, if◌then◌else◌, Bool-cases, Option-cases}
use windows_kext_mod.Prelude.Lists.{find, count, update_first}
use windows_kext_mod.Prelude.Lists.Searches.{
  count-update_first-le, find-update_first_out, find_the_one, find_passes, update_first-nil,
}
use windows_kext_mod.Prelude.Order.{Ord, same_refl, nat_ord, pair_ord}
use windows_kext_mod.Key.{Key, small}
use windows_kext_mod.Connection.{ConnectionTrait}
use windows_kext_mod.Connection.Laws.{IsLawful}
use windows_kext_mod.ConnectionMap.Search.{live, live_exact, live_instance}
use windows_kext_mod.ConnectionMap.Cache.{
  ConnectionMap, RemoteEndpoint, endpoint_of, endpoint_of_key, modify_in_bucket,
}
use windows_kext_mod.ConnectionMap.Cache.Close.{end_instance}
use windows_kext_mod.ConnectionMap.Cache.Spec.{
  generations_at, CacheIsValid, is_at, modify_in_bucket-CacheIsValid,
  generations_at-modify_in_bucket,
}
use windows_kext_mod.ConnectionMap.Cache.Insert.{IsUnique}
use windows_kext_mod.ConnectionMap.Cache.Lookup.{exact_generations, find_in_bucket_lem}

module _ {T A : Type 0} ⦃o : Ord A⦄ (c : ConnectionTrait T A) where
  -- The entry that a nonzero identity names among the generations of a key.
  abbrev pub named : ConnectionMap T A → Key → ℕ → Option T
  named m k id = if id == 0 then none else find (live_instance c k id) (exact_generations c m k)

  pub end_keeps : IsLawful c → (now : ℕ) (x : T) → endpoint_of c (c.end x now) ≡ endpoint_of c x
  end_keeps law now x = ground (arith, law.end_same x now)

  abbrev pub ended_copy : ℕ → Option T → Option T
  ended_copy now none = none
  ended_copy now (some x) = some (c.end x now)

  -- The cache that `end_instance` leaves, by the entry that it found.
  abbrev pub after_end : ConnectionMap T A → Key → ℕ → ℕ → Option T → ConnectionMap T A
  after_end m k id now none = m
  after_end m k id now (some _) = modify_in_bucket c m k (live_instance c k id) (λ y. c.end y now)

  end_instance-named :
      (m : ConnectionMap T A) (k : Key) (id now : ℕ)
      → end_instance c m k id now
        ≡ (after_end m k id now (named m k id), ended_copy now (named m k id))
  unfolding end_instance
  end_instance-named m k id now = ground (arith, find_in_bucket_lem c m k (live_instance c k id))

  instance-is_exact :
      (k : Key) (id : ℕ) (x : T) → live_instance c k id x ≡ true → live_exact c k x ≡ true
  instance-is_exact k id x h = ground arith

  end_not_live :
      IsLawful c → (k : Key) (now : ℕ) (x : T) → 0 < now → live_exact c k (c.end x now) ≡ false
  end_not_live law k now x h = ground (arith, law.end_time x now)

  -- The end of a live entry makes no entry live, at whatever time.
  pub end_adds_none :
      IsLawful c
      → (k : Key) (now : ℕ) (x : T) → live c x ≡ true
      → live_exact c k (c.end x now) ≡ true
      → live_exact c k x ≡ true
  end_adds_none law k now x h t =
      ground (arith, law.equals_iff x k, law.equals_iff (c.end x now) k, (law.end_same x now).key)

  instance-is_live : (k : Key) (id : ℕ) (x : T) → live_instance c k id x ≡ true → live c x ≡ true
  instance-is_live k id x h = ground arith

  pub exact_at :
      (m : ConnectionMap T A) (k : Key) (e : RemoteEndpoint A)
      → endpoint_of_key c k ≡ some e
      → exact_generations c m k ≡ generations_at c m (small k) e
  exact_at m k e h = ground arith

  exact_none :
      (m : ConnectionMap T A) (k : Key) → endpoint_of_key c k ≡ none → exact_generations c m k ≡ []
  exact_none m k h = ground arith

  is_at_self :
      (k : Key) (e : RemoteEndpoint A) → endpoint_of_key c k ≡ some e → is_at c k (small k) e ≡ true
  is_at_self k e h = rw (h, is_at) (ground (arith, same_refl e))

  exact_unique :
      (m : ConnectionMap T A) (k : Key)
      → IsUnique c m
      → count (live_exact c k) (exact_generations c m k) ≤ 1
  unfolding count
  exact_unique m k u = elim (Option-cases (endpoint_of_key c k)) [
    | inl foreign ↦ rw (exact_none m k foreign) (omega arith)
    | inr (e, q) ↦ rw (exact_at m k e q) (u k (small k) e)
  ]

  named-find :
      (m : ConnectionMap T A) (k : Key) (id : ℕ) {x : T}
      → named m k id ≡ some x
      → find (live_instance c k id) (exact_generations c m k) ≡ some x
  named-find m k id h = ground arith

  not_named :
      (m : ConnectionMap T A) (k : Key) (id : ℕ) {y : T}
      → IsUnique c m
      → find (live_exact c k) (exact_generations c m k) ≡ some y
      → c.get_instance_id y ≢ id
      → named m k id ≡ none
  not_named m k id {y} u live_one other = elim (Option-cases (named m k id)) [
    | inl absent ↦ absent
    | inr (x, q) ↦
        let found = named-find m k id q in
        ground (
          arith,
          found,
          find_passes (live_instance c k id) (exact_generations c m k) found,
          find_the_one (live_exact c k) (live_instance c k id) (exact_generations c m k)
              (instance-is_exact k id) (exact_unique m k u) found,
        )
  ]

  abbrev ended : ConnectionMap T A → Key → ℕ → ℕ → ConnectionMap T A
  ended m k id now = modify_in_bucket c m k (live_instance c k id) (λ y. c.end y now)

  after_end-IsUnique :
      (m : ConnectionMap T A) (k : Key) (id now : ℕ)
      → IsLawful c
      → CacheIsValid c m
      → IsUnique c m
      → (found : Option T)
      → CacheIsValid c (after_end m k id now found) × IsUnique c (after_end m k id now found)
  after_end-IsUnique m k id now law v u none = (v, u)
  after_end-IsUnique m k id now law v u (some x) = (
    modify_in_bucket-CacheIsValid c (live_instance c k id) (λ y. c.end y now) (end_keeps law now) m
        k v,
    λ k' g e.
        rw
          (generations_at-modify_in_bucket c (live_instance c k id) (λ y. c.end y now)
            (end_keeps law now) m k g e v)
          (elim (Bool-cases (is_at c k g e)) [
            | inl here ↦ rw here (
                omega (
                  arith,
                  u k' g e,
                  count-update_first-le (live_exact c k') (live_instance c k id) (λ y. c.end y now)
                      (λ x selected. end_adds_none law k' now x (instance-is_live k id x selected))
                      (generations_at c m g e),
                ))
            | inr other ↦ rw other (u k' g e)
          ]),
  )

  -- The generations of a key after the entry with an identity was ended.
  exact-after_end :
      (m : ConnectionMap T A) (k : Key) (id now : ℕ)
      → IsLawful c
      → CacheIsValid c m
      → exact_generations c (modify_in_bucket c m k (live_instance c k id) (λ y. c.end y now)) k
        ≡ update_first (live_instance c k id) (λ y. c.end y now) (exact_generations c m k)
  exact-after_end m k id now law v = elim (Option-cases (endpoint_of_key c k)) [
    | inl foreign ↦
        rw (exact_none m k foreign, exact_none (ended m k id now) k foreign)
          (sym (update_first-nil (live_instance c k id) (λ y. c.end y now)))
    | inr (e, q) ↦
        rw (exact_at m k e q, exact_at (ended m k id now) k e q)
          (generations_at-modify_in_bucket c (live_instance c k id) (λ y. c.end y now)
              (end_keeps law now) m k (small k) e v
            ∙ rw (is_at_self k e q) refl)
  ]

  -- For lawful connections in a valid cache with at most one live entry per tuple, and a time
  -- other than 0: where an identity names a live entry of the tuple, `end_instance` returns that
  -- entry ended at that time, and no live entry of the tuple is left.
  pub end_instance_closes :
      (m : ConnectionMap T A) (k : Key) (id now : ℕ) {x : T}
      → IsLawful c
      → CacheIsValid c m
      → IsUnique c m
      → 0 < now
      → named m k id ≡ some x
      → ((end_instance c m k id now).1 ≡ some (c.end x now))
        × (find (live_exact c k) (exact_generations c (end_instance c m k id now).0 k) ≡ none)
  end_instance_closes m k id now {x} law v u h q =
      rw (end_instance-named m k id now, q)
        (
          refl,
          rw (exact-after_end m k id now law v) (
              find-update_first_out (live_exact c k) (live_instance c k id) (λ y. c.end y now)
                (exact_generations c m k) (instance-is_exact k id) (λ y. end_not_live law k now y h)
                (exact_unique m k u) (named-find m k id q)),
        )

  -- Where no tuple has two live entries, an identity other than that of the tuple's live entry
  -- ends nothing.
  pub end_instance_stale :
      (m : ConnectionMap T A) (k : Key) (id now : ℕ) {y : T}
      → IsUnique c m
      → find (live_exact c k) (exact_generations c m k) ≡ some y
      → c.get_instance_id y ≢ id
      → end_instance c m k id now ≡ (m, none)
  end_instance_stale m k id now {y} u live_one other =
      rw (end_instance-named m k id now, not_named m k id u live_one other) refl

  -- For lawful connections in a valid cache, ending an entry at any time leaves the cache
  -- valid and no tuple with two live entries, if none had two.
  pub end_instance-IsUnique :
      (m : ConnectionMap T A) (k : Key) (id now : ℕ)
      → IsLawful c
      → CacheIsValid c m
      → IsUnique c m
      → CacheIsValid c (end_instance c m k id now).0 × IsUnique c (end_instance c m k id now).0
  end_instance-IsUnique m k id now law v u =
      rw (end_instance-named m k id now) (after_end-IsUnique m k id now law v u (named m k id))
