-- ===== src/ConnectionMap/Cache/Spec.antt =====
-- The cache read as a function from group and endpoint to generations, and what the writes to one
-- tuple do to it.
use Prim.Native.Nat.{ℕ}
use mathlib.Core.Path.{◌≡◌, refl}
use mathlib.Core.Logic.{inl, inr}
use mathlib.Core.Bool.{Bool, false, ◌&&◌}
use mathlib.Core.List.{List, [], ◌∷◌, ◌++◌}
use mathlib.Core.Option.{Option, none, some}
use native.Mathlib.Omega.{arith}
use windows_kext_mod.Prelude.Tests.{if◌then◌else◌, Bool-cases, Option-cases}
use windows_kext_mod.Prelude.Lists.{update_first}
use windows_kext_mod.Prelude.Order.{Ord, same, same→eq, nat_ord, pair_ord}
use windows_kext_mod.Prelude.BTreeMap
use windows_kext_mod.Prelude.BTreeMap.{
  BTreeMap, IsSorted, get-insert, get-update_at, update_at_absent,
}
use windows_kext_mod.Prelude.BTreeMap.Sorted.{insert-IsSorted, update_at-IsSorted}
use windows_kext_mod.Key.{Key, small}
use windows_kext_mod.Connection.{ConnectionTrait}
use windows_kext_mod.ConnectionMap.Bucket
use windows_kext_mod.ConnectionMap.Bucket.{Bucket}
use windows_kext_mod.ConnectionMap.Remote
use windows_kext_mod.ConnectionMap.Remote.{Remote}
use windows_kext_mod.ConnectionMap.Remote.Spec.{generations, IsValid, generations-insert}
use windows_kext_mod.ConnectionMap.Remote.Valid.{insert-IsValid, modify-IsValid, generations-modify}
use windows_kext_mod.ConnectionMap.Cache.{
  ConnectionMap, RemoteEndpoint, endpoint_of, endpoint_of_key, insert_new, modify_in_bucket,
}

module _ {T A : Type 0} ⦃o : Ord A⦄ (c : ConnectionTrait T A) where
  abbrev pub of_group : Option (Remote T (RemoteEndpoint A)) → RemoteEndpoint A → List T
  of_group none e = []
  of_group (some r) e = generations (endpoint_of c) r e

  -- The generations at an endpoint of a group, oldest first.
  abbrev pub generations_at : ConnectionMap T A → ℕ × ℕ → RemoteEndpoint A → List T
  generations_at m g e = of_group (BTreeMap.get g m) e

  abbrev pub AllValid : ConnectionMap T A → Type 0
  AllValid [] = Unit
  AllValid ((g, r) ∷ m) = IsValid (endpoint_of c) r × AllValid m

  -- The groups are in order, and each bucket holds connections of its endpoint, at least one.
  abbrev pub CacheIsValid : ConnectionMap T A → Type 0
  CacheIsValid m = IsSorted m × AllValid m

  pub AllValid-get :
      (m : ConnectionMap T A) (g : ℕ × ℕ) (r : Remote T (RemoteEndpoint A))
      → AllValid m
      → BTreeMap.get g m ≡ some r
      → IsValid (endpoint_of c) r
  unfolding BTreeMap.get
  AllValid-get [] g r a h = cc
  AllValid-get ((j, w) ∷ m) g r a h = ground (arith, AllValid-get m g r a.1)

  AllValid-insert :
      (m : ConnectionMap T A) (g : ℕ × ℕ) (r : Remote T (RemoteEndpoint A))
      → AllValid m
      → IsValid (endpoint_of c) r
      → AllValid (BTreeMap.insert g r m)
  unfolding BTreeMap.insert
  AllValid-insert [] g r a h = (h, tt)
  AllValid-insert ((j, w) ∷ m) g r a h = ground (arith, AllValid-insert m g r a.1 h)

  pub AllValid-update_at :
      (m : ConnectionMap T A) (g : ℕ × ℕ)
      (f : Remote T (RemoteEndpoint A) → Remote T (RemoteEndpoint A))
      → AllValid m
      → ((r : Remote T (RemoteEndpoint A))
          → IsValid (endpoint_of c) r
          → IsValid (endpoint_of c) (f r))
      → AllValid (BTreeMap.update_at g f m)
  unfolding BTreeMap.update_at
  AllValid-update_at [] g f a h = tt
  AllValid-update_at ((j, w) ∷ m) g f a h = ground (arith, AllValid-update_at m g f a.1 h, h w)

  pub insert_new-CacheIsValid :
      (m : ConnectionMap T A) (k : Key) (x : T) → CacheIsValid m → CacheIsValid (insert_new c m k x)
  unfolding insert_new
  insert_new-CacheIsValid m k x v = elim (Option-cases (BTreeMap.get (small k) m)) [
    | inl absent ↦
        rw (absent, insert_new)
          (
            insert-IsSorted (small k) _ m v.0,
            AllValid-insert m (small k) _ v.1
                (insert-IsValid (endpoint_of c) Remote.empty (endpoint_of c x) x tt refl),
          )
    | inr (r, present) ↦
        rw (present, insert_new)
          (
            update_at-IsSorted (small k) _ m v.0,
            AllValid-update_at m (small k) _ v.1
                (λ r vr. insert-IsValid (endpoint_of c) r (endpoint_of c x) x vr refl),
          )
  ]

  abbrev first : T → Remote T (RemoteEndpoint A)
  first x = Remote.insert (endpoint_of c) Remote.empty (endpoint_of c x) x

  abbrev add : T → Remote T (RemoteEndpoint A) → Remote T (RemoteEndpoint A)
  add x r = Remote.insert (endpoint_of c) r (endpoint_of c x) x

  -- The insertion appends to the generations of its group and endpoint.
  pub generations_at-insert_new :
      (m : ConnectionMap T A) (k : Key) (x : T) (g : ℕ × ℕ) (e : RemoteEndpoint A)
      → CacheIsValid m
      → generations_at (insert_new c m k x) g e ≡ (
          if same g (small k) && same e (endpoint_of c x)
          then generations_at m g e ++ x ∷ []
          else generations_at m g e)
  unfolding insert_new Remote.get
  generations_at-insert_new m k x g e v = elim (Option-cases (BTreeMap.get (small k) m)) [
    | inl absent ↦ elim (Bool-cases (same g (small k))) [
      | inl here ↦
          rw
            (
              absent,
              insert_new,
              get-insert g (small k) (first x) m,
              here,
              same→eq g (small k) here,
              absent,
            )
            (generations-insert (endpoint_of c) Remote.empty (endpoint_of c x) e x tt refl)
      | inr other ↦ rw (absent, insert_new, get-insert g (small k) (first x) m, other) refl
    ]
    | inr (r, present) ↦ elim (Bool-cases (same g (small k))) [
      | inl here ↦
          rw
            (
              present,
              insert_new,
              get-update_at g (small k) (add x) m present,
              here,
              same→eq g (small k) here,
              present,
            )
            (generations-insert (endpoint_of c) r (endpoint_of c x) e x
              (AllValid-get m (small k) r v.1 present) refl)
      | inr other ↦
          rw (present, insert_new, get-update_at g (small k) (add x) m present, other) refl
    ]
  ]

  -- A write to one bucket, by its group and endpoint.
  abbrev pub modify_at :
      ConnectionMap T A → ℕ × ℕ → RemoteEndpoint A → (T → Bool) → (T → T) → ConnectionMap T A
  modify_at m g e test f =
      BTreeMap.update_at g (Remote.update_at (endpoint_of c) e (Bucket.modify test f)) m

  -- Whether a group and an endpoint are those of a key.
  abbrev pub is_at : Key → ℕ × ℕ → RemoteEndpoint A → Bool
  is_at k g e =
      same g (small k) && elim (endpoint_of_key c k) [ none ↦ false | some e' ↦ same e e' ]

  module _ (test : T → Bool) (f : T → T)
      (keeps : (x : T) → endpoint_of c (f x) ≡ endpoint_of c x) where
    pub modify_at-CacheIsValid :
        (m : ConnectionMap T A) (g : ℕ × ℕ) (e : RemoteEndpoint A)
        → CacheIsValid m
        → CacheIsValid (modify_at m g e test f)
    modify_at-CacheIsValid m g e v = (
      update_at-IsSorted g _ m v.0,
      AllValid-update_at m g _ v.1 (λ r vr. modify-IsValid (endpoint_of c) test f keeps r e vr),
    )

    abbrev write : RemoteEndpoint A → Remote T (RemoteEndpoint A) → Remote T (RemoteEndpoint A)
    write e = Remote.update_at (endpoint_of c) e (Bucket.modify test f)

    absent_case :
        (g g' : ℕ × ℕ) (e e' : RemoteEndpoint A) (m : ConnectionMap T A)
        → BTreeMap.get g' m ≡ none
        → generations_at m g e ≡ (
            if same g g' && same e e'
            then update_first test f (generations_at m g e)
            else generations_at m g e)
    unfolding update_first
    absent_case g g' e e' m absent = elim (Bool-cases (same g g')) [
      | inl here ↦ rw (here, same→eq g g' here, absent) (ground arith)
      | inr other ↦ rw other refl
    ]

    pub generations_at-modify_at :
        (m : ConnectionMap T A) (g g' : ℕ × ℕ) (e e' : RemoteEndpoint A)
        → CacheIsValid m
        → generations_at (modify_at m g' e' test f) g e ≡ (
            if same g g' && same e e'
            then update_first test f (generations_at m g e)
            else generations_at m g e)
    generations_at-modify_at m g g' e e' v = elim (Option-cases (BTreeMap.get g' m)) [
      | inl absent ↦ rw (update_at_absent g' (write e') m absent) (absent_case g g' e e' m absent)
      | inr (r, present) ↦ elim (Bool-cases (same g g')) [
        | inl here ↦
            rw (get-update_at g g' (write e') m present, here, same→eq g g' here, present)
              (generations-modify (endpoint_of c) test f keeps r e' e
                (AllValid-get m g' r v.1 present))
        | inr other ↦ rw (get-update_at g g' (write e') m present, other) refl
      ]
    ]

    pub modify_in_bucket-CacheIsValid :
        (m : ConnectionMap T A) (k : Key)
        → CacheIsValid m
        → CacheIsValid (modify_in_bucket c m k test f)
    unfolding modify_in_bucket
    modify_in_bucket-CacheIsValid m k v = elim (Option-cases (c.remote_address_key k)) [
      | inl foreign ↦ rw (foreign, modify_in_bucket) v
      | inr (a, q) ↦
          rw (q, modify_in_bucket) (modify_at-CacheIsValid m (small k) (a, k.remote_port) v)
    ]

    -- A write changes the first connection at the key that passes the test, and nothing else.
    pub generations_at-modify_in_bucket :
        (m : ConnectionMap T A) (k : Key) (g : ℕ × ℕ) (e : RemoteEndpoint A)
        → CacheIsValid m
        → generations_at (modify_in_bucket c m k test f) g e ≡ (
            if is_at k g e
            then update_first test f (generations_at m g e)
            else generations_at m g e)
    unfolding modify_in_bucket
    generations_at-modify_in_bucket m k g e v = elim (Option-cases (c.remote_address_key k)) [
      | inl foreign ↦ rw (foreign, modify_in_bucket) (ground arith)
      | inr (a, q) ↦
          rw (q, modify_in_bucket) (generations_at-modify_at m g (small k) e (a, k.remote_port) v)
    ]
