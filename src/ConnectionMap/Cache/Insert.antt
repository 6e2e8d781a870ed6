-- ===== src/ConnectionMap/Cache/Insert.antt =====
-- `insert_if_absent_with` against the generations: what it answers, what it changes, and that no
-- tuple comes to have two live entries.
use Prim.Native.Nat.{ℕ, ◌≤◌}
use mathlib.Core.Path.{◌≡◌, refl, ◌∙◌, sym, subst}
use mathlib.Core.Logic.{inl, inr}
use mathlib.Core.Bool.{Bool, true, ◌&&◌}
use mathlib.Core.List.{List, [], ◌∷◌, ◌++◌}
use mathlib.Core.Option.{none, some}
use native.Mathlib.Omega.{arith}
use windows_kext_mod.Prelude.Tests.{if◌then◌else◌, Bool-cases, Option-cases}
use windows_kext_mod.Prelude.Lists.{find, count, update_first}
use windows_kext_mod.Prelude.Lists.Searches.{count-append, count-none, count-update_first-le}
use windows_kext_mod.Prelude.Order.{Ord, same, same→eq, nat_ord, pair_ord}
use windows_kext_mod.Key.{Key, small}
use windows_kext_mod.Connection.{ConnectionTrait}
use windows_kext_mod.Connection.Laws.{IsLawful}
use windows_kext_mod.ConnectionMap.Search.{live_exact}
use windows_kext_mod.ConnectionMap.Cache.{
  ConnectionMap, RemoteEndpoint, Insertion, inserted, occupied, endpoint_of, existing, insert_new,
  insert_if_absent_with,
}
use windows_kext_mod.ConnectionMap.Cache.Spec.{
  generations_at, CacheIsValid, insert_new-CacheIsValid, generations_at-insert_new, modify_at,
  modify_at-CacheIsValid, generations_at-modify_at,
}

-- A write to a connection that changes neither its identity nor whether it has ended.
pub record IsHarmless {T A : Type 0} (c : ConnectionTrait T A) (f : T → T) : Type 0 where
  pub key : (x : T) → c.get_key (f x) ≡ c.get_key x
  pub address_key : (x : T) → c.get_remote_address_key (f x) ≡ c.get_remote_address_key x
  pub instance_id : (x : T) → c.get_instance_id (f x) ≡ c.get_instance_id x
  pub end_time : (x : T) → c.get_end_time (f x) ≡ c.get_end_time x

module _ {T A : Type 0} ⦃o : Ord A⦄ (c : ConnectionTrait T A) where
  -- The generations at a connection's own place.
  abbrev pub generations_of : ConnectionMap T A → T → List T
  generations_of m x = generations_at c m (small (c.get_key x)) (endpoint_of c x)

  existing_lem :
      (m : ConnectionMap T A) (x : T)
      → existing c m x ≡ find (live_exact c (c.get_key x)) (generations_of m x)
  unfolding existing find
  existing_lem m x = ground arith

  -- Every tuple has at most one live entry.
  abbrev pub IsUnique : ConnectionMap T A → Type 0
  IsUnique m =
      (k : Key) (g : ℕ × ℕ) (e : RemoteEndpoint A)
      → count (live_exact c k) (generations_at c m g e) ≤ 1

  abbrev pub after_insertion : T → (T → T) → List T → List T
  after_insertion x update xs = elim (find (live_exact c (c.get_key x)) xs) [
    | none ↦ xs ++ x ∷ []
    | some _ ↦ update_first (live_exact c (c.get_key x)) update xs
  ]

  abbrev pub answer : T → List T → Insertion T
  answer x xs = elim (find (live_exact c (c.get_key x)) xs) [
    | none ↦ inserted (c.get_instance_id x)
    | some y ↦ occupied x (c.get_instance_id y)
  ]

  pub insert_if_absent_with-answer :
      (m : ConnectionMap T A) (x : T) (update : T → T)
      → (insert_if_absent_with c m x update).1 ≡ answer x (generations_of m x)
  unfolding insert_if_absent_with
  insert_if_absent_with-answer m x update = ground (arith, existing_lem m x)

  keeps_endpoint : (f : T → T) → IsHarmless c f → (x : T) → endpoint_of c (f x) ≡ endpoint_of c x
  keeps_endpoint f h x = ground (arith, h.key x, h.address_key x)

  -- Whether a group and an endpoint are those of a connection.
  abbrev pub is_place_of : T → ℕ × ℕ → RemoteEndpoint A → Bool
  is_place_of x g e = same g (small (c.get_key x)) && same e (endpoint_of c x)

  place_eq :
      (x : T) (g : ℕ × ℕ) (e : RemoteEndpoint A)
      → is_place_of x g e ≡ true
      → (g ≡ small (c.get_key x)) × (e ≡ endpoint_of c x)
  place_eq x g e h =
      (same→eq g (small (c.get_key x)) (ground arith), same→eq e (endpoint_of c x) (ground arith))

  append_case :
      (x : T) (update : T → T) (xs : List T)
      → find (live_exact c (c.get_key x)) xs ≡ none
      → xs ++ x ∷ [] ≡ after_insertion x update xs
  append_case x update xs h = ground arith

  write_case :
      (x : T) (update : T → T) (xs : List T) {y : T}
      → find (live_exact c (c.get_key x)) xs ≡ some y
      → update_first (live_exact c (c.get_key x)) update xs ≡ after_insertion x update xs
  write_case x update xs h = ground arith

  -- At the place of `x`, the insertion as a change of the generations there.
  appended :
      (m : ConnectionMap T A) (x : T) (update : T → T) (g : ℕ × ℕ) (e : RemoteEndpoint A)
      → existing c m x ≡ none
      → (if is_place_of x g e then generations_at c m g e ++ x ∷ [] else generations_at c m g e) ≡ (
          if is_place_of x g e
          then after_insertion x update (generations_at c m g e)
          else generations_at c m g e)
  appended m x update g e absent = elim (Bool-cases (is_place_of x g e)) [
    | inl here ↦
        let (p, q) = place_eq x g e here in
        rw (here, p, q)
          (append_case x update (generations_of m x) (sym (existing_lem m x) ∙ absent))
    | inr other ↦ rw other refl
  ]

  written :
      (m : ConnectionMap T A) (x : T) (update : T → T) (g : ℕ × ℕ) (e : RemoteEndpoint A) {y : T}
      → existing c m x ≡ some y
      → (if is_place_of x g e
          then update_first (live_exact c (c.get_key x)) update (generations_at c m g e)
          else generations_at c m g e)
        ≡ (if is_place_of x g e
            then after_insertion x update (generations_at c m g e)
            else generations_at c m g e)
  written m x update g e present = elim (Bool-cases (is_place_of x g e)) [
    | inl here ↦
        let (p, q) = place_eq x g e here in
        rw (here, p, q)
          (write_case x update (generations_of m x) (sym (existing_lem m x) ∙ present))
    | inr other ↦ rw other refl
  ]

  cache_appended :
      (m : ConnectionMap T A) (x : T) (update : T → T)
      → existing c m x ≡ none
      → (insert_if_absent_with c m x update).0 ≡ insert_new c m (c.get_key x) x
  unfolding insert_if_absent_with
  cache_appended m x update absent = rw (absent, insert_if_absent_with) refl

  abbrev write_existing : ConnectionMap T A → T → (T → T) → ConnectionMap T A
  write_existing m x update =
      modify_at c m (small (c.get_key x)) (endpoint_of c x) (live_exact c (c.get_key x)) update

  cache_written :
      (m : ConnectionMap T A) (x : T) (update : T → T) {y : T}
      → existing c m x ≡ some y
      → (insert_if_absent_with c m x update).0 ≡ write_existing m x update
  unfolding insert_if_absent_with
  cache_written m x update present = rw (present, insert_if_absent_with) refl

  -- If the write keeps a connection's tuple, identity and end time, an insertion into a valid
  -- cache answers with the identity of the tuple's live entry, or of the connection if there is
  -- none, keeps the cache valid, and changes the generations of the connection's endpoint only:
  -- by the write to the live entry if there is one, else by appending the connection.
  pub insert_if_absent_with_lem :
      (m : ConnectionMap T A) (x : T) (update : T → T) (g : ℕ × ℕ) (e : RemoteEndpoint A)
      → IsHarmless c update
      → CacheIsValid c m
      → ((insert_if_absent_with c m x update).1 ≡ answer x (generations_of m x))
        × CacheIsValid c (insert_if_absent_with c m x update).0
        × (generations_at c (insert_if_absent_with c m x update).0 g e ≡ (
            if is_place_of x g e
            then after_insertion x update (generations_at c m g e)
            else generations_at c m g e))
  insert_if_absent_with_lem m x update g e h v = elim (Option-cases (existing c m x)) [
    | inl absent ↦ rw (cache_appended m x update absent) (
      insert_if_absent_with-answer m x update,
      insert_new-CacheIsValid c m (c.get_key x) x v,
      generations_at-insert_new c m (c.get_key x) x g e v ∙ appended m x update g e absent,
    )
    | inr (y, present) ↦ rw (cache_written m x update present) (
      insert_if_absent_with-answer m x update,
      modify_at-CacheIsValid c (live_exact c (c.get_key x)) update (keeps_endpoint update h) m
          (small (c.get_key x)) (endpoint_of c x) v,
      generations_at-modify_at c (live_exact c (c.get_key x)) update (keeps_endpoint update h) m g
            (small (c.get_key x)) e (endpoint_of c x) v
          ∙ written m x update g e present,
    )
  ]

  -- A live exact match has the key itself.
  key_of_live : (k : Key) (x : T) → IsLawful c → live_exact c k x ≡ true → c.get_key x ≡ k
  key_of_live k x law h = (law.equals_iff x k).0 (ground arith)

  pub live_exact-harmless :
      (update : T → T)
      → IsHarmless c update
      → IsLawful c
      → (k : Key) (x : T) → live_exact c k (update x) ≡ live_exact c k x
  live_exact-harmless update h law k x = ground (
    arith,
    h.key x,
    h.address_key x,
    h.end_time x,
    law.equals_iff x k,
    law.equals_iff (update x) k,
  )

  -- An appended connection adds to the count of its own tuple only.
  count_of_none :
      (k : Key) (xs : List T) (x : T)
      → IsLawful c
      → find (live_exact c (c.get_key x)) xs ≡ none
      → count (live_exact c k) xs ≤ 1
      → count (live_exact c k) (xs ++ x ∷ []) ≤ 1
  count_of_none k xs x law h u = elim (Bool-cases (live_exact c k x)) [
    | inl t ↦
        let e : find (live_exact c k) xs ≡ none =
          subst (λ j. find (live_exact c j) xs ≡ none) (key_of_live k x law t) h in
        rw (count-append (live_exact c k) xs x, t) (omega (arith, count-none (live_exact c k) xs e))
    | inr f ↦ rw (count-append (live_exact c k) xs x, f) (omega arith)
  ]

  after_insertion_unique :
      (k : Key) (xs : List T) (x : T) (update : T → T)
      → IsLawful c
      → IsHarmless c update
      → count (live_exact c k) xs ≤ 1
      → count (live_exact c k) (after_insertion x update xs) ≤ 1
  after_insertion_unique k xs x update law h u =
      elim (Option-cases (find (live_exact c (c.get_key x)) xs)) [
        | inl absent ↦ rw (absent, after_insertion) (count_of_none k xs x law absent u)
        | inr (y, present) ↦
            rw (present, after_insertion)
              (omega (
                arith,
                count-update_first-le (live_exact c k) (live_exact c (c.get_key x)) update
                    (λ a selected t. sym (live_exact-harmless update h law k a) ∙ t) xs,
              ))
      ]

  -- If the connections are lawful, the write keeps a connection's tuple, identity and end time,
  -- the cache is valid, and no tuple has two live entries, then no tuple has two after an
  -- insertion.
  pub insert_if_absent_with-IsUnique :
      (m : ConnectionMap T A) (x : T) (update : T → T)
      → IsLawful c
      → IsHarmless c update
      → CacheIsValid c m
      → IsUnique m
      → IsUnique (insert_if_absent_with c m x update).0
  insert_if_absent_with-IsUnique m x update law h v u k g e =
      rw ((insert_if_absent_with_lem m x update g e h v).2) (elim (Bool-cases (is_place_of x g e)) [
        | inl here ↦
            rw here (after_insertion_unique k (generations_at c m g e) x update law h (u k g e))
        | inr other ↦ rw other (u k g e)
      ])
