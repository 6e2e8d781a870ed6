-- ===== src/IdCache/Exact.antt =====
-- The queue and its reverse index agree under every operation.
use Prim.Native.Nat.{ℕ, ◌<◌, ◌≤◌}
use mathlib.Core.Path.{◌≡◌, refl, sym, subst}
use mathlib.Core.Logic.{inl, inr}
use mathlib.Core.Bool.{Bool}
use mathlib.Core.List.{List, [], ◌∷◌}
use mathlib.Core.Option.{none, some}
use native.Mathlib.Omega.{arith}
use windows_kext_mod.Prelude.Tests.{◌==◌, if◌then◌else◌, Option-cases}
use windows_kext_mod.Prelude.Lists.{All}
use windows_kext_mod.Prelude.Order.{nat_ord, same→eq}
use windows_kext_mod.Prelude.BTreeMap
use windows_kext_mod.Prelude.BTreeMap.{BTreeMap, IsSorted, get-insert, get-remove}
use windows_kext_mod.Prelude.BTreeMap.Sorted.{remove-IsSorted}
use windows_kext_mod.Key.{Key}
use windows_kext_mod.TcpClosureCache.RequestIds.{IsIncreasing, remove_id-IsIncreasing}
use windows_kext_mod.IdCache.{
  PendingPacket, Entry, IdCache, identity_of, ids_at, is_owned, find_entry, remove_entry, pop_id,
  retire_instance, retire_pending_ids, retirement,
}
use windows_kext_mod.IdCache.Pending.{PendingIds, Index, to_list, remove_pending_request}
use windows_kext_mod.IdCache.Indexed.{
  is_instance, remove_pending_request_lem, remove_pending_request-IsSorted,
}
use windows_kext_mod.IdCache.Ownership.{
  ids, owned, has-owned, remove_id_absent, ids-remove_entry, owned-remove_entry,
}
use windows_kext_mod.IdCache.Retiring.{
  retained, ended, without_threads, part, retire-part, Precedes-nil,
}

module _ {P : Type 0} where
  abbrev pub AllBelow : ℕ → List (Entry P) → Type 0
  AllBelow n [] = Unit
  AllBelow n (e ∷ es) = (e.id < n) × AllBelow n es

  -- The queue's identities are in order and were issued, and the index lists each instance's.
  abbrev pub IsExact : IdCache P → Type 0
  IsExact s =
      IsSorted s.pending_by_instance
      × IsIncreasing (ids s.values)
      × AllBelow s.next_id s.values
      × ((i : ℕ) → 0 < i → ids_at i s.pending_by_instance ≡ owned i s.values)

  AllBelow-remove_entry :
      (n id : ℕ) (es : List (Entry P)) → AllBelow n es → AllBelow n (remove_entry id es)
  AllBelow-remove_entry n id [] a = tt
  AllBelow-remove_entry n id (e ∷ es) a = ground (arith, AllBelow-remove_entry n id es a.1)

  remove_entry-IsIncreasing :
      (id : ℕ) (es : List (Entry P))
      → IsIncreasing (ids es)
      → IsIncreasing (ids (remove_entry id es))
  remove_entry-IsIncreasing id es s =
      subst (λ xs. IsIncreasing xs) (sym (ids-remove_entry id es s))
        (remove_id-IsIncreasing id (ids es) s)

  is_owned_lem : (i : ℕ) (e : Entry P) → is_instance e.value.connection_instance_id i ≡ is_owned i e
  is_owned_lem i e = ground arith

  -- What a claim takes from the index is what it takes from the queue.
  owned-claimed :
      (m : Index) (id i : ℕ) (es : List (Entry P)) {e : Entry P}
      → IsSorted m
      → IsIncreasing (ids es)
      → find_entry id es ≡ some e
      → 0 < i
      → ids_at i m ≡ owned i es
      → ids_at i (remove_pending_request m e.value.connection_instance_id id)
        ≡ owned i (remove_entry id es)
  owned-claimed m id i es {e} s inc found h eq = ground (
    arith,
    remove_pending_request_lem m e.value.connection_instance_id id i s h,
    owned-remove_entry i id es inc,
    has-owned i id es {v = e} inc found,
    remove_id_absent id (owned i es),
    is_owned_lem i e,
  )

  pop_id-IsExact : (s : IdCache P) (id : ℕ) → IsExact s → IsExact (pop_id s id).0
  unfolding pop_id
  pop_id-IsExact s id x = elim (Option-cases (find_entry id s.values)) [
    | inl absent ↦ rw (absent, pop_id) x
    | inr (e, found) ↦
        rw (found, pop_id)
          (
            remove_pending_request-IsSorted s.pending_by_instance e.value.connection_instance_id id
                x.0,
            remove_entry-IsIncreasing id s.values x.1,
            AllBelow-remove_entry s.next_id id s.values x.2,
            λ i h.
                owned-claimed s.pending_by_instance id i s.values {e = e} x.0 x.1 found h (x.3 i h),
          )
  ]

  -- A claimed request cannot be claimed again.
  find_entry-remove_entry :
      (id : ℕ) (es : List (Entry P))
      → IsIncreasing (ids es)
      → find_entry id (remove_entry id es) ≡ none
  find_entry-remove_entry id [] s = refl
  find_entry-remove_entry id (e ∷ es) s = ground (
    arith,
    find_entry-remove_entry id es s.1,
    λ (h : id ≤ e.id). find_entry_before id e.id es h s.0,
  )
    where
      find_entry_before :
          (r x : ℕ) (es : List (Entry P))
          → r ≤ x
          → All (λ y. x < y) (ids es)
          → find_entry r es ≡ none
      find_entry_before r x [] h a = refl
      find_entry_before r x (e ∷ es) h a = ground (arith, a.0, find_entry_before r x es h a.1)

  -- From an exact cache, a claim that hands out a packet leaves the cache exact and records the
  -- packet's identity as in progress, and a second claim of it finds nothing.
  pub pop_id_lem :
      (s : IdCache P) (id : ℕ) {v : PendingPacket P}
      → IsExact s
      → (pop_id s id).1 ≡ some v
      → IsExact (pop_id s id).0
        × ((pop_id (pop_id s id).0 id).1 ≡ none)
        × (BTreeMap.get id (pop_id s id).0.active ≡ some (identity_of v))
  unfolding pop_id
  pop_id_lem s id {v} x claimed = elim (Option-cases (find_entry id s.values)) [
    | inl absent ↦ absurd (ground (arith, absent, claimed))
    | inr (e, found) ↦ (
      pop_id-IsExact s id x,
      rw (found, pop_id, find_entry-remove_entry id s.values x.1) refl,
      ground (arith, found, claimed, get-insert id id (identity_of e.value) s.active),
    )
  ]

module _ {P : Type 0} (survives : P → Key → Bool) where
  owned-retained :
      (i j : ℕ) (es : List (Entry P))
      → owned j (retained survives i es) ≡ (if j == i then [] else owned j es)
  owned-retained i j [] = ground arith
  owned-retained i j (e ∷ es) = ground (arith, owned-retained i j es)

  All-retained :
      (x i : ℕ) (es : List (Entry P))
      → All (λ y. x < y) (ids es)
      → All (λ y. x < y) (ids (retained survives i es))
  All-retained x i [] a = tt
  All-retained x i (e ∷ es) a = ground (arith, All-retained x i es a.1)

  retained-IsIncreasing :
      (i : ℕ) (es : List (Entry P))
      → IsIncreasing (ids es)
      → IsIncreasing (ids (retained survives i es))
  retained-IsIncreasing i [] s = tt
  retained-IsIncreasing i (e ∷ es) s =
      ground (arith, retained-IsIncreasing i es s.1, All-retained e.id i es s.0)

  AllBelow-retained :
      (n i : ℕ) (es : List (Entry P)) → AllBelow n es → AllBelow n (retained survives i es)
  AllBelow-retained n i [] a = tt
  AllBelow-retained n i (e ∷ es) a = ground (arith, AllBelow-retained n i es a.1)

  unowned :
      (i : ℕ) (es : List (Entry P))
      → owned i es ≡ []
      → (retained survives i es ≡ es) × (ended survives i es ≡ [])
  unowned i [] h = (refl, refl)
  unowned i (e ∷ es) h = ground (arith, unowned i es)

  retire_pending_ids_lem :
      (s : IdCache P) (i : ℕ) (p : PendingIds)
      → IsIncreasing (ids s.values)
      → to_list p ≡ owned i s.values
      → retire_pending_ids survives (retirement survives s) i (to_list p)
        ≡ part survives i
            (retained survives i s.values)
            (without_threads survives i s.thread_id_by_request (ended survives i s.values))
            (ended survives i s.values)
  retire_pending_ids_lem s i p inc eq =
      rw eq
        (retire-part survives i [] s.values s.thread_id_by_request [] (Precedes-nil s.values) inc)

  -- From an exact cache, the retirement of an instance leaves the queue without the packets that
  -- end with it, the surviving ones in their place and owned by none, answers with those that
  -- ended in their order, and keeps the cache exact.
  pub retire_instance_lem :
      (s : IdCache P) (i : ℕ)
      → IsExact s
      → 0 < i
      → ((retire_instance survives s i).0.values ≡ retained survives i s.values)
        × ((retire_instance survives s i).1 ≡ ended survives i s.values)
        × IsExact (retire_instance survives s i).0
  unfolding retire_instance
  retire_instance_lem s i x h = elim (Option-cases (BTreeMap.get i s.pending_by_instance)) [
    | inl absent ↦
        let nothing = unowned i s.values (ground (arith, absent, x.3 i h)) in
        rw (absent, retire_instance) (sym nothing.0, sym nothing.1, x)
    | inr (p, found) ↦
        let left = retire_pending_ids_lem s i p x.1 (ground (arith, found, x.3 i h)) in
        rw (found, retire_instance, left)
          (
            refl,
            refl,
            (
              remove-IsSorted i s.pending_by_instance x.0,
              retained-IsIncreasing i s.values x.1,
              AllBelow-retained s.next_id i s.values x.2,
              λ j k. ground (
                arith,
                x.3 j k,
                get-remove j i s.pending_by_instance x.0,
                same→eq j i,
                owned-retained i j s.values,
              ),
            ),
          )
  ]
