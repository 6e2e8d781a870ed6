-- ===== src/IdCache/Indexed.antt =====
-- The reverse index: which identities an instance has after a request is queued or claimed.
use Prim.Native.Nat.{ℕ, ◌<◌}
use mathlib.Core.Path.{◌≡◌, refl}
use mathlib.Core.Logic.{inl, inr}
use mathlib.Core.Bool.{Bool, false}
use mathlib.Core.List.{List, [], ◌∷◌, ◌++◌}
use mathlib.Core.Option.{Option, none, some}
use native.Mathlib.Omega.{arith}
use windows_kext_mod.Prelude.Tests.{◌==◌, if◌then◌else◌, Bool-cases, Option-cases}
use windows_kext_mod.Prelude.Order.{nat_ord, same→eq}
use windows_kext_mod.Prelude.BTreeMap
use windows_kext_mod.Prelude.BTreeMap.{IsSorted, get-insert, get-remove, get-update_at}
use windows_kext_mod.Prelude.BTreeMap.Sorted.{insert-IsSorted, remove-IsSorted, update_at-IsSorted}
use windows_kext_mod.TcpClosureCache.{is_empty}
use windows_kext_mod.TcpClosureCache.RequestIds.{has, remove_id}
use windows_kext_mod.IdCache.{ids_at}
use windows_kext_mod.IdCache.Pending.{
  PendingIds, one, multiple, Index, to_list, push, remove, add_pending_request,
  remove_pending_request, is_true,
}
use windows_kext_mod.IdCache.Ownership.{remove_id_absent}

-- Whether a queued packet of that connection is the instance's.
abbrev pub is_instance : Option ℕ → ℕ → Bool
is_instance none i = false
is_instance (some j) i = j == i

to_list-push : (p : PendingIds) (id : ℕ) → to_list (push p id) ≡ to_list p ++ id ∷ []
unfolding push
to_list-push (one previous) id = refl
to_list-push (multiple ids) id = refl

pub add_pending_request_lem :
    (m : Index) (instance_id : Option ℕ) (id i : ℕ)
    → 0 < i
    → ids_at i (add_pending_request m instance_id id)
      ≡ (if is_instance instance_id i then ids_at i m ++ id ∷ [] else ids_at i m)
unfolding add_pending_request
add_pending_request_lem m none id i h = refl
add_pending_request_lem m (some j) id i h = elim (Option-cases (BTreeMap.get j m)) [
  | inl absent ↦ ground (arith, get-insert i j (one id) m, same→eq i j)
  | inr (p, found) ↦
      ground
        (arith, get-update_at i j (λ p. push p id) m {v = p} found, same→eq i j, to_list-push p id)
]

pub add_pending_request-IsSorted :
    (m : Index) (instance_id : Option ℕ) (id : ℕ)
    → IsSorted m
    → IsSorted (add_pending_request m instance_id id)
unfolding add_pending_request
add_pending_request-IsSorted m none id s = s
add_pending_request-IsSorted m (some j) id s = elim (Option-cases (BTreeMap.get j m)) [
  | inl absent ↦ ground (arith, s, insert-IsSorted j (one id) m s)
  | inr (p, found) ↦ ground (arith, s, update_at-IsSorted j (λ p. push p id) m s)
]

or_empty : (xs : List ℕ) → (if is_empty xs then [] else xs) ≡ xs
or_empty [] = refl
or_empty (x ∷ xs) = refl

-- An emptied bucket leaves the index.
to_list-remove :
    (p : PendingIds) (id : ℕ)
    → (if is_true (remove p id).1 then [] else to_list (remove p id).0) ≡ remove_id id (to_list p)
unfolding remove remove_id
to_list-remove (one existing) id = ground arith
to_list-remove (multiple ids) id = elim (Bool-cases (has id ids)) [
  | inl found ↦ ground (arith, or_empty (remove_id id ids))
  | inr absent ↦ ground (arith, remove_id_absent id ids absent)
]

pub remove_pending_request_lem :
    (m : Index) (instance_id : Option ℕ) (id i : ℕ)
    → IsSorted m
    → 0 < i
    → ids_at i (remove_pending_request m instance_id id)
      ≡ (if is_instance instance_id i then remove_id id (ids_at i m) else ids_at i m)
unfolding remove_pending_request remove_id
remove_pending_request_lem m none id i s h = refl
remove_pending_request_lem m (some j) id i s h = elim (Option-cases (BTreeMap.get j m)) [
  | inl absent ↦ ground (arith, same→eq i j)
  | inr (p, found) ↦ ground (
    arith,
    get-remove i j m s,
    get-update_at i j (λ p. (remove p id).0) m {v = p} found,
    same→eq i j,
    to_list-remove p id,
  )
]

pub remove_pending_request-IsSorted :
    (m : Index) (instance_id : Option ℕ) (id : ℕ)
    → IsSorted m
    → IsSorted (remove_pending_request m instance_id id)
unfolding remove_pending_request
remove_pending_request-IsSorted m none id s = s
remove_pending_request-IsSorted m (some j) id s = elim (Option-cases (BTreeMap.get j m)) [
  | inl absent ↦ ground (arith, s)
  | inr (p, found) ↦
      ground (arith, s, remove-IsSorted j m s, update_at-IsSorted j (λ p. (remove p id).0) m s)
]
