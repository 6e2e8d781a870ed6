-- ===== src/IdCache/Pending.antt =====
-- `PendingIds` and the reverse index: the queued requests of each connection instance.
use Prim.Native.Nat.{ℕ}
use mathlib.Core.Bool.{Bool, true, false}
use mathlib.Core.List.{List, [], ◌∷◌, ◌++◌}
use mathlib.Core.Option.{Option, none, some}
use windows_kext_mod.Prelude.Tests.{◌==◌, if◌then◌else◌}
use windows_kext_mod.Prelude.Lists.{length}
use windows_kext_mod.Prelude.Order.{nat_ord}
use windows_kext_mod.Prelude.BTreeMap
use windows_kext_mod.Prelude.BTreeMap.{BTreeMap}
use windows_kext_mod.TcpClosureCache.{is_empty}
use windows_kext_mod.TcpClosureCache.RequestIds.{has, remove_id}

pub data PendingIds : Type 0 where
  one : ℕ → PendingIds
  multiple : List ℕ → PendingIds

-- The identities in order, which `extend`, `append_with_instance` and `for_each` go through.
abbrev pub to_list : PendingIds → List ℕ
to_list (one id) = id ∷ []
to_list (multiple ids) = ids

abbrev pub len : PendingIds → ℕ
len p = length (to_list p)

unfoldable pub push : PendingIds → ℕ → PendingIds
push (one previous) id = multiple (previous ∷ id ∷ [])
push (multiple ids) id = multiple (ids ++ id ∷ [])

-- The identities after it, and whether the bucket is empty, if the identity was there.
unfoldable pub remove : PendingIds → ℕ → PendingIds × Option Bool
remove (one existing) id =
    if existing == id then (one existing, some true) else (one existing, none)
remove (multiple ids) id =
    if has id ids
    then (multiple (remove_id id ids), some (is_empty (remove_id id ids)))
    else (multiple ids, none)

unfoldable pub append_with_instance : PendingIds → ℕ → List (ℕ × ℕ) → List (ℕ × ℕ)
append_with_instance p instance_id target = target ++ pairs (to_list p)
  where
    pairs : List ℕ → List (ℕ × ℕ)
    pairs [] = []
    pairs (id ∷ ids) = (id, instance_id) ∷ pairs ids

abbrev pub Index : Type 0
Index = BTreeMap ℕ PendingIds

abbrev add_to_instance : Index → ℕ → ℕ → Index
add_to_instance m instance_id id = elim (BTreeMap.get instance_id m) [
  | some p ↦ BTreeMap.update_at instance_id (λ p. push p id) m
  | none ↦ BTreeMap.insert instance_id (one id) m
]

unfoldable pub add_pending_request : Index → Option ℕ → ℕ → Index
unfolding push
add_pending_request m none id = m
add_pending_request m (some instance_id) id =
    if instance_id == 0 then m else add_to_instance m instance_id id

abbrev pub is_true : Option Bool → Bool
is_true none = false
is_true (some b) = b

abbrev remove_from_instance : Index → ℕ → ℕ → Index
unfolding remove
remove_from_instance m instance_id id = elim (BTreeMap.get instance_id m) [
  | none ↦ m
  | some p ↦
      if is_true (remove p id).1
      then BTreeMap.remove instance_id m
      else BTreeMap.update_at instance_id (λ p. (remove p id).0) m
]

unfoldable pub remove_pending_request : Index → Option ℕ → ℕ → Index
unfolding remove
remove_pending_request m none id = m
remove_pending_request m (some instance_id) id =
    if instance_id == 0 then m else remove_from_instance m instance_id id
