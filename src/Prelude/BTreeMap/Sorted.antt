-- ===== src/Prelude/BTreeMap/Sorted.antt =====
-- Every operation of a `BTreeMap` keeps the keys in order.
use Prim.Native.Nat.Ordering.{lt}
use mathlib.Core.Path.{◌≡◌}
use mathlib.Core.List.{[], ◌∷◌}
use mathlib.Core.Option.{Option}
use native.Mathlib.Omega.{arith}
use windows_kext_mod.Prelude.Order.{Ord}
use windows_kext_mod.Prelude.BTreeMap.{
  BTreeMap, Above, Above-trans, IsSorted, insert, remove, retain, update_at, map_values,
}

module _ {ℓ κ} {K : Type ℓ} {V : Type κ} ⦃o : Ord K⦄ where
  insert-Above :
      (i k : K) (v : V) (m : BTreeMap K V) → o.cmp i k ≡ lt → Above i m → Above i (insert k v m)
  unfolding insert
  insert-Above i k v [] h a = (h, tt)
  insert-Above i k v ((j, w) ∷ m) h a = ground (arith, insert-Above i k v m h a.1, o.eq_of_cmp k j)

  pub insert-IsSorted : (k : K) (v : V) (m : BTreeMap K V) → IsSorted m → IsSorted (insert k v m)
  unfolding insert
  insert-IsSorted k v [] s = (tt, tt)
  insert-IsSorted k v ((j, w) ∷ m) s = ground (
    arith,
    insert-IsSorted k v m s.1,
    insert-Above j k v m,
    o.lt_of_gt k j,
    o.eq_of_cmp k j,
    Above-trans k j m,
  )

  update_at-Above : (i k : K) (f : V → V) (m : BTreeMap K V) → Above i m → Above i (update_at k f m)
  unfolding update_at
  update_at-Above i k f [] a = tt
  update_at-Above i k f ((j, w) ∷ m) a = ground (arith, update_at-Above i k f m a.1)

  pub update_at-IsSorted :
      (k : K) (f : V → V) (m : BTreeMap K V) → IsSorted m → IsSorted (update_at k f m)
  unfolding update_at
  update_at-IsSorted k f [] s = tt
  update_at-IsSorted k f ((j, w) ∷ m) s =
      ground (arith, update_at-IsSorted k f m s.1, update_at-Above j k f m s.0)

  remove-Above : (i k : K) (m : BTreeMap K V) → Above i m → Above i (remove k m)
  unfolding remove
  remove-Above i k [] a = tt
  remove-Above i k ((j, w) ∷ m) a = ground (arith, remove-Above i k m a.1)

  pub remove-IsSorted : (k : K) (m : BTreeMap K V) → IsSorted m → IsSorted (remove k m)
  unfolding remove
  remove-IsSorted k [] s = tt
  remove-IsSorted k ((j, w) ∷ m) s = ground (arith, remove-IsSorted k m s.1, remove-Above j k m s.0)

  retain-Above : (i : K) (f : V → Option V) (m : BTreeMap K V) → Above i m → Above i (retain f m)
  unfolding retain
  retain-Above i f [] a = tt
  retain-Above i f ((j, w) ∷ m) a = ground (arith, retain-Above i f m a.1)

  pub retain-IsSorted : (f : V → Option V) (m : BTreeMap K V) → IsSorted m → IsSorted (retain f m)
  unfolding retain
  retain-IsSorted f [] s = tt
  retain-IsSorted f ((j, w) ∷ m) s = ground (arith, retain-IsSorted f m s.1, retain-Above j f m s.0)

  map_values-Above : (i : K) (f : V → V) (m : BTreeMap K V) → Above i m → Above i (map_values f m)
  unfolding map_values
  map_values-Above i f [] a = tt
  map_values-Above i f ((j, w) ∷ m) a = (a.0, map_values-Above i f m a.1)

  pub map_values-IsSorted : (f : V → V) (m : BTreeMap K V) → IsSorted m → IsSorted (map_values f m)
  unfolding map_values
  map_values-IsSorted f [] s = tt
  map_values-IsSorted f ((j, w) ∷ m) s = (map_values-Above j f m s.0, map_values-IsSorted f m s.1)
