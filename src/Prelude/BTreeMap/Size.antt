-- ===== src/Prelude/BTreeMap/Size.antt =====
-- How many entries a `BTreeMap` has after each operation.
use Prim.Native.Nat.{suc, ◌≤◌}
use mathlib.Core.Path.{◌≡◌}
use mathlib.Core.List.{[], ◌∷◌}
use mathlib.Core.Option.{Option, some}
use native.Mathlib.Omega.{arith}
use windows_kext_mod.Prelude.Lists.{length}
use windows_kext_mod.Prelude.Order.{Ord}
use windows_kext_mod.Prelude.BTreeMap.{
  BTreeMap, IsSorted, Above-trans, get, get-Above, insert, remove, retain, update_at,
}

module _ {ℓ κ} {K : Type ℓ} {V : Type κ} ⦃o : Ord K⦄ where
  pub length-insert-le : (k : K) (v : V) (m : BTreeMap K V) → length (insert k v m) ≤ suc (length m)
  unfolding insert
  length-insert-le k v [] = omega arith
  length-insert-le k v ((j, w) ∷ m) = ground (arith, length-insert-le k v m)

  pub length-insert_present :
      (k : K) (v : V) (m : BTreeMap K V) {w : V}
      → IsSorted m
      → get k m ≡ some w
      → length (insert k v m) ≡ length m
  unfolding insert get
  length-insert_present k v [] s h = absurd (ground arith)
  length-insert_present k v ((j, x) ∷ m) {w} s h =
      ground (arith, length-insert_present k v m {w = w} s.1, get-Above k m, Above-trans k j m)

  pub length-remove-le : (k : K) (m : BTreeMap K V) → length (remove k m) ≤ length m
  unfolding remove
  length-remove-le k [] = omega arith
  length-remove-le k ((j, w) ∷ m) = ground (arith, length-remove-le k m)

  pub length-update_at :
      (k : K) (f : V → V) (m : BTreeMap K V) → length (update_at k f m) ≡ length m
  unfolding update_at
  length-update_at k f [] = omega arith
  length-update_at k f ((j, w) ∷ m) = ground (arith, length-update_at k f m)

module _ {ℓ κ} {K : Type ℓ} {V : Type κ} where
  pub length-retain-le : (f : V → Option V) (m : BTreeMap K V) → length (retain f m) ≤ length m
  unfolding retain
  length-retain-le f [] = omega arith
  length-retain-le f ((j, w) ∷ m) = ground (arith, length-retain-le f m)
