-- ===== src/Prelude/BTreeMap/Entry.antt =====
-- `entry(key).or_default()` and a write through the reference that it returns.
use mathlib.Core.Path.{◌≡◌}
use mathlib.Core.Logic.{inl, inr}
use mathlib.Core.Option.{Option, none, some}
use native.Mathlib.Omega.{arith}
use windows_kext_mod.Prelude.Tests.{if◌then◌else◌, Option-cases}
use windows_kext_mod.Prelude.Order.{Ord, same, same→eq}
use windows_kext_mod.Prelude.BTreeMap.{
  BTreeMap, get, insert, update_at, get-insert, get-update_at, IsSorted,
}
use windows_kext_mod.Prelude.BTreeMap.Sorted.{insert-IsSorted, update_at-IsSorted}

-- A value, or the default.
abbrev pub or_else {ℓ} : {V : Type ℓ} → V → Option V → V
or_else d none = d
or_else d (some v) = v

module _ {ℓ κ} {K : Type ℓ} {V : Type κ} ⦃o : Ord K⦄ where
  unfoldable pub write_entry : V → K → (V → V) → BTreeMap K V → BTreeMap K V
  write_entry d k f m = elim (get k m) [ none ↦ insert k (f d) m | some v ↦ update_at k f m ]

  pub get-write_entry :
      (d : V) (p k : K) (f : V → V) (m : BTreeMap K V)
      → or_else d (get p (write_entry d k f m))
        ≡ (if same p k then f (or_else d (get p m)) else or_else d (get p m))
  unfolding write_entry
  get-write_entry d p k f m = elim (Option-cases (get k m)) [
    | inl absent ↦ ground (arith, get-insert p k (f d) m, same→eq p k)
    | inr (v, found) ↦ ground (arith, get-update_at p k f m {v = v} found, same→eq p k)
  ]

  pub write_entry-IsSorted :
      (d : V) (k : K) (f : V → V) (m : BTreeMap K V) → IsSorted m → IsSorted (write_entry d k f m)
  unfolding write_entry
  write_entry-IsSorted d k f m s =
      ground (arith, insert-IsSorted k (f d) m s, update_at-IsSorted k f m s)
