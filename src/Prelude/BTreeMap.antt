-- ===== src/Prelude/BTreeMap.antt =====
-- `BTreeMap` as a list of entries in the order of their keys.
pub mod Sorted
pub mod Entry
pub mod Every
pub mod Size
use Prim.Native.Nat.Ordering.{lt, eq, gt}
use mathlib.Core.Path.{◌≡◌, refl}
use mathlib.Core.List.{List, [], ◌∷◌}
use mathlib.Core.Option.{Option, none, some}
use native.Mathlib.Omega.{arith}
use windows_kext_mod.Prelude.Tests.{if◌then◌else◌}
use windows_kext_mod.Prelude.Order.{Ord, same}

abbrev pub BTreeMap {ℓ κ} : Type ℓ → Type κ → Type (ℓ ⊔ κ)
BTreeMap K V = List (K × V)

module _ {ℓ κ} {K : Type ℓ} {V : Type κ} where
  unfoldable pub values : BTreeMap K V → List V
  values [] = []
  values ((k, v) ∷ m) = v ∷ values m

  unfoldable pub map_values : (V → V) → BTreeMap K V → BTreeMap K V
  map_values f [] = []
  map_values f ((k, v) ∷ m) = (k, f v) ∷ map_values f m

  -- `retain` with a closure that may also change the value: `none` drops the entry.
  unfoldable pub retain : (V → Option V) → BTreeMap K V → BTreeMap K V
  retain f [] = []
  retain f ((k, v) ∷ m) = elim (f v) [ none ↦ retain f m | some w ↦ (k, w) ∷ retain f m ]

module _ {ℓ κ} {K : Type ℓ} {V : Type κ} ⦃o : Ord K⦄ where
  unfoldable pub get : K → BTreeMap K V → Option V
  get k [] = none
  get k ((j, v) ∷ m) = elim (o.cmp k j) [ eq ↦ some v | _ ↦ get k m ]

  unfoldable pub insert : K → V → BTreeMap K V → BTreeMap K V
  insert k v [] = (k, v) ∷ []
  insert k v ((j, w) ∷ m) = elim (o.cmp k j) [
    | lt ↦ (k, v) ∷ (j, w) ∷ m
    | eq ↦ (k, v) ∷ m
    | gt ↦ (j, w) ∷ insert k v m
  ]

  unfoldable pub remove : K → BTreeMap K V → BTreeMap K V
  remove k [] = []
  remove k ((j, w) ∷ m) = elim (o.cmp k j) [ eq ↦ m | _ ↦ (j, w) ∷ remove k m ]

  -- A write through `get_mut`.
  unfoldable pub update_at : K → (V → V) → BTreeMap K V → BTreeMap K V
  update_at k f [] = []
  update_at k f ((j, w) ∷ m) = elim (o.cmp k j) [ eq ↦ (j, f w) ∷ m | _ ↦ (j, w) ∷ update_at k f m ]

  -- Every key lies above `k`.
  abbrev pub Above : K → BTreeMap K V → Type 0
  Above k [] = Unit
  Above k ((j, w) ∷ m) = (o.cmp k j ≡ lt) × Above k m

  abbrev pub IsSorted : BTreeMap K V → Type 0
  IsSorted [] = Unit
  IsSorted ((k, v) ∷ m) = Above k m × IsSorted m

  pub Above-trans : (i k : K) (m : BTreeMap K V) → o.cmp i k ≡ lt → Above k m → Above i m
  Above-trans i k [] h a = tt
  Above-trans i k ((j, w) ∷ m) h a = (o.lt_trans i k j h a.0, Above-trans i k m h a.1)

  pub get-Above : (k : K) (m : BTreeMap K V) → Above k m → get k m ≡ none
  unfolding get
  get-Above k [] a = refl
  get-Above k ((j, w) ∷ m) a = ground (arith, get-Above k m a.1)

  pub get-insert :
      (p k : K) (v : V) (m : BTreeMap K V)
      → get p (insert k v m) ≡ (if same p k then some v else get p m)
  unfolding get insert
  get-insert p k v [] = ground arith
  get-insert p k v ((j, w) ∷ m) = ground (
    arith,
    get-insert p k v m,
    o.eq_of_cmp k j,
    o.eq_of_cmp p j,
    o.eq_of_cmp p k,
    o.cmp_refl p,
    o.gt_of_lt k j,
  )

  pub get-update_at :
      (p k : K) (f : V → V) (m : BTreeMap K V) {v : V}
      → get k m ≡ some v
      → get p (update_at k f m) ≡ (if same p k then some (f v) else get p m)
  unfolding get update_at
  get-update_at p k f [] h = ground arith
  get-update_at p k f ((j, w) ∷ m) {v} h = ground (
    arith,
    get-update_at p k f m {v = v},
    o.eq_of_cmp k j,
    o.eq_of_cmp p j,
    o.eq_of_cmp p k,
    o.cmp_refl p,
  )

  pub update_at_absent :
      (k : K) (f : V → V) (m : BTreeMap K V) → get k m ≡ none → update_at k f m ≡ m
  unfolding get update_at
  update_at_absent k f [] h = refl
  update_at_absent k f ((j, w) ∷ m) h = ground (arith, update_at_absent k f m)

  pub get-remove :
      (p k : K) (m : BTreeMap K V)
      → IsSorted m
      → get p (remove k m) ≡ (if same p k then none else get p m)
  unfolding get remove
  get-remove p k [] s = ground arith
  get-remove p k ((j, w) ∷ m) s = ground (
    arith,
    get-remove p k m s.1,
    get-Above j m s.0,
    o.eq_of_cmp k j,
    o.eq_of_cmp p j,
    o.eq_of_cmp p k,
    o.cmp_refl p,
  )

  pub get-retain :
      (p : K) (f : V → Option V) (m : BTreeMap K V)
      → IsSorted m
      → get p (retain f m) ≡ elim (get p m) [ none ↦ none | some v ↦ f v ]
  unfolding get retain
  get-retain p f [] s = refl
  get-retain p f ((j, w) ∷ m) s =
      ground (arith, get-retain p f m s.1, get-Above j m s.0, o.eq_of_cmp p j)

  pub get-map_values :
      (p : K) (f : V → V) (m : BTreeMap K V)
      → get p (map_values f m) ≡ elim (get p m) [ none ↦ none | some v ↦ some (f v) ]
  unfolding get map_values
  get-map_values p f [] = refl
  get-map_values p f ((j, w) ∷ m) = ground (arith, get-map_values p f m)
