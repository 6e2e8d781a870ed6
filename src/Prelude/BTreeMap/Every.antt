-- ===== src/Prelude/BTreeMap/Every.antt =====
-- A predicate on every entry of a `BTreeMap`, and what keeps it.
use mathlib.Core.Path.{◌≡◌, refl}
use mathlib.Core.List.{[], ◌∷◌}
use mathlib.Core.Option.{Option, none, some}
use native.Mathlib.Omega.{arith}
use windows_kext_mod.Prelude.Order.{Ord}
use windows_kext_mod.Prelude.BTreeMap.{BTreeMap, get, insert, remove, update_at, retain, map_values}

module _ {ℓ κ} {K : Type ℓ} {V : Type κ} ⦃o : Ord K⦄ (P : K → V → Type 0) where
  abbrev pub Every : BTreeMap K V → Type 0
  Every [] = Unit
  Every ((k, v) ∷ m) = P k v × Every m

  pub Every-get : (k : K) (m : BTreeMap K V) → Every m → {v : V} → get k m ≡ some v → P k v
  unfolding get
  Every-get k [] a h = absurd (ground arith)
  Every-get k ((j, w) ∷ m) a {v} h = ground (arith, Every-get k m a.1 {v = v}, a.0, o.eq_of_cmp k j)

  pub Every-insert : (k : K) (v : V) (m : BTreeMap K V) → P k v → Every m → Every (insert k v m)
  unfolding insert
  Every-insert k v [] h a = (h, tt)
  Every-insert k v ((j, w) ∷ m) h a = ground (arith, Every-insert k v m h a.1)

  pub Every-remove : (k : K) (m : BTreeMap K V) → Every m → Every (remove k m)
  unfolding remove
  Every-remove k [] a = tt
  Every-remove k ((j, w) ∷ m) a = ground (arith, Every-remove k m a.1)

  pub Every-update_at :
      (k : K) (f : V → V) (m : BTreeMap K V)
      → ((i : K) (v : V) → P i v → P i (f v))
      → Every m
      → Every (update_at k f m)
  unfolding update_at
  Every-update_at k f [] keep a = tt
  Every-update_at k f ((j, w) ∷ m) keep a =
      ground (arith, Every-update_at k f m keep a.1, keep j w a.0)

  pub Every-update_at_found :
      (k : K) (f : V → V) (m : BTreeMap K V) {v : V}
      → get k m ≡ some v
      → P k (f v)
      → Every m
      → Every (update_at k f m)
  unfolding update_at get
  Every-update_at_found k f [] h p a = tt
  Every-update_at_found k f ((j, w) ∷ m) {v} h p a =
      ground (arith, Every-update_at_found k f m {v = v}, o.eq_of_cmp k j)

  pub Every-map_values :
      (f : V → V) (m : BTreeMap K V)
      → ((i : K) (v : V) → P i v → P i (f v))
      → Every m
      → Every (map_values f m)
  unfolding map_values
  Every-map_values f [] keep a = tt
  Every-map_values f ((j, w) ∷ m) keep a = (keep j w a.0, Every-map_values f m keep a.1)

  pub Every-retain :
      (f : V → Option V) (m : BTreeMap K V)
      → ((i : K) (v w : V) → P i v → f v ≡ some w → P i w)
      → Every m
      → Every (retain f m)
  unfolding retain
  Every-retain f [] keep a = tt
  Every-retain f ((j, v) ∷ m) keep a =
      go (f v) (λ w h. keep j v w a.0 h) (Every-retain f m keep a.1)
    where
      go :
          (r : Option V)
          → ((w : V) → r ≡ some w → P j w)
          → Every (retain f m)
          → Every (elim r [ none ↦ retain f m | some w ↦ (j, w) ∷ retain f m ])
      go none h rest = rest
      go (some w) h rest = (h w refl, rest)
