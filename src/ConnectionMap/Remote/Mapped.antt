-- ===== src/ConnectionMap/Remote/Mapped.antt =====
-- A write at every connection of a local port: what it keeps valid, and what it leaves at one
-- endpoint.
use mathlib.Core.Path.{◌≡◌, refl, ◌∙◌, ap}
use mathlib.Core.List.{List, [], ◌∷◌, map}
use mathlib.Core.Option.{Option, none, some}
use native.Mathlib.Omega.{arith}
use windows_kext_mod.Prelude.Lists.{All}
use windows_kext_mod.Prelude.Order.{Ord}
use windows_kext_mod.Prelude.BTreeMap
use windows_kext_mod.Prelude.BTreeMap.{BTreeMap, get-map_values}
use windows_kext_mod.Prelude.BTreeMap.Sorted.{map_values-IsSorted}
use windows_kext_mod.ConnectionMap.Bucket
use windows_kext_mod.ConnectionMap.Bucket.{Bucket, iter}
use windows_kext_mod.ConnectionMap.Remote.{Remote, empty, single, many, get, map_buckets}
use windows_kext_mod.ConnectionMap.Remote.Spec.{
  items, generations, Holds, AllHold, IsValid, has_endpoint_lem,
}

module _ {T E : Type 0} ⦃o : Ord E⦄ (endpoint_of : T → E) (f : T → T)
    (keeps : (x : T) → endpoint_of (f x) ≡ endpoint_of x) where
  iter-modify_all : (b : Bucket T) → iter (Bucket.modify_all f b) ≡ map f (iter b)
  unfolding Bucket.modify_all
  iter-modify_all (Bucket.one c) = refl
  iter-modify_all (Bucket.multiple cs) = refl

  All-map :
      (e : E) (cs : List T)
      → All (λ c. endpoint_of c ≡ e) cs
      → All (λ c. endpoint_of c ≡ e) (map f cs)
  All-map e [] a = tt
  All-map e (c ∷ cs) a = (keeps c ∙ a.0, All-map e cs a.1)

  map-ne-nil : (cs : List T) → (cs ≡ [] → ⊥) → map f cs ≡ [] → ⊥
  map-ne-nil [] h e = h refl
  map-ne-nil (c ∷ cs) h e = cc

  Holds-modify_all :
      (e : E) (b : Bucket T) → Holds endpoint_of e b → Holds endpoint_of e (Bucket.modify_all f b)
  Holds-modify_all e b h = rw (iter-modify_all b) (map-ne-nil (iter b) h.0, All-map e (iter b) h.1)

  AllHold-map_values :
      (m : BTreeMap E (Bucket T))
      → AllHold endpoint_of m
      → AllHold endpoint_of (BTreeMap.map_values (Bucket.modify_all f) m)
  unfolding BTreeMap.map_values
  AllHold-map_values [] a = tt
  AllHold-map_values ((e, b) ∷ m) a = (Holds-modify_all e b a.0, AllHold-map_values m a.1)

  -- A write at every connection keeps the buckets valid, if it keeps each connection's endpoint.
  pub map_buckets-IsValid :
      (r : Remote T E)
      → IsValid endpoint_of r
      → IsValid endpoint_of (map_buckets (Bucket.modify_all f) r)
  unfolding map_buckets
  map_buckets-IsValid empty v = tt
  map_buckets-IsValid (single b) (e, v) = (e, Holds-modify_all e b v)
  map_buckets-IsValid (many m) v =
      (map_values-IsSorted (Bucket.modify_all f) m v.0, AllHold-map_values m v.1)

  items-map_values :
      (b : Option (Bucket T))
      → items (elim b [ none ↦ none | some b ↦ some (Bucket.modify_all f b) ]) ≡ map f (items b)
  items-map_values none = refl
  items-map_values (some b) = iter-modify_all b

  -- It is a write at every generation of every endpoint.
  pub generations-map_buckets :
      (r : Remote T E) (p : E)
      → IsValid endpoint_of r
      → generations endpoint_of (map_buckets (Bucket.modify_all f) r) p
        ≡ map f (generations endpoint_of r p)
  unfolding map_buckets get
  generations-map_buckets empty p v = refl
  generations-map_buckets (single b) p (e, v) =
      rw
        (
          has_endpoint_lem endpoint_of e p (Bucket.modify_all f b) (Holds-modify_all e b v),
          has_endpoint_lem endpoint_of e p b v,
        )
        (ground (arith, iter-modify_all b))
  generations-map_buckets (many m) p v =
      ap items (get-map_values p (Bucket.modify_all f) m) ∙ items-map_values (BTreeMap.get p m)
