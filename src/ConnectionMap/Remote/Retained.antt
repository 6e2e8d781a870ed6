-- ===== src/ConnectionMap/Remote/Retained.antt =====
-- `RemoteConnections::retain`: what it keeps valid, and what it leaves at one endpoint.
use mathlib.Core.Path.{◌≡◌, refl, ◌∙◌, ap, sym, subst}
use mathlib.Core.Logic.{inl, inr}
use mathlib.Core.Bool.{Bool, true}
use mathlib.Core.List.{List, [], ◌∷◌}
use mathlib.Core.Option.{Option, none, some}
use native.Mathlib.Omega.{arith}
use windows_kext_mod.Prelude.Tests.{Bool-cases, Option-cases}
use windows_kext_mod.Prelude.Lists.{All, filter}
use windows_kext_mod.Prelude.Order.{Ord}
use windows_kext_mod.Prelude.BTreeMap
use windows_kext_mod.Prelude.BTreeMap.{
  BTreeMap, IsSorted, get-update_at, get-retain, update_at_absent,
}
use windows_kext_mod.Prelude.BTreeMap.Sorted.{retain-IsSorted}
use windows_kext_mod.ConnectionMap.Bucket
use windows_kext_mod.ConnectionMap.Bucket.{
  Bucket, iter, iter-push, iter-modify, iter-retain, shrink-ne-nil, All-shrink,
}
use windows_kext_mod.ConnectionMap.Remote.{
  Remote, empty, single, many, get, retain, keep_bucket, shrink,
}
use windows_kext_mod.ConnectionMap.Remote.Spec.{
  items, generations, Holds, AllHold, IsValid, has_endpoint_lem,
}

module _ {T E : Type 0} ⦃o : Ord E⦄ (endpoint_of : T → E) where
  abbrev HoldsHere : E → Bucket T → Type 0
  HoldsHere = Holds endpoint_of

  abbrev MapIsValid : BTreeMap E (Bucket T) → Type 0
  MapIsValid m = IsSorted m × AllHold endpoint_of m

  -- What `retain` leaves at one endpoint.
  module _ (test : T → Bool) where
    All-filter :
        (e : E) (cs : List T)
        → All (λ c. endpoint_of c ≡ e) cs
        → All (λ c. endpoint_of c ≡ e) (filter test cs)
    unfolding filter
    All-filter e [] a = tt
    All-filter e (c ∷ cs) a = ground (arith, All-filter e cs a.1)

    -- A bucket that `retain` keeps is not empty.
    Holds-retain :
        (e : E) (b : Bucket T)
        → HoldsHere e b
        → (Bucket.retain test b).1 ≡ true
        → HoldsHere e (Bucket.retain test b).0
    unfolding Bucket.retain
    Holds-retain e (Bucket.one c) h k = h
    Holds-retain e (Bucket.multiple cs) h k =
        (shrink-ne-nil (filter test cs) k, All-shrink _ (filter test cs) (All-filter e cs h.1))

    keep_bucket-eq-some :
        (b b' : Bucket T)
        → keep_bucket test b ≡ some b'
        → ((Bucket.retain test b).1 ≡ true) × ((Bucket.retain test b).0 ≡ b')
    unfolding keep_bucket
    keep_bucket-eq-some b b' k = ground arith

    Holds-keep_bucket :
        (e : E) (b b' : Bucket T) → HoldsHere e b → keep_bucket test b ≡ some b' → HoldsHere e b'
    Holds-keep_bucket e b b' h k =
        let (keep, q) = keep_bucket-eq-some b b' k in
        subst (HoldsHere e) q (Holds-retain e b h keep)

    AllHold-retain :
        (m : BTreeMap E (Bucket T))
        → AllHold endpoint_of m
        → AllHold endpoint_of (BTreeMap.retain (keep_bucket test) m)
    unfolding BTreeMap.retain
    AllHold-retain [] a = tt
    AllHold-retain ((e, b) ∷ m) a = elim (Option-cases (keep_bucket test b)) [
      | inl gone ↦ rw (gone, BTreeMap.retain, AllHold) (AllHold-retain m a.1)
      | inr (b', keep) ↦
          rw (keep, BTreeMap.retain, AllHold)
            (Holds-keep_bucket e b b' a.0 keep, AllHold-retain m a.1)
    ]

    shrink-IsValid : (m : BTreeMap E (Bucket T)) → MapIsValid m → IsValid endpoint_of (shrink m)
    unfolding shrink
    shrink-IsValid [] v = tt
    shrink-IsValid ((e, b) ∷ []) v = (e, v.1.0)
    shrink-IsValid (x ∷ y ∷ m) v = v

    generations-shrink :
        (m : BTreeMap E (Bucket T)) (p : E)
        → MapIsValid m
        → generations endpoint_of (shrink m) p ≡ items (BTreeMap.get p m)
    unfolding shrink get BTreeMap.get
    generations-shrink [] p v = refl
    generations-shrink ((e, b) ∷ []) p v =
        rw (has_endpoint_lem endpoint_of e p b v.1.0) (ground arith)
    generations-shrink (x ∷ y ∷ m) p v = refl

    filter-nil : filter test [] ≡ []
    unfolding filter
    filter-nil = refl

    items-keep_bucket : (b : Bucket T) → items (keep_bucket test b) ≡ filter test (iter b)
    unfolding keep_bucket
    items-keep_bucket b = ground (arith, iter-retain test b)

    items_bind :
        (b : Option (Bucket T))
        → items (elim b [ none ↦ none | some c ↦ keep_bucket test c ]) ≡ filter test (items b)
    items_bind none = sym filter-nil
    items_bind (some b) = items-keep_bucket b

    -- `retain` keeps the buckets valid.
    pub retain-IsValid :
        (r : Remote T E) → IsValid endpoint_of r → IsValid endpoint_of (retain test r)
    unfolding retain
    retain-IsValid empty v = tt
    retain-IsValid (single b) (e, v) = elim (Bool-cases (Bucket.retain test b).1) [
      | inl keep ↦ rw keep (e, Holds-retain e b v keep)
      | inr gone ↦ rw gone tt
    ]
    retain-IsValid (many m) v =
        shrink-IsValid (BTreeMap.retain (keep_bucket test) m)
          (retain-IsSorted (keep_bucket test) m v.0, AllHold-retain m v.1)

    -- `retain` filters the generations of every endpoint.
    pub generations-retain :
        (r : Remote T E) (p : E)
        → IsValid endpoint_of r
        → generations endpoint_of (retain test r) p ≡ filter test (generations endpoint_of r p)
    unfolding retain get
    generations-retain empty p v = sym filter-nil
    generations-retain (single b) p (e, v) = elim (Bool-cases (Bucket.retain test b).1) [
      | inl keep ↦
          rw
            (
              keep,
              has_endpoint_lem endpoint_of e p (Bucket.retain test b).0 (Holds-retain e b v keep),
              has_endpoint_lem endpoint_of e p b v,
            )
            (ground (arith, iter-retain test b, filter-nil))
      | inr gone ↦
          rw (gone, has_endpoint_lem endpoint_of e p b v)
            (ground (arith, iter-retain test b, filter-nil))
    ]
    generations-retain (many m) p v =
        generations-shrink (BTreeMap.retain (keep_bucket test) m) p
          (retain-IsSorted (keep_bucket test) m v.0, AllHold-retain m v.1)
        ∙ ap items (get-retain p (keep_bucket test) m v.0)
        ∙ items_bind (BTreeMap.get p m)
