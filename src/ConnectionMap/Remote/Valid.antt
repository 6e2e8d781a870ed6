-- ===== src/ConnectionMap/Remote/Valid.antt =====
-- What the insertions and the writes to the buckets keep.
use mathlib.Core.Path.{◌≡◌, refl, ◌∙◌}
use mathlib.Core.Logic.{inl, inr}
use mathlib.Core.Bool.{Bool}
use mathlib.Core.List.{List, [], ◌∷◌}
use mathlib.Core.Option.{some}
use native.Mathlib.Omega.{arith}
use windows_kext_mod.Prelude.Tests.{if◌then◌else◌, Bool-cases, Option-cases}
use windows_kext_mod.Prelude.Lists.{All, update_first}
use windows_kext_mod.Prelude.Order.{Ord, same}
use windows_kext_mod.Prelude.BTreeMap
use windows_kext_mod.Prelude.BTreeMap.{
  BTreeMap, IsSorted, get-update_at, get-retain, update_at_absent,
}
use windows_kext_mod.Prelude.BTreeMap.Sorted.{insert-IsSorted, update_at-IsSorted}
use windows_kext_mod.ConnectionMap.Bucket
use windows_kext_mod.ConnectionMap.Bucket.{
  Bucket, iter, iter-push, iter-modify, iter-retain, shrink-ne-nil, All-shrink,
}
use windows_kext_mod.ConnectionMap.Remote.{
  Remote, empty, single, many, get, insert, update_at, has_endpoint, insert_into_map,
}
use windows_kext_mod.ConnectionMap.Remote.Spec.{
  generations, Holds, AllHold, IsValid, Holds-push, stored_map_lem, has_endpoint_lem,
}

module _ {T E : Type 0} ⦃o : Ord E⦄ (endpoint_of : T → E) where
  abbrev HoldsHere : E → Bucket T → Type 0
  HoldsHere = Holds endpoint_of

  AllHold-insert :
      (m : BTreeMap E (Bucket T)) (e : E) (b : Bucket T)
      → AllHold endpoint_of m
      → HoldsHere e b
      → AllHold endpoint_of (BTreeMap.insert e b m)
  unfolding BTreeMap.insert
  AllHold-insert [] e b a h = (h, tt)
  AllHold-insert ((j, w) ∷ m) e b a h = ground (arith, AllHold-insert m e b a.1 h, o.eq_of_cmp e j)

  AllHold-update_at :
      (m : BTreeMap E (Bucket T)) (e : E) (f : Bucket T → Bucket T)
      → AllHold endpoint_of m
      → ((b : Bucket T) → HoldsHere e b → HoldsHere e (f b))
      → AllHold endpoint_of (BTreeMap.update_at e f m)
  unfolding BTreeMap.update_at
  AllHold-update_at [] e f a h = tt
  AllHold-update_at ((j, w) ∷ m) e f a h =
      ground (arith, AllHold-update_at m e f a.1 h, o.eq_of_cmp e j, h w)

  AllHold-get :
      (m : BTreeMap E (Bucket T)) (e : E) (b : Bucket T)
      → AllHold endpoint_of m
      → BTreeMap.get e m ≡ some b
      → HoldsHere e b
  unfolding BTreeMap.get
  AllHold-get [] e b a h = cc
  AllHold-get ((j, w) ∷ m) e b a h = ground (arith, AllHold-get m e b a.1, o.eq_of_cmp e j)

  abbrev MapIsValid : BTreeMap E (Bucket T) → Type 0
  MapIsValid m = IsSorted m × AllHold endpoint_of m

  insert_into_map-IsValid :
      (m : BTreeMap E (Bucket T)) (e : E) (c : T)
      → MapIsValid m
      → endpoint_of c ≡ e
      → MapIsValid (insert_into_map endpoint_of m e c)
  unfolding insert_into_map
  insert_into_map-IsValid m e c v h = elim (Option-cases (BTreeMap.get e m)) [
    | inl absent ↦
        rw (absent, insert_into_map)
          (
            insert-IsSorted e (Bucket.one c) m v.0,
            AllHold-insert m e (Bucket.one c) v.1 (λ q. cc, (h, tt)),
          )
    | inr (b, present) ↦
        rw (present, insert_into_map)
          (
            update_at-IsSorted e (λ b. Bucket.push b c) m v.0,
            AllHold-update_at m e (λ b. Bucket.push b c) v.1
                (λ b hb. Holds-push endpoint_of e b c hb h),
          )
  ]

  -- An insertion under the connection's own endpoint keeps the buckets valid.
  pub insert-IsValid :
      (r : Remote T E) (e : E) (c : T)
      → IsValid endpoint_of r
      → endpoint_of c ≡ e
      → IsValid endpoint_of (insert endpoint_of r e c)
  unfolding insert
  insert-IsValid empty e c v h = (e, (λ q. cc, (h, tt)))
  insert-IsValid (single b) e c (e', v) h = elim (Bool-cases (same e e')) [
    | inl old ↦
        rw (has_endpoint_lem endpoint_of e' e b v, old)
          (e', Holds-push endpoint_of e' b c v (h ∙ ground (arith, o.eq_of_cmp e e')))
    | inr new ↦
        rw (has_endpoint_lem endpoint_of e' e b v, new, stored_map_lem endpoint_of e' b v)
          (insert_into_map-IsValid ((e', b) ∷ []) e c ((tt, tt), (v, tt)) h)
  ]
  insert-IsValid (many m) e c v h = insert_into_map-IsValid m e c v h

  -- A write that keeps each connection's endpoint.
  module _ (test : T → Bool) (f : T → T) (keeps : (c : T) → endpoint_of (f c) ≡ endpoint_of c) where
    All-update_first :
        (e : E) (cs : List T)
        → All (λ c. endpoint_of c ≡ e) cs
        → All (λ c. endpoint_of c ≡ e) (update_first test f cs)
    unfolding update_first
    All-update_first e [] a = tt
    All-update_first e (c ∷ cs) a = ground (arith, All-update_first e cs a.1, keeps c)

    update_first-ne-nil : (cs : List T) → (cs ≡ [] → ⊥) → update_first test f cs ≡ [] → ⊥
    unfolding update_first
    update_first-ne-nil [] h e = h refl
    update_first-ne-nil (c ∷ cs) h e = ground arith

    update_first-nil : update_first test f [] ≡ []
    unfolding update_first
    update_first-nil = refl

    Holds-modify : (e : E) (b : Bucket T) → HoldsHere e b → HoldsHere e (Bucket.modify test f b)
    Holds-modify e b h =
        rw (iter-modify test f b)
          (update_first-ne-nil (iter b) h.0, All-update_first e (iter b) h.1)

    -- A write at one endpoint keeps the buckets valid.
    pub modify-IsValid :
        (r : Remote T E) (e : E)
        → IsValid endpoint_of r
        → IsValid endpoint_of (update_at endpoint_of e (Bucket.modify test f) r)
    unfolding update_at
    modify-IsValid empty e v = tt
    modify-IsValid (single b) e (e', v) = elim (Bool-cases (has_endpoint endpoint_of b e)) [
      | inl here ↦ rw here (e', Holds-modify e' b v)
      | inr other ↦ rw other (e', v)
    ]
    modify-IsValid (many m) e v = (
      update_at-IsSorted e (Bucket.modify test f) m v.0,
      AllHold-update_at m e (Bucket.modify test f) v.1 (Holds-modify e),
    )

    -- A write at one endpoint changes the first connection there that passes the test.
    pub generations-modify :
        (r : Remote T E) (e p : E)
        → IsValid endpoint_of r
        → generations endpoint_of (update_at endpoint_of e (Bucket.modify test f) r) p ≡ (
            if same p e
            then update_first test f (generations endpoint_of r p)
            else generations endpoint_of r p)
    unfolding update_at get
    generations-modify empty e p v = ground (arith, update_first-nil)
    generations-modify (single b) e p (e', v) = elim (Bool-cases (same e e')) [
      | inl here ↦
          rw
            (
              has_endpoint_lem endpoint_of e' e b v,
              here,
              has_endpoint_lem endpoint_of e' p (Bucket.modify test f b) (Holds-modify e' b v),
              has_endpoint_lem endpoint_of e' p b v,
            )
            (ground (
              arith,
              o.eq_of_cmp e e',
              o.eq_of_cmp p e',
              o.eq_of_cmp p e,
              o.cmp_refl p,
              iter-modify test f b,
            ))
      | inr other ↦
          rw (has_endpoint_lem endpoint_of e' e b v, other, has_endpoint_lem endpoint_of e' p b v)
            (ground (arith, o.eq_of_cmp e e', o.eq_of_cmp p e, update_first-nil))
    ]
    generations-modify (many m) e p v = elim (Option-cases (BTreeMap.get e m)) [
      | inl absent ↦
          rw (update_at_absent e (Bucket.modify test f) m absent)
            (ground (arith, o.eq_of_cmp p e, update_first-nil))
      | inr (b, present) ↦
          rw (get-update_at p e (Bucket.modify test f) m present)
            (ground (arith, o.eq_of_cmp p e, iter-modify test f b))
    ]
