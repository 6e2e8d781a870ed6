-- ===== src/ConnectionMap/Remote/Spec.antt =====
-- The endpoints of one local port read as a function from endpoints to generations, oldest first.
-- The inline forms leave no trace in it.
use mathlib.Core.Path.{◌≡◌, refl, ◌∙◌}
use mathlib.Core.Logic.{inl, inr}
use mathlib.Core.List.{List, [], ◌∷◌, ◌++◌}
use mathlib.Core.Option.{Option, none, some}
use native.Mathlib.Omega.{arith}
use windows_kext_mod.Prelude.Tests.{if◌then◌else◌, Bool-cases, Option-cases}
use windows_kext_mod.Prelude.Lists.{All}
use windows_kext_mod.Prelude.Order.{Ord, same}
use windows_kext_mod.Prelude.BTreeMap
use windows_kext_mod.Prelude.BTreeMap.{BTreeMap, IsSorted, get-insert, get-update_at, get-retain}
use windows_kext_mod.ConnectionMap.Bucket
use windows_kext_mod.ConnectionMap.Bucket.{Bucket, iter, iter-push}
use windows_kext_mod.ConnectionMap.Remote.{
  Remote, empty, single, many, get, insert, has_endpoint, insert_into_map, stored_map,
}

abbrev pub items : {T : Type 0} → Option (Bucket T) → List T
items none = []
items (some b) = iter b

module _ {A : Type 0} where
  not-nil-append : (xs : List A) (a : A) → xs ++ a ∷ [] ≡ [] → ⊥
  not-nil-append [] a h = cc
  not-nil-append (x ∷ xs) a h = cc

  All-append : (P : A → Type 0) (xs : List A) (a : A) → All P xs → P a → All P (xs ++ a ∷ [])
  All-append P [] a h p = (p, tt)
  All-append P (x ∷ xs) a h p = (h.0, All-append P xs a h.1 p)

module _ {T E : Type 0} ⦃o : Ord E⦄ (endpoint_of : T → E) where
  -- The generations of one endpoint.
  abbrev pub generations : Remote T E → E → List T
  generations r e = items (get endpoint_of r e)

  -- A bucket holds something, and all of it belongs to `e`.
  abbrev pub Holds : E → Bucket T → Type 0
  Holds e b = (iter b ≡ [] → ⊥) × All (λ c. endpoint_of c ≡ e) (iter b)

  abbrev pub AllHold : BTreeMap E (Bucket T) → Type 0
  AllHold [] = Unit
  AllHold ((e, b) ∷ m) = Holds e b × AllHold m

  abbrev pub IsValid : Remote T E → Type 0
  IsValid empty = Unit
  IsValid (single b) = (e : E) × Holds e b
  IsValid (many m) = IsSorted m × AllHold m

  pub same_comm : (a b : E) → same a b ≡ same b a
  same_comm a b = ground (arith, o.eq_of_cmp a b, o.eq_of_cmp b a, o.cmp_refl a, o.cmp_refl b)

  pub has_endpoint_lem :
      (e p : E) (b : Bucket T) → Holds e b → has_endpoint endpoint_of b p ≡ same p e
  unfolding has_endpoint
  has_endpoint_lem e p (Bucket.one c) h = ground (arith, same_comm e p)
  has_endpoint_lem e p (Bucket.multiple []) h = absurd (h.0 refl)
  has_endpoint_lem e p (Bucket.multiple (c ∷ cs)) h = ground (arith, same_comm e p)

  items-insert_into_map :
      (m : BTreeMap E (Bucket T)) (e p : E) (c : T)
      → items (BTreeMap.get p (insert_into_map endpoint_of m e c))
        ≡ (if same p e then items (BTreeMap.get p m) ++ c ∷ [] else items (BTreeMap.get p m))
  unfolding insert_into_map
  items-insert_into_map m e p c = elim (Option-cases (BTreeMap.get e m)) [
    | inl absent ↦
        rw (absent, insert_into_map, get-insert p e (Bucket.one c) m)
          (ground (arith, o.eq_of_cmp p e))
    | inr (b, present) ↦
        rw (present, insert_into_map, get-update_at p e (λ b. Bucket.push b c) m present)
          (ground (arith, o.eq_of_cmp p e, iter-push b c))
  ]

  pub Holds-push :
      (e : E) (b : Bucket T) (c : T) → Holds e b → endpoint_of c ≡ e → Holds e (Bucket.push b c)
  unfolding Bucket.push
  Holds-push e (Bucket.one d) c h same_e = (λ q. cc, (h.1.0, (same_e, tt)))
  Holds-push e (Bucket.multiple cs) c h same_e =
      (not-nil-append cs c, All-append (λ x. endpoint_of x ≡ e) cs c h.1 same_e)

  pub stored_map_lem : (e : E) (b : Bucket T) → Holds e b → stored_map endpoint_of b ≡ (e, b) ∷ []
  unfolding stored_map
  stored_map_lem e (Bucket.one c) h = rw (h.1.0)
  stored_map_lem e (Bucket.multiple []) h = absurd (h.0 refl)
  stored_map_lem e (Bucket.multiple (c ∷ cs)) h = rw (h.1.0)

  items-stored_map :
      (e p : E) (b : Bucket T)
      → Holds e b
      → items (BTreeMap.get p (stored_map endpoint_of b)) ≡ generations (single b) p
  unfolding get BTreeMap.get
  items-stored_map e p b h = rw (stored_map_lem e b h, has_endpoint_lem e p b h) (ground arith)

  -- An insertion appends to the generations of its endpoint and leaves every other alone.
  pub generations-insert :
      (r : Remote T E) (e p : E) (c : T)
      → IsValid r
      → endpoint_of c ≡ e
      → generations (insert endpoint_of r e c) p
        ≡ (if same p e then generations r p ++ c ∷ [] else generations r p)
  unfolding insert get
  generations-insert empty e p c v h = ground (arith, same_comm e p)
  generations-insert (single b) e p c (e', v) h = elim (Bool-cases (same e e')) [
    | inl old ↦
        let q : e ≡ e' = ground (arith, o.eq_of_cmp e e') in
        rw
          (
            has_endpoint_lem e' e b v,
            old,
            has_endpoint_lem e' p (Bucket.push b c) (Holds-push e' b c v (h ∙ q)),
            has_endpoint_lem e' p b v,
            q,
          )
          (ground (arith, iter-push b c))
    | inr new ↦
        rw (has_endpoint_lem e' e b v, new)
          (items-insert_into_map (stored_map endpoint_of b) e p c ∙ rw (items-stored_map e' p b v))
  ]
  generations-insert (many m) e p c v h = items-insert_into_map m e p c
