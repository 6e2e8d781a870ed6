-- ===== src/ConnectionMap/Remote.antt =====
-- `enum RemoteConnections`: the buckets of one local port, by remote endpoint. The first endpoint
-- is stored inline, a B-tree serves from the second on.
pub mod Spec
pub mod Valid
pub mod Retained
pub mod Mapped
use Prim.Native.Nat.{ℕ}
use mathlib.Core.Path.{◌≡◌, refl}
use mathlib.Core.Bool.{Bool, true, false}
use mathlib.Core.List.{List, [], ◌∷◌, ◌++◌}
use mathlib.Core.Option.{Option, none, some}
use windows_kext_mod.Prelude.Tests.{if◌then◌else◌}
use windows_kext_mod.Prelude.Order.{Ord, same}
use windows_kext_mod.Prelude.BTreeMap
use windows_kext_mod.Prelude.BTreeMap.{BTreeMap}
use windows_kext_mod.ConnectionMap.Bucket
use windows_kext_mod.ConnectionMap.Bucket.{Bucket, iter}

pub data Remote (T E : Type 0) : Type 0 where
  empty : Remote T E
  single : Bucket T → Remote T E
  many : BTreeMap E (Bucket T) → Remote T E

pub keep_bucket : {T : Type 0} → (T → Bool) → Bucket T → Option (Bucket T)
keep_bucket test b = let (rest, kept) = Bucket.retain test b in if kept then some rest else none

module _ {T E : Type 0} where
  -- `values`, and the buckets that `values_mut` walks
  unfoldable pub values : Remote T E → List (Bucket T)
  values empty = []
  values (single b) = b ∷ []
  values (many m) = BTreeMap.values m

  -- `values_mut` with a write at every bucket
  unfoldable pub map_buckets : (Bucket T → Bucket T) → Remote T E → Remote T E
  map_buckets f empty = empty
  map_buckets f (single b) = single (f b)
  map_buckets f (many m) = many (BTreeMap.map_values f m)

  unfoldable pub is_empty : Remote T E → Bool
  is_empty empty = true
  is_empty (single b) = false
  is_empty (many m) = false

  -- What `retain` leaves of a B-tree: a single bucket moves inline.
  pub shrink : BTreeMap E (Bucket T) → Remote T E
  shrink [] = empty
  shrink ((e, b) ∷ []) = single b
  shrink (x ∷ y ∷ m) = many (x ∷ y ∷ m)

  unfoldable pub retain : (T → Bool) → Remote T E → Remote T E
  unfolding keep_bucket shrink
  retain test empty = empty
  retain test (single b) =
      let (rest, kept) = Bucket.retain test b in if kept then single rest else empty
  retain test (many m) = shrink (BTreeMap.retain (keep_bucket test) m)

module _ {T E : Type 0} ⦃o : Ord E⦄ (endpoint_of : T → E) where
  -- `bucket.endpoint() == endpoint`. The source panics on an empty bucket, which no cache holds
  -- (`Spec`): here it equals no endpoint.
  unfoldable pub has_endpoint : Bucket T → E → Bool
  has_endpoint b e = elim (iter b) [ [] ↦ false | c ∷ _ ↦ same (endpoint_of c) e ]

  unfoldable pub get : Remote T E → E → Option (Bucket T)
  unfolding has_endpoint
  get empty e = none
  get (single b) e = if has_endpoint b e then some b else none
  get (many m) e = BTreeMap.get e m

  -- A write through `get_mut`.
  unfoldable pub update_at : E → (Bucket T → Bucket T) → Remote T E → Remote T E
  unfolding has_endpoint
  update_at e f empty = empty
  update_at e f (single b) = single (if has_endpoint b e then f b else b)
  update_at e f (many m) = many (BTreeMap.update_at e f m)

  unfoldable pub insert_into_map : BTreeMap E (Bucket T) → E → T → BTreeMap E (Bucket T)
  insert_into_map m e c = elim (BTreeMap.get e m) [
    | none ↦ BTreeMap.insert e (Bucket.one c) m
    | some _ ↦ BTreeMap.update_at e (λ b. Bucket.push b c) m
  ]

  -- The B-tree that `insert` starts from an inline bucket, keyed by the bucket's own endpoint.
  pub stored_map : Bucket T → BTreeMap E (Bucket T)
  stored_map b = elim (iter b) [ [] ↦ [] | c ∷ _ ↦ (endpoint_of c, b) ∷ [] ]

  unfoldable pub insert : Remote T E → E → T → Remote T E
  unfolding has_endpoint insert_into_map stored_map
  insert empty e c = single (Bucket.one c)
  insert (single b) e c =
      if has_endpoint b e
      then single (Bucket.push b c)
      else many (insert_into_map (stored_map b) e c)
  insert (many m) e c = many (insert_into_map m e c)
