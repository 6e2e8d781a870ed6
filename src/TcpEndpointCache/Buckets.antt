-- ===== src/TcpEndpointCache/Buckets.antt =====
-- The handles of a tuple and a listener after a change of the index.
use Prim.Native.Nat.{ℕ}
use mathlib.Core.Path.{◌≡◌, refl}
use mathlib.Core.Logic.{inl, inr}
use mathlib.Core.Bool.{Bool, not, ◌&&◌, ◌||◌}
use mathlib.Core.List.{List, [], ◌∷◌}
use mathlib.Core.Option.{Option, none, some}
use native.Mathlib.Omega.{arith}
use windows_kext_mod.Prelude.Tests.{◌==◌, if◌then◌else◌, Bool-cases, Option-cases}
use windows_kext_mod.Prelude.Order.{nat_ord, same, same→eq}
use windows_kext_mod.Prelude.BTreeMap
use windows_kext_mod.Prelude.BTreeMap.{IsSorted, get-insert, get-remove, get-update_at}
use windows_kext_mod.Prelude.BTreeMap.Sorted.{insert-IsSorted, remove-IsSorted, update_at-IsSorted}
use windows_kext_mod.Prelude.BTreeMap.Every.{
  Every, Every-get, Every-insert, Every-remove, Every-update_at_found,
}
use windows_kext_mod.TcpClosureCache.RequestIds.{
  has, remove_id, has-insert_id, has-remove_id, IsIncreasing, insert_id-IsIncreasing,
  remove_id-IsIncreasing,
}
use windows_kext_mod.TcpEndpointCache.{
  TcpEndpointLookupKey, Lookup, lookup_ord, add_lookup_handle, remove_lookup_handle,
}
use windows_kext_mod.TcpEndpointCache.Handles.{
  TcpEndpointHandles, one, multiple, to_list, insert, remove, shortened,
}

abbrev pub IsBucket : TcpEndpointLookupKey → TcpEndpointHandles → Type 0
IsBucket k handles = IsIncreasing (to_list handles)

abbrev pub handles_of : Option TcpEndpointHandles → List ℕ
handles_of none = []
handles_of (some handles) = to_list handles

-- Whether the index has a handle under a tuple and a listener.
abbrev pub is_indexed : Lookup → TcpEndpointLookupKey → ℕ → Bool
is_indexed m k handle = has handle (handles_of (BTreeMap.get k m))

has-insert :
    (h handle : ℕ) (hs : TcpEndpointHandles)
    → has h (to_list (insert hs handle)) ≡ (h == handle || has h (to_list hs))
unfolding insert
has-insert h handle (one existing) = ground arith
has-insert h handle (multiple hs) = ground (arith, has-insert_id h handle hs)

insert-IsIncreasing :
    (handle : ℕ) (hs : TcpEndpointHandles)
    → IsIncreasing (to_list hs)
    → IsIncreasing (to_list (insert hs handle))
unfolding insert
insert-IsIncreasing handle (one existing) s = ground arith
insert-IsIncreasing handle (multiple hs) s = insert_id-IsIncreasing handle hs s

to_list-shortened : (xs : List ℕ) → to_list (shortened xs).0 ≡ xs
to_list-shortened [] = refl
to_list-shortened (x ∷ []) = refl
to_list-shortened (x ∷ y ∷ xs) = refl

abbrev left : TcpEndpointHandles × Bool → List ℕ
left r = if r.1 then [] else to_list r.0

left-shortened : (xs : List ℕ) → left (shortened xs) ≡ xs
left-shortened [] = refl
left-shortened (x ∷ []) = refl
left-shortened (x ∷ y ∷ xs) = refl

has-remove :
    (h handle : ℕ) (hs : TcpEndpointHandles)
    → IsIncreasing (to_list hs)
    → has h (left (remove hs handle)) ≡ (has h (to_list hs) && not (h == handle))
unfolding remove
has-remove h handle (one existing) s = ground arith
has-remove h handle (multiple hs) s =
    ground (arith, left-shortened (remove_id handle hs), has-remove_id h handle hs s)

remove-IsIncreasing :
    (handle : ℕ) (hs : TcpEndpointHandles)
    → IsIncreasing (to_list hs)
    → IsIncreasing (to_list (remove hs handle).0)
unfolding remove
remove-IsIncreasing handle (one existing) s = s
remove-IsIncreasing handle (multiple hs) s =
    rw (to_list-shortened (remove_id handle hs)) (remove_id-IsIncreasing handle hs s)

-- The index with its buckets in order.
abbrev pub IsIndex : Lookup → Type 0
IsIndex m = IsSorted m × Every IsBucket m

pub add_lookup_handle_lem :
    (m : Lookup) (k : TcpEndpointLookupKey) (handle : ℕ) (i : TcpEndpointLookupKey) (h : ℕ)
    → is_indexed (add_lookup_handle m k handle) i h
      ≡ (is_indexed m i h || (same i k && h == handle))
unfolding add_lookup_handle
add_lookup_handle_lem m k handle i h = elim (Option-cases (BTreeMap.get k m)) [
  | inl absent ↦ ground (arith, get-insert i k (one handle) m, same→eq i k)
  | inr (hs, found) ↦ ground (
    arith,
    get-update_at i k (λ hs. insert hs handle) m {v = hs} found,
    same→eq i k,
    has-insert h handle hs,
  )
]

pub add_lookup_handle-IsIndex :
    (m : Lookup) (k : TcpEndpointLookupKey) (handle : ℕ)
    → IsIndex m
    → IsIndex (add_lookup_handle m k handle)
unfolding add_lookup_handle
add_lookup_handle-IsIndex m k handle x = elim (Option-cases (BTreeMap.get k m)) [
  | inl absent ↦
      rw (absent, add_lookup_handle)
        (insert-IsSorted k (one handle) m x.0, Every-insert IsBucket k (one handle) m (tt, tt) x.1)
  | inr (hs, found) ↦
      rw (found, add_lookup_handle)
        (
          update_at-IsSorted k (λ hs. insert hs handle) m x.0,
          Every-update_at_found IsBucket k (λ hs. insert hs handle) m {v = hs} found
              (insert-IsIncreasing handle hs (Every-get IsBucket k m x.1 {v = hs} found)) x.1,
        )
]

pub remove_lookup_handle_lem :
    (m : Lookup) (k : TcpEndpointLookupKey) (handle : ℕ) (i : TcpEndpointLookupKey) (h : ℕ)
    → IsIndex m
    → is_indexed (remove_lookup_handle m k handle) i h
      ≡ (is_indexed m i h && not (same i k && h == handle))
unfolding remove_lookup_handle
remove_lookup_handle_lem m k handle i h x = elim (Option-cases (BTreeMap.get k m)) [
  | inl absent ↦ ground (arith, absent, same→eq i k)
  | inr (hs, found) ↦ ground (
    arith,
    get-remove i k m x.0,
    get-update_at i k (λ hs. (remove hs handle).0) m {v = hs} found,
    same→eq i k,
    has-remove h handle hs (Every-get IsBucket k m x.1 {v = hs} found),
  )
]

pub remove_lookup_handle-IsIndex :
    (m : Lookup) (k : TcpEndpointLookupKey) (handle : ℕ)
    → IsIndex m
    → IsIndex (remove_lookup_handle m k handle)
unfolding remove_lookup_handle
remove_lookup_handle-IsIndex m k handle x = elim (Option-cases (BTreeMap.get k m)) [
  | inl absent ↦ rw (absent, remove_lookup_handle) x
  | inr (hs, found) ↦ elim (Bool-cases (remove hs handle).1) [
    | inl emptied ↦
        rw (found, emptied, remove_lookup_handle)
          (remove-IsSorted k m x.0, Every-remove IsBucket k m x.1)
    | inr kept ↦
        rw (found, kept, remove_lookup_handle)
          (
            update_at-IsSorted k (λ hs. (remove hs handle).0) m x.0,
            Every-update_at_found IsBucket k (λ hs. (remove hs handle).0) m {v = hs} found
                (remove-IsIncreasing handle hs (Every-get IsBucket k m x.1 {v = hs} found)) x.1,
          )
  ]
]
