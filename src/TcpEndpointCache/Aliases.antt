-- ===== src/TcpEndpointCache/Aliases.antt =====
-- The removal of every handle of a connection.
use Prim.Native.Nat.{ℕ, ◌<◌}
use mathlib.Core.Path.{◌≡◌, refl, ◌∙◌, sym, ap, subst}
use mathlib.Core.Logic.{inl, inr}
use mathlib.Core.Bool.{Bool, true, false, not, ◌&&◌}
use mathlib.Core.List.{List, [], ◌∷◌}
use mathlib.Core.Option.{Option, none, some}
use native.Mathlib.Omega.{arith}
use windows_kext_mod.Prelude.Tests.{if◌then◌else◌, Bool-cases, Option-cases}
use windows_kext_mod.Prelude.Lists.{All}
use windows_kext_mod.Prelude.Order.{nat_ord, same, same→eq, same_refl}
use windows_kext_mod.Prelude.BTreeMap
use windows_kext_mod.Prelude.BTreeMap.{BTreeMap, IsSorted, get-insert, get-remove}
use windows_kext_mod.Prelude.BTreeMap.Sorted.{insert-IsSorted, remove-IsSorted}
use windows_kext_mod.Prelude.BTreeMap.Every.{Every-get, Every-insert, Every-remove}
use windows_kext_mod.TcpClosureCache.{TcpEndpointConnection}
use windows_kext_mod.TcpClosureCache.RequestIds.{has, has_above, IsIncreasing}
use windows_kext_mod.TcpEndpointCache.{
  TcpEndpointLookupKey, TcpEndpointRecord, TcpEndpointCache, Endpoints, Lookup, lookup_ord,
  endpoint_ord, lookup_key, is_alias, split_aliases, remove_endpoint_aliases,
}
use windows_kext_mod.TcpEndpointCache.Handles.{to_list, of_list}
use windows_kext_mod.TcpEndpointCache.Buckets.{IsBucket, IsIndex, is_indexed, handles_of}

abbrev pub is_keyed : TcpEndpointLookupKey → Option TcpEndpointRecord → Bool
is_keyed k none = false
is_keyed k (some r) = same k (lookup_key r.endpoint)

-- The index has a handle where its record belongs, and nowhere else.
abbrev pub IsConsistent : TcpEndpointCache → Type 0
IsConsistent s =
    IsSorted s.endpoints
    × IsIndex s.lookup
    × ((k : TcpEndpointLookupKey) (h : ℕ)
        → is_indexed s.lookup k h ≡ is_keyed k (BTreeMap.get h s.endpoints))

split_aliases-IsSorted :
    (e : TcpEndpointConnection) (m : Endpoints) (hs : List ℕ)
    → IsSorted m
    → IsSorted (split_aliases e m hs).0
unfolding split_aliases
split_aliases-IsSorted e m [] s = s
split_aliases-IsSorted e m (h ∷ hs) s = elim (Bool-cases (is_alias e (BTreeMap.get h m))) [
  | inl found ↦
      rw (found, split_aliases)
        (split_aliases-IsSorted e (BTreeMap.remove h m) hs (remove-IsSorted h m s))
  | inr other ↦ rw (other, split_aliases) (split_aliases-IsSorted e m hs s)
]

All-split_aliases :
    (x : ℕ) (e : TcpEndpointConnection) (m : Endpoints) (hs : List ℕ)
    → All (λ y. x < y) hs
    → All (λ y. x < y) (split_aliases e m hs).1
unfolding split_aliases
All-split_aliases x e m [] a = tt
All-split_aliases x e m (h ∷ hs) a = elim (Bool-cases (is_alias e (BTreeMap.get h m))) [
  | inl found ↦ rw (found, split_aliases) (All-split_aliases x e (BTreeMap.remove h m) hs a.1)
  | inr other ↦ rw (other, split_aliases) (a.0, All-split_aliases x e m hs a.1)
]

split_aliases-IsIncreasing :
    (e : TcpEndpointConnection) (m : Endpoints) (hs : List ℕ)
    → IsIncreasing hs
    → IsIncreasing (split_aliases e m hs).1
unfolding split_aliases
split_aliases-IsIncreasing e m [] s = tt
split_aliases-IsIncreasing e m (h ∷ hs) s = elim (Bool-cases (is_alias e (BTreeMap.get h m))) [
  | inl found ↦
      rw (found, split_aliases) (split_aliases-IsIncreasing e (BTreeMap.remove h m) hs s.1)
  | inr other ↦
      rw (other, split_aliases)
        (All-split_aliases h e m hs s.0, split_aliases-IsIncreasing e m hs s.1)
]

abbrev get : ℕ → Endpoints → Option TcpEndpointRecord
get h m = BTreeMap.get h m

get-split_aliases :
    (e : TcpEndpointConnection) (m : Endpoints) (hs : List ℕ) (h : ℕ)
    → IsSorted m
    → get h (split_aliases e m hs).0 ≡ (if has h hs && is_alias e (get h m) then none else get h m)
unfolding split_aliases
get-split_aliases e m [] h s = refl
get-split_aliases e m (x ∷ hs) h s = elim (Bool-cases (is_alias e (get x m))) [
  | inl found ↦
      rw (found, split_aliases)
        (ground (
          arith,
          found,
          get-split_aliases e (BTreeMap.remove x m) hs h (remove-IsSorted x m s),
          get-remove h x m s,
          same→eq h x,
        ))
  | inr other ↦
      rw (other, split_aliases) (ground (arith, other, get-split_aliases e m hs h s, same→eq h x))
]

has-split_aliases :
    (e : TcpEndpointConnection) (m : Endpoints) (hs : List ℕ) (h : ℕ)
    → IsSorted m
    → IsIncreasing hs
    → has h (split_aliases e m hs).1 ≡ (has h hs && not (is_alias e (get h m)))
unfolding split_aliases
has-split_aliases e m [] h s inc = refl
has-split_aliases e m (x ∷ hs) h s inc = elim (Bool-cases (is_alias e (get x m))) [
  | inl found ↦
      rw (found, split_aliases)
        (ground (
          arith,
          found,
          has-split_aliases e (BTreeMap.remove x m) hs h (remove-IsSorted x m s) inc.1,
          get-remove h x m s,
          same→eq h x,
          has_above x x hs (omega arith) inc.0,
        ))
  | inr other ↦
      rw (other, split_aliases)
        (ground (arith, other, has-split_aliases e m hs h s inc.1, same→eq h x))
]

handles_of-of_list : (xs : List ℕ) → handles_of (of_list xs) ≡ xs
handles_of-of_list [] = refl
handles_of-of_list (x ∷ []) = refl
handles_of-of_list (x ∷ y ∷ xs) = refl

-- The index once a bucket is replaced by the handles that are left of it.
abbrev rebucketed : Lookup → TcpEndpointLookupKey → List ℕ → Lookup
rebucketed m k xs = elim (of_list xs) [
  | none ↦ BTreeMap.remove k m
  | some remaining ↦ BTreeMap.insert k remaining (BTreeMap.remove k m)
]

is_indexed-rebucketed :
    (m : Lookup) (k i : TcpEndpointLookupKey) (xs : List ℕ) (h : ℕ)
    → IsSorted m
    → is_indexed (rebucketed m k xs) i h ≡ (if same i k then has h xs else is_indexed m i h)
is_indexed-rebucketed m k i xs h s = elim (Option-cases (of_list xs)) [
  | inl nothing ↦
      rw (nothing, rebucketed) (ground (arith, nothing, handles_of-of_list xs, get-remove i k m s))
  | inr (remaining, left) ↦
      rw (left, rebucketed)
        (ground (
          arith,
          left,
          handles_of-of_list xs,
          get-insert i k remaining (BTreeMap.remove k m),
          get-remove i k m s,
        ))
]

rebucketed-IsIndex :
    (m : Lookup) (k : TcpEndpointLookupKey) (xs : List ℕ)
    → IsIndex m
    → IsIncreasing xs
    → IsIndex (rebucketed m k xs)
rebucketed-IsIndex m k xs x inc =
    let sorted = remove-IsSorted k m x.0 in
    let every = Every-remove IsBucket k m x.1 in
    elim (Option-cases (of_list xs)) [
      | inl nothing ↦ rw (nothing, rebucketed) (sorted, every)
      | inr (remaining, left) ↦
          let bucket : IsBucket k remaining =
            subst (λ ys. IsIncreasing ys) (sym (handles_of-of_list xs) ∙ ap handles_of left) inc in
          rw (left, rebucketed)
            (
              insert-IsSorted k remaining (BTreeMap.remove k m) sorted,
              Every-insert IsBucket k remaining (BTreeMap.remove k m) bucket every,
            )
    ]

alias_key :
    (e : TcpEndpointConnection) (o : Option TcpEndpointRecord)
    → is_alias e o ≡ true
    → is_keyed (lookup_key e) o ≡ true
alias_key e none h = absurd (ground arith)
alias_key e (some r) h = let equal = same→eq r.endpoint e h in rw equal (same_refl (lookup_key e))

alias_keyed :
    (e : TcpEndpointConnection) (o : Option TcpEndpointRecord) (k : TcpEndpointLookupKey)
    → is_alias e o ≡ true
    → is_keyed k o ≡ same k (lookup_key e)
alias_keyed e none k h = absurd (ground arith)
alias_keyed e (some r) k h = let equal = same→eq r.endpoint e h in rw equal refl

-- The removal of a connection keeps the cache consistent, and takes from it the handles of that
-- connection and no others.
pub remove_endpoint_aliases_lem :
    (s : TcpEndpointCache) (e : TcpEndpointConnection) (h : ℕ)
    → IsConsistent s
    → get h (remove_endpoint_aliases s e).endpoints
      ≡ (if is_alias e (get h s.endpoints) then none else get h s.endpoints)
unfolding remove_endpoint_aliases
remove_endpoint_aliases_lem s e h x = elim (Option-cases (BTreeMap.get (lookup_key e) s.lookup)) [
  | inl absent ↦
      rw (absent, remove_endpoint_aliases)
        (ground (arith, absent, x.2 (lookup_key e) h, alias_key e (get h s.endpoints)))
  | inr (hs, found) ↦
      rw (found, remove_endpoint_aliases)
        (ground (
          arith,
          found,
          x.2 (lookup_key e) h,
          alias_key e (get h s.endpoints),
          get-split_aliases e s.endpoints (to_list hs) h x.0,
        ))
]

pub remove_endpoint_aliases-IsConsistent :
    (s : TcpEndpointCache) (e : TcpEndpointConnection)
    → IsConsistent s
    → IsConsistent (remove_endpoint_aliases s e)
unfolding remove_endpoint_aliases
remove_endpoint_aliases-IsConsistent s e x =
    elim (Option-cases (BTreeMap.get (lookup_key e) s.lookup)) [
      | inl absent ↦ rw (absent, remove_endpoint_aliases) x
      | inr (hs, found) ↦
          let inc = Every-get IsBucket (lookup_key e) s.lookup x.1.1 {v = hs} found in
          let divided = split_aliases e s.endpoints (to_list hs) in
          rw (found, remove_endpoint_aliases)
            (
              split_aliases-IsSorted e s.endpoints (to_list hs) x.0,
              rebucketed-IsIndex s.lookup (lookup_key e) divided.1 x.1
                  (split_aliases-IsIncreasing e s.endpoints (to_list hs) inc),
              λ k h.
                  is_indexed-rebucketed s.lookup (lookup_key e) k divided.1 h x.1.0
                  ∙ ground (
                    arith,
                    found,
                    has-split_aliases e s.endpoints (to_list hs) h x.0 inc,
                    get-split_aliases e s.endpoints (to_list hs) h x.0,
                    x.2 k h,
                    x.2 (lookup_key e) h,
                    same→eq k (lookup_key e),
                    alias_keyed e (get h s.endpoints) k,
                  ),
            )
    ]
