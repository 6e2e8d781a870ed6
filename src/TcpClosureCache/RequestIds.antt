-- ===== src/TcpClosureCache/RequestIds.antt =====
-- The sorted request identities of a pending closure. `binary_search` on a sorted vector finds the
-- identity or its place, and the vector is changed there.
use Prim.Native.Nat.{ℕ, compare, ◌<◌, ◌≤◌}
use Prim.Native.Nat.Ordering.{lt, eq, gt}
use mathlib.Core.Path.{◌≡◌, refl, ◌∙◌}
use mathlib.Core.Bool.{Bool, true, false, ◌||◌}
use mathlib.Core.List.{List, [], ◌∷◌}
use native.Mathlib.Omega.{arith}
use windows_kext_mod.Prelude.Tests.{◌==◌, ltb, if◌then◌else◌}
use windows_kext_mod.Prelude.Lists.{All}

pub insert_id : ℕ → List ℕ → List ℕ
insert_id r [] = r ∷ []
insert_id r (x ∷ xs) = elim (compare r x) [
  | lt ↦ r ∷ x ∷ xs
  | eq ↦ x ∷ xs
  | gt ↦ x ∷ insert_id r xs
]

unfoldable pub remove_id : ℕ → List ℕ → List ℕ
remove_id r [] = []
remove_id r (x ∷ xs) = elim (compare r x) [ lt ↦ x ∷ xs | eq ↦ xs | gt ↦ x ∷ remove_id r xs ]

-- `sort_unstable`: equal numbers cannot be told apart, so that any sort gives this list.
pub place : ℕ → List ℕ → List ℕ
place r [] = r ∷ []
place r (x ∷ xs) = if ltb x r then x ∷ place r xs else r ∷ x ∷ xs

pub sort_unstable : List ℕ → List ℕ
sort_unstable [] = []
sort_unstable (x ∷ xs) = place x (sort_unstable xs)

-- `dedup`: of a run of equal numbers, one is kept.
abbrev pub unless_first : ℕ → List ℕ → List ℕ
unless_first x [] = x ∷ []
unless_first x (y ∷ ys) = if x == y then y ∷ ys else x ∷ y ∷ ys

pub dedup : List ℕ → List ℕ
dedup [] = []
dedup (x ∷ xs) = unless_first x (dedup xs)

abbrev pub has : ℕ → List ℕ → Bool
has p [] = false
has p (x ∷ xs) = p == x || has p xs

abbrev pub IsIncreasing : List ℕ → Type 0
IsIncreasing [] = Unit
IsIncreasing (x ∷ xs) = All (λ y. x < y) xs × IsIncreasing xs

abbrev IsAscending : List ℕ → Type 0
IsAscending [] = Unit
IsAscending (x ∷ xs) = All (λ y. x ≤ y) xs × IsAscending xs

All-trans : (x y : ℕ) (zs : List ℕ) → x ≤ y → All (λ z. y < z) zs → All (λ z. x < z) zs
All-trans x y [] h a = tt
All-trans x y (z ∷ zs) h a = (omega (arith, h, a.0), All-trans x y zs h a.1)

All-weaken : (x y : ℕ) (zs : List ℕ) → x ≤ y → All (λ z. y ≤ z) zs → All (λ z. x ≤ z) zs
All-weaken x y [] h a = tt
All-weaken x y (z ∷ zs) h a = (omega (arith, h, a.0), All-weaken x y zs h a.1)

pub has_above : (p x : ℕ) (xs : List ℕ) → p ≤ x → All (λ y. x < y) xs → has p xs ≡ false
has_above p x [] h a = refl
has_above p x (y ∷ ys) h a = ground (arith, has_above p x ys h a.1, a.0)

pub has-insert_id :
    (p r : ℕ) (xs : List ℕ) → has p (insert_id r xs) ≡ (if p == r then true else has p xs)
unfolding insert_id
has-insert_id p r [] = ground arith
has-insert_id p r (x ∷ xs) = ground (arith, has-insert_id p r xs)

All-insert_id :
    (x r : ℕ) (xs : List ℕ) → x < r → All (λ y. x < y) xs → All (λ y. x < y) (insert_id r xs)
unfolding insert_id
All-insert_id x r [] h a = (h, tt)
All-insert_id x r (y ∷ ys) h a = ground (arith, All-insert_id x r ys h a.1)

pub insert_id-IsIncreasing : (r : ℕ) (xs : List ℕ) → IsIncreasing xs → IsIncreasing (insert_id r xs)
unfolding insert_id
insert_id-IsIncreasing r [] s = (tt, tt)
insert_id-IsIncreasing r (x ∷ xs) s =
    ground (arith, insert_id-IsIncreasing r xs s.1, All-insert_id x r xs, All-trans r x xs)

pub has-remove_id :
    (p r : ℕ) (xs : List ℕ)
    → IsIncreasing xs
    → has p (remove_id r xs) ≡ (if p == r then false else has p xs)
unfolding remove_id
has-remove_id p r [] s = ground arith
has-remove_id p r (x ∷ xs) s =
    ground (arith, has-remove_id p r xs s.1, λ (h : p ≤ x). has_above p x xs h s.0)

All-remove_id : (x r : ℕ) (xs : List ℕ) → All (λ y. x < y) xs → All (λ y. x < y) (remove_id r xs)
unfolding remove_id
All-remove_id x r [] a = tt
All-remove_id x r (y ∷ ys) a = ground (arith, All-remove_id x r ys a.1)

pub remove_id-IsIncreasing : (r : ℕ) (xs : List ℕ) → IsIncreasing xs → IsIncreasing (remove_id r xs)
unfolding remove_id
remove_id-IsIncreasing r [] s = tt
remove_id-IsIncreasing r (x ∷ xs) s =
    ground (arith, remove_id-IsIncreasing r xs s.1, All-remove_id x r xs s.0)

has-place : (p r : ℕ) (xs : List ℕ) → has p (place r xs) ≡ (p == r || has p xs)
unfolding place
has-place p r [] = refl
has-place p r (x ∷ xs) = ground (arith, has-place p r xs)

has-sort_unstable : (p : ℕ) (xs : List ℕ) → has p (sort_unstable xs) ≡ has p xs
unfolding sort_unstable
has-sort_unstable p [] = refl
has-sort_unstable p (x ∷ xs) =
    ground (arith, has-place p x (sort_unstable xs), has-sort_unstable p xs)

All-place : (x r : ℕ) (xs : List ℕ) → x ≤ r → All (λ y. x ≤ y) xs → All (λ y. x ≤ y) (place r xs)
unfolding place
All-place x r [] h a = (h, tt)
All-place x r (y ∷ ys) h a = ground (arith, All-place x r ys h a.1)

place-IsAscending : (r : ℕ) (xs : List ℕ) → IsAscending xs → IsAscending (place r xs)
unfolding place
place-IsAscending r [] s = (tt, tt)
place-IsAscending r (x ∷ xs) s =
    ground (arith, place-IsAscending r xs s.1, All-place x r xs, All-weaken r x xs)

sort_unstable-IsAscending : (xs : List ℕ) → IsAscending (sort_unstable xs)
unfolding sort_unstable
sort_unstable-IsAscending [] = tt
sort_unstable-IsAscending (x ∷ xs) =
    place-IsAscending x (sort_unstable xs) (sort_unstable-IsAscending xs)

has-unless_first : (p x : ℕ) (xs : List ℕ) → has p (unless_first x xs) ≡ (p == x || has p xs)
has-unless_first p x [] = refl
has-unless_first p x (y ∷ ys) = ground arith

has-dedup : (p : ℕ) (xs : List ℕ) → has p (dedup xs) ≡ has p xs
unfolding dedup
has-dedup p [] = refl
has-dedup p (x ∷ xs) = ground (arith, has-unless_first p x (dedup xs), has-dedup p xs)

All-unless_first :
    (x y : ℕ) (ys : List ℕ) → x ≤ y → All (λ z. x ≤ z) ys → All (λ z. x ≤ z) (unless_first y ys)
All-unless_first x y [] h a = (h, tt)
All-unless_first x y (z ∷ zs) h a = ground arith

All-dedup : (x : ℕ) (ys : List ℕ) → All (λ y. x ≤ y) ys → All (λ y. x ≤ y) (dedup ys)
unfolding dedup
All-dedup x [] a = tt
All-dedup x (y ∷ ys) a = All-unless_first x y (dedup ys) a.0 (All-dedup x ys a.1)

unless_first-IsIncreasing :
    (x : ℕ) (ys : List ℕ) → All (λ y. x ≤ y) ys → IsIncreasing ys → IsIncreasing (unless_first x ys)
unless_first-IsIncreasing x [] a s = (tt, tt)
unless_first-IsIncreasing x (y ∷ ys) a s = ground (arith, All-trans x y ys a.0 s.0)

dedup-IsIncreasing : (xs : List ℕ) → IsAscending xs → IsIncreasing (dedup xs)
unfolding dedup
dedup-IsIncreasing [] s = tt
dedup-IsIncreasing (x ∷ xs) s =
    unless_first-IsIncreasing x (dedup xs) (All-dedup x xs s.0) (dedup-IsIncreasing xs s.1)

-- Sorting and dropping duplicates keeps the same identities, each once and in order.
pub dedup-sort_unstable_lem :
    (p : ℕ) (xs : List ℕ)
    → IsIncreasing (dedup (sort_unstable xs)) × (has p (dedup (sort_unstable xs)) ≡ has p xs)
dedup-sort_unstable_lem p xs = (
  dedup-IsIncreasing (sort_unstable xs) (sort_unstable-IsAscending xs),
  has-dedup p (sort_unstable xs) ∙ has-sort_unstable p xs,
)
