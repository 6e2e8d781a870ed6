-- ===== src/Prelude/Lists/Searches.antt =====
-- How searches and counts read after an append, a write to one element, and a filter.
use Prim.Native.Nat.{◌+◌, ◌≤◌}
use mathlib.Core.Path.{◌≡◌, refl}
use mathlib.Core.Bool.{Bool, true, false}
use mathlib.Core.List.{List, [], ◌∷◌, ◌++◌, map}
use mathlib.Core.Option.{none, some}
use native.Mathlib.Omega.{arith}
use windows_kext_mod.Prelude.Tests.{if◌then◌else◌}
use windows_kext_mod.Prelude.Lists.{find, update_first, filter, any, count}

module _ {ℓ} {A : Type ℓ} (test : A → Bool) where
  pub find-append :
      (xs : List A) (a : A)
      → find test (xs ++ a ∷ [])
        ≡ elim (find test xs) [ none ↦ if test a then some a else none | some x ↦ some x ]
  unfolding find
  find-append [] a = ground arith
  find-append (x ∷ xs) a = ground (arith, find-append xs a)

  pub find_passes : (xs : List A) {a : A} → find test xs ≡ some a → test a ≡ true
  unfolding find
  find_passes [] h = ground arith
  find_passes (x ∷ xs) {a} h = ground (arith, find_passes xs {a = a})

  pub count-append :
      (xs : List A) (a : A) → count test (xs ++ a ∷ []) ≡ count test xs + (if test a then 1 else 0)
  unfolding count
  count-append [] a = ground arith
  count-append (x ∷ xs) a = ground (arith, count-append xs a)

  pub count-none : (xs : List A) → find test xs ≡ none → count test xs ≡ 0
  unfolding find count
  count-none [] h = refl
  count-none (x ∷ xs) h = ground (arith, count-none xs)

  pub any-find : (xs : List A) → any test xs ≡ elim (find test xs) [ none ↦ false | some _ ↦ true ]
  unfolding find any
  any-find [] = refl
  any-find (x ∷ xs) = ground (arith, any-find xs)

  pub count-filter-le :
      (keep : A → Bool) (xs : List A) → count test (filter keep xs) ≤ count test xs
  unfolding count filter
  count-filter-le keep [] = omega arith
  count-filter-le keep (x ∷ xs) = ground (arith, count-filter-le keep xs)

  -- Writes that add no element to those that pass.
  pub count-update_first-le :
      (select : A → Bool) (f : A → A)
      → ((a : A) → select a ≡ true → test (f a) ≡ true → test a ≡ true)
      → (xs : List A) → count test (update_first select f xs) ≤ count test xs
  unfolding count update_first
  count-update_first-le select f h [] = omega arith
  count-update_first-le select f h (x ∷ xs) =
      ground (arith, count-update_first-le select f h xs, h x)

  pub count-map-le :
      (f : A → A)
      → ((a : A) → test (f a) ≡ true → test a ≡ true)
      → (xs : List A) → count test (map f xs) ≤ count test xs
  unfolding count
  count-map-le f h [] = omega arith
  count-map-le f h (x ∷ xs) = ground (arith, count-map-le f h xs, h x)

  pub update_first-none :
      (f : A → A) (xs : List A) → find test xs ≡ none → update_first test f xs ≡ xs
  unfolding find update_first
  update_first-none f [] h = refl
  update_first-none f (x ∷ xs) h = ground (arith, update_first-none f xs)

  pub update_first-nil : (f : A → A) → update_first test f [] ≡ []
  unfolding update_first
  update_first-nil f = refl

  pub find-update_first :
      (f : A → A) (xs : List A)
      → ((a : A) → test (f a) ≡ test a)
      → find test (update_first test f xs)
        ≡ elim (find test xs) [ none ↦ none | some a ↦ some (f a) ]
  unfolding find update_first
  find-update_first f [] h = refl
  find-update_first f (x ∷ xs) h = ground (arith, find-update_first f xs h, h x)

module _ {ℓ} {A : Type ℓ} (test select : A → Bool) where
  find_of_count : (xs : List A) → count test xs ≡ 0 → find test xs ≡ none
  unfolding find count
  find_of_count [] h = refl
  find_of_count (x ∷ xs) h = ground (arith, find_of_count xs)

  count_pos :
      (xs : List A) {a : A}
      → ((x : A) → select x ≡ true → test x ≡ true)
      → find select xs ≡ some a
      → 1 ≤ count test xs
  unfolding find count
  count_pos [] i h = cc
  count_pos (x ∷ xs) {a} i h = ground (arith, count_pos xs {a = a} i, i x)

  -- Where at most one element passes, and a write takes the selected one out, none is left.
  pub find-update_first_out :
      (f : A → A) (xs : List A) {a : A}
      → ((x : A) → select x ≡ true → test x ≡ true)
      → ((x : A) → test (f x) ≡ false)
      → count test xs ≤ 1
      → find select xs ≡ some a
      → find test (update_first select f xs) ≡ none
  unfolding find count update_first
  find-update_first_out f [] i out u h = cc
  find-update_first_out f (x ∷ xs) {a} i out u h = ground (
    arith,
    find-update_first_out f xs {a = a} i out,
    i x,
    out x,
    find_of_count xs,
    i a,
    count_pos xs {a = a} i,
    find_passes select xs {a = a},
  )

  -- Where at most one element passes, a selected one that passes is the one that a search finds.
  pub find_the_one :
      (xs : List A) {a : A}
      → ((x : A) → select x ≡ true → test x ≡ true)
      → count test xs ≤ 1
      → find select xs ≡ some a
      → find test xs ≡ some a
  unfolding find count
  find_the_one [] i u h = cc
  find_the_one (x ∷ xs) {a} i u h =
      ground (arith, find_the_one xs {a = a} i, count_pos xs {a = a} i, i x)
