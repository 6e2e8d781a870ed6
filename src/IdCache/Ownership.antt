-- ===== src/IdCache/Ownership.antt =====
-- The identities of the queued packets that a connection instance owns.
use Prim.Native.Nat.{ℕ, ◌<◌, ◌≤◌}
use mathlib.Core.Path.{◌≡◌, refl}
use mathlib.Core.Bool.{false}
use mathlib.Core.List.{List, [], ◌∷◌, ◌++◌}
use mathlib.Core.Option.{some}
use native.Mathlib.Omega.{arith}
use windows_kext_mod.Prelude.Tests.{if◌then◌else◌}
use windows_kext_mod.Prelude.Lists.{All}
use windows_kext_mod.TcpClosureCache.RequestIds.{has, has_above, remove_id, IsIncreasing}
use windows_kext_mod.IdCache.{Entry, is_owned, find_entry, remove_entry, detach_entry}

pub remove_id_above : (r : ℕ) (xs : List ℕ) → All (λ x. r < x) xs → remove_id r xs ≡ xs
unfolding remove_id
remove_id_above r [] a = refl
remove_id_above r (x ∷ xs) a = ground arith

pub remove_id_absent : (r : ℕ) (xs : List ℕ) → has r xs ≡ false → remove_id r xs ≡ xs
unfolding remove_id
remove_id_absent r [] h = refl
remove_id_absent r (x ∷ xs) h = ground (arith, remove_id_absent r xs)

All-below : (r x : ℕ) (ys : List ℕ) → r ≤ x → All (λ y. x < y) ys → All (λ y. r < y) ys
All-below r x [] h a = tt
All-below r x (y ∷ ys) h a = (omega (arith, h, a.0), All-below r x ys h a.1)

module _ {P : Type 0} where
  abbrev pub ids : List (Entry P) → List ℕ
  ids [] = []
  ids (e ∷ es) = e.id ∷ ids es

  abbrev pub owned : ℕ → List (Entry P) → List ℕ
  owned i [] = []
  owned i (e ∷ es) = if is_owned i e then e.id ∷ owned i es else owned i es

  All-owned :
      (x i : ℕ) (es : List (Entry P)) → All (λ y. x < y) (ids es) → All (λ y. x < y) (owned i es)
  All-owned x i [] a = tt
  All-owned x i (e ∷ es) a = ground (arith, All-owned x i es a.1)

  -- An identity before those of a queue is not in it.
  remove_id_before :
      (i r x : ℕ) (es : List (Entry P))
      → r ≤ x
      → All (λ y. x < y) (ids es)
      → remove_id r (owned i es) ≡ owned i es
  remove_id_before i r x es h a =
      remove_id_above r (owned i es) (All-below r x (owned i es) h (All-owned x i es a))

  has_before :
      (i r x : ℕ) (es : List (Entry P))
      → r ≤ x
      → All (λ y. x < y) (ids es)
      → has r (owned i es) ≡ false
  has_before i r x es h a = has_above r x (owned i es) h (All-owned x i es a)

  pub owned-IsIncreasing :
      (i : ℕ) (es : List (Entry P)) → IsIncreasing (ids es) → IsIncreasing (owned i es)
  owned-IsIncreasing i [] s = tt
  owned-IsIncreasing i (e ∷ es) s =
      ground (arith, owned-IsIncreasing i es s.1, All-owned e.id i es s.0)

  pub owned-append :
      (i : ℕ) (es es' : List (Entry P)) → owned i (es ++ es') ≡ owned i es ++ owned i es'
  owned-append i [] es' = refl
  owned-append i (e ∷ es) es' = ground (arith, owned-append i es es')

  pub ids-remove_entry :
      (id : ℕ) (es : List (Entry P))
      → IsIncreasing (ids es)
      → ids (remove_entry id es) ≡ remove_id id (ids es)
  unfolding remove_id
  ids-remove_entry id [] s = refl
  ids-remove_entry id (e ∷ es) s = ground (
    arith,
    ids-remove_entry id es s.1,
    λ (h : id ≤ e.id). remove_id_above id (ids es) (All-below id e.id (ids es) h s.0),
  )

  pub ids-detach_entry : (id : ℕ) (es : List (Entry P)) → ids (detach_entry id es) ≡ ids es
  ids-detach_entry id [] = refl
  ids-detach_entry id (e ∷ es) = ground (arith, ids-detach_entry id es)

  pub owned-remove_entry :
      (i id : ℕ) (es : List (Entry P))
      → IsIncreasing (ids es)
      → owned i (remove_entry id es) ≡ remove_id id (owned i es)
  unfolding remove_id
  owned-remove_entry i id [] s = refl
  owned-remove_entry i id (e ∷ es) s = ground (
    arith,
    owned-remove_entry i id es s.1,
    λ (h : id ≤ e.id). remove_id_before i id e.id es h s.0,
  )

  pub owned-detach_entry :
      (i id : ℕ) (es : List (Entry P))
      → IsIncreasing (ids es)
      → owned i (detach_entry id es) ≡ remove_id id (owned i es)
  unfolding remove_id
  owned-detach_entry i id [] s = refl
  owned-detach_entry i id (e ∷ es) s = ground (
    arith,
    owned-detach_entry i id es s.1,
    λ (h : id ≤ e.id). remove_id_before i id e.id es h s.0,
  )

  -- The owner of a queued packet is the only instance whose identities contain it.
  pub has-owned :
      (i id : ℕ) (es : List (Entry P)) {v : Entry P}
      → IsIncreasing (ids es)
      → find_entry id es ≡ some v
      → has id (owned i es) ≡ is_owned i v
  has-owned i id [] s found = absurd (ground arith)
  has-owned i id (e ∷ es) {v} s found =
      ground
        (arith, has-owned i id es {v = v} s.1, λ (h : id ≤ e.id). has_before i id e.id es h s.0)
