-- ===== src/Protocol/Slices.antt =====
-- Ranges of byte slices, as `slice.get(a..b)` reads them.
use Prim.Native.Nat.{ℕ, ◌+◌}
use mathlib.Core.Path.{◌≡◌, refl, ◌∙◌}
use mathlib.Core.List.{List, [], ◌∷◌, ◌++◌}
use mathlib.Core.Option.{Option, none, some}
use native.Mathlib.Nat.{suc-add}
use native.Mathlib.Omega.{arith}
use windows_kext_mod.Prelude.Tests.{leb, if◌then◌else◌}
use windows_kext_mod.Prelude.Lists.{length, take, drop, get_elem?, length-append}

-- `bytes.get(offset..offset + n)`
unfoldable pub range : List ℕ → ℕ → ℕ → Option (List ℕ)
range bytes offset n =
    if leb (offset + n) (length bytes) then some (take n (drop offset bytes)) else none

pub take-append : (xs ys : List ℕ) → take (length xs) (xs ++ ys) ≡ xs
take-append [] ys = refl
take-append (x ∷ xs) ys = ground (arith, take-append xs ys)

pub drop-append : (xs ys : List ℕ) → drop (length xs) (xs ++ ys) ≡ ys
drop-append [] ys = refl
drop-append (x ∷ xs) ys = drop-append xs ys

pub range_here : (xs ys : List ℕ) → range (xs ++ ys) 0 (length xs) ≡ some xs
unfolding range
range_here xs ys = ground (arith, take-append xs ys, length-append xs ys)

drop-append_add : (xs ys : List ℕ) (n : ℕ) → drop (length xs + n) (xs ++ ys) ≡ drop n ys
drop-append_add [] ys n = ground arith
drop-append_add (x ∷ xs) ys n = rw suc-add (drop-append_add xs ys n)

pub range_skip :
    (xs ys : List ℕ) (offset n : ℕ) → range (xs ++ ys) (length xs + offset) n ≡ range ys offset n
unfolding range
range_skip xs ys offset n = ground (arith, drop-append_add xs ys offset, length-append xs ys)

range_here_of : (xs ys : List ℕ) (n : ℕ) → length xs ≡ n → range (xs ++ ys) 0 n ≡ some xs
range_here_of xs ys n h = rw (← h) (range_here xs ys)

range_skip_of :
    (xs ys : List ℕ) (offset n : ℕ) → length xs ≡ offset → range (xs ++ ys) offset n ≡ range ys 0 n
range_skip_of xs ys offset n h =
    let e : offset ≡ length xs + 0 = omega arith in rw e (range_skip xs ys 0 n)

-- The range that a part of a slice occupies, between what stands before and after it.
pub range_at :
    (bytes xs ys zs : List ℕ) (offset n : ℕ)
    → bytes ≡ xs ++ (ys ++ zs)
    → length xs ≡ offset
    → length ys ≡ n
    → range bytes offset n ≡ some ys
range_at bytes xs ys zs offset n e h k =
    rw e (range_skip_of xs (ys ++ zs) offset n h ∙ range_here_of ys zs n k)

get_elem?-append : (xs zs : List ℕ) (y : ℕ) → get_elem? (xs ++ y ∷ zs) (length xs) ≡ some y
get_elem?-append [] zs y = refl
get_elem?-append (x ∷ xs) zs y = get_elem?-append xs zs y

pub get_elem?_at :
    (bytes xs zs : List ℕ) (y offset : ℕ)
    → bytes ≡ xs ++ y ∷ zs
    → length xs ≡ offset
    → get_elem? bytes offset ≡ some y
get_elem?_at bytes xs zs y offset e h = rw (e, ← h) (get_elem?-append xs zs y)
