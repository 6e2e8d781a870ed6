-- ===== src/Prelude/Bytes.antt =====
-- Byte arrays as lists of numbers: equality, and the fixed-width integers that they encode.
use Prim.Native.Nat.{ℕ, zero, suc, ◌+◌, ◌*◌, ◌/◌, ◌%◌, ◌^◌, ◌<◌}
use mathlib.Core.Path.{◌≡◌, refl}
use mathlib.Core.Bool.{Bool, true, false, ◌&&◌}
use mathlib.Core.List.{List, [], ◌∷◌}
use native.Mathlib.Nat.{pow-suc}
use native.Mathlib.Omega.{arith}
use windows_kext_mod.Prelude.Tests.{◌==◌}
use windows_kext_mod.Prelude.Lists.{length, All}

abbrev pub IsByte : ℕ → Type 0
IsByte b = b < 256

abbrev pub IsBytes : List ℕ → Type 0
IsBytes bs = All IsByte bs

-- `==` on arrays and slices of bytes
unfoldable pub bytes_eq : List ℕ → List ℕ → Bool
bytes_eq [] [] = true
bytes_eq [] (b ∷ bs) = false
bytes_eq (a ∷ as') [] = false
bytes_eq (a ∷ as') (b ∷ bs) = (a == b) && bytes_eq as' bs

pub bytes_eq→eq : (xs ys : List ℕ) → bytes_eq xs ys ≡ true → xs ≡ ys
unfolding bytes_eq
bytes_eq→eq [] [] h = refl
bytes_eq→eq [] (b ∷ bs) h = ground arith
bytes_eq→eq (a ∷ xs) [] h = ground arith
bytes_eq→eq (a ∷ xs) (b ∷ bs) h = ground (arith, bytes_eq→eq xs bs)

pub bytes_eq_refl : (xs : List ℕ) → bytes_eq xs xs ≡ true
unfolding bytes_eq
bytes_eq_refl [] = refl
bytes_eq_refl (a ∷ xs) = ground (arith, bytes_eq_refl xs)

-- `from_be_bytes`, with the bytes read so far in `acc`
unfoldable pub from_be : ℕ → List ℕ → ℕ
from_be acc [] = acc
from_be acc (b ∷ bs) = from_be (acc * 256 + b) bs

from_be_injective_from :
    (xs ys : List ℕ) (p q : ℕ)
    → length xs ≡ length ys
    → IsBytes xs
    → IsBytes ys
    → from_be p xs ≡ from_be q ys
    → (p ≡ q) × (xs ≡ ys)
unfolding from_be
from_be_injective_from [] [] p q l hx hy e = (e, refl)
from_be_injective_from [] (b ∷ bs) p q l hx hy e = absurd (omega arith)
from_be_injective_from (a ∷ xs) [] p q l hx hy e = absurd (omega arith)
from_be_injective_from (a ∷ xs) (b ∷ ys) p q l hx hy e =
    ground
      (arith, from_be_injective_from xs ys (p * 256 + a) (q * 256 + b) (omega arith) hx.1 hy.1 e)

-- Arrays of one length with equal big-endian values are equal.
pub from_be_injective :
    (xs ys : List ℕ)
    → length xs ≡ length ys
    → IsBytes xs
    → IsBytes ys
    → from_be 0 xs ≡ from_be 0 ys
    → xs ≡ ys
from_be_injective xs ys l hx hy e = (from_be_injective_from xs ys 0 0 l hx hy e).1

-- `to_le_bytes` of an integer of `w` bytes, and `from_le_bytes`.
unfoldable pub to_le : ℕ → ℕ → List ℕ
to_le zero n = []
to_le (suc w) n = (n % 256) ∷ to_le w (n / 256)

unfoldable pub from_le : List ℕ → ℕ
from_le [] = 0
from_le (b ∷ bs) = b + 256 * from_le bs

pub length-to_le : (w n : ℕ) → length (to_le w n) ≡ w
unfolding to_le
length-to_le zero n = refl
length-to_le (suc w) n = omega (arith, length-to_le w (n / 256))

pub to_le-IsBytes : (w n : ℕ) → IsBytes (to_le w n)
unfolding to_le
to_le-IsBytes zero n = tt
to_le-IsBytes (suc w) n = (omega arith, to_le-IsBytes w (n / 256))

pub from_le-to_le : (w n : ℕ) → n < 256 ^ w → from_le (to_le w n) ≡ n
unfolding to_le from_le
from_le-to_le zero n h = omega arith
from_le-to_le (suc w) n h = omega (arith, from_le-to_le w (n / 256) (omega (arith, pow-suc 256 w)))

remainder : (b n : ℕ) → b < 256 → (b + 256 * n) % 256 ≡ b
remainder b n h = omega arith

quotient : (b n : ℕ) → b < 256 → (b + 256 * n) / 256 ≡ n
quotient b n h = omega arith

pub to_le-from_le : (bs : List ℕ) → IsBytes bs → to_le (length bs) (from_le bs) ≡ bs
unfolding to_le from_le
to_le-from_le [] h = refl
to_le-from_le (b ∷ bs) h =
    ground (arith, quotient b (from_le bs) h.0, remainder b (from_le bs) h.0, to_le-from_le bs h.1)
