-- ===== src/Prelude/Order.antt =====
-- Ordered keys, as `BTreeMap` wants them: a comparison with the laws that Rust's `Ord` asks for.
pub mod Derived
use Prim.Native.Nat.{ℕ, compare, Ordering}
use Prim.Native.Nat.Ordering.{lt, eq, gt}
use mathlib.Core.Path.{◌≡◌}
use mathlib.Core.Bool.{Bool, true, false}
use native.Mathlib.Omega.{arith}

pub record Ord {ℓ} (K : Type ℓ) : Type ℓ where
  pub cmp : K → K → Ordering
  pub cmp_refl : (a : K) → cmp a a ≡ eq
  pub eq_of_cmp : (a b : K) → cmp a b ≡ eq → a ≡ b
  pub gt_of_lt : (a b : K) → cmp a b ≡ lt → cmp b a ≡ gt
  pub lt_of_gt : (a b : K) → cmp a b ≡ gt → cmp b a ≡ lt
  pub lt_trans : (a b c : K) → cmp a b ≡ lt → cmp b c ≡ lt → cmp a c ≡ lt

pub compare_refl : (a : ℕ) → compare a a ≡ eq
compare_refl a = ground arith

pub eq_of_compare : (a b : ℕ) → compare a b ≡ eq → a ≡ b
eq_of_compare a b h = ground arith

pub gt_of_compare-lt : (a b : ℕ) → compare a b ≡ lt → compare b a ≡ gt
gt_of_compare-lt a b h = ground arith

pub lt_of_compare-gt : (a b : ℕ) → compare a b ≡ gt → compare b a ≡ lt
lt_of_compare-gt a b h = ground arith

pub compare-lt_trans : (a b c : ℕ) → compare a b ≡ lt → compare b c ≡ lt → compare a c ≡ lt
compare-lt_trans a b c p q = ground arith

-- Whether two keys are one.
abbrev pub same {ℓ} : {K : Type ℓ} ⦃o : Ord K⦄ → K → K → Bool
same ⦃o⦄ a b = elim (o.cmp a b) [ eq ↦ true | _ ↦ false ]

instance abbrev pub nat_ord : Ord ℕ
nat_ord = record {
  cmp = compare;
  cmp_refl = compare_refl;
  eq_of_cmp = eq_of_compare;
  gt_of_lt = gt_of_compare-lt;
  lt_of_gt = lt_of_compare-gt;
  lt_trans = compare-lt_trans;
}

abbrev pub then_with : Ordering → Ordering → Ordering
then_with lt second = lt
then_with eq second = second
then_with gt second = gt

-- Pairs and two-field structs compare field by field.
module _ {ℓ κ} {A : Type ℓ} {B : Type κ} ⦃a : Ord A⦄ ⦃b : Ord B⦄ where
  abbrev pub pair_cmp : A × B → A × B → Ordering
  pair_cmp x y = then_with (a.cmp x.0 y.0) (b.cmp x.1 y.1)

  pub pair_refl : (x : A × B) → pair_cmp x x ≡ eq
  pair_refl x = ground (arith, a.cmp_refl x.0, b.cmp_refl x.1)

  pub pair_eq : (x y : A × B) → pair_cmp x y ≡ eq → x ≡ y
  pair_eq x y h = ground (arith, a.eq_of_cmp x.0 y.0, b.eq_of_cmp x.1 y.1)

  pub pair_gt : (x y : A × B) → pair_cmp x y ≡ lt → pair_cmp y x ≡ gt
  pair_gt x y h =
      ground (arith, a.eq_of_cmp x.0 y.0, a.cmp_refl x.0, a.gt_of_lt x.0 y.0, b.gt_of_lt x.1 y.1)

  pub pair_lt : (x y : A × B) → pair_cmp x y ≡ gt → pair_cmp y x ≡ lt
  pair_lt x y h =
      ground (arith, a.eq_of_cmp x.0 y.0, a.cmp_refl x.0, a.lt_of_gt x.0 y.0, b.lt_of_gt x.1 y.1)

  pub pair_trans : (x y z : A × B) → pair_cmp x y ≡ lt → pair_cmp y z ≡ lt → pair_cmp x z ≡ lt
  pair_trans x y z p q = ground (
    arith,
    a.eq_of_cmp x.0 y.0,
    a.eq_of_cmp y.0 z.0,
    a.cmp_refl x.0,
    a.lt_trans x.0 y.0 z.0,
    b.lt_trans x.1 y.1 z.1,
  )

  instance abbrev pub pair_ord : Ord (A × B)
  pair_ord = record {
    cmp = pair_cmp;
    cmp_refl = pair_refl;
    eq_of_cmp = pair_eq;
    gt_of_lt = pair_gt;
    lt_of_gt = pair_lt;
    lt_trans = pair_trans;
  }

module _ {ℓ} {K : Type ℓ} ⦃o : Ord K⦄ where
  pub same→eq : (a b : K) → same a b ≡ true → a ≡ b
  same→eq a b h = ground (arith, o.eq_of_cmp a b)

  pub same_refl : (a : K) → same a a ≡ true
  same_refl a = ground (arith, o.cmp_refl a)
