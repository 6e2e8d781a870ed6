-- ===== src/Prelude/Order/Derived.antt =====
-- The derived orders of Rust: of slices, entry by entry, and of structs, by their fields as a tuple.
use Prim.Native.Nat.{Ordering}
use Prim.Native.Nat.Ordering.{lt, eq, gt}
use mathlib.Core.Path.{◌≡◌, refl}
use mathlib.Core.List.{List, [], ◌∷◌}
use native.Mathlib.Omega.{arith}
use windows_kext_mod.Prelude.Order.{Ord, then_with}

module _ {ℓ} {A : Type ℓ} ⦃o : Ord A⦄ where
  unfoldable pub list_cmp : List A → List A → Ordering
  list_cmp [] [] = eq
  list_cmp [] (y ∷ ys) = lt
  list_cmp (x ∷ xs) [] = gt
  list_cmp (x ∷ xs) (y ∷ ys) = then_with (o.cmp x y) (list_cmp xs ys)

  pub list_refl : (xs : List A) → list_cmp xs xs ≡ eq
  unfolding list_cmp
  list_refl [] = refl
  list_refl (x ∷ xs) = ground (arith, list_refl xs, o.cmp_refl x)

  pub list_eq : (xs ys : List A) → list_cmp xs ys ≡ eq → xs ≡ ys
  unfolding list_cmp
  list_eq [] [] h = refl
  list_eq [] (y ∷ ys) h = absurd (ground arith)
  list_eq (x ∷ xs) [] h = absurd (ground arith)
  list_eq (x ∷ xs) (y ∷ ys) h = ground (arith, list_eq xs ys, o.eq_of_cmp x y)

  pub list_gt : (xs ys : List A) → list_cmp xs ys ≡ lt → list_cmp ys xs ≡ gt
  unfolding list_cmp
  list_gt [] [] h = absurd (ground arith)
  list_gt [] (y ∷ ys) h = refl
  list_gt (x ∷ xs) [] h = absurd (ground arith)
  list_gt (x ∷ xs) (y ∷ ys) h =
      ground (arith, list_gt xs ys, o.eq_of_cmp x y, o.cmp_refl x, o.gt_of_lt x y)

  pub list_lt : (xs ys : List A) → list_cmp xs ys ≡ gt → list_cmp ys xs ≡ lt
  unfolding list_cmp
  list_lt [] [] h = absurd (ground arith)
  list_lt [] (y ∷ ys) h = absurd (ground arith)
  list_lt (x ∷ xs) [] h = refl
  list_lt (x ∷ xs) (y ∷ ys) h =
      ground (arith, list_lt xs ys, o.eq_of_cmp x y, o.cmp_refl x, o.lt_of_gt x y)

  pub list_trans :
      (xs ys zs : List A) → list_cmp xs ys ≡ lt → list_cmp ys zs ≡ lt → list_cmp xs zs ≡ lt
  unfolding list_cmp
  list_trans [] [] zs h k = absurd (ground arith)
  list_trans [] (y ∷ ys) [] h k = absurd (ground arith)
  list_trans [] (y ∷ ys) (z ∷ zs) h k = refl
  list_trans (x ∷ xs) [] zs h k = absurd (ground arith)
  list_trans (x ∷ xs) (y ∷ ys) [] h k = absurd (ground arith)
  list_trans (x ∷ xs) (y ∷ ys) (z ∷ zs) h k =
      ground (
        arith,
        list_trans xs ys zs,
        o.eq_of_cmp x y,
        o.eq_of_cmp y z,
        o.cmp_refl x,
        o.lt_trans x y z,
      )

  instance unfoldable pub list_ord : Ord (List A)
  list_ord = record {
    cmp = list_cmp;
    cmp_refl = list_refl;
    eq_of_cmp = list_eq;
    gt_of_lt = list_gt;
    lt_of_gt = list_lt;
    lt_trans = list_trans;
  }

-- The order by a view that tells any two values apart.
unfoldable pub by_view {ℓ κ} :
    {A : Type ℓ} {B : Type κ} ⦃o : Ord B⦄ (view : A → B)
    → ((a b : A) → view a ≡ view b → a ≡ b)
    → Ord A
by_view ⦃o⦄ view injective = record {
  cmp = λ a b. o.cmp (view a) (view b);
  cmp_refl = λ a. o.cmp_refl (view a);
  eq_of_cmp = λ a b h. injective a b (o.eq_of_cmp (view a) (view b) h);
  gt_of_lt = λ a b h. o.gt_of_lt (view a) (view b) h;
  lt_of_gt = λ a b h. o.lt_of_gt (view a) (view b) h;
  lt_trans = λ a b c h k. o.lt_trans (view a) (view b) (view c) h k;
}
