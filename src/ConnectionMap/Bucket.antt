-- ===== src/ConnectionMap/Bucket.antt =====
-- `enum ConnectionBucket`: one connection inline, or a vector of them.
use Prim.Native.Nat.{ℕ}
use mathlib.Core.Path.{◌≡◌, refl}
use mathlib.Core.Bool.{Bool, true, false}
use mathlib.Core.List.{List, [], ◌∷◌, ◌++◌}
use native.Mathlib.Omega.{arith}
use windows_kext_mod.Prelude.Tests.{if◌then◌else◌}
use windows_kext_mod.Prelude.Lists.{All, length, update_first, filter}

pub data Bucket (T : Type 0) : Type 0 where
  one : T → Bucket T
  multiple : List T → Bucket T

module _ {T : Type 0} where
  -- `iter`, and the list that `iter_mut` walks
  abbrev pub iter : Bucket T → List T
  iter (one c) = c ∷ []
  iter (multiple cs) = cs

  unfoldable pub push : Bucket T → T → Bucket T
  push (one previous) c = multiple (previous ∷ c ∷ [])
  push (multiple cs) c = multiple (cs ++ c ∷ [])

  -- What `retain` leaves of a vector: a single survivor moves inline.
  pub shrink : List T → Bucket T × Bool
  shrink [] = (multiple [], false)
  shrink (c ∷ []) = (one c, true)
  shrink (c ∷ d ∷ cs) = (multiple (c ∷ d ∷ cs), true)

  -- The bucket after `retain`, and whether it still holds anything. An inline connection that
  -- fails the test stays in the bucket, which its owner then drops.
  unfoldable pub retain : (T → Bool) → Bucket T → Bucket T × Bool
  unfolding shrink
  retain test (one c) = (one c, test c)
  retain test (multiple cs) = shrink (filter test cs)

  unfoldable pub len : Bucket T → ℕ
  len (one c) = 1
  len (multiple cs) = length cs

  -- `iter_mut().find(test)` and a write through the reference
  unfoldable pub modify : (T → Bool) → (T → T) → Bucket T → Bucket T
  unfolding update_first
  modify test f (one c) = one (if test c then f c else c)
  modify test f (multiple cs) = multiple (update_first test f cs)

  -- `iter_mut` over the whole bucket with a write at every connection
  unfoldable pub modify_all : (T → T) → Bucket T → Bucket T
  modify_all f (one c) = one (f c)
  modify_all f (multiple cs) = multiple (mathlib.Core.List.map f cs)

  pub iter-push : (b : Bucket T) (c : T) → iter (push b c) ≡ iter b ++ c ∷ []
  unfolding push
  iter-push (one d) c = refl
  iter-push (multiple cs) c = refl

  -- What is left of a bucket that may have been dropped.
  abbrev pub survivors : Bucket T × Bool → List T
  survivors (b, kept) = if kept then iter b else []

  iter-shrink : (cs : List T) → survivors (shrink cs) ≡ cs
  unfolding shrink
  iter-shrink [] = refl
  iter-shrink (c ∷ []) = refl
  iter-shrink (c ∷ d ∷ cs) = refl

  -- A bucket reported as not empty holds something.
  pub shrink-ne-nil : (cs : List T) → (shrink cs).1 ≡ true → iter (shrink cs).0 ≡ [] → ⊥
  unfolding shrink
  shrink-ne-nil [] k q = cc
  shrink-ne-nil (c ∷ []) k q = cc
  shrink-ne-nil (c ∷ d ∷ cs) k q = cc

  pub All-shrink : (P : T → Type 0) (cs : List T) → All P cs → All P (iter (shrink cs).0)
  unfolding shrink
  All-shrink P [] a = a
  All-shrink P (c ∷ []) a = a
  All-shrink P (c ∷ d ∷ cs) a = a

  pub iter-retain :
      (test : T → Bool) (b : Bucket T) → survivors (retain test b) ≡ filter test (iter b)
  unfolding retain filter
  iter-retain test (one c) = ground arith
  iter-retain test (multiple cs) = iter-shrink (filter test cs)

  pub iter-modify :
      (test : T → Bool) (f : T → T) (b : Bucket T)
      → iter (modify test f b) ≡ update_first test f (iter b)
  unfolding modify
  iter-modify test f (one c) = ground arith
  iter-modify test f (multiple cs) = refl

  pub len_lem : (b : Bucket T) → len b ≡ length (iter b)
  unfolding len
  len_lem (one c) = refl
  len_lem (multiple cs) = refl
