-- ===== src/IdCache/Retiring.antt =====
-- What the retirement of an instance leaves of the queue.
use Prim.Native.Nat.{ℕ, ◌<◌}
use mathlib.Core.Path.{◌≡◌, sym, ap}
use mathlib.Core.Logic.{inl, inr}
use mathlib.Core.Bool.{Bool, true, false, not, ◌&&◌}
use mathlib.Core.List.{List, [], ◌∷◌, ◌++◌}
use mathlib.Core.Option.{some}
use native.Mathlib.Omega.{arith}
use windows_kext_mod.Prelude.Tests.{if◌then◌else◌, Bool-cases}
use windows_kext_mod.Prelude.Lists.Append.{append_nil, append_one}
use windows_kext_mod.Prelude.Lists.{All}
use windows_kext_mod.Prelude.Order.{nat_ord}
use windows_kext_mod.Prelude.BTreeMap
use windows_kext_mod.Prelude.BTreeMap.{BTreeMap}
use windows_kext_mod.Key.{Key}
use windows_kext_mod.TcpClosureCache.RequestIds.{IsIncreasing}
use windows_kext_mod.IdCache.{
  Entry, Retirement, is_owned, find_entry, remove_entry, detach_entry, detach, retire_pending_id,
  retire_pending_ids,
}
use windows_kext_mod.IdCache.Ownership.{ids, owned}

module _ {P : Type 0} where
  abbrev pub AllBefore : List (Entry P) → ℕ → Type 0
  AllBefore [] n = Unit
  AllBefore (d ∷ ds) n = (d.id < n) × AllBefore ds n

  AllBefore-append :
      (ds : List (Entry P)) (e : Entry P) (n : ℕ)
      → AllBefore ds e.id
      → e.id < n
      → AllBefore (ds ++ e ∷ []) n
  AllBefore-append [] e n a h = (h, tt)
  AllBefore-append (d ∷ ds) e n a h = (omega (arith, a.0, h), AllBefore-append ds e n a.1 h)

  find_entry-append :
      (ds : List (Entry P)) (e : Entry P) (es : List (Entry P))
      → AllBefore ds e.id
      → find_entry e.id (ds ++ e ∷ es) ≡ some e
  find_entry-append [] e es a = ground arith
  find_entry-append (d ∷ ds) e es a = ground (arith, a.0, find_entry-append ds e es a.1)

  remove_entry-append :
      (ds : List (Entry P)) (e : Entry P) (es : List (Entry P))
      → AllBefore ds e.id
      → remove_entry e.id (ds ++ e ∷ es) ≡ ds ++ es
  remove_entry-append [] e es a = ground arith
  remove_entry-append (d ∷ ds) e es a = ground (arith, a.0, remove_entry-append ds e es a.1)

  detach_entry-append :
      (ds : List (Entry P)) (e : Entry P) (es : List (Entry P))
      → AllBefore ds e.id
      → detach_entry e.id (ds ++ e ∷ es) ≡ ds ++ detach e ∷ es
  detach_entry-append [] e es a = ground arith
  detach_entry-append (d ∷ ds) e es a = ground (arith, a.0, detach_entry-append ds e es a.1)

  abbrev pub Precedes : List (Entry P) → List (Entry P) → Type 0
  Precedes ds [] = Unit
  Precedes ds (e ∷ es) = AllBefore ds e.id × Precedes ds es

  Precedes-append :
      (ds : List (Entry P)) (d : Entry P) (es : List (Entry P))
      → Precedes ds es
      → AllBefore ds d.id
      → All (λ y. d.id < y) (ids es)
      → Precedes (ds ++ d ∷ []) es
  Precedes-append ds d [] p a b = tt
  Precedes-append ds d (e ∷ es) p a b =
      (AllBefore-append ds d e.id a b.0, Precedes-append ds d es p.1 a b.1)

  pub Precedes-nil : (es : List (Entry P)) → Precedes [] es
  Precedes-nil [] = tt
  Precedes-nil (e ∷ es) = (tt, Precedes-nil es)

module _ {P : Type 0} (survives : P → Key → Bool) (i : ℕ) where
  abbrev pub outlives : Entry P → Bool
  outlives e = survives e.value.packet e.value.key

  -- The queue without the packets that end with the instance; the others of the instance stay in
  -- their place, owned by none.
  abbrev pub retained : List (Entry P) → List (Entry P)
  retained [] = []
  retained (e ∷ es) =
      if is_owned i e
      then (if outlives e then detach e ∷ retained es else retained es)
      else e ∷ retained es

  abbrev pub ended : List (Entry P) → List (Entry P)
  ended [] = []
  ended (e ∷ es) = if is_owned i e && not (outlives e) then e ∷ ended es else ended es

  -- The requests that ended have no thread any more.
  abbrev pub without_threads : BTreeMap ℕ ℕ → List (Entry P) → BTreeMap ℕ ℕ
  without_threads m [] = m
  without_threads m (e ∷ es) = without_threads (BTreeMap.remove e.id m) es

  abbrev pub retire : Retirement P → List ℕ → Retirement P
  retire r xs = retire_pending_ids survives r i xs

  abbrev pub part : List (Entry P) → BTreeMap ℕ ℕ → List (Entry P) → Retirement P
  part values threads removed = record { values = values; threads = threads; removed = removed }

  -- One request of the instance, behind those that are settled.
  retire_pending_id_stays :
      (ds : List (Entry P)) (e : Entry P) (es : List (Entry P)) (threads : BTreeMap ℕ ℕ)
      (removed : List (Entry P))
      → AllBefore ds e.id
      → is_owned i e ≡ true
      → outlives e ≡ true
      → retire_pending_id survives (part (ds ++ e ∷ es) threads removed) e.id i
        ≡ part (ds ++ detach e ∷ es) threads removed
  unfolding retire_pending_id
  retire_pending_id_stays ds e es threads removed a own stays =
      ground (arith, find_entry-append ds e es a, own, stays, detach_entry-append ds e es a)

  retire_pending_id_ends :
      (ds : List (Entry P)) (e : Entry P) (es : List (Entry P)) (threads : BTreeMap ℕ ℕ)
      (removed : List (Entry P))
      → AllBefore ds e.id
      → is_owned i e ≡ true
      → outlives e ≡ false
      → retire_pending_id survives (part (ds ++ e ∷ es) threads removed) e.id i
        ≡ part (ds ++ es) (BTreeMap.remove e.id threads) (removed ++ e ∷ [])
  unfolding retire_pending_id
  retire_pending_id_ends ds e es threads removed a own ends =
      ground (arith, find_entry-append ds e es a, own, ends, remove_entry-append ds e es a)

  pub retire-part :
      (ds es : List (Entry P)) (threads : BTreeMap ℕ ℕ) (removed : List (Entry P))
      → Precedes ds es
      → IsIncreasing (ids es)
      → retire (part (ds ++ es) threads removed) (owned i es)
        ≡ part (ds ++ retained es) (without_threads threads (ended es)) (removed ++ ended es)
  unfolding retire_pending_ids
  retire-part ds [] threads removed p s = ap (part (ds ++ []) threads) (sym (append_nil removed))
  retire-part ds (e ∷ es) threads removed p s = elim (Bool-cases (is_owned i e)) [
    | inr other ↦
        let next = ds ++ e ∷ [] in
        let earlier = Precedes-append ds e es p.1 p.0 s.0 in
        rw (other, sym (append_one ds e es), sym (append_one ds e (retained es)))
          (retire-part next es threads removed earlier s.1)
    | inl own ↦ elim (Bool-cases (outlives e)) [
      | inl stays ↦
          let next = ds ++ detach e ∷ [] in
          let earlier = Precedes-append ds (detach e) es p.1 p.0 s.0 in
          rw
            (
              own,
              retire_pending_ids,
              stays,
              retire_pending_id_stays ds e es threads removed p.0 own stays,
              sym (append_one ds (detach e) es),
              sym (append_one ds (detach e) (retained es)),
            )
            (retire-part next es threads removed earlier s.1)
      | inr ends ↦
          rw
            (
              own,
              retire_pending_ids,
              ends,
              retire_pending_id_ends ds e es threads removed p.0 own ends,
              sym (append_one removed e (ended es)),
            )
            (retire-part ds es (BTreeMap.remove e.id threads) (removed ++ e ∷ []) p.1 s.1)
    ]
  ]
