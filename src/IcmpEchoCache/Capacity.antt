-- ===== src/IcmpEchoCache/Capacity.antt =====
-- The cache never grows beyond its bound.
use Prim.Native.Nat.{ℕ, ◌≤◌}
use mathlib.Core.Path.{◌≡◌}
use mathlib.Core.Logic.{inl, inr}
use mathlib.Core.List.{List, [], ◌∷◌}
use mathlib.Core.Option.{some}
use native.Mathlib.Omega.{arith}
use windows_kext_mod.Prelude.Tests.{Option-cases}
use windows_kext_mod.Prelude.Lists.{length}
use windows_kext_mod.Prelude.BTreeMap
use windows_kext_mod.Prelude.BTreeMap.{IsSorted}
use windows_kext_mod.Prelude.BTreeMap.Sorted.{insert-IsSorted, remove-IsSorted, retain-IsSorted}
use windows_kext_mod.Prelude.BTreeMap.Size.{
  length-insert-le, length-insert_present, length-remove-le, length-retain-le,
}
use windows_kext_mod.IcmpEchoCache.{
  EchoKey, echo_key_ord, EchoEntry, IcmpEchoCache, keep_live, insert_request, take_request_identity,
  clean_expired_entries,
}

pub data Event : Type 0 where
  requested : (key : EchoKey) (process_id thread_id now : ℕ) → Event
  replied : (key : EchoKey) (now : ℕ) → Event
  cleaned : (now : ℕ) → Event

abbrev pub CacheIsValid : IcmpEchoCache → Type 0
CacheIsValid m = IsSorted m × (length m ≤ 512)

abbrev pub step : IcmpEchoCache → Event → IcmpEchoCache
step m (requested key process_id thread_id now) = insert_request m key process_id thread_id now
step m (replied key now) = (take_request_identity m key now).0
step m (cleaned now) = clean_expired_entries m now

pub run : IcmpEchoCache → List Event → IcmpEchoCache
run m [] = m
run m (e ∷ es) = run (step m e) es

insert-CacheIsValid :
    (m : IcmpEchoCache) (key : EchoKey) (e : EchoEntry)
    → IsSorted m
    → length m ≤ 511
    → CacheIsValid (BTreeMap.insert key e m)
insert-CacheIsValid m key e s h =
    (insert-IsSorted key e m s, omega (arith, length-insert-le key e m))

replace-CacheIsValid :
    (m : IcmpEchoCache) (key : EchoKey) (e : EchoEntry) {old : EchoEntry}
    → CacheIsValid m
    → BTreeMap.get key m ≡ some old
    → CacheIsValid (BTreeMap.insert key e m)
replace-CacheIsValid m key e {old} v h =
    (insert-IsSorted key e m v.0, omega (arith, v.1, length-insert_present key e m {w = old} v.0 h))

insert_request-CacheIsValid :
    (m : IcmpEchoCache) (key : EchoKey) (process_id thread_id now : ℕ)
    → CacheIsValid m
    → CacheIsValid (insert_request m key process_id thread_id now)
unfolding insert_request
insert_request-CacheIsValid m key process_id thread_id now v =
    let entry : EchoEntry = record {
      process_id = process_id;
      thread_id = thread_id;
      inserted_at_ms = now;
    } in
    let retained = BTreeMap.retain (keep_live now) m in
    let sorted = retain-IsSorted (keep_live now) m v.0 in
    let fewer = length-retain-le (keep_live now) m in
    elim (Option-cases (BTreeMap.get key m)) [
      | inl absent ↦ ground (
        arith,
        v,
        sorted,
        fewer,
        insert-CacheIsValid m key entry v.0,
        insert-CacheIsValid retained key entry sorted,
      )
      | inr (old, found) ↦ ground (arith, v, replace-CacheIsValid m key entry {old = old} v found)
    ]

step-CacheIsValid : (m : IcmpEchoCache) (e : Event) → CacheIsValid m → CacheIsValid (step m e)
unfolding take_request_identity clean_expired_entries
step-CacheIsValid m (requested key process_id thread_id now) v =
    insert_request-CacheIsValid m key process_id thread_id now v
step-CacheIsValid m (replied key now) v =
    ground (arith, v, remove-IsSorted key m v.0, length-remove-le key m)
step-CacheIsValid m (cleaned now) v =
    (retain-IsSorted (keep_live now) m v.0, omega (arith, v.1, length-retain-le (keep_live now) m))

run_from : (m : IcmpEchoCache) (es : List Event) → CacheIsValid m → CacheIsValid (run m es)
unfolding run
run_from m [] v = v
run_from m (e ∷ es) v = run_from (step m e) es (step-CacheIsValid m e v)

-- Over any sequence of requests, replies and cleanups, the cache holds at most 512 entries, with
-- its keys in order.
pub run-CacheIsValid : (es : List Event) → CacheIsValid (run [] es)
run-CacheIsValid es = run_from [] es (tt, omega arith)
