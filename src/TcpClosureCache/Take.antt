-- ===== src/TcpClosureCache/Take.antt =====
-- Closures are inserted once per generation, and taken when nothing they wait for is outstanding.
use Prim.Native.Nat.{ℕ}
use mathlib.Core.Path.{◌≡◌, refl, sym, ◌∙◌, ap}
use mathlib.Core.Bool.{Bool, true, false}
use mathlib.Core.List.{List, [], ◌∷◌}
use mathlib.Core.Option.{Option, none, some}
use native.Mathlib.Omega.{arith}
use windows_kext_mod.Prelude.Tests.{if◌then◌else◌}
use windows_kext_mod.Prelude.BTreeMap
use windows_kext_mod.Prelude.BTreeMap.Sorted.{insert-IsSorted}
use windows_kext_mod.Prelude.Order.{nat_ord, same, same→eq}
use windows_kext_mod.Key.{Platform}
use windows_kext_mod.TcpClosureCache.{
  TcpClosureCache, TcpEndpointConnection, PendingTcpClosure, take_ready, is_empty,
}
use windows_kext_mod.TcpClosureCache.RequestIds.{dedup-sort_unstable_lem, has, IsIncreasing}
use windows_kext_mod.TcpClosureCache.{insert, new}
use windows_kext_mod.TcpClosureCache.Events.{
  Event, run, run-waits, outstanding, EntriesAreValid, ClosuresAreValid, waits, waits_after,
}

waits_for_none : (xs : List ℕ) → ((p : ℕ) → has p xs ≡ false) → is_empty xs ≡ true
waits_for_none [] h = refl
waits_for_none (x ∷ xs) h = absurd (ground (arith, h x))

waits_for_one : (p : ℕ) (xs : List ℕ) → has p xs ≡ true → is_empty xs ≡ false
waits_for_one p [] h = absurd (ground arith)
waits_for_one p (x ∷ xs) h = refl

-- The endpoint of a closure that was taken.
abbrev pub endpoint_taken :
    {P : Type 0} → Option (PendingTcpClosure P) → Option TcpEndpointConnection
endpoint_taken none = none
endpoint_taken (some c) = some c.endpoint

module _ {P : Type 0} where
  take_ready_waiting :
      (i p : ℕ) (m : TcpClosureCache P) {c : PendingTcpClosure P}
      → BTreeMap.get i m ≡ some c
      → has p c.request_ids ≡ true
      → take_ready m i ≡ (m, none)
  unfolding take_ready
  take_ready_waiting i p m {c} h w = ground (arith, waits_for_one p c.request_ids w)

  take_ready_ready :
      (i : ℕ) (m : TcpClosureCache P) {c : PendingTcpClosure P}
      → BTreeMap.get i m ≡ some c
      → ((p : ℕ) → has p c.request_ids ≡ false)
      → take_ready m i ≡ (BTreeMap.remove i m, some c)
  unfolding take_ready
  take_ready_ready i m {c} h w = ground (arith, waits_for_none c.request_ids w)

  -- The closure behind what `waits` says.
  waits_found :
      (p : ℕ) (o : Option (PendingTcpClosure P)) {e : TcpEndpointConnection} {b : Bool}
      → waits p o ≡ some (e, b)
      → (c : PendingTcpClosure P) × (o ≡ some c) × (c.endpoint ≡ e) × (has p c.request_ids ≡ b)
  waits_found p none h = absurd (ground arith)
  waits_found p (some c) h = (c, refl, ground arith, ground arith)

abbrev waiting : Option (TcpEndpointConnection × Bool) → Bool
waiting none = false
waiting (some w) = w.1

module _ {P : Type 0} (platform : Platform) where
  found_after :
      (i p : ℕ) (m : TcpClosureCache P) (es : List Event) (c : PendingTcpClosure P)
      → ClosuresAreValid m
      → BTreeMap.get i m ≡ some c
      → waits p (BTreeMap.get i (run platform m es))
        ≡ some (c.endpoint, outstanding platform c.endpoint p (has p c.request_ids) es)
  found_after i p m es c v h =
      (run-waits platform i p m es v).1 ∙ ap (λ o. waits_after platform p es (waits p o)) h

  -- From a valid cache with a closure at a generation, after any sequence of published and
  -- finished requests, the closure is not taken while a request that it waits for is outstanding,
  -- and the cache is kept.
  pub take_ready-outstanding :
      (i p : ℕ) (m : TcpClosureCache P) (es : List Event) (c : PendingTcpClosure P)
      → ClosuresAreValid m
      → BTreeMap.get i m ≡ some c
      → outstanding platform c.endpoint p (has p c.request_ids) es ≡ true
      → take_ready (run platform m es) i ≡ (run platform m es, none)
  take_ready-outstanding i p m es c v h out =
      let found = waits_found p (BTreeMap.get i (run platform m es)) (found_after i p m es c v h) in
      take_ready_waiting i p (run platform m es) found.1 (found.3 ∙ out)

  -- From a valid cache with a closure at a generation, once a sequence of events leaves no
  -- request outstanding for its endpoint, `take_ready` returns a closure of that endpoint and
  -- removes its entry.
  pub take_ready_finished :
      (i : ℕ) (m : TcpClosureCache P) (es : List Event) (c : PendingTcpClosure P)
      → ClosuresAreValid m
      → BTreeMap.get i m ≡ some c
      → ((p : ℕ) → outstanding platform c.endpoint p (has p c.request_ids) es ≡ false)
      → ((take_ready (run platform m es) i).0 ≡ BTreeMap.remove i (run platform m es))
        × (endpoint_taken (take_ready (run platform m es) i).1 ≡ some c.endpoint)
  take_ready_finished i m es c v h out =
      let n = run platform m es in
      let found = waits_found 0 (BTreeMap.get i n) (found_after i 0 m es c v h) in
      let none_left : (p : ℕ) → has p found.0.request_ids ≡ false = λ p.
        ap (λ o. waiting (waits p o)) (sym found.1)
        ∙ ap waiting (found_after i p m es c v h)
        ∙ out p in
      let taken = take_ready_ready i n found.1 none_left in
      (ap (λ r. r.0) taken, ap (λ r. endpoint_taken r.1) taken ∙ ap some found.2)

module _ {P : Type 0} where
  -- A new closure waits for exactly the given requests, each kept once and in order.
  pub new_lem :
      (e : TcpEndpointConnection) (pid : ℕ) (pend : P) (ids : List ℕ) (p : ℕ)
      → IsIncreasing (new e pid pend ids).request_ids
        × (has p (new e pid pend ids).request_ids ≡ has p ids)
  unfolding new
  new_lem e pid pend ids p = dedup-sort_unstable_lem p ids

  EntriesAreValid-insert :
      (i : ℕ) (c : PendingTcpClosure P) (m : TcpClosureCache P)
      → IsIncreasing c.request_ids
      → EntriesAreValid m
      → EntriesAreValid (BTreeMap.insert i c m)
  unfolding BTreeMap.insert
  EntriesAreValid-insert i c [] h v = (h, tt)
  EntriesAreValid-insert i c ((j, d) ∷ m) h v = ground (arith, EntriesAreValid-insert i c m h v.1)

  -- Into a valid cache, `insert` of a closure with its requests in order keeps the first closure
  -- of a generation and hands a second one back; the closures of the other generations are kept,
  -- and the cache stays valid.
  pub insert_lem :
      (m : TcpClosureCache P) (c : PendingTcpClosure P) (i : ℕ)
      → ClosuresAreValid m
      → IsIncreasing c.request_ids
      → ClosuresAreValid (insert m c).0
        × ((insert m c).1
            ≡ elim (BTreeMap.get c.endpoint.instance_id m) [ none ↦ none | some _ ↦ some c ])
        × (BTreeMap.get i (insert m c).0 ≡ (
            if same i c.endpoint.instance_id
            then elim (BTreeMap.get i m) [ none ↦ some c | some d ↦ some d ]
            else BTreeMap.get i m))
  unfolding insert
  insert_lem m c i v h =
      let id = c.endpoint.instance_id in
      ground (
        arith,
        EntriesAreValid-insert id c m h v.0,
        insert-IsSorted id c m v.1,
        BTreeMap.get-insert i id c m,
        same→eq i id,
      )
