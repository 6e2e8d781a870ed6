-- ===== src/TcpClosureCache/Events.antt =====
-- What a pending closure waits for after any sequence of published and finished requests.
use Prim.Native.Nat.{ℕ}
use mathlib.Core.Path.{◌≡◌, refl, ◌∙◌, ap}
use mathlib.Core.Bool.{Bool, true, false}
use mathlib.Core.List.{List, [], ◌∷◌}
use mathlib.Core.Option.{Option, none, some}
use native.Mathlib.Omega.{arith}
use windows_kext_mod.Prelude.Tests.{◌==◌, if◌then◌else◌}
use windows_kext_mod.Prelude.BTreeMap
use windows_kext_mod.Prelude.BTreeMap.Sorted.{map_values-IsSorted}
use windows_kext_mod.Prelude.Order.{nat_ord}
use windows_kext_mod.Key.{Key, Platform}
use windows_kext_mod.TcpClosureCache.{
  TcpClosureCache, TcpEndpointConnection, PendingTcpClosure, request_matches_tcp_endpoint,
  finish_in, add_if_matching, add_request, finish_request,
}
use windows_kext_mod.TcpClosureCache.RequestIds.{
  has, IsIncreasing, has-insert_id, has-remove_id, insert_id-IsIncreasing, remove_id-IsIncreasing,
}

-- What the packet paths tell the cache: a request was published, or one was finished.
pub data Event : Type 0 where
  published : (request_id : ℕ) (key : Key) (instance_id : Option ℕ) → Event
  finished : (request_id : ℕ) → Event

module _ {ClassifyPend : Type 0} (platform : Platform) where
  abbrev pub step : TcpClosureCache ClassifyPend → Event → TcpClosureCache ClassifyPend
  step m (published r key instance) = add_request platform m r key instance
  step m (finished r) = (finish_request m r).0

  pub run : TcpClosureCache ClassifyPend → List Event → TcpClosureCache ClassifyPend
  run m [] = m
  run m (e ∷ es) = run (step m e) es

-- Whether request `p` is outstanding for an endpoint after the events, where `b` says whether it
-- was before: the last event about it decides.
unfoldable pub outstanding : Platform → TcpEndpointConnection → ℕ → Bool → List Event → Bool
outstanding platform e p b [] = b
outstanding platform e p b (published r key instance ∷ es) =
    let matches = request_matches_tcp_endpoint platform e.key e.instance_id key instance in
    outstanding platform e p (if p == r then (if matches then true else b) else b) es
outstanding platform e p b (finished r ∷ es) =
    outstanding platform e p (if p == r then false else b) es

-- The closures keep their generations as keys and their identities in order.
abbrev pub EntriesAreValid : {P : Type 0} → TcpClosureCache P → Type 0
EntriesAreValid [] = Unit
EntriesAreValid ((i, c) ∷ m) = IsIncreasing c.request_ids × EntriesAreValid m

abbrev pub ClosuresAreValid : {P : Type 0} → TcpClosureCache P → Type 0
ClosuresAreValid m = EntriesAreValid m × BTreeMap.IsSorted m

-- The endpoint of a closure and whether it waits for request `p`.
abbrev pub waits :
    {P : Type 0} → ℕ → Option (PendingTcpClosure P) → Option (TcpEndpointConnection × Bool)
waits p none = none
waits p (some c) = some (c.endpoint, has p c.request_ids)

abbrev pub waits_after :
    Platform
    → ℕ
    → List Event
    → Option (TcpEndpointConnection × Bool)
    → Option (TcpEndpointConnection × Bool)
waits_after platform p es none = none
waits_after platform p es (some (e, b)) = some (e, outstanding platform e p b es)

waits_after-nil :
    (platform : Platform) (p : ℕ) (w : Option (TcpEndpointConnection × Bool))
    → w ≡ waits_after platform p [] w
unfolding outstanding
waits_after-nil platform p none = refl
waits_after-nil platform p (some (t, b)) = refl

waits_after-cons :
    (platform : Platform) (p : ℕ) (e : Event) (es : List Event)
    (w : Option (TcpEndpointConnection × Bool))
    → waits_after platform p es (waits_after platform p (e ∷ []) w)
      ≡ waits_after platform p (e ∷ es) w
unfolding outstanding
waits_after-cons platform p e es none = refl
waits_after-cons platform p (published r key instance) es (some (t, b)) = refl
waits_after-cons platform p (finished r) es (some (t, b)) = refl

module _ {P : Type 0} (platform : Platform) where
  EntriesAreValid-step :
      (m : TcpClosureCache P) (e : Event) → EntriesAreValid m → EntriesAreValid (step platform m e)
  unfolding add_request finish_request BTreeMap.map_values
  EntriesAreValid-step [] (published r key instance) v = tt
  EntriesAreValid-step [] (finished r) v = tt
  EntriesAreValid-step ((i, c) ∷ m) (published r key instance) v = ground (
    arith,
    EntriesAreValid-step m (published r key instance) v.1,
    insert_id-IsIncreasing r c.request_ids v.0,
  )
  EntriesAreValid-step ((i, c) ∷ m) (finished r) v =
      (remove_id-IsIncreasing r c.request_ids v.0, EntriesAreValid-step m (finished r) v.1)

  pub step-ClosuresAreValid :
      (m : TcpClosureCache P) (e : Event)
      → ClosuresAreValid m
      → ClosuresAreValid (step platform m e)
  unfolding add_request finish_request
  step-ClosuresAreValid m (published r key instance) v =
      (EntriesAreValid-step m (published r key instance) v.0, map_values-IsSorted _ m v.1)
  step-ClosuresAreValid m (finished r) v =
      (EntriesAreValid-step m (finished r) v.0, map_values-IsSorted _ m v.1)

  IsIncreasing-get :
      (i : ℕ) (m : TcpClosureCache P)
      → EntriesAreValid m
      → {c : PendingTcpClosure P} → BTreeMap.get i m ≡ some c
      → IsIncreasing c.request_ids
  unfolding BTreeMap.get
  IsIncreasing-get i [] v h = absurd (ground arith)
  IsIncreasing-get i ((j, d) ∷ m) v {c} h = ground (arith, IsIncreasing-get i m v.1 {c = c}, v.0)

  waits-add_if_matching :
      (p r : ℕ) (key : Key) (instance_id : Option ℕ) (o : Option (PendingTcpClosure P))
      → waits p
          (elim o [ none ↦ none | some c ↦ some (add_if_matching platform r key instance_id c) ])
        ≡ waits_after platform p (published r key instance_id ∷ []) (waits p o)
  unfolding outstanding
  waits-add_if_matching p r key instance_id none = refl
  waits-add_if_matching p r key instance_id (some c) =
      ground (arith, has-insert_id p r c.request_ids)

  waits-finish_in :
      (p r : ℕ) (o : Option (PendingTcpClosure P))
      → ((c : PendingTcpClosure P) → o ≡ some c → IsIncreasing c.request_ids)
      → waits p (elim o [ none ↦ none | some c ↦ some (finish_in r c) ])
        ≡ waits_after platform p (finished r ∷ []) (waits p o)
  unfolding outstanding
  waits-finish_in p r none v = refl
  waits-finish_in p r (some c) v =
      ap (λ b. some (c.endpoint, b)) (has-remove_id p r c.request_ids (v c refl))

  waits-step :
      (i p : ℕ) (m : TcpClosureCache P) (e : Event)
      → EntriesAreValid m
      → waits p (BTreeMap.get i (step platform m e))
        ≡ waits_after platform p (e ∷ []) (waits p (BTreeMap.get i m))
  unfolding add_request finish_request
  waits-step i p m (published r key instance_id) v =
      rw (BTreeMap.get-map_values i (add_if_matching platform r key instance_id) m)
        (waits-add_if_matching p r key instance_id (BTreeMap.get i m))
  waits-step i p m (finished r) v =
      rw (BTreeMap.get-map_values i (finish_in r) m)
        (waits-finish_in p r (BTreeMap.get i m) (λ c h. IsIncreasing-get i m v {c = c} h))

  -- From a valid cache, after any sequence of published and finished requests the closures are
  -- valid, and the closure of each generation waits for exactly the requests that are outstanding
  -- for its endpoint: those it waited for, or that matched when they were published, and that no
  -- event finished since.
  pub run-waits :
      (i p : ℕ) (m : TcpClosureCache P) (es : List Event)
      → ClosuresAreValid m
      → ClosuresAreValid (run platform m es)
        × (waits p (BTreeMap.get i (run platform m es))
            ≡ waits_after platform p es (waits p (BTreeMap.get i m)))
  unfolding run
  run-waits i p m [] v = (v, waits_after-nil platform p (waits p (BTreeMap.get i m)))
  run-waits i p m (e ∷ es) v =
      let rest = run-waits i p (step platform m e) es (step-ClosuresAreValid m e v) in
      (
        rest.0,
        rest.1
            ∙ ap (waits_after platform p es) (waits-step i p m e v.0)
            ∙ waits_after-cons platform p e es (waits p (BTreeMap.get i m)),
      )
