-- ===== src/UdpFlowCache/Removal.antt =====
-- A context is claimed for removal once, and a drained cache stays drained.
use Prim.Native.Nat.{ℕ}
use mathlib.Core.Path.{◌≡◌, refl}
use mathlib.Core.Logic.{inl, inr}
use mathlib.Core.Bool.{Bool, true, false, not, ◌&&◌}
use mathlib.Core.List.{List, [], ◌∷◌}
use mathlib.Core.Option.{none, some}
use native.Mathlib.Omega.{arith}
use windows_kext_mod.Prelude.Tests.{◌==◌, Bool-cases, Option-cases}
use windows_kext_mod.Prelude.Lists.{All}
use windows_kext_mod.Prelude.Order.{nat_ord, same→eq, same_refl}
use windows_kext_mod.Prelude.BTreeMap
use windows_kext_mod.Prelude.BTreeMap.{
  BTreeMap, IsSorted, get-insert, get-remove, get-update_at, get-map_values,
}
use windows_kext_mod.UdpFlowCache.{
  UdpFlowRegistration, UdpFlowState, register, mark_associated, cancel_registration, begin_callback,
  finish_callback, claim_removal, start_shutdown, pending_removals, retry_removal, is_drained,
  write_if, is_candidate, requested, requested_if_candidate, no_registrations,
}
use windows_kext_mod.UdpFlowCache.Lifecycle.{
  Call, registered, associated, cancelled, begun, finished, claimed, all_claimed, retried,
  shut_down, step, run, StateIsValid, step-StateIsValid,
}

-- Unload has begun, and nothing is left.
abbrev pub IsClosed : UdpFlowState → Type 0
IsClosed s = (s.registrations ≡ []) × (s.callbacks_in_progress ≡ 0) × (s.shutting_down ≡ true)

get-nil : (context : ℕ) → BTreeMap.get {V = UdpFlowRegistration} context [] ≡ none
unfolding BTreeMap.get
get-nil context = refl

map_values-nil : BTreeMap.map_values {K = ℕ} requested_if_candidate [] ≡ []
unfolding BTreeMap.map_values
map_values-nil = refl

step-IsClosed : (s : UdpFlowState) (c : Call) → IsClosed s → IsClosed (step s c)
unfolding register mark_associated cancel_registration begin_callback finish_callback claim_removal
    pending_removals retry_removal start_shutdown
step-IsClosed s (registered context r) h = ground arith
step-IsClosed s (associated context i) h = ground (arith, get-nil context)
step-IsClosed s (cancelled context i) h = ground (arith, get-nil context)
step-IsClosed s (begun context layer callout) h = ground (arith, get-nil context)
step-IsClosed s finished h = ground arith
step-IsClosed s (claimed context i) h = ground (arith, get-nil context)
step-IsClosed s all_claimed h = ground (arith, map_values-nil)
step-IsClosed s (retried context i) h = ground (arith, get-nil context)
step-IsClosed s shut_down h = ground arith

run-IsClosed : (s : UdpFlowState) (cs : List Call) → IsClosed s → IsClosed (run s cs)
unfolding run
run-IsClosed s [] h = h
run-IsClosed s (c ∷ cs) h = run-IsClosed (step s c) cs (step-IsClosed s c h)

is_drained-IsClosed : (s : UdpFlowState) → s.shutting_down ≡ true → is_drained s ≡ true → IsClosed s
unfolding is_drained
is_drained-IsClosed s h d = (empty_of s.registrations (ground arith), ground arith, h)
  where
    empty_of : (m : BTreeMap ℕ UdpFlowRegistration) → no_registrations m ≡ true → m ≡ []
    empty_of [] e = refl
    empty_of (x ∷ m) e = absurd (ground arith)

-- Once unload has begun and the cache is drained, it stays drained whatever is called.
pub is_drained-run :
    (s : UdpFlowState) (cs : List Call)
    → s.shutting_down ≡ true
    → is_drained s ≡ true
    → is_drained (run s cs) ≡ true
unfolding is_drained
is_drained-run s cs h d = let c = run-IsClosed s cs (is_drained-IsClosed s h d) in ground arith

-- Whether no removal of a context can be claimed: it is gone, or its removal is requested.
abbrev pub is_taken : ℕ → UdpFlowState → Bool
is_taken context s = elim (BTreeMap.get context s.registrations) [
  | none ↦ true
  | some r ↦ r.removal_requested
]

-- The calls that neither register the context anew nor give its removal back.
abbrev pub leaves : ℕ → Call → Bool
leaves context (registered c r) = not (context == c)
leaves context (retried c i) = not (context == c)
leaves context call = true

write_if-is_taken :
    (test : UdpFlowRegistration → Bool) (f : UdpFlowRegistration → UdpFlowRegistration)
    (s : UdpFlowState) (c context : ℕ)
    → ((r : UdpFlowRegistration)
        → context ≡ c
        → r.removal_requested ≡ true
        → (f r).removal_requested ≡ true)
    → is_taken context s ≡ true
    → is_taken context (write_if test f s c).0 ≡ true
write_if-is_taken test f s c context keep taken =
    elim (Option-cases (BTreeMap.get c s.registrations)) [
      | inl absent ↦ rw (absent, write_if) taken
      | inr (r, found) ↦ elim (Bool-cases (test r)) [
        | inl passes ↦
            rw (found, write_if, passes)
              (ground (
                arith,
                get-update_at context c f s.registrations {v = r} found,
                same→eq context c,
                keep r,
              ))
        | inr fails ↦ rw (found, write_if, fails) taken
      ]
    ]

step-is_taken :
    (s : UdpFlowState) (c : Call) (context : ℕ)
    → IsSorted s.registrations
    → leaves context c ≡ true
    → is_taken context s ≡ true
    → is_taken context (step s c) ≡ true
unfolding register mark_associated cancel_registration begin_callback finish_callback claim_removal
    pending_removals retry_removal start_shutdown
step-is_taken s (registered c r) context sorted l t = ground (
  arith,
  get-insert context c
      (record r { flow_context = c; associated = false; removal_requested = false })
      s.registrations,
)
step-is_taken s (associated c i) context sorted l t = ground (
  arith,
  write_if-is_taken (λ r. r.connection_instance_id == i) (λ r. record r { associated = true }) s c
      context (λ r e h. h) t,
)
step-is_taken s (cancelled c i) context sorted l t =
    ground (arith, get-remove context c s.registrations sorted)
step-is_taken s (begun c layer callout) context sorted l t =
    ground (arith, get-remove context c s.registrations sorted)
step-is_taken s finished context sorted l t = t
step-is_taken s (claimed c i) context sorted l t = ground (
  arith,
  write_if-is_taken (λ r. r.connection_instance_id == i && is_candidate r) requested s c context
      (λ r e h. refl) t,
)
step-is_taken s all_claimed context sorted l t =
    ground (arith, get-map_values context requested_if_candidate s.registrations)
step-is_taken s (retried c i) context sorted l t = ground (
  arith,
  write_if-is_taken (λ r. r.connection_instance_id == i)
      (λ r. record r { removal_requested = false }) s c context (λ r e h. absurd (ground arith)) t,
)
step-is_taken s shut_down context sorted l t = t

run-is_taken :
    (s : UdpFlowState) (cs : List Call) (context : ℕ)
    → StateIsValid s
    → All (λ c. leaves context c ≡ true) cs
    → is_taken context s ≡ true
    → is_taken context (run s cs) ≡ true
unfolding run
run-is_taken s [] context v l t = t
run-is_taken s (c ∷ cs) context v l t =
    run-is_taken (step s c) cs context (step-StateIsValid s c v) l.1
      (step-is_taken s c context v.1 l.0 t)

claimed_once :
    (s : UdpFlowState) (context i : ℕ)
    → is_taken context s ≡ true
    → (claim_removal s context i).1 ≡ none
unfolding claim_removal
claimed_once s context i t = ground arith

claim_removal-is_taken :
    (s : UdpFlowState) (context i : ℕ) {r : UdpFlowRegistration}
    → (claim_removal s context i).1 ≡ some r
    → is_taken context (claim_removal s context i).0 ≡ true
unfolding claim_removal
claim_removal-is_taken s context i {r} h =
    elim (Option-cases (BTreeMap.get context s.registrations)) [
      | inl absent ↦ ground arith
      | inr (x, found) ↦ ground (
        arith,
        get-update_at context context requested s.registrations {v = x} found,
        same_refl context,
      )
    ]

-- From a valid state, once a removal of a context is claimed, no other claim of the context
-- succeeds, whatever is called between that neither registers it anew nor gives its removal back.
pub claim_removal-run :
    (s : UdpFlowState) (context i j : ℕ) (cs : List Call) {r : UdpFlowRegistration}
    → StateIsValid s
    → (claim_removal s context i).1 ≡ some r
    → All (λ c. leaves context c ≡ true) cs
    → (claim_removal (run (claim_removal s context i).0 cs) context j).1 ≡ none
claim_removal-run s context i j cs {r} v h l =
    claimed_once (run (claim_removal s context i).0 cs) context j (
      run-is_taken (claim_removal s context i).0 cs context
        (step-StateIsValid s (claimed context i) v) l
        (claim_removal-is_taken s context i {r = r} h))
