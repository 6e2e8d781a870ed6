-- ===== src/UdpFlowCache/Lifecycle.antt =====
-- The registrations over any sequence of calls from the callbacks, the cleanup and the unload.
use Prim.Native.Nat.{ℕ, ◌<◌}
use mathlib.Core.Path.{◌≡◌}
use mathlib.Core.Logic.{inl, inr}
use mathlib.Core.Bool.{Bool, true, false, not, ◌&&◌, ◌||◌}
use mathlib.Core.List.{List, [], ◌∷◌}
use native.Mathlib.Omega.{arith}
use windows_kext_mod.Prelude.Tests.{◌==◌, Bool-cases, Option-cases}
use windows_kext_mod.Prelude.Order.{nat_ord}
use windows_kext_mod.Prelude.BTreeMap
use windows_kext_mod.Prelude.BTreeMap.{BTreeMap, IsSorted}
use windows_kext_mod.Prelude.BTreeMap.Sorted.{
  insert-IsSorted, remove-IsSorted, update_at-IsSorted, map_values-IsSorted,
}
use windows_kext_mod.Prelude.BTreeMap.Every.{
  Every, Every-get, Every-insert, Every-remove, Every-update_at_found, Every-map_values,
}
use windows_kext_mod.UdpFlowCache.{
  UdpFlowRegistration, UdpFlowState, new, register, mark_associated, cancel_registration,
  begin_callback, finish_callback, claim_removal, start_shutdown, pending_removals, retry_removal,
  write_if, is_candidate, requested, requested_if_candidate,
}

-- A registration under its context: both identities are set, and only what was associated has its
-- removal requested.
abbrev pub Registered : ℕ → UdpFlowRegistration → Type 0
Registered context r =
    (r.flow_context ≡ context)
    × (0 < context)
    × (0 < r.connection_instance_id)
    × ((not r.removal_requested || r.associated) ≡ true)

abbrev pub StateIsValid : UdpFlowState → Type 0
StateIsValid s = Every Registered s.registrations × IsSorted s.registrations

pub data Call : Type 0 where
  registered : (context : ℕ) (r : UdpFlowRegistration) → Call
  associated : (context instance_id : ℕ) → Call
  cancelled : (context instance_id : ℕ) → Call
  begun : (context layer_id callout_id : ℕ) → Call
  finished : Call
  claimed : (context instance_id : ℕ) → Call
  all_claimed : Call
  retried : (context instance_id : ℕ) → Call
  shut_down : Call

abbrev pub step : UdpFlowState → Call → UdpFlowState
step s (registered context r) = (register s context r).0
step s (associated context i) = (mark_associated s context i).0
step s (cancelled context i) = (cancel_registration s context i).0
step s (begun context layer callout) = (begin_callback s context layer callout).0
step s finished = finish_callback s
step s (claimed context i) = (claim_removal s context i).0
step s all_claimed = (pending_removals s).0
step s (retried context i) = retry_removal s context i
step s shut_down = start_shutdown s

unfoldable pub run : UdpFlowState → List Call → UdpFlowState
run s [] = s
run s (c ∷ cs) = run (step s c) cs

write_if-StateIsValid :
    (test : UdpFlowRegistration → Bool) (f : UdpFlowRegistration → UdpFlowRegistration)
    (s : UdpFlowState) (context : ℕ)
    → ((r : UdpFlowRegistration) → Registered context r → test r ≡ true → Registered context (f r))
    → StateIsValid s
    → StateIsValid (write_if test f s context).0
write_if-StateIsValid test f s context keep v =
    elim (Option-cases (BTreeMap.get context s.registrations)) [
      | inl absent ↦ rw (absent, write_if) v
      | inr (r, found) ↦ elim (Bool-cases (test r)) [
        | inl passes ↦
            rw (found, write_if, passes)
              (
                Every-update_at_found Registered context f s.registrations {v = r} found
                    (keep r (Every-get Registered context s.registrations v.0 {v = r} found) passes)
                    v.0,
                update_at-IsSorted context f s.registrations v.1,
              )
        | inr fails ↦ rw (found, write_if, fails) v
      ]
    ]

pub step-StateIsValid : (s : UdpFlowState) (c : Call) → StateIsValid s → StateIsValid (step s c)
unfolding register mark_associated cancel_registration begin_callback finish_callback claim_removal
    pending_removals retry_removal start_shutdown
step-StateIsValid s (registered context r) v = ground (
  arith,
  Every-insert Registered context
      (record r { flow_context = context; associated = false; removal_requested = false })
      s.registrations,
  insert-IsSorted context
      (record r { flow_context = context; associated = false; removal_requested = false })
      s.registrations v.1,
  v.0,
)
step-StateIsValid s (associated context i) v = ground (
  arith,
  v,
  write_if-StateIsValid (λ r. r.connection_instance_id == i) (λ r. record r { associated = true }) s
      context (λ r h e. ground arith) v,
)
step-StateIsValid s (cancelled context i) v = ground (
  arith,
  Every-remove Registered context s.registrations v.0,
  remove-IsSorted context s.registrations v.1,
)
step-StateIsValid s (begun context layer callout) v = ground (
  arith,
  Every-remove Registered context s.registrations v.0,
  remove-IsSorted context s.registrations v.1,
)
step-StateIsValid s finished v = v
step-StateIsValid s (claimed context i) v = ground (
  arith,
  v,
  write_if-StateIsValid (λ r. r.connection_instance_id == i && is_candidate r) requested s context
      (λ r h e. ground arith) v,
)
step-StateIsValid s all_claimed v = (
  Every-map_values Registered requested_if_candidate s.registrations (λ j r h. ground arith) v.0,
  map_values-IsSorted requested_if_candidate s.registrations v.1,
)
step-StateIsValid s (retried context i) v = ground (
  arith,
  v,
  write_if-StateIsValid (λ r. r.connection_instance_id == i)
      (λ r. record r { removal_requested = false }) s context (λ r h e. ground arith) v,
)
step-StateIsValid s shut_down v = v

-- After any sequence of calls, the registrations are in order, each stands under its own context
-- with both identities set, and only an associated one has its removal requested.
pub run-StateIsValid : (cs : List Call) → StateIsValid (run new cs)
unfolding new run
run-StateIsValid cs = from new cs (tt, tt)
  where
    from : (s : UdpFlowState) (cs : List Call) → StateIsValid s → StateIsValid (run s cs)
    from s [] v = v
    from s (c ∷ cs) v = from (step s c) cs (step-StateIsValid s c v)
