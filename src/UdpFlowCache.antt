-- ===== src/UdpFlowCache.antt =====
-- windows_kext/driver/src/udp_flow_cache.rs: the contexts that the driver associated with the flows
-- of the filter engine, which owns each of them until its flow is deleted.
pub mod Lifecycle
pub mod Removal
use Prim.Native.Nat.{ℕ, ◌+◌, ◌-◌, ◌^◌}
use mathlib.Core.Bool.{Bool, true, false, not, ◌&&◌, ◌||◌}
use mathlib.Core.List.{List, [], ◌∷◌}
use mathlib.Core.Option.{Option, none, some}
use windows_kext_mod.Prelude.Tests.{◌==◌, ltb, if◌then◌else◌}
use windows_kext_mod.Prelude.Lists.{length}
use windows_kext_mod.Prelude.Order.{nat_ord}
use windows_kext_mod.Prelude.BTreeMap
use windows_kext_mod.Prelude.BTreeMap.{BTreeMap}

pub record UdpFlowRegistration : Type 0 where
  pub flow_context : ℕ
  pub flow_id : ℕ
  pub layer_id : ℕ
  pub callout_id : ℕ
  pub connection_instance_id : ℕ
  pub associated : Bool
  pub removal_requested : Bool

-- `UdpFlowRegistration::new`
unfoldable pub new_registration :
    (flow_id layer_id callout_id connection_instance_id : ℕ) → UdpFlowRegistration
new_registration flow_id layer_id callout_id instance_id = record {
  flow_context = 0;
  flow_id = flow_id;
  layer_id = layer_id;
  callout_id = callout_id;
  connection_instance_id = instance_id;
  associated = false;
  removal_requested = false;
}

pub record UdpFlowState : Type 0 where
  pub registrations : BTreeMap ℕ UdpFlowRegistration
  pub callbacks_in_progress : ℕ
  pub shutting_down : Bool

-- `UdpFlowCache::new`. Every operation runs under the one lock: it is one step.
unfoldable pub new : UdpFlowState
new = record { registrations = []; callbacks_in_progress = 0; shutting_down = false }

unfoldable pub contains_key : ℕ → BTreeMap ℕ UdpFlowRegistration → Bool
contains_key context m = elim (BTreeMap.get context m) [ none ↦ false | some r ↦ true ]

unfoldable pub register : UdpFlowState → ℕ → UdpFlowRegistration → UdpFlowState × Bool
unfolding contains_key
register s context r =
    if context == 0 || r.connection_instance_id == 0
    then (s, false)
    else if s.shutting_down || contains_key context s.registrations
    then (s, false)
    else (
      record s {
        registrations =
            BTreeMap.insert context
              (record r { flow_context = context; associated = false; removal_requested = false })
              s.registrations;
      },
      true,
    )

-- `get_mut(&context)` of a registration of the given instance that passes a test, and the write `f`.
abbrev pub write_if :
    (UdpFlowRegistration → Bool)
    → (UdpFlowRegistration → UdpFlowRegistration)
    → UdpFlowState
    → ℕ
    → UdpFlowState × Option UdpFlowRegistration
write_if test f s context = elim (BTreeMap.get context s.registrations) [
  | none ↦ (s, none)
  | some r ↦
      if test r
      then (record s { registrations = BTreeMap.update_at context f s.registrations }, some (f r))
      else (s, none)
]

abbrev pub is_some {ℓ} : {A : Type ℓ} → Option A → Bool
is_some none = false
is_some (some a) = true

unfoldable pub mark_associated : UdpFlowState → (context instance_id : ℕ) → UdpFlowState × Bool
mark_associated s context instance_id =
    if context == 0 || instance_id == 0
    then (s, false)
    else let r =
        write_if (λ r. r.connection_instance_id == instance_id)
          (λ r. record r { associated = true }) s context in
      (r.0, is_some r.1)

unfoldable pub cancel_registration : UdpFlowState → (context instance_id : ℕ) → UdpFlowState × Bool
cancel_registration s context instance_id =
    if context == 0 || instance_id == 0
    then (s, false)
    else elim (BTreeMap.get context s.registrations) [
      | none ↦ (s, false)
      | some r ↦
          if r.connection_instance_id == instance_id
          then (record s { registrations = BTreeMap.remove context s.registrations }, true)
          else (s, false)
    ]

-- `saturating_add(1)` of a `usize`
abbrev pub one_more : ℕ → ℕ
one_more n = if n == 2 ^ 64 - 1 then n else n + 1

unfoldable pub begin_callback :
    UdpFlowState → (context layer_id callout_id : ℕ) → UdpFlowState × Option Bool
begin_callback s context layer_id callout_id = elim (BTreeMap.get context s.registrations) [
  | none ↦ (s, none)
  | some r ↦
      if r.layer_id == layer_id && r.callout_id == callout_id
      then (
        record s {
          registrations = BTreeMap.remove context s.registrations;
          callbacks_in_progress = one_more s.callbacks_in_progress;
        },
        some (s.shutting_down || r.removal_requested),
      )
      else (s, none)
]

-- `saturating_sub(1)`
unfoldable pub finish_callback : UdpFlowState → UdpFlowState
finish_callback s = record s { callbacks_in_progress = s.callbacks_in_progress - 1 }

abbrev pub is_candidate : UdpFlowRegistration → Bool
is_candidate r = r.associated && not r.removal_requested

abbrev pub candidates : BTreeMap ℕ UdpFlowRegistration → List UdpFlowRegistration
candidates [] = []
candidates ((i, r) ∷ m) = if is_candidate r then r ∷ candidates m else candidates m

abbrev pub context_and_instance : List UdpFlowRegistration → List (ℕ × ℕ)
context_and_instance [] = []
context_and_instance (r ∷ rs) = (r.flow_context, r.connection_instance_id) ∷ context_and_instance rs

unfoldable pub removal_candidates : UdpFlowState → List (ℕ × ℕ)
removal_candidates s = context_and_instance (candidates s.registrations)

abbrev pub requested : UdpFlowRegistration → UdpFlowRegistration
requested r = record r { removal_requested = true }

unfoldable pub claim_removal :
    UdpFlowState → (context instance_id : ℕ) → UdpFlowState × Option UdpFlowRegistration
claim_removal s context instance_id =
    if context == 0 || instance_id == 0
    then (s, none)
    else write_if (λ r. r.connection_instance_id == instance_id && is_candidate r) requested s
        context

unfoldable pub start_shutdown : UdpFlowState → UdpFlowState
start_shutdown s = record s { shutting_down = true }

-- Each candidate is marked and handed over.
abbrev pub requested_if_candidate : UdpFlowRegistration → UdpFlowRegistration
requested_if_candidate r = if is_candidate r then requested r else r

abbrev pub all_requested : List UdpFlowRegistration → List UdpFlowRegistration
all_requested [] = []
all_requested (r ∷ rs) = requested r ∷ all_requested rs

unfoldable pub pending_removals : UdpFlowState → UdpFlowState × List UdpFlowRegistration
pending_removals s = (
  record s { registrations = BTreeMap.map_values requested_if_candidate s.registrations },
  all_requested (candidates s.registrations),
)

unfoldable pub retry_removal : UdpFlowState → (context instance_id : ℕ) → UdpFlowState
retry_removal s context instance_id =
    if context == 0 || instance_id == 0
    then s
    else (write_if (λ r. r.connection_instance_id == instance_id)
        (λ r. record r { removal_requested = false }) s context).0

unfoldable pub get_entries_counts : UdpFlowState → ℕ × ℕ
get_entries_counts s = (length s.registrations, s.callbacks_in_progress)

abbrev pub no_registrations : BTreeMap ℕ UdpFlowRegistration → Bool
no_registrations [] = true
no_registrations (e ∷ m) = false

unfoldable pub is_drained : UdpFlowState → Bool
is_drained s = no_registrations s.registrations && s.callbacks_in_progress == 0
