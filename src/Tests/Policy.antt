-- ===== src/Tests/Policy.antt =====
-- The guards on injected indications at concrete inputs.
use mathlib.Core.Path.{◌≡◌, refl}
use mathlib.Core.Logic.{◌↔◌, ◌⊎◌}
use mathlib.Core.Bool.{true, false}
use windows_kext_mod.Key.{tcp, udp}
use windows_kext_mod.Connection.{outbound, inbound}
use windows_kext_mod.AlePolicy.{
  InjectionStatus, classify_ale_injection, process, permit_self_injected,
  should_skip_cross_direction_ale_clone,
}
use windows_kext_mod.AlePolicy.Guards.{classify_ale_injection_self}

abbrev own : InjectionStatus
own = record { self_injected = true; injected_by_other = true }

abbrev foreign : InjectionStatus
foreign = record { self_injected = false; injected_by_other = true }

abbrev own_only : InjectionStatus
own_only = record { self_injected = true; injected_by_other = false }

classify_ale_injection_self_example :
    ((classify_ale_injection own udp true inbound inbound ≡ process)
      ↔ ((udp ≡ tcp ⊎ udp ≡ udp) × (true ≡ true) × (inbound ≡ inbound) × (inbound ≡ inbound)))
    × ((classify_ale_injection own udp true inbound inbound ≡ process)
        ⊎ (classify_ale_injection own udp true inbound inbound ≡ permit_self_injected))
    × (classify_ale_injection own_only udp true inbound inbound
        ≡ classify_ale_injection own udp true inbound inbound)
classify_ale_injection_self_example =
    classify_ale_injection_self own true udp inbound inbound false refl

skipped : should_skip_cross_direction_ale_clone tcp true outbound inbound ≡ true
unfolding should_skip_cross_direction_ale_clone
skipped = refl
