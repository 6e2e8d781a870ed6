-- ===== src/AlePolicy/Guards.antt =====
-- What the guards on injected indications promise.
use Prim.Native.Nat.{ℕ}
use mathlib.Core.Path.{◌≡◌, refl}
use mathlib.Core.Logic.{◌↔◌, ◌⊎◌, ◌≢◌}
use mathlib.Core.Bool.{Bool, true, false, ◌&&◌}
use native.Mathlib.Omega.{arith}
use windows_kext_mod.Prelude.Tests.{if◌then◌else◌}
use windows_kext_mod.Key.{tcp, udp}
use windows_kext_mod.Connection.{Direction, outbound, inbound}
use windows_kext_mod.AlePolicy.{
  InjectionStatus, new, classify_packet_injection, permit_self_injected_packet, process_packet,
  classify_ale_injection, process, permit_self_injected, permit_other_injected_outbound,
  self_injected_packet_needs_accept_authorization, should_skip_cross_direction_ale_clone,
  should_capture_ale_packet, is_outbound,
}

-- The packet layers decide, from the two handles one after the other, what the combined status
-- says: a packet that either handle injected is permitted, whatever the other handle says, and
-- any other packet is processed with the combined mark of other injectors.
pub classify_packet_injection-new :
    (network_self network_other transport_self transport_other : Bool)
    → classify_packet_injection network_self network_other (transport_self, transport_other) ≡ (
        if (new network_self transport_self network_other transport_other).self_injected
        then permit_self_injected_packet
        else process_packet
            (new network_self transport_self network_other transport_other).injected_by_other)
unfolding new classify_packet_injection
classify_packet_injection-new true network_other transport_self transport_other = refl
classify_packet_injection-new false network_other transport_self transport_other = refl

-- An ALE indication of an own injection is processed exactly on the one path that still needs
-- authorization: TCP or UDP, loopback, and inbound on both the connection and the packet. On
-- every other path it is permitted as an own injection, and the mark of another injector changes
-- nothing.
pub classify_ale_injection_self :
    (status : InjectionStatus) (loopback : Bool) (protocol : ℕ) (connection packet : Direction)
    (other : Bool)
    → status.self_injected ≡ true
    → ((classify_ale_injection status protocol loopback connection packet ≡ process) ↔ (
        (protocol ≡ tcp ⊎ protocol ≡ udp)
        × (loopback ≡ true)
        × (connection ≡ inbound)
        × (packet ≡ inbound)))
      × ((classify_ale_injection status protocol loopback connection packet ≡ process)
          ⊎ (classify_ale_injection status protocol loopback connection packet
              ≡ permit_self_injected))
      × (classify_ale_injection
            (record status { injected_by_other = other })
            protocol
            loopback
            connection
            packet
          ≡ classify_ale_injection status protocol loopback connection packet)
unfolding classify_ale_injection self_injected_packet_needs_accept_authorization
classify_ale_injection_self status loopback protocol outbound outbound other h =
    ((λ k. absurd (ground arith), λ k. absurd (ground arith)), ground arith, ground arith)
classify_ale_injection_self status loopback protocol outbound inbound other h =
    ((λ k. absurd (ground arith), λ k. absurd (ground arith)), ground arith, ground arith)
classify_ale_injection_self status loopback protocol inbound outbound other h =
    ((λ k. absurd (ground arith), λ k. absurd (ground arith)), ground arith, ground arith)
classify_ale_injection_self status loopback protocol inbound inbound other h =
    ((λ k. ground arith, λ k. ground arith), ground arith, ground arith)

-- An indication that no local handle owns is permitted as another injector's exactly where it is
-- outbound and marked, and is processed otherwise.
pub classify_ale_injection_other :
    (status : InjectionStatus) (loopback : Bool) (protocol : ℕ) (connection packet : Direction)
    → status.self_injected ≡ false
    → classify_ale_injection status protocol loopback connection packet ≡ (
        if status.injected_by_other && is_outbound packet
        then permit_other_injected_outbound
        else process)
unfolding classify_ale_injection self_injected_packet_needs_accept_authorization
classify_ale_injection_other status loopback protocol connection packet h = ground arith

-- A packet whose clone is skipped because it crosses its connection's direction is one that could
-- have been captured, and it is not UDP.
pub should_skip_cross_direction_ale_clone-capture :
    (reauthorize : Bool) (protocol : ℕ) (connection packet : Direction)
    → should_skip_cross_direction_ale_clone protocol reauthorize connection packet ≡ true
    → (should_capture_ale_packet protocol packet reauthorize ≡ true) × (protocol ≢ udp)
unfolding should_skip_cross_direction_ale_clone should_capture_ale_packet
should_skip_cross_direction_ale_clone-capture reauthorize protocol connection packet h =
    (ground arith, λ k. absurd (ground arith))
