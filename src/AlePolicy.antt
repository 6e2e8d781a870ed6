-- ===== src/AlePolicy.antt =====
-- windows_kext/driver/src/ale_policy.rs: which indications of the filter engine are processed,
-- permitted at once or cloned.
pub mod Guards
use Prim.Native.Nat.{ℕ, ◌/◌, ◌%◌}
use mathlib.Core.Bool.{Bool, true, false, not, ◌&&◌, ◌||◌}
use mathlib.Core.List.{List}
use mathlib.Core.Option.{Option, none, some}
use windows_kext_mod.Prelude.Tests.{◌==◌, leb, if◌then◌else◌}
use windows_kext_mod.Prelude.Lists.{length, get_elem?}
use windows_kext_mod.Key.{tcp, udp}
use windows_kext_mod.Connection.{Direction, outbound, inbound}

pub data AleInjectionAction : Type 0 where
  process permit_self_injected permit_other_injected_outbound : AleInjectionAction

pub record InjectionStatus : Type 0 where
  pub self_injected : Bool
  pub injected_by_other : Bool

-- `InjectionStatus::new`
unfoldable pub new :
    (network_self_injected transport_self_injected : Bool)
    (network_injected_by_other transport_injected_by_other : Bool)
    → InjectionStatus
new network_self transport_self network_other transport_other = record {
  self_injected = network_self || transport_self;
  injected_by_other = network_other || transport_other;
}

pub data PacketInjectionAction : Type 0 where
  permit_self_injected_packet : PacketInjectionAction
  process_packet : (injected_by_other : Bool) → PacketInjectionAction

-- The transport query is run only where the network handle does not own the packet: its answer is
-- read in that case alone.
unfoldable pub classify_packet_injection : Bool → Bool → Bool × Bool → PacketInjectionAction
classify_packet_injection network_self network_other transport =
    if network_self
    then permit_self_injected_packet
    else if transport.0
    then permit_self_injected_packet
    else process_packet (network_other || transport.1)

abbrev pub is_outbound : Direction → Bool
is_outbound outbound = true
is_outbound inbound = false

abbrev pub is_inbound : Direction → Bool
is_inbound outbound = false
is_inbound inbound = true

abbrev pub filter_pid : Option ℕ → Option ℕ
filter_pid none = none
filter_pid (some pid) = if pid == 0 || pid == 4 then none else some pid

-- `found` is what `lookup` finds, which is read only past the guard.
unfoldable pub inbound_udp_fallback_pid : ℕ → Bool → Option ℕ → Option ℕ
inbound_udp_fallback_pid protocol enabled found =
    if not enabled || not (protocol == udp) then none else filter_pid found

unfoldable pub can_reuse_ended_tcp_policy : Bool → ℕ → Bool
can_reuse_ended_tcp_policy reauthorize protocol = reauthorize && protocol == tcp

unfoldable pub self_injected_packet_needs_accept_authorization :
    (protocol : ℕ) (loopback : Bool) (connection_direction packet_direction : Direction) → Bool
self_injected_packet_needs_accept_authorization protocol loopback connection packet =
    (protocol == tcp || protocol == udp) && loopback && is_inbound connection && is_inbound packet

unfoldable pub classify_ale_injection :
    InjectionStatus
    → (protocol : ℕ) (loopback : Bool) (connection_direction packet_direction : Direction)
    → AleInjectionAction
classify_ale_injection injection protocol loopback connection packet =
    if injection.self_injected
      && not (self_injected_packet_needs_accept_authorization protocol loopback connection packet)
    then permit_self_injected
    else if injection.injected_by_other && is_outbound packet
    then permit_other_injected_outbound
    else process

unfoldable pub should_skip_injected_outbound_flow : Bool → Bool → Bool → Bool
should_skip_injected_outbound_flow is_out network_injected transport_injected =
    is_out && (network_injected || transport_injected)

unfoldable pub should_capture_ale_packet : ℕ → Direction → Bool → Bool
should_capture_ale_packet protocol packet reauthorize =
    not (protocol == tcp) || not (is_outbound packet) || reauthorize

-- A byte of the header, read only where the length has been checked.
abbrev pub byte : List ℕ → ℕ → ℕ
byte bs i = elim (get_elem? bs i) [ none ↦ 0 | some b ↦ b ]

-- `byte 13 & 0x04 != 0` tests bit 2, and `byte 12 >> 4` is the length of the header in words.
unfoldable pub should_permit_ale_tcp_reset : ℕ → Bool → List ℕ → Bool
should_permit_ale_tcp_reset protocol reauthorize header =
    protocol == tcp
    && reauthorize
    && leb 20 (length header)
    && leb 5 (byte header 12 / 16)
    && byte header 13 / 4 % 2 == 1

unfoldable pub should_skip_cross_direction_ale_clone : ℕ → Bool → Direction → Direction → Bool
should_skip_cross_direction_ale_clone protocol reauthorize connection packet =
    not (protocol == udp) && reauthorize && is_outbound connection && is_inbound packet

unfoldable pub self_injected_endpoint_identifies_socket : Direction → Bool
self_injected_endpoint_identifies_socket packet = is_inbound packet
