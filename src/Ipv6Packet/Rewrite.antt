-- ===== src/Ipv6Packet/Rewrite.antt =====
-- windows_kext/driver/src/ipv6_packet.rs: the rewrite of the addresses, a port and the checksum.
use Prim.Native.Nat.{ℕ, ◌-◌}
use mathlib.Core.Bool.{Bool, false, not, ◌&&◌, ◌||◌}
use mathlib.Core.List.{List, ◌++◌}
use mathlib.Core.Option.{Option, none, some}
use windows_kext_mod.Prelude.Tests.{◌==◌, leb, ltb, if◌then◌else◌}
use windows_kext_mod.Prelude.Lists.{length, take, drop}
use windows_kext_mod.Key.{tcp, udp}
use windows_kext_mod.Ipv6Packet.{HeaderFields, walk_ipv6_headers, ipv6_header_len}

pub data Ipv6TransportError : Type 0 where
  invalid_packet unresolved_headers fragmented_packet active_routing_header : Ipv6TransportError
  unsupported_protocol invalid_transport_header : Ipv6TransportError

pub data PortRewrite : Type 0 where
  source_port : ℕ → PortRewrite
  destination_port : ℕ → PortRewrite

pub data Outcome (A : Type 0) : Type 0 where
  ok : A → Outcome A
  error : Ipv6TransportError → Outcome A

-- The smoltcp calls: the checks and accessors of a whole IPv6 packet, its two address setters, and
-- the check, the port setters and `fill_checksum` of a UDP or TCP segment.
pub record Wire : Type 0 where
  pub fields : HeaderFields
  pub packet_is_valid : List ℕ → Bool
  pub version : List ℕ → ℕ
  pub total_len : List ℕ → ℕ
  pub payload_len : List ℕ → ℕ
  pub src_addr : List ℕ → List ℕ
  pub dst_addr : List ℕ → List ℕ
  pub set_src_addr : List ℕ → List ℕ → List ℕ
  pub set_dst_addr : List ℕ → List ℕ → List ℕ
  pub udp_is_valid : List ℕ → Bool
  pub tcp_is_valid : List ℕ → Bool
  pub set_udp_port : PortRewrite → List ℕ → List ℕ
  pub set_tcp_port : PortRewrite → List ℕ → List ℕ
  pub fill_udp_checksum : (source destination : List ℕ) → List ℕ → List ℕ
  pub fill_tcp_checksum : (source destination : List ℕ) → List ℕ → List ℕ

pub record TransportContext : Type 0 where
  pub protocol : ℕ
  pub offset : ℕ
  pub total_len : ℕ
  pub source : List ℕ
  pub destination : List ℕ

-- `packet.get(start..end)`
unfoldable pub get_range : List ℕ → (start end : ℕ) → Option (List ℕ)
get_range packet start end =
    if leb start end && leb end (length packet)
    then some (take (end - start) (drop start packet))
    else none

-- The packet after a write through `packet.get_mut(start..end)`.
abbrev pub put_range : List ℕ → (start end : ℕ) → List ℕ → List ℕ
put_range packet start end part = take start packet ++ (part ++ drop end packet)

module _ (wire : Wire) where
  unfoldable pub transport_context : List ℕ → Outcome TransportContext
  transport_context packet =
      let total_len = wire.total_len packet in
      let headers = walk_ipv6_headers wire.fields (take total_len packet) false in
      if not (wire.packet_is_valid packet) || not (wire.version packet == 6)
      then error invalid_packet
      else if wire.payload_len packet == 0 && ltb ipv6_header_len (length packet)
      then error invalid_packet
      else if not headers.resolved || ltb total_len headers.transport_offset
      then error unresolved_headers
      else if headers.is_fragment
      then error fragmented_packet
      else if headers.active_routing_header
      then error active_routing_header
      else ok (record {
        protocol = headers.protocol;
        offset = headers.transport_offset;
        total_len = total_len;
        source = wire.src_addr packet;
        destination = wire.dst_addr packet;
      })

  unfoldable pub validate_transport : List ℕ → TransportContext → Outcome Unit
  validate_transport packet c = elim (get_range packet c.offset c.total_len) [
    | none ↦ error invalid_transport_header
    | some transport ↦
        if c.protocol == udp
        then (if wire.udp_is_valid transport then ok tt else error invalid_transport_header)
        else if c.protocol == tcp
        then (if wire.tcp_is_valid transport then ok tt else error invalid_transport_header)
        else error unsupported_protocol
  ]

  -- The part of a rewrite that follows the validation: the packet and the answer.
  unfoldable pub rewrite_valid :
      List ℕ
      → (source destination : List ℕ) → PortRewrite
      → TransportContext
      → List ℕ × Outcome Unit
  rewrite_valid packet source destination port c =
      let header =
        wire.set_dst_addr (wire.set_src_addr (take c.total_len packet) source) destination in
      let readdressed = header ++ drop c.total_len packet in
      elim (get_range readdressed c.offset c.total_len) [
        | none ↦ (readdressed, error invalid_transport_header)
        | some transport ↦
            if c.protocol == udp
            then if wire.udp_is_valid transport
              then (
                put_range readdressed c.offset c.total_len
                    (wire.fill_udp_checksum source destination (wire.set_udp_port port transport)),
                ok tt,
              )
              else (readdressed, error invalid_transport_header)
            else if c.protocol == tcp
            then if wire.tcp_is_valid transport
              then (
                put_range readdressed c.offset c.total_len
                    (wire.fill_tcp_checksum source destination (wire.set_tcp_port port transport)),
                ok tt,
              )
              else (readdressed, error invalid_transport_header)
            else (readdressed, error unsupported_protocol)
      ]

  unfoldable pub rewrite_ipv6_tcp_udp :
      List ℕ → (source destination : List ℕ) → PortRewrite → List ℕ × Outcome Unit
  unfolding rewrite_valid transport_context validate_transport
  rewrite_ipv6_tcp_udp packet source destination port = elim (transport_context packet) [
    | error e ↦ (packet, error e)
    | ok c ↦ elim (validate_transport packet c) [
      | error e ↦ (packet, error e)
      | ok u ↦ rewrite_valid packet source destination port c
    ]
  ]

  unfoldable pub recalculate_ipv6_transport_checksum : List ℕ → List ℕ × Outcome Unit
  unfolding transport_context validate_transport
  recalculate_ipv6_transport_checksum packet = elim (transport_context packet) [
    | error e ↦ (packet, error e)
    | ok c ↦
        if not (c.protocol == tcp || c.protocol == udp)
        then (packet, ok tt)
        else elim (validate_transport packet c) [
          | error e ↦ (packet, error e)
          | ok u ↦ elim (get_range packet c.offset c.total_len) [
            | none ↦ (packet, error invalid_transport_header)
            | some transport ↦
                if c.protocol == udp
                then if wire.udp_is_valid transport
                  then (
                    put_range packet c.offset c.total_len
                        (wire.fill_udp_checksum c.source c.destination transport),
                    ok tt,
                  )
                  else (packet, error invalid_transport_header)
                else if wire.tcp_is_valid transport
                then (
                  put_range packet c.offset c.total_len
                      (wire.fill_tcp_checksum c.source c.destination transport),
                  ok tt,
                )
                else (packet, error invalid_transport_header)
          ]
        ]
  ]
