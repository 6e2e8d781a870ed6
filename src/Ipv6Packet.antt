-- ===== src/Ipv6Packet.antt =====
-- windows_kext/driver/src/ipv6_packet.rs: the walk over the extension headers of an IPv6 packet.
-- The packet is a slice of bytes; the readers of other packet stores give the same prefixes.
pub mod Walk
pub mod Passed
pub mod Rewrite
pub mod Unchanged
use Prim.Native.Nat.{ℕ, zero, suc, ◌+◌, ◌*◌, ◌/◌, ◌%◌, ◌^◌}
use mathlib.Core.Bool.{Bool, true, false, not, ◌&&◌, ◌||◌}
use mathlib.Core.List.{List, [], ◌∷◌}
use mathlib.Core.Option.{Option, none, some}
use windows_kext_mod.Prelude.Tests.{◌==◌, leb, ltb, if◌then◌else◌}
use windows_kext_mod.Prelude.Lists.{length, take, drop, get_elem?}

-- `IpProtocol` by its number
abbrev pub hop_by_hop : ℕ
hop_by_hop = 0

abbrev pub ipv6_route : ℕ
ipv6_route = 43

abbrev pub ipv6_frag : ℕ
ipv6_frag = 44

abbrev pub ipv6_opts : ℕ
ipv6_opts = 60

abbrev pub max_ipv6_ext_headers : ℕ
max_ipv6_ext_headers = 8

abbrev pub ipv6_header_len : ℕ
ipv6_header_len = 40

-- What the walk reads with smoltcp: the next header of a base header, and the two fields of an
-- extension header.
pub record HeaderFields : Type 0 where
  pub next_header : List ℕ → ℕ
  pub ext_next_header : List ℕ → ℕ
  pub ext_header_len : List ℕ → ℕ

-- Here `transport_offset` and `protocol` are the loop's variables as well.
pub record Ipv6Headers : Type 0 where
  pub protocol : ℕ
  pub transport_offset : ℕ
  pub is_fragment : Bool
  pub active_routing_header : Bool
  pub resolved : Bool

-- `checked_add` on `usize`
abbrev pub checked_add : ℕ → ℕ → Option ℕ
checked_add a b = if ltb (a + b) (2 ^ 64) then some (a + b) else none

-- `self.get(..length)`
unfoldable pub prefix : List ℕ → ℕ → Option (List ℕ)
prefix packet n = if leb n (length packet) then some (take n packet) else none

-- `slice[i]`; the code indexes within the prefix it asked for.
abbrev pub at : List ℕ → ℕ → ℕ
at xs i = elim (get_elem? xs i) [ none ↦ 0 | some x ↦ x ]

-- `PacketData::byte`
unfoldable pub byte : List ℕ → ℕ → Option ℕ
byte packet offset = elim (checked_add offset 1) [
  | none ↦ none
  | some end ↦ elim (prefix packet end) [ none ↦ none | some p ↦ get_elem? p offset ]
]

-- `checked_add(length).filter(|end| *end <= packet.len())`
abbrev pub end_within : List ℕ → ℕ → ℕ → Option ℕ
end_within packet offset n = elim (checked_add offset n) [
  | none ↦ none
  | some end ↦ if leb end (length packet) then some end else none
]

abbrev pub is_extension : ℕ → Bool
is_extension p = p == ipv6_frag || (p == hop_by_hop || (p == ipv6_route || p == ipv6_opts))

abbrev pub start : (protocol : ℕ) → Ipv6Headers
start protocol = record {
  protocol = protocol;
  transport_offset = ipv6_header_len;
  is_fragment = false;
  active_routing_header = false;
  resolved = false;
}

-- One turn of the loop: `break`, or on to the next header.
pub data Turn : Type 0 where
  stop : Ipv6Headers → Turn
  follow : Ipv6Headers → Turn

-- `fragment_bits & 0xfff9 != 0`
abbrev pub is_non_atomic : ℕ → Bool
is_non_atomic bits = not (bits % 2 == 0 && bits / 8 == 0)

unfoldable pub visit_fragment : List ℕ → (stop_at_fragment : Bool) → Ipv6Headers → Turn
visit_fragment packet stop_at_fragment s =
    let offset = s.transport_offset in
    elim (end_within packet offset 8) [
      | none ↦ stop s
      | some end ↦ elim (prefix packet (offset + 4)) [
        | none ↦ stop s
        | some p ↦
            let splits = is_non_atomic (at p (offset + 2) * 256 + at p (offset + 3)) in
            let next : Ipv6Headers = record s {
              protocol = at p offset;
              transport_offset = end;
              is_fragment = s.is_fragment || splits;
            } in
            if splits && stop_at_fragment then stop next else follow next
      ]
    ]

module _ (fields : HeaderFields) (packet : List ℕ) (stop_at_fragment inspect_routing : Bool) where
  -- `.is_some_and(|prefix| prefix[offset + 3] != 0)`
  abbrev pub has_segments_left : ℕ → Bool
  has_segments_left offset = elim (checked_add offset 4) [
    | none ↦ false
    | some end ↦ elim (prefix packet end) [ none ↦ false | some p ↦ not (at p (offset + 3) == 0) ]
  ]

  unfoldable pub visit_options : Ipv6Headers → Turn
  visit_options s =
      let offset = s.transport_offset in
      elim (checked_add offset 2) [
        | none ↦ stop s
        | some end ↦ elim (prefix packet end) [
          | none ↦ stop s
          | some p ↦
              let extension = drop offset p in
              elim (end_within packet offset ((fields.ext_header_len extension + 1) * 8)) [
                | none ↦ stop s
                | some next_offset ↦ follow (record s {
                  protocol = fields.ext_next_header extension;
                  transport_offset = next_offset;
                  active_routing_header =
                      s.active_routing_header
                      || (inspect_routing
                          && (s.protocol == ipv6_route && has_segments_left offset));
                })
              ]
        ]
      ]

  unfoldable pub visit : Ipv6Headers → Turn
  visit s =
      if s.protocol == ipv6_frag then visit_fragment packet stop_at_fragment s else visit_options s

  -- The loop, by the number of extension headers that may still be followed.
  unfoldable pub walk_from : (left : ℕ) → Ipv6Headers → Ipv6Headers
  walk_from zero s = if is_extension s.protocol then s else record s { resolved = true }
  walk_from (suc left) s =
      if is_extension s.protocol
      then elim (visit s) [ stop r ↦ r | follow r ↦ walk_from left r ]
      else record s { resolved = true }

  unfoldable pub walk_ipv6_headers_reader : Ipv6Headers
  walk_ipv6_headers_reader = elim (prefix packet ipv6_header_len) [
    | none ↦ start 0
    | some base ↦ walk_from max_ipv6_ext_headers (start (fields.next_header base))
  ]

abbrev pub walk_ipv6_headers : HeaderFields → List ℕ → Bool → Ipv6Headers
walk_ipv6_headers fields packet stop_at_fragment =
    walk_ipv6_headers_reader fields packet stop_at_fragment true
