-- ===== src/Tests/Ipv6.antt =====
-- IPv6 packets at concrete inputs.
use Prim.Native.Nat.{ℕ, zero, suc, ◌+◌, ◌*◌, ◌/◌, ◌≤◌}
use mathlib.Core.Path.{◌≡◌, refl}
use mathlib.Core.Bool.{true, false, ◌&&◌}
use mathlib.Core.List.{List, [], ◌∷◌, ◌++◌}
use native.Mathlib.Omega.{arith}
use windows_kext_mod.Prelude.Tests.{leb}
use windows_kext_mod.Prelude.Lists.{length, take, drop}
use windows_kext_mod.Ipv6Packet.{
  HeaderFields, Ipv6Headers, at, prefix, start, visit, visit_fragment, visit_options, walk_from,
  walk_ipv6_headers_reader,
}
use windows_kext_mod.Ipv6Packet.Walk.{Chain, ends, follows, walk_ipv6_headers_reader-Chain}
use windows_kext_mod.Ipv6Packet.Passed.{Passed, IsEnd, walk_ipv6_headers_reader-Passed}
use windows_kext_mod.Ipv6Packet.Rewrite.{
  source_port, error, fragmented_packet, Wire, transport_context, rewrite_ipv6_tcp_udp,
}
use windows_kext_mod.Ipv6Packet.Unchanged.{Documented, rewrite_ipv6_tcp_udp_unchanged}

abbrev fields : HeaderFields
fields = record {
  next_header = λ p. at p 6;
  ext_next_header = λ e. at e 0;
  ext_header_len = λ e. at e 1;
}

abbrev zeros : ℕ → List ℕ
zeros zero = []
zeros (suc n) = 0 ∷ zeros n

-- A base header with that next header, before 16 bytes.
abbrev base : ℕ → List ℕ
base next = 96 ∷ 0 ∷ 0 ∷ 0 ∷ 0 ∷ 16 ∷ next ∷ 64 ∷ zeros 32

-- A UDP header after a Hop-by-Hop Options header, and the first fragment of a datagram.
abbrev options_packet : List ℕ
options_packet = base 0 ++ 17 ∷ 0 ∷ zeros 14

abbrev fragment_packet : List ℕ
fragment_packet = base 44 ++ 17 ∷ 0 ∷ 0 ∷ 1 ∷ zeros 12

abbrev reached : Ipv6Headers
reached = record {
  protocol = 17;
  transport_offset = 48;
  is_fragment = false;
  active_routing_header = false;
  resolved = false;
}

chain :
    Chain fields options_packet true true 1
      (start (fields.next_header (take 40 options_packet)))
      reached
unfolding visit visit_options visit_fragment prefix
chain = follows refl refl ends

walk_ipv6_headers_reader-Passed_example :
    IsEnd fields fragment_packet false (walk_ipv6_headers_reader fields fragment_packet false true)
    × Passed fields fragment_packet
        (start (fields.next_header (take 40 fragment_packet)))
        (walk_ipv6_headers_reader fields fragment_packet false true)
walk_ipv6_headers_reader-Passed_example =
    walk_ipv6_headers_reader-Passed fields fragment_packet false true (omega arith)

walk_ipv6_headers_reader-Chain_example :
    walk_ipv6_headers_reader fields options_packet true true ≡ record reached { resolved = true }
walk_ipv6_headers_reader-Chain_example =
    walk_ipv6_headers_reader-Chain fields options_packet true true 1 reached (omega arith)
      (omega arith) chain refl

-- The bytes from a place on, overwritten by at most so many others.
abbrev overlay : (skip count : ℕ) → List ℕ → List ℕ → List ℕ
overlay skip count bytes [] = []
overlay (suc skip) count bytes (x ∷ xs) = x ∷ overlay skip count bytes xs
overlay zero zero bytes (x ∷ xs) = x ∷ xs
overlay zero (suc count) [] (x ∷ xs) = x ∷ xs
overlay zero (suc count) (b ∷ bytes) (x ∷ xs) = b ∷ overlay zero count bytes xs

length-overlay :
    (skip count : ℕ) (bytes xs : List ℕ) → length (overlay skip count bytes xs) ≡ length xs
length-overlay skip count bytes [] = refl
length-overlay (suc skip) count bytes (x ∷ xs) = omega (arith, length-overlay skip count bytes xs)
length-overlay zero zero bytes (x ∷ xs) = refl
length-overlay zero (suc count) [] (x ∷ xs) = refl
length-overlay zero (suc count) (b ∷ bytes) (x ∷ xs) =
    omega (arith, length-overlay zero count bytes xs)

drop-overlay :
    (n skip count : ℕ) (bytes xs : List ℕ)
    → skip + count ≤ n
    → drop n (overlay skip count bytes xs) ≡ drop n xs
drop-overlay n skip count bytes [] h = refl
drop-overlay zero (suc skip) count bytes (x ∷ xs) h = absurd (omega (arith, h))
drop-overlay (suc n) (suc skip) count bytes (x ∷ xs) h =
    drop-overlay n skip count bytes xs (omega (arith, h))
drop-overlay n zero zero bytes (x ∷ xs) h = refl
drop-overlay n zero (suc count) [] (x ∷ xs) h = refl
drop-overlay zero zero (suc count) (b ∷ bytes) (x ∷ xs) h = absurd (omega (arith, h))
drop-overlay (suc n) zero (suc count) (b ∷ bytes) (x ∷ xs) h =
    drop-overlay n zero count bytes xs (omega (arith, h))

abbrev declared_len : List ℕ → ℕ
declared_len p = at p 4 * 256 + at p 5

-- The accessors of smoltcp on the bytes; the checksum is left at 0.
abbrev wire : Wire
wire = record {
  fields = fields;
  packet_is_valid = λ p. leb 40 (40 + declared_len p) && leb (40 + declared_len p) (length p);
  version = λ p. at p 0 / 16;
  total_len = λ p. 40 + declared_len p;
  payload_len = declared_len;
  src_addr = λ p. take 16 (drop 8 p);
  dst_addr = λ p. take 16 (drop 24 p);
  set_src_addr = λ p a. overlay 8 16 a p;
  set_dst_addr = λ p a. overlay 24 16 a p;
  udp_is_valid = λ t. leb 8 (length t);
  tcp_is_valid = λ t. leb 20 (length t);
  set_udp_port = λ port t. t;
  set_tcp_port = λ port t. t;
  fill_udp_checksum = λ s d t. t;
  fill_tcp_checksum = λ s d t. t;
}

wire_valid_len :
    (p : List ℕ)
    → wire.packet_is_valid p ≡ true
    → (40 ≤ wire.total_len p) × (wire.total_len p ≤ length p)
wire_valid_len p h = ground (arith, h)

documented : Documented wire
documented = record {
  valid_len = wire_valid_len;
  src_len = λ p a. length-overlay 8 16 a p;
  dst_len = λ p a. length-overlay 24 16 a p;
  src_rest = λ p a. drop-overlay 40 8 16 a p (omega arith);
  dst_rest = λ p a. drop-overlay 40 24 16 a p (omega arith);
}

refused :
    (rewrite_ipv6_tcp_udp wire fragment_packet (1 ∷ []) (2 ∷ []) (source_port 53)).1
    ≡ error fragmented_packet
unfolding rewrite_ipv6_tcp_udp transport_context walk_ipv6_headers_reader walk_from visit
    visit_options visit_fragment prefix
refused = refl

rewrite_ipv6_tcp_udp_unchanged_example :
    (rewrite_ipv6_tcp_udp wire fragment_packet (1 ∷ []) (2 ∷ []) (source_port 53)).0
    ≡ fragment_packet
rewrite_ipv6_tcp_udp_unchanged_example =
    rewrite_ipv6_tcp_udp_unchanged wire documented fragment_packet (1 ∷ []) (2 ∷ [])
      (source_port 53) {e = fragmented_packet} refused
