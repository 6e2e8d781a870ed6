-- ===== src/Protocol/Frames.antt =====
-- Events as self-delimiting frames: a type byte, a 32-bit length, and as many bytes.
use Prim.Native.Nat.{ℕ, ◌+◌, ◌*◌, ◌^◌, ◌<◌}
use mathlib.Core.Path.{◌≡◌, refl, ◌∙◌, ap}
use mathlib.Core.List.{List, [], ◌∷◌, ◌++◌, flat_map, append_assoc}
use mathlib.Core.Option.{Option, none, some}
use native.Mathlib.Omega.{arith}
use windows_kext_mod.Prelude.Lists.{length, drop, All, length-append}
use windows_kext_mod.Prelude.Bytes.{to_le, from_le, from_le-to_le, length-to_le}
use windows_kext_mod.Protocol.Slices.{range, range_at, drop-append}
use windows_kext_mod.Protocol.Command.{◌>>=◌}
use windows_kext_mod.Protocol.Info

-- A frame as a reader takes it off the front of a stream: its type, its content, the rest.
pub read_frame : List ℕ → Option (ℕ × List ℕ × List ℕ)
read_frame [] = none
read_frame (code ∷ stream) = range stream 0 4 >>= λ header.
    range stream 4 (from_le header) >>= λ content.
    some (code, content, drop (4 + from_le header) stream)

-- The length field of a content.
abbrev header_of : List ℕ → List ℕ
header_of content = to_le 4 (Info.as_u32 (length content))

abbrev pub framed : (code : ℕ) (content : List ℕ) → List ℕ
framed code content = code ∷ (header_of content ++ content)

from_le-header_of :
    (content : List ℕ) → length content < 2 ^ 32 → from_le (header_of content) ≡ length content
from_le-header_of content h =
    from_le-to_le 4 (Info.as_u32 (length content)) (omega arith) ∙ omega arith

drop_header :
    (content rest : List ℕ)
    → drop (4 + length content) (header_of content ++ (content ++ rest)) ≡ rest
drop_header content rest =
    let e : 4 + length content ≡ length (header_of content ++ content) = omega (
      arith,
      length-append (header_of content) content,
      length-to_le 4 (Info.as_u32 (length content)),
    ) in
    rw e (
      ap (drop (length (header_of content ++ content))) (assoc_of (header_of content) content rest)
      ∙ drop-append (header_of content ++ content) rest)
  where
    assoc_of : (xs ys zs : List ℕ) → xs ++ (ys ++ zs) ≡ (xs ++ ys) ++ zs
    assoc_of xs ys zs = simp append_assoc

read_frame-framed :
    (code : ℕ) (content rest : List ℕ)
    → length content < 2 ^ 32
    → read_frame (code ∷ (header_of content ++ (content ++ rest))) ≡ some (code, content, rest)
unfolding read_frame
read_frame-framed code content rest h =
    let stream = header_of content ++ (content ++ rest) in
    rw
      (
        range_at stream [] (header_of content) (content ++ rest) 0 4 refl refl
            (length-to_le 4 (Info.as_u32 (length content))),
        from_le-header_of content h,
        range_at stream (header_of content) content rest 4 (length content) refl
            (length-to_le 4 (Info.as_u32 (length content))) refl,
        drop_header content rest,
      )
      refl

-- An event whose declared size is the length of its content is read as one frame.
pub read_frame-info :
    (code size : ℕ) (content rest : List ℕ)
    → size ≡ length content
    → length content < 2 ^ 32
    → read_frame ((code ∷ to_le 4 (Info.as_u32 size) ++ content) ++ rest)
      ≡ some (code, content, rest)
read_frame-info code size content rest e h =
    rw (e, append_assoc) (read_frame-framed code content rest h)

length-connection_fields :
    (a : ℕ) (c : Info.ConnectionInfo)
    → length c.local_ip ≡ a
    → length c.remote_ip ≡ a
    → length (Info.connection_fields c) ≡ Info.connection_size a c
length-connection_fields a c h k = omega (arith, length-append {0}, length-to_le)

-- An IPv4 connection event is one frame of type 1 around its `connection_fields`, whatever
-- follows it in the stream, if its addresses have 4 bytes and its content fits the length field.
pub read_frame-connection_info_v4 :
    (c : Info.ConnectionInfo) (rest : List ℕ)
    → length c.local_ip ≡ 4
    → length c.remote_ip ≡ 4
    → Info.connection_size 4 c < 2 ^ 32
    → read_frame ((Info.connection_info_v4 c).bytes ++ rest)
      ≡ some (1, Info.connection_fields c, rest)
unfolding Info.connection_info_v4
read_frame-connection_info_v4 c rest h k fits =
    let e = length-connection_fields 4 c h k in
    read_frame-info 1 (Info.connection_size 4 c) (Info.connection_fields c) rest (omega (arith, e))
      (omega (arith, e))

-- An IPv6 connection event is one frame of type 2 around its `connection_fields`, whatever
-- follows it in the stream, if its addresses have 16 bytes and its content fits the length field.
pub read_frame-connection_info_v6 :
    (c : Info.ConnectionInfo) (rest : List ℕ)
    → length c.local_ip ≡ 16
    → length c.remote_ip ≡ 16
    → Info.connection_size 16 c < 2 ^ 32
    → read_frame ((Info.connection_info_v6 c).bytes ++ rest)
      ≡ some (2, Info.connection_fields c, rest)
unfolding Info.connection_info_v6
read_frame-connection_info_v6 c rest h k fits =
    let e = length-connection_fields 16 c h k in
    read_frame-info 2 (Info.connection_size 16 c) (Info.connection_fields c) rest (omega (arith, e))
      (omega (arith, e))

length-end_fields :
    (a : ℕ) (c : Info.ConnectionEnd)
    → length c.local_ip ≡ a
    → length c.remote_ip ≡ a
    → length (Info.end_fields c) ≡ Info.end_size a
length-end_fields a c h k = omega (arith, length-append {0}, length-to_le)

-- The end event of an IPv4 connection is one frame of type 3 with its fields in order, if its
-- addresses have 4 bytes.
pub read_frame-connection_end_event_v4 :
    (c : Info.ConnectionEnd) (rest : List ℕ)
    → length c.local_ip ≡ 4
    → length c.remote_ip ≡ 4
    → read_frame ((Info.connection_end_event_v4_info c).bytes ++ rest)
      ≡ some (3, Info.end_fields c, rest)
unfolding Info.connection_end_event_v4_info
read_frame-connection_end_event_v4 c rest h k =
    let e = length-end_fields 4 c h k in
    read_frame-info 3 (Info.end_size 4) (Info.end_fields c) rest (omega (arith, e))
      (omega (arith, e))

-- The end event of an IPv6 connection is one frame of type 4 with its fields in order, if its
-- addresses have 16 bytes.
pub read_frame-connection_end_event_v6 :
    (c : Info.ConnectionEnd) (rest : List ℕ)
    → length c.local_ip ≡ 16
    → length c.remote_ip ≡ 16
    → read_frame ((Info.connection_end_event_v6_info c).bytes ++ rest)
      ≡ some (4, Info.end_fields c, rest)
unfolding Info.connection_end_event_v6_info
read_frame-connection_end_event_v6 c rest h k =
    let e = length-end_fields 16 c h k in
    read_frame-info 4 (Info.end_size 16) (Info.end_fields c) rest (omega (arith, e))
      (omega (arith, e))

-- Both addresses of a bandwidth value have `a` bytes.
abbrev pub HasAddresses : ℕ → Info.BandwidthValue → Type 0
HasAddresses a v = (length v.local_ip ≡ a) × (length v.remote_ip ≡ a)

length-value_fields :
    (a : ℕ) (v : Info.BandwidthValue)
    → HasAddresses a v
    → length (Info.value_fields v) ≡ Info.serialized_size a
length-value_fields a v h = omega (arith, length-append {0}, length-to_le)

length-values :
    (a : ℕ) (values : List Info.BandwidthValue)
    → All (HasAddresses a) values
    → length (flat_map Info.value_fields values) ≡ Info.serialized_size a * length values
unfolding flat_map
length-values a [] h = omega arith
length-values a (v ∷ values) h =
    let e = length-value_fields a v h.0 in
    let rest = length-values a values h.1 in
    let size = Info.serialized_size a in
    length-append (Info.value_fields v) (flat_map Info.value_fields values)
    ∙ cong2 e rest
    ∙ grind arith
  where
    cong2 : {x y z w : ℕ} → x ≡ y → z ≡ w → x + z ≡ y + w
    cong2 h k = omega (arith, h, k)

length-stats_fields :
    (a protocol : ℕ) (values : List Info.BandwidthValue)
    → All (HasAddresses a) values
    → length (Info.stats_fields protocol values) ≡ 1 + 4 + Info.serialized_size a * length values
length-stats_fields a protocol values h = omega (
  arith,
  length-values a values h,
  length-append (to_le 4 (Info.as_u32 (length values))) (flat_map Info.value_fields values),
  length-to_le 4 (Info.as_u32 (length values)),
)

-- The IPv4 bandwidth event is one frame of type 5 with the protocol, the number of values and the
-- values in order, if every address has 4 bytes and the content fits the length field.
pub read_frame-bandwidth_stats_array_v4 :
    (protocol : ℕ) (values : List Info.BandwidthValue) (rest : List ℕ)
    → All (HasAddresses 4) values
    → 1 + 4 + Info.serialized_size 4 * length values < 2 ^ 32
    → read_frame ((Info.bandwidth_stats_array_v4 protocol values).bytes ++ rest)
      ≡ some (5, Info.stats_fields protocol values, rest)
unfolding Info.bandwidth_stats_array_v4
read_frame-bandwidth_stats_array_v4 protocol values rest h fits =
    let e = length-stats_fields 4 protocol values h in
    read_frame-info 5 (1 + 4 + Info.serialized_size 4 * length values)
      (Info.stats_fields protocol values) rest (omega (arith, e)) (omega (arith, e))

-- The IPv6 bandwidth event is one frame of type 6 with the protocol, the number of values and the
-- values in order, if every address has 16 bytes and the content fits the length field.
pub read_frame-bandwidth_stats_array_v6 :
    (protocol : ℕ) (values : List Info.BandwidthValue) (rest : List ℕ)
    → All (HasAddresses 16) values
    → 1 + 4 + Info.serialized_size 16 * length values < 2 ^ 32
    → read_frame ((Info.bandwidth_stats_array_v6 protocol values).bytes ++ rest)
      ≡ some (6, Info.stats_fields protocol values, rest)
unfolding Info.bandwidth_stats_array_v6
read_frame-bandwidth_stats_array_v6 protocol values rest h fits =
    let e = length-stats_fields 16 protocol values h in
    read_frame-info 6 (1 + 4 + Info.serialized_size 16 * length values)
      (Info.stats_fields protocol values) rest (omega (arith, e)) (omega (arith, e))
