-- ===== src/Protocol/Info.antt =====
-- windows_kext/protocol/src/info.rs: the events that user space reads, as their bytes.
use Prim.Native.Nat.{ℕ, zero, suc, ◌+◌, ◌-◌, ◌*◌, ◌/◌, ◌%◌, ◌^◌}
use mathlib.Core.List.{List, [], ◌∷◌, ◌++◌, flat_map}
use windows_kext_mod.Prelude.Tests.{ltb, if◌then◌else◌}
use windows_kext_mod.Prelude.Lists.{length}
use windows_kext_mod.Prelude.Bytes.{to_le}

pub data InfoType : Type 0 where
  log_line connection_ipv4 connection_ipv6 connection_end_event_v4 : InfoType
  connection_end_event_v6 bandwidth_stats_v4 bandwidth_stats_v6 : InfoType

abbrev pub info_code : InfoType → ℕ
info_code log_line = 0
info_code connection_ipv4 = 1
info_code connection_ipv6 = 2
info_code connection_end_event_v4 = 3
info_code connection_end_event_v6 = 4
info_code bandwidth_stats_v4 = 5
info_code bandwidth_stats_v6 = 6

-- `x as u32`
abbrev pub as_u32 : ℕ → ℕ
as_u32 n = n % 2 ^ 32

-- `Info`: the bytes, and the capacity of their vector, which `write_str` reads.
pub record Info : Type 0 where
  pub bytes : List ℕ
  pub capacity : ℕ

-- `Info::new`
unfoldable pub new : InfoType → ℕ → Info
new info_type size = record {
  bytes = info_code info_type ∷ to_le 4 (as_u32 size);
  capacity = size + 5;
}

unfoldable pub with_capacity : InfoType → ℕ → Info
with_capacity info_type capacity = record {
  bytes = info_code info_type ∷ to_le 4 0;
  capacity = capacity + 5;
}

-- `push_bytes!`. The vectors grow past their capacity only where a caller's size was too small.
abbrev pub push : Info → List ℕ → Info
push info bytes = record info { bytes = info.bytes ++ bytes }

-- `bytes[i] = v`
abbrev pub set : List ℕ → ℕ → ℕ → List ℕ
set [] i v = []
set (x ∷ xs) zero v = v ∷ xs
set (x ∷ xs) (suc i) v = x ∷ set xs i v

unfoldable pub update_size : Info → Info
update_size info =
    let size = length info.bytes - 5 in
    record info {
      bytes =
          set
            (set (set (set info.bytes 1 (size % 256)) 2 (size / 2 ^ 8 % 256)) 3
              (size / 2 ^ 16 % 256))
            4 (size / 2 ^ 24 % 256);
    }

abbrev pub max_capacity : ℕ
max_capacity = 500

-- `write_str`, where `reserve capacity len added` is the capacity of the vector once
-- `Vec::reserve` and the append have grown it.
unfoldable pub write_str : (ℕ → ℕ → ℕ → ℕ) → Info → List ℕ → Info
unfolding update_size
write_str reserve info s =
    if ltb (info.capacity - length info.bytes) (length s)
    then (if ltb info.capacity max_capacity
        then update_size (
            push (record info { capacity = reserve info.capacity (length info.bytes) (length s) })
              s)
        else info)
    else update_size (push info s)

-- The fields that `connection_info_v4` and `connection_info_v6` push, in order.
pub record ConnectionInfo : Type 0 where
  pub id : ℕ
  pub process_id : ℕ
  pub direction : ℕ
  pub protocol : ℕ
  pub local_ip : List ℕ
  pub remote_ip : List ℕ
  pub local_port : ℕ
  pub remote_port : ℕ
  pub payload_layer : ℕ
  pub payload : List ℕ

-- `get_combined_size!` of the fields, with addresses of `a` bytes, and the payload's length
abbrev pub connection_size : ℕ → ConnectionInfo → ℕ
connection_size a c = 8 + 8 + 1 + 1 + a + a + 2 + 2 + 1 + 4 + length c.payload

abbrev pub connection_fields : ConnectionInfo → List ℕ
connection_fields c =
    to_le 8 c.id
    ++ (to_le 8 c.process_id
        ++ (c.direction
            ∷ c.protocol
            ∷ (c.local_ip
                ++ (c.remote_ip
                    ++ (to_le 2 c.local_port
                        ++ (to_le 2 c.remote_port
                            ++ (c.payload_layer
                                ∷ (to_le 4 (as_u32 (length c.payload)) ++ c.payload))))))))

unfoldable pub connection_info_v4 : ConnectionInfo → Info
unfolding new
connection_info_v4 c = push (new connection_ipv4 (connection_size 4 c)) (connection_fields c)

-- An empty payload is not pushed, which is the same.
unfoldable pub connection_info_v6 : ConnectionInfo → Info
unfolding new
connection_info_v6 c = push (new connection_ipv6 (connection_size 16 c)) (connection_fields c)

-- The fields that the connection end events push, in order.
pub record ConnectionEnd : Type 0 where
  pub process_id : ℕ
  pub direction : ℕ
  pub protocol : ℕ
  pub local_ip : List ℕ
  pub remote_ip : List ℕ
  pub local_port : ℕ
  pub remote_port : ℕ

abbrev pub end_size : ℕ → ℕ
end_size a = 8 + 1 + 1 + a + a + 2 + 2

abbrev pub end_fields : ConnectionEnd → List ℕ
end_fields c =
    to_le 8 c.process_id
    ++ (c.direction
        ∷ c.protocol
        ∷ (c.local_ip ++ (c.remote_ip ++ (to_le 2 c.local_port ++ to_le 2 c.remote_port))))

unfoldable pub connection_end_event_v4_info : ConnectionEnd → Info
unfolding new
connection_end_event_v4_info c = push (new connection_end_event_v4 (end_size 4)) (end_fields c)

unfoldable pub connection_end_event_v6_info : ConnectionEnd → Info
unfolding new
connection_end_event_v6_info c = push (new connection_end_event_v6 (end_size 16)) (end_fields c)

-- `log_line`: a frame that starts with a declared size of 0 and the severity.
unfoldable pub log_line_info : ℕ → ℕ → Info
unfolding with_capacity
log_line_info severity capacity = push (with_capacity log_line capacity) (severity ∷ [])

pub record BandwidthValue : Type 0 where
  pub local_ip : List ℕ
  pub local_port : ℕ
  pub remote_ip : List ℕ
  pub remote_port : ℕ
  pub transmitted_bytes : ℕ
  pub received_bytes : ℕ

-- `SERIALIZED_SIZE` with addresses of `a` bytes
abbrev pub serialized_size : ℕ → ℕ
serialized_size a = 2 * a + 2 * 2 + 2 * 8

abbrev pub value_fields : BandwidthValue → List ℕ
value_fields v =
    v.local_ip
    ++ (to_le 2 v.local_port
        ++ (v.remote_ip
            ++ (to_le 2 v.remote_port
                ++ (to_le 8 v.transmitted_bytes ++ to_le 8 v.received_bytes))))

abbrev pub stats_fields : ℕ → List BandwidthValue → List ℕ
stats_fields protocol values =
    protocol ∷ (to_le 4 (as_u32 (length values)) ++ flat_map value_fields values)

unfoldable pub bandwidth_stats_array_v4 : ℕ → List BandwidthValue → Info
unfolding new
bandwidth_stats_array_v4 protocol values =
    push (new bandwidth_stats_v4 (1 + 4 + serialized_size 4 * length values))
      (stats_fields protocol values)

unfoldable pub bandwidth_stats_array_v6 : ℕ → List BandwidthValue → Info
unfolding new
bandwidth_stats_array_v6 protocol values =
    push (new bandwidth_stats_v6 (1 + 4 + serialized_size 16 * length values))
      (stats_fields protocol values)
