-- ===== src/Bandwidth.antt =====
-- windows_kext/driver/src/bandwidth.rs: the bytes that each connection sent and received since the
-- last report.
pub mod Totals
pub mod Reports
use Prim.Native.Nat.{ℕ, ◌+◌, ◌%◌, ◌^◌}
use mathlib.Core.List.{List, [], ◌∷◌}
use mathlib.Core.Option.{Option, none, some}
use windows_kext_mod.Prelude.Lists.{length}
use windows_kext_mod.Prelude.BTreeMap
use windows_kext_mod.Prelude.BTreeMap.Entry.{write_entry}
use windows_kext_mod.Prelude.Order.{Ord, nat_ord, pair_ord}
use windows_kext_mod.Key.{tcp, udp}
use windows_kext_mod.Connection.{Direction, outbound, inbound}
use windows_kext_mod.Protocol.Info.{
  Info, BandwidthValue, bandwidth_stats_array_v4, bandwidth_stats_array_v6,
}

-- `Key`: local address and port, remote address and port, in the order of their comparison.
abbrev pub Key : Type 0 → Type 0
Key A = A × (ℕ × (A × ℕ))

pub record Value : Type 0 where
  pub received_bytes : ℕ
  pub transmitted_bytes : ℕ

abbrev pub default_value : Value
default_value = record { received_bytes = 0; transmitted_bytes = 0 }

abbrev pub Stats : Type 0 → Type 0
Stats A = BTreeMap.BTreeMap (Key A) Value

-- `+=` on a counter, which has 64 bits and wraps
abbrev pub add_bytes : Direction → ℕ → Value → Value
add_bytes outbound bytes v = record v { transmitted_bytes = (v.transmitted_bytes + bytes) % 2 ^ 64 }
add_bytes inbound bytes v = record v { received_bytes = (v.received_bytes + bytes) % 2 ^ 64 }

module _ {A : Type 0} ⦃o : Ord A⦄ where
  -- `entry(key).or_default()` and the write through it
  unfoldable pub update : Stats A → Key A → Direction → ℕ → Stats A
  update stats key direction bytes = write_entry default_value key (add_bytes direction bytes) stats

-- The closure that makes an entry a value of the report. `bytes_of` is the field of an address.
unfoldable pub report_values : {A : Type 0} → (A → List ℕ) → Stats A → List BandwidthValue
report_values bytes_of [] = []
report_values bytes_of ((k, v) ∷ m) =
    record {
      local_ip = bytes_of k.0;
      local_port = k.1.0;
      remote_ip = bytes_of k.1.1.0;
      remote_port = k.1.1.1;
      transmitted_bytes = v.transmitted_bytes;
      received_bytes = v.received_bytes;
    }
    ∷ report_values bytes_of m

-- The map is taken and reported, unless it is empty.
abbrev pub take_report : {A : Type 0} → (Stats A → Info) → Stats A → Stats A × Option Info
take_report report [] = ([], none)
take_report report (e ∷ m) = ([], some (report (e ∷ m)))

-- `Bandwidth`, over the types of the two families of addresses
pub record Bandwidth (V4 V6 : Type 0) : Type 0 where
  pub stats_tcp_v4 : Stats V4
  pub stats_tcp_v6 : Stats V6
  pub stats_udp_v4 : Stats V4
  pub stats_udp_v6 : Stats V6

unfoldable pub new : {V4 V6 : Type 0} → Bandwidth V4 V6
new = record { stats_tcp_v4 = []; stats_tcp_v6 = []; stats_udp_v4 = []; stats_udp_v6 = [] }

module _ {V4 V6 : Type 0} where
  unfoldable pub get_all_updates_tcp_v4 :
      (V4 → List ℕ) → Bandwidth V4 V6 → Bandwidth V4 V6 × Option Info
  get_all_updates_tcp_v4 bytes_of b =
      let r =
        take_report (λ m. bandwidth_stats_array_v4 tcp (report_values bytes_of m)) b.stats_tcp_v4 in
      (record b { stats_tcp_v4 = r.0 }, r.1)

  unfoldable pub get_all_updates_tcp_v6 :
      (V6 → List ℕ) → Bandwidth V4 V6 → Bandwidth V4 V6 × Option Info
  get_all_updates_tcp_v6 bytes_of b =
      let r =
        take_report (λ m. bandwidth_stats_array_v6 tcp (report_values bytes_of m)) b.stats_tcp_v6 in
      (record b { stats_tcp_v6 = r.0 }, r.1)

  unfoldable pub get_all_updates_udp_v4 :
      (V4 → List ℕ) → Bandwidth V4 V6 → Bandwidth V4 V6 × Option Info
  get_all_updates_udp_v4 bytes_of b =
      let r =
        take_report (λ m. bandwidth_stats_array_v4 udp (report_values bytes_of m)) b.stats_udp_v4 in
      (record b { stats_udp_v4 = r.0 }, r.1)

  unfoldable pub get_all_updates_udp_v6 :
      (V6 → List ℕ) → Bandwidth V4 V6 → Bandwidth V4 V6 × Option Info
  get_all_updates_udp_v6 bytes_of b =
      let r =
        take_report (λ m. bandwidth_stats_array_v6 udp (report_values bytes_of m)) b.stats_udp_v6 in
      (record b { stats_udp_v6 = r.0 }, r.1)

  unfoldable pub get_entries_counts : Bandwidth V4 V6 → ℕ × ℕ × ℕ × ℕ
  get_entries_counts b =
      (length b.stats_tcp_v4, length b.stats_tcp_v6, length b.stats_udp_v4, length b.stats_udp_v6)

module _ {V4 V6 : Type 0} ⦃o4 : Ord V4⦄ where
  unfoldable pub update_tcp_v4 : Bandwidth V4 V6 → Key V4 → Direction → ℕ → Bandwidth V4 V6
  update_tcp_v4 b k d n = record b { stats_tcp_v4 = update b.stats_tcp_v4 k d n }

  unfoldable pub update_udp_v4 : Bandwidth V4 V6 → Key V4 → Direction → ℕ → Bandwidth V4 V6
  update_udp_v4 b k d n = record b { stats_udp_v4 = update b.stats_udp_v4 k d n }

module _ {V4 V6 : Type 0} ⦃o6 : Ord V6⦄ where
  unfoldable pub update_tcp_v6 : Bandwidth V4 V6 → Key V6 → Direction → ℕ → Bandwidth V4 V6
  update_tcp_v6 b k d n = record b { stats_tcp_v6 = update b.stats_tcp_v6 k d n }

  unfoldable pub update_udp_v6 : Bandwidth V4 V6 → Key V6 → Direction → ℕ → Bandwidth V4 V6
  update_udp_v6 b k d n = record b { stats_udp_v6 = update b.stats_udp_v6 k d n }
