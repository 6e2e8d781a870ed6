-- ===== src/Tests/Counters.antt =====
-- Counters, their reports and the log at concrete inputs.
use Prim.Native.Nat.{ℕ, ◌%◌, ◌^◌}
use mathlib.Core.Path.{◌≡◌}
use mathlib.Core.List.{List, [], ◌∷◌, ◌++◌}
use mathlib.Core.Option.{none, some}
use native.Mathlib.Omega.{arith}
use windows_kext_mod.Prelude.Order.{nat_ord, pair_ord}
use windows_kext_mod.Key.{tcp}
use windows_kext_mod.Connection.{outbound, inbound}
use windows_kext_mod.Protocol.Info
use windows_kext_mod.Bandwidth.{Key, Stats, Bandwidth, get_all_updates_tcp_v4}
use windows_kext_mod.Bandwidth.Totals
use windows_kext_mod.Bandwidth.Totals.{
  Packet, count_all, value_at, transmitted, total, count_all_lem,
}
use windows_kext_mod.Bandwidth.Reports.{received, by_bytes, get_all_updates_tcp_v4_lem}
use windows_kext_mod.Logger
use windows_kext_mod.Logger.Queue.{LogEvent, added, flushed, run_buffer, run_queue, run_buffer-new}

-- An address by its first byte.
abbrev bytes_v4 : ℕ → List ℕ
bytes_v4 n = n ∷ 0 ∷ 0 ∷ 1 ∷ []

abbrev bytes_v6 : ℕ → List ℕ
bytes_v6 n = bytes_v4 n ++ (bytes_v4 0 ++ (bytes_v4 0 ++ bytes_v4 0))

abbrev web : Key ℕ
web = (10, (40000, (192, 443)))

abbrev mail : Key ℕ
mail = (10, (40001, (193, 993)))

abbrev packets : List (Packet ℕ)
packets =
    record { key = web; direction = outbound; bytes = 100 }
    ∷ record { key = web; direction = inbound; bytes = 1000 }
    ∷ record { key = web; direction = inbound; bytes = 500 }
    ∷ []

count_all_lem_example :
    ((value_at web (count_all [] packets)).received_bytes
      ≡ total (Totals.received web) packets % 2 ^ 64)
    × ((value_at web (count_all [] packets)).transmitted_bytes
        ≡ total (transmitted web) packets % 2 ^ 64)
count_all_lem_example = count_all_lem web packets

abbrev stats : Stats ℕ
stats =
    (web, record { received_bytes = 1500; transmitted_bytes = 100 })
    ∷ (mail, record { received_bytes = 3; transmitted_bytes = 70000 })
    ∷ []

abbrev bandwidth : Bandwidth ℕ ℕ
bandwidth = record {
  stats_tcp_v4 = stats;
  stats_tcp_v6 = [];
  stats_udp_v4 = [];
  stats_udp_v6 = stats;
}

get_all_updates_tcp_v4_lem_example :
    (received (get_all_updates_tcp_v4 bytes_v4 bandwidth).1 (9 ∷ [])
      ≡ some (5, tcp, by_bytes bytes_v4 stats, 9 ∷ []))
    × ((get_all_updates_tcp_v4 bytes_v4 (get_all_updates_tcp_v4 bytes_v4 bandwidth).0).1 ≡ none)
get_all_updates_tcp_v4_lem_example =
    get_all_updates_tcp_v4_lem bytes_v4 bandwidth (9 ∷ []) (omega arith) (omega arith)

abbrev line : ℕ → Info.Info
line severity = Info.log_line_info severity 150

abbrev events : List LogEvent
events = added (line 1) ∷ added (line 2) ∷ flushed ∷ added (line 3) ∷ flushed ∷ []

run_buffer-new_example : run_buffer Logger.new events ≡ run_queue [] events
run_buffer-new_example = run_buffer-new events
