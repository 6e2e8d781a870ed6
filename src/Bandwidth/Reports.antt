-- ===== src/Bandwidth/Reports.antt =====
-- The reports of the counters, as user space decodes them.
use Prim.Native.Nat.{ℕ, zero, suc, ◌+◌, ◌*◌, ◌^◌, ◌<◌}
use mathlib.Core.Path.{◌≡◌, refl}
use mathlib.Core.List.{List, [], ◌∷◌, ◌++◌, append_assoc, flat_map}
use mathlib.Core.Option.{Option, none, some}
use native.Mathlib.Omega.{arith}
use windows_kext_mod.Prelude.Tests.{◌==◌, if◌then◌else◌}
use windows_kext_mod.Prelude.Lists.{All, length}
use windows_kext_mod.Prelude.Bytes.{to_le}
use windows_kext_mod.Key.{tcp, udp}
use windows_kext_mod.Protocol.Command.{◌>>=◌}
use windows_kext_mod.Protocol.Info.{
  Info, as_u32, serialized_size, value_fields, stats_fields, bandwidth_stats_array_v4,
  bandwidth_stats_array_v6,
}
use windows_kext_mod.Protocol.Frames.{
  read_frame, HasAddresses, read_frame-bandwidth_stats_array_v4,
  read_frame-bandwidth_stats_array_v6,
}
use windows_kext_mod.Protocol.Decode.{
  read_byte, read_bytes, read_word, whole, read_byte_lem, read_bytes-append, read_word-to_le,
}
use windows_kext_mod.Bandwidth.{
  Key, Value, Stats, Bandwidth, take_report, report_values, get_all_updates_tcp_v4,
  get_all_updates_udp_v6,
}

-- One entry of a report with addresses of `a` bytes.
pub read_entry : (a : ℕ) → List ℕ → Option ((Key (List ℕ) × Value) × List ℕ)
read_entry a stream = read_bytes a stream >>= λ local_ip. read_word 2 local_ip.1 >>= λ local_port.
    read_bytes a local_port.1 >>= λ remote_ip. read_word 2 remote_ip.1 >>= λ remote_port.
    read_word 8 remote_port.1 >>= λ transmitted. read_word 8 transmitted.1 >>= λ received. some (
      (
        (local_ip.0, (local_port.0, (remote_ip.0, remote_port.0))),
        record { received_bytes = received.0; transmitted_bytes = transmitted.0 },
      ),
      received.1,
    )

pub read_entries : (a count : ℕ) → List ℕ → Option (Stats (List ℕ) × List ℕ)
read_entries a zero stream = some ([], stream)
read_entries a (suc count) stream = read_entry a stream >>= λ entry.
    read_entries a count entry.1 >>= λ entries. some (entry.0 ∷ entries.0, entries.1)

-- The length of the addresses, by the type of the frame.
pub report_address_length : ℕ → Option ℕ
report_address_length code = if code == 5 then some 4 else if code == 6 then some 16 else none

-- The type of a report at the front of a stream, its protocol and its entries, and what follows.
pub read_report : List ℕ → Option (ℕ × ℕ × Stats (List ℕ) × List ℕ)
read_report stream = read_frame stream >>= λ frame. report_address_length frame.0 >>= λ a.
    read_byte frame.1 >>= λ protocol. read_word 4 protocol.1 >>= λ count.
    read_entries a count.0 count.1 >>= λ entries.
    whole entries >>= λ stats. some (frame.0, protocol.0, stats, frame.2)

-- What a reader has of an answer of `get_all_updates` and what follows it.
pub received : Option Info → List ℕ → Option (ℕ × ℕ × Stats (List ℕ) × List ℕ)
received none rest = none
received (some info) rest = read_report (info.bytes ++ rest)

module _ {A : Type 0} (bytes_of : A → List ℕ) where
  abbrev pub key_by_bytes : Key A → Key (List ℕ)
  key_by_bytes k = (bytes_of k.0, (k.1.0, (bytes_of k.1.1.0, k.1.1.1)))

  -- The map, with its addresses as bytes.
  abbrev pub by_bytes : Stats A → Stats (List ℕ)
  by_bytes [] = []
  by_bytes ((k, v) ∷ m) = (key_by_bytes k, v) ∷ by_bytes m

  -- What is to be read of a map: nothing of an empty one, and all of any other.
  abbrev pub expected :
      (code protocol : ℕ) → Stats A → List ℕ → Option (ℕ × ℕ × Stats (List ℕ) × List ℕ)
  expected code protocol [] rest = none
  expected code protocol (e ∷ m) rest = some (code, protocol, by_bytes (e ∷ m), rest)

  -- The addresses of an entry have `a` bytes, its ports and its counters fit.
  abbrev pub EntryFits : ℕ → Key A × Value → Type 0
  EntryFits a (k, v) =
      (length (bytes_of k.0) ≡ a)
      × (length (bytes_of k.1.1.0) ≡ a)
      × (k.1.0 < 2 ^ 16)
      × (k.1.1.1 < 2 ^ 16)
      × (v.transmitted_bytes < 2 ^ 64)
      × (v.received_bytes < 2 ^ 64)

  -- The bytes of an entry, and the same before what follows them.
  abbrev value_bytes : Key A → Value → List ℕ
  value_bytes k v =
      bytes_of k.0
      ++ (to_le 2 k.1.0
          ++ (bytes_of k.1.1.0
              ++ (to_le 2 k.1.1.1 ++ (to_le 8 v.transmitted_bytes ++ to_le 8 v.received_bytes))))

  abbrev value_parts : Key A → Value → List ℕ → List ℕ
  value_parts k v rest =
      bytes_of k.0
      ++ (to_le 2 k.1.0
          ++ (bytes_of k.1.1.0
              ++ (to_le 2 k.1.1.1
                  ++ (to_le 8 v.transmitted_bytes ++ (to_le 8 v.received_bytes ++ rest)))))

  read_entry-value_fields :
      (a : ℕ) (k : Key A) (v : Value) (rest : List ℕ)
      → EntryFits a (k, v)
      → read_entry a (value_parts k v rest) ≡ some ((key_by_bytes k, v), rest)
  unfolding read_entry
  read_entry-value_fields a k v rest (local_ip, remote_ip, local_port, remote_port, sent, got) =
      let from_got = to_le 8 v.received_bytes ++ rest in
      let from_sent = to_le 8 v.transmitted_bytes ++ from_got in
      let from_port = to_le 2 k.1.1.1 ++ from_sent in
      let from_remote = bytes_of k.1.1.0 ++ from_port in
      rw
        (
          read_bytes-append a (bytes_of k.0) (to_le 2 k.1.0 ++ from_remote) local_ip,
          read_word-to_le 2 k.1.0 from_remote local_port,
          read_bytes-append a (bytes_of k.1.1.0) from_port remote_ip,
          read_word-to_le 2 k.1.1.1 from_sent remote_port,
          read_word-to_le 8 v.transmitted_bytes from_got sent,
          read_word-to_le 8 v.received_bytes rest got,
        )
        refl

  length-report_values : (m : Stats A) → length (report_values bytes_of m) ≡ length m
  unfolding report_values
  length-report_values [] = refl
  length-report_values ((k, v) ∷ m) = omega (arith, length-report_values m)

  report_values-HasAddresses :
      (a : ℕ) (m : Stats A) → All (EntryFits a) m → All (HasAddresses a) (report_values bytes_of m)
  unfolding report_values
  report_values-HasAddresses a [] h = tt
  report_values-HasAddresses a ((k, v) ∷ m) h = ((h.0.0, h.0.1), report_values-HasAddresses a m h.1)

  read_entries-report_values :
      (a : ℕ) (m : Stats A)
      → All (EntryFits a) m
      → read_entries a (length m) (flat_map value_fields (report_values bytes_of m))
        ≡ some (by_bytes m, [])
  unfolding read_entries report_values flat_map
  read_entries-report_values a [] h = refl
  read_entries-report_values a ((k, v) ∷ m) h =
      let rest = flat_map value_fields (report_values bytes_of m) in
      let nested : value_bytes k v ++ rest ≡ value_parts k v rest = simp append_assoc in
      rw (nested, read_entry-value_fields a k v rest h.0, read_entries-report_values a m h.1) refl

  -- A report that is a frame of the given type around the fields of the map's entries.
  read_report-frame :
      (code protocol a : ℕ) (m : Stats A) (info : Info) (rest : List ℕ)
      → report_address_length code ≡ some a
      → All (EntryFits a) m
      → length m < 2 ^ 32
      → read_frame (info.bytes ++ rest)
        ≡ some (code, stats_fields protocol (report_values bytes_of m), rest)
      → read_report (info.bytes ++ rest) ≡ some (code, protocol, by_bytes m, rest)
  unfolding read_report whole
  read_report-frame code protocol a m info rest known h fits framed =
      let values = report_values bytes_of m in
      let entries = flat_map value_fields values in
      let count : as_u32 (length values) ≡ length m = omega (arith, length-report_values m) in
      rw
        (
          framed,
          known,
          count,
          read_byte_lem protocol (to_le 4 (length m) ++ entries),
          read_word-to_le 4 (length m) entries fits,
          read_entries-report_values a m h,
        )
        refl

  fits_of :
      (a : ℕ) (m : Stats A)
      → 1 + 4 + serialized_size a * length m < 2 ^ 32
      → (1 + 4 + serialized_size a * length (report_values bytes_of m) < 2 ^ 32)
        × (length m < 2 ^ 32)
  fits_of a m h = rw (length-report_values m) (h, grind arith)

report_tcp_v4 :
    {A : Type 0} (bytes_of : A → List ℕ) (m : Stats A) (rest : List ℕ)
    → All (EntryFits bytes_of 4) m
    → 1 + 4 + serialized_size 4 * length m < 2 ^ 32
    → received (take_report (λ m. bandwidth_stats_array_v4 tcp (report_values bytes_of m)) m).1 rest
      ≡ expected bytes_of 5 tcp m rest
unfolding received report_address_length
report_tcp_v4 bytes_of [] rest h fits = refl
report_tcp_v4 bytes_of (e ∷ m) rest h fits =
    let sizes = fits_of bytes_of 4 (e ∷ m) fits in
    let values = report_values bytes_of (e ∷ m) in
    read_report-frame bytes_of 5 tcp 4 (e ∷ m) (bandwidth_stats_array_v4 tcp values) rest refl h
      sizes.1
      (read_frame-bandwidth_stats_array_v4 tcp values rest
        (report_values-HasAddresses bytes_of 4 (e ∷ m) h) sizes.0)

report_udp_v6 :
    {A : Type 0} (bytes_of : A → List ℕ) (m : Stats A) (rest : List ℕ)
    → All (EntryFits bytes_of 16) m
    → 1 + 4 + serialized_size 16 * length m < 2 ^ 32
    → received (take_report (λ m. bandwidth_stats_array_v6 udp (report_values bytes_of m)) m).1 rest
      ≡ expected bytes_of 6 udp m rest
unfolding received report_address_length
report_udp_v6 bytes_of [] rest h fits = refl
report_udp_v6 bytes_of (e ∷ m) rest h fits =
    let sizes = fits_of bytes_of 16 (e ∷ m) fits in
    let values = report_values bytes_of (e ∷ m) in
    read_report-frame bytes_of 6 udp 16 (e ∷ m) (bandwidth_stats_array_v6 udp values) rest refl h
      sizes.1
      (read_frame-bandwidth_stats_array_v6 udp values rest
        (report_values-HasAddresses bytes_of 16 (e ∷ m) h) sizes.0)

nothing_left :
    {A : Type 0} (report : Stats A → Info) (m : Stats A)
    → (take_report report (take_report report m).0).1 ≡ none
nothing_left report [] = refl
nothing_left report (e ∷ m) = refl

module _ {V4 V6 : Type 0} where
  -- A report of the IPv4 TCP counters is decoded to the entries of the map in order, with their
  -- addresses, ports and counters, as a frame of type 5 for TCP, whatever follows it, if the
  -- entries fit their fields, with addresses of 4 bytes, and the content its length field.
  -- Nothing is reported of an empty map, and a second report at once finds nothing.
  pub get_all_updates_tcp_v4_lem :
      (bytes_of : V4 → List ℕ) (b : Bandwidth V4 V6) (rest : List ℕ)
      → All (EntryFits bytes_of 4) b.stats_tcp_v4
      → 1 + 4 + serialized_size 4 * length b.stats_tcp_v4 < 2 ^ 32
      → (received (get_all_updates_tcp_v4 bytes_of b).1 rest
          ≡ expected bytes_of 5 tcp b.stats_tcp_v4 rest)
        × ((get_all_updates_tcp_v4 bytes_of (get_all_updates_tcp_v4 bytes_of b).0).1 ≡ none)
  unfolding get_all_updates_tcp_v4
  get_all_updates_tcp_v4_lem bytes_of b rest h fits =
      let report = λ (m : Stats V4). bandwidth_stats_array_v4 tcp (report_values bytes_of m) in
      (report_tcp_v4 bytes_of b.stats_tcp_v4 rest h fits, nothing_left report b.stats_tcp_v4)

  -- A report of the IPv6 UDP counters is decoded to the entries of the map in order, with their
  -- addresses, ports and counters, as a frame of type 6 for UDP, whatever follows it, if the
  -- entries fit their fields, with addresses of 16 bytes, and the content its length field. Nothing
  -- is reported of an empty map, and a second report at once finds nothing.
  pub get_all_updates_udp_v6_lem :
      (bytes_of : V6 → List ℕ) (b : Bandwidth V4 V6) (rest : List ℕ)
      → All (EntryFits bytes_of 16) b.stats_udp_v6
      → 1 + 4 + serialized_size 16 * length b.stats_udp_v6 < 2 ^ 32
      → (received (get_all_updates_udp_v6 bytes_of b).1 rest
          ≡ expected bytes_of 6 udp b.stats_udp_v6 rest)
        × ((get_all_updates_udp_v6 bytes_of (get_all_updates_udp_v6 bytes_of b).0).1 ≡ none)
  unfolding get_all_updates_udp_v6
  get_all_updates_udp_v6_lem bytes_of b rest h fits =
      let report = λ (m : Stats V6). bandwidth_stats_array_v6 udp (report_values bytes_of m) in
      (report_udp_v6 bytes_of b.stats_udp_v6 rest h fits, nothing_left report b.stats_udp_v6)
