-- ===== src/IdCache/Announced.antt =====
-- The event of a queued packet, and what user space decodes of it.
use Prim.Native.Nat.{ℕ, ◌+◌, ◌^◌, ◌<◌}
use mathlib.Core.Path.{◌≡◌, refl}
use mathlib.Core.Logic.{◌⊎◌, inl, inr}
use mathlib.Core.Bool.{Bool, true, false, ◌||◌}
use mathlib.Core.List.{List, [], ◌∷◌, ◌++◌}
use mathlib.Core.Option.{Option, none, some}
use native.Mathlib.Omega.{arith}
use windows_kext_mod.Prelude.Tests.{◌==◌, if◌then◌else◌}
use windows_kext_mod.Prelude.Lists.{length}
use windows_kext_mod.Key.{Key, IpAddress, ipv4, ipv6, is_ipv6, tcp, udp}
use windows_kext_mod.Connection.{Direction, outbound, inbound}
use windows_kext_mod.Protocol.Info.{Info, ConnectionInfo, connection_info_v4, connection_info_v6}
use windows_kext_mod.Protocol.Decode.{
  read_connection, FieldsFit, read_connection-connection_info_v4,
  read_connection-connection_info_v6,
}
use windows_kext_mod.IdCache.{Entry}
use windows_kext_mod.IdCache.Push.{
  Packet, network, network_batch, ale_layer, Wfp, PendingContext, get_payload, build_info,
}

abbrev pub ip_bytes : IpAddress → List ℕ
ip_bytes (ipv4 bytes) = bytes
ip_bytes (ipv6 bytes) = bytes

abbrev pub AddressFits : IpAddress → Type 0
AddressFits (ipv4 bytes) = length bytes ≡ 4
AddressFits (ipv6 bytes) = length bytes ≡ 16

abbrev pub same_family : IpAddress → IpAddress → Bool
same_family (ipv4 a) (ipv4 b) = true
same_family (ipv4 a) (ipv6 b) = false
same_family (ipv6 a) (ipv4 b) = false
same_family (ipv6 a) (ipv6 b) = true

same_family-cases :
    (x y : IpAddress)
    → same_family x y ≡ true
    → ((a : List ℕ) × (b : List ℕ) × (x ≡ ipv4 a) × (y ≡ ipv4 b))
      ⊎ ((a : List ℕ) × (b : List ℕ) × (x ≡ ipv6 a) × (y ≡ ipv6 b))
same_family-cases (ipv4 a) (ipv4 b) h = inl (a, b, refl, refl)
same_family-cases (ipv4 a) (ipv6 b) h = absurd (ground arith)
same_family-cases (ipv6 a) (ipv4 b) h = absurd (ground arith)
same_family-cases (ipv6 a) (ipv6 b) h = inr (a, b, refl, refl)

module _ {N I D : Type 0} where
  -- The packets of an indication one by one, a batch in its order.
  abbrev pub split_batch : List N → I → List (Packet N I D)
  split_batch [] i = []
  split_batch (n ∷ ns) i = network n i ∷ split_batch ns i

  abbrev pub split_packets : Packet N I D → List (Packet N I D)
  split_packets (network n i) = network n i ∷ []
  split_packets (network_batch ns i) = split_batch ns i
  split_packets (ale_layer d) = ale_layer d ∷ []

  -- The packets that are queued: all of a connection of one family, none of any other.
  abbrev pub queued_packets : Key → Packet N I D → List (Packet N I D)
  queued_packets key p =
      if same_family key.local_address key.remote_address then split_packets p else []

abbrev pub announced_direction : Direction → ℕ
announced_direction outbound = 0
announced_direction inbound = 1

-- The bytes of a packet, none where there is nothing to read.
abbrev pub bytes_or_none : Option (List ℕ) → List ℕ
bytes_or_none none = []
bytes_or_none (some bytes) = bytes

module _ {N I D : Type 0} (wfp : Wfp N I D) (c : PendingContext) where
  abbrev pub payload_of : Packet N I D → List ℕ
  payload_of (network n i) = bytes_or_none (wfp.get_data n)
  payload_of (network_batch [] i) = []
  payload_of (network_batch (n ∷ ns) i) = bytes_or_none (wfp.get_data n)
  payload_of (ale_layer d) = bytes_or_none (wfp.deferred_data d)

  -- The entries of packets that are queued from an identity on.
  abbrev pub entries : ℕ → List (Packet N I D) → List (Entry (Packet N I D))
  entries n [] = []
  entries n (p ∷ ps) =
      record {
        value = record {
          key = c.key;
          packet = p;
          connection_instance_id = c.connection_instance_id;
        };
        id = n;
      }
      ∷ entries (n + 1) ps

  abbrev pub port_of : ℕ → ℕ
  port_of port = if c.key.protocol == tcp || c.key.protocol == udp then port else 0

  -- What user space is to know of an entry.
  abbrev pub announced : Entry (Packet N I D) → ConnectionInfo
  announced e = record {
    id = e.id;
    process_id = c.process_id;
    direction = announced_direction c.direction;
    protocol = c.key.protocol;
    local_ip = ip_bytes c.key.local_address;
    remote_ip = ip_bytes c.key.remote_address;
    local_port = port_of c.key.local_port;
    remote_port = port_of c.key.remote_port;
    payload_layer = if c.ale_layer then 4 else 3;
    payload = payload_of e.value.packet;
  }

  -- Each entry has its event, in order, under its identity, and user space decodes of the event
  -- what it is to know of that entry, whatever follows the event in the stream.
  abbrev pub AreAnnounced : (rest : List ℕ) → List (Entry (Packet N I D)) → List (ℕ × Info) → Type 0
  AreAnnounced rest [] [] = Unit
  AreAnnounced rest [] (event ∷ events) = ⊥
  AreAnnounced rest (e ∷ es) [] = ⊥
  AreAnnounced rest (e ∷ es) (event ∷ events) =
      ((event.0 ≡ e.id) × (read_connection (event.1.bytes ++ rest) ≡ some (announced e, rest)))
      × AreAnnounced rest es events

  -- A payload fits the length field of an event.
  abbrev pub PayloadFits : Packet N I D → Type 0
  PayloadFits p = 59 + length (payload_of p) < 2 ^ 32

  -- The fields of the context fit those of an event.
  abbrev pub ContextFits : Type 0
  ContextFits =
      (c.process_id < 2 ^ 64)
      × AddressFits c.key.local_address
      × AddressFits c.key.remote_address
      × (c.key.local_port < 2 ^ 16)
      × (c.key.remote_port < 2 ^ 16)

  payload_lem :
      (p : Packet N I D)
      → ◌≡◌ {A = List ℕ}
          (elim (get_payload wfp p) [ none ↦ [] | some bytes ↦ bytes ])
          (payload_of p)
  unfolding get_payload
  payload_lem (network n i) = ground arith
  payload_lem (network_batch [] i) = refl
  payload_lem (network_batch (n ∷ ns) i) = ground arith
  payload_lem (ale_layer d) = ground arith

  abbrev pub built : ℕ → Packet N I D → Option Info
  built n p = build_info wfp c.key n c.process_id c.direction p c.ale_layer

  abbrev pub entry_of : ℕ → Packet N I D → Entry (Packet N I D)
  entry_of n p = record {
    value = record { key = c.key; packet = p; connection_instance_id = c.connection_instance_id };
    id = n;
  }

  port_fits : (port : ℕ) → port < 2 ^ 16 → port_of port < 2 ^ 16
  port_fits port h = ground arith

  built_v4 :
      (n : ℕ) (p : Packet N I D) (a b : List ℕ)
      → c.key.local_address ≡ ipv4 a
      → c.key.remote_address ≡ ipv4 b
      → built n p ≡ some (connection_info_v4 (announced (entry_of n p)))
  unfolding build_info
  built_v4 n p a b h k = ground (arith, payload_lem p)

  built_v6 :
      (n : ℕ) (p : Packet N I D) (a b : List ℕ)
      → c.key.local_address ≡ ipv6 a
      → c.key.remote_address ≡ ipv6 b
      → built n p ≡ some (connection_info_v6 (announced (entry_of n p)))
  unfolding build_info is_ipv6
  built_v6 n p a b h k = ground (arith, payload_lem p)

  pub not_built :
      (n : ℕ) (p : Packet N I D)
      → same_family c.key.local_address c.key.remote_address ≡ false
      → built n p ≡ none
  unfolding build_info
  not_built n p other = ground arith

  FieldsFit-v4 :
      (n : ℕ) (p : Packet N I D) (a b : List ℕ)
      → ContextFits
      → PayloadFits p
      → n < 2 ^ 64
      → c.key.local_address ≡ ipv4 a
      → c.key.remote_address ≡ ipv4 b
      → FieldsFit 4 (announced (entry_of n p))
  FieldsFit-v4 n p a b fits small h k l = (
    h,
    fits.0,
    ground (arith, fits.1),
    ground (arith, fits.2),
    port_fits c.key.local_port fits.3,
    port_fits c.key.remote_port fits.4,
    omega (arith, small),
  )

  FieldsFit-v6 :
      (n : ℕ) (p : Packet N I D) (a b : List ℕ)
      → ContextFits
      → PayloadFits p
      → n < 2 ^ 64
      → c.key.local_address ≡ ipv6 a
      → c.key.remote_address ≡ ipv6 b
      → FieldsFit 16 (announced (entry_of n p))
  FieldsFit-v6 n p a b fits small h k l = (
    h,
    fits.0,
    ground (arith, fits.1),
    ground (arith, fits.2),
    port_fits c.key.local_port fits.3,
    port_fits c.key.remote_port fits.4,
    omega (arith, small),
  )

  -- An event of a packet, decoded to what user space is to know of its entry.
  abbrev pub IsBuilt : ℕ → Packet N I D → List ℕ → Type 0
  IsBuilt n p rest =
      (info : Info) × (built n p ≡ some info)
      × (read_connection (info.bytes ++ rest) ≡ some (announced (entry_of n p), rest))

  pub build_info-family :
      (n : ℕ) (p : Packet N I D) (rest : List ℕ)
      → ContextFits
      → PayloadFits p
      → n < 2 ^ 64
      → same_family c.key.local_address c.key.remote_address ≡ true
      → IsBuilt n p rest
  build_info-family n p rest fits small h same =
      elim (same_family-cases c.key.local_address c.key.remote_address same) [
        | inl (a, b, k, l) ↦ (
          connection_info_v4 (announced (entry_of n p)),
          built_v4 n p a b k l,
          read_connection-connection_info_v4 (announced (entry_of n p)) rest
              (FieldsFit-v4 n p a b fits small h k l),
        )
        | inr (a, b, k, l) ↦ (
          connection_info_v6 (announced (entry_of n p)),
          built_v6 n p a b k l,
          read_connection-connection_info_v6 (announced (entry_of n p)) rest
              (FieldsFit-v6 n p a b fits small h k l),
        )
      ]
