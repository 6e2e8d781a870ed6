-- ===== src/Key.antt =====
-- `struct Key` of windows_kext/driver/src/connection_map.rs: the five-tuple of a packet or a
-- connection, with the addresses that it holds.
pub mod Order
use Prim.Native.Nat.{ℕ}
use mathlib.Core.Path.{◌≡◌, refl}
use mathlib.Core.Logic.{◌↔◌}
use mathlib.Core.Bool.{Bool, true, false, ◌&&◌, ◌||◌}
use mathlib.Core.List.{List}
use native.Mathlib.Omega.{arith}
use windows_kext_mod.Prelude.Tests.{◌==◌}
use windows_kext_mod.Prelude.Bytes.{bytes_eq, bytes_eq→eq, bytes_eq_refl}

-- `smoltcp::wire::IpAddress`: the bytes of the address, 4 or 16 of them.
pub data IpAddress : Type 0 where
  ipv4 : List ℕ → IpAddress
  ipv6 : List ℕ → IpAddress

-- `==` on addresses
unfoldable pub address_eq : IpAddress → IpAddress → Bool
address_eq (ipv4 a) (ipv4 b) = bytes_eq a b
address_eq (ipv4 a) (ipv6 b) = false
address_eq (ipv6 a) (ipv4 b) = false
address_eq (ipv6 a) (ipv6 b) = bytes_eq a b

pub address_eq→eq : (a b : IpAddress) → address_eq a b ≡ true → a ≡ b
unfolding address_eq
address_eq→eq (ipv4 a) (ipv4 b) h = ground (arith, bytes_eq→eq a b)
address_eq→eq (ipv4 a) (ipv6 b) h = ground arith
address_eq→eq (ipv6 a) (ipv4 b) h = ground arith
address_eq→eq (ipv6 a) (ipv6 b) h = ground (arith, bytes_eq→eq a b)

pub address_eq_refl : (a : IpAddress) → address_eq a a ≡ true
unfolding address_eq
address_eq_refl (ipv4 a) = bytes_eq_refl a
address_eq_refl (ipv6 a) = bytes_eq_refl a

-- What the driver reads from outside: `is_loopback` and `LOOPBACK` of the smoltcp addresses, and
-- the registry setting `IgnoreSpecialPorts`.
pub record Platform : Type 0 where
  pub is_loopback_v4 : List ℕ → Bool
  pub is_loopback_v6 : List ℕ → Bool
  pub loopback_v6 : List ℕ
  pub ignore_special_ports : Bool

-- `IpProtocol` by its protocol number.
abbrev pub tcp : ℕ
tcp = 6

abbrev pub udp : ℕ
udp = 17

pub record Key : Type 0 where
  pub protocol : ℕ
  pub local_address : IpAddress
  pub local_port : ℕ
  pub remote_address : IpAddress
  pub remote_port : ℕ

-- `==` on keys
unfoldable pub key_eq : Key → Key → Bool
key_eq a b =
    a.protocol == b.protocol
    && address_eq a.local_address b.local_address
    && a.local_port == b.local_port
    && address_eq a.remote_address b.remote_address
    && a.remote_port == b.remote_port

pub key_eq→eq : (a b : Key) → key_eq a b ≡ true → a ≡ b
unfolding key_eq
key_eq→eq a b h = ground (
  arith,
  address_eq→eq a.local_address b.local_address,
  address_eq→eq a.remote_address b.remote_address,
)

pub key_eq_refl : (a : Key) → key_eq a a ≡ true
unfolding key_eq
key_eq_refl a = ground (arith, address_eq_refl a.local_address, address_eq_refl a.remote_address)

abbrev pub small : Key → ℕ × ℕ
small k = (k.protocol, k.local_port)

unfoldable pub is_ipv6 : Key → Bool
is_ipv6 k = elim k.local_address [ ipv4 _ ↦ false | ipv6 _ ↦ true ]

unfoldable pub is_loopback : Platform → Key → Bool
is_loopback p k = elim k.local_address [
  | ipv4 ip ↦ p.is_loopback_v4 ip
  | ipv6 ip ↦ p.is_loopback_v6 ip
]

unfoldable pub is_loopback_like : Platform → Key → Bool
is_loopback_like p k = is_loopback p k || address_eq k.local_address k.remote_address

unfoldable pub reverse : Key → Key
reverse k = record {
  protocol = k.protocol;
  local_address = k.remote_address;
  local_port = k.remote_port;
  remote_address = k.local_address;
  remote_port = k.local_port;
}

pub reverse-reverse : (k : Key) → reverse (reverse k) ≡ k
unfolding reverse
reverse-reverse k = refl

-- `if let IpAddress::Ipv4(a) = address` and the comparison with the bytes of a stored address
unfoldable pub equals_v4 : List ℕ → IpAddress → Bool
equals_v4 bytes (ipv4 a) = bytes_eq bytes a
equals_v4 bytes (ipv6 a) = false

unfoldable pub equals_v6 : List ℕ → IpAddress → Bool
equals_v6 bytes (ipv4 a) = false
equals_v6 bytes (ipv6 a) = bytes_eq bytes a

pub equals_v4_iff : (bytes : List ℕ) (a : IpAddress) → (equals_v4 bytes a ≡ true) ↔ (ipv4 bytes ≡ a)
unfolding equals_v4
equals_v4_iff bytes (ipv4 a) = ground (arith, bytes_eq→eq bytes a, bytes_eq_refl bytes)
equals_v4_iff bytes (ipv6 a) = ground arith

pub equals_v6_iff : (bytes : List ℕ) (a : IpAddress) → (equals_v6 bytes a ≡ true) ↔ (ipv6 bytes ≡ a)
unfolding equals_v6
equals_v6_iff bytes (ipv4 a) = ground arith
equals_v6_iff bytes (ipv6 a) = ground (arith, bytes_eq→eq bytes a, bytes_eq_refl bytes)
