-- ===== src/Key/Order.antt =====
-- The derived order of addresses and keys: the variant and the bytes, then field by field.
use Prim.Native.Nat.{ℕ}
use mathlib.Core.Path.{◌≡◌}
use mathlib.Core.List.{List}
use native.Mathlib.Omega.{arith}
use windows_kext_mod.Prelude.Order.{Ord, nat_ord, pair_ord}
use windows_kext_mod.Prelude.Order.Derived.{list_ord, by_view}
use windows_kext_mod.Key.{IpAddress, ipv4, ipv6, Key}

abbrev pub address_view : IpAddress → ℕ × List ℕ
address_view (ipv4 bytes) = (4, bytes)
address_view (ipv6 bytes) = (6, bytes)

pub address_view_injective : (a b : IpAddress) → address_view a ≡ address_view b → a ≡ b
address_view_injective (ipv4 a) (ipv4 b) h = ground arith
address_view_injective (ipv4 a) (ipv6 b) h = absurd (ground arith)
address_view_injective (ipv6 a) (ipv4 b) h = absurd (ground arith)
address_view_injective (ipv6 a) (ipv6 b) h = ground arith

instance unfoldable pub address_ord : Ord IpAddress
address_ord = by_view address_view address_view_injective

abbrev pub key_view : Key → ℕ × (IpAddress × (ℕ × (IpAddress × ℕ)))
key_view k = (k.protocol, (k.local_address, (k.local_port, (k.remote_address, k.remote_port))))

pub key_view_injective : (a b : Key) → key_view a ≡ key_view b → a ≡ b
key_view_injective a b h = ground arith

instance unfoldable pub key_ord : Ord Key
key_ord = by_view key_view key_view_injective
