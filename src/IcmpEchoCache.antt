-- ===== src/IcmpEchoCache.antt =====
-- windows_kext/driver/src/icmp_echo_cache.rs: the senders of echo requests, for their replies.
pub mod Replies
pub mod Capacity
use Prim.Native.Nat.{ℕ, ◌-◌}
use mathlib.Core.Bool.{Bool, true, false, not, ◌&&◌}
use mathlib.Core.List.{List, [], ◌∷◌}
use mathlib.Core.Option.{Option, none, some}
use windows_kext_mod.Prelude.Tests.{◌==◌, leb, if◌then◌else◌}
use windows_kext_mod.Prelude.Lists.{length}
use mathlib.Core.Path.{◌≡◌}
use native.Mathlib.Omega.{arith}
use windows_kext_mod.Prelude.Order.{Ord, nat_ord, pair_ord}
use windows_kext_mod.Prelude.Order.Derived.{by_view}
use windows_kext_mod.Key.{IpAddress}
use windows_kext_mod.Key.Order.{address_ord}
use windows_kext_mod.Prelude.BTreeMap
use windows_kext_mod.Prelude.BTreeMap.{BTreeMap}

pub record EchoKey : Type 0 where
  pub remote_address : IpAddress
  pub identifier : ℕ
  pub sequence : ℕ

abbrev pub echo_view : EchoKey → IpAddress × (ℕ × ℕ)
echo_view k = (k.remote_address, (k.identifier, k.sequence))

pub echo_view_injective : (a b : EchoKey) → echo_view a ≡ echo_view b → a ≡ b
echo_view_injective a b h = ground arith

-- The derived order
instance unfoldable pub echo_key_ord : Ord EchoKey
echo_key_ord = by_view echo_view echo_view_injective

pub record EchoEntry : Type 0 where
  pub process_id : ℕ
  pub thread_id : ℕ
  pub inserted_at_ms : ℕ

abbrev pub entry_ttl_ms : ℕ
entry_ttl_ms = 10000

abbrev pub max_entries : ℕ
max_entries = 512

abbrev pub IcmpEchoCache : Type 0
IcmpEchoCache = BTreeMap EchoKey EchoEntry

-- `now.saturating_sub(e.inserted_at_ms) <= ENTRY_TTL_MS`
abbrev pub is_live : ℕ → EchoEntry → Bool
is_live now e = leb (now - e.inserted_at_ms) entry_ttl_ms

abbrev pub keep_live : ℕ → EchoEntry → Option EchoEntry
keep_live now e = if is_live now e then some e else none

unfoldable pub clean_expired_entries : IcmpEchoCache → ℕ → IcmpEchoCache
clean_expired_entries m now = BTreeMap.retain (keep_live now) m

abbrev pub contains_key : EchoKey → IcmpEchoCache → Bool
contains_key k m = elim (BTreeMap.get k m) [ none ↦ false | some e ↦ true ]

unfoldable pub insert_request :
    IcmpEchoCache → (key : EchoKey) (process_id thread_id now : ℕ) → IcmpEchoCache
insert_request m key process_id thread_id now =
    let entry : EchoEntry = record {
      process_id = process_id;
      thread_id = thread_id;
      inserted_at_ms = now;
    } in
    if process_id == 0
    then m
    else if leb max_entries (length m) && not (contains_key key m)
    then (let retained = BTreeMap.retain (keep_live now) m in
        if leb max_entries (length retained) then retained else BTreeMap.insert key entry retained)
    else BTreeMap.insert key entry m

unfoldable pub take_request_identity :
    IcmpEchoCache → (key : EchoKey) (now : ℕ) → IcmpEchoCache × Option (ℕ × ℕ)
take_request_identity m key now = elim (BTreeMap.get key m) [
  | none ↦ (m, none)
  | some e ↦
      (BTreeMap.remove key m, if is_live now e then some (e.process_id, e.thread_id) else none)
]

unfoldable pub get_entries_count : IcmpEchoCache → ℕ
get_entries_count m = length m
