-- ===== src/Connection.antt =====
-- windows_kext/driver/src/connection.rs: verdicts, the identity counter, the trait `Connection` and
-- what the two address families have in common. `Connection/V4` and `Connection/V6` implement it.
pub mod V4
pub mod V6
pub mod Laws
pub mod Redirect
use Prim.Native.Nat.{ℕ, zero, suc, ◌+◌, ◌%◌, ◌^◌, ◌<◌}
use mathlib.Core.Path.{◌≡◌}
use mathlib.Core.Bool.{Bool, true, false, not, ◌&&◌, ◌||◌}
use mathlib.Core.List.{List, [], ◌∷◌}
use mathlib.Core.Option.{Option, none, some}
use native.Mathlib.Omega.{arith}
use windows_kext_mod.Prelude.Tests.{◌==◌, ltb, if◌then◌else◌}
use windows_kext_mod.Prelude.Bytes.{from_be}
use windows_kext_mod.Prelude.Lists.{take, drop as skip}
use windows_kext_mod.Key.{IpAddress, ipv4, ipv6, Key, Platform, address_eq}

abbrev pub pm_dns_port : ℕ
pm_dns_port = 53

abbrev pub pm_spn_port : ℕ
pm_spn_port = 717

abbrev pub pm_split_tun_port : ℕ
pm_split_tun_port = 719

-- `next_connection_instance_id` on the value of the counter: the identity, and the counter after
-- it. The loop runs once more where `fetch_add` returned 0; `fuel` bounds the rounds.
pub next_instance_id_loop : ℕ → ℕ → Option (ℕ × ℕ)
next_instance_id_loop zero counter = none
next_instance_id_loop (suc fuel) counter =
    let rest = next_instance_id_loop fuel ((counter + 1) % 2 ^ 64) in
    if counter == 0 then rest else some (counter, (counter + 1) % 2 ^ 64)

-- What the loop returns: 0 is passed over.
unfoldable pub next_connection_instance_id : ℕ → ℕ × ℕ
next_connection_instance_id counter =
    if counter == 0 then (1, 2) else (counter, (counter + 1) % 2 ^ 64)

-- Two rounds of the loop are enough for every value of the counter, and the identity is not 0.
pub next_instance_id_loop_total :
    (fuel counter : ℕ)
    → 1 < fuel
    → (next_instance_id_loop fuel counter ≡ some (next_connection_instance_id counter))
      × (0 < (next_connection_instance_id counter).0)
unfolding next_instance_id_loop next_connection_instance_id
next_instance_id_loop_total zero counter h = absurd (omega arith)
next_instance_id_loop_total (suc zero) counter h = absurd (omega arith)
next_instance_id_loop_total (suc (suc fuel)) counter h = ground arith

unfoldable pub ipv6_address_key : List ℕ → ℕ × ℕ
ipv6_address_key address = (from_be 0 (take 8 address), from_be 0 (skip 8 address))

unfoldable pub is_redirect_port : Platform → ℕ → Bool
is_redirect_port p port =
    (port == pm_dns_port || port == pm_spn_port || port == pm_split_tun_port)
    && not p.ignore_special_ports

unfoldable pub fast_track_pm_packets : Platform → Key → Bool
fast_track_pm_packets p k =
    address_eq k.local_address k.remote_address && is_redirect_port p k.local_port

pub data Verdict : Type 0 where
  undecided undeterminable accept permanent_accept block permanent_block : Verdict
  drop permanent_drop redirect_name_server redirect_tunnel failed redirect_split_tunnel : Verdict

pub data Direction : Type 0 where
  outbound inbound : Direction

pub record ConnectionExtra : Type 0 where
  pub end_timestamp : ℕ
  pub direction : Direction
  pub native_lifecycle : Bool
  pub idle_expiration : Bool

pub data ConnectionError : Type 0 where
  wrong_ip_address_version : ConnectionError

-- `Result<_, String>`, the message as a value
pub data Outcome (A : Type 0) : Type 0 where
  ok : A → Outcome A
  err : ConnectionError → Outcome A

pub record RedirectInfo : Type 0 where
  pub local_address : IpAddress
  pub remote_address : IpAddress
  pub remote_port : ℕ
  pub redirect_port : ℕ
  pub unify : Bool
  pub redirect_address : IpAddress

-- The trait `Connection`, for connections `T` whose remote addresses have the compact form `A`.
pub record ConnectionTrait (T A : Type 0) : Type 0 where
  pub get_key : T → Key
  pub remote_equals : T → Key → Bool
  pub redirect_equals : T → Key → Bool
  pub get_verdict : T → Verdict
  pub get_remote_address_key : T → A
  pub remote_address_key : Key → Option A
  pub is_ipv6 : Bool
  pub get_direction : T → Direction
  pub get_instance_id : T → ℕ
  pub get_process_id : T → ℕ
  pub end : T → ℕ → T
  pub get_end_time : T → ℕ
  pub get_last_accessed_time : T → ℕ
  pub set_last_accessed_time : T → ℕ → T
  pub has_native_lifecycle : T → Bool
  pub allows_untracked_expiration : T → Bool
  pub mark_native_lifecycle : T → T

-- The trait's default method `has_ended`.
abbrev pub has_ended : {T A : Type 0} → ConnectionTrait T A → T → Bool
has_ended c x = ltb 0 (c.get_end_time x)

abbrev redirect_to : IpAddress → Key → ℕ → Bool → Option RedirectInfo
redirect_to target k port unify = some (record {
  local_address = k.local_address;
  remote_address = k.remote_address;
  remote_port = k.remote_port;
  redirect_port = port;
  unify = unify;
  redirect_address = target;
})

-- The trait's default method `redirect_info`.
unfoldable pub redirect_info :
    {T A : Type 0} → Platform → ConnectionTrait T A → T → Option RedirectInfo
redirect_info p c x =
    let target : IpAddress =
      if c.is_ipv6 then ipv6 p.loopback_v6 else ipv4 (127 ∷ 0 ∷ 0 ∷ 1 ∷ []) in
    let k = c.get_key x in
    elim (c.get_verdict x) [
      | redirect_name_server ↦ redirect_to target k pm_dns_port false
      | redirect_tunnel ↦ redirect_to target k pm_spn_port true
      | redirect_split_tunnel ↦ redirect_to target k pm_split_tun_port true
      | _ ↦ none
    ]
