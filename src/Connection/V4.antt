-- ===== src/Connection/V4.antt =====
-- `struct ConnectionV4` of windows_kext/driver/src/connection.rs and its `impl Connection`.
use Prim.Native.Nat.{ℕ}
use mathlib.Core.Bool.{Bool, true, false, ◌&&◌}
use mathlib.Core.List.{List}
use mathlib.Core.Option.{Option, none, some}
use windows_kext_mod.Prelude.Tests.{◌==◌}
use windows_kext_mod.Prelude.Bytes.{from_be}
use windows_kext_mod.Key.{ipv4, ipv6, Key, Platform, address_eq, equals_v4}
use windows_kext_mod.Connection.{
  Verdict, undecided, redirect_name_server, redirect_tunnel, redirect_split_tunnel, Direction,
  outbound, inbound, ConnectionExtra, wrong_ip_address_version, ConnectionTrait, pm_dns_port,
  pm_spn_port, pm_split_tun_port, Outcome, ok, err,
}

pub record ConnectionV4 : Type 0 where
  pub protocol : ℕ
  pub local_address : List ℕ
  pub local_port : ℕ
  pub remote_address : List ℕ
  pub remote_port : ℕ
  pub verdict : Verdict
  pub process_id : ℕ
  pub thread_id : ℕ
  pub instance_id : ℕ
  pub last_accessed_timestamp : ℕ
  pub extra : ConnectionExtra

-- The connection that `from_key_with_lifecycle` builds once both addresses are of its family, at
-- the time `now` and under the identity `instance`.
abbrev pub new_connection :
    Key → ℕ → Direction → Bool → (now instance_id : ℕ) → List ℕ → List ℕ → ConnectionV4
new_connection key process_id direction native_lifecycle now id local remote = record {
  protocol = key.protocol;
  local_address = local;
  local_port = key.local_port;
  remote_address = remote;
  remote_port = key.remote_port;
  verdict = undecided;
  process_id = process_id;
  thread_id = 0;
  instance_id = id;
  last_accessed_timestamp = now;
  extra = record {
    end_timestamp = 0;
    direction = direction;
    native_lifecycle = native_lifecycle;
    idle_expiration = elim direction [ outbound ↦ true | inbound ↦ false ];
  };
}

unfoldable pub from_key_with_lifecycle :
    Key → ℕ → Direction → Bool → (now instance_id : ℕ) → Outcome ConnectionV4
from_key_with_lifecycle key process_id direction native_lifecycle now id =
    let fresh = λ (local remote : List ℕ).
      new_connection key process_id direction native_lifecycle now id local remote in
    elim key.local_address [
      | ipv4 local_address ↦ elim key.remote_address [
        | ipv4 remote_address ↦ ok (fresh local_address remote_address)
        | ipv6 _ ↦ err wrong_ip_address_version
      ]
      | ipv6 _ ↦ err wrong_ip_address_version
    ]

unfoldable pub from_key : Key → ℕ → Direction → (now instance_id : ℕ) → Outcome ConnectionV4
unfolding from_key_with_lifecycle
from_key key process_id direction now id =
    from_key_with_lifecycle key process_id direction true now id

unfoldable pub from_untracked_key :
    Key → ℕ → Direction → (now instance_id : ℕ) → Outcome ConnectionV4
unfolding from_key_with_lifecycle
from_untracked_key key process_id direction now id =
    from_key_with_lifecycle key process_id direction false now id

unfoldable pub remote_equals : ConnectionV4 → Key → Bool
remote_equals x key =
    x.protocol == key.protocol
    && x.local_port == key.local_port
    && x.remote_port == key.remote_port
    && equals_v4 x.local_address key.local_address
    && equals_v4 x.remote_address key.remote_address

unfoldable pub get_key : ConnectionV4 → Key
get_key x = record {
  protocol = x.protocol;
  local_address = ipv4 x.local_address;
  local_port = x.local_port;
  remote_address = ipv4 x.remote_address;
  remote_port = x.remote_port;
}

unfoldable pub redirect_equals : Platform → ConnectionV4 → Key → Bool
redirect_equals p x key = elim x.verdict [
  | redirect_name_server ↦
      key.remote_port == pm_dns_port
      && elim key.remote_address [ ipv4 a ↦ p.is_loopback_v4 a | ipv6 _ ↦ false ]
  | redirect_tunnel ↦
      key.remote_port == pm_spn_port && address_eq key.local_address key.remote_address
  | redirect_split_tunnel ↦
      key.remote_port == pm_split_tun_port && address_eq key.local_address key.remote_address
  | _ ↦ false
]

unfoldable pub remote_address_key : Key → Option ℕ
remote_address_key key = elim key.remote_address [ ipv4 a ↦ some (from_be 0 a) | ipv6 _ ↦ none ]

unfoldable pub end : ConnectionV4 → ℕ → ConnectionV4
end x timestamp = record x { extra = record (x.extra) { end_timestamp = timestamp } }

unfoldable pub mark_native_lifecycle : ConnectionV4 → ConnectionV4
mark_native_lifecycle x = record x { extra = record (x.extra) { native_lifecycle = true } }

unfoldable pub connection_v4 : Platform → ConnectionTrait ConnectionV4 ℕ
unfolding remote_equals get_key redirect_equals remote_address_key end mark_native_lifecycle
connection_v4 p = record {
  get_key = get_key;
  remote_equals = remote_equals;
  redirect_equals = redirect_equals p;
  get_verdict = λ x. x.verdict;
  get_remote_address_key = λ x. from_be 0 x.remote_address;
  remote_address_key = remote_address_key;
  is_ipv6 = false;
  get_direction = λ x. x.extra.direction;
  get_instance_id = λ x. x.instance_id;
  get_process_id = λ x. x.process_id;
  end = end;
  get_end_time = λ x. x.extra.end_timestamp;
  get_last_accessed_time = λ x. x.last_accessed_timestamp;
  set_last_accessed_time = λ x t. record x { last_accessed_timestamp = t };
  has_native_lifecycle = λ x. x.extra.native_lifecycle;
  allows_untracked_expiration = λ x. x.extra.idle_expiration;
  mark_native_lifecycle = mark_native_lifecycle;
}
