-- ===== src/Protocol/Command.antt =====
-- windows_kext/protocol/src/command.rs: the commands from user space.
use Prim.Native.Nat.{ℕ, ◌+◌, ◌-◌}
use mathlib.Core.Bool.{Bool}
use mathlib.Core.List.{List, [], ◌∷◌}
use mathlib.Core.Option.{Option, none, some}
use windows_kext_mod.Prelude.Tests.{◌==◌, ltb, if◌then◌else◌}
use windows_kext_mod.Prelude.Lists.{length, take, drop, get_elem?}
use windows_kext_mod.Prelude.Bytes.{from_le}
use windows_kext_mod.Protocol.Slices.{range}

pub data CommandType : Type 0 where
  shutdown verdict update_v4 update_v6 clear_cache get_logs : CommandType
  get_bandwidth_stats print_memory_stats clean_ended_connections : CommandType

-- The discriminants of the enum.
unfoldable pub command_code : CommandType → ℕ
command_code shutdown = 0
command_code verdict = 1
command_code update_v4 = 2
command_code update_v6 = 3
command_code clear_cache = 4
command_code get_logs = 5
command_code get_bandwidth_stats = 6
command_code print_memory_stats = 7
command_code clean_ended_connections = 8

-- The derived `from_u8`
unfoldable pub command_from_u8 : ℕ → Option CommandType
command_from_u8 n =
    if n == 0
    then some shutdown
    else if n == 1
    then some verdict
    else if n == 2
    then some update_v4
    else if n == 3
    then some update_v6
    else if n == 4
    then some clear_cache
    else if n == 5
    then some get_logs
    else if n == 6
    then some get_bandwidth_stats
    else if n == 7
    then some print_memory_stats
    else if n == 8
    then some clean_ended_connections
    else none

pub record Verdict : Type 0 where
  pub id : ℕ
  pub verdict : ℕ

pub record Update : Type 0 where
  pub protocol : ℕ
  pub local_address : List ℕ
  pub local_port : ℕ
  pub remote_address : List ℕ
  pub remote_port : ℕ
  pub verdict : ℕ

abbrev pub verdict_payload_size : ℕ
verdict_payload_size = 9

abbrev pub update_v4_payload_size : ℕ
update_v4_payload_size = 14

abbrev pub update_v6_payload_size : ℕ
update_v6_payload_size = 38

unfoldable pub payload_size : CommandType → ℕ
payload_size verdict = verdict_payload_size
payload_size update_v4 = update_v4_payload_size
payload_size update_v6 = update_v6_payload_size
payload_size _ = 0

unfoldable pub parse_type : List ℕ → Option CommandType
unfolding command_from_u8
parse_type [] = none
parse_type (value ∷ bytes) = command_from_u8 value

pub data CommandParseError : Type 0 where
  no_bytes : CommandParseError
  unknown_type : ℕ → CommandParseError
  truncated_payload : (command : CommandType) (expected actual : ℕ) → CommandParseError

-- `Result<(CommandType, &[u8], &[u8]), CommandParseError>`
pub data Split : Type 0 where
  ok : (command : CommandType) (payload rest : List ℕ) → Split
  err : CommandParseError → Split

unfoldable pub split_first_command : List ℕ → Split
unfolding command_from_u8 payload_size
split_first_command [] = err no_bytes
split_first_command (value ∷ bytes) = elim (command_from_u8 value) [
  | none ↦ err (unknown_type value)
  | some command ↦
      let expected = payload_size command in
      if ltb (length (value ∷ bytes)) (1 + expected)
      then err (truncated_payload command expected (length (value ∷ bytes) - 1))
      else ok command (take expected bytes) (drop expected bytes)
]

unfoldable pub has_valid_payload_length : CommandType → List ℕ → Bool
has_valid_payload_length command payload = length payload == payload_size command

infixl 5 ◌>>=◌
abbrev pub ◌>>=◌ {ℓ κ} : {A : Type ℓ} {B : Type κ} → Option A → (A → Option B) → Option B
none >>= f = none
some a >>= f = f a

abbrev pub exact_payload : List ℕ → ℕ → Option (List ℕ)
exact_payload bytes expected = if length bytes == expected then some bytes else none

-- `read_u16_le` and `read_u64_le` are the integers of 2 and 8 bytes.
abbrev pub read_le : List ℕ → (offset width : ℕ) → Option ℕ
read_le bytes offset width = range bytes offset width >>= λ value. some (from_le value)

unfoldable pub parse_verdict : List ℕ → Option Verdict
parse_verdict bytes = do
  bytes ← exact_payload bytes verdict_payload_size
  id ← read_le bytes 0 8
  decision ← get_elem? bytes 8
  some (record { id = id; verdict = decision })

unfoldable pub parse_update_v4 : List ℕ → Option Update
parse_update_v4 bytes = do
  bytes ← exact_payload bytes update_v4_payload_size
  protocol ← get_elem? bytes 0
  local_address ← range bytes 1 4
  local_port ← read_le bytes 5 2
  remote_address ← range bytes 7 4
  remote_port ← read_le bytes 11 2
  decision ← get_elem? bytes 13
  some (record {
    protocol = protocol;
    local_address = local_address;
    local_port = local_port;
    remote_address = remote_address;
    remote_port = remote_port;
    verdict = decision;
  })

unfoldable pub parse_update_v6 : List ℕ → Option Update
parse_update_v6 bytes = do
  bytes ← exact_payload bytes update_v6_payload_size
  protocol ← get_elem? bytes 0
  local_address ← range bytes 1 16
  local_port ← read_le bytes 17 2
  remote_address ← range bytes 19 16
  remote_port ← read_le bytes 35 2
  decision ← get_elem? bytes 37
  some (record {
    protocol = protocol;
    local_address = local_address;
    local_port = local_port;
    remote_address = remote_address;
    remote_port = remote_port;
    verdict = decision;
  })
