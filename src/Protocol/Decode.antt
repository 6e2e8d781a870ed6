-- ===== src/Protocol/Decode.antt =====
-- Connection events as user space decodes them, field by field off the front of a stream.
use Prim.Native.Nat.{ℕ, zero, suc, ◌^◌, ◌<◌}
use mathlib.Core.Path.{◌≡◌, refl}
use mathlib.Core.List.{List, [], ◌∷◌, ◌++◌}
use mathlib.Core.Option.{Option, none, some}
use native.Mathlib.Omega.{arith}
use windows_kext_mod.Prelude.Tests.{◌==◌, if◌then◌else◌}
use windows_kext_mod.Prelude.Lists.{length}
use windows_kext_mod.Prelude.Bytes.{to_le, from_le, from_le-to_le, length-to_le}
use windows_kext_mod.Protocol.Command.{◌>>=◌}
use windows_kext_mod.Protocol.Info
use windows_kext_mod.Protocol.Info.{
  Info, ConnectionInfo, connection_size, connection_fields, connection_info_v4, connection_info_v6,
}
use windows_kext_mod.Protocol.Frames.{
  read_frame, read_frame-connection_info_v4, read_frame-connection_info_v6,
}

-- One byte, and as many bytes as asked for, with what follows them.
pub read_byte : List ℕ → Option (ℕ × List ℕ)
read_byte [] = none
read_byte (b ∷ stream) = some (b, stream)

pub read_bytes : ℕ → List ℕ → Option (List ℕ × List ℕ)
read_bytes zero stream = some ([], stream)
read_bytes (suc n) [] = none
read_bytes (suc n) (b ∷ stream) = read_bytes n stream >>= λ r. some (b ∷ r.0, r.1)

-- A little-endian integer of `w` bytes.
pub read_word : ℕ → List ℕ → Option (ℕ × List ℕ)
read_word w stream = read_bytes w stream >>= λ r. some (from_le r.0, r.1)

pub read_byte_lem : (b : ℕ) (stream : List ℕ) → read_byte (b ∷ stream) ≡ some (b, stream)
unfolding read_byte
read_byte_lem b stream = refl

pub read_bytes-append :
    (n : ℕ) (xs stream : List ℕ) → length xs ≡ n → read_bytes n (xs ++ stream) ≡ some (xs, stream)
unfolding read_bytes
read_bytes-append zero [] stream h = refl
read_bytes-append (suc n) [] stream h = absurd (omega arith)
read_bytes-append zero (x ∷ xs) stream h = absurd (omega arith)
read_bytes-append (suc n) (x ∷ xs) stream h =
    rw (read_bytes-append n xs stream (omega arith), read_bytes) refl

pub read_word-to_le :
    (w n : ℕ) (stream : List ℕ) → n < 256 ^ w → read_word w (to_le w n ++ stream) ≡ some (n, stream)
unfolding read_word
read_word-to_le w n stream h =
    rw (read_bytes-append w (to_le w n) stream (length-to_le w n), from_le-to_le w n h) refl

read_bytes_all : (n : ℕ) (xs : List ℕ) → length xs ≡ n → read_bytes n xs ≡ some (xs, [])
unfolding read_bytes
read_bytes_all zero [] h = refl
read_bytes_all (suc n) [] h = absurd (omega arith)
read_bytes_all zero (x ∷ xs) h = absurd (omega arith)
read_bytes_all (suc n) (x ∷ xs) h = rw (read_bytes_all n xs (omega arith), read_bytes) refl

-- What stands in a frame, if it fills the frame.
unfoldable pub whole {ℓ} : {A : Type ℓ} → A × List ℕ → Option A
whole (a, []) = some a
whole (a, b ∷ bs) = none

-- The content of a connection event with addresses of `a` bytes.
pub read_fields : (a : ℕ) → List ℕ → Option (ConnectionInfo × List ℕ)
read_fields a stream = read_word 8 stream >>= λ id. read_word 8 id.1 >>= λ process_id.
    read_byte process_id.1 >>= λ direction. read_byte direction.1 >>= λ protocol.
    read_bytes a protocol.1 >>= λ local_ip. read_bytes a local_ip.1 >>= λ remote_ip.
    read_word 2 remote_ip.1 >>= λ local_port. read_word 2 local_port.1 >>= λ remote_port.
    read_byte remote_port.1 >>= λ payload_layer. read_word 4 payload_layer.1 >>= λ payload_len.
    read_bytes payload_len.0 payload_len.1 >>= λ payload. some (
      record {
        id = id.0;
        process_id = process_id.0;
        direction = direction.0;
        protocol = protocol.0;
        local_ip = local_ip.0;
        remote_ip = remote_ip.0;
        local_port = local_port.0;
        remote_port = remote_port.0;
        payload_layer = payload_layer.0;
        payload = payload.0;
      },
      payload.1,
    )

-- The length of the addresses, by the type of the frame.
pub address_length : ℕ → Option ℕ
address_length code = if code == 1 then some 4 else if code == 2 then some 16 else none

-- A connection event at the front of a stream, and what follows it.
pub read_connection : List ℕ → Option (ConnectionInfo × List ℕ)
read_connection stream = read_frame stream >>= λ frame. address_length frame.0 >>= λ a.
    read_fields a frame.1 >>= λ fields. whole fields >>= λ c. some (c, frame.2)

-- The addresses have `a` bytes, the integers fit their fields, and the content its length field.
abbrev pub FieldsFit : ℕ → ConnectionInfo → Type 0
FieldsFit a c =
    (c.id < 2 ^ 64)
    × (c.process_id < 2 ^ 64)
    × (length c.local_ip ≡ a)
    × (length c.remote_ip ≡ a)
    × (c.local_port < 2 ^ 16)
    × (c.remote_port < 2 ^ 16)
    × (connection_size a c < 2 ^ 32)

read_fields-connection_fields :
    (a : ℕ) (c : ConnectionInfo)
    → FieldsFit a c
    → read_fields a (connection_fields c) ≡ some (c, [])
unfolding read_fields
read_fields-connection_fields a c
      (id, process_id, local_ip, remote_ip, local_port, remote_port, size) =
    let payload_len = Info.as_u32 (length c.payload) in
    let payload = c.payload in
    let sized = to_le 4 payload_len ++ payload in
    let from_layer = c.payload_layer ∷ sized in
    let from_port = to_le 2 c.remote_port ++ from_layer in
    let from_ports = to_le 2 c.local_port ++ from_port in
    let from_remote = c.remote_ip ++ from_ports in
    let from_local = c.local_ip ++ from_remote in
    let from_process = to_le 8 c.process_id ++ (c.direction ∷ c.protocol ∷ from_local) in
    rw
      (
        read_word-to_le 8 c.id from_process id,
        read_word-to_le 8 c.process_id (c.direction ∷ c.protocol ∷ from_local) process_id,
        read_byte_lem c.direction (c.protocol ∷ from_local),
        read_byte_lem c.protocol from_local,
        read_bytes-append a c.local_ip from_remote local_ip,
        read_bytes-append a c.remote_ip from_ports remote_ip,
        read_word-to_le 2 c.local_port from_port local_port,
        read_word-to_le 2 c.remote_port from_layer remote_port,
        read_byte_lem c.payload_layer sized,
        read_word-to_le 4 payload_len payload (omega arith),
        read_bytes_all payload_len payload (omega (arith, size)),
      )
      refl

-- An IPv4 connection event is decoded, off the front of any stream, to the very fields that it
-- was made of, if its addresses have 4 bytes and its fields and its content fit.
pub read_connection-connection_info_v4 :
    (c : ConnectionInfo) (rest : List ℕ)
    → FieldsFit 4 c
    → read_connection ((connection_info_v4 c).bytes ++ rest) ≡ some (c, rest)
unfolding read_connection address_length whole
read_connection-connection_info_v4 c rest fit =
    rw
      (
        read_frame-connection_info_v4 c rest fit.2 fit.3 fit.6,
        read_fields-connection_fields 4 c fit,
      )
      refl

-- An IPv6 connection event is decoded, off the front of any stream, to the very fields that it
-- was made of, if its addresses have 16 bytes and its fields and its content fit.
pub read_connection-connection_info_v6 :
    (c : ConnectionInfo) (rest : List ℕ)
    → FieldsFit 16 c
    → read_connection ((connection_info_v6 c).bytes ++ rest) ≡ some (c, rest)
unfolding read_connection address_length whole
read_connection-connection_info_v6 c rest fit =
    rw
      (
        read_frame-connection_info_v6 c rest fit.2 fit.3 fit.6,
        read_fields-connection_fields 16 c fit,
      )
      refl
