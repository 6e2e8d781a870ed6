-- ===== src/Protocol/RoundTrip.antt =====
-- Commands as a client writes them, read back by the parsers of `Command`.
use Prim.Native.Nat.{ℕ, ◌+◌, ◌^◌, ◌<◌}
use mathlib.Core.Path.{◌≡◌, refl}
use mathlib.Core.List.{List, [], ◌∷◌, ◌++◌, append_assoc}
use mathlib.Core.Option.{some}
use native.Mathlib.Omega.{arith}
use windows_kext_mod.Prelude.Lists.{length, get_elem?, length-append}
use windows_kext_mod.Prelude.Bytes.{to_le, from_le-to_le, length-to_le}
use windows_kext_mod.Protocol.Slices.{range, range_at, get_elem?_at}
use windows_kext_mod.Protocol.Command.{
  Verdict, Update, parse_verdict, parse_update_v4, parse_update_v6, read_le,
}

-- The payloads in packed field order.
abbrev pub encode_verdict : Verdict → List ℕ
encode_verdict v = to_le 8 v.id ++ v.verdict ∷ []

pub encode_update : Update → List ℕ
encode_update u =
    u.protocol ∷ u.local_address
    ++ (to_le 2 u.local_port ++ (u.remote_address ++ (to_le 2 u.remote_port ++ u.verdict ∷ [])))

-- The fields fit their widths; the addresses have `a` bytes.
pub record Fits (a : ℕ) (u : Update) : Type 0 where
  pub local_length : length u.local_address ≡ a
  pub remote_length : length u.remote_address ≡ a
  pub local_fits : u.local_port < 256 ^ 2
  pub remote_fits : u.remote_port < 256 ^ 2

module _ (a : ℕ) (u : Update) (fits : Fits a u) where
  abbrev after_remote_address : List ℕ
  after_remote_address = to_le 2 u.remote_port ++ u.verdict ∷ []

  abbrev after_local_port : List ℕ
  after_local_port = u.remote_address ++ after_remote_address

  abbrev after_local_address : List ℕ
  after_local_address = to_le 2 u.local_port ++ after_local_port

  -- What stands before the remote address, the remote port and the verdict.
  abbrev before_remote_address : List ℕ
  before_remote_address = u.protocol ∷ (u.local_address ++ to_le 2 u.local_port)

  abbrev before_remote_port : List ℕ
  before_remote_port = before_remote_address ++ u.remote_address

  abbrev before_verdict : List ℕ
  before_verdict = before_remote_port ++ to_le 2 u.remote_port

  length-before_remote_address : length before_remote_address ≡ 3 + a
  length-before_remote_address = omega (
    arith,
    fits.local_length,
    length-append u.local_address (to_le 2 u.local_port),
    length-to_le 2 u.local_port,
  )

  length-before_remote_port : length before_remote_port ≡ 3 + (a + a)
  length-before_remote_port = omega (
    arith,
    fits.remote_length,
    length-before_remote_address,
    length-append before_remote_address u.remote_address,
  )

  length-before_verdict : length before_verdict ≡ 5 + (a + a)
  length-before_verdict = omega (
    arith,
    length-before_remote_port,
    length-append before_remote_port (to_le 2 u.remote_port),
    length-to_le 2 u.remote_port,
  )

  length-encode : length (encode_update u) ≡ 6 + (a + a)
  unfolding encode_update
  length-encode = omega (
    arith,
    fits.local_length,
    fits.remote_length,
    length-append u.local_address after_local_address,
    length-append (to_le 2 u.local_port) after_local_port,
    length-append u.remote_address after_remote_address,
    length-append (to_le 2 u.remote_port) (u.verdict ∷ []),
    length-to_le 2 u.local_port,
    length-to_le 2 u.remote_port,
  )

  local_address_at : range (encode_update u) 1 a ≡ some u.local_address
  unfolding encode_update
  local_address_at = range_at _ (u.protocol ∷ []) u.local_address _ 1 a refl refl fits.local_length

  local_port_at : read_le (encode_update u) (1 + a) 2 ≡ some u.local_port
  unfolding encode_update
  local_port_at =
      rw
        (
          range_at (encode_update u) (u.protocol ∷ u.local_address) (to_le 2 u.local_port)
              after_local_port (1 + a) 2 refl (omega (arith, fits.local_length))
              (length-to_le 2 u.local_port),
          from_le-to_le 2 u.local_port fits.local_fits,
        )
        refl

  remote_address_at : range (encode_update u) (3 + a) a ≡ some u.remote_address
  unfolding encode_update
  remote_address_at =
      range_at (encode_update u) before_remote_address u.remote_address after_remote_address (3 + a)
        a (simp append_assoc) length-before_remote_address fits.remote_length

  remote_port_at : read_le (encode_update u) (3 + (a + a)) 2 ≡ some u.remote_port
  unfolding encode_update
  remote_port_at =
      rw
        (
          range_at (encode_update u) before_remote_port (to_le 2 u.remote_port) (u.verdict ∷ [])
              (3 + (a + a)) 2 (simp append_assoc) length-before_remote_port
              (length-to_le 2 u.remote_port),
          from_le-to_le 2 u.remote_port fits.remote_fits,
        )
        refl

  protocol_at : get_elem? (encode_update u) 0 ≡ some u.protocol
  unfolding encode_update
  protocol_at = refl

  verdict_at : get_elem? (encode_update u) (5 + (a + a)) ≡ some u.verdict
  unfolding encode_update
  verdict_at =
      get_elem?_at (encode_update u) before_verdict [] u.verdict (5 + (a + a)) (simp append_assoc)
        length-before_verdict

-- Parsing the bytes of an update gives it back, if its addresses have 4 bytes and its ports fit
-- two.
pub parse_update_v4-encode_update :
    (u : Update) → Fits 4 u → parse_update_v4 (encode_update u) ≡ some u
unfolding parse_update_v4
parse_update_v4-encode_update u fits = ground (
  arith,
  length-encode 4 u fits,
  protocol_at 4 u fits,
  local_address_at 4 u fits,
  local_port_at 4 u fits,
  remote_address_at 4 u fits,
  remote_port_at 4 u fits,
  verdict_at 4 u fits,
)

-- Parsing the bytes of an update gives it back, if its addresses have 16 bytes and its ports fit
-- two.
pub parse_update_v6-encode_update :
    (u : Update) → Fits 16 u → parse_update_v6 (encode_update u) ≡ some u
unfolding parse_update_v6
parse_update_v6-encode_update u fits = ground (
  arith,
  length-encode 16 u fits,
  protocol_at 16 u fits,
  local_address_at 16 u fits,
  local_port_at 16 u fits,
  remote_address_at 16 u fits,
  remote_port_at 16 u fits,
  verdict_at 16 u fits,
)

-- Parsing the bytes of a verdict gives it back, if its identity fits 8 bytes.
pub parse_verdict-encode_verdict :
    (v : Verdict) → v.id < 256 ^ 8 → parse_verdict (encode_verdict v) ≡ some v
unfolding parse_verdict
parse_verdict-encode_verdict v h = ground (
  arith,
  length-append (to_le 8 v.id) (v.verdict ∷ []),
  length-to_le 8 v.id,
  range_at (encode_verdict v) [] (to_le 8 v.id) (v.verdict ∷ []) 0 8 refl refl
      (length-to_le 8 v.id),
  get_elem?_at (encode_verdict v) (to_le 8 v.id) [] v.verdict 8 refl (length-to_le 8 v.id),
  from_le-to_le 8 v.id h,
)
