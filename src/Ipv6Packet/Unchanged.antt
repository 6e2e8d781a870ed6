-- ===== src/Ipv6Packet/Unchanged.antt =====
-- A packet that cannot be rewritten is returned as it was.
use Prim.Native.Nat.{ℕ, zero, suc, ◌+◌, ◌-◌, ◌≤◌}
use mathlib.Core.Path.{◌≡◌, refl, ◌∙◌, sym, ap}
use mathlib.Core.Logic.{◌⊎◌, inl, inr}
use mathlib.Core.Bool.{true, false}
use mathlib.Core.List.{List, [], ◌∷◌, ◌++◌}
use native.Mathlib.Nat.{suc-add}
use native.Mathlib.Omega.{arith}
use windows_kext_mod.Prelude.Tests.{Bool-cases, Option-cases}
use windows_kext_mod.Prelude.Lists.{length, take, drop, length-append}
use windows_kext_mod.Ipv6Packet.{walk_ipv6_headers}
use windows_kext_mod.Ipv6Packet.Walk.{walk_ipv6_headers_reader-IsSound}
use windows_kext_mod.Ipv6Packet.Rewrite.{
  Ipv6TransportError, PortRewrite, Outcome, ok, error, Wire, TransportContext, get_range,
  transport_context, validate_transport, rewrite_valid, rewrite_ipv6_tcp_udp,
}

-- What smoltcp documents of the calls: a checked packet holds its base header and its declared
-- length, and an address setter writes within the base header.
pub record Documented (wire : Wire) : Type 0 where
  pub valid_len :
      (p : List ℕ)
      → wire.packet_is_valid p ≡ true
      → (40 ≤ wire.total_len p) × (wire.total_len p ≤ length p)
  pub src_len : (p a : List ℕ) → length (wire.set_src_addr p a) ≡ length p
  pub dst_len : (p a : List ℕ) → length (wire.set_dst_addr p a) ≡ length p
  pub src_rest : (p a : List ℕ) → drop 40 (wire.set_src_addr p a) ≡ drop 40 p
  pub dst_rest : (p a : List ℕ) → drop 40 (wire.set_dst_addr p a) ≡ drop 40 p

Outcome-cases :
    {A : Type 0} (o : Outcome A)
    → ((a : A) × (o ≡ ok a)) ⊎ ((e : Ipv6TransportError) × (o ≡ error e))
Outcome-cases (ok a) = inl (a, refl)
Outcome-cases (error e) = inr (e, refl)

length-take : (n : ℕ) (xs : List ℕ) → n ≤ length xs → length (take n xs) ≡ n
length-take zero xs h = refl
length-take (suc n) [] h = absurd (omega (arith, h))
length-take (suc n) (x ∷ xs) h = ground (arith, length-take n xs)

-- What stands from an offset on decides the range from there.
drop-drop : (k m : ℕ) (xs : List ℕ) → drop (k + m) xs ≡ drop m (drop k xs)
drop-drop zero m xs = ground arith
drop-drop (suc k) zero [] = rw suc-add refl
drop-drop (suc k) (suc m) [] = rw suc-add refl
drop-drop (suc k) m (x ∷ xs) = rw suc-add (drop-drop k m xs)

drop_from : (k n : ℕ) (xs ys : List ℕ) → k ≤ n → drop k xs ≡ drop k ys → drop n xs ≡ drop n ys
drop_from k n xs ys h e =
    let split : n ≡ k + (n - k) = omega (arith, h) in
    rw split (drop-drop k (n - k) xs ∙ (ap (drop (n - k)) e ∙ sym (drop-drop k (n - k) ys)))

take-drop : (n : ℕ) (xs : List ℕ) → take n xs ++ drop n xs ≡ xs
take-drop zero xs = refl
take-drop (suc n) [] = refl
take-drop (suc n) (x ∷ xs) = ap (λ ys. x ∷ ys) (take-drop n xs)

drop-append :
    (k : ℕ) (xs ys zs : List ℕ)
    → k ≤ length xs
    → length xs ≡ length ys
    → drop k xs ≡ drop k ys
    → drop k (xs ++ zs) ≡ drop k (ys ++ zs)
drop-append zero xs ys zs h l e = ap (λ w. w ++ zs) e
drop-append (suc k) [] ys zs h l e = absurd (omega (arith, h))
drop-append (suc k) (x ∷ xs) [] zs h l e = absurd (omega (arith, l))
drop-append (suc k) (x ∷ xs) (y ∷ ys) zs h l e =
    drop-append k xs ys zs (omega (arith, h)) (omega (arith, l)) e

module _ (wire : Wire) (d : Documented wire) where
  abbrev readdress : List ℕ → (n : ℕ) (source destination : List ℕ) → List ℕ
  readdress packet n source destination =
      wire.set_dst_addr (wire.set_src_addr (take n packet) source) destination ++ drop n packet

  length-readdress :
      (packet : List ℕ) (n : ℕ) (source destination : List ℕ)
      → length (readdress packet n source destination) ≡ length packet
  length-readdress packet n source destination =
      let addressed = wire.set_src_addr (take n packet) source in
      omega (
        arith,
        length-append (wire.set_dst_addr addressed destination) (drop n packet),
        length-append (take n packet) (drop n packet),
        ap length (take-drop n packet),
        d.dst_len addressed destination,
        d.src_len (take n packet) source,
      )

  -- The transport segment is the same after both addresses are set.
  get_range-readdress :
      (packet : List ℕ) (n : ℕ) (source destination : List ℕ) (offset : ℕ)
      → 40 ≤ n
      → n ≤ length packet
      → 40 ≤ offset
      → get_range (readdress packet n source destination) offset n ≡ get_range packet offset n
  unfolding get_range
  get_range-readdress packet n source destination offset h l o =
      let addressed = wire.set_src_addr (take n packet) source in
      let headers = wire.set_dst_addr addressed destination in
      let same_length : length headers ≡ length (take n packet) =
        d.dst_len addressed destination ∙ d.src_len (take n packet) source in
      let same_rest : drop 40 headers ≡ drop 40 (take n packet) =
        d.dst_rest addressed destination ∙ d.src_rest (take n packet) source in
      let within : 40 ≤ length headers = omega (arith, h, same_length, length-take n packet l) in
      let rest =
        drop-append 40 headers (take n packet) (drop n packet) within same_length same_rest
        ∙ ap (drop 40) (take-drop n packet) in
      rw
        (
          length-readdress packet n source destination,
          drop_from 40 offset (readdress packet n source destination) packet o rest,
        )
        refl

  -- Where the rewrite of a packet is tried at all.
  abbrev IsReadable : List ℕ → TransportContext → Type 0
  IsReadable packet c =
      (c.total_len ≡ wire.total_len packet) × (wire.packet_is_valid packet ≡ true) × (40 ≤ c.offset)

  IsSound-offset :
      (packet : List ℕ)
      → 40 ≤ length packet
      → 40 ≤ (walk_ipv6_headers wire.fields packet false).transport_offset
  IsSound-offset packet h = (walk_ipv6_headers_reader-IsSound wire.fields packet false true h).0

  transport_context-IsReadable :
      (packet : List ℕ) {c : TransportContext}
      → transport_context wire packet ≡ ok c
      → IsReadable packet c
  unfolding transport_context
  transport_context-IsReadable packet {c} h = elim (Bool-cases (wire.packet_is_valid packet)) [
    | inr invalid ↦ absurd (ground (arith, h, invalid))
    | inl valid ↦
        let bounds = d.valid_len packet valid in
        let long = length-take (wire.total_len packet) packet bounds.1 in
        let held : 40 ≤ length (take (wire.total_len packet) packet) =
          omega (arith, bounds.0, long) in
        ground (arith, h, valid, IsSound-offset (take (wire.total_len packet) packet) held)
  ]

  -- What passed the validation passes every later check, so that the rewrite answers `ok`.
  rewrite_valid-ok :
      (packet source destination : List ℕ) (port : PortRewrite) (c : TransportContext)
      → IsReadable packet c
      → validate_transport wire packet c ≡ ok tt
      → (rewrite_valid wire packet source destination port c).1 ≡ ok tt
  unfolding validate_transport rewrite_valid
  rewrite_valid-ok packet source destination port c r v =
      let bounds = d.valid_len packet r.1 in
      let same_segment =
        get_range-readdress packet c.total_len source destination c.offset
          (omega (arith, bounds.0, r.0)) (omega (arith, bounds.1, r.0)) r.2 in
      elim (Option-cases (get_range packet c.offset c.total_len)) [
        | inl outside ↦ absurd (ground (arith, outside, v))
        | inr (transport, found) ↦ ground (arith, found, v, same_segment)
      ]

  -- With smoltcp's calls as documented, a rewrite that is refused, for whatever reason, leaves
  -- every byte of the packet as it was.
  pub rewrite_ipv6_tcp_udp_unchanged :
      (packet source destination : List ℕ) (port : PortRewrite) {e : Ipv6TransportError}
      → (rewrite_ipv6_tcp_udp wire packet source destination port).1 ≡ error e
      → (rewrite_ipv6_tcp_udp wire packet source destination port).0 ≡ packet
  unfolding rewrite_ipv6_tcp_udp
  rewrite_ipv6_tcp_udp_unchanged packet source destination port {e} h =
      elim (Outcome-cases (transport_context wire packet)) [
        | inr (f, refused) ↦ rw (refused, rewrite_ipv6_tcp_udp) refl
        | inl (c, read) ↦ elim (Outcome-cases (validate_transport wire packet c)) [
          | inr (f, refused) ↦ rw (read, refused, rewrite_ipv6_tcp_udp) refl
          | inl (u, passed) ↦
              let valid =
                rewrite_valid-ok packet source destination port c
                  (transport_context-IsReadable packet {c = c} read) passed in
              absurd (ground (arith, h, read, passed, valid))
        ]
      ]
