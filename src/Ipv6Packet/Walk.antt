-- ===== src/Ipv6Packet/Walk.antt =====
-- Where the walk over the extension headers ends.
use Prim.Native.Nat.{ℕ, zero, suc, ◌≤◌}
use mathlib.Core.Path.{◌≡◌, refl, subst}
use mathlib.Core.Logic.{◌⊎◌, inl, inr}
use mathlib.Core.Bool.{Bool, true, false, ◌&&◌}
use mathlib.Core.List.{List}
use native.Mathlib.Omega.{arith}
use windows_kext_mod.Prelude.Tests.{◌==◌, leb, Bool-cases}
use windows_kext_mod.Prelude.Lists.{length, take}
use windows_kext_mod.Ipv6Packet.{
  HeaderFields, Ipv6Headers, Turn, stop, follow, prefix, visit_fragment, visit_options, visit,
  is_extension, walk_from, start, walk_ipv6_headers_reader, ipv6_frag,
}

pub Turn-cases :
    (t : Turn) → ((r : Ipv6Headers) × (t ≡ stop r)) ⊎ ((r : Ipv6Headers) × (t ≡ follow r))
Turn-cases (stop r) = inl (r, refl)
Turn-cases (follow r) = inr (r, refl)

pub le→leb : (a b : ℕ) → a ≤ b → leb a b ≡ true
le→leb a b h = ground arith

and_false : (b : Bool) → (b && false) ≡ false
and_false b = ground arith

module _ (fields : HeaderFields) (packet : List ℕ) (stop_at_fragment inspect_routing : Bool) where
  abbrev turn : Ipv6Headers → Turn
  turn s = visit fields packet stop_at_fragment inspect_routing s

  -- The walk stands inside the packet and has not resolved.
  abbrev IsWithin : Ipv6Headers → Type 0
  IsWithin s =
      (40 ≤ s.transport_offset) × (s.transport_offset ≤ length packet) × (s.resolved ≡ false)

  abbrev IsGoing : Ipv6Headers → Type 0
  IsGoing s = IsWithin s × ((stop_at_fragment && s.is_fragment) ≡ false)

  abbrev IsTurn : Turn → Type 0
  IsTurn (stop r) = IsWithin r
  IsTurn (follow r) = IsGoing r

  visit_fragment-IsTurn :
      (s : Ipv6Headers) → IsGoing s → IsTurn (visit_fragment packet stop_at_fragment s)
  unfolding visit_fragment
  visit_fragment-IsTurn s w = ground (arith, w)

  visit_options-IsTurn :
      (s : Ipv6Headers)
      → IsGoing s
      → IsTurn (visit_options fields packet stop_at_fragment inspect_routing s)
  unfolding visit_options
  visit_options-IsTurn s w = ground (arith, w)

  visit-IsTurn : (s : Ipv6Headers) → IsGoing s → IsTurn (turn s)
  unfolding visit
  visit-IsTurn s w = elim (Bool-cases (s.protocol == ipv6_frag)) [
    | inl fragment ↦ rw fragment (visit_fragment-IsTurn s w)
    | inr other ↦ rw other (visit_options-IsTurn s w)
  ]

  -- What the callers of the walk rely on.
  abbrev pub IsSound : Ipv6Headers → Type 0
  IsSound r =
      (40 ≤ r.transport_offset)
      × (r.transport_offset ≤ length packet)
      × ((r.resolved && is_extension r.protocol) ≡ false)
      × ((r.resolved && (stop_at_fragment && r.is_fragment)) ≡ false)

  abbrev walk : ℕ → Ipv6Headers → Ipv6Headers
  walk left s = walk_from fields packet stop_at_fragment inspect_routing left s

  walk_from-IsSound : (left : ℕ) (s : Ipv6Headers) → IsGoing s → IsSound (walk left s)
  unfolding walk_from
  walk_from-IsSound zero s w = ground (arith, w)
  walk_from-IsSound (suc left) s w = elim (Bool-cases (is_extension s.protocol)) [
    | inr upper ↦ rw (upper, walk_from) (ground (arith, w, upper))
    | inl extension ↦ elim (Turn-cases (turn s)) [
      | inl (r, e) ↦
          let t = subst IsTurn e (visit-IsTurn s w) in
          rw (extension, e, walk_from) (ground (arith, t))
      | inr (r, e) ↦
          rw (extension, e, walk_from)
            (walk_from-IsSound left r (subst IsTurn e (visit-IsTurn s w)))
    ]
  ]

  -- A chain of extension headers, each of which is followed.
  pub data Chain : ℕ → Ipv6Headers → Ipv6Headers → Type 0 where
    ends : {s : Ipv6Headers} → Chain 0 s s
    follows :
        {n : ℕ} {s r t : Ipv6Headers}
        → is_extension s.protocol ≡ true
        → turn s ≡ follow r
        → Chain n r t
        → Chain (suc n) s t

  walk_from-Chain :
      (left n : ℕ) (s t : Ipv6Headers)
      → n ≤ left
      → Chain n s t
      → is_extension t.protocol ≡ false
      → walk left s ≡ record t { resolved = true }
  unfolding walk_from
  walk_from-Chain zero n s t h (ends) upper = rw (upper, walk_from) refl
  walk_from-Chain (suc left) n s t h (ends) upper = rw (upper, walk_from) refl
  walk_from-Chain zero n s t h (follows e f c) upper = absurd (omega (arith, h))
  walk_from-Chain (suc left) n s t h (follows {n = m} {r = r} e f c) upper =
      rw (e, f, walk_from) (walk_from-Chain left m r t (omega (arith, h)) c upper)

  -- For a packet that holds the base header, the walk ends at an offset of at least 40 inside the
  -- packet; a resolved walk has not stopped at an extension header, and with `stop_at_fragment`
  -- it has not set `is_fragment`.
  pub walk_ipv6_headers_reader-IsSound :
      40 ≤ length packet
      → IsSound (walk_ipv6_headers_reader fields packet stop_at_fragment inspect_routing)
  unfolding walk_ipv6_headers_reader prefix
  walk_ipv6_headers_reader-IsSound h =
      rw (le→leb 40 (length packet) h, walk_ipv6_headers_reader)
        (walk_from-IsSound 8 (start (fields.next_header (take 40 packet)))
          ((omega arith, h, refl), and_false stop_at_fragment))

  -- In a packet that holds the base header, a chain of at most eight extension headers that ends
  -- at an upper-layer protocol is walked to its end, with what its turns found, as resolved.
  pub walk_ipv6_headers_reader-Chain :
      (n : ℕ) (t : Ipv6Headers)
      → 40 ≤ length packet
      → n ≤ 8
      → Chain n (start (fields.next_header (take 40 packet))) t
      → is_extension t.protocol ≡ false
      → walk_ipv6_headers_reader fields packet stop_at_fragment inspect_routing
        ≡ record t { resolved = true }
  unfolding walk_ipv6_headers_reader prefix
  walk_ipv6_headers_reader-Chain n t h bound c upper =
      rw (le→leb 40 (length packet) h, walk_ipv6_headers_reader)
        (walk_from-Chain 8 n (start (fields.next_header (take 40 packet))) t bound c upper)
