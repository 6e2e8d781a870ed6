-- ===== src/Ipv6Packet/Passed.antt =====
-- Which headers the walk over an IPv6 packet has passed, by the bytes of the packet.
use Prim.Native.Nat.{ℕ, zero, suc, ◌+◌, ◌*◌, ◌/◌, ◌%◌, ◌≤◌, ◌<◌}
use mathlib.Core.Path.{◌≡◌, refl, subst}
use mathlib.Core.Logic.{◌⊎◌, inl, inr}
use mathlib.Core.Bool.{Bool, true, false, not, ◌&&◌, ◌||◌}
use mathlib.Core.List.{List, [], ◌∷◌}
use native.Mathlib.Omega.{arith}
use windows_kext_mod.Prelude.Tests.{◌==◌, Bool-cases}
use windows_kext_mod.Prelude.Lists.{length, take, drop, get_elem?}
use windows_kext_mod.Ipv6Packet.{
  HeaderFields, Ipv6Headers, Turn, stop, follow, prefix, at, is_non_atomic, visit_fragment,
  visit_options, visit, is_extension, walk_from, start, walk_ipv6_headers_reader, ipv6_frag,
}
use windows_kext_mod.Ipv6Packet.Walk.{Turn-cases, le→leb, IsSound, walk_ipv6_headers_reader-IsSound}

get_elem?-take : (n i : ℕ) (xs : List ℕ) → i < n → get_elem? (take n xs) i ≡ get_elem? xs i
get_elem?-take zero i xs h = absurd (omega arith)
get_elem?-take (suc n) i [] h = ground arith
get_elem?-take (suc n) zero (x ∷ xs) h = refl
get_elem?-take (suc n) (suc i) (x ∷ xs) h = get_elem?-take n i xs (omega (arith, h))

at-take : (n i : ℕ) (xs : List ℕ) → i < n → at (take n xs) i ≡ at xs i
at-take n i xs h = rw (get_elem?-take n i xs h, at) refl

-- Whether a fragment header belongs to a packet that was split: its offset of 13 bits, or the mark
-- of more fragments, is set.
abbrev pub is_split : (high low : ℕ) → Bool
is_split high low = not (high * 32 + low / 8 == 0 && low % 2 == 0)

is_non_atomic-is_split : (high low : ℕ) → is_non_atomic (high * 256 + low) ≡ is_split high low
is_non_atomic-is_split high low = ground arith

module _ (fields : HeaderFields) (packet : List ℕ) where
  -- The first two bytes of an extension header.
  abbrev pub extension_at : ℕ → List ℕ
  extension_at offset = drop offset (take (offset + 2) packet)

  -- What is behind a fragment header that the packet holds whole.
  abbrev pub IsPastFragment : Ipv6Headers → Ipv6Headers → Type 0
  IsPastFragment s r =
      (s.transport_offset + 8 ≤ length packet)
      × (r.protocol ≡ at packet s.transport_offset)
      × (r.transport_offset ≡ s.transport_offset + 8)
      × (r.is_fragment ≡ (
          s.is_fragment
          || is_split (at packet (s.transport_offset + 2)) (at packet (s.transport_offset + 3))))

  -- What is behind another extension header that the packet holds whole.
  abbrev pub IsPastOptions : Ipv6Headers → Ipv6Headers → Type 0
  IsPastOptions s r =
      (r.transport_offset ≤ length packet)
      × (r.protocol ≡ fields.ext_next_header (extension_at s.transport_offset))
      × (r.transport_offset
          ≡ s.transport_offset + (fields.ext_header_len (extension_at s.transport_offset) + 1) * 8)
      × (r.is_fragment ≡ s.is_fragment)

  -- The headers between two places of the packet, each read from its bytes.
  pub data Passed : Ipv6Headers → Ipv6Headers → Type 0 where
    here :
        {s t : Ipv6Headers}
        → t.protocol ≡ s.protocol
        → t.transport_offset ≡ s.transport_offset
        → t.is_fragment ≡ s.is_fragment
        → Passed s t
    fragment :
        {s r t : Ipv6Headers} → s.protocol ≡ 44 → IsPastFragment s r → Passed r t → Passed s t
    options :
        {s r t : Ipv6Headers}
        → s.protocol ≡ 0 ⊎ (s.protocol ≡ 43 ⊎ s.protocol ≡ 60)
        → IsPastOptions s r
        → Passed r t
        → Passed s t

  abbrev IsPast : Ipv6Headers → Ipv6Headers → Type 0
  IsPast s r =
      ((s.protocol ≡ 44) × IsPastFragment s r)
      ⊎ ((s.protocol ≡ 0 ⊎ (s.protocol ≡ 43 ⊎ s.protocol ≡ 60)) × IsPastOptions s r)

  -- A turn that stops has passed no header or one, and a turn that follows has passed one.
  abbrev AfterFragment : Ipv6Headers → Turn → Type 0
  AfterFragment s (stop r) = r ≡ s ⊎ IsPastFragment s r
  AfterFragment s (follow r) = IsPastFragment s r

  abbrev AfterOptions : Ipv6Headers → Turn → Type 0
  AfterOptions s (stop r) = r ≡ s
  AfterOptions s (follow r) = IsPastOptions s r

  visit_fragment-past :
      (stop_at_fragment : Bool) (s : Ipv6Headers)
      → AfterFragment s (visit_fragment packet stop_at_fragment s)
  unfolding visit_fragment prefix
  visit_fragment-past stop_at_fragment s =
      let offset = s.transport_offset in
      let first = at-take (offset + 4) offset packet (omega arith) in
      let high = at-take (offset + 4) (offset + 2) packet (omega arith) in
      let low = at-take (offset + 4) (offset + 3) packet (omega arith) in
      let same = is_non_atomic-is_split (at packet (offset + 2)) (at packet (offset + 3)) in
      ground (arith, first, high, low, same)

  visit_options-past :
      (stop_at_fragment inspect_routing : Bool) (s : Ipv6Headers)
      → AfterOptions s (visit_options fields packet stop_at_fragment inspect_routing s)
  unfolding visit_options prefix
  visit_options-past stop_at_fragment inspect_routing s = ground arith

  -- Where a walk may end: inside the packet, and a resolved one not at an extension header, nor,
  -- if it stops at fragments, behind a header of a packet that was split.
  abbrev pub IsEnd : (stop_at_fragment : Bool) → Ipv6Headers → Type 0
  IsEnd stop_at_fragment r =
      (40 ≤ r.transport_offset)
      × (r.transport_offset ≤ length packet)
      × ((r.resolved
            && (r.protocol == 0 || r.protocol == 43 || r.protocol == 44 || r.protocol == 60))
          ≡ false)
      × ((r.resolved && (stop_at_fragment && r.is_fragment)) ≡ false)

  module _ (stop_at_fragment inspect_routing : Bool) where
    abbrev turn : Ipv6Headers → Turn
    turn s = visit fields packet stop_at_fragment inspect_routing s

    abbrev walk : ℕ → Ipv6Headers → Ipv6Headers
    walk left s = walk_from fields packet stop_at_fragment inspect_routing left s

    abbrev AfterTurn : Ipv6Headers → Turn → Type 0
    AfterTurn s (stop r) = r ≡ s ⊎ IsPast s r
    AfterTurn s (follow r) = IsPast s r

    of_fragment : (s : Ipv6Headers) (t : Turn) → s.protocol ≡ 44 → AfterFragment s t → AfterTurn s t
    of_fragment s (stop r) h (inl e) = inl e
    of_fragment s (stop r) h (inr p) = inr (inl (h, p))
    of_fragment s (follow r) h p = inl (h, p)

    of_options :
        (s : Ipv6Headers) (t : Turn)
        → s.protocol ≡ 0 ⊎ (s.protocol ≡ 43 ⊎ s.protocol ≡ 60)
        → AfterOptions s t
        → AfterTurn s t
    of_options s (stop r) h e = inl e
    of_options s (follow r) h p = inr (h, p)

    visit-past : (s : Ipv6Headers) → is_extension s.protocol ≡ true → AfterTurn s (turn s)
    unfolding visit
    visit-past s extension = elim (Bool-cases (s.protocol == ipv6_frag)) [
      | inl is_frag ↦ rw is_frag (
          of_fragment s (visit_fragment packet stop_at_fragment s) (ground arith)
            (visit_fragment-past stop_at_fragment s))
      | inr other ↦ rw other (
          of_options s (visit_options fields packet stop_at_fragment inspect_routing s)
            (ground arith) (visit_options-past stop_at_fragment inspect_routing s))
    ]

    passes : (s r t : Ipv6Headers) → IsPast s r → Passed r t → Passed s t
    passes s r t (inl (h, p)) rest = fragment h p rest
    passes s r t (inr (h, p)) rest = options h p rest

    stopped : (s r : Ipv6Headers) → r ≡ s ⊎ IsPast s r → Passed s r
    stopped s r (inl e) = rw e (here refl refl refl)
    stopped s r (inr p) = passes s r r p (here refl refl refl)

    IsEnd-IsSound :
        (r : Ipv6Headers)
        → IsSound fields packet stop_at_fragment inspect_routing r
        → IsEnd stop_at_fragment r
    IsEnd-IsSound r s = ground (arith, s)

    walk_from-Passed : (left : ℕ) (s : Ipv6Headers) → Passed s (walk left s)
    unfolding walk_from
    walk_from-Passed zero s = elim (Bool-cases (is_extension s.protocol)) [
      | inl extension ↦ rw (extension, walk_from) (here refl refl refl)
      | inr upper ↦ rw (upper, walk_from) (here refl refl refl)
    ]
    walk_from-Passed (suc left) s = elim (Bool-cases (is_extension s.protocol)) [
      | inr upper ↦ rw (upper, walk_from) (here refl refl refl)
      | inl extension ↦ elim (Turn-cases (turn s)) [
        | inl (r, e) ↦
            rw (extension, e, walk_from)
              (stopped s r (subst (AfterTurn s) e (visit-past s extension)))
        | inr (r, e) ↦
            rw (extension, e, walk_from)
              (passes s r (walk left r) (subst (AfterTurn s) e (visit-past s extension))
                (walk_from-Passed left r))
      ]
    ]

    -- For a packet that holds the base header, the walk ends at an offset of at least 40 inside
    -- the packet, behind headers that follow the base header in the packet's bytes, one from the
    -- other, and `is_fragment` tells whether one of them is a fragment header with an offset or
    -- with more fragments. A resolved walk has not stopped at an extension header, and with
    -- `stop_at_fragment` it has passed no such fragment header.
    pub walk_ipv6_headers_reader-Passed :
        40 ≤ length packet
        → IsEnd stop_at_fragment
            (walk_ipv6_headers_reader fields packet stop_at_fragment inspect_routing)
          × Passed
              (start (fields.next_header (take 40 packet)))
              (walk_ipv6_headers_reader fields packet stop_at_fragment inspect_routing)
    unfolding walk_ipv6_headers_reader prefix
    walk_ipv6_headers_reader-Passed h = (
      IsEnd-IsSound (walk_ipv6_headers_reader fields packet stop_at_fragment inspect_routing)
          (walk_ipv6_headers_reader-IsSound fields packet stop_at_fragment inspect_routing h),
      rw (le→leb 40 (length packet) h, walk_ipv6_headers_reader)
          (walk_from-Passed 8 (start (fields.next_header (take 40 packet)))),
    )
