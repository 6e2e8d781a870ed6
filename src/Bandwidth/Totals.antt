-- ===== src/Bandwidth/Totals.antt =====
-- What the counters add up to over any sequence of updates.
use Prim.Native.Nat.{ℕ, ◌+◌, ◌%◌, ◌^◌, ◌<◌}
use mathlib.Core.Path.{◌≡◌, sym, ◌∙◌, ap}
use mathlib.Core.Bool.{Bool, true, false}
use mathlib.Core.List.{List, [], ◌∷◌}
use native.Mathlib.Omega.{arith}
use windows_kext_mod.Prelude.Tests.{if◌then◌else◌}
use windows_kext_mod.Prelude.BTreeMap.Entry.{get-write_entry, or_else}
use windows_kext_mod.Prelude.BTreeMap
use windows_kext_mod.Prelude.Order.{Ord, nat_ord, pair_ord, same}
use windows_kext_mod.Connection.{Direction, outbound, inbound}
use windows_kext_mod.Bandwidth.{Key, Value, default_value, Stats, add_bytes, update}

-- One packet of a connection.
pub record Packet (A : Type 0) : Type 0 where
  pub key : Key A
  pub direction : Direction
  pub bytes : ℕ

-- A counter after more bytes.
abbrev pub grown : Value → (received transmitted : ℕ) → Value
grown v r t = record {
  received_bytes = (v.received_bytes + r) % 2 ^ 64;
  transmitted_bytes = (v.transmitted_bytes + t) % 2 ^ 64;
}

-- A counter that fits its 64 bits.
abbrev pub FitsWord : Value → Type 0
FitsWord v = (v.received_bytes < 2 ^ 64) × (v.transmitted_bytes < 2 ^ 64)

grown-grown : (v : Value) (r t r' t' : ℕ) → grown (grown v r t) r' t' ≡ grown v (r + r') (t + t')
grown-grown v r t r' t' = ground arith

grown-zero : (v : Value) → FitsWord v → grown v 0 0 ≡ v
grown-zero v h = ground arith

grown-FitsWord : (v : Value) (r t : ℕ) → FitsWord (grown v r t)
grown-FitsWord v r t = (omega arith, omega arith)

count_by :
    (b : Bool) (d : Direction) (n : ℕ) (v : Value)
    → FitsWord v
    → (if b then add_bytes d n v else v)
      ≡ grown v
          (if b then elim d [ inbound ↦ n | outbound ↦ 0 ] else 0)
          (if b then elim d [ inbound ↦ 0 | outbound ↦ n ] else 0)
count_by true inbound n v h = ground arith
count_by true outbound n v h = ground arith
count_by false d n v h = ground arith

module _ {A : Type 0} ⦃o : Ord A⦄ where
  pub count_all : Stats A → List (Packet A) → Stats A
  count_all m [] = m
  count_all m (p ∷ ps) = count_all (update m p.key p.direction p.bytes) ps

  abbrev pub received : Key A → Packet A → ℕ
  received k p = if same k p.key then elim p.direction [ inbound ↦ p.bytes | outbound ↦ 0 ] else 0

  abbrev pub transmitted : Key A → Packet A → ℕ
  transmitted k p =
      if same k p.key then elim p.direction [ inbound ↦ 0 | outbound ↦ p.bytes ] else 0

  pub total : (Packet A → ℕ) → List (Packet A) → ℕ
  total part [] = 0
  total part (p ∷ ps) = part p + total part ps

  -- The counters of a key, which are 0 before its first packet.
  abbrev pub value_at : Key A → Stats A → Value
  value_at k m = or_else default_value (BTreeMap.get k m)

  count_one :
      (k : Key A) (p : Packet A) (v : Value)
      → FitsWord v
      → (if same k p.key then add_bytes p.direction p.bytes v else v)
        ≡ grown v (received k p) (transmitted k p)
  count_one k p v h = count_by (same k p.key) p.direction p.bytes v h

  value_at-update :
      (k : Key A) (p : Packet A) (m : Stats A)
      → FitsWord (value_at k m)
      → value_at k (update m p.key p.direction p.bytes)
        ≡ grown (value_at k m) (received k p) (transmitted k p)
  unfolding update
  value_at-update k p m h =
      get-write_entry default_value k p.key (add_bytes p.direction p.bytes) m
      ∙ count_one k p (value_at k m) h

  value_at-count_all :
      (k : Key A) (m : Stats A) (ps : List (Packet A))
      → FitsWord (value_at k m)
      → value_at k (count_all m ps)
        ≡ grown (value_at k m) (total (received k) ps) (total (transmitted k) ps)
  unfolding count_all total
  value_at-count_all k m [] h = sym (grown-zero (value_at k m) h)
  value_at-count_all k m (p ∷ ps) h =
      let v = value_at k m in
      let step = value_at-update k p m h in
      value_at-count_all k (update m p.key p.direction p.bytes) ps
        (rw step (grown-FitsWord v (received k p) (transmitted k p)))
      ∙ ap (λ w. grown w (total (received k) ps) (total (transmitted k) ps)) step
      ∙ grown-grown v (received k p) (transmitted k p) (total (received k) ps)
          (total (transmitted k) ps)

  -- After any sequence of packets from an empty map, the counters of each key are the sums of the
  -- bytes that the key's packets received and transmitted, modulo 2^64.
  pub count_all_lem :
      (k : Key A) (ps : List (Packet A))
      → ((value_at k (count_all [] ps)).received_bytes ≡ total (received k) ps % 2 ^ 64)
        × ((value_at k (count_all [] ps)).transmitted_bytes ≡ total (transmitted k) ps % 2 ^ 64)
  unfolding BTreeMap.get
  count_all_lem k ps =
      let all = value_at-count_all k [] ps (omega arith, omega arith) in
      (
        ap (λ v. v.received_bytes) all ∙ omega arith,
        ap (λ v. v.transmitted_bytes) all ∙ omega arith,
      )
