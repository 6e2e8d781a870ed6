-- ===== src/IdCache/Queueing.antt =====
-- What `push` adds to the queue, to the index and to the events.
use Prim.Native.Nat.{ℕ, suc, ◌+◌, ◌%◌, ◌^◌, ◌<◌, ◌≤◌}
use mathlib.Core.Path.{◌≡◌, refl, ◌∙◌, sym, ap}
use mathlib.Core.Logic.{inl, inr}
use mathlib.Core.List.{List, [], ◌∷◌, ◌++◌}
use mathlib.Core.Option.{Option, none, some}
use native.Mathlib.Omega.{arith}
use windows_kext_mod.Prelude.Tests.{if◌then◌else◌, Option-cases}
use windows_kext_mod.Prelude.Lists.{All, length}
use windows_kext_mod.Prelude.Order.{nat_ord}
use windows_kext_mod.Prelude.BTreeMap.{IsSorted}
use windows_kext_mod.Protocol.Info.{Info}
use windows_kext_mod.TcpClosureCache.RequestIds.{IsIncreasing}
use windows_kext_mod.IdCache.{PendingPacket, Entry, IdCache, ids_at}
use windows_kext_mod.IdCache.Pending.{Index, add_pending_request}
use windows_kext_mod.IdCache.Indexed.{
  is_instance, add_pending_request_lem, add_pending_request-IsSorted,
}
use windows_kext_mod.IdCache.Ownership.{ids, owned}
use windows_kext_mod.Prelude.Lists.Append.{append_nil, append_one}
use windows_kext_mod.IdCache.Exact.{AllBelow, IsExact}
use windows_kext_mod.IdCache.Push.{
  Packet, network, network_batch, ale_layer, Wfp, PendingContext, build_info, push_packet,
  push_batch, push_packets, index_all, push,
}

pub event_ids : List (ℕ × Info) → List ℕ
event_ids [] = []
event_ids ((id, info) ∷ events) = id ∷ event_ids events

abbrev answer : Option (ℕ × Info) → List (ℕ × Info)
answer none = []
answer (some event) = event ∷ []

-- The packets that an indication is split into.
abbrev pub packets : {N I D : Type 0} → Packet N I D → ℕ
packets (network n i) = 1
packets (network_batch ns i) = length ns
packets (ale_layer d) = 1

module _ {P : Type 0} where
  abbrev AreExact : Index → List (Entry P) × ℕ → Type 0
  AreExact m q =
      IsSorted m
      × IsIncreasing (ids q.0)
      × AllBelow q.1 q.0
      × ((i : ℕ) → 0 < i → ids_at i m ≡ owned i q.0)

  AllBelow-last :
      (n : ℕ) (es : List (Entry P)) (v : PendingPacket P)
      → AllBelow n es
      → AllBelow (n + 1) (es ++ record { value = v; id = n } ∷ [])
  AllBelow-last n [] v a = (omega arith, tt)
  AllBelow-last n (e ∷ es) v a = (omega (arith, a.0), AllBelow-last n es v a.1)

  All-last :
      (x n : ℕ) (es : List (Entry P)) (v : PendingPacket P)
      → x < n
      → All (λ y. x < y) (ids es)
      → All (λ y. x < y) (ids (es ++ record { value = v; id = n } ∷ []))
  All-last x n [] v h a = (h, tt)
  All-last x n (e ∷ es) v h a = (a.0, All-last x n es v h a.1)

  last-IsIncreasing :
      (n : ℕ) (es : List (Entry P)) (v : PendingPacket P)
      → AllBelow n es
      → IsIncreasing (ids es)
      → IsIncreasing (ids (es ++ record { value = v; id = n } ∷ []))
  last-IsIncreasing n [] v a s = (tt, tt)
  last-IsIncreasing n (e ∷ es) v a s =
      (All-last e.id n es v a.0 s.0, last-IsIncreasing n es v a.1 s.1)

  owned-last :
      (i n : ℕ) (es : List (Entry P)) (v : PendingPacket P)
      → owned i (es ++ record { value = v; id = n } ∷ [])
        ≡ (if is_instance v.connection_instance_id i then owned i es ++ n ∷ [] else owned i es)
  owned-last i n [] v = ground arith
  owned-last i n (e ∷ es) v = ground (arith, owned-last i n es v)

  ids-last :
      (n : ℕ) (es : List (Entry P)) (v : PendingPacket P)
      → ids (es ++ record { value = v; id = n } ∷ []) ≡ ids es ++ n ∷ []
  ids-last n [] v = refl
  ids-last n (e ∷ es) v = ap (λ xs. e.id ∷ xs) (ids-last n es v)

  AreExact-last :
      (m : Index) (n : ℕ) (es : List (Entry P)) (v : PendingPacket P)
      → AreExact m (es, n)
      → AreExact
          (add_pending_request m v.connection_instance_id n)
          (es ++ record { value = v; id = n } ∷ [], n + 1)
  AreExact-last m n es v x = (
    add_pending_request-IsSorted m v.connection_instance_id n x.0,
    last-IsIncreasing n es v x.2 x.1,
    AllBelow-last n es v x.2,
    λ i h. ground (
      arith,
      x.3 i h,
      owned-last i n es v,
      add_pending_request_lem m v.connection_instance_id n i h,
    ),
  )

pub next_lem : (n : ℕ) → n + 1 < 2 ^ 64 → (n + 1) % 2 ^ 64 ≡ n + 1
next_lem n h = omega (arith, h)

module _ {N I D : Type 0} (wfp : Wfp N I D) (c : PendingContext) where
  abbrev indexed : Index → List (ℕ × Info) → Index
  indexed m events = index_all c.connection_instance_id m events

  -- A queue, with the index and the events of what is added to it.
  abbrev IsAdded :
      Index
      → List (Entry (Packet N I D)) × ℕ
      → (List (Entry (Packet N I D)) × ℕ) × List (ℕ × Info)
      → ℕ
      → Type 0
  IsAdded m q r n =
      AreExact (indexed m r.1) r.0 × (ids r.0.0 ≡ ids q.0 ++ event_ids r.1) × (r.0.1 ≤ q.1 + n)

  push_packet_lem :
      (m : Index) (q : List (Entry (Packet N I D)) × ℕ) (p : Packet N I D)
      → AreExact m q
      → q.1 + 1 < 2 ^ 64
      → IsAdded m q ((push_packet wfp q p c).0, answer (push_packet wfp q p c).1) 1
  unfolding push_packet index_all event_ids
  push_packet_lem m q p x h =
      let value : PendingPacket (Packet N I D) = record {
        key = c.key;
        packet = p;
        connection_instance_id = c.connection_instance_id;
      } in
      elim (Option-cases (build_info wfp c.key q.1 c.process_id c.direction p c.ale_layer)) [
        | inl dropped ↦ rw (dropped, push_packet) (x, sym (append_nil (ids q.0)), omega arith)
        | inr (info, built) ↦
            rw (built, push_packet, next_lem q.1 h)
              (AreExact-last m q.1 q.0 value x, ids-last q.1 q.0 value, omega arith)
      ]

  IsAdded-next :
      (m : Index) (q q' : List (Entry (Packet N I D)) × ℕ) (o : Option (ℕ × Info))
      (rest : (List (Entry (Packet N I D)) × ℕ) × List (ℕ × Info)) (k : ℕ)
      → IsAdded m q (q', answer o) 1
      → IsAdded (indexed m (answer o)) q' rest k
      → IsAdded m q (rest.0, elim o [ none ↦ rest.1 | some event ↦ event ∷ rest.1 ]) (suc k)
  unfolding index_all event_ids
  IsAdded-next m q q' none rest k a b = (
    b.0,
    b.1 ∙ ap (λ xs. xs ++ event_ids rest.1) (a.1 ∙ append_nil (ids q.0)),
    omega (arith, a.2, b.2),
  )
  IsAdded-next m q q' (some (id, info)) rest k a b = (
    b.0,
    b.1 ∙ (ap (λ xs. xs ++ event_ids rest.1) a.1 ∙ append_one (ids q.0) id (event_ids rest.1)),
    omega (arith, a.2, b.2),
  )

  push_batch_lem :
      (m : Index) (q : List (Entry (Packet N I D)) × ℕ) (ns : List N) (i : I)
      → AreExact m q
      → q.1 + length ns < 2 ^ 64
      → IsAdded m q (push_batch wfp q ns i c) (length ns)
  unfolding push_batch index_all event_ids
  push_batch_lem m q [] i x h = (x, sym (append_nil (ids q.0)), omega arith)
  push_batch_lem m q (n ∷ ns) i x h =
      let pushed = push_packet wfp q (network n i) c in
      let first = push_packet_lem m q (network n i) x (omega (arith, h)) in
      IsAdded-next m q pushed.0 pushed.1 (push_batch wfp pushed.0 ns i c) (length ns) first (
        push_batch_lem (indexed m (answer pushed.1)) pushed.0 ns i first.0
          (omega (arith, h, first.2)))

  push_packets_lem :
      (m : Index) (q : List (Entry (Packet N I D)) × ℕ) (p : Packet N I D)
      → AreExact m q
      → q.1 + packets p < 2 ^ 64
      → IsAdded m q (push_packets wfp q p c) (packets p)
  unfolding push_packets
  push_packets_lem m q (network n i) x h = push_packet_lem m q (network n i) x h
  push_packets_lem m q (network_batch ns i) x h = push_batch_lem m q ns i x h
  push_packets_lem m q (ale_layer d) x h = push_packet_lem m q (ale_layer d) x h

  -- While the identities do not run out, a push to an exact cache keeps it exact, and its events
  -- stand under the identities of the packets it appends, in their order, each below the next identity,
  -- which grows by at most the number of packets.
  pub push_lem :
      (s : IdCache (Packet N I D)) (p : Packet N I D) (thread_id : ℕ)
      → IsExact s
      → s.next_id + packets p < 2 ^ 64
      → IsExact (push wfp s p c thread_id).0
        × (ids (push wfp s p c thread_id).0.values
            ≡ ids s.values ++ event_ids (push wfp s p c thread_id).1)
        × ((push wfp s p c thread_id).0.next_id ≤ s.next_id + packets p)
  unfolding push
  push_lem s p thread_id x h = push_packets_lem s.pending_by_instance (s.values, s.next_id) p x h
