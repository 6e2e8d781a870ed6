-- ===== src/IdCache/Announcing.antt =====
-- What `push` tells user space of the packets that it queues.
use Prim.Native.Nat.{ℕ, ◌+◌, ◌^◌, ◌<◌}
use mathlib.Core.Path.{◌≡◌, refl, ◌∙◌, sym, ap}
use mathlib.Core.Logic.{inl, inr}
use mathlib.Core.Bool.{true, false}
use mathlib.Core.List.{List, [], ◌∷◌, ◌++◌}
use mathlib.Core.Option.{Option, none, some}
use native.Mathlib.Omega.{arith}
use windows_kext_mod.Prelude.Tests.{Bool-cases}
use windows_kext_mod.Prelude.Lists.{All, length}
use windows_kext_mod.Prelude.Lists.Append.{append_nil, append_one}
use windows_kext_mod.Protocol.Info.{Info}
use windows_kext_mod.Protocol.Decode.{read_connection}
use windows_kext_mod.IdCache.{Entry, IdCache}
use windows_kext_mod.IdCache.Push.{
  Packet, network, network_batch, ale_layer, Wfp, PendingContext, push_packet, push_batch,
  push_packets, push,
}
use windows_kext_mod.IdCache.Exact.{IsExact}
use windows_kext_mod.IdCache.Queueing.{packets, next_lem, push_lem}
use windows_kext_mod.IdCache.Announced.{
  same_family, split_batch, split_packets, queued_packets, entries, announced, AreAnnounced,
  ContextFits, PayloadFits, entry_of, build_info-family, not_built,
}

module _ {N I D : Type 0} (wfp : Wfp N I D) (c : PendingContext) where
  abbrev Pushed : Type 0
  Pushed = (List (Entry (Packet N I D)) × ℕ) × List (ℕ × Info)

  -- What a queue becomes by packets that are added to it, with their events.
  abbrev AreQueued :
      (rest : List ℕ) → List (Entry (Packet N I D)) × ℕ → List (Packet N I D) → Pushed → Type 0
  AreQueued rest q ps r =
      (r.0.0 ≡ q.0 ++ entries wfp c q.1 ps)
      × AreAnnounced wfp c rest (entries wfp c q.1 ps) r.1
      × (r.0.1 ≡ q.1 + length ps)

  abbrev events_of : Option (ℕ × Info) → List (ℕ × Info)
  events_of none = []
  events_of (some event) = event ∷ []

  abbrev with_event : Option (ℕ × Info) → List (ℕ × Info) → List (ℕ × Info)
  with_event none events = events
  with_event (some event) events = event ∷ events

  -- One turn of a batch's loop, by what the packet's push answers.
  push_batch-cons :
      (q q' : List (Entry (Packet N I D)) × ℕ) (n : N) (ns : List N) (i : I) (o : Option (ℕ × Info))
      → push_packet wfp q (network n i) c ≡ (q', o)
      → push_batch wfp q (n ∷ ns) i c
        ≡ ((push_batch wfp q' ns i c).0, with_event o (push_batch wfp q' ns i c).1)
  unfolding push_batch
  push_batch-cons q q' n ns i o h =
      answered (push_packet wfp q (network n i) c)
      ∙ ap
          (λ (r : (List (Entry (Packet N I D)) × ℕ) × Option (ℕ × Info)).
            ((push_batch wfp r.0 ns i c).0, with_event r.1 (push_batch wfp r.0 ns i c).1))
          h
    where
      answered :
          (r : (List (Entry (Packet N I D)) × ℕ) × Option (ℕ × Info))
          → ◌≡◌ {A = Pushed}
              (
                (push_batch wfp r.0 ns i c).0,
                elim r.1 [
                  | none ↦ (push_batch wfp r.0 ns i c).1
                  | some event ↦ event ∷ (push_batch wfp r.0 ns i c).1
                ],
              )
              ((push_batch wfp r.0 ns i c).0, with_event r.1 (push_batch wfp r.0 ns i c).1)
      answered (q, none) = refl
      answered (q, some event) = refl

  push_batch-nil : (q : List (Entry (Packet N I D)) × ℕ) (i : I) → push_batch wfp q [] i c ≡ (q, [])
  unfolding push_batch
  push_batch-nil q i = refl

  module _ (rest : List ℕ) (fits : ContextFits wfp c) where
    push_packet_built :
        (q : List (Entry (Packet N I D)) × ℕ) (p : Packet N I D)
        → PayloadFits wfp c p
        → q.1 + 1 < 2 ^ 64
        → same_family c.key.local_address c.key.remote_address ≡ true
        → (info : Info) × (push_packet wfp q p c
            ≡ ((q.0 ++ entry_of wfp c q.1 p ∷ [], q.1 + 1), some (q.1, info)))
          × (read_connection (info.bytes ++ rest)
              ≡ some (announced wfp c (entry_of wfp c q.1 p), rest))
    unfolding push_packet
    push_packet_built q p small h same =
        let b = build_info-family wfp c q.1 p rest fits small (omega (arith, h)) same in
        (b.0, rw (b.1, push_packet, next_lem q.1 h) refl, b.2)

    push_packet_queued :
        (q : List (Entry (Packet N I D)) × ℕ) (p : Packet N I D)
        → PayloadFits wfp c p
        → q.1 + 1 < 2 ^ 64
        → same_family c.key.local_address c.key.remote_address ≡ true
        → AreQueued rest q (p ∷ []) ((push_packet wfp q p c).0, events_of (push_packet wfp q p c).1)
    push_packet_queued q p small h same =
        let b = push_packet_built q p small h same in rw (b.1) (refl, ((refl, b.2), tt), refl)

    push_batch_queued :
        (q : List (Entry (Packet N I D)) × ℕ) (ns : List N) (i : I)
        → All (PayloadFits wfp c) (split_batch ns i)
        → q.1 + length ns < 2 ^ 64
        → same_family c.key.local_address c.key.remote_address ≡ true
        → AreQueued rest q (split_batch ns i) (push_batch wfp q ns i c)
    push_batch_queued q [] i small h same =
        rw (push_batch-nil q i) (sym (append_nil q.0), tt, omega arith)
    push_batch_queued q (n ∷ ns) i small h same =
        let b = push_packet_built q (network n i) (small.0) (omega (arith, h)) same in
        let entry = entry_of wfp c q.1 (network n i) in
        let next : List (Entry (Packet N I D)) × ℕ = (q.0 ++ entry ∷ [], q.1 + 1) in
        let more = push_batch_queued next ns i (small.1) (omega (arith, h)) same in
        rw (push_batch-cons q next n ns i (some (q.1, b.0)) (b.1)) (
          more.0 ∙ append_one q.0 entry (entries wfp c (q.1 + 1) (split_batch ns i)),
          ((refl, b.2), more.1),
          omega (arith, more.2),
        )

    push_packet_dropped :
        (q : List (Entry (Packet N I D)) × ℕ) (p : Packet N I D)
        → same_family c.key.local_address c.key.remote_address ≡ false
        → push_packet wfp q p c ≡ (q, none)
    unfolding push_packet
    push_packet_dropped q p other = rw (not_built wfp c q.1 p other, push_packet) refl

    push_batch_dropped :
        (q : List (Entry (Packet N I D)) × ℕ) (ns : List N) (i : I)
        → same_family c.key.local_address c.key.remote_address ≡ false
        → push_batch wfp q ns i c ≡ (q, [])
    push_batch_dropped q [] i other = push_batch-nil q i
    push_batch_dropped q (n ∷ ns) i other =
        rw
          (
            push_batch-cons q q n ns i none (push_packet_dropped q (network n i) other),
            push_batch_dropped q ns i other,
          )
          refl

    push_packets_dropped :
        (q : List (Entry (Packet N I D)) × ℕ) (p : Packet N I D)
        → same_family c.key.local_address c.key.remote_address ≡ false
        → push_packets wfp q p c ≡ (q, [])
    unfolding push_packets
    push_packets_dropped q (network n i) other = rw (push_packet_dropped q (network n i) other) refl
    push_packets_dropped q (network_batch ns i) other = push_batch_dropped q ns i other
    push_packets_dropped q (ale_layer d) other = rw (push_packet_dropped q (ale_layer d) other) refl

    push_packets_split :
        (q : List (Entry (Packet N I D)) × ℕ) (p : Packet N I D)
        → All (PayloadFits wfp c) (split_packets p)
        → q.1 + packets p < 2 ^ 64
        → same_family c.key.local_address c.key.remote_address ≡ true
        → AreQueued rest q (split_packets p) (push_packets wfp q p c)
    unfolding push_packets
    push_packets_split q (network n i) small h same =
        push_packet_queued q (network n i) (small.0) h same
    push_packets_split q (network_batch ns i) small h same = push_batch_queued q ns i small h same
    push_packets_split q (ale_layer d) small h same =
        push_packet_queued q (ale_layer d) (small.0) h same

    push_packets_queued :
        (q : List (Entry (Packet N I D)) × ℕ) (p : Packet N I D)
        → All (PayloadFits wfp c) (split_packets p)
        → q.1 + packets p < 2 ^ 64
        → AreQueued rest q (queued_packets c.key p) (push_packets wfp q p c)
    push_packets_queued q p small h =
        elim (Bool-cases (same_family c.key.local_address c.key.remote_address)) [
          | inl same ↦ rw same (push_packets_split q p small h same)
          | inr other ↦
              rw (other, push_packets_dropped q p other) (sym (append_nil q.0), tt, omega arith)
        ]

  -- While the identities do not run out, a push to an exact cache keeps it exact and appends one
  -- entry for each packet, in order, under consecutive identities from the next one on, or none
  -- where the addresses are of two families. Each entry has its event under its identity, and
  -- user space decodes of it that identity, the process, the direction, the tuple and the payload
  -- of that packet, whatever follows it, if the context and the payloads fit an event's fields.
  pub push-announced :
      (s : IdCache (Packet N I D)) (p : Packet N I D) (thread_id : ℕ) (rest : List ℕ)
      → IsExact s
      → s.next_id + packets p < 2 ^ 64
      → ContextFits wfp c
      → All (PayloadFits wfp c) (split_packets p)
      → IsExact (push wfp s p c thread_id).0
        × ((push wfp s p c thread_id).0.values
            ≡ s.values ++ entries wfp c s.next_id (queued_packets c.key p))
        × AreAnnounced wfp c rest
            (entries wfp c s.next_id (queued_packets c.key p))
            (push wfp s p c thread_id).1
        × ((push wfp s p c thread_id).0.next_id ≡ s.next_id + length (queued_packets c.key p))
  unfolding push
  push-announced s p thread_id rest x h fits small =
      let queued = push_packets_queued rest fits (s.values, s.next_id) p small h in
      ((push_lem wfp c s p thread_id x h).0, queued.0, queued.1, queued.2)
