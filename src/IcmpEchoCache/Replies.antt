-- ===== src/IcmpEchoCache/Replies.antt =====
-- A reply finds the sender of its request, once.
use Prim.Native.Nat.{ℕ, ◌-◌, ◌<◌}
use mathlib.Core.Path.{◌≡◌}
use mathlib.Core.Logic.{◌≢◌}
use mathlib.Core.Bool.{true}
use mathlib.Core.Option.{none, some}
use native.Mathlib.Omega.{arith}
use windows_kext_mod.Prelude.Tests.{leb, if◌then◌else◌}
use windows_kext_mod.Prelude.Lists.{length}
use windows_kext_mod.Prelude.Order.{same→eq, same_refl}
use windows_kext_mod.Prelude.BTreeMap
use windows_kext_mod.Prelude.BTreeMap.{IsSorted, get-insert, get-remove, get-retain}
use windows_kext_mod.Prelude.BTreeMap.Sorted.{insert-IsSorted}
use windows_kext_mod.IcmpEchoCache.{
  EchoKey, echo_key_ord, EchoEntry, IcmpEchoCache, is_live, keep_live, insert_request,
  take_request_identity,
}

inserted_with_room :
    (m : IcmpEchoCache) (key : EchoKey) (process_id thread_id now : ℕ)
    → 0 < process_id
    → length m < 512
    → insert_request m key process_id thread_id now
      ≡ BTreeMap.insert key
          (record { process_id = process_id; thread_id = thread_id; inserted_at_ms = now })
          m
unfolding insert_request
inserted_with_room m key process_id thread_id now h room = ground arith

-- After a request of a known process is recorded in a sorted cache with room, a reply with its
-- key at a later time finds the process and the thread if at most ten seconds have passed, and a
-- second reply finds nothing.
pub take_request_identity-insert_request :
    (m : IcmpEchoCache) (key : EchoKey) (process_id thread_id now later again : ℕ)
    → IsSorted m
    → 0 < process_id
    → length m < 512
    → ((take_request_identity (insert_request m key process_id thread_id now) key later).1
        ≡ (if leb (later - now) 10000 then some (process_id, thread_id) else none))
      × ((take_request_identity
            (take_request_identity (insert_request m key process_id thread_id now) key later).0
            key
            again).1
          ≡ none)
unfolding take_request_identity
take_request_identity-insert_request m key process_id thread_id now later again s h room =
    let entry : EchoEntry = record {
      process_id = process_id;
      thread_id = thread_id;
      inserted_at_ms = now;
    } in
    rw (inserted_with_room m key process_id thread_id now h room) (
      ground (
        arith,
        get-insert key key entry m,
        same_refl key,
        get-remove key key (BTreeMap.insert key entry m) (insert-IsSorted key entry m s),
      ))

-- A request never evicts the live request of another key from a sorted cache.
pub insert_request_keeps :
    (m : IcmpEchoCache) (key other : EchoKey) (process_id thread_id now : ℕ) {e : EchoEntry}
    → IsSorted m
    → BTreeMap.get other m ≡ some e
    → is_live now e ≡ true
    → other ≢ key
    → BTreeMap.get other (insert_request m key process_id thread_id now) ≡ some e
unfolding insert_request
insert_request_keeps m key other process_id thread_id now {e} s found live distinct =
    let entry : EchoEntry = record {
      process_id = process_id;
      thread_id = thread_id;
      inserted_at_ms = now;
    } in
    ground (
      arith,
      get-insert other key entry m,
      get-insert other key entry (BTreeMap.retain (keep_live now) m),
      get-retain other (keep_live now) m s,
      same→eq other key,
      distinct,
    )
