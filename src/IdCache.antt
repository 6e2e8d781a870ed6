-- ===== src/IdCache.antt =====
-- windows_kext/driver/src/id_cache.rs: the packets that wait for a verdict, and the requests that a
-- verdict claimed. `P` is the type of the packets.
pub mod Pending
pub mod Push
pub mod Ownership
pub mod Indexed
pub mod Retiring
pub mod Exact
pub mod Queueing
pub mod Announced
pub mod Announcing
use Prim.Native.Nat.{ℕ, zero, suc, ◌+◌, ◌%◌, ◌^◌}
use mathlib.Core.Bool.{Bool, true, false, not, ◌&&◌, ◌||◌}
use mathlib.Core.List.{List, [], ◌∷◌, ◌++◌}
use mathlib.Core.Option.{Option, none, some}
use windows_kext_mod.Prelude.Tests.{◌==◌, ltb, leb, if◌then◌else◌}
use windows_kext_mod.Prelude.Lists.{length, find}
use windows_kext_mod.Prelude.Order.{nat_ord}
use windows_kext_mod.Prelude.BTreeMap
use windows_kext_mod.Prelude.BTreeMap.{BTreeMap}
use windows_kext_mod.Key.{Key, Platform, is_loopback_like}
use windows_kext_mod.TcpClosureCache.{request_matches_tcp_endpoint}
use windows_kext_mod.TcpClosureCache.RequestIds.{dedup, sort_unstable}
use windows_kext_mod.IdCache.Pending.{
  PendingIds, Index, to_list, len, append_with_instance, remove_pending_request,
}

pub record PendingPacket (P : Type 0) : Type 0 where
  pub key : Key
  pub packet : P
  pub connection_instance_id : Option ℕ

pub record Entry (P : Type 0) : Type 0 where
  pub value : PendingPacket P
  pub id : ℕ

pub record PendingIdentity : Type 0 where
  pub key : Key
  pub connection_instance_id : Option ℕ

pub record IdCache (P : Type 0) : Type 0 where
  pub values : List (Entry P)
  pub pending_by_instance : Index
  pub active : BTreeMap ℕ PendingIdentity
  pub thread_id_by_request : BTreeMap ℕ ℕ
  pub next_id : ℕ

-- The identities of a queue are in order, so that `binary_search_by_key` finds the one entry.
abbrev pub find_entry : {P : Type 0} → ℕ → List (Entry P) → Option (Entry P)
find_entry id [] = none
find_entry id (e ∷ es) = if e.id == id then some e else find_entry id es

abbrev pub remove_entry : {P : Type 0} → ℕ → List (Entry P) → List (Entry P)
remove_entry id [] = []
remove_entry id (e ∷ es) = if e.id == id then es else e ∷ remove_entry id es

abbrev pub detach : {P : Type 0} → Entry P → Entry P
detach e = record e { value = record (e.value) { connection_instance_id = none } }

abbrev pub detach_entry : {P : Type 0} → ℕ → List (Entry P) → List (Entry P)
detach_entry id [] = []
detach_entry id (e ∷ es) = if e.id == id then detach e ∷ es else e ∷ detach_entry id es

abbrev pub identity_of : {P : Type 0} → PendingPacket P → PendingIdentity
identity_of v = record { key = v.key; connection_instance_id = v.connection_instance_id }

unfoldable pub new : {P : Type 0} → IdCache P
new = record {
  values = [];
  pending_by_instance = [];
  active = [];
  thread_id_by_request = [];
  next_id = 1;
}

-- The identities of a closing endpoint's queued and active requests.
abbrev pub matches : Platform → Key → ℕ → PendingIdentity → Bool
matches p key instance_id i =
    request_matches_tcp_endpoint p key instance_id i.key i.connection_instance_id

module _ {P : Type 0} where
  unfoldable pub get_thread_id : IdCache P → ℕ → ℕ
  get_thread_id s id = elim (BTreeMap.get id s.thread_id_by_request) [ none ↦ 0 | some t ↦ t ]

  unfoldable pub was_issued_id : IdCache P → ℕ → Bool
  was_issued_id s id = not (id == 0) && ltb id s.next_id

  unfoldable pub pop_id : IdCache P → ℕ → IdCache P × Option (PendingPacket P)
  pop_id s id = elim (find_entry id s.values) [
    | none ↦ (s, none)
    | some e ↦ (
      record s {
        values = remove_entry id s.values;
        pending_by_instance =
            remove_pending_request s.pending_by_instance e.value.connection_instance_id id;
        active = BTreeMap.insert id (identity_of e.value) s.active;
      },
      some e.value,
    )
  ]

  unfoldable pub finish_id : IdCache P → ℕ → IdCache P
  finish_id s id = record s {
    active = BTreeMap.remove id s.active;
    thread_id_by_request = BTreeMap.remove id s.thread_id_by_request;
  }

  unfoldable pub get_entries_count : IdCache P → ℕ
  get_entries_count s = length s.values + length s.active

  -- The requests in progress stay in `active`.
  unfoldable pub pop_all : IdCache P → IdCache P × List (Entry P)
  pop_all s =
      (record s { values = []; pending_by_instance = []; thread_id_by_request = [] }, s.values)

  abbrev pub matching_values : Platform → Key → ℕ → List (Entry P) → List ℕ
  matching_values p key instance_id [] = []
  matching_values p key instance_id (e ∷ es) =
      if matches p key instance_id (identity_of e.value)
      then e.id ∷ matching_values p key instance_id es
      else matching_values p key instance_id es

abbrev pub matching_active : Platform → Key → ℕ → BTreeMap ℕ PendingIdentity → List ℕ
matching_active p key instance_id [] = []
matching_active p key instance_id ((id, i) ∷ m) =
    if matches p key instance_id i
    then id ∷ matching_active p key instance_id m
    else matching_active p key instance_id m

-- What the index says of an instance.
abbrev pub ids_at : ℕ → Index → List ℕ
ids_at instance_id m = elim (BTreeMap.get instance_id m) [ none ↦ [] | some p ↦ to_list p ]

unfoldable pub tcp_endpoint_request_ids : {P : Type 0} → Platform → IdCache P → Key → ℕ → List ℕ
tcp_endpoint_request_ids p s key instance_id =
    let queued =
      if is_loopback_like p key
      then matching_values p key instance_id s.values
      else ids_at instance_id s.pending_by_instance in
    dedup (sort_unstable (queued ++ matching_active p key instance_id s.active))

-- The three parts of the cache that the retirement of requests writes.
pub record Retirement (P : Type 0) : Type 0 where
  pub values : List (Entry P)
  pub threads : BTreeMap ℕ ℕ
  pub removed : List (Entry P)

abbrev pub is_owned : {P : Type 0} → ℕ → Entry P → Bool
is_owned i e = elim e.value.connection_instance_id [ none ↦ false | some j ↦ j == i ]

-- `survives` is `Packet::survives_connection_end`.
module _ {P : Type 0} (survives : P → Key → Bool) where
  unfoldable pub retire_pending_id : Retirement P → (id instance_id : ℕ) → Retirement P
  retire_pending_id r id instance_id = elim (find_entry id r.values) [
    | none ↦ r
    | some e ↦
        if not (is_owned instance_id e)
        then r
        else if survives e.value.packet e.value.key
        then record r { values = detach_entry id r.values }
        else record {
          values = remove_entry id r.values;
          threads = BTreeMap.remove id r.threads;
          removed = r.removed ++ e ∷ [];
        }
  ]

  unfoldable pub retire_pending_ids : Retirement P → ℕ → List ℕ → Retirement P
  unfolding retire_pending_id
  retire_pending_ids r instance_id [] = r
  retire_pending_ids r instance_id (id ∷ ids) =
      retire_pending_ids (retire_pending_id r id instance_id) instance_id ids

  pub retire_pairs : Retirement P → List (ℕ × ℕ) → Retirement P
  retire_pairs r [] = r
  retire_pairs r ((id, instance_id) ∷ pairs) =
      retire_pairs (retire_pending_id r id instance_id) pairs

  abbrev pub retirement : IdCache P → Retirement P
  retirement s = record { values = s.values; threads = s.thread_id_by_request; removed = [] }

  abbrev pub retired : IdCache P → Index → Retirement P → IdCache P × List (Entry P)
  retired s index r = (
    record s { values = r.values; pending_by_instance = index; thread_id_by_request = r.threads },
    r.removed,
  )

  -- `if let Some(ids) = pending_by_instance.remove(&instance_id)` and what follows it
  unfoldable pub retire_instance : IdCache P → ℕ → IdCache P × List (Entry P)
  unfolding retire_pending_ids
  retire_instance s instance_id = elim (BTreeMap.get instance_id s.pending_by_instance) [
    | none ↦ (s, [])
    | some ids ↦
        retired s (BTreeMap.remove instance_id s.pending_by_instance)
          (retire_pending_ids (retirement s) instance_id (to_list ids))
  ]

-- The instances without repetitions that follow one another.
pub unique : Option ℕ → List ℕ → List ℕ
unique previous [] = []
unique previous (i ∷ is) =
    let rest = unique (some i) is in
    if elim previous [ none ↦ false | some j ↦ j == i ] then rest else i ∷ rest

pub count_pending : Index → List ℕ → ℕ
count_pending m [] = 0
count_pending m (i ∷ is) = length (ids_at i m) + count_pending m is

-- Each instance's requests are taken off the index.
pub gather : Index → List ℕ → List (ℕ × ℕ) → Index × List (ℕ × ℕ)
gather m [] pairs = (m, pairs)
gather m (i ∷ is) pairs = elim (BTreeMap.get i m) [
  | none ↦ gather m is pairs
  | some ids ↦ gather (BTreeMap.remove i m) is (append_with_instance ids i pairs)
]

pub place_pair : ℕ × ℕ → List (ℕ × ℕ) → List (ℕ × ℕ)
place_pair x [] = x ∷ []
place_pair x (y ∷ ys) = if ltb y.0 x.0 then y ∷ place_pair x ys else x ∷ y ∷ ys

-- `sort_unstable_by_key(|(id, _)| *id)`: an identity is queued once.
pub sort_pairs : List (ℕ × ℕ) → List (ℕ × ℕ)
sort_pairs [] = []
sort_pairs (x ∷ xs) = place_pair x (sort_pairs xs)

unfoldable pub retire_connection_instances :
    {P : Type 0}
    → (P → Key → Bool)
    → IdCache P
    → (sorted_instance_ids : List ℕ) → IdCache P × List (Entry P)
unfolding retire_instance unique count_pending gather sort_pairs
retire_connection_instances survives s [] = (s, [])
retire_connection_instances survives s (i ∷ []) = retire_instance survives s i
retire_connection_instances survives s (i ∷ j ∷ is) =
    let instances = unique none (i ∷ j ∷ is) in
    let count = count_pending s.pending_by_instance instances in
    if count == 0
    then (s, [])
    else if count == 1
    then elim (find
        (λ i. elim (BTreeMap.get i s.pending_by_instance) [ none ↦ false | some p ↦ true ])
        (i ∷ j ∷ is)) [ none ↦ (s, []) | some i ↦ retire_instance survives s i ]
    else let gathered = gather s.pending_by_instance instances [] in
      retired survives s gathered.0
        (retire_pairs survives (retirement survives s) (sort_pairs gathered.1))
