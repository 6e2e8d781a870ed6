-- ===== src/ConnectionCache/Policy.antt =====
-- windows_kext/driver/src/connection_cache.rs: the reads and writes that choose the map by the
-- family of the key, and what both maps do. A method with a suffix `_v4` or `_v6` is the operation
-- of `ConnectionCache.Family` or of the map itself.
use Prim.Native.Nat.{ℕ}
use mathlib.Core.Bool.{Bool, true, false, not}
use mathlib.Core.List.{List, []}
use mathlib.Core.Option.{Option, none, some}
use windows_kext_mod.Prelude.Tests.{◌==◌, if◌then◌else◌}
use windows_kext_mod.Prelude.Order.{nat_ord, pair_ord}
use windows_kext_mod.Key.{Key, Platform, is_ipv6, udp}
use windows_kext_mod.Connection.{ConnectionTrait, Verdict, outbound, inbound, RedirectInfo}
use windows_kext_mod.Connection.V4.{ConnectionV4, connection_v4}
use windows_kext_mod.Connection.V6.{ConnectionV6, connection_v6}
use windows_kext_mod.ConnectionMap.Cache
use windows_kext_mod.ConnectionMap.Cache.{ConnectionMap, untracked_instance_id}
use windows_kext_mod.ConnectionMap.Cache.Read.{read}
use windows_kext_mod.ConnectionMap.Cache.Close
use windows_kext_mod.ConnectionMap.Cache.Close.{
  append_live_udp_instance_ids, get_count, get_untracked_count,
}
use windows_kext_mod.TcpClosureCache.RequestIds.{sort_unstable}
use windows_kext_mod.ConnectionCache.{ConnectionCache, fields_v4, fields_v6, put_v4, put_v6}
use windows_kext_mod.ConnectionCache.Family
use windows_kext_mod.ConnectionCache.Family.{update_process_id, update_verdict, update_verdict_of}

module _ (p : Platform) (s : ConnectionCache) where
  abbrev pub with_v4 : {B : Type 0} → ConnectionMap ConnectionV4 ℕ × B → ConnectionCache × B
  with_v4 r = (put_v4 s r.0, r.1)

  abbrev pub with_v6 : {B : Type 0} → ConnectionMap ConnectionV6 (ℕ × ℕ) × B → ConnectionCache × B
  with_v6 r = (put_v6 s r.0, r.1)

  abbrev pub read_v4 : {B : Type 0} → B × ConnectionMap ConnectionV4 ℕ → B × ConnectionCache
  read_v4 r = (r.0, put_v4 s r.1)

  abbrev pub read_v6 : {B : Type 0} → B × ConnectionMap ConnectionV6 (ℕ × ℕ) → B × ConnectionCache
  read_v6 r = (r.0, put_v6 s r.1)

  unfoldable pub with_live_connection_instance : {R : Type 0} → Key → ℕ → (ℕ → Option R) → Option R
  with_live_connection_instance key id use_instance =
      if is_ipv6 key
      then Family.with_live_instance (connection_v6 p) s.connections_v6 key id use_instance
      else Family.with_live_instance (connection_v4 p) s.connections_v4 key id use_instance

  -- `none` hands the value back.
  unfoldable pub with_live_connection_instance_matching :
      {V R : Type 0} → Key → ℕ → V → (ℕ → V → ℕ → R) → Option R
  with_live_connection_instance_matching key id value use_instance =
      if is_ipv6 key
      then Family.with_live_instance_matching (connection_v6 p) fields_v6 p s.connections_v6 key id
          value use_instance
      else Family.with_live_instance_matching (connection_v4 p) fields_v4 p s.connections_v4 key id
          value use_instance

  unfoldable pub update_process_id_instance :
      Key → (instance_id process_id now : ℕ) → ConnectionCache × Bool
  update_process_id_instance key id process_id now =
      if is_ipv6 key
      then with_v6
          (update_process_id (connection_v6 p) fields_v6 p s.connections_v6 key id process_id now)
      else with_v4
          (update_process_id (connection_v4 p) fields_v4 p s.connections_v4 key id process_id now)

  unfoldable pub update_connection :
      Key → Verdict → (now : ℕ) → ConnectionCache × Option RedirectInfo
  update_connection key verdict now =
      if is_ipv6 key
      then with_v6 (update_verdict (connection_v6 p) fields_v6 p s.connections_v6 key verdict now)
      else with_v4 (update_verdict (connection_v4 p) fields_v4 p s.connections_v4 key verdict now)

  unfoldable pub update_connection_instance :
      Key → ℕ → Verdict → (now : ℕ) → ConnectionCache × Option (Option RedirectInfo)
  update_connection_instance key id verdict now =
      if is_ipv6 key
      then with_v6
          (update_verdict_of (connection_v6 p) fields_v6 p s.connections_v6 key id verdict now)
      else with_v4
          (update_verdict_of (connection_v4 p) fields_v4 p s.connections_v4 key id verdict now)

  unfoldable pub get_untracked_connection_instance_id : Key → Option ℕ
  get_untracked_connection_instance_id key =
      if is_ipv6 key
      then untracked_instance_id (connection_v6 p) s.connections_v6 key
      else untracked_instance_id (connection_v4 p) s.connections_v4 key

  unfoldable pub mark_connection_instance_tracked : Key → ℕ → ConnectionCache × Bool
  mark_connection_instance_tracked key id =
      if is_ipv6 key
      then with_v6 (Cache.mark_native_lifecycle_instance (connection_v6 p) s.connections_v6 key id)
      else with_v4 (Cache.mark_native_lifecycle_instance (connection_v4 p) s.connections_v4 key id)

  unfoldable pub find_active_udp_pid : Key → Option ℕ
  find_active_udp_pid key =
      if not (key.protocol == udp)
      then none
      else if is_ipv6 key
      then Cache.find_active_udp_pid (connection_v6 p) s.connections_v6 key.local_address
          key.local_port key.remote_address
      else Cache.find_active_udp_pid (connection_v4 p) s.connections_v4 key.local_address
          key.local_port key.remote_address

  -- A read, with the activity that it refreshes.
  unfoldable pub get_connection_instance_id : Key → (now : ℕ) → Option ℕ × ConnectionCache
  get_connection_instance_id key now =
      if is_ipv6 key
      then read_v6 (
          read (connection_v6 p) p s.connections_v6 key now
            (λ x. some ((connection_v6 p).get_instance_id x)))
      else read_v4 (
          read (connection_v4 p) p s.connections_v4 key now
            (λ x. some ((connection_v4 p).get_instance_id x)))

  -- `connection_instance_is_outbound_v4` and `connection_instance_is_outbound_v6`
  abbrev pub instance_is_outbound : {T A : Type 0} → ConnectionTrait T A → T → Option (ℕ × Bool)
  instance_is_outbound c x =
      some (c.get_instance_id x, elim (c.get_direction x) [ outbound ↦ true | inbound ↦ false ])

  abbrev pub direction_of : ℕ → Option (ℕ × Bool) → Option Bool
  direction_of id none = none
  direction_of id (some (current, is_outbound)) = if current == id then some is_outbound else none

  unfoldable pub is_outbound_connection_instance :
      Key → ℕ → (now : ℕ) → Option Bool × ConnectionCache
  is_outbound_connection_instance key id now =
      let r =
        if is_ipv6 key
        then read_v6 (
            read (connection_v6 p) p s.connections_v6 key now
              (instance_is_outbound (connection_v6 p)))
        else read_v4 (
            read (connection_v4 p) p s.connections_v4 key now
              (instance_is_outbound (connection_v4 p))) in
      if id == 0 then (none, s) else (direction_of id r.0, r.1)

  unfoldable pub clean_ended_connections : (now : ℕ) → ConnectionCache
  clean_ended_connections now = record {
    connections_v4 = Close.clean_ended_connections (connection_v4 p) s.connections_v4 now;
    connections_v6 = Close.clean_ended_connections (connection_v6 p) s.connections_v6 now;
  }

  unfoldable pub end_inactive_untracked_connections :
      (now : ℕ) → ConnectionCache × List ConnectionV4 × List ConnectionV6
  end_inactive_untracked_connections now =
      let v4 = Close.end_inactive_untracked_connections (connection_v4 p) s.connections_v4 now in
      let v6 = Close.end_inactive_untracked_connections (connection_v6 p) s.connections_v6 now in
      (record { connections_v4 = v4.0; connections_v6 = v6.0 }, v4.1, v6.1)

  unfoldable pub live_udp_instance_ids : List ℕ
  live_udp_instance_ids = sort_unstable (
      append_live_udp_instance_ids (connection_v6 p) s.connections_v6
        (append_live_udp_instance_ids (connection_v4 p) s.connections_v4 []))

  unfoldable pub clear : ConnectionCache
  clear = record {
    connections_v4 = Close.clear (connection_v4 p) s.connections_v4;
    connections_v6 = Close.clear (connection_v6 p) s.connections_v6;
  }

  unfoldable pub get_entries_counts : ℕ × ℕ
  get_entries_counts =
      (get_count (connection_v4 p) s.connections_v4, get_count (connection_v6 p) s.connections_v6)

  unfoldable pub get_untracked_entries_counts : ℕ × ℕ
  get_untracked_entries_counts = (
    get_untracked_count (connection_v4 p) s.connections_v4,
    get_untracked_count (connection_v6 p) s.connections_v6,
  )
