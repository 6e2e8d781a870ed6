-- ===== src/ConnectionCache/Lifecycle.antt =====
-- The lives of connections over any sequence of registrations, ends and cleanups.
use Prim.Native.Nat.{ℕ}
use mathlib.Core.Path.{◌≡◌, refl}
use mathlib.Core.Logic.{◌⊎◌, inl, inr}
use mathlib.Core.Bool.{Bool, true, false, not}
use mathlib.Core.List.{List, [], ◌∷◌}
use mathlib.Core.Option.{Option, none, some}
use native.Mathlib.Omega.{arith}
use windows_kext_mod.Prelude.Tests.{◌==◌, Bool-cases}
use windows_kext_mod.Prelude.Lists.{count}
use windows_kext_mod.Prelude.BTreeMap
use windows_kext_mod.Prelude.Order.{Ord, nat_ord, pair_ord}
use windows_kext_mod.Key.{Key, IpAddress, Platform, udp}
use windows_kext_mod.Connection.{ConnectionTrait, Direction}
use windows_kext_mod.Connection.V4.{connection_v4}
use windows_kext_mod.Connection.V6.{connection_v6}
use windows_kext_mod.Connection.Laws.{IsLawful, connection_v4-IsLawful, connection_v6-IsLawful}
use windows_kext_mod.ConnectionMap.Cache.{ConnectionMap, has_live_instance}
use windows_kext_mod.ConnectionMap.Cache.Spec.{CacheIsValid}
use windows_kext_mod.ConnectionMap.Cache.Insert.{IsUnique}
use windows_kext_mod.ConnectionMap.Cache.Close
use windows_kext_mod.ConnectionMap.Cache.Close.{
  end_instance, end_instances, end_all_on_endpoint, end_untracked_on_endpoint,
}
use windows_kext_mod.ConnectionMap.Cache.EndInstance.{end_instance-IsUnique}
use windows_kext_mod.ConnectionMap.Cache.EndMany.{
  end_instances-IsSingle, end_matching_on_endpoint-IsSingle,
  end_inactive_untracked_connections-IsSingle,
}
use windows_kext_mod.ConnectionMap.Cache.Retire.{
  clean_ended_connections_lem, clean_ended_connections-IsUnique,
}
use windows_kext_mod.ConnectionCache.Policy.{
  clean_ended_connections, end_inactive_untracked_connections, clear,
}
use windows_kext_mod.ConnectionCache.Family.{end_instance_unless, end_instance_after}
use windows_kext_mod.ConnectionCache.{
  ConnectionCache, new, put_v4, put_v6, register_untracked_connection, register_ale_connection,
  register_inbound_udp_fallback_connection,
}
use windows_kext_mod.ConnectionCache.Registration.{
  IsSound, register_connection_with_lifecycle-IsSound,
  register_inbound_udp_fallback_connection-IsSound,
}

-- How connections of one family are ended: one instance or several, one with what its deferral
-- or its preparation answers, and all or the untracked ones of a local endpoint.
pub data End : Type 0 where
  instance_of : Key → (instance_id : ℕ) → End
  instances_of : List (Key × ℕ) → End
  unless_deferred : Key → (instance_id : ℕ) → (deferred : Unit {0} ⊎ Bool) → End
  after_prepared : Key → (instance_id : ℕ) → (prepared : Option (Unit {0})) → End
  all_on : ℕ × ℕ → Option IpAddress → (process_id : Option ℕ) → End
  untracked_on : ℕ × ℕ → Option IpAddress → (process_id : Option ℕ) → End

-- What the callouts and the timers do to the lives of connections.
pub data Call : Type 0 where
  authorized : Key → (process_id thread_id : ℕ) → Direction → (now fresh : ℕ) → Call
  untracked : Key → (process_id : ℕ) → Direction → (now fresh : ℕ) → Call
  fallback : Key → (process_id now fresh : ℕ) → Call
  ended_v4 : End → (now : ℕ) → Call
  ended_v6 : End → (now : ℕ) → Call
  expired : (now : ℕ) → Call
  cleaned : (now : ℕ) → Call
  cleared : Call

module _ {T A : Type 0} ⦃o : Ord A⦄ (c : ConnectionTrait T A) where
  abbrev pub end_step : ConnectionMap T A → ℕ → End → ConnectionMap T A
  end_step m now (instance_of key id) = (end_instance c m key id now).0
  end_step m now (instances_of instances) = (end_instances c m instances now).0
  end_step m now (unless_deferred key id deferred) = (end_instance_unless c m key id deferred now).0
  end_step m now (after_prepared key id prepared) = (end_instance_after c m key id prepared now).0
  end_step m now (all_on key address process_id) =
      (end_all_on_endpoint c m key address process_id now).0
  end_step m now (untracked_on key address process_id) =
      (end_untracked_on_endpoint c m key address process_id now).0

  -- The cache after an end that may be deferred, by what its deferral answers.
  abbrev after_deferral :
      ConnectionMap T A → Key → (id now : ℕ) → Unit {0} ⊎ Bool → ConnectionMap T A
  after_deferral m key id now (inl failed) = m
  after_deferral m key id now (inr true) = m
  after_deferral m key id now (inr false) = (end_instance c m key id now).0

  end_instance_unless-present :
      (m : ConnectionMap T A) (key : Key) (id : ℕ) (deferred : Unit {0} ⊎ Bool) (now : ℕ)
      → has_live_instance c m key id ≡ true
      → (end_instance_unless c m key id deferred now).0 ≡ after_deferral m key id now deferred
  unfolding end_instance_unless
  end_instance_unless-present m key id (inl failed) now h = rw h refl
  end_instance_unless-present m key id (inr true) now h = rw h refl
  end_instance_unless-present m key id (inr false) now h = rw h refl

  end_instance_unless-IsSingle :
      (law : IsLawful c) (m : ConnectionMap T A) (key : Key) (id : ℕ) (deferred : Unit {0} ⊎ Bool)
      (now : ℕ)
      → CacheIsValid c m
      → IsUnique c m
      → CacheIsValid c (end_instance_unless c m key id deferred now).0
        × IsUnique c (end_instance_unless c m key id deferred now).0
  unfolding end_instance_unless
  end_instance_unless-IsSingle law m key id deferred now v u =
      elim (Bool-cases (has_live_instance c m key id)) [
        | inr gone ↦ rw gone (v, u)
        | inl present ↦
            rw (end_instance_unless-present m key id deferred now present)
              (by_deferral (end_instance-IsUnique c m key id now law v u) deferred)
      ]
    where
      by_deferral :
          CacheIsValid c (end_instance c m key id now).0
            × IsUnique c (end_instance c m key id now).0
          → (deferred : Unit {0} ⊎ Bool)
          → CacheIsValid c (after_deferral m key id now deferred)
            × IsUnique c (after_deferral m key id now deferred)
      by_deferral e (inl failed) = (v, u)
      by_deferral e (inr true) = (v, u)
      by_deferral e (inr false) = e

  end_step-IsSingle :
      IsLawful c
      → (m : ConnectionMap T A) (now : ℕ) (e : End) → CacheIsValid c m
      → IsUnique c m
      → CacheIsValid c (end_step m now e) × IsUnique c (end_step m now e)
  unfolding end_instance_after end_all_on_endpoint end_untracked_on_endpoint
  end_step-IsSingle law m now (instance_of key id) v u =
      end_instance-IsUnique c m key id now law v u
  end_step-IsSingle law m now (instances_of instances) v u =
      end_instances-IsSingle c law m instances now (v, u)
  end_step-IsSingle law m now (unless_deferred key id deferred) v u =
      end_instance_unless-IsSingle law m key id deferred now v u
  end_step-IsSingle law m now (after_prepared key id none) v u = (v, u)
  end_step-IsSingle law m now (after_prepared key id (some r)) v u =
      end_instance-IsUnique c m key id now law v u
  end_step-IsSingle law m now (all_on key address process_id) v u =
      end_matching_on_endpoint-IsSingle c law m key address process_id false now (v, u)
  end_step-IsSingle law m now (untracked_on key address process_id) v u =
      end_matching_on_endpoint-IsSingle c law m key address process_id true now (v, u)

module _ (p : Platform) where
  abbrev pub step : ConnectionCache → Call → ConnectionCache
  step s (authorized key process_id thread_id direction now fresh) =
      (register_ale_connection p s key process_id thread_id direction now fresh).0
  step s (untracked key process_id direction now fresh) =
      (register_untracked_connection p s key process_id direction now fresh).0
  step s (fallback key process_id now fresh) =
      (register_inbound_udp_fallback_connection p s key process_id now fresh).0
  step s (ended_v4 e now) = put_v4 s (end_step (connection_v4 p) s.connections_v4 now e)
  step s (ended_v6 e now) = put_v6 s (end_step (connection_v6 p) s.connections_v6 now e)
  step s (expired now) = (end_inactive_untracked_connections p s now).0
  step s (cleaned now) = clean_ended_connections p s now
  step s cleared = clear p s

  pub run : ConnectionCache → List Call → ConnectionCache
  run s [] = s
  run s (c ∷ cs) = run (step s c) cs

  nothing_live :
      {T A : Type 0} ⦃o : Ord A⦄ (c : ConnectionTrait T A) → CacheIsValid c [] × IsUnique c []
  unfolding BTreeMap.get count
  nothing_live c = ((tt, tt), λ k g e. omega arith)

  new-IsSound : IsSound p new
  unfolding new
  new-IsSound = (nothing_live (connection_v4 p), nothing_live (connection_v6 p))

  cleaned-IsSingle :
      {T A : Type 0} ⦃o : Ord A⦄ (c : ConnectionTrait T A) (m : ConnectionMap T A) (now : ℕ) (e : A)
      → CacheIsValid c m
      → IsUnique c m
      → CacheIsValid c (Close.clean_ended_connections c m now)
        × IsUnique c (Close.clean_ended_connections c m now)
  cleaned-IsSingle c m now e v u = (
    (clean_ended_connections_lem c m now (0, 0) (e, 0) v).0,
    clean_ended_connections-IsUnique c m now v u,
  )

  step-IsSound : (s : ConnectionCache) (c : Call) → IsSound p s → IsSound p (step s c)
  unfolding register_ale_connection register_untracked_connection clean_ended_connections clear
      end_inactive_untracked_connections Close.clear
  step-IsSound s (authorized key process_id thread_id direction now fresh) x =
      register_connection_with_lifecycle-IsSound p s key process_id direction
        (not (key.protocol == udp)) thread_id now fresh x
  step-IsSound s (untracked key process_id direction now fresh) x =
      register_connection_with_lifecycle-IsSound p s key process_id direction false 0 now fresh x
  step-IsSound s (fallback key process_id now fresh) x =
      register_inbound_udp_fallback_connection-IsSound p s key process_id now fresh x
  step-IsSound s (ended_v4 e now) x = (
    end_step-IsSingle (connection_v4 p) (connection_v4-IsLawful p) s.connections_v4 now e x.0.0
        x.0.1,
    x.1,
  )
  step-IsSound s (ended_v6 e now) x = (
    x.0,
    end_step-IsSingle (connection_v6 p) (connection_v6-IsLawful p) s.connections_v6 now e x.1.0
        x.1.1,
  )
  step-IsSound s (expired now) x = (
    end_inactive_untracked_connections-IsSingle (connection_v4 p) (connection_v4-IsLawful p)
        s.connections_v4 now x.0,
    end_inactive_untracked_connections-IsSingle (connection_v6 p) (connection_v6-IsLawful p)
        s.connections_v6 now x.1,
  )
  step-IsSound s (cleaned now) x = (
    cleaned-IsSingle (connection_v4 p) s.connections_v4 now 0 x.0.0 x.0.1,
    cleaned-IsSingle (connection_v6 p) s.connections_v6 now (0, 0) x.1.0 x.1.1,
  )
  step-IsSound s cleared x = (nothing_live (connection_v4 p), nothing_live (connection_v6 p))

  run_from : (s : ConnectionCache) (cs : List Call) → IsSound p s → IsSound p (run s cs)
  unfolding run
  run_from s [] x = x
  run_from s (c ∷ cs) x = run_from (step s c) cs (step-IsSound s c x)

  -- Over any registrations, ends of an instance, of several, with a deferral or a preparation, or
  -- of a local endpoint, idle expiries, cleanups and clears, at whatever times, both maps are
  -- valid, and no tuple of either family has two live connections.
  pub run-IsSound : (cs : List Call) → IsSound p (run new cs)
  run-IsSound cs = run_from new cs new-IsSound
