-- ===== src/ConnectionCache.antt =====
-- windows_kext/driver/src/connection_cache.rs: the two maps of connections, and the choice between
-- them by the family of a key. Each method holds the lock of one map, so that it is one step.
pub mod Family
pub mod Registration
pub mod Policy
pub mod Lifecycle
use Prim.Native.Nat.{ℕ}
use mathlib.Core.Bool.{Bool, true, false, not, ◌&&◌, ◌||◌}
use mathlib.Core.List.{List, [], ◌∷◌}
use mathlib.Core.Option.{Option, none, some}
use windows_kext_mod.Prelude.Tests.{◌==◌, if◌then◌else◌}
use windows_kext_mod.Prelude.Order.{nat_ord, pair_ord}
use windows_kext_mod.Key.{Key, Platform, is_ipv6, udp}
use windows_kext_mod.Connection.{ConnectionError, Direction, inbound, Outcome, ok, err, Verdict}
use windows_kext_mod.Connection.V4
use windows_kext_mod.Connection.V4.{ConnectionV4, connection_v4}
use windows_kext_mod.Connection.V6
use windows_kext_mod.Connection.V6.{ConnectionV6, connection_v6}
use windows_kext_mod.ConnectionMap.Cache.{ConnectionMap}
use windows_kext_mod.ConnectionMap.Cache.Close
use windows_kext_mod.TcpClosureCache.RequestIds.{sort_unstable}
use windows_kext_mod.ConnectionCache.Family.{
  Fields, ConnectionRegistration, register, register_unchanged,
}

pub record ConnectionCache : Type 0 where
  pub connections_v4 : ConnectionMap ConnectionV4 ℕ
  pub connections_v6 : ConnectionMap ConnectionV6 (ℕ × ℕ)

unfoldable pub new : ConnectionCache
new = record { connections_v4 = []; connections_v6 = [] }

abbrev pub fields_v4 : Fields ConnectionV4
fields_v4 = record {
  get_thread_id = λ x. x.thread_id;
  set_attribution = λ p t x. record x { process_id = p; thread_id = t };
  set_verdict = λ v x. record x { verdict = v };
  set_idle_expiration = λ x. record x { extra = record (x.extra) { idle_expiration = true } };
}

abbrev pub fields_v6 : Fields ConnectionV6
fields_v6 = record {
  get_thread_id = λ x. x.thread_id;
  set_attribution = λ p t x. record x { process_id = p; thread_id = t };
  set_verdict = λ v x. record x { verdict = v };
  set_idle_expiration = λ x. record x { extra = record (x.extra) { idle_expiration = true } };
}

abbrev pub put_v4 : ConnectionCache → ConnectionMap ConnectionV4 ℕ → ConnectionCache
put_v4 s m = record s { connections_v4 = m }

abbrev pub put_v6 : ConnectionCache → ConnectionMap ConnectionV6 (ℕ × ℕ) → ConnectionCache
put_v6 s m = record s { connections_v6 = m }

-- What registers a connection is answered by: the cache, and the registration or the error of the
-- constructor.
abbrev pub Registered : Type 0
Registered = ConnectionCache × Outcome ConnectionRegistration

module _ (p : Platform) where
  -- `now` and `fresh` are what the clock and the identity counter give to the new connection.
  unfoldable pub register_connection_with_lifecycle :
      ConnectionCache
      → (key : Key) (process_id : ℕ) (direction : Direction) (native_lifecycle : Bool)
        (thread_id now fresh : ℕ)
      → Registered
  register_connection_with_lifecycle s key process_id direction native thread_id now fresh =
      if is_ipv6 key
      then elim (V6.from_key_with_lifecycle key process_id direction native now fresh) [
        | err e ↦ (s, err e)
        | ok x ↦
            let r =
              register (connection_v6 p) fields_v6 s.connections_v6
                (record x { thread_id = thread_id }) in
            (put_v6 s r.0, ok r.1)
      ]
      else elim (V4.from_key_with_lifecycle key process_id direction native now fresh) [
        | err e ↦ (s, err e)
        | ok x ↦
            let r =
              register (connection_v4 p) fields_v4 s.connections_v4
                (record x { thread_id = thread_id }) in
            (put_v4 s r.0, ok r.1)
      ]

  unfoldable pub register_untracked_connection :
      ConnectionCache → Key → ℕ → Direction → (now fresh : ℕ) → Registered
  unfolding register_connection_with_lifecycle
  register_untracked_connection s key process_id direction now fresh =
      register_connection_with_lifecycle s key process_id direction false 0 now fresh

  unfoldable pub register_ale_connection :
      ConnectionCache → Key → (process_id thread_id : ℕ) → Direction → (now fresh : ℕ) → Registered
  unfolding register_connection_with_lifecycle
  register_ale_connection s key process_id thread_id direction now fresh =
      register_connection_with_lifecycle s key process_id direction (not (key.protocol == udp))
        thread_id now fresh

  unfoldable pub register_inbound_udp_fallback_connection :
      ConnectionCache → Key → (process_id now fresh : ℕ) → Registered
  register_inbound_udp_fallback_connection s key process_id now fresh =
      if is_ipv6 key
      then elim (V6.from_untracked_key key process_id inbound now fresh) [
        | err e ↦ (s, err e)
        | ok x ↦
            let r =
              register_unchanged (connection_v6 p) s.connections_v6
                (fields_v6.set_idle_expiration x) in
            (put_v6 s r.0, ok r.1)
      ]
      else elim (V4.from_untracked_key key process_id inbound now fresh) [
        | err e ↦ (s, err e)
        | ok x ↦
            let r =
              register_unchanged (connection_v4 p) s.connections_v4
                (fields_v4.set_idle_expiration x) in
            (put_v4 s r.0, ok r.1)
      ]
