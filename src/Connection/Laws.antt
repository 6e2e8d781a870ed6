-- ===== src/Connection/Laws.antt =====
-- What the connection map relies on in an implementation of `Connection`, proved for both families.
use Prim.Native.Nat.{ℕ}
use mathlib.Core.Path.{◌≡◌, refl}
use mathlib.Core.Logic.{◌↔◌}
use mathlib.Core.Bool.{true}
use mathlib.Core.Option.{some}
use native.Mathlib.Omega.{arith}
use windows_kext_mod.Key.{equals_v4_iff, equals_v6_iff, Key, Platform}
use windows_kext_mod.Connection.{ConnectionTrait}
use windows_kext_mod.Connection.V4
use windows_kext_mod.Connection.V4.{ConnectionV4, connection_v4}
use windows_kext_mod.Connection.V6
use windows_kext_mod.Connection.V6.{ConnectionV6, connection_v6}

-- `y` is `x` but for its timestamps and its lifecycle mark.
pub record SameIdentity {T A : Type 0} (c : ConnectionTrait T A) (x y : T) : Type 0 where
  pub key : c.get_key y ≡ c.get_key x
  pub address_key : c.get_remote_address_key y ≡ c.get_remote_address_key x
  pub instance_id : c.get_instance_id y ≡ c.get_instance_id x
  pub process_id : c.get_process_id y ≡ c.get_process_id x
  pub verdict : c.get_verdict y ≡ c.get_verdict x

pub record IsLawful {T A : Type 0} (c : ConnectionTrait T A) : Type 0 where
  pub equals_iff : (x : T) (k : Key) → (c.remote_equals x k ≡ true) ↔ (c.get_key x ≡ k)
  pub key_of_self : (x : T) → c.remote_address_key (c.get_key x) ≡ some (c.get_remote_address_key x)
  pub end_same : (x : T) (t : ℕ) → SameIdentity c x (c.end x t)
  pub end_time : (x : T) (t : ℕ) → c.get_end_time (c.end x t) ≡ t
  pub touch_same : (x : T) (t : ℕ) → SameIdentity c x (c.set_last_accessed_time x t)
  pub touch_end : (x : T) (t : ℕ) → c.get_end_time (c.set_last_accessed_time x t) ≡ c.get_end_time x
  pub mark_same : (x : T) → SameIdentity c x (c.mark_native_lifecycle x)
  pub mark_end : (x : T) → c.get_end_time (c.mark_native_lifecycle x) ≡ c.get_end_time x
  pub mark_native : (x : T) → c.has_native_lifecycle (c.mark_native_lifecycle x) ≡ true

equals_iff_v4 : (x : ConnectionV4) (k : Key) → (V4.remote_equals x k ≡ true) ↔ (V4.get_key x ≡ k)
unfolding V4.remote_equals V4.get_key
equals_iff_v4 x k = ground (
  arith,
  equals_v4_iff x.local_address k.local_address,
  equals_v4_iff x.remote_address k.remote_address,
)

-- The IPv4 connections are lawful: a connection answers to its own key alone, the key addresses
-- the connection's own bucket, and ending it keeps its identity and sets its end time.
pub connection_v4-IsLawful : (p : Platform) → IsLawful (connection_v4 p)
unfolding connection_v4
connection_v4-IsLawful p = record {
  equals_iff = equals_iff_v4;
  key_of_self = λ x. refl;
  end_same = λ x t. ground arith;
  end_time = λ x t. refl;
  touch_same = λ x t. ground arith;
  touch_end = λ x t. refl;
  mark_same = λ x. ground arith;
  mark_end = λ x. refl;
  mark_native = λ x. refl;
}

equals_iff_v6 : (x : ConnectionV6) (k : Key) → (V6.remote_equals x k ≡ true) ↔ (V6.get_key x ≡ k)
unfolding V6.remote_equals V6.get_key
equals_iff_v6 x k = ground (
  arith,
  equals_v6_iff x.local_address k.local_address,
  equals_v6_iff x.remote_address k.remote_address,
)

-- The IPv6 connections are lawful: a connection answers to its own key alone, the key addresses
-- the connection's own bucket, and ending it keeps its identity and sets its end time.
pub connection_v6-IsLawful : (p : Platform) → IsLawful (connection_v6 p)
unfolding connection_v6
connection_v6-IsLawful p = record {
  equals_iff = equals_iff_v6;
  key_of_self = λ x. refl;
  end_same = λ x t. ground arith;
  end_time = λ x t. refl;
  touch_same = λ x t. ground arith;
  touch_end = λ x t. refl;
  mark_same = λ x. ground arith;
  mark_end = λ x. refl;
  mark_native = λ x. refl;
}
