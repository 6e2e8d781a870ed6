-- ===== src/ConnectionCache/Family.antt =====
-- windows_kext/driver/src/connection_cache.rs: what its methods do to the map of one family. The
-- methods for IPv4 and for IPv6 are the same over the two types of connections.
use Prim.Native.Nat.{ℕ}
use mathlib.Core.Logic.{◌⊎◌, inl, inr}
use mathlib.Core.Bool.{Bool, true, false, not, ◌&&◌, ◌||◌}
use mathlib.Core.Option.{Option, none, some}
use windows_kext_mod.Prelude.Tests.{◌==◌, if◌then◌else◌}
use windows_kext_mod.Prelude.Order.{Ord}
use windows_kext_mod.Key.{Key, Platform}
use windows_kext_mod.Connection.{ConnectionTrait, Verdict, RedirectInfo, redirect_info}
use windows_kext_mod.ConnectionMap.Cache.{
  ConnectionMap, Insertion, inserted, occupied, insert_if_absent_with, get_mut, get_mut_instance,
  has_live_instance, get_live_instance_matching,
}
use windows_kext_mod.ConnectionMap.Cache.Close.{end_instance}

-- The fields of a connection that the cache reads and writes beside the trait.
pub record Fields (T : Type 0) : Type 0 where
  pub get_thread_id : T → ℕ
  pub set_attribution : (process_id thread_id : ℕ) → T → T
  pub set_verdict : Verdict → T → T
  pub set_idle_expiration : T → T

pub record ConnectionRegistration : Type 0 where
  pub inserted : Bool
  pub instance_id : ℕ

-- `merge_process_id`: the process and the thread after it, and whether it took the process over.
unfoldable pub merge_process_id : (stored stored_thread incoming thread_id : ℕ) → ℕ × ℕ × Bool
merge_process_id stored stored_thread incoming thread_id =
    if not (incoming == 0) && (stored == 0 || not (incoming == 4))
    then (
      incoming,
      if not (stored == incoming) || not (thread_id == 0) then thread_id else stored_thread,
      true,
    )
    else (stored, stored_thread, false)

abbrev pub registration : {T : Type 0} → Insertion T → ConnectionRegistration
registration (inserted id) = record { inserted = true; instance_id = id }
registration (occupied x id) = record { inserted = false; instance_id = id }

module _ {T A : Type 0} ⦃o : Ord A⦄ (c : ConnectionTrait T A) where
  -- `insert_if_absent_with(connection, |_| {})`
  unfoldable pub register_unchanged :
      ConnectionMap T A → T → ConnectionMap T A × ConnectionRegistration
  register_unchanged m x = let r = insert_if_absent_with c m x (λ y. y) in (r.0, registration r.1)

  module _ (f : Fields T) where
    -- What an accepted candidate adds to the live connection that is there.
    unfoldable pub merge_into : T → T → T
    unfolding merge_process_id
    merge_into x y =
        let a =
          merge_process_id (c.get_process_id y) (f.get_thread_id y) (c.get_process_id x)
            (f.get_thread_id x) in
        let merged = f.set_attribution a.0 a.1 y in
        if c.has_native_lifecycle x then c.mark_native_lifecycle merged else merged

    -- `register_connection_v4` and `register_connection_v6`
    unfoldable pub register : ConnectionMap T A → T → ConnectionMap T A × ConnectionRegistration
    unfolding merge_into
    register m x = let r = insert_if_absent_with c m x (merge_into x) in (r.0, registration r.1)

    -- `update_process_id_instance`
    unfoldable pub update_process_id :
        Platform
        → ConnectionMap T A
        → Key
        → (instance_id process_id now : ℕ) → ConnectionMap T A × Bool
    unfolding merge_process_id
    update_process_id p m key instance_id process_id now =
        let write = λ (y : T).
          let a = merge_process_id (c.get_process_id y) (f.get_thread_id y) process_id 0 in
          f.set_attribution a.0 a.1 y in
        if process_id == 0
        then (m, false)
        else let r = get_mut_instance c p m key instance_id now write in
          (
            r.0,
            elim r.1 [
              | none ↦ false
              | some y ↦ (merge_process_id (c.get_process_id y) (f.get_thread_id y) process_id 0).2
            ],
          )

    -- `update_connection`
    unfoldable pub update_verdict :
        Platform
        → ConnectionMap T A
        → Key
        → Verdict
        → (now : ℕ) → ConnectionMap T A × Option RedirectInfo
    update_verdict p m key verdict now =
        let r = get_mut c m key now (f.set_verdict verdict) in
        (r.0, elim r.1 [ none ↦ none | some y ↦ redirect_info p c (f.set_verdict verdict y) ])

    -- `update_connection_instance`: a `ConnectionUpdate` is its redirect.
    unfoldable pub update_verdict_of :
        Platform
        → ConnectionMap T A
        → Key
        → ℕ
        → Verdict
        → (now : ℕ) → ConnectionMap T A × Option (Option RedirectInfo)
    update_verdict_of p m key instance_id verdict now =
        let r = get_mut_instance c p m key instance_id now (f.set_verdict verdict) in
        (
          r.0,
          elim r.1 [ none ↦ none | some y ↦ some (redirect_info p c (f.set_verdict verdict y)) ],
        )

    -- `with_live_connection_instance_matching`; what is done with the thread's identity is the
    -- caller's.
    unfoldable pub with_live_instance_matching :
        {V R : Type 0} → Platform → ConnectionMap T A → Key → ℕ → V → (ℕ → V → ℕ → R) → Option R
    with_live_instance_matching p m key instance_id value use_instance =
        if instance_id == 0 then none else elim (get_live_instance_matching c p m key instance_id) [
          | none ↦ none
          | some x ↦ some (use_instance instance_id value (f.get_thread_id x))
        ]

  -- `with_live_connection_instance`
  unfoldable pub with_live_instance :
      {R : Type 0} → ConnectionMap T A → Key → ℕ → (ℕ → Option R) → Option R
  with_live_instance m key instance_id use_instance =
      if instance_id == 0
      then none
      else if has_live_instance c m key instance_id
      then use_instance instance_id
      else none

  -- `end_connection_instance_v4_unless` and its counterpart; `deferred` is what `defer_end` answers.
  unfoldable pub end_instance_unless :
      {E : Type 0}
      → ConnectionMap T A
      → Key
      → ℕ
      → (deferred : E ⊎ Bool) → (now : ℕ) → ConnectionMap T A × (E ⊎ Option T)
  end_instance_unless m key instance_id deferred now =
      if not (has_live_instance c m key instance_id) then (m, inr none) else elim deferred [
        | inl e ↦ (m, inl e)
        | inr defers ↦
            if defers
            then (m, inr none)
            else let r = end_instance c m key instance_id now in (r.0, inr r.1)
      ]

  -- `end_connection_instance_v4_after` and its counterpart; `prepared` is what `prepare_end` answers.
  unfoldable pub end_instance_after :
      {R : Type 0}
      → ConnectionMap T A
      → Key
      → ℕ
      → (prepared : Option R) → (now : ℕ) → ConnectionMap T A × Option (Option T × R)
  end_instance_after m key instance_id prepared now = elim prepared [
    | none ↦ (m, none)
    | some r ↦ let ended = end_instance c m key instance_id now in (ended.0, some (ended.1, r))
  ]
