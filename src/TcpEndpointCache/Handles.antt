-- ===== src/TcpEndpointCache/Handles.antt =====
-- windows_kext/driver/src/tcp_endpoint_cache.rs: the handles that share a tuple and a listener, in
-- order and without repetitions.
use Prim.Native.Nat.{ℕ}
use mathlib.Core.Bool.{Bool, true, false}
use mathlib.Core.List.{List, [], ◌∷◌}
use mathlib.Core.Option.{Option, none, some}
use windows_kext_mod.Prelude.Tests.{◌==◌, ltb, if◌then◌else◌}
use windows_kext_mod.TcpClosureCache.RequestIds.{insert_id, remove_id}

pub data TcpEndpointHandles : Type 0 where
  one : ℕ → TcpEndpointHandles
  multiple : List ℕ → TcpEndpointHandles

-- `iter`
abbrev pub to_list : TcpEndpointHandles → List ℕ
to_list (one handle) = handle ∷ []
to_list (multiple handles) = handles

unfoldable pub insert : TcpEndpointHandles → ℕ → TcpEndpointHandles
insert (one existing) handle =
    if existing == handle
    then one existing
    else multiple (if ltb existing handle then existing ∷ handle ∷ [] else handle ∷ existing ∷ [])
insert (multiple handles) handle = multiple (insert_id handle handles)

-- The inline form is kept for a single handle.
abbrev pub shortened : List ℕ → TcpEndpointHandles × Bool
shortened [] = (multiple [], true)
shortened (x ∷ []) = (one x, false)
shortened (x ∷ y ∷ xs) = (multiple (x ∷ y ∷ xs), false)

-- The handles after it, and whether the bucket became empty.
unfoldable pub remove : TcpEndpointHandles → ℕ → TcpEndpointHandles × Bool
remove (one existing) handle = (one existing, existing == handle)
remove (multiple handles) handle = shortened (remove_id handle handles)

-- What `retain` makes of the handles that it keeps.
abbrev pub of_list : List ℕ → Option TcpEndpointHandles
of_list [] = none
of_list (x ∷ []) = some (one x)
of_list (x ∷ y ∷ xs) = some (multiple (x ∷ y ∷ xs))
