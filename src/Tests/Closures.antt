-- ===== src/Tests/Closures.antt =====
-- Pending closures at concrete inputs.
use Prim.Native.Nat.{ℕ}
use mathlib.Core.Path.{◌≡◌, refl}
use mathlib.Core.Bool.{true, false}
use mathlib.Core.List.{List, [], ◌∷◌}
use mathlib.Core.Option.{none, some}
use native.Mathlib.Omega.{arith}
use windows_kext_mod.Prelude.BTreeMap
use windows_kext_mod.Prelude.Order.{nat_ord}
use windows_kext_mod.Key.{Key, Platform, ipv4, tcp}
use windows_kext_mod.TcpClosureCache.{
  TcpClosureCache, TcpEndpointConnection, PendingTcpClosure, take_ready,
  request_matches_tcp_endpoint,
}
use windows_kext_mod.TcpClosureCache.RequestIds.{has}
use windows_kext_mod.TcpClosureCache.Events.{
  Event, published, finished, run, run-waits, outstanding, ClosuresAreValid, waits, waits_after,
}
use windows_kext_mod.TcpClosureCache.Take.{
  endpoint_taken, take_ready-outstanding, take_ready_finished,
}

abbrev platform : Platform
platform = record {
  is_loopback_v4 = λ bs. false;
  is_loopback_v6 = λ bs. false;
  loopback_v6 = [];
  ignore_special_ports = false;
}

abbrev web : Key
web = record {
  protocol = tcp;
  local_address = ipv4 (10 ∷ 0 ∷ 0 ∷ 1 ∷ []);
  local_port = 40000;
  remote_address = ipv4 (192 ∷ 0 ∷ 2 ∷ 1 ∷ []);
  remote_port = 443;
}

abbrev endpoint : TcpEndpointConnection
endpoint = record { key = web; parent_endpoint_handle = none; instance_id = 3 }

abbrev waiting_for : List ℕ → PendingTcpClosure Unit
waiting_for ids = record { endpoint = endpoint; process_id = 7; classify = tt; request_ids = ids }

abbrev closures : TcpClosureCache Unit
closures = (3, waiting_for (5 ∷ [])) ∷ []

valid : ClosuresAreValid closures
valid = ((((tt, tt)), tt), (tt, tt))

abbrev one_left : List Event
one_left = published 6 web (some 3) ∷ finished 5 ∷ []

abbrev none_left : List Event
none_left = published 6 web (some 3) ∷ finished 5 ∷ finished 6 ∷ []

found : BTreeMap.get 3 closures ≡ some (waiting_for (5 ∷ []))
unfolding BTreeMap.get
found = refl

six_outstanding : outstanding platform endpoint 6 (has 6 (5 ∷ [])) one_left ≡ true
unfolding outstanding request_matches_tcp_endpoint
six_outstanding = refl

none_outstanding : (p : ℕ) → outstanding platform endpoint p (has p (5 ∷ [])) none_left ≡ false
unfolding outstanding request_matches_tcp_endpoint
none_outstanding p = ground arith

run-waits_example :
    ClosuresAreValid (run platform closures one_left)
    × (waits 6 (BTreeMap.get 3 (run platform closures one_left))
        ≡ waits_after platform 6 one_left (waits 6 (BTreeMap.get 3 closures)))
run-waits_example = run-waits platform 3 6 closures one_left valid

take_ready-outstanding_example :
    take_ready (run platform closures one_left) 3 ≡ (run platform closures one_left, none)
take_ready-outstanding_example =
    take_ready-outstanding platform 3 6 closures one_left (waiting_for (5 ∷ [])) valid found
      six_outstanding

take_ready_finished_example :
    ((take_ready (run platform closures none_left) 3).0
      ≡ BTreeMap.remove 3 (run platform closures none_left))
    × (endpoint_taken (take_ready (run platform closures none_left) 3).1 ≡ some endpoint)
take_ready_finished_example =
    take_ready_finished platform 3 closures none_left (waiting_for (5 ∷ [])) valid found
      none_outstanding
