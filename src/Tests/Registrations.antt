-- ===== src/Tests/Registrations.antt =====
-- Registrations of connections at concrete inputs.
use mathlib.Core.Logic.{inr}
use mathlib.Core.Bool.{true, false}
use mathlib.Core.List.{List, [], ◌∷◌}
use mathlib.Core.Option.{none, some}
use windows_kext_mod.Key.{Key, Platform, ipv4, ipv6, tcp, udp}
use windows_kext_mod.Connection.{outbound}
use windows_kext_mod.ConnectionCache.{new}
use windows_kext_mod.ConnectionCache.Registration.{IsSound}
use windows_kext_mod.ConnectionCache.Lifecycle.{
  Call, authorized, untracked, fallback, ended_v4, expired, cleaned, instance_of, instances_of,
  unless_deferred, all_on, run, run-IsSound,
}

abbrev platform : Platform
platform = record {
  is_loopback_v4 = λ bs. false;
  is_loopback_v6 = λ bs. false;
  loopback_v6 = [];
  ignore_special_ports = false;
}

abbrev web : Key
web = record {
  protocol = tcp;
  local_address = ipv4 (10 ∷ 0 ∷ 0 ∷ 1 ∷ []);
  local_port = 40000;
  remote_address = ipv4 (192 ∷ 0 ∷ 2 ∷ 1 ∷ []);
  remote_port = 443;
}

abbrev mixed : Key
mixed = record web { protocol = udp; remote_address = ipv6 [] }

-- A tuple that is authorized twice, a key of two families, and a tuple that is used again after an
-- end of each kind.
abbrev calls : List Call
calls =
    authorized web 0 9 outbound 100 1
    ∷ authorized web 40 9 outbound 110 2
    ∷ untracked mixed 41 outbound 120 3
    ∷ ended_v4 (unless_deferred web 1 (inr true)) 125
    ∷ ended_v4 (instance_of web 1) 130
    ∷ fallback web 42 140 4
    ∷ ended_v4 (instances_of ((web, 1) ∷ (web, 4) ∷ [])) 145
    ∷ untracked web 43 outbound 150 5
    ∷ ended_v4 (all_on (tcp, 40000) none (some 43)) 155
    ∷ expired 100000
    ∷ cleaned 200000
    ∷ []

run-IsSound_example : IsSound platform (run platform new calls)
run-IsSound_example = run-IsSound platform calls
