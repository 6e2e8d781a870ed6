-- ===== src/Tests/Connections.antt =====
-- Connections and the connection cache at concrete inputs.
use Prim.Native.Nat.{ℕ, ◌<◌}
use mathlib.Core.Logic.{◌≢◌}
use mathlib.Core.Path.{◌≡◌, refl}
use mathlib.Core.Bool.{Bool, true, false}
use mathlib.Core.List.{List, [], ◌∷◌}
use mathlib.Core.Option.{none, some}
use native.Mathlib.Omega.{arith}
use windows_kext_mod.Prelude.Tests.{◌==◌, if◌then◌else◌}
use mathlib.Core.Bool.{◌&&◌}
use windows_kext_mod.Prelude.Lists.{find, count, filter}
use windows_kext_mod.Prelude.Bytes.{bytes_eq, from_be}
use windows_kext_mod.Prelude.BTreeMap
use windows_kext_mod.Prelude.Order.{nat_ord, pair_ord}
use windows_kext_mod.Key.{Key, Platform, ipv4, ipv6, equals_v4, tcp, udp, small}
use windows_kext_mod.Connection.{
  ConnectionTrait, Verdict, outbound, next_instance_id_loop, next_connection_instance_id,
  next_instance_id_loop_total,
}
use windows_kext_mod.Connection.V4
use windows_kext_mod.Connection.V6
use windows_kext_mod.Connection.V6.{ConnectionV6, connection_v6}
use windows_kext_mod.Connection.V4.{ConnectionV4, connection_v4, new_connection}
use windows_kext_mod.Connection.Laws.{IsLawful, connection_v4-IsLawful}
use windows_kext_mod.ConnectionMap.Remote
use windows_kext_mod.ConnectionMap.Search.{
  live_exact, live, live_and_ended_match, live_and_ended_match_lem, or,
}
use windows_kext_mod.ConnectionMap.Cache.{ConnectionMap, insert_if_absent_with, endpoint_of}
use windows_kext_mod.ConnectionMap.Cache.Read.{read_matching}
use windows_kext_mod.ConnectionMap.Cache.Close.{end_instance, clean_ended_connections, is_retained}
use windows_kext_mod.ConnectionMap.Cache.Spec.{generations_at, CacheIsValid}
use windows_kext_mod.ConnectionMap.Cache.Insert.{
  IsHarmless, IsUnique, answer, generations_of, is_place_of, after_insertion,
  insert_if_absent_with_lem, insert_if_absent_with-IsUnique,
}
use windows_kext_mod.ConnectionMap.Cache.Lookup.{
  exact_generations, handed, best_match, read_matching_lem,
}
use windows_kext_mod.ConnectionMap.Cache.EndInstance.{named, end_instance_closes}
use windows_kext_mod.ConnectionMap.Cache.Retire.{clean_ended_connections_lem}
use windows_kext_mod.ConnectionMap.Cache.RoundTrip.{
  entry, live_of, read_matching-insert_if_absent_with,
}

abbrev loopback_v4 : List ℕ → Bool
loopback_v4 [] = false
loopback_v4 (b ∷ bs) = b == 127

abbrev platform : Platform
platform = record {
  is_loopback_v4 = loopback_v4;
  is_loopback_v6 = λ bs. bytes_eq bs (1 ∷ []);
  loopback_v6 = 1 ∷ [];
  ignore_special_ports = false;
}

abbrev client : List ℕ
client = 10 ∷ 0 ∷ 0 ∷ 1 ∷ []

abbrev server : List ℕ
server = 192 ∷ 0 ∷ 2 ∷ 1 ∷ []

abbrev web : Key
web = record {
  protocol = tcp;
  local_address = ipv4 client;
  local_port = 40000;
  remote_address = ipv4 server;
  remote_port = 443;
}

abbrev connection : ℕ → ConnectionV4
connection id = new_connection web 7 outbound true 100 id client server

abbrev traits : ConnectionTrait ConnectionV4 ℕ
traits = connection_v4 platform

abbrev cache : ConnectionMap ConnectionV4 ℕ
cache = []

next_instance_id_loop_total_example :
    (next_instance_id_loop 2 0 ≡ some (next_connection_instance_id 0))
    × (0 < (next_connection_instance_id 0).0)
next_instance_id_loop_total_example = next_instance_id_loop_total 2 0 (omega arith)

abbrev dns : Key
dns = record {
  protocol = udp;
  local_address = ipv4 client;
  local_port = 5000;
  remote_address = ipv4 (127 ∷ 0 ∷ 0 ∷ 1 ∷ []);
  remote_port = 53;
}

abbrev redirected : ConnectionV4
redirected = record (connection 1) { verdict = Verdict.redirect_name_server }

harmless : IsHarmless traits (λ x. x)
harmless = ground arith

IsUnique-empty : IsUnique traits cache
unfolding count BTreeMap.get
IsUnique-empty k g e = omega arith

lawful : IsLawful traits
lawful = connection_v4-IsLawful platform

valid_empty : CacheIsValid traits cache
valid_empty = (tt, tt)

abbrev place : (ℕ × ℕ) × (ℕ × ℕ)
place = (small web, endpoint_of traits (connection 1))

-- The cache with one connection.
abbrev filled : ConnectionMap ConnectionV4 ℕ
filled = (insert_if_absent_with traits cache (connection 1) (λ x. x)).0

insert_if_absent_with_lem_example :
    ((insert_if_absent_with traits cache (connection 1) (λ x. x)).1
      ≡ answer traits (connection 1) (generations_of traits cache (connection 1)))
    × CacheIsValid traits filled
    × (generations_at traits filled place.0 place.1 ≡ (
        if is_place_of traits (connection 1) place.0 place.1
        then after_insertion traits
            (connection 1)
            (λ x. x)
            (generations_at traits cache place.0 place.1)
        else generations_at traits cache place.0 place.1))
insert_if_absent_with_lem_example =
    insert_if_absent_with_lem traits cache (connection 1) (λ x. x) place.0 place.1 harmless
      valid_empty

insert_if_absent_with-IsUnique_example : IsUnique traits filled
insert_if_absent_with-IsUnique_example =
    insert_if_absent_with-IsUnique traits cache (connection 1) (λ x. x) lawful harmless valid_empty
      IsUnique-empty

valid_filled : CacheIsValid traits filled
valid_filled =
    (insert_if_absent_with_lem traits cache (connection 1) (λ x. x) place.0 place.1 harmless
      valid_empty).1

IsUnique-filled : IsUnique traits filled
IsUnique-filled =
    insert_if_absent_with-IsUnique traits cache (connection 1) (λ x. x) lawful harmless valid_empty
      IsUnique-empty

-- A second insertion of the tuple finds the first.
second_occupied :
    (insert_if_absent_with traits filled (connection 2) (λ x. x)).1
    ≡ windows_kext_mod.ConnectionMap.Cache.occupied (connection 2) 1
unfolding insert_if_absent_with connection_v4 Remote.insert Remote.get BTreeMap.get BTreeMap.insert
    find V4.remote_equals equals_v4 bytes_eq from_be V4.get_key
second_occupied = refl

named_one : named traits filled web 1 ≡ some (connection 1)
unfolding insert_if_absent_with connection_v4 Remote.insert Remote.get BTreeMap.get BTreeMap.insert
    find V4.remote_equals equals_v4 bytes_eq from_be V4.get_key V4.remote_address_key
named_one = refl

live_one : find (live_exact traits web) (exact_generations traits filled web) ≡ some (connection 1)
unfolding insert_if_absent_with connection_v4 Remote.insert Remote.get BTreeMap.get BTreeMap.insert
    find V4.remote_equals equals_v4 bytes_eq from_be V4.get_key V4.remote_address_key
live_one = refl

end_instance_closes_example :
    ((end_instance traits filled web 1 500).1 ≡ some (traits.end (connection 1) 500))
    × (find
          (live_exact traits web)
          (exact_generations traits (end_instance traits filled web 1 500).0 web)
        ≡ none)
end_instance_closes_example =
    end_instance_closes traits filled web 1 500 lawful valid_filled IsUnique-filled (omega arith)
      named_one

not_nine : traits.get_instance_id (connection 1) ≢ 9
unfolding connection_v4
not_nine = omega arith

clean_ended_connections_lem_example :
    CacheIsValid traits (clean_ended_connections traits filled 100000)
    × (generations_at traits (clean_ended_connections traits filled 100000) place.0 place.1
        ≡ filter (is_retained traits 100000) (generations_at traits filled place.0 place.1))
clean_ended_connections_lem_example =
    clean_ended_connections_lem traits filled 100000 place.0 place.1 valid_filled

read_matching-insert_if_absent_with_example :
    (read_matching traits platform filled web 900 some false).0
    ≡ handed traits 900 some
        (some (entry traits (connection 1) (λ x. x) (live_of traits cache (connection 1))))
unfolding connection_v4 V4.get_key
read_matching-insert_if_absent_with_example =
    read_matching-insert_if_absent_with traits platform cache (connection 1) (λ x. x) 900 some false
      lawful harmless valid_empty refl

read_matching_lem_example :
    (read_matching traits platform filled web 900 some true).0
    ≡ handed traits 900 some (best_match traits platform filled web true)
read_matching_lem_example = read_matching_lem traits platform filled web 900 some true

abbrev ended_and_live : List ConnectionV4
ended_and_live = V4.end (connection 1) 50 ∷ connection 2 ∷ []

abbrev is_web : ConnectionV4 → Bool
is_web x = traits.remote_equals x web

live_and_ended_match_lem_example :
    ((live_and_ended_match traits is_web ended_and_live).0
      ≡ find (λ x. is_web x && live traits x) ended_and_live)
    × (or
          (find (λ x. is_web x && live traits x) ended_and_live)
          (live_and_ended_match traits is_web ended_and_live).1
        ≡ or (find (λ x. is_web x && live traits x) ended_and_live) (find is_web ended_and_live))
live_and_ended_match_lem_example = live_and_ended_match_lem traits is_web ended_and_live

connection_v4-IsLawful_example : IsLawful (connection_v4 platform)
connection_v4-IsLawful_example = connection_v4-IsLawful platform

abbrev dns_v6 : Key
dns_v6 = record {
  protocol = udp;
  local_address = ipv6 (2 ∷ []);
  local_port = 5000;
  remote_address = ipv6 (1 ∷ []);
  remote_port = 53;
}

abbrev redirected_v6 : ConnectionV6
redirected_v6 = record (V6.new_connection dns_v6 7 outbound true 100 1 (2 ∷ []) (3 ∷ [])) {
  verdict = Verdict.redirect_name_server;
}
