-- ===== src/Tests/Events.antt =====
-- Commands and events at concrete inputs.
use Prim.Native.Nat.{◌+◌, ℕ}
use mathlib.Core.Path.{◌≡◌, refl}
use mathlib.Core.Logic.{◌↔◌}
use mathlib.Core.List.{List, [], ◌∷◌, ◌++◌}
use mathlib.Core.Option.{some}
use native.Mathlib.Omega.{arith}
use windows_kext_mod.Prelude.Lists.{length}
use windows_kext_mod.Protocol.Command.{
  Update, parse_update_v4, parse_update_v6, parse_verdict, split_first_command, ok, payload_size,
  command_code,
}
use windows_kext_mod.Protocol.Command
use windows_kext_mod.Protocol.RoundTrip.{
  Fits, encode_update, encode_verdict, parse_update_v4-encode_update, parse_verdict-encode_verdict,
}
use windows_kext_mod.Protocol.Split.{split_first_command-eq-ok}
use windows_kext_mod.Protocol.Info
use windows_kext_mod.Protocol.LogLines.{line_of, write_str_lem}
use mathlib.Core.Logic.{inr}
use windows_kext_mod.Protocol.Frames.{read_frame}
use windows_kext_mod.Protocol.Decode.{read_connection, read_connection-connection_info_v4}

abbrev client : List ℕ
client = 10 ∷ 0 ∷ 0 ∷ 1 ∷ []

abbrev server : List ℕ
server = 192 ∷ 0 ∷ 2 ∷ 1 ∷ []

-- 16 bytes
abbrev long : List ℕ → List ℕ
long a = a ++ (a ++ (a ++ a))

abbrev update : List ℕ → List ℕ → Update
update here there = record {
  protocol = 6;
  local_address = here;
  local_port = 40000;
  remote_address = there;
  remote_port = 443;
  verdict = 2;
}

Fits-v4 : Fits 4 (update client server)
Fits-v4 = record {
  local_length = refl;
  remote_length = refl;
  local_fits = omega arith;
  remote_fits = omega arith;
}

Fits-v6 : Fits 16 (update (long client) (long server))
Fits-v6 = record {
  local_length = refl;
  remote_length = refl;
  local_fits = omega arith;
  remote_fits = omega arith;
}

parse_update_v4-encode_update_example :
    parse_update_v4 (encode_update (update client server)) ≡ some (update client server)
parse_update_v4-encode_update_example = parse_update_v4-encode_update (update client server) Fits-v4

abbrev decision : Command.Verdict
decision = record { id = 300; verdict = 2 }

parse_verdict-encode_verdict_example : parse_verdict (encode_verdict decision) ≡ some decision
parse_verdict-encode_verdict_example = parse_verdict-encode_verdict decision (omega arith)

split_first_command-eq-ok_example :
    (split_first_command (5 ∷ 0 ∷ []) ≡ ok Command.get_logs [] (0 ∷ [])) ↔ (
      ((5 ∷ 0 ∷ []) ≡ command_code Command.get_logs ∷ ([] ++ (0 ∷ [])))
      × (length {A = ℕ} [] ≡ payload_size Command.get_logs))
split_first_command-eq-ok_example =
    split_first_command-eq-ok (5 ∷ 0 ∷ []) Command.get_logs [] (0 ∷ [])

abbrev info : List ℕ → List ℕ → Info.ConnectionInfo
info here there = record {
  id = 12;
  process_id = 7;
  direction = 0;
  protocol = 6;
  local_ip = here;
  remote_ip = there;
  local_port = 40000;
  remote_port = 443;
  payload_layer = 3;
  payload = 1 ∷ 2 ∷ [];
}

read_connection-connection_info_v4_example :
    read_connection ((Info.connection_info_v4 (info client server)).bytes ++ (9 ∷ []))
    ≡ some (info client server, 9 ∷ [])
read_connection-connection_info_v4_example =
    read_connection-connection_info_v4 (info client server) (9 ∷ []) (omega arith)

abbrev end_info : List ℕ → List ℕ → Info.ConnectionEnd
end_info here there = record {
  process_id = 7;
  direction = 0;
  protocol = 6;
  local_ip = here;
  remote_ip = there;
  local_port = 40000;
  remote_port = 443;
}

abbrev value : List ℕ → List ℕ → Info.BandwidthValue
value here there = record {
  local_ip = here;
  local_port = 40000;
  remote_ip = there;
  remote_port = 443;
  transmitted_bytes = 1000;
  received_bytes = 5;
}

-- A first write to a new line, which declares a size of 0 and holds the severity.
write_str_lem_example :
    read_frame (
      (Info.write_str
        (λ capacity len added. capacity + 500)
        (line_of 0 0 0 0 0 (3 ∷ []) 155)
        (104 ∷ 105 ∷ [])).bytes
      ++ (9 ∷ []))
    ≡ some (0, (3 ∷ []) ++ (104 ∷ 105 ∷ []), 9 ∷ [])
write_str_lem_example =
    write_str_lem (λ capacity len added. capacity + 500) 0 0 0 0 0 155 (3 ∷ []) (104 ∷ 105 ∷ [])
      (9 ∷ []) (inr (omega arith)) (omega arith)
