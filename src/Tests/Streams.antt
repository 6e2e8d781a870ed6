-- ===== src/Tests/Streams.antt =====
-- The stream of events and the commands of a write at concrete inputs.
use Prim.Native.Nat.{ℕ, ◌+◌}
use mathlib.Core.Path.{◌≡◌, refl}
use mathlib.Core.Bool.{true}
use mathlib.Core.List.{List, [], ◌∷◌, ◌++◌}
use mathlib.Core.Option.{Option, none, some}
use windows_kext_mod.Prelude.Tests.{◌==◌, if◌then◌else◌}
use windows_kext_mod.ArrayHolder.{ArrayHolder}
use windows_kext_mod.Protocol.Command.{
  CommandType, get_logs, payload_size, unknown_type, split_first_command, command_from_u8,
}
use windows_kext_mod.Device.Read.{ready, timed_out}
use windows_kext_mod.Device.Stream.{Request, unread, run, all_arrived, run-stream}
use windows_kext_mod.Device.Write.{write}
use windows_kext_mod.Device.Commands.{Sized, IsMalformed, encode, apply_all, write-encode}

abbrev start : ArrayHolder × List (List ℕ)
start = (some (7 ∷ 8 ∷ []), (1 ∷ 2 ∷ 3 ∷ []) ∷ [])

-- Reads of seven bytes, between which a record arrives.
abbrev requests : List Request
requests =
    record { arrived = []; locked = true; buffer_len = 7; wait = ready }
    ∷ record { arrived = (4 ∷ 5 ∷ 6 ∷ []) ∷ []; locked = true; buffer_len = 7; wait = ready }
    ∷ record { arrived = []; locked = true; buffer_len = 7; wait = timed_out }
    ∷ []

run-stream_example :
    (run start requests).0 ++ unread (run start requests).1.0 (run start requests).1.1
    ≡ unread start.0 start.1 ++ all_arrived requests
run-stream_example = run-stream start requests

-- The state counts the commands, and the second one fails.
abbrev count_command : CommandType → List ℕ → ℕ → ℕ × Option ℕ
count_command command payload n = (n + 1, if n == 1 then some 13 else none)

no_payload : 0 ≡ payload_size get_logs
unfolding payload_size
no_payload = refl

abbrev logs : Sized
logs = record { command = get_logs; payload = []; fits = no_payload }

malformed : IsMalformed (255 ∷ [])
unfolding split_first_command command_from_u8
malformed = (unknown_type 255, refl)

write-encode_example :
    write 87 count_command 0 (encode (logs ∷ logs ∷ []) (255 ∷ []))
    ≡ apply_all 87 count_command 0 0 (logs ∷ logs ∷ []) (255 ∷ [])
write-encode_example = write-encode 87 count_command 0 logs (logs ∷ []) (255 ∷ []) malformed
