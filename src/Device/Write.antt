-- ===== src/Device/Write.antt =====
-- windows_kext/driver/src/device.rs (`write`): the commands of one write, in the order of the buffer.
use Prim.Native.Nat.{ℕ, zero, suc, ◌+◌}
use mathlib.Core.List.{List, [], ◌∷◌}
use mathlib.Core.Option.{Option, none, some}
use windows_kext_mod.Prelude.Lists.{length}
use windows_kext_mod.Protocol.Command.{CommandType, ok, err, split_first_command}

pub record CommandWriteError : Type 0 where
  pub status : ℕ
  pub bytes_processed : ℕ

-- `S` is the state of the device, `apply_command` what a command does to it, with the status that
-- it fails with, and `invalid_parameter` the kernel's status for a malformed buffer.
module _ {S : Type 0} (invalid_parameter : ℕ)
    (apply_command : CommandType → List ℕ → S → S × Option ℕ) where
  abbrev pub failure : S → (status offset : ℕ) → S × Option CommandWriteError
  failure s status offset = (s, some (record { status = status; bytes_processed = offset }))

  -- The loop; each round takes at least one byte.
  unfoldable pub write_from : (fuel offset : ℕ) → S → List ℕ → S × Option CommandWriteError
  write_from fuel offset s [] = (s, none)
  write_from zero offset s (x ∷ bytes) = (s, none)
  write_from (suc fuel) offset s (x ∷ bytes) = elim (split_first_command (x ∷ bytes)) [
    | err e ↦ failure s invalid_parameter offset
    | ok command payload next ↦ elim (apply_command command payload s).1 [
      | some status ↦ failure (apply_command command payload s).0 status offset
      | none ↦
          write_from fuel (offset + (1 + length payload)) (apply_command command payload s).0 next
    ]
  ]

  unfoldable pub write : S → List ℕ → S × Option CommandWriteError
  unfolding write_from
  write s [] = failure s invalid_parameter 0
  write s (x ∷ bytes) = write_from (length (x ∷ bytes)) 0 s (x ∷ bytes)
