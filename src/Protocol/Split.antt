-- ===== src/Protocol/Split.antt =====
-- Splitting a buffer of concatenated commands.
use Prim.Native.Nat.{ℕ, suc, ◌≤◌}
use mathlib.Core.Path.{◌≡◌, refl, ap}
use mathlib.Core.Logic.{◌↔◌}
use mathlib.Core.List.{List, [], ◌∷◌, ◌++◌}
use mathlib.Core.Option.{some}
use native.Mathlib.Omega.{arith}
use windows_kext_mod.Prelude.Lists.{length, take, drop, length-append}
use windows_kext_mod.Protocol.Slices.{take-append, drop-append}
use windows_kext_mod.Protocol.Command.{
  CommandType, shutdown, command_code, command_from_u8, payload_size, ok, split_first_command,
}

pub command_from_u8-command_code : (c : CommandType) → command_from_u8 (command_code c) ≡ some c
unfolding command_from_u8 command_code
command_from_u8-command_code shutdown = refl
command_from_u8-command_code _ = refl

command_code_of : (n : ℕ) (c : CommandType) → command_from_u8 n ≡ some c → command_code c ≡ n
unfolding command_from_u8 command_code
command_code_of n c h = ground arith

take-append-drop : (n : ℕ) (xs : List ℕ) → take n xs ++ drop n xs ≡ xs
take-append-drop ℕ.zero xs = refl
take-append-drop (suc n) [] = refl
take-append-drop (suc n) (x ∷ xs) = ap (λ t. x ∷ t) (take-append-drop n xs)

length-take_le : (n : ℕ) (xs : List ℕ) → n ≤ length xs → length (take n xs) ≡ n
length-take_le ℕ.zero xs h = refl
length-take_le (suc n) [] h = absurd (omega arith)
length-take_le (suc n) (x ∷ xs) h = omega (arith, length-take_le n xs (omega arith))

pub split_complete :
    (c : CommandType) (payload rest : List ℕ)
    → length payload ≡ payload_size c
    → split_first_command (command_code c ∷ (payload ++ rest)) ≡ ok c payload rest
unfolding split_first_command
split_complete c payload rest h =
    rw (command_from_u8-command_code c, split_first_command, ← h)
      (ground
        (arith, length-append payload rest, take-append payload rest, drop-append payload rest))

split_sound :
    (bytes : List ℕ) (c : CommandType) (payload rest : List ℕ)
    → split_first_command bytes ≡ ok c payload rest
    → (bytes ≡ command_code c ∷ (payload ++ rest)) × (length payload ≡ payload_size c)
unfolding split_first_command
split_sound [] c payload rest h = cc
split_sound (value ∷ bytes) c payload rest h = ground (
  arith,
  command_code_of value c,
  take-append-drop (payload_size c) bytes,
  length-take_le (payload_size c) bytes,
)

-- A buffer splits into a command, its payload and a rest exactly if it is the command's code, the
-- payload and the rest in a row, and the payload has the command's size.
pub split_first_command-eq-ok :
    (bytes : List ℕ) (c : CommandType) (payload rest : List ℕ)
    → (split_first_command bytes ≡ ok c payload rest)
      ↔ ((bytes ≡ command_code c ∷ (payload ++ rest)) × (length payload ≡ payload_size c))
split_first_command-eq-ok bytes c payload rest =
    (split_sound bytes c payload rest, λ h. rw (h.0) (split_complete c payload rest h.1))
