-- ===== src/Device/Commands.antt =====
-- A write applies its commands one after the other, up to the first that fails.
use Prim.Native.Nat.{ℕ, zero, suc, ◌+◌, ◌≤◌}
use mathlib.Core.Path.{◌≡◌, refl, ◌∙◌, sym}
use mathlib.Core.Logic.{inl, inr}
use mathlib.Core.List.{List, [], ◌∷◌, ◌++◌}
use mathlib.Core.Option.{Option, none, some}
use native.Mathlib.Omega.{arith}
use windows_kext_mod.Prelude.Tests.{Option-cases}
use windows_kext_mod.Prelude.Lists.{length, length-append}
use windows_kext_mod.Protocol.Command.{
  CommandType, CommandParseError, command_code, payload_size, err, split_first_command,
}
use windows_kext_mod.Protocol.Split.{split_complete}
use windows_kext_mod.Device.Write.{CommandWriteError, failure, write_from, write}

-- A command with a payload of its size.
pub record Sized : Type 0 where
  pub command : CommandType
  pub payload : List ℕ
  pub fits : length payload ≡ payload_size command

-- The commands as one buffer, before some last bytes.
pub encode : List Sized → List ℕ → List ℕ
encode [] last = last
encode (c ∷ cs) last = command_code c.command ∷ (c.payload ++ encode cs last)

-- Last bytes that are no command: none, or a malformed one.
abbrev pub IsMalformed : List ℕ → Type 0
IsMalformed [] = Unit
IsMalformed (x ∷ bytes) = (e : CommandParseError) × (split_first_command (x ∷ bytes) ≡ err e)

module _ {S : Type 0} (invalid_parameter : ℕ)
    (apply_command : CommandType → List ℕ → S → S × Option ℕ) where
  abbrev fail : S → (status offset : ℕ) → S × Option CommandWriteError
  fail s status offset = failure invalid_parameter apply_command s status offset

  -- The commands applied in order; an error names the offset of its command, or of the last bytes.
  unfoldable pub apply_all : (offset : ℕ) → S → List Sized → List ℕ → S × Option CommandWriteError
  apply_all offset s [] [] = (s, none)
  apply_all offset s [] (x ∷ last) = fail s invalid_parameter offset
  apply_all offset s (c ∷ cs) last = elim (apply_command c.command c.payload s).1 [
    | some status ↦ fail (apply_command c.command c.payload s).0 status offset
    | none ↦
        apply_all (offset + (1 + length c.payload)) (apply_command c.command c.payload s).0 cs last
  ]

  write_from-done :
      (fuel offset : ℕ) (s : S) (c : Sized) (rest : List ℕ)
      → (apply_command c.command c.payload s).1 ≡ none
      → write_from invalid_parameter apply_command
          (suc fuel)
          offset
          s
          (command_code c.command ∷ (c.payload ++ rest))
        ≡ write_from invalid_parameter apply_command fuel
            (offset + (1 + length c.payload))
            (apply_command c.command c.payload s).0
            rest
  unfolding write_from
  write_from-done fuel offset s c rest done =
      rw (split_complete c.command c.payload rest c.fits, write_from, done) refl

  apply_all-done :
      (offset : ℕ) (s : S) (c : Sized) (cs : List Sized) (last : List ℕ)
      → (apply_command c.command c.payload s).1 ≡ none
      → apply_all offset s (c ∷ cs) last
        ≡ apply_all
            (offset + (1 + length c.payload))
            (apply_command c.command c.payload s).0
            cs
            last
  unfolding apply_all
  apply_all-done offset s c cs last done = rw (done, apply_all) refl

  write_from-encode :
      (fuel offset : ℕ) (s : S) (cs : List Sized) (last : List ℕ)
      → IsMalformed last
      → length (encode cs last) ≤ fuel
      → write_from invalid_parameter apply_command fuel offset s (encode cs last)
        ≡ apply_all offset s cs last
  unfolding write_from apply_all encode
  write_from-encode fuel offset s [] [] m h = refl
  write_from-encode zero offset s [] (x ∷ last) m h = absurd (omega (arith, h))
  write_from-encode (suc fuel) offset s [] (x ∷ last) m h = rw (m.1, write_from) refl
  write_from-encode zero offset s (c ∷ cs) last m h = absurd (omega (arith, h))
  write_from-encode (suc fuel) offset s (c ∷ cs) last m h =
      let rest = encode cs last in
      let split = split_complete c.command c.payload rest c.fits in
      let after = (apply_command c.command c.payload s).0 in
      elim (Option-cases (apply_command c.command c.payload s).1) [
        | inr (status, failed) ↦ rw (split, write_from, failed, apply_all) refl
        | inl done ↦
            write_from-done fuel offset s c rest done
            ∙ (write_from-encode fuel (offset + (1 + length c.payload)) after cs last m
                  (omega (arith, h, length-append c.payload rest))
                ∙ sym (apply_all-done offset s c cs last done))
      ]

  -- A write of any commands before malformed or no bytes, but not of nothing at all, applies the
  -- commands in order up to the first that fails, keeps what was applied, and reports the offset
  -- where it stopped; every byte is taken if nothing fails.
  pub write-encode :
      (s : S) (c : Sized) (cs : List Sized) (last : List ℕ)
      → IsMalformed last
      → write invalid_parameter apply_command s (encode (c ∷ cs) last) ≡ apply_all 0 s (c ∷ cs) last
  unfolding write encode
  write-encode s c cs last m =
      write_from-encode (length (encode (c ∷ cs) last)) 0 s (c ∷ cs) last m (omega arith)
