-- ===== src/Protocol/LogLines.antt =====
-- `write_str` of `Info`: log lines grow by whole writes and stay readable frames.
use Prim.Native.Nat.{ℕ, ◌+◌, ◌-◌, ◌/◌, ◌%◌, ◌^◌, ◌<◌, ◌≤◌}
use mathlib.Core.Path.{◌≡◌, refl}
use mathlib.Core.Logic.{◌⊎◌, inl, inr}
use mathlib.Core.Bool.{true}
use mathlib.Core.List.{List, [], ◌∷◌, ◌++◌}
use mathlib.Core.Option.{some}
use native.Mathlib.Omega.{arith}
use windows_kext_mod.Prelude.Tests.{ltb, Bool-cases}
use windows_kext_mod.Prelude.Lists.{length, length-append}
use windows_kext_mod.Prelude.Bytes.{to_le}
use windows_kext_mod.Protocol.Info
use windows_kext_mod.Protocol.Info.{Info, update_size, write_str, as_u32}
use windows_kext_mod.Protocol.Frames.{read_frame, read_frame-info}

-- A log line as its type byte, four bytes of length and the content.
abbrev pub line_of : (code b₀ b₁ b₂ b₃ : ℕ) (content : List ℕ) (capacity : ℕ) → Info
line_of code b₀ b₁ b₂ b₃ content capacity = record {
  bytes = code ∷ b₀ ∷ b₁ ∷ b₂ ∷ b₃ ∷ content;
  capacity = capacity;
}

size_bytes :
    (n : ℕ)
    → n < 2 ^ 32
    → to_le 4 (as_u32 n) ≡ n % 256 ∷ n / 2 ^ 8 % 256 ∷ n / 2 ^ 16 % 256 ∷ n / 2 ^ 24 % 256 ∷ []
unfolding to_le
size_bytes n h =
    let fits : as_u32 n ≡ n = omega arith in
    let two : n / 256 / 256 ≡ n / 65536 = omega arith in
    let three : n / 65536 / 256 ≡ n / 16777216 = omega arith in rw (fits, two, three) refl

-- `update_size` of a line, written with the length of its content.
update_size-line_of :
    (code b₀ b₁ b₂ b₃ : ℕ) (content : List ℕ) (capacity : ℕ)
    → length content < 2 ^ 32
    → (update_size (line_of code b₀ b₁ b₂ b₃ content capacity)).bytes
      ≡ code ∷ to_le 4 (as_u32 (length content)) ++ content
unfolding update_size
update_size-line_of code b₀ b₁ b₂ b₃ content capacity h =
    let n : length (code ∷ b₀ ∷ b₁ ∷ b₂ ∷ b₃ ∷ content) - 5 ≡ length content = omega arith in
    rw (n, size_bytes (length content) h) refl

read_frame-update_size :
    (code b₀ b₁ b₂ b₃ : ℕ) (content rest : List ℕ) (capacity : ℕ)
    → length content < 2 ^ 32
    → read_frame ((update_size (line_of code b₀ b₁ b₂ b₃ content capacity)).bytes ++ rest)
      ≡ some (code, content, rest)
read_frame-update_size code b₀ b₁ b₂ b₃ content rest capacity h =
    rw (update_size-line_of code b₀ b₁ b₂ b₃ content capacity h)
      (read_frame-info code (length content) content rest refl h)

-- A text that fits the space left in a log line, or any text while its capacity is below 500, is
-- appended whole, and the line is then one frame with the grown content, whatever length it
-- declared before, if the grown content fits the length field.
pub write_str_lem :
    (reserve : ℕ → ℕ → ℕ → ℕ) (code b₀ b₁ b₂ b₃ capacity : ℕ) (content text rest : List ℕ)
    → (length text ≤ capacity - (5 + length content)) ⊎ (capacity < Info.max_capacity)
    → length content + length text < 2 ^ 32
    → read_frame
        ((write_str reserve (line_of code b₀ b₁ b₂ b₃ content capacity) text).bytes ++ rest)
      ≡ some (code, content ++ text, rest)
unfolding write_str
write_str_lem reserve code b₀ b₁ b₂ b₃ capacity content text rest room h =
    let grown = length-append content text in
    let framed = λ (size : ℕ).
      read_frame-update_size code b₀ b₁ b₂ b₃ (content ++ text) rest size (omega (arith, grown)) in
    let line = line_of code b₀ b₁ b₂ b₃ content capacity in
    elim (Bool-cases (ltb (capacity - length line.bytes) (length text))) [
      | inr fits ↦ rw fits (framed capacity)
      | inl full ↦
          let small : ltb capacity Info.max_capacity ≡ true = ground arith in
          rw (full, small) (framed (reserve capacity (length line.bytes) (length text)))
    ]
