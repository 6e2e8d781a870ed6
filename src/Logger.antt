-- ===== src/Logger.antt =====
-- windows_kext/driver/src/logger.rs: the ring of log lines that wait for user space.
pub mod Queue
use Prim.Native.Nat.{ℕ, zero, suc, ◌+◌, ◌%◌}
use mathlib.Core.List.{List, [], ◌∷◌}
use mathlib.Core.Option.{Option, none, some}
use windows_kext_mod.Prelude.Tests.{◌==◌, ltb, if◌then◌else◌}
use windows_kext_mod.Protocol.Info.{Info}

abbrev pub size_of_log_line_buffer : ℕ
size_of_log_line_buffer = 1024

-- The array `lines` as a function of the index, which is always below its size.
pub record LogBuffer : Type 0 where
  pub lines : ℕ → Option Info
  pub start : ℕ
  pub len : ℕ

unfoldable pub new : LogBuffer
new = record { lines = λ index. none; start = 0; len = 0 }

-- `lines[index] = line`
abbrev pub put : (ℕ → Option Info) → ℕ → Option Info → ℕ → Option Info
put lines index line i = if i == index then line else lines i

-- `add_line`: the buffer after it, and the line that was replaced.
unfoldable pub add_line : LogBuffer → Info → LogBuffer × Option Info
add_line buffer log_line =
    if ltb buffer.len size_of_log_line_buffer
    then (let index = (buffer.start + buffer.len) % size_of_log_line_buffer in
        (
          record buffer { lines = put buffer.lines index (some log_line); len = buffer.len + 1 },
          buffer.lines index,
        ))
    else (let index = buffer.start in
        (
          record buffer {
            lines = put buffer.lines index (some log_line);
            start = (buffer.start + 1) % size_of_log_line_buffer;
          },
          buffer.lines index,
        ))

-- The loop of `flush` from an offset on, for a number of rounds: the lines taken, and what is left.
unfoldable pub flush_loop :
    (ℕ → Option Info) → (start offset rounds : ℕ) → List Info × (ℕ → Option Info)
flush_loop lines start offset zero = ([], lines)
flush_loop lines start offset (suc rounds) =
    let index = (start + offset) % size_of_log_line_buffer in
    let rest = flush_loop (put lines index none) start (offset + 1) rounds in
    (elim (lines index) [ none ↦ rest.0 | some line ↦ line ∷ rest.0 ], rest.1)

unfoldable pub flush : LogBuffer → LogBuffer × List Info
unfolding flush_loop
flush buffer =
    let taken = flush_loop buffer.lines buffer.start 0 buffer.len in
    (record { lines = taken.1; start = 0; len = 0 }, taken.0)
