-- ===== src/Device/Read.antt =====
-- windows_kext/driver/src/device.rs (`read`, `write_buffer`) with `ReadRequest::write` of
-- windows_kext/wdk/src/irp_helpers.rs. A record is its bytes, and the queue the records in it.
use Prim.Native.Nat.{ℕ, ◌-◌}
use mathlib.Core.Bool.{Bool, true, false}
use mathlib.Core.List.{List, [], ◌∷◌, ◌++◌}
use mathlib.Core.Option.{none, some}
use windows_kext_mod.Prelude.Tests.{ltb, if◌then◌else◌}
use windows_kext_mod.Prelude.Lists.{length, take, drop}
use windows_kext_mod.ArrayHolder.{ArrayHolder, save, load, clear}

-- What has been written to the buffer of a request, and the held fragment.
pub record Reading : Type 0 where
  pub written : List ℕ
  pub holder : ArrayHolder

abbrev pub free_space : (buffer_len : ℕ) → List ℕ → ℕ
free_space buffer_len written = buffer_len - length written

-- `ReadRequest::write`, with the number of bytes that it wrote
unfoldable pub write : (buffer_len : ℕ) → List ℕ → List ℕ → List ℕ × ℕ
write buffer_len written bytes =
    let part = take (free_space buffer_len written) bytes in (written ++ part, length part)

-- `write_buffer`, and the same steps on a fragment from before.
unfoldable pub write_buffer : (buffer_len : ℕ) → Reading → List ℕ → Reading
unfolding write save
write_buffer buffer_len r bytes =
    let w = write buffer_len r.written bytes in
    record {
      written = w.0;
      holder = if ltb w.1 (length bytes) then save r.holder (drop w.1 bytes) else r.holder;
    }

-- `while read_request.free_space() > 5`
unfoldable pub fill : (buffer_len : ℕ) → Reading → List (List ℕ) → Reading × List (List ℕ)
unfolding write_buffer
fill buffer_len r [] = (r, [])
fill buffer_len r (bytes ∷ queue) =
    let rest = fill buffer_len (write_buffer buffer_len r bytes) queue in
    if ltb 5 (free_space buffer_len r.written) then rest else (r, bytes ∷ queue)

-- How the wait for a record ends: the queue has one, or the kernel ends it otherwise.
pub data Wait : Type 0 where
  ready timed_out was_cancelled run_down : Wait

-- How a request is completed. `waiting` is a request whose wait has not ended.
pub data Completion : Type 0 where
  success timeout cancelled end_of_file failed waiting : Completion

pub record ReadResult : Type 0 where
  pub delivered : List ℕ
  pub holder : ArrayHolder
  pub queue : List (List ℕ)
  pub completion : Completion

abbrev pub completed : Reading × List (List ℕ) → ReadResult
completed r = record {
  delivered = r.0.written;
  holder = r.0.holder;
  queue = r.1;
  completion = success;
}

abbrev pub stopped : ArrayHolder → List (List ℕ) → Completion → ReadResult
stopped holder queue completion = record {
  delivered = [];
  holder = holder;
  queue = queue;
  completion = completion;
}

-- With nothing held, the first record is waited for.
unfoldable pub read_next : (buffer_len : ℕ) → Wait → List (List ℕ) → ReadResult
unfolding fill
read_next buffer_len timed_out queue = stopped none queue timeout
read_next buffer_len was_cancelled queue = stopped none queue cancelled
read_next buffer_len run_down queue = stopped none queue end_of_file
read_next buffer_len ready [] = stopped none [] waiting
read_next buffer_len ready (bytes ∷ queue) =
    completed (
      fill buffer_len (write_buffer buffer_len (record { written = []; holder = none }) bytes)
        queue)

-- `locked` is whether the lock of the stream was acquired.
unfoldable pub read :
    (locked : Bool) (buffer_len : ℕ) → Wait → ArrayHolder → List (List ℕ) → ReadResult
unfolding read_next load
read false buffer_len wait holder queue = stopped holder queue failed
read true buffer_len wait holder queue = elim (load holder).1 [
  | none ↦ read_next buffer_len wait queue
  | some fragment ↦ completed (
      fill buffer_len
        (write_buffer buffer_len (record { written = []; holder = (load holder).0 }) fragment)
        queue)
]

-- `clear_read_leftover`, whose only error is that of the lock
unfoldable pub clear_read_leftover : ArrayHolder → ArrayHolder
unfolding clear
clear_read_leftover holder = clear holder
