-- ===== src/Logger/Queue.antt =====
-- The ring of log lines is a queue that forgets its oldest line when it is full.
use Prim.Native.Nat.{ℕ, zero, suc, ◌+◌, ◌-◌, ◌%◌, ◌<◌, ◌≤◌}
use mathlib.Core.Path.{◌≡◌, refl, ◌∙◌, ap}
use mathlib.Core.List.{List, [], ◌∷◌, ◌++◌}
use mathlib.Core.Option.{Option, none, some}
use native.Mathlib.Omega.{arith}
use mathlib.Core.Logic.{inl, inr}
use windows_kext_mod.Prelude.Tests.{◌==◌, ltb, if◌then◌else◌, Bool-cases}
use windows_kext_mod.Prelude.Lists.{length, drop, get_elem?, length-append}
use windows_kext_mod.Protocol.Info.{Info}
use windows_kext_mod.Logger

-- The slots from a start on hold the lines of a queue, in order, from an offset on, and nothing
-- else.
abbrev pub SlotsHold : (ℕ → Option Info) → (start offset : ℕ) → List Info → Type 0
SlotsHold lines start offset q =
    (i : ℕ)
    → i < 1024
    → lines ((start + i) % 1024) ≡ (if ltb i offset then none else get_elem? q (i - offset))

pub record IsQueue (b : Logger.LogBuffer) (q : List Info) : Type 0 where
  pub slots : SlotsHold b.lines b.start 0 q
  pub len_eq : b.len ≡ length q
  pub len_le : length q ≤ 1024
  pub start_lt : b.start < 1024

-- What a queue of at most 1024 lines does with one more.
pub enqueue : List Info → Info → List Info
enqueue q line = if ltb (length q) 1024 then q ++ line ∷ [] else drop 1 q ++ line ∷ []

get_elem?-append_one :
    (q : List Info) (line : Info) (i : ℕ)
    → get_elem? (q ++ line ∷ []) i ≡ (if i == length q then some line else get_elem? q i)
get_elem?-append_one [] line zero = refl
get_elem?-append_one [] line (suc i) = ground arith
get_elem?-append_one (x ∷ q) line zero = ground arith
get_elem?-append_one (x ∷ q) line (suc i) = ground (arith, get_elem?-append_one q line i)

get_elem?-drop_one : (q : List Info) (i : ℕ) → get_elem? (drop 1 q) i ≡ get_elem? q (i + 1)
get_elem?-drop_one [] i = refl
get_elem?-drop_one (x ∷ q) i = ground arith

length-drop_one : (q : List Info) → length (drop 1 q) ≡ length q - 1
length-drop_one [] = refl
length-drop_one (x ∷ q) = omega arith

-- The empty buffer is the empty queue.
pub new-IsQueue : IsQueue Logger.new []
unfolding Logger.new
new-IsQueue = record {
  slots = λ i h. ground arith;
  len_eq = refl;
  len_le = omega arith;
  start_lt = omega arith;
}

slot_test :
    (s i j : ℕ) → s < 1024 → i < 1024 → j < 1024 → ((s + i) % 1024 == (s + j) % 1024) ≡ (i == j)
slot_test s i j hs hi hj = ground arith

add_line-room :
    (b : Logger.LogBuffer) (q : List Info) (line : Info)
    → IsQueue b q
    → length q < 1024
    → SlotsHold
        (Logger.put b.lines ((b.start + b.len) % 1024) (some line))
        b.start
        0
        (q ++ line ∷ [])
add_line-room b q line v room i h =
    rw (slot_test b.start i b.len v.start_lt h (omega (arith, v.len_eq)), v.slots i h, v.len_eq)
      (ground (arith, get_elem?-append_one q line i))

shift_slot : (s i : ℕ) → ((s + 1) % 1024 + i) % 1024 ≡ (s + (i + 1)) % 1024
shift_slot s i = omega arith

full_test : (s i : ℕ) → s < 1024 → i < 1024 → ((s + (i + 1)) % 1024 == s) ≡ (i == 1023)
full_test s i hs hi = ground arith

-- Replacing the oldest line of a full buffer.
add_line-full :
    (b : Logger.LogBuffer) (q : List Info) (line : Info)
    → IsQueue b q
    → length q ≡ 1024
    → SlotsHold
        (Logger.put b.lines b.start (some line))
        ((b.start + 1) % 1024)
        0
        (drop 1 q ++ line ∷ [])
add_line-full b q line v full i h =
    rw (shift_slot b.start i, full_test b.start i v.start_lt h)
      (ground (
        arith,
        v.slots (i + 1),
        get_elem?-append_one (drop 1 q) line i,
        get_elem?-drop_one q i,
        length-drop_one q,
      ))

-- The two branches of `add_line`.
abbrev appended : Logger.LogBuffer → Info → Logger.LogBuffer
appended b line = record b {
  lines = Logger.put b.lines ((b.start + b.len) % 1024) (some line);
  len = b.len + 1;
}

abbrev replaced : Logger.LogBuffer → Info → Logger.LogBuffer
replaced b line = record b {
  lines = Logger.put b.lines b.start (some line);
  start = (b.start + 1) % 1024;
}

add_line-appended :
    (b : Logger.LogBuffer) (line : Info)
    → b.len < 1024
    → Logger.add_line b line ≡ (appended b line, b.lines ((b.start + b.len) % 1024))
unfolding Logger.add_line
add_line-appended b line h = ground arith

add_line-replaced :
    (b : Logger.LogBuffer) (line : Info)
    → 1024 ≤ b.len
    → Logger.add_line b line ≡ (replaced b line, b.lines b.start)
unfolding Logger.add_line
add_line-replaced b line h = ground arith

get_elem?-out : (q : List Info) (i : ℕ) → length q ≤ i → get_elem? q i ≡ none
get_elem?-out [] i h = refl
get_elem?-out (x ∷ q) zero h = absurd (omega arith)
get_elem?-out (x ∷ q) (suc i) h = get_elem?-out q i (omega arith)

appended-IsQueue :
    (b : Logger.LogBuffer) (q : List Info) (line : Info)
    → IsQueue b q
    → length q < 1024
    → IsQueue (appended b line) (q ++ line ∷ [])
appended-IsQueue b q line v room = record {
  slots = add_line-room b q line v room;
  len_eq = omega (arith, v.len_eq, length-append q (line ∷ []));
  len_le = omega (arith, length-append q (line ∷ []));
  start_lt = v.start_lt;
}

replaced-IsQueue :
    (b : Logger.LogBuffer) (q : List Info) (line : Info)
    → IsQueue b q
    → length q ≡ 1024
    → IsQueue (replaced b line) (drop 1 q ++ line ∷ [])
replaced-IsQueue b q line v full = record {
  slots = add_line-full b q line v full;
  len_eq = omega (arith, v.len_eq, length-append (drop 1 q) (line ∷ []), length-drop_one q);
  len_le = omega (arith, length-append (drop 1 q) (line ∷ []), length-drop_one q);
  start_lt = omega arith;
}

-- On a buffer that holds a queue, `add_line` holds the queue with the line added, and hands back
-- the oldest line exactly if the queue was full.
pub add_line_lem :
    (b : Logger.LogBuffer) (q : List Info) (line : Info)
    → IsQueue b q
    → IsQueue (Logger.add_line b line).0 (enqueue q line)
      × ((Logger.add_line b line).1 ≡ (if ltb (length q) 1024 then none else get_elem? q 0))
unfolding enqueue
add_line_lem b q line v = elim (Bool-cases (ltb (length q) 1024)) [
  | inl room ↦
      let h : length q < 1024 = ground arith in
      rw (add_line-appended b line (omega (arith, v.len_eq)), room)
        (
          appended-IsQueue b q line v h,
          rw v.len_eq
              (ground (arith, v.slots (length q) h, get_elem?-out q (length q) (omega arith))),
        )
  | inr full ↦
      let h : length q ≡ 1024 = ground (arith, v.len_le) in
      rw (add_line-replaced b line (omega (arith, v.len_eq)), full)
        (replaced-IsQueue b q line v h, ground (arith, v.slots 0))
]

get_elem?-behind :
    (x : Info) (q : List Info) (i offset : ℕ)
    → offset < i
    → get_elem? (x ∷ q) (i - offset) ≡ get_elem? q (i - (offset + 1))
get_elem?-behind x q i offset h =
    let e : i - offset ≡ suc (i - (offset + 1)) = omega arith in rw e refl

emptied-SlotsHold :
    (lines : ℕ → Option Info) (start offset : ℕ) (x : Info) (q : List Info)
    → SlotsHold lines start offset (x ∷ q)
    → start < 1024
    → offset < 1024
    → SlotsHold (Logger.put lines ((start + offset) % 1024) none) start (offset + 1) q
emptied-SlotsHold lines start offset x q v hs ho i hi =
    rw (slot_test start i offset hs hi ho, v i hi)
      (ground (arith, λ (h : offset < i). get_elem?-behind x q i offset h))

-- From slots that hold a queue from an offset on, the loop takes the queue and leaves nothing.
flush_loop_lem :
    (lines : ℕ → Option Info) (start offset : ℕ) (q : List Info)
    → SlotsHold lines start offset q
    → start < 1024
    → offset + length q ≤ 1024
    → ((Logger.flush_loop lines start offset (length q)).0 ≡ q)
      × ((i : ℕ)
          → i < 1024
          → (Logger.flush_loop lines start offset (length q)).1 ((start + i) % 1024) ≡ none)
unfolding Logger.flush_loop
flush_loop_lem lines start offset [] v hs h = (refl, λ i hi. ground (arith, v i hi))
flush_loop_lem lines start offset (x ∷ q) v hs h =
    let taken : lines ((start + offset) % 1024) ≡ some x = ground (arith, v offset (omega arith)) in
    let rest =
      flush_loop_lem (Logger.put lines ((start + offset) % 1024) none) start (offset + 1) q
        (emptied-SlotsHold lines start offset x q v hs (omega arith)) hs (omega arith) in
    (rw taken (ap (λ xs. x ∷ xs) rest.0), rest.1)

-- `flush` hands over the whole queue in order and leaves the empty one.
pub flush_lem :
    (b : Logger.LogBuffer) (q : List Info)
    → IsQueue b q
    → ((Logger.flush b).1 ≡ q) × IsQueue (Logger.flush b).0 []
unfolding Logger.flush
flush_lem b q v =
    let taken = flush_loop_lem b.lines b.start 0 q v.slots v.start_lt (omega (arith, v.len_le)) in
    rw v.len_eq (
      taken.0,
      record {
        slots = λ i h.
            let e : (0 + i) % 1024 ≡ (b.start + (i + 1024 - b.start) % 1024) % 1024 =
              omega (arith, v.start_lt) in
            rw e (taken.1 ((i + 1024 - b.start) % 1024) (omega arith) ∙ ground arith);
        len_eq = refl;
        len_le = omega arith;
        start_lt = omega arith;
      },
    )

-- What the driver does with the log: it adds a line, or user space takes them all.
pub data LogEvent : Type 0 where
  added : Info → LogEvent
  flushed : LogEvent

-- The lines handed over by the flushes of a sequence of events, flush by flush.
pub run_buffer : Logger.LogBuffer → List LogEvent → List (List Info)
run_buffer b [] = []
run_buffer b (added line ∷ es) = run_buffer (Logger.add_line b line).0 es
run_buffer b (flushed ∷ es) = (Logger.flush b).1 ∷ run_buffer (Logger.flush b).0 es

pub run_queue : List Info → List LogEvent → List (List Info)
run_queue q [] = []
run_queue q (added line ∷ es) = run_queue (enqueue q line) es
run_queue q (flushed ∷ es) = q ∷ run_queue [] es

-- Over any sequence of events, the ring hands over what the bounded queue does.
pub run_buffer-refines :
    (b : Logger.LogBuffer) (q : List Info) (es : List LogEvent)
    → IsQueue b q
    → run_buffer b es ≡ run_queue q es
unfolding run_buffer run_queue
run_buffer-refines b q [] v = refl
run_buffer-refines b q (added line ∷ es) v =
    run_buffer-refines (Logger.add_line b line).0 (enqueue q line) es (add_line_lem b q line v).0
run_buffer-refines b q (flushed ∷ es) v =
    rw ((flush_lem b q v).0)
      (ap (λ qs. q ∷ qs) (run_buffer-refines (Logger.flush b).0 [] es (flush_lem b q v).1))

-- Over any sequence of added lines and flushes from the start of the driver, the flushes of the
-- ring hand over what those of a queue do that drops its oldest line when it holds 1024.
pub run_buffer-new : (es : List LogEvent) → run_buffer Logger.new es ≡ run_queue [] es
run_buffer-new es = run_buffer-refines Logger.new [] es new-IsQueue
