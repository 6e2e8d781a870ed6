-- ===== src/Device/Stream.antt =====
-- User space reads every record whole and in order, however the reads divide the stream.
use Prim.Native.Nat.{ℕ, zero, suc, ◌≤◌, ◌<◌}
use mathlib.Core.Path.{◌≡◌, refl, ◌∙◌, sym, ap}
use mathlib.Core.Logic.{inl, inr}
use mathlib.Core.Bool.{Bool, true, false}
use mathlib.Core.List.{List, [], ◌∷◌, ◌++◌}
use mathlib.Core.Option.{none, some}
use native.Mathlib.Omega.{arith}
use windows_kext_mod.Prelude.Tests.{ltb, if◌then◌else◌, Bool-cases}
use windows_kext_mod.Prelude.Lists.Append.{append_nil, append_assoc}
use windows_kext_mod.Prelude.Lists.{length, take, drop, length-append}
use windows_kext_mod.ArrayHolder.{ArrayHolder, save, load}
use windows_kext_mod.Device.Read.{
  Reading, ReadResult, Wait, ready, timed_out, was_cancelled, run_down, write, write_buffer, fill,
  read_next, read, free_space,
}

abbrev pub held : ArrayHolder → List ℕ
held none = []
held (some bytes) = bytes

pub concat : List (List ℕ) → List ℕ
concat [] = []
concat (bytes ∷ queue) = bytes ++ concat queue

-- A part of the bytes, and what is left of them if anything is.
abbrev left : List ℕ → ℕ → ArrayHolder
left bytes n = if ltb n (length bytes) then some (drop n bytes) else none

ltb-suc : (a b : ℕ) → ltb (suc a) (suc b) ≡ ltb a b
ltb-suc a b = ground arith

take-left :
    (n : ℕ) (bytes : List ℕ) → take n bytes ++ held (left bytes (length (take n bytes))) ≡ bytes
take-left zero [] = refl
take-left zero (x ∷ bytes) = ground arith
take-left (suc n) [] = refl
take-left (suc n) (x ∷ bytes) =
    rw (ltb-suc (length (take n bytes)) (length bytes)) (ap (λ ws. x ∷ ws) (take-left n bytes))

length-take-le : (n : ℕ) (bytes : List ℕ) → length (take n bytes) ≤ n
length-take-le zero bytes = omega arith
length-take-le (suc n) [] = omega arith
length-take-le (suc n) (x ∷ bytes) = omega (arith, length-take-le n bytes)

-- A fragment is held only once the buffer is full.
abbrev IsFull : ℕ → Reading → Type 0
IsFull buffer_len r =
    (length r.written ≤ buffer_len) × (ltb (length r.written) buffer_len ≡ true → r.holder ≡ none)

short_take :
    (n : ℕ) (bytes : List ℕ)
    → length (take n bytes) < n
    → ltb (length (take n bytes)) (length bytes) ≡ false
short_take zero bytes h = absurd (omega (arith, h))
short_take (suc n) [] h = refl
short_take (suc n) (x ∷ bytes) h = ground (arith, short_take n bytes)

write_buffer_lem :
    (buffer_len : ℕ) (r : Reading) (bytes : List ℕ)
    → r.holder ≡ none
    → (write_buffer buffer_len r bytes).written ++ held (write_buffer buffer_len r bytes).holder
      ≡ r.written ++ bytes
unfolding write_buffer write save
write_buffer_lem buffer_len r bytes free =
    let room = free_space buffer_len r.written in
    rw free (
      append_assoc r.written (take room bytes) (held (left bytes (length (take room bytes))))
      ∙ ap (λ ws. r.written ++ ws) (take-left room bytes))

write_buffer-IsFull :
    (buffer_len : ℕ) (r : Reading) (bytes : List ℕ)
    → length r.written ≤ buffer_len
    → r.holder ≡ none
    → IsFull buffer_len (write_buffer buffer_len r bytes)
unfolding write_buffer write save
write_buffer-IsFull buffer_len r bytes h free =
    let room = free_space buffer_len r.written in
    let sum = length-append r.written (take room bytes) in
    (
      omega (arith, h, sum, length-take-le room bytes),
      λ more. ground (arith, free, sum, h, more, short_take room bytes),
    )

fill_lem :
    (buffer_len : ℕ) (r : Reading) (queue : List (List ℕ))
    → IsFull buffer_len r
    → ((fill buffer_len r queue).0.written
          ++ (held (fill buffer_len r queue).0.holder ++ concat (fill buffer_len r queue).1)
        ≡ r.written ++ (held r.holder ++ concat queue))
      × (length (fill buffer_len r queue).0.written ≤ buffer_len)
unfolding fill concat
fill_lem buffer_len r [] f = (refl, f.0)
fill_lem buffer_len r (bytes ∷ queue) f =
    elim (Bool-cases (ltb 5 (free_space buffer_len r.written))) [
      | inr full ↦ rw (full, fill) (refl, f.0)
      | inl room ↦
          let free : r.holder ≡ none = f.1 (ground (arith, room)) in
          let next = write_buffer buffer_len r bytes in
          let rest =
            fill_lem buffer_len next queue (write_buffer-IsFull buffer_len r bytes f.0 free) in
          rw (room, fill)
            (
              rest.0
                  ∙ (sym (append_assoc next.written (held next.holder) (concat queue))
                      ∙ (ap (λ ws. ws ++ concat queue) (write_buffer_lem buffer_len r bytes free)
                          ∙ (append_assoc r.written bytes (concat queue)
                              ∙ ap (λ h. r.written ++ (held h ++ concat (bytes ∷ queue)))
                                  (sym free)))),
              rest.1,
            )
    ]

-- What is still to be read: the held fragment, then the records of the queue.
abbrev pub unread : ArrayHolder → List (List ℕ) → List ℕ
unread holder queue = held holder ++ concat queue

abbrev empty : Reading
empty = record { written = []; holder = none }

empty-IsFull : (buffer_len : ℕ) → IsFull buffer_len empty
empty-IsFull buffer_len = (omega arith, λ more. refl)

-- A read that starts with a record or a fragment.
first_lem :
    (buffer_len : ℕ) (bytes : List ℕ) (queue : List (List ℕ))
    → ((fill buffer_len (write_buffer buffer_len empty bytes) queue).0.written
          ++ unread
              (fill buffer_len (write_buffer buffer_len empty bytes) queue).0.holder
              (fill buffer_len (write_buffer buffer_len empty bytes) queue).1
        ≡ bytes ++ concat queue)
      × (length (fill buffer_len (write_buffer buffer_len empty bytes) queue).0.written
          ≤ buffer_len)
first_lem buffer_len bytes queue =
    let next = write_buffer buffer_len empty bytes in
    let rest =
      fill_lem buffer_len next queue
        (write_buffer-IsFull buffer_len empty bytes (omega arith) refl) in
    (
      rest.0
          ∙ (sym (append_assoc next.written (held next.holder) (concat queue))
              ∙ ap (λ ws. ws ++ concat queue) (write_buffer_lem buffer_len empty bytes refl)),
      rest.1,
    )

-- One read delivers the beginning of what was to be read, keeps the rest, and fits its buffer.
pub read_lem :
    (locked : Bool) (buffer_len : ℕ) (wait : Wait) (holder : ArrayHolder) (queue : List (List ℕ))
    → ((read locked buffer_len wait holder queue).delivered
          ++ unread
              (read locked buffer_len wait holder queue).holder
              (read locked buffer_len wait holder queue).queue
        ≡ unread holder queue)
      × (length (read locked buffer_len wait holder queue).delivered ≤ buffer_len)
unfolding read read_next load concat
read_lem false n wait holder queue = (refl, omega arith)
read_lem true n wait (some bytes) queue = first_lem n bytes queue
read_lem true n timed_out none queue = (refl, omega arith)
read_lem true n was_cancelled none queue = (refl, omega arith)
read_lem true n run_down none queue = (refl, omega arith)
read_lem true n ready none [] = (refl, omega arith)
read_lem true n ready none (bytes ∷ queue) = first_lem n bytes queue

-- A read request, before which records may have arrived at the end of the queue.
pub record Request : Type 0 where
  pub arrived : List (List ℕ)
  pub locked : Bool
  pub buffer_len : ℕ
  pub wait : Wait

abbrev pub step : ArrayHolder × List (List ℕ) → Request → ReadResult
step s q = read q.locked q.buffer_len q.wait s.0 (s.1 ++ q.arrived)

-- What a sequence of reads delivers, and the state after it.
unfoldable pub run :
    ArrayHolder × List (List ℕ) → List Request → List ℕ × (ArrayHolder × List (List ℕ))
run s [] = ([], s)
run s (q ∷ qs) =
    let r = step s q in let rest = run (r.holder, r.queue) qs in (r.delivered ++ rest.0, rest.1)

pub all_arrived : List Request → List ℕ
all_arrived [] = []
all_arrived (q ∷ qs) = concat q.arrived ++ all_arrived qs

concat-append : (xs ys : List (List ℕ)) → concat (xs ++ ys) ≡ concat xs ++ concat ys
unfolding concat
concat-append [] ys = refl
concat-append (x ∷ xs) ys =
    ap (λ ws. x ++ ws) (concat-append xs ys) ∙ sym (append_assoc x (concat xs) (concat ys))

unread-append :
    (s : ArrayHolder × List (List ℕ)) (arrived : List (List ℕ)) (later : List ℕ)
    → unread s.0 (s.1 ++ arrived) ++ later ≡ unread s.0 s.1 ++ (concat arrived ++ later)
unread-append s arrived later =
    ap (λ ws. ws ++ later)
      (ap (λ ws. held s.0 ++ ws) (concat-append s.1 arrived)
        ∙ sym (append_assoc (held s.0) (concat s.1) (concat arrived)))
    ∙ append_assoc (unread s.0 s.1) (concat arrived) later

-- Over any sequence of reads, what they deliver and what is still to be read is what was to be
-- read and the records that arrived, whole and in order, wherever the buffers divide them.
pub run-stream :
    (s : ArrayHolder × List (List ℕ)) (qs : List Request)
    → (run s qs).0 ++ unread (run s qs).1.0 (run s qs).1.1 ≡ unread s.0 s.1 ++ all_arrived qs
unfolding run all_arrived
run-stream s [] = sym (append_nil (unread s.0 s.1))
run-stream s (q ∷ qs) =
    let r = step s q in
    let rest = run (r.holder, r.queue) qs in
    append_assoc r.delivered rest.0 (unread rest.1.0 rest.1.1)
    ∙ (ap (λ ws. r.delivered ++ ws) (run-stream (r.holder, r.queue) qs)
        ∙ (sym (append_assoc r.delivered (unread r.holder r.queue) (all_arrived qs))
            ∙ (ap (λ ws. ws ++ all_arrived qs)
                  (read_lem q.locked q.buffer_len q.wait s.0 (s.1 ++ q.arrived)).0
                ∙ unread-append s q.arrived (all_arrived qs))))
