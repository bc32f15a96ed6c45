-- ===== src/Pipe/Schedule.antt =====
-- A pipe over any sequence of partial writes, reads and closes by processes that share it.
use cpsc.Prelude.{
  ℕ, ◌-◌, ◌≡◌, refl, ap, sym, ◌∙◌, Bool, List, [], ◌∷◌, ◌++◌, length, length-append, take, arith,
}
use mathlib.Core.List.{append_assoc}
use cpsc.Pipe.{Pipe, close, write, read}
use cpsc.Pipe.Ring.{IsValid, contents}
use cpsc.Pipe.Order.{pipe_of, left_of, write_lem, read_lem, close_keeps}

-- One uninterrupted stretch of a call: from its start, or from where it slept.
pub data Turn : Type 0 where
  writes : (n : ℕ) (killed : Bool) (bytes : List ℕ) → Turn
  reads : (n : ℕ) (killed : Bool) → Turn
  closes : (writable : Bool) → Turn

-- The bytes taken from the writers and those handed to the readers, so far.
pub record History : Type 0 where
  pub pipe : Pipe
  pub sent : List ℕ
  pub received : List ℕ

-- The front of `bytes` that is no longer left to write.
accepted : List ℕ → List ℕ → List ℕ
accepted bytes left = take (length bytes - length left) bytes

unfoldable pub turn : History → Turn → History
unfolding accepted
turn h (writes n killed bytes) =
    let o = write n killed h.pipe bytes in
    record h { pipe = pipe_of o; sent = h.sent ++ accepted bytes (left_of o) }
turn h (reads n killed) =
    let o = read n killed h.pipe in
    record h { pipe = pipe_of o; received = h.received ++ left_of o }
turn h (closes writable) = record h { pipe = (close h.pipe writable).0 }

unfoldable pub run : History → List Turn → History
run h [] = h
run h (t ∷ ts) = run (turn h t) ts

-- What was sent is what was received and then what is stored.
pub record InOrder (h : History) : Type 0 where
  pub valid : IsValid h.pipe
  pub order : h.sent ≡ h.received ++ contents h.pipe

take-length : (front left : List ℕ) → take (length front) (front ++ left) ≡ front
take-length [] left = refl
take-length (x ∷ front) left = ap (λ l. x ∷ l) (take-length front left)

take-front :
    (front left : List ℕ) → take (length (front ++ left) - length left) (front ++ left) ≡ front
take-front front left = rw count (take-length front left)
  where
    count : length (front ++ left) - length left ≡ length front
    count = omega (arith, length-append front left)

accepted_front : (bytes front left : List ℕ) → bytes ≡ front ++ left → accepted bytes left ≡ front
unfolding accepted
accepted_front bytes front left e = rw e (take-front front left)

turn-InOrder : (h : History) (t : Turn) → InOrder h → InOrder (turn h t)
unfolding turn
turn-InOrder h (writes n killed bytes) v =
    let ((w, (front, split, kept)), ends) = write_lem n killed h.pipe bytes v.valid in
    record {
      valid = w;
      order =
          ap (λ l. l ++ accepted bytes (left_of (write n killed h.pipe bytes))) v.order
          ∙ append_assoc h.received (contents h.pipe) _
          ∙ ap (λ l. h.received ++ l)
              (ap (λ l. contents h.pipe ++ l) (accepted_front bytes front _ split) ∙ sym kept);
    }
turn-InOrder h (reads n killed) v =
    let (w, kept, ends) = read_lem n killed h.pipe v.valid in
    record {
      valid = w;
      order = v.order ∙ ap (λ l. h.received ++ l) kept ∙ sym (append_assoc h.received _ _);
    }
turn-InOrder h (closes writable) v =
    let (w, kept) = close_keeps h.pipe writable v.valid in
    record { valid = w; order = v.order ∙ ap (λ l. h.received ++ l) (sym kept) }

-- Whatever stretches of writes, reads and closes run on a pipe, in whatever order, the bytes that
-- the readers were handed, followed by those still stored, are the bytes taken from the writers,
-- in the order in which they were taken; and the pipe stays valid.
pub run-InOrder : (h : History) (ts : List Turn) → InOrder h → InOrder (run h ts)
unfolding run
run-InOrder h [] v = v
run-InOrder h (t ∷ ts) v = run-InOrder (turn h t) ts (turn-InOrder h t v)
