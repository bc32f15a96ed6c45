-- ===== src/Pipe/Order.antt =====
-- What a call of pipe.c does to the bytes that a pipe holds, and in which order.
use cpsc.Prelude.{
  ℕ, zero, suc, ◌<◌, ◌≡◌, refl, sym, ap, ◌∙◌, Bool, true, false, not, ◌&&◌, ◌||◌, ◌⊎◌, List, [],
  ◌∷◌, ◌++◌, length, arith, Bool-cases, inl, inr,
}
use Prim.Native.Nat.{min}
use mathlib.Core.List.{append_assoc, append-nil}
use cpsc.Prelude.Int.{pos, negsuc}
use cpsc.Pipe.{
  at_nread, at_nwrite, Pipe, close, Outcome, returns, sleeps, pipesize, full, empty, put, get,
  advance, write_loop, write, copy_out, read,
}
use cpsc.Pipe.Ring.{
  put-IsValid, contents-put, advance-IsValid, contents-get, size, IsValid, contents,
}

abbrev pub pipe_of : {A : Type 0} → Outcome A → Pipe
pipe_of (returns r a p w) = p
pipe_of (sleeps c a p w) = p

abbrev pub left_of : {A : Type 0} → Outcome A → A
left_of (returns r a p w) = a
left_of (sleeps c a p w) = a

-- The call took a front of `bytes`, left the rest to be written, and appended the front.
abbrev pub Wrote : Pipe → List ℕ → Outcome (List ℕ) → Type 0
Wrote p bytes o =
    IsValid (pipe_of o)
    × ((front : List ℕ) × (bytes ≡ front ++ left_of o)
        × (contents (pipe_of o) ≡ contents p ++ front))

-- How a write of `n` bytes may end, and in which pipe.
abbrev pub WriteEnds : ℕ → Bool → Outcome (List ℕ) → Type 0
WriteEnds n killed (returns (pos m) a p w) = (m ≡ n) × (a ≡ []) × (w ≡ at_nread ∷ [])
WriteEnds n killed (returns (negsuc k) a p w) =
    (k ≡ 0) × (full p ≡ true) × ((p.readopen ≡ false) ⊎ (killed ≡ true))
WriteEnds n killed (sleeps c a p w) =
    (c ≡ at_nwrite) × (full p ≡ true) × (p.readopen ≡ true) × (killed ≡ false) × (w ≡ at_nread ∷ [])

write_loop-ends :
    (n : ℕ) (killed : Bool) (p : Pipe) (bytes : List ℕ)
    → WriteEnds n killed (write_loop n killed p bytes)
unfolding write_loop
write_loop-ends n killed p [] = (refl, refl, refl)
write_loop-ends n killed p (c ∷ rest) = elim (Bool-cases (full p)) [
  | inl stop ↦ elim (Bool-cases (not p.readopen || killed)) [
    | inl gone ↦ rw (stop, gone) (refl, stop, ground arith)
    | inr wait ↦ rw (stop, wait) (refl, stop, ground arith, ground arith, refl)
  ]
  | inr room ↦ rw room (write_loop-ends n killed (put p c) rest)
]

write_loop-Wrote :
    (n : ℕ) (killed : Bool) (p : Pipe) (bytes : List ℕ)
    → IsValid p
    → Wrote p bytes (write_loop n killed p bytes)
unfolding write_loop
write_loop-Wrote n killed p [] v = (v, ([], refl, sym (append-nil (contents p))))
write_loop-Wrote n killed p (c ∷ rest) v = elim (Bool-cases (full p)) [
  | inl stop ↦ elim (Bool-cases (not p.readopen || killed)) [
    | inl gone ↦ rw (stop, gone) (v, ([], refl, sym (append-nil (contents p))))
    | inr wait ↦ rw (stop, wait) (v, ([], refl, sym (append-nil (contents p))))
  ]
  | inr room ↦
      let (w, (front, split, kept)) =
        write_loop-Wrote n killed (put p c) rest (put-IsValid v c room).0 in
      rw room (
        w,
        (
          c ∷ front,
          ap (λ l. c ∷ l) split,
          kept
              ∙ ap (λ l. l ++ front) (contents-put v c room)
              ∙ append_assoc (contents p) (c ∷ []) front,
        ),
      )
]

-- A `pipewrite` of bytes, from its start or from where it slept, on a valid pipe leaves a valid
-- pipe: a front of the bytes is appended to what was stored, and the others are left to be
-- written. It returns the count with nothing left, after
-- waking the readers; or -1 with the ring full, and only if the read end is closed or the process
-- killed; or it sleeps with the ring full, the read end open and the process not killed, after
-- waking the readers.
pub write_lem :
    (n : ℕ) (killed : Bool) (p : Pipe) (bytes : List ℕ)
    → IsValid p
    → Wrote p bytes (write n killed p bytes) × WriteEnds n killed (write n killed p bytes)
unfolding write
write_lem n killed p bytes v =
    (write_loop-Wrote n killed p bytes v, write_loop-ends n killed p bytes)

copy_out_lem :
    (k : ℕ) (p : Pipe)
    → IsValid p
    → IsValid (copy_out k p).1
      × (contents p ≡ (copy_out k p).0 ++ contents (copy_out k p).1)
      × (length (copy_out k p).0 ≡ min k (size p))
unfolding copy_out
copy_out_lem zero p v = (v, refl, ground arith)
copy_out_lem (suc k) p v = elim (Bool-cases (empty p)) [
  | inl none_left ↦ rw none_left (v, refl, ground (arith, v))
  | inr more ↦
      let (v', shorter) = advance-IsValid v more in
      let (w, kept, count) = copy_out_lem k (advance p) v' in
      rw more (w, contents-get v more ∙ ap (λ l. get p ∷ l) kept, omega arith)
]

-- How a read of at most `n` bytes from `p` may end.
abbrev pub ReadEnds : ℕ → Bool → Pipe → Outcome (List ℕ) → Type 0
ReadEnds n killed p (returns (pos m) bytes p' w) =
    (m ≡ min n (size p))
    × (length bytes ≡ m)
    × ((0 < size p) ⊎ (p.writeopen ≡ false))
    × (w ≡ at_nwrite ∷ [])
ReadEnds n killed p (returns (negsuc k) bytes p' w) =
    (k ≡ 0) × (size p ≡ 0) × (p.writeopen ≡ true) × (killed ≡ true)
ReadEnds n killed p (sleeps c bytes p' w) =
    (c ≡ at_nread) × (size p ≡ 0) × (p.writeopen ≡ true) × (killed ≡ false)

-- A `piperead` of at most `n` bytes on a valid pipe leaves a valid pipe and hands out the oldest
-- bytes: they and the new contents make up the old contents. It returns the lesser of `n` and the
-- bytes stored, after waking the writers, if something is stored or the write end is closed;
-- else -1 if the process is killed, and else it sleeps.
pub read_lem :
    (n : ℕ) (killed : Bool) (p : Pipe)
    → IsValid p
    → IsValid (pipe_of (read n killed p))
      × (contents p ≡ left_of (read n killed p) ++ contents (pipe_of (read n killed p)))
      × ReadEnds n killed p (read n killed p)
unfolding read
read_lem n killed p v =
    let (w, kept, count) = copy_out_lem n p v in
    elim (Bool-cases (empty p && p.writeopen)) [
      | inl idle ↦ elim (Bool-cases killed) [
        | inl dead ↦ rw (idle, dead) (v, refl, (refl, ground (arith, v), ground arith, refl))
        | inr alive ↦ rw (idle, alive) (v, refl, (refl, ground (arith, v), ground arith, refl))
      ]
      | inr busy ↦ rw busy (w, kept, (count, refl, ground (arith, v), refl))
    ]

-- Closing an end keeps the bytes stored.
pub close_keeps :
    (p : Pipe) (writable : Bool)
    → IsValid p
    → IsValid (close p writable).0 × (contents (close p writable).0 ≡ contents p)
unfolding close contents
close_keeps p true v =
    (record { nread_u32 = v.nread_u32; nwrite_u32 = v.nwrite_u32; fits = v.fits }, refl)
close_keeps p false v =
    (record { nread_u32 = v.nread_u32; nwrite_u32 = v.nwrite_u32; fits = v.fits }, refl)

-- Of a pipe with both ends open, the first `pipeclose`, of either end, does not free the page and
-- the second, of the other end, does; each wakes the sleepers at the other end.
close_frees_last :
    (p : Pipe) (writable : Bool)
    → p.readopen ≡ true
    → p.writeopen ≡ true
    → ((close p writable).2 ≡ false)
      × ((close (close p writable).0 (not writable)).2 ≡ true)
      × ((close p true).1 ≡ at_nread)
      × ((close p false).1 ≡ at_nwrite)
unfolding close
close_frees_last p true r w = (rw r, refl, refl, refl)
close_frees_last p false r w = (rw w, refl, refl, refl)

read-full :
    (n : ℕ) (killed : Bool) (p : Pipe)
    → IsValid p
    → full p ≡ true
    → (size p ≡ pipesize)
      × (read n killed p
          ≡ returns
              (pos (length (copy_out n p).0))
              (copy_out n p).0
              (copy_out n p).1
              (at_nwrite ∷ []))
unfolding read
read-full n killed p v h = (ground (arith, v), rw occupied)
  where
    occupied : (empty p && p.writeopen) ≡ false
    occupied = ground (arith, v)
