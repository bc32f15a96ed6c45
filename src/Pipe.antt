-- ===== src/Pipe.antt =====
-- pipe.c: a ring of 512 bytes between two open ends, with counters that wrap at 2 ^ 32.
-- A call that has to sleep returns with what it still has to do; it goes on with that, in the pipe
-- as it is then, when it is woken.
pub mod Ring
pub mod Order
pub mod Schedule
mod Tests
use cpsc.Prelude.{
  ℕ, ◌+◌, ◌%◌, ◌^◌, Bool, true, false, not, ◌&&◌, ◌||◌, List, [], ◌∷◌, ◌==◌, if◌then◌else◌, update,
  zero, suc, length,
}
use cpsc.Prelude.Int.{ℤ, pos, minus_one}

abbrev pub pipesize : ℕ
pipesize = 512

-- `struct pipe` less its lock. An index of `data` is below `pipesize`.
pub record Pipe : Type 0 where
  pub buffer : ℕ → ℕ
  pub nread : ℕ
  pub nwrite : ℕ
  pub readopen : Bool
  pub writeopen : Bool

-- The channels on which a pipe's users sleep.
pub data Channel : Type 0 where
  at_nread at_nwrite : Channel

-- `uint` addition.
abbrev pub add32 : ℕ → ℕ → ℕ
add32 a b = (a + b) % 2 ^ 32

-- What `pipealloc` stores in a page from `kalloc`, whose bytes are left as they are.
unfoldable pub init : (ℕ → ℕ) → Pipe
init bytes = record { buffer = bytes; nread = 0; nwrite = 0; readopen = true; writeopen = true }

-- The outcome of a call up to its return or to its next sleep.
pub data Outcome (A : Type 0) : Type 0 where
  returns : ℤ → A → Pipe → List Channel → Outcome A
  sleeps : Channel → A → Pipe → List Channel → Outcome A

-- `pipeclose`: the new pipe, the channel woken, and whether the page is freed.
unfoldable pub close : Pipe → Bool → Pipe × Channel × Bool
close p writable =
    let p' = if writable then record p { writeopen = false } else record p { readopen = false } in
    (p', if writable then at_nread else at_nwrite, not p'.readopen && not p'.writeopen)

abbrev pub full : Pipe → Bool
full p = p.nwrite == add32 p.nread pipesize

abbrev pub empty : Pipe → Bool
empty p = p.nread == p.nwrite

-- `p->data[p->nwrite++ % PIPESIZE] = c`
abbrev pub put : Pipe → ℕ → Pipe
put p c = record p { buffer = update p.buffer (p.nwrite % pipesize) c; nwrite = add32 p.nwrite 1 }

-- The loop of `pipewrite`: `rest` is `addr[i..n)`, `n` the count to return, and `woken` the
-- wake-ups of this call. `killed` is `proc->killed`.
write_loop : ℕ → Bool → Pipe → List ℕ → Outcome (List ℕ)
write_loop n killed p [] = returns (pos n) [] p (at_nread ∷ [])
write_loop n killed p (c ∷ rest) =
    let next = write_loop n killed (put p c) rest in
    if full p
    then (if not p.readopen || killed
        then returns minus_one (c ∷ rest) p []
        else sleeps at_nwrite (c ∷ rest) p (at_nread ∷ []))
    else next

-- `pipewrite` from its start, or from where it slept: the bytes not yet written are the argument.
unfoldable pub write : ℕ → Bool → Pipe → List ℕ → Outcome (List ℕ)
unfolding write_loop
write n killed p rest = write_loop n killed p rest

-- `addr[i] = p->data[p->nread++ % PIPESIZE]`
abbrev pub get : Pipe → ℕ
get p = p.buffer (p.nread % pipesize)

abbrev pub advance : Pipe → Pipe
advance p = record p { nread = add32 p.nread 1 }

-- The copying loop of `piperead`, `k` rounds from its end: the bytes copied and the pipe.
unfoldable pub copy_out : ℕ → Pipe → List ℕ × Pipe
copy_out zero p = ([], p)
copy_out (suc k) p =
    let rest = copy_out k (advance p) in if empty p then ([], p) else (get p ∷ rest.0, rest.1)

-- `piperead` of at most `n` bytes, from its start or from where it slept. The bytes returned are
-- those stored through `addr`, and their number is the result.
unfoldable pub read : ℕ → Bool → Pipe → Outcome (List ℕ)
read n killed p =
    if empty p && p.writeopen
    then (if killed then returns minus_one [] p [] else sleeps at_nread [] p [])
    else (let (bytes, p') = copy_out n p in returns (pos (length bytes)) bytes p' (at_nwrite ∷ []))
