-- ===== src/Buffers.antt =====
-- bio.c: the buffers in a circle through `prev` and `next`, most recently used first. A pointer is the
-- index of a buffer, and the index 30 is the head. `none` is a panic.
pub mod Circle
pub mod Cache
pub mod Refine
pub mod Release
pub mod Start
mod Tests
use cpsc.Prelude.{
  ℕ, zero, suc, ◌+◌, ◌-◌, ◌≡◌, Bool, true, false, not, ◌&&◌, ◌||◌, Option, none, some, ◌==◌,
  if◌then◌else◌, update, ◌>>=◌,
}

abbrev pub nbuf : ℕ
nbuf = 30

-- `&bcache.head`.
abbrev pub head : ℕ
head = 30

-- `struct buf` less the queue of the disk driver and the contents; the flags are apart.
pub record Buf : Type 0 where
  pub busy : Bool
  pub valid : Bool
  pub dirty : Bool
  pub dev : ℕ
  pub blockno : ℕ
  pub prev : ℕ
  pub next : ℕ

abbrev pub Cache : Type 0
Cache = ℕ → Buf

abbrev pub set_prev : ℕ → ℕ → Cache → Cache
set_prev b p c = update c b (record (c b) { prev = p })

abbrev pub set_next : ℕ → ℕ → Cache → Cache
set_next b n c = update c b (record (c b) { next = n })

-- The pointers of a removal, and of an insertion at the head.
unfoldable pub unlinked : ℕ → Cache → Cache
unlinked b c = let c1 = set_prev (c b).next (c b).prev c in set_next (c1 b).prev (c1 b).next c1

unfoldable pub linked : ℕ → Cache → Cache
linked b c =
    let c1 = set_next b (c head).next c in
    let c2 = set_prev b head c1 in let c3 = set_prev (c2 head).next b c2 in set_next head b c3

-- The loop of `binit`, `k` rounds from its end. A device of -1 is 2 ^ 32 - 1.
unfoldable pub insert_all : ℕ → ℕ → Cache → Cache
insert_all zero b c = c
insert_all (suc k) b c =
    insert_all k (suc b) (linked b (update c b (record (c b) { dev = 4294967295 })))

unfoldable pub binit : Cache → Cache
binit c = insert_all nbuf 0 (set_next head head (set_prev head head c))

-- The search of `bget` along `next`, in at most `fuel` steps; `none` is the end of the circle.
unfoldable pub find_block : ℕ → ℕ → ℕ → ℕ → Cache → Option ℕ
find_block zero dev blockno b c = none
find_block (suc fuel) dev blockno b c =
    let rest = find_block fuel dev blockno (c b).next c in
    if b == head
    then none
    else (if (c b).dev == dev && (c b).blockno == blockno then some b else rest)

-- The search along `prev` for a buffer to recycle.
unfoldable pub find_clean : ℕ → ℕ → Cache → Option ℕ
find_clean zero b c = none
find_clean (suc fuel) b c =
    let rest = find_clean fuel (c b).prev c in
    if b == head then none else (if not (c b).busy && not (c b).dirty then some b else rest)

-- What `bget` does at one look: it sleeps on a busy buffer, or returns one.
pub data Got : Type 0 where
  sleeps_on : ℕ → Got
  got : ℕ → Cache → Got

abbrev pub found : Option ℕ → Cache → Option Got
found none c = none
found (some b) c =
    some (if (c b).busy then sleeps_on b else got b (update c b (record (c b) { busy = true })))

abbrev pub recycled : ℕ → ℕ → Option ℕ → Cache → Option Got
recycled dev blockno none c = none
recycled dev blockno (some b) c = some (
    got b (
      update c b
        (record (c b) { dev = dev; blockno = blockno; busy = true; valid = false; dirty = false })))

abbrev pub or_else : {A : Type 0} → Option A → Option A → Option A
or_else none o = o
or_else (some a) o = some a

unfoldable pub bget : ℕ → ℕ → Cache → Option Got
bget dev blockno c =
    or_else (found (find_block (nbuf + 1) dev blockno (c head).next c) c)
      (recycled dev blockno (find_clean (nbuf + 1) (c head).prev c) c)

-- `brelse`, but for the `wakeup` of those that sleep on the buffer.
unfoldable pub brelse : ℕ → Cache → Option Cache
brelse b c =
    let c' = linked b (unlinked b c) in
    if (c b).busy then some (update c' b (record (c' b) { busy = false })) else none
