-- ===== src/Fs.antt =====
-- fs.c over the contents of the blocks, as the buffers show them to the running transaction: `bread`
-- finds the contents, and a change that is followed by `log_write` is a change of them. `none` is a
-- panic.
pub mod Bits
pub mod Alloc
pub mod FreeMap
mod Tests
use cpsc.Prelude.{
  ℕ, zero, suc, ◌+◌, ◌-◌, ◌*◌, ◌/◌, ◌%◌, ◌^◌, Bool, true, false, not, ◌&&◌, ◌||◌, Option, none,
  some, ◌==◌, ltb, leb, if◌then◌else◌, update, ◌>>=◌,
}

abbrev pub bsize : ℕ
bsize = 512

-- Bits of the free map in a block.
abbrev pub bpb : ℕ
bpb = 4096

-- The bytes of a block.
abbrev pub Block : Type 0
Block = ℕ → ℕ

-- `struct superblock`.
pub record Super : Type 0 where
  pub size : ℕ
  pub nblocks : ℕ
  pub ninodes : ℕ
  pub nlog : ℕ
  pub logstart : ℕ
  pub inodestart : ℕ
  pub bmapstart : ℕ

abbrev pub Blocks : Type 0
Blocks = ℕ → Block

-- `BBLOCK`.
abbrev pub bblock : ℕ → Super → ℕ
bblock b sb = b / bpb + sb.bmapstart

-- The bit `k` of a byte.
unfoldable pub bit : ℕ → ℕ → ℕ
bit v zero = v % 2
bit v (suc k) = bit (v / 2) k

-- The test of the bit `bi` of a block, and `|=` and `&= ~` of a bit that is clear, or set.
unfoldable pub get_bit : Block → ℕ → Bool
get_bit d bi = bit (d (bi / 8)) (bi % 8) == 1

unfoldable pub set_bit : Block → ℕ → Block
set_bit d bi = update d (bi / 8) (d (bi / 8) + 2 ^ (bi % 8))

unfoldable pub clear_bit : Block → ℕ → Block
clear_bit d bi = update d (bi / 8) (d (bi / 8) - 2 ^ (bi % 8))

unfoldable pub bzero : ℕ → Blocks → Blocks
bzero bno d = update d bno (λ i. if ltb i bsize then 0 else d bno i)

-- The inner loop of `balloc`, `k` rounds from its end: the first clear bit.
unfoldable pub find_bit : ℕ → ℕ → ℕ → ℕ → Block → Option ℕ
find_bit zero bi b size d = none
find_bit (suc k) bi b size d =
    let rest = find_bit k (suc bi) b size d in
    if ltb (b + bi) size then (if get_bit d bi then rest else some bi) else none

abbrev pub taken : ℕ → Super → Option ℕ → Blocks → Option (ℕ × Blocks) → Option (ℕ × Blocks)
taken b sb none d rest = rest
taken b sb (some bi) d rest =
    some (b + bi, bzero (b + bi) (update d (bblock b sb) (set_bit (d (bblock b sb)) bi)))

-- The outer loop of `balloc`, in at most `k` rounds.
unfoldable pub balloc_from : ℕ → ℕ → Super → Blocks → Option (ℕ × Blocks)
balloc_from zero b sb d = none
balloc_from (suc k) b sb d =
    let rest = balloc_from k (b + bpb) sb d in
    if ltb b sb.size then taken b sb (find_bit bpb 0 b sb.size (d (bblock b sb))) d rest else none

unfoldable pub balloc : Super → Blocks → Option (ℕ × Blocks)
balloc sb d = balloc_from (sb.size / bpb + 1) 0 sb d

-- `bfree` with the super block that `readsb` finds.
unfoldable pub bfree : ℕ → Super → Blocks → Option Blocks
bfree b sb d =
    let a = bblock b sb in
    if get_bit (d a) (b % bpb) then some (update d a (clear_bit (d a) (b % bpb))) else none
