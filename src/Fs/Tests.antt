-- ===== src/Fs/Tests.antt =====
-- Tests of the file system, and its theorems at a concrete input.
use cpsc.Prelude.{
  ℕ, ◌<◌, ◌≡◌, refl, ap, Option, none, some, ◌==◌, if◌then◌else◌, update, ◌>>=◌, arith,
}
use cpsc.Fs.{
  Super, Blocks, bblock, bit, get_bit, set_bit, bzero, find_bit, balloc_from, balloc, bfree,
}
use cpsc.Fs.Alloc.{in_use}
use cpsc.Fs.FreeMap.{MapInUse, BallocEnds, balloc_lem, BfreeEnds, bfree_lem}

-- Eight blocks, and the map of them in block 2: the first five are in use.
abbrev small : Super
small = record {
  size = 8;
  nblocks = 3;
  ninodes = 8;
  nlog = 0;
  logstart = 0;
  inodestart = 1;
  bmapstart = 2;
}

abbrev disk : Blocks
disk b i = if b == 2 then (if i == 0 then 31 else 0) else 7

small_map : (x : ℕ) → x < small.size → bblock x small ≡ 2
small_map x lt = omega arith

disk-MapInUse : MapInUse small disk
unfolding get_bit bit
disk-MapInUse x lt = ap (in_use small disk) (small_map x lt)

given : Option (ℕ × ℕ)
given = balloc small disk >>= λ p. some (p.0, p.1 2 0)

given_test : given ≡ some (5, 63)
unfolding given balloc balloc_from find_bit get_bit bit set_bit bzero
given_test = refl

full_test : bfree 6 small disk ≡ none
unfolding bfree get_bit bit
full_test = refl

balloc_lem_example : BallocEnds small disk (balloc small disk)
balloc_lem_example = balloc_lem small disk disk-MapInUse

bfree_lem_example : BfreeEnds 4 small disk (bfree 4 small disk)
bfree_lem_example = bfree_lem 4 small disk

disk_after : Blocks
disk_after = bzero 5 (update disk 2 (set_bit (disk 2) 5))

given_block : balloc small disk ≡ some (5, disk_after)
unfolding balloc balloc_from find_bit get_bit bit disk_after
given_block = refl
