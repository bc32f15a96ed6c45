-- ===== src/Content/Tests.antt =====
-- Tests of the content of an inode, and its theorem at a concrete input.
use cpsc.Prelude.{
  ◌%◌, ◌∷◌, ◌||◌, ◌^◌, leb, [], zero, suc, ◌+◌, ◌*◌, none, ltb, ℕ, ◌<◌, ◌≡◌, refl, ap, true, Option,
  some, ◌==◌, if◌then◌else◌, ◌>>=◌, arith,
}
use cpsc.Fs.{Super, bsize, bblock, balloc, balloc_from, find_bit, get_bit, set_bit, bit, bzero}
use cpsc.Fs.Alloc.{in_use}
use cpsc.Inodes.{Store, word, iupdate}
use cpsc.Content.Layout.{address, IsLaid}
use cpsc.Content.Writing.{Written}
use cpsc.Content.Growth.{Resized, writei_lem}
use cpsc.Content.RoundTrip.{readi-writei}
use cpsc.Prelude.Int.{ℤ, pos, minus_one}
use cpsc.Content.Reading.{HasBlocks, readable, bytes_at, readi_lem}
use cpsc.Content.{
  writei, write_loop, readi, read_loop, slice, bmap, addr_block, word_block, set_word,
}
use cpsc.Content.Stable.{IsSound, BmapEnds, bmap_lem}

-- Eight blocks, of which the first five are in use, and an empty inode.
abbrev super : Super
super = record {
  size = 8;
  nblocks = 3;
  ninodes = 8;
  nlog = 0;
  logstart = 0;
  inodestart = 1;
  bmapstart = 2;
}

abbrev store : Store
store = record {
  icache = λ i. record {
    dev = 1;
    inum = 7;
    ref = 1;
    busy = true;
    valid = true;
    type = 2;
    major = 0;
    minor = 0;
    nlink = 1;
    size = 0;
    addrs = λ a. 0;
  };
  dinodes = λ d n. record { type = 2; major = 0; minor = 0; nlink = 1; size = 0; addrs = λ a. 0 };
  blocks = λ b i. if b == 2 then (if i == 0 then 31 else 0) else 7;
}

map_block : (x : ℕ) → x < super.size → bblock x super ≡ 2
map_block x lt = omega arith

store-IsSound : IsSound super store.blocks
unfolding get_bit bit
store-IsSound = record {
  nonempty = omega arith;
  fits = omega arith;
  on_disk = λ x lt. omega (arith, map_block x lt);
  map = λ x lt. ap (in_use super store.blocks) (map_block x lt);
  boot = refl;
}

-- Block 20 of the inode wants block 5 for the addresses and then block 6.
mapped : Option (ℕ × ℕ)
mapped = bmap super 0 20 store >>= λ r. some (r.0, word r.1.blocks 5 8)

mapped_test : mapped ≡ some (6, 6)
unfolding mapped bmap addr_block word_block set_word word balloc balloc_from find_bit get_bit
    set_bit bit bzero
mapped_test = refl

bmap_lem_example : BmapEnds super 0 20 store (bmap super 0 20 store)
bmap_lem_example = bmap_lem super 0 20 store store-IsSound

-- A file of 600 bytes in blocks 5 and 6.
abbrev file : Store
file = record store {
  icache = λ i. record (store.icache i) {
    size = 600;
    addrs = λ a. if a == 0 then 5 else (if a == 1 then 6 else 0);
  };
  blocks = λ b i. b * 10 + i % 10;
}

abbrev file_addr : ℕ → ℕ
file_addr q = q + 5

file-HasBlocks : HasBlocks super 0 file file_addr
unfolding bmap addr_block
file-HasBlocks zero lt = refl
file-HasBlocks (suc zero) lt = refl
file-HasBlocks (suc (suc q)) lt = absurd (omega arith)

across : readi (λ d. none) super 0 511 2 file ≡ some (pos 2, 51 ∷ 60 ∷ [], file)
unfolding readi read_loop slice bmap addr_block
across = refl

readi_lem_example : readi (λ d. none) super 0 511 2 file ≡ (
    if ltb 600 511 || leb (2 ^ 32) (511 + 2)
    then some (minus_one, [], file)
    else some
        (pos (readable 600 511 2), bytes_at (readable 600 511 2) 511 file_addr file.blocks, file))
readi_lem_example =
    readi_lem (λ d. none) super 0 511 2 file file_addr (omega arith) (omega arith) (omega arith)
      (omega arith) file-HasBlocks

-- Both blocks of the file are its own, up to byte 1024.
file-IsLaid : IsLaid (file.icache 0).addrs file.blocks 1024 file_addr
file-IsLaid = record {
  fits = omega arith;
  there = there;
  nonzero = λ q lt. omega arith;
  indirect = λ lt. absurd (omega arith);
  apart = λ q lt. omega arith;
  distinct = λ q r lq lr e. omega (arith, e);
}
  where
    there : (q : ℕ) → bsize * q < 1024 → address (file.icache 0).addrs file.blocks q ≡ file_addr q
    there zero lt = refl
    there (suc zero) lt = refl
    there (suc (suc q)) lt = absurd (omega arith)

-- Three bytes over the end of the file.
abbrev letters : ℕ → ℕ
letters j = 100 + j

size_and_byte : Option (ℤ × Store) → Option (ℕ × ℕ)
size_and_byte none = none
size_and_byte (some (x, s)) = some ((s.icache 0).size, s.blocks 6 89)

grows : size_and_byte (writei (λ d. none) super 0 letters 599 3 file) ≡ some (602, 102)
unfolding size_and_byte writei write_loop bmap addr_block iupdate
grows = refl

too_far : writei (λ d. none) super 0 letters 601 3 file ≡ some (minus_one, file)
unfolding writei
too_far = refl

writei_lem_example :
    (s' : Store) × (writei (λ d. none) super 0 letters 599 3 file ≡ some (pos 3, s'))
    × Written 1024 file_addr 599 3 letters file.blocks s'.blocks
    × Resized 0 599 3 file s'
writei_lem_example =
    writei_lem (λ d. none) super 0 letters 599 3 file 1024 file_addr (omega arith) (omega arith)
      (omega arith) file-IsLaid

readi-writei_example :
    (s' : Store) × (writei (λ d. none) super 0 letters 599 3 file ≡ some (pos 3, s'))
    × (readi (λ d. none) super 0 599 3 s' ≡ some (pos 3, slice 3 0 letters, s'))
readi-writei_example =
    readi-writei (λ d. none) (λ d. none) super 0 letters 599 3 file 1024 file_addr (omega arith)
      (omega arith) (omega arith) (omega arith) file-IsLaid
