-- ===== src/Dirs/Tests.antt =====
-- Tests of the directories, and their theorem at a concrete input.
use cpsc.Prelude.{
  ℕ, zero, suc, ◌+◌, ◌*◌, ◌<◌, ◌≡◌, refl, true, Option, none, some, ◌==◌, if◌then◌else◌, arith,
  ◌>>=◌,
}
use cpsc.Prelude.Int.{pos}
use cpsc.Fs.{Super, bsize}
use cpsc.Inodes.{Store, iget, scan}
use cpsc.Content.{readi, read_loop, slice, bmap, addr_block}
use cpsc.Content.Layout.{address, IsLaid}
use cpsc.Strings.{strncmp}
use cpsc.Dirs.{dirent_size, dirlookup, dirlink, scan_dir}
use cpsc.Dirs.Link.{IsDirectory}
use cpsc.Dirs.Added.{dirlookup-dirlink}

abbrev disk : Super
disk = record {
  size = 8;
  nblocks = 3;
  ninodes = 16;
  nlog = 0;
  logstart = 0;
  inodestart = 1;
  bmapstart = 2;
}

-- A directory of two entries in block 5: inode 6 has the name "a", and the other entry is empty.
abbrev folder : Store
folder = record {
  icache = λ i. record {
    dev = 1;
    inum = 7;
    ref = if i == 0 then 1 else 0;
    busy = true;
    valid = true;
    type = 1;
    major = 0;
    minor = 0;
    nlink = 1;
    size = 32;
    addrs = λ a. if a == 0 then 5 else 0;
  };
  dinodes = λ d n. record { type = 1; major = 0; minor = 0; nlink = 1; size = 0; addrs = λ a. 0 };
  blocks = λ b i. if b == 5 then (if i == 0 then 6 else (if i == 2 then 97 else 0)) else 0;
}

abbrev folder_addr : ℕ → ℕ
folder_addr q = q + 5

folder-IsLaid : IsLaid (folder.icache 0).addrs folder.blocks 512 folder_addr
folder-IsLaid = record {
  fits = omega arith;
  there = there;
  nonzero = λ q lt. omega arith;
  indirect = λ lt. absurd (omega arith);
  apart = λ q lt. omega arith;
  distinct = λ q r lq lr e. omega (arith, e);
}
  where
    there :
        (q : ℕ) → bsize * q < 512 → address (folder.icache 0).addrs folder.blocks q ≡ folder_addr q
    there zero lt = refl
    there (suc q) lt = absurd (omega arith)

folder-IsDirectory : IsDirectory 0 2 512 folder_addr folder
folder-IsDirectory = record {
  type = refl;
  entries = refl;
  within = omega arith;
  laid = folder-IsLaid;
}

abbrev letter : ℕ → ℕ → ℕ
letter c j = if j == 0 then c else 0

absent : dirlookup (λ d. none) disk (letter 98) 0 folder ≡ some (none, folder)
unfolding dirlookup scan_dir readi read_loop slice bmap addr_block strncmp
absent = refl

-- The offset that a lookup returns.
offset : Option (Option (ℕ × ℕ) × Store) → Option (ℕ × ℕ)
offset none = none
offset (some (r, s)) = r

there_test : offset (dirlookup (λ d. none) disk (letter 97) 0 folder) ≡ some (0, 1)
unfolding offset dirlookup scan_dir readi read_loop slice bmap addr_block strncmp iget scan
there_test = refl

dirlookup-dirlink_example :
    (s' : Store) × (m : ℕ) × (dirlink (λ d. none) (λ d. none) disk (letter 98) 9 0 folder
      ≡ some (pos 0, s'))
    × (dirlookup (λ d. none) disk (letter 98) 0 s' ≡ (do
      (j, c) ← iget (s'.icache 0).dev 9 s'.icache
      some (some (dirent_size * m, j), record s' { icache = c })))
dirlookup-dirlink_example =
    dirlookup-dirlink (λ d. none) (λ d. none) disk (letter 98) 9 0 2 512 folder_addr folder
      folder-IsDirectory (omega arith) (omega arith) (omega arith) absent
