-- ===== src/Inodes/Last.antt =====
-- `itrunc` and `iput` with the blocks that they free.
use cpsc.Prelude.{ℕ, ◌≡◌, ◌⊎◌, true, false, Option, none, some}
use cpsc.Fs.{Super}
use cpsc.Inodes.{ndirect, Store, itrunc}
use cpsc.Inodes.Put.{is_last}
use cpsc.Inodes.Trunc.{NotMap, Freed, Spoilt}
use cpsc.Inodes.Itrunc.{owned, TruncEnds, itrunc-TruncEnds}

-- `itrunc` of an inode whose indirect block, or block 0 if there is none, does not hold the bit of
-- one of the blocks of the inode.
-- Every block of the inode is then free in the map, direct, indirect or the indirect block itself,
-- the other bits of the map are as before and so is every block that holds none of their bits. The addresses and the
-- size are 0, in the entry and on the disk, and the rest of the entry and the other entries are as
-- before. It panics only if one of the blocks was free before, or the inode has one twice.
pub itrunc_lem :
    (sb : Super) (i : ℕ) (s : Store)
    → NotMap sb (owned (s.icache i).addrs s.blocks) ((s.icache i).addrs ndirect)
    → TruncEnds sb i s (itrunc sb i s)
itrunc_lem sb i s out = itrunc-TruncEnds sb i s out

-- The blocks after `iput`.
abbrev pub IputFrees : Super → ℕ → Store → Option Store → Type 0
IputFrees sb i s none =
    ((s.icache i).busy ≡ true) ⊎ Spoilt sb (owned (s.icache i).addrs s.blocks) s.blocks
IputFrees sb i s (some s') =
    ((is_last (s.icache i) ≡ true)
      × Freed sb (owned (s.icache i).addrs s.blocks) s.blocks s'.blocks)
    ⊎ ((is_last (s.icache i) ≡ false) × (s'.blocks ≡ s.blocks))
