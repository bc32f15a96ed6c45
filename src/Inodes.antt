-- ===== src/Inodes.antt =====
-- The inodes of fs.c and file.h: the cache of them, their copies on the disk, and the blocks they
-- name. The copies on the disk are apart from the other blocks, and the cache is an array of
-- entries, where a pointer is an index. `none` is a panic.
pub mod Refs
pub mod Trunc
pub mod Emptied
pub mod Put
pub mod Itrunc
pub mod Last
pub mod Fresh
mod Tests
use cpsc.Prelude.{
  ℕ, zero, suc, ◌+◌, ◌-◌, ◌*◌, ◌/◌, ◌%◌, Bool, true, false, not, ◌&&◌, ◌||◌, Option, none, some,
  ◌==◌, ltb, leb, if◌then◌else◌, update, ◌>>=◌,
}
use cpsc.Fs.{Super, Blocks, bfree}

abbrev pub ninode : ℕ
ninode = 50

abbrev pub ndirect : ℕ
ndirect = 12

abbrev pub nindirect : ℕ
nindirect = 128

pub record Dinode : Type 0 where
  pub type : ℕ
  pub major : ℕ
  pub minor : ℕ
  pub nlink : ℕ
  pub size : ℕ
  pub addrs : ℕ → ℕ

-- `struct inode`, with the two flags apart. A count of references below 0 is not told from 0.
pub record Inode : Type 0 where
  pub dev : ℕ
  pub inum : ℕ
  pub ref : ℕ
  pub busy : Bool
  pub valid : Bool
  pub type : ℕ
  pub major : ℕ
  pub minor : ℕ
  pub nlink : ℕ
  pub size : ℕ
  pub addrs : ℕ → ℕ

abbrev pub Icache : Type 0
Icache = ℕ → Inode

pub record Store : Type 0 where
  pub icache : Icache
  pub dinodes : ℕ → ℕ → Dinode
  pub blocks : Blocks

-- What the loop of `iget` comes to: an entry of the inode, or the first empty one.
pub data Scanned : Type 0 where
  hit : ℕ → Scanned
  miss : Option ℕ → Scanned

abbrev pub is_inode : ℕ → ℕ → Inode → Bool
is_inode dev inum ip = ltb 0 ip.ref && ip.dev == dev && ip.inum == inum

abbrev pub remember : Option ℕ → ℕ → Inode → Option ℕ
remember none i ip = if ip.ref == 0 then some i else none
remember (some e) i ip = some e

unfoldable pub scan : ℕ → ℕ → Option ℕ → ℕ → ℕ → Icache → Scanned
scan zero i empty dev inum c = miss empty
scan (suc k) i empty dev inum c =
    let rest = scan k (suc i) (remember empty i (c i)) dev inum c in
    if is_inode dev inum (c i) then hit i else rest

abbrev pub reference : ℕ → Icache → Icache
reference i c = update c i (record (c i) { ref = (c i).ref + 1 })

abbrev pub recycle : ℕ → ℕ → ℕ → Icache → Icache
recycle i dev inum c =
    update c i (record (c i) { dev = dev; inum = inum; ref = 1; busy = false; valid = false })

abbrev pub entry_of : ℕ → ℕ → Scanned → Icache → Option (ℕ × Icache)
entry_of dev inum (hit i) c = some (i, reference i c)
entry_of dev inum (miss (some i)) c = some (i, recycle i dev inum c)
entry_of dev inum (miss none) c = none

unfoldable pub iget : ℕ → ℕ → Icache → Option (ℕ × Icache)
iget dev inum c = entry_of dev inum (scan ninode 0 none dev inum c) c

unfoldable pub idup : ℕ → Icache → Icache
idup i c = reference i c

-- `ilock` at one look: it sleeps, or the inode is locked.
pub data Locked : Type 0 where
  sleeps : Locked
  locked : Icache → Locked

abbrev pub loaded : Dinode → Inode → Inode
loaded d ip = record ip {
  valid = true;
  type = d.type;
  major = d.major;
  minor = d.minor;
  nlink = d.nlink;
  size = d.size;
  addrs = d.addrs;
}

unfoldable pub ilock : ℕ → Store → Option Locked
ilock i s =
    let ip = s.icache i in
    let held = record ip { busy = true } in
    let read = loaded (s.dinodes ip.dev ip.inum) held in
    if ltb ip.ref 1
    then none
    else (if ip.busy
        then some sleeps
        else (if ip.valid
            then some (locked (update s.icache i held))
            else (if read.type == 0 then none else some (locked (update s.icache i read)))))

unfoldable pub iunlock : ℕ → Icache → Option Icache
iunlock i c =
    let c' = update c i (record (c i) { busy = false }) in
    if not (c i).busy || ltb (c i).ref 1 then none else some c'

abbrev pub disk_copy : Inode → Dinode
disk_copy ip = record {
  type = ip.type;
  major = ip.major;
  minor = ip.minor;
  nlink = ip.nlink;
  size = ip.size;
  addrs = ip.addrs;
}

-- `iupdate`: the inodes on the disk are a function of the device and the number, so the block and
-- the place in it where an inode is are left out.
unfoldable pub iupdate : ℕ → Store → Store
iupdate i s =
    let ip = s.icache i in
    record s {
      dinodes = update s.dinodes ip.dev (update (s.dinodes ip.dev) ip.inum (disk_copy ip));
    }

-- The word `j` of a block.
unfoldable pub word : Blocks → ℕ → ℕ → ℕ
word d b j =
    d b (4 * j) + 256 * d b (4 * j + 1) + 65536 * d b (4 * j + 2) + 16777216 * d b (4 * j + 3)

-- The loop of `itrunc` over the direct blocks, `k` rounds from its end, and the one over the
-- indirect ones.
unfoldable pub free_direct : ℕ → ℕ → Super → (ℕ → ℕ) → Blocks → Option ((ℕ → ℕ) × Blocks)
free_direct zero i sb addrs d = some (addrs, d)
free_direct (suc k) i sb addrs d =
    let skipped = free_direct k (suc i) sb addrs d in
    let freed = bfree (addrs i) sb d >>= λ d'. free_direct k (suc i) sb (update addrs i 0) d' in
    if addrs i == 0 then skipped else freed

unfoldable pub free_indirect : ℕ → ℕ → Super → ℕ → Blocks → Option Blocks
free_indirect zero j sb b d = some d
free_indirect (suc k) j sb b d =
    let skipped = free_indirect k (suc j) sb b d in
    let freed = bfree (word d b j) sb d >>= λ d'. free_indirect k (suc j) sb b d' in
    if word d b j == 0 then skipped else freed

unfoldable pub free_rest : Super → (ℕ → ℕ) → Blocks → Option ((ℕ → ℕ) × Blocks)
free_rest sb addrs d =
    let b = addrs ndirect in
    let freed = do
      d1 ← free_indirect nindirect 0 sb b d
      d2 ← bfree b sb d1
      some (update addrs ndirect 0, d2)
    in if b == 0 then some (addrs, d) else freed

unfoldable pub itrunc : Super → ℕ → Store → Option Store
itrunc sb i s = do
  (a1, d1) ← free_direct ndirect 0 sb (s.icache i).addrs s.blocks
  (a2, d2) ← free_rest sb a1 d1
  some (
      iupdate i (record s {
        icache = update s.icache i (record (s.icache i) { addrs = a2; size = 0 });
        blocks = d2;
      }))

-- `iput` frees an inode without links: what it does before and after `itrunc`, and all of it.
abbrev pub held : ℕ → Store → Store
held i s = record s { icache = update s.icache i (record (s.icache i) { busy = true }) }

abbrev pub untyped : ℕ → Store → Store
untyped i s = record s { icache = update s.icache i (record (s.icache i) { type = 0 }) }

abbrev pub unflagged : ℕ → Store → Store
unflagged i s = record s {
  icache = update s.icache i (record (s.icache i) { busy = false; valid = false });
}

unfoldable pub discard : Super → ℕ → Store → Option Store
discard sb i s =
    let freed = itrunc sb i (held i s) >>= λ s1. some (unflagged i (iupdate i (untyped i s1))) in
    if (s.icache i).busy then none else freed

abbrev pub dereference : ℕ → Store → Store
dereference i s = record s {
  icache = update s.icache i (record (s.icache i) { ref = (s.icache i).ref - 1 });
}

unfoldable pub iput : Super → ℕ → Store → Option Store
iput sb i s =
    let last = discard sb i s >>= λ s'. some (dereference i s') in
    if (s.icache i).ref == 1 && (s.icache i).valid && (s.icache i).nlink == 0
    then last
    else some (dereference i s)

unfoldable pub iunlockput : Super → ℕ → Store → Option Store
iunlockput sb i s = iunlock i s.icache >>= λ c. iput sb i (record s { icache = c })
