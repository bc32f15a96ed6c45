-- ===== src/Content.antt =====
-- The content of an inode: `bmap` of fs.c, over the cache of inodes and the free map.
pub mod Stable
pub mod Reading
pub mod Layout
pub mod Writing
pub mod Growth
pub mod RoundTrip
mod Tests
use cpsc.Prelude.{
  ◌&&◌, ℕ, zero, suc, ◌≤◌, ◌||◌, ◌^◌, List, [], ◌∷◌, ◌++◌, leb, ◌+◌, ◌-◌, ◌*◌, ◌/◌, ◌%◌, Option,
  none, some, ◌==◌, ltb, if◌then◌else◌, update, ◌>>=◌,
}
use cpsc.Prelude.Int.{ℤ, pos, minus_one}
use cpsc.Fs.{Super, Block, Blocks, bsize, balloc}
use cpsc.Inodes.{iupdate, ndirect, nindirect, Inode, Store, word}

-- A word of a block, byte by byte.
unfoldable pub set_word : ℕ → ℕ → ℕ → Blocks → Blocks
set_word b j v d =
    let b0 = update (d b) (4 * j) (v % 256) in
    let b1 = update b0 (4 * j + 1) (v / 256 % 256) in
    let b2 = update b1 (4 * j + 2) (v / 65536 % 256) in
    update d b (update b2 (4 * j + 3) (v / 16777216 % 256))

abbrev pub set_addr : ℕ → ℕ → ℕ → Store → Store
set_addr i n a s =
    let ip = s.icache i in
    record s { icache = update s.icache i (record ip { addrs = update ip.addrs n a }) }

-- The address `n` of an inode, with a new block if there is none.
unfoldable pub addr_block : Super → ℕ → ℕ → Store → Option (ℕ × Store)
addr_block sb i n s =
    let addr = (s.icache i).addrs n in
    let fresh = do (a, d) ← balloc sb s.blocks; some (a, set_addr i n a (record s { blocks = d }))
    in if addr == 0 then fresh else some (addr, s)

-- The same for a word of the indirect block.
unfoldable pub word_block : Super → ℕ → ℕ → Store → Option (ℕ × Store)
word_block sb b n s =
    let addr = word s.blocks b n in
    let fresh = do (a, d) ← balloc sb s.blocks; some (a, record s { blocks = set_word b n a d })
    in if addr == 0 then fresh else some (addr, s)

unfoldable pub bmap : Super → ℕ → ℕ → Store → Option (ℕ × Store)
bmap sb i bn s =
    let n = bn - ndirect in
    let direct = addr_block sb i bn s in
    let indirect = do (b, s1) ← addr_block sb i ndirect s; word_block sb b n s1
    in if ltb bn ndirect then direct else (if ltb n nindirect then indirect else none)

abbrev pub ndev : ℕ
ndev = 10

-- The type of a device.
abbrev pub t_dev : ℕ
t_dev = 3

abbrev pub min : ℕ → ℕ → ℕ
min a b = if ltb a b then a else b

-- `memmove` of `m` bytes of a block from index `j` on.
unfoldable pub slice : ℕ → ℕ → Block → List ℕ
slice zero j b = []
slice (suc m) j b = b j ∷ slice m (j + 1) b

-- The loop of `readi` where `left` is `n - tot`. A round moves at least one byte, so `left` rounds
-- are enough.
unfoldable pub read_loop : ℕ → Super → ℕ → ℕ → ℕ → Store → Option (List ℕ × Store)
read_loop zero sb i off left s = some ([], s)
read_loop (suc k) sb i off left s =
    let m = min left (bsize - off % bsize) in
    let more = do
      (a, s1) ← bmap sb i (off / bsize) s
      let part = slice m (off % bsize) (s1.blocks a)
      (bytes, s2) ← read_loop k sb i (off + m) (left - m) s1
      some (part ++ bytes, s2)
    in if left == 0 then some ([], s) else more

-- The functions of the devices for reading, which the drivers register.
abbrev pub DevReads : Type 0
DevReads = ℕ → Option (ℕ → ℕ → Store → Option (ℤ × List ℕ × Store))

abbrev pub read_dev :
    Option (ℕ → ℕ → Store → Option (ℤ × List ℕ × Store))
    → ℕ
    → ℕ
    → Store
    → Option (ℤ × List ℕ × Store)
read_dev none i n s = some (minus_one, [], s)
read_dev (some read) i n s = read i n s

-- `readi`: what it returns, the bytes at `dst`, and the store. A major number below 0 is a pattern
-- of 16 bits above `ndev`.
unfoldable pub readi : DevReads → Super → ℕ → ℕ → ℕ → Store → Option (ℤ × List ℕ × Store)
readi devsw sb i off n s =
    let ip = s.icache i in
    let failed = some (minus_one, [], s) in
    let dev = if leb ndev ip.major then failed else read_dev (devsw ip.major) i n s in
    let m = if ltb ip.size ((off + n) % 2 ^ 32) then ip.size - off else n in
    let filled = read_loop m sb i off m s >>= λ (bytes, s1). some (pos m, bytes, s1) in
    if ip.type == t_dev
    then dev
    else (if ltb ip.size off || ltb ((off + n) % 2 ^ 32) off then failed else filled)

-- `memmove` of `m` bytes at `src` into a block from index `j` on.
abbrev pub put_bytes : ℕ → ℕ → (ℕ → ℕ) → Block → Block
put_bytes m j src b q = if leb j q && ltb q (j + m) then src (q - j) else b q

-- The loop of `writei` where `left` is `n - tot`; the last `off` and the store.
unfoldable pub write_loop : ℕ → Super → ℕ → ℕ → ℕ → (ℕ → ℕ) → Store → Option (ℕ × Store)
write_loop zero sb i off left src s = some (off, s)
write_loop (suc k) sb i off left src s =
    let m = min left (bsize - off % bsize) in
    let more = do
      (a, s1) ← bmap sb i (off / bsize) s
      let b = put_bytes m (off % bsize) src (s1.blocks a)
      write_loop k sb i (off + m) (left - m) (λ j. src (m + j))
          (record s1 { blocks = update s1.blocks a b })
    in if left == 0 then some (off, s) else more

abbrev pub maxfile : ℕ
maxfile = ndirect + nindirect

abbrev pub DevWrites : Type 0
DevWrites = ℕ → Option (ℕ → (ℕ → ℕ) → ℕ → Store → Option (ℤ × Store))

abbrev pub write_dev :
    Option (ℕ → (ℕ → ℕ) → ℕ → Store → Option (ℤ × Store))
    → ℕ
    → (ℕ → ℕ)
    → ℕ
    → Store
    → Option (ℤ × Store)
write_dev none i src n s = some (minus_one, s)
write_dev (some write) i src n s = write i src n s

abbrev pub grown : ℕ → ℕ → ℕ → Store → Store
grown i n off s =
    let ip = s.icache i in
    let larger = iupdate i (record s { icache = update s.icache i (record ip { size = off }) }) in
    if ltb 0 n && ltb ip.size off then larger else s

-- `writei` of the `n` bytes at `src`.
unfoldable pub writei : DevWrites → Super → ℕ → (ℕ → ℕ) → ℕ → ℕ → Store → Option (ℤ × Store)
writei devsw sb i src off n s =
    let ip = s.icache i in
    let failed = some (minus_one, s) in
    let dev = if leb ndev ip.major then failed else write_dev (devsw ip.major) i src n s in
    let written = write_loop n sb i off n src s >>= λ (end, s1). some (pos n, grown i n end s1) in
    if ip.type == t_dev
    then dev
    else (if ltb ip.size off || ltb ((off + n) % 2 ^ 32) off
        then failed
        else (if ltb (maxfile * bsize) ((off + n) % 2 ^ 32) then failed else written))
