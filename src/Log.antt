-- ===== src/Log.antt =====
-- log.c: the redo log, over the blocks that bio.c hands out.
pub mod Memory
pub mod Crash
pub mod Install
pub mod Head
pub mod Commit
pub mod Recover
pub mod Absorb
pub mod Ops
pub mod Reserve
mod Tests
use cpsc.Prelude.{
  ℕ, zero, suc, ◌+◌, ◌-◌, ◌*◌, Bool, true, false, not, ◌||◌, Option, none, some, ◌==◌, ltb, leb,
  if◌then◌else◌, update, ◌>>=◌,
}

-- A block as the words that it holds.
abbrev pub Block : Type 0
Block = ℕ → ℕ

-- The disk takes `power` more writes and then, as when the machine stops, no more.
pub record Disk : Type 0 where
  pub blocks : ℕ → Block
  pub power : ℕ

abbrev pub written : ℕ → Block → Disk → ℕ → Disk
written b v d zero = d
written b v d (suc p) = record { blocks = update d.blocks b v; power = p }

-- `iderw` of a dirty buffer.
unfoldable pub store : ℕ → Block → Disk → Disk
store b v d = written b v d d.power

-- The disk, and what the buffers hold in memory of the blocks that were read or changed.
pub record Io : Type 0 where
  pub disk : Disk
  pub cache : ℕ → Option Block

abbrev pub or_else : Option Block → Block → Block
or_else none d = d
or_else (some v) d = v

-- What `bread` finds in the block `b`.
unfoldable pub view : Io → ℕ → Block
view s b = or_else (s.cache b) (s.disk.blocks b)

-- The buffers after `bread`.
unfoldable pub loaded : ℕ → Io → Io
loaded b s = record s { cache = update s.cache b (some (view s b)) }

-- `bwrite` of a buffer with the contents `v`.
unfoldable pub bwrite : ℕ → Block → Io → Io
bwrite b v s = record { disk = store b v s.disk; cache = update s.cache b (some v) }

abbrev pub logsize : ℕ
logsize = 30

abbrev pub maxopblocks : ℕ
maxopblocks = 10

-- `struct logheader`.
pub record Header : Type 0 where
  pub n : ℕ
  pub block : ℕ → ℕ

-- `struct log` less its lock and device.
pub record Log : Type 0 where
  pub start : ℕ
  pub size : ℕ
  pub outstanding : ℕ
  pub committing : Bool
  pub lh : Header

-- The loop of `install_trans`, `k` rounds from its end.
unfoldable pub install_from : ℕ → ℕ → Log → Io → Io
install_from zero tail l s = s
install_from (suc k) tail l s =
    let lbuf = view s (l.start + tail + 1) in
    let s1 = loaded (l.start + tail + 1) s in
    let s2 = loaded (l.lh.block tail) s1 in
    install_from k (suc tail) l (bwrite (l.lh.block tail) lbuf s2)

unfoldable pub install_trans : Log → Io → Io
install_trans l s = install_from l.lh.n 0 l s

-- The loop of `read_head`: `log.lh.block[i] = lh->block[i]`.
unfoldable pub read_blocks : ℕ → ℕ → Block → (ℕ → ℕ) → ℕ → ℕ
read_blocks zero i buf block = block
read_blocks (suc k) i buf block = read_blocks k (suc i) buf (update block i (buf (suc i)))

unfoldable pub read_head : Log → Io → Log × Io
read_head l s =
    let buf = view s l.start in
    (
      record l { lh = record { n = buf 0; block = read_blocks (buf 0) 0 buf l.lh.block } },
      loaded l.start s,
    )

-- The loop of `write_head`: `hb->block[i] = log.lh.block[i]`.
unfoldable pub write_blocks : ℕ → ℕ → (ℕ → ℕ) → Block → Block
write_blocks zero i block buf = buf
write_blocks (suc k) i block buf = write_blocks k (suc i) block (update buf (suc i) (block i))

unfoldable pub write_head : Log → Io → Io
write_head l s =
    let buf = view s l.start in
    bwrite l.start (write_blocks l.lh.n 0 l.lh.block (update buf 0 l.lh.n)) (loaded l.start s)

-- `log.lh.n = 0`.
abbrev pub cleared : Log → Log
cleared l = record l { lh = record (l.lh) { n = 0 } }

unfoldable pub recover_from_log : Log → Io → Log × Io
recover_from_log l s =
    let (l1, s1) = read_head l s in
    let s2 = install_trans l1 s1 in (cleared l1, write_head (cleared l1) s2)

-- The loop of `write_log`, `k` rounds from its end.
unfoldable pub write_log_from : ℕ → ℕ → Log → Io → Io
write_log_from zero tail l s = s
write_log_from (suc k) tail l s =
    let s1 = loaded (l.start + tail + 1) s in
    let from = view s1 (l.lh.block tail) in
    let s2 = loaded (l.lh.block tail) s1 in
    write_log_from k (suc tail) l (bwrite (l.start + tail + 1) from s2)

unfoldable pub write_log : Log → Io → Io
write_log l s = write_log_from l.lh.n 0 l s

unfoldable pub commit : Log → Io → Log × Io
commit l s =
    let s1 = write_log l s in
    let s2 = write_head l s1 in
    let s3 = install_trans l s2 in
    if ltb 0 l.lh.n then (cleared l, write_head (cleared l) s3) else (l, s)

-- What `begin_op` does at one look: it sleeps on the log, or the operation starts.
unfoldable pub begin_op : Log → Option Log
begin_op l =
    if l.committing
    then none
    else (if ltb logsize (l.lh.n + (l.outstanding + 1) * maxopblocks)
        then none
        else some (record l { outstanding = l.outstanding + 1 }))

-- `end_op` up to the release of the lock: `none` is the panic, and the Boolean is `do_commit`. A
-- call without a `begin_op` would make `outstanding` negative; it does not occur.
unfoldable pub end_op : Log → Option (Log × Bool)
end_op l =
    let l1 = record l { outstanding = l.outstanding - 1 } in
    if l.committing
    then none
    else (if l1.outstanding == 0
        then some (record l1 { committing = true }, true)
        else some (l1, false))

-- The rest of `end_op` when it commits.
unfoldable pub end_commit : Log → Io → Log × Io
end_commit l s = let (l1, s1) = commit l s in (record l1 { committing = false }, s1)

-- The search of `log_write`: the index at which its loop stops.
unfoldable pub absorb : ℕ → ℕ → ℕ → (ℕ → ℕ) → ℕ
absorb zero i b block = i
absorb (suc k) i b block = let rest = absorb k (suc i) b block in if block i == b then i else rest

-- The header once `log_write` of the block `b` has stopped its search at the index `i`.
abbrev pub recorded : ℕ → ℕ → Header → Header
recorded b i lh = record { n = if i == lh.n then lh.n + 1 else lh.n; block = update lh.block i b }

-- `log_write` of the block `b`; `none` is a panic. The buffer is pinned: its contents stay cached.
unfoldable pub log_write : ℕ → Log → Option Log
log_write b l =
    if leb logsize l.lh.n || leb (l.size - 1) l.lh.n
    then none
    else (if l.outstanding == 0
        then none
        else some (record l { lh = recorded b (absorb l.lh.n 0 b l.lh.block) l.lh }))
