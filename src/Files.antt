-- ===== src/Files.antt =====
-- file.c: the table of open files, over the pipes and the cache of inodes. A call is one step, with
-- the transaction around `iput` in it; `none` is a panic but for `filealloc`.
pub mod Close
mod Tests
use cpsc.Prelude.{
  ℕ, zero, suc, ◌+◌, ◌-◌, Bool, true, false, Option, none, some, ◌==◌, ltb, if◌then◌else◌, update,
  ◌>>=◌,
}
use cpsc.Pipe.{Pipe, Channel}
use cpsc.Pipe
use cpsc.Fs.{Super}
use cpsc.Inodes.{Inode, Store, Locked, iput}

abbrev pub nfile : ℕ
nfile = 100

pub data FileType : Type 0 where
  fd_none fd_pipe fd_inode : FileType

-- `struct file`, where a pointer to a pipe or to an inode is an index.
pub record File : Type 0 where
  pub type : FileType
  pub ref : ℕ
  pub readable : Bool
  pub writable : Bool
  pub pipe : ℕ
  pub ip : ℕ
  pub off : ℕ

abbrev pub Ftable : Type 0
Ftable = ℕ → File

-- The table with what the files stand for.
pub record System : Type 0 where
  pub ftable : Ftable
  pub pipes : ℕ → Pipe
  pub store : Store

-- The loop of `filealloc`, `k` rounds from its end.
unfoldable pub alloc_from : ℕ → ℕ → Ftable → Option (ℕ × Ftable)
alloc_from zero f t = none
alloc_from (suc k) f t =
    let rest = alloc_from k (suc f) t in
    if (t f).ref == 0 then some (f, update t f (record (t f) { ref = 1 })) else rest

unfoldable pub filealloc : Ftable → Option (ℕ × Ftable)
filealloc t = alloc_from nfile 0 t

unfoldable pub filedup : ℕ → Ftable → Option Ftable
filedup f t =
    let t' = update t f (record (t f) { ref = (t f).ref + 1 }) in
    if ltb (t f).ref 1 then none else some t'

-- What `fileclose` does of a file to which there is no reference any more. A pipe also gives the
-- channel that is woken and whether its page is freed.
unfoldable pub close_kind :
    FileType → Super → File → System → Option (System × Option (Channel × Bool))
close_kind fd_none sb ff s = some (s, none)
close_kind fd_pipe sb ff s =
    let (p, chan, is_freed) = Pipe.close (s.pipes ff.pipe) ff.writable in
    some (record s { pipes = update s.pipes ff.pipe p }, some (chan, is_freed))
close_kind fd_inode sb ff s = iput sb ff.ip s.store >>= λ i. some (record s { store = i }, none)

abbrev pub dropped : ℕ → ℕ → Ftable → Ftable
dropped f n t = update t f (record (t f) { ref = n })

abbrev pub vacated : ℕ → Ftable → Ftable
vacated f t = update t f (record (t f) { ref = 0; type = fd_none })

unfoldable pub fileclose : Super → ℕ → System → Option (System × Option (Channel × Bool))
fileclose sb f s =
    let ff = s.ftable f in
    let n = ff.ref - 1 in
    let shared = record s { ftable = dropped f n s.ftable } in
    let last = close_kind ff.type sb ff (record s { ftable = vacated f s.ftable }) in
    if ltb ff.ref 1 then none else (if ltb 0 n then some (shared, none) else last)
