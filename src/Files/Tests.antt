-- ===== src/Files/Tests.antt =====
-- Tests of the table of files, and its theorems at a concrete input.
use cpsc.Prelude.{ℕ, ◌≡◌, refl, Bool, true, false, Option, some, ◌==◌, ltb, if◌then◌else◌, ◌>>=◌}
use cpsc.Pipe.{Pipe, Channel}
use cpsc.Pipe
use cpsc.Fs.{Super}
use cpsc.Inodes.{Icache}
use cpsc.Files.{
  fd_none, fd_pipe, fd_inode, Ftable, System, alloc_from, filealloc, close_kind, fileclose,
}

abbrev icache : Icache
icache i = record {
  dev = 1;
  inum = 7;
  ref = if i == 3 then 2 else 0;
  busy = false;
  valid = true;
  type = 2;
  major = 0;
  minor = 0;
  nlink = 1;
  size = 0;
  addrs = λ a. 0;
}

-- File 0 is a pipe's end, file 1 the inode of entry 3, and the others are free.
abbrev ftable : Ftable
ftable f = record {
  type = if f == 0 then fd_pipe else (if f == 1 then fd_inode else fd_none);
  ref = if ltb f 2 then 1 else 0;
  readable = true;
  writable = false;
  pipe = 0;
  ip = 3;
  off = 0;
}

abbrev opened : System
opened = record {
  ftable = ftable;
  pipes =
      λ p. record { buffer = λ i. 0; nread = 0; nwrite = 0; readopen = true; writeopen = false };
  store = record {
    icache = icache;
    dinodes = λ d n. record { type = 2; major = 0; minor = 0; nlink = 1; size = 0; addrs = λ a. 0 };
    blocks = λ b i. 0;
  };
}

abbrev super : Super
super = record {
  size = 8;
  nblocks = 3;
  ninodes = 8;
  nlog = 0;
  logstart = 0;
  inodestart = 1;
  bmapstart = 2;
}

allocated : Option ℕ
allocated = filealloc ftable >>= λ r. some r.0

allocated_test : allocated ≡ some 2
unfolding allocated filealloc alloc_from
allocated_test = refl

page_freed : Option (Option Bool)
page_freed = fileclose super 0 opened >>= λ r. some (r.1 >>= λ w. some w.1)

page_freed_test : page_freed ≡ some (some true)
unfolding page_freed fileclose close_kind Pipe.close
page_freed_test = refl
