-- ===== src/Proc/Life.antt =====
-- proc.c: `allocproc`, `fork`, `exit` and `wait`, over the whole kernel state.
use cpsc.Prelude.{
  List, ℕ, zero, suc, ◌+◌, ◌-◌, ◌%◌, ◌^◌, Bool, true, false, ◌||◌, not, Option, none, some, [],
  ◌==◌, if◌then◌else◌, update, take, ◌>>=◌,
}
use cpsc.Prelude.Int.{ℤ, pos, minus_one}
use cpsc.Proc.{
  Chan, nproc, nofile, unused, embryo, sleeping, runnable, zombie, slot, Ptr, points_to, Proc,
  Table, MemOps, FileOps, Kernel, scan, is_state, wakeup_all, exit_table,
}

abbrev pub kstacksize : ℕ
kstacksize = 4096

-- `sizeof(struct trapframe)` and `sizeof(struct context)`.
abbrev pub trapframe_size : ℕ
trapframe_size = 76

abbrev pub context_size : ℕ
context_size = 20

-- The call of `copyuvm` is taken to have failed if it returns this address.
abbrev pub no_copy : ℕ
no_copy = 0x1000

-- What a pass over the table in `wait` found: a zombie child's slot, and whether there are children.
unfoldable pub wait_loop : ℕ → ℕ → ℕ → Bool → Table → Option ℕ × Bool
wait_loop cur zero i havekids t = (none, havekids)
wait_loop cur (suc k) i havekids t =
    let skip = wait_loop cur k (suc i) havekids t in
    let seen = wait_loop cur k (suc i) true t in
    if points_to (t i).parent cur
    then (if is_state zombie (t i) then (some i, true) else seen)
    else skip

-- How one pass of `wait` ends: by its return value, or asleep on the process itself.
pub data Waited : Type 0 where
  returned : ℤ → Waited
  asleep : Waited

module _ {M F : Type 0} (mem : MemOps M) (file : FileOps F) where
  -- The process that `allocproc` sets up in a slot whose kernel stack is at `page`.
  abbrev pub set_up : ℕ → Proc → Proc
  set_up page p = record p {
    kstack = page;
    tf_at = page + kstacksize - trapframe_size;
    returns_to = mem.trapret;
    context_at = page + kstacksize - trapframe_size - 4 - context_size;
    context = record { edi = 0; esi = 0; ebx = 0; ebp = 0; eip = mem.forkret };
    priority = 1;
    timecpu = 0;
  }

  -- `allocproc` after `found:`.
  unfoldable pub alloc_at : ℕ → Kernel M F → Ptr × Kernel M F
  alloc_at i s =
      let p = record (s.table i) { state = embryo; pid = s.nextpid } in
      let (page, m) = mem.kalloc s.mem in
      let p' = if page == 0 then record p { kstack = 0; state = unused } else set_up page p in
      (
        if page == 0 then none else some i,
        record s { table = update s.table i p'; nextpid = (s.nextpid + 1) % 2 ^ 32; mem = m },
      )

  unfoldable pub allocproc : Kernel M F → Ptr × Kernel M F
  allocproc s = elim (scan (is_state unused) nproc 0 s.table) [
    | none ↦ (none, s)
    | some i ↦ alloc_at i s
  ]

  -- The loop of `fork` over the open files, `k` rounds from its end.
  unfoldable pub dup_files : ℕ → ℕ → (ℕ → ℕ) → (ℕ → ℕ) → F → Option ((ℕ → ℕ) × F)
  dup_files zero fd from to fs = some (to, fs)
  dup_files (suc k) fd from to fs =
      let skip = dup_files k (suc fd) from to fs in
      let copy = file.filedup (from fd) fs >>= λ fs'.
      dup_files k (suc fd) from (update to fd (from fd)) fs' in
      if from fd == 0 then skip else copy

  -- The kernel after a failed copy has given the kernel stack of the slot `np` back.
  unfoldable pub undone : ℕ → ℕ → M → Kernel M F → Kernel M F
  undone np dir m s = record s {
    table = update s.table np (record (s.table np) { pgdir = dir; kstack = 0; state = unused });
    mem = m;
  }

  -- The kernel after the rest of `fork`, with the child's open files and the files' state.
  unfoldable pub forked : ℕ → ℕ → ℕ → (ℕ → ℕ) → F → Kernel M F → Kernel M F
  forked cur np dir ofile fs s =
      let parent = s.table cur in
      record s {
        table = update s.table np (record (s.table np) {
          pgdir = dir;
          sz = parent.sz;
          parent = some cur;
          tf = record (parent.tf) { eax = 0 };
          ofile = ofile;
          cwd = parent.cwd;
          name = take 15 parent.name;
          state = runnable;
        });
        files = file.idup parent.cwd fs;
      }

  -- `fork` once `allocproc` has given the slot `np` and `copyuvm` has returned.
  unfoldable pub fork_from : ℕ → ℕ → ℕ → Kernel M F → Option (ℤ × Kernel M F)
  fork_from cur np dir s =
      let failed =
        mem.kfree (s.table np).kstack s.mem >>= λ m. some (minus_one, undone np dir m s) in
      let done = dup_files nofile 0 (s.table cur).ofile (s.table np).ofile s.files >>= λ copied.
      some (pos (s.table np).pid, forked cur np dir copied.0 copied.1 s) in
      if dir == no_copy then failed else done

  -- `fork` called by the process in the slot `cur`, from what `allocproc` returned on.
  unfoldable pub fork_with : ℕ → Ptr × Kernel M F → Option (ℤ × Kernel M F)
  fork_with cur (none, s1) = some (minus_one, s1)
  fork_with cur (some i, s1) =
      mem.copyuvm (s1.table cur).pgdir (s1.table cur).sz s1.mem >>= λ (dir, m).
      fork_from cur i dir (record s1 { mem = m })

  unfoldable pub fork : ℕ → Kernel M F → Option (ℤ × Kernel M F)
  fork cur s = fork_with cur (allocproc s)

  -- The kernel after `fileclose` of `ofile[fd]`, which woke `woken`.
  unfoldable pub closed : ℕ → ℕ → F × List Chan → Kernel M F → Kernel M F
  closed fd cur (fs, woken) s =
      let t = wakeup_all woken s.table in
      record s {
        table = update t cur (record (t cur) { ofile = update (t cur).ofile fd 0 });
        files = fs;
      }

  -- The loop of `exit` over the open files, `k` rounds from its end.
  unfoldable pub close_files : ℕ → ℕ → ℕ → Kernel M F → Option (Kernel M F)
  close_files zero fd cur s = some s
  close_files (suc k) fd cur s =
      let f = (s.table cur).ofile fd in
      let skip = close_files k (suc fd) cur s in
      let shut =
        file.fileclose f s.files >>= λ done. close_files k (suc fd) cur (closed fd cur done s) in
      if f == 0 then skip else shut

  -- The kernel after the directory is dropped, and `exit` goes on to the scheduler.
  unfoldable pub departed : ℕ → ℕ → F × List Chan → Kernel M F → Kernel M F
  departed c cur (fs, woken) s =
      let t = wakeup_all woken s.table in
      record s {
        table = exit_table cur s.initproc (update t cur (record (t cur) { cwd = 0 }));
        files = fs;
        cpus = update s.cpus c none;
      }

  -- `exit` called by the process in the slot `cur` on the processor `c`, up to where `sched` has
  -- left the processor to the scheduler.
  unfoldable pub exit : ℕ → ℕ → Kernel M F → Option (Kernel M F)
  exit c cur s =
      let leave = close_files nofile 0 cur s >>= λ s1.
      file.drop_dir (s1.table cur).cwd s1.files >>= λ done. some (departed c cur done s1) in
      if points_to s.initproc cur then none else leave

  -- The kernel after `wait` has freed the zombie's memory and cleared its slot.
  unfoldable pub reaped : ℕ → M → Kernel M F → Kernel M F
  reaped i m s = record s {
    table = update s.table i (record (s.table i) {
      kstack = 0;
      pid = 0;
      parent = none;
      name = [];
      killed = false;
      state = unused;
    });
    mem = m;
  }

  -- `wait` for the zombie in the slot `i`.
  unfoldable pub reap : ℕ → Kernel M F → Option (Waited × Kernel M F)
  reap i s = mem.kfree (s.table i).kstack s.mem >>= λ m.
      mem.freevm (s.table i).pgdir m >>= λ m'. some (returned (pos (s.table i).pid), reaped i m' s)

  -- The kernel after `sleep(proc, &ptable.lock)`, up to the scheduler.
  unfoldable pub waiting : ℕ → ℕ → Kernel M F → Kernel M F
  waiting c cur s = record s {
    table = update s.table cur (record (s.table cur) { chan = slot cur; state = sleeping });
    cpus = update s.cpus c none;
  }

  -- A pass of `wait` from its search on.
  unfoldable pub wait_with : ℕ → ℕ → Option ℕ × Bool → Kernel M F → Option (Waited × Kernel M F)
  wait_with c cur (some i, havekids) s = reap i s
  wait_with c cur (none, havekids) s =
      if not havekids || (s.table cur).killed
      then some (returned minus_one, s)
      else some (asleep, waiting c cur s)

  -- One pass of `wait`, called by the process in the slot `cur` on the processor `c`. If it sleeps
  -- it makes another pass when it runs again.
  unfoldable pub wait : ℕ → ℕ → Kernel M F → Option (Waited × Kernel M F)
  wait c cur s = wait_with c cur (wait_loop cur nproc 0 false s.table) s
