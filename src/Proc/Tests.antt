-- ===== src/Proc/Tests.antt =====
-- A kernel with `init` and a zombie child, and the properties of proc.c on it.
use cpsc.Prelude.{
  ℕ, suc, ◌≤◌, ◌<◌, ◌≡◌, ◌≢◌, refl, true, false, Option, none, some, [], ◌∷◌, ◌==◌, if◌then◌else◌,
  arith,
}
use cpsc.Prelude.Int.{pos}
use cpsc.Proc.{
  points_to, unused, sleeping, runnable, running, zombie, Chan, slot, Proc, Table, MemOps, FileOps,
  Kernel, scan, kill_table, kill_found,
}
use cpsc.Proc.Life.{
  fork, fork_with, fork_from, forked, alloc_at, allocproc, dup_files, exit, close_files, wait,
  wait_with, wait_loop, reap, returned,
}
use cpsc.Proc.Sched.{yield, kill, increase_priority, next_runnable}
use cpsc.Proc.Fork.{ForkEnds, fork_lem}
use cpsc.Proc.Exit.{Exited, exit_lem}
use cpsc.Proc.Wait.{WaitEnds, wait_lem}
use cpsc.Proc.Safety.{Reach-IsSafe}
use cpsc.Proc.Signal.{kill_zero-fork}
use cpsc.Proc.Queue.{plain, raised, long_run, increase_priority-never_yields, next_runnable-fair}
use cpsc.Proc.Preserve.{IsSafe}
use cpsc.Proc.System.{forks, yields, Reach, here, later}

-- A heap whose every page is at 4096, and files that count their calls.
abbrev memory : MemOps ℕ
memory = record {
  kalloc = λ m. (4096, suc m);
  kfree = λ page m. some m;
  copyuvm = λ dir sz m. some (8192, suc m);
  freevm = λ dir m. some m;
  forkret = 100;
  trapret = 200;
}

abbrev files : FileOps ℕ
files = record {
  filedup = λ f n. some (suc n);
  fileclose = λ f n. some (suc n, []);
  idup = λ d n. suc n;
  drop_dir = λ d n. some (suc n, []);
}

abbrev blank : Proc
blank = record {
  sz = 0;
  pgdir = 0;
  kstack = 0;
  state = unused;
  pid = 0;
  parent = none;
  tf_at = 0;
  tf = record { eax = 0; others = λ r. 0 };
  context_at = 0;
  context = record { edi = 0; esi = 0; ebx = 0; ebp = 0; eip = 0 };
  returns_to = 0;
  chan = Chan.null;
  killed = false;
  ofile = λ fd. 0;
  cwd = 0;
  name = [];
  priority = 0;
  timecpu = 0;
}

abbrev first : Proc
first = record blank {
  sz = 4096;
  pgdir = 12288;
  kstack = 16384;
  state = running;
  pid = 1;
  priority = 1;
}

abbrev dead_child : Proc
dead_child = record blank { kstack = 20480; state = zombie; pid = 2; parent = some 0 }

abbrev waiter : Proc
waiter = record blank { state = sleeping; pid = 3; parent = some 0; chan = slot 2 }

abbrev table : Table
table i =
    if i == 0 then first else (if i == 1 then dead_child else (if i == 2 then waiter else blank))

abbrev start : Kernel ℕ ℕ
start = record {
  table = table;
  nextpid = 4;
  initproc = some 0;
  cpus = λ c. if c == 0 then some 0 else none;
  mem = 0;
  files = 0;
}

start-IsSafe : IsSafe start
start-IsSafe = record {
  wf = record {
    pid_lt = λ i a u. ground arith;
    pid_unique = λ i j a b u v e. ground arith;
    parent_alive = λ i j a e. ground arith;
    init_alive = λ j e. ground arith;
    settled = λ i a e. ground arith;
  };
  run = record {
    on_cpu = λ c i e. ground arith;
    has_cpu = λ i a e. (0, ground arith);
    one_cpu = λ c d i e f. ground arith;
  };
}

-- The kernel that a call leaves.
abbrev left_by : {A : Type 0} → Option (A × Kernel ℕ ℕ) → Kernel ℕ ℕ
left_by none = start
left_by (some (r, s)) = s

abbrev or_start : Option (Kernel ℕ ℕ) → Kernel ℕ ℕ
or_start none = start
or_start (some s) = s

abbrev after_fork : Kernel ℕ ℕ
after_fork = left_by (fork memory files 0 start)

fork_runs : fork memory files 0 start ≡ some (pos 4, after_fork)
unfolding fork fork_with fork_from forked alloc_at allocproc dup_files scan
fork_runs = refl

wait_runs :
    wait memory files 0 0 start ≡ some (returned (pos 2), left_by (wait memory files 0 0 start))
unfolding wait wait_with wait_loop reap
wait_runs = refl

exit_runs : exit memory files 0 2 start ≡ some (or_start (exit memory files 0 2 start))
unfolding exit close_files
exit_runs = refl

on_after_fork : after_fork.cpus 0 ≡ some 0
unfolding fork fork_with fork_from forked alloc_at allocproc dup_files scan
on_after_fork = refl

two_steps : Reach memory files start (yield 0 0 after_fork)
two_steps = later (later here (forks 0 0 (pos 4) refl fork_runs)) (yields 0 0 on_after_fork refl)

Reach-IsSafe_example : IsSafe (yield 0 0 after_fork)
unfolding two_steps
Reach-IsSafe_example = Reach-IsSafe memory files two_steps (omega arith) start-IsSafe

fork_lem_example : ForkEnds memory files 0 start (pos 4) after_fork
fork_lem_example = fork_lem memory files 0 start (pos 4) after_fork refl fork_runs

exit_lem_example :
    (points_to start.initproc 2 ≡ false)
    × Exited memory files 0 2 start (or_start (exit memory files 0 2 start))
exit_lem_example =
    exit_lem memory files 0 2 start (or_start (exit memory files 0 2 start)) exit_runs

wait_lem_example : WaitEnds 0 0 start (returned (pos 2)) (left_by (wait memory files 0 0 start))
wait_lem_example =
    wait_lem memory files 0 0 start (returned (pos 2)) (left_by (wait memory files 0 0 start))
      wait_runs

abbrev after_kill : Kernel ℕ ℕ
after_kill = left_by (fork memory files 0 (kill 0 start).1)

second_fork_runs : fork memory files 0 (kill 0 start).1 ≡ some (pos 4, after_kill)
unfolding fork fork_with fork_from forked alloc_at allocproc dup_files scan kill kill_table
    kill_found
second_fork_runs = refl

kill_zero-fork_example :
    ((kill 0 start).0 ≡ pos 0)
    × ((np : ℕ) × ((start.table np).state ≡ unused)
        × ((after_kill.table np).pid ≡ 4)
        × ((after_kill.table np).state ≡ runnable)
        × ((after_kill.table np).parent ≡ some 0)
        × ((after_kill.table np).killed ≡ true))
kill_zero-fork_example =
    kill_zero-fork memory files start after_kill 0 4 3 (λ j b. ground arith) (omega arith) refl refl
      (omega arith) second_fork_runs

abbrev spent : Proc
spent = record first { priority = 0; timecpu = 1 }

increase_priority-never_yields_example :
    (long_run (plain ∷ raised ∷ plain ∷ []) (increase_priority spent).1).1 ≡ false
increase_priority-never_yields_example =
    increase_priority-never_yields spent (plain ∷ raised ∷ plain ∷ []) refl refl (omega arith)

abbrev ready : Kernel ℕ ℕ
ready = record start {
  table = λ i. if i == 5 then record blank { state = runnable; pid = 9 } else table i;
}

next_runnable-fair_example :
    (m : ℕ) × (next_runnable 3 ready ≡ some m)
    × (3 ≤ m)
    × (m ≤ 5)
    × ((ready.table m).state ≡ runnable)
    × ((k : ℕ) → 3 ≤ k → k < m → (ready.table k).state ≢ runnable)
    × (next_runnable 3 (record ready { table = λ k. record (ready.table k) { priority = 0 } })
        ≡ some m)
next_runnable-fair_example = next_runnable-fair 3 5 ready (λ k. 0) (omega arith) (omega arith) refl
