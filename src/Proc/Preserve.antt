-- ===== src/Proc/Preserve.antt =====
-- What the operations of proc.c keep of the process tree and the processors together.
use native.Mathlib.Decide.{ℕ_discrete}
use cpsc.Prelude.{
  ℕ, ◌+◌, ◌^◌, ◌<◌, ◌≡◌, ◌∙◌, sym, ap, refl, inl, inr, false, none, some, ◌==◌, if◌then◌else◌,
  update, update_self, update_ne, arith, Bool-cases, Holds,
}
use cpsc.Prelude.Int.{ℤ, pos, negsuc}
use cpsc.Proc.{nproc, runnable, zombie, Proc, Table, MemOps, FileOps, Kernel}
use cpsc.Proc.Life.{fork, exit, Waited, returned, asleep}
use cpsc.Proc.Sched.{give_up, switch_to}
use cpsc.Proc.Tree.{
  alive, class, is_running, IsWf, AllKept, AllKept-IsWf, same_tree-IsWf, Kept-refl,
}
use cpsc.Proc.Birth.{KernelIsWf, Failed, Failed-IsWf, Child, retire-IsWf}
use cpsc.Proc.Fork.{fork_lem, Child-IsWf}
use cpsc.Proc.Exit.{exit_lem, Exited-IsWf}
use cpsc.Proc.Wait.{OffCpu, Reaped, WaitEnds}
use cpsc.Proc.System.{IsRun}
use cpsc.Proc.Keep.{same_cpus-IsRun, left_cpu-IsRun, took_cpu-IsRun}

-- The process tree is well-formed, and processors and RUNNING processes match.
pub record IsSafe {M F : Type 0} (s : Kernel M F) : Type 0 where
  pub wf : KernelIsWf s
  pub run : IsRun s

module _ {M F : Type 0} where
  -- A step that keeps every process, and the processors.
  pub kept-IsSafe :
      {s : Kernel M F} (t : Table) → AllKept s.table t → IsSafe s → IsSafe (record s { table = t })
  kept-IsSafe t kept v = record {
    wf = AllKept-IsWf kept v.wf;
    run = same_cpus-IsRun (λ j b. (kept j).same_run) refl v.run;
  }

  -- The process of a processor stops running, alive.
  pub OffCpu-IsSafe :
      {s s' : Kernel M F} (c cur : ℕ)
      → s.cpus c ≡ some cur
      → OffCpu c cur s s'
      → IsSafe s
      → IsSafe s'
  OffCpu-IsSafe {s} {s'} c cur on o v = record {
    wf =
        rw (o.initproc, o.nextpid)
          (same_tree-IsWf (λ j. ((slots j).0, (slots j).1, (slots j).2)) v.wf);
    run = left_cpu-IsRun c cur on (λ j. (slots j).3) o.cpus v.run;
  }
    where
      was : class (s.table cur).state ≡ alive
      was = ground (arith, v.run.on_cpu c cur on)

      slots :
          (j : ℕ)
          → ((s'.table j).pid ≡ (s.table j).pid)
            × ((s'.table j).parent ≡ (s.table j).parent)
            × (class (s'.table j).state ≡ class (s.table j).state)
            × (is_running (s'.table j) ≡ (if j == cur then false else is_running (s.table j)))
      slots j = elim (ℕ_discrete j cur) [
        | yes e ↦ rw e (o.pid, o.parent, o.live ∙ sym was, o.still ∙ ground arith)
        | no ne ↦ rw (o.others j ne) (refl, refl, refl, ground arith)
      ]

  pub give_up-OffCpu :
      (s : Kernel M F) (c cur : ℕ) (q : Proc)
      → (q.pid ≡ (s.table cur).pid) × (q.parent ≡ (s.table cur).parent)
      → class q.state ≡ alive
      → is_running q ≡ false
      → OffCpu c cur s (give_up c cur q s)
  give_up-OffCpu s c cur q same live still = record {
    others = λ j ne. update_ne s.table cur q j ne;
    pid = rw (update_self s.table cur q) same.0;
    parent = rw (update_self s.table cur q) same.1;
    live = rw (update_self s.table cur q) live;
    still = rw (update_self s.table cur q) still;
    cpus = refl;
    initproc = refl;
    nextpid = refl;
  }

  pub switch_to-IsSafe :
      (s : Kernel M F) (c i : ℕ)
      → s.cpus c ≡ none
      → i < nproc
      → (s.table i).state ≡ runnable
      → IsSafe s
      → Holds IsSafe (switch_to c i s)
  unfolding switch_to
  switch_to-IsSafe s c i idle b able v = elim (Bool-cases ((s.table i).pgdir == 0)) [
    | inl null_dir ↦ rw null_dir tt
    | inr mapped ↦ rw mapped (record {
      wf = same_tree-IsWf (λ j. ground arith) v.wf;
      run = took_cpu-IsRun c i idle b able (λ j. ground arith) refl v.run;
    })
  ]

  Failed-run :
      {s s' : Kernel M F} → Failed s s' → (j : ℕ) → is_running (s'.table j) ≡ is_running (s.table j)
  Failed-run f j = ground (arith, f.table j, f.freed j)

  Child-run :
      {cur np dir : ℕ} {s s' : Kernel M F}
      → Child cur np dir s s'
      → (j : ℕ) → is_running (s'.table j) ≡ is_running (s.table j)
  Child-run {np} ch j = elim (ℕ_discrete j np) [
    | yes e ↦ rw (e, ch.state, ch.was_unused) refl
    | no ne ↦ rw (ch.others j ne) refl
  ]

  Reaped-IsSafe :
      {s s' : Kernel M F} (z : ℕ)
      → (s.table z).state ≡ zombie
      → Reaped z s s'
      → IsSafe s
      → IsSafe s'
  Reaped-IsSafe {s} {s'} z dead_z o v = record {
    wf = rw (o.initproc, o.nextpid) (AllKept-IsWf same cleared);
    run = same_cpus-IsRun (λ j b. ran j) o.cpus v.run;
  }
    where
      cleared : IsWf (update s.table z (s'.table z)) s.nextpid s.initproc
      cleared =
          retire-IsWf z (s'.table z) v.wf (λ e. ground arith) (ap class o.state) o.cleared.1
            (omega arith)

      same : AllKept (update s.table z (s'.table z)) s'.table
      same j = elim (ℕ_discrete j z) [
        | yes e ↦ rw (e, update_self s.table z (s'.table z)) (Kept-refl (s'.table z))
        | no ne ↦ rw (update_ne s.table z (s'.table z) j ne, o.others j ne) (Kept-refl (s.table j))
      ]

      ran : (j : ℕ) → is_running (s'.table j) ≡ is_running (s.table j)
      ran j = elim (ℕ_discrete j z) [
        | yes e ↦ rw (e, o.state, dead_z) refl
        | no ne ↦ rw (o.others j ne) refl
      ]

module _ {M F : Type 0} (mem : MemOps M) (file : FileOps F) where
  pub fork-IsSafe :
      {s s' : Kernel M F} (c cur : ℕ) (r : ℤ)
      → s.cpus c ≡ some cur
      → fork mem file cur s ≡ some (r, s')
      → s.nextpid + 1 < 2 ^ 31
      → IsSafe s
      → IsSafe s'
  fork-IsSafe {s} {s'} c cur r on e room v =
      let (b, run) = v.run.on_cpu c cur on in
      elim (fork_lem mem file cur s r s' run e) [
        | inl (minus, f) ↦ record {
          wf = Failed-IsWf f room v.wf;
          run = same_cpus-IsRun (λ j b'. Failed-run f j) f.cpus v.run;
        }
        | inr (np, dir, m, m', pid, copied, ne, ch) ↦ record {
          wf = Child-IsWf ch b (ground arith) room v.wf;
          run = same_cpus-IsRun (λ j b'. Child-run ch j) ch.cpus v.run;
        }
      ]

  pub exit-IsSafe :
      {s s' : Kernel M F} (c cur : ℕ)
      → s.cpus c ≡ some cur
      → exit mem file c cur s ≡ some s'
      → IsSafe s
      → IsSafe s'
  exit-IsSafe {s} {s'} c cur on e v =
      let (b, run) = v.run.on_cpu c cur on in
      let (other, x) = exit_lem mem file c cur s s' e in
      record {
        wf = Exited-IsWf mem file c cur x other b (ground arith) v.wf;
        run = left_cpu-IsRun c cur on x.run x.cpus v.run;
      }

  pub WaitEnds-IsSafe :
      {s s' : Kernel M F} (c cur : ℕ)
      → s.cpus c ≡ some cur
      → (o : Waited) → WaitEnds c cur s o s'
      → IsSafe s
      → IsSafe s'
  WaitEnds-IsSafe c cur on (returned (pos pid)) (z, b, p, st, number, o) v = Reaped-IsSafe z st o v
  WaitEnds-IsSafe c cur on (returned (negsuc n)) (zero_n, same, none_dead, why) v = rw same v
  WaitEnds-IsSafe c cur on asleep (child, none_dead, alive_cur, (st, ch, o)) v =
      OffCpu-IsSafe c cur on o v
