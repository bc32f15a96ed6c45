-- ===== src/Proc/Safety.antt =====
-- What holds of proc.c's processes and processors in every state that can be reached.
use cpsc.Prelude.{ℕ, ◌+◌, ◌^◌, ◌≤◌, ◌<◌, ◌≡◌, refl, ap, inl, inr, ◌==◌, arith, Bool-cases, Holds}
use cpsc.Prelude.Int.{pos, negsuc}
use cpsc.Proc.{sleeping, runnable, Chan, MemOps, FileOps, Kernel}
use cpsc.Proc.Life.{Waited, returned, asleep}
use cpsc.Proc.Sched.{yield, sleep, tidy_up, wakeup, kill, switch_to}
use cpsc.Proc.Tree.{update-AllKept, wakeup1-AllKept}
use cpsc.Proc.Fork.{fork_lem}
use cpsc.Proc.Exit.{exit_lem}
use cpsc.Proc.Wait.{WaitEnds, wait_lem}
use cpsc.Proc.System.{
  Step, forks, exits, waits, yields, sleeps, tidies, wakes, kills, schedules, shifts, ticks, raises,
  forks_of, Reach, here, later, forks_in,
}
use cpsc.Proc.Keep.{kill_table-AllKept, priority_shift-AllKept, tick-Kept, increase_priority-Kept}
use cpsc.Proc.Preserve.{
  IsSafe, fork-IsSafe, exit-IsSafe, WaitEnds-IsSafe, kept-IsSafe, OffCpu-IsSafe, give_up-OffCpu,
  switch_to-IsSafe,
}

module _ {M F : Type 0} (mem : MemOps M) (file : FileOps F) where
  -- Every step of a processor's process, of the scheduler of an idle processor, or from outside,
  -- keeps the process tree well-formed and processors and RUNNING processes matched.
  pub Step-IsSafe :
      {s s' : Kernel M F} (st : Step mem file s s')
      → s.nextpid + forks_of mem file st < 2 ^ 31
      → IsSafe s
      → IsSafe s'
  unfolding yield sleep tidy_up wakeup kill
  Step-IsSafe (forks c cur r on e) room v = fork-IsSafe mem file c cur r on e room v
  Step-IsSafe (exits c cur on e) room v = exit-IsSafe mem file c cur on e v
  Step-IsSafe {s} {s'} (waits c cur o on e) room v =
      WaitEnds-IsSafe mem file c cur on o (wait_lem mem file c cur s o s' e) v
  Step-IsSafe {s} (yields c cur on e) room v = rw e (
      OffCpu-IsSafe c cur on
        (give_up-OffCpu s c cur (record (s.table cur) { state = runnable }) (refl, refl) refl refl)
        v)
  Step-IsSafe {s} (sleeps c cur ch on e) room v = rw e (
      OffCpu-IsSafe c cur on
        (give_up-OffCpu s c cur (record (s.table cur) { chan = ch; state = sleeping }) (refl, refl)
          refl refl)
        v)
  Step-IsSafe {s} (tidies c cur on e) room v = rw e (
      kept-IsSafe _
        (update-AllKept s.table cur (record (s.table cur) { chan = Chan.null })
          (record { pid = refl; parent = refl; same_class = refl; same_run = refl }))
        v)
  Step-IsSafe {s} (wakes ch e) room v = rw e (kept-IsSafe _ (wakeup1-AllKept ch s.table) v)
  Step-IsSafe {s} (kills pid e) room v = rw e (kept-IsSafe _ (kill_table-AllKept pid s.table) v)
  Step-IsSafe {s} {s'} (schedules c i idle b able e) room v =
      rw e at (switch_to-IsSafe s c i idle b able v)
  Step-IsSafe {s} (shifts bump e) room v =
      rw e (kept-IsSafe _ (priority_shift-AllKept bump s.table) v)
  Step-IsSafe {s} (ticks c cur on e) room v =
      rw e (kept-IsSafe _ (update-AllKept s.table cur _ (tick-Kept (s.table cur))) v)
  Step-IsSafe {s} (raises c cur on e) room v =
      rw e (kept-IsSafe _ (update-AllKept s.table cur _ (increase_priority-Kept (s.table cur))) v)

  wait-nextpid :
      (s s' : Kernel M F) (c cur : ℕ) (o : Waited) → WaitEnds c cur s o s' → s'.nextpid ≡ s.nextpid
  wait-nextpid s s' c cur (returned (pos pid)) (z, b, p, st, number, o) = o.nextpid
  wait-nextpid s s' c cur (returned (negsuc n)) (zero_n, same, none_dead, why) =
      ap (λ k. k.nextpid) same
  wait-nextpid s s' c cur asleep (child, none_dead, alive_cur, (st, ch, o)) = o.nextpid

  switch_to-nextpid :
      (s : Kernel M F) (c i : ℕ) → Holds (λ s'. s'.nextpid ≡ s.nextpid) (switch_to c i s)
  unfolding switch_to
  switch_to-nextpid s c i = elim (Bool-cases ((s.table i).pgdir == 0)) [
    | inl null_dir ↦ rw null_dir tt
    | inr mapped ↦ rw mapped refl
  ]

  -- Only a fork takes a number.
  Step-nextpid :
      {s s' : Kernel M F} (st : Step mem file s s')
      → IsSafe s
      → s'.nextpid ≤ s.nextpid + forks_of mem file st
  unfolding yield sleep tidy_up wakeup kill
  Step-nextpid {s} {s'} (forks c cur r on e) v =
      elim (fork_lem mem file cur s r s' (v.run.on_cpu c cur on).1 e) [
        | inl (minus, f) ↦ omega (arith, f.nextpid)
        | inr (np, dir, m, m', pid, copied, ne, ch) ↦ omega (arith, ch.nextpid)
      ]
  Step-nextpid {s} {s'} (exits c cur on e) v =
      omega (arith, (exit_lem mem file c cur s s' e).1.nextpid)
  Step-nextpid {s} {s'} (waits c cur o on e) v =
      omega (arith, wait-nextpid s s' c cur o (wait_lem mem file c cur s o s' e))
  Step-nextpid (yields c cur on e) v = rw e (omega arith)
  Step-nextpid (sleeps c cur ch on e) v = rw e (omega arith)
  Step-nextpid (tidies c cur on e) v = rw e (omega arith)
  Step-nextpid (wakes ch e) v = rw e (omega arith)
  Step-nextpid (kills pid e) v = rw e (omega arith)
  Step-nextpid {s} {s'} (schedules c i idle b able e) v =
      omega (arith, rw e at (switch_to-nextpid s c i))
  Step-nextpid (shifts bump e) v = rw e (omega arith)
  Step-nextpid (ticks c cur on e) v = rw e (omega arith)
  Step-nextpid (raises c cur on e) v = rw e (omega arith)

  -- A safe state and the numbers that `n` forks may have taken.
  Reach-both :
      {s s' : Kernel M F} (r : Reach mem file s s')
      → s.nextpid + forks_in mem file r < 2 ^ 31
      → IsSafe s
      → IsSafe s' × (s'.nextpid ≤ s.nextpid + forks_in mem file r)
  Reach-both here room v = (v, omega arith)
  Reach-both (later r st) room v =
      let (w, le) = Reach-both r (omega arith) v in
      (Step-IsSafe st (omega (arith, le)) w, omega (arith, le, Step-nextpid st w))

  -- From a safe state, every state that any sequence of steps reaches is safe, as long as the forks
  -- among the steps are not so many that `nextpid` overflows: process numbers in use differ, every
  -- parent and `init` is alive, no slot is half built, a processor's process is RUNNING and each
  -- RUNNING process is on exactly one processor.
  pub Reach-IsSafe :
      {s s' : Kernel M F} (r : Reach mem file s s')
      → s.nextpid + forks_in mem file r < 2 ^ 31
      → IsSafe s
      → IsSafe s'
  Reach-IsSafe r room v = (Reach-both r room v).0
