-- ===== src/Proc/Keep.antt =====
-- The operations of proc.c that leave the tree of processes alone, and which process runs where.
use native.Mathlib.Decide.{ℕ_discrete}
use cpsc.Prelude.{
  ℕ, ◌+◌, ◌<◌, ◌≡◌, ◌≢◌, ◌∙◌, sym, ap, ◌⊎◌, inl, inr, true, false, ◌&&◌, Option, none, some, ◌==◌,
  ltb, leb, if◌then◌else◌, update, arith, Bool-cases,
}
use cpsc.Proc.{nproc, runnable, running, Proc, Table, Kernel, kill_table, kill_found, marked, scan}
use cpsc.Proc.Sched.{shift_rounds, priority_shift, raise, increase_priority, tick}
use cpsc.Proc.Scan.{for_each-slots}
use cpsc.Proc.Tree.{is_running, AllKept, AllKept-IsWf, Kept, Kept-refl, either-Kept, update-AllKept}
use cpsc.Proc.Birth.{KernelIsWf}
use cpsc.Proc.Exit.{SameTree}
use cpsc.Proc.System.{IsRun}

kill_found-AllKept : (o : Option ℕ) (t : Table) → AllKept t (kill_found o t).1
unfolding kill_found
kill_found-AllKept none t = λ j. Kept-refl (t j)
kill_found-AllKept (some i) t = update-AllKept t i (marked (t i)) (ground arith)

pub kill_table-AllKept : (pid : ℕ) (t : Table) → AllKept t (kill_table pid t).1
unfolding kill_table
kill_table-AllKept pid t = kill_found-AllKept (scan (λ p. p.pid == pid) nproc 0 t) t

raise-Kept : (p : Proc) → Kept p (raise p)
raise-Kept p = ground arith

pub priority_shift-AllKept : (bump : ℕ) (t : Table) → AllKept t (priority_shift bump t).1
unfolding priority_shift
priority_shift-AllKept bump t j = elim (Bool-cases (leb shift_rounds (bump + 1))) [
  | inl due ↦
      rw (due, for_each-slots raise nproc 0 t j)
        (either-Kept (leb 0 j && ltb j (0 + nproc)) (raise-Kept (t j)))
  | inr early ↦ rw early (Kept-refl (t j))
]

pub tick-Kept : (p : Proc) → Kept p (tick p).0
unfolding tick
tick-Kept p = ground arith

pub increase_priority-Kept : (p : Proc) → Kept p (increase_priority p).1
unfolding increase_priority
increase_priority-Kept p = ground arith

module _ {M F : Type 0} where
  pub SameTree-IsWf : {s s' : Kernel M F} → SameTree s s' → KernelIsWf s → KernelIsWf s'
  SameTree-IsWf same w = rw (same.nextpid, same.initproc) (AllKept-IsWf same.kept w)

  -- The processors stay, and each process is RUNNING or not as before.
  pub same_cpus-IsRun :
      {s s' : Kernel M F}
      → ((j : ℕ) → j < nproc → is_running (s'.table j) ≡ is_running (s.table j))
      → s'.cpus ≡ s.cpus
      → IsRun s
      → IsRun s'
  same_cpus-IsRun {s} {s'} same cpus r = record {
    on_cpu = λ c i e. let (b, run) = r.on_cpu c i (ground arith) in (b, ground (arith, same i b));
    has_cpu = λ i b e. rw cpus (r.has_cpu i b (ground (arith, same i b)));
    one_cpu = λ c d i. rw cpus (r.one_cpu c d i);
  }

  -- The process of a processor leaves it, and each other process is RUNNING or not as before.
  pub left_cpu-IsRun :
      {s s' : Kernel M F} (c cur : ℕ)
      → s.cpus c ≡ some cur
      → ((j : ℕ) → is_running (s'.table j) ≡ (if j == cur then false else is_running (s.table j)))
      → s'.cpus ≡ update s.cpus c none
      → IsRun s
      → IsRun s'
  left_cpu-IsRun {s} {s'} c cur on same cpus r = record {
    on_cpu = λ d i e.
        let (other, before) = stays d i (rw cpus at e) in
        let (b, run) = r.on_cpu d i before in
        let ne : i ≢ cur = λ q. other (r.one_cpu d c i before (on ∙ ap some (sym q))) in
        (b, ground (arith, same i));
    has_cpu = λ i b e.
        let (ne, run) = ran i (ground arith) (same i) in
        let (d, on_d) = r.has_cpu i b run in (d, rw cpus (ground arith));
    one_cpu =
        λ d k i e e'. r.one_cpu d k i (stays d i (rw cpus at e)).1 (stays k i (rw cpus at e')).1;
  }
    where
      stays : (d i : ℕ) → update s.cpus c none d ≡ some i → (d ≢ c) × (s.cpus d ≡ some i)
      stays d i e = (ground arith, ground arith)

      ran :
          (i : ℕ)
          → is_running (s'.table i) ≡ true
          → is_running (s'.table i) ≡ (if i == cur then false else is_running (s.table i))
          → (i ≢ cur) × ((s.table i).state ≡ running)
      ran i e same_i = (ground arith, ground arith)

  -- An idle processor takes a RUNNABLE process.
  pub took_cpu-IsRun :
      {s s' : Kernel M F} (c i : ℕ)
      → s.cpus c ≡ none
      → i < nproc
      → (s.table i).state ≡ runnable
      → ((j : ℕ) → (s'.table j).state ≡ (if j == i then running else (s.table j).state))
      → s'.cpus ≡ update s.cpus c (some i)
      → IsRun s
      → IsRun s'
  took_cpu-IsRun {s} {s'} c i idle b able same cpus r = record {
    on_cpu = λ d k e. ground (arith, r.on_cpu d k, same k, run_on d k (rw cpus at e));
    has_cpu = λ k b' e. elim (ℕ_discrete k i) [
      | yes q ↦ (c, rw cpus (ground arith))
      | no q ↦
          let run : (s.table k).state ≡ running = ground (arith, same k) in
          let (d, on_d) = r.has_cpu k b' run in (d, rw cpus (ground arith))
    ];
    one_cpu = λ d k m e e'. ground (
      arith,
      run_on d m (rw cpus at e),
      run_on k m (rw cpus at e'),
      r.one_cpu d k m,
      r.on_cpu d m,
      r.on_cpu k m,
    );
  }
    where
      run_on :
          (d k : ℕ)
          → update s.cpus c (some i) d ≡ some k
          → ((d ≡ c) × (k ≡ i)) ⊎ ((d ≢ c) × (s.cpus d ≡ some k))
      run_on d k e = elim (ℕ_discrete d c) [
        | yes q ↦ inl (q, ground arith)
        | no q ↦ inr (q, ground arith)
      ]
