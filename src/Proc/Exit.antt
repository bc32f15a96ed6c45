-- ===== src/Proc/Exit.antt =====
-- What `exit` and `wait` do to the process table.
use cpsc.Prelude.{
  ℕ, zero, suc, ◌<◌, ◌≡◌, ◌∙◌, ap, refl, inl, inr, false, ◌&&◌, Option, none, some, ◌==◌, ltb,
  if◌then◌else◌, update, arith, Bool-cases, List, ◌>>=◌, Holds, bind-Holds,
}
use cpsc.Proc.{
  nproc, nofile, Chan, Table, points_to, MemOps, FileOps, Kernel, exit_table, wakeup_all,
}
use cpsc.Proc.Life.{closed, close_files, departed, exit}
use cpsc.Proc.Tree.{
  is_running, alive, dead, class, AllKept, Kept-refl, Kept-trans, update-AllKept,
  wakeup_all-AllKept, Left, exit_table-Left, Left-IsWf,
}
use cpsc.Proc.Birth.{KernelIsWf}

-- The tree of processes is the same, and so are the processors.
pub record SameTree {M F : Type 0} (s s' : Kernel M F) : Type 0 where
  pub kept : AllKept s.table s'.table
  pub nextpid : s'.nextpid ≡ s.nextpid
  pub initproc : s'.initproc ≡ s.initproc
  pub cpus : s'.cpus ≡ s.cpus

module _ {M F : Type 0} (mem : MemOps M) (file : FileOps F) where
  SameTree-trans : {a b c : Kernel M F} → SameTree a b → SameTree b c → SameTree a c
  SameTree-trans p q = record {
    kept = λ j. Kept-trans (p.kept j) (q.kept j);
    nextpid = q.nextpid ∙ p.nextpid;
    initproc = q.initproc ∙ p.initproc;
    cpus = q.cpus ∙ p.cpus;
  }

  closed-SameTree :
      (fd cur : ℕ) (done : F × List Chan) (s : Kernel M F)
      → SameTree s (closed mem file fd cur done s)
  unfolding closed
  closed-SameTree fd cur (fs, woken) s = record {
    kept = λ j. Kept-trans (wakeup_all-AllKept woken s.table j) (
        update-AllKept (wakeup_all woken s.table) cur _
          (record { pid = refl; parent = refl; same_class = refl; same_run = refl }) j);
    nextpid = refl;
    initproc = refl;
    cpus = refl;
  }

  Holds-later :
      {a b : Kernel M F}
      → SameTree a b
      → (o : Option (Kernel M F)) → Holds (SameTree b) o
      → Holds (SameTree a) o
  Holds-later p none h = tt
  Holds-later p (some c) h = SameTree-trans p h

  close_files-SameTree :
      (k fd cur : ℕ) (s : Kernel M F) → Holds (SameTree s) (close_files mem file k fd cur s)
  unfolding close_files
  close_files-SameTree zero fd cur s = record {
    kept = λ j. Kept-refl (s.table j);
    nextpid = refl;
    initproc = refl;
    cpus = refl;
  }
  close_files-SameTree (suc k) fd cur s = elim (Bool-cases ((s.table cur).ofile fd == 0)) [
    | inl none_open ↦ rw none_open (close_files-SameTree k (suc fd) cur s)
    | inr is_open ↦ rw is_open (
        bind-Holds (SameTree s) (file.fileclose ((s.table cur).ofile fd) s.files)
          (λ done. close_files mem file k (suc fd) cur (closed mem file fd cur done s))
          λ done e.
            Holds-later (closed-SameTree fd cur done s)
              (close_files mem file k (suc fd) cur (closed mem file fd cur done s))
              (close_files-SameTree k (suc fd) cur (closed mem file fd cur done s)))
  ]

  -- What `exit` leaves in the slot `j`.
  pub record Exited (c cur : ℕ) (s s' : Kernel M F) : Type 0 where
    pub pid : (j : ℕ) → (s'.table j).pid ≡ (s.table j).pid
    pub parent :
        (j : ℕ)
        → (s'.table j).parent ≡ (
            if ltb j nproc && points_to (s.table j).parent cur
            then s.initproc
            else (s.table j).parent)
    pub class_of :
        (j : ℕ) → class (s'.table j).state ≡ (if j == cur then dead else class (s.table j).state)
    pub run :
        (j : ℕ) → is_running (s'.table j) ≡ (if j == cur then false else is_running (s.table j))
    pub cpus : s'.cpus ≡ update s.cpus c none
    pub initproc : s'.initproc ≡ s.initproc
    pub nextpid : s'.nextpid ≡ s.nextpid

  departed-Exited :
      (c cur : ℕ) (done : F × List Chan) (s s1 : Kernel M F)
      → SameTree s s1
      → Exited c cur s (departed mem file c cur done s1)
  unfolding departed
  departed-Exited c cur (fs, woken) s s1 same = record {
    pid = λ j. ground (arith, slots j, kept j);
    parent = λ j. ground (arith, slots j, kept j, same.initproc);
    class_of = λ j. ground (arith, slots j, kept j);
    run = λ j. ground (arith, slots j, kept j);
    cpus = ap (λ f. update f c none) same.cpus;
    initproc = same.initproc;
    nextpid = same.nextpid;
  }
    where
      t : Table
      t =
          update (wakeup_all woken s1.table) cur
            (record (wakeup_all woken s1.table cur) { cwd = 0 })

      kept : AllKept s.table t
      kept j = Kept-trans (same.kept j) (
          Kept-trans (wakeup_all-AllKept woken s1.table j) (
            update-AllKept (wakeup_all woken s1.table) cur _
              (record { pid = refl; parent = refl; same_class = refl; same_run = refl }) j))

      slots : Left cur s1.initproc t (exit_table cur s1.initproc t)
      slots = exit_table-Left cur s1.initproc t

  exit-Exited : (c cur : ℕ) (s : Kernel M F) → Holds (Exited c cur s) (exit mem file c cur s)
  unfolding exit
  exit-Exited c cur s = elim (Bool-cases (points_to s.initproc cur)) [
    | inl is_init ↦ rw is_init tt
    | inr other ↦ rw other (
        bind-Holds (Exited c cur s) (close_files mem file nofile 0 cur s)
          (λ s1. file.drop_dir (s1.table cur).cwd s1.files >>= λ done.
            some (departed mem file c cur done s1))
          λ s1 e.
            bind-Holds (Exited c cur s) (file.drop_dir (s1.table cur).cwd s1.files)
              (λ done. some (departed mem file c cur done s1))
              λ done e'.
                departed-Exited c cur done s s1 (rw e at (close_files-SameTree nofile 0 cur s)))
  ]

  -- If `exit` does not panic, the caller is not `init` and is left a ZOMBIE; its children are
  -- children of `init`; every process number, and whether any other process is alive, dead or free,
  -- is as before; and the processor has no process.
  pub exit_lem :
      (c cur : ℕ) (s s' : Kernel M F)
      → exit mem file c cur s ≡ some s'
      → (points_to s.initproc cur ≡ false) × Exited c cur s s'
  unfolding exit
  exit_lem c cur s s' e = (ground arith, rw e at (exit-Exited c cur s))

  pub Exited-IsWf :
      (c cur : ℕ) {s s' : Kernel M F}
      → Exited c cur s s'
      → points_to s.initproc cur ≡ false
      → cur < nproc
      → class (s.table cur).state ≡ alive
      → KernelIsWf s
      → KernelIsWf s'
  Exited-IsWf c cur {s} {s'} x other b live w =
      rw (x.nextpid, x.initproc)
        (Left-IsWf cur s.initproc (λ j. (x.pid j, x.parent j, x.class_of j, x.run j)) other b live
          w)
