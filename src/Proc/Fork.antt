-- ===== src/Proc/Fork.antt =====
-- What `fork` does on each of its paths.
use native.Mathlib.Decide.{ℕ_discrete}
use cpsc.Prelude.{
  ℕ, ◌+◌, ◌%◌, ◌^◌, ◌<◌, ◌≡◌, ◌≢◌, ◌∙◌, refl, ◌⊎◌, inl, inr, Option, none, some, ◌==◌, update,
  update_self, update_ne, arith, Bool-cases, ◌>>=◌,
}
use cpsc.Prelude.Int.{ℤ, pos, minus_one}
use cpsc.Proc.{nproc, unused, embryo, running, Ptr, MemOps, FileOps, Kernel}
use cpsc.Proc.Life.{no_copy, set_up, allocproc, undone, forked, fork_from, fork_with, fork}
use cpsc.Proc.Tree.{alive, class, IsWf, AllKept-IsWf, Kept, Kept-refl}
use cpsc.Proc.Birth.{KernelIsWf, Failed, Child, Alloc, allocproc-Alloc, add-IsWf}

pub Child-IsWf :
    {M F : Type 0} {cur np dir : ℕ} {s s' : Kernel M F}
    → Child cur np dir s s'
    → cur < nproc
    → class (s.table cur).state ≡ alive
    → s.nextpid + 1 < 2 ^ 31
    → KernelIsWf s
    → KernelIsWf s'
Child-IsWf {cur} {np} {s} {s'} ch b live room w = rw ch.initproc (AllKept-IsWf same added)
  where
    added : IsWf (update s.table np (s'.table np)) s'.nextpid s.initproc
    added =
        add-IsWf np (s'.table np) w cur b live (ground (arith, ch.was_unused))
          (ground (arith, ch.state)) ch.parent ch.pid (ch.nextpid ∙ omega (arith, room))

    same : (j : ℕ) → Kept (update s.table np (s'.table np) j) (s'.table j)
    same j = elim (ℕ_discrete j np) [
      | yes e ↦ rw (e, update_self s.table np (s'.table np)) (Kept-refl (s'.table np))
      | no ne ↦ rw (update_ne s.table np (s'.table np) j ne, ch.others j ne) (Kept-refl (s.table j))
    ]

module _ {M F : Type 0} (mem : MemOps M) (file : FileOps F) where
  -- How a `fork` by `cur` may end. For a child, `dir` is what `copyuvm` returned.
  abbrev pub ForkEnds : ℕ → Kernel M F → ℤ → Kernel M F → Type 0
  ForkEnds cur s r s' =
      ((r ≡ minus_one) × Failed s s')
      ⊎ ((np : ℕ) × (dir : ℕ) × (m : M) × (m' : M) × (r ≡ pos s.nextpid)
          × (mem.copyuvm (s.table cur).pgdir (s.table cur).sz m ≡ some (dir, m'))
          × (dir ≢ no_copy)
          × Child cur np dir s s')

  abbrev Ends : ℕ → Kernel M F → Option (ℤ × Kernel M F) → Type 0
  Ends cur s none = Unit {0}
  Ends cur s (some (r, s')) = ForkEnds cur s r s'

  bind-Ends :
      {A : Type 0} (cur : ℕ) (s : Kernel M F) (o : Option A) (f : A → Option (ℤ × Kernel M F))
      → ((a : A) → o ≡ some a → Ends cur s (f a))
      → Ends cur s (o >>= f)
  bind-Ends cur s none f h = tt
  bind-Ends cur s (some a) f h = h a refl

  module _ (cur np page : ℕ) (m : M) (s : Kernel M F) (ne : cur ≢ np) (b : np < nproc)
      (empty : (s.table np).state ≡ unused)
      (first : (j : ℕ) → j < np → (s.table j).state ≢ unused) where
    abbrev allocated : M → Kernel M F
    allocated m' = record s {
      table =
          update s.table np
            (set_up mem file page (record (s.table np) { state = embryo; pid = s.nextpid }));
      nextpid = (s.nextpid + 1) % 2 ^ 32;
      mem = m';
    }

    parent_kept : (m' : M) → (allocated m').table cur ≡ s.table cur
    parent_kept m' = update_ne s.table np _ cur ne

    undone-Failed : (dir : ℕ) (m' m'' : M) → Failed s (undone mem file np dir m'' (allocated m'))
    unfolding undone
    undone-Failed dir m' m'' = record {
      table = λ j u. ground arith;
      freed = λ j u. ground arith;
      files = refl;
      cpus = refl;
      initproc = refl;
      parents = λ j. ground arith;
      nextpid = inr refl;
    }

    forked-Child :
        (dir : ℕ) (m' : M) (ofile : ℕ → ℕ) (fs : F)
        → Child cur np dir s (forked mem file cur np dir ofile fs (allocated m'))
    unfolding forked
    forked-Child dir m' ofile fs = record {
      slot_lt = b;
      was_unused = empty;
      lowest = first;
      others = λ j n. ground arith;
      state = ground arith;
      pid = ground arith;
      parent = ground arith;
      eax = ground arith;
      registers = ground arith;
      sz = ground arith;
      pgdir = ground arith;
      killed = ground arith;
      queue = ground arith;
      nextpid = refl;
      cpus = refl;
      initproc = refl;
    }

    fork_from-Ends :
        (dir : ℕ) (m m' : M)
        → mem.copyuvm (s.table cur).pgdir (s.table cur).sz m ≡ some (dir, m')
        → Ends cur s (fork_from mem file cur np dir (allocated m'))
    unfolding fork_from
    fork_from-Ends dir m m' copied = elim (Bool-cases (dir == no_copy)) [
      | inl failed ↦ rw failed (
          bind-Ends cur s _ (λ m''. some (minus_one, undone mem file np dir m'' (allocated m')))
            λ m'' e. inl (refl, undone-Failed dir m' m''))
      | inr done ↦ rw done (
          bind-Ends cur s _ (λ c. some (_, forked mem file cur np dir c.0 c.1 (allocated m')))
            λ c e.
              inr (np, dir, m, m', ground arith, copied, ground arith, forked-Child dir m' c.0 c.1))
    ]

  fork_with-Ends :
      (cur : ℕ) (s : Kernel M F) (a : Ptr × Kernel M F)
      → (s.table cur).state ≡ running
      → Alloc mem file s a
      → Ends cur s (fork_with mem file cur a)
  unfolding fork_with
  fork_with-Ends cur s (none, s1) run f = inl (refl, f)
  fork_with-Ends cur s (some np, s1) run (b, (empty, first), (page, m, e)) =
      rw (e, parent_kept cur np page m s ne b empty first m)
        (bind-Ends cur s (mem.copyuvm (s.table cur).pgdir (s.table cur).sz m)
          (λ r. fork_from mem file cur np r.0 (allocated cur np page m s ne b empty first r.1))
          λ r e'. fork_from-Ends cur np page m s ne b empty first r.0 m r.1 e')
    where
      ne : cur ≢ np
      ne = λ k. ground arith

  -- If `fork` returns, then either it returns -1, and no process in use, no open file and no
  -- processor has changed; or it returns the next process number, a slot that was unused holds a
  -- RUNNABLE child of the caller with that number, the caller's size and registers but a zero
  -- `eax`, in the high priority, with the page directory that `copyuvm` returned, and no other slot
  -- has changed.
  pub fork_lem :
      (cur : ℕ) (s : Kernel M F) (r : ℤ) (s' : Kernel M F)
      → (s.table cur).state ≡ running
      → fork mem file cur s ≡ some (r, s')
      → ForkEnds cur s r s'
  unfolding fork fork_with
  fork_lem cur s r s' run e =
      rw e at (fork_with-Ends cur s (allocproc mem file s) run (allocproc-Alloc mem file s))
