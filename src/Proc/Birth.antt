-- ===== src/Proc/Birth.antt =====
-- How `fork` fills a slot of the process table and `wait` frees one.
use cpsc.Prelude.{
  ℕ, suc, ◌+◌, ◌%◌, ◌^◌, ◌≤◌, ◌<◌, ◌≡◌, ◌≢◌, ◌∙◌, ◌⊎◌, sym, refl, inl, inr, Option, none, some,
  ◌==◌, update, arith, Bool-cases,
}
use cpsc.Proc.{
  nproc, unused, embryo, runnable, Ptr, Proc, Table, MemOps, FileOps, Kernel, scan, is_state,
}
use cpsc.Proc.Life.{set_up, alloc_at, allocproc}
use cpsc.Proc.Scan.{scan-Found, Found}
use cpsc.Proc.Tree.{free, alive, class, IsWf}

-- A slot in which no process is alive is freed, or stays free.
module _ {t : Table} {n m : ℕ} {init : Ptr} (i : ℕ) (q : Proc) (w : IsWf t n init) where
  pub retire-IsWf :
      class (t i).state ≢ alive
      → class q.state ≡ free
      → q.parent ≡ none
      → n ≤ m
      → IsWf (update t i q) m init
  retire-IsWf gone cleared orphan le = record {
    pid_lt = λ j a. ground (arith, w.pid_lt j a);
    pid_unique = λ j k a b. ground (arith, w.pid_unique j k a b);
    parent_alive = λ j k a. ground (arith, w.parent_alive j k a);
    init_alive = λ j. ground (arith, w.init_alive j);
    settled = λ j a. ground (arith, w.settled j a);
  }

  -- A free slot gets a process with the next number, under a parent that is alive.
  pub add-IsWf :
      (cur : ℕ)
      → cur < nproc
      → class (t cur).state ≡ alive
      → class (t i).state ≡ free
      → class q.state ≡ alive
      → q.parent ≡ some cur
      → q.pid ≡ n
      → m ≡ suc n
      → IsWf (update t i q) m init
  add-IsWf cur b live empty new under number next = record {
    pid_lt = λ j a. ground (arith, w.pid_lt j a);
    pid_unique = λ j k a b. ground (arith, w.pid_unique j k a b, w.pid_lt j a, w.pid_lt k b);
    parent_alive = λ j k a. ground (arith, w.parent_alive j k a);
    init_alive = λ j. ground (arith, w.init_alive j);
    settled = λ j a. ground (arith, w.settled j a);
  }

module _ {M F : Type 0} where
  abbrev pub KernelIsWf : Kernel M F → Type 0
  KernelIsWf s = IsWf s.table s.nextpid s.initproc

  -- A failed `fork` changes no process in use, no file and no processor.
  pub record Failed (s s' : Kernel M F) : Type 0 where
    pub table : (j : ℕ) → class (s.table j).state ≢ free → s'.table j ≡ s.table j
    pub freed : (j : ℕ) → class (s.table j).state ≡ free → class (s'.table j).state ≡ free
    pub files : s'.files ≡ s.files
    pub cpus : s'.cpus ≡ s.cpus
    pub initproc : s'.initproc ≡ s.initproc
    pub parents : (j : ℕ) → (s'.table j).parent ≡ (s.table j).parent
    pub nextpid : (s'.nextpid ≡ s.nextpid) ⊎ (s'.nextpid ≡ (s.nextpid + 1) % 2 ^ 32)

  -- A child of `cur` in the slot `np`, which was unused.
  pub record Child (cur np dir : ℕ) (s s' : Kernel M F) : Type 0 where
    pub slot_lt : np < nproc
    pub was_unused : (s.table np).state ≡ unused
    pub lowest : (j : ℕ) → j < np → (s.table j).state ≢ unused
    pub others : (j : ℕ) → j ≢ np → s'.table j ≡ s.table j
    pub state : (s'.table np).state ≡ runnable
    pub pid : (s'.table np).pid ≡ s.nextpid
    pub parent : (s'.table np).parent ≡ some cur
    pub eax : (s'.table np).tf.eax ≡ 0
    pub registers : (s'.table np).tf.others ≡ (s.table cur).tf.others
    pub sz : (s'.table np).sz ≡ (s.table cur).sz
    pub pgdir : (s'.table np).pgdir ≡ dir
    pub killed : (s'.table np).killed ≡ (s.table np).killed
    pub queue : ((s'.table np).priority ≡ 1) × ((s'.table np).timecpu ≡ 0)
    pub nextpid : s'.nextpid ≡ (s.nextpid + 1) % 2 ^ 32
    pub cpus : s'.cpus ≡ s.cpus
    pub initproc : s'.initproc ≡ s.initproc

pub Failed-IsWf :
    {M F : Type 0} {s s' : Kernel M F}
    → Failed s s'
    → s.nextpid + 1 < 2 ^ 31
    → KernelIsWf s
    → KernelIsWf s'
Failed-IsWf {s} {s'} f room w = record {
  pid_lt = λ i a u. ground (arith, w.pid_lt i a, f.freed i, f.table i, le);
  pid_unique = λ i j a b u v e.
      ground (arith, w.pid_unique i j a b, f.freed i, f.table i, f.freed j, f.table j);
  parent_alive = λ i j a e.
      let (u, b, v) = w.parent_alive i j a (sym (f.parents i) ∙ e) in
      (ground (arith, f.table i u), b, ground (arith, f.table j));
  init_alive =
      λ j e. let (b, v) = w.init_alive j (sym f.initproc ∙ e) in (b, ground (arith, f.table j));
  settled = λ i a. ground (arith, w.settled i a, f.freed i, f.table i);
}
  where
    le : s.nextpid ≤ s'.nextpid
    le = ground (arith, f.nextpid, room)

module _ {M F : Type 0} (mem : MemOps M) (file : FileOps F) where
  -- The slot that `allocproc` found, before and after.
  abbrev pub Alloc : Kernel M F → Ptr × Kernel M F → Type 0
  Alloc s (none, s1) = Failed s s1
  Alloc s (some i, s1) =
      (i < nproc)
      × (((s.table i).state ≡ unused) × ((j : ℕ) → j < i → (s.table j).state ≢ unused))
      × ((page : ℕ) × (m : M) × (s1 ≡ record s {
        table =
            update s.table i
              (set_up mem file page (record (s.table i) { state = embryo; pid = s.nextpid }));
        nextpid = (s.nextpid + 1) % 2 ^ 32;
        mem = m;
      }))

  alloc_at-Alloc :
      (i : ℕ) (s : Kernel M F)
      → i < nproc
      → ((s.table i).state ≡ unused) × ((j : ℕ) → j < i → (s.table j).state ≢ unused)
      → Alloc s (alloc_at mem file i s)
  unfolding alloc_at
  alloc_at-Alloc i s b empty = elim (Bool-cases ((mem.kalloc s.mem).0 == 0)) [
    | inl failed ↦ rw failed (record {
      table = λ j. ground (arith, empty.0);
      freed = λ j. ground (arith, empty.0);
      files = refl;
      cpus = refl;
      initproc = refl;
      parents = λ j. ground (arith, empty.0);
      nextpid = inr refl;
    })
    | inr got ↦ rw got (b, empty, ((mem.kalloc s.mem).0, (mem.kalloc s.mem).1, refl))
  ]

  pub allocproc-Alloc : (s : Kernel M F) → Alloc s (allocproc mem file s)
  unfolding allocproc
  allocproc-Alloc s =
      go (scan (is_state unused) nproc 0 s.table) (scan-Found (is_state unused) nproc 0 s.table)
    where
      go :
          (o : Option ℕ)
          → Found (is_state unused) nproc 0 s.table o
          → Alloc s (elim o [ none ↦ (none, s) | some i ↦ alloc_at mem file i s ])
      go none h = record {
        table = λ j a. refl;
        freed = λ j a. a;
        files = refl;
        cpus = refl;
        initproc = refl;
        parents = λ j. refl;
        nextpid = inl refl;
      }
      go (some i) (lo, hi, hit, before) =
          alloc_at-Alloc i s hi (ground arith, λ j a. ground (arith, before j (omega arith) a))
