-- ===== src/Proc/Wait.antt =====
-- What one pass of `wait` does to the process table.
use native.Mathlib.Decide.{ℕ_discrete}
use cpsc.Prelude.{
  ℕ, zero, suc, ◌+◌, ◌≤◌, ◌<◌, ◌≡◌, ◌≢◌, refl, ◌⊎◌, inl, inr, Bool, true, false, ◌||◌, not, Option,
  none, some, update, arith, Bool-cases, ◌>>=◌, Holds, bind-Holds,
}
use cpsc.Prelude.Int.{negsuc, pos}
use cpsc.Proc.{
  nproc, unused, sleeping, zombie, slot, Table, points_to, MemOps, FileOps, Kernel, is_state,
}
use cpsc.Proc.Life.{reap, reaped, waiting, wait_with, wait_loop, wait, Waited, returned, asleep}
use cpsc.Proc.Tree.{is_running, alive, class, points_to-true, points_to-false}

-- What a pass of `wait` finds among the `k` slots from `i` on.
abbrev pub Looked : ℕ → ℕ → ℕ → Bool → Table → Option ℕ × Bool → Type 0
Looked cur k i havekids t (some z, seen) =
    (i ≤ z) × (z < i + k) × ((t z).parent ≡ some cur) × ((t z).state ≡ zombie) × (seen ≡ true)
Looked cur k i havekids t (none, seen) =
    ((j : ℕ) → i ≤ j → j < i + k → (t j).parent ≡ some cur → ((t j).state ≢ zombie) × (seen ≡ true))
    × (havekids ≡ true → seen ≡ true)
    × (seen ≡ true
        → (havekids ≡ true) ⊎ ((j : ℕ) × (i ≤ j) × (j < i + k) × ((t j).parent ≡ some cur)))

Looked-later :
    (cur k i : ℕ) (havekids b : Bool) (t : Table)
    → ((t i).parent ≡ some cur → ((t i).state ≢ zombie) × (b ≡ true))
    → (havekids ≡ true → b ≡ true)
    → (b ≡ true → (havekids ≡ true) ⊎ ((t i).parent ≡ some cur))
    → (r : Option ℕ × Bool) → Looked cur k (suc i) b t r
    → Looked cur (suc k) i havekids t r
Looked-later cur k i havekids b t here up down (some z, seen)
      (lo, hi, child, dead_child, was_seen) =
    (omega arith, omega arith, child, dead_child, was_seen)
Looked-later cur k i havekids b t here up down (none, seen) (all, mono, back) = (
  λ j a lt e. elim (ℕ_discrete j i) [
    | yes q ↦ let (ne, set_true) = here (rw q at e) in (rw q ne, mono set_true)
    | no q ↦ all j (omega arith) (omega arith) e
  ],
  λ h. mono (up h),
  λ h. elim (back h) [
    | inl before ↦ elim (down before) [
      | inl earlier ↦ inl earlier
      | inr p ↦ inr (i, omega arith, omega arith, p)
    ]
    | inr (j, lo, hi, p) ↦ inr (j, omega arith, omega arith, p)
  ],
)

wait_loop-Looked :
    (cur k i : ℕ) (havekids : Bool) (t : Table)
    → Looked cur k i havekids t (wait_loop cur k i havekids t)
unfolding wait_loop
wait_loop-Looked cur zero i havekids t = (λ j a b. absurd (omega arith), λ h. h, λ h. inl h)
wait_loop-Looked cur (suc k) i havekids t = elim (Bool-cases (points_to (t i).parent cur)) [
  | inl child ↦ elim (Bool-cases (is_state zombie (t i))) [
    | inl is_zombie ↦
        rw (child, is_zombie)
          (omega arith, omega arith, points_to-true _ cur child, ground arith, refl)
    | inr other_state ↦
        rw (child, other_state)
          (Looked-later cur k i havekids true t (λ e. (λ z. ground arith, refl)) (λ h. refl)
            (λ h. inr (points_to-true _ cur child)) (wait_loop cur k (suc i) true t)
            (wait_loop-Looked cur k (suc i) true t))
  ]
  | inr no_child ↦ rw no_child (
      Looked-later cur k i havekids havekids t (λ e. absurd (points_to-false _ cur no_child e))
        (λ h. h) (λ h. inl h) (wait_loop cur k (suc i) havekids t)
        (wait_loop-Looked cur k (suc i) havekids t))
]

-- The slot `cur` has a child, and has none that is a zombie.
abbrev pub HasChild : ℕ → Table → Type 0
HasChild cur t = (j : ℕ) × (j < nproc) × ((t j).parent ≡ some cur)

abbrev pub NoZombie : ℕ → Table → Type 0
NoZombie cur t = (j : ℕ) → j < nproc → (t j).parent ≡ some cur → (t j).state ≢ zombie

module _ {M F : Type 0} where
  -- The slot of a reaped zombie.
  pub record Reaped (z : ℕ) (s s' : Kernel M F) : Type 0 where
    pub others : (j : ℕ) → j ≢ z → s'.table j ≡ s.table j
    pub state : (s'.table z).state ≡ unused
    pub cleared :
        ((s'.table z).pid ≡ 0)
        × ((s'.table z).parent ≡ none)
        × ((s'.table z).killed ≡ false)
        × ((s'.table z).kstack ≡ 0)
    pub cpus : s'.cpus ≡ s.cpus
    pub files : s'.files ≡ s.files
    pub initproc : s'.initproc ≡ s.initproc
    pub nextpid : s'.nextpid ≡ s.nextpid

  -- The process of the slot `cur` stops running, alive, and leaves the processor `c` idle.
  pub record OffCpu (c cur : ℕ) (s s' : Kernel M F) : Type 0 where
    pub others : (j : ℕ) → j ≢ cur → s'.table j ≡ s.table j
    pub pid : (s'.table cur).pid ≡ (s.table cur).pid
    pub parent : (s'.table cur).parent ≡ (s.table cur).parent
    pub live : class (s'.table cur).state ≡ alive
    pub still : is_running (s'.table cur) ≡ false
    pub cpus : s'.cpus ≡ update s.cpus c none
    pub initproc : s'.initproc ≡ s.initproc
    pub nextpid : s'.nextpid ≡ s.nextpid

  -- How a pass of `wait` by `cur` on the processor `c` may end.
  abbrev pub WaitEnds : ℕ → ℕ → Kernel M F → Waited → Kernel M F → Type 0
  WaitEnds c cur s (returned (pos pid)) s' =
      (z : ℕ) × (z < nproc)
      × ((s.table z).parent ≡ some cur)
      × ((s.table z).state ≡ zombie)
      × ((s.table z).pid ≡ pid)
      × Reaped z s s'
  WaitEnds c cur s (returned (negsuc n)) s' =
      (n ≡ 0)
      × (s' ≡ s)
      × NoZombie cur s.table
      × ((¬ HasChild cur s.table) ⊎ ((s.table cur).killed ≡ true))
  WaitEnds c cur s asleep s' =
      HasChild cur s.table
      × NoZombie cur s.table
      × ((s.table cur).killed ≡ false)
      × (((s'.table cur).state ≡ sleeping) × ((s'.table cur).chan ≡ slot cur) × OffCpu c cur s s')

module _ {M F : Type 0} (mem : MemOps M) (file : FileOps F) where
  abbrev Ends : ℕ → ℕ → Kernel M F → Waited × Kernel M F → Type 0
  Ends c cur s (o, s') = WaitEnds c cur s o s'

  reaped-Reaped : (z : ℕ) (m : M) (s : Kernel M F) → Reaped z s (reaped mem file z m s)
  unfolding reaped
  reaped-Reaped z m s = record {
    others = λ j n. ground arith;
    state = ground arith;
    cleared = ground arith;
    cpus = refl;
    files = refl;
    initproc = refl;
    nextpid = refl;
  }

  reap-Ends :
      (c cur z : ℕ) (s : Kernel M F)
      → z < nproc
      → (s.table z).parent ≡ some cur
      → (s.table z).state ≡ zombie
      → Holds (Ends c cur s) (reap mem file z s)
  unfolding reap
  reap-Ends c cur z s b p st =
      bind-Holds (Ends c cur s) (mem.kfree (s.table z).kstack s.mem)
        (λ m. mem.freevm (s.table z).pgdir m >>= λ m'.
          some (returned (pos (s.table z).pid), reaped mem file z m' s))
        λ m e.
          bind-Holds (Ends c cur s) (mem.freevm (s.table z).pgdir m)
            (λ m'. some (returned (pos (s.table z).pid), reaped mem file z m' s))
            λ m' e'. (z, b, p, st, refl, reaped-Reaped z m' s)

  waiting_lem :
      (c cur : ℕ) (s : Kernel M F)
      → let s' = waiting mem file c cur s in
        ((s'.table cur).state ≡ sleeping) × ((s'.table cur).chan ≡ slot cur) × OffCpu c cur s s'
  unfolding waiting
  waiting_lem c cur s = (
    ground arith,
    ground arith,
    record {
      others = λ j n. ground arith;
      pid = ground arith;
      parent = ground arith;
      live = ground arith;
      still = ground arith;
      cpus = refl;
      initproc = refl;
      nextpid = refl;
    },
  )

  wait_with-Ends :
      (c cur : ℕ) (s : Kernel M F) (r : Option ℕ × Bool)
      → Looked cur nproc 0 false s.table r
      → Holds (Ends c cur s) (wait_with mem file c cur r s)
  unfolding wait_with
  wait_with-Ends c cur s (some z, seen) (lo, hi, child, dead_child, was_seen) =
      reap-Ends c cur z s hi child dead_child
  wait_with-Ends c cur s (none, seen) (all, mono, back) =
      elim (Bool-cases (not seen || (s.table cur).killed)) [
        | inl stop ↦ rw stop (refl, refl, (λ j b e. (all j (omega arith) b e).0), why stop)
        | inr go ↦ rw go (asleep_ends go)
      ]
    where
      why :
          (not seen || (s.table cur).killed) ≡ true
          → (¬ HasChild cur s.table) ⊎ ((s.table cur).killed ≡ true)
      why h = elim (Bool-cases (s.table cur).killed) [
        | inl k ↦ inr k
        | inr k ↦ inl (λ (j, b, e). cc ((all j (omega arith) b e).1, not_seen k))
      ]
        where
          not_seen : (s.table cur).killed ≡ false → seen ≡ false
          not_seen k = ground arith

      has_child : seen ≡ true → HasChild cur s.table
      has_child h = elim (back h) [ inl never ↦ cc | inr (j, lo, hi, p) ↦ (j, hi, p) ]

      asleep_ends :
          (not seen || (s.table cur).killed) ≡ false
          → Ends c cur s (asleep, waiting mem file c cur s)
      asleep_ends h = (
        has_child (ground arith),
        (λ j b e. (all j (omega arith) b e).0),
        ground arith,
        waiting_lem c cur s,
      )

  wait-Ends : (c cur : ℕ) (s : Kernel M F) → Holds (Ends c cur s) (wait mem file c cur s)
  unfolding wait
  wait-Ends c cur s =
      wait_with-Ends c cur s (wait_loop cur nproc 0 false s.table)
        (wait_loop-Looked cur nproc 0 false s.table)

  -- If a pass of `wait` does not panic, it returns the process number of a zombie child of the
  -- caller, whose slot it frees while no other slot changes; or it returns -1 and changes nothing,
  -- and then the caller has no zombie child, and has no child at all or is killed; or, with a child
  -- but no zombie among its children and not killed, the caller sleeps on its own slot
  -- and leaves its processor idle.
  pub wait_lem :
      (c cur : ℕ) (s : Kernel M F) (o : Waited) (s' : Kernel M F)
      → wait mem file c cur s ≡ some (o, s')
      → WaitEnds c cur s o s'
  wait_lem c cur s o s' e = rw e at (wait-Ends c cur s)
