-- ===== src/Proc/Tree.antt =====
-- What proc.c keeps true of the process table between its operations: process numbers and the
-- tree of parents.
use native.Mathlib.Decide.{ℕ_discrete}
use cpsc.Prelude.{
  ℕ, zero, suc, ◌+◌, ◌<◌, ◌≡◌, ◌≢◌, ◌∙◌, sym, ap, refl, inl, inr, Bool, true, false, ◌&&◌, none,
  some, ◌==◌, ltb, leb, if◌then◌else◌, update, update_self, update_ne, arith, Bool-cases, List, [],
  ◌∷◌,
}
use cpsc.Proc.{
  nproc, State, unused, embryo, sleeping, runnable, running, zombie, Chan, Ptr, Proc, Table,
  chan_of, same_state, points_to, for_each, wake, wakeup1, wakeup_all, adopt, exit_table,
}
use cpsc.Proc.Scan.{wakeup1-slots}

-- The states as the tree of parents sees them.
pub data Class : Type 0 where
  free building alive dead : Class

abbrev pub class : State → Class
class unused = free
class embryo = building
class sleeping = alive
class runnable = alive
class running = alive
class zombie = dead

-- Process numbers in use are below `nextpid` and differ; a slot with a parent is in use, and its
-- parent is alive, as is `initproc`; no slot is left half built.
pub record IsWf (t : Table) (nextpid : ℕ) (init : Ptr) : Type 0 where
  pub pid_lt : (i : ℕ) → i < nproc → class (t i).state ≢ free → (t i).pid < nextpid
  pub pid_unique :
      (i j : ℕ)
      → i < nproc
      → j < nproc
      → class (t i).state ≢ free
      → class (t j).state ≢ free
      → (t i).pid ≡ (t j).pid
      → i ≡ j
  pub parent_alive :
      (i j : ℕ)
      → i < nproc
      → (t i).parent ≡ some j
      → (class (t i).state ≢ free) × (j < nproc) × (class (t j).state ≡ alive)
  pub init_alive : (j : ℕ) → init ≡ some j → (j < nproc) × (class (t j).state ≡ alive)
  pub settled : (i : ℕ) → i < nproc → class (t i).state ≢ building

abbrev pub is_running : Proc → Bool
is_running p = same_state p.state running

-- A process that keeps its number, its parent and its class, and is RUNNING or not as before.
pub record Kept (p q : Proc) : Type 0 where
  pub pid : q.pid ≡ p.pid
  pub parent : q.parent ≡ p.parent
  pub same_class : class q.state ≡ class p.state
  pub same_run : is_running q ≡ is_running p

abbrev pub AllKept : Table → Table → Type 0
AllKept t t' = (j : ℕ) → Kept (t j) (t' j)

pub Kept-refl : (p : Proc) → Kept p p
Kept-refl p = record { pid = refl; parent = refl; same_class = refl; same_run = refl }

pub Kept-trans : {p q r : Proc} → Kept p q → Kept q r → Kept p r
Kept-trans a b = record {
  pid = b.pid ∙ a.pid;
  parent = b.parent ∙ a.parent;
  same_class = b.same_class ∙ a.same_class;
  same_run = b.same_run ∙ a.same_run;
}

-- The number, the parent and the class of each slot decide.
pub same_tree-IsWf :
    {t t' : Table} {n : ℕ} {init : Ptr}
    → ((j : ℕ)
        → ((t' j).pid ≡ (t j).pid)
          × ((t' j).parent ≡ (t j).parent)
          × (class (t' j).state ≡ class (t j).state))
    → IsWf t n init
    → IsWf t' n init
same_tree-IsWf {t} {t'} same w = record {
  pid_lt = λ i a. ground (arith, w.pid_lt i a, same i);
  pid_unique = λ i j a b c d e. ground (arith, w.pid_unique i j a b, same i, same j);
  parent_alive = λ i j a e.
      let (u, b, v) = w.parent_alive i j a (sym (same i).1 ∙ e) in
      (ground (arith, same i), b, (same j).2 ∙ v);
  init_alive = λ j e. let (b, v) = w.init_alive j e in (b, (same j).2 ∙ v);
  settled = λ i a. ground (arith, w.settled i a, same i);
}

pub AllKept-IsWf :
    {t t' : Table} {n : ℕ} {init : Ptr} → AllKept t t' → IsWf t n init → IsWf t' n init
AllKept-IsWf kept = same_tree-IsWf (λ j. ((kept j).pid, (kept j).parent, (kept j).same_class))

pub either-Kept : (b : Bool) {p q : Proc} → Kept p q → Kept p (if b then q else p)
either-Kept true k = k
either-Kept false {p} k = Kept-refl p

wake-Kept : (c : Chan) (p : Proc) → Kept p (wake c p)
wake-Kept c p = ground arith

pub wakeup1-AllKept : (c : Chan) (t : Table) → AllKept t (wakeup1 c t)
wakeup1-AllKept c t j = rw (wakeup1-slots c t j) (either-Kept (ltb j nproc) (wake-Kept c (t j)))

pub wakeup_all-AllKept : (cs : List Chan) (t : Table) → AllKept t (wakeup_all cs t)
unfolding wakeup_all
wakeup_all-AllKept [] t j = Kept-refl (t j)
wakeup_all-AllKept (c ∷ cs) t j =
    Kept-trans (wakeup1-AllKept c t j) (wakeup_all-AllKept cs (wakeup1 c t) j)

-- One slot is rewritten, keeping its class.
pub update-AllKept : (t : Table) (i : ℕ) (q : Proc) → Kept (t i) q → AllKept t (update t i q)
update-AllKept t i q k j = elim (ℕ_discrete j i) [
  | yes e ↦ rw (e, update_self t i q) k
  | no ne ↦ rw (update_ne t i q j ne) (Kept-refl (t j))
]

-- The loop of `exit` over the children of `cur`: each slot keeps its number and class, and the
-- children get `init` for a parent.
abbrev pub Adopted : ℕ → Ptr → Bool → Proc → Proc → Type 0
Adopted cur init done p q =
    (q.pid ≡ p.pid)
    × (class q.state ≡ class p.state)
    × (is_running q ≡ is_running p)
    × (q.parent ≡ (if done && points_to p.parent cur then init else p.parent))

adopt-Adopted :
    (cur : ℕ) (init : Ptr) (i : ℕ) (t : Table) (j : ℕ)
    → Adopted cur init (j == i) (t j) (adopt cur init i t j)
adopt-Adopted cur init i t j =
    ground (arith, wakeup1-AllKept (chan_of init) (update t i (record (t i) { parent = init })) j)

adopt_loop-Adopted :
    (cur : ℕ) (init : Ptr) (k i : ℕ) (t : Table) (j : ℕ)
    → Adopted cur init (leb i j && ltb j (i + k)) (t j) (for_each (adopt cur init) k i t j)
unfolding for_each
adopt_loop-Adopted cur init zero i t j = ground arith
adopt_loop-Adopted cur init (suc k) i t j = ground (
  arith,
  adopt-Adopted cur init i t j,
  adopt_loop-Adopted cur init k (suc i) (adopt cur init i t) j,
)

-- What the process of the slot `cur` does to a slot by leaving: the number stays, children of `cur`
-- get `init` for a parent, and `cur` itself becomes a zombie.
abbrev pub Left : ℕ → Ptr → Table → Table → Type 0
Left cur init t t' =
    (j : ℕ)
    → ((t' j).pid ≡ (t j).pid)
      × ((t' j).parent ≡ (if ltb j nproc && points_to (t j).parent cur then init else (t j).parent))
      × (class (t' j).state ≡ (if j == cur then dead else class (t j).state))
      × (is_running (t' j) ≡ (if j == cur then false else is_running (t j)))

pub exit_table-Left : (cur : ℕ) (init : Ptr) (t : Table) → Left cur init t (exit_table cur init t)
unfolding exit_table
exit_table-Left cur init t j =
    let t1 = wakeup1 (chan_of (t cur).parent) t in
    ground (
      arith,
      wakeup1-AllKept (chan_of (t cur).parent) t j,
      adopt_loop-Adopted cur init nproc 0 t1 j,
    )

pub points_to-true : (p : Ptr) (i : ℕ) → points_to p i ≡ true → p ≡ some i
points_to-true none i h = cc
points_to-true (some j) i h = ground arith

pub points_to-false : (p : Ptr) (i : ℕ) → points_to p i ≡ false → p ≢ some i
points_to-false none i h = cc
points_to-false (some j) i h = ground arith

pub Left-IsWf :
    {t t' : Table} {n : ℕ} (cur : ℕ) (init : Ptr)
    → Left cur init t t'
    → points_to init cur ≡ false
    → cur < nproc
    → class (t cur).state ≡ alive
    → IsWf t n init
    → IsWf t' n init
Left-IsWf {t} {t'} cur init left other b live w = record {
  pid_lt = λ i a. ground (arith, w.pid_lt i a, left i);
  pid_unique = λ i j a b. ground (arith, w.pid_unique i j a b, left i, left j);
  parent_alive = λ i j a e. elim (Bool-cases (points_to (t i).parent cur)) [
    | inl child ↦
        let in_use = (w.parent_alive i cur a (points_to-true _ cur child)).0 in
        let to_init : init ≡ some j = ground (arith, left i) in
        (still_used i in_use, (w.init_alive j to_init).0, adopter j to_init)
    | inr other_child ↦
        let same : (t i).parent ≡ some j = ground (arith, left i) in
        let (in_use, b', v) = w.parent_alive i j a same in
        let ne : j ≢ cur = λ k. points_to-false _ cur other_child (same ∙ ap some k) in
        (still_used i in_use, b', ground (arith, left j))
  ];
  init_alive = λ j e. let (b', v) = w.init_alive j e in (b', adopter j e);
  settled = λ i a. ground (arith, w.settled i a, left i);
}
  where
    still_used : (i : ℕ) → class (t i).state ≢ free → class (t' i).state ≢ free
    still_used i u = ground (arith, left i)

    adopter : (j : ℕ) → init ≡ some j → class (t' j).state ≡ alive
    adopter j e =
        let ne : j ≢ cur = λ k. points_to-false init cur other (e ∙ ap some k) in
        ground (arith, left j, (w.init_alive j e).1)
