-- ===== src/Proc/System.antt =====
-- The processors and processes of proc.c as a transition system: any processor's process, or the
-- scheduler of an idle processor, or the world outside, takes the next step.
use cpsc.Prelude.{ℕ, ◌+◌, ◌<◌, ◌≡◌, none, some, update}
use cpsc.Prelude.Int.{ℤ}
use cpsc.Proc.{nproc, runnable, running, Chan, MemOps, FileOps, Kernel}
use cpsc.Proc.Life.{fork, exit, wait, Waited}
use cpsc.Proc.Sched.{
  switch_to, yield, sleep, tidy_up, wakeup, kill, priority_shift, increase_priority, tick,
}

module _ {M F : Type 0} (mem : MemOps M) (file : FileOps F) where
  -- `OnCpu c cur s`: the processor `c` runs the process of the slot `cur`.
  abbrev pub OnCpu : ℕ → ℕ → Kernel M F → Type 0
  OnCpu c cur s = s.cpus c ≡ some cur

  pub data Step (s s' : Kernel M F) : Type 0 where
    forks : (c cur : ℕ) (r : ℤ) → OnCpu c cur s → fork mem file cur s ≡ some (r, s') → Step s s'
    exits : (c cur : ℕ) → OnCpu c cur s → exit mem file c cur s ≡ some s' → Step s s'
    waits :
        (c cur : ℕ) (o : Waited) → OnCpu c cur s → wait mem file c cur s ≡ some (o, s') → Step s s'
    yields : (c cur : ℕ) → OnCpu c cur s → s' ≡ yield c cur s → Step s s'
    sleeps : (c cur : ℕ) (ch : Chan) → OnCpu c cur s → s' ≡ sleep c cur ch s → Step s s'
    tidies : (c cur : ℕ) → OnCpu c cur s → s' ≡ tidy_up cur s → Step s s'
    wakes : (ch : Chan) → s' ≡ wakeup ch s → Step s s'
    kills : (pid : ℕ) → s' ≡ (kill pid s).1 → Step s s'
    schedules :
        (c i : ℕ)
        → s.cpus c ≡ none
        → i < nproc
        → (s.table i).state ≡ runnable
        → switch_to c i s ≡ some s'
        → Step s s'
    shifts : (bump : ℕ) → s' ≡ record s { table = (priority_shift bump s.table).1 } → Step s s'
    ticks :
        (c cur : ℕ)
        → OnCpu c cur s
        → s' ≡ record s { table = update s.table cur (tick (s.table cur)).0 }
        → Step s s'
    raises :
        (c cur : ℕ)
        → OnCpu c cur s
        → s' ≡ record s { table = update s.table cur (increase_priority (s.table cur)).1 }
        → Step s s'

  -- The forks among the steps.
  abbrev pub forks_of : {s s' : Kernel M F} → Step s s' → ℕ
  forks_of (forks c cur r on e) = 1
  forks_of _ = 0

  pub data Reach (s : Kernel M F) : Kernel M F → Type 0 where
    here : Reach s s
    later : {t u : Kernel M F} → Reach s t → Step t u → Reach s u

  abbrev pub forks_in : {s s' : Kernel M F} → Reach s s' → ℕ
  forks_in here = 0
  forks_in (later r st) = forks_in r + forks_of st

-- A process that a processor runs is RUNNING, a RUNNING process is run by a processor, and no two
-- processors run one process.
pub record IsRun {M F : Type 0} (s : Kernel M F) : Type 0 where
  pub on_cpu : (c i : ℕ) → s.cpus c ≡ some i → (i < nproc) × ((s.table i).state ≡ running)
  pub has_cpu : (i : ℕ) → i < nproc → (s.table i).state ≡ running → (c : ℕ) × (s.cpus c ≡ some i)
  pub one_cpu : (c d i : ℕ) → s.cpus c ≡ some i → s.cpus d ≡ some i → c ≡ d
