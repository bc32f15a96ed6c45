-- ===== src/Proc/Queue.antt =====
-- The two priorities and the scheduler's round.
use native.Mathlib.Decide.{dec_le}
use cpsc.Prelude.{
  List, [], ◌∷◌, length, ℕ, zero, suc, ◌+◌, ◌-◌, ◌^◌, ◌≤◌, ◌<◌, ◌≡◌, ◌≢◌, ◌∙◌, refl, Bool, true,
  false, Option, none, some, if◌then◌else◌, arith,
}
use cpsc.Proc.{nproc, runnable, Proc, Table, Kernel, scan, is_state}
use cpsc.Proc.Sched.{tick, increase_priority, next_runnable}
use cpsc.Proc.Scan.{Found, scan-Found}

-- What a process does before a tick: nothing, or a call of `increasepriority`.
pub data Interval : Type 0 where
  plain raised : Interval

abbrev pub after : Interval → Proc → Proc
after plain p = p
after raised p = (increase_priority p).1

-- Clock ticks in a row that each find the process RUNNING, up to the first on which it yields: the
-- process, and whether it yielded.
unfoldable pub long_run : List Interval → Proc → Proc × Bool
long_run [] p = (p, false)
long_run (i ∷ is) p =
    let r = tick (after i p) in let rest = long_run is r.0 in if r.1 then (r.0, true) else rest

stuck_tick :
    (i : Interval) (p : Proc)
    → p.priority ≡ 1
    → 0 < p.timecpu
    → p.timecpu + 1 < 2 ^ 32
    → ((tick (after i p)).1 ≡ false)
      × ((tick (after i p)).0.priority ≡ 1)
      × ((tick (after i p)).0.timecpu ≡ p.timecpu + 1)
unfolding tick increase_priority
stuck_tick plain p e z room = ground arith
stuck_tick raised p e z room = ground arith

never_yields :
    (is : List Interval) (p : Proc)
    → p.priority ≡ 1
    → 0 < p.timecpu
    → p.timecpu + length is < 2 ^ 32
    → (long_run is p).1 ≡ false
unfolding long_run
never_yields [] p e z room = refl
never_yields (i ∷ is) p e z room =
    let (stay, e', z') = stuck_tick i p e z (omega arith) in
    rw stay (never_yields is (tick (after i p)).0 e' (omega (arith, z')) (omega (arith, z')))

-- A process in the low priority that has spent one tick and then calls `increasepriority` is not
-- preempted on any of the next 2 ^ 32 - 2 ticks, whether or not it calls it again between them, that
-- is, until `timecpu` has wrapped.
pub increase_priority-never_yields :
    (p : Proc) (is : List Interval)
    → p.priority ≡ 0
    → p.timecpu ≡ 1
    → length is < 2 ^ 32 - 1
    → (long_run is (increase_priority p).1).1 ≡ false
unfolding increase_priority
increase_priority-never_yields p is e z room =
    never_yields is (increase_priority p).1 (ground arith) (ground arith) (ground (arith, room))

scan-priority :
    (k i : ℕ) (t : Table) (priorities : ℕ → ℕ)
    → scan (is_state runnable) k i (λ k. record (t k) { priority = priorities k })
      ≡ scan (is_state runnable) k i t
unfolding scan
scan-priority zero i t priorities = refl
scan-priority (suc k) i t priorities = ground (arith, scan-priority k (suc i) t priorities)

-- If a process of the slot `j` is RUNNABLE, the scheduler's pass at a slot `i` not past it next runs
-- a RUNNABLE process of a slot from `i` to `j`, with none RUNNABLE between `i` and it: the pass
-- cannot go by a RUNNABLE process. It does so whatever the priorities are.
pub next_runnable-fair :
    {M F : Type 0} (i j : ℕ) (s : Kernel M F) (priorities : ℕ → ℕ)
    → i ≤ j
    → j < nproc
    → (s.table j).state ≡ runnable
    → (m : ℕ) × (next_runnable i s ≡ some m)
      × (i ≤ m)
      × (m ≤ j)
      × ((s.table m).state ≡ runnable)
      × ((k : ℕ) → i ≤ k → k < m → (s.table k).state ≢ runnable)
      × (next_runnable i (record s { table = λ k. record (s.table k) { priority = priorities k } })
          ≡ some m)
unfolding next_runnable
next_runnable-fair i j s priorities le b st =
    go (scan (is_state runnable) (nproc - i) i s.table) refl
      (scan-Found (is_state runnable) (nproc - i) i s.table)
  where
    t' : Table
    t' = λ k. record (s.table k) { priority = priorities k }

    within : (m : ℕ) → ((k : ℕ) → i ≤ k → k < m → is_state runnable (s.table k) ≡ false) → m ≤ j
    within m before = elim (dec_le m j) [
      | yes h ↦ h
      | no h ↦ absurd (refuted (before j le (omega arith)))
    ]
      where
        refuted : is_state runnable (s.table j) ≡ false → ⊥
        refuted f = ground arith

    go :
        (o : Option ℕ)
        → scan (is_state runnable) (nproc - i) i s.table ≡ o
        → Found (is_state runnable) (nproc - i) i s.table o
        → (m : ℕ) × (scan (is_state runnable) (nproc - i) i s.table ≡ some m)
          × (i ≤ m)
          × (m ≤ j)
          × ((s.table m).state ≡ runnable)
          × ((k : ℕ) → i ≤ k → k < m → (s.table k).state ≢ runnable)
          × (scan (is_state runnable) (nproc - i) i t' ≡ some m)
    go none e h = absurd (not_none (h j le (omega arith)))
      where
        not_none : is_state runnable (s.table j) ≡ false → ⊥
        not_none f = ground arith
    go (some m) e (lo, hi, hit, before) = (
      m,
      e,
      lo,
      within m before,
      ground arith,
      (λ k a l. ground (arith, before k a l)),
      scan-priority (nproc - i) i s.table priorities ∙ e,
    )
