-- ===== src/Proc/Sched.antt =====
-- proc.c: `scheduler`, `sched`'s callers, `sleep`, `wakeup` and `kill`; sysproc.c:
-- `sys_increasepriority`; and the clock tick of trap.c with its two priorities.
use cpsc.Prelude.{
  ℕ, ◌+◌, ◌-◌, ◌%◌, ◌^◌, Bool, true, false, ◌&&◌, Option, none, some, ◌==◌, leb, if◌then◌else◌,
  update,
}
use cpsc.Prelude.Int.{ℤ}
use cpsc.Proc.{
  nproc, sleeping, runnable, running, Chan, Proc, Table, Kernel, scan, for_each, is_state, wakeup1,
  kill_table,
}

module _ {M F : Type 0} where
  -- `swtch` to the process in the slot `i` on the processor `c`, from `scheduler`: `switchuvm`
  -- panics on a null page directory.
  unfoldable pub switch_to : ℕ → ℕ → Kernel M F → Option (Kernel M F)
  switch_to c i s =
      if (s.table i).pgdir == 0
      then none
      else some (record s {
        table = update s.table i (record (s.table i) { state = running });
        cpus = update s.cpus c (some i);
      })

  -- The loop of `scheduler` from the slot `i` on: what it runs next in this pass.
  unfoldable pub next_runnable : ℕ → Kernel M F → Option ℕ
  next_runnable i s = scan (is_state runnable) (nproc - i) i s.table

  -- The process in the slot `cur` enters a new state and `swtch` gives its processor to `scheduler`.
  -- The tests of `sched` before it, of the lock, its nesting, the state and the interrupts, are left
  -- out: a step holds just `ptable.lock`.
  abbrev pub give_up : ℕ → ℕ → Proc → Kernel M F → Kernel M F
  give_up c cur p s = record s { table = update s.table cur p; cpus = update s.cpus c none }

  unfoldable pub yield : ℕ → ℕ → Kernel M F → Kernel M F
  yield c cur s = give_up c cur (record (s.table cur) { state = runnable }) s

  -- `sleep` up to where it has left the processor.
  unfoldable pub sleep : ℕ → ℕ → Chan → Kernel M F → Kernel M F
  sleep c cur ch s = give_up c cur (record (s.table cur) { chan = ch; state = sleeping }) s

  -- "Tidy up", when the sleeper runs again.
  unfoldable pub tidy_up : ℕ → Kernel M F → Kernel M F
  tidy_up cur s = record s {
    table = update s.table cur (record (s.table cur) { chan = Chan.null });
  }

  unfoldable pub wakeup : Chan → Kernel M F → Kernel M F
  wakeup ch s = record s { table = wakeup1 ch s.table }

  unfoldable pub kill : ℕ → Kernel M F → ℤ × Kernel M F
  kill pid s = let (r, t) = kill_table pid s.table in (r, record s { table = t })

-- The body of the loop of `scheduler` that raises priorities.
abbrev pub raise : Proc → Proc
raise p = if is_state runnable p && p.priority == 0 then record p { priority = 1 } else p

abbrev pub shift_rounds : ℕ
shift_rounds = 600000000

-- `scheduler` before it takes the lock: `prioritybump` and the table after a round.
unfoldable pub priority_shift : ℕ → Table → ℕ × Table
priority_shift bump t =
    if leb shift_rounds (bump + 1)
    then (0, for_each (λ i t. update t i (raise (t i))) nproc 0 t)
    else (bump + 1, t)

-- `sys_increasepriority`: the result and the process.
unfoldable pub increase_priority : Proc → ℕ × Proc
increase_priority p =
    let p' = if p.priority == 0 then record p { priority = 1 } else p in (p'.priority, p')

-- The clock tick of a RUNNING process: the process, and whether it yields. `timecpu` is the 32-bit
-- pattern of the `int`, which wraps.
unfoldable pub tick : Proc → Proc × Bool
tick p =
    let p' = record p { timecpu = (p.timecpu + 1) % 2 ^ 32 } in
    if p'.priority == 1 && p'.timecpu == 1
    then (record p' { timecpu = p'.timecpu - 1; priority = p'.priority - 1 }, true)
    else (if p'.priority == 0 && p'.timecpu == 2
        then (record p' { timecpu = 0 }, true)
        else (p', false))

-- The reset of `prioritybump` on a tick.
unfoldable pub tick_bump : ℕ → ℕ
tick_bump bump = if bump == 10 then 0 else bump
