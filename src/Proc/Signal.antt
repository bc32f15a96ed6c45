-- ===== src/Proc/Signal.antt =====
-- `kill` and `wakeup`: which processes they reach.
use cpsc.Prelude.{
  ℕ, ◌<◌, ◌≡◌, ◌≢◌, ◌∙◌, ◌↔◌, refl, sym, ap, ◌⊎◌, inl, inr, true, Option, none, some, ◌==◌, arith,
  if◌then◌else◌, ◌&&◌, update_self, update_ne,
}
use cpsc.Prelude.Int.{ℤ, pos, negsuc, minus_one}
use cpsc.Proc.{
  nproc, unused, sleeping, runnable, running, Chan, same_chan, same_state, Table, Kernel, MemOps,
  FileOps, scan, kill_table, kill_found, marked,
}
use cpsc.Proc.Life.{fork}
use cpsc.Proc.Sched.{kill, wakeup}
use cpsc.Proc.Scan.{Found, scan-Found, wakeup1-slots}
use cpsc.Proc.Fork.{fork_lem, ForkEnds}

abbrev magnitude : ℤ → ℕ
magnitude (pos n) = n
magnitude (negsuc n) = n

-- How `kill` may end: the first slot `i` with the number is marked, and made RUNNABLE if it sleeps,
-- and no other slot changes; or no slot has the number.
abbrev pub KillEnds : ℕ → Table → ℤ × Table → Type 0
KillEnds pid t (r, t') =
    ((r ≡ pos 0)
      × ((i : ℕ) × (i < nproc)
          × ((t i).pid ≡ pid)
          × ((j : ℕ) → j < i → (t j).pid ≢ pid)
          × (t' i ≡ marked (t i))
          × ((j : ℕ) → j ≢ i → t' j ≡ t j)))
    ⊎ ((r ≡ minus_one) × (t' ≡ t) × ((j : ℕ) → j < nproc → (t j).pid ≢ pid))

kill_found-ends :
    (pid : ℕ) (t : Table) (o : Option ℕ)
    → Found (λ p. p.pid == pid) nproc 0 t o
    → KillEnds pid t (kill_found o t)
unfolding kill_found
kill_found-ends pid t none h = inr (refl, refl, λ j b. ground (arith, h j (omega arith) b))
kill_found-ends pid t (some i) (lo, hi, hit, before) = inl (
  refl,
  (
    i,
    hi,
    ground arith,
    (λ j a. ground (arith, before j (omega arith) a)),
    update_self t i (marked (t i)),
    (λ j ne. update_ne t i (marked (t i)) j ne),
  ),
)

-- `kill` returns 0 if some slot has the process number: the first such slot is marked killed, and
-- made RUNNABLE if it sleeps, and no other slot changes. Otherwise it returns -1 and changes nothing.
kill_lem : (pid : ℕ) (t : Table) → KillEnds pid t (kill_table pid t)
unfolding kill_table
kill_lem pid t =
    kill_found-ends pid t (scan (λ p. p.pid == pid) nproc 0 t)
      (scan-Found (λ p. p.pid == pid) nproc 0 t)

-- `wakeup` on a channel makes every process of the table that sleeps on it RUNNABLE, and changes
-- nothing else of the table: not a process on another channel or in another state.
wakeup_lem :
    {M F : Type 0} (ch : Chan) (s : Kernel M F) (j : ℕ)
    → j < nproc
    → ((wakeup ch s).table j ≡ (
        if same_state (s.table j).state sleeping && same_chan (s.table j).chan ch
        then record (s.table j) { state = runnable }
        else s.table j))
      × ((wakeup ch s).cpus ≡ s.cpus)
unfolding wakeup
wakeup_lem ch s j b = (wakeup1-slots ch s.table j ∙ ground arith, refl)

-- If exactly the UNUSED slots have the number 0, and there is one, then `kill(0)` returns 0; and if
-- the next `fork` returns a process number, then the process of that number in a slot that was
-- UNUSED, its child, is marked killed from its birth.
pub kill_zero-fork :
    {M F : Type 0} (mem : MemOps M) (file : FileOps F) (s s' : Kernel M F) (cur pid k : ℕ)
    → ((j : ℕ) → j < nproc → ((s.table j).pid ≡ 0) ↔ ((s.table j).state ≡ unused))
    → k < nproc
    → (s.table k).state ≡ unused
    → (s.table cur).state ≡ running
    → cur < nproc
    → fork mem file cur (kill 0 s).1 ≡ some (pos pid, s')
    → ((kill 0 s).0 ≡ pos 0)
      × ((np : ℕ) × ((s.table np).state ≡ unused)
          × ((s'.table np).pid ≡ pid)
          × ((s'.table np).state ≡ runnable)
          × ((s'.table np).parent ≡ some cur)
          × ((s'.table np).killed ≡ true))
unfolding kill
kill_zero-fork {M} {F} mem file s s' cur pid k zeros b free_k run b' e = elim (kill_lem 0 s.table) [
  | inl (r, (i, hi, zero_i, first, mark, others)) ↦ (
    r,
    born i hi zero_i first mark others (
        fork_lem mem file cur (kill 0 s).1 (pos pid) s'
          (rw (others cur (λ q. ground (arith, (zeros i hi).0 zero_i))) run) e),
  )
  | inr (r, same, absent) ↦ absurd (absent k b ((zeros k b).1 free_k))
]
  where
    t' : Table
    t' = (kill_table 0 s.table).1

    born :
        (i : ℕ)
        → i < nproc
        → (s.table i).pid ≡ 0
        → ((j : ℕ) → j < i → (s.table j).pid ≢ 0)
        → t' i ≡ marked (s.table i)
        → ((j : ℕ) → j ≢ i → t' j ≡ s.table j)
        → ForkEnds mem file cur (kill 0 s).1 (pos pid) s'
        → (np : ℕ) × ((s.table np).state ≡ unused)
          × ((s'.table np).pid ≡ pid)
          × ((s'.table np).state ≡ runnable)
          × ((s'.table np).parent ≡ some cur)
          × ((s'.table np).killed ≡ true)
    born i hi zero_i first mark others (inl (minus, failed)) = cc
    born i hi zero_i first mark others (inr (np, dir, m, m', num, copied, ne, ch)) = (
      np,
      rw same unused_i,
      ch.pid ∙ sym (number num),
      ch.state,
      ch.parent,
      ch.killed ∙ was_killed,
    )
      where
        unused_i : (s.table i).state ≡ unused
        unused_i = (zeros i hi).0 zero_i

        mark' : (kill 0 s).1.table i ≡ marked (s.table i)
        mark' = mark

        not_above : ¬ (i < np)
        not_above lt = ch.lowest i lt (ground (arith, mark', unused_i))

        not_below : ¬ (np < i)
        not_below lt =
            first np lt ((zeros np ch.slot_lt).1 (rw (others np (omega arith)) at ch.was_unused))

        same : np ≡ i
        same = omega (arith, not_above, not_below)

        was_killed : (t' np).killed ≡ true
        was_killed = rw same (ground (arith, mark))

        number : {m n : ℕ} → pos m ≡ pos n → m ≡ n
        number e = ap magnitude e
