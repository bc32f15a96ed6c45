-- ===== src/Spin/Sound.antt =====
-- What holds of the lock in every state that can be reached.
use cpsc.Prelude.{
  ℕ, ◌-◌, ◌<◌, ◌≡◌, ◌≢◌, refl, ◌⊎◌, true, false, ◌&&◌, none, some, ◌==◌, if◌then◌else◌, update,
  arith,
}
use cpsc.Spin.{
  Cpu, pushcli, popcli, is_cpu, holding, outside, spinning, inside, leaving, System, enter,
  disclaim, drop, Reach, initlock,
}
use cpsc.Spin.Exclusion.{owns, IsExclusive, Reach-IsExclusive}

-- What may go on in a state of the lock: at most one processor is between its `xchg` and its last
-- store; no call of `acquire` by a processor outside panics, nor one of `release` by one inside, in
-- either part; and a processor on its way has its interrupts off.
pub record IsSound (s : System) : Type 0 where
  pub apart : (c d : ℕ) → owns (s.phase c) ≡ true → owns (s.phase d) ≡ true → c ≡ d
  pub can_enter : (c : ℕ) → s.phase c ≡ outside → (t : System) × (enter c s ≡ some t)
  pub can_disclaim : (c : ℕ) → s.phase c ≡ inside → (t : System) × (disclaim c s ≡ some t)
  pub can_drop : (c : ℕ) → s.phase c ≡ leaving → (t : System) × (drop c s ≡ some t)
  pub quiet : (c : ℕ) → s.phase c ≢ outside → (s.cpus c).interrupts ≡ false

popcli_pops : (c : Cpu) → 0 < c.ncli → c.interrupts ≡ false → (p : Cpu) × (popcli c ≡ some p)
unfolding popcli
popcli_pops c busy off = (
  record c { ncli = c.ncli - 1; interrupts = if c.ncli - 1 == 0 && c.intena then true else false },
  ground arith,
)

enter_enters : (c : ℕ) (s : System) → holding s.lock c ≡ false → (t : System) × (enter c s ≡ some t)
unfolding enter
enter_enters c s free = (
  record s { cpus = update s.cpus c (pushcli (s.cpus c)); phase = update s.phase c spinning },
  rw free refl,
)

disclaim_disclaims :
    (c : ℕ) (s : System) → holding s.lock c ≡ true → (t : System) × (disclaim c s ≡ some t)
unfolding disclaim
disclaim_disclaims c s held = (
  record s { lock = record (s.lock) { cpu = none }; phase = update s.phase c leaving },
  rw held refl,
)

drop_drops :
    (c : ℕ) (s : System) (p : Cpu) → popcli (s.cpus c) ≡ some p → (t : System) × (drop c s ≡ some t)
unfolding drop
drop_drops c s p e = (
  record {
    lock = record (s.lock) { locked = false };
    cpus = update s.cpus c p;
    phase = update s.phase c outside;
  },
  rw e refl,
)

IsExclusive-IsSound : (s : System) → IsExclusive s → IsSound s
IsExclusive-IsSound s v = record {
  apart = v.one;
  can_enter = λ c out. enter_enters c s (ground (arith, v.named c, out));
  can_disclaim = λ c ins. disclaim_disclaims c s (ground (arith, v.named c, v.locked c, ins));
  can_drop = λ c end.
      let (p, e) =
        popcli_pops (s.cpus c) (ground (arith, v.off c, end))
          (ground (arith, v.off c, v.masked c, end)) in
      drop_drops c s p e;
  quiet = λ c on. ground (arith, v.off c, v.masked c, on);
}

-- From a lock that is free and processors that are outside, every state that any interleaving
-- reaches is sound.
pub Reach-IsSound :
    {s s' : System}
    → ((c : ℕ) → s.phase c ≡ outside)
    → s.lock ≡ initlock
    → ((c : ℕ) → ((s.cpus c).ncli ≡ 0) ⊎ ((s.cpus c).interrupts ≡ false))
    → Reach s s'
    → IsSound s'
unfolding initlock is_cpu
Reach-IsSound {s} {s'} out free masked r = IsExclusive-IsSound s' (
    Reach-IsExclusive r (record {
      one = λ c d p q. ground (arith, out c);
      locked = λ c p. ground (arith, out c);
      named = λ c. ground (arith, out c, free);
      off = λ c. ground (arith, out c);
      masked = masked;
    }))
