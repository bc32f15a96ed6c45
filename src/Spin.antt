-- ===== src/Spin.antt =====
-- spinlock.c: one lock and the processors that take it. `acquire` and `release` are cut where other
-- processors can come between: at the `xchg` and at the stores into the lock. `none` is a panic.
pub mod Exclusion
pub mod Sound
pub mod Nesting
mod Tests
use cpsc.Prelude.{
  ℕ, zero, suc, ◌+◌, ◌-◌, ◌≡◌, ◌<◌, ◌⊎◌, Bool, true, false, not, ◌&&◌, Option, none, some, ◌==◌,
  if◌then◌else◌, update, ◌>>=◌,
}

-- What `pushcli` and `popcli` use of `struct cpu`, and the interrupt flag of the processor.
pub record Cpu : Type 0 where
  pub ncli : ℕ
  pub intena : Bool
  pub interrupts : Bool

-- `struct spinlock` less what is for debugging only.
pub record Spinlock : Type 0 where
  pub locked : Bool
  pub cpu : Option ℕ

unfoldable pub initlock : Spinlock
initlock = record { locked = false; cpu = none }

unfoldable pub pushcli : Cpu → Cpu
pushcli c = record {
  ncli = c.ncli + 1;
  intena = if c.ncli == 0 then c.interrupts else c.intena;
  interrupts = false;
}

unfoldable pub popcli : Cpu → Option Cpu
popcli c =
    let n = c.ncli - 1 in
    if c.interrupts
    then none
    else (if c.ncli == 0
        then none
        else some (record c { ncli = n; interrupts = if n == 0 && c.intena then true else false }))

unfoldable pub is_cpu : Option ℕ → ℕ → Bool
is_cpu none c = false
is_cpu (some d) c = d == c

abbrev pub holding : Spinlock → ℕ → Bool
holding l c = l.locked && is_cpu l.cpu c

-- How far a processor has come with the lock.
pub data Phase : Type 0 where
  outside spinning claiming inside leaving : Phase

pub record System : Type 0 where
  pub lock : Spinlock
  pub cpus : ℕ → Cpu
  pub phase : ℕ → Phase

-- `acquire` up to its loop.
unfoldable pub enter : ℕ → System → Option System
enter c s =
    let s' = record s {
      cpus = update s.cpus c (pushcli (s.cpus c));
      phase = update s.phase c spinning;
    } in
    if holding s.lock c then none else some s'

-- One `xchg`.
unfoldable pub spin : ℕ → System → System
spin c s = record s {
  lock = record (s.lock) { locked = true };
  phase = if s.lock.locked then s.phase else update s.phase c claiming;
}

-- The rest of `acquire`.
unfoldable pub claim : ℕ → System → System
claim c s = record s { lock = record (s.lock) { cpu = some c }; phase = update s.phase c inside }

-- `release` up to its second store.
unfoldable pub disclaim : ℕ → System → Option System
disclaim c s =
    let s' = record s { lock = record (s.lock) { cpu = none }; phase = update s.phase c leaving } in
    if holding s.lock c then some s' else none

-- The rest of `release`.
unfoldable pub drop : ℕ → System → Option System
drop c s = popcli (s.cpus c) >>= λ p. some (record {
  lock = record (s.lock) { locked = false };
  cpus = update s.cpus c p;
  phase = update s.phase c outside;
})

-- A processor goes on with this lock, or takes or leaves another one.
pub data Step (s s' : System) : Type 0 where
  enters : (c : ℕ) → s.phase c ≡ outside → enter c s ≡ some s' → Step s s'
  spins : (c : ℕ) → s.phase c ≡ spinning → s' ≡ spin c s → Step s s'
  claims : (c : ℕ) → s.phase c ≡ claiming → s' ≡ claim c s → Step s s'
  disclaims : (c : ℕ) → s.phase c ≡ inside → disclaim c s ≡ some s' → Step s s'
  drops : (c : ℕ) → s.phase c ≡ leaving → drop c s ≡ some s' → Step s s'
  pushes : (c : ℕ) → s' ≡ record s { cpus = update s.cpus c (pushcli (s.cpus c)) } → Step s s'
  pops :
      (c : ℕ) (p : Cpu)
      → (s.phase c ≡ outside) ⊎ (1 < (s.cpus c).ncli)
      → popcli (s.cpus c) ≡ some p
      → s' ≡ record s { cpus = update s.cpus c p }
      → Step s s'

pub data Reach (s : System) : System → Type 0 where
  here : Reach s s
  later : {t u : System} → Reach s t → Step t u → Reach s u
