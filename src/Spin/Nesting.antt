-- ===== src/Spin/Nesting.antt =====
-- Calls of `pushcli` and `popcli` that are matched.
use cpsc.Prelude.{
  ℕ, zero, suc, ◌-◌, ◌≡◌, refl, ◌⊎◌, inr, true, false, ◌&&◌, Option, some, ◌==◌, if◌then◌else◌,
  ◌>>=◌, arith,
}
use cpsc.Spin.{Cpu, pushcli, popcli}

-- `n` calls of `pushcli`, or of `popcli`.
unfoldable pub push_times : ℕ → Cpu → Cpu
push_times zero c = c
push_times (suc n) c = push_times n (pushcli c)

unfoldable pub pop_times : ℕ → Cpu → Option Cpu
pop_times zero c = some c
pop_times (suc n) c = pop_times n c >>= popcli

-- As it was before, but for `intena` where nothing is to be restored from it.
pub record Restored (c d : Cpu) : Type 0 where
  pub ncli : d.ncli ≡ c.ncli
  pub interrupts : d.interrupts ≡ c.interrupts
  pub intena : (c.ncli ≡ 0) ⊎ (d.intena ≡ c.intena)

pushcli_off : (c : Cpu) → (pushcli c).interrupts ≡ false
unfolding pushcli
pushcli_off c = refl

popcli-pushcli :
    (c d : Cpu)
    → (c.ncli ≡ 0) ⊎ (c.interrupts ≡ false)
    → Restored (pushcli c) d
    → (e : Cpu) × (popcli d ≡ some e) × Restored c e
unfolding popcli pushcli
popcli-pushcli c d off r = (
  record d { ncli = d.ncli - 1; interrupts = if d.ncli - 1 == 0 && d.intena then true else false },
  ground (arith, r.ncli, r.interrupts, r.intena),
  record {
    ncli = ground (arith, r.ncli);
    interrupts = ground (arith, r.ncli, r.interrupts, r.intena, off);
    intena = ground (arith, r.intena);
  },
)

-- It takes as many calls of `popcli` to undo those of `pushcli`, none of them panics, and if the
-- interrupts were off they stay off.
pop_times-push_times :
    (n : ℕ) (c : Cpu)
    → (c.ncli ≡ 0) ⊎ (c.interrupts ≡ false)
    → (d : Cpu) × (pop_times n (push_times n c) ≡ some d) × Restored c d
unfolding push_times pop_times
pop_times-push_times zero c off =
    (c, refl, record { ncli = refl; interrupts = refl; intena = inr refl })
pop_times-push_times (suc n) c off =
    let (d, popped, r) = pop_times-push_times n (pushcli c) (inr (pushcli_off c)) in
    let (e, last, q) = popcli-pushcli c d off r in (e, rw popped last, q)
