-- ===== src/Spin/Tests.antt =====
-- Two processors at a free lock, one of which takes it.
use cpsc.Prelude.{◌≡◌, refl, inl, true, false, some, update}
use cpsc.Spin.{
  Cpu, initlock, pushcli, is_cpu, outside, spinning, System, enter, spin, claim, Reach, here, later,
  enters, spins, claims,
}
use cpsc.Spin.Sound.{IsSound, Reach-IsSound}

abbrev quiet_cpu : Cpu
quiet_cpu = record { ncli = 0; intena = false; interrupts = true }

abbrev at_rest : System
at_rest = record { lock = initlock; cpus = λ c. quiet_cpu; phase = λ c. outside }

abbrev waiting : System
waiting = record at_rest {
  cpus = update at_rest.cpus 1 (pushcli quiet_cpu);
  phase = update at_rest.phase 1 spinning;
}

enter_runs : enter 1 at_rest ≡ some waiting
unfolding enter initlock is_cpu
enter_runs = refl

taken : Reach at_rest (claim 1 (spin 1 waiting))
unfolding spin initlock
taken =
    later (later (later here (enters 1 refl enter_runs)) (spins 1 refl refl)) (claims 1 refl refl)

Reach-IsSound_example : IsSound (claim 1 (spin 1 waiting))
Reach-IsSound_example =
    Reach-IsSound {s = at_rest} {s' = claim 1 (spin 1 waiting)} (λ c. refl) refl (λ c. inl refl)
      taken
