-- ===== src/Spin/Exclusion.antt =====
-- Every step with the lock keeps the processors apart.
use cpsc.Prelude.{
  ℕ, ◌+◌, ◌<◌, ◌≡◌, refl, sym, ◌⊎◌, Bool, true, false, Option, none, some, update, ◌>>=◌, arith,
}
use cpsc.Spin.{
  Cpu, pushcli, popcli, is_cpu, Phase, outside, spinning, claiming, inside, leaving, System, enter,
  spin, claim, disclaim, drop, Step, enters, spins, claims, disclaims, drops, Reach, here, later,
  pushes, pops,
}

-- The processor has set the lock and not yet cleared it.
abbrev pub owns : Phase → Bool
owns outside = false
owns spinning = false
owns claiming = true
owns inside = true
owns leaving = true

abbrev pub names : Phase → Bool
names inside = true
names _ = false

abbrev pub is_outside : Phase → Bool
is_outside outside = true
is_outside _ = false

pub record IsExclusive (s : System) : Type 0 where
  pub one : (c d : ℕ) → owns (s.phase c) ≡ true → owns (s.phase d) ≡ true → c ≡ d
  pub locked : (c : ℕ) → owns (s.phase c) ≡ true → s.lock.locked ≡ true
  pub named : (c : ℕ) → is_cpu s.lock.cpu c ≡ names (s.phase c)
  pub off : (c : ℕ) → (is_outside (s.phase c) ≡ true) ⊎ (0 < (s.cpus c).ncli)
  pub masked : (c : ℕ) → ((s.cpus c).ncli ≡ 0) ⊎ ((s.cpus c).interrupts ≡ false)

enter_state :
    (c : ℕ) (s s' : System)
    → enter c s ≡ some s'
    → record s { cpus = update s.cpus c (pushcli (s.cpus c)); phase = update s.phase c spinning }
      ≡ s'
unfolding enter
enter_state c s s' e = ground arith

enter-IsExclusive :
    (c : ℕ) (s s' : System)
    → s.phase c ≡ outside
    → enter c s ≡ some s'
    → IsExclusive s
    → IsExclusive s'
unfolding pushcli
enter-IsExclusive c s s' out e v = rw (sym (enter_state c s s' e)) (record {
  one = λ a b p q. ground (arith, v.one a b, out);
  locked = λ a p. ground (arith, v.locked a, out);
  named = λ a. ground (arith, v.named a, v.named c, out);
  off = λ a. ground (arith, v.off a);
  masked = λ a. ground (arith, v.masked a);
})

spin-IsExclusive :
    (c : ℕ) (s : System) → s.phase c ≡ spinning → IsExclusive s → IsExclusive (spin c s)
unfolding spin
spin-IsExclusive c s at_loop v = record {
  one = λ a b p q. ground (arith, v.one a b, v.locked a, v.locked b, at_loop);
  locked = λ a p. refl;
  named = λ a. ground (arith, v.named a, v.named c, at_loop);
  off = λ a. ground (arith, v.off a, v.off c, at_loop);
  masked = λ a. v.masked a;
}

claim-IsExclusive :
    (c : ℕ) (s : System) → s.phase c ≡ claiming → IsExclusive s → IsExclusive (claim c s)
unfolding claim is_cpu
claim-IsExclusive c s won v = record {
  one = λ a b p q. ground (arith, v.one a b, v.one a c, v.one c b, won);
  locked = λ a p. ground (arith, v.locked c, won);
  named = λ a. ground (arith, v.named a, v.one a c, won);
  off = λ a. ground (arith, v.off a, v.off c, won);
  masked = λ a. v.masked a;
}

disclaim_state :
    (c : ℕ) (s s' : System)
    → disclaim c s ≡ some s'
    → record s { lock = record (s.lock) { cpu = none }; phase = update s.phase c leaving } ≡ s'
unfolding disclaim
disclaim_state c s s' e = ground arith

disclaim-IsExclusive :
    (c : ℕ) (s s' : System)
    → s.phase c ≡ inside
    → disclaim c s ≡ some s'
    → IsExclusive s
    → IsExclusive s'
unfolding is_cpu
disclaim-IsExclusive c s s' ins e v = rw (sym (disclaim_state c s s' e)) (record {
  one = λ a b p q. ground (arith, v.one a b, v.one a c, v.one c b, ins);
  locked = λ a p. ground (arith, v.locked a, v.locked c, ins);
  named = λ a. ground (arith, v.named a, v.one a c, ins);
  off = λ a. ground (arith, v.off a, v.off c, ins);
  masked = λ a. v.masked a;
})

-- `popcli` undoes one `pushcli`.
pub popcli_state :
    (c p : Cpu)
    → popcli c ≡ some p
    → (c.ncli ≡ p.ncli + 1) × ((p.ncli ≡ 0) ⊎ (p.interrupts ≡ false)) × (c.interrupts ≡ false)
unfolding popcli
popcli_state c p e = ground arith

drop_state :
    (c : ℕ) (s s' : System)
    → drop c s ≡ some s'
    → (p : Cpu) × (popcli (s.cpus c) ≡ some p)
      × (record {
        lock = record (s.lock) { locked = false };
        cpus = update s.cpus c p;
        phase = update s.phase c outside;
      }
          ≡ s')
unfolding drop
drop_state c s s' e = go (popcli (s.cpus c)) e
  where
    go :
        (o : Option Cpu)
        → (o >>= λ p. some (record {
          lock = record (s.lock) { locked = false };
          cpus = update s.cpus c p;
          phase = update s.phase c outside;
        }))
          ≡ some s'
        → (p : Cpu) × (o ≡ some p)
          × (record {
            lock = record (s.lock) { locked = false };
            cpus = update s.cpus c p;
            phase = update s.phase c outside;
          }
              ≡ s')
    go none e = cc
    go (some p) e = (p, refl, cc)

drop-IsExclusive :
    (c : ℕ) (s s' : System)
    → s.phase c ≡ leaving
    → drop c s ≡ some s'
    → IsExclusive s
    → IsExclusive s'
drop-IsExclusive c s s' at_end e v =
    let (p, popped, same) = drop_state c s s' e in
    let (count, masked, was) = popcli_state (s.cpus c) p popped in
    rw (sym same) (record {
      one = λ a b p q. ground (arith, v.one a b);
      locked = λ a q. ground (arith, v.one a c, at_end);
      named = λ a. ground (arith, v.named a, v.named c, at_end);
      off = λ a. ground (arith, v.off a);
      masked = λ a. ground (arith, v.masked a, masked);
    })

push-IsExclusive :
    (c : ℕ) (s : System)
    → IsExclusive s
    → IsExclusive (record s { cpus = update s.cpus c (pushcli (s.cpus c)) })
unfolding pushcli
push-IsExclusive c s v = record {
  one = v.one;
  locked = v.locked;
  named = v.named;
  off = λ a. ground (arith, v.off a);
  masked = λ a. ground (arith, v.masked a);
}

pop-IsExclusive :
    (c : ℕ) (s : System) (p : Cpu)
    → (s.phase c ≡ outside) ⊎ (1 < (s.cpus c).ncli)
    → popcli (s.cpus c) ≡ some p
    → IsExclusive s
    → IsExclusive (record s { cpus = update s.cpus c p })
pop-IsExclusive c s p free popped v =
    let (count, masked, was) = popcli_state (s.cpus c) p popped in
    record {
      one = v.one;
      locked = v.locked;
      named = v.named;
      off = λ a. ground (arith, v.off a, free, count);
      masked = λ a. ground (arith, v.masked a, masked);
    }

Step-IsExclusive : {s s' : System} → Step s s' → IsExclusive s → IsExclusive s'
Step-IsExclusive {s} {s'} (enters c out e) v = enter-IsExclusive c s s' out e v
Step-IsExclusive {s} (spins c at_loop e) v = rw e (spin-IsExclusive c s at_loop v)
Step-IsExclusive {s} (claims c won e) v = rw e (claim-IsExclusive c s won v)
Step-IsExclusive {s} {s'} (disclaims c ins e) v = disclaim-IsExclusive c s s' ins e v
Step-IsExclusive {s} {s'} (drops c at_end e) v = drop-IsExclusive c s s' at_end e v
Step-IsExclusive {s} (pushes c e) v = rw e (push-IsExclusive c s v)
Step-IsExclusive {s} (pops c p free popped e) v = rw e (pop-IsExclusive c s p free popped v)

pub Reach-IsExclusive : {s s' : System} → Reach s s' → IsExclusive s → IsExclusive s'
Reach-IsExclusive here v = v
Reach-IsExclusive (later r st) v = Step-IsExclusive st (Reach-IsExclusive r v)
