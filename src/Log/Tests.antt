-- ===== src/Log/Tests.antt =====
-- A transaction of two blocks, and the properties of log.c on it.
use cpsc.Prelude.{
  fun_ext, [], ◌∷◌, ℕ, zero, suc, ◌+◌, ◌≤◌, ◌<◌, ◌≡◌, refl, ◌⊎◌, inl, inr, true, false, none, some,
  ◌==◌, if◌then◌else◌, arith,
}
use cpsc.Log.{Block, Io, view, Log, commit, recover_from_log}
use cpsc.Log.Crash.{Txn, IsTxn, Matches, IsBefore, IsLogged}
use cpsc.Log.Commit.{CommitEnds, commit_lem}
use cpsc.Log.Recover.{RecoverEnds, restart, restarts, recover_lem, restarts_lem}

-- The blocks 50 and 60 are to hold 7s and 8s; the log is in the blocks 2 to 31.
abbrev change : Txn
change = record {
  start = 2;
  size = 30;
  n = 2;
  block = λ j. if j == 0 then 50 else 60;
  contents = λ j i. if j == 0 then 7 else 8;
  old = λ b i. 0;
}

change-IsTxn : IsTxn change
change-IsTxn = record {
  room = omega arith;
  home = λ j a. ground arith;
  distinct = λ i j a b e. ground arith;
}

abbrev log_of : ℕ → Log
log_of n = record {
  start = 2;
  size = 30;
  outstanding = 0;
  committing = true;
  lh = record { n = n; block = λ j. if j == 0 then 50 else 60 };
}

abbrev changed : Io
changed = record {
  disk = record { blocks = λ b i. 0; power = 4 };
  cache = λ b. if b == 50 then some (λ i. 7) else (if b == 60 then some (λ i. 8) else none);
}

log_of-Matches : Matches change (log_of 2)
log_of-Matches = record { start = refl; n = refl; block = λ j a. refl }

changed_cached : (j : ℕ) → j < 2 → view changed (change.block j) ≡ change.contents j
unfolding view
changed_cached zero a = refl
changed_cached (suc zero) a = refl
changed_cached (suc (suc j)) a = absurd (omega arith)

zeros-IsBefore : IsBefore change (λ b i. 0)
zeros-IsBefore = record { empty = refl; old = λ b h. refl }

commit_lem_example : CommitEnds change (commit (log_of 2) changed).1.disk
commit_lem_example =
    commit_lem change change-IsTxn (log_of 2) changed log_of-Matches (omega arith) changed_cached
      zeros-IsBefore

-- The machine restarts with the transaction in the log and takes one more write.
abbrev logged_blocks : ℕ → Block
logged_blocks b i =
    if b == 2
    then (if i == 0 then 2 else (if i == 1 then 50 else 60))
    else (if b == 3 then 7 else (if b == 4 then 8 else 0))

abbrev restarted : Io
restarted = record { disk = record { blocks = logged_blocks; power = 1 }; cache = λ b. none }

logged_blocks-IsLogged : IsLogged change logged_blocks
logged_blocks-IsLogged = record {
  count = refl;
  names = λ j a. names j a;
  logged = λ j a. logged j a;
  others = λ b h u. others b h;
}
  where
    names : (j : ℕ) → j < 2 → logged_blocks 2 (suc j) ≡ change.block j
    names j a = ground arith

    logged : (j : ℕ) → j < 2 → logged_blocks (2 + j + 1) ≡ change.contents j
    logged zero a = refl
    logged (suc zero) a = refl
    logged (suc (suc j)) a = absurd (omega arith)

    others : (b : ℕ) → (b < 2) ⊎ (32 ≤ b) → logged_blocks b ≡ change.old b
    others b h = fun_ext λ i. ground arith

recover_lem_example : RecoverEnds change (recover_from_log (log_of 0) restarted).1.disk
unfolding view
recover_lem_example =
    recover_lem change change-IsTxn (log_of 0) restarted refl (λ b. refl)
      (inr (inl logged_blocks-IsLogged))

restarts_lem_example :
    RecoverEnds change
      (recover_from_log
        (log_of 0)
        (restart 9 (restarts (1 ∷ 0 ∷ []) (log_of 0) (commit (log_of 2) changed).1))).1.disk
restarts_lem_example =
    restarts_lem change change-IsTxn (log_of 2) (log_of 0) changed (1 ∷ 0 ∷ []) 9 log_of-Matches
      refl (omega arith) changed_cached zeros-IsBefore

abbrev idle : Log
idle = record (log_of 0) { size = 31; committing = false }

abbrev begun : Log
begun = record idle { outstanding = 1 }

abbrev with_block : Log
with_block = record begun {
  lh = record { n = 1; block = λ j. if j == 0 then 50 else idle.lh.block j };
}
