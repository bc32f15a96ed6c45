-- ===== src/Files/Close.antt =====
-- The references to open files.
use native.Mathlib.Decide.{ℕ_discrete}
use cpsc.Prelude.{
  ℕ, zero, suc, ◌+◌, ◌-◌, ◌≤◌, ◌<◌, ◌≡◌, ◌≢◌, ◌∙◌, refl, ap, ◌⊎◌, inl, inr, Bool, true, false,
  Option, none, some, ◌==◌, ltb, update, update_self, update_ne, arith, Bool-cases, fun_ext,
}
use cpsc.Pipe.{Pipe, Channel}
use cpsc.Pipe
use cpsc.Fs.{Super}
use cpsc.Inodes.{ninode, Store}
use cpsc.Inodes.Put.{Put, is_last}
use cpsc.Files.{
  nfile, FileType, fd_none, fd_pipe, fd_inode, File, Ftable, System, alloc_from, filealloc, filedup,
  dropped, fileclose,
}

-- What a file that is open stands for: an entry of the cache with a reference.
abbrev pub HoldsInode : FileType → ℕ → Store → Type 0
HoldsInode fd_none i s = Unit {0}
HoldsInode fd_pipe i s = Unit {0}
HoldsInode fd_inode i s = (i < ninode) × (0 < (s.icache i).ref)

-- What is done of the pipe or the inode when the last reference goes.
abbrev pub KindClosed : FileType → File → System → System → Option (Channel × Bool) → Type 0
KindClosed fd_none ff s s' woken = (s'.pipes ≡ s.pipes) × (s'.store ≡ s.store) × (woken ≡ none)
KindClosed fd_pipe ff s s' woken =
    (s'.store ≡ s.store)
    × (s'.pipes ≡ update s.pipes ff.pipe (Pipe.close (s.pipes ff.pipe) ff.writable).0)
    × (woken
        ≡ some (
          (Pipe.close (s.pipes ff.pipe) ff.writable).1,
          (Pipe.close (s.pipes ff.pipe) ff.writable).2,
        ))
KindClosed fd_inode ff s s' woken =
    (s'.pipes ≡ s.pipes) × Put ff.ip s.store s'.store × (woken ≡ none)

abbrev pub CloseEnds : ℕ → System → Option (System × Option (Channel × Bool)) → Type 0
CloseEnds f s none =
    ((s.ftable f).ref ≡ 0)
    ⊎ (((s.ftable f).ref ≡ 1)
        × ((s.ftable f).type ≡ fd_inode)
        × (is_last (s.store.icache (s.ftable f).ip) ≡ true))
CloseEnds f s (some (s', woken)) =
    ((s'.ftable f).ref + 1 ≡ (s.ftable f).ref)
    × ((g : ℕ) → g ≢ f → s'.ftable g ≡ s.ftable g)
    × (((1 < (s.ftable f).ref)
          × ((s'.ftable f).type ≡ (s.ftable f).type)
          × KindClosed fd_none (s.ftable f) s s' woken)
        ⊎ (((s.ftable f).ref ≡ 1)
            × ((s'.ftable f).type ≡ fd_none)
            × KindClosed (s.ftable f).type (s.ftable f) s s' woken))

abbrev KindEnds : FileType → File → System → Option (System × Option (Channel × Bool)) → Type 0
KindEnds t ff s none = (t ≡ fd_inode) × (is_last (s.store.icache ff.ip) ≡ true)
KindEnds t ff s (some (s', woken)) = (s'.ftable ≡ s.ftable) × KindClosed t ff s s' woken

fileclose-shared :
    (sb : Super) (f : ℕ) (s : System)
    → 1 < (s.ftable f).ref
    → fileclose sb f s
      ≡ some (record s { ftable = dropped f ((s.ftable f).ref - 1) s.ftable }, none)
unfolding fileclose
fileclose-shared sb f s more = rw (is_open (s.ftable f).ref more, shared (s.ftable f).ref more) refl
  where
    is_open : (n : ℕ) → 1 < n → ltb n 1 ≡ false
    is_open n more = ground arith

    shared : (n : ℕ) → 1 < n → ltb 0 (n - 1) ≡ true
    shared n more = ground arith

abbrev with_ref : ℕ → File → File
with_ref n p = record p { ref = n }

-- One reference more and one less is no change.
dropped-update :
    (f : ℕ) (t : Ftable)
    → dropped f
        ((update t f (record (t f) { ref = (t f).ref + 1 }) f).ref - 1)
        (update t f (record (t f) { ref = (t f).ref + 1 }))
      ≡ t
dropped-update f t = fun_ext (λ g. elim (ℕ_discrete g f) [
  | yes e ↦ rw e (
      update_self up f _
      ∙ ap (λ p. with_ref (p.ref - 1) p) (update_self t f (with_ref ((t f).ref + 1) (t f)))
      ∙ ap (λ n. with_ref n (t f)) (back (t f).ref))
  | no ne ↦ update_ne up f _ g ne ∙ update_ne t f _ g ne
])
  where
    up : Ftable
    up = update t f (record (t f) { ref = (t f).ref + 1 })

    back : (n : ℕ) → n + 1 - 1 ≡ n
    back n = omega arith

-- `filedup` of a file with a reference does not panic, and `fileclose` undoes it and closes nothing.
fileclose-filedup :
    (sb : Super) (f : ℕ) (s : System)
    → 0 < (s.ftable f).ref
    → (t : Ftable) × (filedup f s.ftable ≡ some t)
      × (fileclose sb f (record s { ftable = t }) ≡ some (s, none))
unfolding filedup
fileclose-filedup sb f s some_ref = (
  update s.ftable f (record (s.ftable f) { ref = (s.ftable f).ref + 1 }),
  rw (is_open (s.ftable f).ref some_ref) refl,
  fileclose-shared sb f
        (record s {
          ftable = update s.ftable f (record (s.ftable f) { ref = (s.ftable f).ref + 1 });
        })
        (above (update_self s.ftable f _) (omega arith))
      ∙ ap (λ t. some (record s { ftable = t }, none)) (dropped-update f s.ftable),
)
  where
    above : {p v : File} → p ≡ v → 1 < v.ref → 1 < p.ref
    above e more = rw e more

    is_open : (n : ℕ) → 0 < n → ltb n 1 ≡ false
    is_open n more = ground arith

-- What `filealloc` hands out is the first file without references, which then has one.
abbrev AllocEnds : ℕ → ℕ → Ftable → Option (ℕ × Ftable) → Type 0
AllocEnds k f t none = (g : ℕ) → f ≤ g → g < f + k → 0 < (t g).ref
AllocEnds k f t (some (r, t')) =
    (f ≤ r)
    × (r < f + k)
    × ((t r).ref ≡ 0)
    × ((g : ℕ) → f ≤ g → g < r → 0 < (t g).ref)
    × (t' ≡ update t r (record (t r) { ref = 1 }))

AllocEnds-next :
    (k f : ℕ) (t : Ftable) (o : Option (ℕ × Ftable))
    → 0 < (t f).ref
    → AllocEnds k (suc f) t o
    → AllocEnds (suc k) f t o
AllocEnds-next k f t none here rest = λ g lo hi. elim (ℕ_discrete g f) [
  | yes e ↦ rw e here
  | no ne ↦ rest g (omega arith) (omega arith)
]
AllocEnds-next k f t (some (r, t')) here (lo, hi, free, before, same) = (
  omega arith,
  omega arith,
  free,
  (λ g a c. elim (ℕ_discrete g f) [ yes e ↦ rw e here | no ne ↦ before g (omega arith) c ]),
  same,
)

alloc_from-AllocEnds : (k f : ℕ) (t : Ftable) → AllocEnds k f t (alloc_from k f t)
unfolding alloc_from
alloc_from-AllocEnds zero f t = λ g lo hi. absurd (omega arith)
alloc_from-AllocEnds (suc k) f t = elim (Bool-cases ((t f).ref == 0)) [
  | inl free ↦
      rw free
        (omega arith, omega arith, ground (arith, free), (λ g a c. absurd (omega arith)), refl)
  | inr used ↦
      rw used (AllocEnds-next k f t _ (ground (arith, used)) (alloc_from-AllocEnds k (suc f) t))
]

-- `filealloc` hands out the first of the 100 files without references, with one reference and
-- nothing else changed, or fails if each has one.
filealloc_lem : (t : Ftable) → AllocEnds nfile 0 t (filealloc t)
unfolding filealloc
filealloc_lem t = alloc_from-AllocEnds nfile 0 t
