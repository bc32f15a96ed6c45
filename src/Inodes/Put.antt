-- ===== src/Inodes/Put.antt =====
-- `iput`, down to the freeing of an inode that has no links.
use native.Mathlib.Decide.{ℕ_discrete}
use cpsc.Prelude.{
  ℕ, zero, suc, ◌+◌, ◌-◌, ◌<◌, ◌≡◌, ◌≢◌, ◌∙◌, refl, sym, ap, ap₂, ◌⊎◌, inl, inr, Bool, true, false,
  ◌&&◌, Option, none, some, ◌==◌, if◌then◌else◌, update, update_self, update_ne, arith, Bool-cases,
  ◌>>=◌,
}
use cpsc.Fs.{Super}
use cpsc.Inodes.{
  ninode, ndirect, Inode, Icache, Store, disk_copy, iupdate, free_direct, free_rest, itrunc, held,
  untyped, unflagged, discard, dereference, iput,
}
use cpsc.Inodes.Refs.{counted, refs, IsUnique, refs-update, IsUnique-update}

-- What holds of the result, if there is one.
abbrev WhenSome : {A : Type 0} → (A → Type 0) → Option A → Type 0
WhenSome P none = Unit {0}
WhenSome P (some a) = P a

WhenSome-bind :
    {A B : Type 0} (P : B → Type 0) (o : Option A) (f : A → Option B)
    → ((a : A) → WhenSome P (f a))
    → WhenSome P (o >>= f)
WhenSome-bind P none f each = tt
WhenSome-bind P (some a) f each = each a

WhenSome-then :
    {A B : Type 0} (Q : A → Type 0) (P : B → Type 0) (o : Option A) (f : A → Option B)
    → WhenSome Q o
    → ((a : A) → Q a → WhenSome P (f a))
    → WhenSome P (o >>= f)
WhenSome-then Q P none f holds each = tt
WhenSome-then Q P (some a) f holds each = each a holds

-- An entry keeps its inode and its references, and the other entries are the same.
pub record Kept (i : ℕ) (c c' : Icache) : Type 0 where
  pub others : (j : ℕ) → j ≢ i → c' j ≡ c j
  pub dev : (c' i).dev ≡ (c i).dev
  pub inum : (c' i).inum ≡ (c i).inum
  pub ref : (c' i).ref ≡ (c i).ref

Kept-trans : (i : ℕ) (c c1 c2 : Icache) → Kept i c c1 → Kept i c1 c2 → Kept i c c2
Kept-trans i c c1 c2 p q = record {
  others = λ j ne. q.others j ne ∙ p.others j ne;
  dev = q.dev ∙ p.dev;
  inum = q.inum ∙ p.inum;
  ref = q.ref ∙ p.ref;
}

Kept-update :
    (i : ℕ) (c : Icache) (v : Inode)
    → v.dev ≡ (c i).dev
    → v.inum ≡ (c i).inum
    → v.ref ≡ (c i).ref
    → Kept i c (update c i v)
Kept-update i c v d n r = record {
  others = λ j ne. update_ne c i v j ne;
  dev = ap (λ p. p.dev) (update_self c i v) ∙ d;
  inum = ap (λ p. p.inum) (update_self c i v) ∙ n;
  ref = ap (λ p. p.ref) (update_self c i v) ∙ r;
}

pub iupdate-dinodes :
    (i : ℕ) (s : Store)
    → (iupdate i s).dinodes (s.icache i).dev (s.icache i).inum ≡ disk_copy (s.icache i)
unfolding iupdate
iupdate-dinodes i s =
    ap (λ f. f (s.icache i).inum) (update_self s.dinodes (s.icache i).dev _)
    ∙ update_self (s.dinodes (s.icache i).dev) (s.icache i).inum (disk_copy (s.icache i))

-- What is left of a truncated inode.
abbrev Emptied : ℕ → Store → Store → Type 0
Emptied i s s' = Kept i s.icache s'.icache × ((s'.icache i).size ≡ 0)

itrunc-Emptied : (sb : Super) (i : ℕ) (s : Store) → WhenSome (Emptied i s) (itrunc sb i s)
unfolding itrunc iupdate
itrunc-Emptied sb i s =
    WhenSome-bind (Emptied i s) (free_direct ndirect 0 sb (s.icache i).addrs s.blocks) _
      (λ (a1, d1). WhenSome-bind (Emptied i s) (free_rest sb a1 d1) _ (λ (a2, d2).
        (Kept-update i s.icache _ refl refl refl, ap (λ p. p.size) (update_self s.icache i _))))

-- The inode is free on the disk, and its entry does not hold a copy of it any more.
abbrev pub Discarded : ℕ → Store → Store → Type 0
Discarded i s s' =
    Kept i s.icache s'.icache
    × ((s'.dinodes (s.icache i).dev (s.icache i).inum).type ≡ 0)
    × ((s'.dinodes (s.icache i).dev (s.icache i).inum).size ≡ 0)
    × ((s'.icache i).valid ≡ false)

untyped-Discarded :
    (i : ℕ) (s s1 : Store)
    → Emptied i (held i s) s1
    → Discarded i s (unflagged i (iupdate i (untyped i s1)))
unfolding iupdate
untyped-Discarded i s s1 (same, empty) = (
  Kept-trans i s.icache (held i s).icache _ (Kept-update i s.icache _ refl refl refl) (
      Kept-trans i (held i s).icache s1.icache _ same (
        Kept-trans i s1.icache (untyped i s1).icache _ (Kept-update i s1.icache _ refl refl refl)
          (Kept-update i (untyped i s1).icache _ refl refl refl))),
  ap (λ d. d.type) copied ∙ ap (λ p. p.type) entry,
  ap (λ d. d.size) copied ∙ ap (λ p. p.size) entry ∙ empty,
  ap (λ p. p.valid) (update_self (untyped i s1).icache i _),
)
  where
    entry : (untyped i s1).icache i ≡ record (s1.icache i) { type = 0 }
    entry = update_self s1.icache i _

    of_dev : (s.icache i).dev ≡ ((untyped i s1).icache i).dev
    of_dev = sym (ap (λ p. p.dev) entry ∙ same.dev ∙ ap (λ p. p.dev) (update_self s.icache i _))

    of_inum : (s.icache i).inum ≡ ((untyped i s1).icache i).inum
    of_inum = sym (ap (λ p. p.inum) entry ∙ same.inum ∙ ap (λ p. p.inum) (update_self s.icache i _))

    copied :
        (iupdate i (untyped i s1)).dinodes (s.icache i).dev (s.icache i).inum
        ≡ disk_copy ((untyped i s1).icache i)
    copied =
        ap₂ (λ a b. (iupdate i (untyped i s1)).dinodes a b) of_dev of_inum
        ∙ iupdate-dinodes i (untyped i s1)

discard-Discarded : (sb : Super) (i : ℕ) (s : Store) → WhenSome (Discarded i s) (discard sb i s)
unfolding discard
discard-Discarded sb i s = elim (Bool-cases (s.icache i).busy) [
  | inl busy ↦ rw busy tt
  | inr free ↦ rw free (
      WhenSome-then (Emptied i (held i s)) (Discarded i s) (itrunc sb i (held i s)) _
        (itrunc-Emptied sb i (held i s)) (λ s1 e. untyped-Discarded i s s1 e))
]

-- The references are as before but for one to the inode of `i`, and its entry is no other's.
pub record Put (i : ℕ) (s s' : Store) : Type 0 where
  pub unique : IsUnique s'.icache
  pub others : (j : ℕ) → j ≢ i → s'.icache j ≡ s.icache j
  pub counts :
      (d n : ℕ)
      → refs ninode d n s'.icache
          + (if (s.icache i).dev == d && (s.icache i).inum == n then 1 else 0)
        ≡ refs ninode d n s.icache

-- The last reference to an inode that has no links.
abbrev pub is_last : Inode → Bool
is_last ip = ip.ref == 1 && ip.valid && ip.nlink == 0

abbrev pub IputEnds : ℕ → Store → Option Store → Type 0
IputEnds i s none = is_last (s.icache i) ≡ true
IputEnds i s (some s') =
    Put i s s'
    × (((is_last (s.icache i) ≡ true)
          × ((s'.dinodes (s.icache i).dev (s.icache i).inum).type ≡ 0)
          × ((s'.dinodes (s.icache i).dev (s.icache i).inum).size ≡ 0)
          × ((s'.icache i).valid ≡ false))
        ⊎ ((is_last (s.icache i) ≡ false) × (s'.dinodes ≡ s.dinodes) × (s'.blocks ≡ s.blocks)))

-- An entry of the cache tells the same inode and as many references.
abbrev EntrySame : Inode → Inode → Type 0
EntrySame p q = (q.dev ≡ p.dev) × (q.inum ≡ p.inum) × (q.ref ≡ p.ref)

Kept-EntrySame : (i : ℕ) (c c' : Icache) → Kept i c c' → (x : ℕ) → EntrySame (c x) (c' x)
Kept-EntrySame i c c' same x = elim (ℕ_discrete x i) [
  | yes e ↦ rw e (same.dev, same.inum, same.ref)
  | no ne ↦ rw (same.others x ne) (refl, refl, refl)
]

IsUnique-same : (c c' : Icache) → ((x : ℕ) → EntrySame (c x) (c' x)) → IsUnique c → IsUnique c'
IsUnique-same c c' same unique a b la lb ra rb d n =
    unique a b la lb (omega (arith, ra, same a)) (omega (arith, rb, same b))
      (sym (same a).0 ∙ d ∙ (same b).0) (sym (same a).1 ∙ n ∙ (same b).1)

refs-same :
    (k d n : ℕ) (c c' : Icache) → ((x : ℕ) → EntrySame (c x) (c' x)) → refs k d n c' ≡ refs k d n c
unfolding refs
refs-same zero d n c c' same = refl
refs-same (suc k) d n c c' same =
    ap₂ (λ x y. x + y) (refs-same k d n c c' same) (ground (arith, same k))

one_less :
    (d n : ℕ) (ip p : Inode) (x y : ℕ)
    → 0 < p.ref
    → EntrySame p ip
    → x + counted d n ip ≡ y + counted d n (record ip { ref = ip.ref - 1 })
    → x + (if p.dev == d && p.inum == n then 1 else 0) ≡ y
one_less d n ip p x y some_ref same sum = ground arith

dereference-Put :
    (i : ℕ) (s s1 : Store)
    → IsUnique s.icache
    → i < ninode
    → 0 < (s.icache i).ref
    → Kept i s.icache s1.icache
    → Put i s (dereference i s1)
dereference-Put i s s1 unique lt some_ref same = record {
  unique =
      IsUnique-update s1.icache i _ unique1
        (λ j lj ne rj d n. ne (unique1 j i lj lt rj (omega (arith, some_ref, same.ref)) d n));
  others = λ j ne. update_ne s1.icache i _ j ne ∙ same.others j ne;
  counts = λ d n.
      one_less d n (s1.icache i) (s.icache i) _ _ some_ref (entries i)
        (refs-update ninode d n s1.icache i _ lt)
      ∙ refs-same ninode d n s.icache s1.icache entries;
}
  where
    entries : (x : ℕ) → EntrySame (s.icache x) (s1.icache x)
    entries = Kept-EntrySame i s.icache s1.icache same

    unique1 : IsUnique s1.icache
    unique1 = IsUnique-same s.icache s1.icache entries unique

-- The references, the entries and the inodes on the disk after `iput`.
pub iput-IputEnds :
    (sb : Super) (i : ℕ) (s : Store)
    → IsUnique s.icache
    → i < ninode
    → 0 < (s.icache i).ref
    → IputEnds i s (iput sb i s)
unfolding iput
iput-IputEnds sb i s unique lt some_ref = elim (Bool-cases (is_last (s.icache i))) [
  | inl last ↦ rw last (go (discard sb i s) (discard-Discarded sb i s) last)
  | inr more ↦ rw more (dereference-Put i s s unique lt some_ref same, inr (more, refl, refl))
]
  where
    same : Kept i s.icache s.icache
    same = record { others = λ j ne. refl; dev = refl; inum = refl; ref = refl }

    go :
        (o : Option Store)
        → WhenSome (Discarded i s) o
        → is_last (s.icache i) ≡ true
        → IputEnds i s (o >>= λ s'. some (dereference i s'))
    go none holds last = last
    go (some s1) (kept, ty, empty, gone) last = (
      dereference-Put i s s1 unique lt some_ref kept,
      inl (last, ty, empty, ap (λ p. p.valid) (update_self s1.icache i _) ∙ gone),
    )
