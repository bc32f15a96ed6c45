-- ===== src/Buffers/Cache.antt =====
-- bio.c against a list of buffers, most recently used first, and each block cached once.
use native.Mathlib.Decide.{ℕ_discrete}
use mathlib.Core.List.{reverse, reverse-cons}
use cpsc.Prelude.{
  ℕ, zero, suc, ◌+◌, ◌≤◌, ◌<◌, ◌≡◌, refl, inl, inr, Bool, true, false, not, ◌&&◌, Option, none,
  some, List, [], ◌∷◌, ◌++◌, length, length-append, ◌==◌, if◌then◌else◌, arith, Bool-cases,
}
use cpsc.Buffers.{nbuf, head, Cache, find_block, find_clean, found, recycled, or_else, bget}
use cpsc.Buffers.Circle.{Chain, NotIn, Distinct, Chain-same, NotIn-append, NotIn-join}

-- The buffers, in their order.
pub record IsCircle (c : Cache) (bs : List ℕ) : Type 0 where
  pub chain : Chain c head bs head
  pub distinct : Distinct (head ∷ bs)
  pub count : length bs ≤ nbuf

-- The first buffer of the list that passes.
abbrev pub first : (ℕ → Bool) → List ℕ → Option ℕ
first test [] = none
first test (b ∷ bs) = if test b then some b else first test bs

abbrev pub is_block : ℕ → ℕ → Cache → ℕ → Bool
is_block dev blockno c b = (c b).dev == dev && (c b).blockno == blockno

abbrev pub is_clean : Cache → ℕ → Bool
is_clean c b = not (c b).busy && not (c b).dirty

find_block_lem :
    (fuel dev blockno : ℕ) (c : Cache) (p : ℕ) (bs : List ℕ)
    → Chain c p bs head
    → NotIn head bs
    → length bs < fuel
    → find_block fuel dev blockno (c p).next c ≡ first (is_block dev blockno c) bs
unfolding find_block
find_block_lem zero dev blockno c p bs chain out room = absurd (omega arith)
find_block_lem (suc fuel) dev blockno c p [] (e, f) out room = rw e refl
find_block_lem (suc fuel) dev blockno c p (b ∷ bs) (e, f, rest) out room =
    rw e (ground (arith, find_block_lem fuel dev blockno c b bs rest out.1, out.0))

-- The same chain from its end.
abbrev Back : Cache → ℕ → List ℕ → ℕ → Type 0
Back c q [] p = (c q).prev ≡ p
Back c q (b ∷ bs) p = ((c q).prev ≡ b) × Back c b bs p

Back-snoc :
    (c : Cache) (q : ℕ) (bs : List ℕ) (b p : ℕ)
    → Back c q bs b
    → (c b).prev ≡ p
    → Back c q (bs ++ b ∷ []) p
Back-snoc c q [] b p e f = (e, f)
Back-snoc c q (x ∷ bs) b p (e, r) f = (e, Back-snoc c x bs b p r f)

Chain-Back : (c : Cache) (p : ℕ) (bs : List ℕ) (q : ℕ) → Chain c p bs q → Back c q (reverse bs) p
Chain-Back c p [] q (e, f) = f
Chain-Back c p (b ∷ bs) q (e, f, rest) =
    rw (reverse-cons b bs) (Back-snoc c q (reverse bs) b p (Chain-Back c b bs q rest) f)

pub NotIn-reverse : (x : ℕ) (bs : List ℕ) → NotIn x bs → NotIn x (reverse bs)
NotIn-reverse x [] out = tt
NotIn-reverse x (b ∷ bs) out =
    rw (reverse-cons b bs)
      (NotIn-join x (reverse bs) (b ∷ []) (NotIn-reverse x bs out.1) (out.0, tt))

pub reverse-NotIn : (x : ℕ) (bs : List ℕ) → NotIn x (reverse bs) → NotIn x bs
reverse-NotIn x [] out = tt
reverse-NotIn x (b ∷ bs) out =
    let (rest, last) = NotIn-append x (reverse bs) (b ∷ []) (rw (reverse-cons b bs) at out) in
    (last.0, reverse-NotIn x bs rest)

length-reverse : (bs : List ℕ) → length (reverse bs) ≡ length bs
length-reverse [] = refl
length-reverse (b ∷ bs) =
    rw (reverse-cons b bs)
      (omega (arith, length-append {0} (reverse bs) (b ∷ []), length-reverse bs))

find_clean_lem :
    (fuel : ℕ) (c : Cache) (q : ℕ) (bs : List ℕ)
    → Back c q bs head
    → NotIn head bs
    → length bs < fuel
    → find_clean fuel (c q).prev c ≡ first (is_clean c) bs
unfolding find_clean
find_clean_lem zero c q bs back out room = absurd (omega arith)
find_clean_lem (suc fuel) c q [] e out room = rw e refl
find_clean_lem (suc fuel) c q (b ∷ bs) (e, rest) out room =
    rw e (ground (arith, find_clean_lem fuel c b bs rest out.1, out.0))

-- The pointers find what a search of the list does.
pub bget-first :
    (dev blockno : ℕ) (c : Cache) (bs : List ℕ)
    → IsCircle c bs
    → bget dev blockno c
      ≡ or_else
          (found (first (is_block dev blockno c) bs) c)
          (recycled dev blockno (first (is_clean c) (reverse bs)) c)
unfolding bget
bget-first dev blockno c bs v =
    rw
      (
        find_block_lem (nbuf + 1) dev blockno c head bs v.chain v.distinct.0
            (omega (arith, v.count)),
        find_clean_lem (nbuf + 1) c head (reverse bs) (Chain-Back c head bs head v.chain)
            (NotIn-reverse head bs v.distinct.0) (omega (arith, v.count, length-reverse bs)),
      )
      refl

abbrev pub Member : ℕ → List ℕ → Type 0
Member b bs = ¬ NotIn b bs

abbrev pub FirstEnds : (ℕ → Bool) → List ℕ → Option ℕ → Type 0
FirstEnds test bs none = (b : ℕ) → Member b bs → test b ≡ false
FirstEnds test bs (some b) = Member b bs × (test b ≡ true)

pub first-FirstEnds : (test : ℕ → Bool) (bs : List ℕ) → FirstEnds test bs (first test bs)
first-FirstEnds test [] = λ b there. absurd (there tt)
first-FirstEnds test (b ∷ bs) = elim (Bool-cases (test b)) [
  | inl hit ↦ rw hit ((λ out. out.0 refl), hit)
  | inr miss ↦ rw miss (later (first test bs) (first-FirstEnds test bs) miss)
]
  where
    later : (o : Option ℕ) → FirstEnds test bs o → test b ≡ false → FirstEnds test (b ∷ bs) o
    later none all miss = λ x there. elim (ℕ_discrete x b) [
      | yes same ↦ rw same miss
      | no ne ↦ all x (λ out. there (ne, out))
    ]
    later (some x) (there, hit) miss = ((λ out. there out.1), hit)

-- No block is in two buffers. A buffer that was never used has the device -1.
abbrev pub Once : Cache → List ℕ → Type 0
Once c bs =
    (a b : ℕ)
    → Member a bs
    → Member b bs
    → (c a).dev ≡ (c b).dev
    → (c a).blockno ≡ (c b).blockno
    → (c a).dev < 4294967295
    → a ≡ b

-- A buffer changes, but for its pointers: the circle stays.
pub IsCircle-same :
    (c c' : Cache) (bs : List ℕ)
    → ((x : ℕ) → ((c' x).next ≡ (c x).next) × ((c' x).prev ≡ (c x).prev))
    → IsCircle c bs
    → IsCircle c' bs
IsCircle-same c c' bs same v = record {
  chain = Chain-same c c' head bs head (λ x w. (same x).0) (λ x w. (same x).1) v.chain;
  distinct = v.distinct;
  count = v.count;
}
