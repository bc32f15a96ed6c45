-- ===== src/Buffers/Start.antt =====
-- `binit` makes the circle of all buffers, none of which holds a block.
use native.Mathlib.Decide.{ℕ_discrete}
use cpsc.Prelude.{
  ℕ, zero, suc, ◌+◌, ◌≤◌, ◌<◌, ◌≡◌, ◌∙◌, refl, false, List, [], ◌∷◌, length, update, arith,
}
use cpsc.Buffers.{nbuf, head, Cache, linked, insert_all, binit, set_prev, set_next}
use cpsc.Buffers.Circle.{Chain, NotIn, Distinct, Chain-same, linked-Chain}
use cpsc.Buffers.Cache.{IsCircle, is_block, Member, Once}

-- The buffers below `b`, each of which has the device -1.
abbrev Fresh : Cache → ℕ → List ℕ → Type 0
Fresh c b [] = Unit
Fresh c b (x ∷ xs) = (x < b) × ((c x).dev ≡ 4294967295) × Fresh c b xs

Fresh-NotIn : (c : Cache) (b x : ℕ) (bs : List ℕ) → b ≤ x → Fresh c b bs → NotIn x bs
Fresh-NotIn c b x [] le f = tt
Fresh-NotIn c b x (y ∷ bs) le (lt, dev, f) = (omega arith, Fresh-NotIn c b x bs le f)

Fresh-next :
    (c c' : Cache) (b : ℕ) (bs : List ℕ)
    → ((x : ℕ) → x < b → (c' x).dev ≡ (c x).dev)
    → Fresh c b bs
    → Fresh c' (suc b) bs
Fresh-next c c' b [] same f = tt
Fresh-next c c' b (x ∷ bs) same (lt, dev, f) =
    (omega arith, same x lt ∙ dev, Fresh-next c c' b bs same f)

-- The buffers in the order in which the loop leaves them.
abbrev pub down : ℕ → ℕ → List ℕ → List ℕ
down zero b bs = bs
down (suc k) b bs = down k (suc b) (b ∷ bs)

Fresh-dev :
    (c : Cache) (b : ℕ) (bs : List ℕ) (x : ℕ) → Fresh c b bs → Member x bs → (c x).dev ≡ 4294967295
Fresh-dev c b [] x f there = absurd (there tt)
Fresh-dev c b (y ∷ bs) x (lt, dev, f) there = elim (ℕ_discrete x y) [
  | yes same ↦ rw same dev
  | no ne ↦ Fresh-dev c b bs x f (λ out. there (ne, out))
]

linked_dev : (b : ℕ) (c : Cache) (x : ℕ) → (linked b c x).dev ≡ (c x).dev
unfolding linked
linked_dev b c x = ground arith

-- The state of the loop: the buffers below `b` are in the circle.
record Begun (b : ℕ) (c : Cache) (bs : List ℕ) : Type 0 where
  chain : Chain c head bs head
  distinct : Distinct (head ∷ bs)
  fresh : Fresh c b bs
  count : length bs ≡ b

Begun-next :
    (b : ℕ) (c : Cache) (bs : List ℕ)
    → b < nbuf
    → Begun b c bs
    → Begun (suc b) (linked b (update c b (record (c b) { dev = 4294967295 }))) (b ∷ bs)
Begun-next b c bs lt w = record {
  chain =
      linked-Chain c1 b bs
        (Chain-same c c1 head bs head (λ x w. ground arith) (λ x w. ground arith) w.chain)
        ((λ e. omega arith), Fresh-NotIn c b b bs (omega arith) w.fresh) w.distinct;
  distinct = (
    ((λ e. omega arith), w.distinct.0),
    (Fresh-NotIn c b b bs (omega arith) w.fresh, w.distinct.1),
  );
  fresh = (
    omega arith,
    kept b ∙ ground arith,
    Fresh-next c (linked b c1) b bs (λ x lt. kept x ∙ ground arith) w.fresh,
  );
  count = omega (arith, w.count);
}
  where
    c1 : Cache
    c1 = update c b (record (c b) { dev = 4294967295 })

    kept : (x : ℕ) → (linked b c1 x).dev ≡ (c1 x).dev
    kept x = linked_dev b c1 x

insert_all-Begun :
    (k b : ℕ) (c : Cache) (bs : List ℕ)
    → b + k ≤ nbuf
    → Begun b c bs
    → Begun (b + k) (insert_all k b c) (down k b bs)
unfolding insert_all
insert_all-Begun zero b c bs le w = rw (zero_more b) w
  where
    zero_more : (b : ℕ) → b + 0 ≡ b
    zero_more b = omega arith
insert_all-Begun (suc k) b c bs le w = rw (one_more b k) (
    insert_all-Begun k (suc b) (linked b (update c b (record (c b) { dev = 4294967295 }))) (b ∷ bs)
      (omega arith) (Begun-next b c bs (omega arith) w))
  where
    one_more : (b k : ℕ) → b + suc k ≡ suc b + k
    one_more b k = omega arith

-- Whatever the memory holds, `binit` makes a circle of all 30 buffers, with the last one in front,
-- and no block is cached.
binit_lem :
    (c : Cache)
    → IsCircle (binit c) (down nbuf 0 [])
      × Once (binit c) (down nbuf 0 [])
      × (length (down nbuf 0 []) ≡ nbuf)
      × ((dev blockno x : ℕ)
          → dev < 4294967295
          → Member x (down nbuf 0 [])
          → is_block dev blockno (binit c) x ≡ false)
unfolding binit
binit_lem c = (
  record { chain = all.chain; distinct = all.distinct; count = omega (arith, all.count) },
  (λ a b p q e f lt. absurd (omega (arith, fresh_dev a p))),
  refl,
  λ dev blockno x lt there. ground (arith, fresh_dev x there),
)
  where
    empty : Cache
    empty = set_next head head (set_prev head head c)

    all : Begun nbuf (insert_all nbuf 0 empty) (down nbuf 0 [])
    all = insert_all-Begun nbuf 0 empty [] (omega arith) (record {
      chain = (ground arith, ground arith);
      distinct = (tt, tt);
      fresh = tt;
      count = refl;
    })

    fresh_dev : (x : ℕ) → Member x (down nbuf 0 []) → (insert_all nbuf 0 empty x).dev ≡ 4294967295
    fresh_dev x there = Fresh-dev (insert_all nbuf 0 empty) nbuf (down nbuf 0 []) x all.fresh there
