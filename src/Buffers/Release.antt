-- ===== src/Buffers/Release.antt =====
-- `brelse` moves a buffer to the front of the list, and `binit` makes the first list.
use native.Mathlib.Decide.{ℕ_discrete}
use cpsc.Prelude.{
  ℕ, ◌≡◌, ◌≢◌, refl, sym, ◌∙◌, ◌⊎◌, inl, inr, false, none, some, List, [], ◌∷◌, ◌++◌, length,
  length-append, update, update_self, update_ne, arith, Bool-cases,
}
use cpsc.Buffers.{head, Buf, Cache, set_prev, set_next, unlinked, linked, brelse}
use cpsc.Buffers.Circle.{NotIn, Distinct, NotIn-append, NotIn-join, unlinked-Chain, linked-Chain}
use cpsc.Buffers.Cache.{IsCircle, Once, IsCircle-same}

-- What is not a pointer is the same.
abbrev SlotSame : Buf → Buf → Type 0
SlotSame s t =
    (t.busy ≡ s.busy)
    × (t.valid ≡ s.valid)
    × (t.dirty ≡ s.dirty)
    × (t.dev ≡ s.dev)
    × (t.blockno ≡ s.blockno)

SlotSame-trans : (s t u : Buf) → SlotSame s t → SlotSame t u → SlotSame s u
SlotSame-trans s t u p q = (q.0 ∙ p.0, q.1 ∙ p.1, q.2 ∙ p.2, q.3 ∙ p.3, q.4 ∙ p.4)

SlotSame-update :
    (c : Cache) (b : ℕ) (v : Buf) → SlotSame (c b) v → (x : ℕ) → SlotSame (c x) (update c b v x)
SlotSame-update c b v same x = elim (ℕ_discrete x b) [
  | yes e ↦ rw (e, update_self c b v) same
  | no ne ↦ rw (update_ne c b v x ne) (refl, refl, refl, refl, refl)
]

SlotSame-set_prev : (b p : ℕ) (c : Cache) (x : ℕ) → SlotSame (c x) (set_prev b p c x)
SlotSame-set_prev b p c x = SlotSame-update c b _ (refl, refl, refl, refl, refl) x

SlotSame-set_next : (b n : ℕ) (c : Cache) (x : ℕ) → SlotSame (c x) (set_next b n c x)
SlotSame-set_next b n c x = SlotSame-update c b _ (refl, refl, refl, refl, refl) x

SlotSame-unlinked : (b : ℕ) (c : Cache) (x : ℕ) → SlotSame (c x) (unlinked b c x)
unfolding unlinked
SlotSame-unlinked b c x =
    let c1 = set_prev (c b).next (c b).prev c in
    SlotSame-trans (c x) (c1 x) (set_next (c1 b).prev (c1 b).next c1 x)
      (SlotSame-set_prev (c b).next (c b).prev c x) (SlotSame-set_next (c1 b).prev (c1 b).next c1 x)

SlotSame-linked : (b : ℕ) (c : Cache) (x : ℕ) → SlotSame (c x) (linked b c x)
unfolding linked
SlotSame-linked b c x =
    let c1 = set_next b (c head).next c in
    let c2 = set_prev b head c1 in
    let c3 = set_prev (c2 head).next b c2 in
    SlotSame-trans (c x) (c1 x) (set_next head b c3 x) (SlotSame-set_next b (c head).next c x) (
      SlotSame-trans (c1 x) (c2 x) (set_next head b c3 x) (SlotSame-set_prev b head c1 x) (
        SlotSame-trans (c2 x) (c3 x) (set_next head b c3 x)
          (SlotSame-set_prev (c2 head).next b c2 x) (SlotSame-set_next head b c3 x)))

-- What is not a pointer stays under `brelse`, but for the flag of the buffer.
brelse_slot : (b : ℕ) (c : Cache) (x : ℕ) → SlotSame (c x) (linked b (unlinked b c) x)
brelse_slot b c x =
    SlotSame-trans (c x) (unlinked b c x) (linked b (unlinked b c) x) (SlotSame-unlinked b c x)
      (SlotSame-linked b (unlinked b c) x)

pub record Released (b : ℕ) (c c' : Cache) (bs : List ℕ) : Type 0 where
  pub circle : IsCircle c' bs
  pub once : Once c' bs
  pub free : (c' b).busy ≡ false
  pub busy : (x : ℕ) → x ≢ b → (c' x).busy ≡ (c x).busy
  pub kept :
      (x : ℕ)
      → ((c' x).valid ≡ (c x).valid)
        × ((c' x).dirty ≡ (c x).dirty)
        × ((c' x).dev ≡ (c x).dev)
        × ((c' x).blockno ≡ (c x).blockno)

NotIn-move : (x b : ℕ) (xs ys : List ℕ) → NotIn x (xs ++ b ∷ ys) → NotIn x (b ∷ (xs ++ ys))
NotIn-move x b xs ys out =
    let (l, r) = NotIn-append x xs (b ∷ ys) out in (r.0, NotIn-join x xs ys l r.1)

Distinct-move : (b : ℕ) (xs ys : List ℕ) → Distinct (xs ++ b ∷ ys) → Distinct (b ∷ (xs ++ ys))
Distinct-move b [] ys d = d
Distinct-move b (x ∷ xs) ys (out, d) =
    let (new, rest) = Distinct-move b xs ys d in
    let (ne, others) = NotIn-move x b xs ys out in (((λ e. ne (sym e)), new), (others, rest))

length-move : (b : ℕ) (xs ys : List ℕ) → length (b ∷ (xs ++ ys)) ≡ length (xs ++ b ∷ ys)
length-move b xs ys = omega (arith, length-append {0} xs ys, length-append {0} xs (b ∷ ys))

-- What `brelse` leaves, before it clears the flag.
moved-IsCircle :
    (c : Cache) (b : ℕ) (xs ys : List ℕ)
    → IsCircle c (xs ++ b ∷ ys)
    → IsCircle (linked b (unlinked b c)) (b ∷ (xs ++ ys))
moved-IsCircle c b xs ys v =
    let (out, d) = Distinct-move b xs ys v.distinct.1 in
    let (ne, others) = NotIn-move head b xs ys v.distinct.0 in
    record {
      chain =
          linked-Chain (unlinked b c) b (xs ++ ys)
            (unlinked-Chain c head xs b ys head v.chain v.distinct v.distinct.0)
            ((λ e. ne (sym e)), out) (others, d);
      distinct = ((ne, others), (out, d));
      count = omega (arith, v.count, length-move b xs ys);
    }

cleared-Released :
    (c c1 : Cache) (b : ℕ) (xs ys : List ℕ)
    → IsCircle c1 (b ∷ (xs ++ ys))
    → Once c (xs ++ b ∷ ys)
    → ((x : ℕ) → SlotSame (c x) (c1 x))
    → Released b c (update c1 b (record (c1 b) { busy = false })) (b ∷ (xs ++ ys))
cleared-Released c c1 b xs ys v once same = record {
  circle = IsCircle-same c1 _ (b ∷ (xs ++ ys)) (λ x. (ground arith, ground arith)) v;
  once = λ p q a d e f lt.
      once p q (λ out. a (NotIn-move p b xs ys out)) (λ out. d (NotIn-move q b xs ys out))
        (ground (arith, same p, same q, e)) (ground (arith, same p, same q, f))
        (ground (arith, same p, lt));
  free = ground arith;
  busy = λ x ne. ground (arith, same x, ne);
  kept = λ x. (
    ground (arith, same x),
    ground (arith, same x),
    ground (arith, same x),
    ground (arith, same x),
  );
}

-- `brelse` panics on a buffer that is not busy. Else the buffer is free and the most recently used,
-- the order of the others and all other flags and numbers are as before, and no block is cached twice.
pub brelse_lem :
    (c : Cache) (b : ℕ) (xs ys : List ℕ)
    → IsCircle c (xs ++ b ∷ ys)
    → Once c (xs ++ b ∷ ys)
    → (((c b).busy ≡ false) × (brelse b c ≡ none))
      ⊎ ((c' : Cache) × (brelse b c ≡ some c') × Released b c c' (b ∷ (xs ++ ys)))
unfolding brelse
brelse_lem c b xs ys v once = elim (Bool-cases (c b).busy) [
  | inr free ↦ inl (free, rw free refl)
  | inl busy ↦ inr (
    update (linked b (unlinked b c)) b (record (linked b (unlinked b c) b) { busy = false }),
    rw busy refl,
    cleared-Released c (linked b (unlinked b c)) b xs ys (moved-IsCircle c b xs ys v) once
        (brelse_slot b c),
  )
]
