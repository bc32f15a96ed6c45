-- ===== src/Buffers/Circle.antt =====
-- The circle of buffers as a list, and what `brelse` does to it.
use native.Mathlib.Decide.{ℕ_discrete}
use cpsc.Prelude.{
  ℕ, ◌≡◌, ◌≢◌, ◌∙◌, refl, sym, ◌⊎◌, inl, inr, List, [], ◌∷◌, ◌++◌, ◌==◌, if◌then◌else◌, arith,
}
use cpsc.Buffers.{head, Cache, unlinked, linked}

-- From `p` along `next` through `bs` to `q`, and back along `prev`.
abbrev pub Chain : Cache → ℕ → List ℕ → ℕ → Type 0
Chain c p [] q = ((c p).next ≡ q) × ((c q).prev ≡ p)
Chain c p (b ∷ bs) q = ((c p).next ≡ b) × ((c b).prev ≡ p) × Chain c b bs q

abbrev pub NotIn : ℕ → List ℕ → Type 0
NotIn x [] = Unit
NotIn x (y ∷ ys) = (x ≢ y) × NotIn x ys

abbrev pub Distinct : List ℕ → Type 0
Distinct [] = Unit
Distinct (x ∷ xs) = NotIn x xs × Distinct xs

pub NotIn-append : (x : ℕ) (xs ys : List ℕ) → NotIn x (xs ++ ys) → NotIn x xs × NotIn x ys
NotIn-append x [] ys h = (tt, h)
NotIn-append x (y ∷ xs) ys h = let (a, b) = NotIn-append x xs ys h.1 in ((h.0, a), b)

pub NotIn-join : (x : ℕ) (xs ys : List ℕ) → NotIn x xs → NotIn x ys → NotIn x (xs ++ ys)
NotIn-join x [] ys a b = b
NotIn-join x (y ∷ xs) ys a b = (a.0, NotIn-join x xs ys a.1 b)

-- A chain depends on `next` up to its end and on `prev` after its start.
pub Chain-same :
    (c c' : Cache) (p : ℕ) (bs : List ℕ) (q : ℕ)
    → ((x : ℕ) → (x ≡ p) ⊎ (¬ NotIn x bs) → (c' x).next ≡ (c x).next)
    → ((x : ℕ) → (x ≡ q) ⊎ (¬ NotIn x bs) → (c' x).prev ≡ (c x).prev)
    → Chain c p bs q
    → Chain c' p bs q
Chain-same c c' p [] q n v (e, f) = (n p (inl refl) ∙ e, v q (inl refl) ∙ f)
Chain-same c c' p (b ∷ bs) q n v (e, f, rest) = (
  n p (inl refl) ∙ e,
  v b (inr λ h. h.0 refl) ∙ f,
  Chain-same c c' b bs q (λ x w. n x (deeper x w)) (λ x w. v x (deeper_end x w)) rest,
)
  where
    deeper : (x : ℕ) → (x ≡ b) ⊎ (¬ NotIn x bs) → (x ≡ p) ⊎ (¬ NotIn x (b ∷ bs))
    deeper x (inl same) = inr λ h. h.0 same
    deeper x (inr there) = inr λ h. there h.1

    deeper_end : (x : ℕ) → (x ≡ q) ⊎ (¬ NotIn x bs) → (x ≡ q) ⊎ (¬ NotIn x (b ∷ bs))
    deeper_end x (inl same) = inl same
    deeper_end x (inr there) = inr λ h. there h.1

pub Chain-split :
    (c : Cache) (p : ℕ) (xs : List ℕ) (b : ℕ) (ys : List ℕ) (q : ℕ)
    → Chain c p (xs ++ b ∷ ys) q
    → Chain c p xs b × Chain c b ys q
Chain-split c p [] b ys q (e, f, rest) = ((e, f), rest)
Chain-split c p (x ∷ xs) b ys q (e, f, rest) =
    let (l, r) = Chain-split c x xs b ys q rest in ((e, f, l), r)

pub Chain-join :
    (c : Cache) (p : ℕ) (xs : List ℕ) (b : ℕ) (ys : List ℕ) (q : ℕ)
    → Chain c p xs b
    → Chain c b ys q
    → Chain c p (xs ++ b ∷ ys) q
Chain-join c p [] b ys q (e, f) r = (e, f, r)
Chain-join c p (x ∷ xs) b ys q (e, f, l) r = (e, f, Chain-join c x xs b ys q l r)

-- The last buffer before the end, and the first one after the start.
prev_in :
    (c : Cache) (p : ℕ) (xs : List ℕ) (b : ℕ)
    → Chain c p xs b
    → (x : ℕ) → x ≢ p
    → NotIn x xs
    → x ≢ (c b).prev
prev_in c p [] b (e, f) x ne out same = ne (same ∙ f)
prev_in c p (y ∷ xs) b (e, f, r) x ne out same = prev_in c y xs b r x out.0 out.1 same

next_in :
    (c : Cache) (b : ℕ) (ys : List ℕ) (q : ℕ)
    → Chain c b ys q
    → (x : ℕ) → x ≢ q
    → NotIn x ys
    → x ≢ (c b).next
next_in c b [] q (e, f) x ne out same = ne (same ∙ e)
next_in c b (y ∷ ys) q (e, f, r) x ne out same = out.0 (same ∙ e)

-- The pointers after the removal of `b`.
pub unlinked_slot :
    (b : ℕ) (c : Cache) (x : ℕ)
    → (c b).next ≢ b
    → ((unlinked b c x).next ≡ (if x == (c b).prev then (c b).next else (c x).next))
      × ((unlinked b c x).prev ≡ (if x == (c b).next then (c b).prev else (c x).prev))
unfolding unlinked
unlinked_slot b c x ne = (ground (arith, ne), ground (arith, ne))

module _ (c c' : Cache) (b : ℕ)
    (n : (x : ℕ) → (c' x).next ≡ (if x == (c b).prev then (c b).next else (c x).next))
    (v : (x : ℕ) → (c' x).prev ≡ (if x == (c b).next then (c b).prev else (c x).prev)) where
  join_first :
      (p : ℕ) (ys : List ℕ) (q : ℕ)
      → (c p).next ≡ b
      → (c b).prev ≡ p
      → Chain c b ys q
      → NotIn p ys
      → Distinct ys
      → NotIn q ys
      → Chain c' p ys q
  join_first p [] q e f (g, h) out dis end_out =
      (ground (arith, n p, f, g), ground (arith, v q, f, g))
  join_first p (y ∷ ys) q e f (g, h, rest) out dis end_out = (
    ground (arith, n p, f, g),
    ground (arith, v y, f, g),
    Chain-same c c' y ys q same_next same_prev rest,
  )
    where
      same_next : (x : ℕ) → (x ≡ y) ⊎ (¬ NotIn x ys) → (c' x).next ≡ (c x).next
      same_next x (inl same) = ground (arith, n x, f, out.0)
      same_next x (inr there) = elim (ℕ_discrete x p) [
        | yes same ↦ absurd (there (rw same out.1))
        | no ne ↦ ground (arith, n x, f)
      ]

      same_prev : (x : ℕ) → (x ≡ q) ⊎ (¬ NotIn x ys) → (c' x).prev ≡ (c x).prev
      same_prev x (inl same) = ground (arith, v x, g, end_out.0)
      same_prev x (inr there) = elim (ℕ_discrete x y) [
        | yes same ↦ absurd (there (rw same dis.0))
        | no ne ↦ ground (arith, v x, g)
      ]

  join_rest :
      (p : ℕ) (xs ys : List ℕ) (q : ℕ)
      → Chain c p xs b
      → Chain c b ys q
      → Distinct (p ∷ (xs ++ b ∷ ys))
      → NotIn q (xs ++ b ∷ ys)
      → Chain c' p (xs ++ ys) q
  join_rest p [] ys q (e, f) r dis out = join_first p ys q e f r dis.0.1 dis.1.1 out.1
  join_rest p (x ∷ xs) ys q (e, f, l) r dis out = (
    ground (arith, n p, prev_in c x xs b l p dis.0.0 (NotIn-append p xs (b ∷ ys) dis.0.1).0),
    ground (
      arith,
      v x,
      next_in c b ys q r x (λ same. out.0 (sym same)) (NotIn-append x xs (b ∷ ys) dis.1.0).1.1,
    ),
    join_rest x xs ys q l r dis.1 out.1,
  )

Distinct-tail : (b : ℕ) (xs ys : List ℕ) → Distinct (xs ++ b ∷ ys) → NotIn b ys
Distinct-tail b [] ys d = d.0
Distinct-tail b (x ∷ xs) ys d = Distinct-tail b xs ys d.1

-- The removal of a buffer from the circle leaves the circle of the others.
pub unlinked-Chain :
    (c : Cache) (p : ℕ) (xs : List ℕ) (b : ℕ) (ys : List ℕ) (q : ℕ)
    → Chain c p (xs ++ b ∷ ys) q
    → Distinct (p ∷ (xs ++ b ∷ ys))
    → NotIn q (xs ++ b ∷ ys)
    → Chain (unlinked b c) p (xs ++ ys) q
unlinked-Chain c p xs b ys q chain dis out =
    let (l, r) = Chain-split c p xs b ys q chain in
    join_rest c (unlinked b c) b (λ x. (unlinked_slot b c x (not_self r)).0)
      (λ x. (unlinked_slot b c x (not_self r)).1) p xs ys q l r dis out
  where
    not_self : Chain c b ys q → (c b).next ≢ b
    not_self r same =
        next_in c b ys q r b (λ e. (NotIn-append q xs (b ∷ ys) out).1.0 (sym e))
          (Distinct-tail b xs ys dis.1) (sym same)

-- The pointers after the insertion of `b` at the head.
linked_slot :
    (b : ℕ) (c : Cache) (x : ℕ)
    → b ≢ head
    → (c head).next ≢ b
    → ((linked b c x).next
        ≡ (if x == head then b else (if x == b then (c head).next else (c x).next)))
      × ((linked b c x).prev
          ≡ (if x == (c head).next then b else (if x == b then head else (c x).prev)))
unfolding linked
linked_slot b c x ne first = (ground (arith, ne, first), ground (arith, ne, first))

-- The insertion puts the buffer in front.
pub linked-Chain :
    (c : Cache) (b : ℕ) (bs : List ℕ)
    → Chain c head bs head
    → NotIn b (head ∷ bs)
    → Distinct (head ∷ bs)
    → Chain (linked b c) head (b ∷ bs) head
linked-Chain c b [] (e, f) out dis =
    let slot = λ (x : ℕ). linked_slot b c x out.0 (λ s. out.0 (sym s ∙ e)) in
    (
      ground (arith, slot head, out.0),
      ground (arith, slot b, e, out.0),
      (ground (arith, slot b, e, out.0), ground (arith, slot head, e, out.0)),
    )
linked-Chain c b (y ∷ bs) (e, f, rest) out dis = (
  ground (arith, slot head, out.0),
  ground (arith, slot b, e, out.0, out.1.0),
  (
    ground (arith, slot b, e, out.0),
    ground (arith, slot y, e, out.0),
    Chain-same c (linked b c) y bs head same_next same_prev rest,
  ),
)
  where
    slot :
        (x : ℕ)
        → ((linked b c x).next
            ≡ (if x == head then b else (if x == b then (c head).next else (c x).next)))
          × ((linked b c x).prev
              ≡ (if x == (c head).next then b else (if x == b then head else (c x).prev)))
    slot x = linked_slot b c x out.0 (λ s. out.1.0 (sym s ∙ e))

    same_next : (x : ℕ) → (x ≡ y) ⊎ (¬ NotIn x bs) → (linked b c x).next ≡ (c x).next
    same_next x (inl same) = ground (arith, slot x, out.1.0, dis.0.0)
    same_next x (inr there) = elim (ℕ_discrete x head) [
      | yes same ↦ absurd (there (rw same dis.0.1))
      | no ne ↦ elim (ℕ_discrete x b) [
        | yes same ↦ absurd (there (rw same out.1.1))
        | no nb ↦ ground (arith, slot x)
      ]
    ]

    same_prev : (x : ℕ) → (x ≡ head) ⊎ (¬ NotIn x bs) → (linked b c x).prev ≡ (c x).prev
    same_prev x (inl same) = ground (arith, slot x, e, out.0, dis.0.0)
    same_prev x (inr there) = elim (ℕ_discrete x y) [
      | yes same ↦ absurd (there (rw same dis.1.0))
      | no ne ↦ elim (ℕ_discrete x b) [
        | yes same ↦ absurd (there (rw same out.1.1))
        | no nb ↦ ground (arith, slot x, e)
      ]
    ]
