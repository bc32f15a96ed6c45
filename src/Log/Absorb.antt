-- ===== src/Log/Absorb.antt =====
-- The search of `log_write` and the entry that it makes in the header.
use native.Mathlib.Decide.{ℕ_discrete, dec_lt}
use cpsc.Prelude.{
  ℕ, zero, suc, ◌+◌, ◌≤◌, ◌<◌, ◌≡◌, ◌≢◌, ◌∙◌, ap, sym, ◌⊎◌, inl, inr, update, update_self,
  update_ne, arith,
}
use cpsc.Log.{Header, absorb, recorded}

-- The search of `log_write` from `i` stops at `r`: at the first entry for the block, or at the end.
pub record Absorbed (i end b : ℕ) (block : ℕ → ℕ) (r : ℕ) : Type 0 where
  pub lower : i ≤ r
  pub upper : r ≤ end
  pub found : (r ≡ end) ⊎ (block r ≡ b)
  pub first : (j : ℕ) → i ≤ j → j < r → block j ≢ b

absorb_same : (k i b : ℕ) (block : ℕ → ℕ) → block i ≡ b → absorb (suc k) i b block ≡ i
unfolding absorb
absorb_same k i b block e = ground arith

absorb_next :
    (k i b : ℕ) (block : ℕ → ℕ) → block i ≢ b → absorb (suc k) i b block ≡ absorb k (suc i) b block
unfolding absorb
absorb_next k i b block e = ground arith

pub absorb_lem :
    (k i b end : ℕ) (block : ℕ → ℕ) → i + k ≡ end → Absorbed i end b block (absorb k i b block)
unfolding absorb
absorb_lem zero i b end block e = record {
  lower = omega arith;
  upper = omega arith;
  found = inl (omega arith);
  first = λ j a c. absurd (omega arith);
}
absorb_lem (suc k) i b end block e = elim (ℕ_discrete (block i) b) [
  | yes q ↦ rw (absorb_same k i b block q) (record {
    lower = omega arith;
    upper = omega arith;
    found = inr q;
    first = λ j a c. absurd (omega arith);
  })
  | no q ↦ rw (absorb_next k i b block q) (later q (absorb_lem k (suc i) b end block (omega arith)))
]
  where
    later : {r : ℕ} → block i ≢ b → Absorbed (suc i) end b block r → Absorbed i end b block r
    later q w = record {
      lower = omega (arith, w.lower);
      upper = w.upper;
      found = w.found;
      first = λ j a c. elim (ℕ_discrete j i) [
        | yes same ↦ λ f. q (ap block (sym same) ∙ f)
        | no ne ↦ w.first j (omega arith) c
      ];
    }

-- No other entry is for the block.
others_differ :
    (b r : ℕ) (lh : Header)
    → Absorbed 0 lh.n b lh.block r
    → ((i j : ℕ) → i < lh.n → j < lh.n → lh.block i ≡ lh.block j → i ≡ j)
    → (j : ℕ) → j < lh.n
    → j ≢ r
    → lh.block j ≢ b
others_differ b r lh w distinct j c ne e = elim (dec_lt j r) [
  | yes lt ↦ w.first j (omega arith) lt e
  | no ge ↦ elim w.found [
    | inl at_end ↦ absurd (omega arith)
    | inr same ↦ ne (distinct j r c (omega arith) (e ∙ sym same))
  ]
]

-- The entries stay distinct, with the one that the search found or one more.
pub recorded_distinct :
    (b r : ℕ) (lh : Header)
    → Absorbed 0 lh.n b lh.block r
    → ((i j : ℕ) → i < lh.n → j < lh.n → lh.block i ≡ lh.block j → i ≡ j)
    → (i j : ℕ) → i < (recorded b r lh).n
    → j < (recorded b r lh).n
    → (recorded b r lh).block i ≡ (recorded b r lh).block j
    → i ≡ j
recorded_distinct b r lh w distinct i j a c e = elim (ℕ_discrete i r) [
  | yes p ↦ elim (ℕ_discrete j r) [
    | yes q ↦ p ∙ sym q
    | no q ↦ absurd (
        others_differ b r lh w distinct j (below j c q) q (
          sym (update_ne lh.block r b j q)
          ∙ sym e
          ∙ ap (update lh.block r b) p
          ∙ update_self lh.block r b))
  ]
  | no p ↦ elim (ℕ_discrete j r) [
    | yes q ↦ absurd (
        others_differ b r lh w distinct i (below i a p) p (
          sym (update_ne lh.block r b i p)
          ∙ e
          ∙ ap (update lh.block r b) q
          ∙ update_self lh.block r b))
    | no q ↦
        distinct i j (below i a p) (below j c q)
          (sym (update_ne lh.block r b i p) ∙ e ∙ update_ne lh.block r b j q)
  ]
]
  where
    below : (j : ℕ) → j < (recorded b r lh).n → j ≢ r → j < lh.n
    below j c ne = ground (arith, w.upper)

pub recorded_count :
    (b r : ℕ) (lh : Header) → (lh.n ≤ (recorded b r lh).n) × ((recorded b r lh).n ≤ lh.n + 1)
recorded_count b r lh = ground arith
