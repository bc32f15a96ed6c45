-- ===== src/Strings/Names.antt =====
-- A string that `strncpy` has copied.
use cpsc.Prelude.{
  ℕ, zero, suc, ◌+◌, ◌≤◌, ◌<◌, ◌≡◌, ◌≢◌, ◌∙◌, refl, sym, ap, false, ◌==◌, update, update_self,
  update_ne, arith, Bool-cases, inl, inr,
}
use cpsc.Strings.{Memory, pad, strncpy}

pad_keeps : (n s a : ℕ) (m : Memory) → a < s → pad s n m a ≡ m a
unfolding pad
pad_keeps zero s a m lt = refl
pad_keeps (suc n) s a m lt =
    pad_keeps n (s + 1) a (update m s 0) (omega arith) ∙ update_ne m s 0 a (omega arith)

pub strncpy_keeps : (n s t a : ℕ) (m : Memory) → a < s → strncpy s t n m a ≡ m a
unfolding strncpy
strncpy_keeps zero s t a m lt = refl
strncpy_keeps (suc n) s t a m lt = elim (Bool-cases (m t == 0)) [
  | inl last ↦ rw last (pad_keeps n (s + 1) a _ (omega arith)) ∙ kept
  | inr on ↦ rw on (strncpy_keeps n (s + 1) (t + 1) a _ (omega arith)) ∙ kept
]
  where
    kept : update m s (m t) a ≡ m a
    kept = update_ne m s (m t) a (omega arith)

strncpy_first : (n s t : ℕ) (m : Memory) → strncpy s t (suc n) m s ≡ m t
unfolding strncpy
strncpy_first n s t m = elim (Bool-cases (m t == 0)) [
  | inl last ↦ rw last (pad_keeps n (s + 1) s _ (omega arith)) ∙ update_self m s (m t)
  | inr on ↦ rw on (strncpy_keeps n (s + 1) (t + 1) s _ (omega arith)) ∙ update_self m s (m t)
]

-- Up to the first NUL the copy has the bytes of the string.
pub strncpy_copied :
    (n s t : ℕ) (m : Memory) (j : ℕ)
    → t + n ≤ s
    → j < n
    → ((i : ℕ) → i < j → m (t + i) ≢ 0)
    → strncpy s t n m (s + j) ≡ m (t + j)
unfolding strncpy
strncpy_copied zero s t m j apart lt nonzero = absurd (omega arith)
strncpy_copied (suc n) s t m zero apart lt nonzero =
    ap (strncpy s t (suc n) m) (omega arith) ∙ strncpy_first n s t m ∙ ap m (omega arith)
strncpy_copied (suc n) s t m (suc j) apart lt nonzero = rw on (
    ap (strncpy (s + 1) (t + 1) n m') (omega arith)
    ∙ strncpy_copied n (s + 1) (t + 1) m' j (omega arith) (omega arith) later
    ∙ update_ne m s (m t) (t + 1 + j) (omega arith)
    ∙ ap m (omega arith))
  where
    m' : Memory
    m' = update m s (m t)

    first : m t ≢ 0
    first e = nonzero 0 (omega arith) (ap m (omega arith) ∙ e)

    on : (m t == 0) ≡ false
    on = ground (arith, first)

    later : (i : ℕ) → i < j → m' (t + 1 + i) ≢ 0
    later i li e =
        nonzero (suc i) (omega arith)
          (ap m (omega arith) ∙ sym (update_ne m s (m t) (t + 1 + i) (omega arith)) ∙ e)
