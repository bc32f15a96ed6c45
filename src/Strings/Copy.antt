-- ===== src/Strings/Copy.antt =====
-- `memset`, `memmove` and `safestrcpy`: what the memory holds afterwards.
use native.Mathlib.Decide.{ℕ_discrete}
use cpsc.Prelude.{
  ℕ, zero, suc, ◌+◌, ◌-◌, ◌≤◌, ◌<◌, ◌≡◌, ◌≢◌, ◌∙◌, refl, sym, ap, ◌⊎◌, inl, inr, false, ◌&&◌, ◌==◌,
  ltb, update, update_self, update_ne, arith, Bool-cases,
}
use cpsc.Strings.{Memory, copy_down, copy_up, memmove, copy_name, safestrcpy}

-- The `n` bytes at `d` are those that `m` has at `s`, and the others are as in `m`.
pub record Copied (d s n : ℕ) (m r : Memory) : Type 0 where
  pub inside : (j : ℕ) → j < n → r (d + j) ≡ m (s + j)
  pub outside : (x : ℕ) → (x < d) ⊎ (d + n ≤ x) → r x ≡ m x

Copied-up :
    (n d s : ℕ) (m r : Memory)
    → (d ≤ s) ⊎ (s + suc n ≤ d)
    → Copied (d + 1) (s + 1) n (update m d (m s)) r
    → Copied d s (suc n) m r
Copied-up n d s m r apart w = record {
  inside = inside;
  outside = λ x o. w.outside x (ground arith) ∙ update_ne m d (m s) x (ground arith);
}
  where
    inside : (j : ℕ) → j < suc n → r (d + j) ≡ m (s + j)
    inside zero b =
        ap r (omega arith)
        ∙ w.outside d (inl (omega arith))
        ∙ update_self m d (m s)
        ∙ ap m (omega arith)
    inside (suc j) b =
        ap r (omega arith)
        ∙ w.inside j (omega arith)
        ∙ update_ne m d (m s) (s + 1 + j) (ground arith)
        ∙ ap m (omega arith)

copy_up-Copied : (n d s : ℕ) (m : Memory) → (d ≤ s) ⊎ (s + n ≤ d) → Copied d s n m (copy_up d s n m)
unfolding copy_up
copy_up-Copied zero d s m apart = record {
  inside = λ j b. absurd (omega arith);
  outside = λ x o. refl;
}
copy_up-Copied (suc n) d s m apart =
    Copied-up n d s m _ apart (copy_up-Copied n (d + 1) (s + 1) (update m d (m s)) (ground arith))

Copied-down :
    (n d s : ℕ) (m r : Memory)
    → s ≤ d
    → Copied d s n (update m (d + n) (m (s + n))) r
    → Copied d s (suc n) m r
Copied-down n d s m r low w = record {
  inside = λ j b. elim (ℕ_discrete j n) [
    | yes e ↦ rw e (w.outside (d + n) (inr (omega arith)) ∙ update_self m (d + n) (m (s + n)))
    | no ne ↦ w.inside j (omega arith) ∙ update_ne m (d + n) (m (s + n)) (s + j) (omega arith)
  ];
  outside = λ x o. w.outside x (ground arith) ∙ update_ne m (d + n) (m (s + n)) x (ground arith);
}

copy_down_next :
    (n d s : ℕ) (m : Memory)
    → copy_down (d + suc n) (s + suc n) (suc n) m
      ≡ copy_down (d + n) (s + n) n (update m (d + n) (m (s + n)))
unfolding copy_down
copy_down_next n d s m = rw (less d, less s) refl
  where
    less : (a : ℕ) → a + suc n - 1 ≡ a + n
    less a = omega arith

copy_none : (d s : ℕ) (m : Memory) → Copied d s 0 m (copy_down (d + 0) (s + 0) 0 m)
unfolding copy_down
copy_none d s m = record { inside = λ j b. absurd (omega arith); outside = λ x o. refl }

copy_down-Copied : (n d s : ℕ) (m : Memory) → s ≤ d → Copied d s n m (copy_down (d + n) (s + n) n m)
copy_down-Copied zero d s m low = copy_none d s m
copy_down-Copied (suc n) d s m low =
    rw (copy_down_next n d s m)
      (Copied-down n d s m _ low (copy_down-Copied n d s (update m (d + n) (m (s + n))) low))

-- `memmove` leaves at the destination the bytes that the source held before, also where the two
-- overlap, and changes no other byte.
pub memmove_lem : (d s n : ℕ) (m : Memory) → Copied d s n m (memmove d s n m)
unfolding memmove
memmove_lem d s n m = elim (Bool-cases (ltb s d && ltb d (s + n))) [
  | inl overlap ↦ rw overlap (copy_down-Copied n d s m (ground arith))
  | inr apart ↦ rw apart (copy_up-Copied n d s m (ground arith))
]

-- A name of at most `n` bytes with its NUL: it ends in a NUL at `stop`, the bytes before are those of
-- the source and not NUL, and it is cut only if the source has no NUL among its first `n - 1` bytes.
pub record Named (s t n : ℕ) (m r : Memory) : Type 0 where
  pub stop : ℕ
  pub short : stop < n
  pub ends : r (s + stop) ≡ 0
  pub same : (j : ℕ) → j < stop → (r (s + j) ≡ m (t + j)) × (m (t + j) ≢ 0)
  pub cut : (suc stop ≡ n) ⊎ (m (t + stop) ≡ 0)
  pub outside : (x : ℕ) → (x < s) ⊎ (s + n ≤ x) → r x ≡ m x

Named-next :
    (k s t : ℕ) (m r : Memory)
    → m t ≢ 0
    → (s + suc (suc k) ≤ t) ⊎ (t + suc (suc k) ≤ s)
    → Named (s + 1) (t + 1) (suc k) (update m s (m t)) r
    → Named s t (suc (suc k)) m r
Named-next k s t m r nz apart w = record {
  stop = suc w.stop;
  short = omega (arith, w.short);
  ends = ap r (omega arith) ∙ w.ends;
  same = same;
  cut = cut w.cut;
  outside = λ x o. w.outside x (ground arith) ∙ update_ne m s (m t) x (ground arith);
}
  where
    source : (j : ℕ) → j < suc k → update m s (m t) (t + 1 + j) ≡ m (t + suc j)
    source j b = update_ne m s (m t) (t + 1 + j) (ground arith) ∙ ap m (omega arith)

    same : (j : ℕ) → j < suc w.stop → (r (s + j) ≡ m (t + j)) × (m (t + j) ≢ 0)
    same zero b = (
      ap r (omega arith)
          ∙ w.outside s (inl (omega arith))
          ∙ update_self m s (m t)
          ∙ ap m (omega arith),
      λ e. nz (ap m (omega arith) ∙ e),
    )
    same (suc j) b =
        let (copied, some_byte) = w.same j (omega arith) in
        (
          ap r (omega arith) ∙ copied ∙ source j (omega (arith, w.short)),
          λ e. some_byte (source j (omega (arith, w.short)) ∙ e),
        )

    cut :
        (suc w.stop ≡ suc k) ⊎ (update m s (m t) (t + 1 + w.stop) ≡ 0)
        → (suc (suc w.stop) ≡ suc (suc k)) ⊎ (m (t + suc w.stop) ≡ 0)
    cut (inl e) = inl (ap suc e)
    cut (inr e) = inr (sym (source w.stop w.short) ∙ e)

Named-stop :
    (k s t : ℕ) (m : Memory)
    → m t ≡ 0
    → Named s t (suc (suc k)) m (update (update m s (m t)) (s + 1) 0)
Named-stop k s t m z = record {
  stop = 0;
  short = omega arith;
  ends = ground arith;
  same = λ j b. absurd (omega arith);
  cut = inr (ap m (omega arith) ∙ z);
  outside = λ x o. ground arith;
}

copy_name-Named :
    (k s t : ℕ) (m : Memory)
    → (s + suc k ≤ t) ⊎ (t + suc k ≤ s)
    → Named s t (suc k) m (copy_name s t k m)
unfolding copy_name
copy_name-Named zero s t m apart = record {
  stop = 0;
  short = omega arith;
  ends = ground arith;
  same = λ j b. absurd (omega arith);
  cut = inl refl;
  outside = λ x o. ground arith;
}
copy_name-Named (suc k) s t m apart = elim (Bool-cases (m t == 0)) [
  | inl z ↦ rw z (Named-stop k s t m (ground arith))
  | inr nz ↦ rw nz (
      Named-next k s t m _ (ground arith) apart
        (copy_name-Named k (s + 1) (t + 1) (update m s (m t)) (ground arith)))
]

-- `safestrcpy` to a place of `n` bytes that does not meet the first `n` bytes of the source leaves
-- a name that ends in a NUL there, cut only where it does not fit, and changes nothing outside.
safestrcpy_lem :
    (s t n : ℕ) (m : Memory)
    → 0 < n
    → (s + n ≤ t) ⊎ (t + n ≤ s)
    → Named s t n m (safestrcpy s t n m)
unfolding safestrcpy
safestrcpy_lem s t zero m some_room apart = absurd (omega arith)
safestrcpy_lem s t (suc k) m some_room apart =
    rw (some_bytes k, less k) (copy_name-Named k s t m apart)
  where
    less : (k : ℕ) → suc k - 1 ≡ k
    less k = omega arith

    some_bytes : (k : ℕ) → (suc k == 0) ≡ false
    some_bytes k = ground arith
