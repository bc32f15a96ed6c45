-- ===== src/Strings/Compare.antt =====
-- `memset`, and the comparisons `memcmp` and `strncmp`.
use native.Mathlib.Decide.{ℕ_discrete}
use cpsc.Prelude.{
  ℕ, zero, suc, ◌+◌, ◌*◌, ◌/◌, ◌%◌, ◌<◌, ◌≡◌, ◌≢◌, ◌∙◌, refl, sym, ap, inl, inr, true, false, ◌&&◌,
  not, ◌↔◌, ◌==◌, ltb, leb, if◌then◌else◌, update, arith, Bool-cases,
}
use cpsc.Prelude.Int.{pos, sub_ℕ}
use cpsc.Strings.{Memory, stosb, stosl, memset, memcmp, strncmp}

stosb_lem :
    (n addr c : ℕ) (m : Memory) (x : ℕ)
    → stosb addr c n m x ≡ (if leb addr x && ltb x (addr + n) then c % 256 else m x)
unfolding stosb
stosb_lem zero addr c m x = ground arith
stosb_lem (suc n) addr c m x = ground (arith, stosb_lem n (addr + 1) c (update m addr (c % 256)) x)

-- The four bytes of a word made of one byte.
word_bytes :
    (b : ℕ)
    → b < 256
    → let w = b * 16777216 + b * 65536 + b * 256 + b in
      (w % 256 ≡ b) × (w / 256 % 256 ≡ b) × (w / 65536 % 256 ≡ b) × (w / 16777216 % 256 ≡ b)
word_bytes b lt = (omega arith, omega arith, omega arith, omega arith)

word_stored :
    (n addr b : ℕ) (m : Memory) (x : ℕ)
    → (if leb (addr + 4) x && ltb x (addr + 4 + n * 4)
        then b
        else update (update (update (update m addr b) (addr + 1) b) (addr + 2) b) (addr + 3) b x)
      ≡ (if leb addr x && ltb x (addr + suc n * 4) then b else m x)
word_stored n addr b m x = ground (arith, more)
  where
    more : addr + suc n * 4 ≡ addr + 4 + n * 4
    more = omega arith

stosl_lem :
    (n addr w b : ℕ) (m : Memory) (x : ℕ)
    → w % 256 ≡ b
    → w / 256 % 256 ≡ b
    → w / 65536 % 256 ≡ b
    → w / 16777216 % 256 ≡ b
    → stosl addr w n m x ≡ (if leb addr x && ltb x (addr + n * 4) then b else m x)
unfolding stosl
stosl_lem zero addr w b m x e0 e1 e2 e3 = ground arith
stosl_lem (suc n) addr w b m x e0 e1 e2 e3 =
    stosl_lem n (addr + 4) w b _ x e0 e1 e2 e3 ∙ rw (e0, e1, e2, e3) (word_stored n addr b m x)

-- `memset` stores the low byte of `c` in each of the `n` bytes at `dst`, by bytes or by words, and
-- changes no other byte.
memset_lem :
    (dst c n : ℕ) (m : Memory) (x : ℕ)
    → memset dst c n m x ≡ (if leb dst x && ltb x (dst + n) then c % 256 else m x)
unfolding memset
memset_lem dst c n m x = elim (Bool-cases (dst % 4 == 0 && n % 4 == 0)) [
  | inl words ↦ rw words (
      stosl_lem (n / 4) dst _ (c % 256) m x bytes.0 bytes.1 bytes.2 bytes.3
      ∙ ap (λ k. if leb dst x && ltb x (dst + k) then c % 256 else m x) (sym (whole words)))
  | inr odd ↦ rw odd (stosb_lem n dst c m x)
]
  where
    whole : (dst % 4 == 0 && n % 4 == 0) ≡ true → n ≡ n / 4 * 4
    whole e = ground arith

    bytes :
        let b = c % 256 in
        let w = b * 16777216 + b * 65536 + b * 256 + b in
        (w % 256 ≡ b) × (w / 256 % 256 ≡ b) × (w / 65536 % 256 ≡ b) × (w / 16777216 % 256 ≡ b)
    bytes = word_bytes (c % 256) (omega arith)

sub-zero : (a b : ℕ) → a ≢ b → sub_ℕ a b ≢ pos 0
sub-zero a b ne e = ground arith

-- Two regions agree if their first bytes do and the rest.
agree_next :
    (n s1 s2 : ℕ) (m : Memory)
    → m s1 ≡ m s2
    → ((j : ℕ) → j < n → m (s1 + 1 + j) ≡ m (s2 + 1 + j))
    → (j : ℕ) → j < suc n
    → m (s1 + j) ≡ m (s2 + j)
agree_next n s1 s2 m e f zero b = ap m (omega arith) ∙ e ∙ ap m (omega arith)
agree_next n s1 s2 m e f (suc j) b = ap m (omega arith) ∙ f j (omega arith) ∙ ap m (omega arith)

-- `memcmp` returns 0 exactly if the two regions hold the same `n` bytes.
memcmp_lem :
    (n s1 s2 : ℕ) (m : Memory)
    → (memcmp s1 s2 n m ≡ pos 0) ↔ ((j : ℕ) → j < n → m (s1 + j) ≡ m (s2 + j))
unfolding memcmp
memcmp_lem zero s1 s2 m = ((λ e j b. absurd (omega arith)), λ f. refl)
memcmp_lem (suc n) s1 s2 m =
    let (to, from) = memcmp_lem n (s1 + 1) (s2 + 1) m in
    elim (Bool-cases (m s1 == m s2)) [
      | inl same ↦ rw same (
        (λ e. agree_next n s1 s2 m (ground arith) (to e)),
        λ f. from λ j b. ap m (omega arith) ∙ f (suc j) (omega arith) ∙ ap m (omega arith),
      )
      | inr differ ↦ rw differ (
        (λ e. absurd (sub-zero (m s1) (m s2) (ground arith) e)),
        λ f.
            absurd
              (first_differ differ (ap m (omega arith) ∙ f 0 (omega arith) ∙ ap m (omega arith))),
      )
    ]
  where
    first_differ : (m s1 == m s2) ≡ false → m s1 ≢ m s2
    first_differ e f = ground arith

sub-same : (a b : ℕ) → a ≡ b → sub_ℕ a b ≡ pos 0
sub-same a b e = ground arith

-- The two strings agree as far as `strncmp` looks: up to `n` bytes or the first NUL of `p`.
abbrev pub Agree : ℕ → ℕ → ℕ → Memory → Type 0
Agree p q n m = (j : ℕ) → j < n → ((i : ℕ) → i < j → m (p + i) ≢ 0) → m (p + j) ≡ m (q + j)

Agree-next : (n p q : ℕ) (m : Memory) → m p ≡ m q → Agree (p + 1) (q + 1) n m → Agree p q (suc n) m
Agree-next n p q m e f zero b g = ap m (omega arith) ∙ e ∙ ap m (omega arith)
Agree-next n p q m e f (suc j) b g =
    ap m (omega arith)
    ∙ f j (omega arith) (λ i c z. g (suc i) (omega arith) (ap m (omega arith) ∙ z))
    ∙ ap m (omega arith)

Agree-rest : (n p q : ℕ) (m : Memory) → m p ≢ 0 → Agree p q (suc n) m → Agree (p + 1) (q + 1) n m
Agree-rest n p q m nz f j b g =
    ap m (omega arith) ∙ f (suc j) (omega arith) before ∙ ap m (omega arith)
  where
    before : (i : ℕ) → i < suc j → m (p + i) ≢ 0
    before zero c z = nz (ap m (omega arith) ∙ z)
    before (suc i) c z = g i (omega arith) (ap m (omega arith) ∙ z)

Agree-first : (n p q : ℕ) (m : Memory) → Agree p q (suc n) m → m p ≡ m q
Agree-first n p q m f =
    ap m (omega arith) ∙ f 0 (omega arith) (λ i b z. absurd (omega arith)) ∙ ap m (omega arith)

Agree-end : (n p q : ℕ) (m : Memory) → m p ≡ m q → m p ≡ 0 → Agree p q (suc n) m
Agree-end n p q m e z zero b g = ap m (omega arith) ∙ e ∙ ap m (omega arith)
Agree-end n p q m e z (suc j) b g = absurd (g 0 (omega arith) (ap m (omega arith) ∙ z))

-- `strncmp` returns 0 exactly if the two strings hold the same bytes, up to `n` of them or to the
-- first NUL.
pub strncmp_lem : (n p q : ℕ) (m : Memory) → (strncmp p q n m ≡ pos 0) ↔ Agree p q n m
unfolding strncmp
strncmp_lem zero p q m = ((λ e j b g. absurd (omega arith)), λ f. refl)
strncmp_lem (suc n) p q m =
    let (to, from) = strncmp_lem n (p + 1) (q + 1) m in
    elim (Bool-cases (not (m p == 0) && m p == m q)) [
      | inl on ↦ rw on (
        (λ e. Agree-next n p q m (ground arith) (to e)),
        λ f. from (Agree-rest n p q m (ground arith) f),
      )
      | inr off ↦ rw off (
        (λ e. elim (ℕ_discrete (m p) (m q)) [
          | yes same ↦ Agree-end n p q m same (ground arith)
          | no differ ↦ absurd (sub-zero (m p) (m q) differ e)
        ]),
        λ f. sub-same (m p) (m q) (Agree-first n p q m f),
      )
    ]
