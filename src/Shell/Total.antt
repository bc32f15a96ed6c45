-- ===== src/Shell/Total.antt =====
-- The parser ends: each loop and each nested call has less of the line before it.
use cpsc.Prelude.{
  ℕ, zero, suc, ◌+◌, ◌≤◌, ◌<◌, ◌≡◌, ◌≢◌, refl, Bool, true, false, List, [], ◌∷◌, ◌++◌, ◌==◌, leb,
  length, if◌then◌else◌, inl, inr, Bool-cases, arith,
}
use cpsc.Shell.{
  Cmd, maxargs, Result, ok, panics, out_of_fuel, ◌>>=◌, skip_white, gettoken, peek, Redir,
  redirs_loop, parseredirs, args_loop, Parser, parseblock, parseexec, parsepipe, backs, parseline,
  parsecmd, back,
}
use cpsc.Shell.Scan.{Trimmed, gettoken-lt, gettoken-le, peek-gettoken, peek-le, peek-Trimmed}

-- A run that ends leaves at most `n` bytes, and does not run out of fuel.
pub data Within {A : Type 0} (n : ℕ) : Result (A × List ℕ) → Type 0 where
  ends : {a : A} {s : List ℕ} → length s ≤ n → Within n (ok (a, s))
  fails : Within n panics

Within-bind :
    {A B : Type 0} {n m : ℕ} {r : Result (A × List ℕ)} (f : A × List ℕ → Result (B × List ℕ))
    → Within n r
    → ((a : A) (s : List ℕ) → length s ≤ n → Within m (f (a, s)))
    → Within m (r >>= f)
Within-bind f (ends {a} {s} le) each = each a s le
Within-bind f fails each = fails

Within-le : {A : Type 0} {n m : ℕ} {r : Result (A × List ℕ)} → n ≤ m → Within n r → Within m r
Within-le le (ends w) = ends (omega (arith, le, w))
Within-le le fails = fails

Within-if :
    {A : Type 0} {n : ℕ} (b : Bool) {x y : Result (A × List ℕ)}
    → (b ≡ true → Within n x)
    → (b ≡ false → Within n y)
    → Within n (if b then x else y)
Within-if true t e = t refl
Within-if false t e = e refl

redirs_loop-Within :
    (k : ℕ) (rs : List Redir) (s : List ℕ) → length s < k → Within (length s) (redirs_loop k rs s)
unfolding redirs_loop
redirs_loop-Within zero rs s lt = absurd (omega arith)
redirs_loop-Within (suc k) rs s lt =
    Within-if (peek (60 ∷ 62 ∷ []) s).0
      (λ more.
        let less : length rest < length s = omega (
          arith,
          peek-gettoken (60 ∷ 62 ∷ []) s more,
          gettoken-le (gettoken (peek (60 ∷ 62 ∷ []) s).1).2,
        ) in
        Within-if ((gettoken (gettoken (peek (60 ∷ 62 ∷ []) s).1).2).0 == 97)
          (λ is_word.
            Within-le (omega (arith, less)) (redirs_loop-Within k _ rest (omega (arith, less))))
          (λ other. fails))
      (λ end. ends (peek-le (60 ∷ 62 ∷ []) s))
  where
    rest : List ℕ
    rest = (gettoken (gettoken (peek (60 ∷ 62 ∷ []) s).1).2).2

parseredirs-Within : (rs : List Redir) (s : List ℕ) → Within (length s) (parseredirs rs s)
unfolding parseredirs
parseredirs-Within rs s = redirs_loop-Within (length s + 1) rs s (omega arith)

abbrev stops : List ℕ
stops = 124 ∷ 41 ∷ 38 ∷ 59 ∷ []

-- A token that is a word takes a byte at least.
word-lt :
    (s : List ℕ) → Trimmed s → ((gettoken s).0 == 97) ≡ true → length (gettoken s).2 < length s
unfolding gettoken skip_white
word-lt [] trimmed is_word = absurd (ground (arith, is_word))
word-lt (c ∷ s) trimmed is_word = gettoken-lt (c ∷ s) trimmed (omega arith)

args_loop-Within :
    (k : ℕ) (args : List (List ℕ)) (rs : List Redir) (s : List ℕ)
    → length s < k
    → Within (length s) (args_loop k args rs s)
unfolding args_loop
args_loop-Within zero args rs s lt = absurd (omega arith)
args_loop-Within (suc k) args rs s lt =
    Within-if (peek stops s).0 (λ stop. ends (peek-le stops s))
      (λ on.
        Within-if ((gettoken (peek stops s).1).0 == 0)
          (λ end. ends (omega (arith, gettoken-le (peek stops s).1, peek-le stops s)))
          (λ more.
            Within-if ((gettoken (peek stops s).1).0 == 97)
              (λ is_word.
                let less : length rest < length s = omega (
                  arith,
                  peek-le stops s,
                  word-lt (peek stops s).1 (peek-Trimmed stops s) is_word,
                ) in
                Within-if (leb maxargs (length (args ++ ((gettoken (peek stops s).1).1 ∷ []))))
                  (λ many. fails)
                  (λ few. Within-bind _ (parseredirs-Within rs rest) (λ rs' t le.
                    Within-le (omega (arith, less, le)) (
                      args_loop-Within k (args ++ ((gettoken (peek stops s).1).1 ∷ [])) rs' t
                        (omega (arith, less, le))))))
              (λ other. fails)))
  where
    rest : List ℕ
    rest = (gettoken (peek stops s).1).2

abbrev TotalParser : ℕ → Parser → Type 0
TotalParser n line = (s : List ℕ) → length s < n → Within (length s) (line s)

parseblock-Within :
    (line : Parser) (s : List ℕ)
    → TotalParser (length s) line
    → Within (length s) (parseblock line s)
unfolding parseblock
parseblock-Within line s total =
    Within-if (peek (40 ∷ []) s).0
      (λ is_open.
        let less : length rest < length s = peek-gettoken (40 ∷ []) s is_open in
        Within-bind _ (total rest less) (λ c t le.
          Within-bind {n = length s} _
            (Within-if (peek (41 ∷ []) t).0
              (λ closed.
                Within-le (omega (arith, le, less, peek-gettoken (41 ∷ []) t closed))
                  (parseredirs-Within [] (gettoken (peek (41 ∷ []) t).1).2))
              (λ other. fails))
            (λ rs u shorter. ends shorter)))
      (λ other. fails)
  where
    rest : List ℕ
    rest = (gettoken (peek (40 ∷ []) s).1).2

parseexec-Within :
    (line : Parser) (s : List ℕ)
    → TotalParser (length s) line
    → Within (length s) (parseexec line s)
unfolding parseexec
parseexec-Within line s total =
    Within-if (peek (40 ∷ []) s).0
      (λ is_open. Within-le (peek-le (40 ∷ []) s) (
        parseblock-Within line (peek (40 ∷ []) s).1
          (λ t lt. total t (omega (arith, lt, peek-le (40 ∷ []) s)))))
      (λ other. Within-le (peek-le (40 ∷ []) s) (
        Within-bind _ (parseredirs-Within [] (peek (40 ∷ []) s).1)
          (λ rs t le. Within-le le (args_loop-Within (length t + 1) [] rs t (omega arith)))))

parsepipe-Within :
    (k : ℕ) (line : Parser) (s : List ℕ)
    → length s < k
    → TotalParser (length s) line
    → Within (length s) (parsepipe k line s)
unfolding parsepipe
parsepipe-Within zero line s lt total = absurd (omega arith)
parsepipe-Within (suc k) line s lt total = Within-bind _ (parseexec-Within line s total) (λ c t le.
    Within-if (peek (124 ∷ []) t).0
      (λ more.
        let less : length (gettoken (peek (124 ∷ []) t).1).2 < length s =
          omega (arith, le, peek-gettoken (124 ∷ []) t more) in
        Within-bind _
          (parsepipe-Within k line (gettoken (peek (124 ∷ []) t).1).2 (omega (arith, less, lt))
            (λ u shorter. total u (omega (arith, shorter, less))))
          (λ d u shorter. ends (omega (arith, shorter, less))))
      (λ end. ends (omega (arith, le, peek-le (124 ∷ []) t))))

backs-Within : (k : ℕ) (c : Cmd) (s : List ℕ) → length s < k → Within (length s) (backs k c s)
unfolding backs
backs-Within zero c s lt = absurd (omega arith)
backs-Within (suc k) c s lt =
    Within-if (peek (38 ∷ []) s).0
      (λ more.
        let less = peek-gettoken (38 ∷ []) s more in
        Within-le (omega (arith, less))
          (backs-Within k (back c) (gettoken (peek (38 ∷ []) s).1).2 (omega (arith, less))))
      (λ end. ends (peek-le (38 ∷ []) s))

parseline-Within : (k : ℕ) → TotalParser k (λ s. parseline k s)
unfolding parseline
parseline-Within zero s lt = absurd (omega arith)
parseline-Within (suc k) s lt =
    Within-bind _
      (parsepipe-Within (length s + 1) (λ t. parseline k t) s (omega arith)
        (λ t shorter. parseline-Within k t (omega (arith, shorter, lt))))
      (λ c t le. Within-bind _ (backs-Within (length t + 1) c t (omega arith)) (λ d u shorter.
        Within-if (peek (59 ∷ []) u).0
          (λ more.
            let less : length (gettoken (peek (59 ∷ []) u).1).2 < length s =
              omega (arith, le, shorter, peek-gettoken (59 ∷ []) u more) in
            Within-bind _
              (parseline-Within k (gettoken (peek (59 ∷ []) u).1).2 (omega (arith, less, lt)))
              (λ e v rest. ends (omega (arith, rest, less))))
          (λ end. ends (omega (arith, le, shorter, peek-le (59 ∷ []) u)))))

-- `parsecmd` ends on every line: it returns a command, or it panics.
pub parsecmd-ends : (s : List ℕ) → parsecmd s ≢ out_of_fuel
unfolding parsecmd
parsecmd-ends s = go (parseline-Within (length s + 1) s (omega arith))
  where
    go :
        {r : Result (Cmd × List ℕ)}
        → Within (length s) r
        → (r >>= λ (c, s1). if length (peek [] s1).1 == 0 then ok c else panics) ≢ out_of_fuel
    go (ends {a = c} {s = t} le) e = elim (Bool-cases (length (peek [] t).1 == 0)) [
      | inl done ↦ ground (arith, done, e)
      | inr left ↦ ground (arith, left, e)
    ]
    go fails e = cc e
