-- ===== src/Shell/Accepts.antt =====
-- The parser gives back the command of every written line.
use cpsc.Prelude.{
  ℕ, zero, suc, ◌+◌, ◌≤◌, ◌<◌, ◌≡◌, ◌∙◌, refl, ap, ap₂, true, false, List, [], ◌∷◌, ◌++◌, leb,
  length, length-append, arith,
}
use mathlib.Core.List.{append_assoc, append-nil}
use cpsc.Shell.{
  exec, maxargs, ok, has, skip_white, gettoken, head_in, peek, Redir, wrap, redir_of, redirs_loop,
  parseredirs, args_loop,
}
use cpsc.Shell.Scan.{Trimmed}
use cpsc.Shell.Syntax.{
  Arrow, from, onto, after, Redirection, Arg, IsWord, AreRedirs, AreArgs, arrow_text, arrow_token,
  write_redirs, write_args, redirs_of, args_redirs, words_of,
}
use cpsc.Shell.Tokens.{byte_of_word, gettoken-word, gettoken-arrow, peek-at_start}

-- The rest of the line begins with one of the symbols, or is empty.
abbrev pub Follows : List ℕ → List ℕ → Type 0
Follows toks [] = Unit {0}
Follows toks (c ∷ s) = has toks c ≡ true

abbrev pub stops : List ℕ
stops = 124 ∷ 41 ∷ 38 ∷ 59 ∷ []

-- What holds of the text where a list of redirections may end.
abbrev pub NoArrow : List ℕ → Type 0
NoArrow s = Trimmed s × (head_in (60 ∷ 62 ∷ []) s ≡ false)

pub Follows-NoArrow : (s : List ℕ) → Follows stops s → NoArrow s
Follows-NoArrow [] f = (tt, refl)
Follows-NoArrow (c ∷ s) f = (ground (arith, f), ground (arith, f))

word-NoArrow : (w s : List ℕ) → IsWord w → NoArrow (w ++ (32 ∷ s))
word-NoArrow [] s is = absurd is
word-NoArrow (c ∷ w) s (p, all) = (p.0, (byte_of_word c p).2)

pub write_args-NoArrow :
    (args : List Arg) (rest : List ℕ)
    → AreArgs args
    → Follows stops rest
    → NoArrow (write_args args rest)
unfolding write_args
write_args-NoArrow [] rest is f = Follows-NoArrow rest f
write_args-NoArrow (a ∷ args) rest (w, rs, is) f = word-NoArrow a.text _ w

pub write_redirs-Trimmed :
    (rs : List Redirection) (rest : List ℕ) → Trimmed rest → Trimmed (write_redirs rs rest)
unfolding write_redirs
write_redirs-Trimmed [] rest trimmed = trimmed
write_redirs-Trimmed (r ∷ rs) rest trimmed = arrow r.arrow
  where
    arrow : (a : Arrow) → Trimmed (arrow_text a ++ (32 ∷ (r.file ++ (32 ∷ write_redirs rs rest))))
    arrow from = refl
    arrow onto = refl
    arrow after = refl

-- An arrow is seen and read.
peek-arrow :
    (a : Arrow) (s : List ℕ)
    → peek (60 ∷ 62 ∷ []) (arrow_text a ++ (32 ∷ s)) ≡ (true, arrow_text a ++ (32 ∷ s))
peek-arrow from s = peek-at_start _ _ refl
peek-arrow onto s = peek-at_start _ _ refl
peek-arrow after s = peek-at_start _ _ refl

pub word-Trimmed : (w s : List ℕ) → IsWord w → Trimmed (w ++ (32 ∷ s))
word-Trimmed w s is = (word-NoArrow w s is).0

-- A token takes a byte at least of what is written.
pub token-lt : (w s : List ℕ) → length s < length (w ++ (32 ∷ s))
token-lt w s = omega (arith, length-append {0} w (32 ∷ s))

-- A redirection takes more than its two tokens.
redir-lt :
    (r : Redirection) (s : List ℕ)
    → length s < length (arrow_text r.arrow ++ (32 ∷ (r.file ++ (32 ∷ s))))
redir-lt r s = omega (arith, token-lt r.file s, token-lt (arrow_text r.arrow) (r.file ++ (32 ∷ s)))

redirs_loop-write_redirs :
    (k : ℕ) (done : List Redir) (rs : List Redirection) (rest : List ℕ)
    → AreRedirs rs
    → NoArrow rest
    → length (write_redirs rs rest) < k
    → redirs_loop k done (write_redirs rs rest) ≡ ok (done ++ redirs_of rs, rest)
unfolding redirs_loop write_redirs redirs_of
redirs_loop-write_redirs zero done rs rest is end lt = absurd (omega arith)
redirs_loop-write_redirs (suc k) done [] rest is (trimmed, no_arrow) lt =
    rw (peek-at_start (60 ∷ 62 ∷ []) rest trimmed, no_arrow, append-nil done) refl
redirs_loop-write_redirs (suc k) done (r ∷ rs) rest (w, is) end lt =
    rw
      (
        peek-arrow r.arrow (r.file ++ (32 ∷ write_redirs rs rest)),
        gettoken-arrow r.arrow (r.file ++ (32 ∷ write_redirs rs rest)) (word-Trimmed r.file _ w),
        gettoken-word r.file (write_redirs rs rest) w (write_redirs-Trimmed rs rest end.0),
      )
      (redirs_loop-write_redirs k (done ++ (redir_of (arrow_token r.arrow) r.file ∷ [])) rs rest is
          end (omega (arith, lt, redir-lt r (write_redirs rs rest)))
        ∙ ap (λ l. ok (l, rest))
            (append_assoc done (redir_of (arrow_token r.arrow) r.file ∷ []) (redirs_of rs)))

pub parseredirs-write_redirs :
    (done : List Redir) (rs : List Redirection) (rest : List ℕ)
    → AreRedirs rs
    → NoArrow rest
    → parseredirs done (write_redirs rs rest) ≡ ok (done ++ redirs_of rs, rest)
unfolding parseredirs
parseredirs-write_redirs done rs rest is end =
    redirs_loop-write_redirs (length (write_redirs rs rest) + 1) done rs rest is end (omega arith)

-- The redirections do not take bytes away from what comes after them.
pub write_redirs-le :
    (rs : List Redirection) (rest : List ℕ) → length rest ≤ length (write_redirs rs rest)
unfolding write_redirs
write_redirs-le [] rest = omega arith
write_redirs-le (r ∷ rs) rest =
    omega (arith, write_redirs-le rs rest, redir-lt r (write_redirs rs rest))

Follows-head_in :
    (toks : List ℕ) (c : ℕ) (s : List ℕ) → Follows toks (c ∷ s) → head_in toks (c ∷ s) ≡ true
Follows-head_in toks c s f = f

args_loop-stop :
    (k : ℕ) (words : List (List ℕ)) (done : List Redir) (c : ℕ) (s : List ℕ)
    → has stops c ≡ true
    → args_loop (suc k) words done (c ∷ s) ≡ ok (wrap done (exec words), c ∷ s)
unfolding args_loop
args_loop-stop k words done c s f =
    rw (peek-at_start stops (c ∷ s) (Follows-NoArrow (c ∷ s) f).0, f) refl

args_loop-end :
    (k : ℕ) (words : List (List ℕ)) (done : List Redir) (rest : List ℕ)
    → Follows stops rest
    → args_loop (suc k) words done rest ≡ ok (wrap done (exec words), rest)
unfolding args_loop peek gettoken skip_white
args_loop-end k words done [] f = refl
args_loop-end k words done (c ∷ s) f = args_loop-stop k words done c s f

pub word-no_stop : (w s : List ℕ) → IsWord w → head_in stops (w ++ (32 ∷ s)) ≡ false
word-no_stop [] s is = absurd is
word-no_stop (c ∷ w) s (p, all) = (byte_of_word c p).4

few_words :
    (words : List (List ℕ)) (w : List ℕ) (n : ℕ)
    → length words + suc n < maxargs
    → leb maxargs (length (words ++ (w ∷ []))) ≡ false
few_words words w n few = ground (arith, length-append {0} words (w ∷ []))

pub args_loop-write_args :
    (k : ℕ) (words : List (List ℕ)) (done : List Redir) (args : List Arg) (rest : List ℕ)
    → AreArgs args
    → Follows stops rest
    → length words + length args < maxargs
    → length (write_args args rest) < k
    → args_loop k words done (write_args args rest)
      ≡ ok (wrap (done ++ args_redirs args) (exec (words ++ words_of args)), rest)
unfolding args_loop write_args args_redirs words_of
args_loop-write_args zero words done args rest is f few lt = absurd (omega arith)
args_loop-write_args (suc k) words done [] rest is f few lt =
    args_loop-end k words done rest f ∙ rw (append-nil done, append-nil words) refl
args_loop-write_args (suc k) words done (a ∷ args) rest (w, rs, is) f few lt =
    rw
      (
        peek-at_start stops (a.text ++ (32 ∷ write_redirs a.redirs (write_args args rest)))
            (word-Trimmed a.text _ w),
        word-no_stop a.text (write_redirs a.redirs (write_args args rest)) w,
        gettoken-word a.text (write_redirs a.redirs (write_args args rest)) w
            (write_redirs-Trimmed a.redirs _ (write_args-NoArrow args rest is f).0),
        few_words words a.text (length args) few,
        parseredirs-write_redirs done a.redirs (write_args args rest) rs
            (write_args-NoArrow args rest is f),
      )
      (args_loop-write_args k (words ++ (a.text ∷ [])) (done ++ redirs_of a.redirs) args rest is f
          (omega (arith, few, length-append {0} words (a.text ∷ [])))
          (omega (
            arith,
            lt,
            write_redirs-le a.redirs (write_args args rest),
            token-lt a.text (write_redirs a.redirs (write_args args rest)),
          ))
        ∙ ap₂ (λ l m. ok (wrap l (exec m), rest))
            (append_assoc done (redirs_of a.redirs) (args_redirs args))
            (append_assoc words (a.text ∷ []) (words_of args)))
