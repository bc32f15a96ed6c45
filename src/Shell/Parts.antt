-- ===== src/Shell/Parts.antt =====
-- The parts of a written line, and how the parser takes a command in parentheses or without.
use cpsc.Prelude.{
  ℕ, zero, suc, ◌+◌, ◌≤◌, ◌<◌, ◌≡◌, refl, true, false, List, [], ◌∷◌, ◌++◌, length, arith,
}
use cpsc.Shell.{
  Cmd, exec, back, maxargs, ok, has, head_in, wrap, Parser, parseblock, parseexec, backs,
}
use cpsc.Shell.Scan.{Trimmed}
use cpsc.Shell.Syntax.{
  Arrow, from, onto, after, Redirection, Arg, Line, last, seq, Pipeline, one, piped, Item, simple,
  block, IsWord, AreRedirs, AreArgs, IsLine, IsPipeline, IsItem, arrow_text, write_redirs,
  write_args, write_backs, write_line, write_pipeline, write_item, redirs_of, args_redirs, words_of,
  backed,
}
use cpsc.Shell.Tokens.{byte_of_word, gettoken-single, peek-at_start}
use cpsc.Shell.Accepts.{
  Follows, stops, Follows-NoArrow, write_args-NoArrow, write_redirs-Trimmed,
  parseredirs-write_redirs, write_redirs-le, args_loop-write_args, token-lt,
}

-- What may come after a pipeline, and after a line.
abbrev pub pipe_stops : List ℕ
pipe_stops = 41 ∷ 38 ∷ 59 ∷ []

abbrev pub line_stops : List ℕ
line_stops = 41 ∷ []

pub Follows-stops : (s : List ℕ) → Follows pipe_stops s → Follows stops s
Follows-stops [] f = tt
Follows-stops (c ∷ s) f = ground (arith, f)

pub Follows-pipe_stops : (s : List ℕ) → Follows line_stops s → Follows pipe_stops s
Follows-pipe_stops [] f = tt
Follows-pipe_stops (c ∷ s) f = ground (arith, f)

pub Follows-head :
    (toks others s : List ℕ)
    → ((c : ℕ) → has toks c ≡ true → has others c ≡ false)
    → Follows toks s
    → head_in others s ≡ false
Follows-head toks others [] apart f = refl
Follows-head toks others (c ∷ s) apart f = apart c f

pub write_backs-Follows :
    (n : ℕ) (rest : List ℕ) → Follows pipe_stops rest → Follows pipe_stops (write_backs n rest)
unfolding write_backs
write_backs-Follows zero rest f = f
write_backs-Follows (suc n) rest f = refl

pub write_backs-le : (n : ℕ) (rest : List ℕ) → length rest ≤ length (write_backs n rest)
unfolding write_backs
write_backs-le zero rest = omega arith
write_backs-le (suc n) rest = omega (arith, write_backs-le n rest)

write_args-le : (args : List Arg) (rest : List ℕ) → length rest ≤ length (write_args args rest)
unfolding write_args
write_args-le [] rest = omega arith
write_args-le (a ∷ args) rest = omega (
  arith,
  write_args-le args rest,
  write_redirs-le a.redirs (write_args args rest),
  token-lt a.text (write_redirs a.redirs (write_args args rest)),
)

-- What is written takes nothing away from what comes after it.
mutual
  unfolding write_line write_pipeline write_item

  pub write_line-le : (l : Line) (rest : List ℕ) → length rest ≤ length (write_line l rest)
  write_line-le (last p n) rest =
      omega (arith, write_backs-le n rest, write_pipeline-le p (write_backs n rest))
  write_line-le (seq p n l) rest = omega (
    arith,
    write_line-le l rest,
    write_backs-le n (59 ∷ 32 ∷ write_line l rest),
    write_pipeline-le p (write_backs n (59 ∷ 32 ∷ write_line l rest)),
  )

  pub write_pipeline-le :
      (p : Pipeline) (rest : List ℕ) → length rest ≤ length (write_pipeline p rest)
  write_pipeline-le (one i) rest = write_item-le i rest
  write_pipeline-le (piped i p) rest =
      omega (arith, write_pipeline-le p rest, write_item-le i (124 ∷ 32 ∷ write_pipeline p rest))

  pub write_item-le : (i : Item) (rest : List ℕ) → length rest ≤ length (write_item i rest)
  write_item-le (simple rs args) rest =
      omega (arith, write_args-le args rest, write_redirs-le rs (write_args args rest))
  write_item-le (block l rs) rest =
      omega (arith, write_redirs-le rs rest, write_line-le l (41 ∷ 32 ∷ write_redirs rs rest))

-- It begins with no white space.
mutual
  unfolding write_line write_pipeline write_item IsLine IsPipeline IsItem

  pub write_line-Trimmed :
      (l : Line) (rest : List ℕ) → IsLine l → Follows pipe_stops rest → Trimmed (write_line l rest)
  write_line-Trimmed (last p n) rest is f =
      write_pipeline-Trimmed p (write_backs n rest) is
        (Follows-stops (write_backs n rest) (write_backs-Follows n rest f))
  write_line-Trimmed (seq p n l) rest is f =
      write_pipeline-Trimmed p (write_backs n (59 ∷ 32 ∷ write_line l rest)) is.0
        (Follows-stops _ (write_backs-Follows n (59 ∷ 32 ∷ write_line l rest) refl))

  pub write_pipeline-Trimmed :
      (p : Pipeline) (rest : List ℕ)
      → IsPipeline p
      → Follows stops rest
      → Trimmed (write_pipeline p rest)
  write_pipeline-Trimmed (one i) rest is f = write_item-Trimmed i rest is f
  write_pipeline-Trimmed (piped i p) rest is f =
      write_item-Trimmed i (124 ∷ 32 ∷ write_pipeline p rest) is.0 refl

  write_item-Trimmed :
      (i : Item) (rest : List ℕ) → IsItem i → Follows stops rest → Trimmed (write_item i rest)
  write_item-Trimmed (simple rs args) rest (a, b, c) f =
      write_redirs-Trimmed rs (write_args args rest) (write_args-NoArrow args rest b f).0
  write_item-Trimmed (block l rs) rest is f = refl

-- A command that is not in parentheses.
no_paren :
    (rs : List Redirection) (args : List Arg) (rest : List ℕ)
    → AreArgs args
    → Follows stops rest
    → head_in (40 ∷ []) (write_redirs rs (write_args args rest)) ≡ false
unfolding write_redirs write_args
no_paren [] [] rest is f = Follows-head stops (40 ∷ []) rest (λ c h. ground (arith, h)) f
no_paren [] (a ∷ args) rest (w, rs, is) f = word_head a.text _ w
  where
    word_head : (w s : List ℕ) → IsWord w → head_in (40 ∷ []) (w ++ (32 ∷ s)) ≡ false
    word_head [] s is = absurd is
    word_head (c ∷ w) s (p, all) = (byte_of_word c p).3
no_paren (r ∷ rs) args rest is f = arrow r.arrow _
  where
    arrow : (a : Arrow) (s : List ℕ) → head_in (40 ∷ []) (arrow_text a ++ (32 ∷ s)) ≡ false
    arrow from s = refl
    arrow onto s = refl
    arrow after s = refl

pub parseexec-simple :
    (line : Parser) (rs : List Redirection) (args : List Arg) (rest : List ℕ)
    → AreRedirs rs
    → AreArgs args
    → length args < maxargs
    → Follows stops rest
    → parseexec line (write_redirs rs (write_args args rest))
      ≡ ok (wrap (redirs_of rs ++ args_redirs args) (exec (words_of args)), rest)
unfolding parseexec
parseexec-simple line rs args rest is_rs is few f =
    rw
      (
        peek-at_start (40 ∷ []) (write_redirs rs (write_args args rest))
            (write_redirs-Trimmed rs (write_args args rest) (write_args-NoArrow args rest is f).0),
        no_paren rs args rest is f,
        parseredirs-write_redirs [] rs (write_args args rest) is_rs
            (write_args-NoArrow args rest is f),
      )
      (args_loop-write_args (length (write_args args rest) + 1) [] (redirs_of rs) args rest is f
        (omega arith) (omega arith))

parseblock-written :
    (line : Parser) (inner : List ℕ) (c : Cmd) (rs : List Redirection) (rest : List ℕ)
    → AreRedirs rs
    → Follows stops rest
    → Trimmed inner
    → line inner ≡ ok (c, 41 ∷ 32 ∷ write_redirs rs rest)
    → parseblock line (40 ∷ 32 ∷ inner) ≡ ok (wrap (redirs_of rs) c, rest)
unfolding parseblock
parseblock-written line inner c rs rest is f trimmed e =
    rw
      (
        peek-at_start (40 ∷ []) (40 ∷ 32 ∷ inner) refl,
        gettoken-single 40 inner refl trimmed,
        e,
        peek-at_start (41 ∷ []) (41 ∷ 32 ∷ write_redirs rs rest) refl,
        gettoken-single 41 (write_redirs rs rest) refl
            (write_redirs-Trimmed rs rest (Follows-NoArrow rest f).0),
        parseredirs-write_redirs [] rs rest is (Follows-NoArrow rest f),
      )
      refl

pub parseexec-block :
    (line : Parser) (inner : List ℕ) (c : Cmd) (rs : List Redirection) (rest : List ℕ)
    → AreRedirs rs
    → Follows stops rest
    → Trimmed inner
    → line inner ≡ ok (c, 41 ∷ 32 ∷ write_redirs rs rest)
    → parseexec line (40 ∷ 32 ∷ inner) ≡ ok (wrap (redirs_of rs) c, rest)
unfolding parseexec
parseexec-block line inner c rs rest is f trimmed e =
    rw (peek-at_start (40 ∷ []) (40 ∷ 32 ∷ inner) refl)
      (parseblock-written line inner c rs rest is f trimmed e)

pub backs-write_backs :
    (k n : ℕ) (c : Cmd) (rest : List ℕ)
    → Trimmed rest
    → head_in (38 ∷ []) rest ≡ false
    → length (write_backs n rest) < k
    → backs k c (write_backs n rest) ≡ ok (backed n c, rest)
unfolding backs write_backs backed
backs-write_backs zero n c rest trimmed end lt = absurd (omega arith)
backs-write_backs (suc k) zero c rest trimmed end lt =
    rw (peek-at_start (38 ∷ []) rest trimmed, end) refl
backs-write_backs (suc k) (suc n) c rest trimmed end lt =
    rw
      (
        peek-at_start (38 ∷ []) (38 ∷ 32 ∷ write_backs n rest) refl,
        gettoken-single 38 (write_backs n rest) refl (write_backs-Trimmed n),
      )
      (backs-write_backs k n (back c) rest trimmed end (omega arith))
  where
    write_backs-Trimmed : (n : ℕ) → Trimmed (write_backs n rest)
    write_backs-Trimmed zero = trimmed
    write_backs-Trimmed (suc n) = refl
