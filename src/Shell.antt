-- ===== src/Shell.antt =====
-- The parser of sh.c. The line is the list of its bytes up to the NUL, a pointer into it is the list
-- from there on, and a word is the bytes between `q` and `eq`, which is what its string is once
-- `nulterminate` has run.
pub mod Scan
pub mod Total
pub mod Syntax
pub mod Tokens
pub mod Accepts
pub mod Parts
pub mod RoundTrip
mod Tests
use cpsc.Prelude.{
  ℕ, zero, suc, ◌+◌, Bool, true, false, not, ◌&&◌, ◌||◌, List, [], ◌∷◌, ◌++◌, ◌==◌, leb, length,
  if◌then◌else◌,
}

pub data Cmd : Type 0 where
  exec : List (List ℕ) → Cmd
  redir : Cmd → List ℕ → ℕ → ℕ → Cmd
  pipe : Cmd → Cmd → Cmd
  list : Cmd → Cmd → Cmd
  back : Cmd → Cmd

abbrev pub maxargs : ℕ
maxargs = 10

-- `panics` is a call of `panic`, which ends the shell's child; `out_of_fuel` is of the model only.
pub data Result (A : Type 0) : Type 0 where
  ok : A → Result A
  panics out_of_fuel : Result A

infixl 5 ◌>>=◌
abbrev pub ◌>>=◌ : {A B : Type 0} → Result A → (A → Result B) → Result B
ok a >>= f = f a
panics >>= f = panics
out_of_fuel >>= f = out_of_fuel

-- `strchr` of a byte that is not the NUL, as a test.
abbrev pub has : List ℕ → ℕ → Bool
has [] c = false
has (t ∷ ts) c = c == t || has ts c

-- space, \t, \r, \n, \v
abbrev pub whitespace : List ℕ
whitespace = 32 ∷ 9 ∷ 13 ∷ 10 ∷ 11 ∷ []

-- <|>&;()
abbrev pub symbols : List ℕ
symbols = 60 ∷ 124 ∷ 62 ∷ 38 ∷ 59 ∷ 40 ∷ 41 ∷ []

unfoldable pub skip_white : List ℕ → List ℕ
skip_white [] = []
skip_white (c ∷ s) = let rest = skip_white s in if has whitespace c then rest else c ∷ s

-- The loop over the bytes of a word: the word, and what comes after it.
unfoldable pub word : List ℕ → List ℕ
word [] = []
word (c ∷ s) =
    let rest = word s in if not (has whitespace c) && not (has symbols c) then c ∷ rest else []

unfoldable pub after_word : List ℕ → List ℕ
after_word [] = []
after_word (c ∷ s) =
    let rest = after_word s in if not (has whitespace c) && not (has symbols c) then rest else c ∷ s

-- The result of `gettoken`, the bytes from `q` to `eq`, and the new `*ps`.
abbrev pub Token : Type 0
Token = ℕ × List ℕ × List ℕ

-- The case of `>`, with what comes after it.
abbrev pub greater : List ℕ → Token
greater [] = (62, 62 ∷ [], [])
greater (c ∷ s) =
    if c == 62 then (43, 62 ∷ 62 ∷ [], skip_white s) else (62, 62 ∷ [], skip_white (c ∷ s))

-- |, (, ), ;, &, <
abbrev pub single : List ℕ
single = 124 ∷ 40 ∷ 41 ∷ 59 ∷ 38 ∷ 60 ∷ []

abbrev pub token_at : List ℕ → Token
token_at [] = (0, [], [])
token_at (c ∷ s) =
    if has single c
    then (c, c ∷ [], skip_white s)
    else (if c == 62 then greater s else (97, word (c ∷ s), skip_white (after_word (c ∷ s))))

unfoldable pub gettoken : List ℕ → Token
gettoken s = token_at (skip_white s)

abbrev pub head_in : List ℕ → List ℕ → Bool
head_in toks [] = false
head_in toks (c ∷ s) = has toks c

-- `peek`: the answer, and the new `*ps`.
unfoldable pub peek : List ℕ → List ℕ → Bool × List ℕ
peek toks s = (head_in toks (skip_white s), skip_white s)

-- What `redircmd` puts around a command. As the words of a command go into the innermost one, the
-- redirections around it are a list until it is complete.
pub record Redir : Type 0 where
  pub file : List ℕ
  pub mode : ℕ
  pub fd : ℕ

abbrev pub wrap : List Redir → Cmd → Cmd
wrap [] c = c
wrap (r ∷ rs) c = wrap rs (redir c r.file r.mode r.fd)

-- O_RDONLY, and O_WRONLY|O_CREATE.
abbrev pub redir_of : ℕ → List ℕ → Redir
redir_of tok file =
    if tok == 60
    then record { file = file; mode = 0; fd = 0 }
    else record { file = file; mode = 513; fd = 1 }

-- The loop of `parseredirs`, in at most `k` rounds: the redirections, and the new `*ps`.
unfoldable pub redirs_loop : ℕ → List Redir → List ℕ → Result (List Redir × List ℕ)
redirs_loop zero rs s = out_of_fuel
redirs_loop (suc k) rs s =
    let (more, s1) = peek (60 ∷ 62 ∷ []) s in
    let (tok, _, s2) = gettoken s1 in
    let (kind, file, s3) = gettoken s2 in
    let rest = redirs_loop k (rs ++ (redir_of tok file ∷ [])) s3 in
    if more then (if kind == 97 then rest else panics) else ok (rs, s1)

unfoldable pub parseredirs : List Redir → List ℕ → Result (List Redir × List ℕ)
parseredirs rs s = redirs_loop (length s + 1) rs s

-- The loop of `parseexec`: the words and the redirections so far.
unfoldable pub args_loop : ℕ → List (List ℕ) → List Redir → List ℕ → Result (Cmd × List ℕ)
args_loop zero args rs s = out_of_fuel
args_loop (suc k) args rs s =
    let (stop, s1) = peek (124 ∷ 41 ∷ 38 ∷ 59 ∷ []) s in
    let (tok, q, s2) = gettoken s1 in
    let args' = args ++ (q ∷ []) in
    let rest = parseredirs rs s2 >>= λ (rs', s3). args_loop k args' rs' s3 in
    let taken = if leb maxargs (length args') then panics else rest in
    if stop
    then ok (wrap rs (exec args), s1)
    else (if tok == 0 then ok (wrap rs (exec args), s2) else (if tok == 97 then taken else panics))

abbrev pub Parser : Type 0
Parser = List ℕ → Result (Cmd × List ℕ)

-- `line` is `parseline` on what is within the parentheses.
unfoldable pub parseblock : Parser → Parser
parseblock line s =
    let (is_open, s1) = peek (40 ∷ []) s in
    let (_, _, s2) = gettoken s1 in
    let inner = do
      (c, s3) ← line s2
      let (closed, s4) = peek (41 ∷ []) s3
      let (_, _, s5) = gettoken s4
      (rs, s6) ← if closed then parseredirs [] s5 else panics
      ok (wrap rs c, s6)
    in if is_open then inner else panics

unfoldable pub parseexec : Parser → Parser
parseexec line s =
    let (is_open, s1) = peek (40 ∷ []) s in
    let simple = parseredirs [] s1 >>= λ (rs, s2). args_loop (length s2 + 1) [] rs s2 in
    if is_open then parseblock line s1 else simple

unfoldable pub parsepipe : ℕ → Parser → Parser
parsepipe zero line s = out_of_fuel
parsepipe (suc k) line s = parseexec line s >>= λ (c, s1).
    let (more, s2) = peek (124 ∷ []) s1 in
    let (_, _, s3) = gettoken s2 in
    let rest = parsepipe k line s3 >>= λ (d, s4). ok (pipe c d, s4) in
    if more then rest else ok (c, s2)

-- The loop over `&`.
unfoldable pub backs : ℕ → Cmd → List ℕ → Result (Cmd × List ℕ)
backs zero c s = out_of_fuel
backs (suc k) c s =
    let (more, s1) = peek (38 ∷ []) s in
    let (_, _, s2) = gettoken s1 in
    let rest = backs k (back c) s2 in if more then rest else ok (c, s1)

unfoldable pub parseline : ℕ → Parser
parseline zero s = out_of_fuel
parseline (suc k) s = do
  (c, s1) ← parsepipe (length s + 1) (λ t. parseline k t) s
  (d, s2) ← backs (length s1 + 1) c s1
  let (more, s3) = peek (59 ∷ []) s2
  let (_, _, s4) = gettoken s3
  let rest = parseline k s4 >>= λ (e, s5). ok (list d e, s5)
  if more then rest else ok (d, s3)

-- `parsecmd` with the empty set of symbols for its `peek`.
unfoldable pub parsecmd : List ℕ → Result Cmd
parsecmd s = do
  (c, s1) ← parseline (length s + 1) s
  let (_, s2) = peek [] s1
  if length s2 == 0 then ok c else panics
