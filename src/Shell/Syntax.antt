-- ===== src/Shell/Syntax.antt =====
-- Command lines as trees, how they are written, and the commands that they stand for.
use cpsc.Prelude.{ℕ, zero, suc, ◌<◌, ◌≡◌, false, List, [], ◌∷◌, ◌++◌, length}
use cpsc.Shell.{
  Cmd, exec, pipe, list, back, has, whitespace, symbols, maxargs, Redir, wrap, redir_of,
}

-- <, > and >>
pub data Arrow : Type 0 where
  from onto after : Arrow

pub record Redirection : Type 0 where
  pub arrow : Arrow
  pub file : List ℕ

pub record Arg : Type 0 where
  pub text : List ℕ
  pub redirs : List Redirection

-- A pipeline has a number of `&` after it.
mutual
  pub data Line : Type 0 where
    last : Pipeline → ℕ → Line
    seq : Pipeline → ℕ → Line → Line

  pub data Pipeline : Type 0 where
    one : Item → Pipeline
    piped : Item → Pipeline → Pipeline

  pub data Item : Type 0 where
    simple : List Redirection → List Arg → Item
    block : Line → List Redirection → Item

abbrev pub Plain : ℕ → Type 0
Plain c = (has whitespace c ≡ false) × (has symbols c ≡ false)

abbrev pub AllPlain : List ℕ → Type 0
AllPlain [] = Unit {0}
AllPlain (c ∷ s) = Plain c × AllPlain s

-- A word has a byte at least, and no white space or symbol.
abbrev pub IsWord : List ℕ → Type 0
IsWord [] = ⊥
IsWord (c ∷ s) = AllPlain (c ∷ s)

abbrev pub AreRedirs : List Redirection → Type 0
AreRedirs [] = Unit {0}
AreRedirs (r ∷ rs) = IsWord r.file × AreRedirs rs

abbrev pub AreArgs : List Arg → Type 0
AreArgs [] = Unit {0}
AreArgs (a ∷ args) = IsWord a.text × AreRedirs a.redirs × AreArgs args

-- Words are words, and a command has less than `maxargs` of them.
unfoldable mutual
  pub IsLine : Line → Type 0
  IsLine (last p n) = IsPipeline p
  IsLine (seq p n l) = IsPipeline p × IsLine l

  pub IsPipeline : Pipeline → Type 0
  IsPipeline (one i) = IsItem i
  IsPipeline (piped i p) = IsItem i × IsPipeline p

  pub IsItem : Item → Type 0
  IsItem (simple rs args) = AreRedirs rs × AreArgs args × (length args < maxargs)
  IsItem (block l rs) = IsLine l × AreRedirs rs

-- The text of an arrow, and what `gettoken` returns for it.
abbrev pub arrow_text : Arrow → List ℕ
arrow_text from = 60 ∷ []
arrow_text onto = 62 ∷ []
arrow_text after = 62 ∷ 62 ∷ []

abbrev pub arrow_token : Arrow → ℕ
arrow_token from = 60
arrow_token onto = 62
arrow_token after = 43

-- The text of each part with what comes after it. A space ends each token.
unfoldable pub write_redirs : List Redirection → List ℕ → List ℕ
write_redirs [] rest = rest
write_redirs (r ∷ rs) rest = arrow_text r.arrow ++ (32 ∷ (r.file ++ (32 ∷ write_redirs rs rest)))

unfoldable pub write_args : List Arg → List ℕ → List ℕ
write_args [] rest = rest
write_args (a ∷ args) rest = a.text ++ (32 ∷ write_redirs a.redirs (write_args args rest))

unfoldable pub write_backs : ℕ → List ℕ → List ℕ
write_backs zero rest = rest
write_backs (suc n) rest = 38 ∷ 32 ∷ write_backs n rest

unfoldable mutual
  pub write_line : Line → List ℕ → List ℕ
  write_line (last p n) rest = write_pipeline p (write_backs n rest)
  write_line (seq p n l) rest = write_pipeline p (write_backs n (59 ∷ 32 ∷ write_line l rest))

  pub write_pipeline : Pipeline → List ℕ → List ℕ
  write_pipeline (one i) rest = write_item i rest
  write_pipeline (piped i p) rest = write_item i (124 ∷ 32 ∷ write_pipeline p rest)

  pub write_item : Item → List ℕ → List ℕ
  write_item (simple rs args) rest = write_redirs rs (write_args args rest)
  write_item (block l rs) rest = 40 ∷ 32 ∷ write_line l (41 ∷ 32 ∷ write_redirs rs rest)

-- The commands.
unfoldable pub redirs_of : List Redirection → List Redir
redirs_of [] = []
redirs_of (r ∷ rs) = redir_of (arrow_token r.arrow) r.file ∷ redirs_of rs

unfoldable pub args_redirs : List Arg → List Redir
args_redirs [] = []
args_redirs (a ∷ args) = redirs_of a.redirs ++ args_redirs args

unfoldable pub words_of : List Arg → List (List ℕ)
words_of [] = []
words_of (a ∷ args) = a.text ∷ words_of args

unfoldable pub backed : ℕ → Cmd → Cmd
backed zero c = c
backed (suc n) c = backed n (back c)

unfoldable mutual
  pub line_cmd : Line → Cmd
  line_cmd (last p n) = backed n (pipeline_cmd p)
  line_cmd (seq p n l) = list (backed n (pipeline_cmd p)) (line_cmd l)

  pub pipeline_cmd : Pipeline → Cmd
  pipeline_cmd (one i) = item_cmd i
  pipeline_cmd (piped i p) = pipe (item_cmd i) (pipeline_cmd p)

  pub item_cmd : Item → Cmd
  item_cmd (simple rs args) = wrap (redirs_of rs ++ args_redirs args) (exec (words_of args))
  item_cmd (block l rs) = wrap (redirs_of rs) (line_cmd l)
