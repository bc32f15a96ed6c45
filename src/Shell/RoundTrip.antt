-- ===== src/Shell/RoundTrip.antt =====
-- Written lines are parsed back, through pipelines, lists and parentheses.
use cpsc.Prelude.{ℕ, zero, suc, ◌+◌, ◌≤◌, ◌<◌, ◌≡◌, refl, List, [], ◌∷◌, length, arith}
use cpsc.Shell.{ok, parseexec, parsepipe, parseline, parsecmd}
use cpsc.Shell.Syntax.{
  Line, last, seq, Pipeline, one, piped, Item, simple, block, IsLine, IsPipeline, IsItem,
  write_redirs, write_backs, write_line, write_pipeline, write_item, line_cmd, pipeline_cmd,
  item_cmd,
}
use cpsc.Shell.Tokens.{gettoken-single, peek-at_start}
use cpsc.Shell.Accepts.{Follows, stops, Follows-NoArrow}
use cpsc.Shell.Parts.{
  pipe_stops, line_stops, Follows-stops, Follows-pipe_stops, Follows-head, write_backs-Follows,
  write_backs-le, write_pipeline-le, write_item-le, write_line-Trimmed, write_pipeline-Trimmed,
  parseexec-simple, parseexec-block, backs-write_backs,
}

mutual
  unfolding write_line write_pipeline write_item IsLine IsPipeline IsItem line_cmd pipeline_cmd
      item_cmd parsepipe parseline

  parseexec-write_item :
      (i : Item) (m : ℕ) (rest : List ℕ)
      → IsItem i
      → Follows stops rest
      → length (write_item i rest) ≤ m
      → parseexec (λ t. parseline m t) (write_item i rest) ≡ ok (item_cmd i, rest)
  parseexec-write_item (simple rs args) m rest (is_rs, is, few) f le =
      parseexec-simple (λ t. parseline m t) rs args rest is_rs is few f
  parseexec-write_item (block l rs) m rest (is, is_rs) f le =
      parseexec-block (λ t. parseline m t) (write_line l (41 ∷ 32 ∷ write_redirs rs rest))
        (line_cmd l) rs rest is_rs f (write_line-Trimmed l (41 ∷ 32 ∷ write_redirs rs rest) is refl)
        (parseline-write_line l m (41 ∷ 32 ∷ write_redirs rs rest) is refl (omega arith))

  parsepipe-write_pipeline :
      (p : Pipeline) (k m : ℕ) (rest : List ℕ)
      → IsPipeline p
      → Follows pipe_stops rest
      → length (write_pipeline p rest) < k
      → length (write_pipeline p rest) ≤ m
      → parsepipe k (λ t. parseline m t) (write_pipeline p rest) ≡ ok (pipeline_cmd p, rest)
  parsepipe-write_pipeline (one i) zero m rest is f lt le = absurd (omega arith)
  parsepipe-write_pipeline (piped i p) zero m rest is f lt le = absurd (omega arith)
  parsepipe-write_pipeline (one i) (suc k) m rest is f lt le =
      rw
        (
          parseexec-write_item i m rest is (Follows-stops rest f) le,
          peek-at_start (124 ∷ []) rest (Follows-NoArrow rest (Follows-stops rest f)).0,
          Follows-head pipe_stops (124 ∷ []) rest (λ c h. ground (arith, h)) f,
        )
        refl
  parsepipe-write_pipeline (piped i p) (suc k) m rest is f lt le =
      rw
        (
          parseexec-write_item i m (124 ∷ 32 ∷ write_pipeline p rest) is.0 refl le,
          peek-at_start (124 ∷ []) (124 ∷ 32 ∷ write_pipeline p rest) refl,
          gettoken-single 124 (write_pipeline p rest) refl
              (write_pipeline-Trimmed p rest is.1 (Follows-stops rest f)),
          parsepipe-write_pipeline p k m rest is.1 f
              (omega (arith, lt, write_item-le i (124 ∷ 32 ∷ write_pipeline p rest)))
              (omega (arith, le, write_item-le i (124 ∷ 32 ∷ write_pipeline p rest))),
        )
        refl

  parseline-write_line :
      (l : Line) (k : ℕ) (rest : List ℕ)
      → IsLine l
      → Follows line_stops rest
      → length (write_line l rest) < k
      → parseline k (write_line l rest) ≡ ok (line_cmd l, rest)
  parseline-write_line (last p n) zero rest is f lt = absurd (omega arith)
  parseline-write_line (seq p n l) zero rest is f lt = absurd (omega arith)
  parseline-write_line (last p n) (suc k) rest is f lt =
      rw
        (
          parsepipe-write_pipeline p (length (write_pipeline p (write_backs n rest)) + 1) k
              (write_backs n rest) is (write_backs-Follows n rest (Follows-pipe_stops rest f))
              (omega arith) (omega arith),
          backs-write_backs (length (write_backs n rest) + 1) n (pipeline_cmd p) rest
              (Follows-NoArrow rest (Follows-stops rest (Follows-pipe_stops rest f))).0
              (Follows-head line_stops (38 ∷ []) rest (λ c h. ground (arith, h)) f) (omega arith),
          peek-at_start (59 ∷ []) rest
              (Follows-NoArrow rest (Follows-stops rest (Follows-pipe_stops rest f))).0,
          Follows-head line_stops (59 ∷ []) rest (λ c h. ground (arith, h)) f,
        )
        refl
  parseline-write_line (seq p n l) (suc k) rest is f lt =
      let after_line : List ℕ = 59 ∷ 32 ∷ write_line l rest in
      rw
        (
          parsepipe-write_pipeline p (length (write_pipeline p (write_backs n after_line)) + 1) k
              (write_backs n after_line) is.0 (write_backs-Follows n after_line refl) (omega arith)
              (omega arith),
          backs-write_backs (length (write_backs n after_line) + 1) n (pipeline_cmd p) after_line
              refl refl (omega arith),
          peek-at_start (59 ∷ []) after_line refl,
          gettoken-single 59 (write_line l rest) refl
              (write_line-Trimmed l rest is.1 (Follows-pipe_stops rest f)),
          parseline-write_line l k rest is.1 f (
              omega (
                arith,
                lt,
                write_backs-le n after_line,
                write_pipeline-le p (write_backs n after_line),
              )),
        )
        refl

-- A command line that is written with a space after each token is parsed to the command that it
-- stands for: `&` and `;` within parentheses or without, pipelines to the right, and redirections
-- in the order of their writing around the words, which may stand between them. Words have no white
-- space and no symbols, and a command has at most nine of them.
pub parsecmd-write_line : (l : Line) → IsLine l → parsecmd (write_line l []) ≡ ok (line_cmd l)
unfolding parsecmd
parsecmd-write_line l is =
    rw
      (
        parseline-write_line l (length (write_line l []) + 1) [] is tt (omega arith),
        peek-at_start [] [] tt,
      )
      refl
