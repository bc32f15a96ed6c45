-- ===== src/Shell/Tests.antt =====
-- Tests of the parser, and its theorems at a concrete input.
use cpsc.Prelude.{ℕ, ◌≡◌, ◌≢◌, refl, List, [], ◌∷◌, arith}
use cpsc.Shell.{
  exec, redir, pipe, back, ok, panics, out_of_fuel, parsecmd, parseline, parsepipe, parseexec,
  parseblock, parseredirs, redirs_loop, args_loop, backs, peek, gettoken, skip_white, word,
  after_word,
}
use cpsc.Shell.Total.{parsecmd-ends}
use cpsc.Shell.Syntax.{
  Line, last, seq, one, piped, Item, simple, block, from, onto, IsLine, write_line, line_cmd,
}
use cpsc.Shell.RoundTrip.{parsecmd-write_line}

-- a<b|c>>d&
abbrev typed : List ℕ
typed = 97 ∷ 60 ∷ 98 ∷ 124 ∷ 99 ∷ 62 ∷ 62 ∷ 100 ∷ 38 ∷ []

typed_test :
    parsecmd typed
    ≡ ok (
        back (
          pipe
            (redir (exec ((97 ∷ []) ∷ [])) (98 ∷ []) 0 0)
            (redir (exec ((99 ∷ []) ∷ [])) (100 ∷ []) 513 1)))
unfolding parsecmd parseline parsepipe parseexec parseblock parseredirs redirs_loop args_loop backs
    peek gettoken skip_white word after_word
typed_test = refl

-- (a
unclosed_test : parsecmd (40 ∷ 97 ∷ []) ≡ panics
unfolding parsecmd parseline parsepipe parseexec parseblock parseredirs redirs_loop args_loop backs
    peek gettoken skip_white word after_word
unclosed_test = refl

parsecmd-ends_example : parsecmd typed ≢ out_of_fuel
parsecmd-ends_example = parsecmd-ends typed

-- ( a < b | c ; ) > d
abbrev nested : Line
nested = last (one (block inner (record { arrow = onto; file = 100 ∷ [] } ∷ []))) 1
  where
    left : Item
    left =
        simple []
          (record { text = 97 ∷ []; redirs = record { arrow = from; file = 98 ∷ [] } ∷ [] } ∷ [])

    inner : Line
    inner =
        seq (piped left (one (simple [] (record { text = 99 ∷ []; redirs = [] } ∷ [])))) 0
          (last (one (simple [] [])) 0)

nested-IsLine : IsLine nested
unfolding IsLine
nested-IsLine = ground arith

parsecmd-write_line_example : parsecmd (write_line nested []) ≡ ok (line_cmd nested)
parsecmd-write_line_example = parsecmd-write_line nested nested-IsLine
