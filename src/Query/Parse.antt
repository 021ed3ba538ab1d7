-- ===== src/Query/Parse.antt =====
-- internal/domain/query/parser.go. The grammar is run by the library participle, a parameter: it
-- yields the text of its error, or the tree.
use sshark_api.Base.{Option, none, some, ◌⊎◌, inl, inr, if◌then◌else◌}
use sshark_api.Base.Text.{Text, trim_space, is_empty}
use sshark_api.Query.Ast.{Query}

abbrev pub Parser : Type 0
Parser = Text → Text ⊎ Query

abbrev some_tree : Text ⊎ Query → Text ⊎ Option Query
some_tree (inl e) = inl e
some_tree (inr q) = inr (some q)

-- No tree for a text of white space.
unfoldable pub parse : Parser → Text → Text ⊎ Option Query
unfolding trim_space is_empty
parse parse_string input =
    let trimmed : Text = trim_space input in
    if is_empty trimmed then inr none else some_tree (parse_string trimmed)
