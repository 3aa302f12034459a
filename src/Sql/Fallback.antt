-- ===== src/Sql/Fallback.antt =====
-- `_fallback` of src/dalmatian/sql.py, for an installation without sqlglot.
use Prim.Native.Char.{Char}
use Prim.Native.String.{String, ◌++◌}
use dalmatian.Prelude.{Bool, not, ◌||◌, List, [], ◌∷◌, contains, if◌then◌else◌}
use mathlib.Core.List
use dalmatian.Errors.{Result, ok, err}
use dalmatian.Service.Config.{rejected}
use dalmatian.Sql.Tokens.{
  TextRules, is_char, tokens, is_reading, has_forbidden, tables, outside, ctes,
}
use dalmatian.Sql.Blanks.{is_nil, rstrip_by, strip_by, holds_char, collapse}

abbrev pub is_semicolon : Char → Bool
is_semicolon c = is_char c ";"

abbrev is_dot : Char → Bool
is_dot c = is_char c "."

-- text.split(".")[-1]
last_part : String → String
last_part String.[] = ""
last_part (String.◌∷◌ c s) =
    let rest = last_part s in
    if holds_char is_dot s then rest else if is_dot c then s else String.◌∷◌ c s

-- raw.strip("`").split(".")[-1]
unfoldable pub table_name : String → String
unfolding last_part
table_name raw = last_part (strip_by (λ c. is_char c "`") raw)

unfoldable pub check_names : List String → List String → String → Result String
check_names allowed [] text = ok text
check_names allowed (raw ∷ more) text =
    let rest = check_names allowed more text in
    if holds_char is_dot raw || not (contains allowed (table_name raw))
    then err (rejected ("query references undeclared source: " ++ table_name raw))
    else rest

module _ (rules : TextRules) where
  -- The text between the white space at both ends, without the semicolons at its end.
  unfoldable pub stripped : String → String
  stripped sql =
      strip_by rules.is_space
        (rstrip_by is_semicolon (rstrip_by rules.is_space (strip_by rules.is_space sql)))

  -- The checks of a stripped text, and the text with its white space joined.
  unfoldable pub check_text : List String → String → Result String
  check_text aliases s =
      if holds_char is_semicolon s
      then err (rejected "exactly one SQL statement is required")
      else if not (is_reading rules (tokens rules s))
      then err (rejected "only read-only SELECT queries are allowed")
      else if has_forbidden rules (tokens rules s)
      then err (rejected "only read-only SELECT queries are allowed")
      else check_names (List.◌++◌ aliases (ctes rules (tokens rules s)))
          (tables rules outside (tokens rules s)) (collapse rules.is_space s)

  unfoldable pub fallback : String → List String → Result String
  fallback sql aliases =
      if is_nil (strip_by rules.is_space sql)
      then err (rejected "SQL cannot be empty")
      else check_text aliases (stripped sql)
