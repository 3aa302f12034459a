-- ===== src/Sql.antt =====
-- src/dalmatian/sql.py: which SQL may run. sqlglot is an argument: what it says of a parsed text.
pub mod Tokens
pub mod Blanks
pub mod Fallback
pub mod Allowed
pub mod Again
pub mod Collapsed
pub mod Joined
use Prim.Native.String.{◌++◌}
use dalmatian.Prelude.{
  String, Bool, true, false, not, ◌||◌, Option, none, some, List, [], ◌∷◌, ◌==◌, contains,
  if◌then◌else◌,
}
use mathlib.Core.List
use dalmatian.Errors.{Raised, Result, ok, err}
use dalmatian.Service.Config.{rejected}
use dalmatian.Sql.Tokens.{TextRules}
use dalmatian.Sql.Fallback.{fallback}

-- A table that a statement names; a part that is absent is the empty text.
pub record Table : Type 0 where
  pub catalog : String
  pub db : String
  pub name : String

-- What sqlglot says of a statement: whether it is a query, the names of its common table expressions,
-- its tables, and its text in Spark's dialect.
pub record Statement : Type 0 where
  pub is_query : Bool
  pub ctes : List String
  pub tables : List Table
  pub printed : String

-- sqlglot.parse, or none if the package is not installed; a statement may be empty.
abbrev pub Parser : Type 0
Parser = Option (String → Result (List (Option Statement)))

unfoldable pub check_tables : List String → List Table → String → Result String
check_tables allowed [] printed = ok printed
check_tables allowed (t ∷ ts) printed =
    let rest = check_tables allowed ts printed in
    if not (t.catalog == "") || not (t.db == "")
    then err (rejected "catalog and database-qualified tables are not allowed")
    else if not (contains allowed t.name)
    then err (rejected ("query references undeclared source: " ++ t.name))
    else rest

unfoldable pub check_statement : List String → Statement → Result String
check_statement aliases s =
    if not s.is_query
    then err (rejected "only read-only SELECT queries are allowed")
    else check_tables (List.◌++◌ aliases s.ctes) s.tables s.printed

unfoldable pub check_statements : List String → List (Option Statement) → Result String
check_statements aliases (some s ∷ []) = check_statement aliases s
check_statements aliases _ = err (rejected "exactly one SQL statement is required")

unfoldable pub check_parsed : List String → Result (List (Option Statement)) → Result String
check_parsed aliases (err e) = err (rejected ("invalid SQL: " ++ e.message))
check_parsed aliases (ok statements) = check_statements aliases statements

unfoldable pub validate_and_normalize : TextRules → Parser → String → List String → Result String
validate_and_normalize rules none sql aliases = fallback rules sql aliases
validate_and_normalize rules (some parse) sql aliases = check_parsed aliases (parse sql)
