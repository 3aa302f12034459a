-- ===== src/Sql/Allowed.antt =====
-- Which statements `validate_and_normalize` accepts where sqlglot is installed (src/dalmatian/sql.py).
use dalmatian.Prelude.{
  String, ◌≡◌, refl, ap, ◌∙◌, ◌↔◌, true, Option, none, some, List, [], ◌∷◌, contains, eq_iff, arith,
}
use mathlib.Core.List
use dalmatian.Errors.{Result, ok, err}
use dalmatian.Sql.Tokens.{TextRules}
use dalmatian.Sql.{
  Table, Statement, check_tables, check_statement, check_statements, check_parsed,
  validate_and_normalize,
}

-- Every table is unqualified and one of the names.
unfoldable pub AreDeclared : List String → List Table → Type 0
AreDeclared allowed [] = Unit
AreDeclared allowed (t ∷ ts) =
    (t.catalog ≡ "") × (t.db ≡ "") × (contains allowed t.name ≡ true) × AreDeclared allowed ts

-- A query that names only sources and its own table expressions.
unfoldable pub IsAllowed : List String → Statement → Type 0
IsAllowed aliases s = (s.is_query ≡ true) × AreDeclared (List.◌++◌ aliases s.ctes) s.tables

tables-AreDeclared :
    (allowed : List String) (ts : List Table) (printed text : String)
    → check_tables allowed ts printed ≡ ok text
    → AreDeclared allowed ts × (printed ≡ text)
unfolding check_tables AreDeclared
tables-AreDeclared allowed [] printed text h = ground arith
tables-AreDeclared allowed (t ∷ ts) printed text h =
    ground (arith, tables-AreDeclared allowed ts printed text, eq_iff t.catalog "", eq_iff t.db "")

AreDeclared-tables :
    (allowed : List String) (ts : List Table) (printed : String)
    → AreDeclared allowed ts
    → check_tables allowed ts printed ≡ ok printed
unfolding check_tables AreDeclared
AreDeclared-tables allowed [] printed h = refl
AreDeclared-tables allowed (t ∷ ts) printed h =
    ground (arith, AreDeclared-tables allowed ts printed, eq_iff t.catalog "", eq_iff t.db "")

statement-IsAllowed :
    (aliases : List String) (s : Statement) (text : String)
    → check_statement aliases s ≡ ok text
    → IsAllowed aliases s × (s.printed ≡ text)
unfolding check_statement IsAllowed
statement-IsAllowed aliases s text h =
    ground (arith, tables-AreDeclared (List.◌++◌ aliases s.ctes) s.tables s.printed text)

IsAllowed-statement :
    (aliases : List String) (s : Statement)
    → IsAllowed aliases s
    → check_statement aliases s ≡ ok s.printed
unfolding check_statement IsAllowed
IsAllowed-statement aliases s h =
    ground (arith, AreDeclared-tables (List.◌++◌ aliases s.ctes) s.tables s.printed)

-- One statement, which is allowed and prints as the text.
unfoldable pub Reads : List String → Result (List (Option Statement)) → String → Type 0
Reads aliases parsed text =
    (s : Statement) × (parsed ≡ ok (some s ∷ [])) × IsAllowed aliases s × (s.printed ≡ text)

parsed-Reads :
    (aliases : List String) (parsed : Result (List (Option Statement))) (text : String)
    → check_parsed aliases parsed ≡ ok text
    → Reads aliases parsed text
unfolding check_parsed check_statements Reads
parsed-Reads aliases (err e) text h = cc
parsed-Reads aliases (ok []) text h = cc
parsed-Reads aliases (ok (none ∷ ss)) text h = cc
parsed-Reads aliases (ok (some s ∷ (t ∷ ss))) text h = cc
parsed-Reads aliases (ok (some s ∷ [])) text h =
    let (allowed, printed) = statement-IsAllowed aliases s text h in (s, refl, allowed, printed)

Reads-parsed :
    (aliases : List String) (parsed : Result (List (Option Statement))) (text : String)
    → Reads aliases parsed text
    → check_parsed aliases parsed ≡ ok text
unfolding check_parsed check_statements Reads
Reads-parsed aliases parsed text (s, one, allowed, printed) =
    rw one (IsAllowed-statement aliases s allowed ∙ ap ok printed)

-- With sqlglot a text is accepted exactly if it parses to one statement, which is a query whose tables
-- are all unqualified and named after a source of the request or a common table expression of the
-- query; what is run is that statement as sqlglot prints it.
pub validate_and_normalize_iff :
    (rules : TextRules) (parse : String → Result (List (Option Statement))) (sql : String)
    (aliases : List String) (text : String)
    → (validate_and_normalize rules (some parse) sql aliases ≡ ok text)
      ↔ Reads aliases (parse sql) text
unfolding validate_and_normalize
validate_and_normalize_iff rules parse sql aliases text =
    (parsed-Reads aliases (parse sql) text, Reads-parsed aliases (parse sql) text)
