-- ===== src/Examples/Sql.antt =====
-- The checks of SQL texts at concrete inputs (src/dalmatian/sql.py).
use Prim.Native.Char.{Char, code}
use Prim.Native.String.{String}
use dalmatian.Prelude.{
  ◌≡◌, refl, ◌↔◌, Bool, true, ◌||◌, ◌&&◌, Option, none, some, List, [], ◌∷◌, contains, leb,
  if◌then◌else◌,
}
use dalmatian.Errors.{Result, ok, err}
use dalmatian.Service.Config.{rejected}
use dalmatian.Sql.Tokens.{
  TextRules, is_char, tokens, add_letter, add_space, is_reading, has_forbidden, tables, ctes,
}
use dalmatian.Sql.Blanks.{is_nil, lstrip_by, rstrip_by, strip_by, starts_by, holds_char, collapse}
use dalmatian.Sql.Fallback.{fallback, check_text, stripped, check_names, table_name}
use dalmatian.Sql.{Statement, validate_and_normalize}
use dalmatian.Sql.Allowed.{Reads, validate_and_normalize_iff}
use dalmatian.Sql.Joined.{validate_and_normalize_again}

abbrev is_between : Char → Char → Char → Bool
is_between a b c = leb (code a) (code c) && leb (code c) (code b)

abbrev is_start : Char → Bool
is_start c = is_between "a" "z" c || is_between "A" "Z" c || is_between "_" "_" c

-- The character at the place where the first text has `c`, or `c` itself.
abbrev swapped : String → String → Char → Char
swapped (String.◌∷◌ d from) (String.◌∷◌ e to) c =
    let rest = swapped from to c in if is_char c d then e else rest
swapped _ _ c = c

abbrev lowered : String → String
lowered String.[] = ""
lowered (String.◌∷◌ c s) =
    String.◌∷◌ (swapped "ABCDEFGHIJKLMNOPQRSTUVWXYZ" "abcdefghijklmnopqrstuvwxyz" c) (lowered s)

-- ASCII
abbrev ascii : TextRules
ascii = record {
  is_space = λ c. is_between " " " " c || is_between "\t" "\r" c;
  is_word = λ c. is_start c || is_between "0" "9" c;
  is_name_start = is_start;
  fold = lowered;
  blank_is_space = refl;
}

-- Two statements, a statement that writes, a table that is no source, and a table expression. The second of
-- two tables after `from` is not looked at.
fallback_answers :
    (validate_and_normalize ascii none "select 1; select 2" []
      ≡ err (rejected "exactly one SQL statement is required"))
    × (validate_and_normalize ascii none "with t as (select 1) Delete from t" []
        ≡ err (rejected "only read-only SELECT queries are allowed"))
    × (validate_and_normalize ascii none "select * from b" ("a" ∷ [])
        ≡ err (rejected "query references undeclared source: b"))
    × (validate_and_normalize ascii none "WITH t AS (SELECT * FROM `a`) SELECT * FROM t" ("a" ∷ [])
        ≡ ok "WITH t AS (SELECT * FROM `a`) SELECT * FROM t")
    × (validate_and_normalize ascii none "select * from a, secret" ("a" ∷ [])
        ≡ ok "select * from a, secret")
unfolding validate_and_normalize fallback check_text stripped check_names table_name tokens
    add_letter add_space is_char is_reading has_forbidden tables ctes is_nil lstrip_by rstrip_by
    strip_by starts_by holds_char collapse contains
fallback_answers = (refl, refl, refl, refl, refl)

validate_and_normalize_again_example :
    validate_and_normalize ascii none "SELECT * FROM a" ("a" ∷ []) ≡ ok "SELECT * FROM a"
unfolding validate_and_normalize fallback check_text stripped check_names table_name tokens
    add_letter add_space is_char is_reading has_forbidden tables ctes is_nil lstrip_by rstrip_by
    strip_by starts_by holds_char collapse contains
validate_and_normalize_again_example =
    validate_and_normalize_again ascii "  SELECT  * \n FROM a ; " ("a" ∷ []) "SELECT * FROM a" refl

-- What sqlglot says of a text that joins a source with a table expression.
abbrev parsed : String → Result (List (Option Statement))
parsed sql = ok (
    some (record {
      is_query = true;
      ctes = "t" ∷ [];
      tables =
          record { catalog = ""; db = ""; name = "a" }
          ∷ record { catalog = ""; db = ""; name = "t" }
          ∷ [];
      printed = "WITH t AS (SELECT 1) SELECT * FROM a, t";
    })
    ∷ [])

validate_and_normalize_iff_example :
    (validate_and_normalize ascii (some parsed) "with t as (select 1) select * from a, t" ("a" ∷ [])
      ≡ ok "WITH t AS (SELECT 1) SELECT * FROM a, t")
    ↔ Reads
        ("a" ∷ [])
        (parsed "with t as (select 1) select * from a, t")
        "WITH t AS (SELECT 1) SELECT * FROM a, t"
validate_and_normalize_iff_example =
    validate_and_normalize_iff ascii parsed "with t as (select 1) select * from a, t" ("a" ∷ [])
      "WITH t AS (SELECT 1) SELECT * FROM a, t"
