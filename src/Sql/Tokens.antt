-- ===== src/Sql/Tokens.antt =====
-- The regular expressions of `_fallback` (src/dalmatian/sql.py), over a text's words, runs of white space
-- and single marks. `\b` stands at the ends of the words, so `\bkeyword\b` is a word that is the keyword.
use Prim.Native.Char.{Char, code}
use Prim.Native.String.{String, ◌++◌}
use dalmatian.Prelude.{
  ◌≡◌, Bool, true, false, ◌||◌, ◌&&◌, Option, none, some, List, [], ◌∷◌, nat_eq, contains,
  if◌then◌else◌,
}

-- What Python's `re` and `str` say of characters: `\s`, `\w` and `[A-Za-z_]`, and the case that IGNORECASE
-- compares texts in.
pub record TextRules : Type 0 where
  pub is_space : Char → Bool
  pub is_word : Char → Bool
  pub is_name_start : Char → Bool
  pub fold : String → String
  pub blank_is_space : is_space " " ≡ true

pub data Token : Type 0 where
  word : String → Token
  space : Token
  mark : Char → Token

-- A character of a word, a space and a mark before the tokens of the rest.
unfoldable pub add_letter : Char → List Token → List Token
add_letter c (word w ∷ ts) = word (String.◌∷◌ c w) ∷ ts
add_letter c ts = word (String.◌∷◌ c String.[]) ∷ ts

unfoldable pub add_space : List Token → List Token
add_space (space ∷ ts) = space ∷ ts
add_space ts = space ∷ ts

unfoldable pub is_char : Char → Char → Bool
is_char c d = nat_eq (code c) (code d)

-- Where a search for tables stands: before a keyword, after it, after the space that follows, in a name.
pub data Place : Type 0 where
  outside keyword gap : Place
  name : String → Place

module _ (rules : TextRules) where
  unfoldable pub tokens : String → List Token
  tokens String.[] = []
  tokens (String.◌∷◌ c s) =
      let rest = tokens s in
      if rules.is_space c
      then add_space rest
      else if rules.is_word c
      then add_letter c rest
      else mark c ∷ rest

  is_one_of : List String → String → Bool
  is_one_of keywords w = contains keywords (rules.fold w)

  -- ^(select|with)\b
  unfoldable pub is_reading : List Token → Bool
  unfolding is_one_of
  is_reading (word w ∷ ts) = is_one_of ("select" ∷ "with" ∷ []) w
  is_reading _ = false

  abbrev forbidden : List String
  forbidden =
      "insert" ∷ "update" ∷ "delete" ∷ "create" ∷ "drop" ∷ "alter" ∷ "merge" ∷ "truncate" ∷ "cache"
      ∷ "uncache" ∷ "refresh" ∷ "set" ∷ "use" ∷ "describe" ∷ "show" ∷ "grant" ∷ "revoke" ∷ "call"
      ∷ "copy" ∷ []

  -- _FORBIDDEN.search
  unfoldable pub has_forbidden : List Token → Bool
  unfolding is_one_of
  has_forbidden [] = false
  has_forbidden (word w ∷ ts) = is_one_of forbidden w || has_forbidden ts
  has_forbidden (_ ∷ ts) = has_forbidden ts

  is_table_mark : Char → Bool
  is_table_mark c = is_char c "`" || is_char c "."

  -- _TABLE.findall: after `from` or `join` and white space, words, backquotes and dots.
  unfoldable pub tables : Place → List Token → List String
  unfolding is_one_of is_table_mark
  tables (name found) [] = found ∷ []
  tables _ [] = []
  tables outside (word w ∷ ts) =
      tables (if is_one_of ("from" ∷ "join" ∷ []) w then keyword else outside) ts
  tables outside (_ ∷ ts) = tables outside ts
  tables keyword (space ∷ ts) = tables gap ts
  tables keyword (_ ∷ ts) = tables outside ts
  tables gap (word w ∷ ts) = tables (name w) ts
  tables gap (mark c ∷ ts) =
      tables (if is_table_mark c then name (String.◌∷◌ c String.[]) else outside) ts
  tables gap (space ∷ ts) = tables outside ts
  tables (name found) (word w ∷ ts) = tables (name (found ++ w)) ts
  tables (name found) (space ∷ ts) = found ∷ tables outside ts
  tables (name found) (mark c ∷ ts) =
      let longer = tables (name (found ++ String.◌∷◌ c String.[])) ts in
      let ended = found ∷ tables outside ts in if is_table_mark c then longer else ended

  -- \s*\(
  opens : List Token → Bool
  opens (mark c ∷ ts) = is_char c "("
  opens (space ∷ mark c ∷ ts) = is_char c "("
  opens _ = false

  -- ([A-Za-z_]\w*)\s+as\s*\(
  named : String → List Token → Option String
  unfolding is_one_of opens
  named String.[] ts = none
  named (String.◌∷◌ c s) (space ∷ word w ∷ ts) =
      if rules.is_name_start c && (is_one_of ("as" ∷ []) w && opens ts)
      then some (String.◌∷◌ c s)
      else none
  named (String.◌∷◌ c s) ts = none

  after_start : List Token → Option String
  unfolding named
  after_start (space ∷ word w ∷ ts) = named w ts
  after_start (word w ∷ ts) = named w ts
  after_start _ = none

  starts_cte : Token → Bool
  unfolding is_one_of
  starts_cte (word w) = is_one_of ("with" ∷ []) w
  starts_cte (mark c) = is_char c ","
  starts_cte space = false

  with_found : Option String → List String → List String
  with_found none rest = rest
  with_found (some found) rest = found ∷ rest

  -- _CTE.findall. Of what one match takes nothing begins another: after the name come `as` and a
  -- parenthesis.
  unfoldable pub ctes : List Token → List String
  unfolding after_start starts_cte with_found
  ctes [] = []
  ctes (t ∷ ts) =
      let rest = ctes ts in if starts_cte t then with_found (after_start ts) rest else rest
