-- ===== src/Sql/Joined.antt =====
-- The fallback on a text that it has accepted (src/dalmatian/sql.py).
use Prim.Native.String.{String}
use dalmatian.Prelude.{◌≡◌, subst, sym, ap, ◌∙◌, true, false, none, List, arith}
use mathlib.Core.List
use dalmatian.Errors.{ok}
use dalmatian.Sql.Tokens.{TextRules, tokens, is_reading, has_forbidden, tables, outside, ctes}
use dalmatian.Sql.Blanks.{is_nil, rstrip_by, strip_by, holds_char, collapse}
use dalmatian.Sql.Fallback.{is_semicolon, check_names, stripped, check_text, fallback}
use dalmatian.Sql.{validate_and_normalize}
use dalmatian.Sql.Again.{strip-collapse, rstrip_strip, rstrip_without, nil-collapse, collapse_again}
use dalmatian.Sql.Collapsed.{
  tokens-collapse, holds-collapse, reading_not_nil, check_names_result, check_names_other,
  blank_other,
}

module _ (rules : TextRules) where
  -- What a text that passes the checks is.
  checked_facts :
      (aliases : List String) (s text : String)
      → check_text rules aliases s ≡ ok text
      → (holds_char is_semicolon s ≡ false)
        × (is_reading rules (tokens rules s) ≡ true)
        × (has_forbidden rules (tokens rules s) ≡ false)
        × (check_names
              (List.◌++◌ aliases (ctes rules (tokens rules s)))
              (tables rules outside (tokens rules s))
              (collapse rules.is_space s)
            ≡ ok text)
  unfolding check_text
  checked_facts aliases s text h = ground arith

  facts_checked :
      (aliases : List String) (s text : String)
      → holds_char is_semicolon s ≡ false
      → is_reading rules (tokens rules s) ≡ true
      → has_forbidden rules (tokens rules s) ≡ false
      → check_names
          (List.◌++◌ aliases (ctes rules (tokens rules s)))
          (tables rules outside (tokens rules s))
          (collapse rules.is_space s)
        ≡ ok text
      → check_text rules aliases s ≡ ok text
  unfolding check_text
  facts_checked aliases s text one reading allowed named = ground arith

  fallback_checks :
      (sql : String) (aliases : List String) (text : String)
      → fallback rules sql aliases ≡ ok text
      → check_text rules aliases (stripped rules sql) ≡ ok text
  unfolding fallback
  fallback_checks sql aliases text h = ground arith

  checks_fallback :
      (sql : String) (aliases : List String)
      → strip_by rules.is_space sql ≡ sql
      → is_nil sql ≡ false
      → stripped rules sql ≡ sql
      → fallback rules sql aliases ≡ check_text rules aliases sql
  unfolding fallback
  checks_fallback sql aliases same filled whole =
      rw same (rw filled (ap (check_text rules aliases) whole))

  stripped_same :
      (s : String)
      → strip_by rules.is_space s ≡ s
      → holds_char is_semicolon s ≡ false
      → stripped rules s ≡ s
  unfolding stripped
  stripped_same s same one =
      let right = ap (rstrip_by rules.is_space) (sym same) ∙ rstrip_strip rules.is_space s ∙ same in
      ap (λ x. strip_by rules.is_space (rstrip_by is_semicolon (rstrip_by rules.is_space x))) same
      ∙ ap (λ x. strip_by rules.is_space (rstrip_by is_semicolon x)) right
      ∙ ap (strip_by rules.is_space) (rstrip_without is_semicolon s one)
      ∙ same

  strip-stripped :
      (sql : String)
      → strip_by rules.is_space (collapse rules.is_space (stripped rules sql))
        ≡ collapse rules.is_space (stripped rules sql)
  unfolding stripped
  strip-stripped sql =
      strip-collapse rules.is_space rules.blank_is_space
        (rstrip_by is_semicolon (rstrip_by rules.is_space (strip_by rules.is_space sql)))

  -- A text that passes the checks as it stands, joined.
  joined_again :
      (s : String) (aliases : List String) (text : String)
      → strip_by rules.is_space (collapse rules.is_space s) ≡ collapse rules.is_space s
      → check_text rules aliases s ≡ ok text
      → fallback rules (collapse rules.is_space s) aliases ≡ ok (collapse rules.is_space s)
  joined_again s aliases text same h =
      let (one, reading, allowed, named) = checked_facts aliases s text h in
      let joined = collapse rules.is_space s in
      let tokens_same = tokens-collapse rules s in
      let one_joined = holds-collapse rules.is_space is_semicolon blank_other s one in
      let filled =
        nil-collapse rules.is_space rules.blank_is_space s ∙ reading_not_nil rules s reading in
      checks_fallback joined aliases same filled (stripped_same joined same one_joined)
      ∙ facts_checked aliases joined joined one_joined (ap (is_reading rules) tokens_same ∙ reading)
          (ap (has_forbidden rules) tokens_same ∙ allowed)
          (ap
              (λ ts.
                check_names (List.◌++◌ aliases (ctes rules ts)) (tables rules outside ts)
                  (collapse rules.is_space joined))
              tokens_same
            ∙ check_names_other (List.◌++◌ aliases (ctes rules (tokens rules s)))
                (tables rules outside (tokens rules s)) (collapse rules.is_space s) text
                (collapse rules.is_space joined) named
            ∙ ap ok (collapse_again rules.is_space rules.blank_is_space s))

-- Without sqlglot: where a text is accepted, the text that is run in its place is accepted too, for the
-- same sources, and stands for itself. So validating twice is validating once.
pub validate_and_normalize_again :
    (rules : TextRules) (sql : String) (aliases : List String) (text : String)
    → validate_and_normalize rules none sql aliases ≡ ok text
    → validate_and_normalize rules none text aliases ≡ ok text
unfolding validate_and_normalize
validate_and_normalize_again rules sql aliases text h =
    let checked = fallback_checks rules sql aliases text h in
    let (_, _, _, named) = checked_facts rules aliases (stripped rules sql) text checked in
    subst (λ x. fallback rules x aliases ≡ ok x) (check_names_result _ _ _ text named)
      (joined_again rules (stripped rules sql) aliases text (strip-stripped rules sql) checked)
