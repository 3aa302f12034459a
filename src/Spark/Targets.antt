-- ===== src/Spark/Targets.antt =====
-- src/dalmatian/spark.py: the schema text, the target of a read and the regular expression of a glob.
-- `re.escape` is an argument.
use Prim.Native.Char.{Char, code}
use Prim.Native.String.{◌++◌}
use dalmatian.Prelude.{
  ℕ, String, ◌≡◌, refl, Bool, true, false, not, ◌&&◌, ◌||◌, Option, none, some, List, [], ◌∷◌,
  nat_eq, ◌==◌, if◌then◌else◌, is_some, ap, arith, eq_iff, Bool-cases, inl, inr,
}
use dalmatian.Storage.Locations.{lstrip, rstrip}
use dalmatian.Models.{SourceSpec, Schema, fields, ddl}

columns : List (String × String) → String
columns [] = ""
columns ((name, dtype) ∷ []) = "`" ++ (name ++ ("` " ++ dtype))
columns ((name, dtype) ∷ more ∷ rest) =
    "`" ++ (name ++ ("` " ++ (dtype ++ (", " ++ columns (more ∷ rest)))))

schema_of : Option Schema → Option String
schema_of none = none
schema_of (some (ddl text)) = some text
schema_of (some (fields fs)) = some (columns fs)

-- self._schema(source)
unfoldable pub schema_text : SourceSpec → Option String
unfolding columns schema_of
schema_text source = schema_of source.schema_definition

unfoldable pub is_char : ℕ → Char → Bool
is_char k c = nat_eq (code c) k

-- text.split("**", 1), if there is a "**"
unfoldable pub split_stars : String → Option (String × String)
split_stars String.[] = none
split_stars (String.◌∷◌ a String.[]) = none
split_stars (String.◌∷◌ a (String.◌∷◌ b s)) =
    let later = split_stars (String.◌∷◌ b s) in
    if is_char b'*' a && is_char b'*' b
    then some ("", s)
    else elim later [ none ↦ none | some (prefix, suffix) ↦ some (String.◌∷◌ a prefix, suffix) ]

unfoldable pub has_slash : String → Bool
has_slash String.[] = false
has_slash (String.◌∷◌ c s) = is_char b'/' c || has_slash s

-- text.rsplit("/", 1)[-1]
unfoldable pub last_segment : String → String
last_segment String.[] = ""
last_segment (String.◌∷◌ c s) =
    let rest = last_segment s in
    if has_slash s then rest else if is_char b'/' c then s else String.◌∷◌ c s

recursive_options : String → List (String × String)
recursive_options basename =
    if not (basename == "") && not (is_some (split_stars basename))
    then ("recursiveFileLookup", "true") ∷ ("pathGlobFilter", basename) ∷ []
    else ("recursiveFileLookup", "true") ∷ []

-- self._read_target(uri): what is read, and with which options.
unfoldable pub read_target : String → String × List (String × String)
unfolding recursive_options
read_target uri = elim (split_stars uri) [
  | none ↦ (uri, [])
  | some (prefix, suffix) ↦ (rstrip prefix, recursive_options (last_segment (lstrip suffix)))
]

module _ (escape : Char → String) where
  unfoldable pub one_char : Char → String
  one_char c = if is_char b'*' c then "[^/]*" else if is_char b'?' c then "[^/]" else escape c

  -- The loop over the text: `**/`, `**` and single characters.
  unfoldable pub parts : String → String
  parts String.[] = ""
  parts (String.◌∷◌ a String.[]) = one_char a
  parts (String.◌∷◌ a (String.◌∷◌ b String.[])) =
      if is_char b'*' a && is_char b'*' b then ".*" else one_char a ++ one_char b
  parts (String.◌∷◌ a (String.◌∷◌ b (String.◌∷◌ c s))) =
      let single = one_char a ++ parts (String.◌∷◌ b (String.◌∷◌ c s)) in
      let stars = ".*" ++ parts (String.◌∷◌ c s) in
      let folders = "(?:.*/)?" ++ parts s in
      if is_char b'*' a && is_char b'*' b
      then (if is_char b'/' c then folders else stars)
      else single

  -- The reader's options say all when nothing follows "**" or a name with no more folders.
  needs_filter : String → Bool
  needs_filter trailing =
      not (trailing == "") && (has_slash trailing || is_some (split_stars trailing))

  unfoldable pub glob_regex : String → Option String
  unfolding needs_filter
  glob_regex uri = elim (split_stars uri) [
    | none ↦ none
    | some (prefix, suffix) ↦
        (if needs_filter (lstrip suffix) then some ("^" ++ (parts uri ++ "$")) else none)
  ]

  last_segment_whole : (s : String) → has_slash s ≡ false → last_segment s ≡ s
  unfolding has_slash last_segment
  last_segment_whole String.[] h = refl
  last_segment_whole (String.◌∷◌ c s) h = ground (arith, last_segment_whole s)

  -- What the options of a read stand for.
  unfoldable pub described : Option (String × String) → String → String × List (String × String)
  described none uri = (uri, [])
  described (some (prefix, suffix)) uri =
      if lstrip suffix == ""
      then (rstrip prefix, ("recursiveFileLookup", "true") ∷ [])
      else (rstrip prefix, ("recursiveFileLookup", "true") ∷ ("pathGlobFilter", lstrip suffix) ∷ [])

  is_nil : String → Bool
  is_nil String.[] = true
  is_nil (String.◌∷◌ c s) = false

  nonempty : (c : Char) (s : String) → (String.◌∷◌ c s == "") ≡ false
  unfolding is_nil
  nonempty c s = elim (Bool-cases (String.◌∷◌ c s == "")) [
    | inl e ↦ (let same = ap is_nil ((eq_iff (String.◌∷◌ c s) "").0 e) in cc)
    | inr e ↦ e
  ]

  options_whole :
      (prefix trailing : String)
      → needs_filter trailing ≡ false
      → ◌≡◌ {A = String × List (String × String)}
          (rstrip prefix, recursive_options (last_segment trailing))
          (if trailing == "" then (rstrip prefix, ("recursiveFileLookup", "true") ∷ []) else (
            rstrip prefix,
            ("recursiveFileLookup", "true") ∷ ("pathGlobFilter", trailing) ∷ [],
          ))
  unfolding needs_filter recursive_options last_segment
  options_whole prefix String.[] h = refl
  options_whole prefix (String.◌∷◌ c s) h =
      ground (arith, last_segment_whole (String.◌∷◌ c s), nonempty c s)

  -- Where no path filter is applied, the target and the options describe the whole pattern: a pattern
  -- with no "**" is read as it stands, and else all files below its first part whose names match all
  -- that follows the "**", if anything does.
  pub read_target_whole :
      (uri : String) → glob_regex uri ≡ none → read_target uri ≡ described (split_stars uri) uri
  unfolding glob_regex read_target described
  read_target_whole uri h = by_split (split_stars uri) refl
    where
      by_split :
          (o : Option (String × String))
          → split_stars uri ≡ o
          → read_target uri ≡ described (split_stars uri) uri
      by_split none e = ground (arith, e)
      by_split (some (prefix, suffix)) e = ground (arith, e, options_whole prefix (lstrip suffix))
