-- ===== src/Paths.antt =====
-- src/dalmatian/paths.py: which files a pattern below the data root stands for. pathlib, the file
-- system and glob are arguments.
use Prim.Native.Char.{Char, code}
use Prim.Native.String.{◌++◌}
use dalmatian.Prelude.{
  String, ◌≡◌, refl, Bool, true, false, not, ◌&&◌, ◌||◌, List, [], ◌∷◌, nat_eq, ◌==◌, if◌then◌else◌,
  if_rule, arith,
}
use dalmatian.Errors.{Raised, Result, ok, err, value_error}

pub record FileSystem : Type 0 where
  -- Path.resolve, with the root's own; is_relative_to; exists; is_file
  pub root : String
  pub resolve : String → String
  pub is_relative_to : String → String → Bool
  pub exists : String → Bool
  pub is_file : String → Bool
  pub is_absolute : String → Bool
  -- root / candidate
  pub join : String → String → String
  -- glob.glob(pattern, recursive=True); sorted({…})
  pub glob : String → List String
  pub sorted_set : List String → List String

-- One of "*?[{"
abbrev is_wildcard : Char → Bool
is_wildcard c =
    (nat_eq (code c) b'*' || nat_eq (code c) b'?') || (nat_eq (code c) b'[' || nat_eq (code c) b'{')

unfoldable pub has_wildcard : String → Bool
has_wildcard String.[] = false
has_wildcard (String.◌∷◌ c s) = is_wildcard c || has_wildcard s

-- The text before the first wildcard.
unfoldable pub static_prefix : String → String
static_prefix String.[] = ""
static_prefix (String.◌∷◌ c s) =
    let rest = static_prefix s in if is_wildcard c then "" else String.◌∷◌ c rest

abbrev outside : FileSystem → Raised
outside fs = record {
  error_class = value_error;
  class_name = "PathOutsideDataRoot";
  message = "path must stay under " ++ fs.root;
}

abbrev no_files : String → Raised
no_files message = record {
  error_class = value_error;
  class_name = "NoFilesMatched";
  message = message;
}

module _ (fs : FileSystem) where
  resolved : List String → List String
  resolved [] = []
  resolved (p ∷ ps) = fs.resolve p ∷ resolved ps

  -- if path.is_file() and path.is_relative_to(root)
  kept_files : List String → List String
  kept_files [] = []
  kept_files (p ∷ ps) =
      let rest = kept_files ps in
      if fs.is_file p && fs.is_relative_to p fs.root then p ∷ rest else rest

  or_root : String → String
  or_root prefix = if prefix == "" then fs.root else prefix

  unfoldable pub literal_path : String → String → Result (List String)
  literal_path pattern path =
      if not (fs.is_relative_to path fs.root)
      then err (outside fs)
      else if not (fs.exists path)
      then err (no_files ("no file or directory found for " ++ pattern))
      else ok (path ∷ [])

  unfoldable pub some_files : String → List String → Result (List String)
  some_files pattern [] = err (no_files ("no files matched " ++ pattern))
  some_files pattern (f ∷ fs) = ok (f ∷ fs)

  glob_paths : String → String → Result (List String)
  unfolding resolved kept_files
  glob_paths pattern path =
      some_files pattern (fs.sorted_set (kept_files (resolved (fs.glob path))))

  -- What follows the guard on the part before the wildcards.
  under_root : String → String → Result (List String)
  under_root pattern path =
      if not (has_wildcard path)
      then literal_path pattern (fs.resolve path)
      else glob_paths pattern path

  absolute : String → String
  absolute pattern = if fs.is_absolute pattern then pattern else fs.join fs.root pattern

  is_inside : String → Bool
  unfolding or_root
  is_inside path = fs.is_relative_to (fs.resolve (or_root (static_prefix path))) fs.root

  -- resolve_paths(pattern, data_root)
  unfoldable pub resolve_paths : String → Result (List String)
  unfolding absolute is_inside under_root glob_paths
  resolve_paths pattern =
      if not (is_inside (absolute pattern))
      then err (outside fs)
      else under_root pattern (absolute pattern)

  -- Every path of a list is what a path resolves to, its links followed, and lies under the root.
  unfoldable pub AllUnder : List String → Type 0
  AllUnder [] = Unit
  AllUnder (p ∷ ps) =
      (fs.is_relative_to p fs.root ≡ true) × ((raw : String) × (fs.resolve raw ≡ p)) × AllUnder ps

  -- At least one path, and all under the root.
  unfoldable pub IsContained : Result (List String) → Type 0
  IsContained (ok []) = ⊥
  IsContained (ok (p ∷ ps)) = AllUnder (p ∷ ps)
  IsContained (err e) = Unit

  kept_file-AllUnder :
      (p : String) (rest : List String)
      → AllUnder rest
      → let q = fs.resolve p in
        AllUnder (if fs.is_file q && fs.is_relative_to q fs.root then q ∷ rest else rest)
  unfolding AllUnder
  kept_file-AllUnder p rest h =
      if_rule AllUnder (fs.is_file (fs.resolve p) && fs.is_relative_to (fs.resolve p) fs.root)
        (λ e. ((ground arith), (p, refl), h)) (λ e. h)

  kept_files-AllUnder : (ps : List String) → AllUnder (kept_files (resolved ps))
  unfolding AllUnder kept_files resolved
  kept_files-AllUnder [] = tt
  kept_files-AllUnder (p ∷ ps) =
      kept_file-AllUnder p (kept_files (resolved ps)) (kept_files-AllUnder ps)

  literal_path-IsContained :
      (pattern path : String) → IsContained (literal_path pattern (fs.resolve path))
  unfolding literal_path IsContained AllUnder
  literal_path-IsContained pattern path =
      if_rule IsContained (not (fs.is_relative_to (fs.resolve path) fs.root)) (λ e. tt)
        (λ e.
          if_rule IsContained (not (fs.exists (fs.resolve path))) (λ e'. tt)
            (λ e'. (ground arith, (path, refl), tt)))

  some_files-IsContained :
      (pattern : String) (ps : List String) → AllUnder ps → IsContained (some_files pattern ps)
  unfolding some_files IsContained
  some_files-IsContained pattern [] h = tt
  some_files-IsContained pattern (p ∷ ps) h = h

  module _ (sorting : (ps : List String) → AllUnder ps → AllUnder (fs.sorted_set ps)) where
    glob_paths-IsContained : (pattern path : String) → IsContained (glob_paths pattern path)
    unfolding glob_paths
    glob_paths-IsContained pattern path =
        some_files-IsContained pattern _ (sorting _ (kept_files-AllUnder (fs.glob path)))

    under_root-IsContained : (pattern path : String) → IsContained (under_root pattern path)
    unfolding under_root
    under_root-IsContained pattern path =
        if_rule IsContained (not (has_wildcard path)) {x = literal_path pattern (fs.resolve path)}
          {y = glob_paths pattern path} (λ e. literal_path-IsContained pattern path)
          (λ e. glob_paths-IsContained pattern path)

    -- Whatever the file system and its links are like: if sorting keeps that all paths are resolved
    -- ones under the root, a pattern that is not refused stands for at least one path; each of them is
    -- what a path resolves to once its links are followed, and as such lies under the root.
    pub resolve_paths-IsContained : (pattern : String) → IsContained (resolve_paths pattern)
    unfolding resolve_paths IsContained
    resolve_paths-IsContained pattern =
        if_rule IsContained (not (is_inside (absolute pattern))) {x = err (outside fs)}
          {y = under_root pattern (absolute pattern)} (λ e. tt)
          (λ e. under_root-IsContained pattern (absolute pattern))
