-- ===== src/Sql/Blanks.antt =====
-- Stripping characters from a text and joining its runs of white space (src/dalmatian/sql.py).
use Prim.Native.Char.{Char}
use Prim.Native.String.{String}
use dalmatian.Prelude.{Bool, true, false, ◌&&◌, ◌||◌, if◌then◌else◌}

unfoldable pub is_nil : String → Bool
is_nil String.[] = true
is_nil (String.◌∷◌ c s) = false

-- text.lstrip and text.rstrip of the characters that a test holds for
unfoldable pub lstrip_by : (Char → Bool) → String → String
lstrip_by p String.[] = String.[]
lstrip_by p (String.◌∷◌ c s) = let rest = lstrip_by p s in if p c then rest else String.◌∷◌ c s

unfoldable pub rstrip_by : (Char → Bool) → String → String
unfolding is_nil
rstrip_by p String.[] = String.[]
rstrip_by p (String.◌∷◌ c s) =
    let rest = rstrip_by p s in if is_nil rest && p c then String.[] else String.◌∷◌ c rest

unfoldable pub strip_by : (Char → Bool) → String → String
strip_by p s = rstrip_by p (lstrip_by p s)

unfoldable pub starts_by : (Char → Bool) → String → Bool
starts_by p String.[] = false
starts_by p (String.◌∷◌ c s) = p c

unfoldable pub holds_char : (Char → Bool) → String → Bool
holds_char p String.[] = false
holds_char p (String.◌∷◌ c s) = p c || holds_char p s

-- re.sub(r"\s+", " ", text): the last space of a run becomes the blank.
unfoldable pub collapse : (Char → Bool) → String → String
unfolding starts_by
collapse p String.[] = String.[]
collapse p (String.◌∷◌ c s) =
    let rest = collapse p s in
    if p c then (if starts_by p s then rest else String.◌∷◌ " " rest) else String.◌∷◌ c rest
