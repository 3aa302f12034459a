-- ===== src/Datasets/Prepared.antt =====
-- The values of src/dalmatian/datasets.py that a prepared query carries.
use dalmatian.Prelude.{String, Bool, true, ◌&&◌, Option, List, [], ◌∷◌}
use dalmatian.Models.{QueryRequest}

pub record ResolvedSource : Type 0 where
  pub uri : String
  pub fingerprint : String
  pub cache_safe : Bool
  pub read_uris : Option (List String)

pub record PreparedQuery : Type 0 where
  pub request : QueryRequest
  pub sources : List (String × ResolvedSource)
  pub normalized_sql : String

versions : List (String × ResolvedSource) → List (String × String)
versions [] = []
versions ((name, source) ∷ rest) = (name, source.fingerprint) ∷ versions rest

-- PreparedQuery.source_versions
unfoldable pub source_versions : PreparedQuery → List (String × String)
unfolding versions
source_versions p = versions p.sources

unfoldable pub all_safe : List (String × ResolvedSource) → Bool
all_safe [] = true
all_safe ((name, source) ∷ rest) = source.cache_safe && all_safe rest

-- PreparedQuery.cache_safe
unfoldable pub is_cache_safe : PreparedQuery → Bool
unfolding all_safe
is_cache_safe p = all_safe p.sources
