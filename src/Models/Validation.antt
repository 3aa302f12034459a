-- ===== src/Models/Validation.antt =====
-- src/dalmatian/models.py: the validators of sources, outputs and requests.
use Prim.Native.Char.{Char, code}
use text.Mathlib.Text.{starts_with}
use dalmatian.Prelude.{
  String, Bool, true, false, ◌&&◌, ◌||◌, not, Option, none, some, List, [], ◌∷◌, is_some, contains,
  nat_eq, if◌then◌else◌, ◌≡◌, refl, ◌≢◌, ◌↔◌, arith,
}
use dalmatian.Models.{SourceSpec, OutputSpec, QueryRequest, DataFormat, DeliveryMode, OutputFormat}

pub data Checked : Type 0 where
  valid : Checked
  invalid : String → Checked

abbrev cons_head : Char → List String → List String
cons_head c [] = (String.◌∷◌ c "") ∷ []
cons_head c (s ∷ ss) = (String.◌∷◌ c s) ∷ ss

-- path.split("/")
unfoldable pub split : String → List String
split String.[] = "" ∷ []
split (String.◌∷◌ c s) =
    let rest = split s in if nat_eq (code c) b'/' then "" ∷ rest else cons_head c rest

-- path.startswith("/") or ".." in path.split("/")
unfoldable pub escapes : String → Bool
escapes path = starts_with path "/" || contains (split path) ".."

is_csv : DataFormat → Bool
is_csv DataFormat.csv = true
is_csv _ = false

unfoldable pub validate_schema_options : SourceSpec → Checked
unfolding is_csv
validate_schema_options s =
    if s.infer_schema && not (is_csv s.format)
    then invalid "infer_schema is only valid for csv sources"
    else valid

is_json : OutputFormat → Bool
is_json OutputFormat.json = true
is_json _ = false

-- self.format in {OutputFormat.CSV, OutputFormat.JSONL}
is_streamed : OutputFormat → Bool
is_streamed OutputFormat.csv = true
is_streamed OutputFormat.jsonl = true
is_streamed _ = false

validate_store : Option String → Option String → OutputFormat → Checked
validate_store (some location) (some path) format =
    if is_json format
    then invalid "stored output uses jsonl, csv, or parquet; json is inline only"
    else if escapes path
    then invalid "stored output path must be relative and cannot contain '..'"
    else valid
validate_store _ _ format = invalid "stored output requires location and path"

validate_mode : DeliveryMode → OutputSpec → Checked
validate_mode DeliveryMode.inline o =
    if not (is_json o.format)
    then invalid "inline output format must be json"
    else if is_some o.location || is_some o.path
    then invalid "inline output does not accept a storage destination"
    else valid
validate_mode DeliveryMode.stream o =
    if not (is_streamed o.format)
    then invalid "stream output format must be csv or jsonl"
    else if is_some o.location || is_some o.path
    then invalid "stream output does not accept a storage destination"
    else valid
validate_mode DeliveryMode.store o = validate_store o.location o.path o.format

unfoldable pub validate_delivery : OutputSpec → Checked
unfolding is_json is_streamed validate_store validate_mode
validate_delivery o = validate_mode o.mode o

unfoldable pub is_inline : DeliveryMode → Bool
is_inline DeliveryMode.inline = true
is_inline _ = false

-- str.isidentifier is Python's, on Unicode classes: it is an argument.
module _ (isidentifier : String → Bool) where
  all_identifiers : List (String × SourceSpec) → Bool
  all_identifiers [] = true
  all_identifiers ((name, source) ∷ rest) = isidentifier name && all_identifiers rest

  unfoldable pub validate_request : QueryRequest → Checked
  unfolding all_identifiers is_inline
  validate_request r =
      if not (all_identifiers r.sources)
      then invalid "source name must be a valid identifier"
      else if not (is_inline r.output.mode) && contains r.fields_set "max_rows"
      then invalid "max_rows is only valid for inline output; use SQL LIMIT otherwise"
      else if not (is_inline r.output.mode) && contains r.fields_set "cache_ttl_seconds"
      then invalid "cache_ttl_seconds is only valid for inline output"
      else valid

-- The outputs that the service can deliver: JSON inline, CSV or JSON lines as a stream, and files
-- in a named location under a path that does not leave it.
pub data IsDeliverable (o : OutputSpec) : Type 0 where
  inline :
      o.mode ≡ DeliveryMode.inline
      → o.format ≡ OutputFormat.json
      → o.location ≡ none
      → o.path ≡ none
      → IsDeliverable o
  stream :
      o.mode ≡ DeliveryMode.stream
      → o.format ≢ OutputFormat.json
      → o.format ≢ OutputFormat.parquet
      → o.location ≡ none
      → o.path ≡ none
      → IsDeliverable o
  store :
      (location path : String)
      → o.mode ≡ DeliveryMode.store
      → o.format ≢ OutputFormat.json
      → o.location ≡ some location
      → o.path ≡ some path
      → escapes path ≡ false
      → IsDeliverable o

not_json : (f : OutputFormat) → is_json f ≡ false → f ≢ OutputFormat.json
unfolding is_json
not_json f h e = ground arith

stored :
    (o : OutputSpec) (location path : String)
    → o.location ≡ some location
    → o.path ≡ some path
    → o.mode ≡ DeliveryMode.store
    → validate_delivery o ≡ valid
    → IsDeliverable o
unfolding validate_delivery
stored o location path l p m h =
    IsDeliverable.store location path m (not_json o.format (ground arith)) l p (ground arith)

deliverable : (o : OutputSpec) → validate_delivery o ≡ valid → IsDeliverable o
unfolding validate_delivery
deliverable o h = by_mode o.mode o.location o.path refl refl refl
  where
    by_mode :
        (m : DeliveryMode) (l p : Option String)
        → o.mode ≡ m
        → o.location ≡ l
        → o.path ≡ p
        → IsDeliverable o
    by_mode DeliveryMode.store (some l) (some p) em el ep = stored o l p el ep em h
    by_mode DeliveryMode.store (some l) none em el ep = absurd (ground arith)
    by_mode DeliveryMode.store none p em el ep = absurd (ground arith)
    by_mode DeliveryMode.inline l p em el ep =
        IsDeliverable.inline em (ground arith) (ground arith) (ground arith)
    by_mode DeliveryMode.stream l p em el ep =
        IsDeliverable.stream em (λ f. ground arith) (λ f. ground arith) (ground arith)
          (ground arith)

accepted : (o : OutputSpec) → IsDeliverable o → validate_delivery o ≡ valid
unfolding validate_delivery
accepted o (IsDeliverable.inline m f l p) = ground arith
accepted o (IsDeliverable.stream m f g l p) = ground arith
accepted o (IsDeliverable.store location path m f l p e) = ground arith

-- The validator accepts an output exactly when it can be delivered: inline JSON and CSV or JSON
-- lines streams without a destination, and stored files that are no JSON with a location and a
-- path that neither starts with a slash nor has a segment "..".
pub validate_delivery_iff : (o : OutputSpec) → (validate_delivery o ≡ valid) ↔ IsDeliverable o
validate_delivery_iff o = (deliverable o, accepted o)
