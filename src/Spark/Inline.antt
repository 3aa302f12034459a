-- ===== src/Spark/Inline.antt =====
-- `_inline` of src/dalmatian/spark.py: the rows that the service returns in its answer. The frame's
-- rows, their sizes in UTF-8 and json.loads are arguments.
use dalmatian.Prelude.{
  ℕ, zero, suc, ◌+◌, ◌≤◌, ◌≡◌, String, Bool, true, false, some, List, [], ◌∷◌, ◌++◌, map, leb, ltb,
  length, take, arith, if◌then◌else◌,
}
use mathlib.Core.List.{append-nil, append_assoc}
use dalmatian.Models.{InlineResult}
use dalmatian.Errors.{Raised, Result, ok, err, query_rejected}

abbrev pub too_long : Raised
too_long = record {
  error_class = query_rejected;
  class_name = "QueryRejected";
  message = "inline result exceeds byte limit; use stream or store output";
}

module _ {Row : Type 0} (loads : String → Row) (size : String → ℕ) where
  -- The loop over enumerate(iterator).
  unfoldable pub collect : ℕ → ℕ → ℕ → ℕ → List Row → List String → Result (List Row × Bool)
  collect max_rows max_bytes index encoded rows [] = ok (rows, false)
  collect max_rows max_bytes index encoded rows (raw ∷ raws) =
      let rest =
        collect max_rows max_bytes (index + 1) (encoded + size raw) (rows ++ loads raw ∷ []) raws in
      if leb max_rows index
      then ok (rows, true)
      else if ltb max_bytes (encoded + size raw)
      then err too_long
      else rest

  as_result : String → List String → Result (List Row × Bool) → Result (InlineResult Row)
  as_result query_id columns (err e) = err e
  as_result query_id columns (ok (rows, truncated)) = ok (record {
    query_id = some query_id;
    columns = columns;
    rows = rows;
    truncated = truncated;
    cached = false;
  })

  -- self._inline, given the rows of the frame: `limit` cuts them.
  unfoldable pub inline : String → List String → ℕ → ℕ → List String → Result (InlineResult Row)
  unfolding as_result
  inline query_id columns max_rows max_inline_bytes frame =
      as_result query_id columns
        (collect max_rows max_inline_bytes 0 0 [] (take (max_rows + 1) frame))

  unfoldable pub total_size : List String → ℕ
  total_size [] = 0
  total_size (raw ∷ raws) = size raw + total_size raws

  -- The loop after `index` rows, with `n` more to take.
  collect_lem :
      (n max_rows max_bytes index encoded : ℕ) (rows : List Row) (frame : List String)
      → index + n ≡ max_rows
      → encoded ≤ max_bytes
      → collect max_rows max_bytes index encoded rows (take (suc n) frame) ≡ (
          if leb (encoded + total_size (take n frame)) max_bytes
          then ok (rows ++ map loads (take n frame), ltb n (length frame))
          else err too_long)
  unfolding collect total_size
  collect_lem zero max_rows max_bytes index encoded rows [] e h = ground (arith, append-nil rows)
  collect_lem (suc n) max_rows max_bytes index encoded rows [] e h = ground (arith, append-nil rows)
  collect_lem zero max_rows max_bytes index encoded rows (raw ∷ frame) e h =
      ground (arith, append-nil rows)
  collect_lem (suc n) max_rows max_bytes index encoded rows (raw ∷ frame) e h = ground (
    arith,
    collect_lem n max_rows max_bytes (index + 1) (encoded + size raw) (rows ++ loads raw ∷ [])
        frame,
    append_assoc rows (loads raw ∷ []) (map loads (take n frame)),
  )

  -- An inline result holds the first `max_rows` rows of the frame and says whether there are more; it
  -- is refused exactly when those rows together exceed the byte limit.
  pub inline_lem :
      (query_id : String) (columns : List String) (max_rows max_inline_bytes : ℕ)
      (frame : List String)
      → inline query_id columns max_rows max_inline_bytes frame ≡ (
          if leb (total_size (take max_rows frame)) max_inline_bytes
          then ok (record {
            query_id = some query_id;
            columns = columns;
            rows = map loads (take max_rows frame);
            truncated = ltb max_rows (length frame);
            cached = false;
          })
          else err too_long)
  unfolding inline
  inline_lem query_id columns max_rows max_inline_bytes frame =
      ground (arith, collect_lem max_rows max_rows max_inline_bytes 0 0 [] frame)
