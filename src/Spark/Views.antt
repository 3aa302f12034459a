-- ===== src/Spark/Views.antt =====
-- Which views a query gets, and when its sources may feed a cached result (src/dalmatian/spark.py).
use dalmatian.Prelude.{
  if◌then◌else◌, subst, String, ◌≡◌, refl, Bool, true, false, ◌&&◌, Option, none, some, List, [],
  ◌∷◌, ◌++◌, ap, arith,
}
use dalmatian.Models.{SourceSpec, QueryRequest}
use dalmatian.Fingerprint.{Hashing}
use dalmatian.Errors.{Raised, Result, ok, err}
use dalmatian.Effects.{◌>>=◌}
use dalmatian.Datasets.Prepared.{ResolvedSource, PreparedQuery, is_cache_safe, all_safe}
use dalmatian.Datasets.Sources.{
  SourceFiles, resolve_source, may_keep, IsSafe, resolve_source-IsSafe,
}
use dalmatian.Spark.Reading.{
  resolve_all, with_source, prepare, prepared_with, Sessions, ViewEvent, ViewRun, from_cache,
  read_fresh, load_cached_view, read_view, source_of, make_views, make_view, view_found, noted,
  frame, quiet,
}

module _ ⦃H : Hashing⦄ (fs : SourceFiles) where
  -- Whether results over a source may be kept, and what its resolution raises.
  kept_source : SourceSpec → Result ResolvedSource → Bool
  kept_source source (ok r) = may_keep fs source r
  kept_source source (err e) = false

  failure : Result ResolvedSource → Option Raised → Option Raised
  failure (ok r) later = later
  failure (err e) later = some e

  unfoldable pub may_keep_all : List (String × SourceSpec) → Bool
  unfolding kept_source
  may_keep_all [] = true
  may_keep_all ((name, source) ∷ rest) =
      kept_source source (resolve_source fs source) && may_keep_all rest

  unfoldable pub first_failure : List (String × SourceSpec) → Option Raised
  unfolding failure
  first_failure [] = none
  first_failure ((name, source) ∷ rest) = failure (resolve_source fs source) (first_failure rest)

  unfoldable pub IsPrepared : List (String × SourceSpec) → Result PreparedQuery → Type 0
  IsPrepared sources (ok p) =
      (first_failure sources ≡ none) × (is_cache_safe p ≡ may_keep_all sources)
  IsPrepared sources (err e) = first_failure sources ≡ some e

  Resolves : List (String × SourceSpec) → Result (List (String × ResolvedSource)) → Type 0
  Resolves sources (ok resolved) =
      (first_failure sources ≡ none) × (all_safe resolved ≡ may_keep_all sources)
  Resolves sources (err e) = first_failure sources ≡ some e

  with_source-Resolves :
      (name : String) (source : SourceSpec) (rest : List (String × SourceSpec))
      (r : Result ResolvedSource) (others : Result (List (String × ResolvedSource)))
      → resolve_source fs source ≡ r
      → IsSafe fs source r
      → Resolves rest others
      → Resolves ((name, source) ∷ rest) (with_source fs name r others)
  unfolding Resolves with_source first_failure may_keep_all IsSafe all_safe
  with_source-Resolves name source rest (err e) others same safe more = ground (arith, same)
  with_source-Resolves name source rest (ok r) (err e) same safe more = ground (arith, same, more)
  with_source-Resolves name source rest (ok r) (ok resolved) same safe more =
      ground (arith, same, safe, more)

  all-Resolves : (sources : List (String × SourceSpec)) → Resolves sources (resolve_all fs sources)
  unfolding resolve_all Resolves first_failure may_keep_all all_safe
  all-Resolves [] = (refl, refl)
  all-Resolves ((name, source) ∷ rest) =
      with_source-Resolves name source rest (resolve_source fs source) (resolve_all fs rest) refl
        (resolve_source-IsSafe fs source) (all-Resolves rest)

  -- A request is prepared unless one of its sources does not resolve, and then the first such source's
  -- exception is raised; a prepared query may use the result cache exactly if every source of the
  -- request declares a version or consists of local files.
  pub prepare-IsPrepared :
      (request : QueryRequest) (normalized_sql : String)
      → IsPrepared request.sources (prepare fs request normalized_sql)
  unfolding prepare prepared_with Resolves IsPrepared is_cache_safe
  prepare-IsPrepared request normalized_sql =
      by_sources (resolve_all fs request.sources) (all-Resolves request.sources)
    where
      by_sources :
          (o : Result (List (String × ResolvedSource)))
          → Resolves request.sources o
          → IsPrepared request.sources (prepared_with fs request normalized_sql o)
      by_sources (ok resolved) h = h
      by_sources (err e) h = h

-- How a source is read: one that is safe to cache through the cache, every other one afresh.
unfoldable pub view_of : String → ResolvedSource → ViewEvent
view_of name r = if r.cache_safe then from_cache name r.fingerprint else read_fresh name

module _ {E Frame : Type 0} (spark : Sessions E Frame)
    (resolved : List (String × ResolvedSource)) where
  -- The views of these sources, the last one first, above what came before.
  with_view : Option ResolvedSource → String → List ViewEvent → List ViewEvent
  with_view none name log = log
  with_view (some r) name log = view_of name r ∷ log

  unfoldable pub planned : List (String × SourceSpec) → List ViewEvent → List ViewEvent
  unfolding with_view
  planned [] log = log
  planned ((name, source) ∷ rest) log = planned rest (with_view (source_of name resolved) name log)

  -- The views of the sources up to some point, which is the end if nothing was raised.
  unfoldable pub Made :
      {A : Type 0}
      → List (String × SourceSpec)
      → List ViewEvent
      → Result A
      → List ViewEvent
      → Type 0
  Made sources before (ok a) after = after ≡ planned sources before
  Made sources before (err e) after =
      (done : List (String × SourceSpec)) × (todo : List (String × SourceSpec)) × (sources
        ≡ done ++ todo)
      × (after ≡ planned done before)

  -- One more source before the others.
  one_more :
      {A : Type 0} (name : String) (source : SourceSpec) (rest : List (String × SourceSpec))
      (before : List ViewEvent) (r : Result A) (after : List ViewEvent)
      → Made rest (with_view (source_of name resolved) name before) r after
      → Made ((name, source) ∷ rest) before r after
  unfolding Made planned
  one_more name source rest before (ok a) after h = h
  one_more name source rest before (err e) after (done, todo, parts, h) =
      ((name, source) ∷ done, todo, ap (λ more. (name, source) ∷ more) parts, h)

  make_view-log :
      (name : String) (source : SourceSpec) (r : ResolvedSource) (s : ViewRun E)
      → (make_view spark name source r s).1.log ≡ view_of name r ∷ s.log
  unfolding make_view load_cached_view read_view noted quiet view_of
  make_view-log name source r s = ground arith

  make_views-Made :
      (sources : List (String × SourceSpec)) (s : ViewRun E)
      → let r = make_views spark sources resolved s in Made sources s.log r.0 r.1.log
  unfolding make_views view_found Made planned with_view
  make_views-Made [] s = refl
  make_views-Made ((name, source) ∷ rest) s =
      by_source (make_views-Made rest) (source_of name resolved) refl
    where
      after_view : Result (Unit {0}) → ViewRun E → Result (Unit {0}) × ViewRun E
      after_view answer u = elim answer [
        | ok a ↦ make_views spark rest resolved u
        | err e ↦ (err e, u)
      ]

      by_answer :
          ((u : ViewRun E)
            → let r = make_views spark rest resolved u in Made rest u.log r.0 r.1.log)
          → (r : ResolvedSource) (answer : Result (Unit {0})) (u : ViewRun E)
          → source_of name resolved ≡ some r
          → u.log ≡ view_of name r ∷ s.log
          → let ended = after_view answer u in
            Made ((name, source) ∷ rest) s.log ended.0 ended.1.log
      by_answer later r (ok a) u same h =
          let ended = make_views spark rest resolved u in
          one_more name source rest s.log ended.0 ended.1.log
            (rw same (subst (λ log. Made rest log ended.0 ended.1.log) h (later u)))
      by_answer later r (err x) u same h = ((name, source) ∷ [], rest, refl, rw same h)

      by_source :
          ((u : ViewRun E)
            → let r = make_views spark rest resolved u in Made rest u.log r.0 r.1.log)
          → (o : Option ResolvedSource) → source_of name resolved ≡ o
          → let r = (view_found spark name source o >>= λ u. make_views spark rest resolved) s in
            Made ((name, source) ∷ rest) s.log r.0 r.1.log
      by_source later none same = ([], (name, source) ∷ rest, refl, refl)
      by_source later (some r) same =
          let answer = make_view spark name source r s in
          by_answer later r answer.0 answer.1 same (make_view-log name source r s)

append-nil : {A : Type 0} (xs : List A) → xs ≡ xs ++ []
append-nil [] = refl
append-nil (x ∷ xs) = ap (λ rest. x ∷ rest) (append-nil xs)

module _ {E Frame : Type 0} (spark : Sessions E Frame) where
  pub frame-Made :
      (p : PreparedQuery) (s : ViewRun E)
      → let r = frame spark p s in Made spark p.sources p.request.sources s.log r.0 r.1.log
  unfolding frame quiet Made planned
  frame-Made p s = by_session (spark.new_session s.env).0 (spark.new_session s.env).1
    where
      sources : List (String × SourceSpec)
      sources = p.request.sources

      queried : Result (Unit {0}) → ViewRun E → Result Frame × ViewRun E
      queried answer u = elim answer [
        | ok a ↦ quiet spark (spark.sql p.normalized_sql) u
        | err e ↦ (err e, u)
      ]

      by_sql :
          (answer : Result Frame) (after : List ViewEvent)
          → after ≡ planned spark p.sources sources s.log
          → Made spark p.sources sources s.log answer after
      by_sql (ok f) after h = h
      by_sql (err e) after h = (sources, [], append-nil sources, h)

      by_views :
          (answer : Result (Unit {0})) (u : ViewRun E)
          → Made spark p.sources sources s.log answer u.log
          → let r = queried answer u in Made spark p.sources sources s.log r.0 r.1.log
      by_views (ok a) u h = by_sql (spark.sql p.normalized_sql u.env).0 u.log h
      by_views (err e) u h = h

      opened : Result (Unit {0}) → ViewRun E → Result Frame × ViewRun E
      opened answer u = elim answer [
        | ok a ↦ (let r = make_views spark sources p.sources u in queried r.0 r.1)
        | err e ↦ (err e, u)
      ]

      by_session :
          (answer : Result (Unit {0})) (e : E)
          → let r = opened answer (record { env = e; log = s.log }) in
            Made spark p.sources sources s.log r.0 r.1.log
      by_session (ok a) e =
          let u : ViewRun E = record { env = e; log = s.log } in
          let r = make_views spark sources p.sources u in
          by_views r.0 r.1 (make_views-Made spark p.sources sources u)
      by_session (err x) e = ([], sources, refl, refl)
