-- ===== src/Metadata/History.antt =====
-- The row of a query or job after many updates (src/dalmatian/metadata.py: `update_invocation`).
use mathlib.Core.Option
use dalmatian.Prelude.{
  ℕ, String, ◌≡◌, refl, Option, none, some, List, [], ◌∷◌, ◌==◌, if◌then◌else◌, arith,
}
use dalmatian.Models.{QueryResult}
use dalmatian.Metadata.{
  Invocation, Tables, Codec, find_row, update_invocation, updated_row, is_final, duration, replaced,
  with_result, result_values,
}
use dalmatian.Metadata.Rows.{find_row-update}

pub record Update (T Row : Type 0) : Type 0 where
  pub status : String
  pub result : Option (QueryResult Row)
  pub error : Option String
  pub error_class : Option String
  pub attempts : Option ℕ
  pub now : T

-- The value that the last update gave which gave one; the newest update comes first.
unfoldable pub latest :
    {T Row A : Type 0} → (Update T Row → Option A) → List (Update T Row) → Option A → Option A
latest given [] before = before
latest given (u ∷ us) before =
    let earlier = latest given us before in elim (given u) [ some a ↦ some a | none ↦ earlier ]

unfoldable pub started : {T Row : Type 0} → Update T Row → Option T
started u = if u.status == "running" then some u.now else none

unfoldable pub finished : {T Row : Type 0} → Update T Row → Option T
finished u = if is_final u.status then some u.now else none

module _ {T Row : Type 0} (codec : Codec T Row) where
  unfoldable pub update : Update T Row → Invocation T → Invocation T
  update u r = updated_row codec u.status u.result u.error u.error_class u.attempts u.now r

  unfoldable pub updates : List (Update T Row) → Invocation T → Invocation T
  updates [] r = r
  updates (u ∷ us) r = update u (updates us r)

  unfoldable pub update_all : String → List (Update T Row) → Tables T → Tables T
  update_all id [] t = t
  update_all id (u ∷ us) t =
      update_invocation codec id u.status u.result u.error u.error_class u.attempts u.now
        (update_all id us t)

  -- The time from the start that was known when the last final status came, to that status.
  unfoldable pub lasted : List (Update T Row) → Invocation T → Option ℕ
  lasted [] r = r.duration_ms
  lasted (u ∷ us) r =
      duration codec (is_final u.status) (latest started us r.started_at) u.now (lasted us r)

  -- What updates leave in a row.
  unfoldable pub Left : List (Update T Row) → Invocation T → Invocation T → Type 0
  Left us before r =
      (r.id ≡ before.id)
      × (r.kind ≡ before.kind)
      × (r.error_message ≡ latest (λ u. u.error) us before.error_message)
      × (r.error_class ≡ latest (λ u. u.error_class) us before.error_class)
      × (some r.attempts ≡ latest (λ u. u.attempts) us (some before.attempts))
      × (some r.status ≡ latest (λ u. some u.status) us (some before.status))
      × (r.started_at ≡ latest started us before.started_at)
      × (r.finished_at ≡ latest finished us before.finished_at)
      × (r.duration_ms ≡ lasted us before)

  with_result-kept :
      (result : Option (QueryResult Row)) (r : Invocation T)
      → let r' = with_result codec result r in (r'.id ≡ r.id) × (r'.kind ≡ r.kind)
  unfolding with_result result_values
  with_result-kept none r = (refl, refl)
  with_result-kept (some (QueryResult.inline_result v)) r = (refl, refl)
  with_result-kept (some (QueryResult.stored_result v)) r = (refl, refl)

  updates-Left : (us : List (Update T Row)) (r : Invocation T) → Left us r (updates us r)
  unfolding Left updates update latest lasted updated_row started finished replaced
  updates-Left [] r = (refl, refl, refl, refl, refl, refl, refl, refl, refl)
  updates-Left (u ∷ us) r =
      ground (arith, updates-Left us r, with_result-kept u.result (updates us r))

  update_keeps : (u : Update T Row) (r : Invocation T) → (update u r).id ≡ r.id
  unfolding update updated_row
  update_keeps u r = (with_result-kept u.result r).0

  find-updates :
      (id asked : String) (us : List (Update T Row)) (t : Tables T)
      → find_row asked (update_all id us t).invocations ≡ (
          if id == asked
          then Option.map (updates us) (find_row asked t.invocations)
          else find_row asked t.invocations)
  unfolding update_all updates update update_invocation
  find-updates id asked [] t = ground arith
  find-updates id asked (u ∷ us) t = ground (
    arith,
    find-updates id asked us t,
    find_row-update id asked (update u) (update_all id us t).invocations (update_keeps u),
  )

  -- After any updates of one key the row of that key, if there is one, carries the last status, error,
  -- class of error and number of attempts that an update gave (so an error outlives a later success),
  -- the times of the last start and the last end, and how long the last end came after the start known
  -- then; the rows of other keys are as they were.
  pub update_all-Left :
      (id asked : String) (us : List (Update T Row)) (t : Tables T)
      → (find_row asked (update_all id us t).invocations ≡ (
          if id == asked
          then Option.map (updates us) (find_row asked t.invocations)
          else find_row asked t.invocations))
        × ((r : Invocation T) → Left us r (updates us r))
  update_all-Left id asked us t = (find-updates id asked us t, updates-Left us)
