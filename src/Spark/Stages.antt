-- ===== src/Spark/Stages.antt =====
-- How far the storing of an output came (src/dalmatian/spark.py).
use dalmatian.Prelude.{◌≡◌, String, Bool, true, List, [], ◌∷◌}
use dalmatian.Models.{StoredResult}
use dalmatian.Errors.{Raised, Result, ok, err}
use dalmatian.Effects.{Action, ◌>>=◌}
use dalmatian.Jobs.Scripts.Lease.{Published, published}
use dalmatian.Spark.Store.{
  StoreEvent, wrote_data, wrote_manifest, asked, offered, StoreRun, perform,
}

-- How far a store came: nothing was written; the data; the question whether the lease still holds, with
-- its answer; the manifest; the offer to the registry, with its answer.
pub data Stage : Type 0 where
  nothing data_written manifest_written : Stage
  lease_asked : Result Bool → Stage
  output_offered : Result Published → Stage

module _ (key manifest output : String) where
  unfoldable pub stage_log : Stage → List StoreEvent
  stage_log nothing = []
  stage_log data_written = wrote_data output ∷ []
  stage_log (lease_asked answer) = asked answer ∷ wrote_data output ∷ []
  stage_log manifest_written = wrote_manifest manifest ∷ asked (ok true) ∷ wrote_data output ∷ []
  stage_log (output_offered answer) =
      offered key manifest answer
      ∷ wrote_manifest manifest
      ∷ asked (ok true)
      ∷ wrote_data output
      ∷ []

  -- A result belongs to an accepted offer of its own manifest and data, an exception to all else.
  unfoldable pub Concludes : Stage → Result StoredResult → Type 0
  Concludes (output_offered (ok published)) (ok result) =
      (result.manifest_uri ≡ manifest) × (result.data_uri ≡ output)
  Concludes (output_offered (ok published)) (err e) = ⊥
  Concludes (output_offered _) (ok result) = ⊥
  Concludes (output_offered _) (err e) = Unit
  Concludes nothing (ok result) = ⊥
  Concludes nothing (err e) = Unit
  Concludes data_written (ok result) = ⊥
  Concludes data_written (err e) = Unit
  Concludes manifest_written (ok result) = ⊥
  Concludes manifest_written (err e) = Unit
  Concludes (lease_asked answer) (ok result) = ⊥
  Concludes (lease_asked answer) (err e) = Unit

-- The log is that of some stage, which the result belongs to.
unfoldable pub Staged : List StoreEvent → Result StoredResult → Type 0
Staged log r =
    (key : String) × (manifest : String) × (output : String) × (stage : Stage) × (log
      ≡ stage_log key manifest output stage)
    × Concludes key manifest output stage r

-- What holds of the rest after every value, and of an exception, holds of a call and the rest.
pub perform_rule :
    {E A B : Type 0} (Q : Result B × StoreRun E → Type 0) (event : Result A → StoreEvent)
    (m : Action E A) (f : A → Action (StoreRun E) B) (s : StoreRun E)
    → ((a : A) (e : E) → Q (f a (record { env = e; log = event (ok a) ∷ s.log })))
    → ((x : Raised) (e : E) → Q (err x, record { env = e; log = event (err x) ∷ s.log }))
    → Q ((perform event m >>= f) s)
perform_rule {E} {A} {B} Q event m f s answered failed = by_reply (m s.env).0 (m s.env).1
  where
    by_reply :
        (o : Result A) (e : E)
        → let u : StoreRun E = record { env = e; log = event o ∷ s.log } in
          Q (elim o as (λ x. Result B × StoreRun E) [ ok a ↦ f a u | err x ↦ (err x, u) ])
    by_reply (ok a) e = answered a e
    by_reply (err x) e = failed x e
