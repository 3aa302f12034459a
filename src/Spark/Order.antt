-- ===== src/Spark/Order.antt =====
-- The order in which a stored output is written and published (src/dalmatian/spark.py).
use dalmatian.Prelude.{
  ◌≡◌, refl, ap, String, Bool, true, false, Option, none, some, [], ◌∷◌, inl, inr, Bool-cases,
}
use dalmatian.Models.{StoredResult, write_mode_value}
use dalmatian.Errors.{Raised, Result, ok, err}
use dalmatian.Effects.{◌>>=◌}
use dalmatian.Execution.{ExecutionContext}
use dalmatian.Datasets.Prepared.{PreparedQuery}
use dalmatian.Storage.Locations.{ResolvedDestination}
use dalmatian.Jobs.Scripts.Lease.{Published, fenced, taken, published}
use dalmatian.Spark.Store.{
  StoreCalls, wrote_data, wrote_manifest, asked, offered, StoreRun, stored_as, conclude, offer,
  publish_by, publish_result, commit, ask_lease, write_frame, store_at, store, quietly, is_json,
}
use dalmatian.Spark.Stages.{
  nothing, data_written, manifest_written, lease_asked, output_offered, stage_log, Concludes,
  Staged, perform_rule,
}

module _ {E Frame : Type 0} (calls : StoreCalls E Frame) where
  abbrev Ends : Result StoredResult × StoreRun E → Type 0
  Ends r = Staged r.1.log r.0

  module _ (logical : ResolvedDestination) (result : StoredResult) (s : StoreRun E) where
    -- The answers of the registry.
    conclude-Staged :
        (reply : Published)
        → s.log
          ≡ stage_log
              (calls.publication_key logical)
              result.manifest_uri
              result.data_uri
              (output_offered (ok reply))
        → Ends (conclude calls logical result reply s)
    unfolding conclude Staged Concludes
    conclude-Staged published h = (
      calls.publication_key logical,
      result.manifest_uri,
      result.data_uri,
      output_offered (ok published),
      h,
      (refl, refl),
    )
    conclude-Staged taken h = (
      calls.publication_key logical,
      result.manifest_uri,
      result.data_uri,
      output_offered (ok taken),
      h,
      tt,
    )
    conclude-Staged fenced h = (
      calls.publication_key logical,
      result.manifest_uri,
      result.data_uri,
      output_offered (ok fenced),
      h,
      tt,
    )

  module _ (query : PreparedQuery) (context : ExecutionContext E) (logical : ResolvedDestination)
      (result : StoredResult) (s : StoreRun E) where
    offer-Staged :
        s.log
          ≡ wrote_manifest result.manifest_uri ∷ asked (ok true) ∷ wrote_data result.data_uri ∷ []
        → Ends (offer calls query context logical result s)
    unfolding offer Staged stage_log Concludes
    offer-Staged h =
        let key = calls.publication_key logical in
        perform_rule Ends (offered key result.manifest_uri)
          (publish_by calls context.publish_output logical context result.manifest_uri
            (write_mode_value query.request.output.write_mode))
          (conclude calls logical result) s
          (λ reply e.
            conclude-Staged logical result
              (record { env = e; log = offered key result.manifest_uri (ok reply) ∷ s.log }) reply
              (ap (λ log. offered key result.manifest_uri (ok reply) ∷ log) h))
          (λ x e. (
            key,
            result.manifest_uri,
            result.data_uri,
            output_offered (err x),
            ap (λ log. offered key result.manifest_uri (err x) ∷ log) h,
            tt,
          ))

  module _ (query : PreparedQuery) (context : ExecutionContext E) (logical : ResolvedDestination)
      (result : StoredResult) (s : StoreRun E) where
    publish_result-Staged :
        s.log ≡ asked (ok true) ∷ wrote_data result.data_uri ∷ []
        → Ends (publish_result calls query context logical result s)
    unfolding publish_result Staged stage_log Concludes
    publish_result-Staged h =
        let event = wrote_manifest result.manifest_uri in
        perform_rule Ends (λ r. event)
          (calls.write_manifest result.manifest_uri
            (calls.manifest_payload result context.attempt_id context.attempt_number))
          (λ done. offer calls query context logical result) s
          (λ done e.
            offer-Staged query context logical result (record { env = e; log = event ∷ s.log })
              (ap (λ log. event ∷ log) h))
          (λ x e. (
            calls.publication_key logical,
            result.manifest_uri,
            result.data_uri,
            manifest_written,
            ap (λ log. event ∷ log) h,
            tt,
          ))

    -- The lease is asked for with the data written.
    commit-Staged :
        (can_commit : Bool)
        → s.log ≡ asked (ok can_commit) ∷ wrote_data result.data_uri ∷ []
        → Ends (commit calls query context logical result can_commit s)
    unfolding commit Staged stage_log Concludes
    commit-Staged true h = publish_result-Staged h
    commit-Staged false h = (
      calls.publication_key logical,
      result.manifest_uri,
      result.data_uri,
      lease_asked (ok false),
      h,
      tt,
    )

  module _ (query : PreparedQuery) (context : ExecutionContext E) (logical : ResolvedDestination)
      (result : StoredResult) (s : StoreRun E) where
    ask_lease-Staged :
        s.log ≡ wrote_data result.data_uri ∷ []
        → Ends (ask_lease calls query context logical result s)
    unfolding ask_lease Staged stage_log Concludes
    ask_lease-Staged h =
        perform_rule Ends asked context.can_commit (commit calls query context logical result) s
          (λ answer e.
            commit-Staged query context logical result
              (record { env = e; log = asked (ok answer) ∷ s.log }) answer
              (ap (λ log. asked (ok answer) ∷ log) h))
          (λ x e. (
            calls.publication_key logical,
            result.manifest_uri,
            result.data_uri,
            lease_asked (err x),
            ap (λ log. asked (err x) ∷ log) h,
            tt,
          ))

  write_frame-Staged :
      (query : PreparedQuery) (context : ExecutionContext E) (logical : ResolvedDestination)
      (frame : Frame) (s : StoreRun E)
      → s.log ≡ []
      → Ends (write_frame calls query context logical frame s)
  unfolding write_frame Staged stage_log Concludes
  write_frame-Staged query context logical frame s h =
      let result = stored_as calls query context logical frame in
      let event = wrote_data result.data_uri in
      perform_rule Ends (λ r. event)
        (calls.write_data query.request.output.format frame query.request.output.options
          result.data_uri)
        (λ done. ask_lease calls query context logical result) s
        (λ done e.
          ask_lease-Staged query context logical result (record { env = e; log = event ∷ s.log })
            (ap (λ log. event ∷ log) h))
        (λ x e. (
          calls.publication_key logical,
          result.manifest_uri,
          result.data_uri,
          data_written,
          ap (λ log. event ∷ log) h,
          tt,
        ))

  -- An exception before anything is written.
  unwritten : (x : Raised) (s : StoreRun E) → s.log ≡ [] → Ends (err x, s)
  unfolding Staged stage_log Concludes
  unwritten x s h = ("", "", "", nothing, h, tt)

  framed-Staged :
      (query : PreparedQuery) (context : ExecutionContext E) (logical : ResolvedDestination)
      (s : StoreRun E)
      → s.log ≡ []
      → Ends ((quietly (calls.frame query) >>= write_frame calls query context logical) s)
  framed-Staged query context logical s h =
      by_frame (calls.frame query s.env).0 (calls.frame query s.env).1
    where
      by_frame :
          (o : Result Frame) (e : E)
          → let u : StoreRun E = record { env = e; log = s.log } in
            Ends (elim o as (λ x. Result StoredResult × StoreRun E) [
              | ok frame ↦ write_frame calls query context logical frame u
              | err x ↦ (err x, u)
            ])
      by_frame (ok frame) e =
          write_frame-Staged query context logical frame (record { env = e; log = s.log }) h
      by_frame (err x) e = unwritten x (record { env = e; log = s.log }) h

  store_at-Staged :
      (query : PreparedQuery) (context : ExecutionContext E) (location path : Option String)
      (s : StoreRun E)
      → s.log ≡ []
      → Ends (store_at calls query context location path s)
  unfolding store_at
  store_at-Staged query context none path s h = unwritten _ s h
  store_at-Staged query context (some location) none s h = unwritten _ s h
  store_at-Staged query context (some location) (some path) s h =
      elim (Bool-cases (is_json query.request.output.format)) [
        | inl e ↦ rw e (unwritten _ s h)
        | inr e ↦
            rw e
              (by_place (calls.resolve location path s.env).0 (calls.resolve location path s.env).1)
      ]
    where
      by_place :
          (o : Result ResolvedDestination) (e : E)
          → let u : StoreRun E = record { env = e; log = s.log } in
            Ends (elim o as (λ x. Result StoredResult × StoreRun E) [
              | ok logical ↦
                  (quietly (calls.frame query) >>= write_frame calls query context logical) u
              | err x ↦ (err x, u)
            ])
      by_place (ok logical) e =
          framed-Staged query context logical (record { env = e; log = s.log }) h
      by_place (err x) e = unwritten x (record { env = e; log = s.log }) h

  -- In every environment a store writes the data first, then asks whether the lease still holds, writes
  -- the manifest only if it does, and offers that manifest to the registry last; it stops at the first
  -- of these that fails, and it has a result exactly if the registry accepted the offer, with the data
  -- and the manifest that were written.
  pub store-Staged :
      (query : PreparedQuery) (context : ExecutionContext E) (s : StoreRun E)
      → s.log ≡ []
      → let r = store calls query context s in Staged r.1.log r.0
  unfolding store
  store-Staged query context s h =
      store_at-Staged query context query.request.output.location query.request.output.path s h
