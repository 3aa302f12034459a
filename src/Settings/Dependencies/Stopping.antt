-- ===== src/Settings/Dependencies/Stopping.antt =====
-- The steps of `shutdown_dependencies` where no close raises (src/dalmatian/dependencies.py).
use dalmatian.Prelude.{◌+◌, ◌≡◌, refl, ap, ◌∙◌, Bool, false, none, if◌then◌else◌}
use dalmatian.Effects.{Action, ◌>>◌}
use dalmatian.Settings.Dependencies.{Connections, Container, Part, Refusals}
use dalmatian.Settings.Dependencies.{
  close_part, when, close_engine, close_cache, clear_service, close_queue, clear_queue,
  close_storage, clear_storage, clear_publications, close_metadata, clear_metadata,
  shutdown_dependencies,
}
use dalmatian.Settings.Dependencies.Opening.{returned, if_returned, perform-returned, then_both}

when-returned :
    (r : Refusals) (held : Container → Bool) (m : Action Container (Unit {0})) (s t : Container)
    → m s ≡ returned t
    → when r held m s ≡ returned (if held s then t else s)
unfolding when
when-returned r held m s t h =
    ap (λ x. if held s then x else returned s) h ∙ if_returned (held s) t s

-- What each part of the shutdown does where nothing raises.
unfoldable pub without_service : Container → Container
without_service s = record s {
  query_service = false;
  closed = record s.closed { engine = s.closed.engine + 1; cache = s.closed.cache + 1 };
}

unfoldable pub without_queue : Container → Container
without_queue s = record s {
  job_queue = false;
  closed = record s.closed { queue = s.closed.queue + 1 };
}

unfoldable pub without_storage : Container → Container
without_storage s = record s {
  storage_registry = false;
  closed = record s.closed { publications = s.closed.publications + 1 };
}

unfoldable pub without_metadata : Container → Container
without_metadata s = record s {
  metadata_store = false;
  closed = record s.closed { metadata = s.closed.metadata + 1 };
}

unfoldable pub stopped_service : Container → Container
stopped_service s = if s.query_service then without_service s else s

unfoldable pub stopped_queue : Container → Container
stopped_queue s = if s.job_queue then without_queue s else s

unfoldable pub freed_storage : Container → Container
freed_storage s = if s.storage_registry then without_storage s else s

unfoldable pub stopped_storage : Container → Container
unfolding freed_storage
stopped_storage s = record (freed_storage s) { publication_registry = false }

unfoldable pub stopped_metadata : Container → Container
stopped_metadata s = if s.metadata_store then without_metadata s else s

module _ (r : Refusals) (closes : (part : Part) (s : Container) → r.of_close part s ≡ none) where
  close_part_plain :
      (part : Part) (count : Connections → Connections) (s : Container)
      → close_part r part count s ≡ returned (record s { closed = count s.closed })
  unfolding close_part
  close_part_plain part count s =
      perform-returned (r.of_close part s) (λ c. record c { closed = count c.closed }) s
        (closes part s)

  service_stops :
      (s : Container)
      → when r (λ s. s.query_service) ((close_engine r >> close_cache r) >> clear_service r) s
        ≡ returned (stopped_service s)
  unfolding close_engine close_cache clear_service stopped_service without_service
  service_stops s =
      let s1 = record s { closed = record s.closed { engine = s.closed.engine + 1 } } in
      let s2 = record s1 { closed = record s1.closed { cache = s1.closed.cache + 1 } } in
      when-returned r (λ s. s.query_service) ((close_engine r >> close_cache r) >> clear_service r)
        s (without_service s)
        (then_both (close_engine r >> close_cache r) (clear_service r) s s2 (without_service s)
          (then_both (close_engine r) (close_cache r) s s1 s2
            (close_part_plain Part.engine (λ n. record n { engine = n.engine + 1 }) s)
            (close_part_plain Part.cache (λ n. record n { cache = n.cache + 1 }) s1))
          refl)

  queue_stops :
      (s : Container)
      → when r (λ s. s.job_queue) (close_queue r >> clear_queue r) s ≡ returned (stopped_queue s)
  unfolding close_queue clear_queue stopped_queue without_queue
  queue_stops s =
      let s1 = record s { closed = record s.closed { queue = s.closed.queue + 1 } } in
      when-returned r (λ s. s.job_queue) (close_queue r >> clear_queue r) s (without_queue s)
        (then_both (close_queue r) (clear_queue r) s s1 (without_queue s)
          (close_part_plain Part.queue (λ n. record n { queue = n.queue + 1 }) s) refl)

  storage_stops :
      (s : Container)
      → when r (λ s. s.storage_registry) (close_storage r >> clear_storage r) s
        ≡ returned (freed_storage s)
  unfolding close_storage clear_storage freed_storage without_storage
  storage_stops s =
      let s1 = record s { closed = record s.closed { publications = s.closed.publications + 1 } } in
      when-returned r (λ s. s.storage_registry) (close_storage r >> clear_storage r) s
        (without_storage s)
        (then_both (close_storage r) (clear_storage r) s s1 (without_storage s)
          (close_part_plain Part.publications (λ n. record n { publications = n.publications + 1 })
            s)
          refl)

  publications_forgotten :
      (s : Container) → clear_publications r (freed_storage s) ≡ returned (stopped_storage s)
  unfolding clear_publications stopped_storage
  publications_forgotten s = refl

  metadata_stops :
      (s : Container)
      → when r (λ s. s.metadata_store) (close_metadata r >> clear_metadata r) s
        ≡ returned (stopped_metadata s)
  unfolding close_metadata clear_metadata stopped_metadata without_metadata
  metadata_stops s =
      let s1 = record s { closed = record s.closed { metadata = s.closed.metadata + 1 } } in
      when-returned r (λ s. s.metadata_store) (close_metadata r >> clear_metadata r) s
        (without_metadata s)
        (then_both (close_metadata r) (clear_metadata r) s s1 (without_metadata s)
          (close_part_plain Part.metadata (λ n. record n { metadata = n.metadata + 1 }) s) refl)

pub shutdown_plain :
    (r : Refusals)
    → ((part : Part) (s : Container) → r.of_close part s ≡ none)
    → (s : Container)
    → shutdown_dependencies r s
      ≡ returned (stopped_metadata (stopped_storage (stopped_queue (stopped_service s))))
unfolding shutdown_dependencies
shutdown_plain r closes s =
    let service =
      when r (λ s. s.query_service) ((close_engine r >> close_cache r) >> clear_service r) in
    let queue = when r (λ s. s.job_queue) (close_queue r >> clear_queue r) in
    let storage = when r (λ s. s.storage_registry) (close_storage r >> clear_storage r) in
    let metadata = when r (λ s. s.metadata_store) (close_metadata r >> clear_metadata r) in
    let s1 = stopped_service s in
    let s2 = stopped_queue s1 in
    let s3 = freed_storage s2 in
    let s4 = stopped_storage s2 in
    then_both (((service >> queue) >> storage) >> clear_publications r) metadata s s4
      (stopped_metadata s4)
      (then_both ((service >> queue) >> storage) (clear_publications r) s s3 s4
        (then_both (service >> queue) storage s s2 s3
          (then_both service queue s s1 s2 (service_stops r closes s) (queue_stops r closes s1))
          (storage_stops r closes s2))
        (publications_forgotten r closes s2))
      (metadata_stops r closes s4)
