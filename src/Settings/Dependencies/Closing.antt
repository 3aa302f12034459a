-- ===== src/Settings/Dependencies/Closing.antt =====
-- What `shutdown_dependencies` closes (src/dalmatian/dependencies.py).
use dalmatian.Prelude.{◌≡◌, refl, subst, sym, false, none, List, [], ◌∷◌, arith}
use dalmatian.Settings.Dependencies.{
  Container, Part, Refusals, get_storage_registry, get_query_service, get_job_queue,
}
use dalmatian.Settings.Dependencies.{
  shutdown_dependencies, Asked, for_storage, for_service, for_queue, ask, ask_all, nothing_made,
}
use dalmatian.Settings.Dependencies.Opening.{
  IsHeld, storage_plain, service_plain, queue_plain, plain_storage-IsHeld, plain_service-IsHeld,
  plain_queue-IsHeld,
}
use dalmatian.Settings.Dependencies.Stopping.{
  stopped_service, stopped_queue, stopped_storage, stopped_metadata, without_service, without_queue,
  without_storage, without_metadata, shutdown_plain,
}

-- Nothing is kept, and what was opened was closed, each as often.
pub record IsShut (s : Container) : Type 0 where
  pub no_metadata : s.metadata_store ≡ false
  pub no_publications : s.publication_registry ≡ false
  pub no_storage : s.storage_registry ≡ false
  pub no_service : s.query_service ≡ false
  pub no_queue : s.job_queue ≡ false
  pub metadata : s.opened.metadata ≡ s.closed.metadata
  pub publications : s.opened.publications ≡ s.closed.publications
  pub engine : s.opened.engine ≡ s.closed.engine
  pub cache : s.opened.cache ≡ s.closed.cache
  pub queue : s.opened.queue ≡ s.closed.queue

stopped_service-IsHeld :
    (s : Container)
    → IsHeld s
    → IsHeld (stopped_service s) × ((stopped_service s).query_service ≡ false)
unfolding stopped_service without_service
stopped_service-IsHeld s h = ground arith

stopped_queue-IsHeld :
    (s : Container)
    → IsHeld s × (s.query_service ≡ false)
    → let s' = stopped_queue s in IsHeld s' × (s'.query_service ≡ false) × (s'.job_queue ≡ false)
unfolding stopped_queue without_queue
stopped_queue-IsHeld s h = ground arith

stopped_storage-IsHeld :
    (s : Container)
    → IsHeld s × (s.query_service ≡ false) × (s.job_queue ≡ false)
    → let s' = stopped_storage s in
      IsHeld s'
      × (s'.query_service ≡ false)
      × (s'.job_queue ≡ false)
      × (s'.storage_registry ≡ false)
unfolding stopped_storage without_storage
stopped_storage-IsHeld s h = ground arith

stopped_metadata-IsShut :
    (s : Container)
    → IsHeld s × (s.query_service ≡ false) × (s.job_queue ≡ false) × (s.storage_registry ≡ false)
    → IsShut (stopped_metadata s)
unfolding stopped_metadata without_metadata
stopped_metadata-IsShut s h = ground arith

ask_all-IsHeld :
    (r : Refusals)
    → ((part : Part) (s : Container) → r.of_open part s ≡ none)
    → (asked : List Asked) (s : Container) → IsHeld s
    → IsHeld (ask_all r asked s)
unfolding ask_all ask
ask_all-IsHeld r opens [] s h = h
ask_all-IsHeld r opens (for_storage ∷ more) s h =
    ask_all-IsHeld r opens more (get_storage_registry r s).1
      (subst (λ x. IsHeld x.1) (sym (storage_plain r opens s)) (plain_storage-IsHeld s h))
ask_all-IsHeld r opens (for_service ∷ more) s h =
    ask_all-IsHeld r opens more (get_query_service r s).1
      (subst (λ x. IsHeld x.1) (sym (service_plain r opens s)) (plain_service-IsHeld s h))
ask_all-IsHeld r opens (for_queue ∷ more) s h =
    ask_all-IsHeld r opens more (get_job_queue r s).1
      (subst (λ x. IsHeld x.1) (sym (queue_plain r opens s)) (plain_queue-IsHeld s h))

start-IsHeld : IsHeld nothing_made
start-IsHeld = record {
  metadata = refl;
  publications = refl;
  together = refl;
  engine = refl;
  cache = refl;
  queue = refl;
}

-- Where no constructor and no close raises: whatever a process asked for, in whatever order and how often,
-- the shutdown ends with nothing kept, and every connection that was opened has been closed once.
pub shutdown_dependencies-IsShut :
    (r : Refusals) (asked : List Asked)
    → ((part : Part) (s : Container) → r.of_open part s ≡ none)
    → ((part : Part) (s : Container) → r.of_close part s ≡ none)
    → IsShut (shutdown_dependencies r (ask_all r asked nothing_made)).1
shutdown_dependencies-IsShut r asked opens closes =
    let s = ask_all r asked nothing_made in
    let held = ask_all-IsHeld r opens asked nothing_made start-IsHeld in
    let s1 = stopped_service s in
    let s2 = stopped_queue s1 in
    subst (λ x. IsShut x.1) (sym (shutdown_plain r closes s))
      (stopped_metadata-IsShut (stopped_storage s2)
        (stopped_storage-IsHeld s2 (stopped_queue-IsHeld s1 (stopped_service-IsHeld s held))))
