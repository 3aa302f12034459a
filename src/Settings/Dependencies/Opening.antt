-- ===== src/Settings/Dependencies/Opening.antt =====
-- What the components of a process hold open (src/dalmatian/dependencies.py).
use dalmatian.Prelude.{
  ℕ, ◌+◌, ◌≡◌, refl, ap, ◌∙◌, Bool, true, false, Option, none, if◌then◌else◌, arith,
}
use dalmatian.Errors.{Raised, Result, ok, err}
use dalmatian.Effects.{Action, ◌>>◌}
use dalmatian.Settings.Dependencies.{
  Container, Part, Refusals, perform, unless, get_metadata_store, get_output_publication_registry,
  make_storage, make_metadata, make_publications, with_metadata, with_publications, with_engine,
  with_cache, with_queue, get_storage_registry, make_engine, make_cache, keep_service,
  get_query_service, make_queue, get_job_queue,
}

abbrev pub unit : Bool → ℕ
unit held = if held then 1 else 0

-- What is open is what the caches hold, the publication registry's client with the storage registry.
pub record IsHeld (s : Container) : Type 0 where
  pub metadata : s.opened.metadata ≡ s.closed.metadata + unit s.metadata_store
  pub publications : s.opened.publications ≡ s.closed.publications + unit s.publication_registry
  pub together : s.publication_registry ≡ s.storage_registry
  pub engine : s.opened.engine ≡ s.closed.engine + unit s.query_service
  pub cache : s.opened.cache ≡ s.closed.cache + unit s.query_service
  pub queue : s.opened.queue ≡ s.closed.queue + unit s.job_queue

-- What each function does where nothing raises.
plain_metadata : Container → Container
plain_metadata s = if s.metadata_store then s else with_metadata s

plain_publications : Container → Container
plain_publications s = if s.publication_registry then s else with_publications s

pub plain_storage : Container → Container
plain_storage s =
    if s.storage_registry
    then s
    else record (plain_publications (plain_metadata s)) { storage_registry = true }

pub plain_service : Container → Container
plain_service s =
    if s.query_service
    then s
    else record (plain_metadata (with_cache (with_engine (plain_storage s)))) {
      query_service = true;
    }

pub plain_queue : Container → Container
plain_queue s = if s.job_queue then s else with_queue (plain_metadata s)

abbrev pub returned : Container → Result (Unit {0}) × Container
returned s = (ok tt, s)

pub if_returned :
    (b : Bool) (s t : Container)
    → (if b then returned s else returned t) ≡ returned (if b then s else t)
if_returned true s t = refl
if_returned false s t = refl

pub perform-returned :
    (o : Option Raised) (f : Container → Container) (s : Container)
    → o ≡ none
    → perform o f s ≡ returned (f s)
unfolding perform
perform-returned o f s h = rw h refl

pub then_both :
    (m k : Action Container (Unit {0})) (s t u : Container)
    → m s ≡ returned t
    → k t ≡ returned u
    → (m >> k) s ≡ returned u
then_both m k s t u h g = ap (λ x. elim x.0 [ ok a ↦ k x.1 | err e ↦ (err e, x.1) ]) h ∙ g

unless-returned :
    (r : Refusals) (held : Container → Bool) (m : Action Container (Unit {0})) (s t : Container)
    → m s ≡ returned t
    → unless r held m s ≡ returned (if held s then s else t)
unfolding unless
unless-returned r held m s t h =
    ap (λ x. if held s then returned s else x) h ∙ if_returned (held s) s t

module _ (r : Refusals) (opens : (part : Part) (s : Container) → r.of_open part s ≡ none) where
  metadata_plain : (s : Container) → get_metadata_store r s ≡ returned (plain_metadata s)
  unfolding get_metadata_store make_metadata plain_metadata
  metadata_plain s =
      unless-returned r (λ s. s.metadata_store) (make_metadata r) s (with_metadata s)
        (perform-returned (r.of_open Part.metadata s) with_metadata s (opens Part.metadata s))

  publications_plain :
      (s : Container) → get_output_publication_registry r s ≡ returned (plain_publications s)
  unfolding get_output_publication_registry make_publications plain_publications
  publications_plain s =
      unless-returned r (λ s. s.publication_registry) (make_publications r) s (with_publications s)
        (perform-returned (r.of_open Part.publications s) with_publications s
          (opens Part.publications s))

  pub storage_plain : (s : Container) → get_storage_registry r s ≡ returned (plain_storage s)
  unfolding get_storage_registry make_storage plain_storage
  storage_plain s =
      let m = get_metadata_store r in
      let p = get_output_publication_registry r in
      let s1 = plain_metadata s in
      let s2 = plain_publications s1 in
      unless-returned r (λ s. s.storage_registry) ((m >> p) >> make_storage r) s
        (record s2 { storage_registry = true })
        (then_both (m >> p) (make_storage r) s s2 (record s2 { storage_registry = true })
          (then_both m p s s1 s2 (metadata_plain s) (publications_plain s1))
          (perform-returned (r.of_open Part.storage s2) (λ c. record c { storage_registry = true })
            s2 (opens Part.storage s2)))

  pub service_plain : (s : Container) → get_query_service r s ≡ returned (plain_service s)
  unfolding get_query_service make_engine make_cache keep_service plain_service
  service_plain s =
      let g = get_storage_registry r in
      let s1 = plain_storage s in
      let s2 = with_engine s1 in
      let s3 = with_cache s2 in
      let s4 = plain_metadata s3 in
      let m3 = (g >> make_engine r) >> make_cache r in
      unless-returned r (λ s. s.query_service) ((m3 >> get_metadata_store r) >> keep_service r) s
        (record s4 { query_service = true })
        (then_both (m3 >> get_metadata_store r) (keep_service r) s s4
          (record s4 { query_service = true })
          (then_both m3 (get_metadata_store r) s s3 s4
            (then_both (g >> make_engine r) (make_cache r) s s2 s3
              (then_both g (make_engine r) s s1 s2 (storage_plain s)
                (perform-returned (r.of_open Part.engine s1) with_engine s1 (opens Part.engine s1)))
              (perform-returned (r.of_open Part.cache s2) with_cache s2 (opens Part.cache s2)))
            (metadata_plain s3))
          refl)

  pub queue_plain : (s : Container) → get_job_queue r s ≡ returned (plain_queue s)
  unfolding get_job_queue make_queue plain_queue
  queue_plain s =
      let s1 = plain_metadata s in
      unless-returned r (λ s. s.job_queue) (get_metadata_store r >> make_queue r) s (with_queue s1)
        (then_both (get_metadata_store r) (make_queue r) s s1 (with_queue s1) (metadata_plain s)
          (perform-returned (r.of_open Part.queue s1) with_queue s1 (opens Part.queue s1)))

pub plain_storage-IsHeld : (s : Container) → IsHeld s → IsHeld (plain_storage s)
unfolding plain_storage plain_publications plain_metadata with_publications with_metadata
plain_storage-IsHeld s h = ground arith

plain_storage_aside : (s : Container) → (plain_storage s).query_service ≡ s.query_service
unfolding plain_storage plain_publications plain_metadata with_publications with_metadata
plain_storage_aside s = ground arith

pub plain_service-IsHeld : (s : Container) → IsHeld s → IsHeld (plain_service s)
unfolding plain_service plain_metadata with_cache with_engine with_metadata
plain_service-IsHeld s h = ground (arith, plain_storage-IsHeld s h, plain_storage_aside s)

pub plain_queue-IsHeld : (s : Container) → IsHeld s → IsHeld (plain_queue s)
unfolding plain_queue plain_metadata with_queue with_metadata
plain_queue-IsHeld s h = ground arith
