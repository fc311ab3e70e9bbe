-- ===== src/Signals.antt =====
-- `MockActivityStore`, backend/app/services/signals/mock_store.py, and the models of
-- backend/app/models/activity.py: the events of a tenant, their retention, and what a document's
-- popularity shows. A time is a number of microseconds; a lifetime that is not positive is 0.
pub mod Documents
pub mod Guarded
pub mod Safe
pub mod Again
use Prim.Native.Nat.{◌*◌}
use sync_ai_final.Base.{
  ltb, leb, if◌then◌else◌, ◌==◌, nat_eq, list_eq, option_eq, pair_eq, length, drop, filter,
  contains, Text, codes, Dict, values, get, insert, erase, has_key, ℕ, suc, ◌+◌, ◌-◌, Bool, false,
  not, ◌&&◌, ◌||◌, Option, none, some, List, [], ◌∷◌, ◌++◌,
}
use sync_ai_final.Models.{Time}

-- `timedelta(seconds=n)`
unfoldable pub seconds : ℕ → Time
seconds n = n * 1000000

unfoldable pub days : ℕ → ℕ
days n = n * 86400

pub record ActivityEvent : Type 0 where
  pub event_id : Text
  pub actor_principal_id : Text
  pub object_id : Text
  pub event_type : Text
  pub source_system : Text
  pub event_time : Time
  pub session_id : Option Text
  pub context_json : Option Text
  pub privacy_level : Text
  pub ttl_seconds : Option ℕ

pub record ActivityConfig : Type 0 where
  pub tenant_id : Text
  pub privacy_threshold : ℕ
  pub retention_days : ℕ
  pub high_privacy_retention_days : ℕ
  pub enable_per_source_disablement : Bool
  pub disabled_sources : List Text

pub record StoredEvent : Type 0 where
  pub event_id : Text
  pub tenant_id : Text
  pub actor_principal_id : Text
  pub object_id : Text
  pub event_type : Text
  pub source_system : Text
  pub event_time : Time
  pub session_id : Option Text
  pub context_json : Option Text
  pub privacy_level : Text
  pub ttl_seconds : ℕ
  pub ingested_at : Time

-- What `app.core.config.settings` gives the store.
pub record Settings : Type 0 where
  pub privacy_threshold : ℕ
  pub retention_days : ℕ
  pub high_privacy_retention_days : ℕ
  pub popularity_window_days : ℕ

unfoldable pub ttl_for_event : ActivityEvent → ActivityConfig → ℕ
ttl_for_event event config =
    let by_privacy =
      if event.privacy_level == codes "restricted" || event.privacy_level == codes "confidential"
      then days config.high_privacy_retention_days
      else days config.retention_days in
    elim event.ttl_seconds [ none ↦ by_privacy | some ttl ↦ if ltb 0 ttl then ttl else by_privacy ]

-- `now >= ev.ingested_at + timedelta(seconds=ev.ttl_seconds)`
unfoldable pub is_expired : Time → StoredEvent → Bool
is_expired now ev = leb (ev.ingested_at + seconds ev.ttl_seconds) now

module _ (Score : Type 0) where
  pub record DocumentSignalResponse : Type 0 where
    pub document_id : Text
    pub tenant_id : Text
    pub privacy_protected : Bool
    pub popularity_score : Option Score
    pub total_views : Option ℕ
    pub distinct_viewers : Option ℕ
    pub last_viewed : Option Time
    pub updated_at : Time
    pub window_days : ℕ

  -- The response cache has the entries of kind `doc`; the signals of users are left out.
  pub record ActivityStore : Type 0 where
    pub events : Dict Text (Dict Text StoredEvent)
    pub configs : Dict Text ActivityConfig
    pub response_cache : Dict (Text × Text) (Time × DocumentSignalResponse)
    pub lag_samples : List Time
    pub ingest_count : ℕ
    pub dup_count : ℕ

  module _ (settings : Settings) where
    abbrev pub default_config : Text → ActivityConfig
    default_config tenant = record {
      tenant_id = tenant;
      privacy_threshold = settings.privacy_threshold;
      retention_days = settings.retention_days;
      high_privacy_retention_days = settings.high_privacy_retention_days;
      enable_per_source_disablement = false;
      disabled_sources = [];
    }

    -- The events of a tenant, where a tenant that is missing has none.
    abbrev pub events_of : Text → ActivityStore → Dict Text StoredEvent
    events_of tenant s = elim (get tenant s.events) [ none ↦ [] | some es ↦ es ]

    unfoldable pub ensure_tenant : Text → Option ActivityConfig → ActivityStore → ActivityStore
    ensure_tenant tenant config s = record s {
      configs = elim (get tenant s.configs) [
        | none ↦ insert tenant (elim config [ none ↦ default_config tenant | some c ↦ c ]) s.configs
        | some old ↦ elim config [ none ↦ s.configs | some c ↦ insert tenant c s.configs ]
      ];
      events = if has_key tenant s.events then s.events else insert tenant [] s.events;
    }

    -- What the tenant's configuration is once the tenant is ensured.
    abbrev pub config_of : Text → ActivityStore → ActivityConfig
    config_of tenant s = elim (get tenant s.configs) [ none ↦ default_config tenant | some c ↦ c ]

    unfoldable pub get_config : Text → ActivityStore → ActivityConfig × ActivityStore
    get_config tenant s = let s' = ensure_tenant tenant none s in (config_of tenant s', s')

    unfoldable pub invalidate :
        Text
        → Dict (Text × Text) (Time × DocumentSignalResponse)
        → Dict (Text × Text) (Time × DocumentSignalResponse)
    invalidate tenant [] = []
    invalidate tenant ((k, v) ∷ cache) =
        let rest = invalidate tenant cache in if k.0 == tenant then rest else (k, v) ∷ rest

    unfoldable pub set_config : ActivityConfig → ActivityStore → ActivityStore
    set_config config s = record s {
      configs = insert config.tenant_id config s.configs;
      response_cache = invalidate config.tenant_id s.response_cache;
    }

    unfoldable pub cache_get :
        Time → Text → Text → ActivityStore → Option DocumentSignalResponse × ActivityStore
    cache_get now tenant key s = elim (get (tenant, key) s.response_cache) [
      | none ↦ (none, s)
      | some entry ↦
          if ltb entry.0 now
          then (none, record s { response_cache = erase (tenant, key) s.response_cache })
          else (some entry.1, s)
    ]

    unfoldable pub cache_set :
        Time → Text → Text → DocumentSignalResponse → ActivityStore → ActivityStore
    cache_set now tenant key payload s = record s {
      response_cache = insert (tenant, key) (now + seconds 60, payload) s.response_cache;
    }

    -- `self._lag_samples[-2500:]` once there are more than 5000
    unfoldable pub add_sample : Time → List Time → List Time
    add_sample lag samples =
        let appended = samples ++ lag ∷ [] in
        if ltb 5000 (length appended) then drop (length appended - 2500) appended else appended

    pub data Ingested : Type 0 where
      ingested : Ingested
      already_processed : Ingested
      value_error : Ingested

    abbrev pub stored_event : Text → Time → ActivityEvent → ActivityConfig → StoredEvent
    stored_event tenant now event config = record {
      event_id = event.event_id;
      tenant_id = tenant;
      actor_principal_id = event.actor_principal_id;
      object_id = event.object_id;
      event_type = event.event_type;
      source_system = event.source_system;
      event_time = event.event_time;
      session_id = event.session_id;
      context_json = event.context_json;
      privacy_level = event.privacy_level;
      ttl_seconds = ttl_for_event event config;
      ingested_at = now;
    }

    -- What follows the lookup of the configuration.
    unfoldable pub ingest_with :
        Time → Text → ActivityEvent → ActivityConfig × ActivityStore → Ingested × ActivityStore
    ingest_with now tenant event (config, s') =
        if config.enable_per_source_disablement
          && contains config.disabled_sources event.source_system
        then (value_error, s')
        else elim (get event.event_id (events_of tenant s')) [
          | some existing ↦ (already_processed, record s' { dup_count = suc s'.dup_count })
          | none ↦ (
            ingested,
            record s' {
              events =
                  insert tenant
                    (insert event.event_id (stored_event tenant now event config)
                      (events_of tenant s'))
                    s'.events;
              ingest_count = suc s'.ingest_count;
              lag_samples = add_sample (now - event.event_time) s'.lag_samples;
              response_cache = invalidate tenant s'.response_cache;
            },
          )
        ]

    -- `now` is `ingested_at`, or the clock.
    unfoldable pub ingest_event :
        Time → Text → ActivityEvent → ActivityStore → Ingested × ActivityStore
    ingest_event now tenant event s = ingest_with now tenant event (get_config tenant s)

    unfoldable pub active_events : Time → Dict Text StoredEvent → List StoredEvent
    active_events now es = filter (λ (ev : StoredEvent). not (is_expired now ev)) (values es)

    -- The signals of users are left out.
    unfoldable pub recompute_signals : Text → ActivityStore → ActivityStore
    recompute_signals tenant s =
        let s' = ensure_tenant tenant none s in
        record s' { response_cache = invalidate tenant s'.response_cache }

    unfoldable pub clear_tenant : Text → ActivityStore → ActivityStore
    clear_tenant tenant s = record s {
      events = erase tenant s.events;
      configs = erase tenant s.configs;
      response_cache = invalidate tenant s.response_cache;
    }
