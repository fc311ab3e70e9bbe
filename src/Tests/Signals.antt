-- ===== src/Tests/Signals.antt =====
-- A tenant with one view of a document.
use sync_ai_final.Base.{
  nat_eq, list_eq, option_eq, pair_eq, Text, codes, get, ℕ, ◌+◌, ◌≤◌, ◌≡◌, refl, true, false, none,
  some, List, [], ◌∷◌,
}
use sync_ai_final.Models.{Time}
use sync_ai_final.Signals.{ActivityEvent, ActivityConfig, Settings, is_expired, ActivityStore}
use sync_ai_final.Signals.Documents.{document_stats, purge_expired, get_document_signals}
use sync_ai_final.Signals.Documents.Kept.{count_events, any_event, purge_expired_lem}
use sync_ai_final.Signals.Safe.{
  is_guarded, threshold_of, Call, ensured, ingesting, asked_document, calls, empty_store,
  get_document_signals-calls,
}

abbrev usual : Settings
usual = record {
  privacy_threshold = 2;
  retention_days = 90;
  high_privacy_retention_days = 30;
  popularity_window_days = 30;
}

abbrev viewed : ActivityEvent
viewed = record {
  event_id = codes "e";
  actor_principal_id = codes "p";
  object_id = codes "d";
  event_type = codes "view";
  source_system = codes "drive";
  event_time = 10;
  session_id = none;
  context_json = none;
  privacy_level = codes "public";
  ttl_seconds = some 1;
}

-- A configuration with a lower threshold than the usual one.
abbrev quiet : ActivityConfig
quiet = record {
  tenant_id = codes "t";
  privacy_threshold = 1;
  retention_days = 90;
  high_privacy_retention_days = 30;
  enable_per_source_disablement = false;
  disabled_sources = [];
}

abbrev some_calls : List (Call ℕ usual (λ n. n))
some_calls =
    ensured (codes "t") (some quiet)
    ∷ ingesting 20 (codes "t") viewed
    ∷ asked_document 30 (codes "t") (codes "d")
    ∷ []

abbrev some_store : ActivityStore ℕ
some_store = calls ℕ usual (λ n. n) some_calls (empty_store ℕ usual (λ n. n))

get_document_signals-calls_example :
    is_guarded ℕ
      (threshold_of ℕ usual some_store (codes "t"))
      (get_document_signals ℕ usual (λ n. n) 40 (codes "t") (codes "d") some_store).0
    ≡ true
unfolding get
get_document_signals-calls_example =
    get_document_signals-calls ℕ usual (λ n. n) some_calls 40 (codes "t") (codes "d") refl

purge_expired_lem_example :
    let purged = purge_expired ℕ usual 2000000 some_store in
    (any_event ℕ usual 2000000 (is_expired 2000000) purged.1.events ≡ false)
    × (purged.0.0 + count_events ℕ usual 2000000 purged.1.events
        ≡ count_events ℕ usual 2000000 some_store.events)
    × ((t : Time) (tenant document_id : Text)
        → 2000000 ≤ t
        → document_stats ℕ usual t tenant document_id purged.1
          ≡ document_stats ℕ usual t tenant document_id some_store)
purge_expired_lem_example = purge_expired_lem ℕ usual 2000000 some_store
