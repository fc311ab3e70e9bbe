-- ===== src/Signals/Documents.antt =====
-- `_document_stats_locked`, `get_document_signals` and `purge_expired` of
-- backend/app/services/signals/mock_store.py. The score of a number of views is a parameter.
pub mod Private
pub mod Kept
use sync_ai_final.Base.{
  ltb, leb, if◌then◌else◌, ◌==◌, nat_eq, list_eq, option_eq, pair_eq, length, filter, contains,
  Text, codes, Dict, ℕ, suc, ◌+◌, ◌-◌, Bool, true, false, ◌&&◌, ◌||◌, Option, none, some, List, [],
  ◌∷◌, ◌++◌,
}
use sync_ai_final.Models.{Time}
use sync_ai_final.Signals.{
  seconds, days, StoredEvent, Settings, is_expired, DocumentSignalResponse, ActivityStore,
  events_of, ensure_tenant, get_config, invalidate, cache_get, cache_set, active_events,
}

-- The variables of the loop on the events; `viewers` is a set.
pub record DocumentStats : Type 0 where
  pub viewers : List Text
  pub views : ℕ
  pub last_viewed : Option Time

abbrev pub no_stats : DocumentStats
no_stats = record { viewers = []; views = 0; last_viewed = none }

-- `last_viewed is None or event_time > last_viewed`
abbrev pub later : Time → Option Time → Option Time
later at none = some at
later at (some old) = if ltb old at then some at else some old

abbrev pub add_viewer : Text → List Text → List Text
add_viewer actor viewers = if contains viewers actor then viewers else viewers ++ actor ∷ []

unfoldable pub add_event : StoredEvent → DocumentStats → DocumentStats
add_event ev st =
    let is_view = ev.event_type == codes "view" in
    record {
      viewers = add_viewer ev.actor_principal_id st.viewers;
      views = if is_view then suc st.views else st.views;
      last_viewed = if is_view then later ev.event_time st.last_viewed else st.last_viewed;
    }

unfoldable pub add_events : List StoredEvent → DocumentStats → DocumentStats
add_events [] st = st
add_events (ev ∷ evs) st = add_events evs (add_event ev st)

-- Times are at least 0, so that the start of the window may be cut off there.
abbrev pub in_window : Settings → Time → Text → StoredEvent → Bool
in_window settings now document_id ev =
    let window_start = now - seconds (days settings.popularity_window_days) in
    ev.object_id == document_id && leb window_start ev.event_time

-- `a <= b` on texts, by their code points
unfoldable pub text_leb : Text → Text → Bool
text_leb [] t = true
text_leb (c ∷ s) [] = false
text_leb (c ∷ s) (d ∷ t) = ltb c d || (c == d && text_leb s t)

unfoldable pub insert_text : Text → List Text → List Text
insert_text t [] = t ∷ []
insert_text t (u ∷ us) = if text_leb t u then t ∷ (u ∷ us) else u ∷ insert_text t us

-- `sorted(tenants)`
unfoldable pub sorted : List Text → List Text
sorted [] = []
sorted (t ∷ ts) = insert_text t (sorted ts)

module _ (Score : Type 0) (settings : Settings) where
  unfoldable pub document_stats : Time → Text → Text → ActivityStore Score → DocumentStats
  document_stats now tenant document_id s =
      add_events
        (filter (in_window settings now document_id)
          (active_events Score settings now (events_of Score settings tenant s)))
        no_stats

  -- `del events[eid]` for each expired event
  unfoldable pub unexpired : Time → Dict Text StoredEvent → Dict Text StoredEvent
  unexpired now [] = []
  unexpired now ((id, ev) ∷ es) =
      let rest = unexpired now es in if is_expired now ev then rest else (id, ev) ∷ rest

  unfoldable pub count_expired : Time → Dict Text StoredEvent → ℕ
  count_expired now [] = 0
  count_expired now ((id, ev) ∷ es) =
      let rest = count_expired now es in if is_expired now ev then suc rest else rest

  pub record Purged : Type 0 where
    pub purged_events : ℕ
    pub touched : List Text
    pub remaining : Dict Text (Dict Text StoredEvent)

  unfoldable pub purge_tenants : Time → Dict Text (Dict Text StoredEvent) → Purged
  purge_tenants now [] = record { purged_events = 0; touched = []; remaining = [] }
  purge_tenants now ((tenant, es) ∷ d) =
      let rest = purge_tenants now d in
      let n = count_expired now es in
      record {
        purged_events = n + rest.purged_events;
        touched = if ltb 0 n then tenant ∷ rest.touched else rest.touched;
        remaining = (tenant, unexpired now es) ∷ rest.remaining;
      }

  unfoldable pub invalidate_all :
      List Text
      → Dict (Text × Text) (Time × DocumentSignalResponse Score)
      → Dict (Text × Text) (Time × DocumentSignalResponse Score)
  invalidate_all [] cache = cache
  invalidate_all (tenant ∷ ts) cache = invalidate_all ts (invalidate Score settings tenant cache)

  -- The `PurgeResult` (purged events, touched tenants, rebuilt aggregates) and the store.
  unfoldable pub purge_expired :
      Time → ActivityStore Score → (ℕ × List Text × ℕ) × ActivityStore Score
  purge_expired now s =
      let p = purge_tenants now s.events in
      (
        (p.purged_events, sorted p.touched, p.purged_events),
        record s {
          events = p.remaining;
          response_cache = invalidate_all p.touched s.response_cache;
        },
      )

  module _ (popularity : ℕ → Score) where
    -- Below the threshold no number is given.
    unfoldable pub document_response :
        Time → Text → Text → ℕ → DocumentStats → DocumentSignalResponse Score
    document_response now tenant document_id threshold st =
        let distinct_actors = length st.viewers in
        if ltb distinct_actors threshold
        then record {
          document_id = document_id;
          tenant_id = tenant;
          privacy_protected = true;
          popularity_score = none;
          total_views = none;
          distinct_viewers = none;
          last_viewed = none;
          updated_at = now;
          window_days = settings.popularity_window_days;
        }
        else record {
          document_id = document_id;
          tenant_id = tenant;
          privacy_protected = false;
          popularity_score = some (popularity st.views);
          total_views = some st.views;
          distinct_viewers = some distinct_actors;
          last_viewed = st.last_viewed;
          updated_at = now;
          window_days = settings.popularity_window_days;
        }

    -- What follows the lookup in the cache.
    unfoldable pub document_answer :
        Time
        → Text
        → Text
        → Option (DocumentSignalResponse Score)
        → ActivityStore Score
        → DocumentSignalResponse Score × ActivityStore Score
    document_answer now tenant document_id (some payload) s = (payload, s)
    document_answer now tenant document_id none s =
        let (config, s') = get_config Score settings tenant s in
        let resp =
          document_response now tenant document_id config.privacy_threshold
            (document_stats now tenant document_id s') in
        (resp, cache_set Score settings now tenant document_id resp s')

    unfoldable pub get_document_signals :
        Time
        → Text
        → Text
        → ActivityStore Score
        → DocumentSignalResponse Score × ActivityStore Score
    get_document_signals now tenant document_id s =
        let (cached, s') =
          cache_get Score settings now tenant document_id
            (ensure_tenant Score settings tenant none s) in
        document_answer now tenant document_id cached s'
