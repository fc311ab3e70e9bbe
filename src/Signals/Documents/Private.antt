-- ===== src/Signals/Documents/Private.antt =====
-- Who counts towards the threshold.
use sync_ai_final.Base.{
  ◌==◌, nat_eq, list_eqb, list_eqb_iff, list_eq, option_eq, pair_eq, length, any, filter, contains,
  contains-append, distinct, distinct-snoc, Text, codes, ◌+◌, ◌≡◌, refl, ◌∙◌, true, ◌||◌, List, [],
  ◌∷◌, map, arith,
}
use sync_ai_final.Models.{Time}
use sync_ai_final.Signals.{StoredEvent, Settings, ActivityStore, events_of, active_events}
use sync_ai_final.Signals.Documents.{
  DocumentStats, no_stats, add_viewer, add_event, add_events, in_window, document_stats,
}

abbrev actors : List StoredEvent → List Text
actors = map (λ (ev : StoredEvent). ev.actor_principal_id)

distinct-add_viewer :
    (a : Text) (xs : List Text) → distinct xs ≡ true → distinct (add_viewer a xs) ≡ true
distinct-add_viewer a xs h = ground (arith, distinct-snoc xs a h)

contains-add_viewer :
    (a b : Text) (xs : List Text) → contains (add_viewer a xs) b ≡ (contains xs b || list_eqb a b)
contains-add_viewer a b xs = ground (arith, contains-append xs (a ∷ []) b, list_eqb_iff a b)

viewers-add_events :
    (evs : List StoredEvent) (st : DocumentStats)
    → distinct st.viewers ≡ true
    → (distinct (add_events evs st).viewers ≡ true)
      × ((a : Text)
          → contains (add_events evs st).viewers a
            ≡ (contains st.viewers a || contains (actors evs) a))
unfolding add_events add_event
viewers-add_events [] st h = (h, λ a. ground arith)
viewers-add_events (ev ∷ evs) st h =
    let (d, c) =
      viewers-add_events evs (add_event ev st)
        (distinct-add_viewer ev.actor_principal_id st.viewers h) in
    (d, λ a. c a ∙ ground (arith, contains-add_viewer ev.actor_principal_id a st.viewers))

views-add_events :
    (evs : List StoredEvent) (st : DocumentStats)
    → (add_events evs st).views
      ≡ length (filter (λ (ev : StoredEvent). ev.event_type == codes "view") evs) + st.views
unfolding add_events add_event
views-add_events [] st = omega arith
views-add_events (ev ∷ evs) st = ground (arith, views-add_events evs (add_event ev st))

contains-actors :
    (evs : List StoredEvent) (a : Text)
    → contains (actors evs) a ≡ any (λ (ev : StoredEvent). ev.actor_principal_id == a) evs
contains-actors [] a = refl
contains-actors (ev ∷ evs) a = ground (arith, contains-actors evs a)

module _ (Score : Type 0) (settings : Settings) (now : Time) (tenant document_id : Text)
    (s : ActivityStore Score) where
  -- The events that count: of the tenant and the document, not expired, in the window.
  abbrev pub counted : List StoredEvent
  counted =
      filter (in_window settings now document_id)
        (active_events Score settings now (events_of Score settings tenant s))

  -- The viewers of a document are the actors of the events that count, each once, and the views are the
  -- number of those events that are views.
  pub document_stats_lem :
      (distinct (document_stats Score settings now tenant document_id s).viewers ≡ true)
      × ((a : Text)
          → contains (document_stats Score settings now tenant document_id s).viewers a
            ≡ any (λ (ev : StoredEvent). ev.actor_principal_id == a) counted)
      × ((document_stats Score settings now tenant document_id s).views
          ≡ length (filter (λ (ev : StoredEvent). ev.event_type == codes "view") counted))
  unfolding document_stats
  document_stats_lem =
      let (apart, members) = viewers-add_events counted no_stats refl in
      (
        apart,
        λ a. members a ∙ contains-actors counted a,
        views-add_events counted no_stats ∙ omega arith,
      )
