-- ===== src/Signals/Documents/Kept.antt =====
-- A purge changes no answer.
use sync_ai_final.Base.{
  nat_eq, list_eq, option_eq, pair_eq, length, any, filter, Text, Dict, values, get, ℕ, ◌+◌, ◌≤◌,
  ◌≡◌, refl, ap, ◌∙◌, Bool, false, ◌||◌, Option, none, some, [], ◌∷◌, arith,
}
use sync_ai_final.Models.{Time}
use sync_ai_final.Signals.{StoredEvent, Settings, is_expired, ActivityStore, active_events}
use sync_ai_final.Signals.Documents.{
  no_stats, add_events, in_window, document_stats, unexpired, count_expired, purge_tenants,
  purge_expired,
}

abbrev no_events : Option (Dict Text StoredEvent) → Dict Text StoredEvent
no_events none = []
no_events (some es) = es

module _ (Score : Type 0) (settings : Settings) (now : Time) where
  abbrev unexpired_of : Dict Text StoredEvent → Dict Text StoredEvent
  unexpired_of = unexpired Score settings now

  active_events-unexpired :
      (t : Time) (es : Dict Text StoredEvent)
      → now ≤ t
      → active_events Score settings t (unexpired_of es) ≡ active_events Score settings t es
  unfolding unexpired active_events is_expired
  active_events-unexpired t [] h = refl
  active_events-unexpired t ((id, ev) ∷ es) h = ground (arith, active_events-unexpired t es h)

  get-purge_tenants :
      (tenant : Text) (d : Dict Text (Dict Text StoredEvent))
      → no_events (get tenant (purge_tenants Score settings now d).remaining)
        ≡ unexpired_of (no_events (get tenant d))
  unfolding purge_tenants get unexpired
  get-purge_tenants tenant [] = refl
  get-purge_tenants tenant ((t, es) ∷ d) = ground (arith, get-purge_tenants tenant d)

  -- The number of the events of all tenants.
  abbrev pub count_events : Dict Text (Dict Text StoredEvent) → ℕ
  count_events [] = 0
  count_events ((t, es) ∷ d) = length es + count_events d

  abbrev pub any_event : (StoredEvent → Bool) → Dict Text (Dict Text StoredEvent) → Bool
  any_event p [] = false
  any_event p ((t, es) ∷ d) = any p (values es) || any_event p d

  count-unexpired :
      (es : Dict Text StoredEvent)
      → count_expired Score settings now es + length (unexpired_of es) ≡ length es
  unfolding count_expired unexpired
  count-unexpired [] = refl
  count-unexpired ((id, ev) ∷ es) = ground (arith, count-unexpired es)

  any-unexpired :
      (es : Dict Text StoredEvent) → any (is_expired now) (values (unexpired_of es)) ≡ false
  unfolding unexpired
  any-unexpired [] = refl
  any-unexpired ((id, ev) ∷ es) = ground (arith, any-unexpired es)

  count-purge_tenants :
      (d : Dict Text (Dict Text StoredEvent))
      → (purge_tenants Score settings now d).purged_events
          + count_events (purge_tenants Score settings now d).remaining
        ≡ count_events d
  unfolding purge_tenants
  count-purge_tenants [] = refl
  count-purge_tenants ((t, es) ∷ d) = omega (arith, count-purge_tenants d, count-unexpired es)

  any_event-purge_tenants :
      (d : Dict Text (Dict Text StoredEvent))
      → any_event (is_expired now) (purge_tenants Score settings now d).remaining ≡ false
  unfolding purge_tenants
  any_event-purge_tenants [] = refl
  any_event-purge_tenants ((t, es) ∷ d) =
      ground (arith, any_event-purge_tenants d, any-unexpired es)

  -- A purge leaves no expired event, counts each event that it removes, and changes the statistics of
  -- no document at the time of the purge or later.
  pub purge_expired_lem :
      (s : ActivityStore Score)
      → let purged = purge_expired Score settings now s in
        (any_event (is_expired now) purged.1.events ≡ false)
        × (purged.0.0 + count_events purged.1.events ≡ count_events s.events)
        × ((t : Time) (tenant document_id : Text)
            → now ≤ t
            → document_stats Score settings t tenant document_id purged.1
              ≡ document_stats Score settings t tenant document_id s)
  unfolding purge_expired document_stats
  purge_expired_lem s = (
    any_event-purge_tenants s.events,
    count-purge_tenants s.events,
    λ t tenant document_id h.
        ap
          (λ es.
            add_events
              (filter (in_window settings t document_id) (active_events Score settings t es))
              no_stats)
          (get-purge_tenants tenant s.events)
        ∙ ap (λ evs. add_events (filter (in_window settings t document_id) evs) no_stats)
            (active_events-unexpired t (no_events (get tenant s.events)) h),
  )
