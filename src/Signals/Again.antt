-- ===== src/Signals/Again.antt =====
-- An event that is sent twice.
use mathlib.Core.Path.{subst}
use sync_ai_final.Base.{
  Bool-cases, Option-cases, nat_eq, list_eq, option_eq, pair_eq, eqb_refl, contains, Text, Dict,
  get, insert, has_key, get-insert, has_key-insert, suc, ◌-◌, ◌≡◌, refl, sym, ap, ◌∙◌, ◌≢◌, inl,
  inr, Bool, true, false, ◌&&◌, none, some, [], arith,
}
use sync_ai_final.Models.{Time}
use sync_ai_final.Signals.{
  ActivityEvent, StoredEvent, Settings, ActivityStore, default_config, events_of, ensure_tenant,
  config_of, get_config, invalidate, add_sample, Ingested, ingested, already_processed, value_error,
  stored_event, ingest_with, ingest_event,
}

module _ (Score : Type 0) (settings : Settings) where
  -- A tenant that is ensured stays as it is.
  ensure_tenant_again :
      (tenant : Text) (s : ActivityStore Score)
      → has_key tenant s.configs ≡ true
      → has_key tenant s.events ≡ true
      → ensure_tenant Score settings tenant none s ≡ s
  unfolding ensure_tenant
  ensure_tenant_again tenant s h q = elim (Option-cases (get tenant s.configs)) [
    | inl e ↦ ground (arith, e, h)
    | inr (c, e) ↦ rw (e, ensure_tenant) (rw (q, ensure_tenant) refl)
  ]

  get_config_again :
      (tenant : Text) (s : ActivityStore Score)
      → has_key tenant s.configs ≡ true
      → has_key tenant s.events ≡ true
      → get_config Score settings tenant s ≡ (config_of Score settings tenant s, s)
  unfolding get_config
  get_config_again tenant s h q =
      ap (λ s'. (config_of Score settings tenant s', s')) (ensure_tenant_again tenant s h q)

  has_key-ensure_tenant :
      (tenant : Text) (s : ActivityStore Score)
      → (has_key tenant (ensure_tenant Score settings tenant none s).configs ≡ true)
        × (has_key tenant (ensure_tenant Score settings tenant none s).events ≡ true)
  unfolding ensure_tenant
  has_key-ensure_tenant tenant s = ground (
    arith,
    has_key-insert tenant (default_config Score settings tenant) s.configs,
    has_key-insert tenant [] s.events,
  )

  abbrev is_disabled : Text → ActivityEvent → ActivityStore Score → Bool
  is_disabled tenant event s =
      let config = config_of Score settings tenant s in
      config.enable_per_source_disablement && contains config.disabled_sources event.source_system

  ingest_known :
      (now : Time) (tenant : Text) (event : ActivityEvent) (s : ActivityStore Score)
      (old : StoredEvent)
      → has_key tenant s.configs ≡ true
      → has_key tenant s.events ≡ true
      → is_disabled tenant event s ≡ false
      → get event.event_id (events_of Score settings tenant s) ≡ some old
      → ingest_event Score settings now tenant event s
        ≡ (already_processed, record s { dup_count = suc s.dup_count })
  unfolding ingest_event ingest_with
  ingest_known now tenant event s old h q n e =
      ap (ingest_with Score settings now tenant event) (get_config_again tenant s h q)
      ∙ rw (n, ingest_with) (rw e refl)

  events_of-insert :
      (tenant id : Text) (ev : StoredEvent) (es : Dict Text StoredEvent)
      (d : Dict Text (Dict Text StoredEvent))
      → get id
          (elim (get tenant (insert tenant (insert id ev es) d)) [ none ↦ [] | some found ↦ found ])
        ≡ some ev
  events_of-insert tenant id ev es d =
      rw (get-insert tenant tenant (insert id ev es) d)
        (rw (eqb_refl tenant) (rw (get-insert id id ev es) (rw (eqb_refl id) refl)))

  -- An event that the store accepted, or knew, is known when it is sent again, at any time and with any
  -- content: the store counts the repetition and changes nothing else.
  pub ingest_event_again :
      (now later : Time) (tenant : Text) (event again : ActivityEvent) (s : ActivityStore Score)
      → again.event_id ≡ event.event_id
      → again.source_system ≡ event.source_system
      → let first = ingest_event Score settings now tenant event s in
        (first.0 ≢ value_error)
        → ingest_event Score settings later tenant again first.1
          ≡ (already_processed, record first.1 { dup_count = suc first.1.dup_count })
  unfolding ingest_event ingest_with get_config
  ingest_event_again now later tenant event again s same_id same_source known =
      let s' = ensure_tenant Score settings tenant none s in
      let (has_config, has_events) = has_key-ensure_tenant tenant s in
      let then_known =
        λ (first : Ingested Score settings × ActivityStore Score)
            (found : ingest_event Score settings now tenant event s ≡ first)
            (second : ingest_event Score settings later tenant again first.1
              ≡ (already_processed, record first.1 { dup_count = suc first.1.dup_count })).
          subst
            (λ x.
              ingest_event Score settings later tenant again x.1
              ≡ (already_processed, record x.1 { dup_count = suc x.1.dup_count }))
            (sym found) second in
      elim (Bool-cases (is_disabled tenant event s')) [
        | inl e ↦ absurd (known (rw (e, ingest_event) refl))
        | inr n ↦ elim (Option-cases (get event.event_id (events_of Score settings tenant s'))) [
          | inl e ↦
              let config = config_of Score settings tenant s' in
              let es = events_of Score settings tenant s' in
              let ev = stored_event Score settings tenant now event config in
              let added = record s' {
                events = insert tenant (insert event.event_id ev es) s'.events;
                ingest_count = suc s'.ingest_count;
                lag_samples = add_sample Score settings (now - event.event_time) s'.lag_samples;
                response_cache = invalidate Score settings tenant s'.response_cache;
              } in
              then_known (ingested, added) (rw (n, ingest_event) (rw e refl))
                (ingest_known later tenant again added ev has_config
                  (has_key-insert tenant (insert event.event_id ev es) s'.events) (rw same_source n)
                  (rw same_id (events_of-insert tenant event.event_id ev es s'.events)))
          | inr (old, e) ↦
              then_known (already_processed, record s' { dup_count = suc s'.dup_count })
                (rw (n, ingest_event) (rw e refl))
                (ingest_known later tenant again (record s' { dup_count = suc s'.dup_count }) old
                  has_config has_events (rw same_source n) (rw same_id e))
        ]
      ]
