-- ===== src/Signals/Safe.antt =====
-- What the answers about documents show, over any calls of the store.
use sync_ai_final.Signals.Guarded
use mathlib.Core.Path.{subst}
use sync_ai_final.Base.{
  and_left, and_right, leb, Option-cases, nat_eq, list_eqb_iff, list_eq, option_eq, pair_eq,
  eqb_comm, Text, get, get-insert, get-erase, ℕ, ◌+◌, ◌≡◌, refl, sym, ◌∙◌, inl, inr, Bool, true,
  ◌&&◌, Option, none, some, List, [], ◌∷◌, arith,
}
use sync_ai_final.Models.{Time}
use sync_ai_final.Signals.{
  seconds, ActivityEvent, ActivityConfig, Settings, DocumentSignalResponse, ActivityStore,
  default_config, ensure_tenant, config_of, get_config, set_config, cache_get, cache_set,
  ingest_with, ingest_event, recompute_signals, clear_tenant,
}
use sync_ai_final.Signals.Documents.{
  DocumentStats, document_stats, purge_tenants, purge_expired, document_response, document_answer,
  get_document_signals,
}

module _ (Score : Type 0) where
  abbrev pub is_guarded : ℕ → DocumentSignalResponse Score → Bool
  is_guarded = Guarded.is_guarded Score

  module _ (settings : Settings) where
    abbrev pub threshold_of : ActivityStore Score → Text → ℕ
    threshold_of s tenant = (config_of Score settings tenant s).privacy_threshold

    abbrev IsSafe : ActivityStore Score → Type 0
    IsSafe s = Guarded.guarded Score (threshold_of s) s.response_cache ≡ true

    threshold_of-ensure_tenant :
        (tenant t : Text) (s : ActivityStore Score)
        → threshold_of (ensure_tenant Score settings tenant none s) t ≡ threshold_of s t
    unfolding ensure_tenant
    threshold_of-ensure_tenant tenant t s = elim (Option-cases (get tenant s.configs)) [
      | inl e ↦ ground (
        arith,
        e,
        get-insert tenant t (default_config Score settings tenant) s.configs,
        list_eqb_iff tenant t,
      )
      | inr (c, e) ↦ ground (arith, e)
    ]

    ensure_tenant-IsSafe :
        (tenant : Text) (s : ActivityStore Score)
        → IsSafe s
        → IsSafe (ensure_tenant Score settings tenant none s)
    unfolding ensure_tenant
    ensure_tenant-IsSafe tenant s h =
        Guarded.guarded_same Score (threshold_of (ensure_tenant Score settings tenant none s))
          (threshold_of s) s.response_cache (λ t. threshold_of-ensure_tenant tenant t s)
        ∙ h

    -- A configuration that does not raise the threshold may replace the old one.
    ensure_tenant_config-IsSafe :
        (tenant : Text) (c : ActivityConfig) (s : ActivityStore Score)
        → leb c.privacy_threshold (threshold_of s tenant) ≡ true
        → IsSafe s
        → IsSafe (ensure_tenant Score settings tenant (some c) s)
    unfolding ensure_tenant
    ensure_tenant_config-IsSafe tenant c s low h =
        Guarded.guarded_lower Score (threshold_of s)
          (threshold_of (ensure_tenant Score settings tenant (some c) s)) s.response_cache
          (λ t. elim (Option-cases (get tenant s.configs)) [
            | inl e ↦ ground (arith, e, low, get-insert tenant t c s.configs, list_eqb_iff tenant t)
            | inr (old, e) ↦
                ground (arith, e, low, get-insert tenant t c s.configs, list_eqb_iff tenant t)
          ])
          h

    recompute_signals-IsSafe :
        (tenant : Text) (s : ActivityStore Score)
        → IsSafe s
        → IsSafe (recompute_signals Score settings tenant s)
    unfolding recompute_signals
    recompute_signals-IsSafe tenant s h =
        let s' = ensure_tenant Score settings tenant none s in
        Guarded.guarded-invalidate Score settings (threshold_of s') (threshold_of s') tenant
          s'.response_cache (λ t e. refl) (ensure_tenant-IsSafe tenant s h)

    set_config-IsSafe :
        (c : ActivityConfig) (s : ActivityStore Score)
        → IsSafe s
        → IsSafe (set_config Score settings c s)
    unfolding set_config
    set_config-IsSafe c s h =
        Guarded.guarded-invalidate Score settings (threshold_of s)
          (threshold_of (set_config Score settings c s)) c.tenant_id s.response_cache
          (λ t e. ground (arith, e, get-insert c.tenant_id t c s.configs, eqb_comm t c.tenant_id)) h

    clear_tenant-IsSafe :
        (tenant : Text) (s : ActivityStore Score)
        → IsSafe s
        → IsSafe (clear_tenant Score settings tenant s)
    unfolding clear_tenant
    clear_tenant-IsSafe tenant s h =
        Guarded.guarded-invalidate Score settings (threshold_of s)
          (threshold_of (clear_tenant Score settings tenant s)) tenant s.response_cache
          (λ t e. ground (arith, e, get-erase tenant t s.configs, eqb_comm t tenant)) h

    ingest_event-IsSafe :
        (now : Time) (tenant : Text) (event : ActivityEvent) (s : ActivityStore Score)
        → IsSafe s
        → IsSafe (ingest_event Score settings now tenant event s).1
    unfolding ingest_event ingest_with get_config
    ingest_event-IsSafe now tenant event s h =
        let s' = ensure_tenant Score settings tenant none s in
        let safe = ensure_tenant-IsSafe tenant s h in
        ground (
          arith,
          safe,
          Guarded.guarded-invalidate Score settings (threshold_of s') (threshold_of s') tenant
              s'.response_cache (λ t e. refl) safe,
        )

    purge_expired-IsSafe :
        (now : Time) (s : ActivityStore Score)
        → IsSafe s
        → IsSafe (purge_expired Score settings now s).1
    unfolding purge_expired
    purge_expired-IsSafe now s h =
        Guarded.guarded-invalidate_all Score settings (threshold_of s)
          (purge_tenants Score settings now s.events).touched s.response_cache h

    module _ (popularity : ℕ → Score) where
      is_guarded-document_response :
          (now : Time) (tenant document_id : Text) (threshold : ℕ) (st : DocumentStats)
          → is_guarded threshold
              (document_response Score settings popularity now tenant document_id threshold st)
            ≡ true
      unfolding document_response
      is_guarded-document_response now tenant document_id threshold st = ground arith

      document_answer-IsSafe :
          (now : Time) (tenant document_id : Text) (cached : Option (DocumentSignalResponse Score))
          (s : ActivityStore Score)
          → IsSafe s
          → ((r : DocumentSignalResponse Score)
              → cached ≡ some r
              → is_guarded (threshold_of s tenant) r ≡ true)
          → IsSafe (document_answer Score settings popularity now tenant document_id cached s).1
            × (is_guarded
                  (threshold_of s tenant)
                  (document_answer Score settings popularity now tenant document_id cached s).0
                ≡ true)
      unfolding document_answer get_config cache_set
      document_answer-IsSafe now tenant document_id (some r) s h q = (h, q r refl)
      document_answer-IsSafe now tenant document_id none s h q =
          let s' = ensure_tenant Score settings tenant none s in
          let st = document_stats Score settings now tenant document_id s' in
          let shown =
            is_guarded-document_response now tenant document_id (threshold_of s' tenant) st in
          let resp =
            document_response Score settings popularity now tenant document_id
              (threshold_of s' tenant) st in
          (
            Guarded.guarded-insert Score (threshold_of s') (tenant, document_id)
                (now + seconds 60, resp) s'.response_cache (ensure_tenant-IsSafe tenant s h) shown,
            rw (sym (threshold_of-ensure_tenant tenant tenant s)) shown,
          )

      cache_get-IsSafe :
          (now : Time) (tenant document_id : Text) (s : ActivityStore Score)
          → IsSafe s
          → let found = cache_get Score settings now tenant document_id s in
            IsSafe found.1
            × (threshold_of found.1 tenant ≡ threshold_of s tenant)
            × ((r : DocumentSignalResponse Score)
                → found.0 ≡ some r
                → is_guarded (threshold_of s tenant) r ≡ true)
      unfolding cache_get
      cache_get-IsSafe now tenant document_id s h =
          let erased =
            Guarded.guarded-erase Score (threshold_of s) (tenant, document_id) s.response_cache h in
          elim (Option-cases (get (tenant, document_id) s.response_cache)) [
            | inl e ↦ ground (arith, e, h)
            | inr (v, e) ↦ ground (
              arith,
              e,
              h,
              erased,
              Guarded.guarded-get Score (threshold_of s) (tenant, document_id) v s.response_cache h
                  e,
            )
          ]

      get_document_signals-IsSafe :
          (now : Time) (tenant document_id : Text) (s : ActivityStore Score)
          → IsSafe s
          → IsSafe (get_document_signals Score settings popularity now tenant document_id s).1
            × (is_guarded
                  (threshold_of s tenant)
                  (get_document_signals Score settings popularity now tenant document_id s).0
                ≡ true)
      unfolding get_document_signals
      get_document_signals-IsSafe now tenant document_id s h =
          let s' = ensure_tenant Score settings tenant none s in
          let (safe, same, shown) =
            cache_get-IsSafe now tenant document_id s' (ensure_tenant-IsSafe tenant s h) in
          let (cached, s'') = cache_get Score settings now tenant document_id s' in
          let (kept, guarded_answer) =
            document_answer-IsSafe now tenant document_id cached s'' safe
              (λ r e. subst (λ n. is_guarded n r ≡ true) (sym same) (shown r e)) in
          (
            kept,
            subst
                (λ n.
                  is_guarded n
                    (get_document_signals Score settings popularity now tenant document_id s).0
                  ≡ true)
                (same ∙ threshold_of-ensure_tenant tenant tenant s) guarded_answer,
          )

      -- A call of the store.
      pub data Call : Type 0 where
        ensured : Text → Option ActivityConfig → Call
        configured : ActivityConfig → Call
        ingesting : Time → Text → ActivityEvent → Call
        asked_document : Time → Text → Text → Call
        purging : Time → Call
        recomputing : Text → Call
        clearing : Text → Call

      unfoldable pub call : Call → ActivityStore Score → ActivityStore Score
      call (ensured tenant config) s = ensure_tenant Score settings tenant config s
      call (configured c) s = set_config Score settings c s
      call (ingesting now tenant event) s = (ingest_event Score settings now tenant event s).1
      call (asked_document now tenant document_id) s =
          (get_document_signals Score settings popularity now tenant document_id s).1
      call (purging now) s = (purge_expired Score settings now s).1
      call (recomputing tenant) s = recompute_signals Score settings tenant s
      call (clearing tenant) s = clear_tenant Score settings tenant s

      unfoldable pub calls : List Call → ActivityStore Score → ActivityStore Score
      calls [] s = s
      calls (c ∷ cs) s = calls cs (call c s)

      abbrev pub empty_store : ActivityStore Score
      empty_store = record {
        events = [];
        configs = [];
        response_cache = [];
        lag_samples = [];
        ingest_count = 0;
        dup_count = 0;
      }

      -- No `ensure_tenant` with a configuration raises the threshold that the tenant has.
      abbrev raises_none : Call → ActivityStore Score → Bool
      raises_none (ensured tenant none) s = true
      raises_none (ensured tenant (some c)) s = leb c.privacy_threshold (threshold_of s tenant)
      raises_none (configured c) s = true
      raises_none (ingesting now tenant event) s = true
      raises_none (asked_document now tenant document_id) s = true
      raises_none (purging now) s = true
      raises_none (recomputing tenant) s = true
      raises_none (clearing tenant) s = true

      abbrev pub never_raised : List Call → ActivityStore Score → Bool
      never_raised [] s = true
      never_raised (c ∷ cs) s = raises_none c s && never_raised cs (call c s)

      call-IsSafe :
          (c : Call) (s : ActivityStore Score)
          → raises_none c s ≡ true
          → IsSafe s
          → IsSafe (call c s)
      unfolding call
      call-IsSafe (ensured tenant none) s low h = ensure_tenant-IsSafe tenant s h
      call-IsSafe (ensured tenant (some c)) s low h = ensure_tenant_config-IsSafe tenant c s low h
      call-IsSafe (configured c) s low h = set_config-IsSafe c s h
      call-IsSafe (ingesting now tenant event) s low h = ingest_event-IsSafe now tenant event s h
      call-IsSafe (asked_document now tenant document_id) s low h =
          (get_document_signals-IsSafe now tenant document_id s h).0
      call-IsSafe (purging now) s low h = purge_expired-IsSafe now s h
      call-IsSafe (recomputing tenant) s low h = recompute_signals-IsSafe tenant s h
      call-IsSafe (clearing tenant) s low h = clear_tenant-IsSafe tenant s h

      calls-IsSafe :
          (cs : List Call) (s : ActivityStore Score)
          → never_raised cs s ≡ true
          → IsSafe s
          → IsSafe (calls cs s)
      unfolding calls
      calls-IsSafe [] s low h = h
      calls-IsSafe (c ∷ cs) s low h =
          calls-IsSafe cs (call c s) (and_right (raises_none c s) _ low)
            (call-IsSafe c s (and_left (raises_none c s) _ low) h)

      -- After any calls on an empty store, in any order and at any times, of which no `ensure_tenant`
      -- gives a tenant a configuration with a higher threshold than it has (a new tenant has that of the
      -- settings), the answer about a document shows its score, its views or its last view only with a
      -- number of actors that reaches the threshold that the tenant has at that moment, also where the
      -- answer comes from the cache. `set_config` may raise the threshold at any time.
      pub get_document_signals-calls :
          (cs : List Call) (now : Time) (tenant document_id : Text)
          → never_raised cs empty_store ≡ true
          → is_guarded
              (threshold_of (calls cs empty_store) tenant)
              (get_document_signals Score settings popularity now tenant document_id
                (calls cs empty_store)).0
            ≡ true
      unfolding Guarded.guarded
      get_document_signals-calls cs now tenant document_id low =
          (get_document_signals-IsSafe now tenant document_id (calls cs empty_store)
            (calls-IsSafe cs empty_store low refl)).1
