-- ===== src/Identity/Mirror.antt =====
-- Hints of the mirrored sources (Drive and Gmail): bind to a login, or queue.
use sync_ai_final.Base.{
  is_some, nat_eq, list_eqb, list_eq, option_eq, pair_eq, eqb_refl, Text, strip, get, insert,
  has_key, get-insert, has_key-insert, ℕ, suc, ◌≡◌, refl, ap, ◌∙◌, Bool, true, false, Option, none,
  some, List, arith,
}
use sync_ai_final.Models.{Uuid, Time, IdentityHint}
use sync_ai_final.Store.{PendingRow, Repo, upsert_pending_identity}
use sync_ai_final.Identity.{
  Resolver, Matcher, google_drive, google_gmail, is_mirror_source, pending, document_or_unknown,
  find_login, queue_pending, create_or_queue, resolve_drive_share, hint_email, resolve,
}

drive_not_gmail : list_eqb google_drive google_gmail ≡ false
unfolding list_eqb
drive_not_gmail = refl

drive_is_mirror : is_mirror_source google_drive ≡ true
drive_is_mirror = ground (arith, eqb_refl google_drive)

module _ (lower : Text → Text) (valid_email : Text → Bool) (uuid4 : ℕ → Uuid) (now : Time) where
  -- `resolve` on the hints of the mirrored sources.
  resolve-mirror :
      (matchers : List Matcher) (hint : IdentityHint) (tenant_id : Uuid) (doc : Option Text)
      (account : Option Uuid) (s : Resolver) {email : Text}
      → hint_email lower valid_email uuid4 now hint ≡ some email
      → is_mirror_source hint.source_type ≡ true
      → resolve lower valid_email uuid4 now matchers hint tenant_id doc account s
        ≡ resolve_drive_share lower valid_email uuid4 now hint tenant_id email
            (document_or_unknown doc)
            account
            s
  unfolding resolve
  resolve-mirror matchers hint tenant_id doc account s e mirror = rw (e, resolve) (rw mirror refl)

  module _ (fresh : Uuid) (tenant : Uuid) (doc email : Text) (account : Option Uuid)
      (r : Repo) where
    queued_repo : Repo
    queued_repo = (upsert_pending_identity lower fresh now tenant doc email account r).1

    queued_principals :
        (queued_repo.principals ≡ r.principals)
        × (queued_repo.principals_by_email ≡ r.principals_by_email)
    unfolding queued_repo upsert_pending_identity
    queued_principals = (ground arith, ground arith)

    queued_row : has_key (tenant, (doc, lower (strip email))) queued_repo.pending_identity ≡ true
    unfolding queued_repo upsert_pending_identity
    queued_row =
        let k : Uuid × (Text × Text) = (tenant, (doc, lower (strip email))) in
        let row : PendingRow = record {
          id = fresh;
          tenant_id = tenant;
          source_account_id = account;
          document_id = doc;
          shared_email = lower (strip email);
          first_seen_at = now;
          resolved_at = none;
          resolved_principal_id = none;
        } in
        ground (arith, has_key-insert k row r.pending_identity)

  module _ (hint : IdentityHint) (tenant_id : Uuid) (doc : Text) (account : Option Uuid)
      (s : Resolver) (email : Text) (drive : hint.source_type ≡ google_drive) where
    -- No one to bind to: the negative entry is cached and the share queued.
    queued_lem : create_or_queue lower valid_email uuid4 now hint tenant_id email doc account s ≡ (
      some pending,
      record s {
        repo = queued_repo (uuid4 s.draws) tenant_id doc email account s.repo;
        email_cache = insert (tenant_id, email) none s.email_cache;
        draws = suc s.draws;
      },
    )
    unfolding create_or_queue queue_pending queued_repo
    queued_lem =
        let not_gmail : list_eqb hint.source_type google_gmail ≡ false =
          ap (λ t. list_eqb t google_gmail) drive ∙ drive_not_gmail in
        ground (arith, not_gmail)

    share_principals :
        let (res, s') =
          resolve_drive_share lower valid_email uuid4 now hint tenant_id email doc account s in
        (s'.repo.principals ≡ s.repo.principals)
        × (s'.repo.principals_by_email ≡ s.repo.principals_by_email)
        × (is_some res ≡ true)
    unfolding resolve_drive_share
    share_principals =
        let queue = queued_principals (uuid4 s.draws) tenant_id doc email account s.repo in
        (
          ground (arith, queued_lem, queue),
          ground (arith, queued_lem, queue),
          ground (arith, queued_lem),
        )

    -- The first sight of an email that no one has.
    share_first :
        get (tenant_id, email) s.email_cache ≡ none
        → find_login lower valid_email uuid4 now email tenant_id s.repo ≡ none
        → resolve_drive_share lower valid_email uuid4 now hint tenant_id email doc account s
          ≡ create_or_queue lower valid_email uuid4 now hint tenant_id email doc account s
    unfolding resolve_drive_share
    share_first new nobody = ground arith

    -- A negative entry of the cache.
    share_again :
        get (tenant_id, email) s.email_cache ≡ some none
        → resolve_drive_share lower valid_email uuid4 now hint tenant_id email doc account s
          ≡ (some pending, s)
    unfolding resolve_drive_share
    share_again cached = ground arith

  module _ (matchers : List Matcher) (hint : IdentityHint) (tenant_id : Uuid)
      (account : Option Uuid) (s : Resolver) {email : Text}
      (e : hint_email lower valid_email uuid4 now hint ≡ some email)
      (drive : hint.source_type ≡ google_drive) where
    resolve_drive :
        (doc : Option Text) (s' : Resolver)
        → resolve lower valid_email uuid4 now matchers hint tenant_id doc account s'
          ≡ resolve_drive_share lower valid_email uuid4 now hint tenant_id email
              (document_or_unknown doc)
              account
              s'
    resolve_drive doc s' =
        resolve-mirror matchers hint tenant_id doc account s' e
          (ap is_mirror_source drive ∙ drive_is_mirror)

    -- A Drive share whose hint has an email that passes the email check never creates a principal: the
    -- principals stay as they are, by id and by email; and the resolver raises nothing.
    pub resolve-principals :
        (doc : Option Text)
        → let (res, s') =
            resolve lower valid_email uuid4 now matchers hint tenant_id doc account s in
          (s'.repo.principals ≡ s.repo.principals)
          × (s'.repo.principals_by_email ≡ s.repo.principals_by_email)
          × (is_some res ≡ true)
    resolve-principals doc =
        rw (resolve_drive doc s)
          (share_principals hint tenant_id (document_or_unknown doc) account s email drive)

    -- A Drive share of an email that is not in the cache and that `find_login` knows no login and no
    -- principal for is pending, and stands in the queue afterwards. A later share of the email with
    -- any document is pending too, and changes nothing: it is not queued.
    pub resolve-pending :
        (doc other_doc : Option Text)
        → get (tenant_id, email) s.email_cache ≡ none
        → find_login lower valid_email uuid4 now email tenant_id s.repo ≡ none
        → let s' = (resolve lower valid_email uuid4 now matchers hint tenant_id doc account s).1 in
          ((resolve lower valid_email uuid4 now matchers hint tenant_id doc account s).0
            ≡ some pending)
          × (has_key
                (tenant_id, (document_or_unknown doc, lower (strip email)))
                s'.repo.pending_identity
              ≡ true)
          × (resolve lower valid_email uuid4 now matchers hint tenant_id other_doc account s'
              ≡ (some pending, s'))
    resolve-pending doc other_doc new nobody =
        let d = document_or_unknown doc in
        let k : Uuid × Text = (tenant_id, email) in
        let first =
          resolve_drive doc s
          ∙ share_first hint tenant_id d account s email drive new nobody
          ∙ queued_lem hint tenant_id d account s email drive in
        let row = queued_row (uuid4 s.draws) tenant_id d email account s.repo in
        rw first (
          refl,
          row,
          resolve_drive other_doc _
              ∙ share_again hint tenant_id (document_or_unknown other_doc) account _ email drive
                  (rw (get-insert k k none s.email_cache) (rw (eqb_refl k) refl)),
        )
