-- ===== src/Identity.antt =====
-- `IdentityResolver`, backend/app/identity/resolver.py, with its two matchers, over the memory mode
-- of the canonical repository. Its state is the repository, the shared cache of emails, and the
-- number of UUIDs drawn.
pub mod Mirror
use sync_ai_final.Base.{
  if◌then◌else◌, ◌==◌, nat_eq, list_eq, option_eq, pair_eq, Text, codes, nonempty, strip, Dict, get,
  insert, has_key, ℕ, suc, Bool, true, false, not, ◌&&◌, ◌||◌, Option, none, some, List, [], ◌∷◌,
}
use sync_ai_final.Models.{
  Uuid, Time, Principal, IdentityHint, MatchedOn, by_email, by_username, by_new, by_pending,
  ResolvedIdentity,
}
use sync_ai_final.Store.{
  Repo, create_principal, update_principal, get_principal_by_email, get_login_user_by_email,
  upsert_pending_identity, get_principal_by_source_identity,
}

pub record Resolver : Type 0 where
  pub repo : Repo
  pub email_cache : Dict (Uuid × Text) (Option (Uuid × Text))
  pub draws : ℕ

-- `none` is an exception: the `ValueError` of a hint with no email, or a creation that failed.
abbrev pub Outcome : Type 0
Outcome = Option ResolvedIdentity × Resolver

pub data Matcher : Type 0 where
  email_matcher username_matcher : Matcher

abbrev pub google_drive : Text
google_drive = codes "google_drive"

abbrev pub google_gmail : Text
google_gmail = codes "google_gmail"

abbrev pub is_mirror_source : Text → Bool
is_mirror_source source_type = source_type == google_drive || source_type == google_gmail

abbrev pub pending : ResolvedIdentity
pending = record {
  principal_id = none;
  principal = none;
  confidence = 0;
  matched_on = by_pending;
  is_pending = true;
}

abbrev pub found : ℕ → MatchedOn → Principal → ResolvedIdentity
found confidence matched_on p = record {
  principal_id = some p.id;
  principal = some p;
  confidence = confidence;
  matched_on = matched_on;
  is_pending = false;
}

abbrev pub with_repo : Repo → Resolver → Resolver
with_repo repo s = record s { repo = repo }

-- `document_id or "unknown"`
abbrev pub document_or_unknown : Option Text → Text
document_or_unknown none = codes "unknown"
document_or_unknown (some d) = if nonempty d then d else codes "unknown"

-- What the resolver calls outside the repository's code: the case mapping, the syntax check of the
-- package `email_validator`, the drawn UUIDs, and the clock.
module _ (lower : Text → Text) (valid_email : Text → Bool) (uuid4 : ℕ → Uuid) (now : Time) where
  unfoldable pub normalize_email : Text → Option Text
  normalize_email email =
      if not (nonempty email)
      then none
      else let normalized = lower (strip email) in
        if valid_email normalized then some normalized else none

  -- The principal with the new source, and the repository.
  unfoldable pub update_source_identity : Principal → IdentityHint → Repo → Principal × Repo
  update_source_identity p hint r =
      let p' : Principal = record p {
        source_identities = insert hint.source_type hint.external_id p.source_identities;
        updated_at = now;
      } in
      if has_key hint.source_type p.source_identities
      then (p, r)
      else (p', update_principal lower p' r)

  abbrev pub fresh_principal : Uuid → Text → Uuid → IdentityHint → Principal
  fresh_principal id email tenant_id hint = record {
    id = id;
    tenant_id = tenant_id;
    email = email;
    name = hint.name;
    source_identities = (hint.source_type, hint.external_id) ∷ [];
    created_at = now;
    updated_at = now;
  }

  -- A duplicate is looked up again; `none` is an exception that is raised again.
  unfoldable pub create_new : Text → Uuid → IdentityHint → Resolver → Option Principal × Resolver
  create_new email tenant_id hint s =
      let p = fresh_principal (uuid4 s.draws) email tenant_id hint in
      let s' : Resolver = record s { draws = suc s.draws } in
      elim (create_principal lower p s.repo) [
        | some r ↦ (some p, with_repo r s')
        | none ↦ elim (get_principal_by_email lower email tenant_id s.repo) [
          | none ↦ (none, s')
          | some existing ↦
              let (p', r) = update_source_identity existing hint s.repo in (some p', with_repo r s')
        ]
      ]

  -- A principal built from a login user or a cached pair; it is not stored.
  abbrev pub bound_principal : Uuid → Text → Uuid → IdentityHint → Principal
  bound_principal id email tenant_id hint = fresh_principal id email tenant_id hint

  -- Step 1: the login user, or else an existing principal.
  unfoldable pub find_login : Text → Uuid → Repo → Option (Uuid × Text)
  find_login email tenant_id r = elim (get_login_user_by_email lower email tenant_id r) [
    | some u ↦ some u
    | none ↦ elim (get_principal_by_email lower email tenant_id r) [
      | some p ↦ some (p.id, p.email)
      | none ↦ none
    ]
  ]

  -- What is done when no one was found: the queue, but for mailboxes.
  unfoldable pub queue_pending :
      IdentityHint → Uuid → Text → Text → Option Uuid → Resolver → Outcome
  queue_pending hint tenant_id email document_id account s =
      let cached : Resolver = record s {
        email_cache = insert (tenant_id, email) none s.email_cache;
      } in
      if hint.source_type == google_gmail then (some pending, cached) else (
        some pending,
        record cached {
          repo =
              (upsert_pending_identity lower (uuid4 s.draws) now tenant_id document_id email account
                s.repo).1;
          draws = suc s.draws;
        },
      )

  abbrev pub bind : MatchedOn → Uuid × Text → IdentityHint → Uuid → Text → Resolver → Outcome
  bind matched_on (id, address) hint tenant_id email s = (
    some (found 10 matched_on (bound_principal id address tenant_id hint)),
    record s { email_cache = insert (tenant_id, email) (some (id, address)) s.email_cache },
  )

  -- Step 2, where step 1 found no one. `IdentityHint` has no field `role`, so that only mailbox
  -- owners are created here.
  unfoldable pub create_or_queue :
      IdentityHint → Uuid → Text → Text → Option Uuid → Resolver → Outcome
  create_or_queue hint tenant_id email document_id account s =
      let (made, s') = create_new email tenant_id hint s in
      if nonempty email && hint.source_type == google_gmail
      then elim made [
        | some p ↦ bind by_new (p.id, p.email) hint tenant_id email s'
        | none ↦ queue_pending hint tenant_id email document_id account s'
      ]
      else queue_pending hint tenant_id email document_id account s

  unfoldable pub resolve_drive_share :
      IdentityHint → Uuid → Text → Text → Option Uuid → Resolver → Outcome
  resolve_drive_share hint tenant_id email document_id account s =
      let cache_key : Uuid × Text = (tenant_id, email) in
      elim (get cache_key s.email_cache) [
        | some (some (id, address)) ↦
            (some (found 10 by_email (bound_principal id address tenant_id hint)), s)
        | some none ↦ (some pending, s)
        | none ↦ elim (find_login email tenant_id s.repo) [
          | some user ↦ bind by_email user hint tenant_id email s
          | none ↦ create_or_queue hint tenant_id email document_id account s
        ]
      ]

  unfoldable pub match_by_email : Text → Uuid → IdentityHint → Repo → Option Principal × Repo
  match_by_email email tenant_id hint r = elim (get_principal_by_email lower email tenant_id r) [
    | none ↦ (none, r)
    | some p ↦ let (p', r') = update_source_identity p hint r in (some p', r')
  ]

  -- The loop over the matchers; only the username matcher has `match_by_username`.
  unfoldable pub match_by_username :
      List Matcher → Text → Uuid → IdentityHint → Repo → Option Principal × Repo
  match_by_username [] username tenant_id hint r = (none, r)
  match_by_username (email_matcher ∷ ms) username tenant_id hint r =
      match_by_username ms username tenant_id hint r
  match_by_username (username_matcher ∷ ms) username tenant_id hint r =
      let rest = match_by_username ms username tenant_id hint r in
      elim (get_principal_by_source_identity hint.source_type username tenant_id r) [
        | none ↦ rest
        | some p ↦ let (p', r') = update_source_identity p hint r in (some p', r')
      ]

  -- Creation, where nothing matched.
  unfoldable pub resolve_new : Option Text → Uuid → IdentityHint → Resolver → Outcome
  resolve_new none tenant_id hint s = (none, s)
  resolve_new (some email) tenant_id hint s =
      let (made, s') = create_new email tenant_id hint s in
      elim made [ none ↦ (none, s') | some p ↦ (some (found 10 by_new p), s') ]

  unfoldable pub resolve_username :
      List Matcher → Option Text → Uuid → IdentityHint → Resolver → Outcome
  resolve_username matchers email tenant_id hint s =
      let username : Text = elim hint.username [ none ↦ [] | some u ↦ u ] in
      let (matched, r) = match_by_username matchers username tenant_id hint s.repo in
      if nonempty username
      then elim matched [
        | some p ↦ (some (found 8 by_username p), with_repo r s)
        | none ↦ resolve_new email tenant_id hint s
      ]
      else resolve_new email tenant_id hint s

  unfoldable pub resolve_email :
      List Matcher → Option Text → Uuid → IdentityHint → Resolver → Outcome
  resolve_email matchers none tenant_id hint s = resolve_username matchers none tenant_id hint s
  resolve_email matchers (some email) tenant_id hint s =
      let (matched, r) = match_by_email email tenant_id hint s.repo in
      elim matched [
        | some p ↦ (some (found 10 by_email p), with_repo r s)
        | none ↦ resolve_username matchers (some email) tenant_id hint s
      ]

  -- `hint.email` normalised, if it is there and not empty.
  abbrev pub hint_email : IdentityHint → Option Text
  hint_email hint = elim hint.email [ none ↦ none | some m ↦ normalize_email m ]

  unfoldable pub resolve :
      List Matcher → IdentityHint → Uuid → Option Text → Option Uuid → Resolver → Outcome
  resolve matchers hint tenant_id document_id account s =
      let other = resolve_email matchers (hint_email hint) tenant_id hint s in
      elim (hint_email hint) [
        | none ↦ other
        | some email ↦
            if is_mirror_source hint.source_type
            then resolve_drive_share hint tenant_id email (document_or_unknown document_id) account
                s
            else other
      ]
