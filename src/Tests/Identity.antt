-- ===== src/Tests/Identity.antt =====
-- A Drive share of an email that nobody has, and its compilation.
use sync_ai_final.Base.{
  is_some, nat_eq, list_eqb, list_eq, option_eq, pair_eq, Text, codes, is_space, lstrip, keep_char,
  rstrip, strip, get, has_key, ℕ, ◌+◌, ◌≡◌, refl, Bool, true, false, Option, none, some, List, [],
  ◌∷◌,
}
use sync_ai_final.Models.{Uuid, read, IdentityHint}
use sync_ai_final.Store.{empty_repo, get_principal_by_email, get_login_user_by_email}
use sync_ai_final.Identity.{
  Resolver, Outcome, Matcher, email_matcher, username_matcher, google_drive, pending,
  normalize_email, find_login, hint_email, resolve,
}
use sync_ai_final.Identity.Mirror.{resolve-principals, resolve-pending}
use sync_ai_final.Acl.Compiler.{State, compile}
use sync_ai_final.Acl.Compiler.Allow.{denies, compile-denies}
use sync_ai_final.Tests.Samples.{ascii_lower, doc_a, service, document}

abbrev any_email : Text → Bool
any_email s = true

abbrev draw : ℕ → Uuid
draw n = n + 500

abbrev share : IdentityHint
share = record {
  source_type = google_drive;
  external_id = codes "e";
  email = some (codes "X@y");
  username = none;
  name = none;
}

abbrev matchers : List Matcher
matchers = email_matcher ∷ username_matcher ∷ []

abbrev resolver : Resolver
resolver = record { repo = empty_repo; email_cache = []; draws = 0 }

abbrev shared : Text
shared = codes "x@y"

abbrev resolve_share : Option Text → Resolver → Outcome
resolve_share doc = resolve ascii_lower any_email draw 3 matchers share 1 doc none

hint_email-share : hint_email ascii_lower any_email draw 3 share ≡ some shared
unfolding normalize_email strip lstrip rstrip keep_char is_space list_eqb
hint_email-share = refl

find_login-share : find_login ascii_lower any_email draw 3 shared 1 empty_repo ≡ none
unfolding find_login get_login_user_by_email get_principal_by_email get strip lstrip rstrip
    keep_char is_space list_eqb
find_login-share = refl

resolve-principals_example :
    let (res, s') = resolve_share (some doc_a) resolver in
    (s'.repo.principals ≡ []) × (s'.repo.principals_by_email ≡ []) × (is_some res ≡ true)
resolve-principals_example =
    resolve-principals ascii_lower any_email draw 3 matchers share 1 none resolver hint_email-share
      refl (some doc_a)

resolve-pending_example :
    let s' = (resolve_share (some doc_a) resolver).1 in
    ((resolve_share (some doc_a) resolver).0 ≡ some pending)
    × (has_key (1, (doc_a, shared)) s'.repo.pending_identity ≡ true)
    × (resolve_share (some (codes "b")) s' ≡ (some pending, s'))
unfolding get strip lstrip rstrip keep_char is_space list_eqb
resolve-pending_example =
    resolve-pending ascii_lower any_email draw 3 matchers share 1 none resolver hint_email-share
      refl (some doc_a) (some (codes "b")) refl find_login-share

abbrev compiler : State
compiler = record { service = service; email_cache = []; draws = 0 }

compile-denies_example :
    denies
      (compile 3 ascii_lower any_email draw matchers document ((share, read) ∷ []) 1 compiler).0
    ≡ false
compile-denies_example =
    compile-denies 3 document ascii_lower any_email draw matchers 1 ((share, read) ∷ []) compiler
