-- ===== src/Tests/Session.antt =====
-- A token that is revoked, and asked for later.
use sync_ai_final.Base.{
  nat_eq, list_eqb, list_eq, option_eq, pair_eq, Text, codes, ◌≡◌, refl, true, List, [], ◌∷◌,
}
use sync_ai_final.Session.{Event, token_revoked, is_revoked}
use sync_ai_final.Session.Revoked.{new_cache, Turn, remembered, received, run, is_revoked-run}

abbrev pub acme : Text
acme = codes "acme"

abbrev pub old_token : Text
old_token = codes "j1"

abbrev message : Event
message = record {
  event_type = token_revoked;
  tenant_id = acme;
  jti = old_token;
  principal_id = [];
}

abbrev pub turns : List Turn
turns =
    remembered 1 acme old_token (codes "p")
    ∷ received message
    ∷ remembered 5 acme old_token (codes "p")
    ∷ []

is_revoked-run_example :
    (is_revoked 9 acme old_token (codes "p") (run turns (new_cache 2))).0 ≡ true
unfolding list_eqb
is_revoked-run_example = is_revoked-run acme refl 9 old_token (codes "p") 2 turns
