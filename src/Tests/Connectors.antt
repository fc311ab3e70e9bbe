-- ===== src/Tests/Connectors.antt =====
-- A backfill that goes on after the disconnection.
use sync_ai_final.Base.{
  nat_eq, list_eqb, list_eq, option_eq, pair_eq, Text, codes, get, ◌≡◌, refl, true, false, none,
  some, List, [], ◌∷◌,
}
use sync_ai_final.Connectors.{Client, empty_status, get_status_raw, is_disconnected, StatusUpdate}
use sync_ai_final.Connectors.Disconnected.{
  StatusCall, updated, status_calls, is_disconnected-status_calls,
}

abbrev drive_key : Text
drive_key = codes "connector_status:t:google"

abbrev syncing_on : StatusUpdate
syncing_on = record {
  connection_status = some (codes "syncing");
  files_indexed = none;
  last_error = none;
  increment_indexed = 3;
  force = false;
}

abbrev backfill : List StatusCall
backfill = updated 5 drive_key syncing_on ∷ updated 6 (codes "other") syncing_on ∷ []

abbrev disconnected : Client
disconnected = some ((drive_key, empty_status) ∷ [])

is_disconnected-status_calls_example :
    is_disconnected drive_key (status_calls backfill disconnected) ≡ true
unfolding is_disconnected get_status_raw get list_eqb
is_disconnected-status_calls_example =
    is_disconnected-status_calls drive_key backfill disconnected refl refl
