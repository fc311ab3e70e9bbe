-- ===== src/Cursors.antt =====
-- `CursorStore`, backend/app/services/cursor_store.py: the table of resume cursors and watches, with the
-- primary key `(tenant_id, source_type)`. Watch data are a dict of JSON values; `int()` is a parameter.
pub mod Stored
use sync_ai_final.Base.{
  leb, nat_eqb, if◌then◌else◌, ◌==◌, nat_eq, list_eq, option_eq, pair_eq, is_empty, filter, Text,
  codes, nonempty, Dict, values, get, insert, ℕ, Bool, true, false, not, ◌&&◌, Option, none, some,
  List, [], ◌∷◌, map,
}
use sync_ai_final.Models.{Time}
use sync_ai_final.Acl.Terms.{null, text, other, Claim, atom, items, truthy}
use sync_ai_final.Gateway.Dispatch.{Number, nonnegative, negative}

abbrev pub WatchData : Type 0
WatchData = Dict Text Claim

pub record SyncCursor : Type 0 where
  pub cursor : Option Text
  pub watch_data : Option WatchData
  pub watch_expiration : Option Number
  pub last_sync_at : Option Time

abbrev pub CursorTable : Type 0
CursorTable = Dict (Text × Text) SyncCursor

-- `cursor or None`, where a missing cursor counts as the empty one
abbrev pub or_none : Text → Option Text
or_none cursor = if nonempty cursor then some cursor else none

unfoldable pub get_cursor_and_watch : Text → Text → CursorTable → Option Text × Option WatchData
get_cursor_and_watch tenant_id source_type t = elim (get (tenant_id, source_type) t) [
  | none ↦ (none, none)
  | some r ↦ (r.cursor, r.watch_data)
]

unfoldable pub get_cursor : Text → Text → CursorTable → Option Text
get_cursor tenant_id source_type t = (get_cursor_and_watch tenant_id source_type t).0

abbrev pub updated_cursor : Time → Text → Option SyncCursor → SyncCursor
updated_cursor now cursor (some r) = record r { cursor = or_none cursor; last_sync_at = some now }
updated_cursor now cursor none = record {
  cursor = or_none cursor;
  watch_data = none;
  watch_expiration = none;
  last_sync_at = some now;
}

unfoldable pub update_cursor : Time → Text → Text → Text → CursorTable → CursorTable
update_cursor now tenant_id source_type cursor t =
    insert (tenant_id, source_type) (updated_cursor now cursor (get (tenant_id, source_type) t)) t

-- `watch_data or None`
abbrev pub watch_or_none : WatchData → Option WatchData
watch_or_none w = if is_empty w then none else some w

-- A value that is missing, false or no number is 0, and 0 is stored as `None`.
unfoldable pub watch_expiration_of : (to_int : Claim → Option Number) → WatchData → Option Number
watch_expiration_of to_int w = elim (get (codes "expiration") w) [
  | none ↦ none
  | some v ↦
      if truthy v
      then elim (to_int v) [
        | none ↦ none
        | some (nonnegative n) ↦ if nat_eqb n 0 then none else some (nonnegative n)
        | some (negative n) ↦ some (negative n)
      ]
      else none
]

unfoldable pub set_watch_info :
    (to_int : Claim → Option Number) → Text → Text → WatchData → CursorTable → CursorTable
set_watch_info to_int tenant_id source_type w t = elim (get (tenant_id, source_type) t) [
  | some r ↦
      insert (tenant_id, source_type)
        (record r { watch_data = watch_or_none w; watch_expiration = watch_expiration_of to_int w })
        t
  | none ↦
      if is_empty w
      then t
      else insert (tenant_id, source_type)
          (record {
            cursor = none;
            watch_data = some w;
            watch_expiration = watch_expiration_of to_int w;
            last_sync_at = none;
          })
          t
]

unfoldable pub clear_watch_info : Text → Text → CursorTable → CursorTable
clear_watch_info tenant_id source_type t = elim (get (tenant_id, source_type) t) [
  | none ↦ t
  | some r ↦
      insert (tenant_id, source_type) (record r { watch_data = none; watch_expiration = none }) t
]

unfoldable pub get_watch_info : Text → Text → CursorTable → Option WatchData
get_watch_info tenant_id source_type t = (get_cursor_and_watch tenant_id source_type t).1

pub record Watch : Type 0 where
  pub tenant_id : Text
  pub source_type : Text
  pub watch_data : Option WatchData

abbrev pub watch_of : (Text × Text) × SyncCursor → Watch
watch_of row = record { tenant_id = row.0.0; source_type = row.0.1; watch_data = row.1.watch_data }

-- `watch_data.get(key) == value`, of a text
abbrev pub has_text : Text → Text → WatchData → Bool
has_text key value w = elim (get key w) [
  | none ↦ false
  | some (atom (text t)) ↦ t == value
  | some (atom null) ↦ false
  | some (atom (other b t)) ↦ false
  | some (items t vs) ↦ false
]

abbrev pub is_channel : Text → Text → SyncCursor → Bool
is_channel channel_id resource_id r = elim r.watch_data [
  | none ↦ false
  | some w ↦
      not (is_empty w)
      && has_text (codes "channel_id") channel_id w
      && has_text (codes "resource_id") resource_id w
]

unfoldable pub get_watch_by_channel : Text → Text → CursorTable → Option Watch
get_watch_by_channel channel_id resource_id [] = none
get_watch_by_channel channel_id resource_id (row ∷ t) =
    if is_channel channel_id resource_id row.1
    then some (watch_of row)
    else get_watch_by_channel channel_id resource_id t

-- The rows with the source type; the key of a row has its tenant.
abbrev pub rows_of : Text → CursorTable → CursorTable
rows_of source_type t = filter (λ (row : (Text × Text) × SyncCursor). row.0.1 == source_type) t

-- `none` is the exception of `scalar_one_or_none` on several rows.
unfoldable pub get_watch_by_email : Text → Text → CursorTable → Option (Option Watch)
get_watch_by_email email_address source_type t = elim (rows_of source_type t) [
  | [] ↦ some none
  | row ∷ [] ↦ some (some (watch_of row))
  | row ∷ next ∷ rest ↦ none
]

abbrev pub has_cursor : SyncCursor → Bool
has_cursor r = elim r.cursor [ none ↦ false | some c ↦ nonempty c ]

unfoldable pub list_tenants_with_cursor : Text → CursorTable → List Text
list_tenants_with_cursor source_type t =
    map (λ (row : (Text × Text) × SyncCursor). row.0.0)
      (filter (λ (row : (Text × Text) × SyncCursor). has_cursor row.1) (rows_of source_type t))

abbrev pub expires_by : ℕ → SyncCursor → Bool
expires_by threshold_ms r = elim r.watch_expiration [
  | none ↦ false
  | some (negative n) ↦ true
  | some (nonnegative n) ↦ leb n threshold_ms
]

-- `threshold_ms` is the clock and the hours, in milliseconds.
unfoldable pub get_expiring_watches : (threshold_ms : ℕ) → CursorTable → List Watch
get_expiring_watches threshold_ms t =
    map watch_of (filter (λ (row : (Text × Text) × SyncCursor). expires_by threshold_ms row.1) t)
