-- ===== src/Cursors/Stored.antt =====
-- What is read of the table after a write.
use sync_ai_final.Base.{
  nat_eq, list_eq, option_eq, pair_eq, eqb_refl, Text, get, get-insert, ◌≡◌, refl, Option, none,
  some,
}
use sync_ai_final.Models.{Time}
use sync_ai_final.Cursors.{
  SyncCursor, CursorTable, or_none, get_cursor_and_watch, get_cursor, updated_cursor, update_cursor,
}

cursor-updated_cursor :
    (now : Time) (cursor : Text) (old : Option SyncCursor)
    → (updated_cursor now cursor old).cursor ≡ or_none cursor
cursor-updated_cursor now cursor none = refl
cursor-updated_cursor now cursor (some r) = refl

pub get_cursor-update_cursor :
    (now : Time) (tenant_id source_type cursor : Text) (t : CursorTable)
    → get_cursor tenant_id source_type (update_cursor now tenant_id source_type cursor t)
      ≡ or_none cursor
unfolding get_cursor get_cursor_and_watch update_cursor
get_cursor-update_cursor now tenant_id source_type cursor t =
    let k : Text × Text = (tenant_id, source_type) in
    let r = updated_cursor now cursor (get k t) in
    rw (get-insert k k r t, get_cursor)
      (rw (eqb_refl k) (cursor-updated_cursor now cursor (get k t)))
