-- ===== src/Store/Entries/Drain.antt =====
-- Draining the queue of shares that wait for a login.
use sync_ai_final.Base.{
  if◌then◌else◌, nat_eq, list_eqb_iff, list_eq, option_eq, pair_eq, any, any-append, contains, Text,
  strip, Dict, values, ◌≡◌, refl, Bool, true, false, List, [], ◌∷◌, arith,
}
use sync_ai_final.Models.{Uuid, Time, AclEntry}
use sync_ai_final.Store.{PendingRow, Repo}
use sync_ai_final.Store.Entries.{
  get_acl_entries, same_grant, insert_acl_entry, bound_share_acl_entry, is_waiting, drain_rows,
  drain_pending_identity_queue,
}
use sync_ai_final.Store.Entries.Access.{get_acl_entries-insert_acl_entry, insert_acl_entry_lem}

-- An insertion under any document loses no row.
any-insert_acl_entry :
    (p : AclEntry → Bool) (entry : AclEntry) (r : Repo) (d : Text)
    → any p (get_acl_entries d r) ≡ true
    → any p (get_acl_entries d (insert_acl_entry entry r)) ≡ true
any-insert_acl_entry p entry r d h = ground (
  arith,
  get_acl_entries-insert_acl_entry entry r d,
  any-append p (get_acl_entries d r) (entry ∷ []),
)

-- The documents of the rows that wait, in the queue's order.
module _ (tenant : Uuid) (normalized : Text) where
  abbrev pub waiting_ids : List PendingRow → List Text
  waiting_ids [] = []
  waiting_ids (row ∷ rows) =
      if is_waiting tenant normalized row
      then row.document_id ∷ waiting_ids rows
      else waiting_ids rows

module _ (now : Time) (tenant : Uuid) (normalized : Text) (principal : Uuid) where
  abbrev grant_for : Text → AclEntry
  grant_for d = bound_share_acl_entry now d principal tenant

  drain_rows-keeps :
      (rows : Dict (Uuid × (Text × Text)) PendingRow) (r : Repo) (p : AclEntry → Bool) (d : Text)
      → any p (get_acl_entries d r) ≡ true
      → any p (get_acl_entries d (drain_rows now tenant normalized principal rows r).2) ≡ true
  unfolding drain_rows
  drain_rows-keeps [] r p d h = h
  drain_rows-keeps ((key, row) ∷ rows) r p d h =
      let entry = grant_for row.document_id in
      ground (
        arith,
        drain_rows-keeps rows r p d,
        drain_rows-keeps rows (insert_acl_entry entry r) p d,
        any-insert_acl_entry p entry r d,
      )

  drain_rows-drained :
      (rows : Dict (Uuid × (Text × Text)) PendingRow) (r : Repo)
      → (drain_rows now tenant normalized principal rows r).1
        ≡ waiting_ids tenant normalized (values rows)
  unfolding drain_rows
  drain_rows-drained [] r = refl
  drain_rows-drained ((key, row) ∷ rows) r = ground (
    arith,
    drain_rows-drained rows r,
    drain_rows-drained rows (insert_acl_entry (grant_for row.document_id) r),
  )

  drain_rows-resolves :
      (rows : Dict (Uuid × (Text × Text)) PendingRow) (r : Repo)
      → any
          (is_waiting tenant normalized)
          (values (drain_rows now tenant normalized principal rows r).0)
        ≡ false
  unfolding drain_rows
  drain_rows-resolves [] r = refl
  drain_rows-resolves ((key, row) ∷ rows) r = ground (
    arith,
    drain_rows-resolves rows r,
    drain_rows-resolves rows (insert_acl_entry (grant_for row.document_id) r),
  )

  drain_rows-grants :
      (rows : Dict (Uuid × (Text × Text)) PendingRow) (r : Repo) (d : Text)
      → contains (waiting_ids tenant normalized (values rows)) d ≡ true
      → any
          (same_grant (grant_for d))
          (get_acl_entries d (drain_rows now tenant normalized principal rows r).2)
        ≡ true
  unfolding drain_rows bound_share_acl_entry
  drain_rows-grants [] r d h = cc
  drain_rows-grants ((key, row) ∷ rows) r d h =
      let entry = grant_for row.document_id in
      let r1 = insert_acl_entry entry r in
      ground (
        arith,
        list_eqb_iff row.document_id d,
        drain_rows-grants rows r d,
        drain_rows-grants rows r1 d,
        drain_rows-keeps rows r1 (same_grant entry) row.document_id,
        insert_acl_entry_lem entry r (same_grant entry),
      )

-- Draining the queue for an email reports the documents of exactly the rows that waited, in the
-- queue's order; no row of the email waits afterwards; every reported document has a row that
-- grants it to the principal; and no document loses a row.
pub drain_pending_identity_queue_lem :
    (lower : Text → Text) (now : Time) (tenant : Uuid) (email : Text) (principal : Uuid) (r : Repo)
    → let (drained, r') = drain_pending_identity_queue lower now tenant email principal r in
      let normalized = lower (strip email) in
      (drained ≡ waiting_ids tenant normalized (values r.pending_identity))
      × (any (is_waiting tenant normalized) (values r'.pending_identity) ≡ false)
      × ((d : Text)
          → contains drained d ≡ true
          → any (same_grant (bound_share_acl_entry now d principal tenant)) (get_acl_entries d r')
            ≡ true)
      × ((d : Text) (p : AclEntry → Bool)
          → any p (get_acl_entries d r) ≡ true
          → any p (get_acl_entries d r') ≡ true)
unfolding drain_pending_identity_queue get_acl_entries
drain_pending_identity_queue_lem lower now tenant email principal r =
    let normalized = lower (strip email) in
    let rows = r.pending_identity in
    (
      drain_rows-drained now tenant normalized principal rows r,
      drain_rows-resolves now tenant normalized principal rows r,
      λ d h.
          drain_rows-grants now tenant normalized principal rows r d
            (rw (drain_rows-drained now tenant normalized principal rows r) at h),
      λ d p h. drain_rows-keeps now tenant normalized principal rows r p d h,
    )
