-- ===== src/Sync.antt =====
-- `SyncOrchestrator.run_two_pass_sync`, backend/app/services/sync.py, with the checkpoints that
-- backend/app/workers/tasks.py writes after each page. A connector is a function of the cursor; the
-- indexer and the pipeline are functions too. A crawl that has run `fuel` rounds stops there.
pub mod Resumed
pub mod Pages
use sync_ai_final.Base.{
  if◌then◌else◌, nat_eq, list_eq, option_eq, pair_eq, length, is_empty, Text, codes, nonempty, ℕ,
  zero, suc, ◌+◌, Bool, true, false, not, ◌&&◌, ◌||◌, Option, none, some, List, [], ◌∷◌, ◌++◌, map,
}
use sync_ai_final.Models.{Time}
use sync_ai_final.Graph.Walk.{contains_text}
use sync_ai_final.Connectors.{Client, is_disconnected}
use sync_ai_final.Cursors.{CursorTable, update_cursor}

-- What a connector answers, or the exception that it raises.
pub data Deleted : Type 0 where
  deleted_page : List Text → Option Text → Bool → Deleted
  not_implemented : Deleted
  deleted_unauthorized : Deleted
  deleted_failed : Deleted

module _ (Raw : Type 0) where
  pub data Delta : Type 0 where
    delta_page : List Raw → Option Text → Bool → Delta
    delta_unauthorized : Delta
    delta_failed : Text → Delta

-- The documents of the pipeline, or its exception: a routing failure or another.
module _ (Doc : Type 0) where
  pub data Piped : Type 0 where
    piped : List Doc → Piped
    routing_failure : Piped
    pipe_failed : Piped

pub data Pipeline : Type 0 where
  block_c fallback_transform : Pipeline

pub record Stats : Type 0 where
  pub indexed_count : ℕ
  pub deleted_count : ℕ
  pub final_cursor : Option Text
  pub pages_processed : ℕ
  pub indexed_ids : List Text
  pub pipeline : Option Pipeline

abbrev pub new_stats : Option Text → Stats
new_stats cursor = record {
  indexed_count = 0;
  deleted_count = 0;
  final_cursor = cursor;
  pages_processed = 0;
  indexed_ids = [];
  pipeline = none;
}

-- `if cursor:`, of an optional text
abbrev pub is_given : Option Text → Bool
is_given none = false
is_given (some c) = nonempty c

-- `"Invalid Value" in err or "pageToken" in err or "invalid" in err.lower()`
abbrev pub is_invalid_cursor : (lower : Text → Text) → Text → Bool
is_invalid_cursor lower err =
    contains_text (codes "Invalid Value") err
    || contains_text (codes "pageToken") err
    || contains_text (codes "invalid") (lower err)

-- The connector, the pipeline and the indexer of a sync. `none` is an exception that propagates.
pub record Parts : Type 1 where
  pub Raw : Type 0
  pub Doc : Type 0
  pub Index : Type 0
  pub id_of : Doc → Text
  pub fetch_deleted_ids : Option Text → Deleted
  pub fetch_delta : Option Text → Delta Raw
  pub transform : List Raw → Option (List Doc)
  pub process_raw_batch : List Raw → Piped Doc
  pub delete_by_ids : List Text → Index → Option Index
  pub bulk_index : List Doc → Index → Option Index

module _ (parts : Parts) where
  open parts use {
    Raw, Doc, Index, id_of, fetch_deleted_ids, fetch_delta, transform, process_raw_batch,
    delete_by_ids, bulk_index,
  }

  -- What a sync changes.
  pub record Crawl : Type 0 where
    pub index : Index
    pub cursors : CursorTable
    pub stats : Stats

  -- What a round of a loop comes to.
  pub data Round : Type 0 where
    again : Option Text → Bool → Crawl → Round
    done : Crawl → Round
    propagated : Crawl → Round

  pub data Outcome : Type 0 where
    finished : Crawl → Outcome
    raised_error : Crawl → Outcome
    stopped : Option Text → Bool → Crawl → Outcome

  -- How a loop goes on after a round.
  abbrev pub continue : (Option Text → Bool → Crawl → Outcome) → Round → Outcome
  continue loop (again cursor retried c) = loop cursor retried c
  continue loop (done c) = finished c
  continue loop (propagated c) = raised_error c

  unfoldable pub deletion_round : Option Text → Crawl → Round
  deletion_round del_cursor c = elim (fetch_deleted_ids del_cursor) [
    | not_implemented ↦ done c
    | deleted_unauthorized ↦ propagated c
    | deleted_failed ↦ done c
    | deleted_page ids next has_more ↦
        let go_on =
          λ (c' : Crawl). if has_more && is_given next then again next false c' else done c' in
        if is_empty ids then go_on c else elim (delete_by_ids ids c.index) [
          | none ↦ propagated c
          | some index' ↦ go_on (record {
            index = index';
            cursors = c.cursors;
            stats = record c.stats { deleted_count = c.stats.deleted_count + length ids };
          })
        ]
  ]

  unfoldable pub deletion_pass : (fuel : ℕ) → Option Text → Bool → Crawl → Outcome
  deletion_pass zero del_cursor retried c = stopped del_cursor retried c
  deletion_pass (suc fuel) del_cursor retried c =
      continue (deletion_pass fuel) (deletion_round del_cursor c)

  -- The documents of a page, and where they come from.
  unfoldable pub page_docs : List Raw → Option (List Doc × Pipeline)
  page_docs documents = elim (transform documents) [
    | none ↦ none
    | some docs ↦ elim (process_raw_batch documents) [
      | routing_failure ↦ none
      | pipe_failed ↦ some (docs, fallback_transform)
      | piped batch ↦ some (if is_empty batch then (docs, fallback_transform) else (batch, block_c))
    ]
  ]

  unfoldable pub add_docs : List Doc → Pipeline → Index → Crawl → Crawl
  add_docs docs pipeline index' c = record {
    index = index';
    cursors = c.cursors;
    stats = record c.stats {
      indexed_count = c.stats.indexed_count + length docs;
      indexed_ids = c.stats.indexed_ids ++ map id_of docs;
      pipeline = some pipeline;
    };
  }

  unfoldable pub index_docs : List Doc → Pipeline → Crawl → Option Crawl
  index_docs [] pipeline c = some (record {
    index = c.index;
    cursors = c.cursors;
    stats = record c.stats { pipeline = some pipeline };
  })
  index_docs (d ∷ ds) pipeline c = elim (bulk_index (d ∷ ds) c.index) [
    | none ↦ none
    | some index' ↦ some (add_docs (d ∷ ds) pipeline index' c)
  ]

  unfoldable pub index_page : List Raw → Crawl → Option Crawl
  index_page [] c = some c
  index_page (raw ∷ raws) c = elim (page_docs (raw ∷ raws)) [
    | none ↦ none
    | some (docs, pipeline) ↦ index_docs docs pipeline c
  ]

  -- `status_at` is the store of the connector's status when the checkpoint of a cursor is written.
  module _ (lower : Text → Text) (now : Time) (status_at : Text → Client) (status_key_of : Text)
      (tenant_id source_type : Text) where
    -- `_persist_checkpoint`: `none` is its `RuntimeError`.
    unfoldable pub persist_checkpoint : Text → Crawl → Option Crawl
    persist_checkpoint next_cursor c =
        if is_disconnected status_key_of (status_at next_cursor)
        then none
        else some (record {
          index = c.index;
          cursors = update_cursor now tenant_id source_type next_cursor c.cursors;
          stats = c.stats;
        })

    -- What follows the indexing of a page.
    unfoldable pub end_page : Option Text → Bool → Bool → Crawl → Round
    end_page none has_more retried c = done (record {
      index = c.index;
      cursors = c.cursors;
      stats = record c.stats { pages_processed = suc c.stats.pages_processed };
    })
    end_page (some next_c) has_more retried c =
        let st : Stats = record c.stats { pages_processed = suc c.stats.pages_processed } in
        let c' : Crawl = record {
          index = c.index;
          cursors = c.cursors;
          stats = record st { final_cursor = some next_c };
        } in
        if not (nonempty next_c)
        then done (record { index = c.index; cursors = c.cursors; stats = st })
        else elim (persist_checkpoint next_c c') [
          | none ↦ propagated c'
          | some saved ↦ if has_more then again (some next_c) retried saved else done saved
        ]

    -- What follows the answer of the connector.
    unfoldable pub delta_answer : Delta Raw → Option Text → Bool → Crawl → Round
    delta_answer delta_unauthorized cursor retried c = propagated c
    delta_answer (delta_failed err) cursor retried c =
        let c' : Crawl = record {
          index = c.index;
          cursors = c.cursors;
          stats = record c.stats { final_cursor = none };
        } in
        if is_given cursor && not retried && is_invalid_cursor lower err
        then elim (persist_checkpoint [] c') [
          | none ↦ propagated c'
          | some saved ↦ again none true saved
        ]
        else done c
    delta_answer (delta_page documents next has_more) cursor retried c =
        elim (index_page documents c) [
          | none ↦ propagated c
          | some c' ↦ end_page next has_more retried c'
        ]

    unfoldable pub delta_round : Option Text → Bool → Crawl → Round
    delta_round cursor retried c = delta_answer (fetch_delta cursor) cursor retried c

    unfoldable pub delta_pass : (fuel : ℕ) → Option Text → Bool → Crawl → Outcome
    delta_pass zero cursor retried c = stopped cursor retried c
    delta_pass (suc fuel) cursor retried c =
        continue (delta_pass fuel) (delta_round cursor retried c)

    -- With `fuel` rounds for each pass.
    unfoldable pub run_two_pass_sync : (fuel : ℕ) → Option Text → Index → CursorTable → Outcome
    run_two_pass_sync fuel cursor index cursors =
        elim (deletion_pass fuel none false
          (record { index = index; cursors = cursors; stats = new_stats cursor })) [
            | finished c ↦ delta_pass fuel cursor false c
            | raised_error c ↦ raised_error c
            | stopped del_cursor retried c ↦ stopped del_cursor retried c
          ]
