-- ===== src/Tests/Sync.antt =====
-- A connector of two pages.
use sync_ai_final.Base.{
  nat_eq, list_eq, option_eq, pair_eq, Text, codes, get, ℕ, ◌+◌, ◌≡◌, refl, true, false, Option,
  none, some, List, [], ◌∷◌, ◌++◌,
}
use sync_ai_final.Connectors.{Client, get_status_raw, is_disconnected}
use sync_ai_final.Cursors.{get_cursor_and_watch, get_cursor, update_cursor}
use sync_ai_final.Sync.{
  Deleted, not_implemented, Delta, delta_page, piped, block_c, new_stats, Parts, Crawl, finished,
  page_docs, add_docs, index_docs, index_page, persist_checkpoint, end_page, delta_answer,
  delta_round, delta_pass,
}
use sync_ai_final.Sync.Pages.{delta_pass-Serves}
use sync_ai_final.Sync.Resumed.{join_outcome, restarted, delta_pass_resumed}
use sync_ai_final.Tests.Samples.{ascii_lower}

-- From the start the page with 1 and the cursor "n", and from there the page with 2.
abbrev two_pages : Option Text → Delta ℕ
two_pages none = delta_page (1 ∷ []) (some (codes "n")) true
two_pages (some c) = delta_page (2 ∷ []) none false

abbrev no_deletions : Option Text → Deleted
no_deletions cursor = not_implemented

abbrev sample_parts : Parts
sample_parts = record {
  Raw = ℕ;
  Doc = ℕ;
  Index = List ℕ;
  id_of = λ d. d ∷ [];
  fetch_deleted_ids = no_deletions;
  fetch_delta = two_pages;
  transform = λ raws. some raws;
  process_raw_batch = λ raws. piped raws;
  delete_by_ids = λ ids index. some index;
  bulk_index = λ docs index. some (index ++ docs);
}

abbrev fresh : Crawl sample_parts
fresh = record { index = []; cursors = []; stats = new_stats none }

-- The status of the connector is in place.
abbrev always_connected : Text → Client
always_connected next = some []

abbrev after_one_page : Crawl sample_parts
after_one_page = record {
  index = 1 ∷ [];
  cursors = update_cursor 5 (codes "t") (codes "s") (codes "n") [];
  stats = record {
    indexed_count = 1;
    deleted_count = 0;
    final_cursor = some (codes "n");
    pages_processed = 1;
    indexed_ids = (1 ∷ []) ∷ [];
    pipeline = some block_c;
  };
}

delta_pass_resumed_example :
    delta_pass sample_parts ascii_lower 5 always_connected
      (codes "k")
      (codes "t")
      (codes "s")
      (1 + 3)
      none
      false
      fresh
    ≡ join_outcome sample_parts after_one_page.stats (
        delta_pass sample_parts ascii_lower 5 always_connected
          (codes "k")
          (codes "t")
          (codes "s")
          3
          (get_cursor (codes "t") (codes "s") after_one_page.cursors)
          false
          (restarted sample_parts ascii_lower 5 always_connected
            (codes "k")
            (codes "t")
            (codes "s")
            after_one_page))
unfolding get_cursor get_cursor_and_watch get delta_pass delta_round delta_answer end_page
    persist_checkpoint index_page index_docs add_docs page_docs is_disconnected get_status_raw
delta_pass_resumed_example =
    delta_pass_resumed sample_parts ascii_lower 5 always_connected (codes "k") (codes "t")
      (codes "s") 1 3 none (some (codes "n")) fresh after_one_page refl refl refl

delta_pass-Serves_example :
    (c' : Crawl sample_parts) × (delta_pass sample_parts ascii_lower 5 always_connected
        (codes "k")
        (codes "t")
        (codes "s")
        (2 + 1)
        none
        false
        fresh
      ≡ finished c')
    × (c'.index ≡ 1 ∷ 2 ∷ [])
    × (c'.stats.pages_processed ≡ 0 + 2)
unfolding page_docs is_disconnected get_status_raw get
delta_pass-Serves_example =
    delta_pass-Serves sample_parts ascii_lower 5 always_connected (codes "k") (codes "t")
      (codes "s") 1 (1 ∷ []) ((2 ∷ []) ∷ []) none false fresh (1 ∷ 2 ∷ []) (λ next. refl)
      (codes "n", refl, refl, (none, false, refl, refl)) refl
