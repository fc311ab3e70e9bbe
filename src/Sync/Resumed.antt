-- ===== src/Sync/Resumed.antt =====
-- A crawl that is killed after a page, and the crawl that goes on from its checkpoint.
use sync_ai_final.Base.{
  Option-cases, nat_eq, list_eq, option_eq, pair_eq, Text, ℕ, zero, suc, ◌+◌, ◌≡◌, refl, sym, ap,
  ◌∙◌, inl, inr, Bool, false, Option, none, some, List, [], ◌∷◌, ◌++◌, map, append-nil,
  append_assoc, arith,
}
use sync_ai_final.Models.{Time}
use sync_ai_final.Connectors.{Client}
use sync_ai_final.Cursors.{get_cursor}
use sync_ai_final.Cursors.Stored.{get_cursor-update_cursor}
use sync_ai_final.Sync.{
  Delta, delta_page, delta_unauthorized, delta_failed, Pipeline, Stats, new_stats, Parts, Crawl,
  Round, again, done, propagated, Outcome, finished, raised_error, stopped, continue, page_docs,
  add_docs, index_docs, index_page, persist_checkpoint, end_page, delta_answer, delta_round,
  delta_pass,
}

-- The stats of a crawl that had `before` when it was killed, and then did `after`.
abbrev pub joined : Stats → Stats → Stats
joined before after = record {
  indexed_count = before.indexed_count + after.indexed_count;
  deleted_count = before.deleted_count + after.deleted_count;
  final_cursor = after.final_cursor;
  pages_processed = before.pages_processed + after.pages_processed;
  indexed_ids = before.indexed_ids ++ after.indexed_ids;
  pipeline = elim after.pipeline [ none ↦ before.pipeline | some p ↦ some p ];
}

module _ (parts : Parts) where
  abbrev pub join : Stats → Crawl parts → Crawl parts
  join before c = record { index = c.index; cursors = c.cursors; stats = joined before c.stats }

  abbrev join_round : Stats → Round parts → Round parts
  join_round before (again cursor retried c) = again cursor retried (join before c)
  join_round before (done c) = done (join before c)
  join_round before (propagated c) = propagated (join before c)

  abbrev pub join_outcome : Stats → Outcome parts → Outcome parts
  join_outcome before (finished c) = finished (join before c)
  join_outcome before (raised_error c) = raised_error (join before c)
  join_outcome before (stopped cursor retried c) = stopped cursor retried (join before c)

  abbrev join_option : Stats → Option (Crawl parts) → Option (Crawl parts)
  join_option before none = none
  join_option before (some c) = some (join before c)

  add_docs-join :
      (before : Stats) (docs : List parts.Doc) (pipeline : Pipeline) (index' : parts.Index)
      (c : Crawl parts)
      → add_docs parts docs pipeline index' (join before c)
        ≡ join before (add_docs parts docs pipeline index' c)
  unfolding add_docs
  add_docs-join before docs pipeline index' c =
      ground (arith, append_assoc before.indexed_ids c.stats.indexed_ids (map parts.id_of docs))

  index_docs-join :
      (before : Stats) (docs : List parts.Doc) (pipeline : Pipeline) (c : Crawl parts)
      → index_docs parts docs pipeline (join before c)
        ≡ join_option before (index_docs parts docs pipeline c)
  unfolding index_docs
  index_docs-join before [] pipeline c = refl
  index_docs-join before (d ∷ ds) pipeline c =
      elim (Option-cases (parts.bulk_index (d ∷ ds) c.index)) [
        | inl e ↦ rw (e, index_docs) refl
        | inr (index', e) ↦
            rw (e, index_docs) (ap some (add_docs-join before (d ∷ ds) pipeline index' c))
      ]

  index_page-join :
      (before : Stats) (documents : List parts.Raw) (c : Crawl parts)
      → index_page parts documents (join before c)
        ≡ join_option before (index_page parts documents c)
  unfolding index_page
  index_page-join before [] c = refl
  index_page-join before (raw ∷ raws) c = elim (Option-cases (page_docs parts (raw ∷ raws))) [
    | inl e ↦ rw (e, index_page) refl
    | inr ((docs, pipeline), e) ↦ rw (e, index_page) (index_docs-join before docs pipeline c)
  ]

  continue-join :
      (before : Stats) (loop : Option Text → Bool → Crawl parts → Outcome parts)
      → ((cursor : Option Text) (retried : Bool) (c : Crawl parts)
          → loop cursor retried (join before c) ≡ join_outcome before (loop cursor retried c))
      → (r : Round parts)
      → continue parts loop (join_round before r) ≡ join_outcome before (continue parts loop r)
  continue-join before loop h (again cursor retried c) = h cursor retried c
  continue-join before loop h (done c) = refl
  continue-join before loop h (propagated c) = refl

  module _ (lower : Text → Text) (now : Time) (status_at : Text → Client) (status_key_of : Text)
      (tenant_id source_type : Text) where
    abbrev ending : Option Text → Bool → Bool → Crawl parts → Round parts
    ending = end_page parts lower now status_at status_key_of tenant_id source_type

    abbrev round : Option Text → Bool → Crawl parts → Round parts
    round = delta_round parts lower now status_at status_key_of tenant_id source_type

    abbrev pub pass : ℕ → Option Text → Bool → Crawl parts → Outcome parts
    pass = delta_pass parts lower now status_at status_key_of tenant_id source_type

    persist_checkpoint-join :
        (before : Stats) (next_c : Text) (c : Crawl parts)
        → persist_checkpoint parts lower now status_at status_key_of tenant_id source_type next_c
            (join before c)
          ≡ join_option before (
              persist_checkpoint parts lower now status_at status_key_of tenant_id source_type
                next_c c)
    unfolding persist_checkpoint
    persist_checkpoint-join before next_c c = ground arith

    end_page-join :
        (before : Stats) (next : Option Text) (has_more retried : Bool) (c : Crawl parts)
        → ending next has_more retried (join before c)
          ≡ join_round before (ending next has_more retried c)
    unfolding end_page persist_checkpoint
    end_page-join before none has_more retried c = ground arith
    end_page-join before (some next_c) has_more retried c = ground arith

    delta_answer-join :
        (before : Stats) (answer : Delta parts.Raw) (cursor : Option Text) (retried : Bool)
        (c : Crawl parts)
        → delta_answer parts lower now status_at status_key_of tenant_id source_type answer cursor
            retried
            (join before c)
          ≡ join_round before (
              delta_answer parts lower now status_at status_key_of tenant_id source_type answer
                cursor retried c)
    unfolding delta_answer persist_checkpoint
    delta_answer-join before delta_unauthorized cursor retried c = refl
    delta_answer-join before (delta_failed err) cursor retried c = ground arith
    delta_answer-join before (delta_page documents next has_more) cursor retried c =
        rw (index_page-join before documents c, delta_answer)
          (elim (Option-cases (index_page parts documents c)) [
            | inl e ↦ rw (e, delta_answer) refl
            | inr (c', e) ↦ rw (e, delta_answer) (end_page-join before next has_more retried c')
          ])

    delta_pass-join :
        (before : Stats) (fuel : ℕ) (cursor : Option Text) (retried : Bool) (c : Crawl parts)
        → pass fuel cursor retried (join before c)
          ≡ join_outcome before (pass fuel cursor retried c)
    unfolding delta_pass delta_round
    delta_pass-join before zero cursor retried c = refl
    delta_pass-join before (suc fuel) cursor retried c =
        rw (delta_answer-join before (parts.fetch_delta cursor) cursor retried c, delta_round)
          (continue-join before (pass fuel)
            (λ next retried' c'. delta_pass-join before fuel next retried' c')
            (round cursor retried c))

    abbrev stored : Crawl parts → Option Text
    stored c = get_cursor tenant_id source_type c.cursors

    -- The cursor at hand is the one that is stored and the one that the stats have.
    abbrev IsSaved : Option Text → Crawl parts → Type 0
    IsSaved cursor c = (stored c ≡ cursor) × (c.stats.final_cursor ≡ cursor)

    end_page-IsSaved :
        (next cursor' : Option Text) (has_more retried retried' : Bool) (c c' : Crawl parts)
        → ending next has_more retried c ≡ again cursor' retried' c'
        → IsSaved cursor' c'
    unfolding end_page persist_checkpoint
    end_page-IsSaved none cursor' has_more retried retried' c c' h = cc
    end_page-IsSaved (some next_c) cursor' has_more retried retried' c c' h =
        ground (arith, h, get_cursor-update_cursor now tenant_id source_type next_c c.cursors)

    delta_answer-IsSaved :
        (answer : Delta parts.Raw) (cursor cursor' : Option Text) (retried retried' : Bool)
        (c c' : Crawl parts)
        → delta_answer parts lower now status_at status_key_of tenant_id source_type answer cursor
            retried c
          ≡ again cursor' retried' c'
        → IsSaved cursor' c'
    unfolding delta_answer persist_checkpoint
    delta_answer-IsSaved delta_unauthorized cursor cursor' retried retried' c c' h = cc
    delta_answer-IsSaved (delta_failed err) cursor cursor' retried retried' c c' h =
        ground (arith, h, get_cursor-update_cursor now tenant_id source_type [] c.cursors)
    delta_answer-IsSaved (delta_page documents next has_more) cursor cursor' retried retried' c c'
          h =
        elim (Option-cases (index_page parts documents c)) [
          | inl e ↦ ground (arith, e, h)
          | inr (indexed, e) ↦
              end_page-IsSaved next cursor' has_more retried retried' indexed c'
                (ground (arith, e, h))
        ]

    -- A pass that was stopped after `m` rounds goes on from what it had then.
    abbrev Follows : ℕ → Type 0
    Follows m =
        (cursor cursor' : Option Text) (retried retried' : Bool) (c c' : Crawl parts)
        → IsSaved cursor c
        → pass m cursor retried c ≡ stopped cursor' retried' c'
        → IsSaved cursor' c'
          × ((n : ℕ) → pass (m + n) cursor retried c ≡ pass n cursor' retried' c')

    round-Follows :
        (m : ℕ)
        → Follows m
        → (r : Round parts) (cursor cursor' : Option Text) (retried retried' : Bool)
          (c c' : Crawl parts)
        → round cursor retried c ≡ r
        → continue parts (pass m) r ≡ stopped cursor' retried' c'
        → IsSaved cursor' c'
          × ((n : ℕ) → pass (suc (m + n)) cursor retried c ≡ pass n cursor' retried' c')
    unfolding delta_pass delta_round
    round-Follows m ih (again next retried_now now_c) cursor cursor' retried retried' c c' e h =
        let saved =
          delta_answer-IsSaved (parts.fetch_delta cursor) cursor next retried retried_now c now_c
            e in
        let (last, follows) = ih next cursor' retried_now retried' now_c c' saved h in
        (last, λ n. rw (e, delta_pass) (follows n))
    round-Follows m ih (done now_c) cursor cursor' retried retried' c c' e h = cc
    round-Follows m ih (propagated now_c) cursor cursor' retried retried' c c' e h = cc

    delta_pass-Follows : (m : ℕ) → Follows m
    unfolding delta_pass
    delta_pass-Follows zero cursor cursor' retried retried' c c' saved h =
        (ground (arith, saved, h), λ n. let e : 0 + n ≡ n = omega arith in rw e (ground (arith, h)))
    delta_pass-Follows (suc m) cursor cursor' retried retried' c c' saved h =
        let (last, follows) =
          round-Follows m (delta_pass-Follows m) (round cursor retried c) cursor cursor' retried
            retried' c c' refl h in
        (last, λ n. let e : suc m + n ≡ suc (m + n) = omega arith in rw e (follows n))

    -- The crawl that a task starts anew, with the cursor that is stored.
    abbrev pub restarted : Crawl parts → Crawl parts
    restarted c = record { index = c.index; cursors = c.cursors; stats = new_stats (stored c) }

    join-restarted :
        (c : Crawl parts) → c.stats.final_cursor ≡ stored c → join c.stats (restarted c) ≡ c
    join-restarted c e = ground (arith, e, append-nil c.stats.indexed_ids)

    -- A crawl that is killed after any number of rounds loses nothing: the crawl that starts anew with the
    -- stored cursor, in what is then indexed and stored, ends as the crawl that was not killed would
    -- have, with the same index and cursors, and the stats of the two parts add up to the stats of
    -- the whole. This is for a crawl that starts with the stored cursor and that has not reset an
    -- invalid cursor before it is killed.
    pub delta_pass_resumed :
        (m n : ℕ) (cursor cursor' : Option Text) (c c' : Crawl parts)
        → get_cursor tenant_id source_type c.cursors ≡ cursor
        → c.stats.final_cursor ≡ cursor
        → pass m cursor false c ≡ stopped cursor' false c'
        → pass (m + n) cursor false c
          ≡ join_outcome c'.stats
              (pass n (get_cursor tenant_id source_type c'.cursors) false (restarted c'))
    delta_pass_resumed m n cursor cursor' c c' in_table in_stats killed =
        let ((table', stats'), follows) =
          delta_pass-Follows m cursor cursor' false false c c' (in_table, in_stats) killed in
        follows n
        ∙ ap (λ x. pass n x false c') (sym table')
        ∙ ap (pass n (stored c') false) (sym (join-restarted c' (stats' ∙ sym table')))
        ∙ delta_pass-join c'.stats n (stored c') false (restarted c')
