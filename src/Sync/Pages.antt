-- ===== src/Sync/Pages.antt =====
-- A crawl of a connector whose pages come to an end.
use sync_ai_final.Base.{
  if◌then◌else◌, Bool-cases, Option-cases, nat_eq, list_eq, option_eq, pair_eq, length, is_empty,
  Text, nonempty, ℕ, suc, ◌+◌, ◌≡◌, refl, sym, ap, ◌∙◌, inl, inr, Bool, true, false, ◌&&◌, Option,
  none, some, List, [], ◌∷◌, arith,
}
use sync_ai_final.Models.{Time}
use sync_ai_final.Connectors.{Client, is_disconnected}
use sync_ai_final.Cursors.{update_cursor}
use sync_ai_final.Sync.{
  delta_page, Pipeline, is_given, Parts, Crawl, Round, again, done, Outcome, finished, page_docs,
  add_docs, index_docs, index_page, persist_checkpoint, end_page, delta_answer, delta_round,
  delta_pass,
}

some_inj {ℓ} : {A : Type ℓ} {a b : A} → some a ≡ some b → a ≡ b
some_inj h = cc

module _ (parts : Parts) where
  -- From the cursor on, the connector serves the page `p` and then the pages `ps`, and no more.
  abbrev pub Serves : Option Text → List parts.Raw → List (List parts.Raw) → Type 0
  Serves cursor p [] =
      (next : Option Text) × (has_more : Bool) × (parts.fetch_delta cursor
        ≡ delta_page p next has_more)
      × ((has_more && is_given next) ≡ false)
  Serves cursor p (q ∷ ps) =
      (next : Text) × (parts.fetch_delta cursor ≡ delta_page p (some next) true)
      × (nonempty next ≡ true)
      × Serves (some next) q ps

  -- What the documents of a page make of the index.
  abbrev page_index : List parts.Raw → parts.Index → Option parts.Index
  page_index [] i = some i
  page_index (raw ∷ raws) i = elim (page_docs parts (raw ∷ raws)) [
    | none ↦ none
    | some (docs, pipeline) ↦ if is_empty docs then some i else parts.bulk_index docs i
  ]

  -- The pages, one after the other, in the index; `none` is an exception.
  abbrev pub index_pages : List parts.Raw → List (List parts.Raw) → parts.Index → Option parts.Index
  index_pages p [] i = page_index p i
  index_pages p (q ∷ ps) i = elim (page_index p i) [ none ↦ none | some i' ↦ index_pages q ps i' ]

  index_docs-index :
      (docs : List parts.Doc) (pipeline : Pipeline) (c : Crawl parts) (i : parts.Index)
      → (if is_empty docs then some c.index else parts.bulk_index docs c.index) ≡ some i
      → (c' : Crawl parts) × (index_docs parts docs pipeline c ≡ some c')
        × (c'.index ≡ i)
        × (c'.stats.pages_processed ≡ c.stats.pages_processed)
  unfolding index_docs add_docs
  index_docs-index [] pipeline c i h = (_, refl, some_inj h, refl)
  index_docs-index (d ∷ ds) pipeline c i h =
      (add_docs parts (d ∷ ds) pipeline i c, rw (h, index_docs) refl, refl, refl)

  index_page-page_index :
      (p : List parts.Raw) (c : Crawl parts) (i : parts.Index)
      → page_index p c.index ≡ some i
      → (c' : Crawl parts) × (index_page parts p c ≡ some c')
        × (c'.index ≡ i)
        × (c'.stats.pages_processed ≡ c.stats.pages_processed)
  unfolding index_page
  index_page-page_index [] c i h = (c, refl, some_inj h, refl)
  index_page-page_index (raw ∷ raws) c i h = elim (Option-cases (page_docs parts (raw ∷ raws))) [
    | inl e ↦ ground (arith, e, h)
    | inr ((docs, pipeline), e) ↦
        let (c', indexed, same, counted) =
          index_docs-index docs pipeline c i (sym (rw (e, page_index) refl) ∙ h) in
        (c', rw (e, index_page) indexed, same, counted)
  ]

  index_pages_first :
      (p q : List parts.Raw) (ps : List (List parts.Raw)) (i last : parts.Index)
      → index_pages p (q ∷ ps) i ≡ some last
      → (i' : parts.Index) × (page_index p i ≡ some i') × (index_pages q ps i' ≡ some last)
  index_pages_first p q ps i last h = elim (Option-cases (page_index p i)) [
    | inl e ↦ ground (arith, e, h)
    | inr (i', e) ↦ (i', e, sym (rw (e, index_pages) refl) ∙ h)
  ]

  module _ (lower : Text → Text) (now : Time) (status_at : Text → Client) (status_key_of : Text)
      (tenant_id source_type : Text) where
    abbrev pub crawl : ℕ → Option Text → Bool → Crawl parts → Outcome parts
    crawl = delta_pass parts lower now status_at status_key_of tenant_id source_type

    abbrev ending : Option Text → Bool → Bool → Crawl parts → Round parts
    ending = end_page parts lower now status_at status_key_of tenant_id source_type

    abbrev counted : Crawl parts → Crawl parts
    counted c = record {
      index = c.index;
      cursors = c.cursors;
      stats = record c.stats { pages_processed = suc c.stats.pages_processed };
    }

    abbrev saved : Text → Crawl parts → Crawl parts
    saved next_c c = record {
      index = c.index;
      cursors = update_cursor now tenant_id source_type next_c c.cursors;
      stats = record c.stats {
        pages_processed = suc c.stats.pages_processed;
        final_cursor = some next_c;
      };
    }

    -- The round has indexed nothing more and has counted its page.
    abbrev Counted : Crawl parts → Crawl parts → Type 0
    Counted c c' = (c'.index ≡ c.index) × (c'.stats.pages_processed ≡ suc c.stats.pages_processed)

    module _
        (connected : (next : Text) → is_disconnected status_key_of (status_at next) ≡ false) where
      end_page-done :
          (next : Option Text) (has_more retried : Bool) (c : Crawl parts)
          → (has_more && is_given next) ≡ false
          → (c' : Crawl parts) × (ending next has_more retried c ≡ done c') × Counted c c'
      unfolding end_page persist_checkpoint
      end_page-done none has_more retried c h = (counted c, refl, (refl, refl))
      end_page-done (some next_c) has_more retried c h = elim (Bool-cases (nonempty next_c)) [
        | inl given ↦
            let off : has_more ≡ false = ground (arith, h, given) in
            (
              saved next_c c,
              rw (given, end_page) (rw (connected next_c, persist_checkpoint) (rw off refl)),
              (refl, refl),
            )
        | inr blank ↦ (counted c, rw (blank, end_page) refl, (refl, refl))
      ]

      end_page-again :
          (next : Text) (retried : Bool) (c : Crawl parts)
          → nonempty next ≡ true
          → (c' : Crawl parts) × (ending (some next) true retried c ≡ again (some next) retried c')
            × Counted c c'
      unfolding end_page persist_checkpoint
      end_page-again next retried c given = (
        saved next c,
        rw (given, end_page) (rw (connected next, persist_checkpoint) refl),
        (refl, refl),
      )

    -- A crawl of a connector that serves finitely many pages, that can all be indexed one after the
    -- other, and that is not disconnected on the way, finishes within as many rounds as there are pages,
    -- or any more; its index is that of all pages in their order, and it has counted them all.
    pub delta_pass-Serves :
        (k : ℕ) (p : List parts.Raw) (ps : List (List parts.Raw)) (cursor : Option Text)
        (retried : Bool) (c : Crawl parts) (i : parts.Index)
        → ((next : Text) → is_disconnected status_key_of (status_at next) ≡ false)
        → Serves cursor p ps
        → index_pages p ps c.index ≡ some i
        → (c' : Crawl parts) × (crawl (suc (length ps) + k) cursor retried c ≡ finished c')
          × (c'.index ≡ i)
          × (c'.stats.pages_processed ≡ c.stats.pages_processed + suc (length ps))
    unfolding delta_pass delta_round delta_answer
    delta_pass-Serves k p [] cursor retried c i connected (next, has_more, e, over) h =
        let (c1, indexed, same, pages) = index_page-page_index p c i h in
        let (c2, ended, (kept, counted_page)) =
          end_page-done connected next has_more retried c1 over in
        let steps : suc 0 + k ≡ suc k = omega arith in
        (
          c2,
          rw steps (rw (e, delta_pass) (rw (indexed, delta_answer) (rw ended refl))),
          kept ∙ same,
          omega (arith, counted_page, pages),
        )
    delta_pass-Serves k p (q ∷ ps) cursor retried c i connected (next, e, given, served) h =
        let (i1, found, rest) = index_pages_first p q ps c.index i h in
        let (c1, indexed, same, pages) = index_page-page_index p c i1 found in
        let (c2, ended, (kept, counted_page)) = end_page-again connected next retried c1 given in
        let (c', finishes, index', pages') =
          delta_pass-Serves k q ps (some next) retried c2 i connected served
            (ap (index_pages q ps) (kept ∙ same) ∙ rest) in
        let steps : suc (suc (length ps)) + k ≡ suc (suc (length ps) + k) = omega arith in
        (
          c',
          rw steps (rw (e, delta_pass) (rw (indexed, delta_answer) (rw ended finishes))),
          index',
          omega (arith, pages', counted_page, pages),
        )
