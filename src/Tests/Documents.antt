-- ===== src/Tests/Documents.antt =====
-- One stored document with its rows.
use sync_ai_final.Base.{nat_eq, list_eq, option_eq, pair_eq, [], ◌∷◌}
use sync_ai_final.Store.{Repo}
use sync_ai_final.Tests.Samples.{doc_a, stored, document}

abbrev full : Repo
full = record stored { documents = (doc_a, document) ∷ [] }
